-- ===== src/Health/Databases.antt =====
-- What checkMaxMind of internal/services/health/health.go says of databases that
-- pkg/maxmind/reader.go could not open.
use insight_collector.Prelude.{
  ℕ, ◌+◌, ◌-◌, ◌≤◌, String, true, false, Option, none, some, ltb, eqb, ◌≡◌, ◌≢◌, arith, ◌∙◌, ap,
  sym,
}
use insight_collector.GeoIp.{
  GeoLocation, AsnInfo, CacheEntry, CityReader, Lru, Times, default_geo_location,
}
use insight_collector.GeoIp.Reader.{
  File, Files, GeoReader, reader_of, mod_time_of, lookup_city, load_databases,
}
use insight_collector.GeoIp.Reader.Loading.{lookup_city-load_unopened}
use insight_collector.Health.{Probes, Texts, check_max_mind, two_weeks}

check_max_mind-healthy :
    (texts : Texts) (p : Probes)
    → p.maxmind_enabled ≡ true
    → p.maxmind_info.loaded_at ≢ 0
    → p.maxmind_now ≤ p.maxmind_info.city_db_mod_time + two_weeks
    → (check_max_mind texts p).status ≡ "healthy"
unfolding check_max_mind
check_max_mind-healthy texts p on loaded young =
    let is_loaded : eqb p.maxmind_info.loaded_at 0 ≡ false = ground arith in
    let is_young : ltb two_weeks (p.maxmind_now - p.maxmind_info.city_db_mod_time) ≡ false =
      ground arith in
    simp (on, is_loaded, is_young)

module _ {Addr CityCache AsnCache : Type 0} (parse_addr : String → Option Addr)
    (city_lru : Lru CityCache (CacheEntry GeoLocation))
    (asn_lru : Lru AsnCache (CacheEntry AsnInfo)) where
  -- When a city file of the last two weeks cannot be opened, the check of MaxMind after its load is
  -- "healthy", while each lookup of a city answers with the defaults.
  pub unopened_database_looks_healthy :
      (texts : Texts) (files : Files Addr) (f : File (CityReader Addr)) (now : ℕ)
      (r : GeoReader Addr CityCache AsnCache) (p : Probes) (t : Times) (ip : String)
      → files.city ≡ some f
      → f.opened ≡ none
      → now ≢ 0
      → p.maxmind_enabled ≡ true
      → p.maxmind_info ≡ (load_databases parse_addr city_lru asn_lru files now r).db_info
      → p.maxmind_now ≤ f.mod_time + two_weeks
      → ((check_max_mind texts p).status ≡ "healthy")
        × ((lookup_city parse_addr city_lru asn_lru t ip
              (load_databases parse_addr city_lru asn_lru files now r)).0
            ≡ default_geo_location ip t.started)
  unfolding load_databases
  unopened_database_looks_healthy texts files f now r p t ip present closed given on info young =
      let loaded : p.maxmind_info.loaded_at ≡ now = ap (λ i. i.loaded_at) info in
      let dated : p.maxmind_info.city_db_mod_time ≡ f.mod_time =
        ap (λ i. i.city_db_mod_time) info
        ∙ ap (λ c. mod_time_of c r.db_info.city_db_mod_time) present in
      (
        check_max_mind-healthy texts p on (λ e. given (sym loaded ∙ e))
            (omega (arith, dated, young)),
        lookup_city-load_unopened parse_addr city_lru asn_lru files now r t ip
            (ap reader_of present ∙ closed),
      )
