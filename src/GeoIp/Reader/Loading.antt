-- ===== src/GeoIp/Reader/Loading.antt =====
-- What loading does in pkg/maxmind/reader.go when a database is missing or cannot be opened.
use insight_collector.Prelude.{
  ℕ, String, false, Option, none, some, ok, ◌≡◌, refl, Bool-cases, ◌≢◌, Option-cases, inl, inr, ap,
  ◌∙◌, arith,
}
use insight_collector.GeoIp.{
  GeoLocation, AsnInfo, CacheEntry, Lru, Times, default_geo_location, perform_city_db_lookup,
  cached, lookup, purged,
}
use insight_collector.GeoIp.Reader.{
  File, Files, GeoReader, reader_of, lookup_city_enabled, mod_time_of, changed_since, lookup_city,
  load_databases, needs_reload, health,
}

unchanged :
    {R : Type 0} (last : ℕ) (file : Option (File R))
    → changed_since (mod_time_of file last) file ≡ false
unchanged last none = refl
unchanged last (some f) = ground arith

lookup-purged :
    {C V : Type 0} (lru : Lru C (CacheEntry V)) (ttl : ℕ) (t : Times) (perform : String → V)
    (ip : String) (cache : Option C)
    → (lookup lru ttl t perform ip (purged lru cache)).0 ≡ perform ip
unfolding lookup cached
lookup-purged lru ttl t perform ip none = refl
lookup-purged lru ttl t perform ip (some c) = rw (lookup, lru.get-purge ip c) refl

module _ {Addr CityCache AsnCache : Type 0} (parse_addr : String → Option Addr)
    (city_lru : Lru CityCache (CacheEntry GeoLocation))
    (asn_lru : Lru AsnCache (CacheEntry AsnInfo)) where
  needs_reload-load_databases :
      (files : Files Addr) (now : ℕ) (r : GeoReader Addr CityCache AsnCache)
      → needs_reload parse_addr city_lru asn_lru files
          (load_databases parse_addr city_lru asn_lru files now r)
        ≡ false
  unfolding needs_reload load_databases
  needs_reload-load_databases files now r =
      rw (unchanged r.last_city_mod_time files.city, unchanged r.last_asn_mod_time files.asn) refl

  health-load_databases :
      (files : Files Addr) (now : ℕ) (r : GeoReader Addr CityCache AsnCache)
      → reader_of files.city ≡ none
      → reader_of files.asn ≢ none
      → health parse_addr city_lru asn_lru (load_databases parse_addr city_lru asn_lru files now r)
        ≡ ok tt
  unfolding health load_databases
  health-load_databases files now r missing other = elim (Option-cases (reader_of files.asn)) [
    | inl none_too ↦ absurd (other none_too)
    | inr (find, is) ↦ elim (Bool-cases r.enabled) [
      | inl on ↦ rw (health, missing, is, on) refl
      | inr off ↦ rw (health, missing, is, off) refl
    ]
  ]

  pub lookup_city-load_unopened :
      (files : Files Addr) (now : ℕ) (r : GeoReader Addr CityCache AsnCache) (t : Times)
      (ip : String)
      → reader_of files.city ≡ none
      → (lookup_city parse_addr city_lru asn_lru t ip
          (load_databases parse_addr city_lru asn_lru files now r)).0
        ≡ default_geo_location ip t.started
  unfolding lookup_city load_databases perform_city_db_lookup
  lookup_city-load_unopened files now r t ip missing =
      let loaded = load_databases parse_addr city_lru asn_lru files now r in
      let perform = perform_city_db_lookup parse_addr in
      let answer =
        lookup-purged city_lru r.cache_ttl t (perform (reader_of files.city) t) ip r.city_cache
        ∙ ap (λ reader. perform reader t ip) missing in
      elim (Bool-cases r.enabled) [
        | inr off ↦ rw (lookup_city, off) refl
        | inl on ↦ lookup_city_enabled parse_addr city_lru asn_lru t ip loaded on ∙ answer
      ]

  -- A load that finds no city database that can be opened drops the reader that was loaded before:
  -- every lookup of a city then answers with the defaults, the files as they are give no reason for
  -- another load, and the health check is content where the other database is loaded.
  pub unopened_database_drops_reader :
      (files : Files Addr) (now : ℕ) (r : GeoReader Addr CityCache AsnCache) (t : Times)
      (ip : String)
      → reader_of files.city ≡ none
      → reader_of files.asn ≢ none
      → let loaded = load_databases parse_addr city_lru asn_lru files now r in
        ((lookup_city parse_addr city_lru asn_lru t ip loaded).0
          ≡ default_geo_location ip t.started)
        × (needs_reload parse_addr city_lru asn_lru files loaded ≡ false)
        × (health parse_addr city_lru asn_lru loaded ≡ ok tt)
  unopened_database_drops_reader files now r t ip missing other = (
    lookup_city-load_unopened files now r t ip missing,
    needs_reload-load_databases files now r,
    health-load_databases files now r missing other,
  )
