-- ===== src/GeoIp/Reader/Interleaving.antt =====
-- A lookup of pkg/maxmind/reader.go that a reload overtakes: LookupCity holds the lock only while it
-- takes the reader, and writes its answer to the cache later.
use insight_collector.Prelude.{
  ℕ, ◌+◌, ◌≤◌, String, true, false, Option, none, some, ltb, ◌≡◌, refl, arith, ◌∙◌,
}
use insight_collector.GeoIp.{
  GeoLocation, AsnInfo, CityReader, CacheEntry, Lru, Times, perform_city_db_lookup, cached,
  cache_result, lookup,
}
use insight_collector.GeoIp.Reader.{
  Files, GeoReader, reader_of, lookup_city, lookup_city_enabled, load_databases,
}

lookup-cache_result :
    {C V : Type 0} (lru : Lru C (CacheEntry V)) (ttl now : ℕ) (t : Times) (perform : String → V)
    (ip : String) (v : V) (c : C)
    → t.checked ≤ now + ttl
    → (lookup lru ttl t perform ip (cache_result lru now ttl ip v (some c))).0 ≡ v
unfolding lookup cached cache_result
lookup-cache_result lru ttl now t perform ip v c early =
    let valid : ltb (now + ttl) t.checked ≡ false = ground arith in
    rw (lookup, lru.get-add_self ip (record { data_of = v; expires_at = now + ttl }) c, valid) refl

module _ {Addr CityCache AsnCache : Type 0} (parse_addr : String → Option Addr)
    (city_lru : Lru CityCache (CacheEntry GeoLocation))
    (asn_lru : Lru AsnCache (CacheEntry AsnInfo)) where
  -- The rest of LookupCity after a miss, with the reader that it has taken
  unfoldable pub finish_lookup_city :
      Times
      → String
      → Option (CityReader Addr)
      → GeoReader Addr CityCache AsnCache
      → GeoLocation × GeoReader Addr CityCache AsnCache
  finish_lookup_city t ip reader r =
      let result = perform_city_db_lookup parse_addr reader t ip in
      (
        result,
        record r { city_cache = cache_result city_lru t.stored r.cache_ttl ip result r.city_cache },
      )

  -- Without another step in between, a lookup that misses the cache is its two parts.
  pub lookup_city-finish_lookup_city :
      (t : Times) (ip : String) (r : GeoReader Addr CityCache AsnCache)
      → r.enabled ≡ true
      → (cached city_lru t.checked ip r.city_cache).0 ≡ none
      → lookup_city parse_addr city_lru asn_lru t ip r
        ≡ finish_lookup_city t ip r.city_reader
            (record r { city_cache = (cached city_lru t.checked ip r.city_cache).1 })
  unfolding lookup_city lookup finish_lookup_city
  lookup_city-finish_lookup_city t ip r on miss = rw (lookup_city, lookup, miss, on) refl

  -- When the databases are loaded between the two parts of a lookup, later lookups of the address
  -- are answered from the database before the load, until the entry of the cache expires or goes.
  pub overtaken_lookup_is_stale :
      (t t' : Times) (ip : String) (files : Files Addr) (now : ℕ)
      (r : GeoReader Addr CityCache AsnCache) (c : CityCache)
      → r.enabled ≡ true
      → r.city_cache ≡ some c
      → t'.checked ≤ t.stored + r.cache_ttl
      → let loaded = load_databases parse_addr city_lru asn_lru files now r in
        let finished = finish_lookup_city t ip r.city_reader loaded in
        (lookup_city parse_addr city_lru asn_lru t' ip (finished.1)).0
        ≡ perform_city_db_lookup parse_addr r.city_reader t ip
  unfolding lookup_city lookup load_databases finish_lookup_city cached cache_result
  overtaken_lookup_is_stale t t' ip files now r c on given early =
      let loaded = load_databases parse_addr city_lru asn_lru files now r in
      let v = perform_city_db_lookup parse_addr r.city_reader t ip in
      lookup_city_enabled parse_addr city_lru asn_lru t' ip
        ((finish_lookup_city t ip r.city_reader loaded).1) on
      ∙ rw given (
          lookup-cache_result city_lru r.cache_ttl t.stored t'
            (perform_city_db_lookup parse_addr (reader_of files.city) t') ip v (city_lru.purge c)
            early)
