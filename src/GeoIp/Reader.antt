-- ===== src/GeoIp/Reader.antt =====
-- SafeGeoIPReader of pkg/maxmind/reader.go: its state and its operations, each one step. The
-- parser of durations and lru.New are parameters of its making.
pub mod Caching
pub mod Loading
pub mod Interleaving
use insight_collector.Prelude.{
  ℕ, ◌+◌, String, Bool, true, false, ◌&&◌, ◌||◌, not, Option, none, some, List, [], ◌∷◌, ◌==◌,
  if◌then◌else◌, ltb, Result, ok, err, ◌≡◌,
}
use insight_collector.GeoIp.{
  GeoLocation, AsnInfo, CityReader, AsnReader, CacheEntry, Lru, Times, default_geo_location,
  default_asn_info, perform_city_db_lookup, perform_asn_db_lookup, lookup, purged,
}

-- A file as os.Stat shows it, and its reader if geoip2.Open succeeds
pub record File (R : Type 0) : Type 0 where
  pub size : ℕ
  pub mod_time : ℕ
  pub opened : Option R

-- The two files of the storage, if they are there
pub record Files (Addr : Type 0) : Type 0 where
  pub city : Option (File (CityReader Addr))
  pub asn : Option (File (AsnReader Addr))

pub record DatabaseInfo : Type 0 where
  pub city_db_size : ℕ
  pub city_db_mod_time : ℕ
  pub asn_db_size : ℕ
  pub asn_db_mod_time : ℕ
  pub loaded_at : ℕ
  pub reload_count : ℕ

-- SafeGeoIPReader with the part of its configuration that it reads
pub record GeoReader (Addr CityCache AsnCache : Type 0) : Type 0 where
  pub enabled : Bool
  pub city_reader : Option (CityReader Addr)
  pub asn_reader : Option (AsnReader Addr)
  pub last_city_mod_time : ℕ
  pub last_asn_mod_time : ℕ
  pub db_info : DatabaseInfo
  pub city_cache : Option CityCache
  pub asn_cache : Option AsnCache
  pub cache_ttl : ℕ

pub data HealthError : Type 0 where
  no_databases : HealthError

abbrev pub reader_of : {R : Type 0} → Option (File R) → Option R
reader_of none = none
reader_of (some f) = f.opened

abbrev pub is_loaded : {R : Type 0} → Option R → Bool
is_loaded none = false
is_loaded (some _) = true

abbrev pub size_of : {R : Type 0} → Option (File R) → ℕ → ℕ
size_of none before = before
size_of (some f) before = f.size

abbrev pub mod_time_of : {R : Type 0} → Option (File R) → ℕ → ℕ
mod_time_of none before = before
mod_time_of (some f) before = f.mod_time

abbrev pub changed_since : {R : Type 0} → ℕ → Option (File R) → Bool
changed_since last none = false
changed_since last (some f) = ltb last f.mod_time

module _ {Addr CityCache AsnCache : Type 0} (parse_addr : String → Option Addr)
    (city_lru : Lru CityCache (CacheEntry GeoLocation))
    (asn_lru : Lru AsnCache (CacheEntry AsnInfo)) where
  unfoldable pub lookup_city :
      Times
      → String
      → GeoReader Addr CityCache AsnCache
      → GeoLocation × GeoReader Addr CityCache AsnCache
  lookup_city t ip r =
      let found =
        lookup city_lru r.cache_ttl t (perform_city_db_lookup parse_addr r.city_reader t) ip
          r.city_cache in
      if not r.enabled
      then (default_geo_location ip t.started, r)
      else (found.0, record r { city_cache = found.1 })

  unfoldable pub lookup_asn :
      Times
      → String
      → GeoReader Addr CityCache AsnCache
      → AsnInfo × GeoReader Addr CityCache AsnCache
  lookup_asn t ip r =
      let found =
        lookup asn_lru r.cache_ttl t (perform_asn_db_lookup parse_addr r.asn_reader t) ip
          r.asn_cache in
      if not r.enabled
      then (default_asn_info ip t.started, r)
      else (found.0, record r { asn_cache = found.1 })

  -- updateDatabaseInfo; the paths do not change.
  abbrev pub update_database_info : Files Addr → ℕ → DatabaseInfo → DatabaseInfo
  update_database_info files now info = record {
    city_db_size = size_of files.city info.city_db_size;
    city_db_mod_time = mod_time_of files.city info.city_db_mod_time;
    asn_db_size = size_of files.asn info.asn_db_size;
    asn_db_mod_time = mod_time_of files.asn info.asn_db_mod_time;
    loaded_at = now;
    reload_count = info.reload_count + 1;
  }

  -- A file that cannot be opened leaves no reader, and its time counts as loaded.
  unfoldable pub load_databases :
      Files Addr → ℕ → GeoReader Addr CityCache AsnCache → GeoReader Addr CityCache AsnCache
  load_databases files now r = record r {
    city_reader = reader_of files.city;
    asn_reader = reader_of files.asn;
    last_city_mod_time = mod_time_of files.city r.last_city_mod_time;
    last_asn_mod_time = mod_time_of files.asn r.last_asn_mod_time;
    db_info = update_database_info files now r.db_info;
    city_cache = purged city_lru r.city_cache;
    asn_cache = purged asn_lru r.asn_cache;
  }

  unfoldable pub needs_reload : Files Addr → GeoReader Addr CityCache AsnCache → Bool
  needs_reload files r =
      changed_since r.last_city_mod_time files.city || changed_since r.last_asn_mod_time files.asn

  -- A tick of the periodic checker
  unfoldable pub check_tick :
      Files Addr → ℕ → GeoReader Addr CityCache AsnCache → GeoReader Addr CityCache AsnCache
  check_tick files now r = if needs_reload files r then load_databases files now r else r

  unfoldable pub reload_databases :
      Files Addr → ℕ → GeoReader Addr CityCache AsnCache → GeoReader Addr CityCache AsnCache
  reload_databases files now r = if not r.enabled then r else load_databases files now r

  unfoldable pub health : GeoReader Addr CityCache AsnCache → Result HealthError (Unit {0})
  health r =
      if not r.enabled
      then ok tt
      else if not (is_loaded r.city_reader) && not (is_loaded r.asn_reader)
      then err no_databases
      else ok tt

  unfoldable pub close : GeoReader Addr CityCache AsnCache → GeoReader Addr CityCache AsnCache
  close r = record r { city_reader = none; asn_reader = none; city_cache = none; asn_cache = none }

  -- initCaches: the parsed duration and the two results of lru.New, if caching is on
  unfoldable pub init_caches :
      Bool
      → Option ℕ
      → Option CityCache
      → Option AsnCache
      → GeoReader Addr CityCache AsnCache
      → GeoReader Addr CityCache AsnCache
  init_caches caching ttl city asn r = if not caching then r else elim ttl [
    | none ↦ r
    | some d ↦ elim city [
      | none ↦ record r { cache_ttl = d }
      | some c ↦ record r { cache_ttl = d; city_cache = some c; asn_cache = asn }
    ]
  ]

  abbrev pub unloaded : Bool → GeoReader Addr CityCache AsnCache
  unloaded enabled = record {
    enabled = enabled;
    city_reader = none;
    asn_reader = none;
    last_city_mod_time = 0;
    last_asn_mod_time = 0;
    db_info = record {
      city_db_size = 0;
      city_db_mod_time = 0;
      asn_db_size = 0;
      asn_db_mod_time = 0;
      loaded_at = 0;
      reload_count = 0;
    };
    city_cache = none;
    asn_cache = none;
    cache_ttl = 0;
  }

  unfoldable pub new_safe_geo_ip_reader :
      Bool
      → Bool
      → Option ℕ
      → Option CityCache
      → Option AsnCache
      → Files Addr
      → ℕ
      → GeoReader Addr CityCache AsnCache
  new_safe_geo_ip_reader enabled caching ttl city asn files now =
      if not enabled
      then unloaded enabled
      else load_databases files now (init_caches caching ttl city asn (unloaded enabled))

  -- An enabled reader looks a city up in its cache and its database.
  pub lookup_city_enabled :
      (t : Times) (ip : String) (r : GeoReader Addr CityCache AsnCache)
      → r.enabled ≡ true
      → (lookup_city t ip r).0
        ≡ (lookup city_lru r.cache_ttl t
            (perform_city_db_lookup parse_addr r.city_reader t)
            ip
            r.city_cache).0
  unfolding lookup_city
  lookup_city_enabled t ip r on = simp (on)
