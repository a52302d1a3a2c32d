-- ===== src/GeoIp.antt =====
-- pkg/maxmind/types.go and reader.go: lookups in the two GeoIP databases with their caches, and the
-- loading of the databases. The reader of a database and the LRU cache belong to libraries: they
-- are `CityReader`, `AsnReader` and `Lru`. Times and durations are nanoseconds, floats their bits.
pub mod Config
pub mod Reader
use Prim.Native.String
use insight_collector.Prelude.{
  ℕ, ◌+◌, String, Bool, true, false, ◌&&◌, ◌||◌, not, Option, none, some, List, [], ◌∷◌, ◌==◌,
  if◌then◌else◌, ltb, ◌≡◌, ◌≢◌, ◌⊎◌,
}

pub record GeoLocation : Type 0 where
  pub ip : String
  pub country : String
  pub country_code : String
  pub city : String
  pub region : String
  pub postal_code : String
  pub latitude : ℕ
  pub longitude : ℕ
  pub timezone : String
  pub looked_up_at : ℕ

pub record AsnInfo : Type 0 where
  pub ip : String
  pub asn : ℕ
  pub organization : String
  pub looked_up_at : ℕ

-- What is read of geoip2's records
pub record CityRecord : Type 0 where
  pub country_name : String
  pub iso_code : String
  pub city_name : String
  pub subdivisions : List String
  pub postal_code : String
  pub latitude : Option ℕ
  pub longitude : Option ℕ
  pub time_zone : String

pub record AsnRecord : Type 0 where
  pub autonomous_system_number : ℕ
  pub organization : String

-- geoip2.Reader, by the answers of City and ASN
abbrev pub CityReader : Type 0 → Type 0
CityReader Addr = Addr → Option CityRecord

abbrev pub AsnReader : Type 0 → Type 0
AsnReader Addr = Addr → Option AsnRecord

pub record CacheEntry (V : Type 0) : Type 0 where
  pub data_of : V
  pub expires_at : ℕ

-- A cache of golang-lru with room for an entry: a read may change the order of use but no entry, and
-- an addition may evict others.
pub record Lru (C V : Type 0) : Type 0 where
  pub get : String → C → Option V × C
  pub add : String → V → C → C
  pub purge : C → C
  pub get-get : (k k' : String) (c : C) → (get k' ((get k c).1)).0 ≡ (get k' c).0
  pub get-add_self : (k : String) (v : V) (c : C) → (get k (add k v c)).0 ≡ some v
  pub get-add :
      (k k' : String) (v w : V) (c : C)
      → (get k' (add k v c)).0 ≡ some w
      → ((k ≡ k') × (v ≡ w)) ⊎ ((get k' c).0 ≡ some w)
  pub get-purge : (k : String) (c : C) → (get k (purge c)).0 ≡ none

-- The readings of the clock in a lookup
pub record Times : Type 0 where
  pub checked : ℕ
  pub started : ℕ
  pub looked_up : ℕ
  pub stored : ℕ

abbrev pub default_geo_location : String → ℕ → GeoLocation
default_geo_location ip now = record {
  ip = ip;
  country = "";
  country_code = "";
  city = "";
  region = "";
  postal_code = "";
  latitude = 0;
  longitude = 0;
  timezone = "";
  looked_up_at = now;
}

abbrev pub default_asn_info : String → ℕ → AsnInfo
default_asn_info ip now = record { ip = ip; asn = 0; organization = ""; looked_up_at = now }

abbrev pub or_default : {A : Type 0} → A → Option A → A
or_default a none = a
or_default a (some b) = b

abbrev pub first_or_empty : List String → String
first_or_empty [] = ""
first_or_empty (name ∷ names) = name

-- A given result is set where the record has the value: an empty name leaves the default "".
abbrev pub located : String → ℕ → CityRecord → GeoLocation
located ip now r = record {
  ip = ip;
  country = r.country_name;
  country_code = r.iso_code;
  city = r.city_name;
  region = first_or_empty r.subdivisions;
  postal_code = r.postal_code;
  latitude = or_default 0 r.latitude;
  longitude = or_default 0 r.longitude;
  timezone = r.time_zone;
  looked_up_at = now;
}

module _ {Addr : Type 0} (parse_addr : String → Option Addr) where
  -- `ip` is ip.String().
  unfoldable pub perform_city_db_lookup : Option (CityReader Addr) → Times → String → GeoLocation
  perform_city_db_lookup reader t ip =
      let result = default_geo_location ip t.started in
      elim reader [
        | none ↦ result
        | some find ↦ elim (parse_addr ip) [
          | none ↦ result
          | some addr ↦ elim (find addr) [ none ↦ result | some r ↦ located ip t.looked_up r ]
        ]
      ]

  unfoldable pub perform_asn_db_lookup : Option (AsnReader Addr) → Times → String → AsnInfo
  perform_asn_db_lookup reader t ip =
      let result = default_asn_info ip t.started in
      elim reader [
        | none ↦ result
        | some find ↦ elim (parse_addr ip) [
          | none ↦ result
          | some addr ↦ elim (find addr) [
            | none ↦ result
            | some r ↦ record result {
              asn = r.autonomous_system_number;
              organization = r.organization;
              looked_up_at = t.looked_up;
            }
          ]
        ]
      ]

-- The cache of LookupCity and of LookupASN, which may be nil
module _ {C V : Type 0} (lru : Lru C (CacheEntry V)) where
  abbrev pub not_expired : ℕ → Option (CacheEntry V) → Option V
  not_expired now none = none
  not_expired now (some e) = if ltb e.expires_at now then none else some e.data_of

  -- The check of the cache: the answer that has not expired, and the cache after its reading
  unfoldable pub cached : ℕ → String → Option C → Option V × Option C
  cached now ip none = (none, none)
  cached now ip (some c) = let read = lru.get ip c in (not_expired now (read.0), some (read.1))

  unfoldable pub cache_result : ℕ → ℕ → String → V → Option C → Option C
  cache_result now ttl ip result none = none
  cache_result now ttl ip result (some c) =
      some (lru.add ip (record { data_of = result; expires_at = now + ttl }) c)

  -- A lookup that asks the database where the cache has no answer
  unfoldable pub lookup : ℕ → Times → (String → V) → String → Option C → V × Option C
  lookup ttl t perform ip cache =
      let read = cached t.checked ip cache in
      elim (read.0) [
        | some v ↦ (v, read.1)
        | none ↦ (perform ip, cache_result t.stored ttl ip (perform ip) (read.1))
      ]

  abbrev pub purged : Option C → Option C
  purged none = none
  purged (some c) = some (lru.purge c)
