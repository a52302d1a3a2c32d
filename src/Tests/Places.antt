-- ===== src/Tests/Places.antt =====
-- The GeoIP reader and the health checks at concrete values, with a cache that is a map.
use mathlib.Core.Option.{some-injective}
use insight_collector.Prelude.{
  ℕ, ◌+◌, ◌<◌, ◌≤◌, String, Bool, true, false, Option, none, some, List, [], ◌∷◌, ◌==◌, GoMap,
  empty, insert, insert_self, if◌then◌else◌, ◌≡◌, ◌⊎◌, ◌↔◌, refl, arith, inl, inr, text_cases,
}
use insight_collector.GeoIp.{
  GeoLocation, AsnInfo, CityRecord, CityReader, AsnReader, CacheEntry, Lru, Times,
  default_geo_location, perform_city_db_lookup,
}
use insight_collector.GeoIp.Config.{MaxMindConfig}
use insight_collector.GeoIp.Reader.{
  File, Files, GeoReader, lookup_city, load_databases, new_safe_geo_ip_reader, init_caches,
}
use insight_collector.GeoIp.Reader.Caching.{
  Op, look_city, reload, run, without_caches, run-without_caches,
}
use insight_collector.GeoIp.Reader.Interleaving.{finish_lookup_city, overtaken_lookup_is_stale}
use insight_collector.Health.{
  Probes, Texts, Readings, check_max_mind, assess_health, assess_readiness, through_cache,
  cache_valid_duration,
}
use insight_collector.Health.Ages.{Has, after, through_cache_is_recent}
use insight_collector.Health.Overall.{assess_health-healthy_iff}
use insight_collector.Health.Databases.{unopened_database_looks_healthy}

insert-cases :
    {V : Type 0} (k k' : String) (v w : V) (c : GoMap V)
    → insert k v c k' ≡ some w
    → ((k ≡ k') × (v ≡ w)) ⊎ (c k' ≡ some w)
insert-cases k k' v w c held = elim (text_cases k k') [
  | inl (same, e) ↦ inl (same, some-injective v w (rw e at held))
  | inr (differ, e) ↦ inr (rw e at held)
]

abbrev map_lru : (V : Type 0) → Lru (GoMap V) V
map_lru V = record {
  get = λ k c. (c k, c);
  add = insert;
  purge = λ c. empty;
  get-get = λ k k' c. refl;
  get-add_self = insert_self;
  get-add = insert-cases;
  get-purge = λ k c. refl;
}

abbrev paris : CityRecord
paris = record {
  country_name = "France";
  iso_code = "FR";
  city_name = "Paris";
  subdivisions = "Ile-de-France" ∷ [];
  postal_code = "75001";
  latitude = some 48;
  longitude = none;
  time_zone = "Europe/Paris";
}

-- A city database that knows one address, and one that cannot be opened
abbrev paris_file : Option (File (CityReader String))
paris_file = some (record {
  size = 9;
  mod_time = 100;
  opened = some (λ addr. if addr == "192.0.2.1" then some paris else none);
})

abbrev broken_file : Option (File (CityReader String))
broken_file = some (record { size = 1; mod_time = 200; opened = none })

abbrev asn_file : Option (File (AsnReader String))
asn_file = some (record { size = 3; mod_time = 90; opened = some (λ addr. none) })

abbrev city_lru : Lru (GoMap (CacheEntry GeoLocation)) (CacheEntry GeoLocation)
city_lru = map_lru (CacheEntry GeoLocation)

abbrev asn_lru : Lru (GoMap (CacheEntry AsnInfo)) (CacheEntry AsnInfo)
asn_lru = map_lru (CacheEntry AsnInfo)

abbrev files : Files String
files = record { city = paris_file; asn = asn_file }

abbrev broken : Files String
broken = record { city = broken_file; asn = asn_file }

abbrev at_time : ℕ → Times
at_time t = record { checked = t; started = t; looked_up = t; stored = t }

abbrev service : GeoReader String (GoMap (CacheEntry GeoLocation)) (GoMap (CacheEntry AsnInfo))
service =
    new_safe_geo_ip_reader some city_lru asn_lru true true (some 1000) (some empty) (some empty)
      files 5

abbrev visits : List (Op String)
visits =
    look_city (at_time 10) "192.0.2.1"
    ∷ look_city (at_time 20) "192.0.2.1"
    ∷ reload broken 30
    ∷ look_city (at_time 40) "192.0.2.1"
    ∷ []

run-without_caches_example :
    run some city_lru asn_lru visits service
    ≡ run some city_lru asn_lru visits (without_caches some city_lru asn_lru service)
run-without_caches_example =
    run-without_caches some city_lru asn_lru true true (some 1000) (some empty) (some empty) files 5
      visits

service-city_cache : service.city_cache ≡ some empty
unfolding new_safe_geo_ip_reader load_databases init_caches
service-city_cache = refl

service-enabled : service.enabled ≡ true
unfolding new_safe_geo_ip_reader load_databases init_caches
service-enabled = refl

service-cache_ttl : 45 ≤ 20 + service.cache_ttl
unfolding new_safe_geo_ip_reader load_databases init_caches
service-cache_ttl = omega arith

overtaken_lookup_is_stale_example :
    let loaded = load_databases some city_lru asn_lru broken 30 service in
    let finished =
      finish_lookup_city some city_lru asn_lru
        (at_time 20)
        "192.0.2.1"
        service.city_reader
        loaded in
    (lookup_city some city_lru asn_lru (at_time 45) "192.0.2.1" (finished.1)).0
    ≡ perform_city_db_lookup some service.city_reader (at_time 20) "192.0.2.1"
overtaken_lookup_is_stale_example =
    overtaken_lookup_is_stale some city_lru asn_lru (at_time 20) (at_time 45) "192.0.2.1" broken 30
      service empty service-enabled service-city_cache service-cache_ttl

abbrev section : MaxMindConfig
section = record {
  enabled = true;
  storage_path = "";
  check_interval = "";
  city = "GeoIP2-City";
  asn = "";
  downloader = record {
    enabled = false;
    account_id = "";
    license_key = "";
    base_url = "";
    timeout = "";
    retry_attempts = 0;
    retry_delay = "";
  };
  cache = record { enabled = true; max_entries = 0; ttl = "" };
}

abbrev texts : Texts
texts = record {
  duration = λ d. "1ms";
  date = λ t. "2024-05-01";
  date_time = λ t. "2024-05-01 10:00:00";
}

abbrev readings : Readings
readings = record { started = 300; ended = 301; last_check = 301 }

-- Probes of a call that reads its cache at a time
abbrev probes_at : ℕ → Bool → Probes
probes_at t running = record {
  influx_ready = true;
  influx_error = none;
  redis_error = none;
  asynq_client = true;
  server_running = running;
  maxmind_enabled = true;
  maxmind_info = (load_databases some city_lru asn_lru broken 30 service).db_info;
  maxmind_now = 300;
  influx_times = readings;
  redis_times = readings;
  asynq_times = readings;
  maxmind_times = readings;
  read_at = t;
  timestamp = t;
  uptime = t;
  version = "1.0.0";
  stored_at = t;
}

through_cache_is_recent_example :
    let answer =
      (through_cache
        (assess_health texts)
        (probes_at 500 false)
        (after (assess_health texts) (probes_at 400 true ∷ []))).0 in
    (answer ≡ assess_health texts (probes_at 500 false))
    ⊎ Has
        (λ q. (assess_health texts q ≡ answer) × (500 < q.stored_at + cache_valid_duration))
        (probes_at 400 true ∷ [])
through_cache_is_recent_example =
    through_cache_is_recent (assess_health texts) (probes_at 500 false) (probes_at 400 true ∷ [])

assess_health-healthy_iff_example :
    (((assess_health texts (probes_at 400 false)).status ≡ "healthy") ↔ (
      ((probes_at 400 false).influx_ready ≡ true)
      × ((probes_at 400 false).influx_error ≡ none)
      × ((probes_at 400 false).redis_error ≡ none)
      × ((probes_at 400 false).asynq_client ≡ true)
      × ((probes_at 400 false).server_running ≡ true)))
    × (((assess_readiness texts (probes_at 400 false)).status ≡ "ready")
        ↔ ((assess_health texts (probes_at 400 false)).status ≡ "healthy"))
assess_health-healthy_iff_example = assess_health-healthy_iff texts (probes_at 400 false)

unopened_database_looks_healthy_example :
    ((check_max_mind texts (probes_at 400 true)).status ≡ "healthy")
    × ((lookup_city some city_lru asn_lru
          (at_time 40)
          "192.0.2.1"
          (load_databases some city_lru asn_lru broken 30 service)).0
        ≡ default_geo_location "192.0.2.1" 40)
unopened_database_looks_healthy_example =
    unopened_database_looks_healthy some city_lru asn_lru texts broken
      (record { size = 1; mod_time = 200; opened = none }) 30 service (probes_at 400 true)
      (at_time 40) "192.0.2.1" refl refl (λ e. ground arith) refl refl (omega arith)
