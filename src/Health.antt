-- ===== src/Health.antt =====
-- internal/services/health/health.go: the checks of the services, the status of the whole, and the
-- caches of CheckHealth and CheckReadiness. What the checks ask other packages is `Probes`; the
-- metrics of the system are left out. Times are nanoseconds, 0 is the zero time, and `Texts` is Go's
-- formatting of durations and times.
pub mod Ages
pub mod Overall
pub mod Databases
use insight_collector.Prelude.{
  ℕ, ◌+◌, ◌-◌, ◌*◌, ◌^◌, String, Bool, true, false, ◌&&◌, not, Option, none, some, ◌==◌,
  if◌then◌else◌, ltb, eqb,
}
use insight_collector.GeoIp.Reader.{DatabaseInfo}

pub record Metadata : Type 0 where
  pub database_version : String
  pub last_reload : String
  pub reload_count : ℕ

pub record ServiceHealth : Type 0 where
  pub status : String
  pub response_time : String
  pub last_check : ℕ
  pub error : String
  pub metadata : Option Metadata

-- The map of the services by its keys
pub record HealthStatus : Type 0 where
  pub status : String
  pub timestamp : ℕ
  pub version : String
  pub uptime : String
  pub influxdb : ServiceHealth
  pub redis : ServiceHealth
  pub asynq : ServiceHealth
  pub maxmind : ServiceHealth

pub record ReadinessStatus : Type 0 where
  pub status : String
  pub timestamp : ℕ
  pub influxdb : ServiceHealth
  pub redis : ServiceHealth
  pub asynq : ServiceHealth

-- A cache and its time
pub record Cache (V : Type 0) : Type 0 where
  pub cached : Option V
  pub cache_time : ℕ

-- The readings of the clock around a check
pub record Readings : Type 0 where
  pub started : ℕ
  pub ended : ℕ
  pub last_check : ℕ

-- What the checks of a call see
pub record Probes : Type 0 where
  pub influx_ready : Bool
  pub influx_error : Option String
  pub redis_error : Option String
  pub asynq_client : Bool
  pub server_running : Bool
  pub maxmind_enabled : Bool
  pub maxmind_info : DatabaseInfo
  pub maxmind_now : ℕ
  pub influx_times : Readings
  pub redis_times : Readings
  pub asynq_times : Readings
  pub maxmind_times : Readings
  pub read_at : ℕ
  pub timestamp : ℕ
  pub uptime : ℕ
  pub version : String
  pub stored_at : ℕ

pub record Texts : Type 0 where
  pub duration : ℕ → String
  pub date : ℕ → String
  pub date_time : ℕ → String

abbrev pub cache_valid_duration : ℕ
cache_valid_duration = 10 * 10 ^ 9

abbrev pub two_weeks : ℕ
two_weeks = 14 * 24 * 3600 * 10 ^ 9

module _ (texts : Texts) where
  abbrev pub checked_service : Readings → Option String → ServiceHealth
  checked_service t (some error) = record {
    status = "unhealthy";
    response_time = texts.duration (t.ended - t.started);
    last_check = t.last_check;
    error = error;
    metadata = none;
  }
  checked_service t none = record {
    status = "healthy";
    response_time = texts.duration (t.ended - t.started);
    last_check = t.last_check;
    error = "";
    metadata = none;
  }

  abbrev pub not_initialized : Readings → String → ServiceHealth
  not_initialized t error = record {
    status = "unhealthy";
    response_time = "0ms";
    last_check = t.last_check;
    error = error;
    metadata = none;
  }

  abbrev pub check_influx_db : Probes → ServiceHealth
  check_influx_db p =
      if not p.influx_ready
      then not_initialized p.influx_times "InfluxDB client not initialized"
      else checked_service p.influx_times p.influx_error

  abbrev pub check_redis : Probes → ServiceHealth
  check_redis p = checked_service p.redis_times p.redis_error

  abbrev pub check_asynq : Probes → ServiceHealth
  check_asynq p =
      if not p.asynq_client
      then not_initialized p.asynq_times "Asynq client not initialized"
      else record {
        status = if not p.server_running then "degraded" else "healthy";
        response_time = texts.duration (p.asynq_times.ended - p.asynq_times.started);
        last_check = p.asynq_times.last_check;
        error = if not p.server_running then "Asynq server not running" else "";
        metadata = none;
      }

  -- The status, the message and the metadata of MaxMind
  abbrev pub max_mind_state : Probes → String × String × Option Metadata
  max_mind_state p =
      let info = p.maxmind_info in
      let outdated = ltb two_weeks (p.maxmind_now - info.city_db_mod_time) in
      let metadata : Metadata = record {
        database_version = texts.date info.city_db_mod_time;
        last_reload = texts.date_time info.loaded_at;
        reload_count = info.reload_count;
      } in
      if not p.maxmind_enabled
      then ("disabled", "MaxMind service is disabled", none)
      else if eqb info.loaded_at 0
      then ("degraded", "GeoIP databases not loaded, using fallback", none)
      else if outdated
      then ("degraded", "GeoIP database appears outdated", some metadata)
      else ("healthy", "", some metadata)

  unfoldable pub check_max_mind : Probes → ServiceHealth
  check_max_mind p =
      let (status, error, metadata) = max_mind_state p in
      record {
        status = status;
        response_time = texts.duration (p.maxmind_times.ended - p.maxmind_times.started);
        last_check = p.maxmind_times.last_check;
        error = error;
        metadata = metadata;
      }

  abbrev pub all_healthy : Probes → Bool
  all_healthy p =
      (check_influx_db p).status == "healthy"
      && ((check_redis p).status == "healthy" && (check_asynq p).status == "healthy")

  -- CheckHealth on a miss of its cache
  unfoldable pub assess_health : Probes → HealthStatus
  assess_health p = record {
    status = if all_healthy p then "healthy" else "degraded";
    timestamp = p.timestamp;
    version = p.version;
    uptime = texts.duration p.uptime;
    influxdb = check_influx_db p;
    redis = check_redis p;
    asynq = check_asynq p;
    maxmind = check_max_mind p;
  }

  -- CheckReadiness on a miss of its cache
  unfoldable pub assess_readiness : Probes → ReadinessStatus
  assess_readiness p = record {
    status = if all_healthy p then "ready" else "not_ready";
    timestamp = p.timestamp;
    influxdb = check_influx_db p;
    redis = check_redis p;
    asynq = check_asynq p;
  }

-- The cached answer while it is valid, or a new one
unfoldable pub through_cache : {V : Type 0} → (Probes → V) → Probes → Cache V → V × Cache V
through_cache {V} assess p cache =
    let miss : V × Cache V =
      (assess p, record { cached = some (assess p); cache_time = p.stored_at }) in
    elim cache.cached [
      | none ↦ miss
      | some v ↦
          if ltb (p.read_at - cache.cache_time) cache_valid_duration then (v, cache) else miss
    ]

abbrev pub check_health : Texts → Probes → Cache HealthStatus → HealthStatus × Cache HealthStatus
check_health texts = through_cache (assess_health texts)

abbrev pub check_readiness :
    Texts → Probes → Cache ReadinessStatus → ReadinessStatus × Cache ReadinessStatus
check_readiness texts = through_cache (assess_readiness texts)

-- ClearHealthCache and ClearReadinessCache, and the caches of a new process
abbrev pub cleared : {V : Type 0} → Cache V
cleared = record { cached = none; cache_time = 0 }
