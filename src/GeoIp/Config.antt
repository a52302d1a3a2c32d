-- ===== src/GeoIp/Config.antt =====
-- pkg/maxmind/maxmind.go: the configuration of the databases with its defaults, and its validation.
-- RetryAttempts and MaxEntries are `int`s, by their bits.
use insight_collector.Prelude.{
  ℕ, String, Bool, false, ◌==◌, if◌then◌else◌, eqb, Result, ok, ◌>>◌, require, not, ◌≡◌, refl,
  text_cases, inl, inr,
}

pub record DownloaderConfig : Type 0 where
  pub enabled : Bool
  pub account_id : String
  pub license_key : String
  pub base_url : String
  pub timeout : String
  pub retry_attempts : ℕ
  pub retry_delay : String

pub record CacheConfig : Type 0 where
  pub enabled : Bool
  pub max_entries : ℕ
  pub ttl : String

pub record MaxMindConfig : Type 0 where
  pub enabled : Bool
  pub storage_path : String
  pub check_interval : String
  pub city : String
  pub asn : String
  pub downloader : DownloaderConfig
  pub cache : CacheConfig

pub data ConfigError : Type 0 where
  empty_storage_path empty_city empty_asn : ConfigError

-- `if s == "" { s = given }`
abbrev pub text_or : String → String → String
text_or given s = if s == "" then given else s

abbrev pub number_or : ℕ → ℕ → ℕ
number_or given n = if eqb n 0 then given else n

unfoldable pub get_max_mind_config : MaxMindConfig → MaxMindConfig
get_max_mind_config c = record {
  enabled = c.enabled;
  storage_path = text_or "storage/maxmind" c.storage_path;
  check_interval = text_or "1h" c.check_interval;
  city = text_or "GeoLite2-City" c.city;
  asn = text_or "GeoLite2-ASN" c.asn;
  downloader = record {
    enabled = c.downloader.enabled;
    account_id = c.downloader.account_id;
    license_key = c.downloader.license_key;
    base_url = text_or "https://download.maxmind.com/geoip/databases" c.downloader.base_url;
    timeout = text_or "30s" c.downloader.timeout;
    retry_attempts = number_or 3 c.downloader.retry_attempts;
    retry_delay = text_or "5s" c.downloader.retry_delay;
  };
  cache = record {
    enabled = c.cache.enabled;
    max_entries = number_or 10000 c.cache.max_entries;
    ttl = text_or "1h" c.cache.ttl;
  };
}

unfoldable pub validate_config : MaxMindConfig → Result ConfigError MaxMindConfig
validate_config c = do
  require (not (c.storage_path == "")) empty_storage_path
  require (not (c.city == "")) empty_city
  require (not (c.asn == "")) empty_asn
  ok (record c { check_interval = text_or "5m" c.check_interval })

text_or_given : (given s : String) → (given == "") ≡ false → (text_or given s == "") ≡ false
text_or_given given s h = elim (text_cases s "") [
  | inl (same, e) ↦ rw e h
  | inr (differ, e) ↦ rw e e
]

text_or_again :
    (given other s : String)
    → (given == "") ≡ false
    → text_or other (text_or given s) ≡ text_or given s
text_or_again given other s h = rw (text_or_given given s h) refl

-- The configuration that getMaxMindConfig makes of any section of the file passes validateConfig as
-- it is: none of its errors can occur, and its default interval is never used.
pub validate_config-get_max_mind_config :
    (c : MaxMindConfig) → validate_config (get_max_mind_config c) ≡ ok (get_max_mind_config c)
unfolding validate_config get_max_mind_config
validate_config-get_max_mind_config c =
    rw
      (
        text_or_given "storage/maxmind" c.storage_path refl,
        text_or_given "GeoLite2-City" c.city refl,
        text_or_given "GeoLite2-ASN" c.asn refl,
        text_or_again "1h" "5m" c.check_interval refl,
      )
      refl
