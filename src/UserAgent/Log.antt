-- ===== src/UserAgent/Log.antt =====
-- DetectionLogger of pkg/useragent/useragent.go: what is logged of unknown user agents, at most
-- three times for a text between two cleanups. Times are numbers of nanoseconds.
pub mod Limit
use Prim.Native.String
use insight_collector.Prelude.{
  ℕ, ◌+◌, ◌-◌, ◌*◌, ◌^◌, String, Bool, true, false, ◌&&◌, ◌||◌, not, Option, none, some, List, [],
  ◌∷◌, ◌++◌, ◌==◌, GoMap, empty, insert, if◌then◌else◌, ltb,
}
use insight_collector.Text.Search.{contains, first_runes, count_runes}
use insight_collector.UserAgent.{
  Tables, Detector, DeviceType, desktop, mobile, tablet, unknown, FastDeviceInfo, Expressions,
  detect,
}

pub record DetectionLogger : Type 0 where
  pub enabled : Bool
  pub unknown_uas : GoMap ℕ
  pub unknown_browsers : GoMap ℕ
  pub unknown_oss : GoMap ℕ
  pub last_cleanup : ℕ
  pub cleanup_interval : ℕ

-- `time.Since` and `time.Now` of a call
pub record Reading : Type 0 where
  pub checked : ℕ
  pub cleaned : ℕ

-- An event of logger.Warn
pub record Warning : Type 0 where
  pub category : String
  pub pattern : String
  pub user_agent : String
  pub instruction : String
  pub counter : ℕ

abbrev pub cleanup_interval_default : ℕ
cleanup_interval_default = 5 * 60 * 1000000000

unfoldable pub new_detection_logger : Bool → ℕ → DetectionLogger
new_detection_logger enabled now = record {
  enabled = enabled;
  unknown_uas = empty;
  unknown_browsers = empty;
  unknown_oss = empty;
  last_cleanup = now;
  cleanup_interval = cleanup_interval_default;
}

abbrev pub enable_logging : Bool → DetectionLogger → DetectionLogger
enable_logging enabled dl = record dl { enabled = enabled }

unfoldable pub cleanup : Reading → DetectionLogger → DetectionLogger
cleanup r dl =
    if ltb dl.cleanup_interval (r.checked - dl.last_cleanup)
    then record dl {
      unknown_uas = empty;
      unknown_browsers = empty;
      unknown_oss = empty;
      last_cleanup = r.cleaned;
    }
    else dl

-- The maps of the switch on the category
pub data Kind : Type 0 where
  of_browsers of_systems of_agents : Kind

abbrev pub kind_of : String → Kind
kind_of category =
    if category == "browser"
    then of_browsers
    else if category == "os"
    then of_systems
    else of_agents

abbrev pub cache_of : Kind → DetectionLogger → GoMap ℕ
cache_of of_browsers dl = dl.unknown_browsers
cache_of of_systems dl = dl.unknown_oss
cache_of of_agents dl = dl.unknown_uas

abbrev pub set_cache : Kind → GoMap ℕ → DetectionLogger → DetectionLogger
set_cache of_browsers m dl = record dl { unknown_browsers = m }
set_cache of_systems m dl = record dl { unknown_oss = m }
set_cache of_agents m dl = record dl { unknown_uas = m }

abbrev pub or_zero : Option ℕ → ℕ
or_zero none = 0
or_zero (some n) = n

abbrev pub count : Kind → String → DetectionLogger → ℕ
count k text dl = or_zero (cache_of k dl text)

-- `string(runes[:100]) + "..."` of a longer text
abbrev pub short_ua : String → String
short_ua ua = if ltb 100 (count_runes ua) then String.◌++◌ (first_runes 100 ua) "..." else ua

unfoldable pub log_unknown_pattern :
    Reading → String → String → String → DetectionLogger → DetectionLogger × List Warning
log_unknown_pattern r category ua recommendation dl =
    let dl' = cleanup r dl in
    let k = kind_of category in
    let text = short_ua ua in
    let seen = count k text dl' in
    if not dl.enabled
    then (dl, [])
    else if ltb seen 3
    then (
      set_cache k (insert text (seen + 1) (cache_of k dl')) dl',
      record {
        category = category;
        pattern = text;
        user_agent = ua;
        instruction = recommendation;
        counter = seen + 1;
      }
          ∷ [],
    )
    else (dl', [])

abbrev pub browser_instruction : String
browser_instruction = "Append browserPatterns slice and browserVersionRegexes (only if needed)"

abbrev pub system_instruction : String
system_instruction = "Append osPatterns slice and osVersionRegexes (only if needed)"

abbrev pub device_instruction : String
device_instruction =
    "Possibly add pattern to 'tabletPatterns' or 'mobilePatterns', Check if Mobile/Tablet/Desktop"

abbrev pub bot_instruction : String
bot_instruction = "Append botPatterns slice, Extract identifying keywords from User-Agent"

-- A call of logUnknownPattern: its category, its recommendation, and whether its guard holds
pub record Call : Type 0 where
  pub guarded : Bool
  pub category : String
  pub instruction : String

abbrev pub is_unknown : DeviceType → Bool
is_unknown unknown = true
is_unknown _ = false

-- The calls of logUnknownDetections in their order
abbrev pub unknown_calls : String → FastDeviceInfo → List Call
unknown_calls lowered info =
    record {
      guarded = info.browser == "Unknown" && not (contains lowered "bot");
      category = "browser";
      instruction = browser_instruction;
    }
    ∷ record { guarded = info.os == "Unknown"; category = "os"; instruction = system_instruction }
    ∷ record {
      guarded = is_unknown info.device_type;
      category = "device";
      instruction = device_instruction;
    }
    ∷ record {
      guarded =
          (contains lowered "crawl"
            || contains lowered "scan"
            || contains lowered "fetch"
            || contains lowered "monitor"
            || contains lowered "check")
          && not info.is_bot;
      category = "bot";
      instruction = bot_instruction;
    }
    ∷ []

-- The clock of the calls: a reading for each
abbrev pub log_calls :
    List Reading → String → List Call → DetectionLogger → DetectionLogger × List Warning
log_calls [] ua calls dl = (dl, [])
log_calls (r ∷ rs) ua [] dl = (dl, [])
log_calls (r ∷ rs) ua (call ∷ calls) dl =
    let first =
      if call.guarded
      then log_unknown_pattern r call.category ua call.instruction dl
      else (dl, []) in
    let rest = log_calls rs ua calls (first.0) in (rest.0, first.1 ++ rest.1)

unfoldable pub log_unknown_detections :
    (Reading × Reading × Reading × Reading)
    → String
    → String
    → FastDeviceInfo
    → DetectionLogger
    → DetectionLogger × List Warning
log_unknown_detections (r0, r1, r2, r3) lowered ua info dl =
    if not dl.enabled
    then (dl, [])
    else if info.is_bot
    then (dl, [])
    else log_calls (r0 ∷ r1 ∷ r2 ∷ r3 ∷ []) ua (unknown_calls lowered info) dl

module _ (expressions : Expressions) (dotted to_lower : String → String) where
  -- Detect with its log
  unfoldable pub detect_logged :
      (Reading × Reading × Reading × Reading)
      → Tables
      → Detector
      → String
      → DetectionLogger
      → FastDeviceInfo × DetectionLogger × List Warning
  detect_logged readings t d ua dl =
      let info = detect expressions dotted to_lower t d ua in
      let logged = log_unknown_detections readings (to_lower ua) ua info dl in
      (info, logged.0, logged.1)
