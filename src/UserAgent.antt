-- ===== src/UserAgent.antt =====
-- pkg/useragent/useragent.go: the tables of patterns, the detector with its caches, the detection of
-- a user agent, and the log of unknown patterns. The expressions of the two version tables are
-- matched by `Expressions`, and `to_lower` is strings.ToLower.
pub mod Defaults
pub mod Devices
pub mod Caches
pub mod Log
use insight_collector.Prelude.{
  ℕ, ◌+◌, ◌-◌, ◌*◌, ◌^◌, String, Bool, true, false, ◌&&◌, ◌||◌, not, Option, none, some, List, [],
  ◌∷◌, ◌++◌, map, ◌==◌, GoMap, empty, insert, if◌then◌else◌, ltb, eqb, any,
}
use insight_collector.Text.Search.{contains, first_runes, count_runes}

pub data DeviceType : Type 0 where
  desktop mobile tablet unknown : DeviceType

abbrev pub device_name : DeviceType → String
device_name desktop = "desktop"
device_name mobile = "mobile"
device_name tablet = "tablet"
device_name unknown = "unknown"

pub record FastDeviceInfo : Type 0 where
  pub device_type : DeviceType
  pub os : String
  pub os_version : String
  pub browser : String
  pub browser_version : String
  pub is_bot : Bool

-- A row of osPatterns or browserPatterns
pub record NamedPatterns : Type 0 where
  pub name : String
  pub patterns : List String

-- The package's tables, which AddBotPattern and its like extend
pub record Tables : Type 0 where
  pub tablet_patterns : List String
  pub mobile_patterns : List String
  pub bot_patterns : List String
  pub os_patterns : List NamedPatterns
  pub browser_patterns : List NamedPatterns

-- FastDeviceDetector without its logger
pub record Detector : Type 0 where
  pub mobile_os : List NamedPatterns
  pub desktop_os : List NamedPatterns
  pub cache_built : Bool

-- FindStringSubmatch of the expression of a name, if the table has one
pub record Expressions : Type 0 where
  pub os_version : String → Option (String → Option (List String))
  pub browser_version : String → Option (String → Option (List String))

abbrev pub is_mobile_os : String → Bool
is_mobile_os name = name == "iOS" || name == "Android" || name == "Windows Phone" || name == "KaiOS"

-- The loop of buildOptimizationCaches
unfoldable pub categorize : List NamedPatterns → Detector → Detector
categorize [] d = d
categorize (os ∷ rest) d =
    if is_mobile_os os.name
    then categorize rest (record d { mobile_os = d.mobile_os ++ os ∷ [] })
    else categorize rest (record d { desktop_os = d.desktop_os ++ os ∷ [] })

unfoldable pub build_optimization_caches : Tables → Detector → Detector
build_optimization_caches t d =
    let built = categorize t.os_patterns d in
    if d.cache_built then d else record built { cache_built = true }

unfoldable pub new_fast_detector : Tables → Detector
new_fast_detector t =
    build_optimization_caches t (record { mobile_os = []; desktop_os = []; cache_built = false })

unfoldable pub rebuild_caches : Tables → Detector → Detector
rebuild_caches t d =
    build_optimization_caches t (record d { mobile_os = []; desktop_os = []; cache_built = false })

-- AddOSPattern, whose detector may be nil
unfoldable pub add_os_pattern :
    String → List String → Tables → Option Detector → Tables × Option Detector
add_os_pattern name patterns t d =
    let t' = record t {
      os_patterns = t.os_patterns ++ record { name = name; patterns = patterns } ∷ [];
    } in
    (t', elim d [ none ↦ none | some d' ↦ some (rebuild_caches t' d') ])

-- AddBotPattern and AddBrowserPattern
unfoldable pub add_bot_pattern : String → Tables → Tables
add_bot_pattern pattern t = record t { bot_patterns = t.bot_patterns ++ pattern ∷ [] }

unfoldable pub add_browser_pattern : String → List String → Tables → Tables
add_browser_pattern name patterns t = record t {
  browser_patterns = t.browser_patterns ++ record { name = name; patterns = patterns } ∷ [];
}

-- GetSupportedBrowsers and GetSupportedOS
abbrev pub get_supported_browsers : Tables → List String
get_supported_browsers t = map (λ row. row.name) t.browser_patterns

abbrev pub get_supported_os : Tables → List String
get_supported_os t = map (λ row. row.name) t.os_patterns

-- `for _, pattern := range patterns { if strings.Contains(ua, pattern) … }`
abbrev pub matches : String → List String → Bool
matches ua patterns = any (λ pattern. contains ua pattern) patterns

abbrev pub any_os : String → List NamedPatterns → Bool
any_os ua table = any (λ os. matches ua os.patterns) table

unfoldable pub detect_device_type : Tables → Detector → String → DeviceType
detect_device_type t d ua =
    if matches ua t.tablet_patterns
    then tablet
    else if matches ua t.mobile_patterns
    then mobile
    else if contains ua "android" && not (contains ua "mobile")
    then tablet
    else if any_os ua d.desktop_os
    then desktop
    else unknown

-- The loop of detectOS and detectBrowser
unfoldable pub first_match : String → List NamedPatterns → String
first_match ua [] = "Unknown"
first_match ua (row ∷ rows) = if matches ua row.patterns then row.name else first_match ua rows

abbrev pub detect_os : Tables → String → String
detect_os t ua = first_match ua t.os_patterns

abbrev pub detect_browser : Tables → String → String
detect_browser t ua = first_match ua t.browser_patterns

abbrev pub detect_bot : Tables → String → Bool
detect_bot t ua = matches ua t.bot_patterns

-- `matches[1]`, when the expression of the name is there and matches
abbrev pub group_of : Option (List String) → Option String
group_of none = none
group_of (some []) = none
group_of (some (whole ∷ [])) = none
group_of (some (whole ∷ group ∷ groups)) = some group

abbrev pub submatch :
    (String → Option (String → Option (List String))) → String → String → Option String
submatch table name ua = elim (table name) [ none ↦ none | some find ↦ group_of (find ua) ]

module _ (expressions : Expressions) (dotted : String → String) where
  -- The loop over the cached systems
  abbrev pub cached_version : String → List NamedPatterns → Option String
  cached_version ua [] = none
  cached_version ua (os ∷ rest) = elim (submatch expressions.os_version os.name ua) [
    | some version ↦ some (dotted version)
    | none ↦ cached_version ua rest
  ]

  abbrev pub or_later : Option String → Option String → Option String
  or_later (some v) later = some v
  or_later none later = later

  -- A fast path: the marks of a system, and its expression
  abbrev pub fast_path : List String → String → String → Option String
  fast_path marks name ua =
      if matches ua marks then submatch expressions.os_version name ua else none

  abbrev pub or_empty : Option String → String
  or_empty none = ""
  or_empty (some v) = v

  -- `dotted` is strings.ReplaceAll of "_" by ".".
  unfoldable pub detect_os_version : Detector → String → String
  detect_os_version d ua = or_empty (
      or_later
        (elim (fast_path ("iphone" ∷ "ipad" ∷ "ipod" ∷ []) "iOS" ua) [
          | some v ↦ some (dotted v)
          | none ↦ none
        ])
        (or_later (fast_path ("android" ∷ []) "Android" ua) (
          or_later (fast_path ("windows nt" ∷ []) "Windows" ua)
            (or_later (cached_version ua d.mobile_os) (cached_version ua d.desktop_os)))))

  -- The groups of a match: Internet Explorer has two, of which one is empty.
  abbrev pub browser_group : String → Option (List String) → Option String
  browser_group name none = none
  browser_group name (some []) = none
  browser_group name (some (whole ∷ [])) = none
  browser_group name (some (whole ∷ first ∷ [])) = some first
  browser_group name (some (whole ∷ first ∷ second ∷ rest)) =
      if name == "Internet Explorer"
      then (if not (first == "")
          then some first
          else if not (second == "")
          then some second
          else some first)
      else some first

  unfoldable pub detect_browser_version : List NamedPatterns → String → String
  detect_browser_version [] ua = ""
  detect_browser_version (browser ∷ rest) ua =
      let later = detect_browser_version rest ua in
      elim (expressions.browser_version browser.name) [
        | none ↦ later
        | some find ↦ elim (browser_group browser.name (find ua)) [ none ↦ later | some v ↦ v ]
      ]

  module _ (to_lower : String → String) where
    -- Detect, without the log of what is unknown
    unfoldable pub detect : Tables → Detector → String → FastDeviceInfo
    detect t d user_agent =
        let ua = to_lower user_agent in
        record {
          device_type = detect_device_type t d ua;
          os = detect_os t ua;
          os_version = detect_os_version d user_agent;
          browser = detect_browser t ua;
          browser_version = detect_browser_version t.browser_patterns user_agent;
          is_bot = detect_bot t ua;
        }
