-- ===== src/UserAgent/Caches.antt =====
-- The caches of pkg/useragent/useragent.go against the table they are built from.
use mathlib.Core.List.{append_assoc, append-nil}
use mathlib.Core.Option
use insight_collector.Prelude.{
  String, true, ◌&&◌, not, Option, some, List, [], ◌∷◌, ◌++◌, if◌then◌else◌, ◌≡◌, Bool-cases, inl,
  inr,
}
use insight_collector.Text.Search.{contains}
use insight_collector.UserAgent.{
  NamedPatterns, Tables, Detector, DeviceType, desktop, mobile, tablet, unknown, is_mobile_os,
  categorize, build_optimization_caches, new_fast_detector, rebuild_caches, add_os_pattern, matches,
  any_os, detect_device_type,
}

-- The rows of the mobile systems, and those of the others, in the order of the table
abbrev pub mobile_rows : List NamedPatterns → List NamedPatterns
mobile_rows [] = []
mobile_rows (os ∷ rest) = if is_mobile_os os.name then os ∷ mobile_rows rest else mobile_rows rest

abbrev pub desktop_rows : List NamedPatterns → List NamedPatterns
desktop_rows [] = []
desktop_rows (os ∷ rest) =
    if is_mobile_os os.name then desktop_rows rest else os ∷ desktop_rows rest

-- The device of a user agent from the tables alone
abbrev pub device_of : Tables → String → DeviceType
device_of t ua =
    if matches ua t.tablet_patterns
    then tablet
    else if matches ua t.mobile_patterns
    then mobile
    else if contains ua "android" && not (contains ua "mobile")
    then tablet
    else if any_os ua (desktop_rows t.os_patterns)
    then desktop
    else unknown

-- Rows added by AddOSPattern one after the other, with the detector of the process
abbrev pub add_os_patterns :
    List NamedPatterns → Tables → Option Detector → Tables × Option Detector
add_os_patterns [] t d = (t, d)
add_os_patterns (row ∷ rows) t d =
    let added = add_os_pattern row.name row.patterns t d in add_os_patterns rows (added.0) (added.1)

categorize-eq :
    (rows : List NamedPatterns) (d : Detector)
    → categorize rows d ≡ record d {
      mobile_os = d.mobile_os ++ mobile_rows rows;
      desktop_os = d.desktop_os ++ desktop_rows rows;
    }
unfolding categorize
categorize-eq [] d = rw (append-nil d.mobile_os, append-nil d.desktop_os)
categorize-eq (os ∷ rest) d = elim (Bool-cases (is_mobile_os os.name)) [
  | inl h ↦ rw (h, categorize-eq rest _, append_assoc d.mobile_os (os ∷ []) (mobile_rows rest))
  | inr h ↦ rw (h, categorize-eq rest _, append_assoc d.desktop_os (os ∷ []) (desktop_rows rest))
]

-- The detector whose caches are those of a table
abbrev pub built : List NamedPatterns → Detector
built rows = record {
  mobile_os = mobile_rows rows;
  desktop_os = desktop_rows rows;
  cache_built = true;
}

pub new_fast_detector_lem : (t : Tables) → new_fast_detector t ≡ built t.os_patterns
unfolding new_fast_detector build_optimization_caches
new_fast_detector_lem t = rw (categorize-eq t.os_patterns _)

rebuild_caches_lem : (t : Tables) (d : Detector) → rebuild_caches t d ≡ built t.os_patterns
unfolding rebuild_caches build_optimization_caches
rebuild_caches_lem t d = rw (categorize-eq t.os_patterns _)

-- Adding rows keeps the tables of the other kinds, and the detector stays built from the table.
pub add_os_patterns_lem :
    (rows : List NamedPatterns) (t : Tables)
    → add_os_patterns rows t (some (built t.os_patterns))
      ≡ (record t { os_patterns = t.os_patterns ++ rows }, some (built (t.os_patterns ++ rows)))
unfolding add_os_pattern
add_os_patterns_lem [] t = rw (append-nil t.os_patterns)
add_os_patterns_lem (row ∷ rows) t =
    let t' = record t { os_patterns = t.os_patterns ++ row ∷ [] } in
    rw (
      rebuild_caches_lem t' (built t.os_patterns),
      add_os_patterns_lem rows t',
      append_assoc t.os_patterns (row ∷ []) rows,
    )

-- The device type of a user agent after the systems of any list are added to the tables of a
-- detector that was made before: that of the new tables, as `device_of` reads it without a cache.
pub detect_device_type-add_os_patterns :
    (rows : List NamedPatterns) (t : Tables) (ua : String)
    → let added = add_os_patterns rows t (some (new_fast_detector t)) in
      Option.map (λ d. detect_device_type (added.0) d ua) (added.1)
      ≡ some (device_of (record t { os_patterns = t.os_patterns ++ rows }) ua)
unfolding detect_device_type
detect_device_type-add_os_patterns rows t ua =
    rw (new_fast_detector_lem t, add_os_patterns_lem rows t)
