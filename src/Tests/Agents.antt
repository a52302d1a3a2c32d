-- ===== src/Tests/Agents.antt =====
-- User agents at concrete texts.
use insight_collector.Prelude.{ℕ, true, some, List, [], ◌∷◌, ◌++◌, ◌≡◌, refl, String}
use insight_collector.Text.Search.{contains}
use mathlib.Core.Option
use insight_collector.UserAgent.{NamedPatterns, desktop, new_fast_detector, detect_device_type}
use insight_collector.UserAgent.Defaults.{tables}
use insight_collector.UserAgent.Devices.{mobile_linux_is_desktop}
use insight_collector.UserAgent.Caches.{
  add_os_patterns, device_of, detect_device_type-add_os_patterns,
}
use insight_collector.UserAgent.Log.{of_browsers, new_detection_logger}
use insight_collector.UserAgent.Log.Limit.{
  Event, log_events, warnings_of, events_of, at_most_three, warnings_of-log_events,
}

-- A user agent of Chrome on an Android phone, lower-cased
abbrev phone : String
phone =
    "mozilla/5.0 (linux; android 13; pixel 7) applewebkit/537.36 chrome/116.0 mobile safari/537.36"

mobile_linux_is_desktop_example :
    detect_device_type tables (new_fast_detector tables) phone ≡ desktop
mobile_linux_is_desktop_example =
    mobile_linux_is_desktop phone (unfold contains in refl) (unfold contains in refl)
      (unfold contains in refl) (unfold contains in refl)

-- A user agent of Opera
abbrev opera : String
opera = "mozilla/5.0 (x11; linux x86_64) chrome/116.0 safari/537.36 opr/102.0"

abbrev added : List NamedPatterns
added = record { name = "FreeBSD"; patterns = "freebsd" ∷ [] } ∷ []

detect_device_type-add_os_patterns_example :
    Option.map
      (λ d.
        detect_device_type
          ((add_os_patterns added tables (some (new_fast_detector tables))).0)
          d
          "firefox/115.0 freebsd")
      ((add_os_patterns added tables (some (new_fast_detector tables))).1)
    ≡ some (
        device_of
          (record tables { os_patterns = tables.os_patterns ++ added })
          "firefox/115.0 freebsd")
detect_device_type-add_os_patterns_example =
    detect_device_type-add_os_patterns added tables "firefox/115.0 freebsd"

-- The same user agent at a second
abbrev seen_at : ℕ → Event
seen_at t = record {
  reading = record { checked = t; cleaned = t };
  category = "browser";
  user_agent = "lynx";
  instruction = "";
}

warnings_of-log_events_example :
    warnings_of of_browsers "lynx" (
      (log_events
        (seen_at 1 ∷ seen_at 2 ∷ seen_at 3 ∷ seen_at 4 ∷ [])
        (new_detection_logger true 0)).1)
    ≡ at_most_three
        (events_of of_browsers "lynx" (seen_at 1 ∷ seen_at 2 ∷ seen_at 3 ∷ seen_at 4 ∷ []))
warnings_of-log_events_example =
    warnings_of-log_events of_browsers "lynx" 0 (seen_at 1 ∷ seen_at 2 ∷ seen_at 3 ∷ seen_at 4 ∷ [])
      (unfold new_detection_logger in (refl, (refl, (refl, (refl, tt)))))
