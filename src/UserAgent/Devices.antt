-- ===== src/UserAgent/Devices.antt =====
-- The devices and browsers that pkg/useragent/useragent.go finds with the tables it declares, and
-- what a table finds after an addition.
use mathlib.Core.Bool.{or-true, or-false, and-false, or_assoc}
use insight_collector.Prelude.{
  refl, sym, List, [], ◌∷◌, ◌++◌, any, ap, ◌∙◌, Bool-cases, inl, inr, String, Bool, true, false,
  ◌||◌, if◌then◌else◌, ◌≡◌,
}
use insight_collector.Text.Search.{contains}
use insight_collector.UserAgent.{
  NamedPatterns, any_os, detect_bot, add_bot_pattern, add_browser_pattern, Tables, desktop,
  new_fast_detector, matches, any_os, detect_device_type, detect_browser, first_match,
}
use insight_collector.UserAgent.Defaults.{tables, tablet_patterns, mobile_patterns}
use insight_collector.UserAgent.Caches.{new_fast_detector_lem, desktop_rows}

detect_device_type-desktop :
    (t : Tables) (ua : String)
    → matches ua t.tablet_patterns ≡ false
    → matches ua t.mobile_patterns ≡ false
    → contains ua "mobile" ≡ true
    → any_os ua (desktop_rows t.os_patterns) ≡ true
    → detect_device_type t (new_fast_detector t) ua ≡ desktop
unfolding detect_device_type
detect_device_type-desktop t ua no_tablet no_mobile says_mobile known = rw (
  new_fast_detector_lem t,
  no_tablet,
  no_mobile,
  says_mobile,
  known,
  and-false (contains ua "android"),
)

-- A lower-cased user agent of Linux with the word "mobile", in which no text of the two tables of
-- tablets and mobiles stands, is a desktop, also when it names Android.
pub mobile_linux_is_desktop :
    (ua : String)
    → matches ua tablet_patterns ≡ false
    → matches ua mobile_patterns ≡ false
    → contains ua "mobile" ≡ true
    → contains ua "linux" ≡ true
    → detect_device_type tables (new_fast_detector tables) ua ≡ desktop
unfolding detect_device_type
mobile_linux_is_desktop ua no_tablet no_mobile says_mobile says_linux =
    detect_device_type-desktop tables ua no_tablet no_mobile says_mobile simp (says_linux, or-true)

-- Every lower-cased user agent with the text "chrome/" has the browser Edge, where it also has
-- "edg/" or "edge/", and otherwise Chrome: no later row of the table is reached.
pub chromium_is_chrome :
    (ua : String)
    → contains ua "chrome/" ≡ true
    → detect_browser tables ua
      ≡ (if contains ua "edg/" || contains ua "edge/" then "Edge" else "Chrome")
unfolding first_match
chromium_is_chrome ua h = simp (h, or-false)

any-append :
    {A : Type 0} (p : A → Bool) (xs ys : List A) → any p (xs ++ ys) ≡ (any p xs || any p ys)
any-append p [] ys = refl
any-append p (x ∷ xs) ys =
    ap (λ b. p x || b) (any-append p xs ys) ∙ sym (or_assoc (p x) (any p xs) (any p ys))

-- After AddBotPattern the bots are those from before and the user agents with the new text.
pub detect_bot-add_bot_pattern :
    (pattern ua : String) (t : Tables)
    → detect_bot (add_bot_pattern pattern t) ua ≡ (detect_bot t ua || contains ua pattern)
unfolding add_bot_pattern
detect_bot-add_bot_pattern pattern ua t =
    any-append (λ q. contains ua q) t.bot_patterns (pattern ∷ [])
    ∙ ap (λ b. detect_bot t ua || b) (or-false (contains ua pattern))

first_match-append :
    (ua : String) (rows more : List NamedPatterns)
    → first_match ua (rows ++ more)
      ≡ (if any_os ua rows then first_match ua rows else first_match ua more)
unfolding first_match
first_match-append ua [] more = refl
first_match-append ua (row ∷ rows) more = elim (Bool-cases (matches ua row.patterns)) [
  | inl here ↦ rw (first_match, here) refl
  | inr later ↦ rw (first_match, later) (first_match-append ua rows more)
]

-- A browser that AddBrowserPattern adds is found for the user agents with one of its texts that no
-- row from before matches; the others are found as before.
pub detect_browser-add_browser_pattern :
    (name ua : String) (patterns : List String) (t : Tables)
    → detect_browser (add_browser_pattern name patterns t) ua ≡ (
        if any_os ua t.browser_patterns
        then detect_browser t ua
        else if matches ua patterns
        then name
        else "Unknown")
unfolding add_browser_pattern first_match
detect_browser-add_browser_pattern name ua patterns t =
    first_match-append ua t.browser_patterns (record { name = name; patterns = patterns } ∷ [])
