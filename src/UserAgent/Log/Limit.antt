-- ===== src/UserAgent/Log/Limit.antt =====
-- How often pkg/useragent/useragent.go logs the same text between two cleanups.
use mathlib.Core.Bool.{and-eq-true_iff}
use mathlib.Core.Path.{subst}
use insight_collector.Prelude.{
  ℕ, ◌+◌, ◌-◌, ◌≤◌, String, Bool, true, false, ◌&&◌, Option, some, List, [], ◌∷◌, ◌++◌, ◌==◌,
  insert, if◌then◌else◌, ltb, ◌≡◌, refl, Bool-cases, inl, inr, arith, eq_iff, sym, ap, ◌∙◌,
}
use insight_collector.UserAgent.Log.{
  DetectionLogger, Reading, Warning, Kind, of_browsers, of_systems, of_agents, kind_of, cache_of,
  set_cache, or_zero, count, short_ua, cleanup, log_unknown_pattern, new_detection_logger,
}

-- A call of logUnknownPattern
pub record Event : Type 0 where
  pub reading : Reading
  pub category : String
  pub user_agent : String
  pub instruction : String

abbrev pub log_event : Event → DetectionLogger → DetectionLogger × List Warning
log_event e dl = log_unknown_pattern e.reading e.category e.user_agent e.instruction dl

abbrev pub log_events : List Event → DetectionLogger → DetectionLogger × List Warning
log_events [] dl = (dl, [])
log_events (e ∷ es) dl =
    let first = log_event e dl in let rest = log_events es (first.0) in (rest.0, first.1 ++ rest.1)

-- No event is read after the interval of the last cleanup.
abbrev pub NoneAfter : ℕ → ℕ → List Event → Type 0
NoneAfter interval last [] = Unit
NoneAfter interval last (e ∷ es) =
    (ltb interval (e.reading.checked - last) ≡ false) × NoneAfter interval last es

abbrev pub BeforeCleanup : DetectionLogger → List Event → Type 0
BeforeCleanup dl es = NoneAfter dl.cleanup_interval dl.last_cleanup es

abbrev pub same_kind : Kind → Kind → Bool
same_kind of_browsers of_browsers = true
same_kind of_systems of_systems = true
same_kind of_agents of_agents = true
same_kind _ _ = false

-- Whether a category and a text count for a kind and a text
abbrev pub counts_for : Kind → String → String → String → Bool
counts_for k text category pattern = same_kind (kind_of category) k && pattern == text

abbrev pub one : Bool → ℕ
one true = 1
one false = 0

-- The events, and the warnings, of a kind and a text
abbrev pub events_of : Kind → String → List Event → ℕ
events_of k text [] = 0
events_of k text (e ∷ es) =
    one (counts_for k text e.category (short_ua e.user_agent)) + events_of k text es

abbrev pub warnings_of : Kind → String → List Warning → ℕ
warnings_of k text [] = 0
warnings_of k text (w ∷ ws) = one (counts_for k text w.category w.pattern) + warnings_of k text ws

abbrev pub at_most_three : ℕ → ℕ
at_most_three n = if ltb n 3 then n else 3

warnings_of-append :
    (k : Kind) (text : String) (ws vs : List Warning)
    → warnings_of k text (ws ++ vs) ≡ warnings_of k text ws + warnings_of k text vs
warnings_of-append k text [] vs = omega arith
warnings_of-append k text (w ∷ ws) vs = omega (arith, warnings_of-append k text ws vs)

or_zero-if :
    (b : Bool) (v : ℕ) (o : Option ℕ)
    → or_zero (if b then some v else o) ≡ (if b then v else or_zero o)
or_zero-if true v o = refl
or_zero-if false v o = refl

count-set_cache :
    (k' k : Kind) (pattern text : String) (v : ℕ) (dl : DetectionLogger)
    → count k text (set_cache k' (insert pattern v (cache_of k' dl)) dl)
      ≡ (if same_kind k' k && pattern == text then v else count k text dl)
count-set_cache of_browsers of_browsers pattern text v dl = or_zero-if (pattern == text) v _
count-set_cache of_systems of_systems pattern text v dl = or_zero-if (pattern == text) v _
count-set_cache of_agents of_agents pattern text v dl = or_zero-if (pattern == text) v _
count-set_cache of_browsers of_systems pattern text v dl = refl
count-set_cache of_browsers of_agents pattern text v dl = refl
count-set_cache of_systems of_browsers pattern text v dl = refl
count-set_cache of_systems of_agents pattern text v dl = refl
count-set_cache of_agents of_browsers pattern text v dl = refl
count-set_cache of_agents of_systems pattern text v dl = refl

-- A change of the maps alone
abbrev SameClock : DetectionLogger → DetectionLogger → Type 0
SameClock dl dl' =
    (dl'.enabled ≡ dl.enabled)
    × (dl'.last_cleanup ≡ dl.last_cleanup)
    × (dl'.cleanup_interval ≡ dl.cleanup_interval)

set_cache-SameClock : (k : Kind) (m : _) (dl : DetectionLogger) → SameClock dl (set_cache k m dl)
set_cache-SameClock of_browsers m dl = (refl, refl, refl)
set_cache-SameClock of_systems m dl = (refl, refl, refl)
set_cache-SameClock of_agents m dl = (refl, refl, refl)

same_kind-eq : (k' k : Kind) → same_kind k' k ≡ true → k' ≡ k
same_kind-eq of_browsers of_browsers h = refl
same_kind-eq of_systems of_systems h = refl
same_kind-eq of_agents of_agents h = refl
same_kind-eq of_browsers of_systems h = ground arith
same_kind-eq of_browsers of_agents h = ground arith
same_kind-eq of_systems of_browsers h = ground arith
same_kind-eq of_systems of_agents h = ground arith
same_kind-eq of_agents of_browsers h = ground arith
same_kind-eq of_agents of_systems h = ground arith

-- The event of a kind and a text counts with that kind's and text's number.
counted-eq :
    (k' k : Kind) (pattern text : String) (dl : DetectionLogger)
    → (same_kind k' k && pattern == text) ≡ true
    → count k' pattern dl ≡ count k text dl
counted-eq k' k pattern text dl h =
    let parts = (and-eq-true_iff (same_kind k' k) (pattern == text)).0 h in
    rw (same_kind-eq k' k parts.0, (eq_iff pattern text).0 parts.1)

-- The number after a warning, and after none
warned_number :
    (hit : Bool) (seen c : ℕ)
    → (hit ≡ true → seen ≡ c)
    → ltb seen 3 ≡ true
    → c ≤ 3
    → ((if hit then seen + 1 else c) ≡ at_most_three (c + one hit))
      × (c + (one hit + 0) ≡ (if hit then seen + 1 else c))
warned_number true seen c same less few = (ground (arith, same refl), ground (arith, same refl))
warned_number false seen c same less few = (ground arith, omega arith)

silent_number :
    (hit : Bool) (seen c : ℕ)
    → (hit ≡ true → seen ≡ c)
    → ltb seen 3 ≡ false
    → c ≤ 3
    → c ≡ at_most_three (c + one hit)
silent_number true seen c same many few = ground (arith, same refl)
silent_number false seen c same many few = ground arith

-- What an event does to the number of a kind and a text
abbrev Counted : Kind → String → Event → DetectionLogger → DetectionLogger × List Warning → Type 0
Counted k text e dl next =
    SameClock dl (next.0)
    × (count k text (next.0)
        ≡ at_most_three
            (count k text dl + one (counts_for k text e.category (short_ua e.user_agent))))
    × (count k text dl + warnings_of k text (next.1) ≡ count k text (next.0))

abbrev warning_of : Event → DetectionLogger → Warning
warning_of e dl = record {
  category = e.category;
  pattern = short_ua e.user_agent;
  user_agent = e.user_agent;
  instruction = e.instruction;
  counter = count (kind_of e.category) (short_ua e.user_agent) dl + 1;
}

module _ (e : Event) (dl : DetectionLogger) (on : dl.enabled ≡ true)
    (early : ltb dl.cleanup_interval (e.reading.checked - dl.last_cleanup) ≡ false) where
  abbrev kind : Kind
  kind = kind_of e.category

  abbrev pattern : String
  pattern = short_ua e.user_agent

  log_event-warned :
      ltb (count kind pattern dl) 3 ≡ true
      → log_event e dl ≡ (
        set_cache kind (insert pattern (count kind pattern dl + 1) (cache_of kind dl)) dl,
        warning_of e dl ∷ [],
      )
  unfolding log_unknown_pattern cleanup
  log_event-warned less = simp (early, less, on)

  log_event-silent : ltb (count kind pattern dl) 3 ≡ false → log_event e dl ≡ (dl, [])
  unfolding log_unknown_pattern cleanup
  log_event-silent many = simp (early, many, on)

  log_event-Counted :
      (k : Kind) (text : String) → count k text dl ≤ 3 → Counted k text e dl (log_event e dl)
  log_event-Counted k text few =
      let c = count k text dl in
      let same = counted-eq kind k pattern text dl in
      elim (Bool-cases (ltb (count kind pattern dl) 3)) [
        | inl less ↦
            let number = warned_number (counts_for k text e.category pattern) _ c same less few in
            let is = count-set_cache kind k pattern text (count kind pattern dl + 1) dl in
            subst (Counted k text e dl) (sym (log_event-warned less))
              (set_cache-SameClock kind _ dl, is ∙ number.0, number.1 ∙ sym is)
        | inr many ↦ subst (Counted k text e dl) (sym (log_event-silent many)) (
          (refl, refl, refl),
          silent_number (counts_for k text e.category pattern) _ c same many few,
          omega arith,
        )
      ]

up_to_three_twice :
    (c n m : ℕ) → c ≤ 3 → at_most_three (at_most_three (c + n) + m) ≡ at_most_three (c + (n + m))
up_to_three_twice c n m few = ground arith

at_most_three-le : (n : ℕ) → at_most_three n ≤ 3
at_most_three-le n = ground arith

log_events-counted :
    (k : Kind) (text : String) (es : List Event) (dl : DetectionLogger)
    → dl.enabled ≡ true
    → BeforeCleanup dl es
    → count k text dl ≤ 3
    → (count k text ((log_events es dl).0) ≡ at_most_three (count k text dl + events_of k text es))
      × (count k text dl + warnings_of k text ((log_events es dl).1)
          ≡ count k text ((log_events es dl).0))
log_events-counted k text [] dl on early few = (ground arith, omega arith)
log_events-counted k text (e ∷ es) dl on early few =
    let c = count k text dl in
    let next = log_event e dl in
    let hit = one (counts_for k text e.category (short_ua e.user_agent)) in
    let step = log_event-Counted e dl on early.0 k text few in
    let clock = step.0 in
    let rest =
      log_events-counted k text es (next.0) (clock.0 ∙ on)
        (subst (λ last. NoneAfter (next.0.cleanup_interval) last es) (sym clock.1)
          (subst (λ interval. NoneAfter interval dl.last_cleanup es) (sym clock.2) early.1))
        (subst (λ n. n ≤ 3) (sym step.1) (at_most_three-le (c + hit))) in
    (
      rest.0
          ∙ ap (λ n. at_most_three (n + events_of k text es)) step.1
          ∙ up_to_three_twice c hit (events_of k text es) few,
      omega
          (arith, warnings_of-append k text (next.1) ((log_events es (next.0)).1), step.2, rest.1),
    )

count-new : (k : Kind) (text : String) (now : ℕ) → count k text (new_detection_logger true now) ≡ 0
unfolding new_detection_logger
count-new of_browsers text now = refl
count-new of_systems text now = refl
count-new of_agents text now = refl

-- A logger that is enabled and has just been made warns of a text in a category's map as often as
-- the text occurs for that map in the events before the next cleanup, but three times at most.
pub warnings_of-log_events :
    (k : Kind) (text : String) (now : ℕ) (es : List Event)
    → BeforeCleanup (new_detection_logger true now) es
    → warnings_of k text ((log_events es (new_detection_logger true now)).1)
      ≡ at_most_three (events_of k text es)
unfolding new_detection_logger
warnings_of-log_events k text now es early =
    let dl = new_detection_logger true now in
    let none_yet = count-new k text now in
    let run =
      log_events-counted k text es dl refl early
        (subst (λ n. n ≤ 3) (sym none_yet) (omega arith)) in
    grind
      (arith, run.1, run.0 ∙ ap (λ n. at_most_three (n + events_of k text es)) none_yet, none_yet)
