-- ===== src/Query/Validation.antt =====
-- Which requests for a page are valid, and the time ranges of single days.

use insight_collector.Prelude.{
  ℕ, ◌+◌, ◌≤◌, String, true, Option, none, some, ok, ◌≡◌, ◌≢◌, ◌↔◌, ◌⊎◌, inl, inr, refl, arith,
  eq_iff, Option-cases, text_cases, eq-false_of_ne, ◌-◌, ◌*◌, ◌^◌, ap,
}
use insight_collector.Query.{
  DateRangeFilter, PaginationRequest, Layouts, parses_or_empty, check_range, check_cursor,
  validate_request, day_end, between, range_of, build_time_range,
}

-- The text is empty, or the layout parses it.
abbrev pub Parses : (String → Option ℕ) → String → Type 0
Parses parse s = (s ≡ "") ⊎ ((t : ℕ) × (parse s ≡ some t))

abbrev pub IsRange : Layouts → Option DateRangeFilter → Type 0
IsRange layouts none = Unit
IsRange layouts (some range) =
    Parses layouts.parse_date range.start × Parses layouts.parse_date range.end

abbrev pub IsCursor : Layouts → Option String → Type 0
IsCursor layouts none = Unit
IsCursor layouts (some c) = Parses layouts.parse_rfc3339 c

-- A page of 1 to 100 records in one of two directions, with a cursor and dates that parse
abbrev pub IsValid : Layouts → PaginationRequest → Type 0
IsValid layouts req =
    ((1 ≤ req.length) × (req.length ≤ 100))
    × ((req.direction ≡ "next") ⊎ (req.direction ≡ "prev"))
    × IsCursor layouts req.cursor
    × IsRange layouts req.range

module _ (layouts : Layouts) where
  parses_or_empty_iff :
      (parse : String → Option ℕ) (s : String) → (parses_or_empty parse s ≡ true) ↔ Parses parse s
  parses_or_empty_iff parse s = elim (text_cases s "") [
    | inl (same, e) ↦ (λ h. inl same, λ h. ground arith)
    | inr (differ, e) ↦ elim (Option-cases (parse s)) [
      | inl bad ↦ (λ h. absurd (ground arith), λ h. ground arith)
      | inr (t, good) ↦ (λ h. inr (t, good), λ h. ground arith)
    ]
  ]

  check_cursor_iff : (c : Option String) → (check_cursor layouts c ≡ ok tt) ↔ IsCursor layouts c
  check_cursor_iff none = (λ e. tt, λ e. refl)
  check_cursor_iff (some c) =
      let (sound, complete) = parses_or_empty_iff layouts.parse_rfc3339 c in
      (λ e. sound (ground arith), λ p. let passed = complete p in ground arith)

  check_range_iff :
      (r : Option DateRangeFilter) → (check_range layouts r ≡ ok tt) ↔ IsRange layouts r
  check_range_iff none = (λ e. tt, λ e. refl)
  check_range_iff (some r) =
      let (sound, complete) = parses_or_empty_iff layouts.parse_date r.start in
      let (sound', complete') = parses_or_empty_iff layouts.parse_date r.end in
      (
        λ e. (sound (ground arith), sound' (ground arith)),
        λ (p, q). let passed = complete p in let passed' = complete' q in ground arith,
      )

  -- ValidateRequest accepts exactly the requests for 1 to 100 records in the direction "next" or
  -- "prev" whose cursor and dates, where they are given and not empty, parse.
  pub validate_request_iff :
      (req : PaginationRequest) → (validate_request layouts req ≡ ok tt) ↔ IsValid layouts req
  unfolding validate_request
  validate_request_iff req =
      let (cursor_sound, cursor_complete) = check_cursor_iff req.cursor in
      let (range_sound, range_complete) = check_range_iff req.range in
      (
        λ e. (
          (ground arith, ground arith),
          ground (arith, eq_iff req.direction "next", eq_iff req.direction "prev"),
          cursor_sound (ground arith),
          range_sound (ground arith),
        ),
        λ ((low, high), direction, cursor, range).
            let c = cursor_complete cursor in
            let r = range_complete range in
            ground (arith, eq_iff req.direction "next", eq_iff req.direction "prev"),
      )

  -- A date that parses, alone as the start, alone as the end, or as both, asks for its day, up to
  -- the last second.
  pub build_time_range_of_day :
      (date : String) (t : ℕ)
      → date ≢ ""
      → layouts.parse_date date ≡ some t
      → (build_time_range layouts (some (record { start = date; end = "" }))
          ≡ ok (between layouts t (t + 86399 * 10 ^ 9)))
        × (build_time_range layouts (some (record { start = ""; end = date }))
            ≡ ok (between layouts t (t + 86399 * 10 ^ 9)))
        × (build_time_range layouts (some (record { start = date; end = date }))
            ≡ ok (between layouts t (t + 86399 * 10 ^ 9)))
  unfolding build_time_range range_of
  build_time_range_of_day date t given good =
      let e = eq-false_of_ne date "" given in
      let back : (t + day_end) - day_end ≡ t = omega arith in
      let same = ap (λ x. between layouts x (t + day_end)) back in
      (ground arith, ground arith, ground arith)
