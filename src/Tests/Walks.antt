-- ===== src/Tests/Walks.antt =====
-- Walks over the pages of three records, with a layout that keeps their times and with one that
-- keeps the seconds, and over records in two tables.
use insight_collector.Prelude.{
  ℕ, ◌*◌, ◌/◌, ◌^◌, ◌+◌, String, none, some, List, [], ◌∷◌, map, Result, ok, err, if◌then◌else◌,
  eqb, Option, ◌==◌, eq_iff, arith, All, ◌≡◌, ◌≢◌, refl, ◌⊎◌, inl, inr,
}
use insight_collector.Text.{trim_space}
use insight_collector.Text.Decimal.{decimal}
use insight_collector.Query.{
  PaginationRequest, Layouts, validate_request, build_time_range, time, Row, get_pagination_info,
  safety_limit, limit_results, take, build_cursor_filter,
}
use insight_collector.Query.Descending.{older}
use insight_collector.Query.Flux.{
  execute_data_query, build_query, select_filters, QueryBuilderConfig, FluxError, failed_query,
  list_page, walk, render,
}
use insight_collector.Query.Flux.Answers.{
  rows, flat, page_text, before_clause, at_most_clause, Answers, IsWalk,
}
use insight_collector.Query.Flux.Walk.{walk_complete}
use insight_collector.Query.Flux.Series.{IsKept, passed_over_is_lost}

abbrev config : QueryBuilderConfig
config = record {
  measurement = "callback_logs";
  valid_tags = λ key. key == "status";
  valid_fields = λ key. key == "callback_id";
  columns = "_time" ∷ "status" ∷ [];
  count_field = "duration_ms";
}

abbrev layouts_of : (String → Option ℕ) → (ℕ → String) → Layouts
layouts_of parse format = record {
  parse_date = λ s. none;
  parse_rfc3339 = parse;
  format_utc = λ t. "";
  format_rfc3339 = format;
}

-- Times, each with its text
abbrev parse_in : List (String × ℕ) → String → Option ℕ
parse_in [] s = none
parse_in ((text, t) ∷ texts) s = if s == text then some t else parse_in texts s

abbrev exact_texts : List (String × ℕ)
exact_texts = ("t4", 4) ∷ ("t3", 3) ∷ ("t2", 2) ∷ ("t1", 1) ∷ []

abbrev exact : Layouts
exact =
    layouts_of (parse_in exact_texts)
      (λ t. if eqb t 4 then "t4" else if eqb t 3 then "t3" else if eqb t 2 then "t2" else "t1")

abbrev request : PaginationRequest
request = record { length = 2; cursor = none; direction = "next"; filters = []; range = none }

abbrev text : String → String → String
text = page_text "events" "start: -7d" "callback_logs" [] ("_time" ∷ "status" ∷ [])

-- A database of some tables, which knows the query for the first page and those after some cursors
abbrev answer_after : List (List ℕ) → List (String × ℕ) → String → Result FluxError (List Row)
answer_after tables [] query = err failed_query
answer_after tables ((cursor, c) ∷ texts) query =
    if query == text (before_clause cursor) ""
    then ok (rows (flat (map (older c) tables)))
    else answer_after tables texts query

abbrev answer : List (String × ℕ) → List (List ℕ) → String → Result FluxError (List Row)
answer texts tables query =
    if query == text "" (at_most_clause 50)
    then ok (rows (flat (map (take 50) tables)))
    else answer_after tables texts query

first_50 :
    (texts : List (String × ℕ)) (tables : List (List ℕ))
    → answer texts tables (text "" (at_most_clause 50)) ≡ ok (rows (flat (map (take 50) tables)))
unfolding trim_space decimal
first_50 texts tables = refl

first_answer :
    (texts : List (String × ℕ)) (tables : List (List ℕ)) (n : ℕ)
    → safety_limit request ≡ some n
    → answer texts tables (text "" (at_most_clause n)) ≡ ok (rows (flat (map (take n) tables)))
unfolding safety_limit
first_answer texts tables n is_limit =
    let same : n ≡ 50 = ground arith in rw same (first_50 texts tables)

listed :
    (s : String) (c : ℕ)
    → parse_in exact_texts s ≡ some c
    → ((s ≡ "t4") × (c ≡ 4))
      ⊎ ((s ≡ "t3") × (c ≡ 3))
      ⊎ ((s ≡ "t2") × (c ≡ 2))
      ⊎ ((s ≡ "t1") × (c ≡ 1))
listed s c parsed = ground (arith, eq_iff s "t4", eq_iff s "t3", eq_iff s "t2", eq_iff s "t1")

later_answer :
    (tables : List (List ℕ)) (s : String) (c : ℕ)
    → parse_in exact_texts s ≡ some c
    → answer exact_texts tables (text (before_clause s) "")
      ≡ ok (rows (flat (map (older c) tables)))
unfolding trim_space decimal
later_answer tables s c parsed = elim (listed s c parsed) [
  | inl (is_s, is_c) ↦ rw (is_s, is_c) refl
  | inr (inl (is_s, is_c)) ↦ rw (is_s, is_c) refl
  | inr (inr (inl (is_s, is_c))) ↦ rw (is_s, is_c) refl
  | inr (inr (inr (is_s, is_c))) ↦ rw (is_s, is_c) refl
]

walk_of :
    (layouts : Layouts) (db : String → Result FluxError (List Row)) (tables : List (List ℕ))
    → validate_request layouts request ≡ ok tt
    → Answers layouts db text (safety_limit request) tables
    → IsWalk layouts (λ s. s) config db "events" request tables
unfolding select_filters
walk_of layouts db tables valid answers = record {
  valid = valid;
  first_page = refl;
  newest_first = refl;
  given = λ e. ground (arith, eq_iff "events" "");
  range = "start: -7d";
  ranged = unfold build_time_range in refl;
  answers = answers;
}

valid_request : (layouts : Layouts) → validate_request layouts request ≡ ok tt
unfolding validate_request
valid_request layouts = refl

exact_walk :
    (tables : List (List ℕ))
    → IsWalk exact (λ s. s) config (answer exact_texts tables) "events" request tables
exact_walk tables =
    walk_of exact (answer exact_texts tables) tables (valid_request exact)
      (record { first = first_answer exact_texts tables; after = later_answer tables })

walk_complete_example :
    walk exact (λ s. s) config (answer exact_texts ((3 ∷ 2 ∷ 1 ∷ []) ∷ [])) "events" 4 request 3
    ≡ ok (rows (3 ∷ 2 ∷ 1 ∷ []))
walk_complete_example =
    walk_complete exact (λ s. s) config (answer exact_texts ((3 ∷ 2 ∷ 1 ∷ []) ∷ [])) "events"
      request (3 ∷ 2 ∷ 1 ∷ []) (exact_walk ((3 ∷ 2 ∷ 1 ∷ []) ∷ [])) 3
      ((ground arith, (ground arith, tt)), ((ground arith, tt), (tt, tt)))
      (
        ((λ e. ground (arith, eq_iff "t3" "")), refl),
        (
          ((λ e. ground (arith, eq_iff "t2" "")), refl),
          (((λ e. ground (arith, eq_iff "t1" "")), refl), tt),
        ),
      )
      4 (omega arith)

-- The layout keeps the seconds of 4 and 5.
abbrev second_texts : List (String × ℕ)
second_texts = ("05", 5 * 10 ^ 9) ∷ ("04", 4 * 10 ^ 9) ∷ []

abbrev seconds : Layouts
seconds = layouts_of (parse_in second_texts) (λ t. if eqb (t / 10 ^ 9) 5 then "05" else "04")

later_second :
    (tables : List (List ℕ)) (s : String) (c : ℕ)
    → parse_in second_texts s ≡ some c
    → answer second_texts tables (text (before_clause s) "")
      ≡ ok (rows (flat (map (older c) tables)))
unfolding trim_space decimal
later_second tables s c parsed =
    let cases : ((s ≡ "05") × (c ≡ 5 * 10 ^ 9)) ⊎ ((s ≡ "04") × (c ≡ 4 * 10 ^ 9)) =
      ground (arith, eq_iff s "05", eq_iff s "04") in
    elim cases [ inl (is_s, is_c) ↦ rw (is_s, is_c) refl | inr (is_s, is_c) ↦ rw (is_s, is_c) refl ]

-- Three records of the fifth second and one of the fourth in one table, and one of the fifth second
-- in another
abbrev two_tables : List (List ℕ)
two_tables =
    ((5 * 10 ^ 9 + 900) ∷ (5 * 10 ^ 9 + 600) ∷ (5 * 10 ^ 9 + 200) ∷ 4 * 10 ^ 9 ∷ [])
    ∷ ((5 * 10 ^ 9 + 950) ∷ [])
    ∷ []

abbrev two_db : String → Result FluxError (List Row)
two_db = answer second_texts two_tables

seconds_walk : IsWalk seconds (λ s. s) config two_db "events" request two_tables
seconds_walk =
    walk_of seconds two_db two_tables (valid_request seconds)
      (record { first = first_answer second_texts two_tables; after = later_second two_tables })

abbrev first_rows : List Row
first_rows = rows ((5 * 10 ^ 9 + 900) ∷ (5 * 10 ^ 9 + 600) ∷ [])

first_listed :
    list_page seconds (λ s. s) config two_db "events" request 5
    ≡ ok (first_rows, get_pagination_info seconds request first_rows 5)
unfolding list_page execute_data_query build_query validate_request build_time_range safety_limit
    limit_results get_pagination_info select_filters trim_space decimal render build_cursor_filter
first_listed = refl

fifth : (t : ℕ) → (t / 10 ^ 9 ≡ 5) → IsKept seconds t
fifth t is_fifth =
    rw is_fifth ((λ e. ground (arith, eq_iff "05" "")), 5 * 10 ^ 9, refl, omega arith)

passed_over_is_lost_example :
    (shown : List Row) × (walk seconds (λ s. s) config two_db "events" 9 request 5 ≡ ok shown)
    × All (λ r. r ≢ some (time (5 * 10 ^ 9 + 950))) shown
passed_over_is_lost_example =
    passed_over_is_lost seconds (λ s. s) config two_db "events" request two_tables seconds_walk 5
      (5 * 10 ^ 9 + 950)
      (
        (
          fifth (5 * 10 ^ 9 + 900) refl,
          (
            fifth (5 * 10 ^ 9 + 600) refl,
            (
              fifth (5 * 10 ^ 9 + 200) refl,
              (((λ e. ground (arith, eq_iff "04" "")), 4 * 10 ^ 9, refl, omega arith), tt),
            ),
          ),
        ),
        ((fifth (5 * 10 ^ 9 + 950) refl, tt), tt),
      )
      9 (5 * 10 ^ 9 + 600) (5 * 10 ^ 9) first_rows
      (get_pagination_info seconds request first_rows 5) first_listed refl
      (λ e. ground (arith, eq_iff "05" "")) refl (omega arith)
      ((λ e. ground arith), ((λ e. ground arith), tt))
