-- ===== src/Query/Flux/Answers.antt =====
-- What InfluxDB is taken to answer to the texts of the queries for pages, newest first, and the page
-- of a request that it answers so. Flux works on a stream of tables, one for each combination of
-- the tags that its columns keep: `sort` and `limit` act on each table alone, and the client reads
-- one table after the other.
use insight_collector.Prelude.{
  ℕ, zero, suc, ◌≤◌, String, Option, none, some, List, [], ◌∷◌, ◌++◌, map, Result, ok, ltb, leb,
  eqb, length, ◌≡◌, ◌≢◌, refl, arith, eq-false_of_ne, Bool-cases, inl, inr, ◌∙◌, ap, sym,
}
use insight_collector.Text.{trim_space}
use insight_collector.Text.Decimal.{decimal}
use insight_collector.Query.{
  PaginationRequest, Layouts, validate_request, build_time_range, build_cursor_filter, safety_limit,
  given_cursor, time, Row, PaginationInfo, last, take, limit_results, get_pagination_info,
}
use insight_collector.Query.Validation.{validate_request_iff}
use insight_collector.Query.Pages.{safety_limit_bounds}
use insight_collector.Query.Descending.{older, take_of_length-le}
use insight_collector.Query.Flux.{
  QueryBuilderConfig, FluxError, select_filters, filters_text, columns_text, limit_text, concat,
  Flux, render, build_query, execute_data_query, list_page,
}

-- The records of some times
abbrev pub rows : List ℕ → List Row
rows = map (λ t. some (time t))

-- One table after the other
abbrev pub flat : List (List ℕ) → List ℕ
flat [] = []
flat (ts ∷ tables) = ts ++ flat tables

pub length-map : (ts : List ℕ) → length (rows ts) ≡ length ts
length-map [] = refl
length-map (t ∷ ts) = omega (arith, length-map ts)

take-rows : (n : ℕ) (ts : List ℕ) → take n (rows ts) ≡ rows (take n ts)
take-rows zero ts = refl
take-rows (suc n) [] = refl
take-rows (suc n) (t ∷ ts) = ap (λ rs. some (time t) ∷ rs) (take-rows n ts)

pub rows-append : (ts us : List ℕ) → rows ts ++ rows us ≡ rows (ts ++ us)
rows-append [] us = refl
rows-append (t ∷ ts) us = ap (λ rs. some (time t) ∷ rs) (rows-append ts us)

pub last-rows : (t : ℕ) (ts : List ℕ) → last ts ≡ some t → last (rows ts) ≡ some (some (time t))
last-rows t [] e = absurd (ground arith)
last-rows t (u ∷ []) e = let same : u ≡ t = ground arith in rw same refl
last-rows t (u ∷ v ∷ ts) e = last-rows t (v ∷ ts) e

pub length-take-eq :
    {A : Type 0} (n : ℕ) (xs : List A) → eqb (length (take n xs)) n ≡ leb n (length xs)
length-take-eq zero xs = ground arith
length-take-eq (suc n) [] = ground arith
length-take-eq (suc n) (x ∷ xs) = let rest = length-take-eq n xs in ground arith

limit_results-take :
    (req : PaginationRequest) (rs : List Row) → limit_results req rs ≡ take req.length rs
unfolding limit_results
limit_results-take req rs = elim (Bool-cases (ltb req.length (length rs))) [
  | inl more ↦ rw more refl
  | inr all ↦ rw all (sym (take_of_length-le req.length rs (ground arith)))
]

-- The text of a query for a page, newest first: its range, measurement, filters and columns, and
-- the clauses that depend on the page
abbrev pub page_text :
    String → String → String → List (String × String) → List String → String → String → String
page_text bucket range measurement filters columns cursor_clause limit_clause = trim_space (
    concat (
      "from(bucket: \""
      ∷ bucket
      ∷ "\")\n  |> range("
      ∷ range
      ∷ ")\n  |> filter(fn: (r) => r[\"_measurement\"] == \""
      ∷ measurement
      ∷ "\")"
      ∷ filters_text filters
      ∷ cursor_clause
      ∷ "\n  |> pivot(rowKey: [\"_time\"], columnKey: [\"_field\"], valueColumn: \"_value\")"
      ∷ columns_text columns
      ∷ "\n  |> sort(columns: [\"_time\"], desc: "
      ∷ "true"
      ∷ ")"
      ∷ limit_clause
      ∷ []))

abbrev pub before_clause : String → String
before_clause cursor =
    concat ("\n  |> filter(fn: (r) => r._time " ∷ "<" ∷ " time(v: \"" ∷ cursor ∷ "\"))" ∷ [])

abbrev pub at_most_clause : ℕ → String
at_most_clause n = concat ("\n  |> limit(n: " ∷ decimal n ∷ ")" ∷ [])

render-page_text :
    (q : Flux) (cursor_clause limit_clause : String)
    → q.direction ≡ "next"
    → build_cursor_filter q.cursor q.direction ≡ cursor_clause
    → limit_text q.limit ≡ limit_clause
    → render q
      ≡ page_text q.bucket q.time_range q.measurement q.filters q.columns cursor_clause limit_clause
unfolding render
render-page_text q cursor_clause limit_clause newest cursor limit = rw (cursor, limit, newest) refl

first_filter : (direction : String) → build_cursor_filter none direction ≡ ""
unfolding build_cursor_filter
first_filter direction = refl

later_filter :
    (cursor : String)
    → cursor ≢ ""
    → build_cursor_filter (some cursor) "next" ≡ before_clause cursor
unfolding build_cursor_filter
later_filter cursor nonempty = rw (build_cursor_filter, eq-false_of_ne cursor "" nonempty) refl

no_limit :
    (q : PaginationRequest) (cursor : String)
    → cursor ≢ ""
    → q.cursor ≡ some cursor
    → safety_limit q ≡ none
unfolding safety_limit
no_limit q cursor nonempty given = let no = eq-false_of_ne cursor "" nonempty in ground arith

-- RFC 3339 keeps the time.
abbrev pub IsExact : Layouts → ℕ → Type 0
IsExact layouts t =
    (layouts.format_rfc3339 t ≢ "") × (layouts.parse_rfc3339 (layouts.format_rfc3339 t) ≡ some t)

-- What InfluxDB answers, for the tables of the records that the range and the filters select, each
-- from the newest to the oldest: `text` is the text of the query with the clauses given, and
-- `limit` the limit of the first page.
pub record Answers (layouts : Layouts) (db : String → Result FluxError (List Row))
    (text : String → String → String) (limit : Option ℕ) (tables : List (List ℕ)) : Type 0 where
  pub first :
      (n : ℕ)
      → limit ≡ some n
      → db (text "" (at_most_clause n)) ≡ ok (rows (flat (map (take n) tables)))
  pub after :
      (cursor : String) (c : ℕ)
      → layouts.parse_rfc3339 cursor ≡ some c
      → db (text (before_clause cursor) "") ≡ ok (rows (flat (map (older c) tables)))

module _ (layouts : Layouts) (to_lower : String → String) (config : QueryBuilderConfig)
    (db : String → Result FluxError (List Row)) (bucket : String) (req : PaginationRequest)
    (tables : List (List ℕ)) where
  -- The setting of a walk: a valid request for the first page, newest first, and a database that
  -- answers its queries from `tables`
  pub record IsWalk : Type 0 where
    pub valid : validate_request layouts req ≡ ok tt
    pub first_page : req.cursor ≡ none
    pub newest_first : req.direction ≡ "next"
    pub given : bucket ≢ ""
    pub range : String
    pub ranged : build_time_range layouts req.range ≡ ok range
    pub answers :
        Answers layouts db
          (page_text bucket range config.measurement
            (select_filters to_lower config req.filters)
            config.columns)
          (safety_limit req)
          tables

  module _ (w : IsWalk) (total : ℕ) where
    -- The page of some records, with its metadata
    abbrev pub page_of : PaginationRequest → List ℕ → Result FluxError (List Row × PaginationInfo)
    page_of q ts =
        let page = rows (take req.length ts) in ok (page, get_pagination_info layouts q page total)

    page_of_answer :
        (q : PaginationRequest) (query : Flux) (ts : List ℕ)
        → q.length ≡ req.length
        → build_query layouts to_lower config q bucket ≡ ok query
        → db (render query) ≡ ok (rows ts)
        → list_page layouts to_lower config db bucket q total ≡ page_of q ts
    unfolding list_page execute_data_query
    page_of_answer q query ts same built answered =
        let page : limit_results q (rows ts) ≡ rows (take req.length ts) =
          limit_results-take q (rows ts)
          ∙ ap (λ n. take n (rows ts)) same
          ∙ take-rows req.length ts in
        rw (built, answered, page) refl

    query_of : PaginationRequest → Flux
    query_of q = record {
      bucket = bucket;
      time_range = w.range;
      measurement = config.measurement;
      filters = select_filters to_lower config req.filters;
      cursor = q.cursor;
      direction = req.direction;
      columns = config.columns;
      limit = safety_limit q;
    }

    pub page_after :
        (c : ℕ) (cursor : String)
        → cursor ≢ ""
        → layouts.parse_rfc3339 cursor ≡ some c
        → list_page layouts to_lower config db bucket (record req { cursor = some cursor }) total
          ≡ page_of (record req { cursor = some cursor }) (flat (map (older c) tables))
    unfolding build_query query_of
    page_after c cursor nonempty parsed =
        let q : PaginationRequest = record req { cursor = some cursor } in
        let ((low, high), direction, _, ranges) = (validate_request_iff layouts req).0 w.valid in
        let valid' =
          (validate_request_iff layouts q).1 ((low, high), direction, inr (c, parsed), ranges) in
        let built : build_query layouts to_lower config q bucket ≡ ok (query_of q) =
          rw (valid', eq-false_of_ne bucket "" w.given, w.ranged) refl in
        page_of_answer q (query_of q) (flat (map (older c) tables)) refl built (
          ap db (
            render-page_text (query_of q) (before_clause cursor) "" w.newest_first
              (ap (build_cursor_filter (some cursor)) w.newest_first ∙ later_filter cursor nonempty)
              (ap limit_text (no_limit q cursor nonempty refl)))
          ∙ w.answers.after cursor c parsed)

    pub page_first :
        (n : ℕ) × (req.length ≤ n)
        × (list_page layouts to_lower config db bucket req total
            ≡ page_of req (flat (map (take n) tables)))
    unfolding build_query query_of
    page_first =
        let built : build_query layouts to_lower config req bucket ≡ ok (query_of req) =
          rw (w.valid, eq-false_of_ne bucket "" w.given, w.ranged) refl in
        let (limit, is_limit, low, high, enough) =
          safety_limit_bounds layouts req w.valid (ap given_cursor w.first_page) in
        (
          limit,
          enough,
          page_of_answer req (query_of req) (flat (map (take limit) tables)) refl built (
              ap db (
                render-page_text (query_of req) "" (at_most_clause limit) w.newest_first
                  (ap (λ cursor. build_cursor_filter cursor req.direction) w.first_page
                    ∙ first_filter req.direction)
                  (ap limit_text is_limit))
              ∙ w.answers.first limit is_limit),
        )
