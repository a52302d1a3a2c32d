-- ===== src/Query.antt =====
-- pkg/influxdb/v2-oss/query_builder.go and types.go: the requests for a page of records, their
-- validation, the time range and the cursor of their query, the limits, and the page's metadata.
-- Go's layouts of times are parameters; a time is its nanoseconds since the year 0.
pub mod Validation
pub mod Pages
pub mod Flux
pub mod Descending
use Prim.Native.String
use insight_collector.Prelude.{
  ℕ, ◌+◌, ◌-◌, ◌*◌, ◌%◌, ◌^◌, String, Bool, true, false, ◌&&◌, ◌||◌, not, Option, none, some, List,
  [], ◌∷◌, ◌==◌, Result, ok, err, ◌>>=◌, ◌>>◌, require, found_or, if◌then◌else◌, ltb, leb, eqb,
  length, suc, zero,
}
use insight_collector.Int64.{exceeds}

pub record FilterItem : Type 0 where
  pub key : String
  pub value : String

pub record DateRangeFilter : Type 0 where
  pub start : String
  pub end : String

-- `length` is an `int`, by its bits.
pub record PaginationRequest : Type 0 where
  pub length : ℕ
  pub cursor : Option String
  pub direction : String
  pub filters : List FilterItem
  pub range : Option DateRangeFilter

pub data QueryError : Type 0 where
  length_not_positive length_above_100 invalid_direction invalid_cursor : QueryError
  invalid_start_date invalid_end_date start_after_end : QueryError

-- time.Parse for "2006-01-02" and time.RFC3339, and Format for "2006-01-02T15:04:05Z" and
-- time.RFC3339
pub record Layouts : Type 0 where
  pub parse_date : String → Option ℕ
  pub parse_rfc3339 : String → Option ℕ
  pub format_utc : ℕ → String
  pub format_rfc3339 : ℕ → String

-- `req.Cursor != nil && *req.Cursor != ""`
abbrev pub given_cursor : Option String → Option String
given_cursor none = none
given_cursor (some c) = if c == "" then none else some c

-- A text that is empty, or that the layout parses
abbrev pub parses_or_empty : (String → Option ℕ) → String → Bool
parses_or_empty parse s = if s == "" then true else elim (parse s) [ some _ ↦ true | none ↦ false ]

-- 23 hours, 59 minutes and 59 seconds, in nanoseconds
abbrev pub day_end : ℕ
day_end = (23 * 3600 + 59 * 60 + 59) * 10 ^ 9

module _ (layouts : Layouts) where
  abbrev pub check_range : Option DateRangeFilter → Result QueryError (Unit {0})
  check_range none = ok tt
  check_range (some range) = do
    require (parses_or_empty layouts.parse_date range.start) invalid_start_date
    require (parses_or_empty layouts.parse_date range.end) invalid_end_date

  abbrev pub check_cursor : Option String → Result QueryError (Unit {0})
  check_cursor none = ok tt
  check_cursor (some c) = require (parses_or_empty layouts.parse_rfc3339 c) invalid_cursor

  unfoldable pub validate_request : PaginationRequest → Result QueryError (Unit {0})
  validate_request req = do
    require (exceeds req.length 0) length_not_positive
    require (not (exceeds req.length 100)) length_above_100
    require (req.direction == "next" || req.direction == "prev") invalid_direction
    check_cursor req.cursor
    check_range req.range

  abbrev pub between : ℕ → ℕ → String
  between start stop =
      String.◌++◌ "start: "
        (String.◌++◌ (layouts.format_utc start) (String.◌++◌ ", stop: " (layouts.format_utc stop)))

  unfoldable pub range_of : DateRangeFilter → Result QueryError String
  range_of range =
      if not (range.start == "") && not (range.end == "")
      then (do
        start_time ← found_or (layouts.parse_date range.start) invalid_start_date
        end_date ← found_or (layouts.parse_date range.end) invalid_end_date
        require (leb start_time (end_date + day_end)) start_after_end
        ok (between start_time (end_date + day_end)))
      else if not (range.start == "")
      then (do
        start_time ← found_or (layouts.parse_date range.start) invalid_start_date
        ok (between start_time (start_time + day_end)))
      else if not (range.end == "")
      then (do
        end_date ← found_or (layouts.parse_date range.end) invalid_end_date
        ok (between ((end_date + day_end) - day_end) (end_date + day_end)))
      else ok "start: -7d"

  unfoldable pub build_time_range : Option DateRangeFilter → Result QueryError String
  unfolding range_of
  build_time_range none = ok "start: -7d"
  build_time_range (some range) = range_of range

unfoldable pub build_cursor_filter : Option String → String → String
build_cursor_filter cursor direction = elim (given_cursor cursor) [
  | none ↦ ""
  | some cursor_time ↦ String.◌++◌ "\n  |> filter(fn: (r) => r._time " (
      String.◌++◌ (if direction == "next" then "<" else ">")
        (String.◌++◌ " time(v: \"" (String.◌++◌ cursor_time "\"))")))
]

-- The limit on the first page, of BuildQuery; other pages have none.
unfoldable pub safety_limit : PaginationRequest → Option ℕ
safety_limit req = elim (given_cursor req.cursor) [
  | some _ ↦ none
  | none ↦
      let limit = (req.length * 10) % 2 ^ 64 in
      let at_least = if not (exceeds limit 49) then 50 else limit in
      some (if exceeds at_least 1000 then 1000 else at_least)
]

-- The value of "_time" in a record
pub data TimeValue : Type 0 where
  text : String → TimeValue
  time : ℕ → TimeValue
  other : String → TimeValue

pub record PaginationInfo : Type 0 where
  pub length : ℕ
  pub has_next : Bool
  pub has_prev : Bool
  pub next_cursor : Option String
  pub prev_cursor : Option String
  pub direction : String
  pub total : ℕ

-- Records by their "_time", if they have one
abbrev pub Row : Type 0
Row = Option TimeValue

abbrev pub last : {A : Type 0} → List A → Option A
last [] = none
last (x ∷ []) = some x
last (x ∷ y ∷ ys) = last (y ∷ ys)

abbrev pub head : {A : Type 0} → List A → Option A
head [] = none
head (x ∷ xs) = some x

-- `results[:req.Length]`
abbrev pub take : {A : Type 0} → ℕ → List A → List A
take zero xs = []
take (suc n) [] = []
take (suc n) (x ∷ xs) = x ∷ take n xs

-- The limiting of ExecuteDataQuery
unfoldable pub limit_results : PaginationRequest → List Row → List Row
limit_results req rows = if ltb req.length (length rows) then take req.length rows else rows

module _ (layouts : Layouts) where
  abbrev pub extract_timestamp : Option Row → Option String
  extract_timestamp none = none
  extract_timestamp (some none) = none
  extract_timestamp (some (some (text v))) = some v
  extract_timestamp (some (some (time t))) = some (layouts.format_rfc3339 t)
  extract_timestamp (some (some (other s))) = if not (s == "") then some s else none

  unfoldable pub get_pagination_info : PaginationRequest → List Row → ℕ → PaginationInfo
  get_pagination_info req results total_records = record {
    length = req.length;
    has_next = eqb (length results) req.length;
    has_prev = elim (given_cursor req.cursor) [ none ↦ false | some _ ↦ true ];
    next_cursor = extract_timestamp (last results);
    prev_cursor = extract_timestamp (head results);
    direction = req.direction;
    total = total_records;
  }
