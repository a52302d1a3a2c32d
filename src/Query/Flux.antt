-- ===== src/Query/Flux.antt =====
-- pkg/influxdb/v2-oss/query_builder.go: the filters, the columns, the Flux texts of the two
-- queries, and ExecuteDataQuery with the page's metadata, as the list handlers of http/v1/handler
-- call them. A query is a record of its parts and `render` is its text. InfluxDB is the parameter
-- `db`, which answers the text of a query with records by their "_time".
pub mod Answers
pub mod Walk
pub mod Tables
pub mod Series
pub mod Detail
use Prim.Native.String
use insight_collector.Prelude.{
  ℕ, zero, suc, String, Bool, true, false, not, Option, none, some, List, [], ◌∷◌, ◌++◌, map, ◌==◌,
  Result, ok, err, ◌>>=◌, ◌>>◌, require, if◌then◌else◌, eqb, length, ◌≡◌, refl,
}
use insight_collector.Text.{trim_space}
use insight_collector.Text.Decimal.{decimal}
use insight_collector.Query.{
  FilterItem, DateRangeFilter, PaginationRequest, QueryError, Layouts, given_cursor,
  validate_request, build_time_range, build_cursor_filter, safety_limit, Row, PaginationInfo,
  limit_results, get_pagination_info,
}

pub record QueryBuilderConfig : Type 0 where
  pub measurement : String
  -- a key that the map lacks reads as false
  pub valid_tags : String → Bool
  pub valid_fields : String → Bool
  pub columns : List String
  pub count_field : String

-- The errors of BuildQuery and BuildCountQuery, and of the client's Query
pub data FluxError : Type 0 where
  invalid_request : QueryError → FluxError
  missing_bucket : FluxError
  invalid_range : QueryError → FluxError
  failed_query : FluxError

-- `strings.ReplaceAll(value, "\"", "\\\"")`
abbrev pub escape_quotes : String → String
escape_quotes String.[] = ""
escape_quotes (String.◌∷◌ c s) =
    let rest = escape_quotes s in
    if String.◌∷◌ c "" == "\"" then String.◌++◌ "\\\"" rest else String.◌∷◌ c rest

-- strings.Join
abbrev pub join : String → List String → String
join sep [] = ""
join sep (s ∷ []) = s
join sep (s ∷ t ∷ ts) = String.◌++◌ s (String.◌++◌ sep (join sep (t ∷ ts)))

abbrev pub concat : List String → String
concat [] = ""
concat (s ∷ ss) = String.◌++◌ s (concat ss)

-- The key and the escaped value of each filter that applies: those of a known key with a value
unfoldable pub select_filters :
    (String → String) → QueryBuilderConfig → List FilterItem → List (String × String)
select_filters to_lower config [] = []
select_filters to_lower config (f ∷ fs) =
    let rest = select_filters to_lower config fs in
    let key = to_lower (trim_space f.key) in
    let value = trim_space f.value in
    if value == ""
    then rest
    else if config.valid_tags key
    then (key, escape_quotes value) ∷ rest
    else if config.valid_fields key
    then (key, escape_quotes value) ∷ rest
    else rest

abbrev pub filter_text : String × String → String
filter_text (key, value) =
    concat ("filter(fn: (r) => r[\"" ∷ key ∷ "\"] == \"" ∷ value ∷ "\")" ∷ [])

abbrev pub filters_text : List (String × String) → String
filters_text [] = ""
filters_text (f ∷ fs) = String.◌++◌ "\n  |> " (join "\n  |> " (map filter_text (f ∷ fs)))

abbrev pub columns_text : List String → String
columns_text [] = ""
columns_text (c ∷ cs) = concat (
    "\n  |> keep(columns: ["
    ∷ join ", " (map (λ col. concat ("\"" ∷ col ∷ "\"" ∷ [])) (c ∷ cs))
    ∷ "])"
    ∷ [])

abbrev pub limit_text : Option ℕ → String
limit_text none = ""
limit_text (some limit) = concat ("\n  |> limit(n: " ∷ decimal limit ∷ ")" ∷ [])

pub record Flux : Type 0 where
  pub bucket : String
  pub time_range : String
  pub measurement : String
  pub filters : List (String × String)
  pub cursor : Option String
  pub direction : String
  pub columns : List String
  pub limit : Option ℕ

unfoldable pub render : Flux → String
render q = trim_space (
    concat (
      "from(bucket: \""
      ∷ q.bucket
      ∷ "\")\n  |> range("
      ∷ q.time_range
      ∷ ")\n  |> filter(fn: (r) => r[\"_measurement\"] == \""
      ∷ q.measurement
      ∷ "\")"
      ∷ filters_text q.filters
      ∷ build_cursor_filter q.cursor q.direction
      ∷ "\n  |> pivot(rowKey: [\"_time\"], columnKey: [\"_field\"], valueColumn: \"_value\")"
      ∷ columns_text q.columns
      ∷ "\n  |> sort(columns: [\"_time\"], desc: "
      ∷ (if q.direction == "next" then "true" else "false")
      ∷ ")"
      ∷ limit_text q.limit
      ∷ []))

-- An error of one kind as one of another
abbrev pub wrap : {E F A : Type 0} → (E → F) → Result E A → Result F A
wrap f (ok a) = ok a
wrap f (err e) = err (f e)

module _ (layouts : Layouts) (to_lower : String → String) (config : QueryBuilderConfig) where
  unfoldable pub build_query : PaginationRequest → String → Result FluxError Flux
  build_query req bucket = do
    wrap invalid_request (validate_request layouts req)
    require (not (bucket == "")) missing_bucket
    time_range ← wrap invalid_range (build_time_range layouts req.range)
    ok (record {
      bucket = bucket;
      time_range = time_range;
      measurement = config.measurement;
      filters = select_filters to_lower config req.filters;
      cursor = req.cursor;
      direction = req.direction;
      columns = config.columns;
      limit = safety_limit req;
    })

  unfoldable pub build_count_query : PaginationRequest → String → Result FluxError String
  build_count_query req bucket = do
    require (not (bucket == "")) missing_bucket
    time_range ← wrap invalid_range (build_time_range layouts req.range)
    ok (
        trim_space (
          concat (
            "from(bucket: \""
            ∷ bucket
            ∷ "\")\n  |> range("
            ∷ time_range
            ∷ ")\n  |> filter(fn: (r) => r[\"_measurement\"] == \""
            ∷ config.measurement
            ∷ "\")\n  |> filter(fn: (r) => r[\"_field\"] == \""
            ∷ config.count_field
            ∷ "\")"
            ∷ filters_text (select_filters to_lower config req.filters)
            ∷ "\n  |> count()\n  |> group()\n  |> sum()"
            ∷ [])))

  module _ (db : String → Result FluxError (List Row)) (bucket : String) where
    unfoldable pub execute_data_query : PaginationRequest → Result FluxError (List Row)
    execute_data_query req = do
      query ← build_query req bucket
      results ← db (render query)
      ok (limit_results req results)

    -- The list handlers: the page and its metadata
    unfoldable pub list_page : PaginationRequest → ℕ → Result FluxError (List Row × PaginationInfo)
    list_page req total = do
      results ← execute_data_query req
      ok (results, get_pagination_info layouts req results total)

    -- A client that follows the cursors of the next pages, for `fuel` pages at most
    unfoldable pub walk : ℕ → PaginationRequest → ℕ → Result FluxError (List Row)
    walk zero req total = ok []
    walk (suc fuel) req total = do
      (results, info) ← list_page req total
      if info.has_next
          then elim info.next_cursor [
            | none ↦ ok results
            | some c ↦ do
              later ← walk fuel (record req { cursor = some c }) total
              ok (results ++ later)
          ]
          else ok results
