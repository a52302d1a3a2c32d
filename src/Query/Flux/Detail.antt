-- ===== src/Query/Flux/Detail.antt =====
-- pkg/influxdb/v2-oss/query_builder.go: GetTotalCount and GetByTimestampAndUniqueID, and the detail
-- handlers of http/v1/handler, which read one record by its id. InfluxDB is a function from the
-- text of the query to records. A time of the first minute of the year 0 has no earlier one here.

use insight_collector.Prelude.{
  ℕ, ◌+◌, ◌-◌, ◌*◌, ◌^◌, String, not, ◌||◌, if◌then◌else◌, Option, none, some, List, [], ◌∷◌, ◌==◌,
  delete, Result, ok, err, ◌>>=◌, ◌>>◌, require, found_or, ◌≡◌, ◌≢◌, ◌↔◌, refl, eq-false_of_ne,
  eq_iff, arith, fun_ext, Option-cases, inl, inr, sym, ◌∙◌, ap,
}
use insight_collector.Text.{Lacks}
use insight_collector.Records.{UrlEncoding, create_record_id, parse_record_id}
use insight_collector.Records.Roundtrip.{parse-create_record_id_iff}
use insight_collector.Events.{Raw, text, int64, float64, int, time, truth, other, Record, Floats}
use insight_collector.Query.{PaginationRequest, Layouts}
use insight_collector.Query.Flux.{QueryBuilderConfig, escape_quotes, concat, build_count_query}

-- The answer's "_value" as a number, if it is one
abbrev pub count_value : Floats → (String → Option ℕ) → Option Raw → Option ℕ
count_value floats atoi none = none
count_value floats atoi (some (int64 n)) = some n
count_value floats atoi (some (float64 x)) = some (floats.truncate x)
count_value floats atoi (some (text s)) = atoi s
count_value floats atoi (some (int _)) = none
count_value floats atoi (some (time _)) = none
count_value floats atoi (some (truth _)) = none
count_value floats atoi (some other) = none

-- The loop over the answer
abbrev pub first_count : Floats → (String → Option ℕ) → List Record → ℕ
first_count floats atoi [] = 0
first_count floats atoi (r ∷ rs) = elim (count_value floats atoi (r "_value")) [
  | some n ↦ n
  | none ↦ first_count floats atoi rs
]

-- The parts of the query for one record
pub record DetailQuery : Type 0 where
  pub bucket : String
  pub start : String
  pub stop : String
  pub measurement : String
  pub column_key : String
  pub column_value : String

unfoldable pub render_detail : DetailQuery → String
render_detail q = concat (
    "from(bucket: \"" ∷ q.bucket ∷ "\")\n  |> range(start: " ∷ q.start ∷ ", stop: " ∷ q.stop
    ∷ ")\n  |> filter(fn: (r) => r[\"_measurement\"] == \"" ∷ q.measurement
    ∷ "\")\n  |> pivot(rowKey: [\"_time\"], columnKey: [\"_field\"], valueColumn: \"_value\")\n  |> filter(fn: (r) => r[\""
    ∷ q.column_key ∷ "\"] == \"" ∷ q.column_value ∷ "\")\n  |> limit(n: 1)" ∷ [])

pub data DetailError : Type 0 where
  invalid_id empty_timestamp empty_column_key empty_unique_id missing_bucket : DetailError
  invalid_timestamp failed_query no_record : DetailError

abbrev pub minute : ℕ
minute = 60 * 10 ^ 9

-- The copy without InfluxDB's own keys
abbrev pub clean_record : Record → Record
clean_record r = delete "_stop" (delete "_start" (delete "table" (delete "result" r)))

abbrev pub first_record : List Record → Result DetailError Record
first_record [] = err no_record
first_record (r ∷ rs) = ok (clean_record r)

-- `none` is an error of the client's Query.
abbrev pub answered : Option (List Record) → Result DetailError (List Record)
answered o = found_or o failed_query

module _ (layouts : Layouts) (to_lower : String → String) (config : QueryBuilderConfig) where
  unfoldable pub get_total_count :
      Floats
      → (String → Option ℕ)
      → (String → Option (List Record))
      → PaginationRequest
      → String
      → ℕ
  get_total_count floats atoi db req bucket =
      elim (build_count_query layouts to_lower config req bucket) [
        | err _ ↦ 0
        | ok query ↦ elim (db query) [ none ↦ 0 | some records ↦ first_count floats atoi records ]
      ]

  unfoldable pub detail_query : String → ℕ → String → String → DetailQuery
  detail_query bucket t key value = record {
    bucket = bucket;
    start = layouts.format_rfc3339 (t - minute);
    stop = layouts.format_rfc3339 (t + minute);
    measurement = config.measurement;
    column_key = key;
    column_value = escape_quotes value;
  }

  unfoldable pub get_by_timestamp_and_unique_id :
      (String → Option (List Record))
      → String
      → String
      → String
      → String
      → Result DetailError Record
  get_by_timestamp_and_unique_id db bucket timestamp key value = do
    require (not (timestamp == "")) empty_timestamp
    require (not (key == "")) empty_column_key
    require (not (value == "")) empty_unique_id
    require (not (bucket == "")) missing_bucket
    t ← found_or (layouts.parse_rfc3339 timestamp) invalid_timestamp
    records ← answered (db (render_detail (detail_query bucket t key value)))
    first_record records

  -- The detail handlers up to their response: the id, its time, and its record
  unfoldable pub detail :
      UrlEncoding
      → (String → Option (List Record))
      → String
      → String
      → String
      → Result DetailError Record
  detail base64 db bucket key encoded_id = elim (parse_record_id base64 encoded_id) [
    | err _ ↦ err invalid_id
    | ok parts ↦ (do
      found_or (layouts.parse_rfc3339 (parts.0)) invalid_timestamp
      get_by_timestamp_and_unique_id db bucket (parts.0) key (parts.1))
  ]

  -- What a record shows beside InfluxDB's own keys
  abbrev pub without_own_keys : Record → Record
  without_own_keys r key =
      if key == "result" || key == "table" || key == "_start" || key == "_stop" then none else r key

  clean_record-without_own_keys : (r : Record) → clean_record r ≡ without_own_keys r
  clean_record-without_own_keys r = fun_ext (λ key. ground (
    arith,
    eq_iff "result" key,
    eq_iff "table" key,
    eq_iff "_start" key,
    eq_iff "_stop" key,
    eq_iff key "result",
    eq_iff key "table",
    eq_iff key "_start",
    eq_iff key "_stop",
  ))

  -- The text that asks for one record of a key's value, a minute around a time
  abbrev pub text_around : String → ℕ → String → String → String
  text_around bucket t key value = concat (
      "from(bucket: \""
      ∷ bucket
      ∷ "\")\n  |> range(start: "
      ∷ layouts.format_rfc3339 (t - 60 * 10 ^ 9)
      ∷ ", stop: "
      ∷ layouts.format_rfc3339 (t + 60 * 10 ^ 9)
      ∷ ")\n  |> filter(fn: (r) => r[\"_measurement\"] == \""
      ∷ config.measurement
      ∷ "\")\n  |> pivot(rowKey: [\"_time\"], columnKey: [\"_field\"], valueColumn: \"_value\")\n  |> filter(fn: (r) => r[\""
      ∷ key
      ∷ "\"] == \""
      ∷ escape_quotes value
      ∷ "\")\n  |> limit(n: 1)"
      ∷ [])

  first_record-ok :
      (records : List Record) (out : Record)
      → first_record records ≡ ok out
      → (r : Record) × (rs : List Record) × (records ≡ r ∷ rs) × (out ≡ without_own_keys r)
  first_record-ok [] out e = absurd cc
  first_record-ok (r ∷ rs) out e = (
    r,
    rs,
    refl,
    sym (ap (λ x. elim x [ ok a ↦ a | err _ ↦ out ]) e) ∙ clean_record-without_own_keys r,
  )

  module _ (db : String → Option (List Record)) (bucket key timestamp value : String) where
    -- The record that a lookup by a time and a value finds, if it does
    abbrev pub Finds : Record → Type 0
    Finds out =
        (t : ℕ) × (r : Record) × (rs : List Record) × (timestamp ≢ "")
        × (key ≢ "")
        × (value ≢ "")
        × (bucket ≢ "")
        × (layouts.parse_rfc3339 timestamp ≡ some t)
        × (db (text_around bucket t key value) ≡ some (r ∷ rs))
        × (out ≡ without_own_keys r)

    found :
        (out : Record)
        → get_by_timestamp_and_unique_id db bucket timestamp key value ≡ ok out
        → Finds out
    unfolding get_by_timestamp_and_unique_id detail_query render_detail
    found out e = elim (Option-cases (layouts.parse_rfc3339 timestamp)) [
      | inl bad ↦ absurd (ground arith)
      | inr (t, parsed) ↦ elim (Option-cases (db (text_around bucket t key value))) [
        | inl bad ↦ absurd (ground arith)
        | inr (records, answer) ↦
            let listed : first_record records ≡ ok out = ground arith in
            let (r, rs, is_first, is_clean) = first_record-ok records out listed in
            (
              t,
              r,
              rs,
              (λ s. absurd (ground (arith, eq_iff timestamp ""))),
              (λ s. absurd (ground (arith, eq_iff key ""))),
              (λ s. absurd (ground (arith, eq_iff value ""))),
              (λ s. absurd (ground (arith, eq_iff bucket ""))),
              parsed,
              rw is_first at answer,
              is_clean,
            )
      ]
    ]

    returned :
        (out : Record)
        → Finds out
        → get_by_timestamp_and_unique_id db bucket timestamp key value ≡ ok out
    unfolding get_by_timestamp_and_unique_id detail_query render_detail
    returned out (t, r, rs, given, given_key, given_value, given_bucket, parsed, answer, shown) =
        rw
          (
            get_by_timestamp_and_unique_id,
            eq-false_of_ne timestamp "" given,
            eq-false_of_ne key "" given_key,
            eq-false_of_ne value "" given_value,
            eq-false_of_ne bucket "" given_bucket,
            parsed,
            answer,
          )
          (ap ok (clean_record-without_own_keys r ∙ sym shown))

    -- The id of a time and a value leads a detail handler to a record exactly when the time parses,
    -- time, value, key and bucket are not empty, and InfluxDB has an answer to the query for the
    -- records of that value within a minute of that time: the record is then the first of the answer
    -- without InfluxDB's own four keys. This rests on base64 decoding what it has encoded, and on a
    -- time and a value without the delimiter of ids.
    pub detail-create_record_id :
        (base64 : UrlEncoding) (out : Record)
        → ((s : String) → base64.decode (base64.encode s) ≡ some s)
        → Lacks "|" timestamp
        → Lacks "|" value
        → (detail base64 db bucket key (create_record_id base64 timestamp value) ≡ ok out)
          ↔ Finds out
    unfolding detail
    detail-create_record_id base64 out decodes no_bar no_bar' =
        let parts =
          (parse-create_record_id_iff base64 timestamp value decodes).1 (no_bar, no_bar') in
        (
          λ e. elim (Option-cases (layouts.parse_rfc3339 timestamp)) [
            | inl bad ↦ absurd (ground arith)
            | inr (t, parsed) ↦ found out (ground arith)
          ],
          λ (t, r, rs, given, given_key, given_value, given_bucket, parsed, answer, shown).
              rw (detail, parts, parsed)
                (returned out
                  (t, r, rs, given, given_key, given_value, given_bucket, parsed, answer, shown)),
        )
