-- ===== src/Tests/Events.antt =====
-- A callback log and its record at concrete values.
use insight_collector.Query.{Layouts}
use insight_collector.Query.Flux.{QueryBuilderConfig}
use insight_collector.Query.Flux.Detail.{
  detail, clean_record, text_around, Finds, detail-create_record_id,
}
use insight_collector.Prelude.{
  ltb, ok, false, Option, ◌*◌, ◌^◌, ◌++◌, String, eqb, none, some, List, [], ◌∷◌, ◌==◌,
  if◌then◌else◌, ◌≡◌, ◌≢◌, ◌↔◌, refl, arith, eq_iff, ◌∙◌, ap, sym,
}
use insight_collector.Records.{UrlEncoding, create_record_id}
use insight_collector.Events.{Point, Floats, Raw, Record, text, time, raw, Field, Stores}
use insight_collector.Events.Callbacks.{
  ObjectJson, CallbackLogs, save_callback_logs, unmarshal_request, handle_callback_logs, to_point,
  map_to_response,
}
use insight_collector.Events.Callbacks.Roundtrip.{response_of, map_to_response-to_point}
use insight_collector.Events.Callbacks.Identity.{callback_id_is_lost}

-- Objects that are their own text
abbrev pub plain_json : ObjectJson String
plain_json = record {
  is_empty = λ o. o == "";
  nil = "";
  marshal = λ o. some o;
  unmarshal = λ s. some s;
}

abbrev pub plain_base64 : UrlEncoding
plain_base64 = record { encode = λ s. s; decode = λ s. some s }

abbrev pub plain_floats : Floats
plain_floats = record { truncate = λ x. x; of_int = λ n. n; is_zero = λ x. eqb x 0 }

abbrev log : CallbackLogs String
log = record {
  transaction_id = "t-1";
  callback_type = "payment";
  status = "failed";
  error_category = "";
  callback_id = "";
  http_status_code = 502;
  error_message = "bad gateway";
  client_response = "";
  duration_ms = 120;
  retry_count = 2;
  destination_url = "https://example.com";
  payloads = "{\"a\": 1}";
  timestamp = 7;
}

abbrev find : List (String × Raw) → Record
find [] k = none
find ((key, value) ∷ rest) k = if key == k then some value else find rest k

abbrev raw_tags : List (String × String) → List (String × Raw)
raw_tags [] = []
raw_tags ((key, value) ∷ rest) = (key, text value) ∷ raw_tags rest

abbrev raw_fields : List (String × Field) → List (String × Raw)
raw_fields [] = []
raw_fields ((key, value) ∷ rest) = (key, raw value) ∷ raw_fields rest

-- The record that gives back a point
abbrev pub stored : Point → Record
stored p k =
    if k == "_time"
    then some (time p.timestamp)
    else find (raw_tags p.tags ++ raw_fields p.fields) k

decodes : (s : String) → some log.payloads ≡ some s → (s ≢ "") × (some s ≡ some log.payloads)
decodes s e =
    let same : log.payloads ≡ s = ground arith in
    let given : log.payloads ≢ "" = λ empty. ground (arith, eq_iff log.payloads "") in
    (λ empty. given (same ∙ empty), ap (λ o. some o) (sym same))

log-Stores : Stores (to_point plain_json log) (stored (to_point plain_json log))
unfolding to_point
log-Stores = record {
  tags = (refl, (refl, (refl, tt)));
  fields = (refl, (refl, (refl, (refl, (refl, (refl, (refl, (refl, (refl, tt)))))))));
  timestamp = refl;
}

map_to_response-to_point_example :
    map_to_response plain_json plain_floats plain_base64
      (λ t. "now")
      (stored (to_point plain_json log))
    ≡ response_of plain_json plain_floats plain_base64 (λ t. "now") log
map_to_response-to_point_example =
    map_to_response-to_point plain_json plain_floats plain_base64 (λ t. "now") log
      (stored (to_point plain_json log)) decodes log-Stores

saved_log :
    handle_callback_logs plain_json (save_callback_logs plain_json "req-9" "cb-9" log)
    ≡ some (to_point plain_json log)
unfolding handle_callback_logs save_callback_logs unmarshal_request
saved_log = refl

callback_id_is_lost_example :
    ((map_to_response plain_json plain_floats plain_base64
        (λ t. "now")
        (stored (to_point plain_json log))).callback_id
      ≡ "")
    × ((map_to_response plain_json plain_floats plain_base64
          (λ t. "now")
          (stored (to_point plain_json log))).id
        ≡ "")
callback_id_is_lost_example =
    callback_id_is_lost plain_json plain_floats plain_base64 (λ t. "now") "req-9" "cb-9" log
      (to_point plain_json log) (stored (to_point plain_json log)) decodes saved_log log-Stores

-- The layouts know one time.
abbrev one_time : Layouts
one_time = record {
  parse_date = λ s. none;
  parse_rfc3339 = λ s. if s == "10:00" then some (3600 * 10 ^ 10) else none;
  format_utc = λ t. "";
  format_rfc3339 = λ t. if ltb t (3600 * 10 ^ 10) then "09:59" else "10:01";
}

abbrev log_config : QueryBuilderConfig
log_config = record {
  measurement = "callback_logs";
  valid_tags = λ key. false;
  valid_fields = λ key. false;
  columns = [];
  count_field = "duration_ms";
}

abbrev found_log : Record
found_log = find (("_time", time 7) ∷ ("callback_id", text "r-1") ∷ ("_start", time 6) ∷ [])

abbrev one_log : String → Option (List Record)
one_log query =
    if query
      == text_around one_time (λ s. s) log_config "events" (3600 * 10 ^ 10) "callback_id" "r-1"
    then some (found_log ∷ [])
    else some []

detail-create_record_id_example :
    (detail one_time
        (λ s. s)
        log_config
        plain_base64
        one_log
        "events"
        "callback_id"
        (create_record_id plain_base64 "10:00" "r-1")
      ≡ ok (clean_record found_log))
    ↔ Finds one_time
        (λ s. s)
        log_config
        one_log
        "events"
        "callback_id"
        "10:00"
        "r-1"
        (clean_record found_log)
detail-create_record_id_example =
    detail-create_record_id one_time (λ s. s) log_config one_log "events" "callback_id" "10:00"
      "r-1" plain_base64 (clean_record found_log) (λ s. refl)
      (
        (λ e. ground arith),
        (
          (λ e. ground arith),
          ((λ e. ground arith), ((λ e. ground arith), ((λ e. ground arith), tt))),
        ),
      )
      ((λ e. ground arith), ((λ e. ground arith), ((λ e. ground arith), tt)))
