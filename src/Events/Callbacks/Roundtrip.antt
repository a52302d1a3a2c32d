-- ===== src/Events/Callbacks/Roundtrip.antt =====
-- What a response shows of a callback log that InfluxDB has stored.
use insight_collector.Prelude.{
  ℕ, String, false, ◌&&◌, not, none, some, ◌==◌, if◌then◌else◌, ◌≡◌, ◌≢◌, refl, arith, eq_iff,
  text_cases, eq-false_of_ne, Bool-cases, Option-cases, inl, inr, ◌∙◌, ap,
}
use insight_collector.Records.{UrlEncoding, create_record_id}
use insight_collector.Events.{text, Record, safe_string, visible, number, Floats, moment, Stores}
use insight_collector.Events.Callbacks.{
  ObjectJson, CallbackLogs, CallbackLogsResponse, payloads_json, payloads_of, to_point,
  map_to_response,
}

-- "-" stands for the empty text.
abbrev pub shown : String → String
shown s = if s == "-" then "" else s

pub visible-text : (s : String) → visible (some (text s)) ≡ shown s
visible-text s = ground (arith, eq_iff s "", eq_iff s "-")

safe_string_given : (s : String) → (s == "") ≡ false → safe_string s ≡ s
safe_string_given s e = rw e refl

pub visible-safe_string : (s : String) → visible (some (text (safe_string s))) ≡ shown s
visible-safe_string s = elim (text_cases s "") [
  | inl (same, e) ↦ rw same refl
  | inr (differ, e) ↦ ap (λ t. visible (some (text t))) (safe_string_given s e) ∙ visible-text s
]

module _ {Object : Type 0} (json : ObjectJson Object) (floats : Floats) (base64 : UrlEncoding)
    (format : ℕ → String) where
  -- The objects whose encoding succeeds; the others are shown as nil.
  abbrev pub kept : Object → Object
  kept o =
      if not (json.is_empty o)
      then elim (json.marshal o) [ some _ ↦ o | none ↦ json.nil ]
      else json.nil

  pub payloads_of-payloads_json :
      (o : Object)
      → ((s : String) → json.marshal o ≡ some s → (s ≢ "") × (json.unmarshal s ≡ some o))
      → payloads_of json (some (text (payloads_json json o))) ≡ kept o
  payloads_of-payloads_json o decodes = elim (Bool-cases (json.is_empty o)) [
    | inl nothing ↦ rw nothing refl
    | inr something ↦ elim (Option-cases (json.marshal o)) [
      | inl bad ↦ rw (something, bad) refl
      | inr (s, good) ↦
          let (given, back) = decodes s good in
          rw (something, good, eq-false_of_ne s "" given, back) refl
    ]
  ]

  -- The response that shows a callback log
  abbrev pub response_of : CallbackLogs Object → CallbackLogsResponse Object
  response_of cl = record {
    id =
        if not (format cl.timestamp == "") && not (shown cl.callback_id == "")
        then create_record_id base64 (format cl.timestamp) (shown cl.callback_id)
        else "";
    time = format cl.timestamp;
    transaction_id = "";
    callback_type = shown cl.callback_type;
    status = shown cl.status;
    error_category = shown cl.error_category;
    callback_id = shown cl.callback_id;
    http_status_code = cl.http_status_code;
    error_message = shown cl.error_message;
    client_response = shown cl.client_response;
    duration_ms = cl.duration_ms;
    retry_count = cl.retry_count;
    destination_url = shown cl.destination_url;
    payloads = kept cl.payloads;
  }

  -- A record that gives back the point of a callback log becomes the response with the log's
  -- fields, where "-" reads as the empty text, payloads that JSON cannot encode as nil, and the
  -- transaction id as the empty text whatever it was. JSON is to decode what it has encoded, and
  -- encodes nothing as the empty text.
  pub map_to_response-to_point :
      (cl : CallbackLogs Object) (r : Record)
      → ((s : String)
          → json.marshal cl.payloads ≡ some s
          → (s ≢ "") × (json.unmarshal s ≡ some cl.payloads))
      → Stores (to_point json cl) r
      → map_to_response json floats base64 format r ≡ response_of cl
  unfolding to_point map_to_response
  map_to_response-to_point cl r decodes stored =
      let (callback_type, (status, (error_category, _))) = stored.tags in
      let (
        _,
        (
          callback_id,
          (
            http_status_code,
            (
              error_message,
              (client_response, (duration_ms, (retry_count, (destination_url, (payloads, _))))),
            ),
          ),
        ),
      ) =
        stored.fields in
      rw
        (
          ap (moment format) stored.timestamp,
          ap visible callback_type ∙ visible-safe_string cl.callback_type,
          ap visible status ∙ visible-safe_string cl.status,
          ap visible error_category ∙ visible-safe_string cl.error_category,
          ap visible callback_id ∙ visible-text cl.callback_id,
          ap (number floats) http_status_code,
          ap visible error_message ∙ visible-text cl.error_message,
          ap visible client_response ∙ visible-text cl.client_response,
          ap (number floats) duration_ms,
          ap (number floats) retry_count,
          ap visible destination_url ∙ visible-text cl.destination_url,
          ap (payloads_of json) payloads ∙ payloads_of-payloads_json cl.payloads decodes,
        )
        refl
