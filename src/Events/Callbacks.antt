-- ===== src/Events/Callbacks.antt =====
-- Callback logs from the request to the response: http/v1/handler/callback_logs.go, the task's
-- payload, internal/jobs/callback_logs and internal/entities/callback_logs. The objects of
-- `payloads` are values of `Object`, and their JSON is a parameter.
pub mod Roundtrip
pub mod Identity
use insight_collector.Prelude.{
  ℕ, String, Bool, true, false, ◌&&◌, not, Option, none, some, List, [], ◌∷◌, ◌==◌, GoMap,
  if◌then◌else◌,
}
use insight_collector.Records.{UrlEncoding, create_record_id}
use insight_collector.Events.{
  Field, text_field, int_field, Point, Raw, text, int64, float64, int, time, truth, other, Floats,
  Record, safe_string, visible, number, moment,
}

-- encoding/json on the objects of `payloads`; an encoding may fail.
pub record ObjectJson (Object : Type 0) : Type 0 where
  pub is_empty : Object → Bool
  pub nil : Object
  pub marshal : Object → Option String
  pub unmarshal : String → Option Object

-- CallbackLogs and CallbackLogsRequest have the same fields.
pub record CallbackLogs (Object : Type 0) : Type 0 where
  pub transaction_id : String
  pub callback_type : String
  pub status : String
  pub error_category : String
  pub callback_id : String
  pub http_status_code : ℕ
  pub error_message : String
  pub client_response : String
  pub duration_ms : ℕ
  pub retry_count : ℕ
  pub destination_url : String
  pub payloads : Object
  pub timestamp : ℕ

pub record CallbackLogsResponse (Object : Type 0) : Type 0 where
  pub id : String
  pub time : String
  pub transaction_id : String
  pub callback_type : String
  pub status : String
  pub error_category : String
  pub callback_id : String
  pub http_status_code : ℕ
  pub error_message : String
  pub client_response : String
  pub duration_ms : ℕ
  pub retry_count : ℕ
  pub destination_url : String
  pub payloads : Object

-- A member of the JSON object of a request
pub data Member (Object : Type 0) : Type 0 where
  text_member : String → Member Object
  int_member time_member : ℕ → Member Object
  object_member : Object → Member Object

module _ {Object : Type 0} (json : ObjectJson Object) where
  -- json.Marshal of a CallbackLogsRequest: a member for each field by its tag. The tag of
  -- CallbackID is "-".
  abbrev pub marshal_request : CallbackLogs Object → List (String × Member Object)
  marshal_request q =
      ("transaction_id", text_member q.transaction_id)
      ∷ ("callback_type", text_member q.callback_type)
      ∷ ("status", text_member q.status)
      ∷ ("error_category", text_member q.error_category)
      ∷ ("http_status_code", int_member q.http_status_code)
      ∷ ("error_message", text_member q.error_message)
      ∷ ("client_response", text_member q.client_response)
      ∷ ("duration_ms", int_member q.duration_ms)
      ∷ ("retry_count", int_member q.retry_count)
      ∷ ("destination_url", text_member q.destination_url)
      ∷ ("payloads", object_member q.payloads)
      ∷ ("time", time_member q.timestamp)
      ∷ []

  -- The field of a tag that one member sets; a member of another type is an error.
  abbrev pub set_member :
      String → Member Object → CallbackLogs Object → Option (CallbackLogs Object)
  set_member tag (text_member s) q =
      if tag == "transaction_id"
      then some (record q { transaction_id = s })
      else if tag == "callback_type"
      then some (record q { callback_type = s })
      else if tag == "status"
      then some (record q { status = s })
      else if tag == "error_category"
      then some (record q { error_category = s })
      else if tag == "error_message"
      then some (record q { error_message = s })
      else if tag == "client_response"
      then some (record q { client_response = s })
      else if tag == "destination_url"
      then some (record q { destination_url = s })
      else none
  set_member tag (int_member n) q =
      if tag == "http_status_code"
      then some (record q { http_status_code = n })
      else if tag == "duration_ms"
      then some (record q { duration_ms = n })
      else if tag == "retry_count"
      then some (record q { retry_count = n })
      else none
  set_member tag (object_member o) q =
      if tag == "payloads" then some (record q { payloads = o }) else none
  set_member tag (time_member t) q =
      if tag == "time" then some (record q { timestamp = t }) else none

  abbrev pub set_members :
      List (String × Member Object) → CallbackLogs Object → Option (CallbackLogs Object)
  set_members [] q = some q
  set_members ((tag, member) ∷ rest) q = elim (set_member tag member q) [
    | none ↦ none
    | some q' ↦ set_members rest q'
  ]

  -- `var req CallbackLogsRequest`
  abbrev pub zero_request : CallbackLogs Object
  zero_request = record {
    transaction_id = "";
    callback_type = "";
    status = "";
    error_category = "";
    callback_id = "";
    http_status_code = 0;
    error_message = "";
    client_response = "";
    duration_ms = 0;
    retry_count = 0;
    destination_url = "";
    payloads = json.nil;
    timestamp = 0;
  }

  -- json.Unmarshal into a CallbackLogsRequest
  unfoldable pub unmarshal_request : List (String × Member Object) → Option (CallbackLogs Object)
  unmarshal_request members = set_members members zero_request

  -- SaveCallbackLogs up to the payload that it dispatches: the id is the request's, or the fallback.
  unfoldable pub save_callback_logs :
      String → String → CallbackLogs Object → List (String × Member Object)
  save_callback_logs request_id fallback req =
      marshal_request
        (record req { callback_id = if request_id == "" then fallback else request_id })

  -- `len(cl.Payloads) > 0`, and the error of json.Marshal leaves the text empty.
  abbrev pub payloads_json : Object → String
  payloads_json o =
      if not (json.is_empty o) then elim (json.marshal o) [ some s ↦ s | none ↦ "" ] else ""

  unfoldable pub to_point : CallbackLogs Object → Point
  to_point cl = record {
    measurement = "callback_logs";
    tags =
        ("callback_type", safe_string cl.callback_type)
        ∷ ("status", safe_string cl.status)
        ∷ ("error_category", safe_string cl.error_category)
        ∷ [];
    fields =
        ("transaction_id", text_field (safe_string cl.transaction_id))
        ∷ ("callback_id", text_field cl.callback_id)
        ∷ ("http_status_code", int_field cl.http_status_code)
        ∷ ("error_message", text_field cl.error_message)
        ∷ ("client_response", text_field cl.client_response)
        ∷ ("duration_ms", int_field cl.duration_ms)
        ∷ ("retry_count", int_field cl.retry_count)
        ∷ ("destination_url", text_field cl.destination_url)
        ∷ ("payloads", text_field (payloads_json cl.payloads))
        ∷ [];
    timestamp = cl.timestamp;
  }

  -- HandleCallbackLogsLogging up to the point that it writes; the copy keeps every field.
  unfoldable pub handle_callback_logs : List (String × Member Object) → Option Point
  handle_callback_logs payload = elim (unmarshal_request payload) [
    | none ↦ none
    | some req ↦ some (to_point req)
  ]

  -- `if v, ok := record["payloads"].(string); ok && v != ""`
  abbrev pub payloads_of : Option Raw → Object
  payloads_of (some (text v)) =
      if not (v == "") then elim (json.unmarshal v) [ some o ↦ o | none ↦ json.nil ] else json.nil
  payloads_of (some (int64 _)) = json.nil
  payloads_of (some (float64 _)) = json.nil
  payloads_of (some (int _)) = json.nil
  payloads_of (some (time _)) = json.nil
  payloads_of (some (truth _)) = json.nil
  payloads_of (some other) = json.nil
  payloads_of none = json.nil

  module _ (floats : Floats) (base64 : UrlEncoding) (format : ℕ → String) where
    -- "transaction_id" is not read.
    unfoldable pub map_to_response : Record → CallbackLogsResponse Object
    map_to_response r =
        let t = moment format (r "_time") in
        let callback_id = visible (r "callback_id") in
        record {
          id =
              if not (t == "") && not (callback_id == "")
              then create_record_id base64 t callback_id
              else "";
          time = t;
          transaction_id = "";
          callback_type = visible (r "callback_type");
          status = visible (r "status");
          error_category = visible (r "error_category");
          callback_id = callback_id;
          http_status_code = number floats (r "http_status_code");
          error_message = visible (r "error_message");
          client_response = visible (r "client_response");
          duration_ms = number floats (r "duration_ms");
          retry_count = number floats (r "retry_count");
          destination_url = visible (r "destination_url");
          payloads = payloads_of (r "payloads");
        }
