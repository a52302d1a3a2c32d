-- ===== src/Events/Security/Points.antt =====
-- The points and the responses of security events: ToPoint and MapToSecurityEventsResponse of
-- internal/entities/security_events, and HandleSecurityEventsLogging up to the point that it writes.
use insight_collector.Prelude.{
  ℕ, String, ◌&&◌, not, Option, none, some, [], ◌∷◌, ◌==◌, if◌then◌else◌,
}
use insight_collector.Records.{UrlEncoding, create_record_id}
use insight_collector.Events.{
  text_field, int_field, float_field, bool_field, Floats, Point, Record, safe_string, visible,
  number, float_number, flag, moment,
}
use insight_collector.Events.Callbacks.{ObjectJson, payloads_json, payloads_of}
use insight_collector.Events.Origins.{Places}
use insight_collector.Events.Security.{
  SecurityEventsRequest, SecurityEvents, SecurityEventsResponse, of_request,
}

module _ {Object : Type 0} (json : ObjectJson Object) where
  unfoldable pub to_point : SecurityEvents Object → Point
  to_point e = record {
    measurement = "security_events";
    tags =
        ("event_type", safe_string e.event_type)
        ∷ ("severity", safe_string e.severity)
        ∷ ("channel", safe_string e.channel)
        ∷ ("geo_country", safe_string e.geo_country)
        ∷ ("action_taken", safe_string e.action_taken)
        ∷ [];
    fields =
        ("user_id", text_field (safe_string e.user_id))
        ∷ ("session_id", text_field (safe_string e.session_id))
        ∷ ("request_id", text_field (safe_string e.request_id))
        ∷ ("trace_id", text_field (safe_string e.trace_id))
        ∷ ("identifier_value", text_field (safe_string e.identifier_value))
        ∷ ("attempt_count", int_field e.attempt_count)
        ∷ ("risk_score", float_field e.risk_score)
        ∷ ("confidence_score", float_field e.confidence_score)
        ∷ ("previous_success_time", int_field e.previous_success_time)
        ∷ ("affected_resource", text_field (safe_string e.affected_resource))
        ∷ ("duration_ms", int_field e.duration_ms)
        ∷ ("response_code", int_field e.response_code)
        ∷ ("is_bot", bool_field e.is_bot)
        ∷ ("ip_address", text_field (safe_string e.ip_address))
        ∷ ("user_agent", text_field (safe_string e.user_agent))
        ∷ ("app_version", text_field (safe_string e.app_version))
        ∷ ("endpoint", text_field (safe_string e.endpoint))
        ∷ ("endpoint_group", text_field (safe_string e.endpoint_group))
        ∷ ("browser", text_field (safe_string e.browser))
        ∷ ("os", text_field (safe_string e.os))
        ∷ ("geo_city", text_field (safe_string e.geo_city))
        ∷ ("geo_coordinates", text_field (safe_string e.geo_coordinates))
        ∷ ("geo_timezone", text_field (safe_string e.geo_timezone))
        ∷ ("geo_postal", text_field (safe_string e.geo_postal))
        ∷ ("geo_isp", text_field (safe_string e.geo_isp))
        ∷ ("os_version", text_field (safe_string e.os_version))
        ∷ ("browser_version", text_field (safe_string e.browser_version))
        ∷ ("details", text_field (payloads_json json e.details))
        ∷ ("identifier_type", text_field (safe_string e.identifier_type))
        ∷ ("auth_stage", text_field (safe_string e.auth_stage))
        ∷ ("detection_method", text_field (safe_string e.detection_method))
        ∷ ("device_type", text_field (safe_string e.device_type))
        ∷ ("method", text_field (safe_string e.method))
        ∷ [];
    timestamp = e.timestamp;
  }

  -- `none` is an error of json.Unmarshal.
  unfoldable pub handle_security_events :
      Floats → Places → Option (SecurityEventsRequest Object) → Option Point
  handle_security_events floats places none = none
  handle_security_events floats places (some req) = some (to_point (of_request floats places req))

  unfoldable pub map_to_security_events_response :
      Floats → UrlEncoding → (ℕ → String) → Record → SecurityEventsResponse Object
  map_to_security_events_response floats base64 format r =
      let t = moment format (r "_time") in
      let request_id = visible (r "request_id") in
      record {
        id =
            if not (t == "") && not (request_id == "")
            then create_record_id base64 t request_id
            else "";
        time = t;
        user_id = visible (r "user_id");
        session_id = visible (r "session_id");
        identifier_type = visible (r "identifier_type");
        event_type = visible (r "event_type");
        severity = visible (r "severity");
        auth_stage = visible (r "auth_stage");
        action_taken = visible (r "action_taken");
        detection_method = visible (r "detection_method");
        device_type = visible (r "device_type");
        os = visible (r "os");
        browser = visible (r "browser");
        channel = visible (r "channel");
        endpoint_group = visible (r "endpoint_group");
        method = visible (r "method");
        geo_country = visible (r "geo_country");
        request_id = request_id;
        trace_id = visible (r "trace_id");
        identifier_value = visible (r "identifier_value");
        attempt_count = number floats (r "attempt_count");
        risk_score = float_number floats (r "risk_score");
        confidence_score = float_number floats (r "confidence_score");
        previous_success_time = number floats (r "previous_success_time");
        affected_resource = visible (r "affected_resource");
        duration_ms = number floats (r "duration_ms");
        response_code = number floats (r "response_code");
        is_bot = flag (r "is_bot");
        ip_address = visible (r "ip_address");
        user_agent = visible (r "user_agent");
        app_version = visible (r "app_version");
        endpoint = visible (r "endpoint");
        geo_city = visible (r "geo_city");
        geo_coordinates = visible (r "geo_coordinates");
        geo_timezone = visible (r "geo_timezone");
        geo_postal = visible (r "geo_postal");
        geo_isp = visible (r "geo_isp");
        os_version = visible (r "os_version");
        browser_version = visible (r "browser_version");
        details = payloads_of json (r "details");
      }
