-- ===== src/Events/Activities/Points.antt =====
-- The points and the responses of user activities: ToPoint and MapToUserActivitiesResponse of
-- internal/entities/user_activities, and HandleUserActivitiesLogging up to the point that it writes.
use insight_collector.Prelude.{
  ℕ, String, ◌&&◌, not, Option, none, some, [], ◌∷◌, ◌==◌, if◌then◌else◌,
}
use insight_collector.Records.{UrlEncoding, create_record_id}
use insight_collector.Events.{
  text_field, int_field, bool_field, Floats, Point, Record, safe_string, visible, number, flag,
  moment,
}
use insight_collector.Events.Callbacks.{ObjectJson, payloads_json, payloads_of}
use insight_collector.Events.Origins.{Places}
use insight_collector.Events.Activities.{
  UserActivitiesRequest, UserActivities, UserActivitiesResponse, of_request,
}

module _ {Object : Type 0} (json : ObjectJson Object) where
  unfoldable pub to_point : UserActivities Object → Point
  to_point e = record {
    measurement = "user_activities";
    tags =
        ("activity_type", safe_string e.activity_type)
        ∷ ("status", safe_string e.status)
        ∷ ("channel", safe_string e.channel)
        ∷ ("geo_country", safe_string e.geo_country)
        ∷ ("risk_level", safe_string e.risk_level)
        ∷ [];
    fields =
        ("user_id", text_field (safe_string e.user_id))
        ∷ ("session_id", text_field (safe_string e.session_id))
        ∷ ("request_id", text_field (safe_string e.request_id))
        ∷ ("trace_id", text_field (safe_string e.trace_id))
        ∷ ("ip_address", text_field (safe_string e.ip_address))
        ∷ ("user_agent", text_field (safe_string e.user_agent))
        ∷ ("app_version", text_field (safe_string e.app_version))
        ∷ ("referrer_url", text_field (safe_string e.referrer_url))
        ∷ ("endpoint", text_field (safe_string e.endpoint))
        ∷ ("geo_city", text_field (safe_string e.geo_city))
        ∷ ("geo_coordinates", text_field (safe_string e.geo_coordinates))
        ∷ ("geo_timezone", text_field (safe_string e.geo_timezone))
        ∷ ("geo_postal", text_field (safe_string e.geo_postal))
        ∷ ("geo_isp", text_field (safe_string e.geo_isp))
        ∷ ("os_version", text_field (safe_string e.os_version))
        ∷ ("browser_version", text_field (safe_string e.browser_version))
        ∷ ("subcategory", text_field (safe_string e.subcategory))
        ∷ ("endpoint_group", text_field (safe_string e.endpoint_group))
        ∷ ("browser", text_field (safe_string e.browser))
        ∷ ("os", text_field (safe_string e.os))
        ∷ ("category", text_field (safe_string e.category))
        ∷ ("device_type", text_field (safe_string e.device_type))
        ∷ ("method", text_field (safe_string e.method))
        ∷ ("duration_ms", int_field e.duration_ms)
        ∷ ("response_code", int_field e.response_code)
        ∷ ("request_size_bytes", int_field e.request_size_bytes)
        ∷ ("response_size_bytes", int_field e.response_size_bytes)
        ∷ ("is_bot", bool_field e.is_bot)
        ∷ ("details", text_field (payloads_json json e.details))
        ∷ [];
    timestamp = e.timestamp;
  }

  -- `none` is an error of json.Unmarshal.
  unfoldable pub handle_user_activities :
      Floats → Places → Option (UserActivitiesRequest Object) → Option Point
  handle_user_activities floats places none = none
  handle_user_activities floats places (some req) = some (to_point (of_request floats places req))

  unfoldable pub map_to_user_activities_response :
      Floats → UrlEncoding → (ℕ → String) → Record → UserActivitiesResponse Object
  map_to_user_activities_response floats base64 format r =
      let t = moment format (r "_time") in
      let request_id = visible (r "request_id") in
      record {
        id =
            if not (t == "") && not (request_id == "")
            then create_record_id base64 t request_id
            else "";
        time = t;
        user_id = visible (r "user_id");
        session_id = visible (r "session_id");
        activity_type = visible (r "activity_type");
        category = visible (r "category");
        subcategory = visible (r "subcategory");
        status = visible (r "status");
        browser = visible (r "browser");
        device_type = visible (r "device_type");
        os = visible (r "os");
        channel = visible (r "channel");
        endpoint_group = visible (r "endpoint_group");
        method = visible (r "method");
        geo_country = visible (r "geo_country");
        risk_level = visible (r "risk_level");
        request_id = request_id;
        trace_id = visible (r "trace_id");
        duration_ms = number floats (r "duration_ms");
        response_code = number floats (r "response_code");
        is_bot = flag (r "is_bot");
        ip_address = visible (r "ip_address");
        user_agent = visible (r "user_agent");
        app_version = visible (r "app_version");
        referrer_url = visible (r "referrer_url");
        endpoint = visible (r "endpoint");
        geo_city = visible (r "geo_city");
        geo_coordinates = visible (r "geo_coordinates");
        geo_timezone = visible (r "geo_timezone");
        geo_postal = visible (r "geo_postal");
        geo_isp = visible (r "geo_isp");
        os_version = visible (r "os_version");
        browser_version = visible (r "browser_version");
        details = payloads_of json (r "details");
      }
