-- ===== src/Events/Security/Shown.antt =====
-- What a response shows of one of the security events that was saved and that InfluxDB has stored,
-- in terms of the request and the lookups alone.
use mathlib.Core.Option.{some-injective}
use insight_collector.Prelude.{ℕ, String, ◌&&◌, not, some, ◌==◌, if◌then◌else◌, ◌≡◌, ◌≢◌, refl, ◌∙◌}
use insight_collector.Records.{UrlEncoding, create_record_id}
use insight_collector.UserAgent.{device_name}
use insight_collector.Events.{Floats, Record, Point, Stores}
use insight_collector.Events.Callbacks.{ObjectJson}
use insight_collector.Events.Callbacks.Roundtrip.{shown, kept}
use insight_collector.Events.Origins.{
  Places, city_field, network_field, coordinates_of, origin_of-fields_of,
}
use insight_collector.Events.Security.{
  SecurityEventsRequest, SecurityEventsResponse, save_security_events, of_request,
}
use insight_collector.Events.Security.Points.{
  to_point, handle_security_events, map_to_security_events_response,
}
use insight_collector.Events.Security.Stored.{map_to_security_events_response-to_point}

module _ {Object : Type 0} (json : ObjectJson Object) (floats : Floats) (base64 : UrlEncoding)
    (format : ℕ → String) where
  -- The response expected for a request, given what the lookups answer
  abbrev pub response_for : Places → SecurityEventsRequest Object → SecurityEventsResponse Object
  response_for places req = record {
    id =
        if not (format req.timestamp == "") && not (shown req.request_id == "")
        then create_record_id base64 (format req.timestamp) (shown req.request_id)
        else "";
    time = format req.timestamp;
    user_id = shown req.user_id;
    session_id = shown req.session_id;
    identifier_type = shown req.identifier_type;
    event_type = shown req.event_type;
    severity = shown req.severity;
    auth_stage = shown req.auth_stage;
    action_taken = shown req.action_taken;
    detection_method = shown req.detection_method;
    device_type = shown (device_name (places.agent_of req.user_agent).device_type);
    os = shown (places.agent_of req.user_agent).os;
    browser = shown (places.agent_of req.user_agent).browser;
    channel = shown req.channel;
    endpoint_group = shown req.endpoint_group;
    method = shown req.method;
    geo_country =
        shown (city_field places req.ip_address (λ geo. places.to_upper geo.country_code));
    request_id = shown req.request_id;
    trace_id = shown req.trace_id;
    identifier_value = shown req.identifier_type;
    attempt_count = req.attempt_count;
    risk_score = req.risk_score;
    confidence_score = req.confidence_score;
    previous_success_time = req.previous_success_time;
    affected_resource = shown req.affected_resource;
    duration_ms = req.duration_ms;
    response_code = req.response_code;
    is_bot = (places.agent_of req.user_agent).is_bot;
    ip_address = shown req.ip_address;
    user_agent = shown req.user_agent;
    app_version = shown req.app_version;
    endpoint = shown req.endpoint;
    geo_city = shown (city_field places req.ip_address (λ geo. places.to_lower geo.city));
    geo_coordinates = shown (city_field places req.ip_address (coordinates_of floats places));
    geo_timezone = shown (city_field places req.ip_address (λ geo. geo.timezone));
    geo_postal = shown (city_field places req.ip_address (λ geo. geo.postal_code));
    geo_isp = shown (network_field places req.ip_address (λ info. info.organization));
    os_version = shown (places.agent_of req.user_agent).os_version;
    browser_version = shown (places.agent_of req.user_agent).browser_version;
    details = kept json floats base64 format req.details;
  }

  -- When the job of a saved request has written a point, the response of a record that gives back
  -- this point is `response_for`: each field of the request under its name, the type of the
  -- identifier in the place of its value, the time with the id made of it and the request id, the
  -- device, system and browser of its user agent, and the country in upper case, the city in
  -- lower case, the timezone, postal code, coordinates and provider of its address, which are
  -- empty for an address that is not given or not found, the coordinates also when one is zero.
  -- "-" reads as the empty text, and details that are empty or that JSON cannot encode as nil.
  -- JSON is to decode what it has encoded, and encodes nothing as "".
  pub save_security_events_is_shown :
      (places : Places) (req : SecurityEventsRequest Object) (p : Point) (r : Record)
      → ((s : String)
          → json.marshal req.details ≡ some s
          → (s ≢ "") × (json.unmarshal s ≡ some req.details))
      → handle_security_events json floats places (some (save_security_events req)) ≡ some p
      → Stores p r
      → map_to_security_events_response json floats base64 format r ≡ response_for places req
  unfolding handle_security_events save_security_events of_request
  save_security_events_is_shown places req p r decodes handled stored =
      let e = of_request floats places (save_security_events req) in
      let same : to_point json e ≡ p = some-injective (to_point json e) p handled in
      let origin = origin_of-fields_of floats places req.user_agent req.ip_address in
      map_to_security_events_response-to_point json floats base64 format e r decodes
        (rw same stored)
      ∙ rw origin refl
