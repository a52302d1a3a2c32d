-- ===== src/Events/Security/Stored.antt =====
-- What a response shows of an event whose point InfluxDB has stored.
use insight_collector.Prelude.{
  ℕ, String, ◌&&◌, not, some, ◌==◌, if◌then◌else◌, ◌≡◌, ◌≢◌, refl, ◌∙◌, ap,
}
use insight_collector.Records.{UrlEncoding, create_record_id}
use insight_collector.Events.{Floats, Record, visible, number, float_number, flag, moment, Stores}
use insight_collector.Events.Callbacks.{ObjectJson, payloads_of}
use insight_collector.Events.Callbacks.Roundtrip.{
  shown, kept, payloads_of-payloads_json, visible-safe_string,
}
use insight_collector.Events.Security.{SecurityEvents, SecurityEventsResponse}
use insight_collector.Events.Security.Points.{to_point, map_to_security_events_response}

module _ {Object : Type 0} (json : ObjectJson Object) (floats : Floats) (base64 : UrlEncoding)
    (format : ℕ → String) where
  -- The response that shows an event
  abbrev pub response_of : SecurityEvents Object → SecurityEventsResponse Object
  response_of e = record {
    id =
        if not (format e.timestamp == "") && not (shown e.request_id == "")
        then create_record_id base64 (format e.timestamp) (shown e.request_id)
        else "";
    time = format e.timestamp;
    user_id = shown e.user_id;
    session_id = shown e.session_id;
    identifier_type = shown e.identifier_type;
    event_type = shown e.event_type;
    severity = shown e.severity;
    auth_stage = shown e.auth_stage;
    action_taken = shown e.action_taken;
    detection_method = shown e.detection_method;
    device_type = shown e.device_type;
    os = shown e.os;
    browser = shown e.browser;
    channel = shown e.channel;
    endpoint_group = shown e.endpoint_group;
    method = shown e.method;
    geo_country = shown e.geo_country;
    request_id = shown e.request_id;
    trace_id = shown e.trace_id;
    identifier_value = shown e.identifier_value;
    attempt_count = e.attempt_count;
    risk_score = e.risk_score;
    confidence_score = e.confidence_score;
    previous_success_time = e.previous_success_time;
    affected_resource = shown e.affected_resource;
    duration_ms = e.duration_ms;
    response_code = e.response_code;
    is_bot = e.is_bot;
    ip_address = shown e.ip_address;
    user_agent = shown e.user_agent;
    app_version = shown e.app_version;
    endpoint = shown e.endpoint;
    geo_city = shown e.geo_city;
    geo_coordinates = shown e.geo_coordinates;
    geo_timezone = shown e.geo_timezone;
    geo_postal = shown e.geo_postal;
    geo_isp = shown e.geo_isp;
    os_version = shown e.os_version;
    browser_version = shown e.browser_version;
    details = kept json floats base64 format e.details;
  }

  pub map_to_security_events_response-to_point :
      (e : SecurityEvents Object) (r : Record)
      → ((s : String)
          → json.marshal e.details ≡ some s
          → (s ≢ "") × (json.unmarshal s ≡ some e.details))
      → Stores (to_point json e) r
      → map_to_security_events_response json floats base64 format r ≡ response_of e
  unfolding to_point map_to_security_events_response
  map_to_security_events_response-to_point e r decodes stored =
      let (t_event_type, (t_severity, (t_channel, (t_geo_country, (t_action_taken, _))))) =
        stored.tags in
      let (
        f_user_id,
        (
          f_session_id,
          (
            f_request_id,
            (
              f_trace_id,
              (
                f_identifier_value,
                (
                  f_attempt_count,
                  (
                    f_risk_score,
                    (
                      f_confidence_score,
                      (
                        f_previous_success_time,
                        (
                          f_affected_resource,
                          (
                            f_duration_ms,
                            (
                              f_response_code,
                              (
                                f_is_bot,
                                (
                                  f_ip_address,
                                  (
                                    f_user_agent,
                                    (
                                      f_app_version,
                                      (
                                        f_endpoint,
                                        (
                                          f_endpoint_group,
                                          (
                                            f_browser,
                                            (
                                              f_os,
                                              (
                                                f_geo_city,
                                                (
                                                  f_geo_coordinates,
                                                  (
                                                    f_geo_timezone,
                                                    (
                                                      f_geo_postal,
                                                      (
                                                        f_geo_isp,
                                                        (
                                                          f_os_version,
                                                          (
                                                            f_browser_version,
                                                            (
                                                            f_details,
                                                            (
                                                            f_identifier_type,
                                                            (
                                                            f_auth_stage,
                                                            (
                                                            f_detection_method,
                                                            (f_device_type, (f_method, _)),
                                                            ),
                                                            ),
                                                            ),
                                                            ),
                                                          ),
                                                        ),
                                                      ),
                                                    ),
                                                  ),
                                                ),
                                              ),
                                            ),
                                          ),
                                        ),
                                      ),
                                    ),
                                  ),
                                ),
                              ),
                            ),
                          ),
                        ),
                      ),
                    ),
                  ),
                ),
              ),
            ),
          ),
        ),
      ) =
        stored.fields in
      rw
        (
          ap (moment format) stored.timestamp,
          ap visible t_event_type ∙ visible-safe_string e.event_type,
          ap visible t_severity ∙ visible-safe_string e.severity,
          ap visible t_channel ∙ visible-safe_string e.channel,
          ap visible t_geo_country ∙ visible-safe_string e.geo_country,
          ap visible t_action_taken ∙ visible-safe_string e.action_taken,
          ap visible f_user_id ∙ visible-safe_string e.user_id,
          ap visible f_session_id ∙ visible-safe_string e.session_id,
          ap visible f_request_id ∙ visible-safe_string e.request_id,
          ap visible f_trace_id ∙ visible-safe_string e.trace_id,
          ap visible f_identifier_value ∙ visible-safe_string e.identifier_value,
          ap (number floats) f_attempt_count,
          ap (float_number floats) f_risk_score,
          ap (float_number floats) f_confidence_score,
          ap (number floats) f_previous_success_time,
          ap visible f_affected_resource ∙ visible-safe_string e.affected_resource,
          ap (number floats) f_duration_ms,
          ap (number floats) f_response_code,
          ap flag f_is_bot,
          ap visible f_ip_address ∙ visible-safe_string e.ip_address,
          ap visible f_user_agent ∙ visible-safe_string e.user_agent,
          ap visible f_app_version ∙ visible-safe_string e.app_version,
          ap visible f_endpoint ∙ visible-safe_string e.endpoint,
          ap visible f_endpoint_group ∙ visible-safe_string e.endpoint_group,
          ap visible f_browser ∙ visible-safe_string e.browser,
          ap visible f_os ∙ visible-safe_string e.os,
          ap visible f_geo_city ∙ visible-safe_string e.geo_city,
          ap visible f_geo_coordinates ∙ visible-safe_string e.geo_coordinates,
          ap visible f_geo_timezone ∙ visible-safe_string e.geo_timezone,
          ap visible f_geo_postal ∙ visible-safe_string e.geo_postal,
          ap visible f_geo_isp ∙ visible-safe_string e.geo_isp,
          ap visible f_os_version ∙ visible-safe_string e.os_version,
          ap visible f_browser_version ∙ visible-safe_string e.browser_version,
          ap (payloads_of json) f_details
              ∙ payloads_of-payloads_json json floats base64 format e.details decodes,
          ap visible f_identifier_type ∙ visible-safe_string e.identifier_type,
          ap visible f_auth_stage ∙ visible-safe_string e.auth_stage,
          ap visible f_detection_method ∙ visible-safe_string e.detection_method,
          ap visible f_device_type ∙ visible-safe_string e.device_type,
          ap visible f_method ∙ visible-safe_string e.method,
        )
        refl
