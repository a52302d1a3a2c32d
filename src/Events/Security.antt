-- ===== src/Events/Security.antt =====
-- Security events from the request to the job: internal/entities/security_events, the payload of
-- http/v1/handler/security_events.go, and internal/jobs/security_events. The tags of a request all
-- differ, so its JSON is taken to give it back.
pub mod Points
pub mod Stored
pub mod Shown
use insight_collector.Prelude.{ℕ, String, Bool}
use insight_collector.Events.{Floats}
use insight_collector.Events.Origins.{Places, origin_of}

pub record SecurityEventsRequest (Object : Type 0) : Type 0 where
  pub user_id : String
  pub session_id : String
  pub identifier_type : String
  pub event_type : String
  pub severity : String
  pub auth_stage : String
  pub action_taken : String
  pub detection_method : String
  pub channel : String
  pub endpoint_group : String
  pub method : String
  pub request_id : String
  pub trace_id : String
  pub identifier_value : String
  pub attempt_count : ℕ
  pub risk_score : ℕ
  pub confidence_score : ℕ
  pub previous_success_time : ℕ
  pub affected_resource : String
  pub duration_ms : ℕ
  pub response_code : ℕ
  pub ip_address : String
  pub user_agent : String
  pub app_version : String
  pub endpoint : String
  pub details : Object
  pub timestamp : ℕ

pub record SecurityEvents (Object : Type 0) : Type 0 where
  pub user_id : String
  pub session_id : String
  pub identifier_type : String
  pub event_type : String
  pub severity : String
  pub auth_stage : String
  pub action_taken : String
  pub detection_method : String
  pub device_type : String
  pub os : String
  pub browser : String
  pub channel : String
  pub endpoint_group : String
  pub method : String
  pub geo_country : String
  pub request_id : String
  pub trace_id : String
  pub identifier_value : String
  pub attempt_count : ℕ
  pub risk_score : ℕ
  pub confidence_score : ℕ
  pub previous_success_time : ℕ
  pub affected_resource : String
  pub duration_ms : ℕ
  pub response_code : ℕ
  pub is_bot : Bool
  pub ip_address : String
  pub user_agent : String
  pub app_version : String
  pub endpoint : String
  pub geo_city : String
  pub geo_coordinates : String
  pub geo_timezone : String
  pub geo_postal : String
  pub geo_isp : String
  pub os_version : String
  pub browser_version : String
  pub details : Object
  pub timestamp : ℕ

pub record SecurityEventsResponse (Object : Type 0) : Type 0 where
  pub id : String
  pub time : String
  pub user_id : String
  pub session_id : String
  pub identifier_type : String
  pub event_type : String
  pub severity : String
  pub auth_stage : String
  pub action_taken : String
  pub detection_method : String
  pub device_type : String
  pub os : String
  pub browser : String
  pub channel : String
  pub endpoint_group : String
  pub method : String
  pub geo_country : String
  pub request_id : String
  pub trace_id : String
  pub identifier_value : String
  pub attempt_count : ℕ
  pub risk_score : ℕ
  pub confidence_score : ℕ
  pub previous_success_time : ℕ
  pub affected_resource : String
  pub duration_ms : ℕ
  pub response_code : ℕ
  pub is_bot : Bool
  pub ip_address : String
  pub user_agent : String
  pub app_version : String
  pub endpoint : String
  pub geo_city : String
  pub geo_coordinates : String
  pub geo_timezone : String
  pub geo_postal : String
  pub geo_isp : String
  pub os_version : String
  pub browser_version : String
  pub details : Object

module _ {Object : Type 0} where
  -- The payload of SaveSecurityEvents
  unfoldable pub save_security_events : SecurityEventsRequest Object → SecurityEventsRequest Object
  save_security_events req = record {
    user_id = req.user_id;
    session_id = req.session_id;
    identifier_type = req.identifier_type;
    event_type = req.event_type;
    severity = req.severity;
    auth_stage = req.auth_stage;
    action_taken = req.action_taken;
    detection_method = req.detection_method;
    channel = req.channel;
    endpoint_group = req.endpoint_group;
    method = req.method;
    request_id = req.request_id;
    trace_id = req.trace_id;
    identifier_value = req.identifier_type;
    attempt_count = req.attempt_count;
    risk_score = req.risk_score;
    confidence_score = req.confidence_score;
    previous_success_time = req.previous_success_time;
    affected_resource = req.affected_resource;
    duration_ms = req.duration_ms;
    response_code = req.response_code;
    ip_address = req.ip_address;
    user_agent = req.user_agent;
    app_version = req.app_version;
    endpoint = req.endpoint;
    details = req.details;
    timestamp = req.timestamp;
  }

  -- What HandleSecurityEventsLogging makes of a request and its lookups
  unfoldable pub of_request : Floats → Places → SecurityEventsRequest Object → SecurityEvents Object
  of_request floats places req =
      let origin = origin_of floats places req.user_agent req.ip_address in
      record {
        user_id = req.user_id;
        session_id = req.session_id;
        identifier_type = req.identifier_type;
        event_type = req.event_type;
        severity = req.severity;
        auth_stage = req.auth_stage;
        action_taken = req.action_taken;
        detection_method = req.detection_method;
        device_type = origin.device_type;
        os = origin.os;
        browser = origin.browser;
        channel = req.channel;
        endpoint_group = req.endpoint_group;
        method = req.method;
        geo_country = origin.geo_country;
        request_id = req.request_id;
        trace_id = req.trace_id;
        identifier_value = req.identifier_value;
        attempt_count = req.attempt_count;
        risk_score = req.risk_score;
        confidence_score = req.confidence_score;
        previous_success_time = req.previous_success_time;
        affected_resource = req.affected_resource;
        duration_ms = req.duration_ms;
        response_code = req.response_code;
        is_bot = origin.is_bot;
        ip_address = req.ip_address;
        user_agent = req.user_agent;
        app_version = req.app_version;
        endpoint = req.endpoint;
        geo_city = origin.geo_city;
        geo_coordinates = origin.geo_coordinates;
        geo_timezone = origin.geo_timezone;
        geo_postal = origin.geo_postal;
        geo_isp = origin.geo_isp;
        os_version = origin.os_version;
        browser_version = origin.browser_version;
        details = req.details;
        timestamp = req.timestamp;
      }
