-- ===== src/Events/Activities.antt =====
-- User activities from the request to the job: internal/entities/user_activities, the payload of
-- http/v1/handler/user_activities.go, and internal/jobs/user_activities. The tags of a request all
-- differ, so its JSON is taken to give it back.
pub mod Points
pub mod Stored
pub mod Shown
use insight_collector.Prelude.{ℕ, String, Bool}
use insight_collector.Events.{Floats}
use insight_collector.Events.Origins.{Places, origin_of}

pub record UserActivitiesRequest (Object : Type 0) : Type 0 where
  pub user_id : String
  pub session_id : String
  pub activity_type : String
  pub category : String
  pub subcategory : String
  pub status : String
  pub channel : String
  pub endpoint_group : String
  pub method : String
  pub risk_level : String
  pub request_id : String
  pub trace_id : String
  pub duration_ms : ℕ
  pub response_code : ℕ
  pub request_size_bytes : ℕ
  pub response_size_bytes : ℕ
  pub ip_address : String
  pub user_agent : String
  pub app_version : String
  pub referrer_url : String
  pub endpoint : String
  pub details : Object
  pub timestamp : ℕ

pub record UserActivities (Object : Type 0) : Type 0 where
  pub user_id : String
  pub session_id : String
  pub activity_type : String
  pub category : String
  pub subcategory : String
  pub status : String
  pub browser : String
  pub device_type : String
  pub os : String
  pub channel : String
  pub endpoint_group : String
  pub method : String
  pub geo_country : String
  pub risk_level : String
  pub request_id : String
  pub trace_id : String
  pub duration_ms : ℕ
  pub response_code : ℕ
  pub request_size_bytes : ℕ
  pub response_size_bytes : ℕ
  pub is_bot : Bool
  pub ip_address : String
  pub user_agent : String
  pub app_version : String
  pub referrer_url : String
  pub endpoint : String
  pub geo_city : String
  pub geo_coordinates : String
  pub geo_timezone : String
  pub geo_postal : String
  pub geo_isp : String
  pub os_version : String
  pub browser_version : String
  pub details : Object
  pub timestamp : ℕ

pub record UserActivitiesResponse (Object : Type 0) : Type 0 where
  pub id : String
  pub time : String
  pub user_id : String
  pub session_id : String
  pub activity_type : String
  pub category : String
  pub subcategory : String
  pub status : String
  pub browser : String
  pub device_type : String
  pub os : String
  pub channel : String
  pub endpoint_group : String
  pub method : String
  pub geo_country : String
  pub risk_level : String
  pub request_id : String
  pub trace_id : String
  pub duration_ms : ℕ
  pub response_code : ℕ
  pub is_bot : Bool
  pub ip_address : String
  pub user_agent : String
  pub app_version : String
  pub referrer_url : String
  pub endpoint : String
  pub geo_city : String
  pub geo_coordinates : String
  pub geo_timezone : String
  pub geo_postal : String
  pub geo_isp : String
  pub os_version : String
  pub browser_version : String
  pub details : Object

module _ {Object : Type 0} where
  -- The payload of SaveUserActivities
  unfoldable pub save_user_activities : UserActivitiesRequest Object → UserActivitiesRequest Object
  save_user_activities req = record {
    user_id = req.user_id;
    session_id = req.session_id;
    activity_type = req.activity_type;
    category = req.category;
    subcategory = req.subcategory;
    status = req.status;
    channel = req.channel;
    endpoint_group = req.endpoint_group;
    method = req.method;
    risk_level = req.risk_level;
    request_id = req.request_id;
    trace_id = req.trace_id;
    duration_ms = req.duration_ms;
    response_code = req.response_code;
    request_size_bytes = req.request_size_bytes;
    response_size_bytes = req.response_size_bytes;
    ip_address = req.ip_address;
    user_agent = req.user_agent;
    app_version = req.app_version;
    referrer_url = req.referrer_url;
    endpoint = req.endpoint;
    details = req.details;
    timestamp = req.timestamp;
  }

  -- What HandleUserActivitiesLogging makes of a request and its lookups
  unfoldable pub of_request : Floats → Places → UserActivitiesRequest Object → UserActivities Object
  of_request floats places req =
      let origin = origin_of floats places req.user_agent req.ip_address in
      record {
        user_id = req.user_id;
        session_id = req.session_id;
        activity_type = req.activity_type;
        category = req.category;
        subcategory = req.subcategory;
        status = req.status;
        browser = origin.browser;
        device_type = origin.device_type;
        os = origin.os;
        channel = req.channel;
        endpoint_group = req.endpoint_group;
        method = req.method;
        geo_country = origin.geo_country;
        risk_level = req.risk_level;
        request_id = req.request_id;
        trace_id = req.trace_id;
        duration_ms = req.duration_ms;
        response_code = req.response_code;
        request_size_bytes = req.request_size_bytes;
        response_size_bytes = req.response_size_bytes;
        is_bot = origin.is_bot;
        ip_address = req.ip_address;
        user_agent = req.user_agent;
        app_version = req.app_version;
        referrer_url = req.referrer_url;
        endpoint = req.endpoint;
        geo_city = origin.geo_city;
        geo_coordinates = origin.geo_coordinates;
        geo_timezone = origin.geo_timezone;
        geo_postal = origin.geo_postal;
        geo_isp = origin.geo_isp;
        os_version = origin.os_version;
        browser_version = origin.browser_version;
        details = req.details;
        timestamp = req.timestamp;
      }
