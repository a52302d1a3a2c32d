-- ===== src/Events/Transactions.antt =====
-- Transaction events from the request to the job: internal/entities/transaction_events, the
-- payload of http/v1/handler/transaction_events.go, and internal/jobs/transaction_events. The tags
-- of a request all differ, so its JSON is taken to give it back.
pub mod Points
pub mod Stored
pub mod Shown
use insight_collector.Prelude.{ℕ, String, Bool}
use insight_collector.Events.{Floats}
use insight_collector.Events.Origins.{Places, origin_of}

pub record TransactionEventsRequest (Object : Type 0) : Type 0 where
  pub user_id : String
  pub session_id : String
  pub transaction_type : String
  pub currency : String
  pub payment_method : String
  pub status : String
  pub transaction_nature : String
  pub merchant_category : String
  pub channel : String
  pub risk_level : String
  pub request_id : String
  pub trace_id : String
  pub transaction_id : String
  pub external_reference_id : String
  pub amount : ℕ
  pub fee_amount : ℕ
  pub net_amount : ℕ
  pub exchange_rate : ℕ
  pub processing_time_ms : ℕ
  pub duration_ms : ℕ
  pub retry_count : ℕ
  pub response_code : ℕ
  pub approval_required : Bool
  pub compliance_score : ℕ
  pub merchant_id : String
  pub destination_account : String
  pub ip_address : String
  pub user_agent : String
  pub app_version : String
  pub endpoint : String
  pub method : String
  pub details : Object
  pub timestamp : ℕ

pub record TransactionEvents (Object : Type 0) : Type 0 where
  pub user_id : String
  pub session_id : String
  pub transaction_type : String
  pub currency : String
  pub payment_method : String
  pub status : String
  pub transaction_nature : String
  pub merchant_category : String
  pub device_type : String
  pub os : String
  pub channel : String
  pub browser : String
  pub geo_country : String
  pub risk_level : String
  pub request_id : String
  pub trace_id : String
  pub transaction_id : String
  pub external_reference_id : String
  pub amount : ℕ
  pub fee_amount : ℕ
  pub net_amount : ℕ
  pub exchange_rate : ℕ
  pub processing_time_ms : ℕ
  pub duration_ms : ℕ
  pub retry_count : ℕ
  pub response_code : ℕ
  pub approval_required : Bool
  pub compliance_score : ℕ
  pub is_bot : Bool
  pub merchant_id : String
  pub destination_account : String
  pub ip_address : String
  pub user_agent : String
  pub app_version : String
  pub endpoint : String
  pub method : String
  pub geo_city : String
  pub geo_coordinates : String
  pub geo_timezone : String
  pub geo_postal : String
  pub geo_isp : String
  pub os_version : String
  pub browser_version : String
  pub details : Object
  pub timestamp : ℕ

pub record TransactionEventsResponse (Object : Type 0) : Type 0 where
  pub id : String
  pub time : String
  pub user_id : String
  pub session_id : String
  pub transaction_type : String
  pub currency : String
  pub payment_method : String
  pub status : String
  pub transaction_nature : String
  pub merchant_category : String
  pub device_type : String
  pub os : String
  pub channel : String
  pub browser : String
  pub geo_country : String
  pub risk_level : String
  pub request_id : String
  pub trace_id : String
  pub transaction_id : String
  pub external_reference_id : String
  pub amount : ℕ
  pub fee_amount : ℕ
  pub net_amount : ℕ
  pub exchange_rate : ℕ
  pub processing_time_ms : ℕ
  pub duration_ms : ℕ
  pub retry_count : ℕ
  pub response_code : ℕ
  pub approval_required : Bool
  pub compliance_score : ℕ
  pub is_bot : Bool
  pub merchant_id : String
  pub destination_account : String
  pub ip_address : String
  pub user_agent : String
  pub app_version : String
  pub endpoint : String
  pub method : String
  pub geo_city : String
  pub geo_coordinates : String
  pub geo_timezone : String
  pub geo_postal : String
  pub geo_isp : String
  pub os_version : String
  pub browser_version : String
  pub details : Object

module _ {Object : Type 0} where
  -- The payload of SaveTransactionEvents
  unfoldable pub save_transaction_events :
      TransactionEventsRequest Object → TransactionEventsRequest Object
  save_transaction_events req = record {
    user_id = req.user_id;
    session_id = req.session_id;
    transaction_type = req.transaction_type;
    currency = req.currency;
    payment_method = req.payment_method;
    status = req.status;
    transaction_nature = req.transaction_nature;
    merchant_category = req.merchant_category;
    channel = req.channel;
    risk_level = req.risk_level;
    request_id = req.request_id;
    trace_id = req.trace_id;
    transaction_id = req.transaction_id;
    external_reference_id = req.external_reference_id;
    amount = req.amount;
    fee_amount = req.fee_amount;
    net_amount = req.net_amount;
    exchange_rate = req.exchange_rate;
    processing_time_ms = req.processing_time_ms;
    duration_ms = req.duration_ms;
    retry_count = req.retry_count;
    response_code = req.response_code;
    approval_required = req.approval_required;
    compliance_score = req.compliance_score;
    merchant_id = req.merchant_id;
    destination_account = req.destination_account;
    ip_address = req.ip_address;
    user_agent = req.user_agent;
    app_version = req.app_version;
    endpoint = req.endpoint;
    method = req.method;
    details = req.details;
    timestamp = req.timestamp;
  }

  -- What HandleTransactionEventsLogging makes of a request and its lookups
  unfoldable pub of_request :
      Floats → Places → TransactionEventsRequest Object → TransactionEvents Object
  of_request floats places req =
      let origin = origin_of floats places req.user_agent req.ip_address in
      record {
        user_id = req.user_id;
        session_id = req.session_id;
        transaction_type = req.transaction_type;
        currency = places.to_upper req.currency;
        payment_method = req.payment_method;
        status = req.status;
        transaction_nature = req.transaction_nature;
        merchant_category = req.merchant_category;
        device_type = origin.device_type;
        os = origin.os;
        channel = req.channel;
        browser = origin.browser;
        geo_country = origin.geo_country;
        risk_level = req.risk_level;
        request_id = req.request_id;
        trace_id = req.trace_id;
        transaction_id = req.transaction_id;
        external_reference_id = req.external_reference_id;
        amount = req.amount;
        fee_amount = req.fee_amount;
        net_amount = req.net_amount;
        exchange_rate = req.exchange_rate;
        processing_time_ms = req.processing_time_ms;
        duration_ms = req.duration_ms;
        retry_count = req.retry_count;
        response_code = req.response_code;
        approval_required = req.approval_required;
        compliance_score = req.compliance_score;
        is_bot = origin.is_bot;
        merchant_id = req.merchant_id;
        destination_account = req.destination_account;
        ip_address = req.ip_address;
        user_agent = req.user_agent;
        app_version = req.app_version;
        endpoint = req.endpoint;
        method = req.method;
        geo_city = origin.geo_city;
        geo_coordinates = origin.geo_coordinates;
        geo_timezone = origin.geo_timezone;
        geo_postal = origin.geo_postal;
        geo_isp = origin.geo_isp;
        os_version = origin.os_version;
        browser_version = origin.browser_version;
        details = req.details;
        timestamp = req.timestamp;
      }
