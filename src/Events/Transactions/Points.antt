-- ===== src/Events/Transactions/Points.antt =====
-- The points and the responses of transaction events: ToPoint and MapToTransactionEventsResponse
-- of internal/entities/transaction_events, and HandleTransactionEventsLogging up to the point that
-- it writes.
use insight_collector.Prelude.{
  ℕ, String, ◌&&◌, not, Option, none, some, [], ◌∷◌, ◌==◌, if◌then◌else◌,
}
use insight_collector.Records.{UrlEncoding, create_record_id}
use insight_collector.Events.{
  text_field, int_field, float_field, bool_field, Floats, Point, Record, safe_string, visible,
  number, float_number, flag, moment,
}
use insight_collector.Events.Callbacks.{ObjectJson, payloads_json, payloads_of}
use insight_collector.Events.Origins.{Places}
use insight_collector.Events.Transactions.{
  TransactionEventsRequest, TransactionEvents, TransactionEventsResponse, of_request,
}

module _ {Object : Type 0} (json : ObjectJson Object) where
  unfoldable pub to_point : TransactionEvents Object → Point
  to_point e = record {
    measurement = "transaction_events";
    tags =
        ("transaction_type", safe_string e.transaction_type)
        ∷ ("status", safe_string e.status)
        ∷ ("currency", safe_string e.currency)
        ∷ ("channel", safe_string e.channel)
        ∷ ("risk_level", safe_string e.risk_level)
        ∷ [];
    fields =
        ("user_id", text_field (safe_string e.user_id))
        ∷ ("session_id", text_field (safe_string e.session_id))
        ∷ ("request_id", text_field (safe_string e.request_id))
        ∷ ("trace_id", text_field (safe_string e.trace_id))
        ∷ ("transaction_id", text_field (safe_string e.transaction_id))
        ∷ ("external_reference_id", text_field (safe_string e.external_reference_id))
        ∷ ("amount", float_field e.amount)
        ∷ ("fee_amount", float_field e.fee_amount)
        ∷ ("net_amount", float_field e.net_amount)
        ∷ ("exchange_rate", float_field e.exchange_rate)
        ∷ ("processing_time_ms", int_field e.processing_time_ms)
        ∷ ("duration_ms", int_field e.duration_ms)
        ∷ ("retry_count", int_field e.retry_count)
        ∷ ("response_code", int_field e.response_code)
        ∷ ("approval_required", bool_field e.approval_required)
        ∷ ("compliance_score", float_field e.compliance_score)
        ∷ ("is_bot", bool_field e.is_bot)
        ∷ ("merchant_id", text_field (safe_string e.merchant_id))
        ∷ ("destination_account", text_field (safe_string e.destination_account))
        ∷ ("ip_address", text_field (safe_string e.ip_address))
        ∷ ("user_agent", text_field (safe_string e.user_agent))
        ∷ ("browser", text_field (safe_string e.browser))
        ∷ ("os", text_field (safe_string e.os))
        ∷ ("app_version", text_field (safe_string e.app_version))
        ∷ ("endpoint", text_field (safe_string e.endpoint))
        ∷ ("method", text_field (safe_string e.method))
        ∷ ("geo_city", text_field (safe_string e.geo_city))
        ∷ ("geo_coordinates", text_field (safe_string e.geo_coordinates))
        ∷ ("geo_timezone", text_field (safe_string e.geo_timezone))
        ∷ ("geo_postal", text_field (safe_string e.geo_postal))
        ∷ ("geo_isp", text_field (safe_string e.geo_isp))
        ∷ ("os_version", text_field (safe_string e.os_version))
        ∷ ("browser_version", text_field (safe_string e.browser_version))
        ∷ ("details", text_field (payloads_json json e.details))
        ∷ ("payment_method", text_field (safe_string e.payment_method))
        ∷ ("transaction_nature", text_field (safe_string e.transaction_nature))
        ∷ ("merchant_category", text_field (safe_string e.merchant_category))
        ∷ ("device_type", text_field (safe_string e.device_type))
        ∷ ("geo_country", text_field (safe_string e.geo_country))
        ∷ [];
    timestamp = e.timestamp;
  }

  -- `none` is an error of json.Unmarshal.
  unfoldable pub handle_transaction_events :
      Floats → Places → Option (TransactionEventsRequest Object) → Option Point
  handle_transaction_events floats places none = none
  handle_transaction_events floats places (some req) =
      some (to_point (of_request floats places req))

  unfoldable pub map_to_transaction_events_response :
      Floats → UrlEncoding → (ℕ → String) → Record → TransactionEventsResponse Object
  map_to_transaction_events_response floats base64 format r =
      let t = moment format (r "_time") in
      let request_id = visible (r "request_id") in
      record {
        id =
            if not (t == "") && not (request_id == "")
            then create_record_id base64 t request_id
            else "";
        time = t;
        user_id = visible (r "user_id");
        session_id = visible (r "session_id");
        transaction_type = visible (r "transaction_type");
        currency = visible (r "currency");
        payment_method = visible (r "payment_method");
        status = visible (r "status");
        transaction_nature = visible (r "transaction_nature");
        merchant_category = visible (r "merchant_category");
        device_type = visible (r "device_type");
        os = visible (r "os");
        channel = visible (r "channel");
        browser = visible (r "browser");
        geo_country = visible (r "geo_country");
        risk_level = visible (r "risk_level");
        request_id = request_id;
        trace_id = visible (r "trace_id");
        transaction_id = visible (r "transaction_id");
        external_reference_id = visible (r "external_reference_id");
        amount = float_number floats (r "amount");
        fee_amount = float_number floats (r "fee_amount");
        net_amount = float_number floats (r "net_amount");
        exchange_rate = float_number floats (r "exchange_rate");
        processing_time_ms = number floats (r "processing_time_ms");
        duration_ms = number floats (r "duration_ms");
        retry_count = number floats (r "retry_count");
        response_code = number floats (r "response_code");
        approval_required = flag (r "approval_required");
        compliance_score = float_number floats (r "compliance_score");
        is_bot = flag (r "is_bot");
        merchant_id = visible (r "merchant_id");
        destination_account = visible (r "destination_account");
        ip_address = visible (r "ip_address");
        user_agent = visible (r "user_agent");
        app_version = visible (r "app_version");
        endpoint = visible (r "endpoint");
        method = visible (r "method");
        geo_city = visible (r "geo_city");
        geo_coordinates = visible (r "geo_coordinates");
        geo_timezone = visible (r "geo_timezone");
        geo_postal = visible (r "geo_postal");
        geo_isp = visible (r "geo_isp");
        os_version = visible (r "os_version");
        browser_version = visible (r "browser_version");
        details = payloads_of json (r "details");
      }
