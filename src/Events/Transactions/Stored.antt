-- ===== src/Events/Transactions/Stored.antt =====
-- What a response shows of an event whose point InfluxDB has stored.
use insight_collector.Prelude.{
  ℕ, String, ◌&&◌, not, some, ◌==◌, if◌then◌else◌, ◌≡◌, ◌≢◌, refl, ◌∙◌, ap,
}
use insight_collector.Records.{UrlEncoding, create_record_id}
use insight_collector.Events.{Floats, Record, visible, number, float_number, flag, moment, Stores}
use insight_collector.Events.Callbacks.{ObjectJson, payloads_of}
use insight_collector.Events.Callbacks.Roundtrip.{
  shown, kept, payloads_of-payloads_json, visible-safe_string,
}
use insight_collector.Events.Transactions.{TransactionEvents, TransactionEventsResponse}
use insight_collector.Events.Transactions.Points.{to_point, map_to_transaction_events_response}

module _ {Object : Type 0} (json : ObjectJson Object) (floats : Floats) (base64 : UrlEncoding)
    (format : ℕ → String) where
  -- The response that shows an event
  abbrev pub response_of : TransactionEvents Object → TransactionEventsResponse Object
  response_of e = record {
    id =
        if not (format e.timestamp == "") && not (shown e.request_id == "")
        then create_record_id base64 (format e.timestamp) (shown e.request_id)
        else "";
    time = format e.timestamp;
    user_id = shown e.user_id;
    session_id = shown e.session_id;
    transaction_type = shown e.transaction_type;
    currency = shown e.currency;
    payment_method = shown e.payment_method;
    status = shown e.status;
    transaction_nature = shown e.transaction_nature;
    merchant_category = shown e.merchant_category;
    device_type = shown e.device_type;
    os = shown e.os;
    channel = shown e.channel;
    browser = shown e.browser;
    geo_country = shown e.geo_country;
    risk_level = shown e.risk_level;
    request_id = shown e.request_id;
    trace_id = shown e.trace_id;
    transaction_id = shown e.transaction_id;
    external_reference_id = shown e.external_reference_id;
    amount = e.amount;
    fee_amount = e.fee_amount;
    net_amount = e.net_amount;
    exchange_rate = e.exchange_rate;
    processing_time_ms = e.processing_time_ms;
    duration_ms = e.duration_ms;
    retry_count = e.retry_count;
    response_code = e.response_code;
    approval_required = e.approval_required;
    compliance_score = e.compliance_score;
    is_bot = e.is_bot;
    merchant_id = shown e.merchant_id;
    destination_account = shown e.destination_account;
    ip_address = shown e.ip_address;
    user_agent = shown e.user_agent;
    app_version = shown e.app_version;
    endpoint = shown e.endpoint;
    method = shown e.method;
    geo_city = shown e.geo_city;
    geo_coordinates = shown e.geo_coordinates;
    geo_timezone = shown e.geo_timezone;
    geo_postal = shown e.geo_postal;
    geo_isp = shown e.geo_isp;
    os_version = shown e.os_version;
    browser_version = shown e.browser_version;
    details = kept json floats base64 format e.details;
  }

  pub map_to_transaction_events_response-to_point :
      (e : TransactionEvents Object) (r : Record)
      → ((s : String)
          → json.marshal e.details ≡ some s
          → (s ≢ "") × (json.unmarshal s ≡ some e.details))
      → Stores (to_point json e) r
      → map_to_transaction_events_response json floats base64 format r ≡ response_of e
  unfolding to_point map_to_transaction_events_response
  map_to_transaction_events_response-to_point e r decodes stored =
      let (t_transaction_type, (t_status, (t_currency, (t_channel, (t_risk_level, _))))) =
        stored.tags in
      let (
        f_user_id,
        (
          f_session_id,
          (
            f_request_id,
            (
              f_trace_id,
              (
                f_transaction_id,
                (
                  f_external_reference_id,
                  (
                    f_amount,
                    (
                      f_fee_amount,
                      (
                        f_net_amount,
                        (
                          f_exchange_rate,
                          (
                            f_processing_time_ms,
                            (
                              f_duration_ms,
                              (
                                f_retry_count,
                                (
                                  f_response_code,
                                  (
                                    f_approval_required,
                                    (
                                      f_compliance_score,
                                      (
                                        f_is_bot,
                                        (
                                          f_merchant_id,
                                          (
                                            f_destination_account,
                                            (
                                              f_ip_address,
                                              (
                                                f_user_agent,
                                                (
                                                  f_browser,
                                                  (
                                                    f_os,
                                                    (
                                                      f_app_version,
                                                      (
                                                        f_endpoint,
                                                        (
                                                          f_method,
                                                          (
                                                            f_geo_city,
                                                            (
                                                            f_geo_coordinates,
                                                            (
                                                            f_geo_timezone,
                                                            (
                                                            f_geo_postal,
                                                            (
                                                            f_geo_isp,
                                                            (
                                                            f_os_version,
                                                            (
                                                            f_browser_version,
                                                            (
                                                            f_details,
                                                            (
                                                            f_payment_method,
                                                            (
                                                            f_transaction_nature,
                                                            (
                                                            f_merchant_category,
                                                            (f_device_type, (f_geo_country, _)),
                                                            ),
                                                            ),
                                                            ),
                                                            ),
                                                            ),
                                                            ),
                                                            ),
                                                            ),
                                                            ),
                                                            ),
                                                          ),
                                                        ),
                                                      ),
                                                    ),
                                                  ),
                                                ),
                                              ),
                                            ),
                                          ),
                                        ),
                                      ),
                                    ),
                                  ),
                                ),
                              ),
                            ),
                          ),
                        ),
                      ),
                    ),
                  ),
                ),
              ),
            ),
          ),
        ),
      ) =
        stored.fields in
      rw
        (
          ap (moment format) stored.timestamp,
          ap visible t_transaction_type ∙ visible-safe_string e.transaction_type,
          ap visible t_status ∙ visible-safe_string e.status,
          ap visible t_currency ∙ visible-safe_string e.currency,
          ap visible t_channel ∙ visible-safe_string e.channel,
          ap visible t_risk_level ∙ visible-safe_string e.risk_level,
          ap visible f_user_id ∙ visible-safe_string e.user_id,
          ap visible f_session_id ∙ visible-safe_string e.session_id,
          ap visible f_request_id ∙ visible-safe_string e.request_id,
          ap visible f_trace_id ∙ visible-safe_string e.trace_id,
          ap visible f_transaction_id ∙ visible-safe_string e.transaction_id,
          ap visible f_external_reference_id ∙ visible-safe_string e.external_reference_id,
          ap (float_number floats) f_amount,
          ap (float_number floats) f_fee_amount,
          ap (float_number floats) f_net_amount,
          ap (float_number floats) f_exchange_rate,
          ap (number floats) f_processing_time_ms,
          ap (number floats) f_duration_ms,
          ap (number floats) f_retry_count,
          ap (number floats) f_response_code,
          ap flag f_approval_required,
          ap (float_number floats) f_compliance_score,
          ap flag f_is_bot,
          ap visible f_merchant_id ∙ visible-safe_string e.merchant_id,
          ap visible f_destination_account ∙ visible-safe_string e.destination_account,
          ap visible f_ip_address ∙ visible-safe_string e.ip_address,
          ap visible f_user_agent ∙ visible-safe_string e.user_agent,
          ap visible f_browser ∙ visible-safe_string e.browser,
          ap visible f_os ∙ visible-safe_string e.os,
          ap visible f_app_version ∙ visible-safe_string e.app_version,
          ap visible f_endpoint ∙ visible-safe_string e.endpoint,
          ap visible f_method ∙ visible-safe_string e.method,
          ap visible f_geo_city ∙ visible-safe_string e.geo_city,
          ap visible f_geo_coordinates ∙ visible-safe_string e.geo_coordinates,
          ap visible f_geo_timezone ∙ visible-safe_string e.geo_timezone,
          ap visible f_geo_postal ∙ visible-safe_string e.geo_postal,
          ap visible f_geo_isp ∙ visible-safe_string e.geo_isp,
          ap visible f_os_version ∙ visible-safe_string e.os_version,
          ap visible f_browser_version ∙ visible-safe_string e.browser_version,
          ap (payloads_of json) f_details
              ∙ payloads_of-payloads_json json floats base64 format e.details decodes,
          ap visible f_payment_method ∙ visible-safe_string e.payment_method,
          ap visible f_transaction_nature ∙ visible-safe_string e.transaction_nature,
          ap visible f_merchant_category ∙ visible-safe_string e.merchant_category,
          ap visible f_device_type ∙ visible-safe_string e.device_type,
          ap visible f_geo_country ∙ visible-safe_string e.geo_country,
        )
        refl
