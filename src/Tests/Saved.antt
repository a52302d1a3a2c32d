-- ===== src/Tests/Saved.antt =====
-- Saved user activities, security events and transaction events at concrete values.
use insight_collector.Prelude.{
  ℕ, String, true, false, none, some, ◌≡◌, ◌≢◌, refl, ◌∙◌, ap, sym, arith, eq_iff,
}
use insight_collector.UserAgent.{mobile}
use insight_collector.Events.{Point, Stores}
use insight_collector.Events.Origins.{Places, origin_of, of_agent, with_city, with_asn}
use insight_collector.Tests.Events.{plain_json, plain_base64, plain_floats, stored}
use insight_collector.Events.Security.{SecurityEventsRequest, save_security_events}
use insight_collector.Events.Security.Points.{
  handle_security_events, map_to_security_events_response,
}
use insight_collector.Events.Security.Shown.{save_security_events_is_shown}
use insight_collector.Events.Activities.{UserActivitiesRequest, save_user_activities}
use insight_collector.Events.Activities.Points.{
  handle_user_activities, map_to_user_activities_response,
}
use insight_collector.Events.Activities.Shown.{save_user_activities_is_shown}
use insight_collector.Events.Transactions.{TransactionEventsRequest, save_transaction_events}
use insight_collector.Events.Transactions.Points.{
  handle_transaction_events, map_to_transaction_events_response,
}
use insight_collector.Events.Transactions.Shown.{save_transaction_events_is_shown}
use insight_collector.Events.Security
use insight_collector.Events.Security.Points as SecurityPoints
use insight_collector.Events.Security.Shown as SecurityShown
use insight_collector.Events.Activities
use insight_collector.Events.Activities.Points as ActivitiesPoints
use insight_collector.Events.Activities.Shown as ActivitiesShown
use insight_collector.Events.Transactions
use insight_collector.Events.Transactions.Points as TransactionsPoints
use insight_collector.Events.Transactions.Shown as TransactionsShown

abbrev places : Places
places = record {
  agent_of = λ ua. record {
    device_type = mobile;
    os = "Android";
    os_version = "13";
    browser = "Chrome";
    browser_version = "116.0";
    is_bot = false;
  };
  city_of = λ ip. none;
  network_of =
      λ ip. some (record { ip = ip; asn = 64496; organization = "Example"; looked_up_at = 1 });
  to_upper = λ s. s;
  to_lower = λ s. s;
  coordinates = λ lat long. "0.0000,0.0000";
}

abbrev now_text : ℕ → String
now_text t = "2024-05-01T10:00:00Z"

abbrev object : String
object = "{}"

decodes : (s : String) → some object ≡ some s → (s ≢ "") × (some s ≡ some object)
decodes s e =
    let same : object ≡ s = ground arith in
    let given : object ≢ "" = λ empty. ground (arith, eq_iff object "") in
    (λ empty. given (same ∙ empty), ap (λ o. some o) (sym same))

abbrev security : SecurityEventsRequest String
security = record {
  user_id = "user_i";
  session_id = "sessio";
  identifier_type = "identi";
  event_type = "event_";
  severity = "severi";
  auth_stage = "auth_s";
  action_taken = "action";
  detection_method = "detect";
  channel = "channe";
  endpoint_group = "endpoi";
  method = "method";
  request_id = "r-1";
  trace_id = "trace_";
  identifier_value = "identi";
  attempt_count = 7;
  risk_score = 7;
  confidence_score = 7;
  previous_success_time = 7;
  affected_resource = "affect";
  duration_ms = 7;
  response_code = 7;
  ip_address = "192.0.2.1";
  user_agent = "Mozilla/5.0";
  app_version = "app_ve";
  endpoint = "endpoi";
  details = object;
  timestamp = 7;
}

abbrev security_point : Point
security_point =
    SecurityPoints.to_point plain_json
      (Security.of_request plain_floats places (save_security_events security))

security_handled :
    handle_security_events plain_json plain_floats places (some (save_security_events security))
    ≡ some security_point
unfolding handle_security_events
security_handled = refl

security_point-Stores : Stores security_point (stored security_point)
unfolding SecurityPoints.to_point Security.of_request save_security_events origin_of of_agent
    with_city with_asn
security_point-Stores = record {
  tags = (refl, (refl, (refl, (refl, (refl, tt)))));
  fields = (
    refl,
    (
      refl,
      (
        refl,
        (
          refl,
          (
            refl,
            (
              refl,
              (
                refl,
                (
                  refl,
                  (
                    refl,
                    (
                      refl,
                      (
                        refl,
                        (
                          refl,
                          (
                            refl,
                            (
                              refl,
                              (
                                refl,
                                (
                                  refl,
                                  (
                                    refl,
                                    (
                                      refl,
                                      (
                                        refl,
                                        (
                                          refl,
                                          (
                                            refl,
                                            (
                                              refl,
                                              (
                                                refl,
                                                (
                                                  refl,
                                                  (
                                                    refl,
                                                    (
                                                      refl,
                                                      (
                                                        refl,
                                                        (
                                                          refl,
                                                          (
                                                            refl,
                                                            (refl, (refl, (refl, (refl, tt)))),
                                                          ),
                                                        ),
                                                      ),
                                                    ),
                                                  ),
                                                ),
                                              ),
                                            ),
                                          ),
                                        ),
                                      ),
                                    ),
                                  ),
                                ),
                              ),
                            ),
                          ),
                        ),
                      ),
                    ),
                  ),
                ),
              ),
            ),
          ),
        ),
      ),
    ),
  );
  timestamp = refl;
}

save_security_events_is_shown_example :
    map_to_security_events_response plain_json plain_floats plain_base64 now_text
      (stored security_point)
    ≡ SecurityShown.response_for plain_json plain_floats plain_base64 now_text places security
save_security_events_is_shown_example =
    save_security_events_is_shown plain_json plain_floats plain_base64 now_text places security
      security_point (stored security_point) decodes security_handled security_point-Stores

abbrev activity : UserActivitiesRequest String
activity = record {
  user_id = "user_i";
  session_id = "sessio";
  activity_type = "activi";
  category = "catego";
  subcategory = "subcat";
  status = "status";
  channel = "channe";
  endpoint_group = "endpoi";
  method = "method";
  risk_level = "risk_l";
  request_id = "r-1";
  trace_id = "trace_";
  duration_ms = 7;
  response_code = 7;
  request_size_bytes = 7;
  response_size_bytes = 7;
  ip_address = "192.0.2.1";
  user_agent = "Mozilla/5.0";
  app_version = "app_ve";
  referrer_url = "referr";
  endpoint = "endpoi";
  details = object;
  timestamp = 7;
}

abbrev activity_point : Point
activity_point =
    ActivitiesPoints.to_point plain_json
      (Activities.of_request plain_floats places (save_user_activities activity))

activity_handled :
    handle_user_activities plain_json plain_floats places (some (save_user_activities activity))
    ≡ some activity_point
unfolding handle_user_activities
activity_handled = refl

activity_point-Stores : Stores activity_point (stored activity_point)
unfolding ActivitiesPoints.to_point Activities.of_request save_user_activities origin_of of_agent
    with_city with_asn
activity_point-Stores = record {
  tags = (refl, (refl, (refl, (refl, (refl, tt)))));
  fields = (
    refl,
    (
      refl,
      (
        refl,
        (
          refl,
          (
            refl,
            (
              refl,
              (
                refl,
                (
                  refl,
                  (
                    refl,
                    (
                      refl,
                      (
                        refl,
                        (
                          refl,
                          (
                            refl,
                            (
                              refl,
                              (
                                refl,
                                (
                                  refl,
                                  (
                                    refl,
                                    (
                                      refl,
                                      (
                                        refl,
                                        (
                                          refl,
                                          (
                                            refl,
                                            (
                                              refl,
                                              (
                                                refl,
                                                (refl, (refl, (refl, (refl, (refl, (refl, tt)))))),
                                              ),
                                            ),
                                          ),
                                        ),
                                      ),
                                    ),
                                  ),
                                ),
                              ),
                            ),
                          ),
                        ),
                      ),
                    ),
                  ),
                ),
              ),
            ),
          ),
        ),
      ),
    ),
  );
  timestamp = refl;
}

save_user_activities_is_shown_example :
    map_to_user_activities_response plain_json plain_floats plain_base64 now_text
      (stored activity_point)
    ≡ ActivitiesShown.response_for plain_json plain_floats plain_base64 now_text places activity
save_user_activities_is_shown_example =
    save_user_activities_is_shown plain_json plain_floats plain_base64 now_text places activity
      activity_point (stored activity_point) decodes activity_handled activity_point-Stores

abbrev transaction : TransactionEventsRequest String
transaction = record {
  user_id = "user_i";
  session_id = "sessio";
  transaction_type = "transa";
  currency = "curren";
  payment_method = "paymen";
  status = "status";
  transaction_nature = "transa";
  merchant_category = "mercha";
  channel = "channe";
  risk_level = "risk_l";
  request_id = "r-1";
  trace_id = "trace_";
  transaction_id = "transa";
  external_reference_id = "extern";
  amount = 7;
  fee_amount = 7;
  net_amount = 7;
  exchange_rate = 7;
  processing_time_ms = 7;
  duration_ms = 7;
  retry_count = 7;
  response_code = 7;
  approval_required = true;
  compliance_score = 7;
  merchant_id = "mercha";
  destination_account = "destin";
  ip_address = "192.0.2.1";
  user_agent = "Mozilla/5.0";
  app_version = "app_ve";
  endpoint = "endpoi";
  method = "method";
  details = object;
  timestamp = 7;
}

abbrev transaction_point : Point
transaction_point =
    TransactionsPoints.to_point plain_json
      (Transactions.of_request plain_floats places (save_transaction_events transaction))

transaction_handled :
    handle_transaction_events plain_json plain_floats places
      (some (save_transaction_events transaction))
    ≡ some transaction_point
unfolding handle_transaction_events
transaction_handled = refl

transaction_point-Stores : Stores transaction_point (stored transaction_point)
unfolding TransactionsPoints.to_point Transactions.of_request save_transaction_events origin_of
    of_agent with_city with_asn
transaction_point-Stores = record {
  tags = (refl, (refl, (refl, (refl, (refl, tt)))));
  fields = (
    refl,
    (
      refl,
      (
        refl,
        (
          refl,
          (
            refl,
            (
              refl,
              (
                refl,
                (
                  refl,
                  (
                    refl,
                    (
                      refl,
                      (
                        refl,
                        (
                          refl,
                          (
                            refl,
                            (
                              refl,
                              (
                                refl,
                                (
                                  refl,
                                  (
                                    refl,
                                    (
                                      refl,
                                      (
                                        refl,
                                        (
                                          refl,
                                          (
                                            refl,
                                            (
                                              refl,
                                              (
                                                refl,
                                                (
                                                  refl,
                                                  (
                                                    refl,
                                                    (
                                                      refl,
                                                      (
                                                        refl,
                                                        (
                                                          refl,
                                                          (
                                                            refl,
                                                            (
                                                            refl,
                                                            (
                                                            refl,
                                                            (
                                                            refl,
                                                            (
                                                            refl,
                                                            (
                                                            refl,
                                                            (
                                                            refl,
                                                            (refl, (refl, (refl, (refl, tt)))),
                                                            ),
                                                            ),
                                                            ),
                                                            ),
                                                            ),
                                                            ),
                                                          ),
                                                        ),
                                                      ),
                                                    ),
                                                  ),
                                                ),
                                              ),
                                            ),
                                          ),
                                        ),
                                      ),
                                    ),
                                  ),
                                ),
                              ),
                            ),
                          ),
                        ),
                      ),
                    ),
                  ),
                ),
              ),
            ),
          ),
        ),
      ),
    ),
  );
  timestamp = refl;
}

save_transaction_events_is_shown_example :
    map_to_transaction_events_response plain_json plain_floats plain_base64 now_text
      (stored transaction_point)
    ≡ TransactionsShown.response_for plain_json plain_floats plain_base64 now_text places
        transaction
save_transaction_events_is_shown_example =
    save_transaction_events_is_shown plain_json plain_floats plain_base64 now_text places
      transaction transaction_point (stored transaction_point) decodes transaction_handled
      transaction_point-Stores
