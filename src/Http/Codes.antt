-- ===== src/Http/Codes.antt =====
-- internal/constants/errors.go: the error codes, their messages and their HTTP statuses.
pub mod Statuses
use insight_collector.Prelude.{
  ℕ, ◌+◌, ◌≤◌, ◌<◌, String, Bool, true, false, ◌&&◌, Option, none, some, List, [], ◌∷◌, ltb, leb,
  eqb, if◌then◌else◌, ◌≡◌, ◌≢◌, ◌⊎◌, ◌↔◌, refl, arith, All,
}

abbrev pub code_success : ℕ
code_success = 0

abbrev pub code_bad_request : ℕ
code_bad_request = 40000

abbrev pub code_invalid_json : ℕ
code_invalid_json = 40001

abbrev pub code_validation_failed : ℕ
code_validation_failed = 40002

abbrev pub code_missing_parameter : ℕ
code_missing_parameter = 40003

abbrev pub code_invalid_parameter : ℕ
code_invalid_parameter = 40004

abbrev pub code_invalid_format : ℕ
code_invalid_format = 40005

abbrev pub code_unauthorized : ℕ
code_unauthorized = 41000

abbrev pub code_missing_auth : ℕ
code_missing_auth = 41001

abbrev pub code_invalid_token : ℕ
code_invalid_token = 41002

abbrev pub code_expired_token : ℕ
code_expired_token = 41003

abbrev pub code_invalid_signature : ℕ
code_invalid_signature = 41004

abbrev pub code_expired_signature : ℕ
code_expired_signature = 41005

abbrev pub code_invalid_client_id : ℕ
code_invalid_client_id = 41006

abbrev pub code_inactive_client : ℕ
code_inactive_client = 41007

abbrev pub code_nonce_replay : ℕ
code_nonce_replay = 41008

abbrev pub code_forbidden : ℕ
code_forbidden = 43000

abbrev pub code_insufficient_perms : ℕ
code_insufficient_perms = 43001

abbrev pub code_resource_forbidden : ℕ
code_resource_forbidden = 43002

abbrev pub code_not_found : ℕ
code_not_found = 44000

abbrev pub code_resource_not_found : ℕ
code_resource_not_found = 44001

abbrev pub code_endpoint_not_found : ℕ
code_endpoint_not_found = 44002

abbrev pub code_conflict : ℕ
code_conflict = 49000

abbrev pub code_duplicate_resource : ℕ
code_duplicate_resource = 49001

abbrev pub code_duplicate_job : ℕ
code_duplicate_job = 49002

abbrev pub code_unprocessable : ℕ
code_unprocessable = 42000

abbrev pub code_business_logic_error : ℕ
code_business_logic_error = 42001

abbrev pub code_dependency_failed : ℕ
code_dependency_failed = 42002

abbrev pub code_rate_limit : ℕ
code_rate_limit = 42900

abbrev pub code_internal_error : ℕ
code_internal_error = 50000

abbrev pub code_database_error : ℕ
code_database_error = 50001

abbrev pub code_influxdb_error : ℕ
code_influxdb_error = 50002

abbrev pub code_redis_error : ℕ
code_redis_error = 50003

abbrev pub code_job_processing_error : ℕ
code_job_processing_error = 50004

abbrev pub code_configuration_error : ℕ
code_configuration_error = 50005

abbrev pub code_file_system_error : ℕ
code_file_system_error = 50006

abbrev pub code_bad_gateway : ℕ
code_bad_gateway = 52000

abbrev pub code_upstream_error : ℕ
code_upstream_error = 52001

abbrev pub code_external_api_error : ℕ
code_external_api_error = 52002

abbrev pub code_service_unavailable : ℕ
code_service_unavailable = 53000

abbrev pub code_database_unavailable : ℕ
code_database_unavailable = 53001

abbrev pub code_redis_unavailable : ℕ
code_redis_unavailable = 53002

abbrev pub code_maintenance_mode : ℕ
code_maintenance_mode = 53003

abbrev pub code_gateway_timeout : ℕ
code_gateway_timeout = 54000

abbrev pub code_upstream_timeout : ℕ
code_upstream_timeout = 54001

abbrev pub code_database_timeout : ℕ
code_database_timeout = 54002

-- ErrorMessages
abbrev pub error_messages : List (ℕ × String)
error_messages =
    (code_success, "Success")
    ∷ (code_bad_request, "Bad request")
    ∷ (code_invalid_json, "Invalid JSON payload")
    ∷ (code_validation_failed, "Validation failed")
    ∷ (code_missing_parameter, "Required parameter missing")
    ∷ (code_invalid_parameter, "Invalid parameter value")
    ∷ (code_invalid_format, "Invalid format")
    ∷ (code_unauthorized, "Unauthorized")
    ∷ (code_missing_auth, "Authentication required: provide either Bearer token or X-Signature")
    ∷ (code_invalid_token, "Invalid JWT token")
    ∷ (code_expired_token, "Token has expired")
    ∷ (code_invalid_signature, "Invalid signature")
    ∷ (code_expired_signature, "Signature has expired")
    ∷ (code_invalid_client_id, "Invalid client ID")
    ∷ (code_inactive_client, "Client is inactive")
    ∷ (code_nonce_replay, "Nonce replay attack detected")
    ∷ (code_forbidden, "Forbidden")
    ∷ (code_insufficient_perms, "Insufficient permissions")
    ∷ (code_resource_forbidden, "Resource access forbidden")
    ∷ (code_not_found, "Not found")
    ∷ (code_resource_not_found, "Resource not found")
    ∷ (code_endpoint_not_found, "Endpoint not found")
    ∷ (code_conflict, "Conflict")
    ∷ (code_duplicate_resource, "Duplicate resource")
    ∷ (code_duplicate_job, "Duplicate job - already in queue")
    ∷ (code_unprocessable, "Unprocessable entity")
    ∷ (code_business_logic_error, "Business logic error")
    ∷ (code_dependency_failed, "External dependency failed")
    ∷ (code_rate_limit, "Rate limit exceeded")
    ∷ (code_internal_error, "Internal server error")
    ∷ (code_database_error, "Database error")
    ∷ (code_influxdb_error, "InfluxDB error")
    ∷ (code_redis_error, "Redis error")
    ∷ (code_job_processing_error, "Job processing error")
    ∷ (code_configuration_error, "Configuration error")
    ∷ (code_file_system_error, "File system error")
    ∷ (code_bad_gateway, "Bad gateway")
    ∷ (code_upstream_error, "Upstream service error")
    ∷ (code_external_api_error, "External API error")
    ∷ (code_service_unavailable, "Service unavailable")
    ∷ (code_database_unavailable, "Database unavailable")
    ∷ (code_redis_unavailable, "Redis unavailable")
    ∷ (code_maintenance_mode, "Service under maintenance")
    ∷ (code_gateway_timeout, "Gateway timeout")
    ∷ (code_upstream_timeout, "Upstream timeout")
    ∷ (code_database_timeout, "Database timeout")
    ∷ []

message_in : ℕ → List (ℕ × String) → String
message_in code [] = "Unknown error"
message_in code ((c, message) ∷ rest) = if eqb c code then message else message_in code rest

unfoldable pub get_error_message : ℕ → String
unfolding message_in
get_error_message code = message_in code error_messages

abbrev within : ℕ → ℕ → ℕ → Bool
within low high code = leb low code && ltb code high

-- The cases of the switch, in their order.
unfoldable pub get_http_status_from_code : ℕ → ℕ
get_http_status_from_code code =
    if eqb code 0
    then 200
    else if within 40000 41000 code
    then 400
    else if within 41000 42000 code
    then 401
    else if within 42000 43000 code
    then 422
    else if within 42900 43000 code
    then 429
    else if within 43000 44000 code
    then 403
    else if within 44000 45000 code
    then 404
    else if within 49000 50000 code
    then 409
    else if within 50000 51000 code
    then 500
    else if within 52000 53000 code
    then 502
    else if within 53000 54000 code
    then 503
    else if within 54000 55000 code
    then 504
    else 500
