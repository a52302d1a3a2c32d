-- ===== src/Http/Codes/Statuses.antt =====
-- How the HTTP statuses follow from the error codes.
use insight_collector.Prelude.{ℕ, ◌+◌, ◌/◌, ◌≤◌, ◌<◌, ◌≡◌, ◌≢◌, arith}
use insight_collector.Http.Codes.{get_http_status_from_code}

-- No code is answered with 429: the range of 429 lies inside that of 422, which stands before it.
pub status-ne-429 : (code : ℕ) → get_http_status_from_code code ≢ 429
unfolding get_http_status_from_code
status-ne-429 code = ground arith

-- A code from 40000 to 44999 outside 42000 to 42999 is answered with 360 more than its thousands.
pub status-client_errors :
    (code : ℕ)
    → 40000 ≤ code
    → code < 45000
    → code / 1000 ≢ 42
    → get_http_status_from_code code ≡ 360 + code / 1000
unfolding get_http_status_from_code
status-client_errors code low high other = ground arith

-- A code from 50000 to 54999 outside 51000 to 51999 is answered with 450 more than its thousands.
pub status-server_errors :
    (code : ℕ)
    → 50000 ≤ code
    → code < 55000
    → code / 1000 ≢ 51
    → get_http_status_from_code code ≡ 450 + code / 1000
unfolding get_http_status_from_code
status-server_errors code low high other = ground arith
