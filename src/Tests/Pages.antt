-- ===== src/Tests/Pages.antt =====
-- Record ids and pages at concrete requests.

use insight_collector.Prelude.{
  ◌*◌, ◌^◌, none, some, List, [], ◌∷◌, ◌==◌, ok, if◌then◌else◌, eqb, ◌≡◌, ◌↔◌, refl,
}
use insight_collector.Text.{Lacks}
use insight_collector.Records.{UrlEncoding, create_record_id, parse_record_id}
use insight_collector.Records.Roundtrip.{parse-create_record_id_iff}
use insight_collector.Query.{PaginationRequest, Layouts, validate_request, time, Row}
use insight_collector.Query.Validation.{IsValid, validate_request_iff}

-- A coding that leaves the text as it is
abbrev plain : UrlEncoding
plain = record { encode = λ text. text; decode = λ text. some text }

parse-create_record_id_iff_example :
    (parse_record_id plain (create_record_id plain "2024-05-01T10:00:00Z" "r-1")
      ≡ ok ("2024-05-01T10:00:00Z", "r-1"))
    ↔ (Lacks "|" "2024-05-01T10:00:00Z" × Lacks "|" "r-1")
parse-create_record_id_iff_example =
    parse-create_record_id_iff plain "2024-05-01T10:00:00Z" "r-1" (λ text. refl)

-- The layouts know one date and one time.
abbrev layouts : Layouts
layouts = record {
  parse_date = λ s. if s == "0000-01-02" then some (86400 * 10 ^ 9) else none;
  parse_rfc3339 = λ s. if s == "0000-01-01T00:00:01Z" then some (10 ^ 9) else none;
  format_utc =
      λ t. if eqb t (86400 * 10 ^ 9) then "0000-01-02T00:00:00Z" else "0000-01-02T23:59:59Z";
  format_rfc3339 = λ t. "0000-01-01T00:00:01Z";
}

abbrev first_page : PaginationRequest
first_page = record { length = 20; cursor = none; direction = "next"; filters = []; range = none }

validate_request_iff_example :
    (validate_request layouts first_page ≡ ok tt) ↔ IsValid layouts first_page
validate_request_iff_example = validate_request_iff layouts first_page

abbrev rows : List Row
rows = some (time (2 * 10 ^ 9)) ∷ some (time (10 ^ 9)) ∷ []
