-- ===== src/Records/Roundtrip.antt =====
-- Which parts of a record id come back.
use Prim.Native.String
use insight_collector.Prelude.{String, some, List, [], ◌∷◌, ok, ◌≡◌, ◌↔◌, arith, ◌∙◌, ap}
use insight_collector.Text.{Lacks, split}
use insight_collector.Text.Splitting.{split_of_Lacks, split-append, split-eq-two}
use insight_collector.Records.{UrlEncoding, two_parts, create_record_id, parse_record_id}

two_parts-eq-ok :
    (parts : List String) (a b : String) → two_parts parts ≡ ok (a, b) → parts ≡ a ∷ b ∷ []
two_parts-eq-ok [] a b e = absurd (ground arith)
two_parts-eq-ok (x ∷ []) a b e = absurd (ground arith)
two_parts-eq-ok (x ∷ y ∷ []) a b e = ground arith
two_parts-eq-ok (x ∷ y ∷ z ∷ rest) a b e = absurd (ground arith)

-- If base64 decodes what it has encoded: the id of a timestamp and a request id is parsed back to
-- them exactly when neither holds the delimiter.
pub parse-create_record_id_iff :
    (base64 : UrlEncoding) (timestamp request_id : String)
    → ((text : String) → base64.decode (base64.encode text) ≡ some text)
    → (parse_record_id base64 (create_record_id base64 timestamp request_id)
        ≡ ok (timestamp, request_id))
      ↔ (Lacks "|" timestamp × Lacks "|" request_id)
unfolding parse_record_id create_record_id
parse-create_record_id_iff base64 timestamp request_id decodes =
    let whole = String.◌++◌ timestamp (String.◌∷◌ "|" request_id) in
    let decoded = decodes whole in
    (
      λ e.
          let parts = two_parts-eq-ok (split "|" whole) timestamp request_id (ground arith) in
          let (spelled, first, second) = split-eq-two "|" whole timestamp request_id parts in
          (first, second),
      λ (first, second).
          let parts =
            split-append "|" timestamp request_id first
            ∙ ap (λ ps. timestamp ∷ ps) (split_of_Lacks "|" request_id second) in
          ground arith,
    )
