-- ===== src/Records.antt =====
-- pkg/utils/utils.go: the ids of records, a timestamp and a request id in URL-safe base64. The
-- coding of texts is a parameter.
pub mod Roundtrip
use Prim.Native.String
use insight_collector.Prelude.{
  String, Option, none, some, List, [], ◌∷◌, Result, ok, err, ◌>>=◌, found_or,
}
use insight_collector.Text.{split}

-- base64.URLEncoding over the bytes of a text
pub record UrlEncoding : Type 0 where
  pub encode : String → String
  pub decode : String → Option String

pub data RecordError : Type 0 where
  invalid_encoding invalid_format : RecordError

-- exactly two parts
abbrev pub two_parts : List String → Result RecordError (String × String)
two_parts (timestamp ∷ request_id ∷ []) = ok (timestamp, request_id)
two_parts [] = err invalid_format
two_parts (_ ∷ []) = err invalid_format
two_parts (_ ∷ _ ∷ _ ∷ _) = err invalid_format

module _ (base64 : UrlEncoding) where
  unfoldable pub create_record_id : String → String → String
  create_record_id timestamp request_id =
      base64.encode (String.◌++◌ timestamp (String.◌∷◌ "|" request_id))

  unfoldable pub parse_record_id : String → Result RecordError (String × String)
  parse_record_id encoded_id = do
    decoded ← found_or (base64.decode encoded_id) invalid_encoding
    two_parts (split "|" decoded)
