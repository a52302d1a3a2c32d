-- ===== src/Auth/Signature.antt =====
-- pkg/auth/signature.go: signatures over a request and their verification.
-- The hash functions, HMAC, RSA, `json.Marshal` and base64 are the fields of `Crypto`; bytes are
-- numbers. The clock's reading `now` is an argument, in seconds.
pub mod Verified
pub mod Accepts
pub mod Replay
use insight_collector.Prelude.{
  ℕ, String, Bool, true, false, ◌&&◌, Option, none, some, List, [], ◌∷◌, ◌==◌, eqb, GoMap, Result,
  ok, err, ◌>>=◌, ◌>>◌, require, found_or, if◌then◌else◌, ◌||◌,
}
use insight_collector.Text.Integers.{parse_int}
use insight_collector.Auth.Config.{ClientConfig}
use insight_collector.Auth.Registry.{Registry, get_client_info, get_client_secret_key}
use insight_collector.Auth.Nonces.{in_window, register_nonce}
use insight_collector.Auth.Service.{AuthState}

abbrev pub Bytes : Type 0
Bytes = List ℕ

pub record SignaturePayload : Type 0 where
  pub client_id : String
  pub timestamp : ℕ
  pub nonce : String
  pub method : String
  pub path : String
  pub body : String

pub data Hash : Type 0 where
  sha256 sha512 : Hash

pub record Crypto (Key : Type 0) : Type 0 where
  -- json.Marshal of a payload
  pub marshal : SignaturePayload → String
  -- hash.Sum over a text
  pub digest : Hash → String → Bytes
  -- the code of a text under a secret key
  pub hmac : Hash → String → String → Bytes
  -- rsa.VerifyPKCS1v15 returns no error
  pub rsa_verify : Key → Hash → Bytes → Bytes → Bool
  -- base64.StdEncoding
  pub encode : Bytes → String
  pub decode : String → Option Bytes

pub data SignatureError : Type 0 where
  invalid_timestamp timestamp_expired unknown_client inactive_client nonce_replay : SignatureError
  invalid_signature_format invalid_auth_type key_not_found unsupported_algorithm : SignatureError
  mismatch : SignatureError

-- The arguments of VerifySignature.
pub record SignedRequest : Type 0 where
  pub client_id : String
  pub timestamp_str : String
  pub nonce : String
  pub method : String
  pub path : String
  pub body : String
  pub signature_str : String

abbrev pub to_payload : SignedRequest → ℕ → SignaturePayload
to_payload q timestamp = record {
  client_id = q.client_id;
  timestamp = timestamp;
  nonce = q.nonce;
  method = q.method;
  path = q.path;
  body = q.body;
}

unfoldable pub get_hash_function : String → Result SignatureError Hash
get_hash_function algorithm =
    if algorithm == "RS256" || algorithm == "HS256"
    then ok sha256
    else if algorithm == "RS512" || algorithm == "HS512"
    then ok sha512
    else err unsupported_algorithm

-- hmac.Equal
unfoldable pub same_bytes : Bytes → Bytes → Bool
same_bytes [] [] = true
same_bytes [] (_ ∷ _) = false
same_bytes (_ ∷ _) [] = false
same_bytes (a ∷ as') (b ∷ bs) = eqb a b && same_bytes as' bs

module _ {Key : Type 0} where
  -- VerifySignature up to the nonce: the timestamp and the client.
  unfoldable pub check_request :
      ℕ → SignedRequest → Registry Key → Result SignatureError (ℕ × ClientConfig)
  check_request now q r = do
    timestamp ← found_or (parse_int q.timestamp_str) invalid_timestamp
    require (in_window now timestamp) timestamp_expired
    (_, client) ← found_or (get_client_info q.client_id r) unknown_client
    require client.active inactive_client
    ok (timestamp, client)

module _ {Key : Type 0} (crypto : Crypto Key) (algorithm : String) where
  unfoldable pub generate_hmac_signature : SignaturePayload → String → Result SignatureError String
  generate_hmac_signature payload secret_key = do
    hash ← get_hash_function algorithm
    ok (crypto.encode (crypto.hmac hash secret_key (crypto.marshal payload)))

  unfoldable pub verify_rsa_signature :
      SignaturePayload → Bytes → String → Registry Key → Result SignatureError (Unit {0})
  verify_rsa_signature payload signature id r = do
    (key, _) ← found_or (get_client_info id r) key_not_found
    public_key ← found_or key key_not_found
    hash ← get_hash_function algorithm
    require
        (crypto.rsa_verify public_key hash (crypto.digest hash (crypto.marshal payload)) signature)
        mismatch

  unfoldable pub verify_hmac_signature :
      SignaturePayload → Bytes → String → Registry Key → Result SignatureError (Unit {0})
  verify_hmac_signature payload signature id r = do
    secret_key ← found_or (get_client_secret_key id r) key_not_found
    hash ← get_hash_function algorithm
    require (same_bytes signature (crypto.hmac hash secret_key (crypto.marshal payload))) mismatch

  -- VerifySignature behind the nonce: the signature.
  unfoldable pub check_signature :
      ℕ → ClientConfig → SignedRequest → Registry Key → Result SignatureError ClientConfig
  unfolding verify_rsa_signature verify_hmac_signature
  check_signature timestamp client q r = do
    signature ← found_or (crypto.decode q.signature_str) invalid_signature_format
    if client.auth_type == "rsa"
        then verify_rsa_signature (to_payload q timestamp) signature q.client_id r
        else if client.auth_type == "hmac"
        then verify_hmac_signature (to_payload q timestamp) signature q.client_id r
        else err invalid_auth_type
    ok client

  -- The nonce is recorded before the signature is looked at.
  unfoldable pub verify_signature :
      ℕ → SignedRequest → AuthState Key → Result SignatureError ClientConfig × AuthState Key
  verify_signature now q s = elim (check_request now q s.registry) [
    | err e ↦ (err e, s)
    | ok (timestamp, client) ↦ elim (register_nonce q.nonce timestamp s.used_nonces) [
      | none ↦ (err nonce_replay, s)
      | some used ↦ (check_signature timestamp client q s.registry, record s { used_nonces = used })
    ]
  ]
