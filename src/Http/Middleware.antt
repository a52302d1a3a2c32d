-- ===== src/Http/Middleware.antt =====
-- http/middleware: the authentication middlewares, from a request's headers and body to a failure
-- code or the next handler. The JWT library is a parameter.
pub mod Passing
pub mod Refusals
use insight_collector.Prelude.{
  ℕ, String, Bool, true, false, ◌&&◌, not, Option, none, some, List, [], ◌∷◌, ◌==◌, Result, ok, err,
  ◌>>=◌, ◌>>◌, require, found_or, if◌then◌else◌,
}
use insight_collector.Text.{strip_prefix}
use insight_collector.Http.Codes.{
  code_bad_request, code_unauthorized, code_missing_auth, code_invalid_token,
  code_invalid_signature, code_expired_signature, code_insufficient_perms,
}
use insight_collector.Auth.Config.{ClientConfig, AuthConfig}
use insight_collector.Auth.Permissions.{has_permission}
use insight_collector.Auth.Registry.{Registry, get_client_info}
use insight_collector.Auth.Service.{AuthState}
use insight_collector.Auth.Signature.{Crypto, SignatureError, SignedRequest, verify_signature}

pub data Body : Type 0 where
  absent broken : Body
  content : String → Body

-- A header that is not there reads as the empty text.
pub record Request : Type 0 where
  pub authorization : String
  pub x_client_id : String
  pub x_timestamp : String
  pub x_nonce : String
  pub x_signature : String
  pub method : String
  pub path : String
  pub body : Body

-- What the middleware puts into the request's context.
pub record Identity : Type 0 where
  pub client_id : String
  pub client_name : String
  pub permissions : List String

-- The answer of a middleware: `FailWithCode`, or the next handler with the context's values.
pub data Outcome : Type 0 where
  fail : ℕ → Outcome
  next : Option Identity → Outcome

-- golang-jwt: the claims' client id of a token that is not verified, its signing method, and the
-- claims' client id with `token.Valid` of a token that is parsed with a key.
pub record Jwt (Key : Type 0) : Type 0 where
  pub parse_unverified : String → Option String
  pub alg : String → String
  pub parse_with_key : String → Option Key → Option (String × Bool)

pub data JwtError : Type 0 where
  unparsable unknown_client inactive_client unexpected_method unverified invalid : JwtError

module _ {Key : Type 0} (jwt : Jwt Key) (algorithm : String) where
  -- VerifyJWT of pkg/auth/auth.go; the result is the client id of the verified claims.
  unfoldable pub verify_jwt : String → Registry Key → Result JwtError String
  verify_jwt token r = do
    id ← found_or (jwt.parse_unverified token) unparsable
    (public_key, client) ← found_or (get_client_info id r) unknown_client
    require client.active inactive_client
    require (jwt.alg token == algorithm) unexpected_method
    (verified_id, valid) ← found_or (jwt.parse_with_key token public_key) unverified
    require valid invalid
    ok verified_id

-- `requiredPermission != "" && !HasPermission(…)` fails; otherwise the context is set.
unfoldable pub authorize : String → String → ClientConfig → Outcome
authorize required id client =
    if not (required == "") && not (has_permission client.permissions required)
    then fail code_insufficient_perms
    else next (
        some (record {
          client_id = id;
          client_name = client.client_name;
          permissions = client.permissions;
        }))

module _ {Key : Type 0} (jwt : Jwt Key) (config : AuthConfig) (required : String) where
  unfoldable pub check_token : String → Registry Key → Outcome
  check_token token r = elim (verify_jwt jwt config.algorithm token r) [
    | err _ ↦ fail code_invalid_token
    | ok id ↦ elim (get_client_info id r) [
      | none ↦ fail code_invalid_token
      | some (_, client) ↦ authorize required id client
    ]
  ]

  unfoldable pub jwt_auth : Request → Registry Key → Outcome
  unfolding check_token
  jwt_auth q r =
      if not config.enabled
      then next none
      else if q.authorization == ""
      then fail code_missing_auth
      else elim (strip_prefix "Bearer " q.authorization) [
        | none ↦ fail code_invalid_token
        | some token ↦ if token == "" then fail code_invalid_token else check_token token r
      ]

abbrev pub to_signed : Request → String → SignedRequest
to_signed q body = record {
  client_id = q.x_client_id;
  timestamp_str = q.x_timestamp;
  nonce = q.x_nonce;
  method = q.method;
  path = q.path;
  body = body;
  signature_str = q.x_signature;
}

module _ {Key : Type 0} (crypto : Crypto Key) (config : AuthConfig) (required : String) where
  -- the permission check behind VerifySignature
  conclude : Result SignatureError ClientConfig × AuthState Key → Outcome × AuthState Key
  conclude (err _, s) = (fail code_invalid_signature, s)
  conclude (ok client, s) = (authorize required client.client_id client, s)

  check_body : ℕ → Request → AuthState Key → Outcome × AuthState Key
  unfolding conclude
  check_body now q s = elim q.body [
    | broken ↦ (fail code_bad_request, s)
    | absent ↦ conclude (verify_signature crypto config.algorithm now (to_signed q "") s)
    | content text ↦ conclude (verify_signature crypto config.algorithm now (to_signed q text) s)
  ]

  unfoldable pub signature_auth : ℕ → Request → AuthState Key → Outcome × AuthState Key
  unfolding check_body
  signature_auth now q s =
      if not config.enabled
      then (next none, s)
      else if q.x_client_id == ""
      then (fail code_unauthorized, s)
      else if q.x_timestamp == ""
      then (fail code_expired_signature, s)
      else if q.x_signature == ""
      then (fail code_missing_auth, s)
      else check_body now q s

abbrev is_bearer : Request → Bool
is_bearer q = elim (strip_prefix "Bearer " q.authorization) [ none ↦ false | some _ ↦ true ]

module _ {Key : Type 0} (jwt : Jwt Key) (crypto : Crypto Key) (config : AuthConfig)
    (required : String) where
  unfoldable pub multi_auth : ℕ → Request → AuthState Key → Outcome × AuthState Key
  multi_auth now q s =
      if not config.enabled
      then (next none, s)
      else if not (q.authorization == "") && is_bearer q
      then (jwt_auth jwt config required q s.registry, s)
      else if not (q.x_signature == "")
      then signature_auth crypto config required now q s
      else (fail code_missing_auth, s)
