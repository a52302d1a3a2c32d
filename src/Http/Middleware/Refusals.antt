-- ===== src/Http/Middleware/Refusals.antt =====
-- The HTTP statuses with which the middlewares refuse a request.
use insight_collector.Prelude.{
  ℕ, String, Result, ok, err, ◌≡◌, ◌⊎◌, inl, inr, refl, arith, ◌==◌, not, ◌&&◌, Bool-cases,
  Option-cases,
}
use insight_collector.Text.{strip_prefix}
use insight_collector.Http.Codes.{get_http_status_from_code}
use insight_collector.Auth.Config.{ClientConfig, AuthConfig}
use insight_collector.Auth.Registry.{Registry}
use insight_collector.Auth.Service.{AuthState}
use insight_collector.Auth.Signature.{Crypto, SignatureError, verify_signature}
use insight_collector.Http.Middleware.{
  Body, absent, broken, content, Request, fail, Jwt, authorize, check_token, jwt_auth, to_signed,
  conclude, signature_auth, is_bearer, multi_auth,
}

-- The failure code is answered with 400, 401 or 403.
abbrev pub IsRefusal : ℕ → Type 0
IsRefusal c =
    (get_http_status_from_code c ≡ 400)
    ⊎ ((get_http_status_from_code c ≡ 401) ⊎ (get_http_status_from_code c ≡ 403))

authorize-IsRefusal :
    (required id : String) (client : ClientConfig) (c : ℕ)
    → authorize required id client ≡ fail c
    → IsRefusal c
unfolding authorize get_http_status_from_code
authorize-IsRefusal required id client c e = ground arith

module _ {Key : Type 0} (jwt : Jwt Key) (config : AuthConfig) (required : String) where
  check_token-IsRefusal :
      (token : String) (r : Registry Key) (c : ℕ)
      → check_token jwt config required token r ≡ fail c
      → IsRefusal c
  unfolding check_token authorize get_http_status_from_code
  check_token-IsRefusal token r c e = ground arith

  jwt_auth-IsRefusal :
      (q : Request) (r : Registry Key) (c : ℕ)
      → jwt_auth jwt config required q r ≡ fail c
      → IsRefusal c
  jwt_auth-IsRefusal q r c e = elim (Option-cases (strip_prefix "Bearer " q.authorization)) [
    | inl other ↦ unfold jwt_auth get_http_status_from_code in ground arith
    | inr (token, bearer) ↦
        unfold jwt_auth get_http_status_from_code in ground (arith, check_token-IsRefusal token r c)
  ]

module _ {Key : Type 0} (crypto : Crypto Key) (config : AuthConfig) (required : String) where
  conclude-IsRefusal :
      (verdict : Result SignatureError ClientConfig × AuthState Key) (c : ℕ)
      → (conclude crypto config required verdict).0 ≡ fail c
      → IsRefusal c
  unfolding conclude
  conclude-IsRefusal (ok client, s) c e = authorize-IsRefusal required client.client_id client c e
  conclude-IsRefusal (err x, s) c e = unfold get_http_status_from_code in ground arith

  signature_auth-IsRefusal :
      (now : ℕ) (q : Request) (s : AuthState Key) (b : Body) (c : ℕ)
      → q.body ≡ b
      → (signature_auth crypto config required now q s).0 ≡ fail c
      → IsRefusal c
  unfolding signature_auth
  signature_auth-IsRefusal now q s absent c b e =
      unfold get_http_status_from_code in
      ground (
        arith,
        conclude-IsRefusal (verify_signature crypto config.algorithm now (to_signed q "") s) c,
      )
  signature_auth-IsRefusal now q s broken c b e = unfold get_http_status_from_code in ground arith
  signature_auth-IsRefusal now q s (content text) c b e =
      unfold get_http_status_from_code in
      ground (
        arith,
        conclude-IsRefusal (verify_signature crypto config.algorithm now (to_signed q text) s) c,
      )

-- A request that MultiAuthMiddleware refuses is answered with the HTTP status 400, 401 or 403.
pub multi_auth-IsRefusal :
    {Key : Type 0} (jwt : Jwt Key) (crypto : Crypto Key) (config : AuthConfig) (required : String)
    (now : ℕ) (q : Request) (s : AuthState Key) (c : ℕ)
    → (multi_auth jwt crypto config required now q s).0 ≡ fail c
    → IsRefusal c
unfolding multi_auth
multi_auth-IsRefusal jwt crypto config required now q s c e =
    elim (Bool-cases (not (q.authorization == "") && is_bearer q)) [
      | inl bearer ↦ jwt_auth-IsRefusal jwt config required q s.registry c (ground arith)
      | inr other ↦ elim (Bool-cases (not (q.x_signature == ""))) [
        | inl signed ↦
            signature_auth-IsRefusal crypto config required now q s q.body c refl (ground arith)
        | inr missing ↦ unfold get_http_status_from_code in ground arith
      ]
    ]
