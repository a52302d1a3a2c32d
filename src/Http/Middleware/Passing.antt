-- ===== src/Http/Middleware/Passing.antt =====
-- Which requests the middlewares let through to a handler, and how they refuse the others.
use insight_collector.Prelude.{
  ℕ, String, Bool, true, false, ◌&&◌, not, Option, none, some, ◌==◌, Result, ok, err, ◌≡◌, ◌⊎◌, ◌↔◌,
  inl, inr, refl, ap, ◌∙◌, arith, eq_iff, Option-cases, Result-cases, Bool-cases,
}
use insight_collector.Text.{strip_prefix}
use insight_collector.Auth.Config.{ClientConfig, AuthConfig}
use insight_collector.Auth.Permissions.{has_permission}
use insight_collector.Auth.Registry.{Registry, get_client_info}
use insight_collector.Auth.Registry.Entries.{IsConsistent}
use insight_collector.Auth.Service.{AuthState}
use insight_collector.Auth.Signature.{Crypto, SignatureError, SignedRequest, verify_signature}
use insight_collector.Auth.Signature.Verified.{verify_signature-IsAccepted}
use insight_collector.Http.Middleware.{
  Body, absent, broken, content, Request, Identity, next, Jwt, verify_jwt, authorize, jwt_auth,
  to_signed, conclude, signature_auth, is_bearer, multi_auth,
}

-- The client of an id is active and has the required permission, if one is required.
pub record MayPass {Key : Type 0} (required : String) (r : Registry Key) (who : Identity)
    : Type 0 where
  pub client : ClientConfig
  pub key : Option Key
  pub known : get_client_info who.client_id r ≡ some (key, client)
  pub active : client.active ≡ true
  pub permitted : (required ≡ "") ⊎ (has_permission client.permissions required ≡ true)
  pub name : who.client_name ≡ client.client_name
  pub permissions : who.permissions ≡ client.permissions

-- Both parses of a token read the same claims.
abbrev pub ReadsSameClaims : {Key : Type 0} → Jwt Key → Type 0
ReadsSameClaims {Key} jwt =
    (token : String) (key : Option Key) (id : String) (valid : Bool)
    → jwt.parse_with_key token key ≡ some (id, valid)
    → jwt.parse_unverified token ≡ some id

authorize-next :
    {Key : Type 0} (r : Registry Key) (required id : String) (client : ClientConfig)
    (key : Option Key) (who : Identity)
    → authorize required id client ≡ next (some who)
    → get_client_info id r ≡ some (key, client)
    → client.active ≡ true
    → MayPass required r who
unfolding authorize
authorize-next r required id client key who e known active =
    let same : who ≡ record {
      client_id = id;
      client_name = client.client_name;
      permissions = client.permissions;
    } =
      ground arith in
    record {
      client = client;
      key = key;
      known = ap (λ (w : Identity). get_client_info w.client_id r) same ∙ known;
      active = active;
      permitted = ground (arith, eq_iff required "");
      name = ground arith;
      permissions = ground arith;
    }

module _ {Key : Type 0} (jwt : Jwt Key) (algorithm : String) (reads : ReadsSameClaims jwt) where
  -- A verified token names an active client, whose key the token was parsed with.
  verify_jwt-ok :
      (token : String) (r : Registry Key) (id : String)
      → verify_jwt jwt algorithm token r ≡ ok id
      → (key : Option Key) × (client : ClientConfig) × (get_client_info id r ≡ some (key, client))
        × (client.active ≡ true)
        × (jwt.alg token ≡ algorithm)
        × (jwt.parse_with_key token key ≡ some (id, true))
  unfolding verify_jwt
  verify_jwt-ok token r id e = elim (Option-cases (jwt.parse_unverified token)) [
    | inl missing ↦ absurd (ground arith)
    | inr (claimed, p) ↦ elim (Option-cases (get_client_info claimed r)) [
      | inl missing ↦ absurd (ground arith)
      | inr ((key, client), known) ↦ elim (Option-cases (jwt.parse_with_key token key)) [
        | inl missing ↦ absurd (ground arith)
        | inr ((verified_id, valid), verified) ↦
            let again = reads token key verified_id valid verified in
            let same : id ≡ verified_id = ground arith in
            let claims : claimed ≡ verified_id = ground arith in
            let holds : valid ≡ true = ground arith in
            (
              key,
              client,
              rw (same, ← claims) known,
              ground arith,
              ground (arith, eq_iff (jwt.alg token) algorithm),
              rw (same, ← holds) verified,
            )
      ]
    ]
  ]

jwt_auth-MayPass :
    {Key : Type 0} (jwt : Jwt Key) (config : AuthConfig) (required : String) (q : Request)
    (r : Registry Key) (who : Identity)
    → ReadsSameClaims jwt
    → jwt_auth jwt config required q r ≡ next (some who)
    → MayPass required r who
unfolding jwt_auth
jwt_auth-MayPass jwt config required q r who reads e =
    elim (Option-cases (strip_prefix "Bearer " q.authorization)) [
      | inl other ↦ absurd (ground arith)
      | inr (token, bearer) ↦ elim (Result-cases (verify_jwt jwt config.algorithm token r)) [
        | inr (x, bad) ↦ absurd (ground arith)
        | inl (id, verified) ↦
            let (key, client, known, active, method, proof) =
              verify_jwt-ok jwt config.algorithm reads token r id verified in
            authorize-next r required id client key who (ground arith) known active
      ]
    ]

stored_of_info :
    {Key : Type 0} (id : String) (r : Registry Key) (key : Option Key) (client : ClientConfig)
    → get_client_info id r ≡ some (key, client)
    → r.configs id ≡ some client
unfolding get_client_info
stored_of_info id r key client e = ground arith

module _ {Key : Type 0} (crypto : Crypto Key) (config : AuthConfig) (required : String) where
  conclude-next :
      (verdict : Result SignatureError ClientConfig × AuthState Key) (who : Identity)
      → (conclude crypto config required verdict).0 ≡ next (some who)
      → (client : ClientConfig) × (verdict.0 ≡ ok client)
        × (authorize required client.client_id client ≡ next (some who))
  unfolding conclude
  conclude-next (ok client, s) who e = (client, refl, e)
  conclude-next (err x, s) who e = cc

  conclude-MayPass :
      (now : ℕ) (q : SignedRequest) (s : AuthState Key) (who : Identity)
      → IsConsistent s.registry
      → (conclude crypto config required (verify_signature crypto config.algorithm now q s)).0
        ≡ next (some who)
      → MayPass required s.registry who
  conclude-MayPass now q s who inv e =
      let (client, verified, authorized) = conclude-next _ who e in
      let a = verify_signature-IsAccepted crypto config.algorithm now q s client verified in
      let (same, _) =
        inv q.client_id client (stored_of_info q.client_id s.registry a.key client a.known) in
      authorize-next s.registry required client.client_id client a.key who authorized
        (rw same a.known) a.active

  body_text :
      (now : ℕ) (q : Request) (s : AuthState Key) (who : Identity) (b : Body)
      → q.body ≡ b
      → (signature_auth crypto config required now q s).0 ≡ next (some who)
      → (text : String) × ((conclude crypto config required
            (verify_signature crypto config.algorithm now (to_signed q text) s)).0
          ≡ next (some who))
  unfolding signature_auth
  body_text now q s who absent b e = ("", ground arith)
  body_text now q s who broken b e = absurd (ground arith)
  body_text now q s who (content text) b e = (text, ground arith)

  signature_auth-MayPass :
      (now : ℕ) (q : Request) (s : AuthState Key) (who : Identity)
      → IsConsistent s.registry
      → (signature_auth crypto config required now q s).0 ≡ next (some who)
      → MayPass required s.registry who
  signature_auth-MayPass now q s who inv e =
      let (text, passed) = body_text now q s who q.body refl e in
      conclude-MayPass now (to_signed q text) s who inv passed

-- The identity that MultiAuthMiddleware hands to a handler is that of an active client that holds
-- the required permission, with the name and the permissions of the registry. This rests on a
-- registry that stores every client under its own id, and on a JWT library that reads the same
-- claims with and without verification.
pub multi_auth-MayPass :
    {Key : Type 0} (jwt : Jwt Key) (crypto : Crypto Key) (config : AuthConfig) (required : String)
    (now : ℕ) (q : Request) (s : AuthState Key) (who : Identity)
    → IsConsistent s.registry
    → ReadsSameClaims jwt
    → (multi_auth jwt crypto config required now q s).0 ≡ next (some who)
    → MayPass required s.registry who
unfolding multi_auth
multi_auth-MayPass jwt crypto config required now q s who inv reads e =
    elim (Bool-cases (not (q.authorization == "") && is_bearer q)) [
      | inl bearer ↦ jwt_auth-MayPass jwt config required q s.registry who reads (ground arith)
      | inr other ↦ signature_auth-MayPass crypto config required now q s who inv (ground arith)
    ]

-- MultiAuthMiddleware hands a request on without an identity exactly when authentication is off,
-- and then leaves the authentication state as it is.
pub multi_auth-next-none_iff :
    {Key : Type 0} (jwt : Jwt Key) (crypto : Crypto Key) (config : AuthConfig) (required : String)
    (now : ℕ) (q : Request) (s : AuthState Key)
    → (multi_auth jwt crypto config required now q s ≡ (next none, s)) ↔ (config.enabled ≡ false)
unfolding multi_auth jwt_auth signature_auth authorize
multi_auth-next-none_iff jwt crypto config required now q s = (λ h. ground arith, λ h. ground arith)
