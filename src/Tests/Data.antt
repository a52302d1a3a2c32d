-- ===== src/Tests/Data.antt =====
-- The clients, the key files and the libraries of the examples. A key is a number.

use insight_collector.Prelude.{
  zero, suc, ◌+◌, code, ◌≡◌, refl, arith, ◌∙◌, ap, ℕ, ◌==◌, String, true, false, none, some, List,
  [], ◌∷◌, empty, if◌then◌else◌, eqb,
}
use insight_collector.Auth.Config.{ClientConfig, AuthConfig}
use insight_collector.Auth.Registry.{KeyLoader, Registry, no_clients, load_clients}
use insight_collector.Auth.Service.{AuthState}
use insight_collector.Auth.Signature.{Crypto, SignedRequest}
use insight_collector.Http.Middleware.{Jwt}

abbrev pub loader : KeyLoader ℕ
loader = record {
  read_file = λ path. if path == "app.pem" then some "seven" else none;
  parse_rsa_public_key = λ text. if text == "seven" then some 7 else none;
}

abbrev pub hmac_client : ClientConfig
hmac_client = record {
  client_id = "shop";
  client_name = "Shop";
  auth_type = "hmac";
  key_path = "";
  secret_key = "s3cret";
  permissions = "read:logs" ∷ [];
  active = true;
}

abbrev pub rsa_client : ClientConfig
rsa_client = record {
  client_id = "app";
  client_name = "App";
  auth_type = "rsa";
  key_path = "app.pem";
  secret_key = "";
  permissions = "admin:logs" ∷ [];
  active = true;
}

abbrev pub revoked_client : ClientConfig
revoked_client = record hmac_client { active = false }

abbrev pub clients : List ClientConfig
clients = rsa_client ∷ hmac_client ∷ []

-- The registry after the start
abbrev pub registry : Registry ℕ
registry = (load_clients loader clients no_clients).1

abbrev pub config : AuthConfig
config = record { enabled = true; algorithm = "HS256"; clients = clients }

abbrev pub state : AuthState ℕ
state = record {
  registry = registry;
  used_nonces = empty;
  started = 1;
  live = 0 ∷ [];
  cleanup_cancel = some 0;
}

-- A coding of bytes: a number is as many letters "a", with a "b" behind them.
abbrev pub unary : ℕ → String → String
unary zero s = s
unary (suc n) s = String.◌∷◌ "a" (unary n s)

abbrev pub encode : List ℕ → String
encode [] = ""
encode (n ∷ ns) = unary n (String.◌∷◌ "b" (encode ns))

unfoldable pub decode_from : ℕ → String → List ℕ
decode_from n String.[] = []
decode_from n (String.◌∷◌ c s) =
    let here = decode_from (n + 1) s in
    let after = decode_from 0 s in if eqb (code c) (code "a") then here else n ∷ after

decode-unary :
    (n m : ℕ) (ns : List ℕ)
    → decode_from 0 (encode ns) ≡ ns
    → decode_from m (unary n (String.◌∷◌ "b" (encode ns))) ≡ (n + m) ∷ ns
unfolding decode_from
decode-unary zero m ns rest = ground (arith, rest)
decode-unary (suc n) m ns rest = decode-unary n (m + 1) ns rest ∙ ap (λ k. k ∷ ns) (omega arith)

decode-encode : (ns : List ℕ) → decode_from 0 (encode ns) ≡ ns
decode-encode [] = unfold decode_from in refl
decode-encode (n ∷ ns) = decode-unary n 0 ns (decode-encode ns) ∙ ap (λ k. k ∷ ns) (omega arith)

pub decodes : (ns : List ℕ) → some (decode_from 0 (encode ns)) ≡ some ns
decodes ns = ap some (decode-encode ns)

-- Codes that depend on the secret key and the key only
abbrev pub crypto : Crypto ℕ
crypto = record {
  marshal = λ p. p.body;
  digest = λ h text. 1 ∷ [];
  hmac = λ h secret text. if secret == "s3cret" then 2 ∷ 1 ∷ [] else 0 ∷ [];
  rsa_verify = λ key h digest signature. eqb key 7;
  encode = encode;
  decode = λ text. some (decode_from 0 text);
}

abbrev pub signed_request : SignedRequest
signed_request = record {
  client_id = "shop";
  timestamp_str = "1000";
  nonce = "n1";
  method = "GET";
  path = "/v1/logs";
  body = "";
  signature_str = "aabab";
}

-- A token is the client id.
abbrev pub jwt : Jwt ℕ
jwt = record {
  parse_unverified = λ token. some token;
  alg = λ token. "HS256";
  parse_with_key = λ token key. some (token, true);
}
