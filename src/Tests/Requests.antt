-- ===== src/Tests/Requests.antt =====
-- The middlewares and the error codes at concrete requests.
use insight_collector.Prelude.{ℕ, some, [], ◌∷◌, ◌≡◌, refl, arith}
use insight_collector.Text.{split, strip_prefix}
use insight_collector.Auth.Permissions.{has_permission}
use insight_collector.Auth.Registry.{
  no_clients, load_public_key, cache_key, add_client, load_clients, get_client_info,
}
use insight_collector.Auth.Registry.Entries.{IsConsistent, load_clients-IsConsistent}
use insight_collector.Http.Codes.{code_missing_auth}
use insight_collector.Http.Middleware.{
  absent, Request, Identity, fail, next, verify_jwt, authorize, check_token, jwt_auth, multi_auth,
}
use insight_collector.Http.Middleware.Passing.{MayPass, ReadsSameClaims, multi_auth-MayPass}
use insight_collector.Http.Middleware.Refusals.{IsRefusal, multi_auth-IsRefusal}
use insight_collector.Tests.Data.{loader, clients, registry, config, state, crypto, jwt}

abbrev token_request : Request
token_request = record {
  authorization = "Bearer app";
  x_client_id = "";
  x_timestamp = "";
  x_nonce = "";
  x_signature = "";
  method = "GET";
  path = "/v1/logs";
  body = absent;
}

abbrev plain_request : Request
plain_request = record token_request { authorization = "" }

abbrev app : Identity
app = record { client_id = "app"; client_name = "App"; permissions = "admin:logs" ∷ [] }

no_clients-IsConsistent : IsConsistent (no_clients {Key = ℕ})
no_clients-IsConsistent id c stored = absurd (ground arith)

registry-IsConsistent : IsConsistent registry
registry-IsConsistent = load_clients-IsConsistent loader clients no_clients no_clients-IsConsistent

jwt-ReadsSameClaims : ReadsSameClaims jwt
jwt-ReadsSameClaims token key id valid e = ground arith

passed : (multi_auth jwt crypto config "read:logs" 1000 token_request state).0 ≡ next (some app)
unfolding multi_auth strip_prefix jwt_auth check_token verify_jwt get_client_info load_clients
    add_client cache_key load_public_key authorize has_permission split
passed = refl

multi_auth-MayPass_example : MayPass "read:logs" registry app
multi_auth-MayPass_example =
    multi_auth-MayPass jwt crypto config "read:logs" 1000 token_request state app
      registry-IsConsistent jwt-ReadsSameClaims passed

refused :
    (multi_auth jwt crypto config "read:logs" 1000 plain_request state).0 ≡ fail code_missing_auth
unfolding multi_auth
refused = refl

multi_auth-IsRefusal_example : IsRefusal code_missing_auth
multi_auth-IsRefusal_example =
    multi_auth-IsRefusal jwt crypto config "read:logs" 1000 plain_request state code_missing_auth
      refused
