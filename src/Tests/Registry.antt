-- ===== src/Tests/Registry.antt =====
-- Permissions and the registry at concrete clients.
use mathlib.Core.List.{Memᴰ}
use insight_collector.Prelude.{
  ℕ, String, true, none, some, [], ◌∷◌, ◌==◌, if◌then◌else◌, ◌&&◌, ok, ◌≡◌, ◌↔◌, refl, arith,
}
use insight_collector.Auth.Permissions.{has_permission}
use insight_collector.Auth.Permissions.Grants.{Grants, has_permission_iff}
use insight_collector.Auth.Registry.{
  Registry, no_clients, load_public_key, cache_key, add_client, load_clients, remove_client,
  get_client_info, get_client_secret_key,
}
use insight_collector.Auth.Registry.Entries.{IsConsistent, load_clients-IsConsistent}
use insight_collector.Auth.Registry.Lookup.{
  remove_client-changes, last_active, load_clients-last_active, here, next, removed, Serves,
  Reach-served,
}
use insight_collector.Auth.Service.{stop_auth, reload_auth, init_auth, finish_init, start_cleanup}
use insight_collector.Auth.Service.Lifecycle.{reload_auth-last_active, stop_auth-reload_auth}
use insight_collector.Tests.Data.{loader, hmac_client, rsa_client, clients, registry, config, state}

has_permission_iff_example :
    (has_permission ("admin:logs" ∷ []) "create:logs" ≡ true)
    ↔ ((perm : String) × Memᴰ perm ("admin:logs" ∷ []) × Grants perm "create:logs")
has_permission_iff_example = has_permission_iff ("admin:logs" ∷ []) "create:logs"

load_clients-last_active_example : registry.configs "shop" ≡ last_active "shop" clients none
load_clients-last_active_example =
    load_clients-last_active loader clients no_clients registry "shop"
      (unfold load_clients add_client cache_key load_public_key in refl)

no_clients-IsConsistent : IsConsistent (no_clients {Key = ℕ})
no_clients-IsConsistent id c stored = absurd (ground arith)

registry-IsConsistent : IsConsistent registry
registry-IsConsistent = load_clients-IsConsistent loader clients no_clients no_clients-IsConsistent

abbrev without_app : Registry ℕ
without_app = record {
  public_keys = λ id. if "app" == id then none else registry.public_keys id;
  secret_keys = registry.secret_keys;
  configs = λ id. if "app" == id then none else registry.configs id;
}

removed_app : remove_client "app" registry ≡ ok without_app
unfolding remove_client load_clients add_client cache_key load_public_key
removed_app = refl

abbrev without_shop : Registry ℕ
without_shop = record {
  public_keys = registry.public_keys;
  secret_keys = λ id. if "shop" == id then none else registry.secret_keys id;
  configs = λ id. if "shop" == id then none else registry.configs id;
}

removed_shop : remove_client "shop" registry ≡ ok without_shop
unfolding remove_client load_clients add_client cache_key load_public_key
removed_shop = refl

Reach-served_example : (hmac_client.client_id ≡ "shop") × Serves without_app "shop" hmac_client
Reach-served_example =
    Reach-served loader (next here (removed "app" removed_app)) registry-IsConsistent "shop"
      hmac_client (unfold load_clients add_client cache_key load_public_key in refl)

remove_client-changes_example :
    (get_client_info "shop" without_shop
      ≡ (if "shop" == "shop" then none else get_client_info "shop" registry))
    × (get_client_secret_key "shop" without_shop ≡ (
        if "shop" == "shop" && hmac_client.auth_type == "hmac"
        then none
        else get_client_secret_key "shop" registry))
remove_client-changes_example =
    remove_client-changes "shop" "shop" hmac_client registry without_shop
      (unfold load_clients add_client cache_key load_public_key in refl) removed_shop

abbrev with_app : Registry ℕ
with_app = record {
  public_keys = λ id. if "app" == id then some 7 else none;
  secret_keys = λ id. none;
  configs = λ id. if "app" == id then some rsa_client else none;
}

reloaded : reload_auth loader config state ≡ (ok tt, start_cleanup state)
unfolding reload_auth init_auth finish_init start_cleanup load_clients add_client cache_key
    load_public_key
reloaded = refl

reload_auth-last_active_example :
    ((id : String) → registry.configs id ≡ last_active id clients none)
    × (state.used_nonces ≡ state.used_nonces)
unfolding start_cleanup
reload_auth-last_active_example =
    reload_auth-last_active loader config state (start_cleanup state) refl reloaded

stop_auth-reload_auth_example : (stop_auth (start_cleanup state)).live ≡ 0 ∷ []
stop_auth-reload_auth_example =
    stop_auth-reload_auth loader config state (start_cleanup state) refl reloaded (omega arith, tt)
