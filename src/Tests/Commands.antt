-- ===== src/Tests/Commands.antt =====
-- The client commands at concrete configurations.
use insight_collector.Prelude.{
  ℕ, String, false, none, some, List, [], ◌∷◌, ◌++◌, ◌==◌, ok, err, if◌then◌else◌, ◌≡◌, refl, inl,
  inr, arith, eq_iff,
}
use insight_collector.Text.{split, trim_space}
use insight_collector.Auth.Config.{ClientConfig}
use insight_collector.Auth.Registry.{
  not_found, Registry, no_clients, load_public_key, cache_key, add_client, load_clients, update_key,
  update_client, remove_client, get_client_info,
}
use insight_collector.Cli.Clients.{
  CliState, cache_failed, written, unopened, NewClient, created, save_config, finish_create,
  run_client_create, store_updated, run_client_revoke, run_client_activate,
}
use insight_collector.Cli.Clients.Start.{IsUnique, revoke_and_restart, activate_after_start}
use insight_collector.Cli.Clients.Create.{create_and_restart, create_rollback}
use insight_collector.Tests.Data.{loader, rsa_client, revoked_client, clients, registry}

abbrev started : CliState ℕ
started = record { registry = registry; clients = clients; file = some clients }

abbrev new_client : NewClient
new_client = record {
  name = "Desk";
  auth_type = "hmac";
  permissions = "read:logs, read:users";
  key_path = "";
  client_id = "desk";
  secret_key = "other";
  key_file_exists = false;
}

abbrev with_desk : List ClientConfig
with_desk = clients ++ created new_client ∷ []

abbrev registry_with_desk : Registry ℕ
registry_with_desk = (load_clients loader with_desk no_clients).1

abbrev saved_desk : CliState ℕ
saved_desk = record { registry = registry_with_desk; clients = with_desk; file = some with_desk }

create_and_restart_example :
    (saved_desk.file ≡ some saved_desk.clients)
    × (saved_desk.clients ≡ clients ++ created new_client ∷ [])
    × (registry_with_desk.configs "desk" ≡ some (created new_client))
create_and_restart_example =
    create_and_restart loader written new_client started saved_desk registry_with_desk
      (unfold run_client_create finish_create save_config load_clients add_client cache_key
          load_public_key trim_space split in
        refl)
      (unfold load_clients add_client cache_key load_public_key in refl)

abbrev unsaved_desk : CliState ℕ
unsaved_desk = (run_client_create loader unopened new_client started).1

create_rollback_example :
    (unsaved_desk.clients ≡ clients ++ created new_client ∷ [])
    × ((j : String)
        → get_client_info j unsaved_desk.registry
          ≡ (if "desk" == j then none else get_client_info j registry))
create_rollback_example = create_rollback loader unopened new_client started unsaved_desk (
    unfold run_client_create finish_create save_config load_clients add_client cache_key
      load_public_key remove_client in
    refl)

abbrev revoked : List ClientConfig
revoked = rsa_client ∷ revoked_client ∷ []

abbrev registry_of_app : Registry ℕ
registry_of_app = (load_clients loader revoked no_clients).1

abbrev after_revoke : CliState ℕ
after_revoke = (run_client_revoke loader written "shop" started).1

unique : IsUnique "shop" clients
unique = inr ((λ e. ground (arith, eq_iff "app" "shop")), inl (refl, tt))

revoke_and_restart_example :
    (after_revoke.file ≡ some after_revoke.clients)
    × (get_client_info "shop" registry_of_app ≡ none)
    × ((c : ClientConfig) × (after_revoke.registry.configs "shop" ≡ some c) × (c.active ≡ false))
revoke_and_restart_example =
    revoke_and_restart loader written "shop" started after_revoke registry_of_app unique
      (unfold run_client_revoke store_updated save_config update_client update_key load_clients
          add_client cache_key load_public_key in
        refl)
      (unfold run_client_revoke store_updated save_config update_client update_key load_clients
          add_client cache_key load_public_key in
        refl)

abbrev restarted : CliState ℕ
restarted = record { registry = registry_of_app; clients = revoked; file = some revoked }

is_started : load_clients loader revoked no_clients ≡ (ok tt, registry_of_app)
unfolding load_clients add_client cache_key load_public_key
is_started = refl

activate_after_start_example :
    ((run_client_activate loader written "shop" restarted).0 ≡ err (cache_failed not_found))
    × ((run_client_activate loader written "shop" restarted).1.file ≡ some revoked)
activate_after_start_example =
    activate_after_start loader written "shop" revoked_client restarted is_started refl refl refl
