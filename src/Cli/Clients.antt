-- ===== src/Cli/Clients.antt =====
-- cmd/client.go: the commands that manage clients. Each changes the registry of its own process
-- and the configuration, which `saveConfig` writes to the file.
pub mod Start
pub mod Create
use insight_collector.Prelude.{
  ℕ, String, Bool, true, false, ◌&&◌, not, Option, none, some, List, [], ◌∷◌, ◌++◌, map, ◌==◌,
  Result, ok, err, if◌then◌else◌,
}
use insight_collector.Text.{split, trim_space}
use insight_collector.Auth.Config.{ClientConfig}
use insight_collector.Auth.Registry.{
  AuthError, KeyLoader, Registry, add_client, update_client, remove_client,
}

-- The registry, `config.Get().Auth.Clients`, and the clients in the file, which holds no
-- configuration after a write that broke off.
pub record CliState (Key : Type 0) : Type 0 where
  pub registry : Registry Key
  pub clients : List ClientConfig
  pub file : Option (List ClientConfig)

pub data CliError : Type 0 where
  invalid_type missing_key_path missing_key_file client_not_found hmac_only save_failed : CliError
  cache_failed : AuthError → CliError

-- What a command that returns no error has done.
pub data Done : Type 0 where
  changed unchanged : Done

-- How a write of the file goes: it succeeds, the file does not open, or, once it is truncated, the
-- encoder fails.
pub data Write : Type 0 where
  written unopened broken_off : Write

-- The arguments of `client create`, with the random id and secret key, and whether the key file
-- exists.
pub record NewClient : Type 0 where
  pub name : String
  pub auth_type : String
  pub permissions : String
  pub key_path : String
  pub client_id : String
  pub secret_key : String
  pub key_file_exists : Bool

abbrev pub find_client : String → List ClientConfig → Option ClientConfig
find_client id [] = none
find_client id (c ∷ cs) = if c.client_id == id then some c else find_client id cs

-- `cfg.Auth.Clients[i] = c` at the first entry of the id
abbrev pub replace_first : String → ClientConfig → List ClientConfig → List ClientConfig
replace_first id new [] = []
replace_first id new (c ∷ cs) = if c.client_id == id then new ∷ cs else c ∷ replace_first id new cs

abbrev pub remove_first : String → List ClientConfig → List ClientConfig
remove_first id [] = []
remove_first id (c ∷ cs) = if c.client_id == id then cs else c ∷ remove_first id cs

abbrev pub created : NewClient → ClientConfig
created a = record {
  client_id = a.client_id;
  client_name = a.name;
  auth_type = a.auth_type;
  key_path = if a.auth_type == "rsa" then a.key_path else "";
  secret_key = if a.auth_type == "rsa" then "" else a.secret_key;
  permissions = map trim_space (split "," a.permissions);
  active = true;
}

module _ {Key : Type 0} where
  unfoldable pub save_config : Write → CliState Key → Result CliError Done × CliState Key
  save_config written s = (ok changed, record s { file = some s.clients })
  save_config unopened s = (err save_failed, s)
  save_config broken_off s = (err save_failed, record s { file = none })

  module _ (loader : KeyLoader Key) (how : Write) where
    -- A save that fails takes the client out of the registry again.
    unfoldable pub finish_create :
        String → Result CliError Done × CliState Key → Result CliError Done × CliState Key
    finish_create id (ok d, s) = (ok d, s)
    finish_create id (err e, s) = elim (remove_client id s.registry) [
      | ok r ↦ (err e, record s { registry = r })
      | err _ ↦ (err e, s)
    ]

    unfoldable pub run_client_create :
        NewClient → CliState Key → Result CliError Done × CliState Key
    unfolding finish_create
    run_client_create a s =
        if not (a.auth_type == "rsa") && not (a.auth_type == "hmac")
        then (err invalid_type, s)
        else if a.auth_type == "rsa" && a.key_path == ""
        then (err missing_key_path, s)
        else if a.auth_type == "rsa" && not a.key_file_exists
        then (err missing_key_file, s)
        else elim (add_client loader (created a) s.registry) [
          | err e ↦ (err (cache_failed e), s)
          | ok r ↦
              finish_create a.client_id
                (save_config how (record s { registry = r; clients = s.clients ++ created a ∷ [] }))
        ]

    -- The changed entry goes to the configuration, to the registry, and to the file.
    unfoldable pub store_updated :
        String → ClientConfig → CliState Key → Result CliError Done × CliState Key
    store_updated id new s =
        let clients' = replace_first id new s.clients in
        elim (update_client loader new s.registry) [
          | err e ↦ (err (cache_failed e), record s { clients = clients' })
          | ok r ↦ save_config how (record s { registry = r; clients = clients' })
        ]

    unfoldable pub run_client_revoke : String → CliState Key → Result CliError Done × CliState Key
    unfolding store_updated
    run_client_revoke id s = elim (find_client id s.clients) [
      | none ↦ (err client_not_found, s)
      | some c ↦
          if not c.active
          then (ok unchanged, s)
          else store_updated id (record c { active = false }) s
    ]

    unfoldable pub run_client_activate : String → CliState Key → Result CliError Done × CliState Key
    unfolding store_updated
    run_client_activate id s = elim (find_client id s.clients) [
      | none ↦ (err client_not_found, s)
      | some c ↦
          if c.active then (ok unchanged, s) else store_updated id (record c { active = true }) s
    ]

    unfoldable pub run_client_regenerate :
        String → String → CliState Key → Result CliError Done × CliState Key
    unfolding store_updated
    run_client_regenerate id new_secret_key s = elim (find_client id s.clients) [
      | none ↦ (err client_not_found, s)
      | some c ↦
          if not (c.auth_type == "hmac")
          then (err hmac_only, s)
          else store_updated id (record c { secret_key = new_secret_key }) s
    ]

  -- `confirmed` is the answer to the question, or the force flag.
  unfoldable pub run_client_delete :
      Write → Bool → String → CliState Key → Result CliError Done × CliState Key
  run_client_delete how confirmed id s = elim (find_client id s.clients) [
    | none ↦ (err client_not_found, s)
    | some c ↦ if not confirmed then (ok unchanged, s) else elim (remove_client id s.registry) [
      | err e ↦ (err (cache_failed e), s)
      | ok r ↦ save_config how (record s { registry = r; clients = remove_first id s.clients })
    ]
  ]
