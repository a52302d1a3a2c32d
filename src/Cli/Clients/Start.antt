-- ===== src/Cli/Clients/Start.antt =====
-- The client commands across processes: a command runs in a process whose start has loaded the
-- active clients of the file, and the next start loads what the command has written.
use insight_collector.Prelude.{
  String, true, false, ◌&&◌, Option, none, some, List, [], ◌∷◌, ◌==◌, ok, err, if◌then◌else◌, ◌≡◌,
  ◌≢◌, ◌⊎◌, inl, inr, refl, sym, ap, ◌∙◌, arith, eq_iff, eq_refl, All, Option-cases, Result-cases,
}
use insight_collector.Auth.Config.{ClientConfig}
use insight_collector.Auth.Registry.{
  not_found, KeyLoader, Registry, no_clients, load_clients, update_client, remove_client,
  get_client_info,
}
use insight_collector.Auth.Registry.Lookup.{last_active, load_clients-last_active}
use insight_collector.Cli.Clients.{
  CliState, cache_failed, Done, changed, Write, written, unopened, broken_off, find_client,
  replace_first, save_config, store_updated, run_client_revoke, run_client_activate,
  run_client_delete,
}

-- No entry has the id.
abbrev pub IsAbsent : String → List ClientConfig → Type 0
IsAbsent id = All (λ c. c.client_id ≢ id)

-- One entry at most has the id.
abbrev pub IsUnique : String → List ClientConfig → Type 0
IsUnique id [] = Unit
IsUnique id (c ∷ cs) = ((c.client_id ≡ id) × IsAbsent id cs) ⊎ ((c.client_id ≢ id) × IsUnique id cs)

pub find_client-client_id :
    (id : String) (cs : List ClientConfig) (c : ClientConfig)
    → find_client id cs ≡ some c
    → c.client_id ≡ id
find_client-client_id id [] c e = cc
find_client-client_id id (d ∷ ds) c e =
    ground (arith, eq_iff d.client_id id, find_client-client_id id ds c)

last_active_of_absent :
    (id : String) (cs : List ClientConfig) (before : Option ClientConfig)
    → IsAbsent id cs
    → last_active id cs before ≡ before
last_active_of_absent id [] before h = refl
last_active_of_absent id (c ∷ cs) before (ne, h) =
    let same : (if c.active && c.client_id == id then some c else before) ≡ before =
      ground (arith, eq_iff c.client_id id) in
    rw same (last_active_of_absent id cs before h)

-- What the next start finds under an id whose only entry was replaced.
last_active-replace_first :
    (id : String) (new c : ClientConfig) (cs : List ClientConfig) (before : Option ClientConfig)
    → IsUnique id cs
    → find_client id cs ≡ some c
    → new.client_id ≡ id
    → last_active id (replace_first id new cs) before ≡ (if new.active then some new else before)
last_active-replace_first id new c [] before h e k = cc
last_active-replace_first id new c (d ∷ ds) before (inl (same, absent)) e k = ground (
  arith,
  eq_iff d.client_id id,
  eq_iff new.client_id id,
  last_active_of_absent id ds before absent,
  last_active_of_absent id ds (some new) absent,
)
last_active-replace_first id new c (d ∷ ds) before (inr (other, unique)) e k =
    ground (arith, eq_iff d.client_id id, last_active-replace_first id new c ds before unique)

module _ {Key : Type 0} (loader : KeyLoader Key) where
  -- What a start has loaded for an id without an active entry.
  pub start_without :
      (cs : List ClientConfig) (r : Registry Key) (id : String)
      → load_clients loader cs no_clients ≡ (ok tt, r)
      → last_active id cs none ≡ none
      → r.configs id ≡ none
  start_without cs r id started none_active =
      load_clients-last_active loader cs no_clients r id started ∙ none_active

  update_unknown :
      (c : ClientConfig) (r : Registry Key)
      → r.configs c.client_id ≡ none
      → update_client loader c r ≡ err not_found
  unfolding update_client
  update_unknown c r e = ground arith

  -- A client without an active entry cannot be activated in a fresh process: the start has loaded
  -- no such client, the update of the registry fails, and the file stays as it is.
  pub activate_after_start :
      (how : Write) (id : String) (c : ClientConfig) (s : CliState Key)
      → load_clients loader s.clients no_clients ≡ (ok tt, s.registry)
      → last_active id s.clients none ≡ none
      → find_client id s.clients ≡ some c
      → c.active ≡ false
      → ((run_client_activate loader how id s).0 ≡ err (cache_failed not_found))
        × ((run_client_activate loader how id s).1.file ≡ s.file)
  unfolding run_client_activate
  activate_after_start how id c s started none_active found revoked =
      let missing = start_without s.clients s.registry id started none_active in
      let named = find_client-client_id id s.clients c found in
      let refused =
        update_unknown (record c { active = true }) s.registry
          (ap s.registry.configs named ∙ missing) in
      ground arith

  -- Nor can such a client be deleted.
  pub delete_after_start :
      (how : Write) (id : String) (c : ClientConfig) (s : CliState Key)
      → load_clients loader s.clients no_clients ≡ (ok tt, s.registry)
      → last_active id s.clients none ≡ none
      → find_client id s.clients ≡ some c
      → run_client_delete how true id s ≡ (err (cache_failed not_found), s)
  unfolding run_client_delete remove_client
  delete_after_start how id c s started none_active found =
      let missing = start_without s.clients s.registry id started none_active in ground arith

  save_config-ok :
      (how : Write) (s s' : CliState Key) (d : Done)
      → save_config how s ≡ (ok d, s')
      → s' ≡ record s { file = some s.clients }
  unfolding save_config
  save_config-ok written s s' d e = cc
  save_config-ok unopened s s' d e = cc
  save_config-ok broken_off s s' d e = cc

  store_updated-ok :
      (how : Write) (id : String) (new : ClientConfig) (s s' : CliState Key) (d : Done)
      → store_updated loader how id new s ≡ (ok d, s')
      → (s'.clients ≡ replace_first id new s.clients)
        × (s'.file ≡ some s'.clients)
        × (update_client loader new s.registry ≡ ok s'.registry)
  unfolding store_updated
  store_updated-ok how id new s s' d e = elim (Result-cases (update_client loader new s.registry)) [
    | inr (x, bad) ↦ absurd (ground arith)
    | inl (r, updated) ↦
        let same =
          save_config-ok how (record s { registry = r; clients = replace_first id new s.clients })
            s' d (ground arith) in
        (ground arith, ground arith, ground arith)
  ]

  updated_config :
      (c : ClientConfig) (r r' : Registry Key)
      → update_client loader c r ≡ ok r'
      → r'.configs c.client_id ≡ some c
  unfolding update_client
  updated_config c r r' e = ground (arith, eq_refl c.client_id)

  unknown_of_absent :
      (r : Registry Key) (id : String) → r.configs id ≡ none → get_client_info id r ≡ none
  unfolding get_client_info
  unknown_of_absent r id e = ground arith

  -- A revocation that has changed something has written the file, and the client is gone from the
  -- next start: its id, which the file holds once, is then unknown. In the process of the command
  -- the client is stored as inactive.
  pub revoke_and_restart :
      (how : Write) (id : String) (s s' : CliState Key) (r : Registry Key)
      → IsUnique id s.clients
      → run_client_revoke loader how id s ≡ (ok changed, s')
      → load_clients loader s'.clients no_clients ≡ (ok tt, r)
      → (s'.file ≡ some s'.clients)
        × (get_client_info id r ≡ none)
        × ((c : ClientConfig) × (s'.registry.configs id ≡ some c) × (c.active ≡ false))
  unfolding run_client_revoke
  revoke_and_restart how id s s' r unique revoked restarted =
      elim (Option-cases (find_client id s.clients)) [
        | inl missing ↦ absurd (ground arith)
        | inr (c, found) ↦
            let new = record c { active = false } in
            let named = find_client-client_id id s.clients c found in
            let (clients, file, updated) =
              store_updated-ok how id new s s' changed (ground arith) in
            let gone = last_active-replace_first id new c s.clients none unique found named in
            let absent =
              start_without s'.clients r id restarted
                (ap (λ cs. last_active id cs none) clients ∙ gone) in
            let stored = updated_config new s.registry s'.registry updated in
            (
              file,
              unknown_of_absent r id absent,
              (new, sym (ap s'.registry.configs named) ∙ stored, refl),
            )
      ]
