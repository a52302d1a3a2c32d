-- ===== src/Cli/Clients/Create.antt =====
-- `client create`: what it leaves behind when it succeeds, and when the file cannot be written.
use insight_collector.Prelude.{
  String, Bool, true, false, ◌&&◌, Option, none, some, List, [], ◌∷◌, ◌++◌, ◌==◌, ok, err,
  if◌then◌else◌, ◌≡◌, ◌≢◌, inl, inr, refl, ap, ◌∙◌, arith, eq_iff, eq_refl, Result-cases,
}
use insight_collector.Auth.Config.{ClientConfig}
use insight_collector.Auth.Registry.{
  AuthError, KeyLoader, Registry, no_clients, add_client, load_clients, remove_client,
  get_client_info,
}
use insight_collector.Auth.Registry.Lookup.{
  last_active, load_clients-last_active, remove_client-changes, get_client_info-add_client,
}
use insight_collector.Cli.Clients.{
  CliState, save_failed, changed, Write, written, unopened, broken_off, NewClient, created,
  save_config, finish_create, run_client_create,
}

last_active-append :
    (id : String) (cs : List ClientConfig) (c : ClientConfig) (before : Option ClientConfig)
    → c.active ≡ true
    → c.client_id ≡ id
    → last_active id (cs ++ c ∷ []) before ≡ some c
last_active-append id [] c before on same = ground (arith, eq_iff c.client_id id)
last_active-append id (d ∷ ds) c before on same =
    last_active-append id ds c (if d.active && d.client_id == id then some d else before) on same

if_twice :
    {A : Type 0} (b : Bool) (x y z : A)
    → (if b then x else if b then y else z) ≡ (if b then x else z)
if_twice true x y z = refl
if_twice false x y z = refl

module _ {Key : Type 0} (loader : KeyLoader Key) where
  finished :
      (how : Write) (id : String) (s s' : CliState Key)
      → finish_create loader how id (save_config how s) ≡ (ok changed, s')
      → (s'.file ≡ some s'.clients) × (s'.clients ≡ s.clients)
  unfolding save_config finish_create
  finished written id s s' e = ground arith
  finished unopened id s s' e = elim (Result-cases (remove_client id s.registry)) [
    | inl (r, done) ↦ absurd (ground arith)
    | inr (x, bad) ↦ absurd (ground arith)
  ]
  finished broken_off id s s' e = elim (Result-cases (remove_client id s.registry)) [
    | inl (r, done) ↦ absurd (ground arith)
    | inr (x, bad) ↦ absurd (ground arith)
  ]

  -- A creation that succeeds has written the file with the new client at its end, and the next
  -- start finds the client under its id.
  pub create_and_restart :
      (how : Write) (a : NewClient) (s s' : CliState Key) (r : Registry Key)
      → run_client_create loader how a s ≡ (ok changed, s')
      → load_clients loader s'.clients no_clients ≡ (ok tt, r)
      → (s'.file ≡ some s'.clients)
        × (s'.clients ≡ s.clients ++ created a ∷ [])
        × (r.configs a.client_id ≡ some (created a))
  unfolding run_client_create
  create_and_restart how a s s' r e started =
      elim (Result-cases (add_client loader (created a) s.registry)) [
        | inl (q, added) ↦
            let before = record s { registry = q; clients = s.clients ++ created a ∷ [] } in
            let (file, same) = finished how a.client_id before s' (ground arith) in
            let last = last_active-append a.client_id s.clients (created a) none refl refl in
            let loaded =
              load_clients-last_active loader s'.clients no_clients r a.client_id started in
            (file, same, loaded ∙ ap (λ cs. last_active a.client_id cs none) same ∙ last)
        | inr (x, bad) ↦ absurd (ground arith)
      ]

  stored :
      (a : NewClient) (r q : Registry Key)
      → add_client loader (created a) r ≡ ok q
      → q.configs a.client_id ≡ some (created a)
  unfolding add_client
  stored a r q e = ground (arith, eq_refl a.client_id)

  removable :
      (id : String) (c : ClientConfig) (r : Registry Key) (x : AuthError)
      → r.configs id ≡ some c
      → remove_client id r ≢ err x
  unfolding remove_client
  removable id c r x found e = ground arith

  rolled_back :
      (how : Write) (id : String) (s s' : CliState Key) (r : Registry Key)
      → remove_client id s.registry ≡ ok r
      → finish_create loader how id (save_config how s) ≡ (err save_failed, s')
      → (s'.clients ≡ s.clients) × (s'.registry ≡ r)
  unfolding save_config finish_create
  rolled_back written id s s' r e f = absurd (ground arith)
  rolled_back unopened id s s' r e f = ground arith
  rolled_back broken_off id s s' r e f = ground arith

  -- A creation whose file cannot be written leaves the id unknown in the registry and the lookup of
  -- every other id as it was. The entry stays at the end of the configuration in memory.
  pub create_rollback :
      (how : Write) (a : NewClient) (s s' : CliState Key)
      → run_client_create loader how a s ≡ (err save_failed, s')
      → (s'.clients ≡ s.clients ++ created a ∷ [])
        × ((j : String)
            → get_client_info j s'.registry
              ≡ (if a.client_id == j then none else get_client_info j s.registry))
  unfolding run_client_create
  create_rollback how a s s' e = elim (Result-cases (add_client loader (created a) s.registry)) [
    | inr (x, bad) ↦ absurd (ground arith)
    | inl (q, added) ↦ elim (Result-cases (remove_client a.client_id q)) [
      | inr (x, bad) ↦
          absurd (removable a.client_id (created a) q x (stored a s.registry q added) bad)
      | inl (r, gone) ↦
          let before = record s { registry = q; clients = s.clients ++ created a ∷ [] } in
          let (same, back) = rolled_back how a.client_id before s' r gone (ground arith) in
          let (key, is_key, info) =
            get_client_info-add_client loader (created a) s.registry q added in
          (
            same,
            λ j.
                ap (get_client_info j) back
                ∙ (remove_client-changes a.client_id j (created a) q r (stored a s.registry q added)
                    gone).0
                ∙ ap (λ x. if a.client_id == j then none else x) (info j)
                ∙ if_twice (a.client_id == j) _ _ _,
          )
    ]
  ]
