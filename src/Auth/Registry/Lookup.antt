-- ===== src/Auth/Registry/Lookup.antt =====
-- The lookups of pkg/auth/auth.go after additions, removals, a start and any run of operations.
use insight_collector.Prelude.{
  String, Option, none, some, List, [], ◌∷◌, ◌==◌, if◌then◌else◌, ok, ◌≡◌, sym, arith, eq_iff, inl,
  inr, ◌⊎◌, Bool-cases, Result-cases, Option-cases, text_cases, ◌&&◌, ◌∙◌,
}
use insight_collector.Auth.Config.{ClientConfig}
use insight_collector.Auth.Registry.{
  KeyLoader, Registry, add_client, load_clients, update_client, remove_client, get_client_info,
  get_client_secret_key,
}
use insight_collector.Auth.Registry.Entries.{
  IsConsistent, KeyFor, key_for, info_of_others, add_client-IsConsistent,
  update_client-IsConsistent, load_inactive, load_added, load_refused,
}

module _ {Key : Type 0} where
  -- What the two lookups answer for a client: its entry with a public key for RSA, and its entry
  -- without one and a secret for HMAC.
  abbrev pub Serves : Registry Key → String → ClientConfig → Type 0
  Serves r id c =
      ((c.auth_type ≡ "rsa") × ((key : Key) × (get_client_info id r ≡ some (some key, c))))
      ⊎ ((c.auth_type ≡ "hmac")
          × (get_client_info id r ≡ some (none, c))
          × ((secret : String) × (get_client_secret_key id r ≡ some secret)))

  -- A consistent registry answers for every client that it stores.
  pub served :
      (r : Registry Key) (id : String) (c : ClientConfig)
      → IsConsistent r
      → r.configs id ≡ some c
      → (c.client_id ≡ id) × Serves r id c
  unfolding get_client_info get_client_secret_key
  served r id c inv stored =
      let (same, serves) = inv id c stored in
      (
        same,
        elim serves [
          | inl (rsa, has_key) ↦ elim (Option-cases (r.public_keys c.client_id)) [
            | inl missing ↦ absurd (has_key missing)
            | inr (key, present) ↦ inl (rsa, (key, ground (arith, eq_iff c.auth_type "rsa")))
          ]
          | inr (hmac, has_key) ↦ elim (Option-cases (r.secret_keys c.client_id)) [
            | inl missing ↦ absurd (has_key missing)
            | inr (secret, present) ↦ inr (
              hmac,
              ground
                  (arith, eq_iff c.auth_type "rsa", eq_iff "hmac" "rsa", eq_iff c.auth_type "hmac"),
              (secret, ground arith),
            )
          ]
        ],
      )

  -- After RemoveClient of a stored client, GetClientInfo does not find its id, GetClientSecretKey
  -- has no secret for it if it is an HMAC client, and both answer for every other id as before.
  pub remove_client-changes :
      (id j : String) (c : ClientConfig) (r r' : Registry Key)
      → r.configs id ≡ some c
      → remove_client id r ≡ ok r'
      → (get_client_info j r' ≡ (if id == j then none else get_client_info j r))
        × (get_client_secret_key j r'
            ≡ (if id == j && c.auth_type == "hmac" then none else get_client_secret_key j r))
  unfolding remove_client get_client_info get_client_secret_key
  remove_client-changes id j c r r' stored e = (
    ground (arith, eq_iff id j),
    ground (
      arith,
      eq_iff id j,
      eq_iff c.auth_type "rsa",
      eq_iff "hmac" "rsa",
      eq_iff c.auth_type "hmac",
    ),
  )

  pub remove_client-IsConsistent :
      (id : String) (r r' : Registry Key)
      → remove_client id r ≡ ok r'
      → IsConsistent r
      → IsConsistent r'
  unfolding remove_client
  remove_client-IsConsistent id r r' e inv j d found =
      ground (arith, inv j d, eq_iff id j, eq_iff id d.client_id)

-- The entry of the configuration file that a start leaves in memory for an id: the last active
-- one, or what was there before.
abbrev pub last_active : String → List ClientConfig → Option ClientConfig → Option ClientConfig
last_active id [] before = before
last_active id (c ∷ cs) before =
    last_active id cs (if c.active && c.client_id == id then some c else before)

module _ {Key : Type 0} (loader : KeyLoader Key) where
  added_config :
      (c : ClientConfig) (r r' : Registry Key) (id : String)
      → add_client loader c r ≡ ok r'
      → r'.configs id ≡ (if c.client_id == id then some c else r.configs id)
  unfolding add_client
  added_config c r r' id e = ground (arith)

  -- After a start without error the stored entry of an id is the last active one of the file.
  pub load_clients-last_active :
      (cs : List ClientConfig) (r r' : Registry Key) (id : String)
      → load_clients loader cs r ≡ (ok tt, r')
      → r'.configs id ≡ last_active id cs (r.configs id)
  load_clients-last_active [] r r' id e = unfold load_clients in ground arith
  load_clients-last_active (c ∷ cs) r r' id e = elim (Bool-cases c.active) [
    | inr off ↦
        let rest =
          load_clients-last_active cs r r' id (sym (load_inactive loader c cs r off) ∙ e) in
        ground arith
    | inl on ↦ elim (Result-cases (add_client loader c r)) [
      | inl (r1, added) ↦
          let rest =
            load_clients-last_active cs r1 r' id (sym (load_added loader c cs r r1 on added) ∙ e) in
          ground (arith, added_config c r r1 id added)
      | inr (bad, refused) ↦ absurd (cc (load_refused loader c cs r bad on refused))
    ]
  ]

  -- After a successful AddClient a lookup of the client's id finds it with its key, and every
  -- other lookup is as before.
  pub get_client_info-add_client :
      (c : ClientConfig) (r r' : Registry Key)
      → add_client loader c r ≡ ok r'
      → (key : Option Key) × KeyFor loader c key
        × ((id : String)
            → get_client_info id r'
              ≡ (if c.client_id == id then some (key, c) else get_client_info id r))
  get_client_info-add_client c r r' e =
      let (key, is_key, found) = key_for loader c r r' e in
      (
        key,
        is_key,
        λ id. elim (text_cases c.client_id id) [
          | inl (same, t) ↦ rw (t, ← same) found
          | inr (other, t) ↦ rw t (info_of_others loader c r r' id e other)
        ],
      )

-- One operation on the registry while the service or a command runs.
pub data Step {Key : Type 0} (loader : KeyLoader Key) (r r' : Registry Key) : Type 0 where
  added : (c : ClientConfig) → add_client loader c r ≡ ok r' → Step loader r r'
  updated :
      (c : ClientConfig)
      → ((old : ClientConfig) → r.configs c.client_id ≡ some old → old.auth_type ≡ c.auth_type)
      → update_client loader c r ≡ ok r'
      → Step loader r r'
  removed : (id : String) → remove_client id r ≡ ok r' → Step loader r r'

pub data Reach {Key : Type 0} (loader : KeyLoader Key) (r : Registry Key)
    : Registry Key → Type 0 where
  here : Reach loader r r
  next : {s t : Registry Key} → Reach loader r s → Step loader s t → Reach loader r t

Step-IsConsistent :
    {Key : Type 0} (loader : KeyLoader Key) {r r' : Registry Key}
    → Step loader r r'
    → IsConsistent r
    → IsConsistent r'
Step-IsConsistent loader {r} {r'} (added c e) inv = add_client-IsConsistent loader c r r' e inv
Step-IsConsistent loader {r} {r'} (updated c same e) inv =
    update_client-IsConsistent loader c r r' e same inv
Step-IsConsistent loader {r} {r'} (removed id e) inv = remove_client-IsConsistent id r r' e inv

Reach-IsConsistent :
    {Key : Type 0} (loader : KeyLoader Key) {r r' : Registry Key}
    → Reach loader r r'
    → IsConsistent r
    → IsConsistent r'
Reach-IsConsistent loader here inv = inv
Reach-IsConsistent loader (next run step) inv =
    Step-IsConsistent loader step (Reach-IsConsistent loader run inv)

-- After any run of additions, removals, and updates that keep a client's type, from a registry in
-- which every client stands under its own id and has its key, every stored client stands under its
-- own id; and GetClientInfo finds it with a public key if it is an RSA client, and otherwise it is
-- an HMAC client that GetClientInfo finds without one and GetClientSecretKey with a secret.
pub Reach-served :
    {Key : Type 0} (loader : KeyLoader Key) {r r' : Registry Key}
    → Reach loader r r'
    → IsConsistent r
    → (id : String) (c : ClientConfig) → r'.configs id ≡ some c
    → (c.client_id ≡ id) × Serves r' id c
Reach-served loader {r' = r'} run inv id c stored =
    served r' id c (Reach-IsConsistent loader run inv) stored
