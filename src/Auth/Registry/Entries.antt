-- ===== src/Auth/Registry/Entries.antt =====
-- What a lookup finds after each operation on the clients held in memory.
use insight_collector.Prelude.{
  String, true, false, Option, none, some, List, [], ◌∷◌, insert, ok, err, ◌≡◌, ◌≢◌, refl, arith,
  eq_iff, eq_refl, ◌⊎◌, inl, inr, Bool-cases, Result-cases, Option-cases,
}
use insight_collector.Auth.Config.{ClientConfig}
use insight_collector.Auth.Registry.{
  AuthError, KeyLoader, Registry, load_public_key, add_client, load_clients, update_client,
  get_client_info,
}

module _ {Key : Type 0} where
  -- The registry can serve the client `c`: its type is known and its key is there.
  abbrev pub IsServed : Registry Key → ClientConfig → Type 0
  IsServed r c =
      ((c.auth_type ≡ "rsa") × (r.public_keys c.client_id ≢ none))
      ⊎ ((c.auth_type ≡ "hmac") × (r.secret_keys c.client_id ≢ none))

  -- Every stored client stands under its own id, and can be served.
  abbrev pub IsConsistent : Registry Key → Type 0
  IsConsistent r =
      (id : String) (c : ClientConfig) → r.configs id ≡ some c → (c.client_id ≡ id) × IsServed r c

  module _ (loader : KeyLoader Key) where
    -- What a successful AddClient has changed.
    pub add_client-changes :
        (c : ClientConfig) (r r' : Registry Key)
        → add_client loader c r ≡ ok r'
        → (r'.configs ≡ insert c.client_id c r.configs)
          × (((c.auth_type ≡ "rsa")
                × (r'.secret_keys ≡ r.secret_keys)
                × ((key : Key) × (load_public_key loader c.key_path ≡ ok key)
                    × (r'.public_keys ≡ insert c.client_id key r.public_keys)))
              ⊎ ((c.auth_type ≡ "hmac")
                  × (c.secret_key ≢ "")
                  × (r'.public_keys ≡ r.public_keys)
                  × (r'.secret_keys ≡ insert c.client_id c.secret_key r.secret_keys)))
    unfolding add_client
    add_client-changes c r r' e =
        ground (arith, eq_iff c.auth_type "rsa", eq_iff c.auth_type "hmac", eq_iff c.secret_key "")

    -- The key that a lookup hands out for a client that was added.
    abbrev pub KeyFor : ClientConfig → Option Key → Type 0
    KeyFor c key =
        ((c.auth_type ≡ "rsa")
          × ((k : Key) × (load_public_key loader c.key_path ≡ ok k) × (key ≡ some k)))
        ⊎ ((c.auth_type ≡ "hmac") × (key ≡ none))

    pub key_for :
        (c : ClientConfig) (r r' : Registry Key)
        → add_client loader c r ≡ ok r'
        → (key : Option Key) × KeyFor c key × (get_client_info c.client_id r' ≡ some (key, c))
    unfolding get_client_info
    key_for c r r' e =
        let (configs, keys) = add_client-changes c r r' e in
        elim keys [
          | inl (rsa, secrets, (key, loaded, stored)) ↦ (
            some key,
            inl (rsa, (key, loaded, refl)),
            rw (configs, stored) (ground (arith, eq_refl c.client_id, eq_iff c.auth_type "rsa")),
          )
          | inr (hmac, given, keys_same, stored) ↦ (
            none,
            inr (hmac, refl),
            rw (configs) (
                ground (
                  arith,
                  eq_refl c.client_id,
                  eq_iff c.auth_type "rsa",
                  eq_iff "hmac" "rsa",
                  eq_iff c.auth_type "hmac",
                )),
          )
        ]

    pub info_of_others :
        (c : ClientConfig) (r r' : Registry Key) (id : String)
        → add_client loader c r ≡ ok r'
        → c.client_id ≢ id
        → get_client_info id r' ≡ get_client_info id r
    unfolding get_client_info add_client
    info_of_others c r r' id e h = ground (arith, eq_iff c.client_id id)

    -- AddClient keeps the invariant.
    pub add_client-IsConsistent :
        (c : ClientConfig) (r r' : Registry Key)
        → add_client loader c r ≡ ok r'
        → IsConsistent r
        → IsConsistent r'
    unfolding add_client
    add_client-IsConsistent c r r' e inv id d found = ground (
      arith,
      inv id d,
      eq_iff c.client_id id,
      eq_iff c.client_id d.client_id,
      eq_iff c.auth_type "rsa",
      eq_iff c.auth_type "hmac",
    )

    -- The three ways in which a round of InitAuth's loop goes.
    pub load_inactive :
        (c : ClientConfig) (cs : List ClientConfig) (r : Registry Key)
        → c.active ≡ false
        → load_clients loader (c ∷ cs) r ≡ load_clients loader cs r
    unfolding load_clients
    load_inactive c cs r off = ground arith

    pub load_added :
        (c : ClientConfig) (cs : List ClientConfig) (r r' : Registry Key)
        → c.active ≡ true
        → add_client loader c r ≡ ok r'
        → load_clients loader (c ∷ cs) r ≡ load_clients loader cs r'
    unfolding load_clients
    load_added c cs r r' on added = ground arith

    pub load_refused :
        (c : ClientConfig) (cs : List ClientConfig) (r : Registry Key) (e : AuthError)
        → c.active ≡ true
        → add_client loader c r ≡ err e
        → load_clients loader (c ∷ cs) r ≡ (err e, r)
    unfolding load_clients
    load_refused c cs r e on refused = ground arith

    pub load_clients-IsConsistent :
        (cs : List ClientConfig) (r : Registry Key)
        → IsConsistent r
        → IsConsistent (load_clients loader cs r).1
    load_clients-IsConsistent [] r inv = unfold load_clients in inv
    load_clients-IsConsistent (c ∷ cs) r inv = elim (Bool-cases c.active) [
      | inr off ↦ rw (load_inactive c cs r off) (load_clients-IsConsistent cs r inv)
      | inl on ↦ elim (Result-cases (add_client loader c r)) [
        | inl (r', added) ↦
            rw (load_added c cs r r' on added)
              (load_clients-IsConsistent cs r' (add_client-IsConsistent c r r' added inv))
        | inr (e, refused) ↦ rw (load_refused c cs r e on refused) inv
      ]
    ]

    pub update_client-IsConsistent :
        (c : ClientConfig) (r r' : Registry Key)
        → update_client loader c r ≡ ok r'
        → ((old : ClientConfig) → r.configs c.client_id ≡ some old → old.auth_type ≡ c.auth_type)
        → IsConsistent r
        → IsConsistent r'
    unfolding update_client
    update_client-IsConsistent c r r' e same inv id d found =
        elim (Option-cases (r.configs c.client_id)) [
          | inl missing ↦ absurd (ground arith)
          | inr (old, stored) ↦ ground (
            arith,
            inv id d,
            inv c.client_id old stored,
            same old stored,
            eq_iff c.client_id id,
            eq_iff c.client_id d.client_id,
            eq_iff c.client_id old.client_id,
            eq_iff c.auth_type "rsa",
            eq_iff c.auth_type "hmac",
          )
        ]
