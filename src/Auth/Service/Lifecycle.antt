-- ===== src/Auth/Service/Lifecycle.antt =====
-- Starts, reloads and stops of the authentication package.
use insight_collector.Prelude.{
  ℕ, String, true, none, List, [], ◌∷◌, Result, ok, err, ◌≡◌, refl, arith, All, ◌<◌, sym, ap, ◌∙◌,
}
use insight_collector.Auth.Config.{AuthConfig}
use insight_collector.Auth.Registry.{AuthError, KeyLoader, Registry, no_clients, load_clients}
use insight_collector.Auth.Registry.Lookup.{last_active, load_clients-last_active}
use insight_collector.Auth.Service.{
  AuthState, without, start_cleanup, stop_auth, init_auth, reload_auth, finish_init,
}

finish_init-eq-ok :
    {Key : Type 0} (loader : KeyLoader Key) (config : AuthConfig) (s s' : AuthState Key)
    (loaded : Result AuthError (Unit {0}) × Registry Key)
    → finish_init loader config s loaded ≡ (ok tt, s')
    → (loaded ≡ (ok tt, loaded.1)) × (s' ≡ start_cleanup (record s { registry = loaded.1 }))
unfolding finish_init
finish_init-eq-ok loader config s s' (ok _, r) e = (refl, sym (ap (λ p. p.1) e))
finish_init-eq-ok loader config s s' (err x, r) e = cc

without_fresh : (n : ℕ) (ms : List ℕ) → All (λ m. m < n) ms → without n ms ≡ ms
without_fresh n [] h = refl
without_fresh n (m ∷ ms) (lt, h) = ground (arith, without_fresh n ms h)

module _ {Key : Type 0} (loader : KeyLoader Key) (config : AuthConfig) (s s' : AuthState Key)
    (on : config.enabled ≡ true) (reloaded : reload_auth loader config s ≡ (ok tt, s')) where
  reload_auth-eq-ok :
      (r : Registry Key) × (load_clients loader config.clients no_clients ≡ (ok tt, r))
      × (s' ≡ start_cleanup (record s { registry = r }))
  unfolding reload_auth init_auth
  reload_auth-eq-ok =
      let e : finish_init loader config (record s { registry = no_clients })
            (load_clients loader config.clients no_clients)
          ≡ (ok tt, s') =
        ground arith in
      let (loaded, same) =
        finish_init-eq-ok loader config (record s { registry = no_clients }) s' _ e in
      ((load_clients loader config.clients no_clients).1, loaded, same)

  -- After a successful reload, with authentication on, the stored entry of an id is the last active
  -- one of the configuration in memory, whatever was stored before. The used nonces stay.
  pub reload_auth-last_active :
      ((id : String) → s'.registry.configs id ≡ last_active id config.clients none)
      × (s'.used_nonces ≡ s.used_nonces)
  unfolding start_cleanup
  reload_auth-last_active =
      let (r, loaded, same) = reload_auth-eq-ok in
      (
        λ id.
            ap (λ (t : AuthState Key). t.registry.configs id) same
            ∙ load_clients-last_active loader config.clients no_clients r id loaded,
        ap (λ (t : AuthState Key). t.used_nonces) same,
      )

  -- A stop after a successful reload, with authentication on, ends the cleanup goroutine that the
  -- reload has started and leaves all that ran before it running.
  pub stop_auth-reload_auth : All (λ n. n < s.started) s.live → (stop_auth s').live ≡ s.live
  unfolding start_cleanup stop_auth
  stop_auth-reload_auth older =
      let (r, loaded, same) = reload_auth-eq-ok in
      rw same (ground (arith, without_fresh s.started s.live older))
