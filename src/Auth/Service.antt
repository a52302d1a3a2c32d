-- ===== src/Auth/Service.antt =====
-- pkg/auth/auth.go: the package's variables, its start, its reload and its stop. The cleanup
-- goroutines are numbered as they start; a cancelled one is no longer live.
pub mod Lifecycle
use insight_collector.Prelude.{
  ℕ, ◌+◌, String, Bool, true, false, not, Option, none, some, List, [], ◌∷◌, GoMap, empty, Result,
  ok, err, if◌then◌else◌, eqb, ◌≡◌, refl,
}
use insight_collector.Auth.Config.{AuthConfig}
use insight_collector.Auth.Registry.{AuthError, KeyLoader, Registry, no_clients, load_clients}
use insight_collector.Auth.Nonces.{clean_expired_nonces}

pub record AuthState (Key : Type 0) : Type 0 where
  pub registry : Registry Key
  pub used_nonces : GoMap ℕ
  -- how many cleanup goroutines were started, those that run, and the one that
  -- `cleanupCancel` stops
  pub started : ℕ
  pub live : List ℕ
  pub cleanup_cancel : Option ℕ

abbrev pub initial : {Key : Type 0} → AuthState Key
initial = record {
  registry = no_clients;
  used_nonces = empty;
  started = 0;
  live = [];
  cleanup_cancel = none;
}

abbrev pub without : ℕ → List ℕ → List ℕ
without n [] = []
without n (m ∷ ms) = let rest = without n ms in if eqb m n then rest else m ∷ rest

module _ {Key : Type 0} where
  -- `context.WithCancel` and `go cleanupWorker(cleanupCtx)`
  unfoldable pub start_cleanup : AuthState Key → AuthState Key
  start_cleanup s = record s {
    started = s.started + 1;
    live = s.started ∷ s.live;
    cleanup_cancel = some s.started;
  }

  unfoldable pub stop_auth : AuthState Key → AuthState Key
  stop_auth s = elim s.cleanup_cancel [ none ↦ s | some n ↦ record s { live = without n s.live } ]

  -- A tick of `cleanupWorker`: nothing happens where no goroutine runs.
  unfoldable pub cleanup_tick : ℕ → AuthState Key → AuthState Key
  cleanup_tick now s = elim s.live [
    | [] ↦ s
    | _ ∷ _ ↦ record s { used_nonces = clean_expired_nonces now s.used_nonces }
  ]

  module _ (loader : KeyLoader Key) (config : AuthConfig) where
    unfoldable pub finish_init :
        AuthState Key
        → Result AuthError (Unit {0}) × Registry Key
        → Result AuthError (Unit {0}) × AuthState Key
    unfolding start_cleanup
    finish_init s (ok _, r) = (ok tt, start_cleanup (record s { registry = r }))
    finish_init s (err e, r) = (err e, record s { registry = r })

    unfoldable pub init_auth : AuthState Key → Result AuthError (Unit {0}) × AuthState Key
    unfolding finish_init
    init_auth s =
        if not config.enabled
        then (ok tt, s)
        else finish_init s (load_clients loader config.clients s.registry)

    unfoldable pub reload_auth : AuthState Key → Result AuthError (Unit {0}) × AuthState Key
    reload_auth s = init_auth (record s { registry = no_clients })
