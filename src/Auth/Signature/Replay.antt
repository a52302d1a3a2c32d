-- ===== src/Auth/Signature/Replay.antt =====
-- The used nonces across requests: what a replayed request meets, whatever happens in between.
use insight_collector.Prelude.{
  ℕ, ◌≤◌, ◌<◌, ◌^◌, String, true, false, none, some, List, [], ◌∷◌, ok, ◌≡◌, ◌≢◌, ◌⊎◌, inl, inr,
  arith, eq_iff, eq_refl, ◌∙◌, Option-cases, Result-cases, Bool-cases,
}
use insight_collector.Int64.{sub64, exceeds}
use insight_collector.Text.Integers.{parse_int, parse_int-lt}
use insight_collector.Auth.Config.{ClientConfig}
use insight_collector.Auth.Nonces.{
  nonce_age, in_window, clean_expired_nonces, register_nonce, register_used, register_keeps,
  forgotten_is_late,
}
use insight_collector.Auth.Service.{AuthState, cleanup_tick}
use insight_collector.Auth.Signature.{Crypto, SignedRequest, check_request, verify_signature}
use insight_collector.Auth.Signature.Verified.{check_request_ok, verify_signature-IsAccepted}

-- What happens to the authentication state, with the clock's reading: a request, a tick of the
-- cleanup, or another operation, which leaves the used nonces as they are.
pub data Event (Key : Type 0) : Type 0 where
  request : ℕ → SignedRequest → Event Key
  tick : ℕ → Event Key
  other : ℕ → AuthState Key → Event Key

abbrev pub time : {Key : Type 0} → Event Key → ℕ
time (request now q) = now
time (tick now) = now
time (other now s) = now

module _ {Key : Type 0} (crypto : Crypto Key) (algorithm : String) where
  unfoldable pub handle : Event Key → AuthState Key → AuthState Key
  handle (request now q) s = (verify_signature crypto algorithm now q s).1
  handle (tick now) s = cleanup_tick now s
  handle (other now s') s = record s' { used_nonces = s.used_nonces }

  unfoldable pub run : List (Event Key) → AuthState Key → AuthState Key
  run [] s = s
  run (e ∷ es) s = run es (handle e s)

-- The clock does not go back, and ends at `last`.
abbrev pub InOrder : {Key : Type 0} → ℕ → List (Event Key) → ℕ → Type 0
InOrder first [] last = first ≤ last
InOrder first (e ∷ es) last = (first ≤ time e) × InOrder (time e) es last

-- From the clock reading `now` on the timestamp never passes again.
abbrev IsLate : ℕ → ℕ → Type 0
IsLate timestamp now =
    (later : ℕ) → now ≤ later → later < 2 ^ 62 → in_window later timestamp ≡ false

-- The nonce is still recorded, or the timestamp is late for good.
abbrev IsSpent : {Key : Type 0} → String → ℕ → ℕ → AuthState Key → Type 0
IsSpent nonce timestamp now s = (s.used_nonces nonce ≡ some timestamp) ⊎ IsLate timestamp now

module _ {Key : Type 0} (crypto : Crypto Key) (algorithm : String) (nonce : String)
    (given : nonce ≢ "") (timestamp first : ℕ) (bits : timestamp < 2 ^ 64)
    (passed : in_window first timestamp ≡ true) where
  verify_keeps :
      (now : ℕ) (q : SignedRequest) (s : AuthState Key)
      → s.used_nonces nonce ≡ some timestamp
      → (verify_signature crypto algorithm now q s).1.used_nonces nonce ≡ some timestamp
  unfolding verify_signature
  verify_keeps now q s h = elim (Result-cases (check_request now q s.registry)) [
    | inr (x, bad) ↦ ground arith
    | inl ((t, c), checked) ↦ elim (Option-cases (register_nonce q.nonce t s.used_nonces)) [
      | inl replay ↦ ground arith
      | inr (used, registered) ↦
          ground (arith, register_keeps q.nonce nonce t timestamp s.used_nonces used registered h)
    ]
  ]

  tick_spends :
      (now : ℕ) (s : AuthState Key)
      → first ≤ now
      → s.used_nonces nonce ≡ some timestamp
      → IsSpent nonce timestamp now (cleanup_tick now s)
  unfolding cleanup_tick clean_expired_nonces
  tick_spends now s le h = elim (Bool-cases (exceeds (sub64 now timestamp) nonce_age)) [
    | inl old ↦
        inr (λ later a b. forgotten_is_late first now later timestamp le a b bits passed old)
    | inr young ↦ inl (ground arith)
  ]

  handle-IsSpent :
      (now : ℕ) (e : Event Key) (s : AuthState Key)
      → first ≤ now
      → now ≤ time e
      → IsSpent nonce timestamp now s
      → IsSpent nonce timestamp (time e) (handle crypto algorithm e s)
  handle-IsSpent now e s le step (inr late) = inr (λ later a b. late later (omega arith) b)
  handle-IsSpent now (request t q) s le step (inl h) = inl (unfold handle in verify_keeps t q s h)
  handle-IsSpent now (tick t) s le step (inl h) = unfold handle in tick_spends t s (omega arith) h
  handle-IsSpent now (other t s') s le step (inl h) = inl (unfold handle in h)

  run-IsSpent :
      (es : List (Event Key)) (now last : ℕ) (s : AuthState Key)
      → first ≤ now
      → InOrder now es last
      → IsSpent nonce timestamp now s
      → IsSpent nonce timestamp last (run crypto algorithm es s)
  unfolding run
  run-IsSpent [] now last s le order (inl h) = inl h
  run-IsSpent [] now last s le order (inr late) = inr (λ later a b. late later (omega arith) b)
  run-IsSpent (e ∷ es) now last s le (step, order) h =
      run-IsSpent es (time e) last (handle crypto algorithm e s) (omega arith) order
        (handle-IsSpent now e s le step h)

module _ {Key : Type 0} (crypto : Crypto Key) (algorithm : String) where
  -- A request that was let through to its signature has its nonce recorded, signed or not.
  recorded :
      (now timestamp : ℕ) (q : SignedRequest) (s : AuthState Key) (c : ClientConfig)
      → check_request now q s.registry ≡ ok (timestamp, c)
      → q.nonce ≢ ""
      → s.used_nonces q.nonce ≡ none
      → (verify_signature crypto algorithm now q s).1.used_nonces q.nonce ≡ some timestamp
  unfolding verify_signature register_nonce
  recorded now timestamp q s c checked given unused =
      ground (arith, eq_iff q.nonce "", eq_refl q.nonce)

  -- A request whose nonce is recorded gets no further than its nonce.
  used_is_refused :
      (now t : ℕ) (q : SignedRequest) (s : AuthState Key) (c : ClientConfig)
      → q.nonce ≢ ""
      → s.used_nonces q.nonce ≡ some t
      → (verify_signature crypto algorithm now q s).0 ≢ ok c
  unfolding verify_signature
  used_is_refused now t q s c given stored e =
      elim (Result-cases (check_request now q s.registry)) [
        | inr (x, bad) ↦ ground arith
        | inl ((timestamp, d), checked) ↦
            let refused = register_used q.nonce timestamp t s.used_nonces given stored in
            ground arith
      ]

  late_is_refused :
      (now timestamp : ℕ) (q : SignedRequest) (s : AuthState Key) (c : ClientConfig)
      → parse_int q.timestamp_str ≡ some timestamp
      → in_window now timestamp ≡ false
      → (verify_signature crypto algorithm now q s).0 ≢ ok c
  unfolding verify_signature check_request
  late_is_refused now timestamp q s c parsed late e = ground arith

  -- Once a request with a nonce was accepted, no request with that nonce and that timestamp is
  -- accepted again, by whatever client: not after any requests, cleanups and other operations, in
  -- the order of a clock that does not go back and stays below 2 ^ 62 seconds.
  pub no_replay :
      (first last : ℕ) (q q' : SignedRequest) (s : AuthState Key) (c c' : ClientConfig)
      (between : List (Event Key))
      → (verify_signature crypto algorithm first q s).0 ≡ ok c
      → q.nonce ≢ ""
      → q'.nonce ≡ q.nonce
      → parse_int q'.timestamp_str ≡ parse_int q.timestamp_str
      → InOrder first between last
      → last < 2 ^ 62
      → (verify_signature crypto algorithm last q'
          (run crypto algorithm between (verify_signature crypto algorithm first q s).1)).0
        ≢ ok c'
  no_replay first last q q' s c c' between accepted given same_nonce same_time order small =
      let a = verify_signature-IsAccepted crypto algorithm first q s c accepted in
      let checked =
        check_request_ok first q s.registry a.timestamp a.key c a.parsed a.on_time a.known
          a.active in
      let unused : s.used_nonces q.nonce ≡ none = ground (arith, a.fresh) in
      let stored = recorded first a.timestamp q s c checked given unused in
      let spent =
        run-IsSpent crypto algorithm q.nonce given a.timestamp first
          (parse_int-lt q.timestamp_str a.parsed) a.on_time between first last
          (verify_signature crypto algorithm first q s).1 (omega arith) order (inl stored) in
      elim spent [
        | inl used ↦
            used_is_refused last a.timestamp q' _ c' (rw same_nonce given) (rw same_nonce used)
        | inr late ↦
            late_is_refused last a.timestamp q' _ c' (same_time ∙ a.parsed)
              (late last (omega arith) small)
      ]

  -- A request that passes the checks of its timestamp and its client uses its nonce up even if its
  -- signature is no good: the next request with that nonce is refused, signed or not.
  pub unsigned_uses_nonce :
      (now now' timestamp : ℕ) (q q' : SignedRequest) (s : AuthState Key) (c c' : ClientConfig)
      → check_request now q s.registry ≡ ok (timestamp, c)
      → q.nonce ≢ ""
      → s.used_nonces q.nonce ≡ none
      → q'.nonce ≡ q.nonce
      → (verify_signature crypto algorithm now' q' (verify_signature crypto algorithm now q s).1).0
        ≢ ok c'
  unsigned_uses_nonce now now' timestamp q q' s c c' checked given unused same =
      used_is_refused now' timestamp q' _ c' (rw same given)
        (rw same (recorded now timestamp q s c checked given unused))
