-- ===== src/Auth/Nonces.antt =====
-- pkg/auth: the time window and the used nonces, which are kept with the timestamps of their
-- requests. `nonceMutex` makes each function one step.
use insight_collector.Prelude.{
  ℕ, ◌+◌, ◌^◌, ◌≤◌, ◌<◌, String, Bool, true, false, ◌||◌, not, Option, none, some, ◌==◌, GoMap,
  insert, if◌then◌else◌, ◌≡◌, ◌≢◌, ◌⊎◌, inl, inr, ◌↔◌, arith, eq_iff, text_cases, eq_refl,
}
use insight_collector.Int64.{sub64, exceeds}

-- windowTime
abbrev pub window_time : ℕ
window_time = 30

-- The age at which cleanExpiredNonces drops a nonce.
abbrev pub nonce_age : ℕ
nonce_age = 300

-- `now-timestamp > windowTime || timestamp-now > windowTime`, negated
unfoldable pub in_window : ℕ → ℕ → Bool
in_window now timestamp =
    not (exceeds (sub64 now timestamp) window_time || exceeds (sub64 timestamp now) window_time)

unfoldable pub clean_expired_nonces : ℕ → GoMap ℕ → GoMap ℕ
clean_expired_nonces now used nonce = elim (used nonce) [
  | none ↦ none
  | some timestamp ↦ if exceeds (sub64 now timestamp) nonce_age then none else some timestamp
]

-- The critical section of VerifySignature: `none` is a replay. An empty nonce is not recorded.
unfoldable pub register_nonce : String → ℕ → GoMap ℕ → Option (GoMap ℕ)
register_nonce nonce timestamp used =
    if nonce == ""
    then some used
    else elim (used nonce) [ some _ ↦ none | none ↦ some (insert nonce timestamp used) ]

-- For a clock and a timestamp before 2 ^ 62, in seconds: the timestamp passes exactly if it is
-- within 30 seconds of the clock.
pub in_window_iff :
    (now timestamp : ℕ)
    → now < 2 ^ 62
    → timestamp < 2 ^ 62
    → (in_window now timestamp ≡ true)
      ↔ ((now ≤ timestamp + window_time) × (timestamp ≤ now + window_time))
unfolding in_window
in_window_iff now timestamp hn ht = (λ h. ground arith, λ h. ground arith)

-- The timestamp 2 ^ 63 seconds before the clock passes as well: both differences are the most
-- negative integer.
pub in_window_wraps : (now : ℕ) → now < 2 ^ 63 → in_window now (now + 2 ^ 63) ≡ true
unfolding in_window
in_window_wraps now h = ground arith

-- What passes, whatever its bits, is near the clock or opposite to it.
pub in_window_near :
    (now timestamp : ℕ)
    → now < 2 ^ 62
    → timestamp < 2 ^ 64
    → in_window now timestamp ≡ true
    → (sub64 now timestamp ≤ window_time)
      ⊎ ((sub64 timestamp now ≤ window_time) ⊎ (timestamp ≡ now + 2 ^ 63))
unfolding in_window
in_window_near now timestamp hn ht h = ground arith

pub register_fresh :
    (nonce : String) (timestamp : ℕ) (used used' : GoMap ℕ)
    → register_nonce nonce timestamp used ≡ some used'
    → (nonce ≡ "") ⊎ (used nonce ≡ none)
unfolding register_nonce
register_fresh nonce timestamp used used' e = ground (arith, eq_iff nonce "")

-- A nonce that is empty or was not used is let through.
pub register_total :
    (nonce : String) (timestamp : ℕ) (used : GoMap ℕ)
    → (nonce ≡ "") ⊎ (used nonce ≡ none)
    → (used' : GoMap ℕ) × (register_nonce nonce timestamp used ≡ some used')
unfolding register_nonce
register_total nonce timestamp used (inl e) = (used, ground (arith, eq_iff nonce ""))
register_total nonce timestamp used (inr e) = elim (text_cases nonce "") [
  | inl (none_given, t) ↦ (used, ground arith)
  | inr (given, t) ↦ (insert nonce timestamp used, ground arith)
]

-- A used nonce is refused.
pub register_used :
    (nonce : String) (timestamp t : ℕ) (used : GoMap ℕ)
    → nonce ≢ ""
    → used nonce ≡ some t
    → register_nonce nonce timestamp used ≡ none
unfolding register_nonce
register_used nonce timestamp t used given e = ground (arith, eq_iff nonce "")

-- Recording a nonce changes no entry that is there.
pub register_keeps :
    (nonce other : String) (timestamp t : ℕ) (used used' : GoMap ℕ)
    → register_nonce nonce timestamp used ≡ some used'
    → used other ≡ some t
    → used' other ≡ some t
unfolding register_nonce
register_keeps nonce other timestamp t used used' e h = ground (arith, eq_iff nonce other)

pub register_records :
    (nonce : String) (timestamp : ℕ) (used used' : GoMap ℕ)
    → nonce ≢ ""
    → register_nonce nonce timestamp used ≡ some used'
    → used' nonce ≡ some timestamp
unfolding register_nonce
register_records nonce timestamp used used' given e = ground (arith, eq_iff nonce "", eq_refl nonce)

-- A timestamp that passed at `first` and is old enough at `t` to be forgotten never passes again.
pub forgotten_is_late :
    (first t later timestamp : ℕ)
    → first ≤ t
    → t ≤ later
    → later < 2 ^ 62
    → timestamp < 2 ^ 64
    → in_window first timestamp ≡ true
    → exceeds (sub64 t timestamp) nonce_age ≡ true
    → in_window later timestamp ≡ false
unfolding in_window
forgotten_is_late first t later timestamp a b c d e f = ground arith
