-- ===== src/Health/Ages.antt =====
-- How old an answer of internal/services/health/health.go can be.
use insight_collector.Prelude.{
  ℕ, ◌+◌, ◌-◌, ◌<◌, Option, none, some, List, [], ◌∷◌, ltb, ◌≡◌, ◌⊎◌, refl, arith, Bool-cases, inl,
  inr,
}
use insight_collector.Health.{Probes, Cache, cache_valid_duration, through_cache, cleared}

-- Some call of a list has a property.
abbrev pub Has : (Probes → Type 0) → List Probes → Type 0
Has P [] = ⊥
Has P (p ∷ ps) = P p ⊎ Has P ps

Has-map :
    {P Q : Probes → Type 0} (ps : List Probes) → ((p : Probes) → P p → Q p) → Has P ps → Has Q ps
Has-map [] f h = h
Has-map (p ∷ ps) f (inl here) = inl (f p here)
Has-map (p ∷ ps) f (inr later) = inr (Has-map ps f later)

module _ {V : Type 0} (assess : Probes → V) where
  -- The cache of a process after some calls, the last one first
  abbrev pub after : List Probes → Cache V
  after [] = cleared
  after (p ∷ ps) = (through_cache assess p (after ps)).1

  -- The cache holds what a call of the list has found, with its time.
  abbrev Holds : List Probes → ℕ → Option V → Type 0
  Holds ps t none = Unit
  Holds ps t (some v) = Has (λ q. (assess q ≡ v) × (t ≡ q.stored_at)) ps

  Holds-cons :
      (p : Probes) (ps : List Probes) (t : ℕ) (o : Option V) → Holds ps t o → Holds (p ∷ ps) t o
  Holds-cons p ps t none h = tt
  Holds-cons p ps t (some v) h = inr h

  -- An answer is that of the call or that of an earlier call whose entry is still valid.
  abbrev IsRecent : Probes → List Probes → V → Type 0
  IsRecent p ps v =
      (v ≡ assess p)
      ⊎ Has (λ q. (assess q ≡ v) × (p.read_at < q.stored_at + cache_valid_duration)) ps

  through_cache-Holds :
      (p : Probes) (ps : List Probes) (t : ℕ) (o : Option V)
      → Holds ps t o
      → let next = through_cache assess p (record { cached = o; cache_time = t }) in
        IsRecent p ps (next.0) × Holds (p ∷ ps) (next.1.cache_time) (next.1.cached)
  unfolding through_cache
  through_cache-Holds p ps t none h = (inl refl, inl (refl, refl))
  through_cache-Holds p ps t (some v) h =
      elim (Bool-cases (ltb (p.read_at - t) cache_valid_duration)) [
        | inl valid ↦
            rw (through_cache, valid)
              (inr (Has-map ps (λ q found. (found.0, ground (arith, found.1))) h), inr h)
        | inr old ↦ rw (through_cache, old) (inl refl, inl (refl, refl))
      ]

  after-Holds : (ps : List Probes) → Holds ps ((after ps).cache_time) ((after ps).cached)
  after-Holds [] = tt
  after-Holds (p ∷ ps) =
      (through_cache-Holds p ps ((after ps).cache_time) ((after ps).cached) (after-Holds ps)).1

  -- After any calls in a process, the answer of a call is what this call finds, or what an earlier
  -- call has found and stored less than ten seconds before.
  pub through_cache_is_recent :
      (p : Probes) (ps : List Probes)
      → let answer = (through_cache assess p (after ps)).0 in
        (answer ≡ assess p)
        ⊎ Has (λ q. (assess q ≡ answer) × (p.read_at < q.stored_at + cache_valid_duration)) ps
  through_cache_is_recent p ps =
      (through_cache-Holds p ps ((after ps).cache_time) ((after ps).cached) (after-Holds ps)).0
