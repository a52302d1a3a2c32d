-- ===== src/Query/Flux/Tables.antt =====
-- The times that a page takes from the tables of a query's stream.
use insight_collector.Prelude.{
  ℕ, zero, suc, ◌<◌, some, List, [], ◌∷◌, ◌++◌, map, All, ◌≡◌, ◌≢◌, arith,
}
use insight_collector.Query.{time, last, take}
use insight_collector.Query.Descending.{older, older-before, All-older}
use insight_collector.Query.Flux.Answers.{rows, flat}

module _ {A : Type 0} (P : A → Type 0) where
  pub All-append : (xs ys : List A) → All P xs → All P ys → All P (xs ++ ys)
  All-append [] ys h k = k
  All-append (x ∷ xs) ys (p, h) k = (p, All-append xs ys h k)

  pub All-take : (n : ℕ) (xs : List A) → All P xs → All P (take n xs)
  All-take zero xs h = tt
  All-take (suc n) [] h = tt
  All-take (suc n) (x ∷ xs) (p, h) = (p, All-take n xs h)

  pub All-last : (x : A) (xs : List A) → last xs ≡ some x → All P xs → P x
  All-last x [] e h = absurd (ground arith)
  All-last x (y ∷ []) e (p, h) = let same : y ≡ x = ground arith in rw same at p
  All-last x (y ∷ z ∷ xs) e (p, h) = All-last x (z ∷ xs) e h

pub All-weaken :
    {A : Type 0} (P Q : A → Type 0) → ((x : A) → P x → Q x) → (xs : List A) → All P xs → All Q xs
All-weaken P Q f [] h = tt
All-weaken P Q f (x ∷ xs) (p, h) = (f x p, All-weaken P Q f xs h)

pub rows-lack : (u : ℕ) (ts : List ℕ) → All (λ t. t ≢ u) ts → All (λ r. r ≢ some (time u)) (rows ts)
rows-lack u [] h = tt
rows-lack u (t ∷ ts) (differ, h) = (λ e. differ (ground arith), rows-lack u ts h)

-- All times that a query after `c` answers are before `c`.
pub All-flat-before :
    (c : ℕ) (tables : List (List ℕ)) → All (λ t. t < c) (flat (map (older c) tables))
All-flat-before c [] = tt
All-flat-before c (ts ∷ tables) =
    All-append (λ t. t < c) (older c ts) (flat (map (older c) tables)) (older-before c ts)
      (All-flat-before c tables)

pub All-flat-older :
    (P : ℕ → Type 0) (c : ℕ) (tables : List (List ℕ))
    → All (All P) tables
    → All P (flat (map (older c) tables))
All-flat-older P c [] h = tt
All-flat-older P c (ts ∷ tables) (p, h) =
    All-append P (older c ts) (flat (map (older c) tables)) (All-older P c ts p)
      (All-flat-older P c tables h)
