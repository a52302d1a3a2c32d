-- ===== src/Query/Descending.antt =====
-- Lists of times from the newest to the oldest, and their cut at a time.
use insight_collector.Prelude.{
  ℕ, zero, suc, ◌-◌, ◌≤◌, ◌<◌, true, some, List, [], ◌∷◌, ◌++◌, if◌then◌else◌, ltb, eqb, length,
  any, All, ◌≡◌, refl, arith, Bool-cases, inl, inr, ◌∙◌, ap,
}
use insight_collector.Query.{take, last}

abbrev pub Descending : List ℕ → Type 0
Descending [] = Unit
Descending (t ∷ ts) = All (λ u. u < t) ts × Descending ts

-- The times before `c`
abbrev pub older : ℕ → List ℕ → List ℕ
older c [] = []
older c (t ∷ ts) = let rest = older c ts in if ltb t c then t ∷ rest else rest

abbrev pub drop : {A : Type 0} → ℕ → List A → List A
drop zero xs = xs
drop (suc n) [] = []
drop (suc n) (x ∷ xs) = drop n xs

pub take-append-drop : {A : Type 0} (n : ℕ) (xs : List A) → take n xs ++ drop n xs ≡ xs
take-append-drop zero xs = refl
take-append-drop (suc n) [] = refl
take-append-drop (suc n) (x ∷ xs) = ap (λ ys. x ∷ ys) (take-append-drop n xs)

pub length-drop : {A : Type 0} (n : ℕ) (xs : List A) → length (drop n xs) ≡ length xs - n
length-drop zero xs = omega arith
length-drop (suc n) [] = omega arith
length-drop (suc n) (x ∷ xs) = omega (arith, length-drop n xs)

pub take_of_length-le : {A : Type 0} (n : ℕ) (xs : List A) → length xs ≤ n → take n xs ≡ xs
take_of_length-le zero [] h = refl
take_of_length-le zero (x ∷ xs) h = absurd (omega arith)
take_of_length-le (suc n) [] h = refl
take_of_length-le (suc n) (x ∷ xs) h = ap (λ ys. x ∷ ys) (take_of_length-le n xs (omega arith))

pub take-take : {A : Type 0} (n m : ℕ) (xs : List A) → n ≤ m → take n (take m xs) ≡ take n xs
take-take zero m xs h = refl
take-take (suc n) zero xs h = absurd (omega arith)
take-take (suc n) (suc m) [] h = refl
take-take (suc n) (suc m) (x ∷ xs) h = ap (λ ys. x ∷ ys) (take-take n m xs (omega arith))

older_every : (c : ℕ) (ts : List ℕ) → All (λ u. u < c) ts → older c ts ≡ ts
older_every c [] h = refl
older_every c (t ∷ ts) (before, h) = let rest = older_every c ts h in ground arith

pub older-older : (c d : ℕ) (ts : List ℕ) → c ≤ d → older c (older d ts) ≡ older c ts
older-older c d [] h = refl
older-older c d (t ∷ ts) h = let rest = older-older c d ts h in ground arith

All_of : (P : ℕ → Type 0) (t : ℕ) (ts : List ℕ) → any (λ u. eqb u t) ts ≡ true → All P ts → P t
All_of P t [] h all = absurd (ground arith)
All_of P t (u ∷ us) h (p, all) = elim (Bool-cases (eqb u t)) [
  | inl here ↦ let same : u ≡ t = ground arith in rw same at p
  | inr later ↦ All_of P t us (ground arith) all
]

pub All-older : (P : ℕ → Type 0) (c : ℕ) (ts : List ℕ) → All P ts → All P (older c ts)
All-older P c [] h = tt
All-older P c (t ∷ ts) (p, h) = elim (Bool-cases (ltb t c)) [
  | inl before ↦ rw before (p, All-older P c ts h)
  | inr after ↦ rw after (All-older P c ts h)
]

pub older-Descending : (c : ℕ) (ts : List ℕ) → Descending ts → Descending (older c ts)
older-Descending c [] h = tt
older-Descending c (t ∷ ts) (first, h) = elim (Bool-cases (ltb t c)) [
  | inl before ↦ rw before (All-older (λ u. u < t) c ts first, older-Descending c ts h)
  | inr after ↦ rw after (older-Descending c ts h)
]

pub older-before : (c : ℕ) (ts : List ℕ) → All (λ u. u < c) (older c ts)
older-before c [] = tt
older-before c (t ∷ ts) = elim (Bool-cases (ltb t c)) [
  | inl before ↦ rw before (ground arith, older-before c ts)
  | inr after ↦ rw after (older-before c ts)
]

older_later : (c t : ℕ) (ts : List ℕ) → c < t → older c (t ∷ ts) ≡ older c ts
older_later c t ts h = ground arith

-- The last of the first `n` times cuts the list behind them.
pub record IsCut (n : ℕ) (ts : List ℕ) : Type 0 where
  pub time : ℕ
  pub ends : last (take n ts) ≡ some time
  pub listed : any (λ u. eqb u time) ts ≡ true
  pub rest : older time ts ≡ drop n ts

pub cut : (n : ℕ) (ts : List ℕ) → Descending ts → 1 ≤ n → n ≤ length ts → IsCut n ts
cut zero ts h low high = absurd (omega arith)
cut (suc n) [] h low high = absurd (omega arith)
cut (suc zero) (t ∷ ts) (first, h) low high =
    let all = older_every t ts first in
    record { time = t; ends = refl; listed = ground arith; rest = ground arith }
cut (suc (suc n)) (t ∷ []) h low high = absurd (omega arith)
cut (suc (suc n)) (t ∷ u ∷ ts) (first, h) low high =
    let inner = cut (suc n) (u ∷ ts) h (omega arith) (omega arith) in
    let before : inner.time < t = All_of (λ v. v < t) inner.time (u ∷ ts) inner.listed first in
    record {
      time = inner.time;
      ends = inner.ends;
      listed = let l = inner.listed in ground arith;
      rest = older_later inner.time t (u ∷ ts) before ∙ inner.rest;
    }

-- A time of those before `c` is before `c`.
pub listed-before : (c t : ℕ) (ts : List ℕ) → any (λ u. eqb u t) (older c ts) ≡ true → t < c
listed-before c t ts listed = All_of (λ u. u < c) t (older c ts) listed (older-before c ts)

pub listed-All :
    (P : ℕ → Type 0) (t : ℕ) (ts : List ℕ) → any (λ u. eqb u t) ts ≡ true → All P ts → P t
listed-All P t ts listed all = All_of P t ts listed all
