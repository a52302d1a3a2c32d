-- ===== src/Text/Splitting.antt =====
-- Splitting at a character gives the parts between its occurrences.
use Prim.Native.String
use text.Mathlib.TextEquality.{Char-path}
use text.Mathlib.TextLemmas.{nil-append, cons-append}
use insight_collector.Prelude.{
  Char, code, String, ◌≡◌, refl, sym, ap, ◌∙◌, inl, inr, List, [], ◌∷◌, arith, eqb, Bool-cases,
}
use insight_collector.Text.{Lacks, split}

-- A split has a first part.
pub split-eq-cons :
    (sep : Char) (s : String) → (p : String) × (ps : List String) × (split sep s ≡ p ∷ ps)
unfolding split
split-eq-cons sep String.[] = ("", [], refl)
split-eq-cons sep (String.◌∷◌ c s) = elim (Bool-cases (eqb (code c) (code sep))) [
  | inl e ↦ ("", split sep s, rw e)
  | inr e ↦ let (p, ps, eq) = split-eq-cons sep s in (String.◌∷◌ c p, ps, rw (e, eq))
]

pub split_of_Lacks : (sep : Char) (s : String) → Lacks sep s → split sep s ≡ s ∷ []
unfolding split
split_of_Lacks sep String.[] h = refl
split_of_Lacks sep (String.◌∷◌ c s) (n, h) = ground (arith, split_of_Lacks sep s h)

pub split-append :
    (sep : Char) (a b : String)
    → Lacks sep a
    → split sep (String.◌++◌ a (String.◌∷◌ sep b)) ≡ a ∷ split sep b
unfolding split
split-append sep String.[] b h = rw nil-append (ground arith)
split-append sep (String.◌∷◌ c a) b (n, h) = rw cons-append (ground (arith, split-append sep a b h))

pub split-eq-one : (sep : Char) (s p : String) → split sep s ≡ p ∷ [] → (s ≡ p) × Lacks sep s
unfolding split
split-eq-one sep String.[] p e = (ground arith, tt)
split-eq-one sep (String.◌∷◌ c s) p e =
    let (q, qs, eq) = split-eq-cons sep s in
    elim (Bool-cases (eqb (code c) (code sep))) [
      | inl same ↦ absurd (ground arith)
      | inr other ↦
          let (u, v) = split-eq-one sep s q (ground arith) in (ground arith, (ground arith, v))
    ]

-- Exactly the texts with one separator split into two parts.
pub split-eq-two :
    (sep : Char) (s a b : String)
    → split sep s ≡ a ∷ b ∷ []
    → (s ≡ String.◌++◌ a (String.◌∷◌ sep b)) × Lacks sep a × Lacks sep b
unfolding split
split-eq-two sep String.[] a b e = absurd (ground arith)
split-eq-two sep (String.◌∷◌ c s) a b e =
    let (q, qs, eq) = split-eq-cons sep s in
    elim (Bool-cases (eqb (code c) (code sep))) [
      | inl same ↦
          let none_before : a ≡ "" = ground arith in
          let (rest, lacks) = split-eq-one sep s b (ground arith) in
          let at_sep : c ≡ sep = Char-path c sep (ground arith) in
          rw none_before (rw (nil-append, at_sep, rest) refl, tt, rw rest at lacks)
      | inr other ↦
          let (u, v, w) = split-eq-two sep s q b (ground arith) in
          let first : a ≡ String.◌∷◌ c q = ground arith in
          let spelled = ap (String.◌∷◌ c) u ∙ sym (cons-append c q (String.◌∷◌ sep b)) in
          rw first (spelled, (ground arith, v), w)
    ]
