-- ===== src/Auth/Permissions/Grants.antt =====
-- What a permission means, apart from the code that decides it.
use Prim.Native.String
use mathlib.Core.List.{Memᴰ}
use mathlib.Core.List.Memᴰ
use mathlib.Core.Path.{subst, subst₂}
use insight_collector.Prelude.{
  String, ◌≡◌, refl, ◌↔◌, ◌⊎◌, inl, inr, true, List, [], ◌∷◌, eq_iff, arith, Bool-cases, text_cases,
}
use insight_collector.Text.{Lacks, split}
use insight_collector.Text.Splitting.{split_of_Lacks, split-append, split-eq-two}
use insight_collector.Auth.Permissions.{matches_parts, matches_permission, has_permission}

-- `text` is "action:resource", with no other colon.
pub record IsPair (text action resource : String) : Type 0 where
  pub spelled : text ≡ String.◌++◌ action (String.◌∷◌ ":" resource)
  pub one_colon : Lacks ":" action × Lacks ":" resource

-- The permission `perm` covers the permission `required`.
pub data Grants (perm required : String) : Type 0 where
  same : perm ≡ required → Grants perm required
  super_admin : perm ≡ "*:*" → Grants perm required
  admin : (a r : String) → IsPair perm "admin" r → IsPair required a r → Grants perm required
  any_resource : (a r : String) → IsPair perm a "*" → IsPair required a r → Grants perm required
  any_action : (a r : String) → IsPair perm "*" r → IsPair required a r → Grants perm required

split_pair : (text a r : String) → IsPair text a r → split ":" text ≡ a ∷ r ∷ []
split_pair text a r p =
    rw (p.spelled, split-append ":" a r p.one_colon.0, split_of_Lacks ":" r p.one_colon.1) refl

IsPair-of_split : (text a r : String) → split ":" text ≡ a ∷ r ∷ [] → IsPair text a r
IsPair-of_split text a r e =
    let (spelled, la, lr) = split-eq-two ":" text a r e in
    record { spelled = spelled; one_colon = (la, lr) }

-- The three wildcard rules, of which one has let the pair through.
rule_cases :
    (ua ur ra rr : String)
    → matches_parts (ua ∷ ur ∷ []) (ra ∷ rr ∷ []) ≡ true
    → ((ua ≡ "admin") × (ur ≡ rr)) ⊎ (((ua ≡ ra) × (ur ≡ "*")) ⊎ ((ua ≡ "*") × (ur ≡ rr)))
unfolding matches_parts
rule_cases ua ur ra rr h =
    ground (arith, eq_iff ua "admin", eq_iff ur rr, eq_iff ua ra, eq_iff ur "*", eq_iff ua "*")

parts_sound :
    (perm required : String) (us rs : List String)
    → split ":" perm ≡ us
    → split ":" required ≡ rs
    → matches_parts us rs ≡ true
    → Grants perm required
unfolding matches_parts
parts_sound perm required (ua ∷ ur ∷ []) (ra ∷ rr ∷ []) eu er h =
    let p = IsPair-of_split perm ua ur eu in
    let q = IsPair-of_split required ra rr er in
    elim (rule_cases ua ur ra rr h) [
      | inl (a, r) ↦ Grants.admin ra rr (subst₂ (IsPair perm) a r p) q
      | inr (inl (a, r)) ↦ Grants.any_resource ra rr (subst₂ (IsPair perm) a r p) q
      | inr (inr (a, r)) ↦ Grants.any_action ra rr (subst₂ (IsPair perm) a r p) q
    ]
parts_sound perm required us rs eu er h = cc

-- A permission that is accepted for another one covers it.
matches_sound :
    (perm required : String) → matches_permission perm required ≡ true → Grants perm required
unfolding matches_permission
matches_sound perm required h = elim (text_cases perm required) [
  | inl (e, _) ↦ Grants.same e
  | inr (_, t) ↦ elim (text_cases perm "*:*") [
    | inl (e, _) ↦ Grants.super_admin e
    | inr (_, u) ↦ parts_sound perm required _ _ refl refl (ground arith)
  ]
]

-- A permission that covers another one is accepted for it.
matches_complete :
    (perm required : String) → Grants perm required → matches_permission perm required ≡ true
unfolding matches_permission
matches_complete perm required (Grants.same e) = ground (arith, eq_iff perm required)
matches_complete perm required (Grants.super_admin e) = ground (arith, eq_iff perm "*:*")
matches_complete perm required (Grants.admin a r p q) =
    rw (split_pair perm "admin" r p, split_pair required a r q) (ground (arith, eq_iff r r))
matches_complete perm required (Grants.any_resource a r p q) =
    rw (split_pair perm a "*" p, split_pair required a r q) (ground (arith, eq_iff a a))
matches_complete perm required (Grants.any_action a r p q) =
    rw (split_pair perm "*" r p, split_pair required a r q) (ground (arith, eq_iff r r))

granted_sound :
    (perms : List String) (required : String)
    → has_permission perms required ≡ true
    → (perm : String) × Memᴰ perm perms × Grants perm required
unfolding has_permission
granted_sound [] required h = cc
granted_sound (p ∷ ps) required h = elim (Bool-cases (matches_permission p required)) [
  | inl e ↦ (p, Memᴰ.head refl, matches_sound p required e)
  | inr e ↦
      let (perm, listed, grants) = granted_sound ps required (ground arith) in
      (perm, Memᴰ.tail listed, grants)
]

first_permits :
    (p required : String) (ps : List String)
    → matches_permission p required ≡ true
    → has_permission (p ∷ ps) required ≡ true
unfolding has_permission
first_permits p required ps h = rw h

later_permits :
    (p required : String) (ps : List String)
    → has_permission ps required ≡ true
    → has_permission (p ∷ ps) required ≡ true
unfolding has_permission
later_permits p required ps h = ground arith

granted_complete :
    (required perm : String) (perms : List String)
    → Memᴰ perm perms
    → Grants perm required
    → has_permission perms required ≡ true
granted_complete required perm [] m g = absurd (Memᴰ.not-nil m)
granted_complete required perm (p ∷ ps) m g = elim (Memᴰ.cases_cons m) [
  | inl e ↦
      first_permits p required ps
        (subst (λ q. matches_permission q required ≡ true) e (matches_complete perm required g))
  | inr m' ↦ later_permits p required ps (granted_complete required perm ps m' g)
]

-- A required permission is granted to a list of permissions exactly when one of the list covers
-- it: the same text, "*:*", "admin:r" for any "a:r", "a:*" for any "a:r", or "*:r" for any "a:r".
pub has_permission_iff :
    (perms : List String) (required : String)
    → (has_permission perms required ≡ true)
      ↔ ((perm : String) × Memᴰ perm perms × Grants perm required)
has_permission_iff perms required = (
  granted_sound perms required,
  λ (perm, listed, grants). granted_complete required perm perms listed grants,
)
