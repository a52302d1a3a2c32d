-- ===== src/Text/Search.antt =====
-- `strings.Contains` and the first characters of a text.

use insight_collector.Prelude.{
  ℕ, zero, suc, String, Bool, true, false, ◌||◌, ◌&&◌, eqb, code, ◌≡◌, refl,
}

-- strings.HasPrefix
abbrev pub has_prefix : String → String → Bool
has_prefix s String.[] = true
has_prefix String.[] (String.◌∷◌ p ps) = false
has_prefix (String.◌∷◌ c s) (String.◌∷◌ p ps) = eqb (code c) (code p) && has_prefix s ps

unfoldable pub contains : String → String → Bool
contains String.[] pattern = has_prefix "" pattern
contains (String.◌∷◌ c s) pattern = has_prefix (String.◌∷◌ c s) pattern || contains s pattern

-- The first `n` runes
abbrev pub first_runes : ℕ → String → String
first_runes zero s = ""
first_runes (suc n) String.[] = ""
first_runes (suc n) (String.◌∷◌ c s) = String.◌∷◌ c (first_runes n s)

abbrev pub count_runes : String → ℕ
count_runes String.[] = 0
count_runes (String.◌∷◌ c s) = suc (count_runes s)

within_text : contains "linux; android 11" "android" ≡ true
unfolding contains
within_text = refl

not_within_text : contains "linux" "x11" ≡ false
unfolding contains
not_within_text = refl
