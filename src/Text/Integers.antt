-- ===== src/Text/Integers.antt =====
-- `strconv.ParseInt(s, 10, 64)`; an `int64` is its bit pattern, a number below 2 ^ 64.
use insight_collector.Prelude.{
  ℕ, ◌+◌, ◌-◌, ◌*◌, ◌%◌, ◌^◌, ◌<◌, Char, code, String, ◌≡◌, refl, Bool, ◌&&◌, Option, none, some,
  arith, leb, ltb, eqb, if◌then◌else◌,
}

abbrev is_digit : Char → Bool
is_digit c = leb b'0' (code c) && leb (code c) b'9'

-- the digits' value, exact: the range is tested at the end
digits_from : ℕ → String → Option ℕ
digits_from n String.[] = some n
digits_from n (String.◌∷◌ c s) =
    if is_digit c then digits_from (n * 10 + (code c - b'0')) s else none

digits : String → Option ℕ
unfolding digits_from
digits String.[] = none
digits (String.◌∷◌ c s) = digits_from 0 (String.◌∷◌ c s)

non_negative : Option ℕ → Option ℕ
non_negative none = none
non_negative (some n) = if ltb n (2 ^ 63) then some n else none

negative : Option ℕ → Option ℕ
negative none = none
negative (some n) = if leb n (2 ^ 63) then some ((2 ^ 64 - n) % 2 ^ 64) else none

unfoldable pub parse_int : String → Option ℕ
unfolding digits non_negative negative
parse_int String.[] = none
parse_int (String.◌∷◌ c s) =
    if eqb (code c) b'-'
    then negative (digits s)
    else if eqb (code c) b'+'
    then non_negative (digits s)
    else non_negative (digits (String.◌∷◌ c s))

negative-lt : (o : Option ℕ) {n : ℕ} → negative o ≡ some n → n < 2 ^ 64
unfolding negative
negative-lt o h = ground arith

non_negative-lt : (o : Option ℕ) {n : ℕ} → non_negative o ≡ some n → n < 2 ^ 64
unfolding non_negative
non_negative-lt o h = ground arith

-- A parsed integer is a 64-bit pattern.
pub parse_int-lt : (s : String) {n : ℕ} → parse_int s ≡ some n → n < 2 ^ 64
unfolding parse_int
parse_int-lt String.[] h = absurd (ground arith)
parse_int-lt (String.◌∷◌ c s) h = ground arith

parse_runs :
    (parse_int "-9223372036854775808" ≡ some (2 ^ 63)) × (parse_int "9223372036854775808" ≡ none)
unfolding parse_int
parse_runs = (refl, refl)
