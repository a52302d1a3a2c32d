-- ===== src/Text/Decimal.antt =====
-- `%d` of a number that is not negative.
use Prim.Native.String
use insight_collector.Prelude.{ℕ, zero, suc, ◌/◌, ◌%◌, String, if◌then◌else◌, eqb, ◌≡◌, refl}

abbrev digit : ℕ → String
digit d =
    if eqb d 0
    then "0"
    else if eqb d 1
    then "1"
    else if eqb d 2
    then "2"
    else if eqb d 3
    then "3"
    else if eqb d 4
    then "4"
    else if eqb d 5
    then "5"
    else if eqb d 6
    then "6"
    else if eqb d 7
    then "7"
    else if eqb d 8
    then "8"
    else "9"

-- A number has fewer digits than it counts, or one: `fuel` is the number itself.
decimal_from : ℕ → ℕ → String
decimal_from zero n = digit n
decimal_from (suc fuel) n =
    let rest = decimal_from fuel (n / 10) in
    if eqb (n / 10) 0 then digit n else String.◌++◌ rest (digit (n % 10))

unfoldable pub decimal : ℕ → String
unfolding decimal_from
decimal n = decimal_from n n

decimal_1000 : decimal 1000 ≡ "1000"
unfolding decimal
decimal_1000 = refl

decimal_7 : decimal 7 ≡ "7"
unfolding decimal
decimal_7 = refl
