-- ===== src/Prelude/Text.antt =====
-- `std::string`: comparison, concatenation, `empty()` and `std::to_string` of an unsigned integer.
use Prim.Native.Nat.{ℕ, zero, suc, ◌/◌, ◌%◌}
use Prim.Native.String
use Prim.Native.String.compare
use Prim.Native.String.{String}
use mathlib.Core.Bool.{Bool, true, false}
use native.Mathlib.Omega.{arith}
use mathlib.Core.Path.{◌≡◌, refl, ap}
use text.Mathlib.Text.{◌==◌ as text_eq, is_lt}
use city_life_core.Prelude.Tests.{ltb, ◌==◌, if◌then◌else◌}

-- lhs == rhs
abbrev pub str_eq : String → String → Bool
str_eq s t = text_eq s t

-- lhs < rhs, byte by byte
abbrev pub str_lt : String → String → Bool
str_lt s t = is_lt (String.compare s t)

-- s.empty()
abbrev pub is_empty : String → Bool
is_empty s = text_eq s ""

-- lhs + rhs
infixl 65 ◌<>◌
abbrev pub ◌<>◌ : String → String → String
s <> t = String.◌++◌ s t

digit : ℕ → String
digit d =
    if d == 0
    then "0"
    else if d == 1
    then "1"
    else if d == 2
    then "2"
    else if d == 3
    then "3"
    else if d == 4
    then "4"
    else if d == 5
    then "5"
    else if d == 6
    then "6"
    else if d == 7
    then "7"
    else if d == 8
    then "8"
    else "9"

to_string_fuel : ℕ → ℕ → String
unfolding digit
to_string_fuel zero n = ""
to_string_fuel (suc fuel) n =
    let rest = to_string_fuel fuel (n / 10) in if ltb n 10 then digit n else rest <> digit (n % 10)

-- std::to_string: twenty digits hold every 64-bit number.
pub to_string : ℕ → String
unfolding to_string_fuel
to_string n = to_string_fuel 20 n

to_string_example : to_string 18446744073709551615 ≡ "18446744073709551615"
unfolding to_string
to_string_example = refl

-- The order of texts is asymmetric.
pub str_lt_asymm : (s t : String) → str_lt s t ≡ true → str_lt t s ≡ false
str_lt_asymm String.[] String.[] h = cc
str_lt_asymm String.[] (String.◌∷◌ d t) h = rw compare.cons-nil
str_lt_asymm (String.◌∷◌ c s) String.[] h = cc (ap is_lt (compare.cons-nil c s))
str_lt_asymm (String.◌∷◌ c s) (String.◌∷◌ d t) h =
    rw compare.cons-cons (let h' = rw compare.cons-cons at h in ground (arith, str_lt_asymm s t))
