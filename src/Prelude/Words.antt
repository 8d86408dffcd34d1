-- ===== src/Prelude/Words.antt =====
-- `std::uint64_t`: its largest value, and the overflow-aware helpers that the source repeats in the
-- anonymous namespace of several files.
use Prim.Native.Nat.{ℕ, zero, suc, ◌+◌, ◌-◌, ◌*◌, ◌/◌, ◌%◌, ◌≤◌, ◌<◌, min}
use mathlib.Core.Bool.{Bool, true, false, not, ◌&&◌}
use mathlib.Core.Path.{◌≡◌}
use native.Mathlib.Omega.{arith}
use mathlib.Core.Logic.{inl, inr}
use city_life_core.Prelude.Tests.{ltb, ◌==◌, if◌then◌else◌, Bool-cases}

-- std::numeric_limits<std::uint64_t>::max()
abbrev pub u64_max : ℕ
u64_max = 18446744073709551615

-- Unsigned arithmetic wraps around.
abbrev pub wrap64 : ℕ → ℕ
wrap64 n = n % 18446744073709551616

abbrev pub saturating_add : ℕ → ℕ → ℕ
saturating_add lhs rhs = if ltb (u64_max - lhs) rhs then u64_max else lhs + rhs

abbrev pub multiply_overflows : ℕ → ℕ → Bool
multiply_overflows lhs rhs = not (lhs == 0) && ltb (u64_max / lhs) rhs

abbrev pub saturating_multiply : ℕ → ℕ → ℕ
saturating_multiply lhs rhs = if multiply_overflows lhs rhs then u64_max else lhs * rhs

pub saturating_add-eq-min : (a b : ℕ) → a ≤ u64_max → saturating_add a b ≡ min (a + b) u64_max
saturating_add-eq-min a b h = ground arith

mul-le-of-le-div : (n a b : ℕ) → 0 < a → b ≤ n / a → a * b ≤ n
mul-le-of-le-div n a b p h = grind arith

lt-mul-of-div-lt : (n a b : ℕ) → 0 < a → n / a < b → n < a * b
lt-mul-of-div-lt n a b p h = grind arith

pub multiply_overflows-false : (a b : ℕ) → multiply_overflows a b ≡ false → a * b ≤ u64_max
multiply_overflows-false zero b h = omega arith
multiply_overflows-false (suc a) b h = ground (arith, mul-le-of-le-div u64_max (suc a) b)

pub multiply_overflows-true : (a b : ℕ) → multiply_overflows a b ≡ true → u64_max < a * b
multiply_overflows-true a b h = ground (arith, lt-mul-of-div-lt u64_max a b)

-- A product that may overflow is cut off at the largest value.
pub saturating_multiply-eq-min : (a b : ℕ) → saturating_multiply a b ≡ min (a * b) u64_max
saturating_multiply-eq-min a b = elim (Bool-cases (multiply_overflows a b)) [
  | inl e ↦ rw e (omega (arith, multiply_overflows-true a b e))
  | inr e ↦ rw e (omega (arith, multiply_overflows-false a b e))
]
