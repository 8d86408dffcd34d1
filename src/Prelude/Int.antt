-- ===== src/Prelude/Int.antt =====
-- `std::int64_t` values as integers over the native numbers; `negsuc n` is -(n + 1).
use city_life_core.Prelude.Tests.{ltb, leb, if◌then◌else◌}
use Prim.Native.Nat.{ℕ, suc, ◌+◌, ◌-◌}
use mathlib.Core.Bool.{Bool}

pub data ℤ : Type 0 where
  pos : ℕ → ℤ
  negsuc : ℕ → ℤ

abbrev pub pos_part : ℤ → ℕ
pos_part (pos n) = n
pos_part (negsuc n) = 0

abbrev pub neg_part : ℤ → ℕ
neg_part (pos n) = 0
neg_part (negsuc n) = suc n

abbrev pub ltb_ℤ : ℤ → ℤ → Bool
ltb_ℤ a b = ltb (pos_part a + neg_part b) (pos_part b + neg_part a)

abbrev pub leb_ℤ : ℤ → ℤ → Bool
leb_ℤ a b = leb (pos_part a + neg_part b) (pos_part b + neg_part a)

-- std::numeric_limits<std::int64_t>::max()
abbrev pub i64_max : ℕ
i64_max = 9223372036854775807

-- saturating_signed_difference of Ledger.cpp; the least 64-bit integer is `negsuc i64_max`.
pub saturating_signed_difference : ℕ → ℕ → ℤ
saturating_signed_difference positive negative =
    if leb negative positive
    then if ltb i64_max (positive - negative) then pos i64_max else pos (positive - negative)
    else if ltb i64_max (negative - positive)
    then negsuc i64_max
    else negsuc (negative - positive - 1)
