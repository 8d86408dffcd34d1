-- ===== src/Sim/Settlement/Remainders.antt =====
-- Remainders make the pace of a settlement independent of how its time is cut into steps.
use city_life_core.Prelude.{
  ℕ, ◌+◌, ◌*◌, ◌%◌, ◌≤◌, ◌<◌, ◌≡◌, inl, inr, true, ◌||◌, String, List, [], ◌∷◌, u64_max, ◌==◌,
  if◌then◌else◌, str_eq, arith, eq_iff, Bool-cases, saturating_add, saturating_multiply,
  saturating_add-eq-min, saturating_multiply-eq-min,
}
use city_life_core.Sim.Settlement.{
  SettlementTickRemainder, remainder_by_key, set_remainder, numerator_at, consume_scaled_units,
}

pub numerator_at-set_remainder :
    (rs : List SettlementTickRemainder) (k j : String) (n : ℕ)
    → numerator_at (set_remainder rs k n) j ≡ (if str_eq k j then n else numerator_at rs j)
unfolding remainder_by_key set_remainder
numerator_at-set_remainder [] k j n = ground arith
numerator_at-set_remainder (r ∷ rs) k j n =
    ground (arith, eq_iff k j, eq_iff r.key k, eq_iff r.key j, numerator_at-set_remainder rs k j n)

zero_product : (a b : ℕ) → (a == 0 || b == 0) ≡ true → a * b ≡ 0
zero_product a b h = grind arith

-- Whole units and the remainder carried, as one exact count in units of a tick.
consume-exact :
    (rs : List SettlementTickRemainder) (key : String) (units ticks : ℕ)
    → numerator_at rs key < 86400
    → numerator_at rs key + units * ticks ≤ u64_max
    → let (rs', whole) = consume_scaled_units rs key units ticks in
      (whole * 86400 + numerator_at rs' key ≡ numerator_at rs key + units * ticks)
      × (numerator_at rs' key < 86400)
unfolding consume_scaled_units
consume-exact rs key units ticks small fits = elim (Bool-cases (units == 0 || ticks == 0)) [
  | inl e ↦ let none_used = zero_product units ticks e in rw e (omega arith, small)
  | inr e ↦
      let product = saturating_multiply-eq-min units ticks in
      let total =
        saturating_add-eq-min (numerator_at rs key) (saturating_multiply units ticks)
          (omega arith) in
      let n = saturating_add (numerator_at rs key) (saturating_multiply units ticks) in
      let kept : numerator_at (set_remainder rs key (n % 86400)) key ≡ n % 86400 =
        ground (arith, numerator_at-set_remainder rs key key (n % 86400), eq_iff key key) in
      rw e (omega arith, omega arith)
]

-- From a remainder below a day, two steps of the clock use up exactly what one step by their sum
-- does, and leave the same remainder: how a day is cut into ticks changes nothing, as long as the
-- counts fit 64 bits.
consume_scaled_units-steps :
    (rs : List SettlementTickRemainder) (key : String) (units s t : ℕ)
    → numerator_at rs key < 86400
    → numerator_at rs key + units * (s + t) ≤ u64_max
    → let (rs1, first) = consume_scaled_units rs key units s in
      let (rs2, second) = consume_scaled_units rs1 key units t in
      let (rs3, once) = consume_scaled_units rs key units (s + t) in
      (first + second ≡ once) × (numerator_at rs2 key ≡ numerator_at rs3 key)
consume_scaled_units-steps rs key units s t small fits =
    let split : units * (s + t) ≡ units * s + units * t = omega arith in
    let (rs1, first) = consume_scaled_units rs key units s in
    let (a, a') = consume-exact rs key units s small (omega arith) in
    let (b, b') = consume-exact rs1 key units t a' (omega arith) in
    let (c, c') = consume-exact rs key units (s + t) small fits in (omega arith, omega arith)
