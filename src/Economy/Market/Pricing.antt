-- ===== src/Economy/Market/Pricing.antt =====
-- The price of a resource stays in a band around its base value, and moves with scarcity.
use city_life_core.Prelude.{
  ℕ, ◌+◌, ◌-◌, ◌*◌, ◌/◌, ◌≤◌, ◌<◌, ◌≡◌, ◌⊎◌, inl, inr, lt_cases, min, max, u64_max, arith,
  saturating_multiply, saturating_multiply-eq-min, saturating_add-eq-min,
}
use city_life_core.Data.Registry.{ResourceDefinition}
use city_life_core.Economy.Market.{premium_price, discount_price, calculate_price}

-- A share of the base value is at most the base value, also when the product saturates.
share-le : (base part whole : ℕ) → part ≤ whole → 0 < whole → base * part / whole ≤ base
share-le base part whole h p = grind arith

div_mono : (a b c : ℕ) → a ≤ b → a / c ≤ b / c
div_mono a b c h = grind arith

saturated_share-le :
    (base part whole : ℕ) → part ≤ whole → 0 < whole → saturating_multiply base part / whole ≤ base
saturated_share-le base part whole h p = omega (
  arith,
  saturating_multiply-eq-min base part,
  share-le base part whole h p,
  div_mono (saturating_multiply base part) (base * part) whole
      (omega (arith, saturating_multiply-eq-min base part)),
)

-- Where the price of a resource lies for its base value, supply and demand.
abbrev pub InBand : ℕ → ℕ → ℕ → ℕ → Type 0
InBand base supply demand price =
    ((supply < demand) × (min (base + 1) u64_max ≤ price) × (price ≤ min (base + base) u64_max))
    ⊎ ((demand < supply) × (1 ≤ price) × (price ≤ base))
    ⊎ ((supply ≡ demand) × (price ≡ base))

premium_price-bounds :
    (base supply demand : ℕ)
    → base ≤ u64_max
    → 0 < base
    → supply < demand
    → (min (base + 1) u64_max ≤ premium_price base supply demand)
      × (premium_price base supply demand ≤ min (base + base) u64_max)
unfolding premium_price
premium_price-bounds base supply demand h p lt =
    let premium = saturating_multiply base (demand - supply) / max demand 1 in
    let share =
      saturated_share-le base (demand - supply) (max demand 1) (omega arith) (omega arith) in
    let total = saturating_add-eq-min base (max premium 1) h in (omega arith, omega arith)

discount_price-bounds :
    (base supply demand : ℕ)
    → 0 < base
    → (1 ≤ discount_price base supply demand) × (discount_price base supply demand ≤ base)
unfolding discount_price
discount_price-bounds base supply demand p = (ground arith, ground arith)

-- For a 64-bit base value, a scarce resource costs more than its base value and at most twice of
-- it, an abundant one at least one coin and at most its base value, and one in balance exactly its
-- base value, where a base value of zero counts as one and no price passes the largest 64-bit
-- number.
pub calculate_price-InBand :
    (d : ResourceDefinition) (supply demand : ℕ)
    → d.base_value ≤ u64_max
    → let p = calculate_price d supply demand in InBand (max d.base_value 1) supply demand p.price
unfolding calculate_price
calculate_price-InBand d supply demand h = elim (lt_cases supply demand) [
  | inl short ↦
      let bounds =
        premium_price-bounds (max d.base_value 1) supply demand (omega arith) (omega arith) short in
      inl (short, ground arith, ground arith)
  | inr (inl over) ↦
      let bounds = discount_price-bounds (max d.base_value 1) supply demand (omega arith) in
      inr (inl (over, ground arith, ground arith))
  | inr (inr even) ↦ inr (inr (even, ground arith))
]
