-- ===== src/Economy/Pressure/Bounds.antt =====
-- What the pressure signals promise.
use city_life_core.Prelude.{
  ℕ, ◌+◌, ◌*◌, ◌/◌, ◌≤◌, ◌<◌, ◌≡◌, ◌∙◌, refl, inl, inr, Bool, true, false, ◌&&◌, List, [], ◌∷◌, ltb,
  ◌==◌, arith, length, Bool-cases, count_if,
}
use city_life_core.Economy.Market.{MarketPrice, MarketReport}
use city_life_core.Economy.Pressure.{
  MarketPressureLevel, balanced, shortage, surplus, depleted, MarketResourceSignal, MarketSnapshot,
  classify_market_pressure, market_pressure_ratio_basis_points, make_market_resource_signal,
  add_signal, add_signals, signals_of, start_snapshot, make_market_snapshot,
}

full_share : (n : ℕ) → 0 < n → n * 10000 / n ≡ 10000
full_share n h = grind arith

ratio-le : (supply demand : ℕ) → market_pressure_ratio_basis_points supply demand ≤ 10000
unfolding market_pressure_ratio_basis_points
ratio-le supply demand = ground arith

ratio-depleted : (demand : ℕ) → 0 < demand → market_pressure_ratio_basis_points 0 demand ≡ 10000
unfolding market_pressure_ratio_basis_points
ratio-depleted demand h = ground (arith, full_share demand h)

ratio-balanced : (n : ℕ) → market_pressure_ratio_basis_points n n ≡ 0
unfolding market_pressure_ratio_basis_points
ratio-balanced n = ground arith

-- What a level says of the price that it was computed from and of the signal that carries it.
abbrev pub Means : MarketPressureLevel → MarketPrice → MarketResourceSignal → Type 0
Means balanced p s =
    (p.supply ≡ p.demand) × (s.pressure_basis_points ≡ 0) × (s.can_fulfill_demand ≡ true)
Means shortage p s =
    (0 < p.supply)
    × (p.supply < p.demand)
    × (s.pressure_basis_points ≤ 10000)
    × (s.can_fulfill_demand ≡ false)
Means surplus p s =
    (p.demand < p.supply) × (s.pressure_basis_points ≤ 10000) × (s.can_fulfill_demand ≡ true)
Means depleted p s =
    (p.supply ≡ 0)
    × (0 < p.demand)
    × (s.pressure_basis_points ≡ 10000)
    × (s.can_fulfill_demand ≡ false)

-- The level of a signal says how supply and demand compare. The pressure lies between 0 and 10000
-- basis points, is 0 in balance and 10000 where there is demand and no supply, and the demand
-- counts as fulfillable at the levels balanced and surplus alone.
make_market_resource_signal-Means :
    (p : MarketPrice) → let s = make_market_resource_signal p in Means s.pressure p s
unfolding make_market_resource_signal classify_market_pressure
make_market_resource_signal-Means p =
    let low = ratio-le p.supply p.demand in
    elim (Bool-cases (ltb 0 p.demand && p.supply == 0)) [
      | inl e ↦
          let none_left : p.supply ≡ 0 = ground arith in
          rw e (
            ground arith,
            ground arith,
            rw none_left (ratio-depleted p.demand (ground arith)),
            ground arith,
          )
      | inr e ↦ elim (Bool-cases (ltb p.supply p.demand)) [
        | inl s ↦ rw (e, s) (ground arith, ground arith, low, ground arith)
        | inr s ↦ elim (Bool-cases (ltb p.demand p.supply)) [
          | inl o ↦ rw (e, s, o) (ground arith, low, ground arith)
          | inr o ↦
              let even : p.supply ≡ p.demand = ground arith in
              rw (e, s, o) (even, rw even (ratio-balanced p.demand), ground arith)
        ]
      ]
    ]

-- How many signals have a level that passes a test.
abbrev pub at_level : (MarketPressureLevel → Bool) → List MarketResourceSignal → ℕ
at_level test = count_if (λ s. test s.pressure)

abbrev pub is_balanced : MarketPressureLevel → Bool
is_balanced balanced = true
is_balanced _ = false

abbrev pub is_shortage : MarketPressureLevel → Bool
is_shortage shortage = true
is_shortage _ = false

abbrev pub is_surplus : MarketPressureLevel → Bool
is_surplus surplus = true
is_surplus _ = false

abbrev pub is_depleted : MarketPressureLevel → Bool
is_depleted depleted = true
is_depleted _ = false

-- The counters of a snapshot after some signals.
abbrev Counted : MarketSnapshot → MarketSnapshot → List MarketResourceSignal → Type 0
Counted s' s xs =
    (s'.balanced_count ≡ s.balanced_count + at_level is_balanced xs)
    × (s'.shortage_count ≡ s.shortage_count + at_level is_shortage xs)
    × (s'.surplus_count ≡ s.surplus_count + at_level is_surplus xs)
    × (s'.depleted_count ≡ s.depleted_count + at_level is_depleted xs)
    × (s'.signals ≡ s.signals)

add_signal-Counted :
    (s : MarketSnapshot) (h : ℕ) (x : MarketResourceSignal)
    → Counted (add_signal s h x).0 s (x ∷ [])
unfolding add_signal
add_signal-Counted s h x = (ground arith, ground arith, ground arith, ground arith, ground arith)

add_signals-Counted :
    (s : MarketSnapshot) (h : ℕ) (xs : List MarketResourceSignal)
    → Counted (add_signals s h xs).0 s xs
unfolding add_signals
add_signals-Counted s h [] = (omega arith, omega arith, omega arith, omega arith, refl)
add_signals-Counted s h (x ∷ xs) =
    let (s', h') = add_signal s h x in
    let (b, sh, su, d, k) = add_signal-Counted s h x in
    let (b', sh', su', d', k') = add_signals-Counted s' h' xs in
    (omega arith, omega arith, omega arith, omega arith, k' ∙ k)

length-signals_of : (ps : List MarketPrice) → length (signals_of ps) ≡ length ps
unfolding signals_of
length-signals_of [] = refl
length-signals_of (p ∷ ps) = omega (arith, length-signals_of ps)

levels_total :
    (xs : List MarketResourceSignal)
    → at_level is_balanced xs
        + at_level is_shortage xs
        + at_level is_surplus xs
        + at_level is_depleted xs
      ≡ length xs
levels_total [] = refl
levels_total (x ∷ xs) = ground (arith, levels_total xs)

-- A snapshot has one signal for each price of the report, its four counters are the numbers of
-- signals at each level, and together they count every signal once.
make_market_snapshot-counts :
    (r : MarketReport)
    → let s = make_market_snapshot r in
      (length s.signals ≡ length r.prices)
      × (s.balanced_count ≡ at_level is_balanced s.signals)
      × (s.shortage_count ≡ at_level is_shortage s.signals)
      × (s.surplus_count ≡ at_level is_surplus s.signals)
      × (s.depleted_count ≡ at_level is_depleted s.signals)
      × (s.balanced_count + s.shortage_count + s.surplus_count + s.depleted_count
          ≡ length s.signals)
unfolding make_market_snapshot
make_market_snapshot-counts r =
    let xs = signals_of r.prices in
    let (b, sh, su, d, k) = add_signals-Counted (start_snapshot r xs) 0 xs in
    rw k (
      length-signals_of r.prices,
      omega arith,
      omega arith,
      omega arith,
      omega arith,
      omega (arith, levels_total xs),
    )
