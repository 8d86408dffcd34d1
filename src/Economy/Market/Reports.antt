-- ===== src/Economy/Market/Reports.antt =====
-- The figures of a market report bound its prices.
use city_life_core.Prelude.{
  ℕ, ◌+◌, ◌*◌, ◌/◌, ◌≤◌, ◌<◌, ◌≡◌, refl, List, [], ◌∷◌, length, min, max, u64_max, arith, All,
  sum_by, saturating_add, saturating_add-eq-min,
}
use city_life_core.Economy.Market.{
  MarketPrice, MarketReport, add_prices, start_report, report_of_prices,
}

-- The extremes, totals and prices of a report after more prices.
abbrev Extends : MarketReport → ℕ → MarketReport → ℕ → List MarketPrice → Type 0
Extends r' total' r total ps =
    (r'.min_price ≤ r.min_price)
    × (r.max_price ≤ r'.max_price)
    × All (λ p. (r'.min_price ≤ p.price) × (p.price ≤ r'.max_price)) ps
    × (total' ≡ min (total + sum_by (λ p. p.price) ps) u64_max)
    × (r'.prices ≡ r.prices)

add_prices-Extends :
    (r : MarketReport) (total : ℕ) (ps : List MarketPrice)
    → total ≤ u64_max
    → let (r', total') = add_prices r total ps in Extends r' total' r total ps
unfolding add_prices
add_prices-Extends r total [] h = (omega arith, omega arith, tt, omega arith, refl)
add_prices-Extends r total (p ∷ ps) h =
    let sum = saturating_add-eq-min total p.price h in
    let next : MarketReport = record r {
      total_supply = saturating_add r.total_supply p.supply;
      total_demand = saturating_add r.total_demand p.demand;
      min_price = min r.min_price p.price;
      max_price = max r.max_price p.price;
    } in
    let (lo, hi, all, tot, same) =
      add_prices-Extends next (saturating_add total p.price) ps (omega arith) in
    (omega arith, omega arith, ((omega arith, omega arith), all), omega arith, same)

sum_between :
    (lo hi : ℕ) (ps : List MarketPrice)
    → All (λ p. (lo ≤ p.price) × (p.price ≤ hi)) ps
    → (lo * length ps ≤ sum_by (λ p. p.price) ps) × (sum_by (λ p. p.price) ps ≤ hi * length ps)
sum_between lo hi [] h = (omega arith, omega arith)
sum_between lo hi (p ∷ ps) ((l, u), hs) =
    let (a, b) = sum_between lo hi ps hs in (omega arith, omega arith)

quotient_between :
    (lo hi sum n : ℕ) → 0 < n → lo * n ≤ sum → sum ≤ hi * n → (lo ≤ sum / n) × (sum / n ≤ hi)
quotient_between lo hi sum n p l u = (grind arith, grind arith)

-- The report of any prices lies between them: no price is below the minimum or above the maximum,
-- and, where the sum of the prices fits 64 bits, the average lies between the two.
report_of_prices-bounds :
    (p : MarketPrice) (ps : List MarketPrice)
    → sum_by (λ x. x.price) (p ∷ ps) ≤ u64_max
    → let r = report_of_prices (p ∷ ps) in
      All (λ x. (r.min_price ≤ x.price) × (x.price ≤ r.max_price)) (p ∷ ps)
      × (r.min_price ≤ r.average_price)
      × (r.average_price ≤ r.max_price)
unfolding report_of_prices
report_of_prices-bounds p ps fits =
    let (r, total) = add_prices (start_report (p ∷ ps) u64_max) 0 (p ∷ ps) in
    let (lo, hi, all, tot, same) =
      add_prices-Extends (start_report (p ∷ ps) u64_max) 0 (p ∷ ps) (omega arith) in
    let (a, b) = sum_between r.min_price r.max_price (p ∷ ps) all in
    let (c, d) =
      quotient_between r.min_price r.max_price total (length (p ∷ ps)) (omega arith) (omega arith)
        (omega arith) in
    (all, c, d)
