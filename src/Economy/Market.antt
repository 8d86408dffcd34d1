-- ===== src/Economy/Market.antt =====
-- include/clc/economy/Market.hpp and src/clc/economy/Market.cpp: prices from supply and demand
-- and the market report. The pressures are in `Pressure`.
pub mod Pricing
pub mod Reports
pub mod Demands
use city_life_core.Prelude.{
  ℕ, ◌+◌, ◌-◌, ◌*◌, ◌/◌, Bool, true, false, not, ◌&&◌, ◌||◌, String, Option, none, some, List, [],
  ◌∷◌, length, find_if, min, max, u64_max, ltb, leb, ◌==◌, if◌then◌else◌, is_empty, str_eq, str_lt,
  ◌<>◌, to_string, saturating_add, saturating_multiply,
}
use city_life_core.Prelude.UnorderedMap.{UnorderedMap, find, assign, erase}
use city_life_core.Prelude.Sort.{sort}
use city_life_core.Data.Validation.{ValidationReport, empty_report, error_report}
use city_life_core.Data.Registry.{DataRegistry, ResourceDefinition, resource}
use city_life_core.Sim.Storage.{ResourceStorage}

-- struct MarketPrice
pub record MarketPrice : Type 0 where
  pub resource_id : String
  pub base_value : ℕ
  pub supply : ℕ
  pub demand : ℕ
  pub price : ℕ
  pub reason : String

-- struct MarketReport
pub record MarketReport : Type 0 where
  pub prices : List MarketPrice
  pub total_supply : ℕ
  pub total_demand : ℕ
  pub average_price : ℕ
  pub min_price : ℕ
  pub max_price : ℕ

-- class MarketState
pub record MarketState : Type 0 where
  pub demands : UnorderedMap ℕ

-- MarketState::set_demand
pub set_demand : MarketState → String → ℕ → MarketState × ValidationReport
set_demand m resource_id demand_value =
    if is_empty resource_id
    then (m, error_report "market" "resource_id must not be empty")
    else if demand_value == 0
    then (record { demands = erase resource_id m.demands }, empty_report)
    else (record { demands = assign resource_id demand_value m.demands }, empty_report)

abbrev or_zero : Option ℕ → ℕ
or_zero none = 0
or_zero (some n) = n

-- MarketState::demand
pub demand : MarketState → String → ℕ
demand m resource_id = or_zero (find resource_id m.demands)

-- The branch of calculate_price for a shortage.
premium_price : ℕ → ℕ → ℕ → ℕ
premium_price base_value supply demand =
    let premium = saturating_multiply base_value (demand - supply) / max demand 1 in
    saturating_add base_value (max premium 1)

-- The branch of calculate_price for a surplus.
discount_price : ℕ → ℕ → ℕ → ℕ
discount_price base_value supply demand =
    let discount = saturating_multiply base_value (supply - demand) / supply in
    if leb base_value discount then 1 else max (base_value - discount) 1

-- The price part of calculate_price, from `std::max(resource.base_value, 1)`.
pub price_of : ℕ → ℕ → ℕ → ℕ
price_of base_value supply demand =
    if ltb supply demand
    then premium_price base_value supply demand
    else if ltb demand supply && ltb 0 supply
    then discount_price base_value supply demand
    else base_value

abbrev reason_of : ℕ → ℕ → String
reason_of supply demand =
    if ltb supply demand
    then "demand exceeds supply"
    else if ltb demand supply && ltb 0 supply
    then "supply exceeds demand"
    else "balanced"

-- calculate_price
pub calculate_price : ResourceDefinition → ℕ → ℕ → MarketPrice
unfolding price_of
calculate_price d supply demand =
    let base_value = max d.base_value 1 in
    record {
      resource_id = d.id;
      base_value = base_value;
      supply = supply;
      demand = demand;
      price = price_of base_value supply demand;
      reason = reason_of supply demand;
    }

abbrev quote : Option ResourceDefinition → ℕ → ℕ → List MarketPrice → List MarketPrice
quote none supply demand rest = rest
quote (some d) supply demand rest = calculate_price d supply demand ∷ rest

-- The loop over the storage.
supply_prices : DataRegistry → MarketState → UnorderedMap ℕ → List MarketPrice
supply_prices registry market [] = []
supply_prices registry market ((id, supply) ∷ entries) =
    quote (resource registry id) supply (demand market id) (supply_prices registry market entries)

-- `included_resource_ids.find(id)`: the storage lists the id and the registry knows it.
is_included : DataRegistry → UnorderedMap ℕ → String → Bool
is_included registry entries id = elim (find id entries) [
  | none ↦ false
  | some _ ↦ elim (resource registry id) [ none ↦ false | some _ ↦ true ]
]

-- The loop over the demands: what the storage has none of.
demand_prices : DataRegistry → UnorderedMap ℕ → UnorderedMap ℕ → List MarketPrice
unfolding is_included
demand_prices registry entries [] = []
demand_prices registry entries ((id, demand) ∷ demands) =
    let rest = demand_prices registry entries demands in
    if is_included registry entries id then rest else quote (resource registry id) 0 demand rest

abbrev price_before : MarketPrice → MarketPrice → Bool
price_before lhs rhs = str_lt lhs.resource_id rhs.resource_id

append_prices : List MarketPrice → List MarketPrice → List MarketPrice
append_prices [] ys = ys
append_prices (x ∷ xs) ys = x ∷ append_prices xs ys

-- calculate_market_prices
pub calculate_market_prices : DataRegistry → ResourceStorage → MarketState → List MarketPrice
unfolding supply_prices demand_prices append_prices
calculate_market_prices registry storage market = sort price_before (
    append_prices (supply_prices registry market storage.entries)
      (demand_prices registry storage.entries market.demands))

-- The loop of make_market_report, with the running total of the prices.
add_prices : MarketReport → ℕ → List MarketPrice → MarketReport × ℕ
add_prices r total [] = (r, total)
add_prices r total (p ∷ ps) =
    add_prices
      (record r {
        total_supply = saturating_add r.total_supply p.supply;
        total_demand = saturating_add r.total_demand p.demand;
        min_price = min r.min_price p.price;
        max_price = max r.max_price p.price;
      })
      (saturating_add total p.price) ps

abbrev start_report : List MarketPrice → ℕ → MarketReport
start_report prices least = record {
  prices = prices;
  total_supply = 0;
  total_demand = 0;
  average_price = 0;
  min_price = least;
  max_price = 0;
}

-- make_market_report, from the prices on.
pub report_of_prices : List MarketPrice → MarketReport
unfolding add_prices
report_of_prices [] = start_report [] 0
report_of_prices (p ∷ ps) =
    let (r, total) = add_prices (start_report (p ∷ ps) u64_max) 0 (p ∷ ps) in
    record r { average_price = total / length (p ∷ ps) }

-- make_market_report
pub make_market_report : DataRegistry → ResourceStorage → MarketState → MarketReport
unfolding calculate_market_prices report_of_prices
make_market_report registry storage market =
    report_of_prices (calculate_market_prices registry storage market)

-- market_price_by_resource
pub market_price_by_resource : MarketReport → String → Option MarketPrice
market_price_by_resource r id = find_if (λ p. str_eq p.resource_id id) r.prices

-- market_price_or
pub market_price_or : MarketReport → String → ℕ → ℕ
unfolding market_price_by_resource
market_price_or r id fallback = elim (market_price_by_resource r id) [
  | none ↦ fallback
  | some p ↦ p.price
]
