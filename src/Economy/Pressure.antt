-- ===== src/Economy/Pressure.antt =====
-- include/clc/economy/Market.hpp and src/clc/economy/Market.cpp: the snapshot of market pressures.
-- The counters that count list elements do not wrap.
pub mod Bounds
use city_life_core.Prelude.{
  ℕ, ◌+◌, ◌-◌, ◌*◌, ◌/◌, Bool, true, false, not, ◌&&◌, ◌||◌, String, Option, none, some, List, [],
  ◌∷◌, length, find_if, min, max, u64_max, ltb, leb, ◌==◌, if◌then◌else◌, is_empty, str_eq, ◌<>◌,
  to_string, saturating_add,
}
use city_life_core.Economy.Market.{MarketPrice, MarketReport}

-- enum class MarketPressureLevel
pub data MarketPressureLevel : Type 0 where
  balanced shortage surplus depleted : MarketPressureLevel

-- struct MarketResourceSignal
pub record MarketResourceSignal : Type 0 where
  pub resource_id : String
  pub supply : ℕ
  pub demand : ℕ
  pub unit_price : ℕ
  pub base_value : ℕ
  pub absolute_gap : ℕ
  pub pressure_basis_points : ℕ
  pub pressure : MarketPressureLevel
  pub can_fulfill_demand : Bool
  pub reason : String

-- struct MarketSnapshot
pub record MarketSnapshot : Type 0 where
  pub signals : List MarketResourceSignal
  pub total_supply : ℕ
  pub total_demand : ℕ
  pub shortage_count : ℕ
  pub surplus_count : ℕ
  pub depleted_count : ℕ
  pub balanced_count : ℕ
  pub total_pressure_basis_points : ℕ
  pub highest_pressure_resource_id : String

abbrev pub absolute_gap : ℕ → ℕ → ℕ
absolute_gap lhs rhs = if ltb rhs lhs then lhs - rhs else rhs - lhs

-- market_pressure_name
pub market_pressure_name : MarketPressureLevel → String
market_pressure_name balanced = "balanced"
market_pressure_name shortage = "shortage"
market_pressure_name surplus = "surplus"
market_pressure_name depleted = "depleted"

-- classify_market_pressure
pub classify_market_pressure : ℕ → ℕ → MarketPressureLevel
classify_market_pressure supply demand =
    if ltb 0 demand && supply == 0
    then depleted
    else if ltb supply demand
    then shortage
    else if ltb demand supply
    then surplus
    else balanced

-- market_pressure_ratio_basis_points
pub market_pressure_ratio_basis_points : ℕ → ℕ → ℕ
market_pressure_ratio_basis_points supply demand =
    let denominator = max (max supply demand) 1 in
    let gap = absolute_gap supply demand in
    if ltb (u64_max / 10000) gap then 10000 else min (gap * 10000 / denominator) 10000

-- make_market_resource_signal
pub make_market_resource_signal : MarketPrice → MarketResourceSignal
make_market_resource_signal p = record {
  resource_id = p.resource_id;
  supply = p.supply;
  demand = p.demand;
  unit_price = p.price;
  base_value = p.base_value;
  absolute_gap = absolute_gap p.supply p.demand;
  pressure_basis_points = market_pressure_ratio_basis_points p.supply p.demand;
  pressure = classify_market_pressure p.supply p.demand;
  can_fulfill_demand = p.demand == 0 || leb p.demand p.supply;
  reason = elim (classify_market_pressure p.supply p.demand) [
    | depleted ↦ "demand exists with no supply"
    | _ ↦ p.reason
  ];
}

-- The `switch` of make_market_snapshot.
count_pressure : MarketPressureLevel → MarketSnapshot → MarketSnapshot
count_pressure balanced s = record s { balanced_count = s.balanced_count + 1 }
count_pressure shortage s = record s { shortage_count = s.shortage_count + 1 }
count_pressure surplus s = record s { surplus_count = s.surplus_count + 1 }
count_pressure depleted s = record s { depleted_count = s.depleted_count + 1 }

-- The body of the loop: the snapshot and the highest pressure so far.
add_signal : MarketSnapshot → ℕ → MarketResourceSignal → MarketSnapshot × ℕ
unfolding count_pressure
add_signal s highest signal =
    let counted = count_pressure signal.pressure (record s {
      total_pressure_basis_points =
          saturating_add s.total_pressure_basis_points signal.pressure_basis_points;
    }) in
    if ltb highest signal.pressure_basis_points
    then (
      record counted { highest_pressure_resource_id = signal.resource_id },
      signal.pressure_basis_points,
    )
    else (counted, highest)

add_signals : MarketSnapshot → ℕ → List MarketResourceSignal → MarketSnapshot × ℕ
unfolding add_signal
add_signals s highest [] = (s, highest)
add_signals s highest (signal ∷ signals) =
    let (s', highest') = add_signal s highest signal in add_signals s' highest' signals

signals_of : List MarketPrice → List MarketResourceSignal
unfolding make_market_resource_signal
signals_of [] = []
signals_of (p ∷ ps) = make_market_resource_signal p ∷ signals_of ps

abbrev start_snapshot : MarketReport → List MarketResourceSignal → MarketSnapshot
start_snapshot r signals = record {
  signals = signals;
  total_supply = r.total_supply;
  total_demand = r.total_demand;
  shortage_count = 0;
  surplus_count = 0;
  depleted_count = 0;
  balanced_count = 0;
  total_pressure_basis_points = 0;
  highest_pressure_resource_id = "";
}

-- make_market_snapshot. The signals are pushed in the order of the prices.
pub make_market_snapshot : MarketReport → MarketSnapshot
unfolding signals_of add_signals
make_market_snapshot r =
    let signals = signals_of r.prices in (add_signals (start_snapshot r signals) 0 signals).0

-- market_signal_by_resource
pub market_signal_by_resource : MarketSnapshot → String → Option MarketResourceSignal
market_signal_by_resource s id = find_if (λ x. str_eq x.resource_id id) s.signals

-- market_snapshot_digest
pub market_snapshot_digest : MarketSnapshot → String
market_snapshot_digest s =
    "market_snapshot;resources="
    <> to_string (length s.signals)
    <> ";supply="
    <> to_string s.total_supply
    <> ";demand="
    <> to_string s.total_demand
    <> ";balanced="
    <> to_string s.balanced_count
    <> ";shortage="
    <> to_string s.shortage_count
    <> ";surplus="
    <> to_string s.surplus_count
    <> ";depleted="
    <> to_string s.depleted_count
    <> ";pressure_bp="
    <> to_string s.total_pressure_basis_points
    <> (if is_empty s.highest_pressure_resource_id
        then ""
        else ";highest_pressure=" <> s.highest_pressure_resource_id)
