-- ===== src/Sim/Engine/Saving.antt =====
-- SimulationEngine::export_state and restore_state. A `std::unordered_set` of ids is the list of
-- those inserted.
pub mod Checks
pub mod Restoring
use city_life_core.Prelude.{
  ℕ, Bool, true, false, not, ◌||◌, String, List, [], ◌∷◌, map, ◌==◌, if◌then◌else◌, is_empty,
  is_some, str_eq, ◌<>◌,
}
use city_life_core.Prelude.UnorderedMap.{UnorderedMap}
use city_life_core.Data.Validation.{
  ValidationReport, empty_report, add_error, error_if, merge_validation, ok,
}
use city_life_core.Data.Registry.{DataRegistry, resource}
use city_life_core.Economy.Market.{MarketState, set_demand}
use city_life_core.Sim.Settlement.{SettlementState}
use city_life_core.Sim.Engine.{SimulationEngine, SimulationEvent}

-- struct SimulationMarketDemand
pub record SimulationMarketDemand : Type 0 where
  pub resource_id : String
  pub demand : ℕ

-- struct SimulationEngineState
pub record SimulationEngineState : Type 0 where
  pub current_day : ℕ
  pub settlements : List SettlementState
  pub events : List SimulationEvent
  pub market_demands : List SimulationMarketDemand

-- SimulationEngine::export_state
unfoldable pub export_state : SimulationEngine → SimulationEngineState
export_state e = record {
  current_day = e.current_day;
  settlements = e.settlements;
  events = e.events;
  market_demands =
      map (λ (x : String × ℕ). record { resource_id = x.0; demand = x.1 }) e.market.demands;
}

-- contains
abbrev pub contains : List String → String → Bool
contains [] id = false
contains (x ∷ xs) id = str_eq x id || contains xs id

-- The loop of restore_state over the storage of a settlement.
check_entries : DataRegistry → String → UnorderedMap ℕ → ValidationReport → ValidationReport
check_entries registry path [] report = report
check_entries registry path ((resource_id, amount) ∷ entries) report =
    check_entries registry path entries (
      if is_empty resource_id
      then add_error report path "resource_id must not be empty"
      else error_if (not (is_some (resource registry resource_id))) (path <> "." <> resource_id)
          "unknown resource"
          (error_if (amount == 0) (path <> "." <> resource_id) "amount must be greater than zero"
            report))

-- The loop of restore_state over the settlements.
check_settlements :
    DataRegistry → List String → List SettlementState → ValidationReport → ValidationReport
unfolding check_entries
check_settlements registry seen [] report = report
check_settlements registry seen (s ∷ ss) report =
    if is_empty s.id
    then check_settlements registry seen ss
        (add_error report "simulation.state.settlements" "settlement id must not be empty")
    else check_settlements registry (s.id ∷ seen) ss (
        check_entries registry ("simulation.state.settlement." <> s.id <> ".storage")
          s.storage.entries
          (error_if (contains seen s.id) ("simulation.state.settlement." <> s.id)
            "duplicate settlement id" report))

-- The loop of restore_state over the demands.
check_demands :
    DataRegistry → List String → List SimulationMarketDemand → ValidationReport → ValidationReport
check_demands registry seen [] report = report
check_demands registry seen (d ∷ ds) report =
    if is_empty d.resource_id
    then check_demands registry seen ds
        (add_error report "simulation.state.market" "market demand resource_id must not be empty")
    else check_demands registry (d.resource_id ∷ seen) ds (
        error_if (not (is_some (resource registry d.resource_id)))
          ("simulation.state.market." <> d.resource_id) "unknown resource"
          (error_if (contains seen d.resource_id) ("simulation.state.market." <> d.resource_id)
            "duplicate market demand resource id" report))

-- The loop of restore_state that stages the market.
pub stage_demands :
    MarketState → List SimulationMarketDemand → ValidationReport → MarketState × ValidationReport
stage_demands market [] report = (market, report)
stage_demands market (d ∷ ds) report =
    let (market', demand_report) = set_demand market d.resource_id d.demand in
    stage_demands market' ds (merge_validation report demand_report)

-- The checks of restore_state.
pub check_state : DataRegistry → SimulationEngineState → ValidationReport
unfolding check_settlements check_demands
check_state registry state =
    check_demands registry [] state.market_demands
      (check_settlements registry [] state.settlements empty_report)

-- SimulationEngine::restore_state
pub restore_state : SimulationEngine → SimulationEngineState → SimulationEngine × ValidationReport
unfolding check_state stage_demands
restore_state e state =
    let report = check_state e.registry state in
    let (staged_market, staged) =
      stage_demands (record { demands = [] }) state.market_demands report in
    if not (ok report) then (e, report) else if not (ok staged) then (e, staged) else (
      record e {
        current_day = state.current_day;
        settlements = state.settlements;
        events = state.events;
        market = staged_market;
      },
      staged,
    )
