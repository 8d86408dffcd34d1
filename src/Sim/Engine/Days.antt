-- ===== src/Sim/Engine/Days.antt =====
-- The days of the class SimulationEngine: snapshots, a day, runs of days and what is summed up of
-- them. A count or sum of `uint64_t` wraps around.
pub mod Log
pub mod Runs
use city_life_core.Prelude.{
  ℕ, zero, suc, ◌+◌, ◌-◌, String, List, [], ◌∷◌, ◌++◌, length, ltb, if◌then◌else◌, wrap64, map,
  ◌<>◌,
}
use city_life_core.Prelude.Lists.{drop}
use city_life_core.Prelude.UnorderedMap.{UnorderedMap}
use city_life_core.Data.Registry.{DataRegistry}
use city_life_core.Economy.Market.{MarketReport, make_market_report}
use city_life_core.Sim.Storage.{ResourceStorage, empty_storage, add}
use city_life_core.Sim.Settlement.{SettlementState, SettlementTickReport, advance_settlement_day}
use city_life_core.Sim.Settlement.Reports.{SettlementReport, make_settlement_report}
use city_life_core.Sim.Engine.{SimulationEngine, SimulationEvent}

-- struct SimulationSnapshot
pub record SimulationSnapshot : Type 0 where
  pub day : ℕ
  pub settlements : List SettlementReport
  pub market : MarketReport
  pub events : List SimulationEvent

-- struct SimulationDayReport
pub record SimulationDayReport : Type 0 where
  pub day : ℕ
  pub settlement_ticks : List SettlementTickReport
  pub settlements : List SettlementReport
  pub market : MarketReport
  pub events : List SimulationEvent
  pub warnings : List String

-- struct SimulationScenarioSummary
pub record SimulationScenarioSummary : Type 0 where
  pub days_run : ℕ
  pub first_day : ℕ
  pub last_day : ℕ
  pub settlement_ticks : ℕ
  pub consumed_food : ℕ
  pub consumed_inputs : ℕ
  pub produced_resources : ℕ
  pub active_building_ticks : ℕ
  pub skipped_building_ticks : ℕ
  pub events : ℕ
  pub warnings : ℕ

-- struct SimulationScenarioResult
pub record SimulationScenarioResult : Type 0 where
  pub initial_snapshot : SimulationSnapshot
  pub reports : List SimulationDayReport
  pub summary : SimulationScenarioSummary
  pub events_delta : List SimulationEvent
  pub warnings_delta : List String
  pub final_snapshot : SimulationSnapshot

-- The inner loop of aggregate_storage, which passes over what `add` refuses.
add_entries : ResourceStorage → UnorderedMap ℕ → ResourceStorage
add_entries aggregate [] = aggregate
add_entries aggregate ((id, n) ∷ entries) = add_entries (add aggregate id n).0 entries

aggregate_from : ResourceStorage → List SettlementState → ResourceStorage
unfolding add_entries
aggregate_from aggregate [] = aggregate
aggregate_from aggregate (s ∷ ss) = aggregate_from (add_entries aggregate s.storage.entries) ss

-- aggregate_storage
pub aggregate_storage : List SettlementState → ResourceStorage
unfolding aggregate_from
aggregate_storage settlements = aggregate_from empty_storage settlements

-- A default-constructed MarketReport.
abbrev pub no_market : MarketReport
no_market = record {
  prices = [];
  total_supply = 0;
  total_demand = 0;
  average_price = 0;
  min_price = 0;
  max_price = 0;
}

-- make_settlement_reports
abbrev pub make_settlement_reports : List SettlementState → DataRegistry → List SettlementReport
make_settlement_reports settlements registry =
    map (λ s. make_settlement_report s registry) settlements

-- SimulationEngine::snapshot
pub snapshot : SimulationEngine → SimulationSnapshot
snapshot e = record {
  day = e.current_day;
  settlements = make_settlement_reports e.settlements e.registry;
  market = make_market_report e.registry (aggregate_storage e.settlements) e.market;
  events = e.events;
}

abbrev pub event_at : ℕ → String → String → SimulationEvent
event_at day type message = record { day = day; type = type; message = message }

-- add_event
abbrev add_event : SimulationDayReport → String → String → SimulationDayReport
add_event r type message = record r { events = r.events ++ event_at r.day type message ∷ [] }

-- The body of the loop of advance_day: the report after a settlement's day.
note_settlement :
    DataRegistry
    → SimulationDayReport
    → SettlementState
    → SettlementTickReport
    → SimulationDayReport
note_settlement registry r s tick =
    let r' =
      add_event (record r { warnings = r.warnings ++ map (λ w. s.id <> ": " <> w) tick.warnings })
        "simulation.settlement.advanced" ("advanced settlement: " <> s.id) in
    record r' {
      settlement_ticks = r'.settlement_ticks ++ tick ∷ [];
      settlements = r'.settlements ++ make_settlement_report s registry ∷ [];
    }

-- The loop of advance_day over the settlements, in order.
pub advance_settlements :
    DataRegistry
    → List SettlementState
    → SimulationDayReport
    → List SettlementState × SimulationDayReport
unfolding note_settlement
advance_settlements registry [] r = ([], r)
advance_settlements registry (s ∷ ss) r =
    let (s', tick) = advance_settlement_day s registry in
    let (ss', r') = advance_settlements registry ss (note_settlement registry r s' tick) in
    (s' ∷ ss', r')

-- The report at the start of advance_day.
start_report : ℕ → MarketReport → SimulationDayReport
start_report day market = record {
  day = day;
  settlement_ticks = [];
  settlements = [];
  market = market;
  events = event_at day "simulation.day.started" "simulation day started" ∷ [];
  warnings = [];
}

-- SimulationEngine::advance_day
pub advance_day : SimulationEngine → SimulationEngine × SimulationDayReport
unfolding start_report
advance_day e =
    let day = wrap64 (e.current_day + 1) in
    let (settlements, r) =
      advance_settlements e.registry e.settlements (start_report day no_market) in
    let report =
      add_event
        (record r {
          market = make_market_report e.registry (aggregate_storage settlements) e.market;
        })
        "simulation.day.completed" "simulation day completed" in
    (
      record e { current_day = day; settlements = settlements; events = e.events ++ report.events },
      report,
    )

-- SimulationEngine::run_days
unfoldable pub run_days : SimulationEngine → ℕ → SimulationEngine × List SimulationDayReport
run_days e zero = (e, [])
run_days e (suc n) =
    let (e', report) = advance_day e in
    let (e'', reports) = run_days e' n in (e'', report ∷ reports)

-- The inner loop of summarize_day_reports.
add_ticks : SimulationScenarioSummary → List SettlementTickReport → SimulationScenarioSummary
add_ticks s [] = s
add_ticks s (t ∷ ts) =
    add_ticks
      (record s {
        consumed_food = wrap64 (s.consumed_food + t.consumed_food);
        consumed_inputs = wrap64 (s.consumed_inputs + t.consumed_inputs);
        produced_resources = wrap64 (s.produced_resources + t.produced_resources);
        active_building_ticks = wrap64 (s.active_building_ticks + t.active_buildings);
        skipped_building_ticks = wrap64 (s.skipped_building_ticks + t.skipped_buildings);
        warnings = wrap64 (s.warnings + length t.warnings);
      })
      ts

-- The loop of summarize_day_reports.
add_reports : SimulationScenarioSummary → List SimulationDayReport → SimulationScenarioSummary
unfolding add_ticks
add_reports s [] = s
add_reports s (r ∷ rs) =
    add_reports
      (add_ticks
        (record s {
          settlement_ticks = wrap64 (s.settlement_ticks + length r.settlement_ticks);
          events = wrap64 (s.events + length r.events);
          warnings = wrap64 (s.warnings + length r.warnings);
        })
        r.settlement_ticks)
      rs

-- The last of some reports' days, `day` where there is none.
last_day_of : ℕ → List SimulationDayReport → ℕ
last_day_of day [] = day
last_day_of day (r ∷ rs) = last_day_of r.day rs

abbrev pub empty_summary : SimulationScenarioSummary
empty_summary = record {
  days_run = 0;
  first_day = 0;
  last_day = 0;
  settlement_ticks = 0;
  consumed_food = 0;
  consumed_inputs = 0;
  produced_resources = 0;
  active_building_ticks = 0;
  skipped_building_ticks = 0;
  events = 0;
  warnings = 0;
}

-- summarize_day_reports
pub summarize_day_reports : List SimulationDayReport → SimulationScenarioSummary
unfolding add_reports last_day_of
summarize_day_reports [] = empty_summary
summarize_day_reports (r ∷ rs) =
    add_reports
      (record empty_summary {
        days_run = length (r ∷ rs);
        first_day = r.day;
        last_day = last_day_of r.day rs;
      })
      (r ∷ rs)

-- The events of some reports, in order: the loop of dispatch_runtime_action over them.
abbrev pub events_of : List SimulationDayReport → List SimulationEvent
events_of [] = []
events_of (r ∷ rs) = r.events ++ events_of rs

-- The loop of run_scenario over the warnings.
abbrev all_warnings : List SimulationDayReport → List String
all_warnings [] = []
all_warnings (r ∷ rs) = r.warnings ++ all_warnings rs

-- SimulationEngine::run_scenario
pub run_scenario : SimulationEngine → ℕ → SimulationEngine × SimulationScenarioResult
run_scenario e day_count =
    let (e', reports) = run_days e day_count in
    let final = snapshot e' in
    let initial_event_count = length e.events in
    (
      e',
      record {
        initial_snapshot = snapshot e;
        reports = reports;
        summary = summarize_day_reports reports;
        events_delta =
            if ltb initial_event_count (length final.events)
            then drop initial_event_count final.events
            else [];
        warnings_delta = all_warnings reports;
        final_snapshot = final;
      },
    )
