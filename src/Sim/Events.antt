-- ===== src/Sim/Events.antt =====
-- include/clc/sim/SimulationRuntimeEvents.hpp and src/clc/sim/SimulationRuntimeEvents.cpp: the
-- events that the reports of a runtime become in a log, and what a log is checked for. The checks
-- of payloads and the checksum are not modelled. Counts are `uint64_t` and wrap around.
pub mod Deliveries
pub mod Logs
pub mod Order
use city_life_core.Prelude.{
  ℕ, ◌+◌, Bool, true, false, not, ◌||◌, String, List, [], ◌∷◌, length, ltb, ◌==◌, if◌then◌else◌,
  str_eq, wrap64, ◌<>◌, to_string,
}
use city_life_core.Core.EventLog.{Event, EventLog, append}
use city_life_core.Data.Validation.{ValidationReport, empty_report, error_report, ok}
use city_life_core.Sim.Contracts.Fulfillment as Fulfillment
use city_life_core.Sim.Runtime.{SimulationRuntime}
use city_life_core.Sim.Runtime.Ticks.{
  RuntimeCaravanTickReport, SimulationRuntimeTickReport, SimulationRuntimeTickRunResult,
}
use city_life_core.Sim.Runtime.Days.{SimulationRuntimeDayReport, SimulationRuntimeRunResult}
use city_life_core.Sim.Workflow.ArrivalContracts.{
  SimulationRuntimeTickArrivalContractResult, SimulationRuntimeArrivalContractResult,
}
use city_life_core.Sim.Workflow.Delivery.{
  RuntimeCaravanCargoDeliveryResult, RuntimeBulkCargoDeliveryResult,
}
use city_life_core.Sim.Workflow.Checks.{
  validate_runtime_caravan_cargo_delivery_result, validate_runtime_bulk_cargo_delivery_result,
}

-- struct RuntimeEventLogSummary
pub record RuntimeEventLogSummary : Type 0 where
  pub events_appended : ℕ
  pub day_events : ℕ
  pub tick_events : ℕ
  pub caravan_events : ℕ
  pub cargo_events : ℕ
  pub contract_events : ℕ

abbrev empty_summary : RuntimeEventLogSummary
empty_summary = record {
  events_appended = 0;
  day_events = 0;
  tick_events = 0;
  caravan_events = 0;
  cargo_events = 0;
  contract_events = 0;
}

-- append_event
append_event :
    EventLog → RuntimeEventLogSummary → ℕ → String → String → EventLog × RuntimeEventLogSummary
append_event log summary tick type payload = (
  (append log tick type payload).0,
  record summary { events_appended = wrap64 (summary.events_appended + 1) },
)

-- merge_summary
merge_summary : RuntimeEventLogSummary → RuntimeEventLogSummary → RuntimeEventLogSummary
merge_summary target source = record {
  events_appended = wrap64 (target.events_appended + source.events_appended);
  day_events = wrap64 (target.day_events + source.day_events);
  tick_events = wrap64 (target.tick_events + source.tick_events);
  caravan_events = wrap64 (target.caravan_events + source.caravan_events);
  cargo_events = wrap64 (target.cargo_events + source.cargo_events);
  contract_events = wrap64 (target.contract_events + source.contract_events);
}

-- The loop over the caravans of a report.
append_caravans :
    EventLog
    → RuntimeEventLogSummary
    → ℕ
    → List RuntimeCaravanTickReport
    → EventLog × RuntimeEventLogSummary
append_caravans log s tick [] = (log, s)
append_caravans log s tick (c ∷ cs) =
    let type : String =
      if c.advance.arrived then "runtime.caravan.arrived" else "runtime.caravan.progress" in
    let (log', s') = append_event log s tick type c.caravan_id in
    append_caravans log' (record s' { caravan_events = wrap64 (s'.caravan_events + 1) }) tick cs

-- The loop over the contracts that failed.
append_failures :
    EventLog → RuntimeEventLogSummary → ℕ → List String → EventLog × RuntimeEventLogSummary
append_failures log s tick [] = (log, s)
append_failures log s tick (id ∷ ids) =
    let (log', s') = append_event log s tick "runtime.contract.failed" id in
    append_failures log' (record s' { contract_events = wrap64 (s'.contract_events + 1) }) tick ids

-- append_runtime_day_report_events
pub append_runtime_day_report_events :
    EventLog → SimulationRuntimeDayReport → EventLog × RuntimeEventLogSummary
unfolding append_event
append_runtime_day_report_events log report =
    let tick = report.ticks.tick_after in
    let (begun, s) =
      append_event log empty_summary tick "runtime.day.completed"
        ("day=" <> to_string report.engine.day) in
    let (told, s') =
      append_caravans begun (record s { day_events = wrap64 (s.day_events + 1) }) tick
        report.caravans in
    append_failures told s' report.contracts.current_tick report.contracts.failed_contract_ids

append_day_reports :
    EventLog
    → RuntimeEventLogSummary
    → List SimulationRuntimeDayReport
    → EventLog × RuntimeEventLogSummary
append_day_reports log s [] = (log, s)
append_day_reports log s (r ∷ rs) =
    let (log', partial) = append_runtime_day_report_events log r in
    append_day_reports log' (merge_summary s partial) rs

-- append_runtime_run_events
pub append_runtime_run_events :
    EventLog → SimulationRuntimeRunResult → EventLog × RuntimeEventLogSummary
unfolding append_day_reports
append_runtime_run_events log run = append_day_reports log empty_summary run.reports

-- The event of a contract that was fulfilled, at the end of both functions that report one.
append_fulfilled :
    EventLog
    → RuntimeEventLogSummary
    → ℕ
    → Fulfillment.ContractFulfillmentResult
    → EventLog × RuntimeEventLogSummary
append_fulfilled log s tick result =
    let (log', s') = append_event log s tick "runtime.contract.fulfilled" result.contract_id in
    if Fulfillment.ok result
    then (log', record s' { contract_events = wrap64 (s'.contract_events + 1) })
    else (log, s)

-- `reports.back().ticks.tick_after`
last_day_tick : ℕ → List SimulationRuntimeDayReport → ℕ
last_day_tick tick [] = tick
last_day_tick tick (r ∷ rs) = last_day_tick r.ticks.tick_after rs

-- append_runtime_arrival_contract_events
pub append_runtime_arrival_contract_events :
    EventLog → SimulationRuntimeArrivalContractResult → EventLog × RuntimeEventLogSummary
unfolding append_fulfilled
append_runtime_arrival_contract_events log result =
    let (log', s) = append_runtime_run_events log result.arrival.run in
    append_fulfilled log' s
      (last_day_tick result.arrival.arrival_elapsed_ticks result.arrival.run.reports)
      result.fulfillment

-- append_runtime_tick_report_events
pub append_runtime_tick_report_events :
    EventLog → SimulationRuntimeTickReport → EventLog × RuntimeEventLogSummary
unfolding append_event
append_runtime_tick_report_events log report =
    let tick = report.tick_after in
    let (begun, s) =
      append_event log empty_summary tick "runtime.tick.completed"
        ("elapsed=" <> to_string report.elapsed_ticks) in
    let (told, s') =
      append_caravans begun (record s { tick_events = wrap64 (s.tick_events + 1) }) tick
        report.caravans in
    append_failures told s' report.contracts.current_tick report.contracts.failed_contract_ids

append_tick_reports :
    EventLog
    → RuntimeEventLogSummary
    → List SimulationRuntimeTickReport
    → EventLog × RuntimeEventLogSummary
append_tick_reports log s [] = (log, s)
append_tick_reports log s (r ∷ rs) =
    let (log', partial) = append_runtime_tick_report_events log r in
    append_tick_reports log' (merge_summary s partial) rs

-- append_runtime_tick_run_events
pub append_runtime_tick_run_events :
    EventLog → SimulationRuntimeTickRunResult → EventLog × RuntimeEventLogSummary
unfolding append_tick_reports
append_runtime_tick_run_events log run = append_tick_reports log empty_summary run.reports

-- `reports.back().tick_after`
last_tick_after : ℕ → List SimulationRuntimeTickReport → ℕ
last_tick_after tick [] = tick
last_tick_after tick (r ∷ rs) = last_tick_after r.tick_after rs

-- append_runtime_tick_arrival_contract_events
pub append_runtime_tick_arrival_contract_events :
    EventLog → SimulationRuntimeTickArrivalContractResult → EventLog × RuntimeEventLogSummary
unfolding append_fulfilled
append_runtime_tick_arrival_contract_events log result =
    let (log', s) = append_runtime_tick_run_events log result.arrival.run in
    append_fulfilled log' s (last_tick_after result.arrival.arrival_tick result.arrival.run.reports)
      result.fulfillment
