-- ===== src/Sim/Events/Deliveries.antt =====
-- src/clc/sim/SimulationRuntimeEvents.cpp: the events of cargo deliveries.
use city_life_core.Prelude.{
  ℕ, ◌+◌, Bool, true, false, not, ◌||◌, String, List, [], ◌∷◌, ◌==◌, if◌then◌else◌, wrap64, ◌<>◌,
  to_string,
}
use city_life_core.Core.EventLog.{EventLog}
use city_life_core.Data.Validation.{ok}
use city_life_core.Sim.Workflow.Delivery.{
  RuntimeCaravanCargoDeliveryResult, RuntimeBulkCargoDeliveryResult,
}
use city_life_core.Sim.Workflow.Checks.{
  validate_runtime_caravan_cargo_delivery_result, validate_runtime_bulk_cargo_delivery_result,
}
use city_life_core.Sim.Events.{RuntimeEventLogSummary, empty_summary, append_event, merge_summary}

-- cargo_delivery_payload
cargo_delivery_payload : RuntimeCaravanCargoDeliveryResult → String
cargo_delivery_payload result =
    result.caravan_id
    <> "->"
    <> result.destination_settlement_id
    <> ":total="
    <> to_string result.total_amount

-- `empty()` of a vector
abbrev is_nil {ℓ} : {A : Type ℓ} → List A → Bool
is_nil [] = true
is_nil (_ ∷ _) = false

-- append_runtime_caravan_cargo_delivery_event
pub append_runtime_caravan_cargo_delivery_event :
    EventLog → ℕ → RuntimeCaravanCargoDeliveryResult → EventLog × RuntimeEventLogSummary
unfolding append_event cargo_delivery_payload
append_runtime_caravan_cargo_delivery_event log tick result =
    let (log', s) =
      append_event log empty_summary tick "runtime.caravan.cargo_delivered"
        (cargo_delivery_payload result) in
    if not (ok (validate_runtime_caravan_cargo_delivery_result result))
    then (log, empty_summary)
    else if result.total_amount == 0 || is_nil result.delivered
    then (log, empty_summary)
    else (log', record s { cargo_events = wrap64 (s.cargo_events + 1) })

append_deliveries :
    EventLog
    → RuntimeEventLogSummary
    → ℕ
    → List RuntimeCaravanCargoDeliveryResult
    → EventLog × RuntimeEventLogSummary
append_deliveries log s tick [] = (log, s)
append_deliveries log s tick (d ∷ ds) =
    let (log', partial) = append_runtime_caravan_cargo_delivery_event log tick d in
    append_deliveries log' (merge_summary s partial) tick ds

-- append_runtime_bulk_caravan_cargo_delivery_events
pub append_runtime_bulk_caravan_cargo_delivery_events :
    EventLog → ℕ → RuntimeBulkCargoDeliveryResult → EventLog × RuntimeEventLogSummary
unfolding append_deliveries
append_runtime_bulk_caravan_cargo_delivery_events log tick result =
    if not (ok (validate_runtime_bulk_cargo_delivery_result result))
    then (log, empty_summary)
    else if result.total_amount == 0 || is_nil result.deliveries
    then (log, empty_summary)
    else append_deliveries log empty_summary tick result.deliveries
