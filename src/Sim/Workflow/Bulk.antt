-- ===== src/Sim/Workflow/Bulk.antt =====
-- deliver_all_runtime_arrived_caravan_cargo_to_destinations of
-- src/clc/sim/SimulationRuntimeWorkflow.cpp.
use city_life_core.Prelude.{
  ◌+◌, Bool, true, false, not, ◌||◌, String, List, [], ◌∷◌, ◌++◌, ltb, if◌then◌else◌, ◌<>◌,
}
use city_life_core.Data.Validation.{empty_report, error_report, ok}
use city_life_core.Sim.Caravans.{CaravanState, caravan_arrived}
use city_life_core.Sim.Engine.{has_settlement}
use city_life_core.Sim.Runtime.{SimulationRuntime}
use city_life_core.Sim.Storage.{is_empty_storage}
use city_life_core.Sim.Workflow.{can_add_u64}
use city_life_core.Sim.Workflow.Checks.{
  checked_add_u64, validate_runtime_bulk_cargo_delivery_result_for_runtime,
}
use city_life_core.Sim.Workflow.Delivery.{
  RuntimeCaravanCargoDeliveryResult, RuntimeBulkCargoDeliveryResult,
  deliver_runtime_arrived_caravan_cargo_to_destination,
}

-- What the first loop leads to: the id of an unknown destination, or the caravans to deliver.
pub data Chosen : Type 0 where
  unknown : String → Chosen
  chosen : List String → Chosen

choose : String → Chosen → Chosen
choose id (unknown destination) = unknown destination
choose id (chosen ids) = chosen (id ∷ ids)

-- The first loop.
choose_caravans : SimulationRuntime → List CaravanState → Chosen
unfolding choose
choose_caravans r [] = chosen []
choose_caravans r (c ∷ cs) =
    if not (caravan_arrived c) || is_empty_storage c.cargo
    then choose_caravans r cs
    else if not (has_settlement r.engine c.destination_settlement_id)
    then unknown c.destination_settlement_id
    else choose c.id (choose_caravans r cs)

-- A delivery that brought something, noted.
abbrev note_delivery :
    RuntimeBulkCargoDeliveryResult
    → RuntimeCaravanCargoDeliveryResult
    → RuntimeBulkCargoDeliveryResult
note_delivery result d = record result {
  deliveries = result.deliveries ++ d ∷ [];
  delivered_caravans = result.delivered_caravans + 1;
  total_amount = checked_add_u64 result.total_amount d.total_amount;
}

abbrev with_error :
    RuntimeBulkCargoDeliveryResult → String → String → RuntimeBulkCargoDeliveryResult
with_error result path message = record result { validation = error_report path message }

-- The second loop: the runtime, the result, and whether it came to its end.
deliver_each :
    SimulationRuntime
    → RuntimeBulkCargoDeliveryResult
    → List String
    → SimulationRuntime × RuntimeBulkCargoDeliveryResult × Bool
deliver_each r result [] = (r, result, true)
deliver_each r result (id ∷ ids) =
    let (r', d) = deliver_runtime_arrived_caravan_cargo_to_destination r id in
    let skipped = deliver_each r' result ids in
    let counted = deliver_each r' (note_delivery result d) ids in
    if not (ok d.validation)
    then (r', record result { validation = d.validation }, false)
    else if not (ltb 0 d.total_amount)
    then skipped
    else if not (can_add_u64 result.delivered_caravans 1)
    then (
      r',
      with_error result "runtime.bulk_cargo_delivery.delivered_caravans"
          "delivered caravan count overflow",
      false,
    )
    else if not (can_add_u64 result.total_amount d.total_amount)
    then (
      r',
      with_error result "runtime.bulk_cargo_delivery.total_amount" "bulk delivered total overflow",
      false,
    )
    else counted

abbrev nothing_delivered : RuntimeBulkCargoDeliveryResult
nothing_delivered = record {
  deliveries = [];
  delivered_caravans = 0;
  total_amount = 0;
  validation = empty_report;
}

-- The validation at the end.
check_at_end :
    SimulationRuntime × RuntimeBulkCargoDeliveryResult × Bool
    → SimulationRuntime × RuntimeBulkCargoDeliveryResult
check_at_end (r, result, false) = (r, result)
check_at_end (r, result, true) =
    let validation = validate_runtime_bulk_cargo_delivery_result_for_runtime r result in
    (r, if not (ok validation) then record result { validation = validation } else result)

deliver_chosen : SimulationRuntime → Chosen → SimulationRuntime × RuntimeBulkCargoDeliveryResult
unfolding deliver_each check_at_end
deliver_chosen r (unknown destination) = (
  r,
  with_error nothing_delivered ("simulation.settlement." <> destination)
      "unknown caravan destination settlement",
)
deliver_chosen r (chosen ids) = check_at_end (deliver_each r nothing_delivered ids)

-- deliver_all_runtime_arrived_caravan_cargo_to_destinations
pub deliver_all_runtime_arrived_caravan_cargo_to_destinations :
    SimulationRuntime → SimulationRuntime × RuntimeBulkCargoDeliveryResult
unfolding choose_caravans deliver_chosen
deliver_all_runtime_arrived_caravan_cargo_to_destinations r =
    deliver_chosen r (choose_caravans r r.caravans.caravans)
