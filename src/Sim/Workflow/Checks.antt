-- ===== src/Sim/Workflow/Checks.antt =====
-- src/clc/sim/SimulationRuntimeWorkflow.cpp: the validation of the results of deliveries.
use city_life_core.Prelude.{
  ℕ, ◌+◌, not, ◌&&◌, String, Option, none, some, List, [], ◌∷◌, ◌++◌, length, ltb, ◌==◌,
  if◌then◌else◌, is_empty, str_eq,
}
use city_life_core.Data.Validation.{
  ValidationReport, empty_report, error_if, add_error, merge_validation, ok,
}
use city_life_core.Sim.Caravans.{CaravanState, caravan_by_id, caravan_arrived}
use city_life_core.Sim.Engine.{has_settlement, settlement_resource_amount}
use city_life_core.Sim.Engine.Saving.{contains}
use city_life_core.Sim.Runtime.{SimulationRuntime}
use city_life_core.Sim.Storage.{is_empty_storage}
use city_life_core.Sim.Workflow.{can_add_u64}
use city_life_core.Sim.Workflow.Delivery.{
  RuntimeCargoDeliveryEntry, RuntimeCaravanCargoDeliveryResult, RuntimeBulkCargoDeliveryResult,
}

-- checked_add_u64: the sum, which stays where it was on an overflow.
abbrev pub checked_add_u64 : ℕ → ℕ → ℕ
checked_add_u64 current amount = if can_add_u64 current amount then current + amount else current

-- The loop of validate_runtime_caravan_cargo_delivery_result: the sum and the report.
check_entries : List RuntimeCargoDeliveryEntry → ℕ → ValidationReport → ℕ × ValidationReport
check_entries [] sum report = (sum, report)
check_entries (e ∷ es) sum report = check_entries es (checked_add_u64 sum e.amount) (
    error_if (not (can_add_u64 sum e.amount)) "runtime.cargo_delivery.total_amount"
      "delivered entry sum overflow"
      (error_if (e.amount == 0) "runtime.cargo_delivery.delivered.amount"
        "amount must be greater than zero"
        (error_if (is_empty e.resource_id) "runtime.cargo_delivery.delivered.resource_id"
          "resource_id must not be empty" report)))

-- validate_runtime_caravan_cargo_delivery_result
pub validate_runtime_caravan_cargo_delivery_result :
    RuntimeCaravanCargoDeliveryResult → ValidationReport
unfolding check_entries
validate_runtime_caravan_cargo_delivery_result r =
    let (sum, report) = check_entries r.delivered 0 (
      error_if (is_empty r.destination_settlement_id)
        "runtime.cargo_delivery.destination_settlement_id"
        "destination_settlement_id must not be empty"
        (error_if (is_empty r.caravan_id) "runtime.cargo_delivery.caravan_id"
          "caravan_id must not be empty" empty_report)) in
    if not (ok r.validation)
    then merge_validation empty_report r.validation
    else error_if (length r.delivered == 0 && not (r.total_amount == 0))
        "runtime.cargo_delivery.total_amount"
        "total_amount must be zero when no resources were delivered"
        (error_if (not (sum == r.total_amount)) "runtime.cargo_delivery.total_amount"
          "total_amount must equal delivered entry sum" report)

-- The loop of validate_runtime_bulk_cargo_delivery_result: the sum and the report. The ids are
-- those seen so far.
check_deliveries :
    List RuntimeCaravanCargoDeliveryResult
    → List String
    → ℕ
    → ValidationReport
    → ℕ × ValidationReport
check_deliveries [] ids sum report = (sum, report)
check_deliveries (d ∷ ds) ids sum report =
    let delivery_report = validate_runtime_caravan_cargo_delivery_result d in
    let seen = contains ids d.caravan_id in
    check_deliveries ds (if seen then ids else ids ++ d.caravan_id ∷ [])
      (checked_add_u64 sum d.total_amount)
      (error_if (not (can_add_u64 sum d.total_amount)) "runtime.bulk_cargo_delivery.total_amount"
        "delivery total sum overflow"
        (error_if seen "runtime.bulk_cargo_delivery.deliveries"
          "delivery caravan_id values must be unique"
          (if not (ok delivery_report) then merge_validation report delivery_report else report)))

-- validate_runtime_bulk_cargo_delivery_result
pub validate_runtime_bulk_cargo_delivery_result : RuntimeBulkCargoDeliveryResult → ValidationReport
unfolding check_deliveries
validate_runtime_bulk_cargo_delivery_result r =
    let (sum, report) = check_deliveries r.deliveries [] 0 empty_report in
    let none_made = length r.deliveries == 0 in
    if not (ok r.validation)
    then merge_validation empty_report r.validation
    else error_if (none_made && not (r.delivered_caravans == 0))
        "runtime.bulk_cargo_delivery.delivered_caravans"
        "delivered_caravans must be zero when no deliveries were recorded"
        (error_if (none_made && not (r.total_amount == 0))
          "runtime.bulk_cargo_delivery.total_amount"
          "total_amount must be zero when no deliveries were recorded"
          (error_if (not (r.delivered_caravans == length r.deliveries))
            "runtime.bulk_cargo_delivery.delivered_caravans"
            "delivered_caravans must equal delivery count"
            (error_if (not (sum == r.total_amount)) "runtime.bulk_cargo_delivery.total_amount"
              "total_amount must equal delivery total sum" report)))

-- The last loop of validate_runtime_caravan_cargo_delivery_result_for_runtime.
check_stock :
    SimulationRuntime
    → String
    → List RuntimeCargoDeliveryEntry
    → ValidationReport
    → ValidationReport
check_stock r destination [] report = report
check_stock r destination (e ∷ es) report = check_stock r destination es (
    error_if (ltb (settlement_resource_amount r.engine destination e.resource_id) e.amount)
      "runtime.cargo_delivery.delivered.amount"
      "destination settlement must contain at least delivered amount" report)

-- The checks against the caravan, with the caravan looked up.
check_caravan :
    SimulationRuntime
    → RuntimeCaravanCargoDeliveryResult
    → ValidationReport
    → Option CaravanState
    → ValidationReport
unfolding check_stock
check_caravan r result report none =
    add_error report "runtime.cargo_delivery.caravan_id"
      "caravan_id must reference an existing caravan"
check_caravan r result report (some c) =
    check_stock r result.destination_settlement_id result.delivered (
      error_if (not (length result.delivered == 0) && not (is_empty_storage c.cargo))
        "runtime.cargo_delivery.caravan_id" "delivered caravan cargo must be empty after delivery"
        (error_if (not (caravan_arrived c)) "runtime.cargo_delivery.caravan_id"
          "caravan must be arrived after delivery"
          (error_if (not (has_settlement r.engine result.destination_settlement_id))
            "runtime.cargo_delivery.destination_settlement_id"
            "destination_settlement_id must reference an existing settlement"
            (error_if (not (str_eq c.destination_settlement_id result.destination_settlement_id))
              "runtime.cargo_delivery.destination_settlement_id"
              "destination_settlement_id must match caravan destination" report))))

-- validate_runtime_caravan_cargo_delivery_result_for_runtime
pub validate_runtime_caravan_cargo_delivery_result_for_runtime :
    SimulationRuntime → RuntimeCaravanCargoDeliveryResult → ValidationReport
unfolding check_caravan
validate_runtime_caravan_cargo_delivery_result_for_runtime r result =
    let report = validate_runtime_caravan_cargo_delivery_result result in
    if not (ok report)
    then report
    else check_caravan r result report (caravan_by_id r.caravans result.caravan_id)

-- struct DeliveryResourceAggregate
pub record DeliveryResourceAggregate : Type 0 where
  pub destination_settlement_id : String
  pub resource_id : String
  pub amount : ℕ

-- add_delivery_aggregate: the aggregates and the report.
add_delivery_aggregate :
    List DeliveryResourceAggregate
    → String
    → RuntimeCargoDeliveryEntry
    → ValidationReport
    → List DeliveryResourceAggregate × ValidationReport
add_delivery_aggregate [] destination e report = (
  record { destination_settlement_id = destination; resource_id = e.resource_id; amount = e.amount }
      ∷ [],
  report,
)
add_delivery_aggregate (a ∷ aggregates) destination e report =
    let (rest, report') = add_delivery_aggregate aggregates destination e report in
    if str_eq a.destination_settlement_id destination && str_eq a.resource_id e.resource_id
    then (
      record a { amount = checked_add_u64 a.amount e.amount } ∷ aggregates,
      error_if (not (can_add_u64 a.amount e.amount)) "runtime.bulk_cargo_delivery.delivered.amount"
          "aggregate delivered amount overflow" report,
    )
    else (a ∷ rest, report')

-- The inner loop of validate_runtime_bulk_cargo_delivery_result_for_runtime.
add_entries :
    List DeliveryResourceAggregate
    → String
    → List RuntimeCargoDeliveryEntry
    → ValidationReport
    → List DeliveryResourceAggregate × ValidationReport
unfolding add_delivery_aggregate
add_entries aggregates destination [] report = (aggregates, report)
add_entries aggregates destination (e ∷ es) report =
    let (rest, report') = add_delivery_aggregate aggregates destination e report in
    add_entries rest destination es report'

-- Its outer loop.
add_deliveries :
    SimulationRuntime
    → List DeliveryResourceAggregate
    → List RuntimeCaravanCargoDeliveryResult
    → ValidationReport
    → List DeliveryResourceAggregate × ValidationReport
unfolding add_entries
add_deliveries r aggregates [] report = (aggregates, report)
add_deliveries r aggregates (d ∷ ds) report =
    let delivery_report = validate_runtime_caravan_cargo_delivery_result_for_runtime r d in
    let (rest, report') =
      add_entries aggregates d.destination_settlement_id d.delivered
        (if not (ok delivery_report) then merge_validation report delivery_report else report) in
    add_deliveries r rest ds report'

-- Its last loop.
check_aggregates :
    SimulationRuntime → List DeliveryResourceAggregate → ValidationReport → ValidationReport
check_aggregates r [] report = report
check_aggregates r (a ∷ aggregates) report = check_aggregates r aggregates (
    error_if
      (ltb (settlement_resource_amount r.engine a.destination_settlement_id a.resource_id) a.amount)
      "runtime.bulk_cargo_delivery.delivered.amount"
      "destination settlement must contain at least aggregate delivered amount" report)

-- validate_runtime_bulk_cargo_delivery_result_for_runtime
pub validate_runtime_bulk_cargo_delivery_result_for_runtime :
    SimulationRuntime → RuntimeBulkCargoDeliveryResult → ValidationReport
unfolding add_deliveries check_aggregates
validate_runtime_bulk_cargo_delivery_result_for_runtime r result =
    let report = validate_runtime_bulk_cargo_delivery_result result in
    let (aggregates, report') = add_deliveries r [] result.deliveries report in
    if not (ok report) then report else check_aggregates r aggregates report'
