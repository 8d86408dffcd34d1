-- ===== src/Sim/Workflow/Delivery.antt =====
-- src/clc/sim/SimulationRuntimeWorkflow.cpp: the delivery of the cargo of caravans that have
-- arrived.
pub mod Outcome
pub mod Stocks
pub mod Entries
pub mod Refusals
use city_life_core.Prelude.{
  ℕ, ◌+◌, Bool, true, false, not, ◌&&◌, ◌||◌, String, Option, none, some, List, [], ◌∷◌, ◌++◌,
  length, keep_if, ltb, ◌==◌, if◌then◌else◌, str_eq, str_lt, ◌<>◌,
}
use city_life_core.Prelude.Sort.{sort}
use city_life_core.Prelude.UnorderedMap.{UnorderedMap}
use city_life_core.Data.Validation.{ValidationReport, empty_report, error_report, add_error, ok}
use city_life_core.Sim.Caravans.{CaravanState, caravan_by_id, caravan_arrived}
use city_life_core.Sim.Engine.{
  SimulationEngine, has_settlement, settlement_resource_amount, add_resource_to_settlement,
  remove_resource_from_settlement,
}
use city_life_core.Sim.Runtime.{SimulationRuntime}
use city_life_core.Sim.Storage.{add, try_remove, is_empty_storage}
use city_life_core.Sim.Workflow.{can_add_u64, write_caravan, unknown_caravan}

-- struct RuntimeCargoDeliveryEntry
pub record RuntimeCargoDeliveryEntry : Type 0 where
  pub resource_id : String
  pub amount : ℕ

-- struct RuntimeCaravanCargoDeliveryResult
pub record RuntimeCaravanCargoDeliveryResult : Type 0 where
  pub caravan_id : String
  pub destination_settlement_id : String
  pub delivered : List RuntimeCargoDeliveryEntry
  pub total_amount : ℕ
  pub validation : ValidationReport

-- struct RuntimeBulkCargoDeliveryResult
pub record RuntimeBulkCargoDeliveryResult : Type 0 where
  pub deliveries : List RuntimeCaravanCargoDeliveryResult
  pub delivered_caravans : ℕ
  pub total_amount : ℕ
  pub validation : ValidationReport

-- What the loop over the cargo leads to: an error that ends the delivery, or its entries and their
-- total.
pub data Collected : Type 0 where
  overflows : String → Collected
  collected : List RuntimeCargoDeliveryEntry → ℕ → Collected

abbrev pub entry : String → ℕ → RuntimeCargoDeliveryEntry
entry resource_id amount = record { resource_id = resource_id; amount = amount }

push : RuntimeCargoDeliveryEntry → Collected → Collected
push e (overflows message) = overflows message
push e (collected es total) = collected (e ∷ es) total

-- The loop of the delivery over the cargo; the destination's stock stands still meanwhile.
pub collect : SimulationEngine → String → UnorderedMap ℕ → ℕ → Collected
unfolding push
collect engine destination [] total = collected [] total
collect engine destination ((resource_id, amount) ∷ cargo) total =
    if amount == 0
    then collect engine destination cargo total
    else if not (can_add_u64 total amount)
    then overflows "delivered cargo total overflow"
    else if not (can_add_u64 (settlement_resource_amount engine destination resource_id) amount)
    then overflows "destination settlement resource amount overflow"
    else push (entry resource_id amount) (collect engine destination cargo (total + amount))

-- rollback_delivered_cargo, from the last entry to the first
rollback_delivered_cargo :
    SimulationEngine
    → CaravanState
    → List RuntimeCargoDeliveryEntry
    → SimulationEngine × CaravanState
rollback_delivered_cargo engine c [] = (engine, c)
rollback_delivered_cargo engine c (d ∷ ds) =
    let (engine', c') = rollback_delivered_cargo engine c ds in
    (
      (remove_resource_from_settlement engine' c'.destination_settlement_id d.resource_id
          d.amount).0,
      record c' { cargo = (add c'.cargo d.resource_id d.amount).0 },
    )

-- The loop of the delivery over the entries: the engine, the caravan, what was delivered, and the
-- error that ended it.
pub deliver_entries :
    SimulationEngine
    → CaravanState
    → List RuntimeCargoDeliveryEntry
    → List RuntimeCargoDeliveryEntry
    → SimulationEngine × CaravanState × List RuntimeCargoDeliveryEntry × Option ValidationReport
unfolding rollback_delivered_cargo
deliver_entries engine c delivered [] = (engine, c, delivered, none)
deliver_entries engine c delivered (e ∷ es) =
    let (cargo, removed) = try_remove c.cargo e.resource_id e.amount in
    let (engine', report) =
      add_resource_to_settlement engine c.destination_settlement_id e.resource_id e.amount in
    let restored = record c { cargo = (add cargo e.resource_id e.amount).0 } in
    let rest = deliver_entries engine' (record c { cargo = cargo }) (delivered ++ e ∷ []) es in
    if not removed
    then (let (back, c') = rollback_delivered_cargo engine c delivered in
        (
          back,
          c',
          delivered,
          some (
              error_report ("simulation.caravan." <> c.id <> ".deliver")
                "caravan cargo changed during delivery"),
        ))
    else if not (ok report)
    then (let (back, c') = rollback_delivered_cargo engine' restored delivered in
        (back, c', delivered, some report))
    else rest

abbrev result_of :
    String
    → String
    → List RuntimeCargoDeliveryEntry
    → ℕ
    → ValidationReport
    → RuntimeCaravanCargoDeliveryResult
result_of caravan_id destination delivered total validation = record {
  caravan_id = caravan_id;
  destination_settlement_id = destination;
  delivered = delivered;
  total_amount = total;
  validation = validation;
}

abbrev pub or_empty : Option ValidationReport → ValidationReport
or_empty none = empty_report
or_empty (some report) = report

-- `lhs.resource_id < rhs.resource_id`
abbrev pub entry_before : RuntimeCargoDeliveryEntry → RuntimeCargoDeliveryEntry → Bool
entry_before lhs rhs = str_lt lhs.resource_id rhs.resource_id

-- The delivery once its entries are collected.
deliver_collected :
    SimulationRuntime
    → String
    → CaravanState
    → Collected
    → SimulationRuntime × RuntimeCaravanCargoDeliveryResult
unfolding deliver_entries
deliver_collected r id c (overflows message) = (
  r,
  result_of id c.destination_settlement_id [] 0
      (error_report ("simulation.caravan." <> c.id <> ".deliver") message),
)
deliver_collected r id c (collected es total) =
    let (engine, c', delivered, failure) = deliver_entries r.engine c [] (sort entry_before es) in
    (
      record r { engine = engine; caravans = write_caravan r.caravans id c' },
      result_of id c.destination_settlement_id delivered total (or_empty failure),
    )

-- deliver_runtime_arrived_caravan_cargo_to_destination, with the caravan looked up
deliver_found :
    SimulationRuntime
    → String
    → Option CaravanState
    → SimulationRuntime × RuntimeCaravanCargoDeliveryResult
unfolding deliver_collected collect
deliver_found r id none = (r, result_of id "" [] 0 (unknown_caravan id))
deliver_found r id (some c) =
    let destination = c.destination_settlement_id in
    if not (has_settlement r.engine destination)
    then (
      r,
      result_of id destination [] 0 (
          error_report ("simulation.settlement." <> destination)
            "unknown caravan destination settlement"),
    )
    else if not (caravan_arrived c)
    then (
      r,
      result_of id destination [] 0 (
          error_report ("simulation.caravan." <> c.id <> ".deliver")
            "caravan can only deliver cargo after arrival"),
    )
    else deliver_collected r id c (collect r.engine destination c.cargo.entries 0)

-- deliver_runtime_arrived_caravan_cargo_to_destination
pub deliver_runtime_arrived_caravan_cargo_to_destination :
    SimulationRuntime → String → SimulationRuntime × RuntimeCaravanCargoDeliveryResult
unfolding deliver_found
deliver_runtime_arrived_caravan_cargo_to_destination r id =
    deliver_found r id (caravan_by_id r.caravans id)
