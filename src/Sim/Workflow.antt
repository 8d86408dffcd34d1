-- ===== src/Sim/Workflow.antt =====
-- include/clc/sim/SimulationRuntimeWorkflow.hpp and src/clc/sim/SimulationRuntimeWorkflow.cpp: what
-- a host does with a runtime. A function that changes the runtime returns the runtime after it.
pub mod Cargo
pub mod Delivery
pub mod Checks
pub mod Bulk
pub mod Fulfilling
pub mod ArrivalContracts
use city_life_core.Prelude.{
  ℕ, ◌-◌, Bool, true, false, not, String, Option, none, some, List, [], ◌∷◌, find_if, ltb, leb,
  ◌==◌, if◌then◌else◌, str_eq, ◌<>◌, u64_max,
}
use city_life_core.Prelude.Int.{ℤ}
use city_life_core.Prelude.Lists.{replace_if}
use city_life_core.Data.Validation.{ValidationReport, empty_report, error_report, ok}
use city_life_core.Sim.Caravans.{
  CaravanState, CaravanFleet, CaravanAdvanceReport, create_caravan_for_route, add_caravan,
  caravan_by_id, resource_request, caravan_ticks_remaining, caravan_total_travel_ticks,
  caravan_arrived, advance_caravan_day,
}
use city_life_core.Sim.Contracts.{
  ResourceDeliveryContract, add_contract, validate_resource_delivery_contract_for_factions,
}
use city_life_core.Sim.Engine.{
  SimulationEngine, create_settlement, has_settlement, settlement_resource_amount,
  add_resource_to_settlement, remove_resource_from_settlement,
}
use city_life_core.Sim.Factions.{FactionState, add_faction, set_faction_reputation}
use city_life_core.Sim.Ownership.{
  validate_settlement_ownership_references, validate_caravan_ownership_references,
  set_settlement_owner, set_caravan_owner, SettlementOwnership, CaravanOwnership,
}
use city_life_core.Sim.Routes.{
  SettlementRoute, settlement_route_by_id, add_settlement_route,
  validate_settlement_route_for_settlements,
}
use city_life_core.Sim.Runtime.{SimulationRuntime}
use city_life_core.Sim.Storage.{ResourceStorage, add, try_remove, amount}

-- struct RuntimeCaravanCreationResult
pub record RuntimeCaravanCreationResult : Type 0 where
  pub caravan_id : String
  pub created : Bool
  pub validation : ValidationReport

-- can_add_u64
abbrev pub can_add_u64 : ℕ → ℕ → Bool
can_add_u64 current amount = leb amount (u64_max - current)

-- What is written through the pointer of mutable_caravan_by_id: the first caravan of that id.
abbrev pub write_caravan : CaravanFleet → String → CaravanState → CaravanFleet
write_caravan fleet id c = record { caravans = replace_if (λ x. str_eq x.id id) c fleet.caravans }

abbrev pub unknown_caravan : String → ValidationReport
unknown_caravan id = error_report ("simulation.caravan." <> id) "unknown caravan"

-- create_runtime_settlement
pub create_runtime_settlement : SimulationRuntime → String → SimulationRuntime × ValidationReport
create_runtime_settlement r id =
    let (engine, report) = create_settlement r.engine id in (record r { engine = engine }, report)

-- add_runtime_route
pub add_runtime_route : SimulationRuntime → SettlementRoute → SimulationRuntime × ValidationReport
add_runtime_route r route =
    let checked = validate_settlement_route_for_settlements route r.engine.settlements in
    let (routes, report) = add_settlement_route r.routes route in
    if not (ok checked) then (r, checked) else (record r { routes = routes }, report)

-- add_runtime_faction
pub add_runtime_faction : SimulationRuntime → FactionState → SimulationRuntime × ValidationReport
add_runtime_faction r f =
    let (factions, report) = add_faction r.factions f in (record r { factions = factions }, report)

-- set_runtime_faction_reputation
pub set_runtime_faction_reputation :
    SimulationRuntime → String → String → ℤ → SimulationRuntime × ValidationReport
set_runtime_faction_reputation r from to value =
    let (factions, report) = set_faction_reputation r.factions from to value in
    (record r { factions = factions }, report)

-- set_runtime_settlement_owner
pub set_runtime_settlement_owner :
    SimulationRuntime → String → String → SimulationRuntime × ValidationReport
set_runtime_settlement_owner r settlement_id faction_id =
    let ownership : SettlementOwnership = record {
      settlement_id = settlement_id;
      faction_id = faction_id;
    } in
    let checked =
      validate_settlement_ownership_references ownership r.engine.settlements r.factions in
    let (catalog, report) = set_settlement_owner r.ownership settlement_id faction_id in
    if not (ok checked) then (r, checked) else (record r { ownership = catalog }, report)

-- set_runtime_caravan_owner
pub set_runtime_caravan_owner :
    SimulationRuntime → String → String → SimulationRuntime × ValidationReport
set_runtime_caravan_owner r caravan_id faction_id =
    let ownership : CaravanOwnership = record {
      caravan_id = caravan_id;
      faction_id = faction_id;
    } in
    let checked = validate_caravan_ownership_references ownership r.caravans r.factions in
    let (catalog, report) = set_caravan_owner r.ownership caravan_id faction_id in
    if not (ok checked) then (r, checked) else (record r { ownership = catalog }, report)

-- add_runtime_resource_delivery_contract
pub add_runtime_resource_delivery_contract :
    SimulationRuntime → ResourceDeliveryContract → SimulationRuntime × ValidationReport
add_runtime_resource_delivery_contract r contract =
    let checked = validate_resource_delivery_contract_for_factions contract r.factions in
    let (contracts, report) = add_contract r.contracts contract in
    if not (ok checked) then (r, checked) else (record r { contracts = contracts }, report)

-- create_runtime_caravan_for_route, with the route looked up
create_on_route :
    SimulationRuntime
    → String
    → String
    → String
    → ResourceStorage
    → Option SettlementRoute
    → SimulationRuntime × RuntimeCaravanCreationResult
create_on_route r route_id caravan_id display_name cargo none = (
  r,
  record {
    caravan_id = caravan_id;
    created = false;
    validation = error_report ("simulation.route." <> route_id) "unknown route";
  },
)
create_on_route r route_id caravan_id display_name cargo (some route) =
    let (caravans, report) =
      add_caravan r.caravans (create_caravan_for_route route caravan_id display_name cargo) in
    (
      record r { caravans = caravans },
      record {
        caravan_id = caravan_id;
        created = ok report;
        validation = if not (ok report) then report else empty_report;
      },
    )

-- create_runtime_caravan_for_route
pub create_runtime_caravan_for_route :
    SimulationRuntime
    → String
    → String
    → String
    → ResourceStorage
    → SimulationRuntime × RuntimeCaravanCreationResult
unfolding create_on_route
create_runtime_caravan_for_route r route_id caravan_id display_name cargo =
    create_on_route r route_id caravan_id display_name cargo
      (settlement_route_by_id r.routes route_id)

-- The end of load_runtime_caravan_at_origin, after its guards.
take_on :
    SimulationRuntime → String → CaravanState → String → ℕ → SimulationRuntime × ValidationReport
take_on r id c resource_id quantity =
    let origin = c.origin_settlement_id in
    let (engine, removed) = remove_resource_from_settlement r.engine origin resource_id quantity in
    let (cargo, added) = add c.cargo resource_id quantity in
    let caravans = write_caravan r.caravans id (record c { cargo = cargo }) in
    if not (ok removed)
    then (record r { engine = engine }, removed)
    else if not (ok added)
    then (
      record r {
        engine = (add_resource_to_settlement engine origin resource_id quantity).0;
        caravans = caravans;
      },
      added,
    )
    else (record r { engine = engine; caravans = caravans }, empty_report)

-- load_runtime_caravan_at_origin, with the caravan looked up
load :
    SimulationRuntime
    → String
    → String
    → ℕ
    → Option CaravanState
    → SimulationRuntime × ValidationReport
load r id resource_id quantity none = (r, unknown_caravan id)
load r id resource_id quantity (some c) =
    let path = "simulation.caravan." <> c.id <> ".load" in
    let origin = c.origin_settlement_id in
    let request = resource_request path resource_id quantity in
    if not (ok request)
    then (r, request)
    else if not (has_settlement r.engine origin)
    then (r, error_report ("simulation.settlement." <> origin) "unknown caravan origin settlement")
    else if not (caravan_ticks_remaining c == caravan_total_travel_ticks c)
    then (r, error_report path "caravan can only load before departure")
    else if ltb (settlement_resource_amount r.engine origin resource_id) quantity
    then (r, error_report path "origin settlement does not have enough resource")
    else if not (can_add_u64 (amount c.cargo resource_id) quantity)
    then (r, error_report path "caravan cargo amount overflow")
    else take_on r id c resource_id quantity

-- load_runtime_caravan_at_origin
pub load_runtime_caravan_at_origin :
    SimulationRuntime → String → String → ℕ → SimulationRuntime × ValidationReport
unfolding load
load_runtime_caravan_at_origin r id resource_id quantity =
    load r id resource_id quantity (caravan_by_id r.caravans id)

-- The end of unload_runtime_caravan_at_destination, after its guards.
put_down :
    SimulationRuntime → String → CaravanState → String → ℕ → SimulationRuntime × ValidationReport
put_down r id c resource_id quantity =
    let (cargo, removed) = try_remove c.cargo resource_id quantity in
    let (engine, report) =
      add_resource_to_settlement r.engine c.destination_settlement_id resource_id quantity in
    if not removed
    then (
      r,
      error_report ("simulation.caravan." <> c.id <> ".unload")
          "caravan cargo does not have enough resource",
    )
    else if not (ok report)
    then (
      record r {
        engine = engine;
        caravans =
            write_caravan r.caravans id (record c { cargo = (add cargo resource_id quantity).0 });
      },
      report,
    )
    else (
      record r {
        engine = engine;
        caravans = write_caravan r.caravans id (record c { cargo = cargo });
      },
      empty_report,
    )

-- unload_runtime_caravan_at_destination, with the caravan looked up
unload :
    SimulationRuntime
    → String
    → String
    → ℕ
    → Option CaravanState
    → SimulationRuntime × ValidationReport
unload r id resource_id quantity none = (r, unknown_caravan id)
unload r id resource_id quantity (some c) =
    let path = "simulation.caravan." <> c.id <> ".unload" in
    let destination = c.destination_settlement_id in
    let request = resource_request path resource_id quantity in
    if not (ok request)
    then (r, request)
    else if not (has_settlement r.engine destination)
    then (
      r,
      error_report ("simulation.settlement." <> destination)
          "unknown caravan destination settlement",
    )
    else if not (caravan_arrived c)
    then (r, error_report path "caravan can only unload after arrival")
    else if ltb (amount c.cargo resource_id) quantity
    then (r, error_report path "caravan cargo does not have enough resource")
    else if not (can_add_u64 (settlement_resource_amount r.engine destination resource_id) quantity)
    then (r, error_report path "destination settlement resource amount overflow")
    else put_down r id c resource_id quantity

-- unload_runtime_caravan_at_destination
pub unload_runtime_caravan_at_destination :
    SimulationRuntime → String → String → ℕ → SimulationRuntime × ValidationReport
unfolding unload
unload_runtime_caravan_at_destination r id resource_id quantity =
    unload r id resource_id quantity (caravan_by_id r.caravans id)

-- struct RuntimeCaravanAdvanceResult; `report` is default-constructed where there is no such
-- caravan.
pub record RuntimeCaravanAdvanceResult : Type 0 where
  pub report : Option CaravanAdvanceReport
  pub validation : ValidationReport

-- advance_runtime_caravan_day, with the caravan looked up
advance_found :
    SimulationRuntime
    → String
    → Option CaravanState
    → SimulationRuntime × RuntimeCaravanAdvanceResult
advance_found r id none = (r, record { report = none; validation = unknown_caravan id })
advance_found r id (some c) =
    let (c', report) = advance_caravan_day c in
    (
      record r { caravans = write_caravan r.caravans id c' },
      record { report = some report; validation = empty_report },
    )

-- advance_runtime_caravan_day
pub advance_runtime_caravan_day :
    SimulationRuntime → String → SimulationRuntime × RuntimeCaravanAdvanceResult
unfolding advance_found
advance_runtime_caravan_day r id = advance_found r id (caravan_by_id r.caravans id)
