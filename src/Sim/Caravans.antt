-- ===== src/Sim/Caravans.antt =====
-- include/clc/sim/Caravans.hpp and src/clc/sim/Caravans.cpp: caravans on their routes.
pub mod Journeys
pub mod Cargo
use city_life_core.Prelude.{
  ℕ, ◌+◌, ◌-◌, ◌/◌, ◌≡◌, Bool, true, false, not, ◌&&◌, ◌||◌, String, Option, none, some, List, [],
  ◌∷◌, ◌++◌, length, min, find_if, keep_if, ltb, ◌==◌, if◌then◌else◌, is_empty, is_some, str_eq,
  ◌<>◌,
}
use city_life_core.Core.Time.{days_to_ticks, ticks_per_day}
use city_life_core.Data.Validation.{
  ValidationReport, empty_report, add_error, error_if, error_report, ok,
}
use city_life_core.Sim.Storage.{ResourceStorage, add, try_remove}
use city_life_core.Sim.Settlement.{SettlementState}
use city_life_core.Sim.Routes.{SettlementRoute, settlement_route_travel_ticks}

-- struct CaravanState
pub record CaravanState : Type 0 where
  pub id : String
  pub display_name : String
  pub route_id : String
  pub origin_settlement_id : String
  pub destination_settlement_id : String
  pub total_travel_days : ℕ
  pub days_remaining : ℕ
  pub total_travel_ticks : ℕ
  pub ticks_remaining : ℕ
  pub cargo : ResourceStorage

-- struct CaravanAdvanceReport
pub record CaravanAdvanceReport : Type 0 where
  pub caravan_id : String
  pub route_id : String
  pub days_remaining_before : ℕ
  pub days_remaining_after : ℕ
  pub ticks_remaining_before : ℕ
  pub ticks_remaining_after : ℕ
  pub ticks_elapsed : ℕ
  pub moved : Bool
  pub arrived : Bool

-- struct CaravanFleet
pub record CaravanFleet : Type 0 where
  pub caravans : List CaravanState

-- create_caravan_for_route
pub create_caravan_for_route : SettlementRoute → String → String → ResourceStorage → CaravanState
create_caravan_for_route route id display_name cargo =
    let travel_ticks = settlement_route_travel_ticks route in
    record {
      id = id;
      display_name = display_name;
      route_id = route.id;
      origin_settlement_id = route.origin_settlement_id;
      destination_settlement_id = route.destination_settlement_id;
      total_travel_days = route.travel_days;
      days_remaining = route.travel_days;
      total_travel_ticks = travel_ticks;
      ticks_remaining = travel_ticks;
      cargo = cargo;
    }

-- caravan_total_travel_ticks
pub caravan_total_travel_ticks : CaravanState → ℕ
caravan_total_travel_ticks c =
    if ltb 0 c.total_travel_ticks then c.total_travel_ticks else days_to_ticks c.total_travel_days

-- caravan_ticks_remaining
unfoldable pub caravan_ticks_remaining : CaravanState → ℕ
caravan_ticks_remaining c =
    if ltb 0 c.ticks_remaining || c.days_remaining == 0
    then c.ticks_remaining
    else days_to_ticks c.days_remaining

-- The last four checks of validate_caravan, about its time.
check_time : CaravanState → ValidationReport → ValidationReport
check_time c report =
    let path = "simulation.caravan." <> c.id in
    error_if
      (ltb 0 c.days_remaining
        && ltb 0 c.ticks_remaining
        && not (c.ticks_remaining == days_to_ticks c.days_remaining))
      path "days_remaining and ticks_remaining must be equivalent when both are set"
      (error_if
        (ltb 0 c.total_travel_days
          && ltb 0 c.total_travel_ticks
          && not (c.total_travel_ticks == days_to_ticks c.total_travel_days))
        path "total_travel_days and total_travel_ticks must be equivalent when both are set"
        (error_if (ltb (caravan_total_travel_ticks c) (caravan_ticks_remaining c)) path
          "ticks_remaining must not exceed total_travel_ticks"
          (error_if (caravan_total_travel_ticks c == 0) path
            "total_travel_ticks must be greater than zero" report)))

-- validate_caravan
pub validate_caravan : CaravanState → ValidationReport
unfolding check_time
validate_caravan c =
    let path = "simulation.caravan." <> c.id in
    check_time c (
      error_if
        (not (is_empty c.origin_settlement_id)
          && not (is_empty c.destination_settlement_id)
          && str_eq c.origin_settlement_id c.destination_settlement_id)
        path "origin and destination settlements must be different"
        (error_if (is_empty c.destination_settlement_id) path
          "destination_settlement_id must not be empty"
          (error_if (is_empty c.origin_settlement_id) path "origin_settlement_id must not be empty"
            (error_if (is_empty c.route_id) path "route_id must not be empty" (
              error_if (is_empty c.display_name) path "caravan display_name must not be empty" (
                error_if (is_empty c.id) "simulation.caravan" "caravan id must not be empty"
                  empty_report))))))

-- validate_caravan_for_route
pub validate_caravan_for_route : CaravanState → SettlementRoute → ValidationReport
validate_caravan_for_route c route =
    let report = validate_caravan c in
    let path = "simulation.caravan." <> c.id in
    if not (ok report)
    then report
    else error_if (not (caravan_total_travel_ticks c == settlement_route_travel_ticks route))
        (path <> ".travel_ticks") "caravan travel ticks do not match route travel ticks"
        (error_if (not (str_eq c.destination_settlement_id route.destination_settlement_id))
          (path <> ".destination") "caravan destination does not match route destination"
          (error_if (not (str_eq c.origin_settlement_id route.origin_settlement_id))
            (path <> ".origin") "caravan origin does not match route origin"
            (error_if (not (str_eq c.route_id route.id)) (path <> ".route")
              "caravan route_id does not match route" report)))

-- caravan_arrived
pub caravan_arrived : CaravanState → Bool
caravan_arrived c = caravan_ticks_remaining c == 0

-- advance_caravan_ticks
pub advance_caravan_ticks : CaravanState → ℕ → CaravanState × CaravanAdvanceReport
advance_caravan_ticks c ticks =
    let before_ticks = caravan_ticks_remaining c in
    let elapsed = min before_ticks ticks in
    let after_ticks = before_ticks - elapsed in
    (
      record c { days_remaining = after_ticks / ticks_per_day; ticks_remaining = after_ticks },
      record {
        caravan_id = c.id;
        route_id = c.route_id;
        days_remaining_before = before_ticks / ticks_per_day;
        days_remaining_after = after_ticks / ticks_per_day;
        ticks_remaining_before = before_ticks;
        ticks_remaining_after = after_ticks;
        ticks_elapsed = elapsed;
        moved = ltb 0 elapsed;
        arrived = after_ticks == 0;
      },
    )

-- advance_caravan_day
pub advance_caravan_day : CaravanState → CaravanState × CaravanAdvanceReport
unfolding advance_caravan_ticks
advance_caravan_day c = advance_caravan_ticks c ticks_per_day

-- invalid_resource_request, as the report that it leaves; invalid where that is not ok.
pub resource_request : String → String → ℕ → ValidationReport
resource_request path resource_id amount =
    error_if (amount == 0) path "amount must be greater than zero"
      (error_if (is_empty resource_id) path "resource_id must not be empty" empty_report)

-- The end of load and unload: goods go from one storage to another, with the rollback.
hand_over :
    ResourceStorage
    → ResourceStorage
    → String
    → ℕ
    → String
    → String
    → ResourceStorage × ResourceStorage × ValidationReport
hand_over from to resource_id amount path message =
    let (from', removed) = try_remove from resource_id amount in
    let (to', to_report) = add to resource_id amount in
    if not removed
    then (from, to, error_report path message)
    else if not (ok to_report)
    then ((add from' resource_id amount).0, to', to_report)
    else (from', to', empty_report)

-- load_caravan_at_origin
pub load_caravan_at_origin :
    CaravanState → SettlementState → String → ℕ → CaravanState × SettlementState × ValidationReport
unfolding resource_request hand_over
load_caravan_at_origin c origin resource_id amount =
    let path = "simulation.caravan." <> c.id in
    let request = resource_request (path <> ".load") resource_id amount in
    let (stock, cargo, report) =
      hand_over origin.storage c.cargo resource_id amount (path <> ".load")
        "origin settlement does not have enough resource" in
    if not (ok request)
    then (c, origin, request)
    else if not (str_eq origin.id c.origin_settlement_id)
    then (
      c,
      origin,
      error_report (path <> ".origin") "caravan can only load at its origin settlement",
    )
    else if not (caravan_ticks_remaining c == caravan_total_travel_ticks c)
    then (c, origin, error_report (path <> ".load") "caravan can only load before departure")
    else (record c { cargo = cargo }, record origin { storage = stock }, report)

-- unload_caravan_at_destination
pub unload_caravan_at_destination :
    CaravanState → SettlementState → String → ℕ → CaravanState × SettlementState × ValidationReport
unfolding resource_request hand_over
unload_caravan_at_destination c destination resource_id amount =
    let path = "simulation.caravan." <> c.id in
    let request = resource_request (path <> ".unload") resource_id amount in
    let (cargo, stock, report) =
      hand_over c.cargo destination.storage resource_id amount (path <> ".unload")
        "caravan cargo does not have enough resource" in
    if not (ok request)
    then (c, destination, request)
    else if not (str_eq destination.id c.destination_settlement_id)
    then (
      c,
      destination,
      error_report (path <> ".destination") "caravan can only unload at its destination settlement",
    )
    else if not (caravan_arrived c)
    then (c, destination, error_report (path <> ".unload") "caravan can only unload after arrival")
    else (record c { cargo = cargo }, record destination { storage = stock }, report)

-- caravan_by_id
unfoldable pub caravan_by_id : CaravanFleet → String → Option CaravanState
caravan_by_id fleet id = find_if (λ c. str_eq c.id id) fleet.caravans

-- The two assignments at the start of add_caravan.
with_caravan_ticks : CaravanState → CaravanState
with_caravan_ticks c = record c {
  total_travel_ticks =
      if c.total_travel_ticks == 0 && ltb 0 c.total_travel_days
      then days_to_ticks c.total_travel_days
      else c.total_travel_ticks;
  ticks_remaining =
      if c.ticks_remaining == 0 && ltb 0 c.days_remaining
      then days_to_ticks c.days_remaining
      else c.ticks_remaining;
}

-- add_caravan
pub add_caravan : CaravanFleet → CaravanState → CaravanFleet × ValidationReport
unfolding with_caravan_ticks
add_caravan fleet c =
    let caravan = with_caravan_ticks c in
    let report = validate_caravan caravan in
    if not (ok report)
    then (fleet, report)
    else if is_some (caravan_by_id fleet caravan.id)
    then (fleet, add_error report ("simulation.caravan." <> caravan.id) "duplicate caravan id")
    else (record { caravans = fleet.caravans ++ caravan ∷ [] }, report)

abbrev pub caravan_count : CaravanFleet → ℕ
caravan_count fleet = length fleet.caravans

-- active_caravans
pub active_caravans : CaravanFleet → List CaravanState
active_caravans fleet = keep_if (λ c. not (caravan_arrived c)) fleet.caravans

-- arrived_caravans
pub arrived_caravans : CaravanFleet → List CaravanState
arrived_caravans fleet = keep_if (λ c. caravan_arrived c) fleet.caravans
