-- ===== src/Sim/Routes.antt =====
-- include/clc/sim/Routes.hpp and src/clc/sim/Routes.cpp: the routes between settlements.
use city_life_core.Prelude.{
  ℕ, Bool, true, false, not, ◌&&◌, String, Option, List, [], ◌∷◌, ◌++◌, length, find_if, keep_if,
  ltb, ◌==◌, if◌then◌else◌, is_empty, is_some, str_eq, ◌<>◌,
}
use city_life_core.Core.Time.{days_to_ticks}
use city_life_core.Data.Validation.{ValidationReport, empty_report, add_error, error_if, ok}
use city_life_core.Sim.Settlement.{SettlementState}

-- struct SettlementRoute
pub record SettlementRoute : Type 0 where
  pub id : String
  pub display_name : String
  pub origin_settlement_id : String
  pub destination_settlement_id : String
  pub travel_days : ℕ
  pub travel_ticks : ℕ

-- struct SettlementRouteCatalog
pub record SettlementRouteCatalog : Type 0 where
  pub routes : List SettlementRoute

-- settlement_exists
pub settlement_exists : List SettlementState → String → Bool
settlement_exists [] id = false
settlement_exists (s ∷ ss) id = if str_eq s.id id then true else settlement_exists ss id

-- settlement_route_travel_ticks
pub settlement_route_travel_ticks : SettlementRoute → ℕ
settlement_route_travel_ticks route =
    if ltb 0 route.travel_ticks then route.travel_ticks else days_to_ticks route.travel_days

-- make_settlement_route_days
pub make_settlement_route_days : String → String → String → String → ℕ → SettlementRoute
make_settlement_route_days id display_name origin destination travel_days = record {
  id = id;
  display_name = display_name;
  origin_settlement_id = origin;
  destination_settlement_id = destination;
  travel_days = travel_days;
  travel_ticks = days_to_ticks travel_days;
}

-- make_settlement_route_ticks
pub make_settlement_route_ticks : String → String → String → String → ℕ → SettlementRoute
make_settlement_route_ticks id display_name origin destination travel_ticks = record {
  id = id;
  display_name = display_name;
  origin_settlement_id = origin;
  destination_settlement_id = destination;
  travel_days = 0;
  travel_ticks = travel_ticks;
}

-- validate_settlement_route
pub validate_settlement_route : SettlementRoute → ValidationReport
unfolding settlement_route_travel_ticks
validate_settlement_route route =
    let path = "simulation.route." <> route.id in
    error_if (settlement_route_travel_ticks route == 0) path
      "travel_ticks must be greater than zero"
      (error_if
        (not (is_empty route.origin_settlement_id)
          && not (is_empty route.destination_settlement_id)
          && str_eq route.origin_settlement_id route.destination_settlement_id)
        path "origin and destination settlements must be different"
        (error_if (is_empty route.destination_settlement_id) path
          "destination_settlement_id must not be empty"
          (error_if (is_empty route.origin_settlement_id) path
            "origin_settlement_id must not be empty"
            (error_if (is_empty route.display_name) path "route display_name must not be empty" (
              error_if (is_empty route.id) "simulation.route" "route id must not be empty"
                empty_report)))))

-- validate_settlement_route_for_settlements
pub validate_settlement_route_for_settlements :
    SettlementRoute → List SettlementState → ValidationReport
unfolding settlement_exists
validate_settlement_route_for_settlements route settlements =
    let report = validate_settlement_route route in
    if not (ok report)
    then report
    else error_if (not (settlement_exists settlements route.destination_settlement_id))
        ("simulation.route." <> route.id <> ".destination") "unknown destination settlement"
        (error_if (not (settlement_exists settlements route.origin_settlement_id))
          ("simulation.route." <> route.id <> ".origin") "unknown origin settlement" report)

-- settlement_route_by_id
pub settlement_route_by_id : SettlementRouteCatalog → String → Option SettlementRoute
settlement_route_by_id catalog id = find_if (λ r. str_eq r.id id) catalog.routes

-- The last assignment before a route is pushed.
with_ticks : SettlementRoute → SettlementRoute
with_ticks route =
    if route.travel_ticks == 0 && ltb 0 route.travel_days
    then record route { travel_ticks = days_to_ticks route.travel_days }
    else route

-- add_settlement_route
pub add_settlement_route :
    SettlementRouteCatalog → SettlementRoute → SettlementRouteCatalog × ValidationReport
unfolding settlement_route_by_id with_ticks
add_settlement_route catalog route =
    let report = validate_settlement_route route in
    if not (ok report)
    then (catalog, report)
    else if is_some (settlement_route_by_id catalog route.id)
    then (catalog, add_error report ("simulation.route." <> route.id) "duplicate route id")
    else (record { routes = catalog.routes ++ with_ticks route ∷ [] }, report)

abbrev pub settlement_route_count : SettlementRouteCatalog → ℕ
settlement_route_count catalog = length catalog.routes

-- settlement_routes_from
pub settlement_routes_from : SettlementRouteCatalog → String → List SettlementRoute
settlement_routes_from catalog id = keep_if (λ r. str_eq r.origin_settlement_id id) catalog.routes

-- settlement_routes_to
pub settlement_routes_to : SettlementRouteCatalog → String → List SettlementRoute
settlement_routes_to catalog id =
    keep_if (λ r. str_eq r.destination_settlement_id id) catalog.routes
