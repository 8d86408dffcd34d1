-- ===== src/Sim/Engine.antt =====
-- The class SimulationEngine of include/clc/sim/SimulationEngine.hpp and
-- src/clc/sim/SimulationEngine.cpp: its settlements and what is done to them. A method that changes
-- the engine returns the engine after it.
pub mod Goods
pub mod Transfers
pub mod Identity
pub mod Steps
pub mod Commands
pub mod Days
pub mod Presets
pub mod Saving
use city_life_core.Prelude.{
  ℕ, Bool, false, not, String, Option, none, some, List, [], ◌∷◌, ◌++◌, length, find_if, keep_if,
  ltb, ◌==◌, ◌||◌, if◌then◌else◌, is_empty, is_some, str_eq, ◌<>◌,
}
use city_life_core.Data.Validation.{ValidationReport, empty_report, error_report, ok}
use city_life_core.Data.Registry.{DataRegistry, SettlementDefinition, resource}
use city_life_core.Data.Registry as Registry
use city_life_core.Economy.Market.{MarketState}
use city_life_core.Sim.Storage.{ResourceStorage, add, try_remove, transfer, amount}
use city_life_core.Sim.Settlement.{
  SettlementState, BuildingInstance, add_building, create_settlement_from_definition,
}

-- struct SimulationEvent
pub record SimulationEvent : Type 0 where
  pub day : ℕ
  pub type : String
  pub message : String

-- class SimulationEngine: its private members
pub record SimulationEngine : Type 0 where
  pub registry : DataRegistry
  pub market : MarketState
  pub settlements : List SettlementState
  pub events : List SimulationEvent
  pub current_day : ℕ

-- SimulationEngine::SimulationEngine
abbrev pub new_engine : DataRegistry → SimulationEngine
new_engine registry = record {
  registry = registry;
  market = record { demands = [] };
  settlements = [];
  events = [];
  current_day = 0;
}

-- find_settlement
unfoldable pub find_settlement : List SettlementState → String → Option SettlementState
find_settlement ss settlement_id = find_if (λ s. str_eq s.id settlement_id) ss

-- What is written through the pointer of find_settlement: the first settlement of that id.
unfoldable pub write_settlement :
    List SettlementState → String → SettlementState → List SettlementState
write_settlement [] settlement_id s = []
write_settlement (x ∷ xs) settlement_id s =
    if str_eq x.id settlement_id then s ∷ xs else x ∷ write_settlement xs settlement_id s

abbrev pub write : SimulationEngine → String → SettlementState → SimulationEngine
write e settlement_id s = record e { settlements = write_settlement e.settlements settlement_id s }

-- SimulationEngine::add_settlement
unfoldable pub add_settlement :
    SimulationEngine → SettlementState → SimulationEngine × ValidationReport
add_settlement e s =
    if is_empty s.id
    then (e, error_report "simulation.settlement" "settlement id must not be empty")
    else if is_some (find_settlement e.settlements s.id)
    then (e, error_report ("simulation.settlement." <> s.id) "duplicate settlement id")
    else (record e { settlements = e.settlements ++ s ∷ [] }, empty_report)

-- SimulationEngine::create_settlement, with the definition looked up
create_from :
    SimulationEngine → String → Option SettlementDefinition → SimulationEngine × ValidationReport
create_from e id none =
    (e, error_report ("simulation.create_settlement." <> id) "unknown settlement definition")
create_from e id (some definition) = add_settlement e (create_settlement_from_definition definition)

-- SimulationEngine::create_settlement
unfoldable pub create_settlement : SimulationEngine → String → SimulationEngine × ValidationReport
unfolding create_from
create_settlement e id =
    if is_empty id
    then (
      e,
      error_report "simulation.create_settlement" "settlement_definition_id must not be empty",
    )
    else create_from e id (Registry.settlement e.registry id)

-- The end of a method that looks a settlement up and writes what `change` makes of it.
at_settlement :
    SimulationEngine
    → String
    → (SettlementState → SettlementState × ValidationReport)
    → Option SettlementState
    → SimulationEngine × ValidationReport
at_settlement e id change none =
    (e, error_report ("simulation.settlement." <> id) "unknown settlement")
at_settlement e id change (some s) = let (s', report) = change s in (write e id s', report)

-- SimulationEngine::add_building_to_settlement
unfoldable pub add_building_to_settlement :
    SimulationEngine → String → BuildingInstance → SimulationEngine × ValidationReport
unfolding at_settlement
add_building_to_settlement e id b =
    if is_empty id
    then (e, error_report "simulation.add_building" "settlement_id must not be empty")
    else at_settlement e id (λ s. add_building s e.registry b) (find_settlement e.settlements id)

-- The last three checks of a request about a resource, and `proceed` after them.
with_resource :
    SimulationEngine
    → String
    → String
    → ℕ
    → SimulationEngine × ValidationReport
    → SimulationEngine × ValidationReport
with_resource e path resource_id quantity proceed =
    if is_empty resource_id
    then (e, error_report path "resource_id must not be empty")
    else if quantity == 0
    then (e, error_report path "amount must be greater than zero")
    else if not (is_some (resource e.registry resource_id))
    then (e, error_report ("simulation.resource." <> resource_id) "unknown resource")
    else proceed

-- The storage of a settlement after `add`.
put_in : String → ℕ → SettlementState → SettlementState × ValidationReport
put_in resource_id quantity s =
    let (storage, report) = add s.storage resource_id quantity in
    (record s { storage = storage }, report)

-- The storage of a settlement after `try_remove`, and the report of a refusal.
take_from : String → String → ℕ → SettlementState → SettlementState × ValidationReport
take_from id resource_id quantity s =
    let (storage, removed) = try_remove s.storage resource_id quantity in
    (
      record s { storage = storage },
      if not removed
          then error_report ("simulation.settlement." <> id <> ".storage." <> resource_id)
              "not enough resource in settlement storage"
          else empty_report,
    )

-- SimulationEngine::add_resource_to_settlement
unfoldable pub add_resource_to_settlement :
    SimulationEngine → String → String → ℕ → SimulationEngine × ValidationReport
unfolding with_resource at_settlement put_in
add_resource_to_settlement e id resource_id quantity =
    if is_empty id
    then (e, error_report "simulation.add_resource" "settlement_id must not be empty")
    else with_resource e "simulation.add_resource" resource_id quantity
        (at_settlement e id (put_in resource_id quantity) (find_settlement e.settlements id))

-- SimulationEngine::remove_resource_from_settlement
unfoldable pub remove_resource_from_settlement :
    SimulationEngine → String → String → ℕ → SimulationEngine × ValidationReport
unfolding with_resource at_settlement take_from
remove_resource_from_settlement e id resource_id quantity =
    if is_empty id
    then (e, error_report "simulation.remove_resource" "settlement_id must not be empty")
    else with_resource e "simulation.remove_resource" resource_id quantity
        (at_settlement e id (take_from id resource_id quantity) (find_settlement e.settlements id))

-- The end of transfer_resource_between_settlements, with both settlements looked up. Their ids
-- differ there, so that they are two objects.
transfer_between :
    SimulationEngine
    → String
    → String
    → String
    → ℕ
    → Option SettlementState
    → Option SettlementState
    → SimulationEngine × ValidationReport
transfer_between e from to resource_id quantity none target =
    (e, error_report ("simulation.settlement." <> from) "unknown source settlement")
transfer_between e from to resource_id quantity (some s) none =
    (e, error_report ("simulation.settlement." <> to) "unknown target settlement")
transfer_between e from to resource_id quantity (some s) (some t) =
    let (left, filled, report) = transfer false s.storage t.storage resource_id quantity in
    (write (write e from (record s { storage = left })) to (record t { storage = filled }), report)

-- SimulationEngine::transfer_resource_between_settlements
unfoldable pub transfer_resource_between_settlements :
    SimulationEngine → String → String → String → ℕ → SimulationEngine × ValidationReport
unfolding with_resource transfer_between
transfer_resource_between_settlements e from to resource_id quantity =
    let path : String = "simulation.transfer_resource" in
    if is_empty from
    then (e, error_report path "from_settlement_id must not be empty")
    else if is_empty to
    then (e, error_report path "to_settlement_id must not be empty")
    else if str_eq from to
    then (e, error_report path "source and target settlements must be different")
    else with_resource e path resource_id quantity (
        transfer_between e from to resource_id quantity (find_settlement e.settlements from)
          (find_settlement e.settlements to))

-- SimulationEngine::has_settlement
abbrev pub has_settlement : SimulationEngine → String → Bool
has_settlement e id = is_some (find_settlement e.settlements id)

abbrev amount_in : String → Option SettlementState → ℕ
amount_in resource_id none = 0
amount_in resource_id (some s) = amount s.storage resource_id

-- SimulationEngine::settlement_resource_amount
unfoldable pub settlement_resource_amount : SimulationEngine → String → String → ℕ
settlement_resource_amount e id resource_id =
    amount_in resource_id (find_settlement e.settlements id)
