-- ===== src/Sim/Engine/Commands.antt =====
-- The commands of the class SimulationEngine, which also log what came of them, and its event log.
pub mod Refusals
pub mod Quiet
use city_life_core.Prelude.{
  ℕ, ◌-◌, Bool, String, List, [], ◌∷◌, ◌++◌, length, keep_if, ltb, ◌==◌, ◌||◌, if◌then◌else◌,
  str_eq, ◌<>◌,
}
use city_life_core.Prelude.Lists.{drop}
use city_life_core.Data.Validation.{ValidationReport, ok}
use city_life_core.Sim.Settlement.{BuildingInstance}
use city_life_core.Sim.Engine.{
  SimulationEngine, SimulationEvent, create_settlement, add_building_to_settlement,
  add_resource_to_settlement, remove_resource_from_settlement,
  transfer_resource_between_settlements,
}

-- struct SimulationCommandResult; its member `ok` is `succeeded` here.
pub record SimulationCommandResult : Type 0 where
  pub command : String
  pub succeeded : Bool
  pub subject_id : String
  pub target_id : String
  pub resource_id : String
  pub amount : ℕ
  pub validation : ValidationReport

-- make_command_result
pub make_command_result :
    String → String → String → String → ℕ → ValidationReport → SimulationCommandResult
make_command_result command subject_id target_id resource_id amount validation = record {
  command = command;
  succeeded = ok validation;
  subject_id = subject_id;
  target_id = target_id;
  resource_id = resource_id;
  amount = amount;
  validation = validation;
}

-- command_event_type
pub command_event_type : SimulationCommandResult → String
command_event_type r =
    if r.succeeded then "simulation.command.succeeded" else "simulation.command.failed"

-- command_event_message
pub command_event_message : SimulationCommandResult → String
command_event_message r = r.command <> (if r.succeeded then " succeeded" else " failed")

-- The end of a command: the event is logged and the result returned.
unfoldable pub log_command :
    SimulationEngine → SimulationCommandResult → SimulationEngine × SimulationCommandResult
unfolding command_event_type command_event_message
log_command e r = (
  record e {
    events =
        e.events
        ++ record {
          day = e.current_day;
          type = command_event_type r;
          message = command_event_message r;
        }
          ∷ [];
  },
  r,
)

-- SimulationEngine::create_settlement_command
pub create_settlement_command :
    SimulationEngine → String → SimulationEngine × SimulationCommandResult
create_settlement_command e id =
    let (e', validation) = create_settlement e id in
    log_command e' (make_command_result "create_settlement" id "" "" 0 validation)

-- SimulationEngine::add_building_to_settlement_command
pub add_building_to_settlement_command :
    SimulationEngine → String → BuildingInstance → SimulationEngine × SimulationCommandResult
add_building_to_settlement_command e id b =
    let (e', validation) = add_building_to_settlement e id b in
    log_command e'
      (make_command_result "add_building_to_settlement" id b.definition_id "" 0 validation)

-- SimulationEngine::add_resource_to_settlement_command
pub add_resource_to_settlement_command :
    SimulationEngine → String → String → ℕ → SimulationEngine × SimulationCommandResult
add_resource_to_settlement_command e id resource_id amount =
    let (e', validation) = add_resource_to_settlement e id resource_id amount in
    log_command e'
      (make_command_result "add_resource_to_settlement" id "" resource_id amount validation)

-- SimulationEngine::remove_resource_from_settlement_command
pub remove_resource_from_settlement_command :
    SimulationEngine → String → String → ℕ → SimulationEngine × SimulationCommandResult
remove_resource_from_settlement_command e id resource_id amount =
    let (e', validation) = remove_resource_from_settlement e id resource_id amount in
    log_command e'
      (make_command_result "remove_resource_from_settlement" id "" resource_id amount validation)

-- SimulationEngine::transfer_resource_between_settlements_command
pub transfer_resource_between_settlements_command :
    SimulationEngine → String → String → String → ℕ → SimulationEngine × SimulationCommandResult
transfer_resource_between_settlements_command e from to resource_id amount =
    let (e', validation) = transfer_resource_between_settlements e from to resource_id amount in
    log_command e' (
      make_command_result "transfer_resource_between_settlements" from to resource_id amount
        validation)

-- SimulationEngine::recent_events
pub recent_events : SimulationEngine → ℕ → List SimulationEvent
recent_events e max_count =
    let size = length e.events in
    let count = if ltb max_count size then max_count else size in
    if max_count == 0 || size == 0 then [] else drop (size - count) e.events

-- SimulationEngine::events_by_type
pub events_by_type : SimulationEngine → String → List SimulationEvent
events_by_type e event_type = keep_if (λ v. str_eq v.type event_type) e.events

-- SimulationEngine::clear_events
abbrev pub clear_events : SimulationEngine → SimulationEngine
clear_events e = record e { events = [] }
