-- ===== src/Sim/Actions.antt =====
-- include/clc/sim/ActionBridge.hpp and src/clc/sim/ActionBridge.cpp: actions on an engine, checked
-- and dispatched. Their JSON is not modelled.
pub mod Dispatch
use city_life_core.Prelude.{
  ℕ, ◌-◌, Bool, true, false, not, String, Option, none, some, List, [], ◌∷◌, ◌++◌, length, ltb,
  ◌==◌, if◌then◌else◌, is_empty, str_eq,
}
use city_life_core.Prelude.Lists.{drop}
use city_life_core.Data.Validation.{ValidationReport, empty_report, error_if, add_error, ok}
use city_life_core.Sim.Engine.{SimulationEngine, SimulationEvent}
use city_life_core.Sim.Engine.Commands.{
  SimulationCommandResult, add_resource_to_settlement_command,
  remove_resource_from_settlement_command, transfer_resource_between_settlements_command,
}
use city_life_core.Sim.Engine.Days.{SimulationDayReport, run_days, events_of}

-- struct RuntimeAction
pub record RuntimeAction : Type 0 where
  pub action_id : String
  pub type : String
  pub actor_id : String
  pub target_id : String
  pub secondary_target_id : String
  pub resource_id : String
  pub amount : ℕ
  pub days : ℕ
  pub payload_json : String

-- struct RuntimeActionResult; `command` is default-constructed where no command was run.
pub record RuntimeActionResult : Type 0 where
  pub action_id : String
  pub type : String
  pub accepted : Bool
  pub validation_status : String
  pub error_code : String
  pub message : String
  pub validation : ValidationReport
  pub command : Option SimulationCommandResult
  pub events : List SimulationEvent

-- validate_runtime_action, from the type on
check_type : RuntimeAction → ValidationReport → ValidationReport
check_type a report =
    if str_eq a.type "add_resource"
    then error_if (a.amount == 0) "action.payload.amount"
        "amount must be greater than zero for add_resource"
        (error_if (is_empty a.resource_id) "action.payload.resource_id"
          "resource_id must not be empty for add_resource"
          (error_if (is_empty a.target_id) "action.payload.target_id"
            "target_id must not be empty for add_resource" report))
    else if str_eq a.type "remove_resource"
    then error_if (a.amount == 0) "action.payload.amount"
        "amount must be greater than zero for remove_resource"
        (error_if (is_empty a.resource_id) "action.payload.resource_id"
          "resource_id must not be empty for remove_resource"
          (error_if (is_empty a.target_id) "action.payload.target_id"
            "target_id must not be empty for remove_resource" report))
    else if str_eq a.type "transfer_resource"
    then error_if (a.amount == 0) "action.payload.amount"
        "amount must be greater than zero for transfer_resource"
        (error_if (is_empty a.resource_id) "action.payload.resource_id"
          "resource_id must not be empty for transfer_resource"
          (error_if (is_empty a.secondary_target_id) "action.payload.secondary_target_id"
            "secondary_target_id must not be empty for transfer_resource"
            (error_if (is_empty a.target_id) "action.payload.target_id"
              "target_id must not be empty for transfer_resource" report)))
    else if str_eq a.type "advance_days"
    then error_if (a.days == 0) "action.payload.days"
        "days must be greater than zero for advance_days" report
    else add_error report "action.type" "unsupported action type"

-- validate_runtime_action
pub validate_runtime_action : RuntimeAction → ValidationReport
unfolding check_type
validate_runtime_action a =
    let report =
      error_if (is_empty a.action_id) "action.action_id" "action_id must not be empty"
        empty_report in
    if is_empty a.type
    then add_error report "action.type" "type must not be empty"
    else check_type a report

-- first_validation_message
abbrev pub first_validation_message : ValidationReport → String
first_validation_message report = elim report.messages [ [] ↦ "" | m ∷ _ ↦ m.message ]

-- validation_status_for
validation_status_for : ValidationReport → Bool → String
validation_status_for validation accepted =
    if not (ok validation) then "invalid" else if accepted then "accepted" else "rejected"

-- rejected_result
pub rejected_result : RuntimeAction → ValidationReport → String → String → RuntimeActionResult
unfolding validation_status_for
rejected_result a validation error_code message = record {
  action_id = a.action_id;
  type = a.type;
  accepted = false;
  validation_status = validation_status_for validation false;
  error_code = error_code;
  message = message;
  validation = validation;
  command = none;
  events = [];
}

-- command_result_to_action_result
pub command_result_to_action_result :
    RuntimeAction → SimulationEngine → SimulationCommandResult → ℕ → RuntimeActionResult
command_result_to_action_result a engine command event_start = record {
  action_id = a.action_id;
  type = a.type;
  accepted = command.succeeded;
  validation_status = if command.succeeded then "accepted" else "rejected";
  error_code = if command.succeeded then "" else "action_rejected";
  message = if command.succeeded then "accepted" else first_validation_message command.validation;
  validation = command.validation;
  command = some command;
  events = if ltb event_start (length engine.events) then drop event_start engine.events else [];
}

-- An accepted advance_days.
accepted_days : RuntimeAction → ValidationReport → List SimulationDayReport → RuntimeActionResult
accepted_days a validation reports = record {
  action_id = a.action_id;
  type = a.type;
  accepted = true;
  validation_status = "accepted";
  error_code = "";
  message = "accepted";
  validation = validation;
  command = none;
  events = events_of reports;
}

-- The dispatch of a valid action.
dispatch_valid :
    SimulationEngine → RuntimeAction → ValidationReport → SimulationEngine × RuntimeActionResult
unfolding accepted_days
dispatch_valid e a validation =
    let start = length e.events in
    let (added, add) = add_resource_to_settlement_command e a.target_id a.resource_id a.amount in
    let (removed, remove) =
      remove_resource_from_settlement_command e a.target_id a.resource_id a.amount in
    let (moved, move) =
      transfer_resource_between_settlements_command e a.target_id a.secondary_target_id
        a.resource_id a.amount in
    if str_eq a.type "add_resource"
    then (added, command_result_to_action_result a added add start)
    else if str_eq a.type "remove_resource"
    then (removed, command_result_to_action_result a removed remove start)
    else if str_eq a.type "transfer_resource"
    then (moved, command_result_to_action_result a moved move start)
    else if str_eq a.type "advance_days"
    then (let (e', reports) = run_days e a.days in (e', accepted_days a validation reports))
    else (e, rejected_result a validation "unsupported_action_type" "unsupported action type")

-- dispatch_runtime_action
pub dispatch_runtime_action :
    SimulationEngine → RuntimeAction → SimulationEngine × RuntimeActionResult
unfolding dispatch_valid
dispatch_runtime_action e a =
    let validation = validate_runtime_action a in
    if not (ok validation)
    then (e, rejected_result a validation "invalid_action" (first_validation_message validation))
    else dispatch_valid e a validation
