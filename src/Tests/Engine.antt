-- ===== src/Tests/Engine.antt =====
-- Engines and the actions on them at work.
use city_life_core.Prelude.{
  ℕ, ◌+◌, ◌≡◌, refl, ◌⊎◌, true, false, String, [], ◌∷◌, ◌++◌, length, arith, wrap64,
}
use city_life_core.Data.Validation.{ok}
use city_life_core.Data.Registry.{DataRegistry, empty_registry, ResourceDefinition, resource}
use city_life_core.Prelude.UnorderedMap.{find}
use city_life_core.Sim.Settlement.{SettlementState, BuildingInstance}
use city_life_core.Sim.Engine.{
  SimulationEngine, new_engine, create_settlement, add_building_to_settlement,
  add_resource_to_settlement, remove_resource_from_settlement,
  transfer_resource_between_settlements, settlement_resource_amount,
}
use city_life_core.Sim.Engine.Transfers.{can_send, sent, transfer_between_settlements-exact}
use city_life_core.Sim.Engine.Identity.{distinct}
use city_life_core.Sim.Engine.Days.{run_scenario, events_of, advance_day}
use city_life_core.Sim.Engine.Days.Log.{ids}
use city_life_core.Sim.Engine.Days.Runs.{run_scenario-exact}
use city_life_core.Sim.Engine.Steps.{Reaches, here, further, supplies, passes, Reaches-distinct}
use city_life_core.Sim.Engine.Commands.{
  create_settlement_command, add_building_to_settlement_command, add_resource_to_settlement_command,
  remove_resource_from_settlement_command, transfer_resource_between_settlements_command,
}
use city_life_core.Sim.Engine.Commands.Refusals.{IsLogged, commands-IsLogged}
use city_life_core.Sim.Engine.Saving.{export_state, restore_state}
use city_life_core.Sim.Engine.Saving.Checks.{fits}
use city_life_core.Sim.Engine.Saving.Restoring.{restore_state-exact, restore_state-export_state}
use city_life_core.Sim.Actions.{RuntimeAction, validate_runtime_action, dispatch_runtime_action}
use city_life_core.Sim.Actions.Dispatch.{dispatch_runtime_action-Tells}

abbrev grain : ResourceDefinition
grain = record { id = "grain"; display_name = "Grain"; category = "food"; base_value = 4 }

abbrev catalog : DataRegistry
catalog = record empty_registry { resources = ("grain", grain) ∷ [] }

abbrev hamlet : String → ℕ → SettlementState
hamlet id grain_held = record {
  id = id;
  display_name = "Hamlet";
  population = 12;
  storage = record { entries = ("grain", grain_held) ∷ [] };
  buildings = [];
  tick_remainders = [];
}

-- Two hamlets with grain, on the fourth day.
abbrev valley : SimulationEngine
valley = record (new_engine catalog) {
  settlements = hamlet "north" 40 ∷ hamlet "south" 2 ∷ [];
  current_day = 4;
}

abbrev mill : BuildingInstance
mill = record { definition_id = "mill"; assigned_workers = 3 }

transfer_between_settlements-exact_example :
    let (e', report) = transfer_resource_between_settlements valley "north" "south" "grain" 15 in
    (ok report ≡ can_send valley "north" "south" "grain" 15)
    × (((ok report ≡ true)
          × ((i j : String)
              → settlement_resource_amount e' i j ≡ sent valley "north" "south" "grain" 15 i j))
        ⊎ ((ok report ≡ false) × (e' ≡ valley)))
transfer_between_settlements-exact_example =
    transfer_between_settlements-exact valley "north" "south" "grain" 15 (omega arith)

restore_state-exact_example :
    let (e', report) = restore_state (new_engine catalog) (export_state valley) in
    (ok report ≡ fits catalog (export_state valley))
    × (((ok report ≡ true)
          × (e'.current_day ≡ (export_state valley).current_day)
          × (e'.settlements ≡ (export_state valley).settlements)
          × (e'.events ≡ (export_state valley).events))
        ⊎ ((ok report ≡ false) × (e' ≡ new_engine catalog)))
restore_state-exact_example = restore_state-exact (new_engine catalog) (export_state valley)

restore_state-export_state_example :
    let (d', report) = restore_state (new_engine catalog) (export_state valley) in
    (d' ≡ valley) × (ok report ≡ true)
unfolding export_state resource find
restore_state-export_state_example =
    restore_state-export_state (new_engine catalog) valley refl refl refl

-- The north is supplied with grain, and a day passes.
supplied : Reaches valley (advance_day (add_resource_to_settlement valley "north" "grain" 5).0).0
supplied =
    let stocked = (add_resource_to_settlement valley "north" "grain" 5).0 in
    further valley stocked (advance_day stocked).0 (supplies valley "north" "grain" 5) (
      further stocked (advance_day stocked).0 (advance_day stocked).0 (passes stocked)
        (here (advance_day stocked).0))

Reaches-distinct_example :
    distinct
      (ids (advance_day (add_resource_to_settlement valley "north" "grain" 5).0).0.settlements)
    ≡ true
Reaches-distinct_example =
    Reaches-distinct valley (advance_day (add_resource_to_settlement valley "north" "grain" 5).0).0
      supplied refl

run_scenario-exact_example :
    let (e', r) = run_scenario valley 3 in
    (length r.reports ≡ 3)
    × (r.events_delta ≡ events_of r.reports)
    × (e'.events ≡ valley.events ++ r.events_delta)
    × (r.summary.days_run ≡ 3)
    × (r.summary.events ≡ wrap64 (length r.events_delta))
    × (r.final_snapshot.day ≡ wrap64 (r.initial_snapshot.day + 3))
run_scenario-exact_example = run_scenario-exact valley 3 (omega arith)

commands-IsLogged_example :
    IsLogged valley "create_settlement"
      (create_settlement valley "north")
      (create_settlement_command valley "north")
    × IsLogged valley "add_building_to_settlement"
        (add_building_to_settlement valley "north" mill)
        (add_building_to_settlement_command valley "north" mill)
    × IsLogged valley "add_resource_to_settlement"
        (add_resource_to_settlement valley "north" "grain" 50)
        (add_resource_to_settlement_command valley "north" "grain" 50)
    × IsLogged valley "remove_resource_from_settlement"
        (remove_resource_from_settlement valley "north" "grain" 50)
        (remove_resource_from_settlement_command valley "north" "grain" 50)
    × IsLogged valley "transfer_resource_between_settlements"
        (transfer_resource_between_settlements valley "north" "south" "grain" 50)
        (transfer_resource_between_settlements_command valley "north" "south" "grain" 50)
commands-IsLogged_example = commands-IsLogged valley "north" "south" "grain" mill 50

abbrev two_days : RuntimeAction
two_days = record {
  action_id = "a1";
  type = "advance_days";
  actor_id = "host";
  target_id = "";
  secondary_target_id = "";
  resource_id = "";
  amount = 0;
  days = 2;
  payload_json = "";
}

dispatch_runtime_action-Tells_example :
    let (e', r) = dispatch_runtime_action valley two_days in
    (r.accepted ≡ ok r.validation)
    × (e'.events ≡ valley.events ++ r.events)
    × ((ok (validate_runtime_action two_days) ≡ true) ⊎ (e' ≡ valley))
dispatch_runtime_action-Tells_example = dispatch_runtime_action-Tells valley two_days
