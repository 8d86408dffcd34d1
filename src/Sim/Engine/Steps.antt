-- ===== src/Sim/Engine/Steps.antt =====
-- Whatever a host does with an engine, by its methods and its commands.
use city_life_core.Prelude.{ℕ, ◌≡◌, ap, ◌∙◌, inl, inr, true, String, [], arith}
use city_life_core.Sim.Settlement.{SettlementState, BuildingInstance}
use city_life_core.Sim.Engine.{
  SimulationEngine, add_settlement, create_settlement, add_building_to_settlement,
  add_resource_to_settlement, remove_resource_from_settlement,
  transfer_resource_between_settlements,
}
use city_life_core.Sim.Engine.Commands.{SimulationCommandResult, log_command, clear_events}
use city_life_core.Sim.Engine.Days.{advance_day}
use city_life_core.Sim.Engine.Days.Log.{ids, advance_day-log}
use city_life_core.Sim.Engine.Saving.{SimulationEngineState, restore_state}
use city_life_core.Sim.Engine.Saving.Restoring.{restore_state-exact}
use city_life_core.Sim.Engine.Identity.{
  distinct, add_settlement-distinct, create_settlement-distinct, add_building_to_settlement-ids,
  add_resource_to_settlement-ids, remove_resource_from_settlement-ids, transfer_resource-ids,
  settlements_fit-distinct,
}

-- One operation on an engine.
pub data Step : SimulationEngine → SimulationEngine → Type 0 where
  adds : (e : SimulationEngine) (s : SettlementState) → Step e (add_settlement e s).0
  creates : (e : SimulationEngine) (id : String) → Step e (create_settlement e id).0
  builds :
      (e : SimulationEngine) (id : String) (b : BuildingInstance)
      → Step e (add_building_to_settlement e id b).0
  supplies :
      (e : SimulationEngine) (id k : String) (n : ℕ)
      → Step e (add_resource_to_settlement e id k n).0
  removes :
      (e : SimulationEngine) (id k : String) (n : ℕ)
      → Step e (remove_resource_from_settlement e id k n).0
  transfers :
      (e : SimulationEngine) (from to k : String) (n : ℕ)
      → Step e (transfer_resource_between_settlements e from to k n).0
  logs : (e : SimulationEngine) (r : SimulationCommandResult) → Step e (log_command e r).0
  clears : (e : SimulationEngine) → Step e (clear_events e)
  passes : (e : SimulationEngine) → Step e (advance_day e).0
  restores :
      (e : SimulationEngine) (state : SimulationEngineState) → Step e (restore_state e state).0

-- Any number of operations, in order.
pub data Reaches : SimulationEngine → SimulationEngine → Type 0 where
  here : (e : SimulationEngine) → Reaches e e
  further : (e f g : SimulationEngine) → Step e f → Reaches f g → Reaches e g

abbrev Distinct : SimulationEngine → Type 0
Distinct e = distinct (ids e.settlements) ≡ true

restore-Distinct :
    (e : SimulationEngine) (state : SimulationEngineState)
    → Distinct e
    → Distinct (restore_state e state).0
restore-Distinct e state h =
    let (verdict, outcome) = restore_state-exact e state in
    elim outcome [
      | inl (taken, _, same, _) ↦
          ap (λ ss. distinct (ids ss)) same
          ∙ settlements_fit-distinct state.settlements e.registry [] (ground arith)
      | inr (_, same) ↦ ap (λ (x : SimulationEngine). distinct (ids x.settlements)) same ∙ h
    ]

Step-Distinct : (e f : SimulationEngine) → Step e f → Distinct e → Distinct f
unfolding log_command
Step-Distinct e _ (adds _ s) h = add_settlement-distinct e s h
Step-Distinct e _ (creates _ id) h = create_settlement-distinct e id h
Step-Distinct e _ (builds _ id b) h = ap distinct (add_building_to_settlement-ids e id b) ∙ h
Step-Distinct e _ (supplies _ id k n) h = ap distinct (add_resource_to_settlement-ids e id k n) ∙ h
Step-Distinct e _ (removes _ id k n) h =
    ap distinct (remove_resource_from_settlement-ids e id k n) ∙ h
Step-Distinct e _ (transfers _ from to k n) h =
    ap distinct (transfer_resource-ids e from to k n) ∙ h
Step-Distinct e _ (logs _ r) h = h
Step-Distinct e _ (clears _) h = h
Step-Distinct e _ (passes _) h = let (_, _, same, _, _) = advance_day-log e in ap distinct same ∙ h
Step-Distinct e _ (restores _ state) h = restore-Distinct e state h

-- Whatever operations an engine goes through, of its settlements, its days, its log and its saved
-- states, in any order and with any arguments: where its settlements have ids that are not empty
-- and differ from one another, they have so in every engine that it reaches.
pub Reaches-distinct :
    (e f : SimulationEngine)
    → Reaches e f
    → distinct (ids e.settlements) ≡ true
    → distinct (ids f.settlements) ≡ true
Reaches-distinct e _ (here _) h = h
Reaches-distinct e g (further _ f _ step rest) h =
    Reaches-distinct f g rest (Step-Distinct e f step h)
