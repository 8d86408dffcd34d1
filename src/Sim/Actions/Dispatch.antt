-- ===== src/Sim/Actions/Dispatch.antt =====
-- What the dispatch of an action does to the engine, its result tells.
use city_life_core.Prelude.{
  ◌≡◌, refl, sym, ap, ◌∙◌, ◌⊎◌, inl, inr, Bool, true, not, ◌||◌, String, List, [], ◌∷◌, ◌++◌,
  append-nil, length, ltb, if◌then◌else◌, is_empty, str_eq, arith, Bool-cases, if_cases, ◌<>◌,
}
use city_life_core.Prelude.Lists.{drop}
use city_life_core.Sim.Settlement.{BuildingInstance}
use city_life_core.Data.Validation.{ValidationReport, empty_report, error_if, ok, ok-add_error}
use city_life_core.Sim.Engine.{SimulationEngine, SimulationEvent}
use city_life_core.Sim.Engine.Commands.{SimulationCommandResult}
use city_life_core.Sim.Engine.Commands.Refusals.{IsLogged, commands-IsLogged}
use city_life_core.Sim.Engine.Commands.Quiet.{
  IsQuiet, add_resource-IsQuiet, remove_resource-IsQuiet, transfer_resource-IsQuiet,
}
use city_life_core.Sim.Engine.Days.Runs.{delta-eq, run_days-log}
use city_life_core.Sim.Actions.{
  RuntimeAction, RuntimeActionResult, validate_runtime_action, check_type, dispatch_valid,
  dispatch_runtime_action, rejected_result, command_result_to_action_result, accepted_days,
}

-- A result that says what was done: it is accepted exactly when its validation is ok, and its
-- events are what the engine's log gained.
abbrev pub Tells : SimulationEngine → SimulationEngine × RuntimeActionResult → Type 0
Tells e (e', r) = (r.accepted ≡ ok r.validation) × (e'.events ≡ e.events ++ r.events)

command-Tells :
    (e e' : SimulationEngine) (a : RuntimeAction) (c : SimulationCommandResult)
    (more : List SimulationEvent)
    → c.succeeded ≡ ok c.validation
    → e'.events ≡ e.events ++ more
    → Tells e (e', command_result_to_action_result a e' c (length e.events))
unfolding command_result_to_action_result
command-Tells e e' a c more same grown =
    let delta : (if ltb (length e.events) (length e'.events)
          then drop (length e.events) e'.events
          else [])
        ≡ more =
      rw grown (delta-eq e.events more) in
    (same, grown ∙ ap (λ es. e.events ++ es) (sym delta))

logged-Tells :
    (e : SimulationEngine) (a : RuntimeAction) (name : String)
    (x : SimulationEngine × ValidationReport) (y : SimulationEngine × SimulationCommandResult)
    → IsQuiet e x
    → IsLogged e name x y
    → Tells e (y.0, command_result_to_action_result a y.0 y.1 (length e.events))
logged-Tells e a name x y (quiet, day, _) (same, logged) = elim logged [
  | inl (h, done, grown) ↦
      let event : SimulationEvent = record {
        day = x.0.current_day;
        type = "simulation.command.succeeded";
        message = name <> " succeeded";
      } in
      command-Tells e y.0 a y.1 (event ∷ []) (done ∙ sym h ∙ ap ok (sym same))
        (ap (λ (d : SimulationEngine). d.events) grown ∙ ap (λ es. es ++ event ∷ []) quiet)
  | inr (h, failed, grown) ↦
      command-Tells e y.0 a y.1 _ (failed ∙ sym h ∙ ap ok (sym same))
        (ap (λ (d : SimulationEngine). d.events) grown)
]

-- The four types of action.
abbrev is_supported : RuntimeAction → Bool
is_supported a =
    str_eq a.type "add_resource"
    || str_eq a.type "remove_resource"
    || str_eq a.type "transfer_resource"
    || str_eq a.type "advance_days"

dispatch_valid-Tells :
    (e : SimulationEngine) (a : RuntimeAction) (v : ValidationReport)
    → ok v ≡ true
    → is_supported a ≡ true
    → Tells e (dispatch_valid e a v)
unfolding dispatch_valid accepted_days
dispatch_valid-Tells e a v h known =
    let b : BuildingInstance = record { definition_id = ""; assigned_workers = 0 } in
    let (_, _, add, remove, move) =
      commands-IsLogged e a.target_id a.secondary_target_id a.resource_id b a.amount in
    let (passed, _, _) = run_days-log a.days e in
    elim (Bool-cases (str_eq a.type "add_resource")) [
      | inl p ↦ rw p (
          logged-Tells e a "add_resource_to_settlement" _ _
            (add_resource-IsQuiet e a.target_id a.resource_id a.amount) add)
      | inr p ↦ elim (Bool-cases (str_eq a.type "remove_resource")) [
        | inl q ↦
            rw (p, q)
              (logged-Tells e a "remove_resource_from_settlement" _ _
                (remove_resource-IsQuiet e a.target_id a.resource_id a.amount) remove)
        | inr q ↦ elim (Bool-cases (str_eq a.type "transfer_resource")) [
          | inl r ↦
              rw (p, q, r)
                (logged-Tells e a "transfer_resource_between_settlements" _ _
                  (transfer_resource-IsQuiet e a.target_id a.secondary_target_id a.resource_id
                    a.amount)
                  move)
          | inr r ↦
              let days : str_eq a.type "advance_days" ≡ true = ground arith in
              rw (p, q, r, days) (sym h, passed)
        ]
      ]
    ]

-- Only an action of a supported type is valid.
ok-supported : (a : RuntimeAction) → ok (validate_runtime_action a) ≡ true → is_supported a ≡ true
unfolding validate_runtime_action check_type
ok-supported a h =
    let report =
      error_if (is_empty a.action_id) "action.action_id" "action_id must not be empty"
        empty_report in
    ground (
      arith,
      ok-add_error report "action.type" "unsupported action type",
      ok-add_error report "action.type" "type must not be empty",
    )

-- The dispatch of any action accepts it exactly when the validation that it returns is ok, and
-- returns exactly the events by which the engine's log has grown; an action that is not valid
-- leaves the engine as it was.
pub dispatch_runtime_action-Tells :
    (e : SimulationEngine) (a : RuntimeAction)
    → let (e', r) = dispatch_runtime_action e a in
      (r.accepted ≡ ok r.validation)
      × (e'.events ≡ e.events ++ r.events)
      × ((ok (validate_runtime_action a) ≡ true) ⊎ (e' ≡ e))
unfolding dispatch_runtime_action rejected_result
dispatch_runtime_action-Tells e a =
    let v = validate_runtime_action a in
    if_cases
      (λ (x : SimulationEngine × RuntimeActionResult).
        (x.1.accepted ≡ ok x.1.validation)
        × (x.0.events ≡ e.events ++ x.1.events)
        × ((ok v ≡ true) ⊎ (x.0 ≡ e)))
      (not (ok v)) _ _ (λ bad. (ground arith, sym (append-nil e.events), inr refl))
      (λ good.
        let fine : ok v ≡ true = ground arith in
        let (same, grown) = dispatch_valid-Tells e a v fine (ok-supported a fine) in
        (same, grown, inl fine))
