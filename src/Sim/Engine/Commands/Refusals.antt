-- ===== src/Sim/Engine/Commands/Refusals.antt =====
-- A command that fails changes nothing but the log.
use city_life_core.Prelude.{
  ℕ, ◌≡◌, refl, ap, ◌∙◌, ◌⊎◌, inl, inr, true, false, not, String, Option, none, some, [], ◌∷◌, ◌++◌,
  ◌==◌, is_empty, is_some, arith, Bool-cases, ◌<>◌,
}
use city_life_core.Data.Validation.{ValidationReport, ok, ok-empty, refuse_if-same}
use city_life_core.Data.Registry.{SettlementDefinition, resource}
use city_life_core.Data.Registry as Registry
use city_life_core.Sim.Storage.Amounts.{add-refused, try_remove-refused}
use city_life_core.Sim.Settlement.{
  SettlementState, BuildingInstance, add_building, create_settlement_from_definition,
}
use city_life_core.Sim.Settlement.Identity.{add_building-refused}
use city_life_core.Sim.Engine.{
  SimulationEngine, find_settlement, write, add_settlement, create_from, create_settlement,
  at_settlement, add_building_to_settlement, with_resource, put_in, take_from,
  add_resource_to_settlement, remove_resource_from_settlement,
  transfer_resource_between_settlements,
}
use city_life_core.Sim.Engine.Goods.{write-same}
use city_life_core.Sim.Engine.Transfers.{transfer-same}
use city_life_core.Sim.Engine.Commands.{
  SimulationCommandResult, make_command_result, log_command, create_settlement_command,
  add_building_to_settlement_command, add_resource_to_settlement_command,
  remove_resource_from_settlement_command, transfer_resource_between_settlements_command,
}

-- An operation that leaves the engine alone where its report is not ok.
abbrev pub Refuses : SimulationEngine → SimulationEngine × ValidationReport → Type 0
Refuses e x = ok x.1 ≡ false → x.0 ≡ e

at_settlement-Refuses :
    (e : SimulationEngine) (id : String)
    (change : SettlementState → SettlementState × ValidationReport) (o : Option SettlementState)
    → find_settlement e.settlements id ≡ o
    → ((s : SettlementState) → ok (change s).1 ≡ false → (change s).0 ≡ s)
    → Refuses e (at_settlement e id change o)
unfolding at_settlement
at_settlement-Refuses e id change none f same h = refl
at_settlement-Refuses e id change (some s) f same h =
    ap (λ s'. write e id s') (same s h)
    ∙ ap (λ ss. record e { settlements = ss }) (write-same e.settlements id s f)

with_resource-Refuses :
    (e : SimulationEngine) (path k : String) (n : ℕ) (x : SimulationEngine × ValidationReport)
    → Refuses e x
    → Refuses e (with_resource e path k n x)
unfolding with_resource
with_resource-Refuses e path k n x h = refuse_if-same (is_empty k) e _ _ _ (
    refuse_if-same (n == 0) e _ _ _
      (refuse_if-same (not (is_some (resource e.registry k))) e _ _ _ h))

add_settlement-Refuses :
    (e : SimulationEngine) (s : SettlementState) → Refuses e (add_settlement e s)
unfolding add_settlement
add_settlement-Refuses e s = refuse_if-same (is_empty s.id) e _ _ _ (
    refuse_if-same (is_some (find_settlement e.settlements s.id)) e _ _ _
      (λ h. ground (arith, ok-empty)))

create_from-Refuses :
    (e : SimulationEngine) (id : String) (o : Option SettlementDefinition)
    → Refuses e (create_from e id o)
unfolding create_from
create_from-Refuses e id none h = refl
create_from-Refuses e id (some d) h =
    add_settlement-Refuses e (create_settlement_from_definition d) h

create_settlement-Refuses :
    (e : SimulationEngine) (id : String) → Refuses e (create_settlement e id)
unfolding create_settlement
create_settlement-Refuses e id =
    refuse_if-same (is_empty id) e _ _ _
      (create_from-Refuses e id (Registry.settlement e.registry id))

add_building-Refuses :
    (e : SimulationEngine) (id : String) (b : BuildingInstance)
    → Refuses e (add_building_to_settlement e id b)
unfolding add_building_to_settlement
add_building-Refuses e id b = refuse_if-same (is_empty id) e _ _ _ (
    at_settlement-Refuses e id (λ s. add_building s e.registry b) _ refl
      (λ s. add_building-refused s e.registry b))

pub add_resource-Refuses :
    (e : SimulationEngine) (id k : String) (n : ℕ) → Refuses e (add_resource_to_settlement e id k n)
unfolding add_resource_to_settlement put_in
add_resource-Refuses e id k n = refuse_if-same (is_empty id) e _ _ _ (
    with_resource-Refuses e _ k n _ (
      at_settlement-Refuses e id (put_in k n) _ refl
        (λ s h. ap (λ x. record s { storage = x }) (add-refused s.storage k n h))))

take_from-refused :
    (s : SettlementState) (id k : String) (n : ℕ)
    → ok (take_from id k n s).1 ≡ false
    → (take_from id k n s).0 ≡ s
unfolding take_from
take_from-refused s id k n h =
    ap (λ x. record s { storage = x }) (try_remove-refused s.storage k n (ground (arith, ok-empty)))

pub remove_resource-Refuses :
    (e : SimulationEngine) (id k : String) (n : ℕ)
    → Refuses e (remove_resource_from_settlement e id k n)
unfolding remove_resource_from_settlement
remove_resource-Refuses e id k n = refuse_if-same (is_empty id) e _ _ _ (
    with_resource-Refuses e _ k n _
      (at_settlement-Refuses e id (take_from id k n) _ refl (λ s h. take_from-refused s id k n h)))

-- An engine with one more event, of its current day.
abbrev pub with_event : SimulationEngine → String → String → SimulationEngine
with_event e type message = record e {
  events = e.events ++ record { day = e.current_day; type = type; message = message } ∷ [];
}

-- A command by its method's result `x`: it succeeds with what the method did and an event that says
-- so, or it fails and the event that says so is all that changed.
abbrev pub IsLogged :
    SimulationEngine
    → String
    → SimulationEngine × ValidationReport
    → SimulationEngine × SimulationCommandResult
    → Type 0
IsLogged e command x y =
    (y.1.validation ≡ x.1)
    × (((ok x.1 ≡ true)
          × (y.1.succeeded ≡ true)
          × (y.0 ≡ with_event x.0 "simulation.command.succeeded" (command <> " succeeded")))
        ⊎ ((ok x.1 ≡ false)
            × (y.1.succeeded ≡ false)
            × (y.0 ≡ with_event e "simulation.command.failed" (command <> " failed"))))

log_command-IsLogged :
    (e : SimulationEngine) (command subject target k : String) (n : ℕ)
    (x : SimulationEngine × ValidationReport)
    → Refuses e x
    → IsLogged e command x (log_command x.0 (make_command_result command subject target k n x.1))
unfolding log_command make_command_result
log_command-IsLogged e command subject target k n x refuses = (
  refl,
  elim (Bool-cases (ok x.1)) [
    | inl h ↦ inl (h, h, rw h refl)
    | inr h ↦ inr (
      h,
      h,
      rw h (ap (λ d. with_event d "simulation.command.failed" (command <> " failed")) (refuses h)),
    )
  ],
)

-- Each of the five commands logs exactly one event, of the current day, that names the command and
-- says how it ended. It succeeds exactly when its method does, and then the engine is what the
-- method made of it; when it fails, for whatever reason, nothing but the log has changed.
pub commands-IsLogged :
    (e : SimulationEngine) (id to k : String) (b : BuildingInstance) (n : ℕ)
    → IsLogged e "create_settlement" (create_settlement e id) (create_settlement_command e id)
      × IsLogged e "add_building_to_settlement"
          (add_building_to_settlement e id b)
          (add_building_to_settlement_command e id b)
      × IsLogged e "add_resource_to_settlement"
          (add_resource_to_settlement e id k n)
          (add_resource_to_settlement_command e id k n)
      × IsLogged e "remove_resource_from_settlement"
          (remove_resource_from_settlement e id k n)
          (remove_resource_from_settlement_command e id k n)
      × IsLogged e "transfer_resource_between_settlements"
          (transfer_resource_between_settlements e id to k n)
          (transfer_resource_between_settlements_command e id to k n)
unfolding create_settlement_command add_building_to_settlement_command
    add_resource_to_settlement_command remove_resource_from_settlement_command
    transfer_resource_between_settlements_command
commands-IsLogged e id to k b n = (
  log_command-IsLogged e _ id "" "" 0 _ (create_settlement-Refuses e id),
  log_command-IsLogged e _ id b.definition_id "" 0 _ (add_building-Refuses e id b),
  log_command-IsLogged e _ id "" k n _ (add_resource-Refuses e id k n),
  log_command-IsLogged e _ id "" k n _ (remove_resource-Refuses e id k n),
  log_command-IsLogged e _ id to k n _ (transfer-same e id to k n),
)
