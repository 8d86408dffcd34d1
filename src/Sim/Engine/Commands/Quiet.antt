-- ===== src/Sim/Engine/Commands/Quiet.antt =====
-- The methods on resources leave the log, the clock and the registry of the engine alone.
use city_life_core.Prelude.{
  ℕ, ◌≡◌, refl, String, Option, none, some, ◌==◌, not, if_both, is_empty, is_some, str_eq,
}
use city_life_core.Data.Validation.{ValidationReport}
use city_life_core.Data.Registry.{resource}
use city_life_core.Sim.Settlement.{SettlementState}
use city_life_core.Sim.Engine.{
  SimulationEngine, at_settlement, with_resource, put_in, take_from, transfer_between,
  add_resource_to_settlement, remove_resource_from_settlement,
  transfer_resource_between_settlements,
}

abbrev pub IsQuiet : SimulationEngine → SimulationEngine × ValidationReport → Type 0
IsQuiet e x =
    (x.0.events ≡ e.events) × (x.0.current_day ≡ e.current_day) × (x.0.registry ≡ e.registry)

at_settlement-IsQuiet :
    (e : SimulationEngine) (id : String)
    (change : SettlementState → SettlementState × ValidationReport) (o : Option SettlementState)
    → IsQuiet e (at_settlement e id change o)
unfolding at_settlement
at_settlement-IsQuiet e id change none = (refl, refl, refl)
at_settlement-IsQuiet e id change (some s) = (refl, refl, refl)

with_resource-IsQuiet :
    (e : SimulationEngine) (path k : String) (n : ℕ) (x : SimulationEngine × ValidationReport)
    → IsQuiet e x
    → IsQuiet e (with_resource e path k n x)
unfolding with_resource
with_resource-IsQuiet e path k n x h =
    if_both (IsQuiet e) (is_empty k) _ _ (refl, refl, refl)
      (if_both (IsQuiet e) (n == 0) _ _ (refl, refl, refl)
        (if_both (IsQuiet e) (not (is_some (resource e.registry k))) _ _ (refl, refl, refl) h))

pub add_resource-IsQuiet :
    (e : SimulationEngine) (id k : String) (n : ℕ) → IsQuiet e (add_resource_to_settlement e id k n)
unfolding add_resource_to_settlement
add_resource-IsQuiet e id k n =
    if_both (IsQuiet e) (is_empty id) _ _ (refl, refl, refl)
      (with_resource-IsQuiet e _ k n _ (at_settlement-IsQuiet e id (put_in k n) _))

pub remove_resource-IsQuiet :
    (e : SimulationEngine) (id k : String) (n : ℕ)
    → IsQuiet e (remove_resource_from_settlement e id k n)
unfolding remove_resource_from_settlement
remove_resource-IsQuiet e id k n =
    if_both (IsQuiet e) (is_empty id) _ _ (refl, refl, refl)
      (with_resource-IsQuiet e _ k n _ (at_settlement-IsQuiet e id (take_from id k n) _))

transfer_between-IsQuiet :
    (e : SimulationEngine) (from to k : String) (n : ℕ) (o p : Option SettlementState)
    → IsQuiet e (transfer_between e from to k n o p)
unfolding transfer_between
transfer_between-IsQuiet e from to k n none p = (refl, refl, refl)
transfer_between-IsQuiet e from to k n (some s) none = (refl, refl, refl)
transfer_between-IsQuiet e from to k n (some s) (some t) = (refl, refl, refl)

pub transfer_resource-IsQuiet :
    (e : SimulationEngine) (from to k : String) (n : ℕ)
    → IsQuiet e (transfer_resource_between_settlements e from to k n)
unfolding transfer_resource_between_settlements
transfer_resource-IsQuiet e from to k n =
    if_both (IsQuiet e) (is_empty from) _ _ (refl, refl, refl)
      (if_both (IsQuiet e) (is_empty to) _ _ (refl, refl, refl)
        (if_both (IsQuiet e) (str_eq from to) _ _ (refl, refl, refl)
          (with_resource-IsQuiet e _ k n _ (transfer_between-IsQuiet e from to k n _ _))))
