-- ===== src/Sim/Engine/Identity.antt =====
-- The settlements of an engine have ids that differ from one another.
use city_life_core.Prelude.{
  ℕ, ◌≡◌, refl, ap, ◌∙◌, inl, inr, Bool, true, false, not, ◌&&◌, ◌||◌, String, Option, none, some,
  List, [], ◌∷◌, ◌++◌, ◌==◌, is_empty, is_some, str_eq, arith, eq_iff, if_both, Bool-cases,
}
use city_life_core.Data.Validation.{ValidationReport}
use city_life_core.Data.Registry.{DataRegistry, SettlementDefinition, resource}
use city_life_core.Sim.Storage.{transfer}
use city_life_core.Sim.Settlement.{
  SettlementState, BuildingInstance, add_building, create_settlement_from_definition,
}
use city_life_core.Sim.Settlement.Identity.{add_building-id}
use city_life_core.Sim.Engine.{
  SimulationEngine, find_settlement, write_settlement, add_settlement, create_from,
  create_settlement, at_settlement, add_building_to_settlement, with_resource, put_in, take_from,
  add_resource_to_settlement, remove_resource_from_settlement, transfer_between,
  transfer_resource_between_settlements,
}
use city_life_core.Sim.Engine.Goods.{find-id, find-write}
use city_life_core.Sim.Engine.Days.Log.{ids}
use city_life_core.Sim.Engine.Saving.{contains}
use city_life_core.Sim.Engine.Saving.Checks.{settlements_fit}

-- Ids that are given and that differ from one another.
abbrev pub distinct : List String → Bool
distinct [] = true
distinct (x ∷ xs) = not (is_empty x) && not (contains xs x) && distinct xs

pub contains-append :
    (xs : List String) (x j : String) → contains (xs ++ x ∷ []) j ≡ (contains xs j || str_eq x j)
contains-append [] x j = ground arith
contains-append (y ∷ xs) x j = ground (arith, contains-append xs x j)

distinct-append :
    (xs : List String) (x : String)
    → distinct xs ≡ true
    → is_empty x ≡ false
    → contains xs x ≡ false
    → distinct (xs ++ x ∷ []) ≡ true
distinct-append [] x d n h = ground arith
distinct-append (y ∷ xs) x d n h =
    ground (arith, distinct-append xs x, contains-append xs x y, eq_iff x y)

ids-append :
    (ss : List SettlementState) (s : SettlementState) → ids (ss ++ s ∷ []) ≡ ids ss ++ s.id ∷ []
ids-append [] s = refl
ids-append (x ∷ ss) s = ap (λ xs. x.id ∷ xs) (ids-append ss s)

contains-ids :
    (ss : List SettlementState) (id : String)
    → contains (ids ss) id ≡ is_some (find_settlement ss id)
unfolding find_settlement
contains-ids [] id = refl
contains-ids (s ∷ ss) id = ground (arith, contains-ids ss id)

pub add_settlement-distinct :
    (e : SimulationEngine) (s : SettlementState)
    → distinct (ids e.settlements) ≡ true
    → distinct (ids (add_settlement e s).0.settlements) ≡ true
unfolding add_settlement
add_settlement-distinct e s h = elim (Bool-cases (is_empty s.id)) [
  | inl p ↦ rw p h
  | inr p ↦ elim (Bool-cases (is_some (find_settlement e.settlements s.id))) [
    | inl f ↦ rw (p, f) h
    | inr f ↦
        rw (p, f, ids-append e.settlements s)
          (distinct-append (ids e.settlements) s.id h p (contains-ids e.settlements s.id ∙ f))
  ]
]

create_from-distinct :
    (e : SimulationEngine) (id : String) (o : Option SettlementDefinition)
    → distinct (ids e.settlements) ≡ true
    → distinct (ids (create_from e id o).0.settlements) ≡ true
unfolding create_from
create_from-distinct e id none h = h
create_from-distinct e id (some d) h =
    add_settlement-distinct e (create_settlement_from_definition d) h

pub create_settlement-distinct :
    (e : SimulationEngine) (id : String)
    → distinct (ids e.settlements) ≡ true
    → distinct (ids (create_settlement e id).0.settlements) ≡ true
unfolding create_settlement
create_settlement-distinct e id h =
    if_both (λ (x : SimulationEngine × ValidationReport). distinct (ids x.0.settlements) ≡ true)
      (is_empty id) _ _ h (create_from-distinct e id _ h)

-- A settlement written in its own place keeps the ids.
ids-write :
    (ss : List SettlementState) (id : String) (s s' : SettlementState)
    → find_settlement ss id ≡ some s
    → s'.id ≡ id
    → ids (write_settlement ss id s') ≡ ids ss
unfolding find_settlement write_settlement
ids-write [] id s s' h e = refl
ids-write (x ∷ ss) id s s' h e = elim (Bool-cases (str_eq x.id id)) [
  | inl p ↦ rw p (ap (λ y. y ∷ ids ss) (ground (arith, eq_iff x.id id)))
  | inr p ↦ rw p (ap (λ xs. x.id ∷ xs) (ids-write ss id s s' (ground arith) e))
]

at_settlement-ids :
    (e : SimulationEngine) (id : String)
    (change : SettlementState → SettlementState × ValidationReport) (o : Option SettlementState)
    → find_settlement e.settlements id ≡ o
    → ((s : SettlementState) → (change s).0.id ≡ s.id)
    → ids (at_settlement e id change o).0.settlements ≡ ids e.settlements
unfolding at_settlement
at_settlement-ids e id change none f same = refl
at_settlement-ids e id change (some s) f same =
    ids-write e.settlements id s (change s).0 f (same s ∙ find-id e.settlements id s f)

-- The ids are those of `e`.
abbrev pub SameIds : SimulationEngine → SimulationEngine × ValidationReport → Type 0
SameIds e x = ids x.0.settlements ≡ ids e.settlements

with_resource-ids :
    (e : SimulationEngine) (path k : String) (n : ℕ) (proceed : SimulationEngine × ValidationReport)
    → ids proceed.0.settlements ≡ ids e.settlements
    → ids (with_resource e path k n proceed).0.settlements ≡ ids e.settlements
unfolding with_resource
with_resource-ids e path k n proceed h = if_both (SameIds e) (is_empty k) _ _ refl (
    if_both (SameIds e) (n == 0) _ _ refl
      (if_both (SameIds e) (not (is_some (resource e.registry k))) _ _ refl h))

transfer_between-ids :
    (e : SimulationEngine) (from to k : String) (n : ℕ) (o p : Option SettlementState)
    → find_settlement e.settlements from ≡ o
    → find_settlement e.settlements to ≡ p
    → str_eq from to ≡ false
    → ids (transfer_between e from to k n o p).0.settlements ≡ ids e.settlements
unfolding transfer_between
transfer_between-ids e from to k n none p f g d = refl
transfer_between-ids e from to k n (some s) none f g d = refl
transfer_between-ids e from to k n (some s) (some t) f g d =
    let s' = record s { storage = (transfer false s.storage t.storage k n).0 } in
    let source = find-id e.settlements from s f in
    ids-write (write_settlement e.settlements from s') to t _
      (find-write e.settlements from to s s' f source ∙ rw d g) (find-id e.settlements to t g)
    ∙ ids-write e.settlements from s s' f source

pub add_building_to_settlement-ids :
    (e : SimulationEngine) (id : String) (b : BuildingInstance)
    → SameIds e (add_building_to_settlement e id b)
unfolding add_building_to_settlement
add_building_to_settlement-ids e id b = if_both (SameIds e) (is_empty id) _ _ refl (
    at_settlement-ids e id (λ s. add_building s e.registry b) _ refl
      (λ s. add_building-id s e.registry b))

pub add_resource_to_settlement-ids :
    (e : SimulationEngine) (id k : String) (n : ℕ) → SameIds e (add_resource_to_settlement e id k n)
unfolding add_resource_to_settlement put_in
add_resource_to_settlement-ids e id k n = if_both (SameIds e) (is_empty id) _ _ refl (
    with_resource-ids e "simulation.add_resource" k n _
      (at_settlement-ids e id (put_in k n) _ refl (λ s. refl)))

pub remove_resource_from_settlement-ids :
    (e : SimulationEngine) (id k : String) (n : ℕ)
    → SameIds e (remove_resource_from_settlement e id k n)
unfolding remove_resource_from_settlement take_from
remove_resource_from_settlement-ids e id k n = if_both (SameIds e) (is_empty id) _ _ refl (
    with_resource-ids e "simulation.remove_resource" k n _
      (at_settlement-ids e id (take_from id k n) _ refl (λ s. refl)))

pub transfer_resource-ids :
    (e : SimulationEngine) (from to k : String) (n : ℕ)
    → SameIds e (transfer_resource_between_settlements e from to k n)
unfolding transfer_resource_between_settlements
transfer_resource-ids e from to k n = if_both (SameIds e) (is_empty from) _ _ refl (
    if_both (SameIds e) (is_empty to) _ _ refl (elim (Bool-cases (str_eq from to)) [
      | inl d ↦ rw d refl
      | inr d ↦ rw d (
          with_resource-ids e "simulation.transfer_resource" k n _
            (transfer_between-ids e from to k n _ _ refl refl d))
    ]))

settlements_fit-unseen :
    (ss : List SettlementState) (registry : DataRegistry) (seen : List String) (j : String)
    → settlements_fit registry seen ss ≡ true
    → contains seen j ≡ true
    → contains (ids ss) j ≡ false
settlements_fit-unseen [] registry seen j h k = refl
settlements_fit-unseen (s ∷ ss) registry seen j h k =
    ground (arith, settlements_fit-unseen ss registry (s.id ∷ seen) j, eq_iff s.id j)

pub settlements_fit-distinct :
    (ss : List SettlementState) (registry : DataRegistry) (seen : List String)
    → settlements_fit registry seen ss ≡ true
    → distinct (ids ss) ≡ true
settlements_fit-distinct [] registry seen h = refl
settlements_fit-distinct (s ∷ ss) registry seen h = ground (
  arith,
  settlements_fit-distinct ss registry (s.id ∷ seen),
  settlements_fit-unseen ss registry (s.id ∷ seen) s.id,
  eq_iff s.id s.id,
)
