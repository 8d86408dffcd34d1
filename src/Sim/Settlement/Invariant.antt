-- ===== src/Sim/Settlement/Invariant.antt =====
-- A settlement stays well formed while it works, and what its report says of its food.
use city_life_core.Prelude.{
  ℕ, ◌+◌, ◌%◌, ◌≤◌, ◌<◌, ◌≡◌, inl, inr, Bool, true, ◌&&◌, ◌||◌, String, Option, none, some, List,
  [], ◌∷◌, ◌++◌, u64_max, min, ◌==◌, if◌then◌else◌, arith, Bool-cases, ltb, saturating_add,
  saturating_multiply, saturating_add-eq-min, ◌<>◌, if_both,
}
use city_life_core.Data.Validation.{ok}
use city_life_core.Data.Registry.{DataRegistry, BuildingDefinition, building}
use city_life_core.Sim.Storage.{ResourceStorage, add, try_remove}
use city_life_core.Sim.Storage.Invariant.{IsValid, operations-IsValid}
use city_life_core.Sim.Settlement.{
  SettlementState, SettlementTickRemainder, SettlementTickReport, BuildingInstance,
  consume_scaled_units, set_remainder, numerator_at, remainder_by_key, has_required_inputs,
  consume_inputs, store_outputs, operate, run_building, run_buildings, feed,
  advance_settlement_ticks, food_needed_for_population,
}

-- Every remainder is less than a day.
abbrev pub all_small : List SettlementTickRemainder → Bool
all_small [] = true
all_small (r ∷ rs) = ltb r.numerator 86400 && all_small rs

pub record IsWorking (s : SettlementState) : Type 0 where
  pub stored : IsValid s.storage
  pub small : all_small s.tick_remainders ≡ true

all_small-set_remainder :
    (rs : List SettlementTickRemainder) (k : String) (n : ℕ)
    → n < 86400
    → all_small rs ≡ true
    → all_small (set_remainder rs k n) ≡ true
unfolding set_remainder
all_small-set_remainder [] k n h v = ground arith
all_small-set_remainder (r ∷ rs) k n h v = ground (arith, all_small-set_remainder rs k n h)

pub numerator_at-small :
    (rs : List SettlementTickRemainder) (k : String)
    → all_small rs ≡ true
    → numerator_at rs k < 86400
unfolding remainder_by_key
numerator_at-small [] k v = omega arith
numerator_at-small (r ∷ rs) k v = ground (arith, numerator_at-small rs k)

consume_scaled_units-small :
    (rs : List SettlementTickRemainder) (k : String) (units ticks : ℕ)
    → all_small rs ≡ true
    → (all_small (consume_scaled_units rs k units ticks).0 ≡ true)
      × ((consume_scaled_units rs k units ticks).1 ≤ u64_max)
unfolding consume_scaled_units
consume_scaled_units-small rs k units ticks v =
    let n = saturating_add (numerator_at rs k) (saturating_multiply units ticks) in
    let start = numerator_at-small rs k v in
    let total =
      saturating_add-eq-min (numerator_at rs k) (saturating_multiply units ticks) (omega arith) in
    let kept = all_small-set_remainder rs k (n % 86400) (omega arith) v in
    elim (Bool-cases (units == 0 || ticks == 0)) [
      | inl e ↦ rw e (v, omega arith)
      | inr e ↦ rw e (kept, omega arith)
    ]

consume_inputs-IsValid :
    (ids : List String) (s : ResourceStorage) (n consumed : ℕ)
    → n ≤ u64_max
    → IsValid s
    → IsValid (consume_inputs s ids n consumed).0
unfolding consume_inputs
consume_inputs-IsValid [] s n consumed h v = v
consume_inputs-IsValid (id ∷ ids) s n consumed h v =
    let (_, removed, _) = operations-IsValid s id n h v in
    let taken = ltb 0 n && (try_remove s id n).1 in
    consume_inputs-IsValid ids (if taken then (try_remove s id n).0 else s) n
      (if taken then saturating_add consumed n else consumed) h
      (if_both IsValid taken _ _ removed v)

store_outputs-IsValid :
    (ids : List String) (s : ResourceStorage) (r : SettlementTickReport) (n : ℕ)
    → n ≤ u64_max
    → IsValid s
    → IsValid (store_outputs s r ids n).0
unfolding store_outputs
store_outputs-IsValid [] s r n h v = v
store_outputs-IsValid (id ∷ ids) s r n h v =
    let (added, _, _) = operations-IsValid s id n h v in
    let (s', report) = add s id n in
    if_both (λ (x : ResourceStorage × SettlementTickReport). IsValid x.0) (n == 0) _ _
      (store_outputs-IsValid ids s r n h v)
      (store_outputs-IsValid ids s'
        (if ok report
          then record r { produced_resources = saturating_add r.produced_resources n }
          else record r {
            warnings = r.warnings ++ ("failed to store produced resource: " <> id) ∷ [];
          })
        n h added)

operate-IsWorking :
    (s : SettlementState) (r : SettlementTickReport) (b : BuildingInstance) (d : BuildingDefinition)
    (required produced : ℕ)
    → required ≤ u64_max
    → produced ≤ u64_max
    → IsWorking s
    → IsWorking (operate s r b d required produced).0
unfolding operate
operate-IsWorking s r b d required produced h k v =
    let left = consume_inputs-IsValid d.input_resource_ids s.storage required 0 h v.stored in
    let full =
      store_outputs-IsValid d.output_resource_ids _
        (record r {
          consumed_inputs =
              saturating_add r.consumed_inputs
                (consume_inputs s.storage d.input_resource_ids required 0).1;
          active_buildings = r.active_buildings + 1;
        })
        produced k left in
    elim (Bool-cases (required == 0 && produced == 0)) [
      | inl e ↦ rw e v
      | inr e ↦ elim (Bool-cases (has_required_inputs s.storage d.input_resource_ids required)) [
        | inl f ↦ rw (e, f) (record { stored = full; small = v.small })
        | inr f ↦ rw (e, f) v
      ]
    ]

run_building-IsWorking :
    (s : SettlementState) (r : SettlementTickReport) (b : BuildingInstance) (ticks : ℕ)
    (d : Option BuildingDefinition)
    → IsWorking s
    → IsWorking (run_building s r b ticks d).0
unfolding run_building
run_building-IsWorking s r b ticks none v = v
run_building-IsWorking s r b ticks (some d) v =
    let workers = min b.assigned_workers d.worker_slots in
    let units = saturating_multiply workers 1 in
    let (rs, required) =
      consume_scaled_units s.tick_remainders ("input:" <> b.definition_id) units ticks in
    let (first, h) =
      consume_scaled_units-small s.tick_remainders ("input:" <> b.definition_id) units ticks
        v.small in
    let (second, k) =
      consume_scaled_units-small rs ("output:" <> b.definition_id) units ticks first in
    if_both (λ (x : SettlementState × SettlementTickReport). IsWorking x.0) (workers == 0) _ _ v
      (operate-IsWorking _ r b d required _ h k (record { stored = v.stored; small = second }))

run_buildings-IsWorking :
    (s : SettlementState) (r : SettlementTickReport) (registry : DataRegistry) (ticks : ℕ)
    (bs : List BuildingInstance)
    → IsWorking s
    → IsWorking (run_buildings s r registry ticks bs).0
unfolding run_buildings
run_buildings-IsWorking s r registry ticks [] v = v
run_buildings-IsWorking s r registry ticks (b ∷ bs) v =
    let found = building registry b.definition_id in
    run_buildings-IsWorking (run_building s r b ticks found).0 (run_building s r b ticks found).1
      registry ticks bs (run_building-IsWorking s r b ticks found v)

feed-IsWorking : (s : SettlementState) (ticks : ℕ) → IsWorking s → IsWorking (feed s ticks).0
unfolding feed
feed-IsWorking s ticks v =
    let (kept, h) =
      consume_scaled_units-small s.tick_remainders "food:grain"
        (food_needed_for_population s.population) ticks v.small in
    let (_, _, fed) = operations-IsValid s.storage "grain" _ h v.stored in
    record { stored = fed; small = kept }

-- A settlement whose storage is well formed and whose remainders are each below a day is so again
-- after any number of ticks, whatever its buildings, their definitions and their number.
pub advance_settlement_ticks-IsWorking :
    (s : SettlementState) (registry : DataRegistry) (ticks : ℕ)
    → IsWorking s
    → IsWorking (advance_settlement_ticks s registry ticks).0
unfolding advance_settlement_ticks
advance_settlement_ticks-IsWorking s registry ticks v =
    run_buildings-IsWorking (feed s ticks).0 (feed s ticks).1 registry ticks s.buildings
      (feed-IsWorking s ticks v)
