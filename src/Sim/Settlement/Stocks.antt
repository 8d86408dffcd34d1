-- ===== src/Sim/Settlement/Stocks.antt =====
-- What the elapsed ticks leave in the storage of a settlement.
use city_life_core.Prelude.{
  ℕ, ◌+◌, ◌≡◌, ◌∙◌, refl, Bool, false, ◌&&◌, ◌||◌, not, String, Option, none, some, List, [], ◌∷◌,
  min, ltb, ◌==◌, if◌then◌else◌, ◌<>◌, str_eq, arith, eq_iff, if_both, saturating_add,
  saturating_multiply,
}
use city_life_core.Data.Registry.{DataRegistry, BuildingDefinition, building}
use city_life_core.Sim.Storage.{ResourceStorage, add, try_remove, amount}
use city_life_core.Sim.Storage.Amounts.{
  amount-add, amount-try_remove, amount-remove_up_to, removed-eq-min,
}
use city_life_core.Sim.Settlement.{
  SettlementState, SettlementTickReport, BuildingInstance, consume_scaled_units,
  food_needed_for_population, has_required_inputs, consume_inputs, store_outputs, operate,
  run_building, run_buildings, feed,
}

abbrev pub names : List String → String → Bool
names [] j = false
names (id ∷ ids) j = str_eq id j || names ids j

abbrev pub definition_uses : String → Option BuildingDefinition → Bool
definition_uses j none = false
definition_uses j (some d) = names d.input_resource_ids j || names d.output_resource_ids j

-- Some building takes or makes the resource.
abbrev pub uses : DataRegistry → List BuildingInstance → String → Bool
uses registry [] j = false
uses registry (b ∷ bs) j =
    definition_uses j (building registry b.definition_id) || uses registry bs j

consume_inputs-untouched :
    (ids : List String) (s : ResourceStorage) (n consumed : ℕ) (j : String)
    → names ids j ≡ false
    → amount (consume_inputs s ids n consumed).0 j ≡ amount s j
unfolding consume_inputs
consume_inputs-untouched [] s n consumed j h = refl
consume_inputs-untouched (id ∷ ids) s n consumed j h =
    let (s', removed) = try_remove s id n in
    let other : str_eq id j ≡ false = ground arith in
    let others : names ids j ≡ false = ground arith in
    let taken = ltb 0 n && removed in
    consume_inputs-untouched ids (if taken then s' else s) n
      (if taken then saturating_add consumed n else consumed) j others
    ∙ if_both (λ x. amount x j ≡ amount s j) taken s' s (ground (arith, amount-try_remove s id j n))
        refl

store_outputs-untouched :
    (ids : List String) (s : ResourceStorage) (r : SettlementTickReport) (n : ℕ) (j : String)
    → names ids j ≡ false
    → amount (store_outputs s r ids n).0 j ≡ amount s j
unfolding store_outputs
store_outputs-untouched [] s r n j h = refl
store_outputs-untouched (id ∷ ids) s r n j h =
    let other : str_eq id j ≡ false = ground arith in
    let others : names ids j ≡ false = ground arith in
    if_both (λ (x : ResourceStorage × SettlementTickReport). amount x.0 j ≡ amount s j) (n == 0) _ _
      (store_outputs-untouched ids s r n j others)
      (store_outputs-untouched ids (add s id n).0 _ n j others
        ∙ ground (arith, amount-add s id j n))

operate-untouched :
    (s : SettlementState) (r : SettlementTickReport) (b : BuildingInstance) (d : BuildingDefinition)
    (required produced : ℕ) (j : String)
    → definition_uses j (some d) ≡ false
    → amount (operate s r b d required produced).0.storage j ≡ amount s.storage j
unfolding operate
operate-untouched s r b d required produced j h =
    let (storage, consumed) = consume_inputs s.storage d.input_resource_ids required 0 in
    let inputs : names d.input_resource_ids j ≡ false = ground arith in
    let outputs : names d.output_resource_ids j ≡ false = ground arith in
    if_both
      (λ (x : SettlementState × SettlementTickReport). amount x.0.storage j ≡ amount s.storage j)
      (required == 0 && produced == 0) _ _ refl
      (if_both
        (λ (x : SettlementState × SettlementTickReport). amount x.0.storage j ≡ amount s.storage j)
        (not (has_required_inputs s.storage d.input_resource_ids required)) _ _ refl
        (store_outputs-untouched d.output_resource_ids storage _ produced j outputs
          ∙ consume_inputs-untouched d.input_resource_ids s.storage required 0 j inputs))

run_building-untouched :
    (s : SettlementState) (r : SettlementTickReport) (b : BuildingInstance) (ticks : ℕ)
    (d : Option BuildingDefinition) (j : String)
    → definition_uses j d ≡ false
    → amount (run_building s r b ticks d).0.storage j ≡ amount s.storage j
unfolding run_building
run_building-untouched s r b ticks none j h = refl
run_building-untouched s r b ticks (some d) j h =
    let workers = min b.assigned_workers d.worker_slots in
    let units = saturating_multiply workers 1 in
    let (rs, required) =
      consume_scaled_units s.tick_remainders ("input:" <> b.definition_id) units ticks in
    let (rs', produced) = consume_scaled_units rs ("output:" <> b.definition_id) units ticks in
    if_both
      (λ (x : SettlementState × SettlementTickReport). amount x.0.storage j ≡ amount s.storage j)
      (workers == 0) _ _ refl
      (operate-untouched (record s { tick_remainders = rs' }) r b d required produced j h)

-- Buildings leave alone what none of them uses.
pub run_buildings-untouched :
    (bs : List BuildingInstance) (s : SettlementState) (r : SettlementTickReport)
    (registry : DataRegistry) (ticks : ℕ) (j : String)
    → uses registry bs j ≡ false
    → amount (run_buildings s r registry ticks bs).0.storage j ≡ amount s.storage j
unfolding run_buildings
run_buildings-untouched [] s r registry ticks j h = refl
run_buildings-untouched (b ∷ bs) s r registry ticks j h =
    let found = building registry b.definition_id in
    let (s', r') = run_building s r b ticks found in
    let first : definition_uses j found ≡ false = ground arith in
    let others : uses registry bs j ≡ false = ground arith in
    run_buildings-untouched bs s' r' registry ticks j others
    ∙ run_building-untouched s r b ticks found j first

-- The grain that is eaten is missing from the storage, and nothing else.
pub feed-stock :
    (s : SettlementState) (ticks : ℕ) (j : String)
    → amount (feed s ticks).0.storage j
        + (if str_eq "grain" j then (feed s ticks).1.consumed_food else 0)
      ≡ amount s.storage j
unfolding feed
feed-stock s ticks j =
    let (_, needed) =
      consume_scaled_units s.tick_remainders "food:grain" (food_needed_for_population s.population)
        ticks in
    let left = amount-remove_up_to s.storage "grain" j needed in
    let eaten = removed-eq-min s.storage "grain" needed in
    ground (arith, left, eaten, eq_iff "grain" j)
