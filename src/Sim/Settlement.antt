-- ===== src/Sim/Settlement.antt =====
-- include/clc/sim/Settlement.hpp and src/clc/sim/Settlement.cpp: a settlement and its production.
-- The 32-bit counters of a report count buildings and do not wrap.
pub mod Remainders
pub mod Invariant
pub mod Ticks
pub mod Stocks
pub mod Identity
pub mod Reports
use city_life_core.Prelude.{
  ℕ, ◌+◌, ◌-◌, ◌*◌, ◌/◌, ◌%◌, Bool, true, false, not, ◌&&◌, ◌||◌, String, Option, none, some, List,
  [], ◌∷◌, ◌++◌, min, u64_max, ltb, ◌==◌, if◌then◌else◌, str_eq, str_lt, ◌<>◌, find_if,
  saturating_add, saturating_multiply,
}
use city_life_core.Prelude.Sort.{sort}
use city_life_core.Prelude.UnorderedMap.{UnorderedMap}
use city_life_core.Core.Time.{ticks_per_day}
use city_life_core.Data.Validation.{ValidationReport, empty_report, error_report, ok}
use city_life_core.Data.Registry.{DataRegistry, BuildingDefinition, SettlementDefinition, building}
use city_life_core.Sim.Storage.{
  ResourceStorage, empty_storage, add, try_remove, remove_up_to, amount,
}

-- struct BuildingInstance
pub record BuildingInstance : Type 0 where
  pub definition_id : String
  pub assigned_workers : ℕ

-- struct SettlementTickRemainder
pub record SettlementTickRemainder : Type 0 where
  pub key : String
  pub numerator : ℕ

-- struct SettlementState
pub record SettlementState : Type 0 where
  pub id : String
  pub display_name : String
  pub population : ℕ
  pub storage : ResourceStorage
  pub buildings : List BuildingInstance
  pub tick_remainders : List SettlementTickRemainder

-- struct SettlementTickReport
pub record SettlementTickReport : Type 0 where
  pub settlement_id : String
  pub elapsed_ticks : ℕ
  pub consumed_food : ℕ
  pub consumed_inputs : ℕ
  pub produced_resources : ℕ
  pub active_buildings : ℕ
  pub skipped_buildings : ℕ
  pub warnings : List String

-- food_needed_for_population
pub food_needed_for_population : ℕ → ℕ
food_needed_for_population population = if population == 0 then 0 else (population - 1) / 10 + 1

-- remainder_by_key, as the numerator that it leads to; none where it returns nullptr.
unfoldable pub remainder_by_key : List SettlementTickRemainder → String → Option ℕ
remainder_by_key [] key = none
remainder_by_key (r ∷ rs) key =
    if str_eq r.key key then some r.numerator else remainder_by_key rs key

-- The assignment through the pointer of remainder_by_key, or after `push_back` of a new remainder.
pub set_remainder : List SettlementTickRemainder → String → ℕ → List SettlementTickRemainder
set_remainder [] key n = record { key = key; numerator = n } ∷ []
set_remainder (r ∷ rs) key n =
    if str_eq r.key key then record r { numerator = n } ∷ rs else r ∷ set_remainder rs key n

abbrev or_zero : Option ℕ → ℕ
or_zero none = 0
or_zero (some n) = n

abbrev pub numerator_at : List SettlementTickRemainder → String → ℕ
numerator_at rs key = or_zero (remainder_by_key rs key)

-- consume_scaled_units: whole units, and the remainders afterwards.
pub consume_scaled_units :
    List SettlementTickRemainder → String → ℕ → ℕ → List SettlementTickRemainder × ℕ
consume_scaled_units rs key units_per_day ticks =
    if units_per_day == 0 || ticks == 0
    then (rs, 0)
    else let numerator =
        saturating_add (numerator_at rs key) (saturating_multiply units_per_day ticks) in
      (set_remainder rs key (numerator % ticks_per_day), numerator / ticks_per_day)

-- has_required_inputs
pub has_required_inputs : ResourceStorage → List String → ℕ → Bool
has_required_inputs storage [] required = true
has_required_inputs storage (id ∷ ids) required =
    if ltb 0 required && ltb (amount storage id) required
    then false
    else has_required_inputs storage ids required

-- consume_inputs
pub consume_inputs : ResourceStorage → List String → ℕ → ℕ → ResourceStorage × ℕ
consume_inputs storage [] required consumed = (storage, consumed)
consume_inputs storage (id ∷ ids) required consumed =
    let (storage', removed) = try_remove storage id required in
    let taken = ltb 0 required && removed in
    consume_inputs (if taken then storage' else storage) ids required
      (if taken then saturating_add consumed required else consumed)

-- create_settlement_from_definition
pub create_settlement_from_definition : SettlementDefinition → SettlementState
create_settlement_from_definition d = record {
  id = d.id;
  display_name = d.display_name;
  population = d.starting_population;
  storage = empty_storage;
  buildings = [];
  tick_remainders = [];
}

-- add_building
pub add_building :
    SettlementState → DataRegistry → BuildingInstance → SettlementState × ValidationReport
add_building s registry b = elim (building registry b.definition_id) [
  | none ↦
      (s, error_report ("settlement." <> s.id) ("unknown building definition: " <> b.definition_id))
  | some d ↦
      if ltb d.worker_slots b.assigned_workers
      then (
        s,
        error_report ("settlement." <> s.id <> ".building." <> b.definition_id)
            "assigned_workers exceeds worker_slots",
      )
      else (record s { buildings = s.buildings ++ b ∷ [] }, empty_report)
]

abbrev skip : SettlementTickReport → String → SettlementTickReport
skip r warning = record r {
  skipped_buildings = r.skipped_buildings + 1;
  warnings = r.warnings ++ warning ∷ [];
}

-- The loop over the outputs of a building.
store_outputs :
    ResourceStorage
    → SettlementTickReport
    → List String
    → ℕ
    → ResourceStorage × SettlementTickReport
store_outputs storage r [] produced = (storage, r)
store_outputs storage r (id ∷ ids) produced =
    if produced == 0
    then store_outputs storage r ids produced
    else let (storage', add_report) = add storage id produced in
      (store_outputs storage'
        (if ok add_report
          then record r { produced_resources = saturating_add r.produced_resources produced }
          else record r {
            warnings = r.warnings ++ ("failed to store produced resource: " <> id) ∷ [];
          })
        ids produced)

-- A building with the inputs and the outputs of the elapsed ticks.
operate :
    SettlementState
    → SettlementTickReport
    → BuildingInstance
    → BuildingDefinition
    → ℕ
    → ℕ
    → SettlementState × SettlementTickReport
unfolding store_outputs
operate s r b d input_required produced =
    if input_required == 0 && produced == 0
    then (s, r)
    else if not (has_required_inputs s.storage d.input_resource_ids input_required)
    then (s, skip r ("skipped building due to missing inputs: " <> b.definition_id))
    else let (storage, consumed) = consume_inputs s.storage d.input_resource_ids input_required 0 in
      let (storage', r') =
        store_outputs storage
          (record r {
            consumed_inputs = saturating_add r.consumed_inputs consumed;
            active_buildings = r.active_buildings + 1;
          })
          d.output_resource_ids produced in
      (record s { storage = storage' }, r')

-- The body of the loop over the buildings, with the building's definition looked up.
run_building :
    SettlementState
    → SettlementTickReport
    → BuildingInstance
    → ℕ
    → Option BuildingDefinition
    → SettlementState × SettlementTickReport
unfolding operate
run_building s r b ticks none = (s, skip r ("skipped unknown building: " <> b.definition_id))
run_building s r b ticks (some d) =
    let workers = min b.assigned_workers d.worker_slots in
    let (rs, input_required) =
      consume_scaled_units s.tick_remainders ("input:" <> b.definition_id)
        (saturating_multiply workers 1) ticks in
    let (rs', produced) =
      consume_scaled_units rs ("output:" <> b.definition_id) (saturating_multiply workers 1)
        ticks in
    if workers == 0
    then (s, skip r ("skipped building with no workers: " <> b.definition_id))
    else operate (record s { tick_remainders = rs' }) r b d input_required produced

pub run_buildings :
    SettlementState
    → SettlementTickReport
    → DataRegistry
    → ℕ
    → List BuildingInstance
    → SettlementState × SettlementTickReport
unfolding run_building
run_buildings s r registry ticks [] = (s, r)
run_buildings s r registry ticks (b ∷ bs) =
    let (s', r') = run_building s r b ticks (building registry b.definition_id) in
    run_buildings s' r' registry ticks bs

-- The part of advance_settlement_ticks that feeds the population.
pub feed : SettlementState → ℕ → SettlementState × SettlementTickReport
feed s ticks =
    let (rs, needed) =
      consume_scaled_units s.tick_remainders "food:grain" (food_needed_for_population s.population)
        ticks in
    let (storage, consumed) = remove_up_to s.storage "grain" needed in
    (
      record s { storage = storage; tick_remainders = rs },
      record {
        settlement_id = s.id;
        elapsed_ticks = ticks;
        consumed_food = consumed;
        consumed_inputs = 0;
        produced_resources = 0;
        active_buildings = 0;
        skipped_buildings = 0;
        warnings = if ltb consumed needed then "not enough food for population" ∷ [] else [];
      },
    )

-- advance_settlement_ticks
pub advance_settlement_ticks :
    SettlementState → DataRegistry → ℕ → SettlementState × SettlementTickReport
unfolding feed run_buildings
advance_settlement_ticks s registry ticks =
    let (s', r) = feed s ticks in run_buildings s' r registry ticks s.buildings

-- advance_settlement_day
pub advance_settlement_day : SettlementState → DataRegistry → SettlementState × SettlementTickReport
unfolding advance_settlement_ticks
advance_settlement_day s registry = advance_settlement_ticks s registry ticks_per_day
