-- ===== src/Data/Registry.antt =====
-- include/clc/data/Definitions.hpp, include/clc/data/DataRegistry.hpp and
-- src/clc/data/DataRegistry.cpp: the definitions that a game registers.
pub mod Lookup
use city_life_core.Prelude.{
  ℕ, Bool, true, false, not, ◌&&◌, String, Option, none, some, List, [], ◌∷◌, ltb, ◌==◌,
  if◌then◌else◌, is_empty, is_some, ◌<>◌, length,
}
use city_life_core.Prelude.UnorderedMap.{UnorderedMap, find, assign}
use city_life_core.Data.Validation.{ValidationReport, empty_report, error_if, warning_if, ok}

pub record ResourceDefinition : Type 0 where
  pub id : String
  pub display_name : String
  pub category : String
  pub base_value : ℕ

pub record CurrencyDefinition : Type 0 where
  pub id : String
  pub display_name : String
  pub fractional_digits : ℕ

pub record BuildingDefinition : Type 0 where
  pub id : String
  pub display_name : String
  pub category : String
  pub worker_slots : ℕ
  pub required_profession_id : String
  pub input_resource_ids : List String
  pub output_resource_ids : List String

pub record ProfessionDefinition : Type 0 where
  pub id : String
  pub display_name : String
  pub category : String

pub record SettlementDefinition : Type 0 where
  pub id : String
  pub display_name : String
  pub starting_population : ℕ

-- class DataRegistry
pub record DataRegistry : Type 0 where
  pub resources : UnorderedMap ResourceDefinition
  pub currencies : UnorderedMap CurrencyDefinition
  pub buildings : UnorderedMap BuildingDefinition
  pub professions : UnorderedMap ProfessionDefinition
  pub settlements : UnorderedMap SettlementDefinition

abbrev pub empty_registry : DataRegistry
empty_registry = record {
  resources = [];
  currencies = [];
  buildings = [];
  professions = [];
  settlements = [];
}

validate_common : String → String → String → ValidationReport
validate_common type id display_name =
    error_if (is_empty display_name) type "display_name must not be empty"
      (error_if (is_empty id) type "id must not be empty" empty_report)

-- add_duplicate_error_if_needed
duplicate_error :
    {V : Type 0} → ValidationReport → UnorderedMap V → String → String → ValidationReport
duplicate_error report m path id =
    error_if (not (is_empty id) && is_some (find id m)) path ("duplicate id: " <> id) report

-- The checks of DataRegistry::add(ResourceDefinition).
resource_report : DataRegistry → ResourceDefinition → ValidationReport
unfolding validate_common duplicate_error
resource_report r d = warning_if (d.base_value == 0) ("resource." <> d.id) "base_value is zero" (
    warning_if (is_empty d.category) ("resource." <> d.id) "category is empty" (
      duplicate_error (validate_common "resource" d.id d.display_name) r.resources "resource" d.id))

-- DataRegistry::add(ResourceDefinition)
pub add_resource : DataRegistry → ResourceDefinition → DataRegistry × ValidationReport
add_resource r d =
    let report = resource_report r d in
    if ok report then (record r { resources = assign d.id d r.resources }, report) else (r, report)

-- DataRegistry::add(CurrencyDefinition)
pub add_currency : DataRegistry → CurrencyDefinition → DataRegistry × ValidationReport
unfolding validate_common duplicate_error
add_currency r d =
    let report =
      error_if (ltb 8 d.fractional_digits) ("currency." <> d.id) "fractional_digits must be <= 8" (
        duplicate_error (validate_common "currency" d.id d.display_name) r.currencies "currency"
          d.id) in
    if ok report
    then (record r { currencies = assign d.id d r.currencies }, report)
    else (r, report)

-- DataRegistry::add(BuildingDefinition)
pub add_building_definition : DataRegistry → BuildingDefinition → DataRegistry × ValidationReport
unfolding validate_common duplicate_error
add_building_definition r d =
    let report = warning_if (d.worker_slots == 0) ("building." <> d.id) "worker_slots is zero" (
      warning_if (is_empty d.category) ("building." <> d.id) "category is empty" (
        duplicate_error (validate_common "building" d.id d.display_name) r.buildings "building"
          d.id)) in
    if ok report then (record r { buildings = assign d.id d r.buildings }, report) else (r, report)

-- DataRegistry::add(ProfessionDefinition)
pub add_profession : DataRegistry → ProfessionDefinition → DataRegistry × ValidationReport
unfolding validate_common duplicate_error
add_profession r d =
    let report = warning_if (is_empty d.category) ("profession." <> d.id) "category is empty" (
      duplicate_error (validate_common "profession" d.id d.display_name) r.professions "profession"
        d.id) in
    if ok report
    then (record r { professions = assign d.id d r.professions }, report)
    else (r, report)

-- DataRegistry::add(SettlementDefinition)
pub add_settlement_definition :
    DataRegistry → SettlementDefinition → DataRegistry × ValidationReport
unfolding validate_common duplicate_error
add_settlement_definition r d =
    let report =
      warning_if (d.starting_population == 0) ("settlement." <> d.id) "starting_population is zero"
        (duplicate_error (validate_common "settlement" d.id d.display_name) r.settlements
          "settlement" d.id) in
    if ok report
    then (record r { settlements = assign d.id d r.settlements }, report)
    else (r, report)

unfoldable pub resource : DataRegistry → String → Option ResourceDefinition
resource r id = find id r.resources

pub currency : DataRegistry → String → Option CurrencyDefinition
currency r id = find id r.currencies

pub building : DataRegistry → String → Option BuildingDefinition
building r id = find id r.buildings

pub profession : DataRegistry → String → Option ProfessionDefinition
profession r id = find id r.professions

pub settlement : DataRegistry → String → Option SettlementDefinition
settlement r id = find id r.settlements

abbrev pub resource_count : DataRegistry → ℕ
resource_count r = length r.resources

abbrev pub currency_count : DataRegistry → ℕ
currency_count r = length r.currencies

abbrev pub building_count : DataRegistry → ℕ
building_count r = length r.buildings

abbrev pub profession_count : DataRegistry → ℕ
profession_count r = length r.professions

abbrev pub settlement_count : DataRegistry → ℕ
settlement_count r = length r.settlements

-- The inner loops of validate_references: one error for each resource that is not registered.
check_resources : DataRegistry → String → String → List String → ValidationReport → ValidationReport
check_resources r path note [] report = report
check_resources r path note (id ∷ ids) report =
    check_resources r path note ids
      (error_if (not (is_some (resource r id))) path (note <> id) report)

-- The body of the outer loop.
check_building : DataRegistry → String → BuildingDefinition → ValidationReport → ValidationReport
unfolding check_resources
check_building r building_id d report =
    let path = "building." <> building_id in
    check_resources r path "unknown output_resource_id: " d.output_resource_ids (
      check_resources r path "unknown input_resource_id: " d.input_resource_ids (
        error_if
          (not (is_empty d.required_profession_id)
            && not (is_some (profession r d.required_profession_id)))
          path ("unknown required_profession_id: " <> d.required_profession_id) report))

check_buildings :
    DataRegistry → UnorderedMap BuildingDefinition → ValidationReport → ValidationReport
unfolding check_building
check_buildings r [] report = report
check_buildings r ((id, d) ∷ ds) report = check_buildings r ds (check_building r id d report)

-- DataRegistry::validate_references
pub validate_references : DataRegistry → ValidationReport
unfolding check_buildings
validate_references r = check_buildings r r.buildings empty_report
