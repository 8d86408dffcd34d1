-- ===== src/Sim/Settlement/Reports.antt =====
-- make_settlement_report of src/clc/sim/Settlement.cpp.
use city_life_core.Prelude.{
  ℕ, ◌+◌, ◌≤◌, ◌≡◌, ◌∙◌, refl, Bool, String, Option, none, some, List, [], ◌∷◌, map, length, sum_by,
  min, u64_max, str_eq, str_lt, str_lt_asymm, if◌then◌else◌, arith, saturating_add,
  saturating_add-eq-min,
}
use city_life_core.Prelude.Sort.{sort, IsSorted, sort-IsSorted, sum_by-sort, length-sort}
use city_life_core.Prelude.UnorderedMap.{UnorderedMap}
use city_life_core.Data.Registry.{DataRegistry, BuildingDefinition, building}
use city_life_core.Sim.Settlement.{SettlementState, BuildingInstance}

-- struct ResourceAmount
pub record ResourceAmount : Type 0 where
  pub resource_id : String
  pub amount : ℕ

-- struct BuildingReport
pub record BuildingReport : Type 0 where
  pub definition_id : String
  pub display_name : String
  pub assigned_workers : ℕ
  pub worker_slots : ℕ

-- struct SettlementReport
pub record SettlementReport : Type 0 where
  pub id : String
  pub display_name : String
  pub population : ℕ
  pub storage : List ResourceAmount
  pub buildings : List BuildingReport
  pub total_stored_resources : ℕ

-- The loop over the storage: what it pushes, and the total.
list_amounts : UnorderedMap ℕ → ℕ → List ResourceAmount × ℕ
list_amounts [] total = ([], total)
list_amounts ((id, n) ∷ entries) total =
    let (rest, total') = list_amounts entries (saturating_add total n) in
    (record { resource_id = id; amount = n } ∷ rest, total')

-- The report of one building.
report_building : BuildingInstance → Option BuildingDefinition → BuildingReport
report_building b none = record {
  definition_id = b.definition_id;
  display_name = "";
  assigned_workers = b.assigned_workers;
  worker_slots = 0;
}
report_building b (some d) = record {
  definition_id = b.definition_id;
  display_name = d.display_name;
  assigned_workers = b.assigned_workers;
  worker_slots = d.worker_slots;
}

abbrev pub amount_before : ResourceAmount → ResourceAmount → Bool
amount_before lhs rhs = str_lt lhs.resource_id rhs.resource_id

abbrev report_before : BuildingReport → BuildingReport → Bool
report_before lhs rhs = str_lt lhs.definition_id rhs.definition_id

-- make_settlement_report
pub make_settlement_report : SettlementState → DataRegistry → SettlementReport
unfolding list_amounts report_building
make_settlement_report s registry =
    let (amounts, total) = list_amounts s.storage.entries 0 in
    record {
      id = s.id;
      display_name = s.display_name;
      population = s.population;
      storage = sort amount_before amounts;
      buildings =
          sort report_before
            (map (λ b. report_building b (building registry b.definition_id)) s.buildings);
      total_stored_resources = total;
    }

-- What the entries of a storage hold of an id, and in all.
abbrev pub held : String → UnorderedMap ℕ → ℕ
held id [] = 0
held id ((k, n) ∷ entries) = (if str_eq k id then n else 0) + held id entries

abbrev pub held_in_all : UnorderedMap ℕ → ℕ
held_in_all [] = 0
held_in_all ((k, n) ∷ entries) = n + held_in_all entries

list_amounts-exact :
    (id : String) (entries : UnorderedMap ℕ) (total : ℕ)
    → total ≤ u64_max
    → let (amounts, total') = list_amounts entries total in
      (sum_by (λ a. if str_eq a.resource_id id then a.amount else 0) amounts ≡ held id entries)
      × (length amounts ≡ length entries)
      × (total' ≡ min (total + held_in_all entries) u64_max)
unfolding list_amounts
list_amounts-exact id [] total h = (refl, refl, omega arith)
list_amounts-exact id ((k, n) ∷ entries) total h =
    let sum = saturating_add-eq-min total n h in
    let (same, many, all) = list_amounts-exact id entries (saturating_add total n) (omega arith) in
    (omega (arith, same), omega arith, omega arith)

-- The report of a settlement lists each entry of its storage once, in the order of the ids, with
-- the amounts that the storage holds, and adds them up exactly, up to the largest 64-bit number.
make_settlement_report-exact :
    (s : SettlementState) (registry : DataRegistry) (id : String)
    → let r = make_settlement_report s registry in
      IsSorted amount_before r.storage
      × (length r.storage ≡ length s.storage.entries)
      × (sum_by (λ a. if str_eq a.resource_id id then a.amount else 0) r.storage
          ≡ held id s.storage.entries)
      × (r.total_stored_resources ≡ min (held_in_all s.storage.entries) u64_max)
unfolding make_settlement_report
make_settlement_report-exact s registry id =
    let (amounts, total) = list_amounts s.storage.entries 0 in
    let (same, many, all) = list_amounts-exact id s.storage.entries 0 (omega arith) in
    (
      sort-IsSorted amount_before (λ a b. str_lt_asymm a.resource_id b.resource_id) amounts,
      length-sort amount_before amounts ∙ many,
      sum_by-sort amount_before (λ a. if str_eq a.resource_id id then a.amount else 0) amounts
          ∙ same,
      omega (arith, all),
    )
