-- ===== src/Sim/Ownership.antt =====
-- include/clc/sim/Ownership.hpp and src/clc/sim/Ownership.cpp: which faction owns a settlement or a
-- caravan.
use city_life_core.Prelude.{
  ◌≡◌, not, ◌&&◌, String, List, [], ◌∷◌, keep_if, if◌then◌else◌, is_empty, str_eq, ◌<>◌, arith,
  eq_iff, is_some,
}
use city_life_core.Sim.Settlement.{SettlementState}
use city_life_core.Sim.Routes.{settlement_exists}
use city_life_core.Sim.Caravans.{CaravanFleet, caravan_by_id}
use city_life_core.Sim.Factions.{FactionCatalog, faction_exists}
use city_life_core.Data.Validation.{
  ValidationReport, empty_report, error_if, ok, ok-error_if, ok-empty,
}

-- struct SettlementOwnership
pub record SettlementOwnership : Type 0 where
  pub settlement_id : String
  pub faction_id : String

-- struct CaravanOwnership
pub record CaravanOwnership : Type 0 where
  pub caravan_id : String
  pub faction_id : String

-- struct OwnershipCatalog
pub record OwnershipCatalog : Type 0 where
  pub settlements : List SettlementOwnership
  pub caravans : List CaravanOwnership

-- validate_settlement_ownership
pub validate_settlement_ownership : SettlementOwnership → ValidationReport
validate_settlement_ownership o =
    error_if (is_empty o.faction_id) ("simulation.ownership.settlement." <> o.settlement_id)
      "faction_id must not be empty"
      (error_if (is_empty o.settlement_id) "simulation.ownership.settlement"
        "settlement_id must not be empty" empty_report)

-- validate_caravan_ownership
pub validate_caravan_ownership : CaravanOwnership → ValidationReport
validate_caravan_ownership o =
    error_if (is_empty o.faction_id) ("simulation.ownership.caravan." <> o.caravan_id)
      "faction_id must not be empty"
      (error_if (is_empty o.caravan_id) "simulation.ownership.caravan"
        "caravan_id must not be empty" empty_report)

-- validate_settlement_ownership_references
pub validate_settlement_ownership_references :
    SettlementOwnership → List SettlementState → FactionCatalog → ValidationReport
validate_settlement_ownership_references o settlements factions =
    let report = validate_settlement_ownership o in
    if not (ok report)
    then report
    else error_if (not (faction_exists factions o.faction_id))
        ("simulation.ownership.faction." <> o.faction_id) "unknown faction"
        (error_if (not (settlement_exists settlements o.settlement_id))
          ("simulation.ownership.settlement." <> o.settlement_id) "unknown settlement" report)

-- validate_caravan_ownership_references
pub validate_caravan_ownership_references :
    CaravanOwnership → CaravanFleet → FactionCatalog → ValidationReport
validate_caravan_ownership_references o caravans factions =
    let report = validate_caravan_ownership o in
    if not (ok report)
    then report
    else error_if (not (faction_exists factions o.faction_id))
        ("simulation.ownership.faction." <> o.faction_id) "unknown faction"
        (error_if (not (is_some (caravan_by_id caravans o.caravan_id)))
          ("simulation.ownership.caravan." <> o.caravan_id) "unknown caravan" report)

-- The loop of set_settlement_owner, with the `push_back` after it.
own_settlement : SettlementOwnership → List SettlementOwnership → List SettlementOwnership
own_settlement o [] = o ∷ []
own_settlement o (x ∷ xs) =
    if str_eq x.settlement_id o.settlement_id
    then record x { faction_id = o.faction_id } ∷ xs
    else x ∷ own_settlement o xs

-- The loop of set_caravan_owner, with the `push_back` after it.
own_caravan : CaravanOwnership → List CaravanOwnership → List CaravanOwnership
own_caravan o [] = o ∷ []
own_caravan o (x ∷ xs) =
    if str_eq x.caravan_id o.caravan_id
    then record x { faction_id = o.faction_id } ∷ xs
    else x ∷ own_caravan o xs

-- set_settlement_owner
pub set_settlement_owner : OwnershipCatalog → String → String → OwnershipCatalog × ValidationReport
unfolding own_settlement
set_settlement_owner catalog settlement_id faction_id =
    let ownership : SettlementOwnership = record {
      settlement_id = settlement_id;
      faction_id = faction_id;
    } in
    let report = validate_settlement_ownership ownership in
    if not (ok report)
    then (catalog, report)
    else (record catalog { settlements = own_settlement ownership catalog.settlements }, report)

-- set_caravan_owner
pub set_caravan_owner : OwnershipCatalog → String → String → OwnershipCatalog × ValidationReport
unfolding own_caravan
set_caravan_owner catalog caravan_id faction_id =
    let ownership : CaravanOwnership = record {
      caravan_id = caravan_id;
      faction_id = faction_id;
    } in
    let report = validate_caravan_ownership ownership in
    if not (ok report)
    then (catalog, report)
    else (record catalog { caravans = own_caravan ownership catalog.caravans }, report)

find_settlement_owner : List SettlementOwnership → String → String
find_settlement_owner [] id = ""
find_settlement_owner (x ∷ xs) id =
    if str_eq x.settlement_id id then x.faction_id else find_settlement_owner xs id

find_caravan_owner : List CaravanOwnership → String → String
find_caravan_owner [] id = ""
find_caravan_owner (x ∷ xs) id =
    if str_eq x.caravan_id id then x.faction_id else find_caravan_owner xs id

-- settlement_owner: the empty text where there is none.
pub settlement_owner : OwnershipCatalog → String → String
unfolding find_settlement_owner
settlement_owner catalog id = find_settlement_owner catalog.settlements id

-- caravan_owner: the empty text where there is none.
pub caravan_owner : OwnershipCatalog → String → String
unfolding find_caravan_owner
caravan_owner catalog id = find_caravan_owner catalog.caravans id

-- settlements_owned_by
pub settlements_owned_by : OwnershipCatalog → String → List SettlementOwnership
settlements_owned_by catalog id = keep_if (λ o. str_eq o.faction_id id) catalog.settlements

-- caravans_owned_by
pub caravans_owned_by : OwnershipCatalog → String → List CaravanOwnership
caravans_owned_by catalog id = keep_if (λ o. str_eq o.faction_id id) catalog.caravans

find-own_caravan :
    (o : CaravanOwnership) (xs : List CaravanOwnership) (j : String)
    → find_caravan_owner (own_caravan o xs) j
      ≡ (if str_eq o.caravan_id j then o.faction_id else find_caravan_owner xs j)
unfolding find_caravan_owner own_caravan
find-own_caravan o [] j = ground arith
find-own_caravan o (x ∷ xs) j = ground (
  arith,
  eq_iff o.caravan_id j,
  eq_iff x.caravan_id j,
  eq_iff x.caravan_id o.caravan_id,
  find-own_caravan o xs j,
)

ok-validate_caravan_ownership :
    (o : CaravanOwnership)
    → ok (validate_caravan_ownership o)
      ≡ (not (is_empty o.faction_id) && not (is_empty o.caravan_id))
unfolding validate_caravan_ownership
ok-validate_caravan_ownership o = simp (ok-error_if, ok-empty) (ground arith)

-- An owner is set exactly when the caravan and the faction are named; then that caravan alone has
-- the new owner. Otherwise no owner changes.
set_caravan_owner-exact :
    (o : OwnershipCatalog) (id faction j : String)
    → let (o', report) = set_caravan_owner o id faction in
      (ok report ≡ (not (is_empty faction) && not (is_empty id)))
      × (caravan_owner o' j ≡ (if ok report && str_eq id j then faction else caravan_owner o j))
unfolding set_caravan_owner caravan_owner
set_caravan_owner-exact o id faction j = (
  ground (arith, ok-validate_caravan_ownership (record { caravan_id = id; faction_id = faction })),
  ground (arith, find-own_caravan (record { caravan_id = id; faction_id = faction }) o.caravans j),
)
