-- ===== src/Data/Registry/Lookup.antt =====
-- Registering and looking up, and what validated references mean.
use city_life_core.Prelude.{
  ◌≡◌, refl, ◌∙◌, ◌⊎◌, inl, inr, Bool, true, false, not, ◌&&◌, ◌||◌, String, some, List, [], ◌∷◌,
  arith, is_empty, is_some, str_eq, if◌then◌else◌, Bool-cases,
}
use city_life_core.Prelude.UnorderedMap.{UnorderedMap, find-assign}
use city_life_core.Data.Validation.{
  ValidationReport, empty_report, ok, verdicts, ok-empty, ok-error_if,
}
use city_life_core.Data.Registry.{
  DataRegistry, ResourceDefinition, BuildingDefinition, add_resource, resource, profession,
  resource_report, check_resources, check_building, check_buildings, validate_references,
}

ok-resource_report :
    (r : DataRegistry) (d : ResourceDefinition)
    → ok (resource_report r d)
      ≡ (not (is_empty d.id) && not (is_empty d.display_name) && not (is_some (resource r d.id)))
unfolding resource_report resource
ok-resource_report r d = simp verdicts (ground arith)

-- A resource is accepted exactly when it has an id and a display name and its id is new; then it is
-- found under its id, and every other lookup is as before. A refused one changes nothing.
add_resource-exact :
    (r : DataRegistry) (d : ResourceDefinition)
    → let (r', report) = add_resource r d in
      (ok report
        ≡ (not (is_empty d.id) && not (is_empty d.display_name) && not (is_some (resource r d.id))))
      × (((ok report ≡ true)
            × ((j : String) → resource r' j ≡ (if str_eq d.id j then some d else resource r j)))
          ⊎ ((ok report ≡ false) × (r' ≡ r)))
unfolding add_resource resource
add_resource-exact r d = (
  ground (arith, ok-resource_report r d),
  elim (Bool-cases (ok (add_resource r d).1)) [
    | inl e ↦ inl (e, λ j. ground (arith, find-assign d.id j d r.resources))
    | inr e ↦ inr (e, ground arith)
  ],
)

-- The references of a building that the registry resolves.
abbrev pub all_known : DataRegistry → List String → Bool
all_known r [] = true
all_known r (id ∷ ids) = is_some (resource r id) && all_known r ids

abbrev pub is_resolved : DataRegistry → BuildingDefinition → Bool
is_resolved r d =
    (is_empty d.required_profession_id || is_some (profession r d.required_profession_id))
    && all_known r d.input_resource_ids
    && all_known r d.output_resource_ids

abbrev pub all_resolved : DataRegistry → UnorderedMap BuildingDefinition → Bool
all_resolved r [] = true
all_resolved r ((_, d) ∷ ds) = is_resolved r d && all_resolved r ds

ok-check_resources :
    (r : DataRegistry) (path note : String) (ids : List String) (report : ValidationReport)
    → ok (check_resources r path note ids report) ≡ (all_known r ids && ok report)
unfolding check_resources
ok-check_resources r path note [] report = refl
ok-check_resources r path note (id ∷ ids) report =
    ok-check_resources r path note ids _ ∙ rw ok-error_if (ground arith)

ok-check_building :
    (r : DataRegistry) (id : String) (d : BuildingDefinition) (report : ValidationReport)
    → ok (check_building r id d report) ≡ (is_resolved r d && ok report)
unfolding check_building
ok-check_building r id d report = simp (ok-check_resources, ok-error_if) (ground arith)

ok-check_buildings :
    (r : DataRegistry) (ds : UnorderedMap BuildingDefinition) (report : ValidationReport)
    → ok (check_buildings r ds report) ≡ (all_resolved r ds && ok report)
unfolding check_buildings
ok-check_buildings r [] report = refl
ok-check_buildings r ((id, d) ∷ ds) report =
    ok-check_buildings r ds _ ∙ ground (arith, ok-check_building r id d report)

-- The references of a registry validate exactly when each building's profession, inputs and outputs
-- are registered.
pub ok-validate_references :
    (r : DataRegistry) → ok (validate_references r) ≡ all_resolved r r.buildings
unfolding validate_references
ok-validate_references r = ok-check_buildings r r.buildings empty_report ∙ ground (arith, ok-empty)
