-- ===== src/Sim/Settlement/Identity.antt =====
-- What the days of a settlement leave alone: who it is, its people and its buildings.
use city_life_core.Prelude.{
  ℕ, ◌≡◌, refl, ◌∙◌, false, Option, none, some, List, [], ◌∷◌, min, ◌==◌, ◌&&◌, ◌<>◌, if_both, inl,
  inr, Bool-cases, saturating_multiply, arith,
}
use city_life_core.Data.Validation.{ok, ok-empty}
use city_life_core.Data.Registry.{DataRegistry, BuildingDefinition, building}
use city_life_core.Sim.Settlement.{
  SettlementState, SettlementTickReport, BuildingInstance, consume_scaled_units,
  has_required_inputs, operate, run_building, run_buildings, feed, advance_settlement_ticks,
  add_building, advance_settlement_day,
}

-- The same settlement, its storage and its remainders aside.
abbrev pub SameTown : SettlementState → SettlementState → Type 0
SameTown s' s =
    (s'.id ≡ s.id)
    × (s'.display_name ≡ s.display_name)
    × (s'.population ≡ s.population)
    × (s'.buildings ≡ s.buildings)

operate-SameTown :
    (s : SettlementState) (r : SettlementTickReport) (b : BuildingInstance) (d : BuildingDefinition)
    (required produced : ℕ)
    → SameTown (operate s r b d required produced).0 s
unfolding operate
operate-SameTown s r b d required produced = elim (Bool-cases (required == 0 && produced == 0)) [
  | inl e ↦ rw e (refl, refl, refl, refl)
  | inr e ↦ elim (Bool-cases (has_required_inputs s.storage d.input_resource_ids required)) [
    | inl f ↦ rw (e, f) (refl, refl, refl, refl)
    | inr f ↦ rw (e, f) (refl, refl, refl, refl)
  ]
]

run_building-SameTown :
    (s : SettlementState) (r : SettlementTickReport) (b : BuildingInstance) (ticks : ℕ)
    (d : Option BuildingDefinition)
    → SameTown (run_building s r b ticks d).0 s
unfolding run_building
run_building-SameTown s r b ticks none = (refl, refl, refl, refl)
run_building-SameTown s r b ticks (some d) =
    let workers = min b.assigned_workers d.worker_slots in
    let units = saturating_multiply workers 1 in
    let (rs, required) =
      consume_scaled_units s.tick_remainders ("input:" <> b.definition_id) units ticks in
    let (rs', produced) = consume_scaled_units rs ("output:" <> b.definition_id) units ticks in
    if_both (λ (x : SettlementState × SettlementTickReport). SameTown x.0 s) (workers == 0) _ _
      (refl, refl, refl, refl)
      (operate-SameTown (record s { tick_remainders = rs' }) r b d required produced)

run_buildings-SameTown :
    (s : SettlementState) (r : SettlementTickReport) (registry : DataRegistry) (ticks : ℕ)
    (bs : List BuildingInstance)
    → SameTown (run_buildings s r registry ticks bs).0 s
unfolding run_buildings
run_buildings-SameTown s r registry ticks [] = (refl, refl, refl, refl)
run_buildings-SameTown s r registry ticks (b ∷ bs) =
    let found = building registry b.definition_id in
    let (s', r') = run_building s r b ticks found in
    let (p, q, n, m) = run_building-SameTown s r b ticks found in
    let (p', q', n', m') = run_buildings-SameTown s' r' registry ticks bs in
    (p' ∙ p, q' ∙ q, n' ∙ n, m' ∙ m)

pub advance_settlement_day-SameTown :
    (s : SettlementState) (registry : DataRegistry)
    → SameTown (advance_settlement_day s registry).0 s
unfolding advance_settlement_day advance_settlement_ticks feed
advance_settlement_day-SameTown s registry =
    run_buildings-SameTown (feed s 86400).0 (feed s 86400).1 registry 86400 s.buildings

-- Another building leaves the settlement's id alone, also where it is refused.
pub add_building-id :
    (s : SettlementState) (registry : DataRegistry) (b : BuildingInstance)
    → (add_building s registry b).0.id ≡ s.id
unfolding add_building
add_building-id s registry b = ground arith

pub add_building-refused :
    (s : SettlementState) (registry : DataRegistry) (b : BuildingInstance)
    → ok (add_building s registry b).1 ≡ false
    → (add_building s registry b).0 ≡ s
unfolding add_building
add_building-refused s registry b h = ground (arith, ok-empty)
