-- ===== src/Sim/Engine/Saving/Checks.antt =====
-- What the checks of restore_state accept.
use city_life_core.Prelude.{
  inl, inr, Bool-cases, ℕ, ◌≡◌, refl, ◌∙◌, Bool, true, not, ◌&&◌, String, List, [], ◌∷◌, ◌==◌,
  is_empty, is_some, arith,
}
use city_life_core.Prelude.UnorderedMap.{UnorderedMap}
use city_life_core.Data.Validation.{
  ValidationReport, empty_report, ok, ok-empty, ok-add_error, ok-error_if, ok-add_error_if,
}
use city_life_core.Data.Registry.{DataRegistry, resource}
use city_life_core.Sim.Settlement.{SettlementState}
use city_life_core.Sim.Engine.Saving.{
  SimulationMarketDemand, SimulationEngineState, contains, check_entries, check_settlements,
  check_demands, check_state,
}

-- Every entry of a storage has a registered resource and a positive amount.
abbrev pub entries_known : DataRegistry → UnorderedMap ℕ → Bool
entries_known registry [] = true
entries_known registry ((id, n) ∷ entries) =
    not (is_empty id)
    && not (n == 0)
    && is_some (resource registry id)
    && entries_known registry entries

-- The settlements have ids, which differ from one another and from those in `seen`, and known
-- storages.
abbrev pub settlements_fit : DataRegistry → List String → List SettlementState → Bool
settlements_fit registry seen [] = true
settlements_fit registry seen (s ∷ ss) =
    not (is_empty s.id)
    && not (contains seen s.id)
    && entries_known registry s.storage.entries
    && settlements_fit registry (s.id ∷ seen) ss

-- The demands are for registered resources, each different from the others and from those in
-- `seen`.
abbrev pub demands_fit : DataRegistry → List String → List SimulationMarketDemand → Bool
demands_fit registry seen [] = true
demands_fit registry seen (d ∷ ds) =
    not (is_empty d.resource_id)
    && not (contains seen d.resource_id)
    && is_some (resource registry d.resource_id)
    && demands_fit registry (d.resource_id ∷ seen) ds

-- A saved state that an engine with this registry takes.
abbrev pub fits : DataRegistry → SimulationEngineState → Bool
fits registry state =
    settlements_fit registry [] state.settlements && demands_fit registry [] state.market_demands

ok-check_entries :
    (entries : UnorderedMap ℕ) (registry : DataRegistry) (path : String) (report : ValidationReport)
    → ok (check_entries registry path entries report)
      ≡ (entries_known registry entries && ok report)
unfolding check_entries
ok-check_entries [] registry path report = refl
ok-check_entries ((id, n) ∷ entries) registry path report =
    ok-check_entries entries registry path _ ∙ simp (ok-add_error_if, ok-error_if) (ground arith)

ok-check_settlements :
    (ss : List SettlementState) (registry : DataRegistry) (seen : List String)
    (report : ValidationReport)
    → ok (check_settlements registry seen ss report)
      ≡ (settlements_fit registry seen ss && ok report)
unfolding check_settlements
ok-check_settlements [] registry seen report = refl
ok-check_settlements (s ∷ ss) registry seen report = elim (Bool-cases (is_empty s.id)) [
  | inl e ↦ rw e (ok-check_settlements ss registry seen _ ∙ simp ok-add_error (ground arith))
  | inr e ↦ rw e (
      ok-check_settlements ss registry (s.id ∷ seen) _
      ∙ simp (ok-check_entries, ok-error_if) (ground arith))
]

ok-check_demands :
    (ds : List SimulationMarketDemand) (registry : DataRegistry) (seen : List String)
    (report : ValidationReport)
    → ok (check_demands registry seen ds report) ≡ (demands_fit registry seen ds && ok report)
unfolding check_demands
ok-check_demands [] registry seen report = refl
ok-check_demands (d ∷ ds) registry seen report = elim (Bool-cases (is_empty d.resource_id)) [
  | inl e ↦ rw e (ok-check_demands ds registry seen _ ∙ simp ok-add_error (ground arith))
  | inr e ↦
      rw e (ok-check_demands ds registry (d.resource_id ∷ seen) _ ∙ simp ok-error_if (ground arith))
]

pub ok-check_state :
    (registry : DataRegistry) (state : SimulationEngineState)
    → ok (check_state registry state) ≡ fits registry state
unfolding check_state
ok-check_state registry state =
    ok-check_demands state.market_demands registry [] _
    ∙ ground (arith, ok-check_settlements state.settlements registry [] empty_report, ok-empty)
