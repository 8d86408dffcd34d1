-- ===== src/Sim/Engine/Saving/Restoring.antt =====
-- An engine restores exactly the states that fit its registry, whole or not at all.
use city_life_core.Prelude.{
  ℕ, ◌≡◌, refl, sym, ap, ◌∙◌, ◌⊎◌, inl, inr, Bool, true, false, not, ◌&&◌, ◌||◌, String, List, [],
  ◌∷◌, ◌++◌, map, append_assoc, append-nil, ◌==◌, is_some, str_eq, arith, Bool-cases,
}
use city_life_core.Prelude.UnorderedMap.{UnorderedMap, find}
use city_life_core.Data.Validation.{ValidationReport, ok, merge_validation-empty}
use city_life_core.Data.Registry.{DataRegistry}
use city_life_core.Economy.Market.{MarketState, set_demand}
use city_life_core.Economy.Market.Demands.{set_demand-fresh, set_demand-quiet}
use city_life_core.Sim.Engine.{SimulationEngine}
use city_life_core.Sim.Engine.Saving.{
  SimulationMarketDemand, SimulationEngineState, contains, check_state, stage_demands, export_state,
  restore_state,
}
use city_life_core.Sim.Engine.Saving.Checks.{demands_fit, fits, ok-check_state}

stage-quiet :
    (ds : List SimulationMarketDemand) (registry : DataRegistry) (seen : List String)
    (m : MarketState) (report : ValidationReport)
    → demands_fit registry seen ds ≡ true
    → (stage_demands m ds report).1 ≡ report
unfolding stage_demands
stage-quiet [] registry seen m report h = refl
stage-quiet (d ∷ ds) registry seen m report h =
    stage-quiet ds registry (d.resource_id ∷ seen) (set_demand m d.resource_id d.demand).0 _
      (ground arith)
    ∙ rw (set_demand-quiet m d.resource_id d.demand (ground arith)) (merge_validation-empty report)

-- Every demand is positive.
abbrev pub all_positive : UnorderedMap ℕ → Bool
all_positive [] = true
all_positive ((_, n) ∷ ds) = not (n == 0) && all_positive ds

-- A demand as the saved state lists it.
abbrev listed : UnorderedMap ℕ → List SimulationMarketDemand
listed ds = map (λ (x : String × ℕ). record { resource_id = x.0; demand = x.1 }) ds

find-append :
    (j id : String) (n : ℕ) (m : UnorderedMap ℕ)
    → is_some (find j (m ++ (id, n) ∷ [])) ≡ (is_some (find j m) || str_eq id j)
unfolding find
find-append j id n [] = ground arith
find-append j id n ((i, v) ∷ m) = ground (arith, find-append j id n m)

nothing-found : (j : String) → is_some (find {V = ℕ} j []) ≡ false
unfolding find
nothing-found j = refl

stage-same :
    (ds : UnorderedMap ℕ) (registry : DataRegistry) (seen : List String) (m : MarketState)
    (report : ValidationReport)
    → demands_fit registry seen (listed ds) ≡ true
    → all_positive ds ≡ true
    → ((k : String) → is_some (find k m.demands) ≡ contains seen k)
    → (stage_demands m (listed ds) report).0.demands ≡ m.demands ++ ds
unfolding stage_demands
stage-same [] registry seen m report h p k = sym (append-nil m.demands)
stage-same ((id, n) ∷ ds) registry seen m report h p k =
    let m' = (set_demand m id n).0 in
    let fresh : m'.demands ≡ m.demands ++ (id, n) ∷ [] =
      set_demand-fresh m id n (ground arith) (ground arith) (k id ∙ ground arith) in
    stage-same ds registry (id ∷ seen) m' _ (ground arith) (ground arith)
      (λ j. ground (arith, ap (λ x. is_some (find j x)) fresh, find-append j id n m.demands, k j))
    ∙ ap (λ x. x ++ ds) fresh
    ∙ append_assoc m.demands _ ds

-- An engine restores a saved state exactly when the ids of its settlements are given and differ,
-- the storages hold positive amounts of registered resources, and the demands are for different
-- registered resources. Then its day, settlements and events are those saved; otherwise the engine
-- is as it was.
pub restore_state-exact :
    (e : SimulationEngine) (state : SimulationEngineState)
    → let (e', report) = restore_state e state in
      (ok report ≡ fits e.registry state)
      × (((ok report ≡ true)
            × (e'.current_day ≡ state.current_day)
            × (e'.settlements ≡ state.settlements)
            × (e'.events ≡ state.events))
          ⊎ ((ok report ≡ false) × (e' ≡ e)))
unfolding restore_state
restore_state-exact e state =
    let report = check_state e.registry state in
    let verdict = ok-check_state e.registry state in
    elim (Bool-cases (fits e.registry state)) [
      | inr f ↦ rw (verdict ∙ f) (verdict, inr (verdict ∙ f, refl))
      | inl f ↦
          let quiet =
            stage-quiet state.market_demands e.registry [] (record { demands = [] }) report
              (ground arith) in
          rw (verdict ∙ f, quiet, verdict ∙ f) (verdict, inl (verdict ∙ f, refl, refl, refl))
    ]

-- What an engine saves, an engine with the same registry restores exactly: where the settlements
-- have different ids, all that is stored and demanded is registered, and all amounts are positive,
-- the restored engine is the saved one, whatever the restoring engine held before.
pub restore_state-export_state :
    (d e : SimulationEngine)
    → d.registry ≡ e.registry
    → fits e.registry (export_state e) ≡ true
    → all_positive e.market.demands ≡ true
    → let (d', report) = restore_state d (export_state e) in (d' ≡ e) × (ok report ≡ true)
unfolding restore_state export_state
restore_state-export_state d e same h p =
    let state = export_state e in
    let empty : MarketState = record { demands = [] } in
    let verdict : ok (check_state d.registry state) ≡ true =
      ok-check_state d.registry state ∙ rw same h in
    let quiet =
      stage-quiet state.market_demands e.registry [] empty (check_state d.registry state)
        (ground arith) in
    let staged : (stage_demands empty state.market_demands (check_state d.registry state)).0.demands
        ≡ e.market.demands =
      stage-same e.market.demands e.registry [] empty (check_state d.registry state) (ground arith)
        p (λ j. nothing-found j) in
    let market = (stage_demands empty state.market_demands (check_state d.registry state)).0 in
    rw (verdict, quiet, verdict)
      (
        ap (λ r. record e { registry = r; market = market }) same
            ∙ ap (λ ds. record e { market = record { demands = ds } }) staged,
        verdict,
      )
