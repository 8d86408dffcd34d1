-- ===== src/Sim/Engine/Presets.antt =====
-- The scenario presets and what is read off a scenario's result, in
-- src/clc/sim/SimulationEngine.cpp.
use city_life_core.Prelude.{
  ℕ, ◌-◌, Bool, not, String, Option, List, [], ◌∷◌, ◌++◌, length, find_if, ltb, ◌==◌, if◌then◌else◌,
  is_empty, is_some, str_eq, ◌<>◌, to_string,
}
use city_life_core.Data.Validation.{ValidationReport, empty_report, error_if, add_error, ok}
use city_life_core.Sim.Engine.{SimulationEngine}
use city_life_core.Sim.Engine.Days.{SimulationScenarioResult, snapshot, empty_summary, run_scenario}

-- struct SimulationScenarioPreset
pub record SimulationScenarioPreset : Type 0 where
  pub id : String
  pub display_name : String
  pub day_count : ℕ

-- struct SimulationScenarioPresetCatalog
pub record SimulationScenarioPresetCatalog : Type 0 where
  pub presets : List SimulationScenarioPreset

-- scenario_result_duration_days
pub scenario_result_duration_days : SimulationScenarioResult → ℕ
scenario_result_duration_days r =
    if ltb r.final_snapshot.day r.initial_snapshot.day
    then 0
    else r.final_snapshot.day - r.initial_snapshot.day

abbrev none_in : {A : Type 0} → List A → Bool
none_in xs = length xs == 0

-- scenario_has_events
abbrev pub scenario_has_events : SimulationScenarioResult → Bool
scenario_has_events r = not (none_in r.events_delta)

-- scenario_has_warnings
abbrev pub scenario_has_warnings : SimulationScenarioResult → Bool
scenario_has_warnings r = not (none_in r.warnings_delta)

-- scenario_succeeded
abbrev pub scenario_succeeded : SimulationScenarioResult → Bool
scenario_succeeded r = not (scenario_has_warnings r)

-- scenario_result_digest
pub scenario_result_digest : SimulationScenarioResult → String
unfolding scenario_result_duration_days
scenario_result_digest r =
    "scenario days="
    <> to_string (scenario_result_duration_days r)
    <> " start="
    <> to_string r.initial_snapshot.day
    <> " end="
    <> to_string r.final_snapshot.day
    <> " events="
    <> to_string (length r.events_delta)
    <> " warnings="
    <> to_string (length r.warnings_delta)
    <> (if scenario_succeeded r then " status=success" else " status=warning")

-- validate_scenario_preset
pub validate_scenario_preset : SimulationScenarioPreset → ValidationReport
validate_scenario_preset p =
    let path = "simulation.scenario_preset." <> p.id in
    error_if (p.day_count == 0) path "preset day_count must be greater than zero" (
      error_if (is_empty p.display_name) path "preset display_name must not be empty" (
        error_if (is_empty p.id) "simulation.scenario_preset" "preset id must not be empty"
          empty_report))

-- scenario_preset_result_digest
pub scenario_preset_result_digest : SimulationScenarioPreset → SimulationScenarioResult → String
unfolding scenario_result_digest
scenario_preset_result_digest p r =
    "preset id="
    <> p.id
    <> " name="
    <> p.display_name
    <> " days="
    <> to_string p.day_count
    <> " | "
    <> scenario_result_digest r

-- scenario_preset_by_id
pub scenario_preset_by_id :
    SimulationScenarioPresetCatalog → String → Option SimulationScenarioPreset
scenario_preset_by_id k id = find_if (λ p. str_eq p.id id) k.presets

-- add_scenario_preset
pub add_scenario_preset :
    SimulationScenarioPresetCatalog
    → SimulationScenarioPreset
    → SimulationScenarioPresetCatalog × ValidationReport
add_scenario_preset k p =
    let report = validate_scenario_preset p in
    if not (ok report)
    then (k, report)
    else if is_some (scenario_preset_by_id k p.id)
    then (k, add_error report ("simulation.scenario_preset." <> p.id) "duplicate preset id")
    else (record { presets = k.presets ++ p ∷ [] }, report)

-- SimulationEngine::run_scenario_preset
pub run_scenario_preset :
    SimulationEngine → SimulationScenarioPreset → SimulationEngine × SimulationScenarioResult
run_scenario_preset e p =
    if not (ok (validate_scenario_preset p))
    then (
      e,
      record {
        initial_snapshot = snapshot e;
        reports = [];
        summary = empty_summary;
        events_delta = [];
        warnings_delta = [];
        final_snapshot = snapshot e;
      },
    )
    else run_scenario e p.day_count
