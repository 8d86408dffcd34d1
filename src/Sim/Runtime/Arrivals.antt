-- ===== src/Sim/Runtime/Arrivals.antt =====
-- src/clc/sim/SimulationRuntimeTick.cpp: the run until a caravan arrives.
pub mod Progress
use city_life_core.Prelude.{
  ℕ, zero, suc, ◌+◌, ◌-◌, Bool, true, false, not, ◌&&◌, ◌||◌, String, Option, none, some, List, [],
  ◌∷◌, ◌++◌, length, min, ltb, ◌==◌, if◌then◌else◌, wrap64,
}
use city_life_core.Data.Validation.{ValidationReport, empty_report, merge_validation}
use city_life_core.Sim.Runtime.{SimulationRuntime}
use city_life_core.Sim.Runtime.Ticks.{
  SimulationRuntimeTickReport, SimulationRuntimeTickRunResult,
  SimulationRuntimeTickRunUntilArrivalResult, advance_runtime_ticks, tick_run, zero_step,
}

-- What the loop below leaves: its reports, the merged validation, the id of the caravan that
-- arrived first, the tick of its arrival, and the ticks that went by.
pub record Arrival : Type 0 where
  pub reports : List SimulationRuntimeTickReport
  pub validation : ValidationReport
  pub reached : Bool
  pub caravan_id : String
  pub tick : ℕ
  pub elapsed : ℕ

abbrev under_way : ValidationReport → ℕ → Arrival
under_way validation elapsed = record {
  reports = [];
  validation = validation;
  reached = false;
  caravan_id = "";
  tick = 0;
  elapsed = elapsed;
}

-- `result.run.reports.push_back(report)`, seen from the rest of the run.
after_step :
    SimulationRuntimeTickReport
    → Option (SimulationRuntime × Arrival)
    → Option (SimulationRuntime × Arrival)
after_step report none = none
after_step report (some (after, a)) = some (after, record a { reports = report ∷ a.reports })

-- The body of the loop once a step was taken: it stops where a caravan arrived in it, and goes on
-- to `rest` otherwise.
stop_or_go :
    SimulationRuntime
    → SimulationRuntimeTickReport
    → ValidationReport
    → ℕ
    → List String
    → Option (SimulationRuntime × Arrival)
    → Option (SimulationRuntime × Arrival)
unfolding after_step
stop_or_go runtime report validation elapsed [] rest = after_step report rest
stop_or_go runtime report validation elapsed (id ∷ _) rest = some (
  runtime,
  record {
    reports = report ∷ [];
    validation = validation;
    reached = true;
    caravan_id = id;
    tick = report.tick_after;
    elapsed = elapsed;
  },
)

-- The `while` loop of run_runtime_until_first_caravan_arrival_by_ticks; `passed` is
-- `result.arrival_elapsed_ticks`.
run_until :
    ℕ → SimulationRuntime → ℕ → ℕ → ℕ → ℕ → ValidationReport → Option (SimulationRuntime × Arrival)
unfolding stop_or_go
run_until zero runtime elapsed max_ticks step_ticks passed validation =
    if ltb elapsed max_ticks then none else some (runtime, under_way validation passed)
run_until (suc fuel) runtime elapsed max_ticks step_ticks passed validation =
    let step = min step_ticks (max_ticks - elapsed) in
    let (runtime', report) = advance_runtime_ticks runtime step in
    let validation' = merge_validation validation report.validation in
    let passed' = wrap64 (passed + report.elapsed_ticks) in
    let rest = run_until fuel runtime' (elapsed + step) max_ticks step_ticks passed' validation' in
    if ltb elapsed max_ticks
    then stop_or_go runtime' report validation' passed' report.arrived_caravan_ids rest
    else some (runtime, under_way validation passed)

finish_until :
    Option (SimulationRuntime × Arrival)
    → Option (SimulationRuntime × SimulationRuntimeTickRunUntilArrivalResult)
finish_until none = none
finish_until (some (after, a)) = some (
  after,
  record {
    run = tick_run a.reports a.validation;
    arrival_reached = a.reached;
    arrived_caravan_id = a.caravan_id;
    arrival_tick = a.tick;
    arrival_elapsed_ticks = a.elapsed;
  },
)

-- run_runtime_until_first_caravan_arrival_by_ticks
pub run_runtime_until_first_caravan_arrival_by_ticks :
    ℕ
    → SimulationRuntime
    → ℕ
    → ℕ
    → Option (SimulationRuntime × SimulationRuntimeTickRunUntilArrivalResult)
unfolding finish_until run_until
run_runtime_until_first_caravan_arrival_by_ticks fuel runtime max_ticks step_ticks =
    if step_ticks == 0
    then some (
      runtime,
      record {
        run = zero_step;
        arrival_reached = false;
        arrived_caravan_id = "";
        arrival_tick = 0;
        arrival_elapsed_ticks = 0;
      },
    )
    else finish_until (run_until fuel runtime 0 max_ticks step_ticks 0 empty_report)
