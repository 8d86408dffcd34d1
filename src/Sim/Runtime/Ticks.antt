-- ===== src/Sim/Runtime/Ticks.antt =====
-- include/clc/sim/SimulationRuntimeTick.hpp and src/clc/sim/SimulationRuntimeTick.cpp: the time of
-- a runtime. A `while` loop runs on fuel and has no result where the fuel is out; a count of
-- `uint64_t` wraps around.
pub mod Steps
use city_life_core.Prelude.{
  ℕ, zero, suc, ◌+◌, ◌-◌, Bool, true, false, not, ◌&&◌, String, Option, none, some, List, [], ◌∷◌,
  ◌++◌, length, min, ltb, ◌==◌, if◌then◌else◌, wrap64, map,
}
use city_life_core.Core.Time.{GameTime, advance, ticks_per_day}
use city_life_core.Data.Validation.{
  ValidationReport, empty_report, error_report, merge_validation, warning_count, ok,
}
use city_life_core.Sim.Caravans.{CaravanState, CaravanAdvanceReport, advance_caravan_ticks}
use city_life_core.Sim.Contracts.{ContractDeadlineReport, fail_overdue_open_contracts_at_tick}
use city_life_core.Sim.Engine.Days.{SimulationDayReport, advance_day}
use city_life_core.Sim.Runtime.{SimulationRuntime}

-- struct RuntimeCaravanTickReport
pub record RuntimeCaravanTickReport : Type 0 where
  pub caravan_id : String
  pub advance : CaravanAdvanceReport
  pub validation : ValidationReport

-- struct SimulationRuntimeTickReport
pub record SimulationRuntimeTickReport : Type 0 where
  pub tick_before : ℕ
  pub tick_after : ℕ
  pub elapsed_ticks : ℕ
  pub caravans : List RuntimeCaravanTickReport
  pub arrived_caravan_ids : List String
  pub contracts : ContractDeadlineReport
  pub validation : ValidationReport

-- struct SimulationRuntimeTickRunSummary
pub record SimulationRuntimeTickRunSummary : Type 0 where
  pub tick_steps : ℕ
  pub first_tick : ℕ
  pub last_tick : ℕ
  pub ticks_elapsed : ℕ
  pub caravan_ticks : ℕ
  pub caravan_arrivals : ℕ
  pub contract_failures : ℕ
  pub warnings : ℕ

-- struct SimulationRuntimeTickRunResult
pub record SimulationRuntimeTickRunResult : Type 0 where
  pub reports : List SimulationRuntimeTickReport
  pub summary : SimulationRuntimeTickRunSummary
  pub validation : ValidationReport

-- struct SimulationRuntimeTickRunUntilArrivalResult
pub record SimulationRuntimeTickRunUntilArrivalResult : Type 0 where
  pub run : SimulationRuntimeTickRunResult
  pub arrival_reached : Bool
  pub arrived_caravan_id : String
  pub arrival_tick : ℕ
  pub arrival_elapsed_ticks : ℕ

-- `advance.arrived && advance.ticks_elapsed > 0`
abbrev pub just_arrived : CaravanAdvanceReport → Bool
just_arrived r = r.arrived && ltb 0 r.ticks_elapsed

-- The loop of advance_runtime_ticks over the caravans: the caravans, their reports and the ids of
-- those that arrive.
unfoldable pub advance_caravans :
    List CaravanState → ℕ → List CaravanState × List RuntimeCaravanTickReport × List String
advance_caravans [] ticks = ([], [], [])
advance_caravans (c ∷ cs) ticks =
    let (c', r) = advance_caravan_ticks c ticks in
    let (cs', reports, arrived) = advance_caravans cs ticks in
    (
      c' ∷ cs',
      record { caravan_id = c.id; advance = r; validation = empty_report } ∷ reports,
      if just_arrived r then r.caravan_id ∷ arrived else arrived,
    )

-- advance_runtime_ticks
unfoldable pub advance_runtime_ticks :
    SimulationRuntime → ℕ → SimulationRuntime × SimulationRuntimeTickReport
advance_runtime_ticks runtime ticks =
    let time = advance runtime.time ticks in
    let (caravans, reports, arrived) = advance_caravans runtime.caravans.caravans ticks in
    let (contracts, deadlines) = fail_overdue_open_contracts_at_tick runtime.contracts time.tick in
    (
      record runtime {
        time = time;
        caravans = record { caravans = caravans };
        contracts = contracts;
      },
      record {
        tick_before = runtime.time.tick;
        tick_after = time.tick;
        elapsed_ticks = ticks;
        caravans = reports;
        arrived_caravan_ids = arrived;
        contracts = deadlines;
        validation = empty_report;
      },
    )

-- The inner loop of the two summaries: the caravans and the arrivals counted on.
pub count_caravans : ℕ → ℕ → List RuntimeCaravanTickReport → ℕ × ℕ
count_caravans ticks arrivals [] = (ticks, arrivals)
count_caravans ticks arrivals (c ∷ cs) =
    count_caravans (wrap64 (ticks + 1))
      (if just_arrived c.advance then wrap64 (arrivals + 1) else arrivals) cs

-- The loop of summarize_runtime_tick_reports.
add_tick_reports :
    SimulationRuntimeTickRunSummary
    → List SimulationRuntimeTickReport
    → SimulationRuntimeTickRunSummary
unfolding count_caravans
add_tick_reports s [] = s
add_tick_reports s (r ∷ rs) =
    let (ticks, arrivals) = count_caravans s.caravan_ticks s.caravan_arrivals r.caravans in
    add_tick_reports
      (record s {
        ticks_elapsed = wrap64 (s.ticks_elapsed + r.elapsed_ticks);
        warnings = wrap64 (s.warnings + warning_count r.validation);
        contract_failures = wrap64 (s.contract_failures + r.contracts.failed_count);
        caravan_ticks = ticks;
        caravan_arrivals = arrivals;
      })
      rs

abbrev pub empty_tick_summary : SimulationRuntimeTickRunSummary
empty_tick_summary = record {
  tick_steps = 0;
  first_tick = 0;
  last_tick = 0;
  ticks_elapsed = 0;
  caravan_ticks = 0;
  caravan_arrivals = 0;
  contract_failures = 0;
  warnings = 0;
}

-- `reports.back().tick_after`
last_tick_of : ℕ → List SimulationRuntimeTickReport → ℕ
last_tick_of tick [] = tick
last_tick_of tick (r ∷ rs) = last_tick_of r.tick_after rs

-- summarize_runtime_tick_reports
pub summarize_runtime_tick_reports :
    List SimulationRuntimeTickReport → SimulationRuntimeTickRunSummary
unfolding add_tick_reports last_tick_of
summarize_runtime_tick_reports [] = empty_tick_summary
summarize_runtime_tick_reports (r ∷ rs) =
    add_tick_reports
      (record empty_tick_summary {
        tick_steps = length (r ∷ rs);
        first_tick = r.tick_after;
        last_tick = last_tick_of r.tick_after rs;
      })
      (r ∷ rs)

-- `result.reports.push_back(report)`, seen from the rest of the run.
after_step :
    SimulationRuntimeTickReport
    → Option (SimulationRuntime × List SimulationRuntimeTickReport × ValidationReport)
    → Option (SimulationRuntime × List SimulationRuntimeTickReport × ValidationReport)
after_step report none = none
after_step report (some (after, reports, v)) = some (after, report ∷ reports, v)

-- The `while` loop of run_runtime_ticks: the runtime, the reports and the merged validation.
run_steps :
    ℕ
    → SimulationRuntime
    → ℕ
    → ℕ
    → ℕ
    → ValidationReport
    → Option (SimulationRuntime × List SimulationRuntimeTickReport × ValidationReport)
run_steps zero runtime elapsed total_ticks step_ticks validation =
    if ltb elapsed total_ticks then none else some (runtime, [], validation)
run_steps (suc fuel) runtime elapsed total_ticks step_ticks validation =
    let step = min step_ticks (total_ticks - elapsed) in
    let (runtime', report) = advance_runtime_ticks runtime step in
    let rest =
      run_steps fuel runtime' (elapsed + step) total_ticks step_ticks
        (merge_validation validation report.validation) in
    if ltb elapsed total_ticks then after_step report rest else some (runtime, [], validation)

-- A result with the reports of a run.
pub tick_run : List SimulationRuntimeTickReport → ValidationReport → SimulationRuntimeTickRunResult
tick_run reports validation = record {
  reports = reports;
  summary = summarize_runtime_tick_reports reports;
  validation = validation;
}

-- The end of run_runtime_ticks.
finish_run :
    Option (SimulationRuntime × List SimulationRuntimeTickReport × ValidationReport)
    → Option (SimulationRuntime × SimulationRuntimeTickRunResult)
unfolding tick_run
finish_run none = none
finish_run (some (after, reports, validation)) = some (after, tick_run reports validation)

abbrev pub zero_step : SimulationRuntimeTickRunResult
zero_step = record {
  reports = [];
  summary = empty_tick_summary;
  validation = error_report "simulation.runtime.tick" "step_ticks must be greater than zero";
}

-- run_runtime_ticks
pub run_runtime_ticks :
    ℕ → SimulationRuntime → ℕ → ℕ → Option (SimulationRuntime × SimulationRuntimeTickRunResult)
unfolding finish_run run_steps
run_runtime_ticks fuel runtime total_ticks step_ticks =
    if step_ticks == 0
    then some (runtime, zero_step)
    else finish_run (run_steps fuel runtime 0 total_ticks step_ticks empty_report)
