-- ===== src/Sim/Runtime/Days.antt =====
-- src/clc/sim/SimulationRuntimeTick.cpp: the days of a runtime, which are a day of its engine and a
-- day of its clock, caravans and contracts.
pub mod Course
pub mod Rising
use city_life_core.Prelude.{
  ℕ, zero, suc, ◌+◌, Bool, true, false, String, List, [], ◌∷◌, length, wrap64,
}
use city_life_core.Core.Time.{ticks_per_day}
use city_life_core.Data.Validation.{ValidationReport, empty_report, merge_validation, warning_count}
use city_life_core.Sim.Contracts.{ContractDeadlineReport}
use city_life_core.Sim.Engine.Days.{SimulationDayReport, advance_day}
use city_life_core.Sim.Runtime.{SimulationRuntime}
use city_life_core.Sim.Runtime.Ticks.{
  RuntimeCaravanTickReport, SimulationRuntimeTickReport, advance_runtime_ticks, count_caravans,
}

-- struct SimulationRuntimeDayReport
pub record SimulationRuntimeDayReport : Type 0 where
  pub engine : SimulationDayReport
  pub ticks : SimulationRuntimeTickReport
  pub caravans : List RuntimeCaravanTickReport
  pub arrived_caravan_ids : List String
  pub contracts : ContractDeadlineReport
  pub validation : ValidationReport

-- struct SimulationRuntimeRunSummary
pub record SimulationRuntimeRunSummary : Type 0 where
  pub days_run : ℕ
  pub first_day : ℕ
  pub last_day : ℕ
  pub ticks_elapsed : ℕ
  pub caravan_ticks : ℕ
  pub caravan_arrivals : ℕ
  pub contract_failures : ℕ
  pub warnings : ℕ

-- struct SimulationRuntimeRunResult
pub record SimulationRuntimeRunResult : Type 0 where
  pub reports : List SimulationRuntimeDayReport
  pub summary : SimulationRuntimeRunSummary
  pub validation : ValidationReport

-- struct SimulationRuntimeRunUntilArrivalResult
pub record SimulationRuntimeRunUntilArrivalResult : Type 0 where
  pub run : SimulationRuntimeRunResult
  pub arrival_reached : Bool
  pub arrived_caravan_id : String
  pub arrival_day : ℕ
  pub arrival_elapsed_ticks : ℕ

-- advance_runtime_day
unfoldable pub advance_runtime_day :
    SimulationRuntime → SimulationRuntime × SimulationRuntimeDayReport
advance_runtime_day runtime =
    let (engine, day) = advance_day runtime.engine in
    let (runtime', ticks) =
      advance_runtime_ticks (record runtime { engine = engine }) ticks_per_day in
    (
      runtime',
      record {
        engine = day;
        ticks = ticks;
        caravans = ticks.caravans;
        arrived_caravan_ids = ticks.arrived_caravan_ids;
        contracts = ticks.contracts;
        validation = merge_validation empty_report ticks.validation;
      },
    )

-- The loop of summarize_runtime_day_reports.
add_day_reports :
    SimulationRuntimeRunSummary → List SimulationRuntimeDayReport → SimulationRuntimeRunSummary
add_day_reports s [] = s
add_day_reports s (r ∷ rs) =
    let (ticks, arrivals) = count_caravans s.caravan_ticks s.caravan_arrivals r.caravans in
    add_day_reports
      (record s {
        ticks_elapsed = wrap64 (s.ticks_elapsed + r.ticks.elapsed_ticks);
        warnings = wrap64 (s.warnings + warning_count r.validation);
        contract_failures = wrap64 (s.contract_failures + r.contracts.failed_count);
        caravan_ticks = ticks;
        caravan_arrivals = arrivals;
      })
      rs

abbrev empty_run_summary : SimulationRuntimeRunSummary
empty_run_summary = record {
  days_run = 0;
  first_day = 0;
  last_day = 0;
  ticks_elapsed = 0;
  caravan_ticks = 0;
  caravan_arrivals = 0;
  contract_failures = 0;
  warnings = 0;
}

-- `reports.back().engine.day`
last_day_of : ℕ → List SimulationRuntimeDayReport → ℕ
last_day_of day [] = day
last_day_of day (r ∷ rs) = last_day_of r.engine.day rs

-- summarize_runtime_day_reports
pub summarize_runtime_day_reports : List SimulationRuntimeDayReport → SimulationRuntimeRunSummary
unfolding add_day_reports last_day_of
summarize_runtime_day_reports [] = empty_run_summary
summarize_runtime_day_reports (r ∷ rs) =
    add_day_reports
      (record empty_run_summary {
        days_run = length (r ∷ rs);
        first_day = r.engine.day;
        last_day = last_day_of r.engine.day rs;
      })
      (r ∷ rs)

-- The loop of run_runtime_days: the runtime, the reports and the merged validation.
run_each_day :
    SimulationRuntime
    → ℕ
    → ValidationReport
    → SimulationRuntime × List SimulationRuntimeDayReport × ValidationReport
run_each_day runtime zero validation = (runtime, [], validation)
run_each_day runtime (suc n) validation =
    let (runtime', report) = advance_runtime_day runtime in
    let (after, reports, v) =
      run_each_day runtime' n (merge_validation validation report.validation) in
    (after, report ∷ reports, v)

abbrev day_run : List SimulationRuntimeDayReport → ValidationReport → SimulationRuntimeRunResult
day_run reports validation = record {
  reports = reports;
  summary = summarize_runtime_day_reports reports;
  validation = validation;
}

-- run_runtime_days
pub run_runtime_days : SimulationRuntime → ℕ → SimulationRuntime × SimulationRuntimeRunResult
unfolding run_each_day
run_runtime_days runtime day_count =
    let (after, reports, validation) = run_each_day runtime day_count empty_report in
    (after, day_run reports validation)

-- What the loop of run_runtime_until_first_caravan_arrival leaves.
pub record Arrival : Type 0 where
  pub reports : List SimulationRuntimeDayReport
  pub validation : ValidationReport
  pub reached : Bool
  pub caravan_id : String
  pub day : ℕ
  pub elapsed : ℕ

-- The body of the loop once a day was run: it stops where a caravan arrived on it.
stop_or_go :
    SimulationRuntime
    → SimulationRuntimeDayReport
    → ValidationReport
    → ℕ
    → List String
    → SimulationRuntime × Arrival
    → SimulationRuntime × Arrival
stop_or_go runtime report validation elapsed [] (after, a) =
    (after, record a { reports = report ∷ a.reports })
stop_or_go runtime report validation elapsed (id ∷ _) rest = (
  runtime,
  record {
    reports = report ∷ [];
    validation = validation;
    reached = true;
    caravan_id = id;
    day = report.engine.day;
    elapsed = elapsed;
  },
)

-- The loop of run_runtime_until_first_caravan_arrival.
run_until : SimulationRuntime → ℕ → ℕ → ValidationReport → SimulationRuntime × Arrival
unfolding stop_or_go
run_until runtime zero passed validation = (
  runtime,
  record {
    reports = [];
    validation = validation;
    reached = false;
    caravan_id = "";
    day = 0;
    elapsed = passed;
  },
)
run_until runtime (suc n) passed validation =
    let (runtime', report) = advance_runtime_day runtime in
    let validation' = merge_validation validation report.validation in
    let passed' = wrap64 (passed + report.ticks.elapsed_ticks) in
    stop_or_go runtime' report validation' passed' report.arrived_caravan_ids
      (run_until runtime' n passed' validation')

-- run_runtime_until_first_caravan_arrival
pub run_runtime_until_first_caravan_arrival :
    SimulationRuntime → ℕ → SimulationRuntime × SimulationRuntimeRunUntilArrivalResult
unfolding run_until
run_runtime_until_first_caravan_arrival runtime max_days =
    let (after, a) = run_until runtime max_days 0 empty_report in
    (
      after,
      record {
        run = day_run a.reports a.validation;
        arrival_reached = a.reached;
        arrived_caravan_id = a.caravan_id;
        arrival_day = a.day;
        arrival_elapsed_ticks = a.elapsed;
      },
    )
