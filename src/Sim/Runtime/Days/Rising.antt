-- ===== src/Sim/Runtime/Days/Rising.antt =====
-- The clock in the reports of a run.
use city_life_core.Prelude.{ℕ, zero, suc, ◌≤◌, ◌≡◌, List, [], ◌∷◌, arith, u64_max}
use city_life_core.Core.Time.{GameTime, advance, can_advance}
use city_life_core.Data.Validation.{ValidationReport, empty_report, merge_validation}
use city_life_core.Sim.Contracts.Lifecycle.{fail_overdue_open_contracts_at_tick-tick}
use city_life_core.Sim.Runtime.{SimulationRuntime}
use city_life_core.Sim.Runtime.Ticks.{advance_runtime_ticks}
use city_life_core.Sim.Runtime.Ticks.Steps.{tick_in_range}
use city_life_core.Sim.Runtime.Days.{
  SimulationRuntimeDayReport, advance_runtime_day, run_each_day, run_runtime_days,
}

-- The clock never goes back from report to report, from `t` up to `last`, and every deadline report
-- has the tick of its day.
abbrev pub Rising : ℕ → List SimulationRuntimeDayReport → ℕ → Type 0
Rising t [] last = t ≤ last
Rising t (r ∷ rs) last =
    (t ≤ r.ticks.tick_after)
    × (r.contracts.current_tick ≡ r.ticks.tick_after)
    × Rising r.ticks.tick_after rs last

advance-later : (t : GameTime) (n : ℕ) → t.tick ≤ u64_max → t.tick ≤ (advance t n).tick
unfolding advance can_advance
advance-later t n h = ground arith

run_each_day-Rising :
    (n : ℕ) (r : SimulationRuntime) (v : ValidationReport)
    → r.time.tick ≤ u64_max
    → Rising r.time.tick (run_each_day r n v).1 (run_each_day r n v).0.time.tick
unfolding run_each_day advance_runtime_day advance_runtime_ticks
run_each_day-Rising zero r v h = omega arith
run_each_day-Rising (suc n) r v h =
    let (r', report) = advance_runtime_day r in
    (
      advance-later r.time 86400 h,
      fail_overdue_open_contracts_at_tick-tick r.contracts (advance r.time 86400).tick,
      run_each_day-Rising n r' (merge_validation v report.validation) (tick_in_range r 86400 h),
    )

pub run_runtime_days-Rising :
    (r : SimulationRuntime) (n : ℕ)
    → r.time.tick ≤ u64_max
    → let (r', run) = run_runtime_days r n in Rising r.time.tick run.reports r'.time.tick
unfolding run_runtime_days
run_runtime_days-Rising r n h = run_each_day-Rising n r empty_report h
