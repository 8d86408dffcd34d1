-- ===== src/Sim/Runtime/Days/Course.antt =====
-- What a number of days does to a runtime.
use city_life_core.Prelude.{ℕ, zero, suc, ◌+◌, ◌*◌, ◌≤◌, ◌≡◌, refl, ap, ◌∙◌, arith, u64_max}
use city_life_core.Data.Validation.{ValidationReport, empty_report}
use city_life_core.Sim.Engine.{SimulationEngine}
use city_life_core.Sim.Engine.Days.{advance_day, run_days}
use city_life_core.Sim.Runtime.{SimulationRuntime}
use city_life_core.Sim.Runtime.Ticks.{advance_runtime_ticks}
use city_life_core.Sim.Runtime.Ticks.Steps.{advance_runtime_ticks-twice, tick_in_range}
use city_life_core.Sim.Runtime.Days.{advance_runtime_day, run_each_day, run_runtime_days}

-- A runtime with another engine.
abbrev with_engine : SimulationRuntime → SimulationEngine → SimulationRuntime
with_engine r engine = record r { engine = engine }

-- The clock's time passes whatever the engine is.
ticks-with_engine :
    (r : SimulationRuntime) (engine : SimulationEngine) (n : ℕ)
    → (advance_runtime_ticks (with_engine r engine) n).0
      ≡ with_engine (advance_runtime_ticks r n).0 engine
unfolding advance_runtime_ticks
ticks-with_engine r engine n = refl

day-splits :
    (r : SimulationRuntime) (n : ℕ)
    → r.time.tick ≤ u64_max
    → let engine = (advance_day r.engine).0 in
      (advance_runtime_ticks (advance_runtime_ticks (with_engine r engine) 86400).0 n).0
      ≡ with_engine (advance_runtime_ticks r (86400 + n)).0 engine
day-splits r n h =
    let engine = (advance_day r.engine).0 in
    advance_runtime_ticks-twice (with_engine r engine) 86400 n h
    ∙ ticks-with_engine r engine (86400 + n)

engine-kept : (r : SimulationRuntime) (n : ℕ) → (advance_runtime_ticks r n).0.engine ≡ r.engine
unfolding advance_runtime_ticks
engine-kept r n = refl

run_each_day-splits :
    (n : ℕ) (r : SimulationRuntime) (v : ValidationReport)
    → r.time.tick ≤ u64_max
    → (run_each_day r (suc n) v).0
      ≡ with_engine (advance_runtime_ticks r (suc n * 86400)).0 (run_days r.engine (suc n)).0
unfolding run_each_day advance_runtime_day run_days
run_each_day-splits zero r v h =
    let engine = (advance_day r.engine).0 in
    let once : 86400 ≡ suc zero * 86400 = omega arith in
    ticks-with_engine r engine 86400
    ∙ ap (λ k. with_engine (advance_runtime_ticks r k).0 engine) once
run_each_day-splits (suc n) r v h =
    let engine = (advance_day r.engine).0 in
    let next = (advance_runtime_ticks (with_engine r engine) 86400).0 in
    let more : 86400 + suc n * 86400 ≡ suc (suc n) * 86400 = omega arith in
    let last = (run_days engine (suc n)).0 in
    run_each_day-splits n next _ (tick_in_range (with_engine r engine) 86400 h)
    ∙ ap (λ e. with_engine (advance_runtime_ticks next (suc n * 86400)).0 (run_days e (suc n)).0)
        (engine-kept (with_engine r engine) 86400)
    ∙ ap (λ x. with_engine x last) (day-splits r (suc n * 86400) h)
    ∙ ap (λ k. with_engine (advance_runtime_ticks r k).0 last) more

-- A run of at least one day, with the clock in range, ends as if the two halves of the simulation
-- had run apart: the engine its days, and clock, caravans and contracts one advance by all the
-- ticks of those days.
pub run_runtime_days-splits :
    (n : ℕ) (r : SimulationRuntime)
    → r.time.tick ≤ u64_max
    → (run_runtime_days r (suc n)).0 ≡ record (advance_runtime_ticks r (suc n * 86400)).0 {
      engine = (run_days r.engine (suc n)).0;
    }
unfolding run_runtime_days
run_runtime_days-splits n r h = run_each_day-splits n r empty_report h
