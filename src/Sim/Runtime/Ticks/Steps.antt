-- ===== src/Sim/Runtime/Ticks/Steps.antt =====
-- How the time of a runtime is cut into steps makes no difference.
use city_life_core.Prelude.{
  ℕ, zero, suc, ◌+◌, ◌-◌, ◌≤◌, ◌<◌, ◌≡◌, refl, sym, ap, ◌∙◌, inl, inr, Option, none, some, List, [],
  ◌∷◌, min, ltb, arith, Bool-cases, u64_max,
}
use city_life_core.Core.Time.{GameTime, advance}
use city_life_core.Core.Time.Laws.{advance-advance}
use city_life_core.Data.Validation.{ValidationReport, empty_report, merge_validation}
use city_life_core.Sim.Caravans.{CaravanState, advance_caravan_ticks}
use city_life_core.Sim.Caravans.Journeys.{advance_caravan_ticks-steps}
use city_life_core.Sim.Contracts.{ContractCatalog, fail_overdue_open_contracts_at_tick}
use city_life_core.Sim.Contracts.Lifecycle.{fail_overdue_open_contracts_at_tick-twice}
use city_life_core.Sim.Runtime.{SimulationRuntime}
use city_life_core.Sim.Runtime.Ticks.{
  SimulationRuntimeTickReport, SimulationRuntimeTickRunResult, advance_caravans,
  advance_runtime_ticks, after_step, finish_run, run_steps, run_runtime_ticks,
}

advance_caravans-twice :
    (cs : List CaravanState) (m n : ℕ)
    → (advance_caravans (advance_caravans cs m).0 n).0 ≡ (advance_caravans cs (m + n)).0
unfolding advance_caravans
advance_caravans-twice [] m n = refl
advance_caravans-twice (c ∷ cs) m n =
    let (same, _, _, _) = advance_caravan_ticks-steps c m n in
    let rest = advance_caravans-twice cs m n in
    ap (λ x. x ∷ (advance_caravans (advance_caravans cs m).0 n).0) same
    ∙ ap (λ xs. (advance_caravan_ticks c (m + n)).0 ∷ xs) rest

-- Two steps of a runtime come to the same runtime as one step of their sum.
pub advance_runtime_ticks-twice :
    (runtime : SimulationRuntime) (m n : ℕ)
    → runtime.time.tick ≤ u64_max
    → (advance_runtime_ticks (advance_runtime_ticks runtime m).0 n).0
      ≡ (advance_runtime_ticks runtime (m + n)).0
unfolding advance_runtime_ticks
advance_runtime_ticks-twice runtime m n h =
    let once = advance runtime.time m in
    let (clock, _, in_range) = advance-advance runtime.time m n h in
    let (_, later, _) = advance-advance once n 0 in_range in
    let cs = (advance_caravans (advance_caravans runtime.caravans.caravans m).0 n).0 in
    let k = (fail_overdue_open_contracts_at_tick runtime.contracts once.tick).0 in
    let expired =
      fail_overdue_open_contracts_at_tick-twice runtime.contracts once.tick (advance once n).tick
        later in
    let at : GameTime → List CaravanState → ContractCatalog → SimulationRuntime = λ t xs contracts.
      record runtime { time = t; caravans = record { caravans = xs }; contracts = contracts } in
    ap (λ t. at (record { tick = t }) cs (fail_overdue_open_contracts_at_tick k t).0) clock
    ∙ ap
        (λ xs.
          at (advance runtime.time (m + n)) xs
            (fail_overdue_open_contracts_at_tick k (advance runtime.time (m + n)).tick).0)
        (advance_caravans-twice runtime.caravans.caravans m n)
    ∙ ap
        (λ x.
          at (advance runtime.time (m + n)) (advance_caravans runtime.caravans.caravans (m + n)).0
            x)
        (rw (sym clock) expired)

-- The runtime that the loop ends in.
abbrev end_of :
    Option (SimulationRuntime × List SimulationRuntimeTickReport × ValidationReport)
    → Option SimulationRuntime
end_of none = none
end_of (some (runtime, _, _)) = some runtime

-- The runtime that a run ends in.
abbrev pub runtime_of :
    Option (SimulationRuntime × SimulationRuntimeTickRunResult) → Option SimulationRuntime
runtime_of none = none
runtime_of (some (runtime, _)) = some runtime

pub tick_in_range :
    (runtime : SimulationRuntime) (n : ℕ)
    → runtime.time.tick ≤ u64_max
    → (advance_runtime_ticks runtime n).0.time.tick ≤ u64_max
unfolding advance_runtime_ticks
tick_in_range runtime n h = let (_, _, k) = advance-advance runtime.time n 0 h in k

run_steps-done :
    (fuel : ℕ) (runtime : SimulationRuntime) (elapsed total step : ℕ) (v : ValidationReport)
    → total ≤ elapsed
    → run_steps fuel runtime elapsed total step v ≡ some (runtime, [], v)
unfolding run_steps
run_steps-done zero runtime elapsed total step v h = ground arith
run_steps-done (suc fuel) runtime elapsed total step v h = ground arith

run_steps-more :
    (fuel : ℕ) (runtime : SimulationRuntime) (elapsed total step : ℕ) (v : ValidationReport)
    → elapsed < total
    → let taken = min step (total - elapsed) in
      let (runtime', report) = advance_runtime_ticks runtime taken in
      run_steps (suc fuel) runtime elapsed total step v
      ≡ after_step report (
          run_steps fuel runtime'
            (elapsed + taken)
            total
            step
            (merge_validation v report.validation))
unfolding run_steps
run_steps-more fuel runtime elapsed total step v h = ground arith

end_of-after_step :
    (report : SimulationRuntimeTickReport)
    (o : Option (SimulationRuntime × List SimulationRuntimeTickReport × ValidationReport))
    → end_of (after_step report o) ≡ end_of o
unfolding after_step
end_of-after_step report none = refl
end_of-after_step report (some x) = refl

-- From the middle of a run on: the rest of the time at once.
run_steps-once :
    (fuel : ℕ) (runtime : SimulationRuntime) (elapsed total step : ℕ) (v : ValidationReport)
    → 0 < step
    → elapsed < total
    → total ≤ elapsed + fuel
    → runtime.time.tick ≤ u64_max
    → end_of (run_steps fuel runtime elapsed total step v)
      ≡ some (advance_runtime_ticks runtime (total - elapsed)).0
run_steps-once zero runtime elapsed total step v p h k r = ground arith
run_steps-once (suc fuel) runtime elapsed total step v p h k r =
    let taken = min step (total - elapsed) in
    let (runtime', report) = advance_runtime_ticks runtime taken in
    let v' = merge_validation v report.validation in
    let rest = run_steps fuel runtime' (elapsed + taken) total step v' in
    let first : end_of (run_steps (suc fuel) runtime elapsed total step v) ≡ end_of rest =
      ap end_of (run_steps-more fuel runtime elapsed total step v h)
      ∙ end_of-after_step report rest in
    elim (Bool-cases (ltb (elapsed + taken) total)) [
      | inl more ↦
          let whole : taken + (total - (elapsed + taken)) ≡ total - elapsed = ground arith in
          first
          ∙ run_steps-once fuel runtime' (elapsed + taken) total step v' p (ground arith)
              (omega arith) (tick_in_range runtime taken r)
          ∙ ap some (advance_runtime_ticks-twice runtime taken (total - (elapsed + taken)) r)
          ∙ ap (λ n. some (advance_runtime_ticks runtime n).0) whole
      | inr done ↦
          let whole : taken ≡ total - elapsed = ground arith in
          first
          ∙ ap end_of (run_steps-done fuel runtime' (elapsed + taken) total step v' (ground arith))
          ∙ ap (λ n. some (advance_runtime_ticks runtime n).0) whole
    ]

runtime_of-finish_run :
    (o : Option (SimulationRuntime × List SimulationRuntimeTickReport × ValidationReport))
    → runtime_of (finish_run o) ≡ end_of o
unfolding finish_run
runtime_of-finish_run none = refl
runtime_of-finish_run (some x) = refl

run_end :
    (fuel : ℕ) (runtime : SimulationRuntime) (total step : ℕ)
    → 0 < step
    → runtime_of (run_runtime_ticks fuel runtime total step)
      ≡ end_of (run_steps fuel runtime 0 total step empty_report)
unfolding run_runtime_ticks
run_end fuel runtime total step p =
    ground (arith, runtime_of-finish_run (run_steps fuel runtime 0 total step empty_report))

-- A run of `total` ticks by steps of any positive length ends, for any fuel of at least `total`, in
-- exactly the runtime that one advance by `total` ticks leaves: the clock, every caravan and every
-- contract. The clock must be in range at the start and some time pass.
pub run_runtime_ticks-once :
    (fuel : ℕ) (runtime : SimulationRuntime) (total step : ℕ)
    → 0 < step
    → 0 < total
    → total ≤ fuel
    → runtime.time.tick ≤ u64_max
    → runtime_of (run_runtime_ticks fuel runtime total step)
      ≡ some (advance_runtime_ticks runtime total).0
run_runtime_ticks-once fuel runtime total step p q k r =
    let none_gone : total - 0 ≡ total = omega arith in
    run_end fuel runtime total step p
    ∙ run_steps-once fuel runtime 0 total step empty_report p q (omega arith) r
    ∙ ap (λ n. some (advance_runtime_ticks runtime n).0) none_gone
