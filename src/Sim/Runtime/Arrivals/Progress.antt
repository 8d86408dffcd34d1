-- ===== src/Sim/Runtime/Arrivals/Progress.antt =====
-- The run until a caravan arrives finds an arrival exactly when there is one in time.
use city_life_core.Prelude.{
  ℕ, zero, suc, ◌+◌, ◌-◌, ◌≤◌, ◌<◌, ◌≡◌, refl, sym, ap, ◌∙◌, inl, inr, Bool, true, false, not, ◌&&◌,
  ◌||◌, String, Option, some, List, [], ◌∷◌, min, ltb, leb, if◌then◌else◌, arith, Bool-cases,
  wrap64,
}
use city_life_core.Data.Validation.{ValidationReport, empty_report, merge_validation}
use city_life_core.Sim.Caravans.{CaravanState, caravan_ticks_remaining, advance_caravan_ticks}
use city_life_core.Sim.Caravans.Journeys.{ticks_remaining-advance, just_arrived-advance}
use city_life_core.Sim.Runtime.{SimulationRuntime}
use city_life_core.Sim.Runtime.Ticks.{
  SimulationRuntimeTickReport, SimulationRuntimeTickRunUntilArrivalResult, advance_caravans,
  advance_runtime_ticks, just_arrived,
}
use city_life_core.Sim.Runtime.Arrivals.{
  Arrival, under_way, after_step, stop_or_go, run_until, finish_until,
  run_runtime_until_first_caravan_arrival_by_ticks,
}

-- Some caravan is under way with at most `n` ticks to go.
abbrev pub any_due : ℕ → List CaravanState → Bool
any_due n [] = false
any_due n (c ∷ cs) =
    (ltb 0 (caravan_ticks_remaining c) && leb (caravan_ticks_remaining c) n) || any_due n cs

abbrev is_nil : List String → Bool
is_nil [] = true
is_nil (_ ∷ _) = false

is_nil-if :
    (b : Bool) (id : String) (ids : List String)
    → is_nil (if b then id ∷ ids else ids) ≡ (not b && is_nil ids)
is_nil-if true id ids = refl
is_nil-if false id ids = refl

-- What is due within `n` ticks arrives in the first `k` of them, or is due within the rest.
any_due-step :
    (cs : List CaravanState) (n k : ℕ)
    → k ≤ n
    → any_due n cs
      ≡ (not (is_nil (advance_caravans cs k).2) || any_due (n - k) (advance_caravans cs k).0)
unfolding advance_caravans
any_due-step [] n k h = refl
any_due-step (c ∷ cs) n k h = ground (
  arith,
  any_due-step cs n k h,
  ticks_remaining-advance c k,
  just_arrived-advance c k,
  is_nil-if (just_arrived (advance_caravan_ticks c k).1) (advance_caravan_ticks c k).1.caravan_id
      (advance_caravans cs k).2,
)

any_due-zero : (cs : List CaravanState) → any_due 0 cs ≡ false
any_due-zero [] = refl
any_due-zero (c ∷ cs) = ground (arith, any_due-zero cs)

-- A run that ends, with an arrival exactly where one is due, after at most `bound` ticks.
abbrev Settles : Option (SimulationRuntime × Arrival) → Bool → ℕ → Type 0
Settles o due bound =
    (x : SimulationRuntime × Arrival) × (o ≡ some x) × (x.1.reached ≡ due) × (x.1.elapsed ≤ bound)

after_step-Settles :
    (report : SimulationRuntimeTickReport) (o : Option (SimulationRuntime × Arrival)) (due : Bool)
    (bound : ℕ)
    → Settles o due bound
    → Settles (after_step report o) due bound
unfolding after_step
after_step-Settles report o due bound ((after, a), e, reached, h) =
    ((after, record a { reports = report ∷ a.reports }), ap (after_step report) e, reached, h)

stop_or_go-Settles :
    (ids : List String) (runtime : SimulationRuntime) (report : SimulationRuntimeTickReport)
    (v : ValidationReport) (elapsed : ℕ) (o : Option (SimulationRuntime × Arrival)) (due : Bool)
    (bound : ℕ)
    → elapsed ≤ bound
    → Settles o due bound
    → Settles (stop_or_go runtime report v elapsed ids o) (not (is_nil ids) || due) bound
unfolding stop_or_go
stop_or_go-Settles [] runtime report v elapsed o due bound h rest =
    after_step-Settles report o due bound rest
stop_or_go-Settles (id ∷ ids) runtime report v elapsed o due bound h rest = (_, refl, refl, h)

run_until-done :
    (fuel : ℕ) (runtime : SimulationRuntime) (elapsed most step passed : ℕ) (v : ValidationReport)
    → most ≤ elapsed
    → run_until fuel runtime elapsed most step passed v ≡ some (runtime, under_way v passed)
unfolding run_until
run_until-done zero runtime elapsed most step passed v h = ground arith
run_until-done (suc fuel) runtime elapsed most step passed v h = ground arith

run_until-more :
    (fuel : ℕ) (runtime : SimulationRuntime) (elapsed most step passed : ℕ) (v : ValidationReport)
    → elapsed < most
    → let taken = min step (most - elapsed) in
      let (runtime', report) = advance_runtime_ticks runtime taken in
      let v' = merge_validation v report.validation in
      let passed' = wrap64 (passed + report.elapsed_ticks) in
      run_until (suc fuel) runtime elapsed most step passed v
      ≡ stop_or_go runtime' report v' passed' report.arrived_caravan_ids
          (run_until fuel runtime' (elapsed + taken) most step passed' v')
unfolding run_until
run_until-more fuel runtime elapsed most step passed v h = ground arith

due_after :
    (runtime : SimulationRuntime) (n k : ℕ)
    → k ≤ n
    → let (runtime', report) = advance_runtime_ticks runtime k in
      (any_due n runtime.caravans.caravans
        ≡ (not (is_nil report.arrived_caravan_ids) || any_due (n - k) runtime'.caravans.caravans))
      × (report.elapsed_ticks ≡ k)
unfolding advance_runtime_ticks
due_after runtime n k h = (any_due-step runtime.caravans.caravans n k h, refl)

Settles-by :
    (o o' : Option (SimulationRuntime × Arrival)) (due due' : Bool) (bound : ℕ)
    → o ≡ o'
    → due ≡ due'
    → Settles o' due' bound
    → Settles o due bound
Settles-by o o' due due' bound e d (x, f, reached, h) = (x, e ∙ f, reached ∙ sym d, h)

settled-done :
    (fuel : ℕ) (runtime : SimulationRuntime) (elapsed most step passed : ℕ) (v : ValidationReport)
    → passed ≤ most
    → most ≤ elapsed
    → Settles
        (run_until fuel runtime elapsed most step passed v)
        (any_due (most - elapsed) runtime.caravans.caravans)
        most
settled-done fuel runtime elapsed most step passed v q h =
    let none_left : most - elapsed ≡ 0 = omega arith in
    (
      (runtime, under_way v passed),
      run_until-done fuel runtime elapsed most step passed v h,
      sym (
          ap (λ n. any_due n runtime.caravans.caravans) none_left
          ∙ any_due-zero runtime.caravans.caravans),
      q,
    )

run_until-Settles :
    (fuel : ℕ) (runtime : SimulationRuntime) (elapsed most step passed : ℕ) (v : ValidationReport)
    → 0 < step
    → passed ≤ elapsed
    → elapsed ≤ most
    → most ≤ elapsed + fuel
    → Settles
        (run_until fuel runtime elapsed most step passed v)
        (any_due (most - elapsed) runtime.caravans.caravans)
        most
run_until-Settles zero runtime elapsed most step passed v p q h k =
    settled-done zero runtime elapsed most step passed v (omega arith) (omega arith)
run_until-Settles (suc fuel) runtime elapsed most step passed v p q h k =
    let taken = min step (most - elapsed) in
    let (runtime', report) = advance_runtime_ticks runtime taken in
    let v' = merge_validation v report.validation in
    let passed' = wrap64 (passed + report.elapsed_ticks) in
    let (due, ticks) = due_after runtime (most - elapsed) taken (omega arith) in
    elim (Bool-cases (ltb elapsed most)) [
      | inr done ↦
          settled-done (suc fuel) runtime elapsed most step passed v (omega arith) (ground arith)
      | inl more ↦
          let on_time : passed' ≤ elapsed + taken = omega (arith, ticks) in
          let left : most - (elapsed + taken) ≡ (most - elapsed) - taken = omega arith in
          let rest =
            run_until-Settles fuel runtime' (elapsed + taken) most step passed' v' p on_time
              (omega arith) (ground arith) in
          Settles-by _ _ _ _ most
            (run_until-more fuel runtime elapsed most step passed v (ground arith))
            (due
              ∙ ap
                  (λ n.
                    not (is_nil report.arrived_caravan_ids) || any_due n runtime'.caravans.caravans)
                  (sym left))
            (stop_or_go-Settles report.arrived_caravan_ids runtime' report v' passed' _ _ most
              (omega arith) rest)
    ]

finish_until-some :
    (o : Option (SimulationRuntime × Arrival)) (due : Bool) (bound : ℕ)
    → Settles o due bound
    → (x : SimulationRuntime × SimulationRuntimeTickRunUntilArrivalResult) × (finish_until o
        ≡ some x)
      × (x.1.arrival_reached ≡ due)
      × (x.1.arrival_elapsed_ticks ≤ bound)
unfolding finish_until
finish_until-some o due bound (x, e, reached, h) = (_, ap finish_until e, reached, h)

-- With a step of positive length and at least as much fuel as ticks, the run ends, after at most
-- that many ticks, and it has reached an arrival exactly when some caravan was under way at the
-- start with no more ticks to go than the run was given.
pub run_until-arrival :
    (fuel : ℕ) (runtime : SimulationRuntime) (most step : ℕ)
    → 0 < step
    → most ≤ fuel
    → (x : SimulationRuntime × SimulationRuntimeTickRunUntilArrivalResult)
      × (run_runtime_until_first_caravan_arrival_by_ticks fuel runtime most step ≡ some x)
      × (x.1.arrival_reached ≡ any_due most runtime.caravans.caravans)
      × (x.1.arrival_elapsed_ticks ≤ most)
unfolding run_runtime_until_first_caravan_arrival_by_ticks
run_until-arrival fuel runtime most step p k =
    let (x, e, reached, h) = finish_until-some _ _ most (
      run_until-Settles fuel runtime 0 most step 0 empty_report p (omega arith) (omega arith)
        (omega arith)) in
    let whole : most - 0 ≡ most = omega arith in
    (x, ground (arith, e), reached ∙ ap (λ n. any_due n runtime.caravans.caravans) whole, h)
