-- ===== src/Sim/Engine/Days/Runs.antt =====
-- Runs of days and scenarios.
use city_life_core.Prelude.{
  ℕ, zero, suc, ◌+◌, ◌<◌, ◌≡◌, refl, sym, ap, ◌∙◌, List, [], ◌∷◌, ◌++◌, length, length-append,
  append-nil, append_assoc, wrap64, arith, ltb, if◌then◌else◌,
}
use city_life_core.Prelude.Lists.{drop, drop-append}
use city_life_core.Sim.Settlement.{SettlementTickReport}
use city_life_core.Sim.Engine.{SimulationEngine, SimulationEvent}
use city_life_core.Sim.Engine.Days.{
  SimulationDayReport, events_of, SimulationScenarioSummary, empty_summary, add_ticks, add_reports,
  last_day_of, advance_day, run_days, snapshot, summarize_day_reports, run_scenario,
}
use city_life_core.Sim.Engine.Days.Log.{ids, advance_day-log}

-- A run of some days and then of more is one run: the engine ends the same, and its reports are
-- those of the two runs one after the other.
pub run_days-add :
    (m n : ℕ) (e : SimulationEngine)
    → let (e1, first) = run_days e m in
      let (e2, second) = run_days e1 n in run_days e (m + n) ≡ (e2, first ++ second)
unfolding run_days
run_days-add zero n e =
    let none_first : 0 + n ≡ n = omega arith in ap (λ k. run_days e k) none_first
run_days-add (suc m) n e =
    let (e', report) = advance_day e in
    let one_first : suc m + n ≡ suc (m + n) = omega arith in
    ap (λ k. run_days e k) one_first
    ∙ ap (λ (x : SimulationEngine × List SimulationDayReport). (x.0, report ∷ x.1))
        (run_days-add m n e')

pub run_days-log :
    (n : ℕ) (e : SimulationEngine)
    → let (e', reports) = run_days e n in
      (e'.events ≡ e.events ++ events_of reports)
      × (ids e'.settlements ≡ ids e.settlements)
      × (length reports ≡ n)
unfolding run_days
run_days-log zero e = (sym (append-nil e.events), refl, refl)
run_days-log (suc n) e =
    let (e1, report) = advance_day e in
    let (_, _, same, _, logged) = advance_day-log e in
    let (later, kept, many) = run_days-log n e1 in
    (
      later
          ∙ ap (λ es. es ++ events_of (run_days e1 n).1) logged
          ∙ append_assoc e.events report.events _,
      kept ∙ same,
      omega (arith, many),
    )

run_days-day :
    (n : ℕ) (e : SimulationEngine)
    → e.current_day < 18446744073709551616
    → (run_days e n).0.current_day ≡ wrap64 (e.current_day + n)
unfolding run_days
run_days-day zero e h = omega arith
run_days-day (suc n) e h =
    let (e1, report) = advance_day e in
    let (day, _, _, _, _) = advance_day-log e in
    omega (arith, day, run_days-day n e1 (omega (arith, day)))

add_ticks-keeps :
    (ts : List SettlementTickReport) (s : SimulationScenarioSummary)
    → ((add_ticks s ts).days_run ≡ s.days_run) × ((add_ticks s ts).events ≡ s.events)
unfolding add_ticks
add_ticks-keeps [] s = (refl, refl)
add_ticks-keeps (t ∷ ts) s = add_ticks-keeps ts _

add_reports-counts :
    (rs : List SimulationDayReport) (s : SimulationScenarioSummary)
    → s.events < 18446744073709551616
    → ((add_reports s rs).days_run ≡ s.days_run)
      × ((add_reports s rs).events ≡ wrap64 (s.events + length (events_of rs)))
unfolding add_reports
add_reports-counts [] s h = (refl, omega arith)
add_reports-counts (r ∷ rs) s h =
    let counted = record s {
      settlement_ticks = wrap64 (s.settlement_ticks + length r.settlement_ticks);
      events = wrap64 (s.events + length r.events);
      warnings = wrap64 (s.warnings + length r.warnings);
    } in
    let (days, events) = add_ticks-keeps r.settlement_ticks counted in
    let (days', events') =
      add_reports-counts rs (add_ticks counted r.settlement_ticks) (omega (arith, events)) in
    (days' ∙ days, omega (arith, events', events, length-append r.events (events_of rs)))

summary-counts :
    (rs : List SimulationDayReport)
    → ((summarize_day_reports rs).days_run ≡ length rs)
      × ((summarize_day_reports rs).events ≡ wrap64 (length (events_of rs)))
unfolding summarize_day_reports
summary-counts [] = (refl, refl)
summary-counts (r ∷ rs) =
    let start = record empty_summary {
      days_run = length (r ∷ rs);
      first_day = r.day;
      last_day = last_day_of r.day rs;
    } in
    let (days, events) = add_reports-counts (r ∷ rs) start (omega arith) in
    (days, omega (arith, events))

pub delta-eq :
    (xs ys : List SimulationEvent)
    → (if ltb (length xs) (length (xs ++ ys)) then drop (length xs) (xs ++ ys) else []) ≡ ys
delta-eq xs [] = ground (arith, length-append xs [])
delta-eq xs (y ∷ ys) = ground (arith, length-append xs (y ∷ ys), drop-append xs (y ∷ ys))

-- A scenario of `n` days has `n` reports, its delta is exactly the events of those reports in
-- order, and the engine's log afterwards is the log before with the delta at its end; the summary
-- counts those days and events, and the clock went on by `n` days (each count modulo 2^64).
pub run_scenario-exact :
    (e : SimulationEngine) (n : ℕ)
    → e.current_day < 18446744073709551616
    → let (e', r) = run_scenario e n in
      (length r.reports ≡ n)
      × (r.events_delta ≡ events_of r.reports)
      × (e'.events ≡ e.events ++ r.events_delta)
      × (r.summary.days_run ≡ n)
      × (r.summary.events ≡ wrap64 (length r.events_delta))
      × (r.final_snapshot.day ≡ wrap64 (r.initial_snapshot.day + n))
unfolding run_scenario snapshot
run_scenario-exact e n h =
    let (e', reports) = run_days e n in
    let (logged, _, many) = run_days-log n e in
    let (days, events) = summary-counts reports in
    let delta : (run_scenario e n).1.events_delta ≡ events_of reports =
      rw logged (delta-eq e.events (events_of reports)) in
    (
      many,
      delta,
      logged ∙ ap (λ es. e.events ++ es) (sym delta),
      days ∙ many,
      events ∙ ap (λ es. wrap64 (length es)) (sym delta),
      run_days-day n e h,
    )
