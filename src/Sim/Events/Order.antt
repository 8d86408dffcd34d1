-- ===== src/Sim/Events/Order.antt =====
-- The order of the events of a runtime.
use city_life_core.Prelude.{
  ℕ, ◌≤◌, ◌≡◌, refl, ap, ◌∙◌, Bool, true, false, ◌&&◌, ◌++◌, String, List, [], ◌∷◌, leb, arith,
  u64_max, if◌then◌else◌, sym,
}
use city_life_core.Core.EventLog.{Event, EventLog, append}
use city_life_core.Data.Validation.{ok, ok-error_report}
use city_life_core.Sim.Runtime.{SimulationRuntime}
use city_life_core.Sim.Runtime.Ticks.{RuntimeCaravanTickReport}
use city_life_core.Sim.Runtime.Days.{SimulationRuntimeDayReport, run_runtime_days}
use city_life_core.Sim.Runtime.Days.Rising.{Rising, run_runtime_days-Rising}
use city_life_core.Sim.Events.{
  RuntimeEventLogSummary, append_event, append_caravans, append_failures, append_day_reports,
  append_runtime_day_report_events, append_runtime_run_events, empty_summary,
}
use city_life_core.Sim.Events.Logs.{
  is_known_runtime_event_type, last_tick_of, first_tick_of, check_order, check_known,
  validate_runtime_event_log_tick_order, validate_runtime_event_log_known_types,
}

-- A log that both checks accept, and that has no event after tick `n`.
abbrev pub IsSound : ℕ → EventLog → Type 0
IsSound n log =
    (ok (validate_runtime_event_log_tick_order log) ≡ true)
    × (ok (validate_runtime_event_log_known_types log) ≡ true)
    × (last_tick_of 0 log.events ≤ n)

ok-check_order-append :
    (es : List Event) (t : ℕ) (e : Event)
    → ok (check_order t (es ++ e ∷ [])) ≡ (ok (check_order t es) && leb (last_tick_of t es) e.tick)
unfolding check_order last_tick_of
ok-check_order-append [] t e = ground (
  arith,
  ok-error_report "runtime.event_log.tick_order" "runtime event log tick order regression detected",
)
ok-check_order-append (x ∷ es) t e = ground (
  arith,
  ok-check_order-append es x.tick e,
  ok-error_report "runtime.event_log.tick_order" "runtime event log tick order regression detected",
)

last_tick_of-append : (es : List Event) (t : ℕ) (e : Event) → last_tick_of t (es ++ e ∷ []) ≡ e.tick
unfolding last_tick_of
last_tick_of-append [] t e = refl
last_tick_of-append (x ∷ es) t e = last_tick_of-append es x.tick e

ok-check_known-append :
    (es : List Event) (e : Event)
    → ok (check_known (es ++ e ∷ [])) ≡ (ok (check_known es) && is_known_runtime_event_type e.type)
unfolding check_known
ok-check_known-append [] e = ground (
  arith,
  ok-error_report "runtime.event_log.type" "runtime event log contains unknown event type",
)
ok-check_known-append (x ∷ es) e = ground (
  arith,
  ok-check_known-append es e,
  ok-error_report "runtime.event_log.type" "runtime event log contains unknown event type",
)

-- The check of the order may as well start at zero.
check_order-from_zero : (es : List Event) → check_order (first_tick_of es) es ≡ check_order 0 es
unfolding check_order first_tick_of
check_order-from_zero [] = refl
check_order-from_zero (e ∷ es) = ground arith

append-IsSound :
    (log : EventLog) (m n : ℕ) (type payload : String)
    → IsSound m log
    → m ≤ n
    → is_known_runtime_event_type type ≡ true
    → IsSound n (append log n type payload).0
unfolding append validate_runtime_event_log_known_types validate_runtime_event_log_tick_order
append-IsSound log m n type payload (ordered, known, last) h k =
    let e : Event = record { id = log.next_id; tick = n; type = type; payload = payload } in
    let old = sym (check_order-from_zero log.events) in
    let new = check_order-from_zero (log.events ++ e ∷ []) in
    let o = ok-check_order-append log.events 0 e in
    let w = ok-check_known-append log.events e in
    let z = last_tick_of-append log.events 0 e in
    (
      ap ok new
          ∙ o
          ∙ (let before : ok (check_order 0 log.events) ≡ true = ap ok old ∙ ordered in
              ground arith),
      w ∙ ground arith,
      (rw z (omega arith)),
    )

-- What the event of a caravan is called.
progress_known :
    (arrived : Bool)
    → is_known_runtime_event_type
        (if arrived then "runtime.caravan.arrived" else "runtime.caravan.progress")
      ≡ true
unfolding is_known_runtime_event_type
progress_known true = refl
progress_known false = refl

append_caravans-IsSound :
    (cs : List RuntimeCaravanTickReport) (log : EventLog) (s : RuntimeEventLogSummary) (n : ℕ)
    → IsSound n log
    → IsSound n (append_caravans log s n cs).0
unfolding append_caravans append_event
append_caravans-IsSound [] log s n h = h
append_caravans-IsSound (c ∷ cs) log s n h =
    let type : String =
      if c.advance.arrived then "runtime.caravan.arrived" else "runtime.caravan.progress" in
    let (log', s') = append_event log s n type c.caravan_id in
    append_caravans-IsSound cs log' _ n
      (append-IsSound log n n type c.caravan_id h (omega arith) (progress_known c.advance.arrived))

append_failures-IsSound :
    (ids : List String) (log : EventLog) (s : RuntimeEventLogSummary) (n : ℕ)
    → IsSound n log
    → IsSound n (append_failures log s n ids).0
unfolding append_failures append_event is_known_runtime_event_type
append_failures-IsSound [] log s n h = h
append_failures-IsSound (id ∷ ids) log s n h =
    append_failures-IsSound ids (append_event log s n "runtime.contract.failed" id).0 _ n
      (append-IsSound log n n "runtime.contract.failed" id h (omega arith) refl)

day_report-IsSound :
    (log : EventLog) (r : SimulationRuntimeDayReport) (n : ℕ)
    → IsSound n log
    → n ≤ r.ticks.tick_after
    → r.contracts.current_tick ≡ r.ticks.tick_after
    → IsSound r.ticks.tick_after (append_runtime_day_report_events log r).0
unfolding append_runtime_day_report_events append_event is_known_runtime_event_type
day_report-IsSound log r n h k same =
    let tick = r.ticks.tick_after in
    let begun = append-IsSound log n tick "runtime.day.completed" _ h k refl in
    let told = append_caravans-IsSound r.caravans _ _ tick begun in
    rw same (append_failures-IsSound r.contracts.failed_contract_ids _ _ tick told)

append_day_reports-IsSound :
    (rs : List SimulationRuntimeDayReport) (log : EventLog) (s : RuntimeEventLogSummary)
    (n last : ℕ)
    → Rising n rs last
    → IsSound n log
    → IsSound last (append_day_reports log s rs).0
unfolding append_day_reports
append_day_reports-IsSound [] log s n last h (ordered, known, end) = (ordered, known, omega arith)
append_day_reports-IsSound (r ∷ rs) log s n last (later, same, rest) h =
    append_day_reports-IsSound rs (append_runtime_day_report_events log r).0 _ r.ticks.tick_after
      last rest (day_report-IsSound log r n h later same)

-- Where a log is in order, has known events only and none later than the clock of a runtime in
-- range, it is all this with the events of any run of days as well, seen from the clock after the
-- run. So the events of run after run make a log that both checks accept.
pub run_runtime_days-IsSound :
    (r : SimulationRuntime) (n : ℕ) (log : EventLog)
    → r.time.tick ≤ u64_max
    → IsSound r.time.tick log
    → let (r', run) = run_runtime_days r n in
      IsSound r'.time.tick (append_runtime_run_events log run).0
unfolding append_runtime_run_events
run_runtime_days-IsSound r n log h sound =
    let (r', run) = run_runtime_days r n in
    append_day_reports-IsSound run.reports log empty_summary r.time.tick r'.time.tick
      (run_runtime_days-Rising r n h) sound
