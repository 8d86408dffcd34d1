-- ===== src/Sim/Events/Logs.antt =====
-- src/clc/sim/SimulationRuntimeEvents.cpp: what a log of runtime events is checked for.
use city_life_core.Prelude.{
  ℕ, ◌+◌, Bool, not, ◌||◌, String, List, [], ◌∷◌, length, ltb, if◌then◌else◌, str_eq, wrap64,
}
use city_life_core.Core.EventLog.{Event, EventLog}
use city_life_core.Data.Validation.{ValidationReport, empty_report, error_report}

-- struct RuntimeEventLogAnalysis
pub record RuntimeEventLogAnalysis : Type 0 where
  pub total_events : ℕ
  pub day_events : ℕ
  pub tick_events : ℕ
  pub caravan_progress_events : ℕ
  pub caravan_arrival_events : ℕ
  pub caravan_cargo_delivered_events : ℕ
  pub contract_fulfilled_events : ℕ
  pub contract_failed_events : ℕ
  pub unknown_events : ℕ
  pub first_tick : ℕ
  pub last_tick : ℕ

-- is_known_runtime_event_type
unfoldable pub is_known_runtime_event_type : String → Bool
is_known_runtime_event_type type =
    str_eq type "runtime.day.completed"
    || str_eq type "runtime.tick.completed"
    || str_eq type "runtime.caravan.progress"
    || str_eq type "runtime.caravan.arrived"
    || str_eq type "runtime.caravan.cargo_delivered"
    || str_eq type "runtime.contract.fulfilled"
    || str_eq type "runtime.contract.failed"

-- The body of the loop of analyze_runtime_event_log.
count_event : RuntimeEventLogAnalysis → String → RuntimeEventLogAnalysis
count_event a type =
    if str_eq type "runtime.day.completed"
    then record a { day_events = wrap64 (a.day_events + 1) }
    else if str_eq type "runtime.tick.completed"
    then record a { tick_events = wrap64 (a.tick_events + 1) }
    else if str_eq type "runtime.caravan.progress"
    then record a { caravan_progress_events = wrap64 (a.caravan_progress_events + 1) }
    else if str_eq type "runtime.caravan.arrived"
    then record a { caravan_arrival_events = wrap64 (a.caravan_arrival_events + 1) }
    else if str_eq type "runtime.caravan.cargo_delivered"
    then record a { caravan_cargo_delivered_events = wrap64 (a.caravan_cargo_delivered_events + 1) }
    else if str_eq type "runtime.contract.fulfilled"
    then record a { contract_fulfilled_events = wrap64 (a.contract_fulfilled_events + 1) }
    else if str_eq type "runtime.contract.failed"
    then record a { contract_failed_events = wrap64 (a.contract_failed_events + 1) }
    else record a { unknown_events = wrap64 (a.unknown_events + 1) }

count_events : RuntimeEventLogAnalysis → List Event → RuntimeEventLogAnalysis
unfolding count_event
count_events a [] = a
count_events a (e ∷ es) = count_events (count_event a e.type) es

-- `events.front().tick`, or 0
unfoldable pub first_tick_of : List Event → ℕ
first_tick_of [] = 0
first_tick_of (e ∷ _) = e.tick

-- `events.back().tick`, or `tick` where there are none
unfoldable pub last_tick_of : ℕ → List Event → ℕ
last_tick_of tick [] = tick
last_tick_of tick (e ∷ es) = last_tick_of e.tick es

-- analyze_runtime_event_log
pub analyze_runtime_event_log : EventLog → RuntimeEventLogAnalysis
unfolding count_events
analyze_runtime_event_log log =
    count_events
      (record {
        total_events = length log.events;
        day_events = 0;
        tick_events = 0;
        caravan_progress_events = 0;
        caravan_arrival_events = 0;
        caravan_cargo_delivered_events = 0;
        contract_fulfilled_events = 0;
        contract_failed_events = 0;
        unknown_events = 0;
        first_tick = first_tick_of log.events;
        last_tick = last_tick_of 0 log.events;
      })
      log.events

-- The loop of validate_runtime_event_log_tick_order, with the tick of the event before.
unfoldable pub check_order : ℕ → List Event → ValidationReport
check_order previous [] = empty_report
check_order previous (e ∷ es) =
    if ltb e.tick previous
    then error_report "runtime.event_log.tick_order"
        "runtime event log tick order regression detected"
    else check_order e.tick es

-- validate_runtime_event_log_tick_order: the first event is compared with its own tick.
unfoldable pub validate_runtime_event_log_tick_order : EventLog → ValidationReport
validate_runtime_event_log_tick_order log = check_order (first_tick_of log.events) log.events

-- The loop of validate_runtime_event_log_known_types.
unfoldable pub check_known : List Event → ValidationReport
check_known [] = empty_report
check_known (e ∷ es) =
    if not (is_known_runtime_event_type e.type)
    then error_report "runtime.event_log.type" "runtime event log contains unknown event type"
    else check_known es

-- validate_runtime_event_log_known_types
unfoldable pub validate_runtime_event_log_known_types : EventLog → ValidationReport
validate_runtime_event_log_known_types log = check_known log.events
