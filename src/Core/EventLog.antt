-- ===== src/Core/EventLog.antt =====
-- include/clc/core/EventLog.hpp and src/clc/core/EventLog.cpp.
use city_life_core.Prelude.{ℕ, ◌+◌, String, List, [], ◌∷◌, ◌++◌, length, wrap64}

-- struct EventId, struct Event
pub record Event : Type 0 where
  pub id : ℕ
  pub tick : ℕ
  pub type : String
  pub payload : String

-- class EventLog
pub record EventLog : Type 0 where
  pub events : List Event
  pub next_id : ℕ

abbrev pub empty_log : EventLog
empty_log = record { events = []; next_id = 1 }

-- The log after the event, and the event's id. `next_id_++` wraps around.
unfoldable pub append : EventLog → ℕ → String → String → EventLog × ℕ
append log tick type payload = (
  record {
    events =
        log.events ++ record { id = log.next_id; tick = tick; type = type; payload = payload } ∷ [];
    next_id = wrap64 (log.next_id + 1);
  },
  log.next_id,
)

abbrev pub size : EventLog → ℕ
size log = length log.events
