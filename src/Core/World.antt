-- ===== src/Core/World.antt =====
-- include/clc/core/World.hpp and src/clc/core/World.cpp, with the error codes of Result.hpp.
pub mod History
use city_life_core.Prelude.{
  ℕ, zero, suc, ◌+◌, ◌<◌, ◌≤◌, ◌≡◌, ◌≢◌, String, List, [], ◌∷◌, ◌++◌, length, length-append, arith,
  u64_max, min, ◌==◌, if◌then◌else◌,
}
use city_life_core.Core.Time.{GameTime, advance, make_game_time_at_tick}
use city_life_core.Core.Time.Laws.{advance-eq-min}
use city_life_core.Core.EventLog.{EventLog, Event, empty_log, append, size}

-- enum class ErrorCode
pub data ErrorCode : Type 0 where
  none invalid_argument invalid_state not_found io_error internal_error : ErrorCode

-- struct Error
pub record Error : Type 0 where
  pub code : ErrorCode
  pub message : String

-- Result<void>
pub data Result : Type 0 where
  ok : Result
  err : Error → Result

-- struct WorldConfig
pub record WorldConfig : Type 0 where
  pub name : String
  pub seed : ℕ

-- class World
pub record World : Type 0 where
  pub config : WorldConfig
  pub time : GameTime
  pub event_log : EventLog

-- World::World
pub create : WorldConfig → World
unfolding append make_game_time_at_tick
create config = record {
  config = config;
  time = make_game_time_at_tick 0;
  event_log = (append empty_log 0 "world.created" config.name).0;
}

-- World::advance after its guard.
move : World → ℕ → World
move w ticks =
    let time = advance w.time ticks in
    record w { time = time; event_log = (append w.event_log time.tick "world.advanced" "").0 }

-- World::advance
pub advance_world : World → ℕ → World × Result
advance_world w ticks =
    if ticks == 0
    then (
      w,
      err (record {
        code = ErrorCode.invalid_argument;
        message = "World::advance requires ticks > 0";
      }),
    )
    else (move w ticks, ok)

-- The calls of a host, in order.
pub advance_all : World → List ℕ → World
advance_all w [] = w
advance_all w (n ∷ ns) = advance_all (advance_world w n).0 ns
