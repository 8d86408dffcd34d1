-- ===== src/Core/Time.antt =====
-- include/clc/core/Time.hpp and src/clc/core/Time.cpp. A tick is a `uint64_t`: a number with its
-- range stated where it matters.
pub mod Laws
use city_life_core.Prelude.{ℕ, ◌+◌, ◌-◌, ◌*◌, ◌/◌, Bool, ◌||◌, u64_max, leb, ◌==◌, if◌then◌else◌}

-- class GameTime
pub record GameTime : Type 0 where
  pub tick : ℕ

abbrev pub current_tick : GameTime → ℕ
current_tick t = t.tick

unfoldable pub can_advance : GameTime → ℕ → Bool
can_advance t ticks = leb ticks (u64_max - t.tick)

unfoldable pub advance : GameTime → ℕ → GameTime
unfolding can_advance
advance t ticks =
    if can_advance t ticks then record t { tick = t.tick + ticks } else record t { tick = u64_max }

abbrev pub ticks_per_second : ℕ
ticks_per_second = 1

abbrev pub ticks_per_minute : ℕ
ticks_per_minute = 60 * ticks_per_second

abbrev pub ticks_per_hour : ℕ
ticks_per_hour = 60 * ticks_per_minute

abbrev pub ticks_per_day : ℕ
ticks_per_day = 24 * ticks_per_hour

unfoldable pub can_multiply_ticks : ℕ → ℕ → Bool
can_multiply_ticks value multiplier = multiplier == 0 || leb value (u64_max / multiplier)

unfoldable pub saturating_multiply_ticks : ℕ → ℕ → ℕ
unfolding can_multiply_ticks
saturating_multiply_ticks value multiplier =
    if can_multiply_ticks value multiplier then value * multiplier else u64_max

unfoldable pub seconds_to_ticks : ℕ → ℕ
unfolding saturating_multiply_ticks
seconds_to_ticks seconds = saturating_multiply_ticks seconds ticks_per_second

unfoldable pub minutes_to_ticks : ℕ → ℕ
unfolding saturating_multiply_ticks
minutes_to_ticks minutes = saturating_multiply_ticks minutes ticks_per_minute

unfoldable pub hours_to_ticks : ℕ → ℕ
unfolding saturating_multiply_ticks
hours_to_ticks hours = saturating_multiply_ticks hours ticks_per_hour

unfoldable pub days_to_ticks : ℕ → ℕ
unfolding saturating_multiply_ticks
days_to_ticks days = saturating_multiply_ticks days ticks_per_day

unfoldable pub make_game_time_at_tick : ℕ → GameTime
make_game_time_at_tick tick = record { tick = tick }
