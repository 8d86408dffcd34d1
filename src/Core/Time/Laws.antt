-- ===== src/Core/Time/Laws.antt =====
-- What saturation means for the clock and for the unit conversions.
use city_life_core.Prelude.{ℕ, ◌+◌, ◌*◌, ◌≤◌, ◌≡◌, min, arith, u64_max}
use city_life_core.Core.Time.{
  GameTime, advance, seconds_to_ticks, minutes_to_ticks, hours_to_ticks, days_to_ticks,
}

pub advance-eq-min :
    (t : GameTime) (n : ℕ) → t.tick ≤ u64_max → (advance t n).tick ≡ min (t.tick + n) u64_max
unfolding advance
advance-eq-min t n h = ground arith

-- From a clock in range, two steps of the clock come to the same tick as one step by their
-- (unbounded) sum; the clock stays in range and never runs backwards.
pub advance-advance :
    (t : GameTime) (m n : ℕ)
    → t.tick ≤ u64_max
    → ((advance (advance t m) n).tick ≡ (advance t (m + n)).tick)
      × (t.tick ≤ (advance t m).tick)
      × ((advance t m).tick ≤ u64_max)
advance-advance t m n h = (
  omega (
    arith,
    advance-eq-min t m h,
    advance-eq-min t (m + n) h,
    advance-eq-min (advance t m) n (omega (arith, advance-eq-min t m h)),
  ),
  omega (arith, advance-eq-min t m h),
  omega (arith, advance-eq-min t m h),
)

pub seconds_to_ticks-eq-min : (n : ℕ) → n ≤ u64_max → seconds_to_ticks n ≡ n
unfolding seconds_to_ticks
seconds_to_ticks-eq-min n h = ground arith

pub days_to_ticks-eq-min : (n : ℕ) → days_to_ticks n ≡ min (n * 86400) u64_max
unfolding days_to_ticks
days_to_ticks-eq-min n = ground arith

pub hours_to_ticks-eq-min : (n : ℕ) → hours_to_ticks n ≡ min (n * 3600) u64_max
unfolding hours_to_ticks
hours_to_ticks-eq-min n = ground arith

pub minutes_to_ticks-eq-min : (n : ℕ) → minutes_to_ticks n ≡ min (n * 60) u64_max
unfolding minutes_to_ticks
minutes_to_ticks-eq-min n = ground arith

-- The unit conversions agree with one another and saturate together: a day is 24 hours, an hour 60
-- minutes, a minute 60 seconds, for every count, and each conversion is the exact product cut off
-- at the largest tick.
pub days-hours-minutes :
    (n : ℕ)
    → (days_to_ticks n ≡ hours_to_ticks (n * 24))
      × (hours_to_ticks n ≡ minutes_to_ticks (n * 60))
      × (days_to_ticks n ≡ min (n * 86400) u64_max)
days-hours-minutes n = (
  omega (arith, days_to_ticks-eq-min n, hours_to_ticks-eq-min (n * 24)),
  omega (arith, hours_to_ticks-eq-min n, minutes_to_ticks-eq-min (n * 60)),
  days_to_ticks-eq-min n,
)
