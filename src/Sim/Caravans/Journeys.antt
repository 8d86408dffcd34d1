-- ===== src/Sim/Caravans/Journeys.antt =====
-- The way of a caravan: it comes nearer by exactly the time that passes.
use city_life_core.Prelude.{ℕ, ◌+◌, ◌-◌, ◌/◌, ◌%◌, ◌≤◌, ◌≡◌, ◌≢◌, false, ◌&&◌, ltb, leb, arith, ap}
use city_life_core.Core.Time.Laws.{days_to_ticks-eq-min}
use city_life_core.Data.Validation.{ok, ok-error_if}
use city_life_core.Sim.Caravans.{
  CaravanState, caravan_ticks_remaining, caravan_arrived, advance_caravan_ticks, validate_caravan,
}

pub ticks_remaining-advance :
    (c : CaravanState) (n : ℕ)
    → caravan_ticks_remaining (advance_caravan_ticks c n).0 ≡ caravan_ticks_remaining c - n
unfolding advance_caravan_ticks caravan_ticks_remaining
ticks_remaining-advance c n = ground arith

arrived-advance :
    (c : CaravanState) (n : ℕ)
    → caravan_arrived (advance_caravan_ticks c n).0 ≡ leb (caravan_ticks_remaining c) n
unfolding caravan_arrived
arrived-advance c n = ground (arith, ticks_remaining-advance c n)

-- A caravan arrives in a step exactly when it was under way and the step is enough.
pub just_arrived-advance :
    (c : CaravanState) (n : ℕ)
    → let r = (advance_caravan_ticks c n).1 in
      (r.arrived && ltb 0 r.ticks_elapsed)
      ≡ (ltb 0 (caravan_ticks_remaining c) && leb (caravan_ticks_remaining c) n)
unfolding advance_caravan_ticks
just_arrived-advance c n = ground arith

-- A caravan comes nearer by exactly the ticks that pass and stops when it arrives, so that how the
-- time is cut into steps changes neither the caravan nor the ticks that it travels in all; it has
-- arrived exactly when the time was enough.
pub advance_caravan_ticks-steps :
    (c : CaravanState) (m n : ℕ)
    → let (c1, r1) = advance_caravan_ticks c m in
      let (c2, r2) = advance_caravan_ticks c1 n in
      let (c3, r3) = advance_caravan_ticks c (m + n) in
      (c2 ≡ c3)
      × (r1.ticks_elapsed + r2.ticks_elapsed ≡ r3.ticks_elapsed)
      × (r3.arrived ≡ leb (caravan_ticks_remaining c) (m + n))
      × (caravan_arrived c3 ≡ r3.arrived)
unfolding advance_caravan_ticks
advance_caravan_ticks-steps c m n =
    let first = ticks_remaining-advance c m in
    (
      ap (λ x. record c { days_remaining = x / 86400; ticks_remaining = x }) (omega (arith, first)),
      omega (arith, first),
      ground arith,
      ground (arith, arrived-advance c (m + n)),
    )

-- A caravan under way, with a whole day or more to go and no whole number of days, does not pass
-- validate_caravan any more: its days and its ticks are then not equivalent.
pub advance_caravan_ticks-invalid :
    (c : CaravanState) (n : ℕ)
    → 86400 ≤ caravan_ticks_remaining c - n
    → (caravan_ticks_remaining c - n) % 86400 ≢ 0
    → ok (validate_caravan (advance_caravan_ticks c n).0) ≡ false
unfolding validate_caravan advance_caravan_ticks
advance_caravan_ticks-invalid c n h k =
    let days = days_to_ticks-eq-min ((caravan_ticks_remaining c - n) / 86400) in
    simp ok-error_if (ground (arith, days))
