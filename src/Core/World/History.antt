-- ===== src/Core/World/History.antt =====
-- The world's log tells the history of its clock.
use city_life_core.Prelude.{
  ℕ, ◌+◌, ◌<◌, ◌≤◌, ◌≡◌, List, [], ◌∷◌, ◌++◌, length, length-append, arith, u64_max, inl, inr,
  Bool-cases, ◌==◌,
}
use city_life_core.Core.Time.{advance}
use city_life_core.Core.Time.Laws.{advance-eq-min}
use city_life_core.Core.EventLog.{Event, append}
use city_life_core.Core.World.{World, WorldConfig, create, move, advance_world, advance_all}

-- Ids count up by one from `id`, ticks never fall, from `lo` up to `hi`.
abbrev pub IsHistory : ℕ → ℕ → ℕ → List Event → Type 0
IsHistory id lo hi [] = lo ≤ hi
IsHistory id lo hi (e ∷ es) = (e.id ≡ id) × (lo ≤ e.tick) × IsHistory (id + 1) e.tick hi es

pub IsHistory-append :
    (id lo hi : ℕ) (es : List Event) (e : Event)
    → IsHistory id lo hi es
    → hi ≤ e.tick
    → e.id ≡ id + length es
    → IsHistory id lo e.tick (es ++ e ∷ [])
IsHistory-append id lo hi [] e h later num = (omega arith, omega arith, omega arith)
IsHistory-append id lo hi (x ∷ es) e (same, above, rest) later num =
    (same, above, IsHistory-append (id + 1) x.tick hi es e rest later (omega arith))

pub record IsValid (w : World) : Type 0 where
  pub history : IsHistory 1 0 w.time.tick w.event_log.events
  pub numbered : w.event_log.next_id ≡ length w.event_log.events + 1
  pub in_range : w.time.tick ≤ u64_max

pub create-IsValid : (c : WorldConfig) → IsValid (create c)
unfolding create
create-IsValid c = omega arith

length-move :
    (w : World) (n : ℕ) → length (move w n).event_log.events ≡ length w.event_log.events + 1
unfolding move append
length-move w n = omega (arith, length-append {0} w.event_log.events)

length-advance_world :
    (w : World) (n : ℕ)
    → length (advance_world w n).0.event_log.events ≤ length w.event_log.events + 1
unfolding advance_world
length-advance_world w n = ground (arith, length-move w n)

move-IsValid :
    (w : World) (n : ℕ) → length w.event_log.events + 1 < u64_max → IsValid w → IsValid (move w n)
unfolding move append
move-IsValid w n room v =
    let moved = advance-eq-min w.time n v.in_range in
    record {
      history =
          IsHistory-append 1 0 w.time.tick w.event_log.events
            (record {
              id = w.event_log.next_id;
              tick = (advance w.time n).tick;
              type = "world.advanced";
              payload = "";
            })
            v.history (omega (arith, moved)) (omega (arith, v.numbered));
      numbered = omega (arith, v.numbered, length-append {0} w.event_log.events);
      in_range = omega (arith, moved);
    }

advance_world-IsValid :
    (w : World) (n : ℕ)
    → length w.event_log.events + 1 < u64_max
    → IsValid w
    → IsValid (advance_world w n).0
unfolding advance_world
advance_world-IsValid w n room v = elim (Bool-cases (n == 0)) [
  | inl e ↦ rw e v
  | inr e ↦ rw e (move-IsValid w n room v)
]

-- From a valid world, whatever the host asks for, the log is the history of the clock: the ids
-- count up by one from 1, the ticks never fall and end at or before the clock, and the clock stays
-- in range; as long as the ids do not run out.
pub advance_all-IsValid :
    (w : World) (ns : List ℕ)
    → length w.event_log.events + length ns < u64_max
    → IsValid w
    → IsValid (advance_all w ns)
unfolding advance_all
advance_all-IsValid w [] room v = v
advance_all-IsValid w (n ∷ ns) room v =
    advance_all-IsValid (advance_world w n).0 ns (omega (arith, length-advance_world w n))
      (advance_world-IsValid w n (omega arith) v)
