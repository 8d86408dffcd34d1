-- ===== src/Sim/Settlement/Ticks.antt =====
-- What the report of some ticks says of the settlement's food and of its buildings.
use city_life_core.Prelude.{
  count_if, ◌/◌, ◌*◌, ◌||◌, true, u64_max, Bool, if◌then◌else◌, ℕ, ◌+◌, ◌≤◌, ◌≡◌, Option, none,
  some, List, min, ◌==◌,
}
use city_life_core.Data.Registry.{DataRegistry, BuildingDefinition, building}
use city_life_core.Sim.Settlement.{
  numerator_at, SettlementState, SettlementTickReport, BuildingInstance,
}

-- A report goes on: the food and the ticks stand, and at most `n` more buildings are counted.
abbrev GoesOn : SettlementTickReport → SettlementTickReport → ℕ → Type 0
GoesOn r' r n =
    (r'.consumed_food ≡ r.consumed_food)
    × (r'.elapsed_ticks ≡ r.elapsed_ticks)
    × (r'.active_buildings + r'.skipped_buildings ≤ r.active_buildings + r.skipped_buildings + n)

-- A building cannot work where its definition is unknown or nobody is to work in it.
abbrev pub cannot_work : BuildingInstance → Option BuildingDefinition → Bool
cannot_work b none = true
cannot_work b (some d) = b.assigned_workers == 0 || d.worker_slots == 0

abbrev skipped_for : Bool → ℕ
skipped_for idle = if idle then 1 else 0

-- How many of the buildings cannot work.
abbrev pub idle_buildings : DataRegistry → List BuildingInstance → ℕ
idle_buildings registry bs = count_if (λ b. cannot_work b (building registry b.definition_id)) bs

-- The grain that the population needs for some ticks: a unit a day for every ten people or part of
-- ten, in whole units, with what was left over from the ticks before. Products and sums are cut off
-- at the largest 64-bit number.
abbrev pub grain_needed : SettlementState → ℕ → ℕ
grain_needed s ticks =
    if s.population == 0 || ticks == 0
    then 0
    else min
        (numerator_at s.tick_remainders "food:grain"
          + min ((s.population + 9) / 10 * ticks) u64_max)
        u64_max
      / 86400
