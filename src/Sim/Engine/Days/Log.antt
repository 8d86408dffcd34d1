-- ===== src/Sim/Engine/Days/Log.antt =====
-- The log of an engine's days.
use city_life_core.Prelude.{
  ℕ, ◌+◌, ◌≡◌, refl, sym, ap, ◌∙◌, String, List, [], ◌∷◌, ◌++◌, map, append-nil, append_assoc,
  wrap64, ◌<>◌,
}
use city_life_core.Data.Registry.{DataRegistry}
use city_life_core.Sim.Settlement.{SettlementState, advance_settlement_day}
use city_life_core.Sim.Settlement.Identity.{advance_settlement_day-SameTown}
use city_life_core.Sim.Engine.{SimulationEngine, SimulationEvent}
use city_life_core.Sim.Engine.Days.{
  SimulationDayReport, event_at, note_settlement, start_report, advance_settlements, advance_day,
  no_market,
}

-- The event of a settlement's day.
abbrev pub advanced : ℕ → String → SimulationEvent
advanced day id = event_at day "simulation.settlement.advanced" ("advanced settlement: " <> id)

abbrev pub ids : List SettlementState → List String
ids ss = map (λ s. s.id) ss

pub ids-advance_settlements :
    (ss : List SettlementState) (registry : DataRegistry) (r : SimulationDayReport)
    → ids (advance_settlements registry ss r).0 ≡ ids ss
unfolding advance_settlements
ids-advance_settlements [] registry r = refl
ids-advance_settlements (s ∷ ss) registry r =
    let (same, _, _, _) = advance_settlement_day-SameTown s registry in
    let (s', tick) = advance_settlement_day s registry in
    let next = note_settlement registry r s' tick in
    ap (λ x. x ∷ ids (advance_settlements registry ss next).0) same
    ∙ ap (λ xs. s.id ∷ xs) (ids-advance_settlements ss registry next)

day-advance_settlements :
    (ss : List SettlementState) (registry : DataRegistry) (r : SimulationDayReport)
    → (advance_settlements registry ss r).1.day ≡ r.day
unfolding advance_settlements note_settlement
day-advance_settlements [] registry r = refl
day-advance_settlements (s ∷ ss) registry r = day-advance_settlements ss registry _

events-advance_settlements :
    (ss : List SettlementState) (registry : DataRegistry) (r : SimulationDayReport)
    → (advance_settlements registry ss r).1.events ≡ r.events ++ map (advanced r.day) (ids ss)
unfolding advance_settlements note_settlement
events-advance_settlements [] registry r = sym (append-nil r.events)
events-advance_settlements (s ∷ ss) registry r =
    let (same, _, _, _) = advance_settlement_day-SameTown s registry in
    events-advance_settlements ss registry _ ∙ append_assoc r.events _ _ ∙ rw same refl

-- The events of one day of an engine with settlements of these ids.
abbrev pub day_events : ℕ → List String → List SimulationEvent
day_events day is =
    event_at day "simulation.day.started" "simulation day started" ∷ map (advanced day) is
    ++ event_at day "simulation.day.completed" "simulation day completed" ∷ []

-- A day counts on by one, keeps every settlement in its place, and logs that it started, that each
-- settlement advanced, in order, and that it completed: these are the events of its report, and
-- they come after the events of the engine.
pub advance_day-log :
    (e : SimulationEngine)
    → let (e', r) = advance_day e in
      (e'.current_day ≡ wrap64 (e.current_day + 1))
      × (r.day ≡ e'.current_day)
      × (ids e'.settlements ≡ ids e.settlements)
      × (r.events ≡ day_events e'.current_day (ids e.settlements))
      × (e'.events ≡ e.events ++ r.events)
unfolding advance_day start_report
advance_day-log e =
    let start = start_report (wrap64 (e.current_day + 1)) no_market in
    let same_day = day-advance_settlements e.settlements e.registry start in
    let logged = events-advance_settlements e.settlements e.registry start in
    (
      refl,
      same_day,
      ids-advance_settlements e.settlements e.registry start,
      rw (logged, same_day) refl,
      refl,
    )
