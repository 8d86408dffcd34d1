-- ===== src/Tests/Runtime.antt =====
-- Runtimes and their workflows at work.
use city_life_core.Prelude.{
  ℕ, ◌≡◌, ◌≤◌, some, Option, String, [], ◌∷◌, arith, u64_max, suc, none, ap, sym, ◌*◌,
}
use city_life_core.Core.EventLog.{EventLog, empty_log, append}
use city_life_core.Sim.Events.{append_runtime_run_events}
use city_life_core.Sim.Events.Logs.{
  validate_runtime_event_log_tick_order, validate_runtime_event_log_known_types, check_order,
  check_known, first_tick_of, last_tick_of, is_known_runtime_event_type,
}
use city_life_core.Sim.Events.Order.{IsSound, run_runtime_days-IsSound}
use city_life_core.Data.Validation.{ok-empty}
use city_life_core.Prelude.UnorderedMap.{find}
use city_life_core.Data.Registry.{empty_registry, ResourceDefinition}
use city_life_core.Sim.Storage.{amount}
use city_life_core.Sim.Settlement.{SettlementState}
use city_life_core.Sim.Caravans.{CaravanState, caravan_by_id}
use city_life_core.Sim.Contracts.{«open», ResourceDeliveryContract}
use city_life_core.Sim.Engine.{new_engine}
use city_life_core.Sim.Engine.Days.{run_days}
use city_life_core.Sim.Runtime.{SimulationRuntime, new_runtime}
use city_life_core.Sim.Runtime.Ticks.{
  advance_runtime_ticks, run_runtime_ticks, SimulationRuntimeTickRunUntilArrivalResult,
}
use city_life_core.Sim.Runtime.Ticks.Steps.{runtime_of, run_runtime_ticks-once}
use city_life_core.Sim.Runtime.Arrivals.{run_runtime_until_first_caravan_arrival_by_ticks}
use city_life_core.Sim.Runtime.Arrivals.Progress.{any_due, run_until-arrival}
use city_life_core.Sim.Runtime.Days.{run_runtime_days}
use city_life_core.Sim.Runtime.Days.Course.{run_runtime_days-splits}
use city_life_core.Sim.Workflow.{
  load_runtime_caravan_at_origin, unload_runtime_caravan_at_destination,
}
use city_life_core.Sim.Workflow.Cargo.{in_runtime, cargo-conserved}
use city_life_core.Sim.Workflow.Delivery.{deliver_runtime_arrived_caravan_cargo_to_destination}
use city_life_core.Sim.Workflow.Delivery.Outcome.{Brings, delivery-Brings}
use city_life_core.Sim.Workflow.Fulfilling.{
  fulfill_first_runtime_contract_for_owned_arrived_caravan_with_reward_and_ledger,
}
use city_life_core.Sim.Workflow.Fulfilling.First.{Outcome, fulfill_first-Outcome}

abbrev pub salt : ResourceDefinition
salt = record { id = "salt"; display_name = "Salt"; category = "goods"; base_value = 9 }

abbrev pub harbor : SettlementState
harbor = record {
  id = "harbor";
  display_name = "Harbor";
  population = 30;
  storage = record { entries = ("salt", 20) ∷ [] };
  buildings = [];
  tick_remainders = [];
}

-- A caravan to the harbor with salt, on its way for so many ticks more.
abbrev pub salt_caravan : String → ℕ → CaravanState
salt_caravan id ticks = record {
  id = id;
  display_name = "Salt caravan";
  route_id = "coast";
  origin_settlement_id = "harbor";
  destination_settlement_id = "harbor_town";
  total_travel_days = 0;
  days_remaining = 0;
  total_travel_ticks = 500;
  ticks_remaining = ticks;
  cargo = record { entries = ("salt", 7) ∷ [] };
}

abbrev pub salt_contract : ResourceDeliveryContract
salt_contract = record {
  id = "c1";
  display_name = "Salt for the town";
  issuer_faction_id = "crown";
  receiver_faction_id = "guild";
  resource_id = "salt";
  quantity = 5;
  reward_coins = 90;
  due_day = 0;
  due_ticks = 1000000;
  status = «open»;
}

-- A caravan that has arrived and one with 120 ticks to go.
abbrev pub coast : SimulationRuntime
coast = record (new_runtime (record empty_registry { resources = ("salt", salt) ∷ [] })) {
  engine = record (new_engine (record empty_registry { resources = ("salt", salt) ∷ [] })) {
    settlements = harbor ∷ record harbor { id = "harbor_town" } ∷ [];
  };
  caravans = record { caravans = salt_caravan "first" 0 ∷ salt_caravan "second" 120 ∷ [] };
  ownership = record {
    settlements = [];
    caravans = record { caravan_id = "first"; faction_id = "guild" } ∷ [];
  };
  contracts = record { contracts = salt_contract ∷ [] };
}

run_runtime_ticks-once_example :
    runtime_of (run_runtime_ticks 100 coast 100 30) ≡ some (advance_runtime_ticks coast 100).0
run_runtime_ticks-once_example =
    run_runtime_ticks-once 100 coast 100 30 (omega arith) (omega arith) (omega arith) (omega arith)

run_until-arrival_example :
    (x : SimulationRuntime × SimulationRuntimeTickRunUntilArrivalResult)
    × (run_runtime_until_first_caravan_arrival_by_ticks 200 coast 200 50 ≡ some x)
    × (x.1.arrival_reached ≡ any_due 200 coast.caravans.caravans)
    × (x.1.arrival_elapsed_ticks ≤ 200)
run_until-arrival_example = run_until-arrival 200 coast 200 50 (omega arith) (omega arith)

run_runtime_days-splits_example :
    (run_runtime_days coast (suc 1)).0 ≡ record (advance_runtime_ticks coast (suc 1 * 86400)).0 {
      engine = (run_days coast.engine (suc 1)).0;
    }
run_runtime_days-splits_example = run_runtime_days-splits 1 coast (omega arith)

fulfill_first-Outcome_example : Outcome coast "first" "guild" (
    fulfill_first_runtime_contract_for_owned_arrived_caravan_with_reward_and_ledger coast "first"
      "guild")
fulfill_first-Outcome_example = fulfill_first-Outcome coast "first" "guild" (omega arith)

delivery-Brings_example :
    Brings coast "first" (deliver_runtime_arrived_caravan_cargo_to_destination coast "first")
delivery-Brings_example = delivery-Brings coast "first"

salt_amount : amount (salt_caravan "first" 0).cargo "salt" ≤ u64_max
unfolding amount find
salt_amount = omega arith

abbrev or_first : Option CaravanState → CaravanState
or_first none = salt_caravan "first" 0
or_first (some c) = c

little_salt :
    (c : CaravanState)
    → caravan_by_id coast.caravans "first" ≡ some c
    → amount c.cargo "salt" ≤ u64_max
unfolding caravan_by_id
little_salt c found =
    let same : salt_caravan "first" 0 ≡ c = ap or_first found in
    let carried : amount (salt_caravan "first" 0).cargo "salt" ≤ u64_max = salt_amount in
    rw (sym same) carried

cargo-conserved_example :
    (in_runtime (load_runtime_caravan_at_origin coast "first" "salt" 4).0 "salt"
      ≡ in_runtime coast "salt")
    × (in_runtime (unload_runtime_caravan_at_destination coast "first" "salt" 4).0 "salt"
        ≡ in_runtime coast "salt")
cargo-conserved_example = cargo-conserved coast "first" "salt" "salt" 4 (omega arith) little_salt

-- A log from before the first day.
abbrev early_log : EventLog
early_log = (append empty_log 0 "runtime.contract.fulfilled" "c0").0

early_log-IsSound : IsSound 0 early_log
unfolding append validate_runtime_event_log_tick_order validate_runtime_event_log_known_types
    check_order check_known first_tick_of last_tick_of is_known_runtime_event_type
early_log-IsSound = (ok-empty, ok-empty, omega arith)

run_runtime_days-IsSound_example :
    let (r', run) = run_runtime_days coast 2 in
    IsSound r'.time.tick (append_runtime_run_events early_log run).0
run_runtime_days-IsSound_example =
    run_runtime_days-IsSound coast 2 early_log (omega arith) early_log-IsSound
