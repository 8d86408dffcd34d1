-- ===== src/Sim/Workflow/ArrivalContracts.antt =====
-- src/clc/sim/SimulationRuntimeTick.cpp: runs until a caravan arrives that then fulfil a contract
-- from it.
use city_life_core.Prelude.{ℕ, Bool, false, String, Option, none, some, not, if◌then◌else◌}
use city_life_core.Data.Validation.{error_report}
use city_life_core.Sim.Contracts.Fulfillment.{ContractFulfillmentResult}
use city_life_core.Sim.Runtime.{SimulationRuntime}
use city_life_core.Sim.Runtime.Ticks.{SimulationRuntimeTickRunUntilArrivalResult}
use city_life_core.Sim.Runtime.Arrivals.{run_runtime_until_first_caravan_arrival_by_ticks}
use city_life_core.Sim.Runtime.Days.{
  SimulationRuntimeRunUntilArrivalResult, run_runtime_until_first_caravan_arrival,
}
use city_life_core.Sim.Workflow.Fulfilling.{
  fulfill_first_runtime_contract_for_owned_arrived_caravan_with_reward_and_ledger,
}

-- struct SimulationRuntimeTickArrivalContractResult
pub record SimulationRuntimeTickArrivalContractResult : Type 0 where
  pub arrival : SimulationRuntimeTickRunUntilArrivalResult
  pub fulfillment : ContractFulfillmentResult

-- struct SimulationRuntimeArrivalContractResult
pub record SimulationRuntimeArrivalContractResult : Type 0 where
  pub arrival : SimulationRuntimeRunUntilArrivalResult
  pub fulfillment : ContractFulfillmentResult

-- The fulfilment after a run that reached an arrival or did not.
fulfil_after :
    SimulationRuntime → Bool → String → String → SimulationRuntime × ContractFulfillmentResult
fulfil_after r reached caravan_id expected_faction_id =
    if not reached
    then (
      r,
      record {
        contract_id = "";
        resource_id = "";
        quantity = 0;
        reward_coins = 0;
        is_fulfilled = false;
        validation =
            error_report "simulation.contract.auto_fulfill"
              "no caravan arrival reached before fulfillment";
      },
    )
    else fulfill_first_runtime_contract_for_owned_arrived_caravan_with_reward_and_ledger r
        caravan_id expected_faction_id

then_fulfil :
    String
    → Option (SimulationRuntime × SimulationRuntimeTickRunUntilArrivalResult)
    → Option (SimulationRuntime × SimulationRuntimeTickArrivalContractResult)
unfolding fulfil_after
then_fulfil expected_faction_id none = none
then_fulfil expected_faction_id (some (r, arrival)) =
    let (r', result) =
      fulfil_after r arrival.arrival_reached arrival.arrived_caravan_id expected_faction_id in
    some (r', record { arrival = arrival; fulfillment = result })

-- run_runtime_until_first_caravan_arrival_by_ticks_and_fulfill_contract, on fuel
pub run_runtime_until_first_caravan_arrival_by_ticks_and_fulfill_contract :
    ℕ
    → SimulationRuntime
    → ℕ
    → ℕ
    → String
    → Option (SimulationRuntime × SimulationRuntimeTickArrivalContractResult)
unfolding then_fulfil
run_runtime_until_first_caravan_arrival_by_ticks_and_fulfill_contract fuel r max_ticks step_ticks
      expected_faction_id =
    then_fulfil expected_faction_id
      (run_runtime_until_first_caravan_arrival_by_ticks fuel r max_ticks step_ticks)

-- run_runtime_until_first_caravan_arrival_and_fulfill_contract
pub run_runtime_until_first_caravan_arrival_and_fulfill_contract :
    SimulationRuntime → ℕ → String → SimulationRuntime × SimulationRuntimeArrivalContractResult
unfolding fulfil_after
run_runtime_until_first_caravan_arrival_and_fulfill_contract r max_days expected_faction_id =
    let (r', arrival) = run_runtime_until_first_caravan_arrival r max_days in
    let (r'', result) =
      fulfil_after r' arrival.arrival_reached arrival.arrived_caravan_id expected_faction_id in
    (r'', record { arrival = arrival; fulfillment = result })
