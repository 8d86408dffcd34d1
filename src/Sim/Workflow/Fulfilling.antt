-- ===== src/Sim/Workflow/Fulfilling.antt =====
-- src/clc/sim/SimulationRuntimeWorkflow.cpp: contracts that a runtime's caravans fulfil.
pub mod First
use city_life_core.Prelude.{
  ℕ, Bool, true, false, not, ◌||◌, String, Option, none, some, List, [], ◌∷◌, ltb, if◌then◌else◌,
  ◌<>◌,
}
use city_life_core.Data.Validation.{empty_report, error_report}
use city_life_core.Sim.Caravans.{CaravanState, CaravanFleet, caravan_by_id}
use city_life_core.Sim.Contracts.{ResourceDeliveryContract, ContractCatalog, contract_is_open}
use city_life_core.Sim.Contracts.Fulfillment.{
  ContractFulfillmentResult, ok, fulfill_contract_from_arrived_caravan_with_reward_and_ledger,
  fulfill_contract_from_owned_arrived_caravan_with_reward_and_ledger,
}
use city_life_core.Economy.Ledger.{EconomyLedger}
use city_life_core.Economy.Trade.{Wallet}
use city_life_core.Sim.Runtime.{SimulationRuntime}
use city_life_core.Sim.Storage.{amount}
use city_life_core.Sim.Workflow.{write_caravan, unknown_caravan}

-- missing_caravan_contract_result
abbrev missing_caravan_contract_result : String → String → ContractFulfillmentResult
missing_caravan_contract_result contract_id caravan_id = record {
  contract_id = contract_id;
  resource_id = "";
  quantity = 0;
  reward_coins = 0;
  is_fulfilled = false;
  validation = unknown_caravan caravan_id;
}

-- The runtime with what a fulfilment left.
with_fulfilment :
    SimulationRuntime
    → String
    → ContractCatalog × CaravanState × Wallet × EconomyLedger × ContractFulfillmentResult
    → SimulationRuntime × ContractFulfillmentResult
with_fulfilment r caravan_id (contracts, c, wallet, ledger, result) = (
  record r {
    contracts = contracts;
    caravans = write_caravan r.caravans caravan_id c;
    wallet = wallet;
    ledger = ledger;
  },
  result,
)

-- fulfill_runtime_contract_from_arrived_caravan_with_reward_and_ledger, with the caravan looked up
fulfil_found :
    SimulationRuntime
    → String
    → String
    → Option CaravanState
    → SimulationRuntime × ContractFulfillmentResult
unfolding with_fulfilment
fulfil_found r contract_id caravan_id none =
    (r, missing_caravan_contract_result contract_id caravan_id)
fulfil_found r contract_id caravan_id (some c) = with_fulfilment r caravan_id (
    fulfill_contract_from_arrived_caravan_with_reward_and_ledger r.contracts contract_id c r.wallet
      r.ledger)

-- fulfill_runtime_contract_from_arrived_caravan_with_reward_and_ledger
pub fulfill_runtime_contract_from_arrived_caravan_with_reward_and_ledger :
    SimulationRuntime → String → String → SimulationRuntime × ContractFulfillmentResult
unfolding fulfil_found
fulfill_runtime_contract_from_arrived_caravan_with_reward_and_ledger r contract_id caravan_id =
    fulfil_found r contract_id caravan_id (caravan_by_id r.caravans caravan_id)

-- The call in both functions on owned caravans.
fulfil_owned :
    SimulationRuntime
    → String
    → String
    → CaravanState
    → String
    → SimulationRuntime × ContractFulfillmentResult
unfolding with_fulfilment
fulfil_owned r contract_id caravan_id c faction = with_fulfilment r caravan_id (
    fulfill_contract_from_owned_arrived_caravan_with_reward_and_ledger r.contracts contract_id c
      r.ownership faction r.wallet r.ledger)

fulfil_owned_found :
    SimulationRuntime
    → String
    → String
    → String
    → Option CaravanState
    → SimulationRuntime × ContractFulfillmentResult
unfolding fulfil_owned
fulfil_owned_found r contract_id caravan_id faction none =
    (r, missing_caravan_contract_result contract_id caravan_id)
fulfil_owned_found r contract_id caravan_id faction (some c) =
    fulfil_owned r contract_id caravan_id c faction

-- fulfill_runtime_contract_from_owned_arrived_caravan_with_reward_and_ledger
pub fulfill_runtime_contract_from_owned_arrived_caravan_with_reward_and_ledger :
    SimulationRuntime → String → String → String → SimulationRuntime × ContractFulfillmentResult
unfolding fulfil_owned_found
fulfill_runtime_contract_from_owned_arrived_caravan_with_reward_and_ledger r contract_id caravan_id
      faction =
    fulfil_owned_found r contract_id caravan_id faction (caravan_by_id r.caravans caravan_id)

abbrev no_match : ContractFulfillmentResult
no_match = record {
  contract_id = "";
  resource_id = "";
  quantity = 0;
  reward_coins = 0;
  is_fulfilled = false;
  validation =
      error_report "simulation.contract.auto_fulfill" "no matching open contract for caravan cargo";
}

-- The loop over the contracts, each as it stood in the catalog when the loop began: an attempt that
-- is not ok commits nothing.
try_contracts :
    SimulationRuntime
    → String
    → CaravanState
    → String
    → List ResourceDeliveryContract
    → SimulationRuntime × ContractFulfillmentResult
unfolding with_fulfilment
try_contracts r caravan_id c faction [] = (r, no_match)
try_contracts r caravan_id c faction (k ∷ ks) =
    let attempt =
      fulfill_contract_from_owned_arrived_caravan_with_reward_and_ledger r.contracts k.id c
        r.ownership faction r.wallet r.ledger in
    let (r', result) = with_fulfilment r caravan_id attempt in
    let skipped = not (contract_is_open k) || ltb (amount c.cargo k.resource_id) k.quantity in
    let rest =
      try_contracts (if skipped then r else r') caravan_id (if skipped then c else attempt.1)
        faction ks in
    if skipped then rest else if ok result then (r', result) else rest

first_found :
    SimulationRuntime
    → String
    → String
    → Option CaravanState
    → SimulationRuntime × ContractFulfillmentResult
unfolding try_contracts
first_found r caravan_id faction none = (r, missing_caravan_contract_result "" caravan_id)
first_found r caravan_id faction (some c) =
    try_contracts r caravan_id c faction r.contracts.contracts

-- fulfill_first_runtime_contract_for_owned_arrived_caravan_with_reward_and_ledger
pub fulfill_first_runtime_contract_for_owned_arrived_caravan_with_reward_and_ledger :
    SimulationRuntime → String → String → SimulationRuntime × ContractFulfillmentResult
unfolding first_found
fulfill_first_runtime_contract_for_owned_arrived_caravan_with_reward_and_ledger r caravan_id
      faction =
    first_found r caravan_id faction (caravan_by_id r.caravans caravan_id)
