-- ===== src/Sim/Contracts/Fulfillment.antt =====
-- src/clc/sim/Contracts.cpp and src/clc/sim/ContractRewards.cpp: the fulfilment of a contract from
-- a storage or from a caravan that has arrived, with a reward and an entry in the ledger.
pub mod Delivery
pub mod Authority
use city_life_core.Prelude.{
  ℕ, ◌+◌, ◌-◌, ◌≡◌, Bool, true, false, not, ◌&&◌, String, Option, none, some, u64_max, ltb,
  if◌then◌else◌, is_empty, str_eq, ◌<>◌,
}
use city_life_core.Data.Validation.{ValidationReport, empty_report, add_error, error_report}
use city_life_core.Data.Validation
use city_life_core.Sim.Storage.{ResourceStorage, try_remove}
use city_life_core.Sim.Caravans.{CaravanState, caravan_arrived}
use city_life_core.Sim.Ownership.{OwnershipCatalog, caravan_owner}
use city_life_core.Economy.Trade.{Wallet}
use city_life_core.Economy.Ledger.{EconomyLedger, record_contract_reward}
use city_life_core.Sim.Contracts.{
  ContractStatus, fulfilled, ResourceDeliveryContract, ContractCatalog, contract_is_open,
  contract_by_id, set_status,
}

-- struct ContractFulfillmentResult
pub record ContractFulfillmentResult : Type 0 where
  pub contract_id : String
  pub resource_id : String
  pub quantity : ℕ
  pub reward_coins : ℕ
  pub is_fulfilled : Bool
  pub validation : ValidationReport

-- ContractFulfillmentResult::ok
abbrev pub ok : ContractFulfillmentResult → Bool
ok r = r.is_fulfilled && Validation.ok r.validation

-- A result with nothing but an id and an error.
abbrev refused : String → String → String → ContractFulfillmentResult
refused id path message = record {
  contract_id = id;
  resource_id = "";
  quantity = 0;
  reward_coins = 0;
  is_fulfilled = false;
  validation = error_report path message;
}

-- A result with the terms of the contract.
abbrev result_for : ResourceDeliveryContract → Bool → ValidationReport → ContractFulfillmentResult
result_for c done report = record {
  contract_id = c.id;
  resource_id = c.resource_id;
  quantity = c.quantity;
  reward_coins = c.reward_coins;
  is_fulfilled = done;
  validation = report;
}

-- fulfill_contract_from_storage, with the contract looked up.
deliver :
    ContractCatalog
    → String
    → ResourceStorage
    → Option ResourceDeliveryContract
    → ContractCatalog × ResourceStorage × ContractFulfillmentResult
deliver catalog id storage none =
    (catalog, storage, refused id ("simulation.contract." <> id) "unknown contract")
deliver catalog id storage (some c) =
    let (storage', removed) = try_remove storage c.resource_id c.quantity in
    if not (contract_is_open c)
    then (
      catalog,
      storage,
      result_for c false
          (error_report ("simulation.contract." <> c.id) "fulfillment requires an open contract"),
    )
    else if not removed
    then (
      catalog,
      storage,
      result_for c false (
          error_report ("simulation.contract." <> c.id)
            "delivered storage does not contain required resources"),
    )
    else (set_status catalog id fulfilled, storage', result_for c true empty_report)

-- fulfill_contract_from_storage
pub fulfill_contract_from_storage :
    ContractCatalog
    → String
    → ResourceStorage
    → ContractCatalog × ResourceStorage × ContractFulfillmentResult
unfolding deliver
fulfill_contract_from_storage catalog id storage =
    if is_empty id
    then (catalog, storage, refused "" "simulation.contract" "contract_id must not be empty")
    else deliver catalog id storage (contract_by_id catalog id)

-- The end of fulfill_contract_from_storage_with_reward.
pay :
    Wallet
    → ContractCatalog × ResourceStorage × ContractFulfillmentResult
    → ContractCatalog × ResourceStorage × Wallet × ContractFulfillmentResult
pay wallet (catalog, storage, result) = (
  catalog,
  storage,
  if ok result then record { coins = wallet.coins + result.reward_coins } else wallet,
  result,
)

-- fulfill_contract_from_storage_with_reward, with the contract looked up.
deliver_with_reward :
    ContractCatalog
    → String
    → ResourceStorage
    → Wallet
    → Option ResourceDeliveryContract
    → ContractCatalog × ResourceStorage × Wallet × ContractFulfillmentResult
unfolding pay
deliver_with_reward catalog id storage wallet none =
    (catalog, storage, wallet, refused id ("simulation.contract." <> id) "unknown contract")
deliver_with_reward catalog id storage wallet (some c) =
    if not (contract_is_open c)
    then (
      catalog,
      storage,
      wallet,
      result_for c false
          (error_report ("simulation.contract." <> c.id) "fulfillment requires an open contract"),
    )
    else if ltb (u64_max - wallet.coins) c.reward_coins
    then (
      catalog,
      storage,
      wallet,
      result_for c false (error_report ("simulation.contract." <> c.id) "reward wallet overflow"),
    )
    else pay wallet (fulfill_contract_from_storage catalog id storage)

-- fulfill_contract_from_storage_with_reward
pub fulfill_contract_from_storage_with_reward :
    ContractCatalog
    → String
    → ResourceStorage
    → Wallet
    → ContractCatalog × ResourceStorage × Wallet × ContractFulfillmentResult
unfolding deliver_with_reward
fulfill_contract_from_storage_with_reward catalog id storage wallet =
    if is_empty id
    then (
      catalog,
      storage,
      wallet,
      refused "" "simulation.contract" "contract_id must not be empty",
    )
    else deliver_with_reward catalog id storage wallet (contract_by_id catalog id)

-- fulfill_contract_from_storage_with_reward_and_ledger: everything is done on copies, which are
-- committed where all went well.
pub fulfill_contract_from_storage_with_reward_and_ledger :
    ContractCatalog
    → String
    → ResourceStorage
    → Wallet
    → EconomyLedger
    → ContractCatalog × ResourceStorage × Wallet × EconomyLedger × ContractFulfillmentResult
fulfill_contract_from_storage_with_reward_and_ledger catalog id storage wallet ledger =
    let (catalog_copy, storage_copy, wallet_copy, result) =
      fulfill_contract_from_storage_with_reward catalog id storage wallet in
    let (ledger_copy, recorded) =
      record_contract_reward ledger result.contract_id result.resource_id result.quantity
        result.reward_coins "contract reward payout" in
    if not (ok result)
    then (catalog, storage, wallet, ledger, result)
    else if not recorded
    then (
      catalog,
      storage,
      wallet,
      ledger,
      record result {
        validation =
            add_error result.validation ("simulation.contract." <> result.contract_id)
              "failed to record contract reward ledger entry";
      },
    )
    else (catalog_copy, storage_copy, wallet_copy, ledger_copy, result)

abbrev not_arrived : String → ContractFulfillmentResult
not_arrived id =
    refused id ("simulation.contract." <> id) "caravan must arrive before contract fulfillment"

-- fulfill_contract_from_arrived_caravan
pub fulfill_contract_from_arrived_caravan :
    ContractCatalog
    → String
    → CaravanState
    → ContractCatalog × CaravanState × ContractFulfillmentResult
fulfill_contract_from_arrived_caravan catalog id caravan =
    let (catalog', cargo, result) = fulfill_contract_from_storage catalog id caravan.cargo in
    if not (caravan_arrived caravan)
    then (catalog, caravan, not_arrived id)
    else (catalog', record caravan { cargo = cargo }, result)

-- fulfill_contract_from_arrived_caravan_with_reward
pub fulfill_contract_from_arrived_caravan_with_reward :
    ContractCatalog
    → String
    → CaravanState
    → Wallet
    → ContractCatalog × CaravanState × Wallet × ContractFulfillmentResult
fulfill_contract_from_arrived_caravan_with_reward catalog id caravan wallet =
    let (catalog', cargo, wallet', result) =
      fulfill_contract_from_storage_with_reward catalog id caravan.cargo wallet in
    if not (caravan_arrived caravan)
    then (catalog, caravan, wallet, not_arrived id)
    else (catalog', record caravan { cargo = cargo }, wallet', result)

-- fulfill_contract_from_arrived_caravan_with_reward_and_ledger
pub fulfill_contract_from_arrived_caravan_with_reward_and_ledger :
    ContractCatalog
    → String
    → CaravanState
    → Wallet
    → EconomyLedger
    → ContractCatalog × CaravanState × Wallet × EconomyLedger × ContractFulfillmentResult
fulfill_contract_from_arrived_caravan_with_reward_and_ledger catalog id caravan wallet ledger =
    let (catalog', cargo, wallet', ledger', result) =
      fulfill_contract_from_storage_with_reward_and_ledger catalog id caravan.cargo wallet ledger in
    if not (caravan_arrived caravan)
    then (catalog, caravan, wallet, ledger, not_arrived id)
    else (catalog', record caravan { cargo = cargo }, wallet', ledger', result)

-- The checks of the owner that the three functions on owned caravans share, in their order: the
-- refusal, or none where they pass.
owner_refusal : String → CaravanState → OwnershipCatalog → String → Option ContractFulfillmentResult
owner_refusal id caravan ownership expected_faction_id =
    let owner = caravan_owner ownership caravan.id in
    let path = "simulation.caravan." <> caravan.id <> ".owner" in
    if is_empty expected_faction_id
    then some (refused id ("simulation.contract." <> id) "expected_faction_id must not be empty")
    else if is_empty owner
    then some (refused id path "caravan owner is not assigned")
    else if not (str_eq owner expected_faction_id)
    then some (refused id path "caravan owner does not match expected faction")
    else none

-- fulfill_contract_from_owned_arrived_caravan
pub fulfill_contract_from_owned_arrived_caravan :
    ContractCatalog
    → String
    → CaravanState
    → OwnershipCatalog
    → String
    → ContractCatalog × CaravanState × ContractFulfillmentResult
fulfill_contract_from_owned_arrived_caravan catalog id caravan ownership faction =
    elim (owner_refusal id caravan ownership faction) [
      | some refusal ↦ (catalog, caravan, refusal)
      | none ↦ fulfill_contract_from_arrived_caravan catalog id caravan
    ]

-- fulfill_contract_from_owned_arrived_caravan_with_reward
pub fulfill_contract_from_owned_arrived_caravan_with_reward :
    ContractCatalog
    → String
    → CaravanState
    → OwnershipCatalog
    → String
    → Wallet
    → ContractCatalog × CaravanState × Wallet × ContractFulfillmentResult
fulfill_contract_from_owned_arrived_caravan_with_reward catalog id caravan ownership faction
      wallet =
    elim (owner_refusal id caravan ownership faction) [
      | some refusal ↦ (catalog, caravan, wallet, refusal)
      | none ↦ fulfill_contract_from_arrived_caravan_with_reward catalog id caravan wallet
    ]

-- The end of the next function, with the checks of the owner done.
fulfill_owned :
    ContractCatalog
    → String
    → CaravanState
    → Wallet
    → EconomyLedger
    → Option ContractFulfillmentResult
    → ContractCatalog × CaravanState × Wallet × EconomyLedger × ContractFulfillmentResult
fulfill_owned catalog id caravan wallet ledger (some refusal) =
    (catalog, caravan, wallet, ledger, refusal)
fulfill_owned catalog id caravan wallet ledger none =
    fulfill_contract_from_arrived_caravan_with_reward_and_ledger catalog id caravan wallet ledger

-- fulfill_contract_from_owned_arrived_caravan_with_reward_and_ledger
pub fulfill_contract_from_owned_arrived_caravan_with_reward_and_ledger :
    ContractCatalog
    → String
    → CaravanState
    → OwnershipCatalog
    → String
    → Wallet
    → EconomyLedger
    → ContractCatalog × CaravanState × Wallet × EconomyLedger × ContractFulfillmentResult
unfolding fulfill_owned
fulfill_contract_from_owned_arrived_caravan_with_reward_and_ledger catalog id caravan ownership
      faction wallet ledger =
    fulfill_owned catalog id caravan wallet ledger (owner_refusal id caravan ownership faction)
