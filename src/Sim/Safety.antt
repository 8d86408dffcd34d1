-- ===== src/Sim/Safety.antt =====
-- include/clc/sim/MultiplayerEconomySafety.hpp and src/clc/sim/MultiplayerEconomySafety.cpp:
-- reviews of what a player is about to do with the economy. A number of diagnostics is that of the
-- messages.
pub mod Buying
use city_life_core.Prelude.{
  ℕ, Bool, true, false, not, ◌||◌, String, Option, none, some, List, [], ◌∷◌, length, ltb, ◌==◌,
  if◌then◌else◌, is_empty, str_eq, saturating_multiply, ◌<>◌, to_string,
}
use city_life_core.Data.Validation.{ValidationReport, empty_report, error_if, add_error, ok}
use city_life_core.Economy.Ledger.{EconomyLedger, LedgerEntry}
use city_life_core.Economy.Market.{MarketPrice}
use city_life_core.Sim.Contracts.{ResourceDeliveryContract, contract_by_id, contract_is_open}
use city_life_core.Sim.Engine.{has_settlement, settlement_resource_amount}
use city_life_core.Sim.Runtime.{SimulationRuntime}

-- enum class EconomySafetyOperation
pub data EconomySafetyOperation : Type 0 where
  buy_resource : EconomySafetyOperation
  sell_resource : EconomySafetyOperation
  contract_reward : EconomySafetyOperation

-- struct EconomySafetyReview
pub record EconomySafetyReview : Type 0 where
  pub operation : EconomySafetyOperation
  pub actor_id : String
  pub reference_id : String
  pub settlement_id : String
  pub resource_id : String
  pub quantity : ℕ
  pub unit_price : ℕ
  pub total_price : ℕ
  pub wallet_coins : ℕ
  pub stored_amount : ℕ
  pub allowed : Bool
  pub duplicate_reference : Bool
  pub validation : ValidationReport

unfoldable pub any_entry : List LedgerEntry → String → Bool
any_entry [] id = false
any_entry (e ∷ es) id = str_eq e.reference_id id || str_eq e.note id || any_entry es id

-- ledger_has_reference
unfoldable pub ledger_has_reference : EconomyLedger → String → Bool
unfolding any_entry
ledger_has_reference ledger reference_id =
    if is_empty reference_id then false else any_entry ledger.entries reference_id

-- economy_safety_operation_name
pub economy_safety_operation_name : EconomySafetyOperation → String
economy_safety_operation_name buy_resource = "buy_resource"
economy_safety_operation_name sell_resource = "sell_resource"
economy_safety_operation_name contract_reward = "contract_reward"

-- The first three checks of a purchase and of a sale.
unfoldable pub check_trade : SimulationRuntime → String → String → ℕ → ValidationReport
check_trade runtime actor_id settlement_id quantity =
    error_if (quantity == 0) "economy.quantity" "quantity must be greater than zero" (
      error_if (not (has_settlement runtime.engine settlement_id)) "economy.settlement_id"
        "settlement does not exist"
        (error_if (is_empty actor_id) "economy.actor_id" "actor_id must not be empty" empty_report))

-- review_buy_resource_safety
unfoldable pub review_buy_resource_safety :
    SimulationRuntime → String → String → MarketPrice → ℕ → String → EconomySafetyReview
unfolding check_trade
review_buy_resource_safety runtime actor_id settlement_id price quantity reference_id =
    let total = saturating_multiply price.price quantity in
    let duplicate = ledger_has_reference runtime.ledger reference_id in
    let validation =
      error_if duplicate "economy.reference_id" "reference_id is already present in ledger" (
        error_if (ltb runtime.wallet.coins total) "economy.wallet" "wallet has insufficient coins"
          (check_trade runtime actor_id settlement_id quantity)) in
    record {
      operation = buy_resource;
      actor_id = actor_id;
      reference_id = reference_id;
      settlement_id = settlement_id;
      resource_id = price.resource_id;
      quantity = quantity;
      unit_price = price.price;
      total_price = total;
      wallet_coins = runtime.wallet.coins;
      stored_amount = 0;
      allowed = ok validation;
      duplicate_reference = duplicate;
      validation = validation;
    }

-- review_sell_resource_safety
pub review_sell_resource_safety :
    SimulationRuntime → String → String → MarketPrice → ℕ → String → EconomySafetyReview
unfolding check_trade
review_sell_resource_safety runtime actor_id settlement_id price quantity reference_id =
    let stored = settlement_resource_amount runtime.engine settlement_id price.resource_id in
    let duplicate = ledger_has_reference runtime.ledger reference_id in
    let validation =
      error_if duplicate "economy.reference_id" "reference_id is already present in ledger" (
        error_if (ltb stored quantity) "economy.storage"
          "settlement has insufficient resource amount"
          (check_trade runtime actor_id settlement_id quantity)) in
    record {
      operation = sell_resource;
      actor_id = actor_id;
      reference_id = reference_id;
      settlement_id = settlement_id;
      resource_id = price.resource_id;
      quantity = quantity;
      unit_price = price.price;
      total_price = saturating_multiply price.price quantity;
      wallet_coins = runtime.wallet.coins;
      stored_amount = stored;
      allowed = ok validation;
      duplicate_reference = duplicate;
      validation = validation;
    }

-- The check of the contract in review_contract_reward_safety.
check_contract : Option ResourceDeliveryContract → ValidationReport → ValidationReport
check_contract none report = add_error report "economy.contract_id" "contract does not exist"
check_contract (some c) report =
    error_if (not (contract_is_open c)) "economy.contract_id" "contract is not open" report

-- review_contract_reward_safety
pub review_contract_reward_safety :
    SimulationRuntime → String → String → String → EconomySafetyReview
unfolding check_contract
review_contract_reward_safety runtime actor_id contract_id reference_id =
    let contract = contract_by_id runtime.contracts contract_id in
    let duplicate = ledger_has_reference runtime.ledger reference_id in
    let validation =
      error_if duplicate "economy.reference_id" "reference_id is already present in ledger" (
        check_contract contract (
          error_if (is_empty actor_id) "economy.actor_id" "actor_id must not be empty"
            empty_report)) in
    record {
      operation = contract_reward;
      actor_id = actor_id;
      reference_id = reference_id;
      settlement_id = "";
      resource_id = elim contract [ none ↦ "" | some c ↦ c.resource_id ];
      quantity = elim contract [ none ↦ 0 | some c ↦ c.quantity ];
      unit_price = 0;
      total_price = elim contract [ none ↦ 0 | some c ↦ c.reward_coins ];
      wallet_coins = runtime.wallet.coins;
      stored_amount = 0;
      allowed = ok validation;
      duplicate_reference = duplicate;
      validation = validation;
    }

abbrev yes_or_no : Bool → String
yes_or_no b = if b then "yes" else "no"

-- economy_safety_review_digest
pub economy_safety_review_digest : EconomySafetyReview → String
economy_safety_review_digest r =
    "economy_safety"
    <> ";operation="
    <> economy_safety_operation_name r.operation
    <> ";actor="
    <> r.actor_id
    <> ";reference="
    <> r.reference_id
    <> ";settlement="
    <> r.settlement_id
    <> ";resource="
    <> r.resource_id
    <> ";quantity="
    <> to_string r.quantity
    <> ";unit_price="
    <> to_string r.unit_price
    <> ";total_price="
    <> to_string r.total_price
    <> ";wallet="
    <> to_string r.wallet_coins
    <> ";stored="
    <> to_string r.stored_amount
    <> ";duplicate="
    <> yes_or_no r.duplicate_reference
    <> ";allowed="
    <> yes_or_no r.allowed
    <> ";diagnostics="
    <> to_string (length r.validation.messages)
