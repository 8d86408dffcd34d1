-- ===== src/Economy/Trade.antt =====
-- include/clc/economy/Trade.hpp and src/clc/economy/Trade.cpp: buying from and selling to a market,
-- between a wallet and a storage, optionally with an entry in the ledger.
pub mod Exchange
pub mod Atomic
use city_life_core.Prelude.{
  ℕ, ◌+◌, ◌-◌, ◌*◌, Bool, true, false, String, u64_max, ltb, ◌==◌, if◌then◌else◌, is_empty,
  multiply_overflows,
}
use city_life_core.Data.Validation
use city_life_core.Sim.Storage.{ResourceStorage, add, try_remove}
use city_life_core.Economy.Market.{MarketPrice}
use city_life_core.Economy.Ledger.{TradeResult, LedgerEntryType, EconomyLedger, record_trade}

-- struct Wallet
pub record Wallet : Type 0 where
  pub coins : ℕ

-- failed
abbrev failed : String → ℕ → ℕ → String → TradeResult
failed resource_id quantity unit_price message = record {
  ok = false;
  resource_id = resource_id;
  quantity = quantity;
  unit_price = unit_price;
  total_price = 0;
  message = message;
}

abbrev done : MarketPrice → ℕ → String → TradeResult
done price quantity message = record {
  ok = true;
  resource_id = price.resource_id;
  quantity = quantity;
  unit_price = price.price;
  total_price = price.price * quantity;
  message = message;
}

-- What buy_resource does once the request is known to be well formed.
purchase : Wallet → ResourceStorage → MarketPrice → ℕ → Wallet × ResourceStorage × TradeResult
purchase wallet storage price quantity =
    let total_price = price.price * quantity in
    let (storage', add_report) = add storage price.resource_id quantity in
    if ltb wallet.coins total_price
    then (wallet, storage, failed price.resource_id quantity price.price "not enough coins")
    else if Validation.ok add_report
    then (
      record { coins = wallet.coins - total_price },
      storage',
      done price quantity "bought resource",
    )
    else (
      wallet,
      storage',
      failed price.resource_id quantity price.price "failed to add purchased resource to storage",
    )

-- What sell_resource does once the request is known to be well formed.
sale : Wallet → ResourceStorage → MarketPrice → ℕ → Wallet × ResourceStorage × TradeResult
sale wallet storage price quantity =
    let total_price = price.price * quantity in
    let (storage', removed) = try_remove storage price.resource_id quantity in
    if ltb (u64_max - wallet.coins) total_price
    then (wallet, storage, failed price.resource_id quantity price.price "wallet overflow")
    else if removed
    then (
      record { coins = wallet.coins + total_price },
      storage',
      done price quantity "sold resource",
    )
    else (
      wallet,
      storage',
      failed price.resource_id quantity price.price "not enough resource in storage",
    )

-- The checks that buy_resource and sell_resource share, in their order.
checked :
    (Wallet → ResourceStorage → MarketPrice → ℕ → Wallet × ResourceStorage × TradeResult)
    → Wallet
    → ResourceStorage
    → MarketPrice
    → ℕ
    → Wallet × ResourceStorage × TradeResult
checked trade wallet storage price quantity =
    if is_empty price.resource_id
    then (
      wallet,
      storage,
      failed price.resource_id quantity price.price "resource_id must not be empty",
    )
    else if quantity == 0
    then (
      wallet,
      storage,
      failed price.resource_id quantity price.price "quantity must be greater than zero",
    )
    else if price.price == 0
    then (
      wallet,
      storage,
      failed price.resource_id quantity price.price "unit price must be greater than zero",
    )
    else if multiply_overflows price.price quantity
    then (wallet, storage, failed price.resource_id quantity price.price "total price overflow")
    else trade wallet storage price quantity

-- buy_resource
pub buy_resource :
    Wallet → ResourceStorage → MarketPrice → ℕ → Wallet × ResourceStorage × TradeResult
unfolding checked purchase
buy_resource = checked purchase

-- sell_resource
pub sell_resource :
    Wallet → ResourceStorage → MarketPrice → ℕ → Wallet × ResourceStorage × TradeResult
unfolding checked sale
sell_resource = checked sale

abbrev is_buy : LedgerEntryType → Bool
is_buy LedgerEntryType.buy = true
is_buy _ = false

-- The end of trade_with_ledger: a trade made on copies is recorded, and both are committed or
-- neither.
commit_trade :
    Wallet
    → ResourceStorage
    → EconomyLedger
    → LedgerEntryType
    → String
    → Wallet × ResourceStorage × TradeResult
    → Wallet × ResourceStorage × EconomyLedger × TradeResult
commit_trade wallet storage ledger type note (wallet_copy, storage_copy, result) =
    let (ledger_copy, recorded) = record_trade ledger type result note in
    if result.ok
    then if recorded then (wallet_copy, storage_copy, ledger_copy, result) else (
      wallet,
      storage,
      ledger,
      failed result.resource_id result.quantity result.unit_price
          "failed to record trade ledger entry",
    )
    else (wallet, storage, ledger, result)

-- trade_with_ledger
pub trade_with_ledger :
    Wallet
    → ResourceStorage
    → MarketPrice
    → ℕ
    → EconomyLedger
    → LedgerEntryType
    → String
    → Wallet × ResourceStorage × EconomyLedger × TradeResult
unfolding commit_trade
trade_with_ledger wallet storage price quantity ledger type note =
    commit_trade wallet storage ledger type note (
      if is_buy type
      then buy_resource wallet storage price quantity
      else sell_resource wallet storage price quantity)

-- buy_resource_with_ledger
pub buy_resource_with_ledger :
    Wallet
    → ResourceStorage
    → MarketPrice
    → ℕ
    → EconomyLedger
    → String
    → Wallet × ResourceStorage × EconomyLedger × TradeResult
unfolding trade_with_ledger
buy_resource_with_ledger wallet storage price quantity ledger note =
    trade_with_ledger wallet storage price quantity ledger LedgerEntryType.buy note

-- sell_resource_with_ledger
pub sell_resource_with_ledger :
    Wallet
    → ResourceStorage
    → MarketPrice
    → ℕ
    → EconomyLedger
    → String
    → Wallet × ResourceStorage × EconomyLedger × TradeResult
unfolding trade_with_ledger
sell_resource_with_ledger wallet storage price quantity ledger note =
    trade_with_ledger wallet storage price quantity ledger LedgerEntryType.sell note
