-- ===== src/Tests/Economy.antt =====
-- Prices, trades, the ledger and the order book at work.
use city_life_core.Prelude.{
  ◌+◌, ◌≡◌, refl, true, false, String, List, [], ◌∷◌, max, arith, if◌then◌else◌, sum_by, All,
}
use city_life_core.Data.Validation
use city_life_core.Data.Registry.{ResourceDefinition}
use city_life_core.Sim.Storage.{ResourceStorage, amount}
use city_life_core.Prelude.UnorderedMap.{find}
use city_life_core.Economy.Market.{MarketPrice, MarketReport, calculate_price}
use city_life_core.Economy.Market.Pricing.{InBand, calculate_price-InBand}
use city_life_core.Economy.Ledger.{
  TradeResult, LedgerEntry, has_valid_payload, LedgerEntryType, EconomyLedger, empty_ledger,
  record_trade, record_contract_reward, restore_entries, total_bought, total_sold, trade_entry,
}
use city_life_core.Economy.Ledger.Journal.{
  IsValid, is_journal, record-IsValid, restore_entries-exact,
}
use city_life_core.Economy.Ledger.Summary.{make_ledger_summary, ledger_resource_summary_by_id}
use city_life_core.Economy.Ledger.Summary.Resources.{found_quantity, make_ledger_summary-agrees}
use city_life_core.Economy.Trade.{Wallet, buy_resource, sell_resource, trade_with_ledger}
use city_life_core.Economy.Trade.Atomic.{IsAtomic, trade_with_ledger-IsAtomic}
use city_life_core.Economy.Trade.Exchange.{buy-ok, sell-buy}
use city_life_core.Economy.Orders.{MarketOrder, match_books}
use city_life_core.Economy.Orders.Conservation.{
  order_of, traded, valid_orders, match_books-conserves,
}
use city_life_core.Economy.Orders.Crossing.{crosses, match_books_complete}

abbrev grain : ResourceDefinition
grain = record { id = "grain"; display_name = "Grain"; category = "food"; base_value = 4 }

calculate_price-InBand_example : InBand (max 4 1) 10 30 (calculate_price grain 10 30).price
calculate_price-InBand_example = calculate_price-InBand grain 10 30 (omega arith)

abbrev grain_price : MarketPrice
grain_price = record {
  resource_id = "grain";
  base_value = 4;
  supply = 10;
  demand = 30;
  price = 6;
  reason = "demand exceeds supply";
}

abbrev wood_price : MarketPrice
wood_price = record grain_price { resource_id = "wood"; supply = 0; price = 8 }

abbrev day_report : MarketReport
day_report = record {
  prices = grain_price ∷ wood_price ∷ [];
  total_supply = 10;
  total_demand = 60;
  average_price = 7;
  min_price = 6;
  max_price = 8;
}

abbrev purse : Wallet
purse = record { coins = 100 }

abbrev shed : ResourceStorage
shed = record { entries = ("grain", 7) ∷ [] }

bought : (buy_resource purse shed grain_price 5).2.ok ≡ true
unfolding amount find
bought = buy-ok purse shed grain_price 5 (omega arith)

sell-buy_example :
    let (w', s', _) = buy_resource purse shed grain_price 5 in
    let (w'', s'', result) = sell_resource w' s' grain_price 5 in
    (result.ok ≡ true) × (w''.coins ≡ 100) × ((j : String) → amount s'' j ≡ amount shed j)
sell-buy_example = sell-buy purse shed grain_price 5 (omega arith) (omega arith) bought

abbrev one_trade : TradeResult
one_trade = record {
  ok = true;
  resource_id = "grain";
  quantity = 5;
  unit_price = 6;
  total_price = 30;
  message = "bought resource";
}

abbrev one_entry : LedgerEntry
one_entry = trade_entry empty_ledger LedgerEntryType.buy one_trade "first"

abbrev book : EconomyLedger
book = record { entries = one_entry ∷ []; next_sequence = 2 }

book-IsValid : IsValid book
unfolding has_valid_payload
book-IsValid = record { journal = refl; next = refl; room = omega arith }

trade_with_ledger-IsAtomic_example :
    IsAtomic purse shed grain_price 5 book LedgerEntryType.sell "second"
      (trade_with_ledger purse shed grain_price 5 book LedgerEntryType.sell "second")
trade_with_ledger-IsAtomic_example =
    trade_with_ledger-IsAtomic purse shed grain_price 5 book LedgerEntryType.sell "second"
      (omega arith)

record-IsValid_example :
    IsValid (record_trade book LedgerEntryType.sell one_trade "second").0
    × IsValid (record_contract_reward book "c1" "wood" 5 90 "second").0
record-IsValid_example =
    record-IsValid book LedgerEntryType.sell one_trade "second" "c1" "wood" 5 90 book-IsValid

restore_entries-exact_example :
    (Validation.ok (restore_entries empty_ledger (one_entry ∷ [])).1
      ≡ is_journal 1 (one_entry ∷ []))
    × ((restore_entries empty_ledger (one_entry ∷ [])).0 ≡ (
        if is_journal 1 (one_entry ∷ [])
        then record { entries = one_entry ∷ []; next_sequence = 1 + 1 }
        else empty_ledger))
restore_entries-exact_example = restore_entries-exact empty_ledger (one_entry ∷ []) (omega arith)

abbrev buys : List MarketOrder
buys =
    record { resource_id = "grain"; quantity = 5; limit_price = 9 }
    ∷ record { resource_id = ""; quantity = 1; limit_price = 1 }
    ∷ []

abbrev sells : List MarketOrder
sells =
    record { resource_id = "grain"; quantity = 3; limit_price = 8 }
    ∷ record { resource_id = "grain"; quantity = 4; limit_price = 7 }
    ∷ []

match_books-conserves_example :
    let (buys', sells', r) = match_books buys sells in
    (sum_by (order_of "grain") buys' + traded "grain" r
      ≡ sum_by (order_of "grain") (valid_orders "buy_order" buys))
    × (sum_by (order_of "grain") sells' + traded "grain" r
        ≡ sum_by (order_of "grain") (valid_orders "sell_order" sells))
match_books-conserves_example = match_books-conserves "grain" buys sells

match_books_complete_example :
    let (buys', sells', r) = match_books buys sells in
    All (λ b. All (λ s. crosses b s ≡ false) sells') buys'
match_books_complete_example = match_books_complete buys sells

make_ledger_summary-agrees_example :
    let found = ledger_resource_summary_by_id (make_ledger_summary book) "grain" in
    (found_quantity LedgerEntryType.buy found ≡ total_bought book "grain")
    × (found_quantity LedgerEntryType.sell found ≡ total_sold book "grain")
make_ledger_summary-agrees_example = make_ledger_summary-agrees book "grain"
