-- ===== src/Economy/Ledger.antt =====
-- include/clc/economy/Ledger.hpp and src/clc/economy/Ledger.cpp: the journal of trades and contract
-- rewards. `TradeResult` is declared in Trade.hpp.
pub mod Journal
pub mod Summary
use city_life_core.Prelude.{
  ℕ, ◌+◌, Bool, true, false, not, ◌&&◌, ◌||◌, String, List, [], ◌∷◌, ◌++◌, u64_max, ltb, ◌==◌,
  if◌then◌else◌, is_empty, str_eq, ◌<>◌, to_string, saturating_add,
}
use city_life_core.Data.Validation.{ValidationReport, empty_report, error_if, ok}

-- struct TradeResult
pub record TradeResult : Type 0 where
  pub ok : Bool
  pub resource_id : String
  pub quantity : ℕ
  pub unit_price : ℕ
  pub total_price : ℕ
  pub message : String

-- enum class LedgerEntryType
pub data LedgerEntryType : Type 0 where
  buy sell contract_reward : LedgerEntryType

-- struct LedgerEntry
pub record LedgerEntry : Type 0 where
  pub sequence : ℕ
  pub type : LedgerEntryType
  pub resource_id : String
  pub quantity : ℕ
  pub unit_price : ℕ
  pub total_price : ℕ
  pub reference_id : String
  pub note : String

-- class EconomyLedger
pub record EconomyLedger : Type 0 where
  pub entries : List LedgerEntry
  pub next_sequence : ℕ

abbrev pub empty_ledger : EconomyLedger
empty_ledger = record { entries = []; next_sequence = 1 }

abbrev pub is_trade_ledger_type : LedgerEntryType → Bool
is_trade_ledger_type LedgerEntryType.buy = true
is_trade_ledger_type LedgerEntryType.sell = true
is_trade_ledger_type LedgerEntryType.contract_reward = false

abbrev payload_fits_type : LedgerEntryType → LedgerEntry → Bool
payload_fits_type LedgerEntryType.contract_reward e =
    e.unit_price == 0 && not (is_empty e.reference_id)
payload_fits_type _ e = ltb 0 e.unit_price && is_empty e.reference_id

-- ledger_entry_has_valid_payload
unfoldable pub has_valid_payload : LedgerEntry → Bool
has_valid_payload e =
    if e.sequence == 0 || is_empty e.resource_id || e.quantity == 0 || e.total_price == 0
    then false
    else payload_fits_type e.type e

abbrev pub append_entry : EconomyLedger → LedgerEntry → EconomyLedger
append_entry l e = record { entries = l.entries ++ e ∷ []; next_sequence = l.next_sequence + 1 }

-- The entry that `record` pushes.
abbrev pub trade_entry : EconomyLedger → LedgerEntryType → TradeResult → String → LedgerEntry
trade_entry l type result note = record {
  sequence = l.next_sequence;
  type = type;
  resource_id = result.resource_id;
  quantity = result.quantity;
  unit_price = result.unit_price;
  total_price = result.total_price;
  reference_id = "";
  note = note;
}

-- The entry that `record_contract_reward` pushes.
abbrev pub reward_entry : EconomyLedger → String → String → ℕ → ℕ → String → LedgerEntry
reward_entry l contract_id resource_id quantity reward_coins note = record {
  sequence = l.next_sequence;
  type = LedgerEntryType.contract_reward;
  resource_id = resource_id;
  quantity = quantity;
  unit_price = 0;
  total_price = reward_coins;
  reference_id = contract_id;
  note = note;
}

-- EconomyLedger::record. The sequence number is below the largest one when it is raised.
pub record_trade : EconomyLedger → LedgerEntryType → TradeResult → String → EconomyLedger × Bool
record_trade l type result note =
    if not (is_trade_ledger_type type)
    then (l, false)
    else if not result.ok
        || is_empty result.resource_id
        || result.quantity == 0
        || result.unit_price == 0
        || result.total_price == 0
    then (l, false)
    else if l.next_sequence == u64_max
    then (l, false)
    else (append_entry l (trade_entry l type result note), true)

-- EconomyLedger::record_contract_reward
pub record_contract_reward : EconomyLedger → String → String → ℕ → ℕ → String → EconomyLedger × Bool
record_contract_reward l contract_id resource_id quantity reward_coins note =
    if is_empty contract_id || is_empty resource_id || quantity == 0 || reward_coins == 0
    then (l, false)
    else if l.next_sequence == u64_max
    then (l, false)
    else (append_entry l (reward_entry l contract_id resource_id quantity reward_coins note), true)

-- The body of the loop of `restore_entries`: the two checks of one entry.
check_entry : ValidationReport → ℕ → LedgerEntry → ValidationReport
check_entry report expected e =
    error_if (not (e.sequence == expected)) ("economy.ledger.entry." <> to_string e.sequence)
      "ledger sequence must be contiguous and strictly increasing from 1"
      (error_if (not (has_valid_payload e)) ("economy.ledger.entry." <> to_string e.sequence)
        "invalid ledger entry payload" report)

-- The loop: the report so far and the next expected sequence number.
check_entries : ValidationReport → ℕ → List LedgerEntry → ValidationReport × ℕ
check_entries report expected [] = (report, expected)
check_entries report expected (e ∷ es) =
    check_entries (check_entry report expected e)
      (if expected == u64_max then expected else expected + 1) es

-- EconomyLedger::restore_entries
pub restore_entries : EconomyLedger → List LedgerEntry → EconomyLedger × ValidationReport
unfolding check_entries
restore_entries l entries =
    let (report, expected) = check_entries empty_report 1 entries in
    if ok report
    then (record { entries = entries; next_sequence = expected }, report)
    else (l, report)

abbrev same_type : LedgerEntryType → LedgerEntryType → Bool
same_type LedgerEntryType.buy LedgerEntryType.buy = true
same_type LedgerEntryType.sell LedgerEntryType.sell = true
same_type LedgerEntryType.contract_reward LedgerEntryType.contract_reward = true
same_type _ _ = false

-- The loop of the three totals: it adds up one field of the entries of one kind and resource.
total_from : LedgerEntryType → (LedgerEntry → ℕ) → String → ℕ → List LedgerEntry → ℕ
total_from type field resource_id total [] = total
total_from type field resource_id total (e ∷ es) =
    total_from type field resource_id
      (if same_type e.type type && str_eq e.resource_id resource_id
        then saturating_add total (field e)
        else total)
      es

-- EconomyLedger::total_bought
pub total_bought : EconomyLedger → String → ℕ
unfolding total_from
total_bought l id = total_from LedgerEntryType.buy (λ e. e.quantity) id 0 l.entries

-- EconomyLedger::total_sold
pub total_sold : EconomyLedger → String → ℕ
unfolding total_from
total_sold l id = total_from LedgerEntryType.sell (λ e. e.quantity) id 0 l.entries

-- EconomyLedger::total_contract_rewards
pub total_contract_rewards : EconomyLedger → String → ℕ
unfolding total_from
total_contract_rewards l id =
    total_from LedgerEntryType.contract_reward (λ e. e.total_price) id 0 l.entries
