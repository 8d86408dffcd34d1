-- ===== src/Economy/Ledger/Journal.antt =====
-- The journal: contiguous sequence numbers, valid payloads, exact saturated totals, restoration.
use city_life_core.Prelude.{
  is_empty, not, ℕ, ◌+◌, ◌≤◌, ◌<◌, ◌≡◌, ◌≢◌, inl, inr, Bool, true, ◌&&◌, String, List, [], ◌∷◌,
  ◌++◌, min, u64_max, ◌==◌, if◌then◌else◌, str_eq, arith, length, length-append, Bool-cases,
  saturating_add, saturating_add-eq-min,
}
use city_life_core.Data.Validation.{ValidationReport, empty_report, ok, ok-empty, ok-error_if}
use city_life_core.Economy.Ledger.{
  TradeResult, LedgerEntry, LedgerEntryType, EconomyLedger, has_valid_payload, append_entry,
  trade_entry, reward_entry, record_trade, record_contract_reward, check_entry, check_entries,
  restore_entries, total_from, is_trade_ledger_type, same_type, total_bought, total_sold,
  total_contract_rewards,
}

-- Entries numbered from `k` on, each with a payload that fits its type.
abbrev pub is_journal : ℕ → List LedgerEntry → Bool
is_journal k [] = true
is_journal k (e ∷ es) = e.sequence == k && has_valid_payload e && is_journal (k + 1) es

pub record IsValid (l : EconomyLedger) : Type 0 where
  pub journal : is_journal 1 l.entries ≡ true
  pub next : l.next_sequence ≡ length l.entries + 1
  pub room : l.next_sequence ≤ u64_max

is_journal-append :
    (k : ℕ) (es : List LedgerEntry) (e : LedgerEntry)
    → is_journal k es ≡ true
    → e.sequence ≡ k + length es
    → has_valid_payload e ≡ true
    → is_journal k (es ++ e ∷ []) ≡ true
is_journal-append k [] e h num valid = ground arith
is_journal-append k (x ∷ es) e h num valid = ground (arith, is_journal-append (k + 1) es e)

append_entry-IsValid :
    (l : EconomyLedger) (e : LedgerEntry)
    → IsValid l
    → l.next_sequence ≢ u64_max
    → e.sequence ≡ l.next_sequence
    → has_valid_payload e ≡ true
    → IsValid (append_entry l e)
append_entry-IsValid l e v free num valid = record {
  journal = is_journal-append 1 l.entries e v.journal (omega (arith, v.next)) valid;
  next = omega (arith, v.next, length-append {0} l.entries);
  room = omega (arith, v.room);
}

record_trade-IsValid :
    (l : EconomyLedger) (type : LedgerEntryType) (t : TradeResult) (note : String)
    → IsValid l
    → IsValid (record_trade l type t note).0
unfolding record_trade has_valid_payload
record_trade-IsValid l type t note v =
    ground (arith, append_entry-IsValid l (trade_entry l type t note) v)

record_contract_reward-IsValid :
    (l : EconomyLedger) (contract resource : String) (quantity reward : ℕ) (note : String)
    → IsValid l
    → IsValid (record_contract_reward l contract resource quantity reward note).0
unfolding record_contract_reward has_valid_payload
record_contract_reward-IsValid l contract resource quantity reward note v =
    ground (arith, append_entry-IsValid l (reward_entry l contract resource quantity reward note) v)

-- Which trades a ledger takes.
pub record_trade-ok :
    (l : EconomyLedger) (type : LedgerEntryType) (t : TradeResult) (note : String)
    → (record_trade l type t note).1 ≡ (
        is_trade_ledger_type type
        && t.ok
        && not (is_empty t.resource_id)
        && not (t.quantity == 0)
        && not (t.unit_price == 0)
        && not (t.total_price == 0)
        && not (l.next_sequence == u64_max))
unfolding record_trade
record_trade-ok l type t note = ground arith

-- An accepted trade appends its entry.
pub record_trade-done :
    (l : EconomyLedger) (type : LedgerEntryType) (t : TradeResult) (note : String)
    → (record_trade l type t note).1 ≡ true
    → (record_trade l type t note).0 ≡ append_entry l (trade_entry l type t note)
unfolding record_trade
record_trade-done l type t note h = ground arith

pub record_contract_reward-done :
    (l : EconomyLedger) (contract resource : String) (quantity reward : ℕ) (note : String)
    → (record_contract_reward l contract resource quantity reward note).1 ≡ true
    → (record_contract_reward l contract resource quantity reward note).0
      ≡ append_entry l (reward_entry l contract resource quantity reward note)
unfolding record_contract_reward
record_contract_reward-done l contract resource quantity reward note h = ground arith

-- Recording a trade or a reward keeps a valid ledger valid, whether it is accepted or refused.
pub record-IsValid :
    (l : EconomyLedger) (type : LedgerEntryType) (t : TradeResult) (note contract resource : String)
    (quantity reward : ℕ)
    → IsValid l
    → IsValid (record_trade l type t note).0
      × IsValid (record_contract_reward l contract resource quantity reward note).0
record-IsValid l type t note contract resource quantity reward v = (
  record_trade-IsValid l type t note v,
  record_contract_reward-IsValid l contract resource quantity reward note v,
)

ok-check_entry :
    (r : ValidationReport) (k : ℕ) (e : LedgerEntry)
    → ok (check_entry r k e) ≡ (e.sequence == k && (has_valid_payload e && ok r))
unfolding check_entry
ok-check_entry r k e = simp (ok-error_if) (ground arith)

-- The loop of `restore_entries` accepts exactly the journals that begin with the expected number.
ok-check_entries :
    (r : ValidationReport) (k : ℕ) (es : List LedgerEntry)
    → k + length es ≤ u64_max
    → (ok (check_entries r k es).0 ≡ (ok r && is_journal k es))
      × ((check_entries r k es).1 ≡ k + length es)
unfolding check_entries
ok-check_entries r k [] h = ground arith
ok-check_entries r k (e ∷ es) h =
    ground (arith, ok-check_entry r k e, ok-check_entries (check_entry r k e) (k + 1) es)

-- For fewer entries than the largest 64-bit number, `restore_entries` accepts exactly the journals:
-- lists numbered from 1 on whose payloads fit their types. It then holds those entries and goes on
-- with the next number; else it changes nothing.
pub restore_entries-exact :
    (l : EconomyLedger) (es : List LedgerEntry)
    → length es < u64_max
    → (ok (restore_entries l es).1 ≡ is_journal 1 es)
      × ((restore_entries l es).0
          ≡ (if is_journal 1 es then record { entries = es; next_sequence = length es + 1 } else l))
unfolding restore_entries
restore_entries-exact l es h =
    ground (arith, ok-empty, ok-check_entries empty_report 1 es (omega arith))

-- Saving and restoring: the entries of a valid ledger, fewer than the largest 64-bit number,
-- restored into any ledger, give it back.
restore_entries-entries :
    (l other : EconomyLedger)
    → length l.entries < u64_max
    → IsValid l
    → (restore_entries other l.entries).0 ≡ l
restore_entries-entries l other h v =
    ground (arith, restore_entries-exact other l.entries h, v.journal, v.next)

-- The sum of one field of the entries of one kind and resource, with no bound.
abbrev pub sum_of : LedgerEntryType → (LedgerEntry → ℕ) → String → List LedgerEntry → ℕ
sum_of type field id [] = 0
sum_of type field id (e ∷ es) =
    (if same_type e.type type && str_eq e.resource_id id then field e else 0)
    + sum_of type field id es

total_from-eq-min :
    (type : LedgerEntryType) (field : LedgerEntry → ℕ) (id : String) (acc : ℕ)
    (es : List LedgerEntry)
    → acc ≤ u64_max
    → total_from type field id acc es ≡ min (acc + sum_of type field id es) u64_max
unfolding total_from
total_from-eq-min type field id acc [] h = omega arith
total_from-eq-min type field id acc (e ∷ es) h =
    elim (Bool-cases (same_type e.type type && str_eq e.resource_id id)) [
      | inl hit ↦ rw hit (
          omega (
            arith,
            saturating_add-eq-min acc (field e) h,
            total_from-eq-min type field id (saturating_add acc (field e)) es,
          ))
      | inr miss ↦ rw miss (omega (arith, total_from-eq-min type field id acc es h))
    ]

-- The three totals of a resource are the exact sums over the journal, cut off at the largest
-- 64-bit number.
pub totals-exact :
    (l : EconomyLedger) (id : String)
    → (total_bought l id ≡ min (sum_of LedgerEntryType.buy (λ e. e.quantity) id l.entries) u64_max)
      × (total_sold l id ≡ min (sum_of LedgerEntryType.sell (λ e. e.quantity) id l.entries) u64_max)
      × (total_contract_rewards l id
          ≡ min (sum_of LedgerEntryType.contract_reward (λ e. e.total_price) id l.entries) u64_max)
unfolding total_bought total_sold total_contract_rewards
totals-exact l id = (
  omega (arith, total_from-eq-min LedgerEntryType.buy (λ e. e.quantity) id 0 l.entries),
  omega (arith, total_from-eq-min LedgerEntryType.sell (λ e. e.quantity) id 0 l.entries),
  omega (
    arith,
    total_from-eq-min LedgerEntryType.contract_reward (λ e. e.total_price) id 0 l.entries,
  ),
)
