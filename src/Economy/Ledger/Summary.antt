-- ===== src/Economy/Ledger/Summary.antt =====
-- make_ledger_summary of src/clc/economy/Ledger.cpp, with its digest. The counters count list
-- elements and do not wrap.
pub mod Resources
use city_life_core.Prelude.{
  ℕ, ◌+◌, ◌≤◌, ◌≡◌, refl, Bool, true, false, String, Option, List, [], ◌∷◌, length, map, find_if,
  count_if, sum_by, min, u64_max, if◌then◌else◌, str_eq, str_lt, ◌<>◌, to_string, arith,
  saturating_add, saturating_add-eq-min,
}
use city_life_core.Prelude.Int.{ℤ, pos, saturating_signed_difference}
use city_life_core.Prelude.Sort.{sort}
use city_life_core.Economy.Ledger.{LedgerEntry, LedgerEntryType, EconomyLedger, same_type}

-- struct LedgerResourceSummary
pub record LedgerResourceSummary : Type 0 where
  pub resource_id : String
  pub bought_quantity : ℕ
  pub sold_quantity : ℕ
  pub contract_reward_quantity : ℕ
  pub buy_value : ℕ
  pub sell_value : ℕ
  pub contract_reward_value : ℕ
  pub net_quantity : ℤ
  pub net_value : ℤ

-- struct LedgerSummary
pub record LedgerSummary : Type 0 where
  pub entry_count : ℕ
  pub buy_count : ℕ
  pub sell_count : ℕ
  pub contract_reward_count : ℕ
  pub total_buy_value : ℕ
  pub total_sell_value : ℕ
  pub total_contract_reward_value : ℕ
  pub resources : List LedgerResourceSummary

-- ledger_entry_type_name
pub ledger_entry_type_name : LedgerEntryType → String
ledger_entry_type_name LedgerEntryType.buy = "buy"
ledger_entry_type_name LedgerEntryType.sell = "sell"
ledger_entry_type_name LedgerEntryType.contract_reward = "contract_reward"

abbrev new_resource : String → LedgerResourceSummary
new_resource id = record {
  resource_id = id;
  bought_quantity = 0;
  sold_quantity = 0;
  contract_reward_quantity = 0;
  buy_value = 0;
  sell_value = 0;
  contract_reward_value = 0;
  net_quantity = pos 0;
  net_value = pos 0;
}

-- The cases of the `switch`, on the summary of the entry's resource.
add_to_resource : LedgerEntryType → LedgerEntry → LedgerResourceSummary → LedgerResourceSummary
add_to_resource LedgerEntryType.buy e r = record r {
  bought_quantity = saturating_add r.bought_quantity e.quantity;
  buy_value = saturating_add r.buy_value e.total_price;
}
add_to_resource LedgerEntryType.sell e r = record r {
  sold_quantity = saturating_add r.sold_quantity e.quantity;
  sell_value = saturating_add r.sell_value e.total_price;
}
add_to_resource LedgerEntryType.contract_reward e r = record r {
  contract_reward_quantity = saturating_add r.contract_reward_quantity e.quantity;
  contract_reward_value = saturating_add r.contract_reward_value e.total_price;
}

-- The reference that resource_summary_for returns, used to add the entry: the map of indexes finds
-- the first summary with the id, and a new one comes at the end.
add_entry : LedgerEntry → List LedgerResourceSummary → List LedgerResourceSummary
unfolding add_to_resource
add_entry e [] = add_to_resource e.type e (new_resource e.resource_id) ∷ []
add_entry e (r ∷ rs) =
    if str_eq r.resource_id e.resource_id
    then add_to_resource e.type e r ∷ rs
    else r ∷ add_entry e rs

-- The cases of the `switch`, on the figures of the whole ledger.
add_to_totals : LedgerEntryType → LedgerEntry → LedgerSummary → LedgerSummary
add_to_totals LedgerEntryType.buy e s = record s {
  buy_count = s.buy_count + 1;
  total_buy_value = saturating_add s.total_buy_value e.total_price;
}
add_to_totals LedgerEntryType.sell e s = record s {
  sell_count = s.sell_count + 1;
  total_sell_value = saturating_add s.total_sell_value e.total_price;
}
add_to_totals LedgerEntryType.contract_reward e s = record s {
  contract_reward_count = s.contract_reward_count + 1;
  total_contract_reward_value = saturating_add s.total_contract_reward_value e.total_price;
}

-- The loop over the entries.
add_entries : LedgerSummary → List LedgerEntry → LedgerSummary
unfolding add_to_totals add_entry
add_entries s [] = s
add_entries s (e ∷ es) =
    add_entries
      (add_to_totals e.type e
        (record s { entry_count = s.entry_count + 1; resources = add_entry e s.resources }))
      es

-- The body of the loop that nets a resource.
net_resource : LedgerResourceSummary → LedgerResourceSummary
net_resource r = record r {
  net_quantity =
      saturating_signed_difference (saturating_add r.sold_quantity r.contract_reward_quantity)
        r.bought_quantity;
  net_value =
      saturating_signed_difference (saturating_add r.sell_value r.contract_reward_value)
        r.buy_value;
}

abbrev resource_before : LedgerResourceSummary → LedgerResourceSummary → Bool
resource_before lhs rhs = str_lt lhs.resource_id rhs.resource_id

abbrev empty_summary : LedgerSummary
empty_summary = record {
  entry_count = 0;
  buy_count = 0;
  sell_count = 0;
  contract_reward_count = 0;
  total_buy_value = 0;
  total_sell_value = 0;
  total_contract_reward_value = 0;
  resources = [];
}

-- make_ledger_summary
pub make_ledger_summary : EconomyLedger → LedgerSummary
unfolding add_entries net_resource
make_ledger_summary ledger =
    let s = add_entries empty_summary ledger.entries in
    record s { resources = sort resource_before (map net_resource s.resources) }

-- ledger_resource_summary_by_id
pub ledger_resource_summary_by_id : LedgerSummary → String → Option LedgerResourceSummary
ledger_resource_summary_by_id s id = find_if (λ r. str_eq r.resource_id id) s.resources

-- ledger_summary_digest
pub ledger_summary_digest : LedgerSummary → String
ledger_summary_digest s =
    "ledger_summary"
    <> ";entries="
    <> to_string s.entry_count
    <> ";buys="
    <> to_string s.buy_count
    <> ";sells="
    <> to_string s.sell_count
    <> ";contract_rewards="
    <> to_string s.contract_reward_count
    <> ";buy_value="
    <> to_string s.total_buy_value
    <> ";sell_value="
    <> to_string s.total_sell_value
    <> ";contract_reward_value="
    <> to_string s.total_contract_reward_value
    <> ";resources="
    <> to_string (length s.resources)

-- The total price of the entries of one kind.
abbrev pub value_of : LedgerEntryType → List LedgerEntry → ℕ
value_of type = sum_by (λ e. if same_type e.type type then e.total_price else 0)

-- The figures of a summary after more entries.
abbrev Adds : LedgerSummary → LedgerSummary → List LedgerEntry → Type 0
Adds s' s es =
    (s'.entry_count ≡ s.entry_count + length es)
    × (s'.buy_count + s'.sell_count + s'.contract_reward_count
        ≡ s.buy_count + s.sell_count + s.contract_reward_count + length es)
    × (s'.total_buy_value ≡ min (s.total_buy_value + value_of LedgerEntryType.buy es) u64_max)
    × (s'.total_sell_value ≡ min (s.total_sell_value + value_of LedgerEntryType.sell es) u64_max)
    × (s'.total_contract_reward_value
        ≡ min (s.total_contract_reward_value + value_of LedgerEntryType.contract_reward es) u64_max)

abbrev InRange : LedgerSummary → Type 0
InRange s =
    (s.total_buy_value ≤ u64_max)
    × (s.total_sell_value ≤ u64_max)
    × (s.total_contract_reward_value ≤ u64_max)

add_to_totals-Adds :
    (type : LedgerEntryType) (e : LedgerEntry) (s : LedgerSummary) (rs : List LedgerResourceSummary)
    → e.type ≡ type
    → InRange s
    → Adds
        (add_to_totals type e (record s { entry_count = s.entry_count + 1; resources = rs }))
        s
        (e ∷ [])
unfolding add_to_totals
add_to_totals-Adds type e s rs k (b, se, c) =
    let buys = saturating_add-eq-min s.total_buy_value e.total_price b in
    let sells = saturating_add-eq-min s.total_sell_value e.total_price se in
    let rewards = saturating_add-eq-min s.total_contract_reward_value e.total_price c in
    (ground arith, ground arith, ground arith, ground arith, ground arith)

add_entries-Adds :
    (es : List LedgerEntry) (s : LedgerSummary) → InRange s → Adds (add_entries s es) s es
unfolding add_entries
add_entries-Adds [] s (b, se, c) = (omega arith, omega arith, omega arith, omega arith, omega arith)
add_entries-Adds (e ∷ es) s h =
    let one = add_to_totals-Adds e.type e s (add_entry e s.resources) refl h in
    let rest =
      add_entries-Adds es
        (add_to_totals e.type e
          (record s { entry_count = s.entry_count + 1; resources = add_entry e s.resources }))
        (omega (arith, one), omega (arith, one), omega (arith, one)) in
    (
      omega (arith, one, rest),
      omega (arith, one, rest),
      omega (arith, one, rest),
      omega (arith, one, rest),
      omega (arith, one, rest),
    )

-- The summary of a ledger counts every entry once, in the counter of its kind, and the three total
-- values are the exact sums over the entries of each kind, cut off at the largest 64-bit number.
pub make_ledger_summary-exact :
    (l : EconomyLedger)
    → let s = make_ledger_summary l in
      (s.entry_count ≡ length l.entries)
      × (s.buy_count + s.sell_count + s.contract_reward_count ≡ s.entry_count)
      × (s.total_buy_value ≡ min (value_of LedgerEntryType.buy l.entries) u64_max)
      × (s.total_sell_value ≡ min (value_of LedgerEntryType.sell l.entries) u64_max)
      × (s.total_contract_reward_value
          ≡ min (value_of LedgerEntryType.contract_reward l.entries) u64_max)
unfolding make_ledger_summary
make_ledger_summary-exact l =
    let all = add_entries-Adds l.entries empty_summary (omega arith, omega arith, omega arith) in
    (
      omega (arith, all),
      omega (arith, all),
      omega (arith, all),
      omega (arith, all),
      omega (arith, all),
    )
