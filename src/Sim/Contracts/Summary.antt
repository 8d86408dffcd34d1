-- ===== src/Sim/Contracts/Summary.antt =====
-- make_contract_lifecycle_summary of src/clc/sim/Contracts.cpp, with its digest. The counters count
-- list elements and do not wrap.
use city_life_core.Prelude.{
  ℕ, ◌+◌, ◌≤◌, ◌≡◌, refl, ◌&&◌, String, List, [], ◌∷◌, ◌++◌, length, count_if, sum_by, min, u64_max,
  ltb, if◌then◌else◌, ◌<>◌, to_string, arith, saturating_add, saturating_add-eq-min, ◌||◌, not,
}
use city_life_core.Sim.Factions.{FactionCatalog, make_faction_access_report}
use city_life_core.Sim.Contracts.{
  ContractStatus, «open», fulfilled, failed, cancelled, ResourceDeliveryContract, ContractCatalog,
  contract_is_open, contract_due_ticks,
}

-- struct ContractLifecycleSummary
pub record ContractLifecycleSummary : Type 0 where
  pub total_count : ℕ
  pub open_count : ℕ
  pub fulfilled_count : ℕ
  pub failed_count : ℕ
  pub cancelled_count : ℕ
  pub overdue_open_count : ℕ
  pub total_open_quantity : ℕ
  pub total_open_reward_coins : ℕ
  pub total_terminal_reward_coins : ℕ
  pub overdue_open_contract_ids : List String
  pub blocked_by_reputation_contract_ids : List String

-- The case of the `switch` for an open contract.
count_open : ℕ → ResourceDeliveryContract → ContractLifecycleSummary → ContractLifecycleSummary
count_open tick c s =
    let overdue = ltb 0 tick && ltb (contract_due_ticks c) tick in
    record s {
      open_count = s.open_count + 1;
      total_open_quantity = saturating_add s.total_open_quantity c.quantity;
      total_open_reward_coins = saturating_add s.total_open_reward_coins c.reward_coins;
      overdue_open_count = if overdue then s.overdue_open_count + 1 else s.overdue_open_count;
      overdue_open_contract_ids =
          if overdue then s.overdue_open_contract_ids ++ c.id ∷ [] else s.overdue_open_contract_ids;
    }

-- The reward of a terminal contract.
abbrev add_terminal : ResourceDeliveryContract → ContractLifecycleSummary → ContractLifecycleSummary
add_terminal c s = record s {
  total_terminal_reward_coins = saturating_add s.total_terminal_reward_coins c.reward_coins;
}

-- The `switch`.
count_status :
    ContractStatus
    → ℕ
    → ResourceDeliveryContract
    → ContractLifecycleSummary
    → ContractLifecycleSummary
unfolding count_open
count_status «open» tick c s = count_open tick c s
count_status fulfilled tick c s =
    add_terminal c (record s { fulfilled_count = s.fulfilled_count + 1 })
count_status failed tick c s = add_terminal c (record s { failed_count = s.failed_count + 1 })
count_status cancelled tick c s =
    add_terminal c (record s { cancelled_count = s.cancelled_count + 1 })

-- The loop.
count_contracts :
    ℕ → List ResourceDeliveryContract → ContractLifecycleSummary → ContractLifecycleSummary
unfolding count_status
count_contracts tick [] s = s
count_contracts tick (c ∷ cs) s = count_contracts tick cs (count_status c.status tick c s)

abbrev start_summary : ℕ → ContractLifecycleSummary
start_summary total = record {
  total_count = total;
  open_count = 0;
  fulfilled_count = 0;
  failed_count = 0;
  cancelled_count = 0;
  overdue_open_count = 0;
  total_open_quantity = 0;
  total_open_reward_coins = 0;
  total_terminal_reward_coins = 0;
  overdue_open_contract_ids = [];
  blocked_by_reputation_contract_ids = [];
}

-- make_contract_lifecycle_summary
pub make_contract_lifecycle_summary : ContractCatalog → ℕ → ContractLifecycleSummary
unfolding count_contracts
make_contract_lifecycle_summary catalog tick =
    count_contracts tick catalog.contracts (start_summary (length catalog.contracts))

-- The loop of make_contract_lifecycle_summary_for_factions: the ids that it pushes.
blocked_ids : FactionCatalog → List ResourceDeliveryContract → List String
blocked_ids factions [] = []
blocked_ids factions (c ∷ cs) =
    let rest = blocked_ids factions cs in
    let access = make_faction_access_report factions c.issuer_faction_id c.receiver_faction_id in
    if not (contract_is_open c)
    then rest
    else if not access.can_issue_contract || not access.can_receive_contract
    then c.id ∷ rest
    else rest

-- make_contract_lifecycle_summary_for_factions
pub make_contract_lifecycle_summary_for_factions :
    ContractCatalog → FactionCatalog → ℕ → ContractLifecycleSummary
unfolding blocked_ids
make_contract_lifecycle_summary_for_factions catalog factions tick =
    record (make_contract_lifecycle_summary catalog tick) {
      blocked_by_reputation_contract_ids = blocked_ids factions catalog.contracts;
    }

-- contract_lifecycle_summary_digest
pub contract_lifecycle_summary_digest : ContractLifecycleSummary → String
contract_lifecycle_summary_digest s =
    "contract_lifecycle"
    <> ";total="
    <> to_string s.total_count
    <> ";open="
    <> to_string s.open_count
    <> ";fulfilled="
    <> to_string s.fulfilled_count
    <> ";failed="
    <> to_string s.failed_count
    <> ";cancelled="
    <> to_string s.cancelled_count
    <> ";overdue_open="
    <> to_string s.overdue_open_count
    <> ";blocked_by_reputation="
    <> to_string (length s.blocked_by_reputation_contract_ids)
    <> ";open_quantity="
    <> to_string s.total_open_quantity
    <> ";open_reward="
    <> to_string s.total_open_reward_coins
    <> ";terminal_reward="
    <> to_string s.total_terminal_reward_coins

-- The figures of a summary after more contracts.
abbrev Covers :
    ContractLifecycleSummary → ContractLifecycleSummary → List ResourceDeliveryContract → Type 0
Covers s' s cs =
    (s'.total_count ≡ s.total_count)
    × (s'.open_count ≡ s.open_count + count_if contract_is_open cs)
    × (s'.open_count + s'.fulfilled_count + s'.failed_count + s'.cancelled_count
        ≡ s.open_count + s.fulfilled_count + s.failed_count + s.cancelled_count + length cs)
    × (s'.total_open_quantity
        ≡ min
            (s.total_open_quantity + sum_by (λ c. if contract_is_open c then c.quantity else 0) cs)
            u64_max)
    × (s.total_open_quantity ≤ u64_max)

count_status-Covers :
    (st : ContractStatus) (tick : ℕ) (c : ResourceDeliveryContract) (s : ContractLifecycleSummary)
    → c.status ≡ st
    → s.total_open_quantity ≤ u64_max
    → Covers (count_status st tick c s) s (c ∷ [])
unfolding count_status
count_status-Covers st tick c s e h =
    let sum = saturating_add-eq-min s.total_open_quantity c.quantity h in
    (ground arith, ground arith, ground arith, ground arith, h)

count_contracts-Covers :
    (tick : ℕ) (cs : List ResourceDeliveryContract) (s : ContractLifecycleSummary)
    → s.total_open_quantity ≤ u64_max
    → Covers (count_contracts tick cs s) s cs
unfolding count_contracts
count_contracts-Covers tick [] s h = (refl, omega arith, omega arith, omega arith, h)
count_contracts-Covers tick (c ∷ cs) s h =
    let one = count_status-Covers c.status tick c s refl h in
    let s1 = count_status c.status tick c s in
    let rest = count_contracts-Covers tick cs s1 (omega (arith, one)) in
    (
      omega (arith, one, rest),
      omega (arith, one, rest),
      omega (arith, one, rest),
      omega (arith, one, rest),
      h,
    )

-- The summary of a catalog counts every contract once, in the counter of its status; the open
-- count is the number of open contracts, and the open quantity is the exact sum over them, cut off
-- at the largest 64-bit number.
make_contract_lifecycle_summary-exact :
    (k : ContractCatalog) (tick : ℕ)
    → let s = make_contract_lifecycle_summary k tick in
      (s.total_count ≡ length k.contracts)
      × (s.open_count + s.fulfilled_count + s.failed_count + s.cancelled_count ≡ s.total_count)
      × (s.open_count ≡ count_if contract_is_open k.contracts)
      × (s.total_open_quantity
          ≡ min (sum_by (λ c. if contract_is_open c then c.quantity else 0) k.contracts) u64_max)
unfolding make_contract_lifecycle_summary
make_contract_lifecycle_summary-exact k tick =
    let (total, opened, all, quantity, _) =
      count_contracts-Covers tick k.contracts (start_summary (length k.contracts)) (omega arith) in
    (total, omega arith, omega arith, omega arith)
