-- ===== src/Sim/Storage/Transfer.antt =====
-- `transfer` between two storages moves exactly the amount asked for, or does nothing.
use city_life_core.Prelude.{
  ℕ, ◌+◌, ◌-◌, ◌≤◌, ◌≡◌, ◌∙◌, ◌⊎◌, inl, inr, Bool, true, false, not, ◌&&◌, String, u64_max, ltb,
  leb, ◌==◌, if◌then◌else◌, is_empty, str_eq, ◌<>◌, arith, eq_iff, Bool-cases,
}
use city_life_core.Data.Validation.{ok, ok-empty, ok-error_report}
use city_life_core.Sim.Storage.{ResourceStorage, amount, transfer}
use city_life_core.Sim.Storage.Amounts.{add-ok, amount-add, try_remove-ok, amount-try_remove}

-- Whether `transfer` goes through between two different storages.
abbrev pub can_transfer : ResourceStorage → ResourceStorage → String → ℕ → Bool
can_transfer from to k n =
    not (is_empty k) && not (n == 0) && leb n (amount from k) && not (ltb (u64_max - amount to k) n)

transfer-ok :
    (from to : ResourceStorage) (k : String) (n : ℕ)
    → n ≤ u64_max
    → ok (transfer false from to k n).2 ≡ can_transfer from to k n
unfolding transfer
transfer-ok from to k n h = ground (
  arith,
  try_remove-ok from k n,
  add-ok to k n,
  ok-empty,
  ok-error_report "storage.transfer" "resource_id must not be empty",
  ok-error_report ("storage.transfer." <> k) "amount must be greater than zero",
  ok-error_report ("storage.transfer." <> k) "not enough resources to transfer",
)

pub transfer-refused :
    (from to : ResourceStorage) (k : String) (n : ℕ)
    → ok (transfer false from to k n).2 ≡ false
    → ((transfer false from to k n).0 ≡ from) × ((transfer false from to k n).1 ≡ to)
unfolding transfer
transfer-refused from to k n h = (ground (arith, ok-empty), ground (arith, ok-empty))

pub amount-transfer :
    (from to : ResourceStorage) (k j : String) (n : ℕ)
    → ok (transfer false from to k n).2 ≡ true
    → (amount (transfer false from to k n).0 j
        ≡ (if str_eq k j then amount from k - n else amount from j))
      × (amount (transfer false from to k n).1 j
          ≡ (if str_eq k j then amount to k + n else amount to j))
unfolding transfer
amount-transfer from to k j n h = (
  ground (
    arith,
    amount-try_remove from k j n,
    amount-add to k j n,
    ok-error_report "storage.transfer" "resource_id must not be empty",
    ok-error_report ("storage.transfer." <> k) "amount must be greater than zero",
    ok-error_report ("storage.transfer." <> k) "not enough resources to transfer",
  ),
  ground (
    arith,
    amount-try_remove from k j n,
    amount-add to k j n,
    ok-error_report "storage.transfer" "resource_id must not be empty",
    ok-error_report ("storage.transfer." <> k) "amount must be greater than zero",
    ok-error_report ("storage.transfer." <> k) "not enough resources to transfer",
  ),
)

-- A transfer of a 64-bit amount between two storages succeeds exactly when the resource has a name,
-- the amount is positive, the source holds it and the target's 64-bit counter has room; a failed
-- transfer leaves both storages as they were.
pub transfer-exact :
    (from to : ResourceStorage) (k : String) (n : ℕ)
    → n ≤ u64_max
    → (ok (transfer false from to k n).2 ≡ can_transfer from to k n)
      × ((can_transfer from to k n ≡ true)
          ⊎ (((transfer false from to k n).0 ≡ from) × ((transfer false from to k n).1 ≡ to)))
transfer-exact from to k n h = (
  transfer-ok from to k n h,
  elim (Bool-cases (can_transfer from to k n)) [
    | inl e ↦ inl e
    | inr e ↦ inr (transfer-refused from to k n (transfer-ok from to k n h ∙ e))
  ],
)

-- Whatever 64-bit amount is asked for, a transfer between two storages neither makes nor loses any
-- resource.
pub transfer-conserves :
    (from to : ResourceStorage) (k j : String) (n : ℕ)
    → n ≤ u64_max
    → let (from', to', report) = transfer false from to k n in
      amount from' j + amount to' j ≡ amount from j + amount to j
transfer-conserves from to k j n h = elim (Bool-cases (ok (transfer false from to k n).2)) [
  | inl e ↦ ground (arith, amount-transfer from to k j n e, transfer-ok from to k n h, eq_iff k j)
  | inr e ↦ let same = transfer-refused from to k n e in rw same.0 (rw same.1)
]
