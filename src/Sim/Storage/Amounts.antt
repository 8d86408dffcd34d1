-- ===== src/Sim/Storage/Amounts.antt =====
-- What each operation does to the amount of every resource, with the map and its order hidden.
use city_life_core.Prelude.{
  ℕ, ◌+◌, ◌-◌, ◌≤◌, ◌≡◌, inl, inr, false, not, ◌&&◌, String, min, u64_max, ltb, leb, ◌==◌,
  if◌then◌else◌, is_empty, str_eq, ◌<>◌, arith, eq_iff, Option-cases,
}
use city_life_core.Prelude.UnorderedMap.{find, find-assign, find-erase}
use city_life_core.Data.Validation.{ok, ok-empty, ok-error_report}
use city_life_core.Sim.Storage.{
  ResourceStorage, add, put, take_out, try_remove, remove_up_to, amount,
}

-- The amounts once `n` has been put in the place of what is held of `k`.
abbrev pub replaced : ResourceStorage → String → ℕ → String → ℕ
replaced s k n j = if str_eq k j then n else amount s j

amount-put : (s : ResourceStorage) (k j : String) (n : ℕ) → amount (put s k n) j ≡ replaced s k n j
unfolding put amount
amount-put s k j n = ground (arith, find-assign k j n s.entries)

amount-take_out :
    (s : ResourceStorage) (k j : String) (held n : ℕ)
    → amount (take_out s k held n) j ≡ replaced s k (held - n) j
unfolding take_out put amount
amount-take_out s k j held n =
    ground (arith, find-assign k j (held - n) s.entries, find-erase k j s.entries)

-- `add` accepts exactly a named, positive amount that the 64-bit counter can still hold.
pub add-ok :
    (s : ResourceStorage) (k : String) (n : ℕ)
    → n ≤ u64_max
    → ok (add s k n).1 ≡ (not (is_empty k) && not (n == 0) && not (ltb (u64_max - amount s k) n))
unfolding add amount
add-ok s k n h = ground (
  arith,
  ok-empty,
  ok-error_report "storage" "resource_id must not be empty",
  ok-error_report ("storage." <> k) "amount must be greater than zero",
  ok-error_report ("storage." <> k) "amount overflow",
)

-- A refused `add` changes nothing, an accepted one raises the amount of its resource alone.
pub amount-add :
    (s : ResourceStorage) (k j : String) (n : ℕ)
    → amount (add s k n).0 j
      ≡ (if ok (add s k n).1 then replaced s k (amount s k + n) j else amount s j)
unfolding add amount
amount-add s k j n = elim (Option-cases (find k s.entries)) [
  | inl e ↦ ground (
    arith,
    ok-empty,
    ok-error_report "storage" "resource_id must not be empty",
    ok-error_report ("storage." <> k) "amount must be greater than zero",
    find-assign k j n s.entries,
  )
  | inr (held, e) ↦ ground (
    arith,
    ok-empty,
    ok-error_report "storage" "resource_id must not be empty",
    ok-error_report ("storage." <> k) "amount must be greater than zero",
    ok-error_report ("storage." <> k) "amount overflow",
    find-assign k j (held + n) s.entries,
  )
]

pub try_remove-ok :
    (s : ResourceStorage) (k : String) (n : ℕ)
    → (try_remove s k n).1 ≡ (not (n == 0) && leb n (amount s k))
unfolding try_remove amount
try_remove-ok s k n = ground arith

pub amount-try_remove :
    (s : ResourceStorage) (k j : String) (n : ℕ)
    → amount (try_remove s k n).0 j
      ≡ (if (try_remove s k n).1 then replaced s k (amount s k - n) j else amount s j)
unfolding try_remove amount
amount-try_remove s k j n = elim (Option-cases (find k s.entries)) [
  | inl e ↦ ground arith
  | inr (held, e) ↦ ground (arith, find-assign k j (held - n) s.entries, find-erase k j s.entries)
]

pub removed-eq-min :
    (s : ResourceStorage) (k : String) (n : ℕ) → (remove_up_to s k n).1 ≡ min (amount s k) n
unfolding remove_up_to amount
removed-eq-min s k n = ground arith

pub amount-remove_up_to :
    (s : ResourceStorage) (k j : String) (n : ℕ)
    → amount (remove_up_to s k n).0 j ≡ replaced s k (amount s k - n) j
unfolding remove_up_to amount
amount-remove_up_to s k j n = elim (Option-cases (find k s.entries)) [
  | inl e ↦ ground (arith, eq_iff k j)
  | inr (held, e) ↦
      ground (arith, eq_iff k j, find-assign k j (held - n) s.entries, find-erase k j s.entries)
]

-- A refused `add` leaves the storage as it was, entry by entry.
pub add-refused :
    (s : ResourceStorage) (k : String) (n : ℕ) → ok (add s k n).1 ≡ false → (add s k n).0 ≡ s
unfolding add
add-refused s k n h = ground (arith, ok-empty)

pub try_remove-refused :
    (s : ResourceStorage) (k : String) (n : ℕ)
    → (try_remove s k n).1 ≡ false
    → (try_remove s k n).0 ≡ s
unfolding try_remove
try_remove-refused s k n h = ground arith
