-- ===== src/Sim/Storage/Invariant.antt =====
-- The invariant of a storage: what it lists has a name and an amount between one and the largest
-- 64-bit number, so that an absent resource is the only one of amount zero.
use city_life_core.Prelude.{
  ℕ, ◌+◌, ◌-◌, ◌≤◌, ◌<◌, ◌≡◌, inl, inr, false, String, some, u64_max, is_empty, arith, eq_iff,
  Option-cases,
}
use city_life_core.Prelude.UnorderedMap.{find, find-assign, find-erase}
use city_life_core.Sim.Storage.{
  ResourceStorage, empty_storage, add, put, take_out, try_remove, remove_up_to, amount,
}

abbrev pub IsEntry : String → ℕ → Type 0
IsEntry k v = (is_empty k ≡ false) × (0 < v) × (v ≤ u64_max)

pub record IsValid (s : ResourceStorage) : Type 0 where
  pub at : (k : String) (v : ℕ) → find k s.entries ≡ some v → IsEntry k v

pub empty_storage-IsValid : IsValid empty_storage
unfolding find
empty_storage-IsValid = record { at = λ k v e. ground arith }

put-IsValid :
    (s : ResourceStorage) (k : String) (n : ℕ) → IsEntry k n → IsValid s → IsValid (put s k n)
unfolding put
put-IsValid s k n new valid = record {
  at = λ j v e. ground (arith, find-assign k j n s.entries, eq_iff k j, valid.at j v);
}

take_out-IsValid :
    (s : ResourceStorage) (k : String) (held n : ℕ)
    → IsEntry k held
    → IsValid s
    → IsValid (take_out s k held n)
unfolding take_out put
take_out-IsValid s k held n old valid = record {
  at = λ j v e. ground (
    arith,
    find-assign k j (held - n) s.entries,
    find-erase k j s.entries,
    eq_iff k j,
    valid.at j v,
  );
}

-- Every operation of a storage with a 64-bit amount keeps it well formed, whether it succeeds or
-- refuses.
pub operations-IsValid :
    (s : ResourceStorage) (k : String) (n : ℕ)
    → n ≤ u64_max
    → IsValid s
    → IsValid (add s k n).0 × IsValid (try_remove s k n).0 × IsValid (remove_up_to s k n).0
unfolding add try_remove remove_up_to
operations-IsValid s k n h valid = elim (Option-cases (find k s.entries)) [
  | inl e ↦ (ground (arith, put-IsValid s k n), ground arith, ground arith)
  | inr (held, e) ↦
      let entry = valid.at k held e in
      (
        ground (arith, put-IsValid s k (held + n)),
        ground (arith, take_out-IsValid s k held n),
        ground (arith, take_out-IsValid s k held held, take_out-IsValid s k held n),
      )
]

pub amount-le : (s : ResourceStorage) (k : String) → IsValid s → amount s k ≤ u64_max
unfolding amount
amount-le s k v = elim (Option-cases (find k s.entries)) [
  | inl e ↦ ground arith
  | inr (n, e) ↦ let entry = v.at k n e in ground arith
]
