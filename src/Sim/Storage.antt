-- ===== src/Sim/Storage.antt =====
-- include/clc/sim/Storage.hpp and src/clc/sim/Storage.cpp: amounts of resources by id.
pub mod Amounts
pub mod Invariant
pub mod Transfer
use city_life_core.Prelude.{
  ℕ, ◌+◌, ◌-◌, Bool, true, false, String, Option, none, some, List, [], ◌∷◌, u64_max, ltb, ◌==◌,
  if◌then◌else◌, is_empty, ◌<>◌,
}
use city_life_core.Prelude.UnorderedMap.{UnorderedMap, find, assign, erase}
use city_life_core.Data.Validation.{ValidationReport, empty_report, error_report, ok}

-- class ResourceStorage
pub record ResourceStorage : Type 0 where
  pub entries : UnorderedMap ℕ

abbrev pub empty_storage : ResourceStorage
empty_storage = record { entries = [] }

-- `it->second = value`, or `emplace` of a new key
put : ResourceStorage → String → ℕ → ResourceStorage
put s resource_id value = record { entries = assign resource_id value s.entries }

-- What `add` does once the request is known to be well formed.
store : ResourceStorage → String → ℕ → Option ℕ → ResourceStorage × ValidationReport
unfolding put
store s resource_id amount none = (put s resource_id amount, empty_report)
store s resource_id amount (some held) =
    if ltb (u64_max - held) amount
    then (s, error_report ("storage." <> resource_id) "amount overflow")
    else (put s resource_id (held + amount), empty_report)

-- ResourceStorage::add
pub add : ResourceStorage → String → ℕ → ResourceStorage × ValidationReport
unfolding store
add s resource_id amount =
    if is_empty resource_id
    then (s, error_report "storage" "resource_id must not be empty")
    else if amount == 0
    then (s, error_report ("storage." <> resource_id) "amount must be greater than zero")
    else store s resource_id amount (find resource_id s.entries)

-- `it->second -= removed`, and the entry goes when nothing is left.
take_out : ResourceStorage → String → ℕ → ℕ → ResourceStorage
unfolding put
take_out s resource_id held removed =
    if held - removed == 0
    then record { entries = erase resource_id s.entries }
    else put s resource_id (held - removed)

withdraw : ResourceStorage → String → ℕ → Option ℕ → ResourceStorage × Bool
unfolding take_out
withdraw s resource_id amount none = (s, false)
withdraw s resource_id amount (some held) =
    if ltb held amount then (s, false) else (take_out s resource_id held amount, true)

-- ResourceStorage::try_remove
pub try_remove : ResourceStorage → String → ℕ → ResourceStorage × Bool
unfolding withdraw
try_remove s resource_id amount =
    if amount == 0 then (s, false) else withdraw s resource_id amount (find resource_id s.entries)

drain : ResourceStorage → String → ℕ → Option ℕ → ResourceStorage × ℕ
unfolding take_out
drain s resource_id amount none = (s, 0)
drain s resource_id amount (some held) =
    let removed = if ltb held amount then held else amount in
    (take_out s resource_id held removed, removed)

-- ResourceStorage::remove_up_to
pub remove_up_to : ResourceStorage → String → ℕ → ResourceStorage × ℕ
unfolding drain
remove_up_to s resource_id amount =
    if amount == 0 then (s, 0) else drain s resource_id amount (find resource_id s.entries)

abbrev or_zero : Option ℕ → ℕ
or_zero none = 0
or_zero (some held) = held

-- ResourceStorage::amount
unfoldable pub amount : ResourceStorage → String → ℕ
amount s resource_id = or_zero (find resource_id s.entries)

-- ResourceStorage::empty
abbrev pub is_empty_storage : ResourceStorage → Bool
is_empty_storage s = elim s.entries [ [] ↦ true | _ ∷ _ ↦ false ]

-- The part of `transfer` between two storages, which works on copies and commits both or neither.
move :
    ResourceStorage
    → ResourceStorage
    → String
    → ℕ
    → ResourceStorage × ResourceStorage × ValidationReport
move from to resource_id amount =
    let (from_copy, removed) = try_remove from resource_id amount in
    let (to_copy, add_report) = add to resource_id amount in
    if removed
    then if ok add_report then (from_copy, to_copy, empty_report) else (from, to, add_report)
    else (
      from,
      to,
      error_report ("storage.transfer." <> resource_id) "not enough resources to transfer",
    )

-- transfer; `same` is the test `&from == &to`, under which both arguments are one storage.
pub transfer :
    Bool
    → ResourceStorage
    → ResourceStorage
    → String
    → ℕ
    → ResourceStorage × ResourceStorage × ValidationReport
unfolding move
transfer same from to resource_id quantity =
    if is_empty resource_id
    then (from, to, error_report "storage.transfer" "resource_id must not be empty")
    else if quantity == 0
    then (
      from,
      to,
      error_report ("storage.transfer." <> resource_id) "amount must be greater than zero",
    )
    else if same
    then if ltb (amount from resource_id) quantity
      then (
        from,
        to,
        error_report ("storage.transfer." <> resource_id) "not enough resources to transfer",
      )
      else (from, to, empty_report)
    else move from to resource_id quantity
