-- ===== src/Sim/Engine/Goods.antt =====
-- Goods that go from one settlement of an engine to another.
pub mod Amounts
use city_life_core.Prelude.{
  ℕ, ◌+◌, ◌-◌, ◌≤◌, ◌≡◌, refl, sym, ap, ◌∙◌, ◌⊎◌, inl, inr, Bool, true, false, not, ◌&&◌, String,
  Option, none, some, List, [], ◌∷◌, sum_by, ◌==◌, if◌then◌else◌, is_empty, is_some, str_eq, arith,
  eq_iff, u64_max, Bool-cases, Option-cases, ◌<>◌,
}
use city_life_core.Data.Validation.{ok, ok-empty, ok-error_report, ValidationReport}
use city_life_core.Data.Registry.{resource}
use city_life_core.Sim.Storage.{amount, transfer}
use city_life_core.Sim.Storage.Transfer.{
  can_transfer, transfer-exact, transfer-conserves, transfer-refused, amount-transfer,
}
use city_life_core.Sim.Settlement.{SettlementState}
use city_life_core.Sim.Engine.{
  SimulationEngine, find_settlement, write_settlement, write, with_resource, transfer_between,
  transfer_resource_between_settlements, settlement_resource_amount, amount_in,
}

-- What all settlements hold of a resource.
abbrev pub total : List SettlementState → String → ℕ
total ss resource_id = sum_by (λ s. amount s.storage resource_id) ss

pub find-id :
    (ss : List SettlementState) (id : String) (s : SettlementState)
    → find_settlement ss id ≡ some s
    → s.id ≡ id
unfolding find_settlement
find-id [] id s h = ground arith
find-id (x ∷ xs) id s h = ground (arith, eq_iff x.id id, find-id xs id s)

pub find-write :
    (ss : List SettlementState) (id j : String) (s s' : SettlementState)
    → find_settlement ss id ≡ some s
    → s'.id ≡ id
    → find_settlement (write_settlement ss id s') j
      ≡ (if str_eq id j then some s' else find_settlement ss j)
unfolding find_settlement write_settlement
find-write [] id j s s' h e = ground arith
find-write (x ∷ xs) id j s s' h e =
    ground (arith, eq_iff x.id id, eq_iff id j, eq_iff x.id j, find-write xs id j s s')

pub write-same :
    (ss : List SettlementState) (id : String) (s : SettlementState)
    → find_settlement ss id ≡ some s
    → write_settlement ss id s ≡ ss
unfolding find_settlement write_settlement
write-same [] id s h = refl
write-same (x ∷ xs) id s h = ground (arith, write-same xs id s)

total-write :
    (ss : List SettlementState) (id k : String) (s s' : SettlementState)
    → find_settlement ss id ≡ some s
    → total (write_settlement ss id s') k + amount s.storage k ≡ total ss k + amount s'.storage k
unfolding find_settlement write_settlement
total-write [] id k s s' h = ground arith
total-write (x ∷ xs) id k s s' h = ground (arith, total-write xs id k s s')

-- Both settlements written: everything else is where it was.
write_both-total :
    (e : SimulationEngine) (from to k : String) (s t s' t' : SettlementState)
    → str_eq from to ≡ false
    → find_settlement e.settlements from ≡ some s
    → find_settlement e.settlements to ≡ some t
    → s'.id ≡ from
    → amount s'.storage k + amount t'.storage k ≡ amount s.storage k + amount t.storage k
    → total (write (write e from s') to t').settlements k ≡ total e.settlements k
write_both-total e from to k s t s' t' different source target same kept =
    let other = find-write e.settlements from to s s' source same in
    omega (
      arith,
      total-write e.settlements from k s s' source,
      total-write (write e from s').settlements to k t t' (other ∙ rw different target),
    )

transfer_between-total :
    (e : SimulationEngine) (from to k j : String) (n : ℕ) (o p : Option SettlementState)
    → n ≤ u64_max
    → str_eq from to ≡ false
    → find_settlement e.settlements from ≡ o
    → find_settlement e.settlements to ≡ p
    → total (transfer_between e from to k n o p).0.settlements j ≡ total e.settlements j
unfolding transfer_between
transfer_between-total e from to k j n none p h d f g = refl
transfer_between-total e from to k j n (some s) none h d f g = refl
transfer_between-total e from to k j n (some s) (some t) h d f g =
    write_both-total e from to j s t _ _ d f g (find-id e.settlements from s f)
      (transfer-conserves s.storage t.storage k j n h)

-- A transfer between settlements, of any 64-bit amount and whatever its verdict, neither makes nor
-- loses any resource: what all settlements hold together of each stays the same.
transfer_between_settlements-conserves :
    (e : SimulationEngine) (from to k j : String) (n : ℕ)
    → n ≤ u64_max
    → total (transfer_resource_between_settlements e from to k n).0.settlements j
      ≡ total e.settlements j
unfolding transfer_resource_between_settlements with_resource
transfer_between_settlements-conserves e from to k j n h = elim (Bool-cases (str_eq from to)) [
  | inl d ↦ ground arith
  | inr d ↦ ground (
    arith,
    transfer_between-total e from to k j n (find_settlement e.settlements from)
        (find_settlement e.settlements to) h d refl refl,
  )
]
