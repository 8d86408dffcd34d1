-- ===== src/Sim/Engine/Transfers.antt =====
-- When a transfer between the settlements of an engine goes through, and what it leaves.
use city_life_core.Prelude.{
  ℕ, ◌+◌, ◌-◌, ◌≤◌, ◌≡◌, refl, ap, ◌∙◌, ◌⊎◌, inl, inr, Bool, true, false, not, ◌&&◌, String, Option,
  none, some, ltb, leb, ◌==◌, if◌then◌else◌, is_empty, is_some, str_eq, arith, eq_iff, u64_max,
  Bool-cases, ◌<>◌,
}
use city_life_core.Data.Validation.{ok, ok-error_report, verdicts, ok-refuse_if, refuse_if-passes}
use city_life_core.Data.Registry.{resource}
use city_life_core.Sim.Storage.{transfer}
use city_life_core.Sim.Storage.Transfer.{transfer-exact, transfer-refused, amount-transfer}
use city_life_core.Sim.Settlement.{SettlementState}
use city_life_core.Sim.Engine.{
  SimulationEngine, find_settlement, write_settlement, write, has_settlement, with_resource,
  transfer_between, transfer_resource_between_settlements, settlement_resource_amount,
}
use city_life_core.Sim.Engine.Goods.{find-id, find-write, write-same}

-- Whether a transfer between two settlements goes through.
abbrev pub can_send : SimulationEngine → String → String → String → ℕ → Bool
can_send e from to k n =
    not (is_empty from)
    && not (is_empty to)
    && not (str_eq from to)
    && not (is_empty k)
    && not (n == 0)
    && is_some (resource e.registry k)
    && has_settlement e from
    && has_settlement e to
    && leb n (settlement_resource_amount e from k)
    && not (ltb (u64_max - settlement_resource_amount e to k) n)

-- What settlement `i` holds of resource `j` after `n` of `k` went from `from` to `to`.
abbrev pub sent : SimulationEngine → String → String → String → ℕ → String → String → ℕ
sent e from to k n i j =
    let held = settlement_resource_amount e i j in
    if not (str_eq k j)
    then held
    else if str_eq from i
    then held - n
    else if str_eq to i
    then held + n
    else held

between-ok :
    (e : SimulationEngine) (from to k : String) (n : ℕ) (o p : Option SettlementState)
    → n ≤ u64_max
    → find_settlement e.settlements from ≡ o
    → find_settlement e.settlements to ≡ p
    → is_empty k ≡ false
    → (n == 0) ≡ false
    → ok (transfer_between e from to k n o p).1 ≡ (
        is_some o
        && is_some p
        && leb n (settlement_resource_amount e from k)
        && not (ltb (u64_max - settlement_resource_amount e to k) n))
unfolding transfer_between settlement_resource_amount
between-ok e from to k n none p h f g name positive = simp verdicts
between-ok e from to k n (some s) none h f g name positive = simp verdicts
between-ok e from to k n (some s) (some t) h f g name positive =
    ground (arith, transfer-exact s.storage t.storage k n h)

transfer-ok :
    (e : SimulationEngine) (from to k : String) (n : ℕ)
    → n ≤ u64_max
    → ok (transfer_resource_between_settlements e from to k n).1 ≡ can_send e from to k n
unfolding transfer_resource_between_settlements with_resource
transfer-ok e from to k n h =
    simp ok-refuse_if (ground (arith, between-ok e from to k n _ _ h refl refl))

between-same :
    (e : SimulationEngine) (from to k : String) (n : ℕ) (o p : Option SettlementState)
    → find_settlement e.settlements from ≡ o
    → find_settlement e.settlements to ≡ p
    → str_eq from to ≡ false
    → ok (transfer_between e from to k n o p).1 ≡ false
    → (transfer_between e from to k n o p).0 ≡ e
unfolding transfer_between
between-same e from to k n none p f g d h = refl
between-same e from to k n (some s) none f g d h = refl
between-same e from to k n (some s) (some t) f g d h =
    let (left, filled) = transfer-refused s.storage t.storage k n h in
    rw (left, filled)
      (ap (λ ss. record e { settlements = ss })
        (ap (λ ss. write_settlement ss to t) (write-same e.settlements from s f)
          ∙ write-same e.settlements to t g))

pub transfer-same :
    (e : SimulationEngine) (from to k : String) (n : ℕ)
    → ok (transfer_resource_between_settlements e from to k n).1 ≡ false
    → (transfer_resource_between_settlements e from to k n).0 ≡ e
unfolding transfer_resource_between_settlements with_resource
transfer-same e from to k n h = elim (Bool-cases (str_eq from to)) [
  | inl d ↦ ground (arith)
  | inr d ↦ ground (arith, between-same e from to k n _ _ refl refl d)
]

between-amounts :
    (e : SimulationEngine) (from to k i j : String) (n : ℕ) (o p : Option SettlementState)
    → find_settlement e.settlements from ≡ o
    → find_settlement e.settlements to ≡ p
    → str_eq from to ≡ false
    → ok (transfer_between e from to k n o p).1 ≡ true
    → settlement_resource_amount (transfer_between e from to k n o p).0 i j ≡ sent e from to k n i j
unfolding transfer_between settlement_resource_amount
between-amounts e from to k i j n none p f g d h =
    ground (arith, ok-error_report ("simulation.settlement." <> from) "unknown source settlement")
between-amounts e from to k i j n (some s) none f g d h =
    ground (arith, ok-error_report ("simulation.settlement." <> to) "unknown target settlement")
between-amounts e from to k i j n (some s) (some t) f g d h =
    let (left, filled) = amount-transfer s.storage t.storage k j n h in
    let s' = record s { storage = (transfer false s.storage t.storage k n).0 } in
    let t' = record t { storage = (transfer false s.storage t.storage k n).1 } in
    let source = find-id e.settlements from s f in
    let target = find-id e.settlements to t g in
    let there : find_settlement (write e from s').settlements to ≡ some t =
      find-write e.settlements from to s s' f source ∙ rw d g in
    ground (
      arith,
      find-write (write e from s').settlements to i t t' there target,
      find-write e.settlements from i s s' f source,
      eq_iff from i,
      eq_iff to i,
      eq_iff k j,
      eq_iff from to,
    )

transfer-amounts :
    (e : SimulationEngine) (from to k i j : String) (n : ℕ)
    → ok (transfer_resource_between_settlements e from to k n).1 ≡ true
    → settlement_resource_amount (transfer_resource_between_settlements e from to k n).0 i j
      ≡ sent e from to k n i j
unfolding transfer_resource_between_settlements with_resource
transfer-amounts e from to k i j n h =
    let (h1, _, p1) = refuse_if-passes (is_empty from) e _ _ _ h in
    let (h2, _, p2) = refuse_if-passes (is_empty to) e _ _ _ h1 in
    let (h3, d, p3) = refuse_if-passes (str_eq from to) e _ _ _ h2 in
    let (h4, _, p4) = refuse_if-passes (is_empty k) e _ _ _ h3 in
    let (h5, _, p5) = refuse_if-passes (n == 0) e _ _ _ h4 in
    let (h6, _, p6) = refuse_if-passes (not (is_some (resource e.registry k))) e _ _ _ h5 in
    ap (λ y. settlement_resource_amount y.0 i j) (p1 ∙ p2 ∙ p3 ∙ p4 ∙ p5 ∙ p6)
    ∙ between-amounts e from to k i j n _ _ refl refl d h6

-- A transfer of a 64-bit amount between settlements succeeds exactly when both ids are given,
-- differ and are known, the resource is named and registered, the amount is positive, the source
-- holds it and the target's counter has room. Then exactly that amount of exactly that resource
-- goes from the one to the other, and every other settlement and resource is as before. Otherwise
-- nothing changes.
pub transfer_between_settlements-exact :
    (e : SimulationEngine) (from to k : String) (n : ℕ)
    → n ≤ u64_max
    → let (e', report) = transfer_resource_between_settlements e from to k n in
      (ok report ≡ can_send e from to k n)
      × (((ok report ≡ true)
            × ((i j : String) → settlement_resource_amount e' i j ≡ sent e from to k n i j))
          ⊎ ((ok report ≡ false) × (e' ≡ e)))
unfolding transfer_resource_between_settlements with_resource
transfer_between_settlements-exact e from to k n h = (
  transfer-ok e from to k n h,
  elim (Bool-cases (ok (transfer_resource_between_settlements e from to k n).1)) [
    | inl f ↦ inl (f, λ i j. transfer-amounts e from to k i j n f)
    | inr f ↦ inr (f, transfer-same e from to k n f)
  ],
)
