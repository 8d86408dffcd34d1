-- ===== src/Sim/Engine/Goods/Amounts.antt =====
-- What one settlement takes in or gives out, seen from all settlements of an engine.
use city_life_core.Prelude.{
  ◌&&◌, ◌||◌, ◌<◌, ◌⊎◌, inl, inr, Bool, false, Bool-cases, u64_max, ℕ, ◌+◌, ◌≡◌, refl, ap, ◌∙◌,
  true, not, String, Option, none, some, ◌==◌, if◌then◌else◌, is_empty, is_some, str_eq, arith,
  eq_iff, ◌<>◌,
}
use city_life_core.Data.Validation.{ok, ok-error_report, refuse_if-passes, ValidationReport}
use city_life_core.Data.Registry.{DataRegistry, resource}
use city_life_core.Sim.Storage.{add, try_remove}
use city_life_core.Sim.Storage.Amounts.{amount-add, add-ok, try_remove-ok, amount-try_remove}
use city_life_core.Sim.Settlement.{SettlementState}
use city_life_core.Sim.Engine.{
  SimulationEngine, find_settlement, at_settlement, with_resource, put_in, take_from,
  add_resource_to_settlement, remove_resource_from_settlement, settlement_resource_amount,
  has_settlement,
}
use city_life_core.Sim.Engine.Goods.{total, total-write, find-id, find-write}

-- A request about a resource that went through is what comes after its checks.
with_resource-passes :
    (e : SimulationEngine) (path k : String) (n : ℕ) (x : SimulationEngine × ValidationReport)
    → ok (with_resource e path k n x).1 ≡ true
    → (ok x.1 ≡ true) × (with_resource e path k n x ≡ x)
unfolding with_resource
with_resource-passes e path k n x h =
    let (h1, _, p1) = refuse_if-passes (is_empty k) e _ _ _ h in
    let (h2, _, p2) = refuse_if-passes (n == 0) e _ _ _ h1 in
    let (h3, _, p3) = refuse_if-passes (not (is_some (resource e.registry k))) e _ _ _ h2 in
    (h3, p1 ∙ p2 ∙ p3)

put_in-total :
    (e : SimulationEngine) (id k j : String) (n : ℕ) (o : Option SettlementState)
    → find_settlement e.settlements id ≡ o
    → ok (at_settlement e id (put_in k n) o).1 ≡ true
    → total (at_settlement e id (put_in k n) o).0.settlements j
      ≡ total e.settlements j + (if str_eq k j then n else 0)
unfolding at_settlement put_in
put_in-total e id k j n none f h =
    ground (arith, ok-error_report ("simulation.settlement." <> id) "unknown settlement")
put_in-total e id k j n (some s) f h = ground (
  arith,
  total-write e.settlements id j s (record s { storage = (add s.storage k n).0 }) f,
  amount-add s.storage k j n,
  eq_iff k j,
)

take_from-total :
    (e : SimulationEngine) (id k j : String) (n : ℕ) (o : Option SettlementState)
    → find_settlement e.settlements id ≡ o
    → ok (at_settlement e id (take_from id k n) o).1 ≡ true
    → total (at_settlement e id (take_from id k n) o).0.settlements j
        + (if str_eq k j then n else 0)
      ≡ total e.settlements j
unfolding at_settlement take_from
take_from-total e id k j n none f h =
    ground (arith, ok-error_report ("simulation.settlement." <> id) "unknown settlement")
take_from-total e id k j n (some s) f h = ground (
  arith,
  total-write e.settlements id j s (record s { storage = (try_remove s.storage k n).0 }) f,
  amount-try_remove s.storage k j n,
  try_remove-ok s.storage k n,
  ok-error_report ("simulation.settlement." <> id <> ".storage." <> k)
      "not enough resource in settlement storage",
  eq_iff k j,
)

-- What is added to a settlement is added to what all hold.
pub add_resource-total :
    (e : SimulationEngine) (id k j : String) (n : ℕ)
    → ok (add_resource_to_settlement e id k n).1 ≡ true
    → total (add_resource_to_settlement e id k n).0.settlements j
      ≡ total e.settlements j + (if str_eq k j then n else 0)
unfolding add_resource_to_settlement
add_resource-total e id k j n h =
    let (h1, _, p1) = refuse_if-passes (is_empty id) e _ _ _ h in
    let (h2, p2) = with_resource-passes e _ k n _ h1 in
    ap (λ (x : SimulationEngine × ValidationReport). total x.0.settlements j) (p1 ∙ p2)
    ∙ put_in-total e id k j n _ refl h2

-- What is removed from a settlement is missing from what all hold.
pub remove_resource-total :
    (e : SimulationEngine) (id k j : String) (n : ℕ)
    → ok (remove_resource_from_settlement e id k n).1 ≡ true
    → total (remove_resource_from_settlement e id k n).0.settlements j
        + (if str_eq k j then n else 0)
      ≡ total e.settlements j
unfolding remove_resource_from_settlement
remove_resource-total e id k j n h =
    let (h1, _, p1) = refuse_if-passes (is_empty id) e _ _ _ h in
    let (h2, p2) = with_resource-passes e _ k n _ h1 in
    ap
      (λ (x : SimulationEngine × ValidationReport).
        total x.0.settlements j + (if str_eq k j then n else 0))
      (p1 ∙ p2)
    ∙ take_from-total e id k j n _ refl h2

put_in-amount :
    (e : SimulationEngine) (id k i j : String) (n : ℕ) (o : Option SettlementState)
    → find_settlement e.settlements id ≡ o
    → ok (at_settlement e id (put_in k n) o).1 ≡ true
    → settlement_resource_amount (at_settlement e id (put_in k n) o).0 i j
      ≡ settlement_resource_amount e i j + (if str_eq id i && str_eq k j then n else 0)
unfolding at_settlement put_in settlement_resource_amount
put_in-amount e id k i j n none f h =
    ground (arith, ok-error_report ("simulation.settlement." <> id) "unknown settlement")
put_in-amount e id k i j n (some s) f h =
    let s' = record s { storage = (add s.storage k n).0 } in
    let written = find-write e.settlements id i s s' f (find-id e.settlements id s f) in
    ground (arith, written, f, amount-add s.storage k j n, eq_iff k j, eq_iff id i)

-- What is added to a settlement is there afterwards, and nothing else has changed.
pub add_resource-amount :
    (e : SimulationEngine) (id k i j : String) (n : ℕ)
    → ok (add_resource_to_settlement e id k n).1 ≡ true
    → settlement_resource_amount (add_resource_to_settlement e id k n).0 i j
      ≡ settlement_resource_amount e i j + (if str_eq id i && str_eq k j then n else 0)
unfolding add_resource_to_settlement
add_resource-amount e id k i j n h =
    let (h1, _, p1) = refuse_if-passes (is_empty id) e _ _ _ h in
    let (h2, p2) = with_resource-passes e _ k n _ h1 in
    ap (λ (x : SimulationEngine × ValidationReport). settlement_resource_amount x.0 i j) (p1 ∙ p2)
    ∙ put_in-amount e id k i j n _ refl h2

-- A request to take in a resource that no settlement could take in, however much room it has.
abbrev pub is_unfit : DataRegistry → String → String → ℕ → Bool
is_unfit registry id k n =
    is_empty id || is_empty k || n == 0 || not (is_some (resource registry k))

put_in-refused :
    (e : SimulationEngine) (id k : String) (n : ℕ) (o : Option SettlementState)
    → find_settlement e.settlements id ≡ o
    → is_some o ≡ true
    → is_unfit e.registry id k n ≡ false
    → ok (at_settlement e id (put_in k n) o).1 ≡ false
    → u64_max < settlement_resource_amount e id k + n
unfolding at_settlement put_in settlement_resource_amount
put_in-refused e id k n none f here fit h = ground arith
put_in-refused e id k n (some s) f here fit h = ground (arith, f, add-ok s.storage k n)

-- A known settlement refuses only what is unfit, or what its 64-bit counter has no room for.
pub add_resource-refused :
    (e : SimulationEngine) (id k : String) (n : ℕ)
    → has_settlement e id ≡ true
    → ok (add_resource_to_settlement e id k n).1 ≡ false
    → (is_unfit e.registry id k n ≡ true) ⊎ (u64_max < settlement_resource_amount e id k + n)
unfolding add_resource_to_settlement with_resource
add_resource-refused e id k n here h = elim (Bool-cases (is_unfit e.registry id k n)) [
  | inl unfit ↦ inl unfit
  | inr fit ↦ inr (put_in-refused e id k n _ refl here fit (ground arith))
]

put_in-keeps :
    (e : SimulationEngine) (id k i : String) (n : ℕ) (o : Option SettlementState)
    → find_settlement e.settlements id ≡ o
    → let (e', report) = at_settlement e id (put_in k n) o in
      (has_settlement e' i ≡ has_settlement e i) × (e'.registry ≡ e.registry)
unfolding at_settlement put_in
put_in-keeps e id k i n none f = (refl, refl)
put_in-keeps e id k i n (some s) f =
    let s' = record s { storage = (add s.storage k n).0 } in
    let written = find-write e.settlements id i s s' f (find-id e.settlements id s f) in
    (ground (arith, written, f, eq_iff id i), refl)

-- What is added to a settlement leaves the registry and which settlements there are.
pub add_resource-keeps :
    (e : SimulationEngine) (id k i : String) (n : ℕ)
    → ok (add_resource_to_settlement e id k n).1 ≡ true
    → let (e', report) = add_resource_to_settlement e id k n in
      (has_settlement e' i ≡ has_settlement e i) × (e'.registry ≡ e.registry)
unfolding add_resource_to_settlement
add_resource-keeps e id k i n h =
    let (h1, _, p1) = refuse_if-passes (is_empty id) e _ _ _ h in
    let (h2, p2) = with_resource-passes e _ k n _ h1 in
    let (known, same) = put_in-keeps e id k i n _ refl in
    (
      ap (λ (x : SimulationEngine × ValidationReport). has_settlement x.0 i) (p1 ∙ p2) ∙ known,
      ap (λ (x : SimulationEngine × ValidationReport). x.0.registry) (p1 ∙ p2) ∙ same,
    )
