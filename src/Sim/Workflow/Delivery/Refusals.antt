-- ===== src/Sim/Workflow/Delivery/Refusals.antt =====
-- What can stand in the way of a delivery.
use city_life_core.Prelude.{
  ℕ, ◌+◌, ◌<◌, ◌≡◌, ◌∙◌, inl, inr, ◌⊎◌, true, String, List, [], ◌∷◌, ◌++◌, sum_by, ◌==◌,
  if◌then◌else◌, arith, eq_iff, Bool-cases, u64_max, is_some, subst,
}
use city_life_core.Prelude.Sort.{sort, sum_by-sort}
use city_life_core.Prelude.UnorderedMap.{UnorderedMap}
use city_life_core.Data.Validation.{ok}
use city_life_core.Data.Registry.{DataRegistry}
use city_life_core.Sim.Caravans.{CaravanState}
use city_life_core.Sim.Engine.{
  SimulationEngine, has_settlement, settlement_resource_amount, add_resource_to_settlement,
}
use city_life_core.Sim.Engine.Goods.Amounts.{
  is_unfit, add_resource-refused, add_resource-keeps, add_resource-amount,
}
use city_life_core.Sim.Storage.{try_remove, amount}
use city_life_core.Sim.Storage.Amounts.{try_remove-ok, amount-try_remove}
use city_life_core.Sim.Workflow.{can_add_u64}
use city_life_core.Sim.Workflow.Delivery.{
  RuntimeCargoDeliveryEntry, Collected, overflows, collected, collect, push, deliver_entries, entry,
  entry_before,
}
use city_life_core.Sim.Workflow.Delivery.Stocks.{entries_of, entry_total, share, brought}

-- How many of some entries no settlement of the id could take in.
abbrev pub unfit : DataRegistry → String → List RuntimeCargoDeliveryEntry → ℕ
unfit registry id es = sum_by (λ e. if is_unfit registry id e.resource_id e.amount then 1 else 0) es

-- What prevents the delivery of some entries: one is unfit, the caravan holds less of a resource
-- than they name, or the destination has no room for it.
abbrev pub Prevented : SimulationEngine → CaravanState → List RuntimeCargoDeliveryEntry → Type 0
Prevented engine c es =
    (0 < unfit engine.registry c.destination_settlement_id es)
    ⊎ ((j : String) × (amount c.cargo j < brought j es))
    ⊎ ((j : String) × (u64_max
          < settlement_resource_amount engine c.destination_settlement_id j + brought j es))

-- What prevents the rest of a delivery prevents all of it.
Prevented-before :
    (e : RuntimeCargoDeliveryEntry) (es : List RuntimeCargoDeliveryEntry)
    (engine : SimulationEngine) (c : CaravanState)
    → (try_remove c.cargo e.resource_id e.amount).1 ≡ true
    → ok (add_resource_to_settlement engine c.destination_settlement_id e.resource_id e.amount).1
      ≡ true
    → Prevented
        (add_resource_to_settlement engine c.destination_settlement_id e.resource_id e.amount).0
        (record c { cargo = (try_remove c.cargo e.resource_id e.amount).0 })
        es
    → Prevented engine c (e ∷ es)
Prevented-before e es engine c taken added (inl h) =
    let d = c.destination_settlement_id in
    let (_, same) = add_resource-keeps engine d e.resource_id d e.amount added in
    let fewer : 0 < unfit engine.registry d es = subst (λ x. 0 < unfit x d es) same h in
    inl (omega (arith, fewer))
Prevented-before e es engine c taken added (inr (inl (j, h))) = inr (
    inl (
      j,
      ground (
        arith,
        h,
        taken,
        amount-try_remove c.cargo e.resource_id j e.amount,
        try_remove-ok c.cargo e.resource_id e.amount,
        eq_iff e.resource_id j,
      ),
    ))
Prevented-before e es engine c taken added (inr (inr (j, h))) =
    let d = c.destination_settlement_id in
    inr (
      inr (
        j,
        ground
            (arith, h, add_resource-amount engine d e.resource_id d j e.amount added, eq_iff d d),
      ))

-- A delivery to a known settlement that ends with an error was prevented.
pub deliver_entries-Prevented :
    (es : List RuntimeCargoDeliveryEntry) (engine : SimulationEngine) (c : CaravanState)
    (before : List RuntimeCargoDeliveryEntry)
    → has_settlement engine c.destination_settlement_id ≡ true
    → is_some (deliver_entries engine c before es).3 ≡ true
    → Prevented engine c es
unfolding deliver_entries
deliver_entries-Prevented [] engine c before here h = absurd (ground arith)
deliver_entries-Prevented (e ∷ es) engine c before here h =
    let d = c.destination_settlement_id in
    let (cargo, removed) = try_remove c.cargo e.resource_id e.amount in
    let (engine', report) = add_resource_to_settlement engine d e.resource_id e.amount in
    elim (Bool-cases removed) [
      | inr short ↦ elim (Bool-cases (e.amount == 0)) [
        | inl nothing ↦ inl (ground arith)
        | inr some_amount ↦ inr (
            inl (
              e.resource_id,
              ground (
                arith,
                try_remove-ok c.cargo e.resource_id e.amount,
                eq_iff e.resource_id e.resource_id,
              ),
            ))
      ]
      | inl taken ↦ elim (Bool-cases (ok report)) [
        | inr refused ↦ elim (add_resource-refused engine d e.resource_id e.amount here refused) [
          | inl bad ↦ inl (ground arith)
          | inr full ↦
              inr (inr (e.resource_id, ground (arith, full, eq_iff e.resource_id e.resource_id)))
        ]
        | inl added ↦
            let (known, _) = add_resource-keeps engine d e.resource_id d e.amount added in
            let h' : is_some
                  (deliver_entries engine' (record c { cargo = cargo }) (before ++ e ∷ []) es).3
                ≡ true =
              ground arith in
            Prevented-before e es engine c taken added (
              deliver_entries-Prevented es engine' (record c { cargo = cargo }) (before ++ e ∷ [])
                (known ∙ here) h')
      ]
    ]

-- The order of the entries does not matter for what prevents their delivery.
pub Prevented-sort :
    (es : List RuntimeCargoDeliveryEntry) (engine : SimulationEngine) (c : CaravanState)
    → Prevented engine c (sort entry_before es)
    → Prevented engine c es
Prevented-sort es engine c (inl h) = inl (omega (arith, h, sum_by-sort entry_before _ es))
Prevented-sort es engine c (inr (inl (j, h))) =
    inr (inl (j, omega (arith, h, sum_by-sort entry_before (share j) es)))
Prevented-sort es engine c (inr (inr (j, h))) =
    inr (inr (j, omega (arith, h, sum_by-sort entry_before (share j) es)))

-- Why the loop over the cargo ends early: the amounts go beyond a 64-bit number, those of all
-- entries together or those of a resource with what the destination holds of it.
abbrev pub IsTooMuch :
    SimulationEngine → String → ℕ → List RuntimeCargoDeliveryEntry → Collected → Type 0
IsTooMuch engine d start es (collected _ _) = Unit
IsTooMuch engine d start es (overflows _) =
    (u64_max < start + entry_total es)
    ⊎ ((j : String) × (u64_max < settlement_resource_amount engine d j + brought j es))

push-IsTooMuch :
    (x : Collected) (engine : SimulationEngine) (d k : String) (start n : ℕ)
    (es : List RuntimeCargoDeliveryEntry)
    → IsTooMuch engine d (start + n) es x
    → IsTooMuch engine d start (entry k n ∷ es) (push (entry k n) x)
unfolding push
push-IsTooMuch (collected es' sum) engine d k start n es h = tt
push-IsTooMuch (overflows message) engine d k start n es (inl h) = inl (omega (arith, h))
push-IsTooMuch (overflows message) engine d k start n es (inr (j, h)) = inr (j, omega (arith, h))

pub collect-IsTooMuch :
    (cargo : UnorderedMap ℕ) (engine : SimulationEngine) (d : String) (start : ℕ)
    → IsTooMuch engine d start (entries_of cargo) (collect engine d cargo start)
unfolding collect
collect-IsTooMuch [] engine d start = tt
collect-IsTooMuch ((k, n) ∷ cargo) engine d start = elim (Bool-cases (n == 0)) [
  | inl e ↦ rw e (collect-IsTooMuch cargo engine d start)
  | inr e ↦ elim (Bool-cases (can_add_u64 start n)) [
    | inr f ↦ rw (e, f) (inl (ground arith))
    | inl f ↦ elim (Bool-cases (can_add_u64 (settlement_resource_amount engine d k) n)) [
      | inr g ↦ rw (e, f, g) (inr (k, ground (arith, eq_iff k k)))
      | inl g ↦
          rw (e, f, g)
            (push-IsTooMuch _ engine d k start n (entries_of cargo)
              (collect-IsTooMuch cargo engine d (start + n)))
    ]
  ]
]
