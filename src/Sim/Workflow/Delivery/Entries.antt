-- ===== src/Sim/Workflow/Delivery/Entries.antt =====
-- What the loop over the cargo collects, and what the loop over the entries hands over.
use city_life_core.Prelude.{
  ℕ, ◌+◌, ◌≡◌, refl, sym, ap, ◌∙◌, inl, inr, false, not, String, Option, none, some, List, [], ◌∷◌,
  ◌++◌, append-nil, append_assoc, ◌==◌, arith, eq_iff, Bool-cases, if_both,
}
use city_life_core.Prelude.UnorderedMap.{UnorderedMap}
use city_life_core.Data.Validation.{ValidationReport, ok, ok-error_report}
use city_life_core.Sim.Caravans.{CaravanState}
use city_life_core.Sim.Engine.{
  SimulationEngine, settlement_resource_amount, add_resource_to_settlement,
}
use city_life_core.Sim.Engine.Goods.{total}
use city_life_core.Sim.Engine.Goods.Amounts.{add_resource-total}
use city_life_core.Sim.Storage.{try_remove, amount}
use city_life_core.Sim.Storage.Amounts.{try_remove-ok, amount-try_remove}
use city_life_core.Sim.Workflow.{can_add_u64}
use city_life_core.Sim.Workflow.Delivery.Stocks.{entries_of, entry_total}
use city_life_core.Sim.Workflow.Delivery.{
  RuntimeCargoDeliveryEntry, Collected, overflows, collected, push, collect, deliver_entries, entry,
}

pub deliver_entries-moves :
    (es : List RuntimeCargoDeliveryEntry) (engine : SimulationEngine) (c : CaravanState)
    (before : List RuntimeCargoDeliveryEntry) (j : String)
    → (deliver_entries engine c before es).3 ≡ none
    → let (engine', c', delivered, failure) = deliver_entries engine c before es in
      (total engine'.settlements j + amount c'.cargo j
        ≡ total engine.settlements j + amount c.cargo j)
      × (delivered ≡ before ++ es)
unfolding deliver_entries
deliver_entries-moves [] engine c before j h = (refl, sym (append-nil before))
deliver_entries-moves (e ∷ es) engine c before j h =
    let (cargo, removed) = try_remove c.cargo e.resource_id e.amount in
    let (engine', report) =
      add_resource_to_settlement engine c.destination_settlement_id e.resource_id e.amount in
    let lighter = record c { cargo = cargo } in
    elim (Bool-cases removed) [
      | inr short ↦ absurd (ground arith)
      | inl taken ↦ elim (Bool-cases (ok report)) [
        | inr refused ↦ absurd (ground arith)
        | inl added ↦
            let h' : (deliver_entries engine' lighter (before ++ e ∷ []) es).3 ≡ none =
              ground arith in
            let (moved, all) = deliver_entries-moves es engine' lighter (before ++ e ∷ []) j h' in
            rw (taken, added)
              (
                ground (
                  arith,
                  moved,
                  add_resource-total engine c.destination_settlement_id e.resource_id j e.amount
                      added,
                  amount-try_remove c.cargo e.resource_id j e.amount,
                  try_remove-ok c.cargo e.resource_id e.amount,
                  eq_iff e.resource_id j,
                ),
                all ∙ append_assoc before (e ∷ []) es,
              )
      ]
    ]

-- Where there is an error, the report is not ok.
abbrev pub IsBad : Option ValidationReport → Type 0
IsBad none = Unit
IsBad (some report) = ok report ≡ false

pub deliver_entries-IsBad :
    (es : List RuntimeCargoDeliveryEntry) (engine : SimulationEngine) (c : CaravanState)
    (before : List RuntimeCargoDeliveryEntry)
    → IsBad (deliver_entries engine c before es).3
unfolding deliver_entries
deliver_entries-IsBad [] engine c before = tt
deliver_entries-IsBad (e ∷ es) engine c before =
    let (cargo, removed) = try_remove c.cargo e.resource_id e.amount in
    let (engine', report) =
      add_resource_to_settlement engine c.destination_settlement_id e.resource_id e.amount in
    elim (Bool-cases removed) [
      | inr short ↦ rw short (ok-error_report _ "caravan cargo changed during delivery")
      | inl taken ↦ elim (Bool-cases (ok report)) [
        | inr refused ↦ rw (taken, refused) refused
        | inl added ↦
            rw (taken, added)
              (deliver_entries-IsBad es engine' (record c { cargo = cargo }) (before ++ e ∷ []))
      ]
    ]

-- All of the entries, and their total.
abbrev pub IsAll : ℕ → List RuntimeCargoDeliveryEntry → Collected → Type 0
IsAll start expected (overflows _) = Unit
IsAll start expected (collected es sum) = (es ≡ expected) × (start + entry_total es ≡ sum)

push-IsAll :
    (x : Collected) (start n : ℕ) (k : String) (expected : List RuntimeCargoDeliveryEntry)
    → IsAll (start + n) expected x
    → IsAll start (entry k n ∷ expected) (push (entry k n) x)
unfolding push
push-IsAll (overflows message) start n k expected h = tt
push-IsAll (collected es sum) start n k expected (same, h) =
    (ap (λ xs. entry k n ∷ xs) same, omega (arith, h))

pub collect-IsAll :
    (cargo : UnorderedMap ℕ) (engine : SimulationEngine) (destination : String) (start : ℕ)
    → IsAll start (entries_of cargo) (collect engine destination cargo start)
unfolding collect
collect-IsAll [] engine destination start = (refl, omega arith)
collect-IsAll ((k, n) ∷ cargo) engine destination start = elim (Bool-cases (n == 0)) [
  | inl e ↦ rw e (collect-IsAll cargo engine destination start)
  | inr e ↦ rw e (
      if_both (IsAll start (entry k n ∷ entries_of cargo)) (not (can_add_u64 start n)) _ _ tt (
        if_both (IsAll start (entry k n ∷ entries_of cargo))
          (not (can_add_u64 (settlement_resource_amount engine destination k) n)) _ _ tt
          (push-IsAll _ start n k (entries_of cargo)
            (collect-IsAll cargo engine destination (start + n)))))
]
