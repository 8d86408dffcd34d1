-- ===== src/Sim/Workflow/Delivery/Stocks.antt =====
-- Where the goods of a delivery are afterwards.
use city_life_core.Prelude.{
  ℕ, ◌+◌, ◌≤◌, ◌≡◌, refl, ap, ◌∙◌, inl, inr, String, none, some, List, [], ◌∷◌, ◌++◌, sum_by, ◌==◌,
  if◌then◌else◌, str_eq, find_if, arith, eq_iff, Bool-cases,
}
use city_life_core.Prelude.Lists.{replace_if}
use city_life_core.Prelude.UnorderedMap.{UnorderedMap, find}
use city_life_core.Data.Validation.{ok}
use city_life_core.Sim.Caravans.{CaravanState, CaravanFleet, caravan_by_id}
use city_life_core.Sim.Engine.{
  SimulationEngine, settlement_resource_amount, add_resource_to_settlement,
}
use city_life_core.Sim.Engine.Goods.Amounts.{add_resource-amount}
use city_life_core.Sim.Storage.{try_remove, amount}
use city_life_core.Sim.Storage.Amounts.{try_remove-ok, amount-try_remove}
use city_life_core.Sim.Workflow.{write_caravan}
use city_life_core.Sim.Workflow.Delivery.{RuntimeCargoDeliveryEntry, deliver_entries, entry}

-- What there is to deliver of a cargo: each resource of it with a positive amount.
abbrev pub entries_of : UnorderedMap ℕ → List RuntimeCargoDeliveryEntry
entries_of [] = []
entries_of ((k, n) ∷ cargo) =
    let rest = entries_of cargo in if n == 0 then rest else entry k n ∷ rest

-- The sum of the amounts of some entries.
abbrev pub entry_total : List RuntimeCargoDeliveryEntry → ℕ
entry_total es = sum_by (λ e. e.amount) es

-- What some entries bring of a resource.
abbrev pub share : String → RuntimeCargoDeliveryEntry → ℕ
share j e = if str_eq e.resource_id j then e.amount else 0

abbrev pub brought : String → List RuntimeCargoDeliveryEntry → ℕ
brought j es = sum_by (share j) es

-- The entries of a cargo bring at least what it holds.
pub amount-brought :
    (cargo : UnorderedMap ℕ) (j : String)
    → amount (record { entries = cargo }) j ≤ brought j (entries_of cargo)
unfolding amount find
amount-brought [] j = omega arith
amount-brought ((k, n) ∷ cargo) j = ground (arith, amount-brought cargo j)

-- A delivery that goes through takes from the cargo what it brings to the destination, and leaves
-- the rest of the caravan and every other settlement alone.
pub deliver_entries-ships :
    (es : List RuntimeCargoDeliveryEntry) (engine : SimulationEngine) (c : CaravanState)
    (before : List RuntimeCargoDeliveryEntry) (i j : String)
    → (deliver_entries engine c before es).3 ≡ none
    → let (engine', c', _, _) = deliver_entries engine c before es in
      (settlement_resource_amount engine' i j
        ≡ settlement_resource_amount engine i j
          + (if str_eq c.destination_settlement_id i then brought j es else 0))
      × (amount c'.cargo j + brought j es ≡ amount c.cargo j)
      × (c' ≡ record c { cargo = c'.cargo })
unfolding deliver_entries
deliver_entries-ships [] engine c before i j h = (ground arith, omega arith, refl)
deliver_entries-ships (e ∷ es) engine c before i j h =
    let (cargo, removed) = try_remove c.cargo e.resource_id e.amount in
    let (engine', report) =
      add_resource_to_settlement engine c.destination_settlement_id e.resource_id e.amount in
    let lighter = record c { cargo = cargo } in
    elim (Bool-cases removed) [
      | inr short ↦ absurd (ground arith)
      | inl taken ↦ elim (Bool-cases (ok report)) [
        | inr refused ↦ absurd (ground arith)
        | inl added ↦
            let h' : (deliver_entries engine' lighter (before ++ e ∷ []) es).3 ≡ none =
              ground arith in
            let (stocked, left, rest) =
              deliver_entries-ships es engine' lighter (before ++ e ∷ []) i j h' in
            let arrived =
              add_resource-amount engine c.destination_settlement_id e.resource_id i j e.amount
                added in
            let gone = amount-try_remove c.cargo e.resource_id j e.amount in
            let enough = try_remove-ok c.cargo e.resource_id e.amount in
            rw (taken, added)
              (
                ground (arith, stocked, arrived),
                ground (arith, left, gone, enough, eq_iff e.resource_id j),
                rest,
              )
      ]
    ]

found_id :
    (cs : List CaravanState) (id : String) (c : CaravanState)
    → find_if (λ x. str_eq x.id id) cs ≡ some c
    → c.id ≡ id
found_id [] id c h = ground arith
found_id (x ∷ xs) id c h = ground (arith, eq_iff x.id id, found_id xs id c)

found-replace_if :
    (cs : List CaravanState) (id i : String) (c c' : CaravanState)
    → find_if (λ x. str_eq x.id id) cs ≡ some c
    → c'.id ≡ id
    → find_if (λ x. str_eq x.id i) (replace_if (λ x. str_eq x.id id) c' cs)
      ≡ (if str_eq id i then some c' else find_if (λ x. str_eq x.id i) cs)
unfolding replace_if
found-replace_if [] id i c c' h e = ground arith
found-replace_if (x ∷ xs) id i c c' h e = elim (Bool-cases (str_eq x.id id)) [
  | inl here ↦
      ground (arith, eq_iff x.id id, eq_iff c'.id id, eq_iff id i, eq_iff c'.id i, eq_iff x.id i)
  | inr away ↦
      ground (arith, eq_iff x.id id, eq_iff id i, eq_iff x.id i, found-replace_if xs id i c c')
]

-- A caravan that is written back under its id is found there, and all others are found as before.
pub caravan_by_id-write_caravan :
    (fleet : CaravanFleet) (id i : String) (c c' : CaravanState)
    → caravan_by_id fleet id ≡ some c
    → c' ≡ record c { cargo = c'.cargo }
    → caravan_by_id (write_caravan fleet id c') i
      ≡ (if str_eq id i then some c' else caravan_by_id fleet i)
unfolding caravan_by_id
caravan_by_id-write_caravan fleet id i c c' h same =
    found-replace_if fleet.caravans id i c c' h
      (ap (λ (x : CaravanState). x.id) same ∙ found_id fleet.caravans id c h)
