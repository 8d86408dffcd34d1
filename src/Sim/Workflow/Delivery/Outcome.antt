-- ===== src/Sim/Workflow/Delivery/Outcome.antt =====
-- A delivery, unless something stands in its way, brings the cargo to the destination and loses none
-- of it.
use city_life_core.Prelude.{
  ℕ, ◌+◌, ◌≡◌, str_eq, refl, sym, ap, subst, ◌∙◌, inl, inr, true, false, String, Option, none, some,
  [], if◌then◌else◌, arith, Bool-cases, Option-cases, ◌⊎◌, ◌<◌, u64_max, is_some,
}
use city_life_core.Prelude.Sort.{sort, sum_by-sort}
use city_life_core.Data.Validation.{ok, ok-empty, ok-error_report}
use city_life_core.Sim.Caravans.{CaravanState, caravan_by_id, caravan_arrived}
use city_life_core.Sim.Engine.{has_settlement, settlement_resource_amount}
use city_life_core.Sim.Runtime.{SimulationRuntime}
use city_life_core.Sim.Storage.{ResourceStorage, amount}
use city_life_core.Sim.Workflow.Cargo.{in_runtime, carried-write}
use city_life_core.Sim.Workflow.Delivery.Stocks.{
  entries_of, entry_total, share, brought, amount-brought, deliver_entries-ships,
  caravan_by_id-write_caravan,
}
use city_life_core.Sim.Workflow.Delivery.Entries.{
  deliver_entries-moves, IsBad, deliver_entries-IsBad, IsAll, collect-IsAll,
}
use city_life_core.Sim.Workflow.Delivery.Refusals.{
  Prevented, Prevented-sort, deliver_entries-Prevented, IsTooMuch, collect-IsTooMuch,
}
use city_life_core.Sim.Workflow.Delivery.{
  RuntimeCaravanCargoDeliveryResult, Collected, overflows, collected, entry_before, deliver_entries,
  deliver_collected, deliver_found, or_empty, deliver_runtime_arrived_caravan_cargo_to_destination,
}

-- A delivery that is ok: the caravan had arrived; what was delivered is all the cargo there was, by
-- resource, with its sum as the total; the destination holds that much more of each resource, and
-- every other settlement what it held; the caravan is as it was, but its cargo has nothing left,
-- and every other caravan stands as it did.
abbrev pub Delivered :
    SimulationRuntime
    → String
    → CaravanState
    → SimulationRuntime
    → RuntimeCaravanCargoDeliveryResult
    → Type 0
Delivered r id c r' result =
    (ok result.validation ≡ true)
    × (caravan_arrived c ≡ true)
    × (result.destination_settlement_id ≡ c.destination_settlement_id)
    × (result.delivered ≡ sort entry_before (entries_of c.cargo.entries))
    × (entry_total result.delivered ≡ result.total_amount)
    × ((i j : String)
        → settlement_resource_amount r'.engine i j
          ≡ settlement_resource_amount r.engine i j
            + (if str_eq c.destination_settlement_id i then amount c.cargo j else 0))
    × ((emptied : ResourceStorage) × ((j : String) → amount emptied j ≡ 0)
        × ((i : String)
            → caravan_by_id r'.caravans i ≡ (
                if str_eq id i
                then some (record c { cargo = emptied })
                else caravan_by_id r.caravans i)))
    × ((j : String) → in_runtime r' j ≡ in_runtime r j)

-- Why the caravan that was looked up cannot deliver: there is none, its destination is unknown, it
-- has not arrived, its cargo is more than a 64-bit number, or an entry of it cannot be handed over.
abbrev pub Blocked : SimulationRuntime → Option CaravanState → Type 0
Blocked r none = Unit
Blocked r (some c) =
    (has_settlement r.engine c.destination_settlement_id ≡ false)
    ⊎ (caravan_arrived c ≡ false)
    ⊎ (u64_max < entry_total (entries_of c.cargo.entries))
    ⊎ Prevented r.engine c (entries_of c.cargo.entries)

abbrev pub Brings :
    SimulationRuntime → String → SimulationRuntime × RuntimeCaravanCargoDeliveryResult → Type 0
Brings r id (r', result) =
    ((ok result.validation ≡ false) × Blocked r (caravan_by_id r.caravans id))
    ⊎ ((c : CaravanState) × (caravan_by_id r.caravans id ≡ some c) × Delivered r id c r' result)

-- All that the cargo holds of a resource is what its entries bring, where a delivery takes them all
-- out of it.
all_brought :
    (c c' : CaravanState) (j : String)
    → amount c'.cargo j + brought j (sort entry_before (entries_of c.cargo.entries))
      ≡ amount c.cargo j
    → (amount c'.cargo j ≡ 0)
      × (brought j (sort entry_before (entries_of c.cargo.entries)) ≡ amount c.cargo j)
all_brought c c' j h =
    let sorted = sum_by-sort entry_before (share j) (entries_of c.cargo.entries) in
    let held = amount-brought c.cargo.entries j in
    (omega (arith, sorted, held, h), omega (arith, sorted, held, h))

-- The entries of all the cargo, delivered without an error.
deliver_all-Delivered :
    (r : SimulationRuntime) (id : String) (c : CaravanState) (sum : ℕ)
    → caravan_by_id r.caravans id ≡ some c
    → caravan_arrived c ≡ true
    → entry_total (entries_of c.cargo.entries) ≡ sum
    → (deliver_entries r.engine c [] (sort entry_before (entries_of c.cargo.entries))).3 ≡ none
    → let (r', result) = deliver_collected r id c (collected (entries_of c.cargo.entries) sum) in
      Delivered r id c r' result
unfolding deliver_collected
deliver_all-Delivered r id c sum f there h e =
    let es = entries_of c.cargo.entries in
    let sorted = sort entry_before es in
    let (engine, c', delivered, failure) = deliver_entries r.engine c [] sorted in
    let all = (deliver_entries-moves sorted r.engine c [] "" e).1 in
    let same = (deliver_entries-ships sorted r.engine c [] "" "" e).2 in
    (
      ap (λ o. ok (or_empty o)) e ∙ ok-empty,
      there,
      refl,
      all,
      ap entry_total all ∙ sum_by-sort entry_before (λ x. x.amount) es ∙ h,
      λ i j.
          (deliver_entries-ships sorted r.engine c [] i j e).0
          ∙ ap
              (λ n.
                settlement_resource_amount r.engine i j
                + (if str_eq c.destination_settlement_id i then n else 0))
              (all_brought c c' j (deliver_entries-ships sorted r.engine c [] i j e).1).1,
      (
        c'.cargo,
        λ j. (all_brought c c' j (deliver_entries-ships sorted r.engine c [] "" j e).1).0,
        λ i.
            caravan_by_id-write_caravan r.caravans id i c c' f same
            ∙ ap (λ x. if str_eq id i then some x else caravan_by_id r.caravans i) same,
      ),
      λ j. omega (
        arith,
        (deliver_entries-moves sorted r.engine c [] j e).0,
        carried-write r.caravans id j c c' f,
      ),
    )

too_much-Blocked :
    (r : SimulationRuntime) (c : CaravanState) (message : String)
    → IsTooMuch r.engine c.destination_settlement_id 0
        (entries_of c.cargo.entries)
        (overflows message)
    → Blocked r (some c)
too_much-Blocked r c message (inl h) = inr (inr (inl (omega (arith, h))))
too_much-Blocked r c message (inr room) = inr (inr (inr (inr (inr room))))

deliver_collected-Brings :
    (r : SimulationRuntime) (id : String) (c : CaravanState) (x : Collected)
    → caravan_by_id r.caravans id ≡ some c
    → has_settlement r.engine c.destination_settlement_id ≡ true
    → caravan_arrived c ≡ true
    → IsAll 0 (entries_of c.cargo.entries) x
    → IsTooMuch r.engine c.destination_settlement_id 0 (entries_of c.cargo.entries) x
    → Brings r id (deliver_collected r id c x)
unfolding deliver_collected
deliver_collected-Brings r id c (overflows message) f here there h much =
    inl (ok-error_report _ message, rw f (too_much-Blocked r c message much))
deliver_collected-Brings r id c (collected es sum) f here there (same, h) much =
    let sorted = sort entry_before (entries_of c.cargo.entries) in
    rw same (elim (Option-cases (deliver_entries r.engine c [] sorted).3) [
      | inr (report, e) ↦
          let bad : ok report ≡ false =
            subst IsBad e (deliver_entries-IsBad sorted r.engine c []) in
          let prevented = deliver_entries-Prevented sorted r.engine c [] here (ap is_some e) in
          inl (
            ap (λ o. ok (or_empty o)) e ∙ bad,
            rw f (
                inr (inr (inr (Prevented-sort (entries_of c.cargo.entries) r.engine c prevented)))),
          )
      | inl e ↦ inr (
        c,
        f,
        deliver_all-Delivered r id c sum f there (sym (ap entry_total same) ∙ omega (arith, h)) e,
      )
    ])

deliver_found-Brings :
    (r : SimulationRuntime) (id : String) (o : Option CaravanState)
    → caravan_by_id r.caravans id ≡ o
    → Brings r id (deliver_found r id o)
unfolding deliver_found
deliver_found-Brings r id none f = inl (ok-error_report _ "unknown caravan", rw f tt)
deliver_found-Brings r id (some c) f =
    let destination = c.destination_settlement_id in
    elim (Bool-cases (has_settlement r.engine destination)) [
      | inr e ↦
          rw e (inl (ok-error_report _ "unknown caravan destination settlement", rw f (inl e)))
      | inl e ↦ elim (Bool-cases (caravan_arrived c)) [
        | inr away ↦
            rw (e, away)
              (inl (
                ok-error_report _ "caravan can only deliver cargo after arrival",
                rw f (inr (inl away)),
              ))
        | inl there ↦
            rw (e, there)
              (deliver_collected-Brings r id c _ f e there
                (collect-IsAll c.cargo.entries r.engine destination 0)
                (collect-IsTooMuch c.cargo.entries r.engine destination 0))
      ]
    ]

-- The delivery of a caravan's cargo goes through, or it reports an error and something stands in its
-- way: the caravan or its destination is unknown, it has not arrived, a total goes beyond a 64-bit
-- number, an id is empty, a resource is not registered, or the cargo lists one twice. When it goes
-- through, all that the caravan carried is at its destination: that settlement holds as much more of
-- each resource as the caravan carried and every other settlement what it held, the caravan is as
-- it was with nothing left in its cargo, and the other caravans are as they were. The result names
-- the destination and lists what was delivered, resource by resource in the order of their ids, with
-- its sum as the total. All settlements and caravans together hold of each resource what they held
-- before.
pub delivery-Brings :
    (r : SimulationRuntime) (id : String)
    → Brings r id (deliver_runtime_arrived_caravan_cargo_to_destination r id)
unfolding deliver_runtime_arrived_caravan_cargo_to_destination
delivery-Brings r id = deliver_found-Brings r id (caravan_by_id r.caravans id) refl
