-- ===== src/Sim/Workflow/Cargo.antt =====
-- Goods that a runtime's caravans take on and put down: none is made and none is lost.
use city_life_core.Prelude.{
  ℕ, ◌+◌, ◌≤◌, ◌≡◌, refl, ap, inl, inr, true, false, not, String, Option, none, some, sum_by, ltb,
  ◌==◌, if_both, is_empty, str_eq, arith, eq_iff, u64_max, Bool-cases, ◌<>◌,
}
use city_life_core.Prelude.Lists.{sum_by-replace_if}
use city_life_core.Data.Validation.{ValidationReport, ok}
use city_life_core.Sim.Caravans.{
  CaravanState, CaravanFleet, caravan_by_id, resource_request, caravan_arrived,
  caravan_ticks_remaining, caravan_total_travel_ticks,
}
use city_life_core.Sim.Caravans.Cargo.{ok-resource_request}
use city_life_core.Sim.Engine.{
  SimulationEngine, has_settlement, settlement_resource_amount, add_resource_to_settlement,
  remove_resource_from_settlement,
}
use city_life_core.Sim.Engine.Commands.Refusals.{add_resource-Refuses, remove_resource-Refuses}
use city_life_core.Sim.Engine.Goods.{total}
use city_life_core.Sim.Engine.Goods.Amounts.{add_resource-total, remove_resource-total}
use city_life_core.Sim.Runtime.{SimulationRuntime}
use city_life_core.Sim.Storage.{ResourceStorage, add, try_remove, amount}
use city_life_core.Sim.Storage.Amounts.{add-ok, amount-add, try_remove-ok, amount-try_remove}
use city_life_core.Sim.Workflow.{
  can_add_u64, write_caravan, take_on, load, load_runtime_caravan_at_origin, put_down, unload,
  unload_runtime_caravan_at_destination,
}

-- What all caravans carry of a resource.
abbrev pub carried : CaravanFleet → String → ℕ
carried fleet resource_id = sum_by (λ c. amount c.cargo resource_id) fleet.caravans

-- What all settlements hold and all caravans carry of a resource.
abbrev pub in_runtime : SimulationRuntime → String → ℕ
in_runtime r resource_id = total r.engine.settlements resource_id + carried r.caravans resource_id

abbrev Keeps : SimulationRuntime → String → SimulationRuntime × ValidationReport → Type 0
Keeps r j x = in_runtime x.0 j ≡ in_runtime r j

pub carried-write :
    (fleet : CaravanFleet) (id j : String) (c c' : CaravanState)
    → caravan_by_id fleet id ≡ some c
    → carried (write_caravan fleet id c') j + amount c.cargo j ≡ carried fleet j + amount c'.cargo j
unfolding caravan_by_id
carried-write fleet id j c c' h =
    sum_by-replace_if (λ x. amount x.cargo j) (λ x. str_eq x.id id) c' c fleet.caravans h

take_on-Keeps :
    (r : SimulationRuntime) (id k j : String) (n : ℕ) (c : CaravanState)
    → caravan_by_id r.caravans id ≡ some c
    → n ≤ u64_max
    → is_empty k ≡ false
    → (n == 0) ≡ false
    → can_add_u64 (amount c.cargo k) n ≡ true
    → Keeps r j (take_on r id c k n)
unfolding take_on
take_on-Keeps r id k j n c f h name positive room =
    let (engine, removed) = remove_resource_from_settlement r.engine c.origin_settlement_id k n in
    let (cargo, added) = add c.cargo k n in
    let fits : ok added ≡ true = ground (arith, add-ok c.cargo k n h) in
    elim (Bool-cases (ok removed)) [
      | inr refused ↦ rw refused (
          ap (λ (e : SimulationEngine). total e.settlements j + carried r.caravans j)
            (remove_resource-Refuses r.engine c.origin_settlement_id k n refused))
      | inl taken ↦
          rw (taken, fits)
            (ground (
              arith,
              remove_resource-total r.engine c.origin_settlement_id k j n taken,
              carried-write r.caravans id j c (record c { cargo = cargo }) f,
              amount-add c.cargo k j n,
              eq_iff k j,
            ))
    ]

put_down-Keeps :
    (r : SimulationRuntime) (id k j : String) (n : ℕ) (c : CaravanState)
    → caravan_by_id r.caravans id ≡ some c
    → n ≤ u64_max
    → is_empty k ≡ false
    → (n == 0) ≡ false
    → amount c.cargo k ≤ u64_max
    → Keeps r j (put_down r id c k n)
unfolding put_down
put_down-Keeps r id k j n c f h name positive valid =
    let (cargo, removed) = try_remove c.cargo k n in
    let (engine, report) = add_resource_to_settlement r.engine c.destination_settlement_id k n in
    let write =
      λ (s : ResourceStorage). carried-write r.caravans id j c (record c { cargo = s }) f in
    elim (Bool-cases removed) [
      | inr refused ↦ rw refused refl
      | inl taken ↦ elim (Bool-cases (ok report)) [
        | inl added ↦
            rw (taken, added)
              (ground (
                arith,
                add_resource-total r.engine c.destination_settlement_id k j n added,
                write cargo,
                amount-try_remove c.cargo k j n,
                try_remove-ok c.cargo k n,
                eq_iff k j,
              ))
        | inr refused ↦
            rw (taken, refused)
              (ground (
                arith,
                ap (λ (e : SimulationEngine). total e.settlements j)
                    (add_resource-Refuses r.engine c.destination_settlement_id k n refused),
                write (add cargo k n).0,
                amount-try_remove c.cargo k j n,
                amount-try_remove c.cargo k k n,
                try_remove-ok c.cargo k n,
                amount-add cargo k j n,
                add-ok cargo k n h,
                eq_iff k j,
              ))
      ]
    ]

load-Keeps :
    (r : SimulationRuntime) (id k j : String) (n : ℕ) (o : Option CaravanState)
    → caravan_by_id r.caravans id ≡ o
    → n ≤ u64_max
    → Keeps r j (load r id k n o)
unfolding load
load-Keeps r id k j n none f h = refl
load-Keeps r id k j n (some c) f h =
    let path = "simulation.caravan." <> c.id <> ".load" in
    let asked = ok-resource_request path k n in
    elim (Bool-cases (ok (resource_request path k n))) [
      | inr e ↦ rw e refl
      | inl e ↦ elim (Bool-cases (can_add_u64 (amount c.cargo k) n)) [
        | inr room ↦
            rw (e, room)
              (if_both (Keeps r j) (not (has_settlement r.engine c.origin_settlement_id)) _ _ refl (
                if_both (Keeps r j)
                  (not (caravan_ticks_remaining c == caravan_total_travel_ticks c)) _ _ refl
                  (if_both (Keeps r j)
                    (ltb (settlement_resource_amount r.engine c.origin_settlement_id k) n) _ _ refl
                    refl)))
        | inl room ↦
            rw (e, room)
              (if_both (Keeps r j) (not (has_settlement r.engine c.origin_settlement_id)) _ _ refl (
                if_both (Keeps r j)
                  (not (caravan_ticks_remaining c == caravan_total_travel_ticks c)) _ _ refl
                  (if_both (Keeps r j)
                    (ltb (settlement_resource_amount r.engine c.origin_settlement_id k) n) _ _ refl
                    (take_on-Keeps r id k j n c f h (ground arith) (ground arith) room))))
      ]
    ]

unload-Keeps :
    (r : SimulationRuntime) (id k j : String) (n : ℕ) (o : Option CaravanState)
    → caravan_by_id r.caravans id ≡ o
    → n ≤ u64_max
    → ((c : CaravanState) → caravan_by_id r.caravans id ≡ some c → amount c.cargo k ≤ u64_max)
    → Keeps r j (unload r id k n o)
unfolding unload
unload-Keeps r id k j n none f h valid = refl
unload-Keeps r id k j n (some c) f h valid =
    let path = "simulation.caravan." <> c.id <> ".unload" in
    let asked = ok-resource_request path k n in
    elim (Bool-cases (ok (resource_request path k n))) [
      | inr e ↦ rw e refl
      | inl e ↦ rw e (
          if_both (Keeps r j) (not (has_settlement r.engine c.destination_settlement_id)) _ _ refl (
            if_both (Keeps r j) (not (caravan_arrived c)) _ _ refl (
              if_both (Keeps r j) (ltb (amount c.cargo k) n) _ _ refl (
                if_both (Keeps r j)
                  (not (
                    can_add_u64 (settlement_resource_amount r.engine c.destination_settlement_id k)
                      n))
                  _ _ refl
                  (put_down-Keeps r id k j n c f h (ground arith) (ground arith) (valid c f))))))
    ]

-- Whatever 64-bit amount of a resource a caravan is asked to take on at its origin or to put down
-- at its destination, and whatever comes of it, rollbacks included, all settlements and caravans of
-- the runtime hold together of each resource what they held before. For the second, the caravan's
-- cargo of the resource must be a 64-bit number.
pub cargo-conserved :
    (r : SimulationRuntime) (id k j : String) (n : ℕ)
    → n ≤ u64_max
    → ((c : CaravanState) → caravan_by_id r.caravans id ≡ some c → amount c.cargo k ≤ u64_max)
    → (in_runtime (load_runtime_caravan_at_origin r id k n).0 j ≡ in_runtime r j)
      × (in_runtime (unload_runtime_caravan_at_destination r id k n).0 j ≡ in_runtime r j)
unfolding load_runtime_caravan_at_origin unload_runtime_caravan_at_destination
cargo-conserved r id k j n h valid = (
  load-Keeps r id k j n (caravan_by_id r.caravans id) refl h,
  unload-Keeps r id k j n (caravan_by_id r.caravans id) refl h valid,
)
