-- ===== src/Tests/Goods.antt =====
-- Storages, settlements and caravans at work.
use city_life_core.Prelude.{
  str_eq, ℕ, ◌≡◌, ◌⊎◌, true, false, String, [], ◌∷◌, List, arith, str_eq, eq_iff, refl,
}
use city_life_core.Prelude.UnorderedMap.{find}
use city_life_core.Data.Validation.{ok}
use city_life_core.Data.Registry.{empty_registry}
use city_life_core.Sim.Storage.{
  ResourceStorage, empty_storage, add, try_remove, remove_up_to, transfer,
}
use city_life_core.Sim.Storage.Invariant.{
  IsValid, IsEntry, operations-IsValid, empty_storage-IsValid,
}
use city_life_core.Sim.Storage.Transfer.{can_transfer, transfer-exact}
use city_life_core.Sim.Settlement.{
  SettlementState, SettlementTickRemainder, numerator_at, remainder_by_key,
  advance_settlement_ticks,
}
use city_life_core.Sim.Settlement.Invariant.{IsWorking, advance_settlement_ticks-IsWorking}
use city_life_core.Sim.Caravans.{
  CaravanState, advance_caravan_ticks, caravan_arrived, caravan_ticks_remaining, validate_caravan,
  load_caravan_at_origin, unload_caravan_at_destination,
}
use city_life_core.Sim.Caravans.Journeys.{advance_caravan_ticks-invalid}
use city_life_core.Sim.Caravans.Cargo.{
  HandedOver, load_caravan_at_origin-HandedOver, unload_caravan_at_destination-HandedOver,
}
use city_life_core.Sim.Ownership.{OwnershipCatalog}

abbrev granary : ResourceStorage
granary = record { entries = ("grain", 40) ∷ ("wood", 3) ∷ [] }

abbrev cellar : ResourceStorage
cellar = record { entries = ("grain", 2) ∷ [] }

stocked-IsValid :
    (k : String) (n : ℕ) (s : ResourceStorage)
    → IsEntry k n
    → IsValid s
    → IsValid (record { entries = (k, n) ∷ s.entries })
unfolding find
stocked-IsValid k n s new valid = record { at = λ j v e. ground (arith, eq_iff k j, valid.at j v) }

granary-IsValid : IsValid granary
granary-IsValid =
    stocked-IsValid "grain" 40 (record { entries = ("wood", 3) ∷ [] })
      (refl, omega arith, omega arith)
      (stocked-IsValid "wood" 3 empty_storage (refl, omega arith, omega arith)
        empty_storage-IsValid)

operations-IsValid_example :
    IsValid (add granary "grain" 5).0
    × IsValid (try_remove granary "grain" 5).0
    × IsValid (remove_up_to granary "grain" 5).0
operations-IsValid_example = operations-IsValid granary "grain" 5 (omega arith) granary-IsValid

transfer-exact_example :
    (ok (transfer false granary cellar "grain" 7).2 ≡ can_transfer granary cellar "grain" 7)
    × ((can_transfer granary cellar "grain" 7 ≡ true)
        ⊎ (((transfer false granary cellar "grain" 7).0 ≡ granary)
            × ((transfer false granary cellar "grain" 7).1 ≡ cellar)))
transfer-exact_example = transfer-exact granary cellar "grain" 7 (omega arith)

abbrev remainders : List SettlementTickRemainder
remainders = record { key = "food:grain"; numerator = 86000 } ∷ []

remainders_small : numerator_at remainders "food:grain" ≡ 86000
unfolding remainder_by_key
remainders_small = refl

abbrev village : SettlementState
village = record {
  id = "village";
  display_name = "Village";
  population = 25;
  storage = granary;
  buildings = record { definition_id = "mill"; assigned_workers = 1 } ∷ [];
  tick_remainders = remainders;
}

advance_settlement_ticks-IsWorking_example :
    IsWorking (advance_settlement_ticks village empty_registry 90000).0
advance_settlement_ticks-IsWorking_example =
    advance_settlement_ticks-IsWorking village empty_registry 90000
      (record { stored = granary-IsValid; small = refl })

abbrev carts : CaravanState
carts = record {
  id = "carts";
  display_name = "Carts";
  route_id = "road";
  origin_settlement_id = "village";
  destination_settlement_id = "town";
  total_travel_days = 3;
  days_remaining = 3;
  total_travel_ticks = 259200;
  ticks_remaining = 259200;
  cargo = granary;
}

abbrev carts_there : CaravanState
carts_there = record carts { days_remaining = 0; ticks_remaining = 0 }

advance_caravan_ticks-invalid_example :
    ok (validate_caravan (advance_caravan_ticks carts 1000).0) ≡ false
unfolding caravan_ticks_remaining
advance_caravan_ticks-invalid_example =
    advance_caravan_ticks-invalid carts 1000 (omega arith) (omega arith)

load_caravan_at_origin-HandedOver_example :
    let (c', s', report) = load_caravan_at_origin carts village "grain" 6 in
    HandedOver granary granary s'.storage c'.cargo "grain" 6 report
load_caravan_at_origin-HandedOver_example =
    load_caravan_at_origin-HandedOver carts village "grain" 6 (omega arith) granary-IsValid

unload_caravan_at_destination-HandedOver_example :
    let (c', s', report) =
      unload_caravan_at_destination carts_there (record village { id = "town" }) "grain" 6 in
    HandedOver granary granary c'.cargo s'.storage "grain" 6 report
    × ((ok report ≡ false) ⊎ ((caravan_arrived carts_there ≡ true) × (str_eq "town" "town" ≡ true)))
unload_caravan_at_destination-HandedOver_example =
    unload_caravan_at_destination-HandedOver carts_there (record village { id = "town" }) "grain" 6
      (omega arith) granary-IsValid

abbrev owners : OwnershipCatalog
owners = record {
  settlements = [];
  caravans = record { caravan_id = "carts"; faction_id = "guild" } ∷ [];
}
