-- ===== src/Tests/Contracts.antt =====
-- Contracts at work.
use city_life_core.Prelude.{
  keep_if, length, ◌+◌, ◌≡◌, ◌⊎◌, true, false, not, ◌&&◌, [], ◌∷◌, arith, map, ◌||◌, str_eq,
}
use city_life_core.Sim.Storage.{ResourceStorage}
use city_life_core.Economy.Trade.{Wallet}
use city_life_core.Economy.Ledger.{EconomyLedger, append_entry, reward_entry}
use city_life_core.Sim.Contracts.{
  «open», ResourceDeliveryContract, ContractCatalog, cancel_contract,
  fail_overdue_open_contracts_at_tick, overdue_open_contracts_at_tick,
}
use city_life_core.Sim.Caravans.{CaravanState}
use city_life_core.Sim.Ownership.{OwnershipCatalog}
use city_life_core.Sim.Contracts.Fulfillment.{
  fulfill_contract_from_owned_arrived_caravan_with_reward_and_ledger,
}
use city_life_core.Sim.Contracts.Fulfillment.Authority.{
  Guarded, fulfill_contract_from_owned_arrived_caravan_with_reward_and_ledger-Guarded,
}
use city_life_core.Prelude.Int.{pos, negsuc, leb_ℤ}
use city_life_core.Sim.Factions.{FactionCatalog, faction_reputation, make_faction_access_report}
use city_life_core.Sim.Factions.Access.{both_known, make_faction_access_report-exact}
use city_life_core.Sim.Contracts.Lifecycle.{
  is_late, expired, AllEvolve, fail_overdue_open_contracts_at_tick-exact,
}
use city_life_core.Sim.Contracts.Reachability.{expires, cancels, here, further, Reaches-AllEvolve}
use city_life_core.Sim.Contracts.Fulfillment.{
  ok, fulfill_contract_from_storage_with_reward_and_ledger,
}
use city_life_core.Sim.Contracts.Fulfillment.Delivery.{
  Fulfils, fulfill_contract_from_storage_with_reward_and_ledger-atomic,
}

abbrev wood_contract : ResourceDeliveryContract
wood_contract = record {
  id = "c1";
  display_name = "Wood for the town";
  issuer_faction_id = "crown";
  receiver_faction_id = "guild";
  resource_id = "wood";
  quantity = 5;
  reward_coins = 90;
  due_day = 0;
  due_ticks = 1000;
  status = «open»;
}

abbrev board : ContractCatalog
board = record { contracts = wood_contract ∷ record wood_contract { id = "c2" } ∷ [] }

abbrev yard : ResourceStorage
yard = record { entries = ("wood", 8) ∷ [] }

abbrev purse : Wallet
purse = record { coins = 10 }

abbrev book : EconomyLedger
book = record { entries = []; next_sequence = 1 }

abbrev after_deadline : ContractCatalog
after_deadline = (fail_overdue_open_contracts_at_tick board 1001).0

Reaches-AllEvolve_example :
    AllEvolve board.contracts (cancel_contract after_deadline "c1").0.contracts
Reaches-AllEvolve_example = Reaches-AllEvolve board (cancel_contract after_deadline "c1").0 (
    further board after_deadline (cancel_contract after_deadline "c1").0 (expires board 1001) (
      further after_deadline (cancel_contract after_deadline "c1").0
        (cancel_contract after_deadline "c1").0 (cancels after_deadline "c1")
        (here (cancel_contract after_deadline "c1").0)))

fail_overdue_open_contracts_at_tick-exact_example :
    let (k', report) = fail_overdue_open_contracts_at_tick board 1001 in
    (k'.contracts ≡ map (expired 1001) board.contracts)
    × (overdue_open_contracts_at_tick board 1001 ≡ keep_if (is_late 1001) board.contracts)
    × (overdue_open_contracts_at_tick k' 1001 ≡ [])
    × (report.failed_contract_ids ≡ map (λ c. c.id) (overdue_open_contracts_at_tick board 1001))
    × (report.failed_count ≡ length (keep_if (is_late 1001) board.contracts))
fail_overdue_open_contracts_at_tick-exact_example =
    fail_overdue_open_contracts_at_tick-exact board 1001

fulfill_contract_from_storage_with_reward_and_ledger-atomic_example :
    let (k', s', w', l', r) =
      fulfill_contract_from_storage_with_reward_and_ledger board "c1" yard purse book in
    ((ok r ≡ false) × (k' ≡ board) × (s' ≡ yard) × (w' ≡ purse) × (l' ≡ book))
    ⊎ ((ok r ≡ true)
        × Fulfils board "c1" yard k' s' r
        × (w'.coins ≡ 10 + r.reward_coins)
        × (l'
            ≡ append_entry book (
                reward_entry book r.contract_id r.resource_id r.quantity r.reward_coins
                  "contract reward payout")))
fulfill_contract_from_storage_with_reward_and_ledger-atomic_example =
    fulfill_contract_from_storage_with_reward_and_ledger-atomic board "c1" yard purse book
      (omega arith)

abbrev carts : CaravanState
carts = record {
  id = "carts";
  display_name = "Carts";
  route_id = "road";
  origin_settlement_id = "village";
  destination_settlement_id = "town";
  total_travel_days = 3;
  days_remaining = 0;
  total_travel_ticks = 259200;
  ticks_remaining = 0;
  cargo = yard;
}

abbrev owners : OwnershipCatalog
owners = record {
  settlements = [];
  caravans = record { caravan_id = "carts"; faction_id = "guild" } ∷ [];
}

fulfill_contract_from_owned_arrived_caravan_with_reward_and_ledger-Guarded_example :
    Guarded board carts purse book owners "guild" (
      fulfill_contract_from_owned_arrived_caravan_with_reward_and_ledger board "c1" carts owners
        "guild" purse book)
fulfill_contract_from_owned_arrived_caravan_with_reward_and_ledger-Guarded_example =
    fulfill_contract_from_owned_arrived_caravan_with_reward_and_ledger-Guarded board "c1" carts
      owners "guild" purse book

abbrev realm : FactionCatalog
realm = record {
  factions =
      record { id = "crown"; display_name = "The crown" }
      ∷ record { id = "guild"; display_name = "The guild" }
      ∷ [];
  reputations = [];
}

make_faction_access_report-exact_example :
    let r = make_faction_access_report realm "crown" "guild" in
    let v = faction_reputation realm "crown" "guild" in
    (r.can_trade
      ≡ (both_known realm "crown" "guild" && (str_eq "crown" "guild" || not (leb_ℤ v (negsuc 74)))))
    × (r.can_issue_contract
        ≡ (both_known realm "crown" "guild" && (str_eq "crown" "guild" || leb_ℤ (pos 0) v)))
    × (r.can_receive_contract ≡ r.can_trade)
make_faction_access_report-exact_example = make_faction_access_report-exact realm "crown" "guild"
