-- ===== src/Sim/Workflow/Fulfilling/First.antt =====
-- The first contract that a caravan can fulfil is fulfilled whole, or nothing happens.
use city_life_core.Prelude.{
  ◌+◌, ◌≤◌, ◌≡◌, refl, ap, ◌∙◌, ◌⊎◌, inl, inr, true, false, not, ◌||◌, String, Option, none, some,
  List, [], ◌∷◌, ltb, str_eq, Bool-cases, u64_max,
}
use city_life_core.Prelude.Lists.{replace_if-same}
use city_life_core.Economy.Ledger.{EconomyLedger}
use city_life_core.Economy.Trade.{Wallet}
use city_life_core.Sim.Caravans.{CaravanState, caravan_by_id, caravan_arrived}
use city_life_core.Sim.Contracts.{ResourceDeliveryContract, ContractCatalog, contract_is_open}
use city_life_core.Sim.Contracts.Fulfillment.{
  ContractFulfillmentResult, ok, fulfill_contract_from_owned_arrived_caravan_with_reward_and_ledger,
}
use city_life_core.Sim.Contracts.Fulfillment.Authority.{
  fulfill_contract_from_owned_arrived_caravan_with_reward_and_ledger-Authorised,
}
use city_life_core.Sim.Contracts.Fulfillment.Delivery.{Fulfils}
use city_life_core.Sim.Ownership.{caravan_owner}
use city_life_core.Sim.Runtime.{SimulationRuntime}
use city_life_core.Sim.Storage.{amount}
use city_life_core.Sim.Workflow.{write_caravan}
use city_life_core.Sim.Workflow.Fulfilling.{
  with_fulfilment, try_contracts, first_found,
  fulfill_first_runtime_contract_for_owned_arrived_caravan_with_reward_and_ledger,
}

-- A runtime in which the caravan `c`, under its id, fulfilled the contract `contract_id`.
pub record Delivers (r : SimulationRuntime) (caravan_id faction : String) (r' : SimulationRuntime)
    (result : ContractFulfillmentResult) : Type 0 where
  pub caravan : CaravanState
  pub after : CaravanState
  pub contract_id : String
  pub known : caravan_by_id r.caravans caravan_id ≡ some caravan
  pub owned : str_eq (caravan_owner r.ownership caravan.id) faction ≡ true
  pub arrived : caravan_arrived caravan ≡ true
  pub unloaded : r'.caravans ≡ write_caravan r.caravans caravan_id after
  pub fulfils : Fulfils r.contracts contract_id caravan.cargo r'.contracts after.cargo result
  pub paid : r'.wallet.coins ≡ r.wallet.coins + result.reward_coins
  pub same_engine : r'.engine ≡ r.engine

-- All or nothing.
abbrev pub Outcome :
    SimulationRuntime → String → String → SimulationRuntime × ContractFulfillmentResult → Type 0
Outcome r caravan_id faction (r', result) =
    ((ok result ≡ false) × (r' ≡ r))
    ⊎ ((ok result ≡ true) × Delivers r caravan_id faction r' result)

-- A caravan written over itself, with everything else as it was.
unchanged :
    (r : SimulationRuntime) (id : String) (c : CaravanState)
    (x : ContractCatalog × CaravanState × Wallet × EconomyLedger × ContractFulfillmentResult)
    → caravan_by_id r.caravans id ≡ some c
    → x.0 ≡ r.contracts
    → x.1 ≡ c
    → x.2 ≡ r.wallet
    → x.3 ≡ r.ledger
    → (with_fulfilment r id x).0 ≡ r
unfolding with_fulfilment caravan_by_id
unchanged r id c (k, c', w, l, result) f hk hc hw hl =
    ap
      (λ y. record r {
        contracts = y;
        caravans = write_caravan r.caravans id c';
        wallet = w;
        ledger = l;
      })
      hk
    ∙ ap (λ y. record r { caravans = write_caravan r.caravans id y; wallet = w; ledger = l }) hc
    ∙ ap (λ y. record r { caravans = write_caravan r.caravans id c; wallet = y; ledger = l }) hw
    ∙ ap (λ y. record r { caravans = write_caravan r.caravans id c; ledger = y }) hl
    ∙ ap (λ y. record r { caravans = record { caravans = y } })
        (replace_if-same (λ y. str_eq y.id id) c r.caravans.caravans f)

try_contracts-Outcome :
    (ks : List ResourceDeliveryContract) (r : SimulationRuntime) (id : String) (c : CaravanState)
    (faction : String)
    → caravan_by_id r.caravans id ≡ some c
    → r.wallet.coins ≤ u64_max
    → Outcome r id faction (try_contracts r id c faction ks)
unfolding try_contracts with_fulfilment
try_contracts-Outcome [] r id c faction f h = inl (refl, refl)
try_contracts-Outcome (k ∷ ks) r id c faction f h =
    let attempt =
      fulfill_contract_from_owned_arrived_caravan_with_reward_and_ledger r.contracts k.id c
        r.ownership faction r.wallet r.ledger in
    let skipped = not (contract_is_open k) || ltb (amount c.cargo k.resource_id) k.quantity in
    let rest = try_contracts-Outcome ks r id c faction f h in
    let done =
      fulfill_contract_from_owned_arrived_caravan_with_reward_and_ledger-Authorised r.contracts k.id
        c r.ownership faction r.wallet r.ledger h in
    elim (Bool-cases skipped) [
      | inl e ↦ rw e rest
      | inr e ↦ elim done [
        | inl (bad, hk, hc, hw, hl) ↦ rw (e, bad, unchanged r id c attempt f hk hc hw hl, hc) rest
        | inr (good, owned, there, fulfils, paid) ↦
            rw (e, good)
              (inr (
                good,
                record {
                  caravan = c;
                  after = attempt.1;
                  contract_id = k.id;
                  known = f;
                  owned = owned;
                  arrived = there;
                  unloaded = refl;
                  fulfils = fulfils;
                  paid = paid;
                  same_engine = refl;
                },
              ))
      ]
    ]

first_found-Outcome :
    (r : SimulationRuntime) (id faction : String) (o : Option CaravanState)
    → caravan_by_id r.caravans id ≡ o
    → r.wallet.coins ≤ u64_max
    → Outcome r id faction (first_found r id faction o)
unfolding first_found
first_found-Outcome r id faction none f h = inl (refl, refl)
first_found-Outcome r id faction (some c) f h =
    try_contracts-Outcome r.contracts.contracts r id c faction f h

-- With a wallet in range, the search for a contract that a caravan can fulfil is one transaction
-- over the whole runtime: it succeeds with one open contract fulfilled from the cargo of the
-- caravan, which has arrived and is owned by the faction, with exactly its goods taken and its
-- reward paid; or it fails and the runtime is as it was, however many contracts were tried.
pub fulfill_first-Outcome :
    (r : SimulationRuntime) (id faction : String)
    → r.wallet.coins ≤ u64_max
    → Outcome r id faction (
        fulfill_first_runtime_contract_for_owned_arrived_caravan_with_reward_and_ledger r id
          faction)
unfolding fulfill_first_runtime_contract_for_owned_arrived_caravan_with_reward_and_ledger
fulfill_first-Outcome r id faction h =
    first_found-Outcome r id faction (caravan_by_id r.caravans id) refl h
