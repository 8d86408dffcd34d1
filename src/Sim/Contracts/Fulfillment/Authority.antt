-- ===== src/Sim/Contracts/Fulfillment/Authority.antt =====
-- Only the owner of a caravan that has arrived fulfils a contract from it.
use city_life_core.Prelude.{
  ◌+◌, ◌≤◌, ap, u64_max, ◌≡◌, refl, ◌⊎◌, inl, inr, true, false, String, Option, none, some,
  is_empty, str_eq, arith, Bool-cases,
}
use city_life_core.Sim.Caravans.{CaravanState, caravan_arrived}
use city_life_core.Sim.Ownership.{OwnershipCatalog, caravan_owner}
use city_life_core.Economy.Trade.{Wallet}
use city_life_core.Economy.Ledger.{EconomyLedger}
use city_life_core.Sim.Contracts.{ContractCatalog}
use city_life_core.Sim.Contracts.Fulfillment.Delivery.{
  Fulfils, fulfill_contract_from_storage_with_reward_and_ledger-atomic,
}
use city_life_core.Sim.Contracts.Fulfillment.{
  ContractFulfillmentResult, ok, owner_refusal, fulfill_owned,
  fulfill_contract_from_arrived_caravan_with_reward_and_ledger,
  fulfill_contract_from_owned_arrived_caravan_with_reward_and_ledger,
}

refusal-fails :
    (id : String) (c : CaravanState) (o : OwnershipCatalog) (faction : String)
    (r : ContractFulfillmentResult)
    → owner_refusal id c o faction ≡ some r
    → ok r ≡ false
unfolding owner_refusal
refusal-fails id c o faction r h = ground arith

refusal-none :
    (id : String) (c : CaravanState) (o : OwnershipCatalog) (faction : String)
    → owner_refusal id c o faction ≡ none
    → (is_empty faction ≡ false) × (str_eq (caravan_owner o c.id) faction ≡ true)
unfolding owner_refusal
refusal-none id c o faction h = ground arith

-- What a fulfilment from an owned caravan did: nothing, or the checks passed.
abbrev pub Guarded :
    ContractCatalog
    → CaravanState
    → Wallet
    → EconomyLedger
    → OwnershipCatalog
    → String
    → ContractCatalog × CaravanState × Wallet × EconomyLedger × ContractFulfillmentResult
    → Type 0
Guarded k c w l o faction (k', c', w', l', r) =
    ((ok r ≡ false) × (k' ≡ k) × (c' ≡ c) × (w' ≡ w) × (l' ≡ l))
    ⊎ ((is_empty faction ≡ false)
        × (str_eq (caravan_owner o c.id) faction ≡ true)
        × (caravan_arrived c ≡ true))

fulfill_owned-Guarded :
    (k : ContractCatalog) (id : String) (c : CaravanState) (o : OwnershipCatalog) (faction : String)
    (w : Wallet) (l : EconomyLedger) (checked : Option ContractFulfillmentResult)
    → owner_refusal id c o faction ≡ checked
    → Guarded k c w l o faction (fulfill_owned k id c w l checked)
unfolding fulfill_owned fulfill_contract_from_arrived_caravan_with_reward_and_ledger
fulfill_owned-Guarded k id c o faction w l (some r) e =
    inl (refusal-fails id c o faction r e, refl, refl, refl, refl)
fulfill_owned-Guarded k id c o faction w l none e =
    let (named, owned) = refusal-none id c o faction e in
    elim (Bool-cases (caravan_arrived c)) [
      | inl there ↦ inr (named, owned, there)
      | inr away ↦ rw away (inl (refl, refl, refl, refl, refl))
    ]

-- A contract is fulfilled with reward and ledger entry from an owned caravan only if the caravan
-- has arrived and the expected faction is named and owns it; otherwise the result is a failure, and
-- catalog, caravan, wallet and ledger are as they were.
pub fulfill_contract_from_owned_arrived_caravan_with_reward_and_ledger-Guarded :
    (k : ContractCatalog) (id : String) (c : CaravanState) (o : OwnershipCatalog) (faction : String)
    (w : Wallet) (l : EconomyLedger)
    → Guarded k c w l o faction
        (fulfill_contract_from_owned_arrived_caravan_with_reward_and_ledger k id c o faction w l)
unfolding fulfill_contract_from_owned_arrived_caravan_with_reward_and_ledger
fulfill_contract_from_owned_arrived_caravan_with_reward_and_ledger-Guarded k id c o faction w l =
    fulfill_owned-Guarded k id c o faction w l (owner_refusal id c o faction) refl

-- What a fulfilment from an owned caravan did: nothing, or all of it with the checks passed.
abbrev pub Authorised :
    ContractCatalog
    → String
    → CaravanState
    → Wallet
    → EconomyLedger
    → OwnershipCatalog
    → String
    → ContractCatalog × CaravanState × Wallet × EconomyLedger × ContractFulfillmentResult
    → Type 0
Authorised k id c w l o faction (k', c', w', l', r) =
    ((ok r ≡ false) × (k' ≡ k) × (c' ≡ c) × (w' ≡ w) × (l' ≡ l))
    ⊎ ((ok r ≡ true)
        × (str_eq (caravan_owner o c.id) faction ≡ true)
        × (caravan_arrived c ≡ true)
        × Fulfils k id c.cargo k' c'.cargo r
        × (w'.coins ≡ w.coins + r.reward_coins))

fulfill_owned-Authorised :
    (k : ContractCatalog) (id : String) (c : CaravanState) (o : OwnershipCatalog) (faction : String)
    (w : Wallet) (l : EconomyLedger) (checked : Option ContractFulfillmentResult)
    → w.coins ≤ u64_max
    → owner_refusal id c o faction ≡ checked
    → Authorised k id c w l o faction (fulfill_owned k id c w l checked)
unfolding fulfill_owned fulfill_contract_from_arrived_caravan_with_reward_and_ledger
fulfill_owned-Authorised k id c o faction w l (some r) h e =
    inl (refusal-fails id c o faction r e, refl, refl, refl, refl)
fulfill_owned-Authorised k id c o faction w l none h e =
    let (named, owned) = refusal-none id c o faction e in
    elim (Bool-cases (caravan_arrived c)) [
      | inr away ↦ rw away (inl (refl, refl, refl, refl, refl))
      | inl there ↦
          rw there
            (elim (fulfill_contract_from_storage_with_reward_and_ledger-atomic k id c.cargo w l h) [
              | inl (bad, same, kept, unpaid, unlogged) ↦
                  inl (bad, same, ap (λ s. record c { cargo = s }) kept, unpaid, unlogged)
              | inr (good, f, paid, _) ↦ inr (good, owned, refl, f, paid)
            ])
    ]

pub fulfill_contract_from_owned_arrived_caravan_with_reward_and_ledger-Authorised :
    (k : ContractCatalog) (id : String) (c : CaravanState) (o : OwnershipCatalog) (faction : String)
    (w : Wallet) (l : EconomyLedger)
    → w.coins ≤ u64_max
    → Authorised k id c w l o faction
        (fulfill_contract_from_owned_arrived_caravan_with_reward_and_ledger k id c o faction w l)
unfolding fulfill_contract_from_owned_arrived_caravan_with_reward_and_ledger
fulfill_contract_from_owned_arrived_caravan_with_reward_and_ledger-Authorised k id c o faction w l
      h =
    fulfill_owned-Authorised k id c o faction w l (owner_refusal id c o faction) h refl
