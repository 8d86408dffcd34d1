-- ===== src/Sim/Contracts/Fulfillment/Delivery.antt =====
-- A fulfilment is one transaction over the contract, the goods, the wallet and the ledger.
use city_life_core.Prelude.{
  ℕ, ◌+◌, ◌-◌, ◌≤◌, ◌≡◌, ◌∙◌, refl, sym, ap, ◌⊎◌, inl, inr, Bool, true, false, not, ◌&&◌, String,
  Option, none, some, u64_max, ltb, leb, ◌==◌, if◌then◌else◌, is_empty, str_eq, arith, Bool-cases,
  eq_iff,
}
use city_life_core.Data.Validation
use city_life_core.Data.Validation.{ValidationReport, ok-empty, ok-error_report, ok-add_error}
use city_life_core.Sim.Storage.{ResourceStorage, try_remove, amount}
use city_life_core.Sim.Storage.Amounts.{try_remove-ok, amount-try_remove}
use city_life_core.Economy.Trade.{Wallet}
use city_life_core.Economy.Ledger.{
  EconomyLedger, record_contract_reward, append_entry, reward_entry,
}
use city_life_core.Economy.Ledger.Journal.{record_contract_reward-done}
use city_life_core.Sim.Contracts.{
  fulfilled, ResourceDeliveryContract, ContractCatalog, contract_is_open, contract_by_id,
  set_status,
}
use city_life_core.Sim.Contracts.Lifecycle.{AllEvolve, AllEvolve-refl, set_status-AllEvolve}
use city_life_core.Sim.Contracts.Fulfillment.{
  ContractFulfillmentResult, ok, deliver, pay, deliver_with_reward, fulfill_contract_from_storage,
  fulfill_contract_from_storage_with_reward, fulfill_contract_from_storage_with_reward_and_ledger,
}

-- A delivery that fulfils a contract: which one, and what it changes.
pub record Fulfils (k : ContractCatalog) (id : String) (s : ResourceStorage) (k' : ContractCatalog)
    (s' : ResourceStorage) (r : ContractFulfillmentResult) : Type 0 where
  pub contract : ResourceDeliveryContract
  pub known : contract_by_id k id ≡ some contract
  pub was_open : contract_is_open contract ≡ true
  pub closed : k' ≡ set_status k id fulfilled
  pub terms :
      (r.contract_id ≡ contract.id)
      × (r.resource_id ≡ contract.resource_id)
      × (r.quantity ≡ contract.quantity)
      × (r.reward_coins ≡ contract.reward_coins)
  pub delivered :
      (j : String)
      → amount s' j + (if str_eq contract.resource_id j then contract.quantity else 0) ≡ amount s j

-- What a delivery for a contract did: all of it, or nothing.
abbrev pub Delivered :
    ContractCatalog
    → ResourceStorage
    → ContractCatalog
    → ResourceStorage
    → String
    → ContractFulfillmentResult
    → Type 0
Delivered k s k' s' id r =
    ((ok r ≡ false) × (k' ≡ k) × (s' ≡ s)) ⊎ ((ok r ≡ true) × Fulfils k id s k' s' r)

-- Whether a delivery goes through, for the contract that was looked up.
abbrev pub can_deliver : ResourceStorage → Option ResourceDeliveryContract → Bool
can_deliver s none = false
can_deliver s (some c) =
    contract_is_open c && not (c.quantity == 0) && leb c.quantity (amount s c.resource_id)

deliver-Delivered :
    (k : ContractCatalog) (id : String) (s : ResourceStorage) (o : Option ResourceDeliveryContract)
    → contract_by_id k id ≡ o
    → let (k', s', r) = deliver k id s o in Delivered k s k' s' id r × (ok r ≡ can_deliver s o)
unfolding deliver
deliver-Delivered k id s none e = (inl (refl, refl, refl), refl)
deliver-Delivered k id s (some c) e = elim (Bool-cases (contract_is_open c)) [
  | inr f ↦ rw f (inl (refl, refl, refl), refl)
  | inl f ↦ elim (Bool-cases (try_remove s c.resource_id c.quantity).1) [
    | inr g ↦
        rw (f, g) (inl (refl, refl, refl), ground (arith, try_remove-ok s c.resource_id c.quantity))
    | inl g ↦
        rw (f, g)
          (
            inr (
              ok-empty,
              record {
                contract = c;
                known = e;
                was_open = f;
                closed = refl;
                terms = (refl, refl, refl, refl);
                delivered = λ j. ground (
                  arith,
                  amount-try_remove s c.resource_id j c.quantity,
                  try_remove-ok s c.resource_id c.quantity,
                  eq_iff c.resource_id j,
                );
              },
            ),
            ground (arith, ok-empty, try_remove-ok s c.resource_id c.quantity),
          )
  ]
]

-- A delivery from a storage fulfils a contract exactly when it is named, known and open and the
-- storage holds its goods. Then the contract is fulfilled and exactly its goods leave the storage;
-- otherwise catalog and storage are as before.
fulfill_contract_from_storage-exact :
    (k : ContractCatalog) (id : String) (s : ResourceStorage)
    → let (k', s', r) = fulfill_contract_from_storage k id s in
      Delivered k s k' s' id r × (ok r ≡ (not (is_empty id) && can_deliver s (contract_by_id k id)))
unfolding fulfill_contract_from_storage
fulfill_contract_from_storage-exact k id s = elim (Bool-cases (is_empty id)) [
  | inl e ↦ rw e (inl (refl, refl, refl), refl)
  | inr e ↦ rw e (deliver-Delivered k id s (contract_by_id k id) refl)
]

Delivered-AllEvolve :
    (k k' : ContractCatalog) (s s' : ResourceStorage) (id : String) (r : ContractFulfillmentResult)
    → Delivered k s k' s' id r
    → AllEvolve k.contracts k'.contracts
Delivered-AllEvolve k k' s s' id r (inl (_, same, _)) = rw same (AllEvolve-refl k.contracts)
Delivered-AllEvolve k k' s s' id r (inr (_, f)) =
    rw f.closed (set_status-AllEvolve k id fulfilled f.contract f.known f.was_open refl)

pub deliver-AllEvolve :
    (k : ContractCatalog) (id : String) (s : ResourceStorage)
    → AllEvolve k.contracts (fulfill_contract_from_storage k id s).0.contracts
deliver-AllEvolve k id s =
    Delivered-AllEvolve k _ s _ id _ (fulfill_contract_from_storage-exact k id s).0

-- What a rewarded delivery did: all of it, or nothing.
abbrev pub Rewarded :
    ContractCatalog
    → ResourceStorage
    → Wallet
    → ContractCatalog
    → ResourceStorage
    → Wallet
    → String
    → ContractFulfillmentResult
    → Type 0
Rewarded k s w k' s' w' id r =
    ((ok r ≡ false) × (k' ≡ k) × (s' ≡ s) × (w' ≡ w))
    ⊎ ((ok r ≡ true)
        × Fulfils k id s k' s' r
        × (w'.coins ≡ w.coins + r.reward_coins)
        × (w'.coins ≤ u64_max))

abbrev reward_of : Option ResourceDeliveryContract → ℕ
reward_of none = 0
reward_of (some c) = c.reward_coins

pay-Rewarded :
    (k : ContractCatalog) (id : String) (s : ResourceStorage) (w : Wallet)
    (c : ResourceDeliveryContract)
    → contract_by_id k id ≡ some c
    → w.coins + c.reward_coins ≤ u64_max
    → let (k', s', w', r) = pay w (fulfill_contract_from_storage k id s) in
      Rewarded k s w k' s' w' id r
unfolding pay
pay-Rewarded k id s w c e fits =
    let (k', s', r) = fulfill_contract_from_storage k id s in
    elim (fulfill_contract_from_storage-exact k id s).0 [
      | inl (bad, same, kept) ↦ inl (bad, same, kept, rw bad refl)
      | inr (good, f) ↦
          let same = ap reward_of (sym e ∙ f.known) in
          inr (good, f, rw good refl, rw good (omega (arith, f.terms.3)))
    ]

deliver_with_reward-Rewarded :
    (k : ContractCatalog) (id : String) (s : ResourceStorage) (w : Wallet)
    (o : Option ResourceDeliveryContract)
    → contract_by_id k id ≡ o
    → w.coins ≤ u64_max
    → let (k', s', w', r) = deliver_with_reward k id s w o in Rewarded k s w k' s' w' id r
unfolding deliver_with_reward
deliver_with_reward-Rewarded k id s w none e h = inl (refl, refl, refl, refl)
deliver_with_reward-Rewarded k id s w (some c) e h = elim (Bool-cases (contract_is_open c)) [
  | inr f ↦ rw f (inl (refl, refl, refl, refl))
  | inl f ↦ elim (Bool-cases (ltb (u64_max - w.coins) c.reward_coins)) [
    | inl g ↦ rw (f, g) (inl (refl, refl, refl, refl))
    | inr g ↦ rw (f, g) (pay-Rewarded k id s w c e (ground arith))
  ]
]

-- With a wallet in range, a rewarded delivery is one transaction: it fulfils an open contract,
-- takes exactly its goods and pays exactly its reward, which the wallet's 64 bits hold; or it
-- changes nothing.
pub fulfill_contract_from_storage_with_reward-Rewarded :
    (k : ContractCatalog) (id : String) (s : ResourceStorage) (w : Wallet)
    → w.coins ≤ u64_max
    → let (k', s', w', r) = fulfill_contract_from_storage_with_reward k id s w in
      Rewarded k s w k' s' w' id r
unfolding fulfill_contract_from_storage_with_reward
fulfill_contract_from_storage_with_reward-Rewarded k id s w h = elim (Bool-cases (is_empty id)) [
  | inl e ↦ rw e (inl (refl, refl, refl, refl))
  | inr e ↦ rw e (deliver_with_reward-Rewarded k id s w (contract_by_id k id) refl h)
]

refused_late :
    (r : ContractFulfillmentResult) (path message : String)
    → (r.is_fulfilled && Validation.ok (Validation.add_error r.validation path message)) ≡ false
refused_late r path message = ground (arith, ok-add_error r.validation path message)

-- With a wallet in range, a rewarded delivery with a ledger is one transaction over four states: it
-- fulfils the contract, takes its goods, pays its reward and enters exactly that reward in the
-- ledger; or it reports failure and leaves catalog, storage, wallet and ledger as they were.
pub fulfill_contract_from_storage_with_reward_and_ledger-atomic :
    (k : ContractCatalog) (id : String) (s : ResourceStorage) (w : Wallet) (l : EconomyLedger)
    → w.coins ≤ u64_max
    → let (k', s', w', l', r) = fulfill_contract_from_storage_with_reward_and_ledger k id s w l in
      ((ok r ≡ false) × (k' ≡ k) × (s' ≡ s) × (w' ≡ w) × (l' ≡ l))
      ⊎ ((ok r ≡ true)
          × Fulfils k id s k' s' r
          × (w'.coins ≡ w.coins + r.reward_coins)
          × (l'
              ≡ append_entry l (
                  reward_entry l r.contract_id r.resource_id r.quantity r.reward_coins
                    "contract reward payout")))
unfolding fulfill_contract_from_storage_with_reward_and_ledger
fulfill_contract_from_storage_with_reward_and_ledger-atomic k id s w l h =
    let (k', s', w', r) = fulfill_contract_from_storage_with_reward k id s w in
    let entry =
      record_contract_reward l r.contract_id r.resource_id r.quantity r.reward_coins
        "contract reward payout" in
    elim (fulfill_contract_from_storage_with_reward-Rewarded k id s w h) [
      | inl (bad, _, _, _) ↦ rw bad (inl (bad, refl, refl, refl, refl))
      | inr (good, f, paid, _) ↦ elim (Bool-cases entry.1) [
        | inl kept ↦
            rw (good, kept)
              (inr (
                good,
                f,
                paid,
                record_contract_reward-done l r.contract_id r.resource_id r.quantity r.reward_coins
                    "contract reward payout" kept,
              ))
        | inr lost ↦ rw (good, lost) (inl (refused_late r _ _, refl, refl, refl, refl))
      ]
    ]
