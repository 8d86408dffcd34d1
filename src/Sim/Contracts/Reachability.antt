-- ===== src/Sim/Contracts/Reachability.antt =====
-- Any sequence of operations on a catalog of contracts.
use city_life_core.Prelude.{ℕ, String}
use city_life_core.Sim.Storage.{ResourceStorage}
use city_life_core.Sim.Contracts.{
  ResourceDeliveryContract, ContractCatalog, add_contract, mark_contract_fulfilled,
  mark_contract_failed, cancel_contract, fail_overdue_open_contracts_at_tick,
}
use city_life_core.Sim.Contracts.Lifecycle.{
  AllEvolve, AllEvolve-refl, AllEvolve-trans, add-AllEvolve, fulfilled-AllEvolve, failed-AllEvolve,
  cancelled-AllEvolve, expire-AllEvolve,
}
use city_life_core.Sim.Contracts.Fulfillment.{fulfill_contract_from_storage}
use city_life_core.Sim.Contracts.Fulfillment.Delivery.{deliver-AllEvolve}

-- One operation on a catalog of contracts.
pub data Step : ContractCatalog → ContractCatalog → Type 0 where
  adds : (k : ContractCatalog) (c : ResourceDeliveryContract) → Step k (add_contract k c).0
  marks : (k : ContractCatalog) (id : String) → Step k (mark_contract_fulfilled k id).0
  fails : (k : ContractCatalog) (id : String) → Step k (mark_contract_failed k id).0
  cancels : (k : ContractCatalog) (id : String) → Step k (cancel_contract k id).0
  expires : (k : ContractCatalog) (tick : ℕ) → Step k (fail_overdue_open_contracts_at_tick k tick).0
  delivers :
      (k : ContractCatalog) (id : String) (storage : ResourceStorage)
      → Step k (fulfill_contract_from_storage k id storage).0

-- Any number of operations, in order.
pub data Reaches : ContractCatalog → ContractCatalog → Type 0 where
  here : (k : ContractCatalog) → Reaches k k
  further : (k l m : ContractCatalog) → Step k l → Reaches l m → Reaches k m

Step-AllEvolve : (k l : ContractCatalog) → Step k l → AllEvolve k.contracts l.contracts
Step-AllEvolve k _ (adds _ c) = add-AllEvolve k c
Step-AllEvolve k _ (marks _ id) = fulfilled-AllEvolve k id
Step-AllEvolve k _ (fails _ id) = failed-AllEvolve k id
Step-AllEvolve k _ (cancels _ id) = cancelled-AllEvolve k id
Step-AllEvolve k _ (expires _ tick) = expire-AllEvolve k tick
Step-AllEvolve k _ (delivers _ id storage) = deliver-AllEvolve k id storage

-- Through any sequence of additions, markings, cancellations, deadline checks and deliveries from a
-- storage that a catalog goes through, each contract keeps its place and its terms, and its status
-- changes at most once, from open to a terminal status: what is fulfilled, failed or cancelled
-- stays so. New contracts come at the end.
pub Reaches-AllEvolve : (k l : ContractCatalog) → Reaches k l → AllEvolve k.contracts l.contracts
Reaches-AllEvolve k _ (here _) = AllEvolve-refl k.contracts
Reaches-AllEvolve k m (further _ l _ step rest) =
    AllEvolve-trans k.contracts l.contracts m.contracts (Step-AllEvolve k l step)
      (Reaches-AllEvolve l m rest)
