-- ===== src/Sim/Contracts.antt =====
-- include/clc/sim/Contracts.hpp and src/clc/sim/Contracts.cpp: the contracts on deliveries and
-- their states.
pub mod Lifecycle
pub mod Fulfillment
pub mod Reachability
pub mod Summary
use city_life_core.Prelude.{
  ℕ, ◌+◌, ◌/◌, ◌≡◌, Bool, true, false, not, ◌&&◌, ◌||◌, String, Option, none, some, List, [], ◌∷◌,
  ◌++◌, length, find_if, keep_if, ltb, ◌==◌, if◌then◌else◌, is_empty, is_some, str_eq, ◌<>◌,
}
use city_life_core.Core.Time.{days_to_ticks, ticks_per_day}
use city_life_core.Sim.Factions.{FactionCatalog, faction_exists}
use city_life_core.Data.Validation.{
  ValidationReport, empty_report, add_error, error_if, error_report, ok,
}

-- enum class ContractStatus
pub data ContractStatus : Type 0 where
  «open» fulfilled failed cancelled : ContractStatus

-- struct ResourceDeliveryContract
pub record ResourceDeliveryContract : Type 0 where
  pub id : String
  pub display_name : String
  pub issuer_faction_id : String
  pub receiver_faction_id : String
  pub resource_id : String
  pub quantity : ℕ
  pub reward_coins : ℕ
  pub due_day : ℕ
  pub due_ticks : ℕ
  pub status : ContractStatus

-- struct ContractCatalog
pub record ContractCatalog : Type 0 where
  pub contracts : List ResourceDeliveryContract

-- struct ContractDeadlineReport
pub record ContractDeadlineReport : Type 0 where
  pub current_day : ℕ
  pub current_tick : ℕ
  pub failed_count : ℕ
  pub failed_contract_ids : List String

-- contract_status_name
pub contract_status_name : ContractStatus → String
contract_status_name «open» = "open"
contract_status_name fulfilled = "fulfilled"
contract_status_name failed = "failed"
contract_status_name cancelled = "cancelled"

abbrev pub is_open : ContractStatus → Bool
is_open «open» = true
is_open _ = false

-- contract_is_open
abbrev pub contract_is_open : ResourceDeliveryContract → Bool
contract_is_open c = is_open c.status

-- contract_is_terminal
abbrev pub contract_is_terminal : ResourceDeliveryContract → Bool
contract_is_terminal c = not (is_open c.status)

-- contract_due_ticks
pub contract_due_ticks : ResourceDeliveryContract → ℕ
contract_due_ticks c = if ltb 0 c.due_ticks then c.due_ticks else days_to_ticks c.due_day

-- The checks of validate_resource_delivery_contract from the resource on.
check_terms : ResourceDeliveryContract → ValidationReport → ValidationReport
check_terms c report =
    let path = "simulation.contract." <> c.id in
    error_if (ltb 0 c.due_day && ltb 0 c.due_ticks && not (c.due_ticks == days_to_ticks c.due_day))
      path "due_day and due_ticks must be equivalent when both are set"
      (error_if (contract_due_ticks c == 0) path "due_ticks must be greater than zero" (
        error_if (c.reward_coins == 0) path "reward_coins must be greater than zero" (
          error_if (c.quantity == 0) path "quantity must be greater than zero"
            (error_if (is_empty c.resource_id) path "resource_id must not be empty" report))))

-- validate_resource_delivery_contract
pub validate_resource_delivery_contract : ResourceDeliveryContract → ValidationReport
unfolding check_terms
validate_resource_delivery_contract c =
    let path = "simulation.contract." <> c.id in
    check_terms c (
      error_if
        (not (is_empty c.issuer_faction_id)
          && not (is_empty c.receiver_faction_id)
          && str_eq c.issuer_faction_id c.receiver_faction_id)
        path "issuer and receiver factions must be different"
        (error_if (is_empty c.receiver_faction_id) path "receiver_faction_id must not be empty" (
          error_if (is_empty c.issuer_faction_id) path "issuer_faction_id must not be empty" (
            error_if (is_empty c.display_name) path "contract display_name must not be empty" (
              error_if (is_empty c.id) "simulation.contract" "contract id must not be empty"
                empty_report)))))

-- validate_resource_delivery_contract_for_factions
pub validate_resource_delivery_contract_for_factions :
    ResourceDeliveryContract → FactionCatalog → ValidationReport
validate_resource_delivery_contract_for_factions c factions =
    let report = validate_resource_delivery_contract c in
    let path = "simulation.contract." <> c.id in
    if not (ok report)
    then report
    else error_if (not (faction_exists factions c.receiver_faction_id)) (path <> ".receiver")
        "unknown receiver faction"
        (error_if (not (faction_exists factions c.issuer_faction_id)) (path <> ".issuer")
          "unknown issuer faction" report)

-- contract_by_id
pub contract_by_id : ContractCatalog → String → Option ResourceDeliveryContract
contract_by_id catalog id = find_if (λ c. str_eq c.id id) catalog.contracts

-- The assignment of a status through the pointer of mutable_contract_by_id: to the first contract
-- with the id.
write_status :
    List ResourceDeliveryContract → String → ContractStatus → List ResourceDeliveryContract
write_status [] id status = []
write_status (c ∷ cs) id status =
    if str_eq c.id id then record c { status = status } ∷ cs else c ∷ write_status cs id status

pub set_status : ContractCatalog → String → ContractStatus → ContractCatalog
unfolding write_status
set_status catalog id status = record { contracts = write_status catalog.contracts id status }

-- The first assignment of add_contract.
with_due_ticks : ResourceDeliveryContract → ResourceDeliveryContract
with_due_ticks c =
    if c.due_ticks == 0 && ltb 0 c.due_day
    then record c { due_ticks = days_to_ticks c.due_day }
    else c

-- add_contract
pub add_contract : ContractCatalog → ResourceDeliveryContract → ContractCatalog × ValidationReport
unfolding with_due_ticks
add_contract catalog c =
    let contract = with_due_ticks c in
    let report = validate_resource_delivery_contract contract in
    let path = "simulation.contract." <> contract.id in
    if not (ok report)
    then (catalog, report)
    else if not (contract_is_open contract)
    then (catalog, add_error report path "new contract must be open")
    else if is_some (contract_by_id catalog contract.id)
    then (catalog, add_error report path "duplicate contract id")
    else (record { contracts = catalog.contracts ++ contract ∷ [] }, report)

abbrev pub contract_count : ContractCatalog → ℕ
contract_count catalog = length catalog.contracts

-- mark_contract_status, with the contract looked up.
close :
    ContractCatalog
    → String
    → ContractStatus
    → String
    → Option ResourceDeliveryContract
    → ContractCatalog × ValidationReport
close catalog id status action none =
    (catalog, error_report ("simulation.contract." <> id) "unknown contract")
close catalog id status action (some c) =
    if not (contract_is_open c)
    then (
      catalog,
      error_report ("simulation.contract." <> c.id) (action <> " requires an open contract"),
    )
    else (set_status catalog id status, empty_report)

-- mark_contract_status
mark_contract_status :
    ContractCatalog → String → ContractStatus → String → ContractCatalog × ValidationReport
unfolding close
mark_contract_status catalog id status action =
    if is_empty id
    then (catalog, error_report "simulation.contract" "contract_id must not be empty")
    else close catalog id status action (contract_by_id catalog id)

-- mark_contract_fulfilled
pub mark_contract_fulfilled : ContractCatalog → String → ContractCatalog × ValidationReport
unfolding mark_contract_status
mark_contract_fulfilled catalog id = mark_contract_status catalog id fulfilled "fulfill"

-- mark_contract_failed
pub mark_contract_failed : ContractCatalog → String → ContractCatalog × ValidationReport
unfolding mark_contract_status
mark_contract_failed catalog id = mark_contract_status catalog id failed "fail"

-- cancel_contract
pub cancel_contract : ContractCatalog → String → ContractCatalog × ValidationReport
unfolding mark_contract_status
cancel_contract catalog id = mark_contract_status catalog id cancelled "cancel"

-- The loop of fail_overdue_open_contracts_at_tick: the contracts and the ids of the failed ones.
fail_overdue : ℕ → List ResourceDeliveryContract → List ResourceDeliveryContract × List String
fail_overdue tick [] = ([], [])
fail_overdue tick (c ∷ cs) =
    let (cs', ids) = fail_overdue tick cs in
    if contract_is_open c && ltb (contract_due_ticks c) tick
    then (record c { status = failed } ∷ cs', c.id ∷ ids)
    else (c ∷ cs', ids)

-- fail_overdue_open_contracts_at_tick
pub fail_overdue_open_contracts_at_tick :
    ContractCatalog → ℕ → ContractCatalog × ContractDeadlineReport
unfolding fail_overdue
fail_overdue_open_contracts_at_tick catalog tick =
    let (contracts, ids) = fail_overdue tick catalog.contracts in
    (
      record { contracts = contracts },
      record {
        current_day = tick / ticks_per_day;
        current_tick = tick;
        failed_count = length ids;
        failed_contract_ids = ids;
      },
    )

-- fail_overdue_open_contracts
pub fail_overdue_open_contracts : ContractCatalog → ℕ → ContractCatalog × ContractDeadlineReport
fail_overdue_open_contracts catalog current_day =
    let (catalog', report) =
      fail_overdue_open_contracts_at_tick catalog (days_to_ticks current_day) in
    (catalog', record report { current_day = current_day })

-- open_contracts
pub open_contracts : ContractCatalog → List ResourceDeliveryContract
open_contracts catalog = keep_if contract_is_open catalog.contracts

-- terminal_contracts
pub terminal_contracts : ContractCatalog → List ResourceDeliveryContract
terminal_contracts catalog = keep_if contract_is_terminal catalog.contracts

-- contracts_for_faction
pub contracts_for_faction : ContractCatalog → String → List ResourceDeliveryContract
contracts_for_faction catalog id =
    keep_if (λ c. str_eq c.issuer_faction_id id || str_eq c.receiver_faction_id id)
      catalog.contracts

-- overdue_open_contracts_at_tick
pub overdue_open_contracts_at_tick : ContractCatalog → ℕ → List ResourceDeliveryContract
overdue_open_contracts_at_tick catalog tick =
    keep_if (λ c. contract_is_open c && ltb (contract_due_ticks c) tick) catalog.contracts

-- overdue_open_contracts
pub overdue_open_contracts : ContractCatalog → ℕ → List ResourceDeliveryContract
unfolding overdue_open_contracts_at_tick
overdue_open_contracts catalog current_day =
    overdue_open_contracts_at_tick catalog (days_to_ticks current_day)
