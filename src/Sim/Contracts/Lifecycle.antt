-- ===== src/Sim/Contracts/Lifecycle.antt =====
-- The state machine of a contract: open, then fulfilled, failed or cancelled for good.
use city_life_core.Prelude.{
  ℕ, ◌+◌, ◌*◌, ◌∙◌, sym, ◌&&◌, ltb, leb, ◌==◌, min, u64_max, length, ◌≤◌, ◌≡◌, ap, refl, inl, inr,
  Bool, true, false, String, Option, none, some, List, [], ◌∷◌, ◌++◌, find_if, keep_if,
  if◌then◌else◌, is_empty, is_some, str_eq, arith, Bool-cases, if_both, map,
}
use city_life_core.Data.Validation.{ValidationReport, ok}
use city_life_core.Core.Time.Laws.{days_to_ticks-eq-min}
use city_life_core.Sim.Contracts.{
  ContractStatus, «open», fulfilled, failed, cancelled, ResourceDeliveryContract, ContractCatalog,
  contract_is_open, is_open, contract_by_id, set_status, write_status, add_contract, with_due_ticks,
  validate_resource_delivery_contract, close, mark_contract_status, mark_contract_fulfilled,
  mark_contract_failed, cancel_contract, fail_overdue, contract_due_ticks,
  fail_overdue_open_contracts_at_tick, overdue_open_contracts_at_tick,
}

-- How one contract may change: not at all, or from open to a terminal status with its terms kept.
pub data Evolves : ResourceDeliveryContract → ResourceDeliveryContract → Type 0 where
  stays : (c : ResourceDeliveryContract) → Evolves c c
  ends :
      (c : ResourceDeliveryContract) (status : ContractStatus)
      → contract_is_open c ≡ true
      → is_open status ≡ false
      → Evolves c (record c { status = status })

-- How a list of contracts may change: each evolves in its place, and new ones come at the end.
abbrev pub AllEvolve : List ResourceDeliveryContract → List ResourceDeliveryContract → Type 0
AllEvolve [] ys = Unit
AllEvolve (x ∷ xs) [] = ⊥
AllEvolve (x ∷ xs) (y ∷ ys) = Evolves x y × AllEvolve xs ys

Evolves-trans : (a b c : ResourceDeliveryContract) → Evolves a b → Evolves b c → Evolves a c
Evolves-trans a _ c (stays _) k = k
Evolves-trans a b _ h (stays _) = h
Evolves-trans a _ _ (ends _ status o t) (ends _ status' o' t') = ends a status' o t'

pub AllEvolve-refl : (xs : List ResourceDeliveryContract) → AllEvolve xs xs
AllEvolve-refl [] = tt
AllEvolve-refl (x ∷ xs) = (stays x, AllEvolve-refl xs)

pub AllEvolve-trans :
    (xs ys zs : List ResourceDeliveryContract) → AllEvolve xs ys → AllEvolve ys zs → AllEvolve xs zs
AllEvolve-trans [] ys zs h k = tt
AllEvolve-trans (x ∷ xs) [] zs h k = absurd h
AllEvolve-trans (x ∷ xs) (y ∷ ys) [] h k = absurd k
AllEvolve-trans (x ∷ xs) (y ∷ ys) (z ∷ zs) (h, hs) (k, ks) =
    (Evolves-trans x y z h k, AllEvolve-trans xs ys zs hs ks)

AllEvolve-append : (xs ys : List ResourceDeliveryContract) → AllEvolve xs (xs ++ ys)
AllEvolve-append [] ys = tt
AllEvolve-append (x ∷ xs) ys = (stays x, AllEvolve-append xs ys)

write_status-AllEvolve :
    (cs : List ResourceDeliveryContract) (id : String) (status : ContractStatus)
    (c : ResourceDeliveryContract)
    → find_if (λ x. str_eq x.id id) cs ≡ some c
    → contract_is_open c ≡ true
    → is_open status ≡ false
    → AllEvolve cs (write_status cs id status)
unfolding write_status
write_status-AllEvolve [] id status c f o t = tt
write_status-AllEvolve (x ∷ xs) id status c f o t = elim (Bool-cases (str_eq x.id id)) [
  | inl e ↦ rw e (ends x status (ground arith) t, AllEvolve-refl xs)
  | inr e ↦ rw e (stays x, write_status-AllEvolve xs id status c (ground arith) o t)
]

-- A status is set only on an open contract.
pub set_status-AllEvolve :
    (k : ContractCatalog) (id : String) (status : ContractStatus) (c : ResourceDeliveryContract)
    → contract_by_id k id ≡ some c
    → contract_is_open c ≡ true
    → is_open status ≡ false
    → AllEvolve k.contracts (set_status k id status).contracts
unfolding set_status contract_by_id
set_status-AllEvolve k id status c = write_status-AllEvolve k.contracts id status c

choice-AllEvolve :
    (k : ContractCatalog) (b : Bool) (x y : ContractCatalog × ValidationReport)
    → AllEvolve k.contracts x.0.contracts
    → AllEvolve k.contracts y.0.contracts
    → AllEvolve k.contracts (if b then x else y).0.contracts
choice-AllEvolve k b x y h h' =
    if_both (λ (z : ContractCatalog × ValidationReport). AllEvolve k.contracts z.0.contracts) b x y
      h h'

close-AllEvolve :
    (k : ContractCatalog) (id : String) (status : ContractStatus) (action : String)
    (o : Option ResourceDeliveryContract)
    → contract_by_id k id ≡ o
    → is_open status ≡ false
    → AllEvolve k.contracts (close k id status action o).0.contracts
unfolding close
close-AllEvolve k id status action none e t = AllEvolve-refl k.contracts
close-AllEvolve k id status action (some c) e t = elim (Bool-cases (contract_is_open c)) [
  | inl o ↦ rw o (set_status-AllEvolve k id status c e o t)
  | inr o ↦ rw o (AllEvolve-refl k.contracts)
]

mark-AllEvolve :
    (k : ContractCatalog) (id : String) (status : ContractStatus) (action : String)
    → is_open status ≡ false
    → AllEvolve k.contracts (mark_contract_status k id status action).0.contracts
unfolding mark_contract_status
mark-AllEvolve k id status action t =
    choice-AllEvolve k (is_empty id) _ _ (AllEvolve-refl k.contracts)
      (close-AllEvolve k id status action (contract_by_id k id) refl t)

pub fulfilled-AllEvolve :
    (k : ContractCatalog) (id : String)
    → AllEvolve k.contracts (mark_contract_fulfilled k id).0.contracts
unfolding mark_contract_fulfilled
fulfilled-AllEvolve k id = mark-AllEvolve k id fulfilled "fulfill" refl

pub failed-AllEvolve :
    (k : ContractCatalog) (id : String)
    → AllEvolve k.contracts (mark_contract_failed k id).0.contracts
unfolding mark_contract_failed
failed-AllEvolve k id = mark-AllEvolve k id failed "fail" refl

pub cancelled-AllEvolve :
    (k : ContractCatalog) (id : String) → AllEvolve k.contracts (cancel_contract k id).0.contracts
unfolding cancel_contract
cancelled-AllEvolve k id = mark-AllEvolve k id cancelled "cancel" refl

fail_overdue-AllEvolve :
    (tick : ℕ) (cs : List ResourceDeliveryContract) → AllEvolve cs (fail_overdue tick cs).0
unfolding fail_overdue
fail_overdue-AllEvolve tick [] = tt
fail_overdue-AllEvolve tick (c ∷ cs) =
    elim (Bool-cases (contract_is_open c && ltb (contract_due_ticks c) tick)) [
      | inl e ↦ rw e (ends c failed (ground arith) refl, fail_overdue-AllEvolve tick cs)
      | inr e ↦ rw e (stays c, fail_overdue-AllEvolve tick cs)
    ]

pub expire-AllEvolve :
    (k : ContractCatalog) (tick : ℕ)
    → AllEvolve k.contracts (fail_overdue_open_contracts_at_tick k tick).0.contracts
unfolding fail_overdue_open_contracts_at_tick
expire-AllEvolve k tick = fail_overdue-AllEvolve tick k.contracts

pub add-AllEvolve :
    (k : ContractCatalog) (c : ResourceDeliveryContract)
    → AllEvolve k.contracts (add_contract k c).0.contracts
unfolding add_contract
add-AllEvolve k c =
    elim (Bool-cases (ok (validate_resource_delivery_contract (with_due_ticks c)))) [
      | inr e ↦ rw e (AllEvolve-refl k.contracts)
      | inl e ↦ elim (Bool-cases (contract_is_open (with_due_ticks c))) [
        | inr f ↦ rw (e, f) (AllEvolve-refl k.contracts)
        | inl f ↦ elim (Bool-cases (is_some (contract_by_id k (with_due_ticks c).id))) [
          | inl g ↦ rw (e, f, g) (AllEvolve-refl k.contracts)
          | inr g ↦ rw (e, f, g) (AllEvolve-append k.contracts (with_due_ticks c ∷ []))
        ]
      ]
    ]

-- The tick that a contract is due at: the one it names, or else the start of its due day, up to the
-- largest tick.
abbrev pub due_tick : ResourceDeliveryContract → ℕ
due_tick c = if c.due_ticks == 0 then min (c.due_day * 86400) u64_max else c.due_ticks

-- A contract is late when it still is open after the tick it is due at.
abbrev pub is_late : ℕ → ResourceDeliveryContract → Bool
is_late tick c = elim c.status [
  | «open» ↦ leb (due_tick c + 1) tick
  | fulfilled ↦ false
  | failed ↦ false
  | cancelled ↦ false
]

-- What a deadline makes of a contract.
abbrev pub expired : ℕ → ResourceDeliveryContract → ResourceDeliveryContract
expired tick c = if is_late tick c then record c { status = failed } else c

overdue-is_late :
    (tick : ℕ) (c : ResourceDeliveryContract)
    → (contract_is_open c && ltb (contract_due_ticks c) tick) ≡ is_late tick c
unfolding contract_due_ticks
overdue-is_late tick c = ground (arith, days_to_ticks-eq-min c.due_day)

fail_overdue-exact :
    (tick : ℕ) (cs : List ResourceDeliveryContract)
    → ((fail_overdue tick cs).0 ≡ map (expired tick) cs)
      × ((fail_overdue tick cs).1 ≡ map (λ c. c.id) (keep_if (is_late tick) cs))
unfolding fail_overdue
fail_overdue-exact tick [] = (refl, refl)
fail_overdue-exact tick (c ∷ cs) =
    let (failing, named) = fail_overdue-exact tick cs in
    let verdict = overdue-is_late tick c in
    elim (Bool-cases (is_late tick c)) [
      | inl e ↦ rw (verdict ∙ e, e) (rw (failing, named) (refl, refl))
      | inr e ↦ rw (verdict ∙ e, e) (rw (failing, named) (refl, refl))
    ]

overdue-exact :
    (tick : ℕ) (cs : List ResourceDeliveryContract)
    → keep_if (λ c. contract_is_open c && ltb (contract_due_ticks c) tick) cs
      ≡ keep_if (is_late tick) cs
overdue-exact tick [] = refl
overdue-exact tick (c ∷ cs) = rw (overdue-is_late tick c, overdue-exact tick cs) refl

none_late :
    (tick : ℕ) (cs : List ResourceDeliveryContract)
    → keep_if (is_late tick) (map (expired tick) cs) ≡ []
none_late tick [] = refl
none_late tick (c ∷ cs) = elim (Bool-cases (is_late tick c)) [
  | inl e ↦ rw e (none_late tick cs)
  | inr e ↦ rw e (rw e (none_late tick cs))
]

length-ids : (cs : List ResourceDeliveryContract) → length (map (λ c. c.id) cs) ≡ length cs
length-ids [] = refl
length-ids (c ∷ cs) = omega (arith, length-ids cs)

-- When the deadlines are checked at a tick, every contract that is late, which is open after its
-- due tick, becomes failed with its terms kept, and every other contract stays as it is, each in
-- its place. The report names exactly the late ones, in order, with their number. The overdue
-- contracts are the late ones before, and there are none afterwards.
pub fail_overdue_open_contracts_at_tick-exact :
    (k : ContractCatalog) (tick : ℕ)
    → let (k', report) = fail_overdue_open_contracts_at_tick k tick in
      (k'.contracts ≡ map (expired tick) k.contracts)
      × (overdue_open_contracts_at_tick k tick ≡ keep_if (is_late tick) k.contracts)
      × (overdue_open_contracts_at_tick k' tick ≡ [])
      × (report.failed_contract_ids ≡ map (λ c. c.id) (overdue_open_contracts_at_tick k tick))
      × (report.failed_count ≡ length (keep_if (is_late tick) k.contracts))
unfolding fail_overdue_open_contracts_at_tick overdue_open_contracts_at_tick
fail_overdue_open_contracts_at_tick-exact k tick =
    let (failing, named) = fail_overdue-exact tick k.contracts in
    let late = overdue-exact tick k.contracts in
    (
      failing,
      late,
      overdue-exact tick (fail_overdue tick k.contracts).0
          ∙ ap (keep_if (is_late tick)) failing
          ∙ none_late tick k.contracts,
      named ∙ ap (map (λ c. c.id)) (sym late),
      ap length named ∙ length-ids (keep_if (is_late tick) k.contracts),
    )

fail_overdue-twice :
    (cs : List ResourceDeliveryContract) (s t : ℕ)
    → s ≤ t
    → (fail_overdue t (fail_overdue s cs).0).0 ≡ (fail_overdue t cs).0
unfolding fail_overdue
fail_overdue-twice [] s t h = refl
fail_overdue-twice (c ∷ cs) s t h =
    elim (Bool-cases (contract_is_open c && ltb (contract_due_ticks c) s)) [
      | inl e ↦ rw e (ground (arith, fail_overdue-twice cs s t h))
      | inr e ↦ rw e (ground (arith, fail_overdue-twice cs s t h))
    ]

-- Deadlines checked at a tick and then at a later one come to the same as the later check alone.
pub fail_overdue_open_contracts_at_tick-twice :
    (k : ContractCatalog) (s t : ℕ)
    → s ≤ t
    → (fail_overdue_open_contracts_at_tick (fail_overdue_open_contracts_at_tick k s).0 t).0
      ≡ (fail_overdue_open_contracts_at_tick k t).0
unfolding fail_overdue_open_contracts_at_tick
fail_overdue_open_contracts_at_tick-twice k s t h =
    ap (λ cs. record { contracts = cs }) (fail_overdue-twice k.contracts s t h)

-- The deadline report has the tick that it was made at.
pub fail_overdue_open_contracts_at_tick-tick :
    (catalog : ContractCatalog) (tick : ℕ)
    → (fail_overdue_open_contracts_at_tick catalog tick).1.current_tick ≡ tick
unfolding fail_overdue_open_contracts_at_tick
fail_overdue_open_contracts_at_tick-tick catalog tick = refl
