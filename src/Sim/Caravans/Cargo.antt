-- ===== src/Sim/Caravans/Cargo.antt =====
-- Loading and unloading move goods between a caravan and a settlement and lose none.
use city_life_core.Prelude.{
  ℕ, ◌+◌, ◌≤◌, ◌≡◌, refl, ◌⊎◌, inl, inr, true, false, not, ◌&&◌, String, u64_max, ◌==◌,
  if◌then◌else◌, arith, is_empty, str_eq, eq_iff, Bool-cases, ◌<>◌,
}
use city_life_core.Data.Validation.{
  ValidationReport, ok, ok-empty, ok-error_report, ok-error_if, verdicts,
}
use city_life_core.Sim.Storage.{ResourceStorage, amount, add, try_remove}
use city_life_core.Sim.Storage.Amounts.{
  add-ok, amount-add, try_remove-ok, amount-try_remove, add-refused,
}
use city_life_core.Sim.Storage.Invariant.{IsValid, amount-le}
use city_life_core.Sim.Settlement.{SettlementState}
use city_life_core.Sim.Caravans.{
  CaravanState, hand_over, resource_request, load_caravan_at_origin, unload_caravan_at_destination,
  caravan_arrived, caravan_ticks_remaining, caravan_total_travel_ticks,
}

-- Goods that are handed over move as a whole, or both storages hold what they held: also after the
-- rollback.
hand_over-moves :
    (from to : ResourceStorage) (k : String) (n : ℕ) (path message : String) (j : String)
    → n ≤ u64_max
    → is_empty k ≡ false
    → IsValid from
    → let (from', to', report) = hand_over from to k n path message in
      ((ok report ≡ true)
        × (amount from' j + (if str_eq k j then n else 0) ≡ amount from j)
        × (amount to' j ≡ amount to j + (if str_eq k j then n else 0)))
      ⊎ ((ok report ≡ false) × (amount from' j ≡ amount from j) × (to' ≡ to))
unfolding hand_over
hand_over-moves from to k n path message j h named v =
    let (from', removed) = try_remove from k n in
    let bound = amount-le from k v in
    let taken = try_remove-ok from k n in
    let held = amount-try_remove from k j n in
    let held_k = amount-try_remove from k k n in
    let put = amount-add to k j n in
    let room = add-ok from' k n h in
    let back = amount-add from' k j n in
    elim (Bool-cases removed) [
      | inr kept ↦ inr (ground (arith, ok-error_report path message), ground arith, ground arith)
      | inl went ↦ elim (Bool-cases (ok (add to k n).1)) [
        | inl fits ↦
            inl (ground (arith, ok-empty), ground (arith, eq_iff k j), ground (arith, eq_iff k j))
        | inr full ↦ inr (
          ground arith,
          ground (arith, eq_iff k k, eq_iff k j),
          ground (arith, add-refused to k n full),
        )
      ]
    ]

-- Between two storages: `n` of `k` went from one to the other and nothing else changed, or, where
-- the report has an error, both hold what they held.
abbrev pub HandedOver :
    ResourceStorage
    → ResourceStorage
    → ResourceStorage
    → ResourceStorage
    → String
    → ℕ
    → ValidationReport
    → Type 0
HandedOver from to from' to' k n report =
    ((ok report ≡ true)
      × ((j : String)
          → (amount from' j + (if str_eq k j then n else 0) ≡ amount from j)
            × (amount to' j ≡ amount to j + (if str_eq k j then n else 0))))
    ⊎ ((ok report ≡ false)
        × ((j : String) → (amount from' j ≡ amount from j) × (amount to' j ≡ amount to j)))

hand_over-HandedOver :
    (from to : ResourceStorage) (k : String) (n : ℕ) (path message : String)
    → n ≤ u64_max
    → is_empty k ≡ false
    → IsValid from
    → let (from', to', report) = hand_over from to k n path message in
      HandedOver from to from' to' k n report
hand_over-HandedOver from to k n path message h named v =
    elim (Bool-cases (ok (hand_over from to k n path message).2)) [
      | inl e ↦ inl (
        e,
        λ j.
            let moved = hand_over-moves from to k n path message j h named v in
            (ground arith, ground arith),
      )
      | inr e ↦ inr (
        e,
        λ j.
            let moved = hand_over-moves from to k n path message j h named v in
            (ground arith, ground arith),
      )
    ]

-- A request that is refused.
refused_request :
    (from to : ResourceStorage) (k : String) (n : ℕ) (report : ValidationReport)
    → ok report ≡ false
    → HandedOver from to from to k n report
refused_request from to k n report e = inr (e, λ j. (refl, refl))

request-named :
    (path k : String) (n : ℕ) → ok (resource_request path k n) ≡ true → is_empty k ≡ false
unfolding resource_request
request-named path k n e = let e' = simp (ok-error_if, ok-empty) at e in ground arith

-- For a 64-bit amount and a settlement with a well-formed storage, loading at the origin moves
-- exactly the amount asked for from the settlement to the caravan, or reports an error and leaves
-- what both hold as it was, on every path, the rollback included.
pub load_caravan_at_origin-HandedOver :
    (c : CaravanState) (s : SettlementState) (k : String) (n : ℕ)
    → n ≤ u64_max
    → IsValid s.storage
    → let (c', s', report) = load_caravan_at_origin c s k n in
      HandedOver s.storage c.cargo s'.storage c'.cargo k n report
unfolding load_caravan_at_origin
load_caravan_at_origin-HandedOver c s k n h v =
    let path = "simulation.caravan." <> c.id in
    elim (Bool-cases (ok (resource_request (path <> ".load") k n))) [
      | inr bad ↦ rw bad (refused_request s.storage c.cargo k n _ bad)
      | inl good ↦ elim (Bool-cases (str_eq s.id c.origin_settlement_id)) [
        | inr away ↦ rw (good, away) (refused_request s.storage c.cargo k n _ (ok-error_report _ _))
        | inl there ↦
            elim (Bool-cases (caravan_ticks_remaining c == caravan_total_travel_ticks c)) [
              | inr left ↦
                  rw (good, there, left)
                    (refused_request s.storage c.cargo k n _ (ok-error_report _ _))
              | inl ready ↦
                  rw (good, there, ready)
                    (hand_over-HandedOver s.storage c.cargo k n _ _ h (request-named _ k n good) v)
            ]
      ]
    ]

-- For a 64-bit amount and a well-formed cargo, unloading at the destination moves exactly the
-- amount asked for from the caravan to the settlement, or reports an error and leaves what both
-- hold as it was; it never succeeds before the caravan has arrived, nor at another settlement.
pub unload_caravan_at_destination-HandedOver :
    (c : CaravanState) (s : SettlementState) (k : String) (n : ℕ)
    → n ≤ u64_max
    → IsValid c.cargo
    → let (c', s', report) = unload_caravan_at_destination c s k n in
      HandedOver c.cargo s.storage c'.cargo s'.storage k n report
      × ((ok report ≡ false)
          ⊎ ((caravan_arrived c ≡ true) × (str_eq s.id c.destination_settlement_id ≡ true)))
unfolding unload_caravan_at_destination
unload_caravan_at_destination-HandedOver c s k n h v =
    let path = "simulation.caravan." <> c.id in
    elim (Bool-cases (ok (resource_request (path <> ".unload") k n))) [
      | inr bad ↦ rw bad (refused_request c.cargo s.storage k n _ bad, inl bad)
      | inl good ↦ elim (Bool-cases (str_eq s.id c.destination_settlement_id)) [
        | inr away ↦
            rw (good, away)
              (
                refused_request c.cargo s.storage k n _ (ok-error_report _ _),
                inl (ok-error_report _ _),
              )
        | inl there ↦ elim (Bool-cases (caravan_arrived c)) [
          | inr left ↦
              rw (good, there, left)
                (
                  refused_request c.cargo s.storage k n _ (ok-error_report _ _),
                  inl (ok-error_report _ _),
                )
          | inl ready ↦
              rw (good, there, ready)
                (
                  hand_over-HandedOver c.cargo s.storage k n _ _ h (request-named _ k n good) v,
                  inr (refl, refl),
                )
        ]
      ]
    ]

pub ok-resource_request :
    (path k : String) (n : ℕ) → ok (resource_request path k n) ≡ (not (n == 0) && not (is_empty k))
unfolding resource_request
ok-resource_request path k n = simp verdicts (ground arith)
