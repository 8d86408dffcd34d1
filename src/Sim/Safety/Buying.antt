-- ===== src/Sim/Safety/Buying.antt =====
-- What the review of a purchase is worth.
use city_life_core.Prelude.{
  ℕ, ◌+◌, ◌-◌, ◌*◌, refl, ap, ◌∙◌, sym, Bool-cases, ◌≤◌, ◌<◌, ◌≡◌, inl, inr, Bool, true, false, not,
  ◌&&◌, String, arith, u64_max, is_empty, ◌==◌, ltb, leb, saturating_multiply,
  saturating_multiply-eq-min, multiply_overflows, multiply_overflows-true,
}
use city_life_core.Data.Validation.{ok-error_if, ok-empty}
use city_life_core.Economy.Market.{MarketPrice}
use city_life_core.Economy.Trade as Trade
use city_life_core.Economy.Trade.Exchange.{buy_resource-exact}
use city_life_core.Sim.Engine.{has_settlement}
use city_life_core.Sim.Runtime.{SimulationRuntime}
use city_life_core.Sim.Storage.{ResourceStorage, amount}
use city_life_core.Sim.Safety.{check_trade, review_buy_resource_safety, ledger_has_reference}

-- A review allows a purchase exactly when the actor is named, the settlement is known, the quantity
-- is positive, the wallet covers the total and the reference is new to the ledger.
review_buy-allowed :
    (r : SimulationRuntime) (actor place reference : String) (p : MarketPrice) (q : ℕ)
    → (review_buy_resource_safety r actor place p q reference).allowed ≡ (
        not (is_empty actor)
        && has_settlement r.engine place
        && not (q == 0)
        && leb (saturating_multiply p.price q) r.wallet.coins
        && not (ledger_has_reference r.ledger reference))
unfolding review_buy_resource_safety check_trade
review_buy-allowed r actor place reference p q = simp (ok-error_if, ok-empty) (ground arith)

all_five :
    (a b c d e : Bool)
    → (not a && b && not c && d && not e) ≡ true
    → (c ≡ false) × (d ≡ true) × (e ≡ false)
all_five a b c d e h = (ground arith, ground arith, ground arith)

-- Of an allowed purchase, what the trade asks for.
review_buy-means :
    (r : SimulationRuntime) (actor place reference : String) (p : MarketPrice) (q : ℕ)
    → (review_buy_resource_safety r actor place p q reference).allowed ≡ true
    → ((q == 0) ≡ false)
      × (leb (saturating_multiply p.price q) r.wallet.coins ≡ true)
      × (ledger_has_reference r.ledger reference ≡ false)
review_buy-means r actor place reference p q h =
    all_five (is_empty actor) (has_settlement r.engine place) (q == 0)
      (leb (saturating_multiply p.price q) r.wallet.coins) (ledger_has_reference r.ledger reference)
      (sym (review_buy-allowed r actor place reference p q) ∙ h)

total-fits :
    (n q w : ℕ)
    → w < u64_max
    → leb (saturating_multiply n q) w ≡ true
    → multiply_overflows n q ≡ false
total-fits n q w room covered = elim (Bool-cases (multiply_overflows n q)) [
  | inl e ↦ absurd (ground (arith, saturating_multiply-eq-min n q, multiply_overflows-true n q e))
  | inr e ↦ e
]

total-eq : (n q : ℕ) → multiply_overflows n q ≡ false → saturating_multiply n q ≡ n * q
total-eq n q e = rw e refl

grants :
    (a b c d e f : Bool)
    → a ≡ false
    → b ≡ false
    → c ≡ false
    → d ≡ false
    → e ≡ true
    → f ≡ false
    → (not a && not b && not c && not d && e && not f) ≡ true
grants a b c d e f g h i j k l = ground arith

review_price :
    (r : SimulationRuntime) (actor place reference : String) (p : MarketPrice) (q : ℕ)
    → (review_buy_resource_safety r actor place p q reference).total_price
      ≡ saturating_multiply p.price q
unfolding review_buy_resource_safety
review_price r actor place reference p q = refl

clash : (b : Bool) → b ≡ true → b ≡ false → ⊥
clash b h k = ground arith

positive : (n : ℕ) → 0 < n → (n == 0) ≡ false
positive n h = ground arith

has_room : (a q : ℕ) → a + q ≤ u64_max → ltb (u64_max - a) q ≡ false
has_room a q h = ground arith

-- A purchase that a review allows goes through, and costs what the review says: where the price is
-- above zero and for a named resource, the wallet is not full, and the storage has room for the
-- 64-bit quantity. The reference was then new to the ledger.
pub review_buy_resource_safety-holds :
    (r : SimulationRuntime) (actor place reference : String) (p : MarketPrice) (q : ℕ)
    (s : ResourceStorage)
    → r.wallet.coins < u64_max
    → is_empty p.resource_id ≡ false
    → 0 < p.price
    → amount s p.resource_id + q ≤ u64_max
    → (review_buy_resource_safety r actor place p q reference).allowed ≡ true
    → let (w', _, result) = Trade.buy_resource r.wallet s p q in
      (result.ok ≡ true)
      × (w'.coins + (review_buy_resource_safety r actor place p q reference).total_price
          ≡ r.wallet.coins)
      × (ledger_has_reference r.ledger reference ≡ false)
review_buy_resource_safety-holds r actor place reference p q s room named priced fits allowed =
    let (some_quantity, covered, new) = review_buy-means r actor place reference p q allowed in
    let fine = total-fits p.price q r.wallet.coins room covered in
    let total = total-eq p.price q fine in
    let (verdict, outcome) = buy_resource-exact r.wallet s p q (omega arith) in
    let bought : (Trade.buy_resource r.wallet s p q).2.ok ≡ true =
      verdict
      ∙ grants (is_empty p.resource_id) (q == 0) (p.price == 0) (multiply_overflows p.price q)
          (leb (p.price * q) r.wallet.coins) (ltb (u64_max - amount s p.resource_id) q) named
          some_quantity (positive p.price priced) fine
          (sym (ap (λ n. leb n r.wallet.coins) total) ∙ covered)
          (has_room (amount s p.resource_id) q fits) in
    elim outcome [
      | inl (_, (paid, _)) ↦ (
        bought,
        ap (λ n. (Trade.buy_resource r.wallet s p q).0.coins + n)
              (review_price r actor place reference p q ∙ total)
            ∙ paid,
        new,
      )
      | inr (refused, _, _) ↦ absurd (clash _ bought refused)
    ]
