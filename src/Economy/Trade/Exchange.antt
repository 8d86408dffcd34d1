-- ===== src/Economy/Trade/Exchange.antt =====
-- What a trade does to coins, goods and the ledger, on every branch.
use city_life_core.Prelude.{
  ℕ, ◌+◌, ◌-◌, ◌*◌, ◌≤◌, ◌≡◌, ◌⊎◌, inl, inr, Bool, true, false, not, ◌&&◌, String, u64_max, ltb,
  leb, ◌==◌, if◌then◌else◌, str_eq, is_empty, arith, eq_iff, Bool-cases, multiply_overflows,
}
use city_life_core.Sim.Storage.{ResourceStorage, amount}
use city_life_core.Sim.Storage.Amounts.{
  add-ok, amount-add, try_remove-ok, amount-try_remove, add-refused, try_remove-refused,
}
use city_life_core.Economy.Market.{MarketPrice}
use city_life_core.Economy.Trade.{Wallet, buy_resource, sell_resource}

-- Whether buy_resource goes through.
abbrev pub can_buy : Wallet → ResourceStorage → MarketPrice → ℕ → Bool
can_buy w s p q =
    not (is_empty p.resource_id)
    && not (q == 0)
    && not (p.price == 0)
    && not (multiply_overflows p.price q)
    && leb (p.price * q) w.coins
    && not (ltb (u64_max - amount s p.resource_id) q)

-- Whether sell_resource goes through.
abbrev pub can_sell : Wallet → ResourceStorage → MarketPrice → ℕ → Bool
can_sell w s p q =
    not (is_empty p.resource_id)
    && not (q == 0)
    && not (p.price == 0)
    && not (multiply_overflows p.price q)
    && not (ltb (u64_max - w.coins) (p.price * q))
    && leb q (amount s p.resource_id)

module _ (w : Wallet) (s : ResourceStorage) (p : MarketPrice) (q : ℕ) where
  pub buy-ok : q ≤ u64_max → (buy_resource w s p q).2.ok ≡ can_buy w s p q
  unfolding buy_resource
  buy-ok h = ground (arith, add-ok s p.resource_id q)

  pub sell-ok : (sell_resource w s p q).2.ok ≡ can_sell w s p q
  unfolding sell_resource
  sell-ok = ground (arith, try_remove-ok s p.resource_id q)

  -- A purchase that is refused takes no coin and leaves the storage as it was.
  pub buy-refused :
      (buy_resource w s p q).2.ok ≡ false
      → ((buy_resource w s p q).0 ≡ w) × ((buy_resource w s p q).1 ≡ s)
  unfolding buy_resource
  buy-refused h =
      (ground (arith, add-refused s p.resource_id q), ground (arith, add-refused s p.resource_id q))

  pub sell-refused :
      (sell_resource w s p q).2.ok ≡ false
      → ((sell_resource w s p q).0 ≡ w) × ((sell_resource w s p q).1 ≡ s)
  unfolding sell_resource
  sell-refused h = (
    ground (arith, try_remove-refused s p.resource_id q),
    ground (arith, try_remove-refused s p.resource_id q),
  )

  pub buy-done :
      (j : String)
      → (buy_resource w s p q).2.ok ≡ true
      → ((buy_resource w s p q).0.coins + p.price * q ≡ w.coins)
        × (amount (buy_resource w s p q).1 j
            ≡ (if str_eq p.resource_id j then amount s p.resource_id + q else amount s j))
  unfolding buy_resource
  buy-done j h = (ground arith, ground (arith, amount-add s p.resource_id j q))

  pub sell-done :
      (j : String)
      → (sell_resource w s p q).2.ok ≡ true
      → ((sell_resource w s p q).0.coins ≡ w.coins + p.price * q)
        × (amount (sell_resource w s p q).1 j
            ≡ (if str_eq p.resource_id j then amount s p.resource_id - q else amount s j))
  unfolding sell_resource
  sell-done j h = (ground arith, ground (arith, amount-try_remove s p.resource_id j q))

-- The outcome of a trade that went through: the buyer's coins and goods before and after.
abbrev pub Settled : Wallet → ResourceStorage → Wallet → ResourceStorage → MarketPrice → ℕ → Type 0
Settled rich stocked poor bare p q =
    (poor.coins + p.price * q ≡ rich.coins)
    × ((j : String) → amount stocked j ≡ amount bare j + (if str_eq p.resource_id j then q else 0))

-- A purchase of a 64-bit quantity goes through exactly when the request is well formed, the total
-- fits, the wallet covers it and the storage has room. Then the coins paid are price times quantity
-- and the storage gains the quantity of that resource alone; otherwise wallet and storage are as
-- before.
pub buy_resource-exact :
    (w : Wallet) (s : ResourceStorage) (p : MarketPrice) (q : ℕ)
    → q ≤ u64_max
    → let (w', s', result) = buy_resource w s p q in
      (result.ok ≡ can_buy w s p q)
      × (((result.ok ≡ true) × Settled w s' w' s p q) ⊎ ((result.ok ≡ false) × (w' ≡ w) × (s' ≡ s)))
buy_resource-exact w s p q h = (
  buy-ok w s p q h,
  elim (Bool-cases (buy_resource w s p q).2.ok) [
    | inl e ↦ inl (
      e,
      (
        (buy-done w s p q p.resource_id e).0,
        λ j. ground (arith, eq_iff p.resource_id j, (buy-done w s p q j e).1),
      ),
    )
    | inr e ↦ inr (e, (buy-refused w s p q e).0, (buy-refused w s p q e).1)
  ],
)

-- A sale goes through exactly when the request is well formed, the total fits, the wallet has room
-- for it and the storage holds the quantity. Then the reverse exchange of a purchase takes place;
-- otherwise wallet and storage are as before.
pub sell_resource-exact :
    (w : Wallet) (s : ResourceStorage) (p : MarketPrice) (q : ℕ)
    → let (w', s', result) = sell_resource w s p q in
      (result.ok ≡ can_sell w s p q)
      × (((result.ok ≡ true) × Settled w' s w s' p q) ⊎ ((result.ok ≡ false) × (w' ≡ w) × (s' ≡ s)))
sell_resource-exact w s p q = (
  sell-ok w s p q,
  elim (Bool-cases (sell_resource w s p q).2.ok) [
    | inl e ↦ inl (
      e,
      (
        ground (arith, sell-done w s p q p.resource_id e),
        λ j. ground (arith, eq_iff p.resource_id j, (sell-done w s p q j e).1, sell-ok w s p q),
      ),
    )
    | inr e ↦ inr (e, (sell-refused w s p q e).0, (sell-refused w s p q e).1)
  ],
)

-- With quantity and wallet in range, what was bought can be sold again at the same price: the sale
-- goes through, and coins and amounts are back where they were.
pub sell-buy :
    (w : Wallet) (s : ResourceStorage) (p : MarketPrice) (q : ℕ)
    → q ≤ u64_max
    → w.coins ≤ u64_max
    → (buy_resource w s p q).2.ok ≡ true
    → let (w', s', _) = buy_resource w s p q in
      let (w'', s'', result) = sell_resource w' s' p q in
      (result.ok ≡ true) × (w''.coins ≡ w.coins) × ((j : String) → amount s'' j ≡ amount s j)
sell-buy w s p q h fits e =
    let w' = (buy_resource w s p q).0 in
    let s' = (buy_resource w s p q).1 in
    let held = buy-done w s p q p.resource_id e in
    let sold : (sell_resource w' s' p q).2.ok ≡ true =
      ground
        (arith, sell-ok w' s' p q, buy-ok w s p q h, held, eq_iff p.resource_id p.resource_id) in
    (
      sold,
      ground (arith, sell-done w' s' p q p.resource_id sold, held),
      λ j. ground (
        arith,
        sell-done w' s' p q j sold,
        buy-done w s p q j e,
        held,
        eq_iff p.resource_id j,
        eq_iff p.resource_id p.resource_id,
      ),
    )
