-- ===== src/Economy/Trade/Atomic.antt =====
-- A trade with an entry in the ledger is one transaction.
use city_life_core.Prelude.{
  refl, sym, ap, ◌∙◌, ℕ, ◌*◌, ◌≤◌, ◌<◌, ◌≡◌, ◌⊎◌, inl, inr, Bool, true, false, not, ◌&&◌, String,
  u64_max, ◌==◌, is_empty, arith, Bool-cases,
}
use city_life_core.Sim.Storage.{ResourceStorage}
use city_life_core.Economy.Ledger.{
  TradeResult, LedgerEntry, LedgerEntryType, EconomyLedger, record_trade, append_entry, trade_entry,
  is_trade_ledger_type,
}
use city_life_core.Economy.Ledger.Journal.{record_trade-done, record_trade-ok}
use city_life_core.Economy.Market.{MarketPrice}
use city_life_core.Economy.Trade.{
  Wallet, buy_resource, sell_resource, trade_with_ledger, commit_trade,
}
use city_life_core.Economy.Trade.Exchange.{
  can_buy, can_sell, Settled, buy_resource-exact, sell_resource-exact,
}

-- Whether a trade of a type would go through without the ledger: only purchases and sales are
-- trades.
abbrev pub can_trade : LedgerEntryType → Wallet → ResourceStorage → MarketPrice → ℕ → Bool
can_trade LedgerEntryType.buy w s p q = can_buy w s p q
can_trade LedgerEntryType.sell w s p q = can_sell w s p q
can_trade LedgerEntryType.contract_reward w s p q = false

-- Coins and goods have changed hands as the type of the trade says: a buyer pays and gets the
-- goods, a seller is paid and gives them.
abbrev pub Exchanged :
    LedgerEntryType → Wallet → ResourceStorage → Wallet → ResourceStorage → MarketPrice → ℕ → Type 0
Exchanged LedgerEntryType.buy w s w' s' p q = Settled w s' w' s p q
Exchanged LedgerEntryType.sell w s w' s' p q = Settled w' s w s' p q
Exchanged LedgerEntryType.contract_reward w s w' s' p q = ⊥

-- The entry that a ledger gains by a trade.
abbrev pub entry_of : EconomyLedger → LedgerEntryType → MarketPrice → ℕ → String → LedgerEntry
entry_of l type p q note = record {
  sequence = l.next_sequence;
  type = type;
  resource_id = p.resource_id;
  quantity = q;
  unit_price = p.price;
  total_price = p.price * q;
  reference_id = "";
  note = note;
}

-- A trade with a ledger as one transaction: whether it goes through, and what there is afterwards.
abbrev pub IsAtomic :
    Wallet
    → ResourceStorage
    → MarketPrice
    → ℕ
    → EconomyLedger
    → LedgerEntryType
    → String
    → Wallet × ResourceStorage × EconomyLedger × TradeResult
    → Type 0
IsAtomic w s p q l type note (w', s', l', result) =
    (result.ok ≡ (can_trade type w s p q && not (l.next_sequence == u64_max)))
    × (((result.ok ≡ false) × (w' ≡ w) × (s' ≡ s) × (l' ≡ l))
        ⊎ ((result.ok ≡ true)
            × Exchanged type w s w' s' p q
            × (l' ≡ append_entry l (trade_entry l type result note))
            × (trade_entry l type result note ≡ entry_of l type p q note)))

-- What a result says of its trade.
abbrev Names : MarketPrice → ℕ → TradeResult → Type 0
Names p q t =
    (t.resource_id ≡ p.resource_id)
    × (t.quantity ≡ q)
    × (t.unit_price ≡ p.price)
    × (t.total_price ≡ p.price * q)

-- A trade that goes through is one that the ledger has to take, if it has a number for it.
abbrev Takes : MarketPrice → ℕ → TradeResult → Type 0
Takes p q t =
    Names p q t × (is_empty p.resource_id ≡ false) × ((q == 0) ≡ false) × ((p.price == 0) ≡ false)

module _ (w : Wallet) (s : ResourceStorage) (p : MarketPrice) (q : ℕ) where
  buy-Takes : (buy_resource w s p q).2.ok ≡ true → Takes p q (buy_resource w s p q).2
  unfolding buy_resource
  buy-Takes h = (
    (ground arith, ground arith, ground arith, ground arith),
    ground arith,
    ground arith,
    ground arith,
  )

  sell-Takes : (sell_resource w s p q).2.ok ≡ true → Takes p q (sell_resource w s p q).2
  unfolding sell_resource
  sell-Takes h = (
    (ground arith, ground arith, ground arith, ground arith),
    ground arith,
    ground arith,
    ground arith,
  )

one_product : (m n : ℕ) → 0 < m → 0 < n → 0 < m * n
one_product m n h k = grind arith

positive_product : (m n : ℕ) → (m == 0) ≡ false → (n == 0) ≡ false → (m * n == 0) ≡ false
positive_product m n h k = ground (arith, one_product m n)

-- The ledger takes a trade that goes through, as long as it has a number for it.
Takes-taken :
    (l : EconomyLedger) (type : LedgerEntryType) (p : MarketPrice) (q : ℕ) (t : TradeResult)
    (note : String)
    → is_trade_ledger_type type ≡ true
    → t.ok ≡ true
    → Takes p q t
    → (record_trade l type t note).1 ≡ not (l.next_sequence == u64_max)
Takes-taken l type p q t note trade good ((a, b, c, d), named, some_q, priced) =
    let paid : (t.total_price == 0) ≡ false =
      ap (λ n. n == 0) d ∙ positive_product p.price q priced some_q in
    let known : is_empty t.resource_id ≡ false = ap is_empty a ∙ named in
    let some_t : (t.quantity == 0) ≡ false = ap (λ n. n == 0) b ∙ some_q in
    let priced_t : (t.unit_price == 0) ≡ false = ap (λ n. n == 0) c ∙ priced in
    record_trade-ok l type t note ∙ rw (trade, good, known, some_t, priced_t, paid) refl

settled_of {ℓ ℓ'} :
    {A : Type ℓ} {B C : Type ℓ'} {b : Bool}
    → ((b ≡ true) × A) ⊎ ((b ≡ false) × B × C)
    → b ≡ true
    → A
settled_of (inl (_, a)) h = a
settled_of (inr (bad, _, _)) h = absurd (ground arith)

commit_trade-IsAtomic :
    (w : Wallet) (s : ResourceStorage) (p : MarketPrice) (q : ℕ) (l : EconomyLedger)
    (type : LedgerEntryType) (note : String) (w' : Wallet) (s' : ResourceStorage) (t : TradeResult)
    → is_trade_ledger_type type ≡ true
    → t.ok ≡ can_trade type w s p q
    → (t.ok ≡ true → Takes p q t × Exchanged type w s w' s' p q)
    → IsAtomic w s p q l type note (commit_trade w s l type note (w', s', t))
unfolding commit_trade
commit_trade-IsAtomic w s p q l type note w' s' t trade verdict facts = elim (Bool-cases t.ok) [
  | inr bad ↦
      let barred : can_trade type w s p q ≡ false = sym verdict ∙ bad in
      simp bad (rw barred refl, inl (refl, refl, refl, refl))
  | inl good ↦
      let (takes, exchanged) = facts good in
      let ((a, b, c, d), _, _, _) = takes in
      let kept = Takes-taken l type p q t note trade good takes in
      let permitted : can_trade type w s p q ≡ true = sym verdict ∙ good in
      elim (Bool-cases (l.next_sequence == u64_max)) [
        | inl full ↦
            let lost : (record_trade l type t note).1 ≡ false = ground arith in
            simp (lost, good) (rw (permitted, full) refl, inl (refl, refl, refl, refl))
        | inr room ↦
            let taken : (record_trade l type t note).1 ≡ true = ground arith in
            simp (taken, good)
              (
                rw (permitted, room) refl,
                inr (refl, exchanged, record_trade-done l type t note taken, rw (a, b, c, d) refl),
              )
      ]
]

commit_trade-refuses :
    (w : Wallet) (s : ResourceStorage) (l : EconomyLedger) (type : LedgerEntryType) (note : String)
    (w' : Wallet) (s' : ResourceStorage) (t : TradeResult)
    → is_trade_ledger_type type ≡ false
    → let (w'', s'', l'', result) = commit_trade w s l type note (w', s', t) in
      (result.ok ≡ false) × (w'' ≡ w) × (s'' ≡ s) × (l'' ≡ l)
unfolding commit_trade
commit_trade-refuses w s l type note w' s' t h =
    let lost : (record_trade l type t note).1 ≡ false = record_trade-ok l type t note ∙ rw h refl in
    elim (Bool-cases t.ok) [
      | inr bad ↦ simp bad (refl, refl, refl, refl)
      | inl good ↦ simp (lost, good) (refl, refl, refl, refl)
    ]

-- A trade of a 64-bit quantity with a ledger is one transaction. It goes through exactly when it is
-- a purchase or a sale that would go through without the ledger and the ledger has a number left.
-- Then the buyer has paid price times quantity for that quantity of the one resource, out of and
-- into wallet and storage as the type says, and the ledger gains exactly the entry of this trade.
-- Otherwise wallet, storage and ledger are as they were.
pub trade_with_ledger-IsAtomic :
    (w : Wallet) (s : ResourceStorage) (p : MarketPrice) (q : ℕ) (l : EconomyLedger)
    (type : LedgerEntryType) (note : String)
    → q ≤ u64_max
    → IsAtomic w s p q l type note (trade_with_ledger w s p q l type note)
unfolding trade_with_ledger
trade_with_ledger-IsAtomic w s p q l LedgerEntryType.buy note h =
    let (verdict, outcome) = buy_resource-exact w s p q h in
    commit_trade-IsAtomic w s p q l LedgerEntryType.buy note _ _ _ refl verdict
      (λ good. (buy-Takes w s p q good, settled_of outcome good))
trade_with_ledger-IsAtomic w s p q l LedgerEntryType.sell note h =
    let (verdict, outcome) = sell_resource-exact w s p q in
    commit_trade-IsAtomic w s p q l LedgerEntryType.sell note _ _ _ refl verdict
      (λ good. (sell-Takes w s p q good, settled_of outcome good))
trade_with_ledger-IsAtomic w s p q l LedgerEntryType.contract_reward note h =
    let (w', s', t) = sell_resource w s p q in
    let refused = commit_trade-refuses w s l LedgerEntryType.contract_reward note w' s' t refl in
    (refused.0, inl refused)
