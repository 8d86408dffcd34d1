-- ===== src/Economy/Orders/Conservation.antt =====
-- What a match takes from both sides of the book is what it trades.
use city_life_core.Prelude.{
  ℕ, ◌+◌, ◌*◌, ◌≡◌, refl, inl, inr, List, [], ◌∷◌, ◌++◌, wrap64, ◌==◌, Bool-cases, Bool, ◌∙◌, arith,
  str_eq, if◌then◌else◌, String, sum_by, sum_by-append, keep_if, ap, eq_iff,
}
use city_life_core.Prelude.Sort.{sort, sum_by-sort}
use city_life_core.Data.Validation.{ok}
use city_life_core.Economy.Orders.{
  MarketOrder, TradeExecution, OrderMatchResult, empty_result, min_u64, match_pair, match_sells,
  match_buys, match_books, match_orders, buy_before, sell_before, drop_invalid, validate_order,
}

-- What an order asks for or offers of a resource, and what a trade moves of it.
abbrev pub order_of : String → MarketOrder → ℕ
order_of id o = if str_eq o.resource_id id then o.quantity else 0

abbrev pub trade_of : String → TradeExecution → ℕ
trade_of id t = if str_eq t.resource_id id then t.quantity else 0

-- How much of a resource changes hands in a result.
abbrev pub traded : String → OrderMatchResult → ℕ
traded id r = sum_by (trade_of id) r.trades

match_pair-moves :
    (id : String) (b s : MarketOrder) (r : OrderMatchResult)
    → let (b', s', r') = match_pair b s r in
      (order_of id b' + traded id r' ≡ order_of id b + traded id r)
      × (order_of id s' + traded id r' ≡ order_of id s + traded id r)
unfolding match_pair
match_pair-moves id b s r = (
  ground (
    arith,
    sum_by-append (trade_of id) r.trades (
        record {
          resource_id = b.resource_id;
          quantity = min_u64 b.quantity s.quantity;
          unit_price = s.limit_price;
          total_price = min_u64 b.quantity s.quantity * s.limit_price;
        }
        ∷ []),
  ),
  ground (
    arith,
    eq_iff b.resource_id s.resource_id,
    sum_by-append (trade_of id) r.trades (
        record {
          resource_id = b.resource_id;
          quantity = min_u64 b.quantity s.quantity;
          unit_price = s.limit_price;
          total_price = min_u64 b.quantity s.quantity * s.limit_price;
        }
        ∷ []),
  ),
)

match_sells-moves :
    (id : String) (b : MarketOrder) (ss : List MarketOrder) (r : OrderMatchResult)
    → let (b', ss', r') = match_sells b ss r in
      (order_of id b' + traded id r' ≡ order_of id b + traded id r)
      × (sum_by (order_of id) ss' + traded id r' ≡ sum_by (order_of id) ss + traded id r)
unfolding match_sells
match_sells-moves id b [] r = (refl, refl)
match_sells-moves id b (s ∷ ss) r =
    let (b', s', r') = match_pair b s r in
    let pair = match_pair-moves id b s r in
    let rest = match_sells-moves id b' ss r' in
    elim (Bool-cases (b.quantity == 0)) [
      | inl e ↦ rw e (refl, refl)
      | inr e ↦ rw e (omega arith, omega arith)
    ]

match_buys-moves :
    (id : String) (bs ss : List MarketOrder) (r : OrderMatchResult)
    → let (bs', ss', r') = match_buys bs ss r in
      (sum_by (order_of id) bs' + traded id r' ≡ sum_by (order_of id) bs + traded id r)
      × (sum_by (order_of id) ss' + traded id r' ≡ sum_by (order_of id) ss + traded id r)
unfolding match_buys
match_buys-moves id [] ss r = (refl, refl)
match_buys-moves id (b ∷ bs) ss r =
    let (b', ss', r') = match_sells b ss r in
    let first = match_sells-moves id b ss r in
    let rest = match_buys-moves id bs ss' r' in (omega arith, omega arith)

-- The valid orders of a list.
abbrev pub valid_orders : String → List MarketOrder → List MarketOrder
valid_orders path = keep_if (λ o. ok (validate_order o path))

drop_invalid-kept :
    (path note : String) (os : List MarketOrder)
    → (drop_invalid path note os).0 ≡ valid_orders path os
unfolding drop_invalid
drop_invalid-kept path note [] = refl
drop_invalid-kept path note (o ∷ os) = ground (arith, drop_invalid-kept path note os)

book_side :
    (lt : MarketOrder → MarketOrder → Bool) (f : MarketOrder → ℕ) (path note : String)
    (os : List MarketOrder)
    → sum_by f (sort lt (drop_invalid path note os).0) ≡ sum_by f (valid_orders path os)
book_side lt f path note os =
    sum_by-sort lt f (drop_invalid path note os).0 ∙ ap (sum_by f) (drop_invalid-kept path note os)

-- Matching conserves every resource on both sides: what is left of the valid buy orders and what
-- was traded add up to what they asked for, and so for the sell orders. So no trade is made up, and
-- none exceeds demand or supply.
pub match_books-conserves :
    (id : String) (buys sells : List MarketOrder)
    → let (buys', sells', r) = match_books buys sells in
      (sum_by (order_of id) buys' + traded id r
        ≡ sum_by (order_of id) (valid_orders "buy_order" buys))
      × (sum_by (order_of id) sells' + traded id r
          ≡ sum_by (order_of id) (valid_orders "sell_order" sells))
unfolding match_books
match_books-conserves id buys sells =
    let (bs, buy_notes) = drop_invalid "buy_order" "ignored invalid buy order" buys in
    let (ss, sell_notes) = drop_invalid "sell_order" "ignored invalid sell order" sells in
    let moved =
      match_buys-moves id (sort buy_before bs) (sort sell_before ss)
        (record empty_result { warnings = buy_notes ++ sell_notes }) in
    let buy_side =
      book_side buy_before (order_of id) "buy_order" "ignored invalid buy order" buys in
    let sell_side =
      book_side sell_before (order_of id) "sell_order" "ignored invalid sell order" sells in
    (omega arith, omega arith)

-- The counters of a result are the sums over its trades, as 64-bit numbers wrap around.
abbrev pub IsCounted : OrderMatchResult → Type 0
IsCounted r =
    (r.total_quantity ≡ wrap64 (sum_by (λ t. t.quantity) r.trades))
    × (r.total_value ≡ wrap64 (sum_by (λ t. t.total_price) r.trades))

match_pair-IsCounted :
    (b s : MarketOrder) (r : OrderMatchResult) → IsCounted r → IsCounted (match_pair b s r).2
unfolding match_pair
match_pair-IsCounted b s r (quantity, value) =
    let t : TradeExecution = record {
      resource_id = b.resource_id;
      quantity = min_u64 b.quantity s.quantity;
      unit_price = s.limit_price;
      total_price = min_u64 b.quantity s.quantity * s.limit_price;
    } in
    (
      ground (arith, sum_by-append (λ (t : TradeExecution). t.quantity) r.trades (t ∷ [])),
      ground (arith, sum_by-append (λ (t : TradeExecution). t.total_price) r.trades (t ∷ [])),
    )

match_sells-IsCounted :
    (b : MarketOrder) (ss : List MarketOrder) (r : OrderMatchResult)
    → IsCounted r
    → IsCounted (match_sells b ss r).2
unfolding match_sells
match_sells-IsCounted b [] r h = h
match_sells-IsCounted b (s ∷ ss) r h =
    let (b', s', r') = match_pair b s r in
    let rest = match_sells-IsCounted b' ss r' (match_pair-IsCounted b s r h) in
    elim (Bool-cases (b.quantity == 0)) [ inl e ↦ rw e h | inr e ↦ rw e rest ]

match_buys-IsCounted :
    (bs ss : List MarketOrder) (r : OrderMatchResult)
    → IsCounted r
    → IsCounted (match_buys bs ss r).2
unfolding match_buys
match_buys-IsCounted [] ss r h = h
match_buys-IsCounted (b ∷ bs) ss r h =
    let (b', ss', r') = match_sells b ss r in
    match_buys-IsCounted bs ss' r' (match_sells-IsCounted b ss r h)

-- The totals that match_orders reports are the sums over the trades that it lists, modulo 2^64.
match_orders-totals : (buys sells : List MarketOrder) → IsCounted (match_orders buys sells)
unfolding match_orders
match_orders-totals buys sells =
    match_buys-IsCounted (sort buy_before _) (sort sell_before _) _ (refl, refl)
