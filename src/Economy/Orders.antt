-- ===== src/Economy/Orders.antt =====
-- include/clc/economy/Orders.hpp and src/clc/economy/Orders.cpp: matching buy orders with sell
-- orders.
pub mod Conservation
pub mod Crossing
use city_life_core.Prelude.{
  ℕ, ◌+◌, ◌-◌, ◌*◌, Bool, not, ◌&&◌, String, List, [], ◌∷◌, ◌++◌, map, keep_if, wrap64, ltb, leb,
  ◌==◌, if◌then◌else◌, is_empty, str_eq, str_lt, multiply_overflows,
}
use city_life_core.Prelude.Sort.{sort}
use city_life_core.Data.Validation.{ValidationReport, empty_report, error_if, ok}

-- struct MarketOrder
pub record MarketOrder : Type 0 where
  pub resource_id : String
  pub quantity : ℕ
  pub limit_price : ℕ

-- struct TradeExecution
pub record TradeExecution : Type 0 where
  pub resource_id : String
  pub quantity : ℕ
  pub unit_price : ℕ
  pub total_price : ℕ

-- struct OrderMatchResult
pub record OrderMatchResult : Type 0 where
  pub trades : List TradeExecution
  pub warnings : List String
  pub total_quantity : ℕ
  pub total_value : ℕ

abbrev pub empty_result : OrderMatchResult
empty_result = record { trades = []; warnings = []; total_quantity = 0; total_value = 0 }

abbrev pub min_u64 : ℕ → ℕ → ℕ
min_u64 lhs rhs = if ltb lhs rhs then lhs else rhs

-- validate_order
pub validate_order : MarketOrder → String → ValidationReport
validate_order order path =
    error_if (multiply_overflows order.quantity order.limit_price) path
      "order total value overflows"
      (error_if (order.limit_price == 0) path "limit_price must be greater than zero" (
        error_if (order.quantity == 0) path "quantity must be greater than zero" (
          error_if (is_empty order.resource_id) path "resource_id must not be empty" empty_report)))

-- The comparison by which buy orders are sorted: the highest price first.
abbrev pub buy_before : MarketOrder → MarketOrder → Bool
buy_before lhs rhs =
    if lhs.limit_price == rhs.limit_price
    then str_lt lhs.resource_id rhs.resource_id
    else ltb rhs.limit_price lhs.limit_price

-- The comparison by which sell orders are sorted: the lowest price first.
abbrev pub sell_before : MarketOrder → MarketOrder → Bool
sell_before lhs rhs =
    if lhs.limit_price == rhs.limit_price
    then str_lt lhs.resource_id rhs.resource_id
    else ltb lhs.limit_price rhs.limit_price

-- `remove_if` with its side effect: the valid orders, and one warning for each invalid one.
pub drop_invalid : String → String → List MarketOrder → List MarketOrder × List String
drop_invalid path note [] = ([], [])
drop_invalid path note (o ∷ os) =
    let (kept, notes) = drop_invalid path note os in
    if ok (validate_order o path) then (o ∷ kept, notes) else (kept, note ∷ notes)

-- The trade of a pair that matches.
fill : MarketOrder → MarketOrder → OrderMatchResult → MarketOrder × MarketOrder × OrderMatchResult
fill buy sell r =
    let quantity = min_u64 buy.quantity sell.quantity in
    let unit_price = sell.limit_price in
    if multiply_overflows quantity unit_price
    then (
      buy,
      sell,
      record r { warnings = r.warnings ++ "skipped overflowing trade execution" ∷ [] },
    )
    else (
      record buy { quantity = buy.quantity - quantity },
      record sell { quantity = sell.quantity - quantity },
      record r {
        trades =
            r.trades
            ++ record {
              resource_id = buy.resource_id;
              quantity = quantity;
              unit_price = unit_price;
              total_price = quantity * unit_price;
            }
              ∷ [];
        total_quantity = wrap64 (r.total_quantity + quantity);
        total_value = wrap64 (r.total_value + quantity * unit_price);
      },
    )

-- The body of the inner loop, with its `continue`s.
match_pair :
    MarketOrder → MarketOrder → OrderMatchResult → MarketOrder × MarketOrder × OrderMatchResult
unfolding fill
match_pair buy sell r =
    if sell.quantity == 0
    then (buy, sell, r)
    else if not (str_eq buy.resource_id sell.resource_id)
    then (buy, sell, r)
    else if ltb buy.limit_price sell.limit_price
    then (buy, sell, r)
    else fill buy sell r

-- The inner loop: one buy order against all sell orders, until it is filled.
match_sells :
    MarketOrder
    → List MarketOrder
    → OrderMatchResult
    → MarketOrder × List MarketOrder × OrderMatchResult
match_sells buy [] r = (buy, [], r)
match_sells buy (sell ∷ sells) r =
    let (buy', sell', r') = match_pair buy sell r in
    let (buy'', sells', r'') = match_sells buy' sells r' in
    if buy.quantity == 0 then (buy, sell ∷ sells, r) else (buy'', sell' ∷ sells', r'')

-- The outer loop: what is left of both sides, and the result.
match_buys :
    List MarketOrder
    → List MarketOrder
    → OrderMatchResult
    → List MarketOrder × List MarketOrder × OrderMatchResult
match_buys [] sells r = ([], sells, r)
match_buys (buy ∷ buys) sells r =
    let (buy', sells', r') = match_sells buy sells r in
    let (buys', sells'', r'') = match_buys buys sells' r' in (buy' ∷ buys', sells'', r'')

-- match_orders, with what it leaves of the orders that it matched.
pub match_books :
    List MarketOrder → List MarketOrder → List MarketOrder × List MarketOrder × OrderMatchResult
unfolding drop_invalid match_buys match_sells match_pair
match_books buy_orders sell_orders =
    let (buys, buy_notes) = drop_invalid "buy_order" "ignored invalid buy order" buy_orders in
    let (sells, sell_notes) = drop_invalid "sell_order" "ignored invalid sell order" sell_orders in
    match_buys (sort buy_before buys) (sort sell_before sells)
      (record empty_result { warnings = buy_notes ++ sell_notes })

-- match_orders
pub match_orders : List MarketOrder → List MarketOrder → OrderMatchResult
unfolding match_books
match_orders buy_orders sell_orders = (match_books buy_orders sell_orders).2
