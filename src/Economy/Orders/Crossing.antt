-- ===== src/Economy/Orders/Crossing.antt =====
-- A match is complete: it leaves no pair of orders that could still trade.
use city_life_core.Prelude.{
  ℕ, ◌*◌, ◌≤◌, ◌≡◌, refl, ◌∙◌, inl, inr, Bool, true, false, ◌&&◌, List, [], ◌∷◌, ◌++◌, u64_max,
  ◌==◌, Bool-cases, arith, str_eq, ltb, leb, multiply_overflows, multiply_overflows-true,
  multiply_overflows-false, All, String,
}
use city_life_core.Prelude.Sort.{sort, All-sort}
use city_life_core.Data.Validation.{ok, ok-empty, ok-error_if}
use city_life_core.Economy.Orders.{
  MarketOrder, OrderMatchResult, min_u64, match_pair, match_sells, match_buys, match_books,
  match_orders, buy_before, sell_before, drop_invalid, validate_order,
}

-- A buy and a sell order that could trade.
abbrev pub crosses : MarketOrder → MarketOrder → Bool
crosses b s =
    ltb 0 b.quantity
    && ltb 0 s.quantity
    && str_eq b.resource_id s.resource_id
    && leb s.limit_price b.limit_price

-- The value of an order fits its 64 bits.
abbrev pub Fits : MarketOrder → Type 0
Fits o = o.quantity * o.limit_price ≤ u64_max

-- The same order, with no more of its quantity open.
abbrev pub Shrinks : MarketOrder → MarketOrder → Type 0
Shrinks o' o =
    (o'.resource_id ≡ o.resource_id) × (o'.limit_price ≡ o.limit_price) × (o'.quantity ≤ o.quantity)

abbrev pub AllShrink : List MarketOrder → List MarketOrder → Type 0
AllShrink [] [] = Unit
AllShrink [] (o ∷ os) = ⊥
AllShrink (o' ∷ os') [] = ⊥
AllShrink (o' ∷ os') (o ∷ os) = Shrinks o' o × AllShrink os' os

-- No order of the list crosses `b`.
abbrev pub Spent : MarketOrder → List MarketOrder → Type 0
Spent b = All (λ s. crosses b s ≡ false)

fits_less : (a b c : ℕ) → a ≤ b → b * c ≤ u64_max → multiply_overflows a c ≡ false
fits_less a b c h k = elim (Bool-cases (multiply_overflows a c)) [
  | inl e ↦ absurd (grind (arith, multiply_overflows-true a c e))
  | inr e ↦ e
]

crosses_shrunk :
    (b b' s s' : MarketOrder)
    → crosses b s ≡ false
    → Shrinks b' b
    → Shrinks s' s
    → crosses b' s' ≡ false
crosses_shrunk b b' s s' h (bi, bp, bq) (si, sp, sq) = ground arith

AllShrink-refl : (os : List MarketOrder) → AllShrink os os
AllShrink-refl [] = tt
AllShrink-refl (o ∷ os) = ((refl, refl, omega arith), AllShrink-refl os)

AllShrink-trans :
    (xs ys zs : List MarketOrder) → AllShrink xs ys → AllShrink ys zs → AllShrink xs zs
AllShrink-trans [] [] [] h k = tt
AllShrink-trans [] [] (z ∷ zs) h k = k
AllShrink-trans [] (y ∷ ys) zs h k = absurd h
AllShrink-trans (x ∷ xs) [] zs h k = absurd h
AllShrink-trans (x ∷ xs) (y ∷ ys) [] h k = k
AllShrink-trans (x ∷ xs) (y ∷ ys) (z ∷ zs) ((a, b, c), h) ((d, e, f), k) =
    ((a ∙ d, b ∙ e, omega arith), AllShrink-trans xs ys zs h k)

Spent-shrunk :
    (b b' : MarketOrder) (ss ss' : List MarketOrder)
    → Spent b ss
    → Shrinks b' b
    → AllShrink ss' ss
    → Spent b' ss'
Spent-shrunk b b' [] [] h k l = tt
Spent-shrunk b b' [] (s' ∷ ss') h k l = absurd l
Spent-shrunk b b' (s ∷ ss) [] h k l = tt
Spent-shrunk b b' (s ∷ ss) (s' ∷ ss') (h, hs) k (l, ls) =
    (crosses_shrunk b b' s s' h k l, Spent-shrunk b b' ss ss' hs k ls)

match_pair-Spent :
    (b s : MarketOrder) (r : OrderMatchResult)
    → Fits s
    → let (b', s', r') = match_pair b s r in
      (crosses b' s' ≡ false) × Shrinks b' b × Shrinks s' s × (r'.warnings ≡ r.warnings)
unfolding match_pair
match_pair-Spent b s r h =
    let room =
      fits_less (min_u64 b.quantity s.quantity) s.quantity s.limit_price (ground arith) h in
    (
      ground arith,
      (ground arith, ground arith, ground arith),
      (ground arith, ground arith, ground arith),
      ground arith,
    )

Spent-filled : (b : MarketOrder) (ss : List MarketOrder) → b.quantity ≡ 0 → Spent b ss
Spent-filled b [] e = tt
Spent-filled b (s ∷ ss) e = (ground arith, Spent-filled b ss e)

match_sells-Spent :
    (b : MarketOrder) (ss : List MarketOrder) (r : OrderMatchResult)
    → All Fits ss
    → let (b', ss', r') = match_sells b ss r in
      Spent b' ss' × Shrinks b' b × AllShrink ss' ss × (r'.warnings ≡ r.warnings)
unfolding match_sells
match_sells-Spent b [] r h = (tt, (refl, refl, omega arith), tt, refl)
match_sells-Spent b (s ∷ ss) r (h, hs) =
    let (b', s', r') = match_pair b s r in
    let (clear, (bi, bp, bq), shrunk, kept) = match_pair-Spent b s r h in
    let (b'', ss', r'') = match_sells b' ss r' in
    let (rest, (ci, cp, cq), all, still) = match_sells-Spent b' ss r' hs in
    elim (Bool-cases (b.quantity == 0)) [
      | inl e ↦ rw e (
        Spent-filled b (s ∷ ss) (ground arith),
        (refl, refl, omega arith),
        AllShrink-refl (s ∷ ss),
        refl,
      )
      | inr e ↦ rw e (
        (crosses_shrunk b' b'' s' s' clear (ci, cp, cq) (refl, refl, omega arith), rest),
        (ci ∙ bi, cp ∙ bp, omega arith),
        (shrunk, all),
        still ∙ kept,
      )
    ]

Fits-shrunk : (ss' ss : List MarketOrder) → AllShrink ss' ss → All Fits ss → All Fits ss'
Fits-shrunk [] ss l h = tt
Fits-shrunk (s' ∷ ss') [] l h = absurd l
Fits-shrunk (s' ∷ ss') (s ∷ ss) ((i, p, q), ls) (h, hs) =
    (rw p (grind arith), Fits-shrunk ss' ss ls hs)

match_buys-Spent :
    (bs ss : List MarketOrder) (r : OrderMatchResult)
    → All Fits ss
    → let (bs', ss', r') = match_buys bs ss r in
      All (λ b. Spent b ss') bs' × AllShrink ss' ss × (r'.warnings ≡ r.warnings)
unfolding match_buys
match_buys-Spent [] ss r h = (tt, AllShrink-refl ss, refl)
match_buys-Spent (b ∷ bs) ss r h =
    let (b', ss', r') = match_sells b ss r in
    let (clear, _, shrunk, kept) = match_sells-Spent b ss r h in
    let (bs', ss'', r'') = match_buys bs ss' r' in
    let (rest, all, still) = match_buys-Spent bs ss' r' (Fits-shrunk ss' ss shrunk h) in
    (
      (Spent-shrunk b' b' ss' ss'' clear (refl, refl, omega arith) all, rest),
      AllShrink-trans ss'' ss' ss all shrunk,
      still ∙ kept,
    )

validate_order-Fits : (o : MarketOrder) (path : String) → ok (validate_order o path) ≡ true → Fits o
unfolding validate_order
validate_order-Fits o path e =
    multiply_overflows-false o.quantity o.limit_price
      (let e' = simp (ok-error_if, ok-empty) at e in ground arith)

drop_invalid-Fits :
    (path note : String) (os : List MarketOrder) → All Fits (drop_invalid path note os).0
unfolding drop_invalid
drop_invalid-Fits path note [] = tt
drop_invalid-Fits path note (o ∷ os) = elim (Bool-cases (ok (validate_order o path))) [
  | inl e ↦ rw e (validate_order-Fits o path e, drop_invalid-Fits path note os)
  | inr e ↦ rw e (drop_invalid-Fits path note os)
]

-- After a match no buy order and sell order that are left could still trade: for each pair, one is
-- used up, or they name different resources, or the price limits do not meet.
pub match_books_complete :
    (buys sells : List MarketOrder)
    → let (buys', sells', r) = match_books buys sells in
      All (λ b. All (λ s. crosses b s ≡ false) sells') buys'
unfolding match_books
match_books_complete buys sells =
    (match_buys-Spent (sort buy_before _) (sort sell_before _) _
      (All-sort sell_before Fits _ (drop_invalid-Fits "sell_order" _ sells))).0

-- The branch of match_orders for an overflowing execution is never taken: its warnings are those
-- about invalid orders.
pub match_orders-warnings :
    (buys sells : List MarketOrder)
    → (match_orders buys sells).warnings
      ≡ (drop_invalid "buy_order" "ignored invalid buy order" buys).1
        ++ (drop_invalid "sell_order" "ignored invalid sell order" sells).1
unfolding match_orders
match_orders-warnings buys sells =
    (match_buys-Spent (sort buy_before _) (sort sell_before _) _
      (All-sort sell_before Fits _ (drop_invalid-Fits "sell_order" _ sells))).2
