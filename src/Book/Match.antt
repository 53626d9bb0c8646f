-- ===== src/Book/Match.antt =====
-- `OrderBook::match_against_book`: the walk of an incoming order through the contra side.
-- The two branches of the source differ only in the side and in the test against the limit. Each
-- `while` is a loop on fuel; `match_against_book` gives one round for each node or level, and one
-- for the test that ends the loop.
use low_latency_exchange.Prelude.{
  ℕ, zero, suc, ◌-◌, min, Bool, true, false, Option, none, some, List, [], ◌∷◌, ◌++◌, ◌==◌, ltb,
  leb, if◌then◌else◌, ◌&&◌, length, sub64,
}
use low_latency_exchange.Types.{Price, OrderId, Side, buy, sell, OrderType, limit, market}
use low_latency_exchange.Assoc.{erase}
use low_latency_exchange.Book.State.{
  Execution, Node, PriceLevel, OrderLocation, Levels, OrderBook, side_levels, set_side_levels,
  opposite,
}

-- What the loops read and write besides the levels.
pub record MatchState : Type 0 where
  pub remaining_units : ℕ
  pub executions : List Execution
  pub resting_orders : List (OrderId × OrderLocation)
  pub resting_order_count : ℕ

-- `type == OrderType::market || levels.begin()->first <= *limit_price`, for a buy. A limit order
-- with no price does not get here: `validate` refuses it.
unfoldable pub marketable : Side → OrderType → Option Price → Price → Bool
marketable side market limit_price price = true
marketable side limit none price = false
marketable buy limit (some p) price = leb price p
marketable sell limit (some p) price = leb p price

-- The body of the inner loop, at the level's first order.
unfoldable pub execute_front :
    OrderId → Price → Node → List Node → ℕ → MatchState → PriceLevel × MatchState
execute_front incoming price front rest total_units s =
    let executed = min s.remaining_units front.order.remaining_quantity in
    let resting_remaining = front.order.remaining_quantity - executed in
    let traded : MatchState = record s {
      remaining_units = s.remaining_units - executed;
      executions =
          s.executions
          ++ record {
            resting_order_id = front.order.order_id;
            incoming_order_id = incoming;
            price = price;
            quantity = executed;
          }
            ∷ [];
    } in
    if resting_remaining == 0
    then (
      record { total_units = sub64 total_units executed; orders = rest },
      record traded {
        resting_orders = erase front.order.order_id s.resting_orders;
        resting_order_count = sub64 s.resting_order_count 1;
      },
    )
    else (
      record {
        total_units = sub64 total_units executed;
        orders =
            record front { order = record (front.order) { remaining_quantity = resting_remaining } }
            ∷ rest;
      },
      traded,
    )

-- `while (remaining_units > 0 && !orders.empty())`
unfoldable pub match_level :
    ℕ → OrderId → Price → ℕ → List Node → MatchState → PriceLevel × MatchState
match_level zero incoming price total_units orders s =
    (record { total_units = total_units; orders = orders }, s)
match_level (suc fuel) incoming price total_units [] s =
    (record { total_units = total_units; orders = [] }, s)
match_level (suc fuel) incoming price total_units (front ∷ rest) s =
    elim (ltb 0 s.remaining_units) [
      | false ↦ (record { total_units = total_units; orders = front ∷ rest }, s)
      | true ↦
          let (level, s') = execute_front incoming price front rest total_units s in
          match_level fuel incoming price level.total_units level.orders s'
    ]

-- `if (orders.empty()) { levels.erase(level); }`
unfoldable pub erase_if_empty : Price → ℕ → List Node → Levels → Levels
erase_if_empty price total_units [] rest = rest
erase_if_empty price total_units (n ∷ ns) rest =
    (price, record { total_units = total_units; orders = n ∷ ns }) ∷ rest

-- `while (remaining_units > 0 && !levels.empty() && (…))`
unfoldable pub match_levels :
    ℕ → (Price → Bool) → OrderId → Levels → MatchState → Levels × MatchState
match_levels zero accepts incoming levels s = (levels, s)
match_levels (suc fuel) accepts incoming [] s = ([], s)
match_levels (suc fuel) accepts incoming ((price, level) ∷ rest) s =
    elim (ltb 0 s.remaining_units && accepts price) [
      | false ↦ ((price, level) ∷ rest, s)
      | true ↦
          let (level', s') =
            match_level (suc (length level.orders)) incoming price level.total_units level.orders
              s in
          match_levels fuel accepts incoming
            (erase_if_empty price level'.total_units level'.orders rest) s'
    ]

-- The book, the units left and the executions after the walk.
unfoldable pub match_against_book :
    OrderId → Side → OrderType → Option Price → ℕ → OrderBook → OrderBook × ℕ × List Execution
unfolding marketable match_levels match_level execute_front erase_if_empty
match_against_book incoming side type limit_price units book =
    let contra = opposite side in
    let levels = side_levels contra book in
    let start : MatchState = record {
      remaining_units = units;
      executions = [];
      resting_orders = book.resting_orders;
      resting_order_count = book.resting_order_count;
    } in
    let (levels', s) =
      match_levels (suc (length levels)) (marketable side type limit_price) incoming levels start in
    (
      set_side_levels contra levels' (record book {
        resting_orders = s.resting_orders;
        resting_order_count = s.resting_order_count;
      }),
      s.remaining_units,
      s.executions,
    )
