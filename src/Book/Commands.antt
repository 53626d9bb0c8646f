-- ===== src/Book/Commands.antt =====
-- `OrderBook::submit`, `OrderBook::cancel` and `OrderBook::replace`. Each returns the new book beside
-- the result; `none` is a use of a dangling iterator.
use low_latency_exchange.Prelude.{
  ℕ, ◌-◌, Option, none, some, List, [], ◌∷◌, ◌==◌, ltb, leb, if◌then◌else◌, ◌>>=◌, ◌&&◌,
}
use low_latency_exchange.Types.{Price, OrderType, limit}
use low_latency_exchange.Command.{NewOrder, CancelOrder, ReplaceOrder, validate}
use low_latency_exchange.Assoc.{lookup}
use low_latency_exchange.Book.State.{
  OrderRejectReason, invalid_order, duplicate_order_id, CancelRejectReason, ReplaceRejectReason,
  SubmitResult, CancelResult, ReplaceResult, OrderLocation, Execution, OrderBook, seen, side_levels,
  set_side_levels,
}
use low_latency_exchange.Book.Match.{match_against_book}
use low_latency_exchange.Book.Edit.{insert_resting_order, deref, remove_resting_order, reduce_at}

unfoldable pub rejected : OrderRejectReason → SubmitResult
rejected reason = record { executions = []; rejection = some reason; remaining_quantity = none }

-- The last part of `submit`: what is left of a limit order rests. `*order.limit_price` is read only
-- for a limit order, which has a price.
unfoldable pub rest_remainder :
    NewOrder → OrderType → Option Price → OrderBook → ℕ → List Execution → OrderBook × SubmitResult
rest_remainder order limit (some price) book units executions =
    if ltb 0 units
    then (
      insert_resting_order order.order_id order.sequence order.side price units book,
      record { executions = executions; rejection = none; remaining_quantity = some units },
    )
    else (book, record { executions = executions; rejection = none; remaining_quantity = none })
rest_remainder order _ _ book units executions =
    (book, record { executions = executions; rejection = none; remaining_quantity = none })

-- `submit` past its two guards.
unfoldable pub execute_order : NewOrder → OrderBook → OrderBook × SubmitResult
unfolding rest_remainder
execute_order order book =
    let marked : OrderBook = record book {
      seen_order_ids = order.order_id ∷ book.seen_order_ids;
    } in
    let (book', units, executions) =
      match_against_book order.order_id order.side order.type order.limit_price order.quantity
        marked in
    rest_remainder order order.type order.limit_price book' units executions

unfoldable pub submit : NewOrder → OrderBook → OrderBook × SubmitResult
unfolding execute_order rejected
submit order book = elim (validate order) [
  | some e ↦ (book, rejected invalid_order)
  | none ↦
      if seen order.order_id book.seen_order_ids
      then (book, rejected duplicate_order_id)
      else execute_order order book
]

unfoldable pub cancel : CancelOrder → OrderBook → Option (OrderBook × CancelResult)
cancel command book = elim (lookup command.order_id book.resting_orders) [
  | none ↦ some (
    book,
    record {
      order_id = command.order_id;
      cancelled_quantity = none;
      rejection = some CancelRejectReason.order_not_found;
    },
  )
  | some loc ↦ do
    (book', quantity) ← remove_resting_order loc command.order_id book
    some (
      book',
      record { order_id = command.order_id; cancelled_quantity = some quantity; rejection = none },
    )
]

-- The priority of the order is kept.
unfoldable pub reduce_in_place :
    ReplaceOrder → OrderLocation → ℕ → OrderBook → OrderBook × ReplaceResult
unfolding reduce_at
reduce_in_place command loc current_units book =
    let unit_diff = current_units - command.new_quantity in
    let levels =
      reduce_at loc.price loc.it unit_diff command.new_quantity (side_levels loc.side book) in
    (
      set_side_levels loc.side levels book,
      record {
        order_id = command.order_id;
        executions = [];
        remaining_quantity = some command.new_quantity;
        rejection = none;
      },
    )

-- The priority of the order is lost: it is taken out, matched again, and what is left rests.
unfoldable pub requeue :
    ReplaceOrder → OrderLocation → OrderBook → Option (OrderBook × ReplaceResult)
requeue command loc book = do
  (removed, _) ← remove_resting_order loc command.order_id book
  let (matched, units, executions) =
      match_against_book command.order_id loc.side limit (some command.new_price)
        command.new_quantity removed
  if ltb 0 units
      then some (
        insert_resting_order command.order_id command.sequence loc.side command.new_price units
            matched,
        record {
          order_id = command.order_id;
          executions = executions;
          remaining_quantity = some units;
          rejection = none;
        },
      )
      else some (
        matched,
        record {
          order_id = command.order_id;
          executions = executions;
          remaining_quantity = none;
          rejection = none;
        },
      )

unfoldable pub replace : ReplaceOrder → OrderBook → Option (OrderBook × ReplaceResult)
unfolding reduce_in_place requeue
replace command book = elim (lookup command.order_id book.resting_orders) [
  | none ↦ some (
    book,
    record {
      order_id = command.order_id;
      executions = [];
      remaining_quantity = none;
      rejection = some ReplaceRejectReason.order_not_found;
    },
  )
  | some loc ↦ do
    order ← deref book loc
    if command.new_price == loc.price && leb command.new_quantity order.remaining_quantity
        then some (reduce_in_place command loc order.remaining_quantity book)
        else requeue command loc book
]
