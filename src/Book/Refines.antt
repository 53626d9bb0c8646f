-- ===== src/Book/Refines.antt =====
-- `submit` against the queues of the two sides.
use low_latency_exchange.Prelude.{
  ℕ, true, false, Option, none, some, List, ◌≡◌, refl, sym, ap, ◌∙◌, subst, arith, ltb,
  if◌then◌else◌, Bool-cases, Option-cases, inl, inr, ◌≢◌,
}
use low_latency_exchange.Types.{Price, Quantity, OrderId, Side, buy, sell, OrderType, limit, market}
use low_latency_exchange.Command.{NewOrder, NewOrderValidationError, validate}
use low_latency_exchange.Book.State.{
  Execution, Levels, OrderBook, SubmitResult, invalid_order, duplicate_order_id, opposite, seen,
  side_levels,
}
use low_latency_exchange.Book.Match.{MatchState, marketable, match_against_book}
use low_latency_exchange.Book.Edit.{insert_resting_order}
use low_latency_exchange.Book.Commands.{submit, execute_order, rest_remainder, rejected}
use low_latency_exchange.Book.Fill.{Entry, entries, fill}
use low_latency_exchange.Book.Queue.{insert_entry}
use low_latency_exchange.Book.Levels.{AreLevels}
use low_latency_exchange.Book.Levels.Insert.{entries-push_back}
use low_latency_exchange.Book.Valid.{IsValid}
use low_latency_exchange.Book.Valid.Match.{start, AreLevels-AreNonempty}
use low_latency_exchange.Book.Valid.Submit.{to_side, marked}
use low_latency_exchange.Book.Walk.{Walked, match_against_book-Walked}

-- What rests of an order: the units left of a limit order.
abbrev pub resting_part : OrderType → Option Price → ℕ → Option (Price × Quantity)
resting_part limit (some price) units = if ltb 0 units then some (price, units) else none
resting_part limit none units = none
resting_part market p units = none

-- The queue with that part in it, under the address `it`.
abbrev pub with_part : NewOrder → ℕ → Option (Price × Quantity) → List Entry → List Entry
with_part order it none es = es
with_part order it (some (price, units)) es =
    insert_entry order.side
      (
        price,
        record {
          address = it;
          order = record {
            order_id = order.order_id;
            sequence = order.sequence;
            remaining_quantity = units;
          };
        },
      )
      es

abbrev pub part_quantity : Option (Price × Quantity) → Option Quantity
part_quantity none = none
part_quantity (some (price, units)) = some units

-- An accepted order has walked along the other side, and what is left of it is queued on its own.
pub record Executed (order : NewOrder) (b b' : OrderBook) (result : SubmitResult)
    (w : List Entry × MatchState) : Type 0 where
  pub accepted : result.rejection ≡ none
  pub traded : result.executions ≡ w.1.executions
  pub contra : entries (side_levels (opposite order.side) b') ≡ w.0
  pub own :
      entries (side_levels order.side b')
      ≡ with_part order b.next_address
          (resting_part order.type order.limit_price w.1.remaining_units)
          (entries (side_levels order.side b))
  pub left :
      result.remaining_quantity
      ≡ part_quantity (resting_part order.type order.limit_price w.1.remaining_units)

insert_resting_order-own :
    (order : NewOrder) (price : Price) (units : ℕ) (b : OrderBook)
    → AreLevels order.side (side_levels order.side b)
    → let b' = insert_resting_order order.order_id order.sequence order.side price units b in
      (entries (side_levels order.side b')
        ≡ with_part order b.next_address (some (price, units)) (entries (side_levels order.side b)))
      × (side_levels (opposite order.side) b' ≡ side_levels (opposite order.side) b)
unfolding insert_resting_order
insert_resting_order-own order price units b v = go order.side v
  where
    go :
        (side : Side)
        → AreLevels side (side_levels side b)
        → let b' = insert_resting_order order.order_id order.sequence side price units b in
          (entries (side_levels side b')
            ≡ with_part
                (record order { side = side })
                b.next_address
                (some (price, units))
                (entries (side_levels side b)))
          × (side_levels (opposite side) b' ≡ side_levels (opposite side) b)
    go buy v = (entries-push_back buy price _ b.bids v, refl)
    go sell v = (entries-push_back sell price _ b.asks v, refl)

rest_remainder-Executed :
    (order : NewOrder) (type : OrderType) (limit_price : Option Price) (b b' : OrderBook)
    (units' : ℕ) (executions : List Execution) (w : List Entry × MatchState)
    → AreLevels order.side (side_levels order.side b)
    → Walked order.side b b' units' executions w
    → let (b'', result) = rest_remainder order type limit_price b' units' executions in
      Executed (record order { type = type; limit_price = limit_price }) b b'' result w
unfolding rest_remainder
rest_remainder-Executed order limit (some price) b b' units' executions w v r =
    elim (Bool-cases (ltb 0 units')) [
      | inr gone ↦ rw gone (record {
        accepted = refl;
        traded = r.traded;
        contra = r.queue;
        own = ap entries r.own ∙ sym (ground (arith, r.left, gone));
        left = ground (arith, r.left, gone);
      })
      | inl some_left ↦
          let put =
            insert_resting_order-own order price units' b'
              (subst (AreLevels order.side) (sym r.own) v) in
          rw some_left (record {
            accepted = refl;
            traded = r.traded;
            contra = ap entries put.1 ∙ r.queue;
            own = rw (← r.left) (
                rw some_left (
                  put.0
                  ∙ ap
                      (λ it.
                        with_part order it (some (price, units'))
                          (entries (side_levels order.side b')))
                      r.next
                  ∙ ap (λ l. with_part order b.next_address (some (price, units')) (entries l))
                      r.own));
            left = ground (arith, r.left, some_left);
          })
    ]
rest_remainder-Executed order limit none b b' units' executions w v r = record {
  accepted = refl;
  traded = r.traded;
  contra = r.queue;
  own = ap entries r.own;
  left = refl;
}
rest_remainder-Executed order market p b b' units' executions w v r = record {
  accepted = refl;
  traded = r.traded;
  contra = r.queue;
  own = ap entries r.own;
  left = refl;
}

-- What `submit` does, on each branch.
pub data SubmitOutcome (order : NewOrder) (b : OrderBook) (r : OrderBook × SubmitResult)
    : Type 0 where
  -- A limit order with no price, or a market order with one, changes nothing.
  invalid : validate order ≢ none → r ≡ (b, rejected invalid_order) → SubmitOutcome order b r
  -- Nor does an id that was seen before.
  duplicate :
      validate order ≡ none
      → seen order.order_id b.seen_order_ids ≡ true
      → r ≡ (b, rejected duplicate_order_id)
      → SubmitOutcome order b r
  -- Any other order is executed.
  executed :
      validate order ≡ none
      → seen order.order_id b.seen_order_ids ≡ false
      → Executed order b r.0 r.1 (
          fill
            (marketable order.side order.type order.limit_price)
            order.order_id
            (start order.quantity b)
            (entries (side_levels (opposite order.side) b)))
      → SubmitOutcome order b r

side_levels-marked :
    (side : Side) (id : OrderId) (b : OrderBook)
    → side_levels side (marked id b) ≡ side_levels side b
side_levels-marked buy id b = refl
side_levels-marked sell id b = refl

-- The mark of the id is not seen on the queues.
moved :
    (order : NewOrder) (b b'' : OrderBook) (result : SubmitResult)
    → let b₀ = marked order.order_id b in
      Executed order b₀ b'' result (
        fill
          (marketable order.side order.type order.limit_price)
          order.order_id
          (start order.quantity b₀)
          (entries (side_levels (opposite order.side) b₀)))
      → Executed order b b'' result (
          fill
            (marketable order.side order.type order.limit_price)
            order.order_id
            (start order.quantity b)
            (entries (side_levels (opposite order.side) b)))
moved order b b'' result r =
    let accepts = marketable order.side order.type order.limit_price in
    let walk = λ (l : Levels). fill accepts order.order_id (start order.quantity b) (entries l) in
    let r' =
      subst (λ l. Executed order (marked order.order_id b) b'' result (walk l))
        (side_levels-marked (opposite order.side) order.order_id b) r in
    record {
      accepted = r'.accepted;
      traded = r'.traded;
      contra = r'.contra;
      own =
          r'.own
          ∙ ap
              (λ l.
                with_part order b.next_address
                  (resting_part order.type order.limit_price
                    (walk (side_levels (opposite order.side) b)).1.remaining_units)
                  (entries l))
              (side_levels-marked order.side order.order_id b);
      left = r'.left;
    }

execute_order-Executed :
    (order : NewOrder) (b : OrderBook)
    → IsValid b
    → let (b', result) = execute_order order b in
      Executed order b b' result (
        fill
          (marketable order.side order.type order.limit_price)
          order.order_id
          (start order.quantity b)
          (entries (side_levels (opposite order.side) b)))
unfolding execute_order
execute_order-Executed order b v =
    let b₀ = marked order.order_id b in
    let s = to_side order.side b v in
    let (b', units', executions) =
      match_against_book order.order_id order.side order.type order.limit_price order.quantity b₀ in
    moved order b _ _ (
      rest_remainder-Executed order order.type order.limit_price b₀ b' units' executions
        (fill (marketable order.side order.type order.limit_price) order.order_id
          (start order.quantity b₀) (entries (side_levels (opposite order.side) b₀)))
        (rw (side_levels-marked order.side order.order_id b) s.sorted)
        (match_against_book-Walked order.order_id order.side order.type order.limit_price
          order.quantity b₀
          (AreLevels-AreNonempty (opposite order.side) (side_levels (opposite order.side) b₀)
            (rw (side_levels-marked (opposite order.side) order.order_id b) s.sorted_own))))

-- What `submit` does to a valid book: it rejects an invalid order, and one whose id it has seen, without a
-- change; another it executes against the other side's queue, and rests what is left of a limit order.
pub submit-SubmitOutcome :
    (order : NewOrder) (b : OrderBook) → IsValid b → SubmitOutcome order b (submit order b)
unfolding submit
submit-SubmitOutcome order b v = elim (Option-cases (validate order)) [
  | inr (e, h) ↦ invalid (λ none_e. some-ne-none e (sym h ∙ none_e)) (rw (h, submit))
  | inl h ↦ elim (Bool-cases (seen order.order_id b.seen_order_ids)) [
    | inl old ↦ duplicate h old (rw (h, old, submit))
    | inr new ↦ executed h new (rw (h, new, submit) (execute_order-Executed order b v))
  ]
]
  where
    some-ne-none : (e : NewOrderValidationError) → some e ≡ none → ⊥
    some-ne-none e h = cc
