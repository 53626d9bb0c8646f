-- ===== src/Engine/Resting.antt =====
-- What the book says of its orders after one was executed.
use low_latency_exchange.Prelude.{
  ℕ, Bool, true, false, Option, none, some, List, ◌∷◌, ◌==◌, ltb, ◌≡◌, refl, sym, ap, ◌∙◌, arith,
  if◌then◌else◌, Bool-cases, inl, inr,
}
use low_latency_exchange.Types.{
  Price, OrderId, SequenceNumber, Side, buy, sell, OrderType, limit, market,
}
use low_latency_exchange.Command.{NewOrder}
use low_latency_exchange.Assoc.{is_some, lookup, emplace, contains, lookup-emplace}
use low_latency_exchange.Book.State.{Execution, OrderLocation, OrderBook, opposite, side_levels}
use low_latency_exchange.Book.Match.{marketable, match_against_book}
use low_latency_exchange.Book.Edit.{insert_resting_order}
use low_latency_exchange.Book.Commands.{rest_remainder, execute_order}
use low_latency_exchange.Book.Fill.{entries}
use low_latency_exchange.Book.Fill.Named.{is_named, fill-unnamed}
use low_latency_exchange.Book.Query.{has_order}
use low_latency_exchange.Book.Valid.{IsValidFor}
use low_latency_exchange.Book.Valid.Match.{
  start, AreLevels-AreNonempty, Matched, match_against_book-Matched,
}
use low_latency_exchange.Book.Walk.{match_against_book-Walked}
use low_latency_exchange.Engine.Owners.{Told, Rested}

-- What a match tells of each order.
match-Told :
    (id : OrderId) (side : Side) (type : OrderType) (limit_price : Option Price) (quantity : ℕ)
    (b : OrderBook)
    → IsValidFor side b
    → let (b', units, execs) = match_against_book id side type limit_price quantity b in
      (j : OrderId) → Told b b' execs j
unfolding has_order contains
match-Told id side type limit_price quantity b v =
    let (b', units, execs) = match_against_book id side type limit_price quantity b in
    let m : Matched side type limit_price quantity b b' units =
      match_against_book-Matched id side type limit_price quantity b v in
    let w =
      match_against_book-Walked id side type limit_price quantity b
        (AreLevels-AreNonempty (opposite side) (side_levels (opposite side) b) v.sorted_own) in
    λ j. (
      λ unnamed. ap is_some (
          ap (lookup j) w.index
          ∙ fill-unnamed (marketable side type limit_price) id j (start quantity b)
              (entries (side_levels (opposite side) b)) (ap (is_named j) (sym w.traded) ∙ unnamed)),
      λ there. still j b' b m.dropped (lookup j b'.resting_orders) refl there,
    )
  where
    still :
        (j : OrderId) (b' b : OrderBook)
        → ((j : OrderId) (loc : OrderLocation)
            → lookup j b'.resting_orders ≡ some loc
            → lookup j b.resting_orders ≡ some loc)
        → (o : Option OrderLocation) → lookup j b'.resting_orders ≡ o
        → is_some (lookup j b'.resting_orders) ≡ true
        → is_some (lookup j b.resting_orders) ≡ true
    still j b' b dropped none e there = absurd (ground (arith, e, there))
    still j b' b dropped (some loc) e there = ap is_some (dropped j loc e)

insert_resting_order-index :
    (id : OrderId) (sequence : SequenceNumber) (side : Side) (price : Price) (units : ℕ)
    (b : OrderBook)
    → (loc : OrderLocation) × ((insert_resting_order id sequence side price units b).resting_orders
        ≡ emplace id loc b.resting_orders)
unfolding insert_resting_order
insert_resting_order-index id sequence buy price units b = (_, refl)
insert_resting_order-index id sequence sell price units b = (_, refl)

absent : (o : Option OrderLocation) → is_some o ≡ false → o ≡ none
absent none h = refl
absent (some v) h = absurd (ground (arith, h))

-- An order that is put in rests, and the others are as they were.
has_order-insert :
    (id j : OrderId) (sequence : SequenceNumber) (side : Side) (price : Price) (units : ℕ)
    (b : OrderBook)
    → has_order id b ≡ false
    → has_order j (insert_resting_order id sequence side price units b)
      ≡ (if id == j then true else has_order j b)
unfolding has_order contains
has_order-insert id j sequence side price units b h =
    let (loc, e) = insert_resting_order-index id sequence side price units b in
    ap (λ m. is_some (lookup j m)) e
    ∙ ap is_some (lookup-emplace id j loc b.resting_orders (absent (lookup id b.resting_orders) h))
    ∙ either (id == j) loc (lookup j b.resting_orders)
  where
    either :
        (t : Bool) (loc : OrderLocation) (o : Option OrderLocation)
        → is_some (if t then some loc else o) ≡ (if t then true else is_some o)
    either true loc o = refl
    either false loc o = refl

-- An order that does not rest before the match does not rest after it.
Told-absent :
    (b₀ b : OrderBook) (execs : List Execution) (id : OrderId)
    → Told b₀ b execs id
    → has_order id b₀ ≡ false
    → has_order id b ≡ false
Told-absent b₀ b execs id told h = elim (Bool-cases (has_order id b)) [
  | inl there ↦ absurd (ground (arith, h, told.1 there))
  | inr gone ↦ gone
]

-- The last part of `submit`.
rest_remainder-Rested :
    (order : NewOrder) (type : OrderType) (limit_price : Option Price) (b₀ b : OrderBook)
    (units : ℕ) (execs : List Execution)
    → ((j : OrderId) → Told b₀ b execs j)
    → has_order order.order_id b₀ ≡ false
    → let (b', result) = rest_remainder order type limit_price b units execs in
      Rested order.order_id b₀ b' result.executions result.remaining_quantity
unfolding rest_remainder
rest_remainder-Rested order limit (some price) b₀ b units execs told h =
    let gone = Told-absent b₀ b execs order.order_id (told order.order_id) h in
    let put = λ (j : OrderId).
      has_order-insert order.order_id j order.sequence order.side price units b gone in
    elim (Bool-cases (ltb 0 units)) [
      | inr none_left ↦ rw none_left (record { told = λ j ne. told j; rests = gone })
      | inl some_left ↦ rw some_left (record {
        told = λ j ne.
            let other : (order.order_id == j) ≡ false = ground (arith, ne) in
            let same = put j ∙ ap (λ t. if t then true else has_order j b) other in
            (λ unnamed. same ∙ (told j).0 unnamed, λ there. (told j).1 (sym same ∙ there));
        rests =
            let self : (order.order_id == order.order_id) ≡ true = ground arith in
            put order.order_id
            ∙ ap (λ t. if t then true else has_order order.order_id b) self
            ∙ sym some_left;
      })
    ]
rest_remainder-Rested order limit none b₀ b units execs told h = record {
  told = λ j ne. told j;
  rests = Told-absent b₀ b execs order.order_id (told order.order_id) h;
}
rest_remainder-Rested order market price b₀ b units execs told h = record {
  told = λ j ne. told j;
  rests = Told-absent b₀ b execs order.order_id (told order.order_id) h;
}

-- An order that is executed against a book in which it does not rest.
pub execute_order-Rested :
    (order : NewOrder) (b : OrderBook)
    → IsValidFor order.side (record b { seen_order_ids = order.order_id ∷ b.seen_order_ids })
    → has_order order.order_id b ≡ false
    → let (b', result) = execute_order order b in
      Rested order.order_id b b' result.executions result.remaining_quantity
unfolding execute_order
execute_order-Rested order b v h =
    let marked : OrderBook = record b { seen_order_ids = order.order_id ∷ b.seen_order_ids } in
    let (b', units, execs) =
      match_against_book order.order_id order.side order.type order.limit_price order.quantity
        marked in
    rest_remainder-Rested order order.type order.limit_price b b' units execs
      (unfold has_order contains in
        match-Told order.order_id order.side order.type order.limit_price order.quantity marked v)
      h
