-- ===== src/Book/Valid/Submit.antt =====
-- `submit` keeps a book valid.
use low_latency_exchange.Prelude.{
  ℕ, ◌<◌, true, false, Option, none, some, List, ◌∷◌, ltb, ◌≡◌, refl, sym, subst, arith, ◌⊎◌, inl,
  inr, Bool-cases, Option-cases,
}
use low_latency_exchange.Types.{
  Price, SequenceNumber, OrderId, Side, buy, sell, OrderType, limit, market, IsWord,
}
use low_latency_exchange.Command.{NewOrder, validate}
use low_latency_exchange.Assoc.{lookup}
use low_latency_exchange.Book.State.{
  Execution, OrderLocation, OrderBook, opposite, seen, side_levels,
}
use low_latency_exchange.Book.Match.{marketable, match_against_book}
use low_latency_exchange.Book.Edit.{insert_resting_order}
use low_latency_exchange.Book.Commands.{submit, execute_order, rest_remainder}
use low_latency_exchange.Book.Fill.{entries}
use low_latency_exchange.Book.Fill.Trades.{IsRefused}
use low_latency_exchange.Book.Valid.{Clears, IsValid, IsValidFor}
use low_latency_exchange.Book.Valid.Parts.{flip-AreValid}
use low_latency_exchange.Book.Valid.Match.{Matched, match_against_book-Matched, IsRefused-Clears}
use low_latency_exchange.Book.Valid.Edits.{insert_resting_order-IsValidFor}

pub to_side : (side : Side) (b : OrderBook) → IsValid b → IsValidFor side b
to_side buy b v = v
to_side sell b v =
    flip-AreValid b.resting_orders b.resting_order_count b.next_address b.seen_order_ids buy b.bids
      b.asks v

pub of_side : (side : Side) (b : OrderBook) → IsValidFor side b → IsValid b
of_side buy b v = v
of_side sell b v =
    flip-AreValid b.resting_orders b.resting_order_count b.next_address b.seen_order_ids sell b.asks
      b.bids v

-- What is left of a matched limit order rests.
pub rest-IsValidFor :
    (id : OrderId) (sequence : SequenceNumber) (side : Side) (price : Price) (units units' : ℕ)
    (b b' : OrderBook)
    → Matched side limit (some price) units b b' units'
    → lookup id b.resting_orders ≡ none
    → seen id b.seen_order_ids ≡ true
    → IsWord units
    → 0 < units'
    → IsValidFor side (insert_resting_order id sequence side price units' b')
rest-IsValidFor id sequence side price units units' b b' r fresh marked w some_left =
    insert_resting_order-IsValidFor id sequence side price units' b' r.valid
      (absent (lookup id b'.resting_orders) refl)
      (subst (λ ids. seen id ids ≡ true) (sym r.seen) marked) (omega (arith, r.bounded))
      (clears r.exhausted)
  where
    absent :
        (o : Option OrderLocation)
        → lookup id b'.resting_orders ≡ o
        → lookup id b'.resting_orders ≡ none
    absent none e = e
    absent (some loc) e = cc (r.dropped id loc e, fresh)

    clears :
        (units' ≡ 0)
          ⊎ IsRefused
              (marketable side limit (some price))
              (entries (side_levels (opposite side) b'))
        → Clears side price (entries (side_levels (opposite side) b'))
    clears (inl done) = absurd (omega arith)
    clears (inr refused) =
        IsRefused-Clears side price (side_levels (opposite side) b') r.valid.sorted_own refused

rest_remainder-IsValid :
    (order : NewOrder) (type : OrderType) (limit_price : Option Price) (b b' : OrderBook)
    (units' : ℕ) (executions : List Execution)
    → Matched order.side type limit_price order.quantity b b' units'
    → lookup order.order_id b.resting_orders ≡ none
    → seen order.order_id b.seen_order_ids ≡ true
    → IsWord (order.quantity)
    → IsValid (rest_remainder order type limit_price b' units' executions).0
unfolding rest_remainder
rest_remainder-IsValid order limit (some price) b b' units' executions r fresh marked w =
    elim (Bool-cases (ltb 0 units')) [
      | inl left ↦ rw left (
          of_side order.side _ (
            rest-IsValidFor order.order_id order.sequence order.side price order.quantity units' b
              b' r fresh marked w (ground arith)))
      | inr gone ↦ rw gone (of_side order.side b' r.valid)
    ]
rest_remainder-IsValid order limit none b b' units' executions r fresh marked w =
    of_side order.side b' r.valid
rest_remainder-IsValid order market p b b' units' executions r fresh marked w =
    of_side order.side b' r.valid

-- The id is marked as seen before the match.
abbrev pub marked : OrderId → OrderBook → OrderBook
marked id b = record b { seen_order_ids = id ∷ b.seen_order_ids }

pub marked-IsValid : (id : OrderId) (b : OrderBook) → IsValid b → IsValid (marked id b)
unfolding seen
marked-IsValid id b v = record {
  sorted = v.sorted;
  sorted_own = v.sorted_own;
  index = v.index;
  below = v.below;
  below_own = v.below_own;
  uncrossed = v.uncrossed;
  known = λ j loc h. ground (arith, v.known j loc h);
}

-- An id that was not seen does not rest.
unseen_absent :
    (id : OrderId) (b : OrderBook)
    → IsValid b
    → seen id b.seen_order_ids ≡ false
    → lookup id b.resting_orders ≡ none
unseen_absent id b v h = go (lookup id b.resting_orders) refl
  where
    go :
        (o : Option OrderLocation)
        → lookup id b.resting_orders ≡ o
        → lookup id b.resting_orders ≡ none
    go none e = e
    go (some loc) e = cc (v.known id loc e, h)

execute_order-IsValid :
    (order : NewOrder) (b : OrderBook)
    → IsValid b
    → seen order.order_id b.seen_order_ids ≡ false
    → IsWord (order.quantity)
    → IsValid (execute_order order b).0
unfolding execute_order
execute_order-IsValid order b v new w =
    let b₀ = marked order.order_id b in
    let (b', units', executions) =
      match_against_book order.order_id order.side order.type order.limit_price order.quantity b₀ in
    rest_remainder-IsValid order order.type order.limit_price b₀ b' units' executions
      (match_against_book-Matched order.order_id order.side order.type order.limit_price
        order.quantity b₀ (to_side order.side b₀ (marked-IsValid order.order_id b v)))
      (unseen_absent order.order_id b v new) (unfold seen in ground arith) w

-- Whatever order comes, of a quantity that a `Quantity` can hold, the book stays valid.
pub submit-IsValid :
    (order : NewOrder) (b : OrderBook)
    → IsValid b
    → IsWord (order.quantity)
    → IsValid (submit order b).0
unfolding submit
submit-IsValid order b v w = elim (Option-cases (validate order)) [
  | inr (e, h) ↦ rw (h, submit) v
  | inl h ↦ elim (Bool-cases (seen order.order_id b.seen_order_ids)) [
    | inl old ↦ rw (h, old, submit) v
    | inr new ↦ rw (h, new, submit) (execute_order-IsValid order b v new w)
  ]
]
