-- ===== src/Book/Valid/Replace.antt =====
-- `replace` on a valid book.
use low_latency_exchange.Prelude.{
  ℕ, ◌≤◌, Bool, true, false, Option, none, some, List, [], ◌==◌, ltb, leb, ◌&&◌, ◌≡◌, refl, sym, ap,
  ◌∙◌, subst, arith, inl, inr, Bool-cases, Option-cases, if◌then◌else◌,
}
use low_latency_exchange.Types.{Price, Quantity, OrderId, Side, buy, sell, limit, IsWord}
use low_latency_exchange.Command.{NewOrder, ReplaceOrder}
use low_latency_exchange.Assoc.{lookup, erase}
use low_latency_exchange.Book.State.{
  Execution, Node, OrderLocation, OrderBook, ReplaceRejectReason, ReplaceResult, opposite, seen,
  side_levels,
}
use low_latency_exchange.Book.Match.{match_against_book}
use low_latency_exchange.Book.Edit.{insert_resting_order, remove_resting_order}
use low_latency_exchange.Book.Commands.{
  execute_order, rest_remainder, replace, reduce_in_place, requeue,
}
use low_latency_exchange.Book.Fill.{entries}
use low_latency_exchange.Book.Valid.{IsValid, IsValidFor}
use low_latency_exchange.Book.Valid.Match.{Matched, match_against_book-Matched}
use low_latency_exchange.Book.Valid.Edits.{
  without, Removed, remove_resting_order-Removed, reduce-AreValid,
}
use low_latency_exchange.Book.Queue.{remove_entry, set_entry, find_entry}
use low_latency_exchange.Book.Levels.Edits.{entries-remove_at, entries-reduce_at}
use low_latency_exchange.Book.Valid.Submit.{to_side, of_side, rest-IsValidFor}
use low_latency_exchange.Book.Valid.Cancel.{
  without-own, without-other, without-index, without-seen, without-absent,
}

abbrev pub replaced : ReplaceOrder → List Execution → Option Quantity → ReplaceResult
replaced c executions left = record {
  order_id = c.order_id;
  executions = executions;
  remaining_quantity = left;
  rejection = none;
}

-- The order that stands for a replacement that has lost its priority.
abbrev pub as_new_order : ReplaceOrder → Side → NewOrder
as_new_order c side = record {
  sequence = c.sequence;
  order_id = c.order_id;
  side = side;
  type = limit;
  quantity = c.new_quantity;
  limit_price = some c.new_price;
}

abbrev pub with_seen : List OrderId → OrderBook → OrderBook
with_seen ids b = record b { seen_order_ids = ids }

-- The execution of that order, but for the record of its id as seen.
abbrev pub executed : ReplaceOrder → Side → OrderBook → OrderBook × ReplaceResult
executed c side b =
    let (b', result) = execute_order (as_new_order c side) b in
    (with_seen b.seen_order_ids b', replaced c result.executions result.remaining_quantity)

-- The test by which an order keeps its priority.
abbrev pub keeps_priority : ReplaceOrder → OrderLocation → Node → Bool
keeps_priority c loc n = c.new_price == loc.price && leb c.new_quantity n.order.remaining_quantity

pub data ReplaceOutcome (c : ReplaceOrder) (b : OrderBook) (r : Option (OrderBook × ReplaceResult))
    : Type 0 where
  -- No such order rests: nothing changes.
  missing :
      lookup c.order_id b.resting_orders ≡ none
      → r
        ≡ some (
          b,
          record {
            order_id = c.order_id;
            executions = [];
            remaining_quantity = none;
            rejection = some ReplaceRejectReason.order_not_found;
          },
        )
      → ReplaceOutcome c b r
  -- At the same price and for no more units, the order stays where it is in its queue.
  reduced :
      (loc : OrderLocation) (n : Node) (b' : OrderBook)
      → lookup c.order_id b.resting_orders ≡ some loc
      → find_entry loc.price loc.it (entries (side_levels loc.side b)) ≡ some n
      → keeps_priority c loc n ≡ true
      → r ≡ some (b', replaced c [] (some c.new_quantity))
      → IsValid b'
      → entries (side_levels loc.side b')
        ≡ set_entry loc.price loc.it c.new_quantity (entries (side_levels loc.side b))
      → side_levels (opposite loc.side) b' ≡ side_levels (opposite loc.side) b
      → b'.resting_orders ≡ b.resting_orders
      → ReplaceOutcome c b r
  -- Otherwise the order is taken out, and a new one of the same side and id is executed.
  requeued :
      (loc : OrderLocation) (n : Node) (b₁ : OrderBook)
      → lookup c.order_id b.resting_orders ≡ some loc
      → find_entry loc.price loc.it (entries (side_levels loc.side b)) ≡ some n
      → keeps_priority c loc n ≡ false
      → entries (side_levels loc.side b₁)
        ≡ remove_entry loc.price loc.it (entries (side_levels loc.side b))
      → side_levels (opposite loc.side) b₁ ≡ side_levels (opposite loc.side) b
      → b₁.seen_order_ids ≡ b.seen_order_ids
      → r ≡ some (executed c loc.side b₁)
      → IsValid (executed c loc.side b₁).0
      → IsValidFor loc.side b₁
      → b₁.resting_orders ≡ erase c.order_id b.resting_orders
      → ReplaceOutcome c b r

reduce_in_place-IsValid :
    (c : ReplaceOrder) (side : Side) (b : OrderBook) (price : Price) (it : ℕ) (n : Node)
    → IsValid b
    → IsWord (c.new_quantity)
    → c.new_quantity ≤ n.order.remaining_quantity
    → find_entry price it (entries (side_levels side b)) ≡ some n
    → let (b', _) =
        reduce_in_place c
          (record { side = side; price = price; it = it })
          n.order.remaining_quantity
          b in
      IsValid b'
      × (entries (side_levels side b')
          ≡ set_entry price it c.new_quantity (entries (side_levels side b)))
      × (side_levels (opposite side) b' ≡ side_levels (opposite side) b)
      × (b'.resting_orders ≡ b.resting_orders)
unfolding reduce_in_place
reduce_in_place-IsValid c buy b price it n v w le f = (
  reduce-AreValid b.resting_orders b.resting_order_count b.next_address b.seen_order_ids buy b.bids
      b.asks v price it c.new_quantity n w le f,
  entries-reduce_at buy price it c.new_quantity w _ b.bids n v.sorted f,
  refl,
  refl,
)
reduce_in_place-IsValid c sell b price it n v w le f = (
  of_side sell _ (
      reduce-AreValid b.resting_orders b.resting_order_count b.next_address b.seen_order_ids sell
        b.asks b.bids (to_side sell b v) price it c.new_quantity n w le f),
  entries-reduce_at sell price it c.new_quantity w _ b.asks n v.sorted_own f,
  refl,
  refl,
)

-- The end of `requeue`, for the side and the book without the order.
finish :
    ReplaceOrder → Side → OrderBook → OrderBook × ℕ × List Execution → OrderBook × ReplaceResult
finish c side b (matched, units, executions) =
    if ltb 0 units
    then (
      insert_resting_order c.order_id c.sequence side c.new_price units matched,
      replaced c executions (some units),
    )
    else (matched, replaced c executions none)

requeue-finish :
    (c : ReplaceOrder) (loc : OrderLocation) (b b₁ : OrderBook) (q : Quantity)
    → remove_resting_order loc c.order_id b ≡ some (b₁, q)
    → requeue c loc b
      ≡ some (
          finish c loc.side b₁
            (match_against_book c.order_id loc.side limit (some c.new_price) c.new_quantity b₁))
unfolding requeue finish
requeue-finish c loc b b₁ q h = rw h (ground arith)

execute_order-finish :
    (c : ReplaceOrder) (side : Side) (b₁ : OrderBook)
    → executed c side b₁
      ≡ finish c side b₁
          (match_against_book c.order_id side limit (some c.new_price) c.new_quantity b₁)
unfolding execute_order rest_remainder finish match_against_book insert_resting_order
execute_order-finish c buy b₁ = ground arith
execute_order-finish c sell b₁ = ground arith

finish-IsValid :
    (c : ReplaceOrder) (side : Side) (b : OrderBook)
    → IsValidFor side b
    → lookup c.order_id b.resting_orders ≡ none
    → seen c.order_id b.seen_order_ids ≡ true
    → IsWord (c.new_quantity)
    → IsValid
        (finish c side b
          (match_against_book c.order_id side limit (some c.new_price) c.new_quantity b)).0
unfolding finish
finish-IsValid c side b v fresh marked w =
    let (b', units', xs) =
      match_against_book c.order_id side limit (some c.new_price) c.new_quantity b in
    let r : Matched side limit (some c.new_price) c.new_quantity b b' units' =
      match_against_book-Matched c.order_id side limit (some c.new_price) c.new_quantity b v in
    elim (Bool-cases (ltb 0 units')) [
      | inl left ↦ rw left (
          of_side side _ (
            rest-IsValidFor c.order_id c.sequence side c.new_price c.new_quantity units' b b' r
              fresh marked w (ground arith)))
      | inr gone ↦ rw gone (of_side side b' r.valid)
    ]

-- An order that loses its priority.
requeue-ReplaceOutcome :
    (c : ReplaceOrder) (b : OrderBook) (loc : OrderLocation)
    (r : Removed loc.side b c.order_id loc.price loc.it)
    → IsValid b
    → IsWord (c.new_quantity)
    → lookup c.order_id b.resting_orders ≡ some loc
    → keeps_priority c loc r.node ≡ false
    → ReplaceOutcome c b (requeue c loc b)
requeue-ReplaceOutcome c b loc r v w e lost =
    let q = r.node.order.remaining_quantity in
    let b₁ = without b c.order_id loc q in
    let same = execute_order-finish c loc.side b₁ in
    let same_seen : b₁.seen_order_ids ≡ b.seen_order_ids =
      without-seen loc.side b c.order_id loc.price loc.it q in
    requeued loc r.node b₁ e r.here lost
      (ap entries (without-own loc.side b c.order_id loc.price loc.it q)
        ∙ entries-remove_at loc.side loc.price loc.it (side_levels loc.side b) r.node
            (to_side loc.side b v).sorted r.here)
      (without-other loc.side b c.order_id loc.price loc.it q) same_seen
      (requeue-finish c loc b b₁ q r.result ∙ ap some (sym same))
      (subst (λ x. IsValid x.0) (sym same)
        (finish-IsValid c loc.side b₁ r.valid
          (without-absent loc.side b c.order_id loc.price loc.it q v)
          (subst (λ ids. seen c.order_id ids ≡ true) (sym same_seen) (v.known c.order_id loc e)) w))
      r.valid (without-index loc.side b c.order_id loc.price loc.it q)

-- What `replace` does to a valid book, for a positive quantity below 2 ^ 64: it rejects an unknown order;
-- it reduces in place an order that keeps its price and does not grow; another it takes out, matches
-- and rests again. The book stays valid.
pub replace-ReplaceOutcome :
    (c : ReplaceOrder) (b : OrderBook)
    → IsValid b
    → IsWord (c.new_quantity)
    → ReplaceOutcome c b (replace c b)
unfolding replace
replace-ReplaceOutcome c b v w = elim (Option-cases (lookup c.order_id b.resting_orders)) [
  | inl e ↦ missing e (rw (e, replace))
  | inr (loc, e) ↦
      let r : Removed loc.side b c.order_id loc.price loc.it =
        remove_resting_order-Removed loc.side b c.order_id loc.price loc.it (to_side loc.side b v)
          e in
      elim (Bool-cases (keeps_priority c loc r.node)) [
        | inl kept ↦
            let done =
              reduce_in_place-IsValid c loc.side b loc.price loc.it r.node v w (ground arith)
                r.here in
            reduced loc r.node (reduce_in_place c loc r.node.order.remaining_quantity b).0 e r.here
              kept (rw (e, replace) (rw (r.read, kept) (unfold reduce_in_place in refl))) done.0
              done.1 done.2 done.3
        | inr lost ↦
            rw (e, replace) (rw (r.read, lost) (requeue-ReplaceOutcome c b loc r v w e lost))
      ]
]
