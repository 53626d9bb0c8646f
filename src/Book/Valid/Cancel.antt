-- ===== src/Book/Valid/Cancel.antt =====
-- `cancel` on a valid book.
use low_latency_exchange.Prelude.{ℕ, Option, none, some, ◌≡◌, refl, ap, ◌∙◌, inl, inr, Option-cases}
use low_latency_exchange.Types.{Price, Quantity, OrderId, Side, buy, sell}
use low_latency_exchange.Command.{CancelOrder}
use low_latency_exchange.Assoc.{lookup, erase, lookup-erase_self}
use low_latency_exchange.Book.State.{
  Node, OrderLocation, OrderBook, CancelRejectReason, CancelResult, opposite, side_levels,
}
use low_latency_exchange.Book.Edit.{remove_at}
use low_latency_exchange.Book.Commands.{cancel}
use low_latency_exchange.Book.Fill.{entries}
use low_latency_exchange.Book.Valid.{IsValid}
use low_latency_exchange.Book.Valid.Edits.{without, Removed, remove_resting_order-Removed}
use low_latency_exchange.Book.Queue.{remove_entry, find_entry}
use low_latency_exchange.Book.Levels.Edits.{entries-remove_at}
use low_latency_exchange.Book.Valid.Submit.{to_side, of_side}

pub data CancelOutcome (c : CancelOrder) (b : OrderBook) (r : Option (OrderBook × CancelResult))
    : Type 0 where
  -- No such order rests: nothing changes.
  missing :
      lookup c.order_id b.resting_orders ≡ none
      → r
        ≡ some (
          b,
          record {
            order_id = c.order_id;
            cancelled_quantity = none;
            rejection = some CancelRejectReason.order_not_found;
          },
        )
      → CancelOutcome c b r
  -- The order, with what it has left, is taken out of its queue, and nothing else is.
  taken :
      (loc : OrderLocation) (n : Node) (b' : OrderBook)
      → lookup c.order_id b.resting_orders ≡ some loc
      → find_entry loc.price loc.it (entries (side_levels loc.side b)) ≡ some n
      → n.order.order_id ≡ c.order_id
      → r
        ≡ some (
          b',
          record {
            order_id = c.order_id;
            cancelled_quantity = some n.order.remaining_quantity;
            rejection = none;
          },
        )
      → IsValid b'
      → lookup c.order_id b'.resting_orders ≡ none
      → entries (side_levels loc.side b')
        ≡ remove_entry loc.price loc.it (entries (side_levels loc.side b))
      → side_levels (opposite loc.side) b' ≡ side_levels (opposite loc.side) b
      → b'.resting_orders ≡ erase c.order_id b.resting_orders
      → CancelOutcome c b r

pub without-own :
    (side : Side) (b : OrderBook) (id : OrderId) (price : Price) (it : ℕ) (quantity : Quantity)
    → side_levels side (without b id (record { side = side; price = price; it = it }) quantity)
      ≡ remove_at price it quantity (side_levels side b)
without-own buy b id price it quantity = refl
without-own sell b id price it quantity = refl

pub without-other :
    (side : Side) (b : OrderBook) (id : OrderId) (price : Price) (it : ℕ) (quantity : Quantity)
    → side_levels
        (opposite side)
        (without b id (record { side = side; price = price; it = it }) quantity)
      ≡ side_levels (opposite side) b
without-other buy b id price it quantity = refl
without-other sell b id price it quantity = refl

pub without-index :
    (side : Side) (b : OrderBook) (id : OrderId) (price : Price) (it : ℕ) (quantity : Quantity)
    → (without b id (record { side = side; price = price; it = it }) quantity).resting_orders
      ≡ erase id b.resting_orders
without-index buy b id price it quantity = refl
without-index sell b id price it quantity = refl

pub without-seen :
    (side : Side) (b : OrderBook) (id : OrderId) (price : Price) (it : ℕ) (quantity : Quantity)
    → (without b id (record { side = side; price = price; it = it }) quantity).seen_order_ids
      ≡ b.seen_order_ids
without-seen buy b id price it quantity = refl
without-seen sell b id price it quantity = refl

pub without-absent :
    (side : Side) (b : OrderBook) (id : OrderId) (price : Price) (it : ℕ) (quantity : Quantity)
    → IsValid b
    → lookup id
        (without b id (record { side = side; price = price; it = it }) quantity).resting_orders
      ≡ none
without-absent side b id price it quantity v =
    rw (without-index side b id price it quantity)
      (lookup-erase_self id b.resting_orders v.index.map)

-- What `cancel` does to a valid book, on every branch: an unknown order is rejected, another is taken
-- out, its units are reported, and the book stays valid.
pub cancel-CancelOutcome :
    (c : CancelOrder) (b : OrderBook) → IsValid b → CancelOutcome c b (cancel c b)
unfolding cancel
cancel-CancelOutcome c b v = elim (Option-cases (lookup c.order_id b.resting_orders)) [
  | inl e ↦ missing e (rw (e, cancel))
  | inr (loc, e) ↦
      let r : Removed loc.side b c.order_id loc.price loc.it =
        remove_resting_order-Removed loc.side b c.order_id loc.price loc.it (to_side loc.side b v)
          e in
      let q = r.node.order.remaining_quantity in
      taken loc r.node (without b c.order_id loc q) e r.here r.named (rw (e, cancel) (rw r.result))
        (of_side loc.side _ r.valid) (without-absent loc.side b c.order_id loc.price loc.it q v)
        (ap entries (without-own loc.side b c.order_id loc.price loc.it q)
          ∙ entries-remove_at loc.side loc.price loc.it (side_levels loc.side b) r.node
              (to_side loc.side b v).sorted r.here)
        (without-other loc.side b c.order_id loc.price loc.it q)
        (without-index loc.side b c.order_id loc.price loc.it q)
]
