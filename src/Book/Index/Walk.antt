-- ===== src/Book/Index/Walk.antt =====
-- The walk of an incoming order keeps the index in step with the queues.
use low_latency_exchange.Prelude.{
  ◌-◌, Bool, List, [], ◌∷◌, ltb, leb, ◌&&◌, ◌≡◌, arith, inl, inr, Bool-cases, subst,
}
use low_latency_exchange.Types.{Price, Quantity, OrderId, Side}
use low_latency_exchange.Book.State.{Node}
use low_latency_exchange.Book.Match.{MatchState}
use low_latency_exchange.Book.Fill.{Entry, take_whole, take_part, with_quantity, fill}
use low_latency_exchange.Book.Queue.{remove_entry, set_entry}
use low_latency_exchange.Book.Index.{IsIndexed}
use low_latency_exchange.Book.Index.Edits.{remove-IsIndexed, set-IsIndexed}

remove_front :
    (price : Price) (n : Node) (es : List Entry)
    → remove_entry price n.address ((price, n) ∷ es) ≡ es
unfolding remove_entry
remove_front price n es = ground arith

set_front :
    (price : Price) (n : Node) (quantity : Quantity) (es : List Entry)
    → set_entry price n.address quantity ((price, n) ∷ es) ≡ (price, with_quantity n quantity) ∷ es
unfolding set_entry
set_front price n quantity es = ground arith

-- The index of a walk's state, with a queue.
abbrev pub InStep : Side → List Entry → MatchState → List Entry → Type 0
InStep side own s es = IsIndexed s.resting_orders s.resting_order_count side es own

module _ (accepts : Price → Bool) (incoming : OrderId) (side : Side) (own : List Entry) where
  pub fill-InStep :
      (s : MatchState) (es : List Entry)
      → InStep side own s es
      → let (rest, s') = fill accepts incoming s es in InStep side own s' rest
  unfolding fill
  fill-InStep s [] v = v
  fill-InStep s ((price, n) ∷ es) v = elim (Bool-cases (ltb 0 s.remaining_units && accepts price)) [
    | inr stop ↦ rw (stop, fill) v
    | inl go ↦ elim (Bool-cases (leb n.order.remaining_quantity s.remaining_units)) [
      | inl whole ↦
          rw (go, whole, fill)
            (fill-InStep (take_whole incoming price n s) es (
              subst (InStep side own (take_whole incoming price n s)) (remove_front price n es)
                (remove-IsIndexed _ _ side _ own v n.order.order_id price n.address v.located.0)))
      | inr part ↦
          rw (go, part, fill)
            (subst (InStep side own (take_part incoming price n s))
              (set_front price n (n.order.remaining_quantity - s.remaining_units) es)
              (set-IsIndexed _ _ side _ own v price n.address
                (n.order.remaining_quantity - s.remaining_units)))
    ]
  ]
