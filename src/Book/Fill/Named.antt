-- ===== src/Book/Fill/Named.antt =====
-- An order that no execution names keeps its place in the index.
use low_latency_exchange.Prelude.{
  ℕ, Bool, true, false, List, [], ◌∷◌, ◌++◌, ltb, leb, ◌==◌, ◌&&◌, ◌||◌, ◌≡◌, ◌≢◌, refl, sym, ◌∙◌,
  ap, arith, Bool-cases, inl, inr,
}
use low_latency_exchange.Types.{Price, OrderId}
use low_latency_exchange.Assoc.{lookup, lookup-erase_ne}
use low_latency_exchange.Book.State.{Execution, Node}
use low_latency_exchange.Book.Match.{MatchState}
use low_latency_exchange.Book.Fill.{Entry, take_whole, fill}

-- Some execution is against that resting order.
unfoldable pub is_named : OrderId → List Execution → Bool
is_named id [] = false
is_named id (x ∷ xs) = x.resting_order_id == id || is_named id xs

is_named-append :
    (id : OrderId) (xs ys : List Execution)
    → is_named id (xs ++ ys) ≡ (is_named id xs || is_named id ys)
unfolding is_named
is_named-append id [] ys = refl
is_named-append id (x ∷ xs) ys = rw (is_named-append id xs ys) (ground arith)

module _ (accepts : Price → Bool) (incoming id : OrderId) where
  -- What an execution has named stays named.
  fill-is_named :
      (s : MatchState) (es : List Entry)
      → is_named id s.executions ≡ true
      → is_named id (fill accepts incoming s es).1.executions ≡ true
  unfolding fill is_named
  fill-is_named s [] h = h
  fill-is_named s ((price, n) ∷ es) h =
      elim (Bool-cases (ltb 0 s.remaining_units && accepts price)) [
        | inr stop ↦ rw (stop, fill) h
        | inl go ↦ elim (Bool-cases (leb n.order.remaining_quantity s.remaining_units)) [
          | inl whole ↦
              rw (go, whole, fill)
                (fill-is_named (take_whole incoming price n s) es
                  (is_named-append id s.executions _ ∙ rw h refl))
          | inr part ↦ rw (go, part, fill) (is_named-append id s.executions _ ∙ rw h refl)
        ]
      ]

  fill_whole :
      (price : Price) (n : Node) (s : MatchState) (es : List Entry)
      → (ltb 0 s.remaining_units && accepts price) ≡ true
      → leb n.order.remaining_quantity s.remaining_units ≡ true
      → fill accepts incoming s ((price, n) ∷ es)
        ≡ fill accepts incoming (take_whole incoming price n s) es
  unfolding fill
  fill_whole price n s es go whole = rw (go, whole, fill) refl

  -- The whole order that is taken is named.
  other_id :
      (price : Price) (q : ℕ) (s : MatchState) (es : List Entry) (rid : OrderId)
      → is_named id (
          s.executions
          ++ record {
            resting_order_id = rid;
            incoming_order_id = incoming;
            price = price;
            quantity = q;
          }
            ∷ [])
        ≡ false
      → id ≢ rid
  unfolding is_named
  other_id price q s es rid h e = ground (
    arith,
    e,
    is_named-append id s.executions (
        record { resting_order_id = rid; incoming_order_id = incoming; price = price; quantity = q }
        ∷ []),
    h,
  )

  pub fill-unnamed :
      (s : MatchState) (es : List Entry)
      → is_named id (fill accepts incoming s es).1.executions ≡ false
      → lookup id (fill accepts incoming s es).1.resting_orders ≡ lookup id s.resting_orders
  unfolding fill
  fill-unnamed s [] h = refl
  fill-unnamed s ((price, n) ∷ es) h =
      elim (Bool-cases (ltb 0 s.remaining_units && accepts price)) [
        | inr stop ↦ rw (stop, fill) refl
        | inl go ↦ elim (Bool-cases (leb n.order.remaining_quantity s.remaining_units)) [
          | inr part ↦ rw (go, part, fill) refl
          | inl whole ↦
              let s' = take_whole incoming price n s in
              let h' : is_named id (fill accepts incoming s' es).1.executions ≡ false =
                sym (ap (λ r. is_named id r.1.executions) (fill_whole price n s es go whole)) ∙ h in
              let before : is_named id s'.executions ≡ false =
                elim (Bool-cases (is_named id s'.executions)) [
                  | inl named ↦ absurd (ground (arith, h', fill-is_named s' es named))
                  | inr not_named ↦ not_named
                ] in
              ap (λ r. lookup id r.1.resting_orders) (fill_whole price n s es go whole)
              ∙ fill-unnamed s' es h'
              ∙ lookup-erase_ne n.order.order_id id s.resting_orders
                  (other_id price n.order.remaining_quantity s es n.order.order_id before)
        ]
      ]
