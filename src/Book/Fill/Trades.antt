-- ===== src/Book/Fill/Trades.antt =====
-- What the walk of an incoming order trades.
use low_latency_exchange.Prelude.{
  ℕ, ◌+◌, ◌-◌, ◌<◌, Bool, true, false, List, [], ◌∷◌, ◌++◌, ltb, leb, ◌&&◌, ◌≡◌, refl, sym, ◌∙◌, ap,
  arith, All, ◌⊎◌, inl, inr, Bool-cases, append_assoc, append-nil, All-append,
}
use low_latency_exchange.Types.{Price, OrderId}
use low_latency_exchange.Book.State.{Execution, Node}
use low_latency_exchange.Book.Match.{MatchState}
use low_latency_exchange.Book.Fill.{Entry, trade, take_whole, with_quantity, fill}

-- The units of a list of executions, and of a list of resting orders.
abbrev pub traded : List Execution → ℕ
traded [] = 0
traded (x ∷ xs) = x.quantity + traded xs

abbrev pub resting_units : List Entry → ℕ
resting_units [] = 0
resting_units ((price, n) ∷ es) = n.order.remaining_quantity + resting_units es

pub traded-append : (xs ys : List Execution) → traded (xs ++ ys) ≡ traded xs + traded ys
traded-append [] ys = omega arith
traded-append (x ∷ xs) ys = omega (arith, traded-append xs ys)

-- Every resting order has units left.
abbrev pub ArePositive : List Entry → Type 0
ArePositive = All (λ e. 0 < e.1.order.remaining_quantity)

-- No resting order at the front would still trade.
abbrev pub IsRefused : (Price → Bool) → List Entry → Type 0
IsRefused accepts [] = Unit
IsRefused accepts ((price, n) ∷ es) = accepts price ≡ false

-- An execution within the limit, of at least one unit, for the incoming order.
abbrev pub IsFair : (Price → Type 0) → OrderId → Execution → Type 0
IsFair IsWithin incoming x = IsWithin x.price × (0 < x.quantity) × (x.incoming_order_id ≡ incoming)

-- The executions of orders that are taken in whole.
abbrev pub whole_trades : OrderId → List Entry → List Execution
whole_trades incoming [] = []
whole_trades incoming (e ∷ es) =
    trade incoming e e.1.order.remaining_quantity ∷ whole_trades incoming es

module _ (incoming : OrderId) where
  -- The queue splits into the orders that are executed in whole, in their order, and those behind
  -- them; the first of these may give a part, and keeps its place.
  pub data InPriority (xs : List Execution) (es rest : List Entry) (xs' : List Execution)
      : Type 0 where
    wholly :
        (front back : List Entry)
        → es ≡ front ++ back
        → rest ≡ back
        → xs' ≡ xs ++ whole_trades incoming front
        → InPriority xs es rest xs'
    partly :
        (front behind : List Entry) (price : Price) (n : Node) (part : ℕ)
        → es ≡ front ++ (price, n) ∷ behind
        → rest ≡ (price, with_quantity n (n.order.remaining_quantity - part)) ∷ behind
        → part < n.order.remaining_quantity
        → xs' ≡ (xs ++ whole_trades incoming front) ++ trade incoming (price, n) part ∷ []
        → InPriority xs es rest xs'

  pub InPriority-cons :
      (price : Price) (n : Node) (xs : List Execution) (es rest : List Entry) (xs' : List Execution)
      → InPriority (xs ++ trade incoming (price, n) n.order.remaining_quantity ∷ []) es rest xs'
      → InPriority xs ((price, n) ∷ es) rest xs'
  InPriority-cons price n xs es rest xs' (wholly front back split left done) =
      wholly ((price, n) ∷ front) back (ap (◌∷◌ (price, n)) split) left
        (done ∙ append_assoc xs _ (whole_trades incoming front))
  InPriority-cons price n xs es rest xs' (partly front behind p m part split left small done) =
      partly ((price, n) ∷ front) behind p m part (ap (◌∷◌ (price, n)) split) left small (
        done
        ∙ ap (λ ys. ys ++ trade incoming (p, m) part ∷ [])
            (append_assoc xs _ (whole_trades incoming front)))

module _ (accepts : Price → Bool) (incoming : OrderId) where
  -- What is traded is what the incoming order gives up, and what the resting orders lose.
  pub fill_conserves :
      (s : MatchState) (es : List Entry)
      → let (rest, s') = fill accepts incoming s es in
        (traded s'.executions + s'.remaining_units ≡ traded s.executions + s.remaining_units)
        × (traded s'.executions + resting_units rest ≡ traded s.executions + resting_units es)
  unfolding fill
  fill_conserves s [] = (refl, refl)
  fill_conserves s ((price, n) ∷ es) =
      let q = n.order.remaining_quantity in
      ground (
        arith,
        fill_conserves (take_whole incoming price n s) es,
        traded-append s.executions (trade incoming (price, n) q ∷ []),
        traded-append s.executions (trade incoming (price, n) s.remaining_units ∷ []),
      )

  pub fill-IsFair :
      (IsWithin : Price → Type 0)
      → ((price : Price) → accepts price ≡ true → IsWithin price)
      → (s : MatchState) (es : List Entry) → ArePositive es
      → All (IsFair IsWithin incoming) s.executions
      → All (IsFair IsWithin incoming) (fill accepts incoming s es).1.executions
  unfolding fill
  fill-IsFair IsWithin within s [] h fair = fair
  fill-IsFair IsWithin within s ((price, n) ∷ es) h fair =
      elim (Bool-cases (ltb 0 s.remaining_units && accepts price)) [
        | inr stop ↦ rw (stop, fill) fair
        | inl go ↦ elim (Bool-cases (leb n.order.remaining_quantity s.remaining_units)) [
          | inl whole ↦
              rw (go, whole, fill)
                (fill-IsFair IsWithin within (take_whole incoming price n s) es h.1 (
                  All-append (IsFair IsWithin incoming) s.executions _ fair
                    ((within price (ground arith), h.0, refl), tt)))
          | inr part ↦
              rw (go, part, fill)
                (All-append (IsFair IsWithin incoming) s.executions _ fair
                  ((within price (ground arith), ground arith, refl), tt))
        ]
      ]

  -- The walk goes on until the incoming order is used up or no price is left that it accepts.
  pub fill_exhausts :
      (s : MatchState) (es : List Entry)
      → let (rest, s') = fill accepts incoming s es in
        (s'.remaining_units ≡ 0) ⊎ IsRefused accepts rest
  unfolding fill
  fill_exhausts s [] = inr tt
  fill_exhausts s ((price, n) ∷ es) =
      ground (arith, fill_exhausts (take_whole incoming price n s) es)

  -- Price and time priority.
  pub fill-InPriority :
      (s : MatchState) (es : List Entry)
      → let (rest, s') = fill accepts incoming s es in
        InPriority incoming s.executions es rest s'.executions
  unfolding fill
  fill-InPriority s [] = wholly [] [] refl refl (sym (append-nil s.executions))
  fill-InPriority s ((price, n) ∷ es) =
      elim (Bool-cases (ltb 0 s.remaining_units && accepts price)) [
        | inr stop ↦
            rw (stop, fill) (wholly [] ((price, n) ∷ es) refl refl (sym (append-nil s.executions)))
        | inl go ↦ elim (Bool-cases (leb n.order.remaining_quantity s.remaining_units)) [
          | inl whole ↦
              rw (go, whole, fill)
                (InPriority-cons incoming price n s.executions es _ _
                  (fill-InPriority (take_whole incoming price n s) es))
          | inr part ↦
              rw (go, part, fill)
                (partly [] es price n s.remaining_units refl refl (ground arith) (
                  ap (λ xs. xs ++ trade incoming (price, n) s.remaining_units ∷ [])
                    (sym (append-nil s.executions))))
        ]
      ]
