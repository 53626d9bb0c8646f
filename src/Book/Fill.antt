-- ===== src/Book/Fill.antt =====
-- One side of a book as one list in price and time priority, and the walk of an incoming order
-- along that list: what the nested loops of `match_against_book` are to do.
pub mod Loops
pub mod Trades
pub mod Named
use low_latency_exchange.Prelude.{
  ℕ, zero, suc, ◌+◌, ◌-◌, ◌≤◌, ◌<◌, Bool, true, false, Option, none, some, List, [], ◌∷◌, ◌++◌,
  ◌==◌, ltb, leb, if◌then◌else◌, ◌&&◌, ◌≡◌, refl, sym, ◌∙◌, ap, arith, length, sub64, map, All, ◌⊎◌,
  inl, inr, Bool-cases, ◌≢◌,
}
use low_latency_exchange.Types.{Price, OrderId}
use low_latency_exchange.Assoc.{erase}
use low_latency_exchange.Book.State.{Execution, RestingOrder, Node, PriceLevel, Levels}
use low_latency_exchange.Book.Match.{
  MatchState, execute_front, match_level, erase_if_empty, match_levels,
}

abbrev pub Entry : Type 0
Entry = Price × Node

abbrev pub tag : Price → List Node → List Entry
tag price [] = []
tag price (n ∷ ns) = (price, n) ∷ tag price ns

-- A side's resting orders, best price first, and oldest first at one price.
abbrev pub entries : Levels → List Entry
entries [] = []
entries ((price, level) ∷ rest) = tag price level.orders ++ entries rest

abbrev pub trade : OrderId → Entry → ℕ → Execution
trade incoming (price, n) units = record {
  resting_order_id = n.order.order_id;
  incoming_order_id = incoming;
  price = price;
  quantity = units;
}

abbrev pub with_quantity : Node → ℕ → Node
with_quantity n units = record n { order = record (n.order) { remaining_quantity = units } }

-- The whole resting order is executed, and leaves the book.
abbrev pub take_whole : OrderId → Price → Node → MatchState → MatchState
take_whole incoming price n s = record {
  remaining_units = s.remaining_units - n.order.remaining_quantity;
  executions = s.executions ++ trade incoming (price, n) n.order.remaining_quantity ∷ [];
  resting_orders = erase n.order.order_id s.resting_orders;
  resting_order_count = sub64 s.resting_order_count 1;
}

-- The incoming order ends in a part of the resting order.
abbrev pub take_part : OrderId → Price → Node → MatchState → MatchState
take_part incoming price n s = record {
  remaining_units = 0;
  executions = s.executions ++ trade incoming (price, n) s.remaining_units ∷ [];
  resting_orders = s.resting_orders;
  resting_order_count = s.resting_order_count;
}

abbrev pub AreNonempty : Levels → Type 0
AreNonempty = All (λ e. e.1.orders ≢ [])

module _ (accepts : Price → Bool) (incoming : OrderId) where
  unfoldable pub fill : MatchState → List Entry → List Entry × MatchState
  fill s [] = ([], s)
  fill s ((price, n) ∷ es) =
      let rest = fill (take_whole incoming price n s) es in
      if ltb 0 s.remaining_units && accepts price
      then (if leb n.order.remaining_quantity s.remaining_units then rest else (
        (price, with_quantity n (n.order.remaining_quantity - s.remaining_units)) ∷ es,
        take_part incoming price n s,
      ))
      else ((price, n) ∷ es, s)

  -- An order with nothing left changes nothing.
  pub fill_done : (s : MatchState) (es : List Entry) → s.remaining_units ≡ 0 → fill s es ≡ (es, s)
  unfolding fill
  fill_done s [] h = refl
  fill_done s ((price, n) ∷ es) h = ground arith

  pub fill_refused :
      (price : Price) (ns : List Node) (s : MatchState) (tail : List Entry)
      → ns ≢ []
      → (ltb 0 s.remaining_units && accepts price) ≡ false
      → fill s (tag price ns ++ tail) ≡ (tag price ns ++ tail, s)
  unfolding fill
  fill_refused price [] s tail h e = absurd (h refl)
  fill_refused price (n ∷ ns) s tail h e = ground arith
