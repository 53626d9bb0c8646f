-- ===== src/Book/Walk.antt =====
-- `match_against_book` against the walk along the queue of the other side.
use low_latency_exchange.Prelude.{ℕ, Option, List, ◌≡◌, refl, ap}
use low_latency_exchange.Types.{Price, OrderId, Side, buy, sell, OrderType}
use low_latency_exchange.Book.State.{Execution, OrderBook, opposite, side_levels}
use low_latency_exchange.Book.Match.{MatchState, marketable, match_against_book}
use low_latency_exchange.Book.Fill.{Entry, entries, AreNonempty, fill}
use low_latency_exchange.Book.Valid.Match.{start, loops-fill}

-- A match, seen on the queues, is a walk along the contra side's queue: with its result `w`.
pub record Walked (side : Side) (b b' : OrderBook) (units' : ℕ) (executions : List Execution)
    (w : List Entry × MatchState) : Type 0 where
  pub queue : entries (side_levels (opposite side) b') ≡ w.0
  pub left : units' ≡ w.1.remaining_units
  pub traded : executions ≡ w.1.executions
  pub index : b'.resting_orders ≡ w.1.resting_orders
  pub count : b'.resting_order_count ≡ w.1.resting_order_count
  pub own : side_levels side b' ≡ side_levels side b
  pub next : b'.next_address ≡ b.next_address

-- The nested loops of `match_against_book` are the walk, if no level of the other side is empty.
pub match_against_book-Walked :
    (incoming : OrderId) (side : Side) (type : OrderType) (limit_price : Option Price) (units : ℕ)
    (b : OrderBook)
    → AreNonempty (side_levels (opposite side) b)
    → let (b', units', executions) = match_against_book incoming side type limit_price units b in
      Walked side b b' units' executions (
        fill
          (marketable side type limit_price)
          incoming
          (start units b)
          (entries (side_levels (opposite side) b)))
unfolding match_against_book
match_against_book-Walked incoming buy type limit_price units b ne =
    let e = loops-fill incoming buy (marketable buy type limit_price) units b ne in
    record {
      queue = ap (λ r. r.0) e;
      left = ap (λ r. r.1.remaining_units) e;
      traded = ap (λ r. r.1.executions) e;
      index = ap (λ r. r.1.resting_orders) e;
      count = ap (λ r. r.1.resting_order_count) e;
      own = refl;
      next = refl;
    }
match_against_book-Walked incoming sell type limit_price units b ne =
    let e = loops-fill incoming sell (marketable sell type limit_price) units b ne in
    record {
      queue = ap (λ r. r.0) e;
      left = ap (λ r. r.1.remaining_units) e;
      traded = ap (λ r. r.1.executions) e;
      index = ap (λ r. r.1.resting_orders) e;
      count = ap (λ r. r.1.resting_order_count) e;
      own = refl;
      next = refl;
    }
