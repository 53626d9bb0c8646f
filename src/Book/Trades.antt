-- ===== src/Book/Trades.antt =====
-- What `match_against_book` trades.
use low_latency_exchange.Prelude.{ℕ, ◌+◌, Option, List, [], ◌≡◌, ◌⊎◌, arith, some, none, ◌≤◌}
use low_latency_exchange.Types.{Price, OrderId, Side, OrderType, buy, sell, limit, market}
use low_latency_exchange.Book.State.{OrderBook, opposite, side_levels}
use low_latency_exchange.Book.Match.{marketable, match_against_book}
use low_latency_exchange.Book.Fill.{Entry, entries, AreNonempty}
use low_latency_exchange.Book.Fill.Trades.{
  traded, resting_units, IsRefused, InPriority, fill_conserves, fill_exhausts, fill-InPriority,
}
use low_latency_exchange.Book.Valid.Match.{start}
use low_latency_exchange.Book.Walk.{match_against_book-Walked}

-- The prices that an order may trade at.
abbrev pub IsWithin : Side → OrderType → Option Price → Price → Type 0
IsWithin side market limit_price price = Unit
IsWithin side limit none price = ⊥
IsWithin buy limit (some most) price = price ≤ most
IsWithin sell limit (some least) price = least ≤ price

module _ (incoming : OrderId) (side : Side) (type : OrderType) (limit_price : Option Price)
    (units : ℕ) (b : OrderBook) (ne : AreNonempty (side_levels (opposite side) b)) where
  abbrev contra : OrderBook → List Entry
  contra book = entries (side_levels (opposite side) book)

  -- Where no level of the other side is empty: the units that an incoming order trades are those
  -- that it gives up, and those that the other side loses: none is made or lost.
  pub match_against_book_conserves :
      let (b', units', executions) = match_against_book incoming side type limit_price units b in
      (traded executions + units' ≡ units)
      × (traded executions + resting_units (contra b') ≡ resting_units (contra b))
  match_against_book_conserves =
      let r = match_against_book-Walked incoming side type limit_price units b ne in
      let h =
        fill_conserves (marketable side type limit_price) incoming (start units b) (contra b) in
      rw (r.traded, r.left, r.queue) (omega (arith, h.0), omega (arith, h.1))

  -- Price and time priority, where no level of the other side is empty: the queue of that side,
  -- best price first and oldest first at a price, is executed from its front, each order in whole
  -- at its own price, but for the last one, which may give a part and then keeps its place.
  pub match_against_book-InPriority :
      let (b', _, executions) = match_against_book incoming side type limit_price units b in
      InPriority incoming [] (contra b) (contra b') executions
  match_against_book-InPriority =
      let r = match_against_book-Walked incoming side type limit_price units b ne in
      rw (r.traded, r.queue)
        (fill-InPriority (marketable side type limit_price) incoming (start units b) (contra b))

  -- Where no level of the other side is empty: a match goes on until the incoming order is used
  -- up, or the best order left on the other side has a price that it does not accept, or none is
  -- left.
  pub match_against_book_exhausts :
      let (b', units', _) = match_against_book incoming side type limit_price units b in
      (units' ≡ 0) ⊎ IsRefused (marketable side type limit_price) (contra b')
  match_against_book_exhausts =
      let r = match_against_book-Walked incoming side type limit_price units b ne in
      rw (r.left, r.queue)
        (fill_exhausts (marketable side type limit_price) incoming (start units b) (contra b))
