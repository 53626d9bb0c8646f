-- ===== src/Book/Valid.antt =====
-- When an order book is well formed.
pub mod Parts
pub mod Match
pub mod Edits
pub mod Submit
pub mod Cancel
pub mod Replace
use low_latency_exchange.Prelude.{ℕ, ◌+◌, ◌<◌, true, none, some, List, [], ◌∷◌, ◌≡◌, All, refl}
use low_latency_exchange.Types.{Price, OrderId, Side, buy, sell}
use low_latency_exchange.Assoc.{lookup}
use low_latency_exchange.Book.State.{
  OrderLocation, Levels, OrderBook, before, opposite, seen, empty_book, side_levels,
}
use low_latency_exchange.Book.Fill.{Entry, entries}
use low_latency_exchange.Book.Index.{Locations, IsIndexed}
use low_latency_exchange.Book.Levels.{AreLevels}

-- Addresses that are still to be drawn are in no queue.
abbrev pub AreBelow : ℕ → List Entry → Type 0
AreBelow next = All (λ e. e.1.address < next)

-- The price, on `side`, does not cross any of the other side.
abbrev pub Clears : Side → Price → List Entry → Type 0
Clears side price = All (λ e. before (opposite side) price e.0 ≡ true)

-- No bid is as high as an ask.
abbrev pub AreUncrossed : Side → List Entry → List Entry → Type 0
AreUncrossed side es own = All (λ e. Clears side e.0 own) es

-- Every order that rests has been seen.
abbrev pub AreSeen : List OrderId → Locations → Type 0
AreSeen ids m = (id : OrderId) (loc : OrderLocation) → lookup id m ≡ some loc → seen id ids ≡ true

-- The parts of a book, with the levels of `side` first.
pub record AreValid (m : Locations) (count next : ℕ) (ids : List OrderId) (side : Side)
    (levels own : Levels) : Type 0 where
  pub sorted : AreLevels side levels
  pub sorted_own : AreLevels (opposite side) own
  pub index : IsIndexed m count side (entries levels) (entries own)
  pub below : AreBelow next (entries levels)
  pub below_own : AreBelow next (entries own)
  pub uncrossed : AreUncrossed side (entries levels) (entries own)
  pub known : AreSeen ids m

-- The levels are in order with their totals, the index is in step with the queues, no bid reaches an
-- ask, and every resting order has been seen.
abbrev pub IsValid : OrderBook → Type 0
IsValid b =
    AreValid b.resting_orders b.resting_order_count b.next_address b.seen_order_ids buy b.bids
      b.asks

none-ne-some : {loc : OrderLocation} → none ≡ some loc → ⊥
none-ne-some h = cc

-- The same, with the levels of a given side first.
abbrev pub IsValidFor : Side → OrderBook → Type 0
IsValidFor side b =
    AreValid b.resting_orders b.resting_order_count b.next_address b.seen_order_ids side
      (side_levels side b) (side_levels (opposite side) b)

pub empty_book-IsValid : IsValid empty_book
unfolding empty_book lookup
empty_book-IsValid = record {
  sorted = tt;
  sorted_own = tt;
  index = record {
    map = tt;
    located = tt;
    located_own = tt;
    backed = λ id loc h e. absurd (none-ne-some h);
    backed_own = λ id loc h e. absurd (none-ne-some h);
    apart = tt;
    apart_own = tt;
    size = refl;
    counted = refl;
  };
  below = tt;
  below_own = tt;
  uncrossed = tt;
  known = λ id loc h. absurd (none-ne-some h);
}
