-- ===== src/Book/Query/Sound.antt =====
-- What the run-time checker `validate_invariants` tests, order by order and level by level.
use low_latency_exchange.Prelude.{ℕ, ◌+◌, ◌%◌, ◌<◌, some, [], ◌∷◌, ◌≡◌, ◌≢◌, All, length, u64_mod}
use low_latency_exchange.Types.{Price, Side, buy, sell}
use low_latency_exchange.Assoc.{lookup}
use low_latency_exchange.Book.State.{
  Node, PriceLevel, Levels, OrderBook, RestingOrder, OrderLocation,
}
use low_latency_exchange.Book.Edit.{deref}
use low_latency_exchange.Book.Levels.{units}

-- The index has a location for the order, of this side and price, and what stands there has its id.
abbrev pub IsFiled : OrderBook → Side → Price → Node → Type 0
IsFiled b side price n =
    (loc : OrderLocation) × (order : RestingOrder) × (lookup n.order.order_id b.resting_orders
      ≡ some loc)
    × (loc.side ≡ side)
    × (loc.price ≡ price)
    × (deref b loc ≡ some order)
    × (order.order_id ≡ n.order.order_id)

-- A level has orders, its total is not 0 and is the sum of their units in 64 bits, and each is filed.
abbrev pub IsSoundLevel : OrderBook → Side → Price × PriceLevel → Type 0
IsSoundLevel b side (price, level) =
    (level.orders ≢ [])
    × (level.total_units ≢ 0)
    × (level.total_units ≡ units level.orders % u64_mod)
    × All (IsFiled b side price) level.orders

abbrev pub orders_in : Levels → ℕ
orders_in [] = 0
orders_in ((price, level) ∷ rest) = length level.orders + orders_in rest

-- The best bid lies below the best ask.
abbrev pub AreBestApart : Levels → Levels → Type 0
AreBestApart ((bid, _) ∷ _) ((ask, _) ∷ _) = bid < ask
AreBestApart _ _ = Unit

-- The book that the checker is to accept. Counts are taken in 64 bits.
pub record IsSound (b : OrderBook) : Type 0 where
  pub apart : AreBestApart b.bids b.asks
  pub bids : All (IsSoundLevel b buy) b.bids
  pub asks : All (IsSoundLevel b sell) b.asks
  pub counted : b.resting_order_count ≡ (orders_in b.bids + orders_in b.asks) % u64_mod
  pub indexed : length b.resting_orders ≡ (orders_in b.bids + orders_in b.asks) % u64_mod
