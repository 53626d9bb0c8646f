-- ===== src/Book/Index.antt =====
-- The index of the resting orders, `resting_orders_` and `resting_order_count_`, against the queues.
pub mod Edits
pub mod Walk
use low_latency_exchange.Prelude.{ℕ, ◌+◌, ◌%◌, ◌<◌, some, List, ◌≡◌, All, length, u64_mod}
use low_latency_exchange.Types.{OrderId, Side, buy, sell}
use low_latency_exchange.Assoc.{lookup, IsMap}
use low_latency_exchange.Book.State.{OrderLocation, opposite}
use low_latency_exchange.Book.Fill.{Entry}
use low_latency_exchange.Book.Queue.{Holds, AreApart}

abbrev pub Locations : Type 0
Locations = List (OrderId × OrderLocation)

abbrev pub location : Side → Entry → OrderLocation
location side (price, n) = record { side = side; price = price; it = n.address }

-- Each queued order is found where it stands.
abbrev pub AreLocated : Locations → Side → List Entry → Type 0
AreLocated m side = All (λ e. lookup e.1.order.order_id m ≡ some (location side e))

-- Each location of a side is that of a queued order.
abbrev pub IsBacked : Locations → Side → List Entry → Type 0
IsBacked m side es =
    (id : OrderId) (loc : OrderLocation)
    → lookup id m ≡ some loc
    → loc.side ≡ side
    → Holds id loc.price loc.it es

-- A book whose queue on `side` is `es` and whose other queue is `own`.
pub record IsIndexed (m : Locations) (count : ℕ) (side : Side) (es own : List Entry) : Type 0 where
  pub map : IsMap m
  pub located : AreLocated m side es
  pub located_own : AreLocated m (opposite side) own
  pub backed : IsBacked m side es
  pub backed_own : IsBacked m (opposite side) own
  pub apart : AreApart es
  pub apart_own : AreApart own
  pub size : length m ≡ length es + length own
  pub counted : count ≡ length m % u64_mod
