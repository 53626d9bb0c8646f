-- ===== src/Book/Edit.antt =====
-- `OrderBook::insert_resting_order`, `OrderBook::remove_resting_order`, and what an iterator reads.
use low_latency_exchange.Prelude.{
  ℕ, ◌+◌, Option, none, some, List, [], ◌∷◌, ◌++◌, ◌==◌, if◌then◌else◌, ◌>>=◌, add64, sub64,
}
use low_latency_exchange.Types.{Price, Quantity, OrderId, SequenceNumber, Side}
use low_latency_exchange.Assoc.{emplace, erase}
use low_latency_exchange.Book.State.{
  RestingOrder, Node, PriceLevel, OrderLocation, Levels, OrderBook, before, side_levels,
  set_side_levels,
}
use low_latency_exchange.Book.Match.{erase_if_empty}

-- `auto& level = levels[price]; level.total_units += units; level.orders.push_back(…)`: a level that
-- is not there is put in where the comparator places it.
unfoldable pub push_back : Side → Price → Node → Levels → Levels
push_back side price n [] =
    (price, record { total_units = add64 0 n.order.remaining_quantity; orders = n ∷ [] }) ∷ []
push_back side price n ((p, level) ∷ rest) =
    if before side price p
    then (price, record { total_units = add64 0 n.order.remaining_quantity; orders = n ∷ [] })
      ∷ (p, level)
      ∷ rest
    else if before side p price
    then (p, level) ∷ push_back side price n rest
    else (
      p,
      record {
        total_units = add64 level.total_units n.order.remaining_quantity;
        orders = level.orders ++ n ∷ [];
      },
    )
      ∷ rest

unfoldable pub insert_resting_order :
    OrderId → SequenceNumber → Side → Price → Quantity → OrderBook → OrderBook
unfolding push_back
insert_resting_order order_id sequence side price quantity book =
    let resting_order : RestingOrder = record {
      order_id = order_id;
      sequence = sequence;
      remaining_quantity = quantity;
    } in
    let n : Node = record { address = book.next_address; order = resting_order } in
    let location : OrderLocation = record { side = side; price = price; it = book.next_address } in
    set_side_levels side (push_back side price n (side_levels side book)) (record book {
      resting_orders = emplace order_id location book.resting_orders;
      resting_order_count = add64 book.resting_order_count 1;
      next_address = book.next_address + 1;
    })

-- The node with an address, in a list.
unfoldable pub find_node : ℕ → List Node → Option Node
find_node it [] = none
find_node it (n ∷ ns) = if n.address == it then some n else find_node it ns

-- The list that holds a location's node.
unfoldable pub find_level : Price → Levels → Option PriceLevel
find_level price [] = none
find_level price ((p, level) ∷ rest) = if p == price then some level else find_level price rest

-- `*loc.it`; `none` if the iterator dangles, where the source's behaviour is undefined.
unfoldable pub deref : OrderBook → OrderLocation → Option RestingOrder
unfolding find_level find_node
deref book loc = do
  level ← find_level loc.price (side_levels loc.side book)
  n ← find_node loc.it level.orders
  some n.order

-- `orders.erase(it)`
unfoldable pub erase_node : ℕ → List Node → List Node
erase_node it [] = []
erase_node it (n ∷ ns) = if n.address == it then ns else n ∷ erase_node it ns

-- `find`, `total_units -= units`, `orders.erase(it)`, and the level goes if it is empty.
unfoldable pub remove_at : Price → ℕ → Quantity → Levels → Levels
unfolding erase_node erase_if_empty
remove_at price it units [] = []
remove_at price it units ((p, level) ∷ rest) =
    if p == price
    then erase_if_empty p (sub64 level.total_units units) (erase_node it level.orders) rest
    else (p, level) ∷ remove_at price it units rest

-- `none` if `loc.it` dangles.
unfoldable pub remove_resting_order :
    OrderLocation → OrderId → OrderBook → Option (OrderBook × Quantity)
unfolding remove_at deref
remove_resting_order loc order_id book = do
  order ← deref book loc
  let units = order.remaining_quantity
  let levels = remove_at loc.price loc.it units (side_levels loc.side book)
  some (
    set_side_levels loc.side levels (record book {
      resting_orders = erase order_id book.resting_orders;
      resting_order_count = sub64 book.resting_order_count 1;
    }),
    units,
  )

-- `loc.it->remaining_quantity = quantity`
unfoldable pub set_quantity : ℕ → Quantity → List Node → List Node
set_quantity it quantity [] = []
set_quantity it quantity (n ∷ ns) =
    if n.address == it
    then record n { order = record (n.order) { remaining_quantity = quantity } } ∷ ns
    else n ∷ set_quantity it quantity ns

-- The reduction in place of `replace`: `levels[price].total_units -= unit_diff`, then the write
-- through the iterator. The level is there: `loc.it` points into it.
unfoldable pub reduce_at : Price → ℕ → ℕ → Quantity → Levels → Levels
unfolding set_quantity
reduce_at price it unit_diff quantity [] = []
reduce_at price it unit_diff quantity ((p, level) ∷ rest) =
    if p == price
    then (
      p,
      record {
        total_units = sub64 level.total_units unit_diff;
        orders = set_quantity it quantity level.orders;
      },
    )
      ∷ rest
    else (p, level) ∷ reduce_at price it unit_diff quantity rest
