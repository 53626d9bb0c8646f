-- ===== src/Book/Query/Check.antt =====
-- `OrderBook::validate_invariants` and `OrderBook::state_digest`.
use low_latency_exchange.Prelude.{
  ℕ, zero, suc, ◌+◌, ◌*◌, ◌/◌, ◌^◌, Bool, true, false, Option, none, some, List, [], ◌∷◌, ◌==◌, ltb,
  if◌then◌else◌, length, ◌&&◌, ◌||◌, not, add64, mul64,
}
use Prim.Native.Nat.{bit_and, bit_xor}
use low_latency_exchange.Types.{Price, Side, buy, sell}
use low_latency_exchange.Assoc.{lookup}
use low_latency_exchange.Book.State.{Node, Levels, OrderBook}
use low_latency_exchange.Book.Edit.{deref}

abbrev pub same_side : Side → Side → Bool
same_side buy buy = true
same_side sell sell = true
same_side buy sell = false
same_side sell buy = false

-- The tests on one order: its location is in the index, names this side and price, and its iterator
-- reads an order with the same id. An iterator that dangles fails the test.
unfoldable pub check_order : OrderBook → Side → Price → Node → Bool
unfolding deref
check_order book side price n = elim (lookup n.order.order_id book.resting_orders) [
  | none ↦ false
  | some loc ↦
      same_side loc.side side
      && loc.price == price
      && elim (deref book loc) [ none ↦ false | some order ↦ order.order_id == n.order.order_id ]
]

-- The loop over a level's orders; `none` for `return false`, else the units counted.
unfoldable pub count_units : OrderBook → Side → Price → ℕ → List Node → Option ℕ
unfolding check_order
count_units book side price counted [] = some counted
count_units book side price counted (n ∷ ns) =
    let rest = count_units book side price (add64 counted n.order.remaining_quantity) ns in
    if check_order book side price n then rest else none

-- The loop over a side's levels; `none` for `return false`, else the orders counted.
unfoldable pub count_orders : OrderBook → Side → ℕ → Levels → Option ℕ
unfolding count_units
count_orders book side total [] = some total
count_orders book side total ((price, level) ∷ rest) =
    let next = count_orders book side (add64 total (length level.orders)) rest in
    if length level.orders == 0 || level.total_units == 0
    then none
    else elim (count_units book side price 0 level.orders) [
      | none ↦ none
      | some counted ↦ if counted == level.total_units then next else none
    ]

-- `bids_.begin()->first >= asks_.begin()->first`
unfoldable pub crossed : Levels → Levels → Bool
crossed ((bid, _) ∷ _) ((ask, _) ∷ _) = not (ltb bid ask)
crossed _ _ = false

unfoldable pub validate_invariants : OrderBook → Bool
unfolding count_orders crossed
validate_invariants book =
    if crossed book.bids book.asks then false else elim (count_orders book buy 0 book.bids) [
      | none ↦ false
      | some bid_orders ↦ elim (count_orders book sell bid_orders book.asks) [
        | none ↦ false
        | some total_orders ↦
            total_orders == book.resting_order_count && total_orders == length book.resting_orders
      ]
    ]

abbrev fnv_offset_basis : ℕ
fnv_offset_basis = 14695981039346656037

abbrev fnv_prime : ℕ
fnv_prime = 1099511628211

-- `hash_u64`, with the bytes that are left to mix, from byte `i` on.
hash_bytes : ℕ → ℕ → ℕ → ℕ → ℕ
hash_bytes zero i value hash = hash
hash_bytes (suc k) i value hash =
    hash_bytes k (i + 1) value (mul64 (bit_xor hash (bit_and (value / 2 ^ (i * 8)) 0xFF)) fnv_prime)

unfoldable pub hash_u64 : ℕ → ℕ → ℕ
unfolding hash_bytes
hash_u64 value hash = hash_bytes 8 0 value hash

hash_orders : List Node → ℕ → ℕ
unfolding hash_u64
hash_orders [] hash = hash
hash_orders (n ∷ ns) hash = hash_orders ns (
    hash_u64 n.order.remaining_quantity
      (hash_u64 n.order.sequence (hash_u64 n.order.order_id hash)))

hash_levels : Levels → ℕ → ℕ
unfolding hash_orders
hash_levels [] hash = hash
hash_levels ((price, level) ∷ rest) hash = hash_levels rest (
    hash_orders level.orders
      (hash_u64 (length level.orders) (hash_u64 level.total_units (hash_u64 price hash))))

abbrev side_code : Side → ℕ
side_code buy = 0
side_code sell = 1

hash_side : Levels → Side → ℕ → ℕ
unfolding hash_levels
hash_side levels side hash =
    hash_levels levels (hash_u64 (length levels) (hash_u64 (side_code side) hash))

pub state_digest : OrderBook → ℕ
unfolding hash_side
state_digest book =
    hash_u64 book.resting_order_count
      (hash_side book.asks sell (hash_side book.bids buy fnv_offset_basis))
