-- ===== src/Book/State.antt =====
-- The state of an order book, and the standard containers that it uses.
-- A `std::list` node keeps its address for life: it is drawn from a counter of the book, and an
-- iterator is that address. A `std::map` is the list of its entries in the order of its keys. An
-- `std::unordered_map` is an association list with one entry to a key.
use low_latency_exchange.Prelude.{ℕ, Bool, false, Option, List, [], ◌∷◌, ◌==◌, ltb, ◌||◌}
use low_latency_exchange.Types.{Price, Quantity, OrderId, SequenceNumber, Side, buy, sell}

pub data OrderRejectReason : Type 0 where
  invalid_order market_orders_not_supported duplicate_order_id : OrderRejectReason

-- `CancelRejectReason` and `ReplaceRejectReason`.
pub data CancelRejectReason : Type 0 where
  order_not_found : CancelRejectReason

pub data ReplaceRejectReason : Type 0 where
  order_not_found : ReplaceRejectReason

pub record Execution : Type 0 where
  pub resting_order_id : OrderId
  pub incoming_order_id : OrderId
  pub price : Price
  pub quantity : Quantity

pub record SubmitResult : Type 0 where
  pub executions : List Execution
  pub rejection : Option OrderRejectReason
  pub remaining_quantity : Option Quantity

pub record CancelResult : Type 0 where
  pub order_id : OrderId
  pub cancelled_quantity : Option Quantity
  pub rejection : Option CancelRejectReason

pub record ReplaceResult : Type 0 where
  pub order_id : OrderId
  pub executions : List Execution
  pub remaining_quantity : Option Quantity
  pub rejection : Option ReplaceRejectReason

pub record LevelQuote : Type 0 where
  pub price : Price
  pub quantity : Quantity
  pub order_count : ℕ

pub record BookDepth : Type 0 where
  pub bids : List LevelQuote
  pub asks : List LevelQuote

pub record RestingOrder : Type 0 where
  pub order_id : OrderId
  pub sequence : SequenceNumber
  pub remaining_quantity : Quantity

-- A node of a `std::list<RestingOrder>`.
pub record Node : Type 0 where
  pub address : ℕ
  pub order : RestingOrder

pub record PriceLevel : Type 0 where
  pub total_units : ℕ
  pub orders : List Node

pub record OrderLocation : Type 0 where
  pub side : Side
  pub price : Price
  pub it : ℕ

abbrev pub Levels : Type 0
Levels = List (Price × PriceLevel)

pub record OrderBook : Type 0 where
  pub bids : Levels
  pub asks : Levels
  pub resting_orders : List (OrderId × OrderLocation)
  pub seen_order_ids : List OrderId
  pub resting_order_count : ℕ
  pub next_address : ℕ

unfoldable pub empty_book : OrderBook
empty_book = record {
  bids = [];
  asks = [];
  resting_orders = [];
  seen_order_ids = [];
  resting_order_count = 0;
  next_address = 0;
}

-- Membership in `seen_order_ids_`.
unfoldable pub seen : OrderId → List OrderId → Bool
seen k [] = false
seen k (j ∷ ids) = j == k || seen k ids

-- The comparator of a side's map: `std::greater` for the bids, `std::less` for the asks.
abbrev pub before : Side → Price → Price → Bool
before buy p q = ltb q p
before sell p q = ltb p q

-- The levels of a side.
abbrev pub side_levels : Side → OrderBook → Levels
side_levels buy book = book.bids
side_levels sell book = book.asks

abbrev pub set_side_levels : Side → Levels → OrderBook → OrderBook
set_side_levels buy levels book = record book { bids = levels }
set_side_levels sell levels book = record book { asks = levels }

abbrev pub opposite : Side → Side
opposite buy = sell
opposite sell = buy
