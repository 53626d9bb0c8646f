-- ===== src/Book/Query.antt =====
-- The queries of an order book. Where the source dereferences `Quantity::from_units(total_units)`,
-- the result is `none` if the total is 0: the behaviour is then undefined.
pub mod Quotes
pub mod Check
pub mod Accepts
pub mod Sound
use low_latency_exchange.Prelude.{
  ℕ, ◌+◌, Option, none, some, List, [], ◌∷◌, ◌++◌, ◌==◌, if◌then◌else◌, ◌>>=◌, length, set,
  replicate,
}
use low_latency_exchange.Types.{Price, OrderId, from_units, Side, buy, sell}
use low_latency_exchange.Prelude.{Bool}
use low_latency_exchange.Assoc.{contains}
use low_latency_exchange.Book.State.{PriceLevel, Levels, OrderBook, LevelQuote, BookDepth}

-- `bids_.begin()->first`
unfoldable pub best_price : Levels → Option Price
best_price [] = none
best_price ((price, level) ∷ rest) = some price

pub best_bid : OrderBook → Option Price
unfolding best_price
best_bid book = best_price book.bids

pub best_ask : OrderBook → Option Price
unfolding best_price
best_ask book = best_price book.asks

-- `LevelQuote{price, *Quantity::from_units(level.total_units), level.orders.size()}`
unfoldable pub quote : Price × PriceLevel → Option LevelQuote
quote (price, level) = do
  quantity ← from_units level.total_units
  some (record { price = price; quantity = quantity; order_count = length level.orders })

unfoldable pub top : Levels → Option (Option LevelQuote)
unfolding quote
top [] = some none
top (e ∷ rest) = do q ← quote e; some (some q)

unfoldable pub top_bid : OrderBook → Option (Option LevelQuote)
unfolding top
top_bid book = top book.bids

unfoldable pub top_ask : OrderBook → Option (Option LevelQuote)
unfolding top
top_ask book = top book.asks

-- The loop of `bid_depth` and `ask_depth`, with the levels found so far.
unfoldable pub collect : ℕ → List LevelQuote → Levels → Option (List LevelQuote)
unfolding quote
collect max_depth levels [] = some levels
collect max_depth levels (e ∷ rest) =
    let more = (do q ← quote e; collect max_depth (levels ++ q ∷ []) rest) in
    if length levels == max_depth then some levels else more

unfoldable pub bid_depth : ℕ → OrderBook → Option (List LevelQuote)
unfolding collect
bid_depth max_depth book = collect max_depth [] book.bids

unfoldable pub ask_depth : ℕ → OrderBook → Option (List LevelQuote)
unfolding collect
ask_depth max_depth book = collect max_depth [] book.asks

unfoldable pub depth : ℕ → OrderBook → Option BookDepth
unfolding bid_depth ask_depth
depth max_depth book = do
  bids ← bid_depth max_depth book
  asks ← ask_depth max_depth book
  some (record { bids = bids; asks = asks })

-- The loop of `copy_depth`, over a span that has been reset.
unfoldable pub copy_from : ℕ → List (Option LevelQuote) → Levels → Option (List (Option LevelQuote))
unfolding quote
copy_from index out [] = some out
copy_from index out (e ∷ rest) =
    let more = (do q ← quote e; copy_from (index + 1) (set out index (some q)) rest) in
    if index == length out then some out else more

-- `for (auto& level : out) level.reset();`
unfoldable pub reset_all : List (Option LevelQuote) → List (Option LevelQuote)
reset_all [] = []
reset_all (level ∷ levels) = none ∷ reset_all levels

-- For two spans, with what the caller has in them.
unfoldable pub copy_depth :
    List (Option LevelQuote)
    → List (Option LevelQuote)
    → OrderBook
    → Option (List (Option LevelQuote) × List (Option LevelQuote))
unfolding copy_from reset_all
copy_depth bid_out ask_out book = do
  bids ← copy_from 0 (reset_all bid_out) book.bids
  asks ← copy_from 0 (reset_all ask_out) book.asks
  some (bids, asks)

unfoldable pub has_order : OrderId → OrderBook → Bool
has_order order_id book = contains order_id book.resting_orders
