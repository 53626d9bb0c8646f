-- ===== src/Market/Feed.antt =====
-- src/market_data.cpp: `MarketDataFeed`. The feed and the queue that it refers to are passed along.
use low_latency_exchange.Prelude.{
  ℕ, ◌-◌, Bool, true, false, not, ◌||◌, Option, none, some, map, max, leb, ◌==◌, if◌then◌else◌,
  add64, u64_mod, ◌>>=◌, replicate,
}
use low_latency_exchange.Types.{FeedSequence, from_value}
use low_latency_exchange.Assoc.{is_some}
use low_latency_exchange.Book.State.{LevelQuote, OrderBook}
use low_latency_exchange.Book.Query.{copy_depth}
use low_latency_exchange.Spsc.{Queue}
use low_latency_exchange.Spsc.Operations.{try_push, size}
use low_latency_exchange.Market.Types.{
  MarketDataLevel, MarketDataEventKind, snapshot, depth_update, MarketDataEvent, blank_event,
  queue_capacity, MarketDataFeed, MarketDataMetrics, market_data_depth,
}

abbrev pub to_market_data_level : LevelQuote → MarketDataLevel
to_market_data_level level = record {
  price = level.price;
  quantity = level.quantity;
  order_count = level.order_count;
}

abbrev pub to_depth_entry : Option LevelQuote → Option MarketDataLevel
to_depth_entry none = none
to_depth_entry (some level) = some (to_market_data_level level)

unfoldable pub new_feed : ℕ → MarketDataFeed
new_feed interval = record {
  next_sequence = 1;
  snapshot_interval = max interval 1;
  updates_since_snapshot = 0;
  published_events = 0;
  dropped_events = 0;
  max_queue_occupancy = 0;
  snapshot_pending = true;
}

-- `none` where `copy_depth` is undefined.
unfoldable pub make_event : OrderBook → MarketDataEventKind → FeedSequence → Option MarketDataEvent
make_event book kind sequence = do
  levels ← copy_depth (replicate market_data_depth none) (replicate market_data_depth none) book
  some (record {
    sequence = some sequence;
    kind = kind;
    bids = map to_depth_entry (levels.0);
    asks = map to_depth_entry (levels.1);
  })

unfoldable pub record_queue_occupancy : Queue MarketDataEvent → MarketDataFeed → MarketDataFeed
record_queue_occupancy q feed = record feed {
  max_queue_occupancy = max feed.max_queue_occupancy (size queue_capacity blank_event q);
}

-- `!sequence.has_value() || next_sequence_ == max`
unfoldable pub is_exhausted : MarketDataFeed → Bool
is_exhausted feed =
    not (is_some (from_value feed.next_sequence)) || feed.next_sequence == u64_mod - 1

-- What follows a push that has failed.
unfoldable pub after_drop : Queue MarketDataEvent → MarketDataFeed → MarketDataFeed
after_drop q feed =
    record_queue_occupancy q
      (record feed { dropped_events = add64 feed.dropped_events 1; snapshot_pending = true })

-- What follows a push that has succeeded.
unfoldable pub after_push :
    MarketDataEventKind → Queue MarketDataEvent → MarketDataFeed → MarketDataFeed
after_push snapshot q feed =
    let feed₁ =
      record_queue_occupancy q (record feed { published_events = add64 feed.published_events 1 }) in
    record feed₁ { snapshot_pending = false; updates_since_snapshot = 0 }
after_push depth_update q feed =
    let feed₁ =
      record_queue_occupancy q (record feed { published_events = add64 feed.published_events 1 }) in
    let updates = add64 feed₁.updates_since_snapshot 1 in
    record feed₁ {
      updates_since_snapshot = updates;
      snapshot_pending =
          if leb feed₁.snapshot_interval updates then true else feed₁.snapshot_pending;
    }

abbrev pub kind_of : MarketDataFeed → MarketDataEventKind
kind_of feed = if feed.snapshot_pending then snapshot else depth_update

unfoldable pub publish :
    OrderBook
    → MarketDataFeed
    → Queue MarketDataEvent
    → Option (MarketDataFeed × Queue MarketDataEvent)
publish book feed q =
    if is_exhausted feed
    then some
        (record feed { dropped_events = add64 feed.dropped_events 1; snapshot_pending = true }, q)
    else do
      event ← make_event book (kind_of feed) feed.next_sequence
      let feed₁ : MarketDataFeed = record feed { next_sequence = add64 feed.next_sequence 1 }
      let (q', pushed) = try_push queue_capacity blank_event event q
      some (if pushed then after_push (kind_of feed) q' feed₁ else after_drop q' feed₁, q')

unfoldable pub metrics : MarketDataFeed → Queue MarketDataEvent → MarketDataMetrics
metrics feed q = record {
  published_events = feed.published_events;
  dropped_events = feed.dropped_events;
  queue_occupancy = size queue_capacity blank_event q;
  max_queue_occupancy = feed.max_queue_occupancy;
}
