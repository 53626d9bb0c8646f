-- ===== src/Market/Types.antt =====
-- include/low_latency_exchange/market_data.hpp: the events and the states.
use low_latency_exchange.Prelude.{ℕ, Bool, Option, none, List, replicate}
use low_latency_exchange.Types.{Price, Quantity, FeedSequence}

abbrev pub market_data_depth : ℕ
market_data_depth = 5

pub record MarketDataLevel : Type 0 where
  pub price : Price
  pub quantity : Quantity
  pub order_count : ℕ

-- An array of `market_data_depth` entries.
abbrev pub MarketDataDepth : Type 0
MarketDataDepth = List (Option MarketDataLevel)

pub data MarketDataEventKind : Type 0 where
  snapshot depth_update : MarketDataEventKind

pub record MarketDataEvent : Type 0 where
  pub sequence : Option FeedSequence
  pub kind : MarketDataEventKind
  pub bids : MarketDataDepth
  pub asks : MarketDataDepth

-- `MarketDataEvent{}`
abbrev pub blank_event : MarketDataEvent
blank_event = record {
  sequence = none;
  kind = snapshot;
  bids = replicate 5 none;
  asks = replicate 5 none;
}

abbrev pub queue_capacity : ℕ
queue_capacity = 1024

pub record MarketDataFeed : Type 0 where
  pub next_sequence : ℕ
  pub snapshot_interval : ℕ
  pub updates_since_snapshot : ℕ
  pub published_events : ℕ
  pub dropped_events : ℕ
  pub max_queue_occupancy : ℕ
  pub snapshot_pending : Bool

pub record MarketDataMetrics : Type 0 where
  pub published_events : ℕ
  pub dropped_events : ℕ
  pub queue_occupancy : ℕ
  pub max_queue_occupancy : ℕ

pub record MarketDataBook : Type 0 where
  pub bids : MarketDataDepth
  pub asks : MarketDataDepth
  pub last_sequence : Option FeedSequence
  pub synchronized : Bool
