-- ===== src/Market/Subscriber.antt =====
-- src/market_data.cpp: `MarketDataBook` and `MarketDataPublisher`.
use low_latency_exchange.Prelude.{
  ℕ, zero, suc, ◌-◌, Bool, true, false, not, ◌&&◌, Option, none, some, replicate, ◌==◌,
  if◌then◌else◌, add64, u64_mod,
}
use low_latency_exchange.Types.{FeedSequence}
use low_latency_exchange.Spsc.{Queue}
use low_latency_exchange.Spsc.Operations.{try_pop}
use low_latency_exchange.Market.Types.{
  snapshot, depth_update, MarketDataEvent, blank_event, queue_capacity, MarketDataBook,
}

abbrev pub new_subscriber : MarketDataBook
new_subscriber = record {
  bids = replicate 5 none;
  asks = replicate 5 none;
  last_sequence = none;
  synchronized = false;
}

unfoldable pub is_next_sequence : FeedSequence → FeedSequence → Bool
is_next_sequence previous current = not (previous == u64_mod - 1) && current == add64 previous 1

-- `last_sequence_.has_value() && is_next_sequence(*last_sequence_, sequence)`
unfoldable pub continues : Option FeedSequence → FeedSequence → Bool
continues none current = false
continues (some previous) current = is_next_sequence previous current

-- The state takes the event's levels and sequence.
abbrev pub adopt : MarketDataEvent → MarketDataBook → MarketDataBook
adopt event book = record book {
  bids = event.bids;
  asks = event.asks;
  last_sequence = event.sequence;
}

unfoldable pub apply : MarketDataEvent → MarketDataBook → MarketDataBook × Bool
apply event book = elim event.sequence [
  | none ↦ (book, false)
  | some sequence ↦ elim event.kind [
    | snapshot ↦ (record (adopt event book) { synchronized = true }, true)
    | depth_update ↦
        if not (book.synchronized && continues book.last_sequence sequence)
        then (record book { synchronized = false }, false)
        else (adopt event book, true)
  ]
]

unfoldable pub publish_one :
    Queue MarketDataEvent → MarketDataBook → Queue MarketDataEvent × MarketDataBook × Bool
publish_one q subscriber =
    let (q', out) = try_pop queue_capacity blank_event q in
    elim out [
      | none ↦ (q', subscriber, false)
      | some event ↦ let (subscriber', ok) = apply event subscriber in (q', subscriber', ok)
    ]

-- `while (queue_.try_pop(event))`, on fuel.
unfoldable pub drain :
    ℕ → ℕ → Queue MarketDataEvent → MarketDataBook → Queue MarketDataEvent × MarketDataBook × ℕ
drain zero published q subscriber = (q, subscriber, published)
drain (suc fuel) published q subscriber =
    let (q', out) = try_pop queue_capacity blank_event q in
    elim out [
      | none ↦ (q', subscriber, published)
      | some event ↦
          let (subscriber', ok) = apply event subscriber in
          drain fuel (if ok then add64 published 1 else published) q' subscriber'
    ]

-- The fuel is one more than what the queue can hold.
unfoldable pub publish_available :
    Queue MarketDataEvent → MarketDataBook → Queue MarketDataEvent × MarketDataBook × ℕ
publish_available q subscriber = drain (suc queue_capacity) 0 q subscriber
