-- ===== src/Market/Publishing.antt =====
-- `publish`: the feed, the queue and the subscriber stay in step, also over a drop.
use low_latency_exchange.Prelude.{
  ℕ, suc, ◌+◌, ◌<◌, true, false, Option, none, some, List, [], ◌∷◌, ◌++◌, ◌≡◌, refl, ap, arith,
  Bool-cases, inl, inr, u64_mod, map, add64, replicate,
}
use low_latency_exchange.Book.State.{OrderBook, LevelQuote}
use low_latency_exchange.Book.Query.{copy_depth}
use low_latency_exchange.Spsc.{Queue}
use low_latency_exchange.Spsc.Operations.{try_push, empty_queue}
use low_latency_exchange.Spsc.Refine.{stored_last, refused, try_push-Pushed, empty_queue-Holds}
use low_latency_exchange.Market.Types.{
  MarketDataEventKind, snapshot, depth_update, MarketDataEvent, blank_event, queue_capacity,
  MarketDataFeed, MarketDataBook,
}
use low_latency_exchange.Market.Feed.{
  new_feed, make_event, is_exhausted, after_drop, after_push, kind_of, publish,
  record_queue_occupancy, to_depth_entry,
}
use low_latency_exchange.Market.Subscriber.{new_subscriber}
use low_latency_exchange.Market.InStep.{
  exponent_pos, exponent_small, position, Fits, fresh, next, Chain-append, IsLinked, InStep,
}

abbrev event_of :
    List (Option LevelQuote) × List (Option LevelQuote) → MarketDataEventKind → ℕ → MarketDataEvent
event_of levels kind sequence = record {
  sequence = some sequence;
  kind = kind;
  bids = map to_depth_entry (levels.0);
  asks = map to_depth_entry (levels.1);
}

make_event_lem :
    (book : OrderBook) (levels : List (Option LevelQuote) × List (Option LevelQuote))
    (kind : MarketDataEventKind) (sequence : ℕ)
    → copy_depth (replicate 5 none) (replicate 5 none) book ≡ some levels
    → make_event book kind sequence ≡ some (event_of levels kind sequence)
unfolding make_event
make_event_lem book levels kind sequence shown = rw (shown, make_event) refl

-- The event of a feed in step fits behind the last one.
event_of-Fits :
    (levels : List (Option LevelQuote) × List (Option LevelQuote)) (feed : MarketDataFeed)
    (last : Option ℕ)
    → IsLinked feed last
    → Fits last (event_of levels (kind_of feed) feed.next_sequence)
event_of-Fits levels feed last l = elim (Bool-cases feed.snapshot_pending) [
  | inl e ↦ fresh feed.next_sequence refl (rw e refl)
  | inr e ↦
      let (p, at, n) = l.linked e in next p at (omega (arith, n, l.bounded)) (ap some n) (rw e refl)
]

after_drop-IsLinked :
    (feed : MarketDataFeed) (q : Queue MarketDataEvent) (last : Option ℕ)
    → 0 < feed.next_sequence
    → feed.next_sequence < u64_mod
    → IsLinked (after_drop q feed) last
unfolding after_drop record_queue_occupancy
after_drop-IsLinked feed q last pos below = record {
  positive = pos;
  bounded = below;
  linked = λ e. cc;
}

after_push-IsLinked :
    (kind : MarketDataEventKind) (feed : MarketDataFeed) (q : Queue MarketDataEvent) (n : ℕ)
    → feed.next_sequence ≡ suc n
    → feed.next_sequence < u64_mod
    → IsLinked (after_push kind q feed) (some n)
unfolding after_push record_queue_occupancy
after_push-IsLinked snapshot feed q n e below = record {
  positive = omega (arith, e);
  bounded = below;
  linked = λ _. (n, refl, e);
}
after_push-IsLinked depth_update feed q n e below = record {
  positive = omega (arith, e);
  bounded = below;
  linked = λ _. (n, refl, e);
}

is_exhausted-room :
    (feed : MarketDataFeed)
    → feed.next_sequence < u64_mod
    → is_exhausted feed ≡ false
    → feed.next_sequence + 1 < u64_mod
unfolding is_exhausted
is_exhausted-room feed below e = ground (arith, below, e)

-- `publish` keeps the three in step, whether the queue takes the event, refuses it, or the sequence
-- numbers are used up, provided that the book's depth is defined.
pub publish-InStep :
    (book : OrderBook) (levels : List (Option LevelQuote) × List (Option LevelQuote))
    (feed : MarketDataFeed) (q : Queue MarketDataEvent) (subscriber : MarketDataBook)
    → copy_depth (replicate 5 none) (replicate 5 none) book ≡ some levels
    → InStep feed q subscriber
    → (feed' : MarketDataFeed) × (q' : Queue MarketDataEvent) × (publish book feed q
        ≡ some (feed', q'))
      × InStep feed' q' subscriber
unfolding publish
publish-InStep book levels feed q subscriber shown s = elim (Bool-cases (is_exhausted feed)) [
  | inl used ↦ (
    record feed { dropped_events = add64 feed.dropped_events 1; snapshot_pending = true },
    q,
    rw (used, publish) refl,
    record {
      taken_before = s.taken_before;
      items = s.items;
      queued = s.queued;
      last = s.last;
      chain = s.chain;
      link = record { positive = s.link.positive; bounded = s.link.bounded; linked = λ e. cc };
    },
  )
  | inr more ↦
      let event : MarketDataEvent = event_of levels (kind_of feed) feed.next_sequence in
      let feed₁ : MarketDataFeed = record feed { next_sequence = add64 feed.next_sequence 1 } in
      let room : feed.next_sequence + 1 < u64_mod = is_exhausted-room feed s.link.bounded more in
      let q' : Queue MarketDataEvent = (try_push queue_capacity blank_event event q).0 in
      let made = make_event_lem book levels (kind_of feed) feed.next_sequence shown in
      elim (try_push-Pushed blank_event 10 exponent_pos exponent_small q s.taken_before s.items
        event s.queued) [
          | stored_last fits ok held ↦ (
            after_push (kind_of feed) q' feed₁,
            q',
            rw (more, made, ok, publish) refl,
            record {
              taken_before = s.taken_before;
              items = s.items ++ event ∷ [];
              queued = held;
              last = some feed.next_sequence;
              chain =
                  Chain-append (position subscriber) s.last s.items event s.chain
                    (event_of-Fits levels feed s.last s.link);
              link =
                  after_push-IsLinked (kind_of feed) feed₁ q' feed.next_sequence
                    (omega (arith, room)) (omega arith);
            },
          )
          | refused full ok held ↦ (
            after_drop q' feed₁,
            q',
            rw (more, made, ok, publish) refl,
            record {
              taken_before = s.taken_before;
              items = s.items;
              queued = held;
              last = s.last;
              chain = s.chain;
              link = after_drop-IsLinked feed₁ q' s.last (omega (arith, room)) (omega arith);
            },
          )
        ]
]

-- A new feed, a new queue and a new subscriber are in step.
pub new_feed-InStep :
    (interval : ℕ) → InStep (new_feed interval) (empty_queue 1024 blank_event) new_subscriber
unfolding new_feed
new_feed-InStep interval = record {
  taken_before = 0;
  items = [];
  queued = empty_queue-Holds blank_event 10 exponent_pos exponent_small;
  last = none;
  chain = refl;
  link = record { positive = omega arith; bounded = omega arith; linked = λ e. cc };
}
