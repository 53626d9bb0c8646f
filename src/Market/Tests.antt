-- ===== src/Market/Tests.antt =====
-- Examples: a feed publishes an empty book to one subscriber.
use low_latency_exchange.Prelude.{Option, some, none, List, ◌≡◌, refl, replicate, length}
use low_latency_exchange.Book.State.{LevelQuote, empty_book}
use low_latency_exchange.Book.Query.{copy_depth}
use low_latency_exchange.Spsc.{Queue}
use low_latency_exchange.Spsc.Operations.{empty_queue}
use low_latency_exchange.Market.Types.{MarketDataFeed, MarketDataEvent, blank_event}
use low_latency_exchange.Market.Feed.{new_feed, publish}
use low_latency_exchange.Market.Subscriber.{new_subscriber, publish_one, publish_available}
use low_latency_exchange.Market.InStep.{InStep}
use low_latency_exchange.Market.Delivery.{Delivered, publish_one-Delivered}
use low_latency_exchange.Market.Publishing.{new_feed-InStep, publish-InStep}
use low_latency_exchange.Market.Draining.{Drained, publish_available-Drained}

abbrev no_levels : List (Option LevelQuote)
no_levels = replicate 5 none

empty_book_depth :
    copy_depth (replicate 5 none) (replicate 5 none) empty_book ≡ some (no_levels, no_levels)
unfolding copy_depth empty_book
empty_book_depth = refl

abbrev start_queue : Queue MarketDataEvent
start_queue = empty_queue 1024 blank_event

publish-InStep_example :
    (feed' : MarketDataFeed) × (q' : Queue MarketDataEvent) × (publish empty_book
        (new_feed 64)
        start_queue
      ≡ some (feed', q'))
    × InStep feed' q' new_subscriber
publish-InStep_example =
    publish-InStep empty_book (no_levels, no_levels) (new_feed 64) start_queue new_subscriber
      empty_book_depth (new_feed-InStep 64)

-- The three after the first event has been published.
abbrev first :
    (feed' : MarketDataFeed) × (q' : Queue MarketDataEvent) × (publish empty_book
        (new_feed 64)
        start_queue
      ≡ some (feed', q'))
    × InStep feed' q' new_subscriber
first =
    publish-InStep empty_book (no_levels, no_levels) (new_feed 64) start_queue new_subscriber
      empty_book_depth (new_feed-InStep 64)

publish_one-Delivered_example :
    Delivered first.0 first.1 new_subscriber first.3.items (publish_one first.1 new_subscriber)
publish_one-Delivered_example = publish_one-Delivered first.0 first.1 new_subscriber first.3

publish_available-Drained_example :
    Drained first.3.last (length first.3.items) (publish_available first.1 new_subscriber)
publish_available-Drained_example = publish_available-Drained first.0 first.1 new_subscriber first.3
