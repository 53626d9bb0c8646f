-- ===== src/Engine/Process.antt =====
-- src/tcp_gateway.cpp: `record_command_result`, `process_one` and `process_available`. `now` is what
-- the clock says in the call.
use low_latency_exchange.Prelude.{
  ℕ, zero, suc, ◌+◌, ◌-◌, Bool, true, false, Option, none, some, ◌==◌, ltb, if◌then◌else◌, add64,
  ◌>>=◌,
}
use low_latency_exchange.Spsc.Operations.{try_pop, size}
use low_latency_exchange.Spsc.{Queue}
use low_latency_exchange.Book.State.{OrderBook}
use low_latency_exchange.Market.Types.{MarketDataFeed, MarketDataEvent}
use low_latency_exchange.Market.Feed.{publish}
use low_latency_exchange.EventLog.Types.{
  monostate, new_order, cancel_order, replace_order, EventCaptureFeed,
}
use low_latency_exchange.EventLog.Capture.{CaptureQueue, capture}
use low_latency_exchange.Observability.{observe}
use low_latency_exchange.Protocol.MessageTypes
use low_latency_exchange.Protocol.MessageTypes.{MessageType}
use low_latency_exchange.Protocol.Codes.{expected_payload_length}
use low_latency_exchange.Engine.Types.{
  InboundCommand, InboundMessage, blank_inbound, gateway_capacity, MatchingEngineMetrics,
  MatchingEngineService,
}
use low_latency_exchange.Protocol.Header.{header_size}
use low_latency_exchange.Engine.Handlers.{
  units_or_zero, handle_new_order, handle_cancel_order, handle_replace_order,
}

-- The counters of `record_command_result`.
unfoldable pub count_result : InboundCommand → Bool → MatchingEngineMetrics → MatchingEngineMetrics
count_result (cancel_order _) true m = record m {
  accepted_commands = add64 m.accepted_commands 1;
  accepted_cancels = add64 m.accepted_cancels 1;
}
count_result (cancel_order _) false m = record m {
  rejected_commands = add64 m.rejected_commands 1;
  rejected_cancels = add64 m.rejected_cancels 1;
}
count_result _ true m = record m { accepted_commands = add64 m.accepted_commands 1 }
count_result _ false m = record m { rejected_commands = add64 m.rejected_commands 1 }

-- A clock that has gone back gives the latency 0.
unfoldable pub record_command_result :
    ℕ → InboundMessage → Bool → MatchingEngineService → MatchingEngineService
record_command_result now message accepted s = record s {
  metrics = count_result message.command accepted s.metrics;
  command_to_ack_latency =
      if message.received_at == 0
      then s.command_to_ack_latency
      else observe (now - message.received_at) s.command_to_ack_latency;
}

unfoldable pub handle :
    ℕ → InboundCommand → MatchingEngineService → Option (MatchingEngineService × Bool)
handle session_id monostate s = some (s, false)
handle session_id (new_order command) s = handle_new_order session_id command s
handle session_id (cancel_order command) s = handle_cancel_order session_id command s
handle session_id (replace_order command) s = handle_replace_order session_id command s

abbrev pub type_of_command : InboundCommand → MessageType
type_of_command (new_order _) = MessageTypes.new_order
type_of_command (cancel_order _) = MessageTypes.cancel_order
type_of_command _ = MessageTypes.replace_order

unfoldable pub count_inbound : InboundMessage → MatchingEngineService → MatchingEngineService
count_inbound msg s =
    let bytes =
      if msg.wire_bytes == 0
      then header_size + units_or_zero (expected_payload_length (type_of_command msg.command))
      else msg.wire_bytes in
    record s { metrics = record s.metrics { inbound_bytes = add64 s.metrics.inbound_bytes bytes } }

-- `if (accepted && event_capture_feed_ != nullptr)`
unfoldable pub capture_event :
    InboundCommand
    → Bool
    → Option (EventCaptureFeed × CaptureQueue)
    → Option (EventCaptureFeed × CaptureQueue)
capture_event command true (some (feed, q)) = some (capture command feed q)
capture_event command _ capturing = capturing

-- `if (market_data_feed_ != nullptr)`
unfoldable pub publish_market_data :
    OrderBook
    → Option (MarketDataFeed × Queue MarketDataEvent)
    → Option (Option (MarketDataFeed × Queue MarketDataEvent))
publish_market_data book none = some none
publish_market_data book (some (feed, q)) = do
  published ← publish book feed q
  some (some published)

unfoldable pub raise_inbound_high_water : MatchingEngineService → MatchingEngineService
raise_inbound_high_water s =
    let inbound_occupancy = size gateway_capacity blank_inbound s.inbound in
    record s {
      metrics =
          if ltb s.metrics.inbound_queue_high_water inbound_occupancy
          then record s.metrics { inbound_queue_high_water = inbound_occupancy }
          else s.metrics;
    }

-- What `process_one` does with a message.
unfoldable pub process_message :
    ℕ → InboundMessage → MatchingEngineService → Option MatchingEngineService
process_message now msg s = do
  (s₁, accepted) ← handle msg.session_id msg.command s
  let s₂ = record_command_result now msg accepted (count_inbound msg s₁)
  published ← publish_market_data s₂.book s₂.market_data
  some (record s₂ {
    event_capture = capture_event msg.command accepted s₂.event_capture;
    market_data = published;
  })

unfoldable pub process_one : ℕ → MatchingEngineService → Option (MatchingEngineService × Bool)
process_one now s =
    let s₁ = raise_inbound_high_water s in
    let (inbound, out) = try_pop gateway_capacity blank_inbound s₁.inbound in
    let s₂ : MatchingEngineService = record s₁ { inbound = inbound } in
    elim out [
      | none ↦ some (s₂, false)
      | some msg ↦ do s₃ ← process_message now msg s₂; some (s₃, true)
    ]

-- `while (process_one()) { ++count; }`, on fuel; the clock is read once in each call.
unfoldable pub process_available :
    ℕ → (ℕ → ℕ) → ℕ → MatchingEngineService → Option (MatchingEngineService × ℕ)
process_available zero clock count s = none
process_available (suc fuel) clock count s = elim (process_one (clock count) s) [
  | none ↦ none
  | some (s', false) ↦ some (s', count)
  | some (s', true) ↦ process_available fuel clock (add64 count 1) s'
]
