-- ===== src/Engine/Types.antt =====
-- include/low_latency_exchange/tcp_gateway.hpp: the messages, the queues, the metrics and the members of
-- the service. A time point is a number of nanoseconds, 0 for `time_point{}`.
use low_latency_exchange.Prelude.{ℕ, Option, List, []}
use low_latency_exchange.Types.{OrderId}
use low_latency_exchange.Book.State.{OrderBook}
use low_latency_exchange.Spsc.{Queue}
use low_latency_exchange.Market.Types.{MarketDataFeed, MarketDataEvent}
use low_latency_exchange.EventLog.Types.{CapturedCommand, monostate, EventCaptureFeed}
use low_latency_exchange.EventLog.Capture.{CaptureQueue}
use low_latency_exchange.Observability.{LatencyHistogram, LatencyHistogramSnapshot, snapshot}
use low_latency_exchange.Protocol.MessageTypes
use low_latency_exchange.Protocol.MessageTypes.{MessageType}
use low_latency_exchange.Protocol.Codes.{
  OrderAcceptedEvent, OrderRejectedEvent, ExecutionEvent, CancelAcceptedEvent, ProtocolErrorEvent,
}

-- `InboundCommand` is the same variant as `CapturedCommand`.
abbrev pub InboundCommand : Type 0
InboundCommand = CapturedCommand

pub record InboundMessage : Type 0 where
  pub session_id : ℕ
  pub command : InboundCommand
  pub wire_bytes : ℕ
  pub received_at : ℕ

pub data OutboundPayload : Type 0 where
  no_payload : OutboundPayload
  accepted_event : OrderAcceptedEvent → OutboundPayload
  rejected_event : OrderRejectedEvent → OutboundPayload
  execution_event : ExecutionEvent → OutboundPayload
  cancelled_event : CancelAcceptedEvent → OutboundPayload
  error_event : ProtocolErrorEvent → OutboundPayload

-- The session 0 stands for all active sessions.
pub record OutboundMessage : Type 0 where
  pub session_id : ℕ
  pub type : MessageType
  pub flags : ℕ
  pub payload : OutboundPayload

abbrev pub blank_inbound : InboundMessage
blank_inbound = record { session_id = 0; command = monostate; wire_bytes = 0; received_at = 0 }

abbrev pub blank_outbound : OutboundMessage
blank_outbound = record {
  session_id = 0;
  type = MessageTypes.order_accepted;
  flags = 0;
  payload = no_payload;
}

-- `InboundQueue` and `OutboundQueue`
abbrev pub gateway_capacity : ℕ
gateway_capacity = 4096

pub record MatchingEngineMetrics : Type 0 where
  pub accepted_commands : ℕ
  pub rejected_commands : ℕ
  pub accepted_cancels : ℕ
  pub rejected_cancels : ℕ
  pub executions : ℕ
  pub inbound_bytes : ℕ
  pub outbound_bytes : ℕ
  pub inbound_queue_high_water : ℕ
  pub outbound_queue_high_water : ℕ
  pub command_to_ack_latency : LatencyHistogramSnapshot

abbrev pub zero_metrics : MatchingEngineMetrics
zero_metrics = record {
  accepted_commands = 0;
  rejected_commands = 0;
  accepted_cancels = 0;
  rejected_cancels = 0;
  executions = 0;
  inbound_bytes = 0;
  outbound_bytes = 0;
  inbound_queue_high_water = 0;
  outbound_queue_high_water = 0;
  command_to_ack_latency = record {
    buckets = [];
    count = 0;
    min_nanoseconds = 0;
    max_nanoseconds = 0;
  };
}

-- The outbound queue with the thread that empties it: what that thread has taken, and how many messages
-- it takes at each of its turns to come.
pub record Outbound : Type 0 where
  pub queue : Queue OutboundMessage
  pub received : List OutboundMessage
  pub turns : List ℕ

-- The service with the objects that it refers to. A null pointer is `none`.
pub record MatchingEngineService : Type 0 where
  pub inbound : Queue InboundMessage
  pub outbound : Outbound
  pub market_data : Option (MarketDataFeed × Queue MarketDataEvent)
  pub event_capture : Option (EventCaptureFeed × CaptureQueue)
  pub book : OrderBook
  pub order_sessions : List (OrderId × ℕ)
  pub metrics : MatchingEngineMetrics
  pub command_to_ack_latency : LatencyHistogram

unfoldable pub metrics_of : MatchingEngineService → MatchingEngineMetrics
metrics_of s = record s.metrics { command_to_ack_latency = snapshot s.command_to_ack_latency }
