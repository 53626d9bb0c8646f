-- ===== src/Engine/Outbound.antt =====
-- src/tcp_gateway.cpp: `push_outbound` and `record_outbound_message`. While the queue is full, the
-- engine waits for the other thread. That thread takes its turns, each a number of pops, before an
-- attempt of the engine to push; `none` says that its turns are over and the engine still waits.
use low_latency_exchange.Prelude.{
  ℕ, zero, suc, ◌+◌, true, false, Option, none, some, List, [], ◌∷◌, ◌++◌, ltb, if◌then◌else◌,
  add64, ◌>>=◌,
}
use low_latency_exchange.Spsc.{Queue}
use low_latency_exchange.Spsc.Operations.{try_push, try_pop, size}
use low_latency_exchange.Protocol.Codes.{expected_payload_length}
use low_latency_exchange.Protocol.Header.{header_size}
use low_latency_exchange.Engine.Types.{
  OutboundMessage, blank_outbound, gateway_capacity, MatchingEngineMetrics, Outbound,
  MatchingEngineService,
}

-- A turn of the thread that empties the queue.
unfoldable pub take_turn :
    ℕ → Queue OutboundMessage → List OutboundMessage → Queue OutboundMessage × List OutboundMessage
take_turn zero q received = (q, received)
take_turn (suc n) q received =
    let (q', out) = try_pop gateway_capacity blank_outbound q in
    elim out [ none ↦ (q', received) | some msg ↦ take_turn n q' (received ++ msg ∷ []) ]

-- `while (!outbound_.try_push(std::move(msg)))`. A push that fails does not take the message.
unfoldable pub spin :
    OutboundMessage → List ℕ → Queue OutboundMessage → List OutboundMessage → Option Outbound
spin msg [] q received = none
spin msg (n ∷ turns) q received =
    let (q₁, received₁) = take_turn n q received in
    let (q₂, pushed) = try_push gateway_capacity blank_outbound msg q₁ in
    elim pushed [
      | true ↦ some (record { queue = q₂; received = received₁; turns = turns })
      | false ↦ spin msg turns q₂ received₁
    ]

unfoldable pub record_outbound_message :
    OutboundMessage → MatchingEngineMetrics → MatchingEngineMetrics
record_outbound_message msg metrics = elim (expected_payload_length msg.type) [
  | none ↦ metrics
  | some payload_size ↦ record metrics {
    outbound_bytes = add64 metrics.outbound_bytes (header_size + payload_size);
  }
]

unfoldable pub raise_high_water : ℕ → MatchingEngineMetrics → MatchingEngineMetrics
raise_high_water occupancy metrics =
    if ltb metrics.outbound_queue_high_water occupancy
    then record metrics { outbound_queue_high_water = occupancy }
    else metrics

unfoldable pub push_outbound :
    OutboundMessage → MatchingEngineService → Option MatchingEngineService
push_outbound msg s = do
  outbound ← spin msg s.outbound.turns s.outbound.queue s.outbound.received
  let occupancy = size gateway_capacity blank_outbound outbound.queue
  some (record s {
    outbound = outbound;
    metrics = raise_high_water occupancy (record_outbound_message msg s.metrics);
  })
