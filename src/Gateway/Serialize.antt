-- ===== src/Gateway/Serialize.antt =====
-- src/tcp_gateway.cpp: `serialize_outbound` and `make_error_frame`. A frame is a list of bytes, empty
-- where the source returns an empty vector.
use low_latency_exchange.Prelude.{ℕ, ◌+◌, Option, none, some, List, [], replicate}
use low_latency_exchange.Protocol.ErrorCodes.{ErrorCode}
use low_latency_exchange.Protocol.MessageTypes
use low_latency_exchange.Protocol.MessageTypes.{MessageType}
use low_latency_exchange.Protocol.Events.{
  encode_order_accepted, encode_order_rejected, encode_execution, encode_cancel_accepted,
  encode_protocol_error,
}
use low_latency_exchange.Protocol.Header.{header_size, encode_frame}
use low_latency_exchange.Engine.Types.{
  OutboundPayload, no_payload, accepted_event, rejected_event, execution_event, cancelled_event,
  error_event, OutboundMessage,
}

-- `payload_size`
abbrev pub payload_size_of : OutboundPayload → ℕ
payload_size_of no_payload = 0
payload_size_of (accepted_event _) = 24
payload_size_of (rejected_event _) = 24
payload_size_of (execution_event _) = 40
payload_size_of (cancelled_event _) = 24
payload_size_of (error_event _) = 8

-- The used part of `payload_buf`; `none` where `encoded` stays false.
unfoldable pub encode_payload : OutboundPayload → Option (List ℕ)
encode_payload no_payload = none
encode_payload (accepted_event e) = encode_order_accepted e (replicate 24 0)
encode_payload (rejected_event e) = encode_order_rejected e (replicate 24 0)
encode_payload (execution_event e) = encode_execution e (replicate 40 0)
encode_payload (cancelled_event e) = encode_cancel_accepted e (replicate 24 0)
encode_payload (error_event e) = encode_protocol_error e (replicate 8 0)

abbrev pub bytes_or_empty : Option (List ℕ) → List ℕ
bytes_or_empty none = []
bytes_or_empty (some bytes) = bytes

unfoldable pub serialize_outbound : OutboundMessage → List ℕ
serialize_outbound msg = elim (encode_payload msg.payload) [
  | none ↦ []
  | some payload ↦ bytes_or_empty (
      encode_frame msg.type payload (replicate (header_size + payload_size_of msg.payload) 0)
        msg.flags)
]

unfoldable pub make_error_frame : ErrorCode → ℕ → List ℕ
make_error_frame code offending_type =
    elim (encode_protocol_error (record { error_code = code; offending_type = offending_type })
      (replicate 8 0)) [
        | none ↦ []
        | some payload ↦
            bytes_or_empty
              (encode_frame MessageTypes.protocol_error payload (replicate (header_size + 8) 0) 0)
      ]
