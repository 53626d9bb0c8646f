-- ===== src/Protocol/Events.antt =====
-- src/protocol.cpp: the codecs of the outbound events.
use low_latency_exchange.Prelude.{
  ℕ, not, Option, none, some, List, ltb, ◌==◌, if◌then◌else◌, length, get_or, set, pos, ◌>>=◌,
}
use low_latency_exchange.Types.{from_ticks, from_units, from_value}
use low_latency_exchange.Protocol.ErrorCodes
use low_latency_exchange.Protocol.Codes.{
  Decoded, failed, or_invalid, decoded, OrderAcceptedEvent, OrderRejectedEvent, ExecutionEvent,
  CancelAcceptedEvent, ProtocolErrorEvent,
}
use low_latency_exchange.Protocol.Bytes.{
  read_u16_le, read_u64_le, read_i64_le, write_u16_le, write_u64_le, write_i64_le, clear_bytes,
  are_clear,
}

unfoldable pub encode_order_accepted : OrderAcceptedEvent → List ℕ → Option (List ℕ)
encode_order_accepted event out =
    if ltb (length out) 24
    then none
    else let out₁ : List ℕ = write_u64_le out 0 event.sequence in
      let out₂ : List ℕ = write_u64_le out₁ 8 event.order_id in
      some (write_u64_le out₂ 16 event.remaining_quantity)

unfoldable pub decode_order_accepted : List ℕ → Decoded OrderAcceptedEvent
decode_order_accepted bytes =
    if not (length bytes == 24)
    then failed ErrorCodes.payload_length_invalid
    else or_invalid (do
      seq ← from_value (read_u64_le bytes 0)
      oid ← from_value (read_u64_le bytes 8)
      some (record { sequence = seq; order_id = oid; remaining_quantity = read_u64_le bytes 16 }))

unfoldable pub encode_order_rejected : OrderRejectedEvent → List ℕ → Option (List ℕ)
encode_order_rejected event out =
    if ltb (length out) 24
    then none
    else let out₁ : List ℕ = write_u64_le out 0 event.sequence in
      let out₂ : List ℕ = write_u64_le out₁ 8 event.order_id in
      let out₃ : List ℕ = write_u16_le out₂ 16 event.error_code in some (clear_bytes out₃ 18 6)

-- An id of 0 is read as 1.
unfoldable pub decode_order_rejected : List ℕ → Decoded OrderRejectedEvent
decode_order_rejected bytes =
    if not (length bytes == 24)
    then failed ErrorCodes.payload_length_invalid
    else if not (are_clear 6 0 bytes 18)
    then failed ErrorCodes.invalid_field
    else let oid_val = read_u64_le bytes 8 in
      or_invalid (do
        seq ← from_value (read_u64_le bytes 0)
        some (record {
          sequence = seq;
          order_id = if oid_val == 0 then 1 else oid_val;
          error_code = read_u16_le bytes 16;
        }))

unfoldable pub encode_execution : ExecutionEvent → List ℕ → Option (List ℕ)
encode_execution event out =
    if ltb (length out) 40
    then none
    else let out₁ : List ℕ = write_u64_le out 0 event.sequence in
      let out₂ : List ℕ = write_u64_le out₁ 8 event.resting_order_id in
      let out₃ : List ℕ = write_u64_le out₂ 16 event.incoming_order_id in
      let out₄ : List ℕ = write_i64_le out₃ 24 (pos event.price) in
      some (write_u64_le out₄ 32 event.quantity)

unfoldable pub decode_execution : List ℕ → Decoded ExecutionEvent
decode_execution bytes =
    if not (length bytes == 40)
    then failed ErrorCodes.payload_length_invalid
    else or_invalid (do
      seq ← from_value (read_u64_le bytes 0)
      resting_oid ← from_value (read_u64_le bytes 8)
      incoming_oid ← from_value (read_u64_le bytes 16)
      price ← from_ticks (read_i64_le bytes 24)
      qty ← from_units (read_u64_le bytes 32)
      some (record {
        sequence = seq;
        resting_order_id = resting_oid;
        incoming_order_id = incoming_oid;
        price = price;
        quantity = qty;
      }))

unfoldable pub encode_cancel_accepted : CancelAcceptedEvent → List ℕ → Option (List ℕ)
encode_cancel_accepted event out =
    if ltb (length out) 24
    then none
    else let out₁ : List ℕ = write_u64_le out 0 event.sequence in
      let out₂ : List ℕ = write_u64_le out₁ 8 event.order_id in
      some (write_u64_le out₂ 16 event.cancelled_quantity)

unfoldable pub decode_cancel_accepted : List ℕ → Decoded CancelAcceptedEvent
decode_cancel_accepted bytes =
    if not (length bytes == 24)
    then failed ErrorCodes.payload_length_invalid
    else or_invalid (do
      seq ← from_value (read_u64_le bytes 0)
      oid ← from_value (read_u64_le bytes 8)
      qty ← from_units (read_u64_le bytes 16)
      some (record { sequence = seq; order_id = oid; cancelled_quantity = qty }))

unfoldable pub encode_protocol_error : ProtocolErrorEvent → List ℕ → Option (List ℕ)
encode_protocol_error event out =
    if ltb (length out) 8
    then none
    else let out₁ : List ℕ = write_u16_le out 0 event.error_code in
      let out₂ : List ℕ = set out₁ 2 event.offending_type in some (clear_bytes out₂ 3 5)

unfoldable pub decode_protocol_error : List ℕ → Decoded ProtocolErrorEvent
decode_protocol_error bytes =
    if not (length bytes == 8)
    then failed ErrorCodes.payload_length_invalid
    else if not (are_clear 5 0 bytes 3)
    then failed ErrorCodes.invalid_field
    else decoded (record { error_code = read_u16_le bytes 0; offending_type = get_or bytes 2 0 })
