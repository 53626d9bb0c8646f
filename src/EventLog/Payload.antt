-- ===== src/EventLog/Payload.antt =====
-- What `encode_command` makes of a command, `decode_command` reads back.
use low_latency_exchange.Prelude.{
  ℕ, ◌≤◌, true, List, some, none, ◌≡◌, refl, arith, length, replicate, length-replicate,
}
use low_latency_exchange.Types.{IsWord, IsPrice}
use low_latency_exchange.Command.{NewOrder, CancelOrder, ReplaceOrder, validate}
use low_latency_exchange.Protocol.MessageTypes
use low_latency_exchange.Protocol.MessageTypes.{MessageType}
use low_latency_exchange.Protocol.Codes.{decoded, expected_payload_length, is_inbound}
use low_latency_exchange.Protocol.Commands.{
  decode_new_order, decode_cancel_order, decode_replace_order,
}
use low_latency_exchange.Protocol.CommandTrip.{
  HasPrices, roundtrip_new_order, roundtrip_cancel_order, roundtrip_replace_order,
}
use low_latency_exchange.EventLog.Types.{
  CapturedCommand, monostate, new_order, cancel_order, replace_order, record_of,
}
use low_latency_exchange.EventLog.Format.{encode_command, decode_command}

-- The fields of a command fit their types, and a new order passes `validate`. An order that `submit`
-- accepts has passed it.
abbrev pub IsStorable : CapturedCommand → Type 0
IsStorable monostate = ⊥
IsStorable (new_order order) =
    IsWord order.sequence
    × IsWord order.order_id
    × IsWord order.quantity
    × HasPrices order
    × (validate order ≡ none)
IsStorable (cancel_order order) = IsWord order.sequence × IsWord order.order_id
IsStorable (replace_order order) =
    IsWord order.sequence
    × IsWord order.order_id
    × IsWord order.new_quantity
    × IsPrice order.new_price

decode_new_order-length :
    (bytes : List ℕ) (order : NewOrder) → decode_new_order bytes ≡ decoded order → length bytes ≡ 40
unfolding decode_new_order
decode_new_order-length bytes order e = ground (arith, e)

decode_cancel_order-length :
    (bytes : List ℕ) (order : CancelOrder)
    → decode_cancel_order bytes ≡ decoded order
    → length bytes ≡ 16
unfolding decode_cancel_order
decode_cancel_order-length bytes order e = ground (arith, e)

decode_replace_order-length :
    (bytes : List ℕ) (order : ReplaceOrder)
    → decode_replace_order bytes ≡ decoded order
    → length bytes ≡ 32
unfolding decode_replace_order
decode_replace_order-length bytes order e = ground (arith, e)

-- The payload of a command: what `encode_command` makes of it, which has the length of its type and
-- decodes to the command.
abbrev pub IsPayload : CapturedCommand → MessageType → List ℕ → Type 0
IsPayload command type payload =
    (encode_command command ≡ some (type, payload))
    × (is_inbound type ≡ true)
    × (expected_payload_length type ≡ some (length payload))
    × (length payload ≤ 40)
    × (decode_command type payload ≡ record_of command)

pub encode_command_lem :
    (command : CapturedCommand)
    → IsStorable command
    → (type : ℕ) × (payload : List ℕ) × IsPayload command type payload
unfolding encode_command decode_command
encode_command_lem monostate ok = absurd ok
encode_command_lem (new_order order) ok =
    let (bytes, e, d) =
      roundtrip_new_order order (replicate 40 0) (length-replicate {A = ℕ} 40 0) ok.0 ok.1 ok.2 ok.3
        ok.4 in
    let n = decode_new_order-length bytes order d in
    (
      MessageTypes.new_order,
      bytes,
      (rw (e, encode_command) refl, refl, rw n refl, omega (arith, n), rw (d, decode_command) refl),
    )
encode_command_lem (cancel_order order) ok =
    let (bytes, e, d) =
      roundtrip_cancel_order order (replicate 16 0) (length-replicate {A = ℕ} 16 0) ok.0 ok.1 in
    let n = decode_cancel_order-length bytes order d in
    (
      MessageTypes.cancel_order,
      bytes,
      (rw (e, encode_command) refl, refl, rw n refl, omega (arith, n), rw (d, decode_command) refl),
    )
encode_command_lem (replace_order order) ok =
    let (bytes, e, d) =
      roundtrip_replace_order order (replicate 32 0) (length-replicate {A = ℕ} 32 0) ok.0 ok.1 ok.2
        ok.3 in
    let n = decode_replace_order-length bytes order d in
    (
      MessageTypes.replace_order,
      bytes,
      (rw (e, encode_command) refl, refl, rw n refl, omega (arith, n), rw (d, decode_command) refl),
    )
