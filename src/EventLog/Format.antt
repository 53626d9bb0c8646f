-- ===== src/EventLog/Format.antt =====
-- src/event_log.cpp: the records. `encode_command` gives the type and the used part of the payload
-- array, `none` where the source returns false.
use low_latency_exchange.Prelude.{
  ℕ, ◌/◌, ◌%◌, ◌^◌, Bool, true, false, not, ◌||◌, Option, none, some, List, [], ◌∷◌, ltb, ◌==◌,
  if◌then◌else◌, length, get_or, set, replicate, mul64, ◌>>=◌,
}
use Prim.Native.Nat.{bit_xor}
use low_latency_exchange.Protocol.MessageTypes
use low_latency_exchange.Protocol.MessageTypes.{MessageType}
use low_latency_exchange.Protocol.Codes.{
  Decoded, failed, decoded, expected_payload_length, is_inbound,
}
use low_latency_exchange.Protocol.Bytes.{
  low_byte, read_u16_le, write_u16_le, read_u64_le, write_u64_le,
}
use low_latency_exchange.Protocol.Commands.{
  decode_new_order, decode_cancel_order, decode_replace_order, encode_new_order,
  encode_cancel_order, encode_replace_order, new_order_size, cancel_order_size, replace_order_size,
}
use low_latency_exchange.EventLog.Types.{
  CapturedCommand, monostate, new_order, cancel_order, replace_order, truncated_header,
  malformed_header, truncated_payload, checksum_mismatch, invalid_command, ReadResult, record_of,
  end_of_log, read_error,
}
use low_latency_exchange.EventLog.Stream.{OutputStream, write, read}
use low_latency_exchange.EventLog.Words.{read_u32_le, write_u32_le}

abbrev pub record_magic : ℕ
record_magic = 0x474C584C

abbrev pub record_version : ℕ
record_version = 1

abbrev pub record_header_size : ℕ
record_header_size = 16

abbrev pub record_payload_max : ℕ
record_payload_max = new_order_size

abbrev pub checksum_basis : ℕ
checksum_basis = 14695981039346656037

abbrev pub checksum_prime : ℕ
checksum_prime = 1099511628211

unfoldable pub mix : ℕ → ℕ → ℕ
mix hash value = mul64 (bit_xor hash value) checksum_prime

-- The loop over the payload.
unfoldable pub mix_all : ℕ → List ℕ → ℕ
mix_all hash [] = hash
mix_all hash (byte ∷ bytes) = mix_all (mix hash byte) bytes

unfoldable pub checksum : MessageType → List ℕ → ℕ
checksum type payload =
    let hash₁ = mix checksum_basis record_version in
    let hash₂ = mix hash₁ type in
    let hash₃ = mix hash₂ (low_byte (length payload)) in
    let hash₄ = mix hash₃ (low_byte (length payload / 2 ^ 8)) in mix_all hash₄ payload

unfoldable pub encode_command : CapturedCommand → Option (MessageType × List ℕ)
encode_command monostate = none
encode_command (new_order order) = do
  payload ← encode_new_order order (replicate new_order_size 0)
  some (MessageTypes.new_order, payload)
encode_command (cancel_order order) = do
  payload ← encode_cancel_order order (replicate cancel_order_size 0)
  some (MessageTypes.cancel_order, payload)
encode_command (replace_order order) = do
  payload ← encode_replace_order order (replicate replace_order_size 0)
  some (MessageTypes.replace_order, payload)

-- `decode_….has_value()` is a failure of the decoder.
abbrev pub command_of {ℓ} : {A : Type ℓ} → (A → CapturedCommand) → Decoded A → ReadResult
command_of make (failed error) = read_error invalid_command
command_of make (decoded order) = record_of (make order)

unfoldable pub decode_command : MessageType → List ℕ → ReadResult
decode_command type payload =
    if type == MessageTypes.new_order
    then command_of new_order (decode_new_order payload)
    else if type == MessageTypes.cancel_order
    then command_of cancel_order (decode_cancel_order payload)
    else if type == MessageTypes.replace_order
    then command_of replace_order (decode_replace_order payload)
    else read_error invalid_command

-- The header that `append` builds.
unfoldable pub record_header : MessageType → List ℕ → List ℕ
record_header type payload =
    let header₁ : List ℕ = write_u32_le (replicate record_header_size 0) 0 record_magic in
    let header₂ : List ℕ = set header₁ 4 record_version in
    let header₃ : List ℕ = set header₂ 5 type in
    let header₄ : List ℕ = write_u16_le header₃ 6 (length payload % 2 ^ 16) in
    write_u64_le header₄ 8 (checksum type payload)

unfoldable pub append : CapturedCommand → OutputStream → OutputStream × Bool
append command output =
    if output.is_good
    then elim (encode_command command) [
      | none ↦ (output, false)
      | some (type, payload) ↦
          let output' : OutputStream = write payload (write (record_header type payload) output) in
          (output', output'.is_good)
    ]
    else (output, false)

-- The test of the header.
unfoldable pub is_malformed : ℕ → ℕ → MessageType → ℕ → Bool
is_malformed magic version type payload_size =
    not (magic == record_magic)
    || not (version == record_version)
    || not (is_inbound type)
    || elim (expected_payload_length type) [
      | none ↦ true
      | some expected ↦ not (payload_size == expected)
    ]
    || ltb record_payload_max payload_size

-- What follows the header.
unfoldable pub read_payload : MessageType → ℕ → ℕ → List ℕ → ReadResult × List ℕ
read_payload type payload_size expected_checksum input =
    let (payload, rest) = read payload_size input in
    if not (length payload == payload_size)
    then (read_error truncated_payload, rest)
    else if not (checksum type payload == expected_checksum)
    then (read_error checksum_mismatch, rest)
    else (decode_command type payload, rest)

-- The result, and what is left of the input.
unfoldable pub read_record : List ℕ → ReadResult × List ℕ
read_record input =
    let (header, rest) = read record_header_size input in
    if length header == 0
    then (end_of_log, rest)
    else if not (length header == record_header_size)
    then (read_error truncated_header, rest)
    else if is_malformed (read_u32_le header 0) (get_or header 4 0) (get_or header 5 0)
        (read_u16_le header 6)
    then (read_error malformed_header, rest)
    else read_payload (get_or header 5 0) (read_u16_le header 6) (read_u64_le header 8) rest
