-- ===== src/Protocol/Header.antt =====
-- src/protocol.cpp: `validate_header`, `encode_header`, `decode_header` and `encode_frame`. An encoder
-- returns the span after its writes, or `none` where the source returns false and writes nothing.
use low_latency_exchange.Prelude.{
  ℕ, ◌+◌, ◌%◌, ◌^◌, not, Option, none, some, List, ◌++◌, ltb, ◌==◌, if◌then◌else◌, length, get_or,
  set, drop, take,
}
use low_latency_exchange.Protocol.MessageTypes.{MessageType}
use low_latency_exchange.Protocol.ErrorCodes
use low_latency_exchange.Protocol.ErrorCodes.{ErrorCode}
use low_latency_exchange.Protocol.Codes.{
  WireHeader, expected_payload_length, flags_reserved_bits_clear,
}
use low_latency_exchange.Protocol.Bytes.{read_u16_le, write_u16_le, write_from}

abbrev pub magic_number : ℕ
magic_number = 22604

abbrev pub protocol_version : ℕ
protocol_version = 1

abbrev pub header_size : ℕ
header_size = 8

abbrev pub max_payload_length : ℕ
max_payload_length = 1024

unfoldable pub validate_header : WireHeader → Option ErrorCode
validate_header header =
    if not (header.magic == magic_number)
    then some ErrorCodes.malformed_frame
    else if not (header.version == protocol_version)
    then some ErrorCodes.unsupported_version
    else if ltb max_payload_length header.payload_length
    then some ErrorCodes.payload_too_large
    else if not (flags_reserved_bits_clear header.flags)
    then some ErrorCodes.invalid_field
    else elim (expected_payload_length header.type) [
      | none ↦ some ErrorCodes.unknown_message_type
      | some expected ↦
          if not (header.payload_length == expected)
          then some ErrorCodes.payload_length_invalid
          else none
    ]

unfoldable pub encode_header : WireHeader → List ℕ → Option (List ℕ)
encode_header header out =
    if ltb (length out) header_size
    then none
    else let out₁ : List ℕ = write_u16_le out 0 header.magic in
      let out₂ : List ℕ = set out₁ 2 header.version in
      let out₃ : List ℕ = set out₂ 3 header.type in
      let out₄ : List ℕ = write_u16_le out₃ 4 header.flags in
      some (write_u16_le out₄ 6 header.payload_length)

unfoldable pub decode_header : List ℕ → Option WireHeader
decode_header bytes =
    if ltb (length bytes) header_size
    then none
    else some (record {
      magic = read_u16_le bytes 0;
      version = get_or bytes 2 0;
      type = get_or bytes 3 0;
      flags = read_u16_le bytes 4;
      payload_length = read_u16_le bytes 6;
    })

-- The loop that copies the payload writes `out` behind the header.
unfoldable pub encode_frame : MessageType → List ℕ → List ℕ → ℕ → Option (List ℕ)
encode_frame type payload out flags =
    if ltb (length out) (header_size + length payload)
    then none
    else let header : WireHeader = record {
      magic = magic_number;
      version = protocol_version;
      type = type;
      flags = flags;
      payload_length = length payload % 2 ^ 16;
    } in
      elim (encode_header header (take header_size out)) [
        | none ↦ none
        | some head ↦ some (
            write_from (length payload) 0 (λ i. get_or payload i 0) (head ++ drop header_size out)
              header_size)
      ]
