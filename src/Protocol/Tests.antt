-- ===== src/Protocol/Tests.antt =====
-- Examples: frames and payloads in spans of old bytes.
use low_latency_exchange.Prelude.{
  ℕ, ◌+◌, ◌<◌, ◌^◌, List, [], ◌∷◌, some, none, ◌≡◌, ◌↔◌, refl, arith, true, length, replicate,
  get_or,
}
use low_latency_exchange.Types.{buy, limit}
use low_latency_exchange.Command.{NewOrder, CancelOrder, ReplaceOrder, validate}
use low_latency_exchange.Protocol.Codes.{
  decoded, expected_payload_length, flags_reserved_bits_clear,
}
use low_latency_exchange.Protocol.Bytes.{
  low_byte, write_u64_le, write_i64_le, clear_bytes, read_u64_le, read_i64_le, are_clear,
}
use low_latency_exchange.Protocol.Header.{
  validate_header, encode_header, decode_header, encode_frame, magic_number, protocol_version,
}
use low_latency_exchange.Protocol.HeaderTrip.{
  roundtrip_header, validate_header_accepts, encode_frame_lem, frame_header,
}
use low_latency_exchange.Protocol.Commands.{
  decode_new_order, decode_cancel_order, decode_replace_order, encode_new_order,
  encode_cancel_order, encode_replace_order, new_order_of, limit_price_of,
}
use low_latency_exchange.Protocol.CommandTrip.{
  roundtrip_new_order, roundtrip_cancel_order, roundtrip_replace_order, decode_new_order_valid,
}

abbrev old_bytes : ℕ → List ℕ
old_bytes n = replicate n 7

abbrev cancel_seven : CancelOrder
cancel_seven = record { sequence = 3; order_id = 7 }

roundtrip_cancel_order_example :
    (bytes : List ℕ) × (encode_cancel_order cancel_seven (old_bytes 16) ≡ some bytes)
    × (decode_cancel_order bytes ≡ decoded cancel_seven)
roundtrip_cancel_order_example =
    roundtrip_cancel_order cancel_seven (old_bytes 16) refl (omega arith) (omega arith)

abbrev replace_seven : ReplaceOrder
replace_seven = record { sequence = 4; order_id = 7; new_quantity = 5; new_price = 300 }

roundtrip_replace_order_example :
    (bytes : List ℕ) × (encode_replace_order replace_seven (old_bytes 32) ≡ some bytes)
    × (decode_replace_order bytes ≡ decoded replace_seven)
roundtrip_replace_order_example =
    roundtrip_replace_order replace_seven (old_bytes 32) refl (omega arith) (omega arith)
      (omega arith) (omega arith)

abbrev buy_eight : NewOrder
buy_eight = record {
  sequence = 5;
  order_id = 8;
  side = buy;
  type = limit;
  quantity = 1000;
  limit_price = some 259;
}

buy_eight_prices : (p : ℕ) → buy_eight.limit_price ≡ some p → (0 < p) × (p < 2 ^ 63)
buy_eight_prices p e = ground (arith, e)

buy_eight_accepted : validate buy_eight ≡ none
unfolding validate
buy_eight_accepted = refl

roundtrip_new_order_example :
    (bytes : List ℕ) × (encode_new_order buy_eight (old_bytes 40) ≡ some bytes)
    × (decode_new_order bytes ≡ decoded buy_eight)
roundtrip_new_order_example =
    roundtrip_new_order buy_eight (old_bytes 40) refl (omega arith) (omega arith) (omega arith)
      buy_eight_prices buy_eight_accepted

-- The bytes of `buy_eight`.
abbrev buy_eight_bytes : List ℕ
buy_eight_bytes =
    5 ∷ 0 ∷ 0 ∷ 0 ∷ 0 ∷ 0 ∷ 0 ∷ 0 ∷ 8 ∷ 0 ∷ 0 ∷ 0 ∷ 0 ∷ 0 ∷ 0 ∷ 0 ∷ 232 ∷ 3 ∷ 0 ∷ 0 ∷ 0 ∷ 0 ∷ 0 ∷ 0
    ∷ 3 ∷ 1 ∷ 0 ∷ 0 ∷ 0 ∷ 0 ∷ 0 ∷ 0 ∷ 0 ∷ 0 ∷ 0 ∷ 0 ∷ 0 ∷ 0 ∷ 0 ∷ 0 ∷ []

buy_eight_encodes : encode_new_order buy_eight (old_bytes 40) ≡ some buy_eight_bytes
unfolding encode_new_order write_u64_le write_i64_le clear_bytes low_byte
buy_eight_encodes = refl

buy_eight_decodes : decode_new_order buy_eight_bytes ≡ decoded buy_eight
unfolding decode_new_order new_order_of limit_price_of read_u64_le read_i64_le are_clear
buy_eight_decodes = refl

decode_new_order_valid_example :
    (0 < buy_eight.sequence)
    × (0 < buy_eight.order_id)
    × (0 < buy_eight.quantity)
    × (validate buy_eight ≡ none)
decode_new_order_valid_example = decode_new_order_valid buy_eight_bytes buy_eight buy_eight_decodes

roundtrip_header_example :
    (bytes : List ℕ) × (length bytes ≡ 8)
    × (encode_header (frame_header 1 1 40) (old_bytes 8) ≡ some bytes)
    × (decode_header bytes ≡ some (frame_header 1 1 40))
roundtrip_header_example = roundtrip_header (frame_header 1 1 40) (old_bytes 8) refl (omega arith)

validate_header_accepts_example : (validate_header (frame_header 1 1 40) ≡ none) ↔ (
    (magic_number ≡ magic_number)
    × (protocol_version ≡ protocol_version)
    × (flags_reserved_bits_clear 1 ≡ true)
    × (expected_payload_length 1 ≡ some 40))
validate_header_accepts_example = validate_header_accepts (frame_header 1 1 40)

encode_frame_lem_example :
    (bytes : List ℕ) × (encode_frame 1 buy_eight_bytes (old_bytes 50) 0 ≡ some bytes)
    × (length bytes ≡ 50)
    × (decode_header bytes ≡ some (frame_header 1 0 40))
    × ((i : ℕ) → i < 40 → get_or bytes (8 + i) 0 ≡ get_or buy_eight_bytes i 0)
encode_frame_lem_example =
    encode_frame_lem 1 buy_eight_bytes (old_bytes 50) 0 (omega arith) (omega arith) (omega arith)
