-- ===== src/Protocol/Commands.antt =====
-- src/protocol.cpp: the codecs of the inbound commands.
use low_latency_exchange.Prelude.{
  ℕ, Bool, true, false, not, Option, none, some, List, ltb, ◌==◌, ◌||◌, if◌then◌else◌, length,
  get_or, set, ℤ, pos, negsuc, ◌>>=◌,
}
use low_latency_exchange.Types.{
  Side, buy, sell, OrderType, limit, market, Price, from_ticks, from_units, from_value,
}
use low_latency_exchange.Command.{NewOrder, CancelOrder, ReplaceOrder}
use low_latency_exchange.Protocol.ErrorCodes
use low_latency_exchange.Protocol.ErrorCodes.{ErrorCode}
use low_latency_exchange.Protocol.Codes.{Decoded, failed, decoded, or_invalid}
use low_latency_exchange.Protocol.Bytes.{
  read_u64_le, read_i64_le, write_u64_le, write_i64_le, clear_bytes, are_clear,
}

abbrev pub new_order_size : ℕ
new_order_size = 40

abbrev pub cancel_order_size : ℕ
cancel_order_size = 16

abbrev pub replace_order_size : ℕ
replace_order_size = 32

abbrev pub is_negative : ℤ → Bool
is_negative (pos _) = false
is_negative (negsuc _) = true

abbrev pub is_zero : ℤ → Bool
is_zero (pos n) = n == 0
is_zero (negsuc _) = false

abbrev pub side_of : ℕ → Side
side_of side_byte = if side_byte == 0 then buy else sell

abbrev pub type_of : ℕ → OrderType
type_of type_byte = if type_byte == 0 then limit else market

-- The price by the type of the order.
unfoldable pub limit_price_of : OrderType → ℤ → Decoded (Option Price)
limit_price_of limit price_val =
    if is_zero price_val
    then failed ErrorCodes.limit_order_missing_price
    else elim (from_ticks price_val) [
      | none ↦ failed ErrorCodes.invalid_field
      | some price ↦ decoded (some price)
    ]
limit_price_of market price_val =
    if not (is_zero price_val) then failed ErrorCodes.market_order_has_price else decoded none

-- The checks of the fields, after the reserved bytes.
unfoldable pub new_order_of : ℕ → ℕ → ℕ → ℤ → ℕ → ℕ → Decoded NewOrder
new_order_of seq_val oid_val qty_val price_val side_byte type_byte =
    if seq_val == 0
      || oid_val == 0
      || qty_val == 0
      || ltb 1 side_byte
      || ltb 1 type_byte
      || is_negative price_val
    then failed ErrorCodes.invalid_field
    else elim (limit_price_of (type_of type_byte) price_val) [
      | failed error ↦ failed error
      | decoded limit_price ↦ or_invalid (do
        seq ← from_value seq_val
        oid ← from_value oid_val
        qty ← from_units qty_val
        some (record {
          sequence = seq;
          order_id = oid;
          side = side_of side_byte;
          type = type_of type_byte;
          quantity = qty;
          limit_price = limit_price;
        }))
    ]

unfoldable pub decode_new_order : List ℕ → Decoded NewOrder
decode_new_order bytes =
    if not (length bytes == new_order_size)
    then failed ErrorCodes.payload_length_invalid
    else if not (are_clear 6 0 bytes 34)
    then failed ErrorCodes.invalid_field
    else new_order_of (read_u64_le bytes 0) (read_u64_le bytes 8) (read_u64_le bytes 16)
        (read_i64_le bytes 24) (get_or bytes 32 0) (get_or bytes 33 0)

unfoldable pub decode_cancel_order : List ℕ → Decoded CancelOrder
decode_cancel_order bytes =
    if not (length bytes == cancel_order_size)
    then failed ErrorCodes.payload_length_invalid
    else let seq_val = read_u64_le bytes 0 in
      let oid_val = read_u64_le bytes 8 in
      if seq_val == 0 || oid_val == 0
      then failed ErrorCodes.invalid_field
      else or_invalid (do
        seq ← from_value seq_val
        oid ← from_value oid_val
        some (record { sequence = seq; order_id = oid }))

unfoldable pub decode_replace_order : List ℕ → Decoded ReplaceOrder
decode_replace_order bytes =
    if not (length bytes == replace_order_size)
    then failed ErrorCodes.payload_length_invalid
    else let seq_val = read_u64_le bytes 0 in
      let oid_val = read_u64_le bytes 8 in
      let qty_val = read_u64_le bytes 16 in
      let price_val = read_i64_le bytes 24 in
      if seq_val == 0 || oid_val == 0 || qty_val == 0 || is_negative price_val || is_zero price_val
      then failed ErrorCodes.invalid_field
      else or_invalid (do
        seq ← from_value seq_val
        oid ← from_value oid_val
        qty ← from_units qty_val
        price ← from_ticks price_val
        some (record { sequence = seq; order_id = oid; new_quantity = qty; new_price = price }))

abbrev pub price_ticks : Option Price → ℤ
price_ticks none = pos 0
price_ticks (some p) = pos p

abbrev pub side_byte_of : Side → ℕ
side_byte_of buy = 0
side_byte_of sell = 1

abbrev pub type_byte_of : OrderType → ℕ
type_byte_of limit = 0
type_byte_of market = 1

unfoldable pub encode_new_order : NewOrder → List ℕ → Option (List ℕ)
encode_new_order order out =
    if ltb (length out) new_order_size
    then none
    else let out₁ : List ℕ = write_u64_le out 0 order.sequence in
      let out₂ : List ℕ = write_u64_le out₁ 8 order.order_id in
      let out₃ : List ℕ = write_u64_le out₂ 16 order.quantity in
      let out₄ : List ℕ = write_i64_le out₃ 24 (price_ticks order.limit_price) in
      let out₅ : List ℕ = set out₄ 32 (side_byte_of order.side) in
      let out₆ : List ℕ = set out₅ 33 (type_byte_of order.type) in some (clear_bytes out₆ 34 6)

unfoldable pub encode_cancel_order : CancelOrder → List ℕ → Option (List ℕ)
encode_cancel_order order out =
    if ltb (length out) cancel_order_size
    then none
    else let out₁ : List ℕ = write_u64_le out 0 order.sequence in
      some (write_u64_le out₁ 8 order.order_id)

unfoldable pub encode_replace_order : ReplaceOrder → List ℕ → Option (List ℕ)
encode_replace_order order out =
    if ltb (length out) replace_order_size
    then none
    else let out₁ : List ℕ = write_u64_le out 0 order.sequence in
      let out₂ : List ℕ = write_u64_le out₁ 8 order.order_id in
      let out₃ : List ℕ = write_u64_le out₂ 16 order.new_quantity in
      some (write_i64_le out₃ 24 (pos order.new_price))
