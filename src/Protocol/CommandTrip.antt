-- ===== src/Protocol/CommandTrip.antt =====
-- What an encoder writes of a command into a span of its size, its decoder reads back.
use low_latency_exchange.Prelude.{
  ℕ, ◌^◌, ◌<◌, List, Option, some, none, ◌≡◌, refl, ◌∙◌, arith, length, set, pos, ap, Bool-cases,
  ◌==◌, get_or, ℤ, negsuc, Option-cases, inl, inr, subst,
}
use low_latency_exchange.Types.{IsWord, IsPrice, OrderType, Side, buy, sell, limit, market, Price}
use low_latency_exchange.Protocol.Codes.{decoded}
use low_latency_exchange.Protocol.Bytes.{
  write_u64_le, write_i64_le, clear_bytes, are_clear, read_u64_le, read_i64_le,
}
use low_latency_exchange.Protocol.Bytes.Laws.{
  Keeps, Keeps-trans, set-Keeps, write_u64_le-Keeps, are_clear-clear_bytes, clear_bytes-Keeps,
}
use low_latency_exchange.Protocol.Bytes.Fields.{
  Keeps-self, write_i64_le-Keeps, field_u64, field_i64, field_byte,
}
use low_latency_exchange.Command.{NewOrder, CancelOrder, ReplaceOrder, validate, check_price}
use low_latency_exchange.Protocol.Commands.{
  limit_price_of, decode_new_order, decode_cancel_order, decode_replace_order, encode_new_order,
  encode_cancel_order, encode_replace_order, price_ticks, new_order_of, side_byte_of, type_byte_of,
}

-- `decode_cancel_order` reads back what `encode_cancel_order` writes into 16 bytes, whatever they held,
-- of an order whose sequence and id are positive words.
pub roundtrip_cancel_order :
    (order : CancelOrder) (out : List ℕ)
    → length out ≡ 16
    → IsWord (order.sequence)
    → IsWord (order.order_id)
    → (bytes : List ℕ) × (encode_cancel_order order out ≡ some bytes)
      × (decode_cancel_order bytes ≡ decoded order)
unfolding encode_cancel_order decode_cancel_order
roundtrip_cancel_order order out size s o =
    let out₁ : List ℕ = write_u64_le out 0 order.sequence in
    let out₂ : List ℕ = write_u64_le out₁ 8 order.order_id in
    let k₁ : Keeps 0 out out₁ = write_u64_le-Keeps out 0 order.sequence in
    let l₁ : length out₁ ≡ 16 = k₁.0 ∙ size in
    let k₂ : Keeps 8 out₁ out₂ = write_u64_le-Keeps out₁ 8 order.order_id in
    let l₂ : length out₂ ≡ 16 = k₂.0 ∙ l₁ in
    let s₁ : Keeps 8 out₁ out₂ = k₂ in
    let f₁ = field_u64 out 0 order.sequence 8 out₂ s₁ (omega arith) (omega (arith, size)) (s.1) in
    let f₂ =
      field_u64 out₁ 8 order.order_id 16 out₂ (Keeps-self 16 out₂) (omega arith) (omega (arith, l₁))
        (o.1) in
    (
      out₂,
      rw (size, encode_cancel_order) refl,
      rw (l₂, f₁, f₂, decode_cancel_order) (ground (arith, s, o)),
    )

-- `decode_replace_order` reads back what `encode_replace_order` writes into 32 bytes, whatever they held,
-- of an order whose fields are positive and in range.
pub roundtrip_replace_order :
    (order : ReplaceOrder) (out : List ℕ)
    → length out ≡ 32
    → IsWord (order.sequence)
    → IsWord (order.order_id)
    → IsWord (order.new_quantity)
    → IsPrice (order.new_price)
    → (bytes : List ℕ) × (encode_replace_order order out ≡ some bytes)
      × (decode_replace_order bytes ≡ decoded order)
unfolding encode_replace_order decode_replace_order
roundtrip_replace_order order out size s o q p =
    let out₁ : List ℕ = write_u64_le out 0 order.sequence in
    let out₂ : List ℕ = write_u64_le out₁ 8 order.order_id in
    let out₃ : List ℕ = write_u64_le out₂ 16 order.new_quantity in
    let out₄ : List ℕ = write_i64_le out₃ 24 (pos order.new_price) in
    let k₁ : Keeps 0 out out₁ = write_u64_le-Keeps out 0 order.sequence in
    let l₁ : length out₁ ≡ 32 = k₁.0 ∙ size in
    let k₂ : Keeps 8 out₁ out₂ = write_u64_le-Keeps out₁ 8 order.order_id in
    let l₂ : length out₂ ≡ 32 = k₂.0 ∙ l₁ in
    let k₃ : Keeps 16 out₂ out₃ = write_u64_le-Keeps out₂ 16 order.new_quantity in
    let l₃ : length out₃ ≡ 32 = k₃.0 ∙ l₂ in
    let k₄ : Keeps 24 out₃ out₄ = write_i64_le-Keeps out₃ 24 order.new_price in
    let l₄ : length out₄ ≡ 32 = k₄.0 ∙ l₃ in
    let s₃ : Keeps 24 out₃ out₄ = k₄ in
    let s₂ : Keeps 16 out₂ out₄ = Keeps-trans out₂ out₃ out₄ k₃ s₃ (omega arith) in
    let s₁ : Keeps 8 out₁ out₄ = Keeps-trans out₁ out₂ out₄ k₂ s₂ (omega arith) in
    let f₁ = field_u64 out 0 order.sequence 8 out₄ s₁ (omega arith) (omega (arith, size)) (s.1) in
    let f₂ = field_u64 out₁ 8 order.order_id 16 out₄ s₂ (omega arith) (omega (arith, l₁)) (o.1) in
    let f₃ =
      field_u64 out₂ 16 order.new_quantity 24 out₄ s₃ (omega arith) (omega (arith, l₂)) (q.1) in
    let f₄ =
      field_i64 out₃ 24 order.new_price 32 out₄ (Keeps-self 32 out₄) (omega arith)
        (omega (arith, l₃)) (p.1) in
    (
      out₄,
      rw (size, encode_replace_order) refl,
      rw (l₄, f₁, f₂, f₃, f₄, decode_replace_order) (ground (arith, s, o, q, p)),
    )

-- Each price that the order has is one.
abbrev pub HasPrices : NewOrder → Type 0
HasPrices order = (p : ℕ) → order.limit_price ≡ some p → IsPrice p

ticks_of :
    (order : NewOrder)
    → HasPrices order
    → (t : ℕ) × (t < 2 ^ 63) × (price_ticks order.limit_price ≡ pos t)
ticks_of order prices = elim (Option-cases order.limit_price) [
  | inl e ↦ (0, omega arith, ap price_ticks e)
  | inr (p, e) ↦ (p, (prices p e).1, ap price_ticks e)
]

new_order_of_parts :
    (sequence order_id quantity : ℕ) (side : Side) (type : OrderType) (limit_price : Option ℕ)
    → IsWord sequence
    → IsWord order_id
    → IsWord quantity
    → ((p : ℕ) → limit_price ≡ some p → IsPrice p)
    → check_price type limit_price ≡ none
    → new_order_of sequence order_id quantity
        (price_ticks limit_price)
        (side_byte_of side)
        (type_byte_of type)
      ≡ decoded (record {
        sequence = sequence;
        order_id = order_id;
        side = side;
        type = type;
        quantity = quantity;
        limit_price = limit_price;
      })
unfolding new_order_of limit_price_of
new_order_of_parts sequence order_id quantity buy limit (some p) s o q prices ok =
    let h = prices p refl in ground (arith, s, o, q, h)
new_order_of_parts sequence order_id quantity sell limit (some p) s o q prices ok =
    let h = prices p refl in ground (arith, s, o, q, h)
new_order_of_parts sequence order_id quantity buy market none s o q prices ok =
    ground (arith, s, o, q)
new_order_of_parts sequence order_id quantity sell market none s o q prices ok =
    ground (arith, s, o, q)
new_order_of_parts sequence order_id quantity side limit none s o q prices ok = cc
new_order_of_parts sequence order_id quantity side market (some p) s o q prices ok = cc

-- `decode_new_order` reads back what `encode_new_order` writes into 40 bytes, whatever they held, of an order
-- that `validate` accepts and whose fields are positive and in range.
pub roundtrip_new_order :
    (order : NewOrder) (out : List ℕ)
    → length out ≡ 40
    → IsWord (order.sequence)
    → IsWord (order.order_id)
    → IsWord (order.quantity)
    → HasPrices order
    → validate order ≡ none
    → (bytes : List ℕ) × (encode_new_order order out ≡ some bytes)
      × (decode_new_order bytes ≡ decoded order)
unfolding encode_new_order decode_new_order validate
roundtrip_new_order order out size s o q prices ok =
    let (ticks, fits, same) = ticks_of order prices in
    let out₁ : List ℕ = write_u64_le out 0 order.sequence in
    let out₂ : List ℕ = write_u64_le out₁ 8 order.order_id in
    let out₃ : List ℕ = write_u64_le out₂ 16 order.quantity in
    let out₄ : List ℕ = write_i64_le out₃ 24 (pos ticks) in
    let out₅ : List ℕ = set out₄ 32 (side_byte_of order.side) in
    let out₆ : List ℕ = set out₅ 33 (type_byte_of order.type) in
    let out₇ : List ℕ = clear_bytes out₆ 34 6 in
    let k₁ : Keeps 0 out out₁ = write_u64_le-Keeps out 0 order.sequence in
    let l₁ : length out₁ ≡ 40 = k₁.0 ∙ size in
    let k₂ : Keeps 8 out₁ out₂ = write_u64_le-Keeps out₁ 8 order.order_id in
    let l₂ : length out₂ ≡ 40 = k₂.0 ∙ l₁ in
    let k₃ : Keeps 16 out₂ out₃ = write_u64_le-Keeps out₂ 16 order.quantity in
    let l₃ : length out₃ ≡ 40 = k₃.0 ∙ l₂ in
    let k₄ : Keeps 24 out₃ out₄ = write_i64_le-Keeps out₃ 24 ticks in
    let l₄ : length out₄ ≡ 40 = k₄.0 ∙ l₃ in
    let k₅ : Keeps 32 out₄ out₅ = set-Keeps out₄ 32 (side_byte_of order.side) in
    let l₅ : length out₅ ≡ 40 = k₅.0 ∙ l₄ in
    let k₆ : Keeps 33 out₅ out₆ = set-Keeps out₅ 33 (type_byte_of order.type) in
    let l₆ : length out₆ ≡ 40 = k₆.0 ∙ l₅ in
    let k₇ : Keeps 34 out₆ out₇ = clear_bytes-Keeps out₆ 34 6 in
    let l₇ : length out₇ ≡ 40 = k₇.0 ∙ l₆ in
    let s₆ : Keeps 34 out₆ out₇ = k₇ in
    let s₅ : Keeps 33 out₅ out₇ = Keeps-trans out₅ out₆ out₇ k₆ s₆ (omega arith) in
    let s₄ : Keeps 32 out₄ out₇ = Keeps-trans out₄ out₅ out₇ k₅ s₅ (omega arith) in
    let s₃ : Keeps 24 out₃ out₇ = Keeps-trans out₃ out₄ out₇ k₄ s₄ (omega arith) in
    let s₂ : Keeps 16 out₂ out₇ = Keeps-trans out₂ out₃ out₇ k₃ s₃ (omega arith) in
    let s₁ : Keeps 8 out₁ out₇ = Keeps-trans out₁ out₂ out₇ k₂ s₂ (omega arith) in
    let f₁ = field_u64 out 0 order.sequence 8 out₇ s₁ (omega arith) (omega (arith, size)) (s.1) in
    let f₂ = field_u64 out₁ 8 order.order_id 16 out₇ s₂ (omega arith) (omega (arith, l₁)) (o.1) in
    let f₃ = field_u64 out₂ 16 order.quantity 24 out₇ s₃ (omega arith) (omega (arith, l₂)) (q.1) in
    let f₄ = field_i64 out₃ 24 ticks 32 out₇ s₄ (omega arith) (omega (arith, l₃)) (fits) in
    let f₅ =
      field_byte out₄ 32 (side_byte_of order.side) 33 out₇ s₅ (omega arith) (omega (arith, l₄)) in
    let f₆ =
      field_byte out₅ 33 (type_byte_of order.type) 34 out₇ s₆ (omega arith) (omega (arith, l₅)) in
    let f₇ = are_clear-clear_bytes out₆ 34 6 (omega (arith, l₆)) in
    (
      out₇,
      rw (size, same, encode_new_order) refl,
      rw (l₇, f₁, f₂, f₃, f₄, f₅, f₆, f₇, decode_new_order)
          (subst
            (λ z.
              new_order_of order.sequence order.order_id order.quantity z (side_byte_of order.side)
                (type_byte_of order.type)
              ≡ decoded order)
            same
            (new_order_of_parts order.sequence order.order_id order.quantity order.side order.type
              order.limit_price s o q prices ok)),
    )

new_order_of_valid :
    (sequence order_id quantity : ℕ) (z : ℤ) (side_byte type_byte : ℕ) (order : NewOrder)
    → new_order_of sequence order_id quantity z side_byte type_byte ≡ decoded order
    → (0 < order.sequence) × (0 < order.order_id) × (0 < order.quantity) × (validate order ≡ none)
unfolding new_order_of limit_price_of validate
new_order_of_valid sequence order_id quantity (pos n) side_byte type_byte order e =
    ground (arith, e)
new_order_of_valid sequence order_id quantity (negsuc n) side_byte type_byte order e =
    ground (arith, e)

new_order_of_price :
    (sequence order_id quantity : ℕ) (z : ℤ) (side_byte type_byte : ℕ) (order : NewOrder)
    → new_order_of sequence order_id quantity z side_byte type_byte ≡ decoded order
    → (price : Price) → order.limit_price ≡ some price
    → 0 < price
unfolding new_order_of limit_price_of
new_order_of_price sequence order_id quantity (pos n) side_byte type_byte order e price h =
    ground (arith, e, h)
new_order_of_price sequence order_id quantity (negsuc n) side_byte type_byte order e price h =
    ground (arith, e, h)

-- What `decode_new_order` lets through has a positive sequence, id and quantity, and `validate`
-- accepts it, so the book never rejects it as invalid.
pub decode_new_order_valid :
    (bytes : List ℕ) (order : NewOrder)
    → decode_new_order bytes ≡ decoded order
    → (0 < order.sequence) × (0 < order.order_id) × (0 < order.quantity) × (validate order ≡ none)
unfolding decode_new_order
decode_new_order_valid bytes order e = elim (Bool-cases (length bytes == 40)) [
  | inr wrong ↦ absurd (ground (arith, wrong, e))
  | inl size ↦ elim (Bool-cases (are_clear 6 0 bytes 34)) [
    | inr dirty ↦ absurd (ground (arith, size, dirty, e))
    | inl clear ↦
        new_order_of_valid (read_u64_le bytes 0) (read_u64_le bytes 8) (read_u64_le bytes 16)
          (read_i64_le bytes 24) (get_or bytes 32 0) (get_or bytes 33 0) order
          (ground (arith, size, clear, e))
  ]
]

-- Its price, where it has one, is positive as well.
pub decode_new_order_price :
    (bytes : List ℕ) (order : NewOrder)
    → decode_new_order bytes ≡ decoded order
    → (price : Price) → order.limit_price ≡ some price
    → 0 < price
unfolding decode_new_order
decode_new_order_price bytes order e price h = elim (Bool-cases (length bytes == 40)) [
  | inr wrong ↦ absurd (ground (arith, wrong, e))
  | inl size ↦ elim (Bool-cases (are_clear 6 0 bytes 34)) [
    | inr dirty ↦ absurd (ground (arith, size, dirty, e))
    | inl clear ↦
        new_order_of_price (read_u64_le bytes 0) (read_u64_le bytes 8) (read_u64_le bytes 16)
          (read_i64_le bytes 24) (get_or bytes 32 0) (get_or bytes 33 0) order
          (ground (arith, size, clear, e)) price h
  ]
]
