-- ===== src/Protocol/EventTrip.antt =====
-- What an encoder writes of an event into a span of its size, its decoder reads back.
use low_latency_exchange.Prelude.{
  ℕ, ◌^◌, ◌<◌, List, some, ◌≡◌, refl, ◌∙◌, arith, length, set, u64_mod, pos,
}
use low_latency_exchange.Types.{IsWord, IsPrice}
use low_latency_exchange.Protocol.Codes.{
  decoded, OrderAcceptedEvent, OrderRejectedEvent, ExecutionEvent, CancelAcceptedEvent,
  ProtocolErrorEvent,
}
use low_latency_exchange.Protocol.Bytes.{write_u16_le, write_u64_le, write_i64_le, clear_bytes}
use low_latency_exchange.Protocol.Bytes.Laws.{
  Keeps, Keeps-trans, set-Keeps, write_u16_le-Keeps, write_u64_le-Keeps, are_clear-clear_bytes,
  clear_bytes-Keeps,
}
use low_latency_exchange.Protocol.Bytes.Fields.{
  Keeps-self, write_i64_le-Keeps, field_u64, field_i64, field_u16, field_byte,
}
use low_latency_exchange.Protocol.Events.{
  encode_order_accepted, decode_order_accepted, encode_order_rejected, decode_order_rejected,
  encode_execution, decode_execution, encode_cancel_accepted, decode_cancel_accepted,
  encode_protocol_error, decode_protocol_error,
}

-- `decode_order_accepted` reads back what `encode_order_accepted` writes into 24 bytes; the remaining
-- quantity may be 0.
pub roundtrip_order_accepted :
    (event : OrderAcceptedEvent) (out : List ℕ)
    → length out ≡ 24
    → IsWord (event.sequence)
    → IsWord (event.order_id)
    → event.remaining_quantity < u64_mod
    → (bytes : List ℕ) × (encode_order_accepted event out ≡ some bytes)
      × (decode_order_accepted bytes ≡ decoded event)
unfolding encode_order_accepted decode_order_accepted
roundtrip_order_accepted event out size s o q =
    let out₁ : List ℕ = write_u64_le out 0 event.sequence in
    let out₂ : List ℕ = write_u64_le out₁ 8 event.order_id in
    let out₃ : List ℕ = write_u64_le out₂ 16 event.remaining_quantity in
    let k₁ : Keeps 0 out out₁ = write_u64_le-Keeps out 0 event.sequence in
    let l₁ : length out₁ ≡ 24 = k₁.0 ∙ size in
    let k₂ : Keeps 8 out₁ out₂ = write_u64_le-Keeps out₁ 8 event.order_id in
    let l₂ : length out₂ ≡ 24 = k₂.0 ∙ l₁ in
    let k₃ : Keeps 16 out₂ out₃ = write_u64_le-Keeps out₂ 16 event.remaining_quantity in
    let l₃ : length out₃ ≡ 24 = k₃.0 ∙ l₂ in
    let s₂ : Keeps 16 out₂ out₃ = k₃ in
    let s₁ : Keeps 8 out₁ out₃ = Keeps-trans out₁ out₂ out₃ k₂ s₂ (omega arith) in
    let f₁ = field_u64 out 0 event.sequence 8 out₃ s₁ (omega arith) (omega (arith, size)) (s.1) in
    let f₂ = field_u64 out₁ 8 event.order_id 16 out₃ s₂ (omega arith) (omega (arith, l₁)) (o.1) in
    let f₃ =
      field_u64 out₂ 16 event.remaining_quantity 24 out₃ (Keeps-self 24 out₃) (omega arith)
        (omega (arith, l₂)) (q) in
    (
      out₃,
      rw (size, encode_order_accepted) refl,
      rw (l₃, f₁, f₂, f₃, decode_order_accepted) (ground (arith, s, o)),
    )

-- `decode_order_rejected` reads back what `encode_order_rejected` writes into 24 bytes, of an event with a
-- positive id.
pub roundtrip_order_rejected :
    (event : OrderRejectedEvent) (out : List ℕ)
    → length out ≡ 24
    → IsWord (event.sequence)
    → IsWord (event.order_id)
    → event.error_code < 2 ^ 16
    → (bytes : List ℕ) × (encode_order_rejected event out ≡ some bytes)
      × (decode_order_rejected bytes ≡ decoded event)
unfolding encode_order_rejected decode_order_rejected
roundtrip_order_rejected event out size s o c =
    let out₁ : List ℕ = write_u64_le out 0 event.sequence in
    let out₂ : List ℕ = write_u64_le out₁ 8 event.order_id in
    let out₃ : List ℕ = write_u16_le out₂ 16 event.error_code in
    let out₄ : List ℕ = clear_bytes out₃ 18 6 in
    let k₁ : Keeps 0 out out₁ = write_u64_le-Keeps out 0 event.sequence in
    let l₁ : length out₁ ≡ 24 = k₁.0 ∙ size in
    let k₂ : Keeps 8 out₁ out₂ = write_u64_le-Keeps out₁ 8 event.order_id in
    let l₂ : length out₂ ≡ 24 = k₂.0 ∙ l₁ in
    let k₃ : Keeps 16 out₂ out₃ = write_u16_le-Keeps out₂ 16 event.error_code in
    let l₃ : length out₃ ≡ 24 = k₃.0 ∙ l₂ in
    let k₄ : Keeps 18 out₃ out₄ = clear_bytes-Keeps out₃ 18 6 in
    let l₄ : length out₄ ≡ 24 = k₄.0 ∙ l₃ in
    let s₃ : Keeps 18 out₃ out₄ = k₄ in
    let s₂ : Keeps 16 out₂ out₄ = Keeps-trans out₂ out₃ out₄ k₃ s₃ (omega arith) in
    let s₁ : Keeps 8 out₁ out₄ = Keeps-trans out₁ out₂ out₄ k₂ s₂ (omega arith) in
    let f₁ = field_u64 out 0 event.sequence 8 out₄ s₁ (omega arith) (omega (arith, size)) (s.1) in
    let f₂ = field_u64 out₁ 8 event.order_id 16 out₄ s₂ (omega arith) (omega (arith, l₁)) (o.1) in
    let f₃ = field_u16 out₂ 16 event.error_code 18 out₄ s₃ (omega arith) (omega (arith, l₂)) (c) in
    let f₄ = are_clear-clear_bytes out₃ 18 6 (omega (arith, l₃)) in
    (
      out₄,
      rw (size, encode_order_rejected) refl,
      rw (l₄, f₁, f₂, f₃, f₄, decode_order_rejected) (ground (arith, s, o)),
    )

-- `decode_execution` reads back what `encode_execution` writes into 40 bytes.
pub roundtrip_execution :
    (event : ExecutionEvent) (out : List ℕ)
    → length out ≡ 40
    → IsWord (event.sequence)
    → IsWord (event.resting_order_id)
    → IsWord (event.incoming_order_id)
    → IsPrice (event.price)
    → IsWord (event.quantity)
    → (bytes : List ℕ) × (encode_execution event out ≡ some bytes)
      × (decode_execution bytes ≡ decoded event)
unfolding encode_execution decode_execution
roundtrip_execution event out size s r i p q =
    let out₁ : List ℕ = write_u64_le out 0 event.sequence in
    let out₂ : List ℕ = write_u64_le out₁ 8 event.resting_order_id in
    let out₃ : List ℕ = write_u64_le out₂ 16 event.incoming_order_id in
    let out₄ : List ℕ = write_i64_le out₃ 24 (pos event.price) in
    let out₅ : List ℕ = write_u64_le out₄ 32 event.quantity in
    let k₁ : Keeps 0 out out₁ = write_u64_le-Keeps out 0 event.sequence in
    let l₁ : length out₁ ≡ 40 = k₁.0 ∙ size in
    let k₂ : Keeps 8 out₁ out₂ = write_u64_le-Keeps out₁ 8 event.resting_order_id in
    let l₂ : length out₂ ≡ 40 = k₂.0 ∙ l₁ in
    let k₃ : Keeps 16 out₂ out₃ = write_u64_le-Keeps out₂ 16 event.incoming_order_id in
    let l₃ : length out₃ ≡ 40 = k₃.0 ∙ l₂ in
    let k₄ : Keeps 24 out₃ out₄ = write_i64_le-Keeps out₃ 24 event.price in
    let l₄ : length out₄ ≡ 40 = k₄.0 ∙ l₃ in
    let k₅ : Keeps 32 out₄ out₅ = write_u64_le-Keeps out₄ 32 event.quantity in
    let l₅ : length out₅ ≡ 40 = k₅.0 ∙ l₄ in
    let s₄ : Keeps 32 out₄ out₅ = k₅ in
    let s₃ : Keeps 24 out₃ out₅ = Keeps-trans out₃ out₄ out₅ k₄ s₄ (omega arith) in
    let s₂ : Keeps 16 out₂ out₅ = Keeps-trans out₂ out₃ out₅ k₃ s₃ (omega arith) in
    let s₁ : Keeps 8 out₁ out₅ = Keeps-trans out₁ out₂ out₅ k₂ s₂ (omega arith) in
    let f₁ = field_u64 out 0 event.sequence 8 out₅ s₁ (omega arith) (omega (arith, size)) (s.1) in
    let f₂ =
      field_u64 out₁ 8 event.resting_order_id 16 out₅ s₂ (omega arith) (omega (arith, l₁)) (r.1) in
    let f₃ =
      field_u64 out₂ 16 event.incoming_order_id 24 out₅ s₃ (omega arith) (omega (arith, l₂))
        (i.1) in
    let f₄ = field_i64 out₃ 24 event.price 32 out₅ s₄ (omega arith) (omega (arith, l₃)) (p.1) in
    let f₅ =
      field_u64 out₄ 32 event.quantity 40 out₅ (Keeps-self 40 out₅) (omega arith)
        (omega (arith, l₄)) (q.1) in
    (
      out₅,
      rw (size, encode_execution) refl,
      rw (l₅, f₁, f₂, f₃, f₄, f₅, decode_execution) (ground (arith, s, r, i, p, q)),
    )

-- `decode_cancel_accepted` reads back what `encode_cancel_accepted` writes into 24 bytes.
pub roundtrip_cancel_accepted :
    (event : CancelAcceptedEvent) (out : List ℕ)
    → length out ≡ 24
    → IsWord (event.sequence)
    → IsWord (event.order_id)
    → IsWord (event.cancelled_quantity)
    → (bytes : List ℕ) × (encode_cancel_accepted event out ≡ some bytes)
      × (decode_cancel_accepted bytes ≡ decoded event)
unfolding encode_cancel_accepted decode_cancel_accepted
roundtrip_cancel_accepted event out size s o q =
    let out₁ : List ℕ = write_u64_le out 0 event.sequence in
    let out₂ : List ℕ = write_u64_le out₁ 8 event.order_id in
    let out₃ : List ℕ = write_u64_le out₂ 16 event.cancelled_quantity in
    let k₁ : Keeps 0 out out₁ = write_u64_le-Keeps out 0 event.sequence in
    let l₁ : length out₁ ≡ 24 = k₁.0 ∙ size in
    let k₂ : Keeps 8 out₁ out₂ = write_u64_le-Keeps out₁ 8 event.order_id in
    let l₂ : length out₂ ≡ 24 = k₂.0 ∙ l₁ in
    let k₃ : Keeps 16 out₂ out₃ = write_u64_le-Keeps out₂ 16 event.cancelled_quantity in
    let l₃ : length out₃ ≡ 24 = k₃.0 ∙ l₂ in
    let s₂ : Keeps 16 out₂ out₃ = k₃ in
    let s₁ : Keeps 8 out₁ out₃ = Keeps-trans out₁ out₂ out₃ k₂ s₂ (omega arith) in
    let f₁ = field_u64 out 0 event.sequence 8 out₃ s₁ (omega arith) (omega (arith, size)) (s.1) in
    let f₂ = field_u64 out₁ 8 event.order_id 16 out₃ s₂ (omega arith) (omega (arith, l₁)) (o.1) in
    let f₃ =
      field_u64 out₂ 16 event.cancelled_quantity 24 out₃ (Keeps-self 24 out₃) (omega arith)
        (omega (arith, l₂)) (q.1) in
    (
      out₃,
      rw (size, encode_cancel_accepted) refl,
      rw (l₃, f₁, f₂, f₃, decode_cancel_accepted) (ground (arith, s, o, q)),
    )

-- `decode_protocol_error` reads back what `encode_protocol_error` writes into 8 bytes.
pub roundtrip_protocol_error :
    (event : ProtocolErrorEvent) (out : List ℕ)
    → length out ≡ 8
    → event.error_code < 2 ^ 16
    → (bytes : List ℕ) × (encode_protocol_error event out ≡ some bytes)
      × (decode_protocol_error bytes ≡ decoded event)
unfolding encode_protocol_error decode_protocol_error
roundtrip_protocol_error event out size c =
    let out₁ : List ℕ = write_u16_le out 0 event.error_code in
    let out₂ : List ℕ = set out₁ 2 event.offending_type in
    let out₃ : List ℕ = clear_bytes out₂ 3 5 in
    let k₁ : Keeps 0 out out₁ = write_u16_le-Keeps out 0 event.error_code in
    let l₁ : length out₁ ≡ 8 = k₁.0 ∙ size in
    let k₂ : Keeps 2 out₁ out₂ = set-Keeps out₁ 2 event.offending_type in
    let l₂ : length out₂ ≡ 8 = k₂.0 ∙ l₁ in
    let k₃ : Keeps 3 out₂ out₃ = clear_bytes-Keeps out₂ 3 5 in
    let l₃ : length out₃ ≡ 8 = k₃.0 ∙ l₂ in
    let s₂ : Keeps 3 out₂ out₃ = k₃ in
    let s₁ : Keeps 2 out₁ out₃ = Keeps-trans out₁ out₂ out₃ k₂ s₂ (omega arith) in
    let f₁ = field_u16 out 0 event.error_code 2 out₃ s₁ (omega arith) (omega (arith, size)) (c) in
    let f₂ = field_byte out₁ 2 event.offending_type 3 out₃ s₂ (omega arith) (omega (arith, l₁)) in
    let f₃ = are_clear-clear_bytes out₂ 3 5 (omega (arith, l₂)) in
    (out₃, rw (size, encode_protocol_error) refl, rw (l₃, f₁, f₂, f₃, decode_protocol_error) (refl))
