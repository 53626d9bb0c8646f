-- ===== src/Protocol/HeaderTrip.antt =====
-- The header and the frame: what is written is read back, and what is accepted.
use low_latency_exchange.Prelude.{
  ℕ, ◌+◌, ◌^◌, ◌≤◌, ◌<◌, List, some, none, ◌≡◌, refl, ◌∙◌, arith, length, set, get_or,
  get_or-append_left, length-append, length-take, length-drop, take, drop, ◌++◌, ◌↔◌, Option-cases,
  inl, inr, ◌%◌, ltb, true, false, ap,
}
use low_latency_exchange.Protocol.Codes.{
  WireHeader, expected_payload_length, flags_reserved_bits_clear,
}
use low_latency_exchange.Protocol.Bytes.{write_u16_le}
use low_latency_exchange.Protocol.Bytes.Laws.{Keeps, Keeps-trans, set-Keeps, write_u16_le-Keeps}
use low_latency_exchange.Protocol.Bytes.Fields.{Keeps-self, field_u16, field_byte}
use low_latency_exchange.Protocol.Bytes.{read_u16_le, write_from}
use low_latency_exchange.Protocol.Bytes.Laws.{
  length-write_from, get_or-write_from, get_or-write_from_before,
}
use low_latency_exchange.Protocol.MessageTypes.{MessageType}
use low_latency_exchange.Protocol.Header.{
  validate_header, encode_header, decode_header, encode_frame, magic_number, protocol_version,
}

-- The fields fit their widths on the wire.
abbrev pub IsNarrow : WireHeader → Type 0
IsNarrow h = (h.magic < 2 ^ 16) × (h.flags < 2 ^ 16) × (h.payload_length < 2 ^ 16)

-- The first eight bytes of a span decide the header.
decode_header-prefix :
    (a b : List ℕ)
    → 8 ≤ length a
    → 8 ≤ length b
    → ((j : ℕ) → j < 8 → get_or b j 0 ≡ get_or a j 0)
    → decode_header b ≡ decode_header a
unfolding decode_header read_u16_le
decode_header-prefix a b la lb h =
    rw
      (
        h 0 (omega arith),
        h 1 (omega arith),
        h 2 (omega arith),
        h 3 (omega arith),
        h 4 (omega arith),
        h 5 (omega arith),
        h 6 (omega arith),
        h 7 (omega arith),
      )
      (ground (arith, la, lb))

-- `decode_header` reads back what `encode_header` writes into 8 bytes, of a header whose 16-bit fields
-- are in range.
pub roundtrip_header :
    (header : WireHeader) (out : List ℕ)
    → length out ≡ 8
    → IsNarrow header
    → (bytes : List ℕ) × (length bytes ≡ 8)
      × (encode_header header out ≡ some bytes)
      × (decode_header bytes ≡ some header)
unfolding encode_header decode_header
roundtrip_header header out size n =
    let out₁ : List ℕ = write_u16_le out 0 header.magic in
    let out₂ : List ℕ = set out₁ 2 header.version in
    let out₃ : List ℕ = set out₂ 3 header.type in
    let out₄ : List ℕ = write_u16_le out₃ 4 header.flags in
    let out₅ : List ℕ = write_u16_le out₄ 6 header.payload_length in
    let k₁ : Keeps 0 out out₁ = write_u16_le-Keeps out 0 header.magic in
    let l₁ : length out₁ ≡ 8 = k₁.0 ∙ size in
    let k₂ : Keeps 2 out₁ out₂ = set-Keeps out₁ 2 header.version in
    let l₂ : length out₂ ≡ 8 = k₂.0 ∙ l₁ in
    let k₃ : Keeps 3 out₂ out₃ = set-Keeps out₂ 3 header.type in
    let l₃ : length out₃ ≡ 8 = k₃.0 ∙ l₂ in
    let k₄ : Keeps 4 out₃ out₄ = write_u16_le-Keeps out₃ 4 header.flags in
    let l₄ : length out₄ ≡ 8 = k₄.0 ∙ l₃ in
    let k₅ : Keeps 6 out₄ out₅ = write_u16_le-Keeps out₄ 6 header.payload_length in
    let l₅ : length out₅ ≡ 8 = k₅.0 ∙ l₄ in
    let s₄ : Keeps 6 out₄ out₅ = k₅ in
    let s₃ : Keeps 4 out₃ out₅ = Keeps-trans out₃ out₄ out₅ k₄ s₄ (omega arith) in
    let s₂ : Keeps 3 out₂ out₅ = Keeps-trans out₂ out₃ out₅ k₃ s₃ (omega arith) in
    let s₁ : Keeps 2 out₁ out₅ = Keeps-trans out₁ out₂ out₅ k₂ s₂ (omega arith) in
    let f₁ = field_u16 out 0 header.magic 2 out₅ s₁ (omega arith) (omega (arith, size)) (n.0) in
    let f₂ = field_byte out₁ 2 header.version 3 out₅ s₂ (omega arith) (omega (arith, l₁)) in
    let f₃ = field_byte out₂ 3 header.type 4 out₅ s₃ (omega arith) (omega (arith, l₂)) in
    let f₄ = field_u16 out₃ 4 header.flags 6 out₅ s₄ (omega arith) (omega (arith, l₃)) (n.1) in
    let f₅ =
      field_u16 out₄ 6 header.payload_length 14 out₅ (Keeps-self 14 out₅) (omega arith)
        (omega (arith, l₄)) (n.2) in
    (out₅, l₅, rw (size, encode_header) refl, rw (l₅, f₁, f₂, f₃, f₄, f₅, decode_header) (refl))

expected_payload_length_bound : (t n : ℕ) → expected_payload_length t ≡ some n → n ≤ 40
expected_payload_length_bound t n e = ground (arith, e)

-- `validate_header` accepts exactly the headers of the protocol: the magic number, version 1, no reserved
-- flag, a known type, and the payload length of that type.
pub validate_header_accepts :
    (h : WireHeader)
    → (validate_header h ≡ none) ↔ (
        (h.magic ≡ magic_number)
        × (h.version ≡ protocol_version)
        × (flags_reserved_bits_clear h.flags ≡ true)
        × (expected_payload_length h.type ≡ some h.payload_length))
unfolding validate_header
validate_header_accepts h = elim (Option-cases (expected_payload_length h.type)) [
  | inl e ↦ ((λ ok. absurd (ground (arith, e, ok))), (λ fit. absurd (ground (arith, e, fit))))
  | inr (n, e) ↦
      let small = expected_payload_length_bound h.type n e in
      ((λ ok. ground (arith, e, ok)), (λ fit. ground (arith, e, fit, small)))
]

abbrev pub frame_header : MessageType → ℕ → ℕ → WireHeader
frame_header type flags size = record {
  magic = magic_number;
  version = protocol_version;
  type = type;
  flags = flags;
  payload_length = size;
}

-- A frame that `encode_frame` has written starts with a header that says its type, its flags and the
-- size of its payload, and the payload follows. `out` must be long enough.
pub encode_frame_lem :
    (type : MessageType) (payload out : List ℕ) (flags : ℕ)
    → 8 + length payload ≤ length out
    → length payload < 2 ^ 16
    → flags < 2 ^ 16
    → (bytes : List ℕ) × (encode_frame type payload out flags ≡ some bytes)
      × (length bytes ≡ length out)
      × (decode_header bytes ≡ some (frame_header type flags (length payload)))
      × ((i : ℕ) → i < length payload → get_or bytes (8 + i) 0 ≡ get_or payload i 0)
unfolding encode_frame
encode_frame_lem type payload out flags room small narrow =
    let header : WireHeader = frame_header type flags (length payload % 2 ^ 16) in
    let (head, size, e, back) =
      roundtrip_header header (take 8 out) (length-take 8 out (omega arith))
        (omega arith, narrow, omega arith) in
    let whole : List ℕ = head ++ drop 8 out in
    let bytes : List ℕ = write_from (length payload) 0 (λ i. get_or payload i 0) whole 8 in
    let len : length whole ≡ length out =
      length-append head (drop 8 out) ∙ omega (arith, size, length-drop 8 out (omega arith)) in
    let len' : length bytes ≡ length whole =
      length-write_from (length payload) 0 (λ i. get_or payload i 0) whole 8 in
    let fits : ltb (length out) (8 + length payload) ≡ false = ground (arith, room) in
    (
      bytes,
      rw (e, fits, encode_frame) refl,
      len' ∙ len,
      decode_header-prefix head bytes (omega arith) (omega arith) (λ j lt.
            get_or-write_from_before (length payload) 0 (λ i. get_or payload i 0) whole 8 j
              (omega arith)
            ∙ get_or-append_left head (drop 8 out) j 0 (omega arith))
          ∙ back
          ∙ ap (λ (n : ℕ). some (frame_header type flags n)) {y = length payload} (omega arith),
      λ i lt.
          get_or-write_from (length payload) 0 (λ k. get_or payload k 0) whole 8 i (omega arith)
            (omega arith) (omega (arith, len, room)),
    )
