-- ===== src/EventLog/Record.antt =====
-- What `append` writes of a command, `read_record` reads back, whatever follows it.
use low_latency_exchange.Prelude.{
  ℕ, ◌*◌, ◌<◌, ◌≤◌, ◌^◌, ◌%◌, true, false, List, [], ◌∷◌, some, ◌++◌, ◌≡◌, refl, ◌∙◌, ap, arith,
  length, get_or, set, replicate, take-append, drop-append, u64_mod, append_assoc,
}
use Prim.Native.Nat.{bit_xor}
use native.Mathlib.Nat.{mod-lt, mod-eq_of_lt}
use low_latency_exchange.Protocol.MessageTypes.{MessageType}
use low_latency_exchange.Protocol.Codes.{expected_payload_length, is_inbound}
use low_latency_exchange.Protocol.Bytes.{read_u16_le, write_u16_le, read_u64_le, write_u64_le}
use low_latency_exchange.Protocol.Bytes.Laws.{
  Keeps, Keeps-trans, set-Keeps, write_u16_le-Keeps, write_u64_le-Keeps,
}
use low_latency_exchange.Protocol.Bytes.Fields.{Keeps-self, field_u16, field_u64, field_byte}
use low_latency_exchange.EventLog.Types.{CapturedCommand, record_of}
use low_latency_exchange.EventLog.Words.{read_u32_le, write_u32_le, write_u32_le-Keeps, field_u32}
use low_latency_exchange.EventLog.Format.{
  record_magic, record_version, mix, mix_all, checksum, record_header, is_malformed, read_payload,
  read_record,
}
use low_latency_exchange.EventLog.Payload.{IsPayload}

mix-fits : (hash value : ℕ) → mix hash value < u64_mod
unfolding mix
mix-fits hash value = mod-lt (bit_xor hash value * 1099511628211) (omega arith)

mix_all-fits : (hash : ℕ) (bytes : List ℕ) → hash < u64_mod → mix_all hash bytes < u64_mod
unfolding mix_all
mix_all-fits hash [] h = h
mix_all-fits hash (byte ∷ bytes) h = mix_all-fits (mix hash byte) bytes (mix-fits hash byte)

checksum-fits : (type : MessageType) (payload : List ℕ) → checksum type payload < u64_mod
unfolding checksum
checksum-fits type payload = mix_all-fits _ payload (mix-fits _ _)

-- The fields of a header.
abbrev pub HasFields : List ℕ → MessageType → List ℕ → Type 0
HasFields header type payload =
    (length header ≡ 16)
    × (read_u32_le header 0 ≡ record_magic)
    × (get_or header 4 0 ≡ record_version)
    × (get_or header 5 0 ≡ type)
    × (read_u16_le header 6 ≡ length payload % 2 ^ 16)
    × (read_u64_le header 8 ≡ checksum type payload)

pub record_header_lem :
    (type : MessageType) (payload : List ℕ) → HasFields (record_header type payload) type payload
unfolding record_header
record_header_lem type payload =
    let out : List ℕ = replicate 16 0 in
    let size = length payload % 2 ^ 16 in
    let out₁ : List ℕ = write_u32_le out 0 record_magic in
    let out₂ : List ℕ = set out₁ 4 record_version in
    let out₃ : List ℕ = set out₂ 5 type in
    let out₄ : List ℕ = write_u16_le out₃ 6 size in
    let out₅ : List ℕ = write_u64_le out₄ 8 (checksum type payload) in
    let k₁ : Keeps 0 out out₁ = write_u32_le-Keeps out 0 record_magic in
    let l₁ : length out₁ ≡ 16 = k₁.0 in
    let k₂ : Keeps 4 out₁ out₂ = set-Keeps out₁ 4 record_version in
    let l₂ : length out₂ ≡ 16 = k₂.0 ∙ l₁ in
    let k₃ : Keeps 5 out₂ out₃ = set-Keeps out₂ 5 type in
    let l₃ : length out₃ ≡ 16 = k₃.0 ∙ l₂ in
    let k₄ : Keeps 6 out₃ out₄ = write_u16_le-Keeps out₃ 6 size in
    let l₄ : length out₄ ≡ 16 = k₄.0 ∙ l₃ in
    let s₄ : Keeps 8 out₄ out₅ = write_u64_le-Keeps out₄ 8 (checksum type payload) in
    let s₃ : Keeps 6 out₃ out₅ = Keeps-trans out₃ out₄ out₅ k₄ s₄ (omega arith) in
    let s₂ : Keeps 5 out₂ out₅ = Keeps-trans out₂ out₃ out₅ k₃ s₃ (omega arith) in
    let s₁ : Keeps 4 out₁ out₅ = Keeps-trans out₁ out₂ out₅ k₂ s₂ (omega arith) in
    (
      s₄.0 ∙ l₄,
      field_u32 out 0 record_magic 4 out₅ s₁ (omega arith) (omega arith) (omega arith),
      field_byte out₁ 4 record_version 5 out₅ s₂ (omega arith) (omega (arith, l₁)),
      field_byte out₂ 5 type 6 out₅ s₃ (omega arith) (omega (arith, l₂)),
      field_u16 out₃ 6 size 8 out₅ s₄ (omega arith) (omega (arith, l₃)) (omega arith),
      field_u64 out₄ 8 (checksum type payload) 16 out₅ (Keeps-self 16 out₅) (omega arith)
          (omega (arith, l₄)) (checksum-fits type payload),
    )

-- The bytes of a record.
abbrev pub record_bytes : MessageType → List ℕ → List ℕ
record_bytes type payload = record_header type payload ++ payload

read_payload_lem :
    (command : CapturedCommand) (type : MessageType) (payload rest : List ℕ)
    → IsPayload command type payload
    → read_payload type (length payload) (checksum type payload) (payload ++ rest)
      ≡ (record_of command, rest)
unfolding read_payload
read_payload_lem command type payload rest ok =
    rw
      (
        take-append payload rest (length payload) refl,
        drop-append payload rest (length payload) refl,
        ok.4,
      )
      (ground arith)

is_malformed_lem :
    (type : MessageType) (n : ℕ)
    → is_inbound type ≡ true
    → expected_payload_length type ≡ some n
    → n ≤ 40
    → is_malformed record_magic record_version type n ≡ false
unfolding is_malformed
is_malformed_lem type n inbound expected small = rw (inbound, expected) (ground (arith, small))

-- A header is accepted, and the payload is read next.
pub read_header-append :
    (command : CapturedCommand) (type : MessageType) (payload rest : List ℕ)
    → IsPayload command type payload
    → read_record (record_header type payload ++ rest)
      ≡ read_payload type (length payload) (checksum type payload) rest
unfolding read_record
read_header-append command type payload rest ok =
    let header : List ℕ = record_header type payload in
    let f = record_header_lem type payload in
    let e : length payload % 2 ^ 16 ≡ length payload = mod-eq_of_lt (omega (arith, ok.3)) in
    rw
      (
        take-append header rest 16 (f.0),
        drop-append header rest 16 (f.0),
        f.0,
        f.1,
        f.2,
        f.3,
        f.4,
        f.5,
        e,
        is_malformed_lem type (length payload) (ok.1) (ok.2) (ok.3),
      )
      refl

-- The record of a payload is read back as its command, and what follows it is left.
pub read_record-append :
    (command : CapturedCommand) (type : MessageType) (payload rest : List ℕ)
    → IsPayload command type payload
    → read_record (record_bytes type payload ++ rest) ≡ (record_of command, rest)
read_record-append command type payload rest ok =
    ap read_record (append_assoc (record_header type payload) payload rest)
    ∙ read_header-append command type payload (payload ++ rest) ok
    ∙ read_payload_lem command type payload rest ok
