-- ===== src/EventLog/Words.antt =====
-- src/event_log.cpp: `read_u32_le` and `write_u32_le`. Its other reads and writes of integers are
-- those of src/protocol.cpp.
use low_latency_exchange.Prelude.{
  ℕ, ◌+◌, ◌*◌, ◌/◌, ◌%◌, ◌^◌, ◌≤◌, ◌<◌, List, ◌≡◌, ◌∙◌, ap, arith, length,
}
use native.Mathlib.Nat.{mod-eq_of_lt}
use low_latency_exchange.Protocol.Bytes.{low_byte, read_from, write_from}
use low_latency_exchange.Protocol.Bytes.Laws.{
  low_byte_lem, Keeps, read_from-value, read_from-Keeps, get_or-write_from, write_from-Keeps,
}

unfoldable pub read_u32_le : List ℕ → ℕ → ℕ
read_u32_le bytes offset = read_from 32 4 0 bytes offset 0

unfoldable pub write_u32_le : List ℕ → ℕ → ℕ → List ℕ
write_u32_le out offset value = write_from 4 0 (λ i. low_byte (value / 2 ^ (i * 8))) out offset

pub write_u32_le-Keeps :
    (out : List ℕ) (offset v : ℕ) → Keeps (offset + 0) out (write_u32_le out offset v)
unfolding write_u32_le
write_u32_le-Keeps out offset v = write_from-Keeps 4 0 (λ i. low_byte (v / 2 ^ (i * 8))) out offset

-- A 32-bit field that stands in front of everything that is written later is read back.
pub field_u32 :
    (out : List ℕ) (offset v p : ℕ) (last : List ℕ)
    → Keeps p (write_u32_le out offset v) last
    → offset + 4 ≤ p
    → offset + 4 ≤ length out
    → v < 2 ^ 32
    → read_u32_le last offset ≡ v
unfolding read_u32_le write_u32_le
field_u32 out offset v p last k h g w =
    let bytes : List ℕ = write_from 4 0 (λ i. low_byte (v / 2 ^ (i * 8))) out offset in
    read_from-Keeps 32 4 0 bytes last offset 0 p k (omega arith)
    ∙ ap (λ (t : ℕ). read_from 32 4 0 bytes offset t) {y = v % 2 ^ (0 * 8)} (omega arith)
    ∙ read_from-value 32 4 4 0 bytes offset v (omega arith) (omega arith) (λ j lt.
      get_or-write_from 4 0 (λ i. low_byte (v / 2 ^ (i * 8))) out offset j (omega arith)
        (omega arith) (omega arith)
      ∙ low_byte_lem (v / 2 ^ (j * 8)))
    ∙ mod-eq_of_lt w
