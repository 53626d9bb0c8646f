-- ===== src/Protocol/Bytes/Fields.antt =====
-- The fields of a payload, written at growing offsets: each is read back from the finished span.
use low_latency_exchange.Prelude.{
  ℕ, ◌+◌, ◌^◌, ◌≤◌, ◌<◌, List, ◌≡◌, refl, ◌∙◌, ap, arith, length, get_or, set, get_or-set_self,
  u64_mod, pos,
}
use low_latency_exchange.Protocol.Bytes.{
  read_u16_le, write_u16_le, read_u64_le, write_u64_le, read_i64_le, write_i64_le, to_i64,
}
use low_latency_exchange.Protocol.Bytes.Laws.{
  Keeps, write_u64_le-Keeps, read_u64_le-Keeps, read-write_u64_le, read_u16_le-Keeps,
  read-write_u16_le,
}

pub Keeps-self : (p : ℕ) (a : List ℕ) → Keeps p a a
Keeps-self p a = (refl, λ j lt. refl)

pub write_i64_le-Keeps :
    (out : List ℕ) (offset v : ℕ) → Keeps offset out (write_i64_le out offset (pos v))
unfolding write_i64_le
write_i64_le-Keeps out offset v = write_u64_le-Keeps out offset v

module _ (out : List ℕ) (offset v p : ℕ) (last : List ℕ) where
  pub field_u64 :
      Keeps p (write_u64_le out offset v) last
      → offset + 8 ≤ p
      → offset + 8 ≤ length out
      → v < u64_mod
      → read_u64_le last offset ≡ v
  field_u64 k h g w =
      read_u64_le-Keeps (write_u64_le out offset v) last offset p k h
      ∙ read-write_u64_le out offset v g w

  pub field_i64 :
      Keeps p (write_i64_le out offset (pos v)) last
      → offset + 8 ≤ p
      → offset + 8 ≤ length out
      → v < 2 ^ 63
      → read_i64_le last offset ≡ pos v
  unfolding read_i64_le write_i64_le
  field_i64 k h g w = ap to_i64 (field_u64 k h g (omega arith)) ∙ ground (arith, w)

  pub field_u16 :
      Keeps p (write_u16_le out offset v) last
      → offset + 2 ≤ p
      → offset + 2 ≤ length out
      → v < 2 ^ 16
      → read_u16_le last offset ≡ v
  field_u16 k h g w =
      read_u16_le-Keeps (write_u16_le out offset v) last offset p k h
      ∙ read-write_u16_le out offset v g w

  pub field_byte :
      Keeps p (set out offset v) last → offset < p → offset < length out → get_or last offset 0 ≡ v
  field_byte k h g = k.1 offset h ∙ get_or-set_self out offset v 0 g
