-- ===== src/Protocol/Bytes.antt =====
-- src/protocol.cpp: the reads and writes of little-endian integers in a span of bytes. Each caller
-- checks the size of the span first; a read behind its end, which C++ leaves undefined, gives 0 here
-- and a write there nothing.
pub mod Laws
pub mod Fields
use low_latency_exchange.Prelude.{
  ℕ, zero, suc, ◌+◌, ◌-◌, ◌*◌, ◌/◌, ◌%◌, ◌^◌, Bool, true, false, List, ltb, ◌==◌, ◌&&◌,
  if◌then◌else◌, get_or, set, ℤ, pos, negsuc, u64_mod,
}
use Prim.Native.Nat.{bit_and, bit_or}

-- `value & 0xFF`
unfoldable pub low_byte : ℕ → ℕ
low_byte value = bit_and value 255

unfoldable pub read_u16_le : List ℕ → ℕ → ℕ
read_u16_le bytes offset =
    bit_or (get_or bytes offset 0) ((get_or bytes (offset + 1) 0 * 2 ^ 8) % 2 ^ 16) % 2 ^ 16

unfoldable pub write_u16_le : List ℕ → ℕ → ℕ → List ℕ
unfolding low_byte
write_u16_le out offset value =
    set (set out offset (low_byte value)) (offset + 1) (low_byte (value / 2 ^ 8))

-- `val |= in[offset + i] << (i * 8)` in an integer of `width` bits, for `i` from a number on and for a
-- number of rounds.
unfoldable pub read_from : ℕ → ℕ → ℕ → List ℕ → ℕ → ℕ → ℕ
read_from width zero i bytes offset val = val
read_from width (suc rounds) i bytes offset val =
    read_from width rounds (suc i) bytes offset
      (bit_or val ((get_or bytes (offset + i) 0 * 2 ^ (i * 8)) % 2 ^ width))

unfoldable pub read_u64_le : List ℕ → ℕ → ℕ
unfolding read_from
read_u64_le bytes offset = read_from 64 8 0 bytes offset 0

-- The casts between `std::uint64_t` and `std::int64_t`.
abbrev pub to_i64 : ℕ → ℤ
to_i64 v = if ltb v (2 ^ 63) then pos v else negsuc (u64_mod - 1 - v)

abbrev pub to_u64 : ℤ → ℕ
to_u64 (pos n) = n
to_u64 (negsuc n) = u64_mod - 1 - n

unfoldable pub read_i64_le : List ℕ → ℕ → ℤ
unfolding read_u64_le
read_i64_le bytes offset = to_i64 (read_u64_le bytes offset)

-- `out[offset + i] = byte(i)`, for `i` from a number on and for a number of rounds.
unfoldable pub write_from : ℕ → ℕ → (ℕ → ℕ) → List ℕ → ℕ → List ℕ
write_from zero i byte out offset = out
write_from (suc rounds) i byte out offset =
    write_from rounds (suc i) byte (set out (offset + i) (byte i)) offset

unfoldable pub write_u64_le : List ℕ → ℕ → ℕ → List ℕ
unfolding low_byte write_from
write_u64_le out offset value = write_from 8 0 (λ i. low_byte (value / 2 ^ (i * 8))) out offset

unfoldable pub write_i64_le : List ℕ → ℕ → ℤ → List ℕ
unfolding write_u64_le
write_i64_le out offset value = write_u64_le out offset (to_u64 value)

-- The loops over the reserved bytes.
unfoldable pub clear_bytes : List ℕ → ℕ → ℕ → List ℕ
unfolding write_from
clear_bytes out offset size = write_from size 0 (λ _. 0) out offset

unfoldable pub are_clear : ℕ → ℕ → List ℕ → ℕ → Bool
are_clear zero i bytes offset = true
are_clear (suc rounds) i bytes offset =
    get_or bytes (offset + i) 0 == 0 && are_clear rounds (suc i) bytes offset
