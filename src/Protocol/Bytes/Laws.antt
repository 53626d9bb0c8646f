-- ===== src/Protocol/Bytes/Laws.antt =====
-- What is written to a span is read back, and a write leaves the bytes in front of it alone.
use low_latency_exchange.Prelude.{
  ℕ, zero, suc, ◌+◌, ◌*◌, ◌/◌, ◌%◌, ◌^◌, ◌≤◌, ◌<◌, true, List, ◌≡◌, refl, ◌∙◌, ap, sym, arith,
  length, get_or, set, length-set, get_or-set_self, get_or-set_ne, u64_mod, ◌==◌, Bool-cases, inl,
  inr,
}
use Prim.Native.Nat.{bit_or}
use native.Mathlib.Nat.{div-add-mod, div-div-eq-div-mul, mod-lt, mod-eq_of_lt, pow-le-pow_right}
use low_latency_exchange.Prelude.Bits.{pow-add, one-le-two_pow, bit_and-mask, bit_or-shift}
use low_latency_exchange.Protocol.Bytes.{
  low_byte, read_u16_le, write_u16_le, read_from, read_u64_le, write_from, write_u64_le,
  clear_bytes, are_clear,
}

pub low_byte_lem : (v : ℕ) → low_byte v ≡ v % 256
unfolding low_byte
low_byte_lem v = bit_and-mask 8 v

parts_of : (v m n a q d r s : ℕ) → v ≡ m * a + r → a ≡ n * q + d → v ≡ m * n * q + s → r + d * m ≡ s
parts_of v m n a q d r s e f g = omega (arith, e, g, ap (λ (t : ℕ). m * t) f)

-- The low digits and the next one.
mod_split : (v m n : ℕ) → v % m + v / m % n * m ≡ v % (m * n)
mod_split v m n =
    parts_of v m n (v / m) (v / m / n) (v / m % n) (v % m) (v % (m * n)) (sym (div-add-mod v m))
      (sym (div-add-mod (v / m) n))
      (sym (div-add-mod v (m * n))
        ∙ ap (λ (t : ℕ). m * n * t + v % (m * n)) (sym (div-div-eq-div-mul v m n)))

-- The span `b` has the bytes of `a` before `p`, and its size.
abbrev pub Keeps : ℕ → List ℕ → List ℕ → Type 0
Keeps p a b = (length b ≡ length a) × ((j : ℕ) → j < p → get_or b j 0 ≡ get_or a j 0)

pub Keeps-trans : {p q : ℕ} (a b c : List ℕ) → Keeps p a b → Keeps q b c → p ≤ q → Keeps p a c
Keeps-trans a b c h g le = (g.0 ∙ h.0, λ j lt. g.1 j (omega arith) ∙ h.1 j lt)

pub set-Keeps : (a : List ℕ) (p v : ℕ) → Keeps p a (set a p v)
set-Keeps a p v = (length-set a p v, λ j lt. get_or-set_ne a v 0 (λ e. omega arith))

pub get_or-write_from_before :
    (n i : ℕ) (byte : ℕ → ℕ) (out : List ℕ) (offset j : ℕ)
    → j < offset + i
    → get_or (write_from n i byte out offset) j 0 ≡ get_or out j 0
unfolding write_from
get_or-write_from_before zero i byte out offset j h = refl
get_or-write_from_before (suc n) i byte out offset j h =
    get_or-write_from_before n (suc i) byte (set out (offset + i) (byte i)) offset j (omega arith)
    ∙ get_or-set_ne out (byte i) 0 (λ e. omega arith)

pub length-write_from :
    (n i : ℕ) (byte : ℕ → ℕ) (out : List ℕ) (offset : ℕ)
    → length (write_from n i byte out offset) ≡ length out
unfolding write_from
length-write_from zero i byte out offset = refl
length-write_from (suc n) i byte out offset =
    length-write_from n (suc i) byte (set out (offset + i) (byte i)) offset
    ∙ length-set out (offset + i) (byte i)

pub get_or-write_from :
    (n i : ℕ) (byte : ℕ → ℕ) (out : List ℕ) (offset j : ℕ)
    → i ≤ j
    → j < i + n
    → offset + i + n ≤ length out
    → get_or (write_from n i byte out offset) (offset + j) 0 ≡ byte j
unfolding write_from
get_or-write_from zero i byte out offset j h g f = absurd (omega arith)
get_or-write_from (suc n) i byte out offset j h g f = elim (Bool-cases (i == j)) [
  | inl e ↦
      get_or-write_from_before n (suc i) byte (set out (offset + i) (byte i)) offset (offset + j)
        (ground arith)
      ∙ ap (λ (t : ℕ). get_or (set out (offset + i) (byte i)) (offset + t) 0) (ground arith)
      ∙ get_or-set_self out (offset + i) (byte i) 0 (omega arith)
      ∙ ap byte (ground arith)
  | inr e ↦
      get_or-write_from n (suc i) byte (set out (offset + i) (byte i)) offset j (ground arith)
        (omega arith) (omega (arith, f, length-set out (offset + i) (byte i)))
]

pub write_from-Keeps :
    (n i : ℕ) (byte : ℕ → ℕ) (out : List ℕ) (offset : ℕ)
    → Keeps (offset + i) out (write_from n i byte out offset)
write_from-Keeps n i byte out offset = (
  length-write_from n i byte out offset,
  λ j lt. get_or-write_from_before n i byte out offset j lt,
)

pub write_u64_le-Keeps :
    (out : List ℕ) (offset v : ℕ) → Keeps offset out (write_u64_le out offset v)
unfolding write_u64_le
write_u64_le-Keeps out offset v =
    let byte : ℕ → ℕ = λ i. low_byte (v / 2 ^ (i * 8)) in
    (
      length-write_from 8 0 byte out offset,
      λ j lt. get_or-write_from_before 8 0 byte out offset j (omega arith),
    )

power_step : (i : ℕ) → 2 ^ (suc i * 8) ≡ 2 ^ (i * 8) * 256
power_step i = ap (λ (t : ℕ). 2 ^ t) {y = i * 8 + 8} (omega arith) ∙ pow-add (i * 8) 8

next_byte :
    (width i v b : ℕ)
    → suc i * 8 ≤ width
    → b ≡ v / 2 ^ (i * 8) % 256
    → bit_or (v % 2 ^ (i * 8)) ((b * 2 ^ (i * 8)) % 2 ^ width) ≡ v % 2 ^ (suc i * 8)
next_byte width i v b le e =
    let m : ℕ = 2 ^ (i * 8) in
    let pos : 1 ≤ m = one-le-two_pow (i * 8) in
    let whole : v % m + b * m ≡ v % (m * 256) =
      ap (λ (t : ℕ). v % m + t * m) e ∙ mod_split v m 256 in
    let fits : 2 ^ (suc i * 8) ≤ 2 ^ width =
      pow-le-pow_right (omega arith) {i = suc i * 8} {j = width} le in
    let below : v % (m * 256) < m * 256 = mod-lt v (omega arith) in
    ap (λ (t : ℕ). bit_or (v % m) t) (mod-eq_of_lt (omega (arith, power_step i)))
    ∙ bit_or-shift (i * 8) (v % m) b (mod-lt v (omega arith))
    ∙ whole
    ∙ ap (λ (t : ℕ). v % t) (sym (power_step i))

-- Bytes that are those of a number give the number.
pub read_from-value :
    (width k n i : ℕ) (bytes : List ℕ) (offset v : ℕ)
    → k * 8 ≤ width
    → i + n ≡ k
    → ((j : ℕ) → j < k → get_or bytes (offset + j) 0 ≡ v / 2 ^ (j * 8) % 256)
    → read_from width n i bytes offset (v % 2 ^ (i * 8)) ≡ v % 2 ^ (k * 8)
unfolding read_from
read_from-value width k zero i bytes offset v le e h =
    ap (λ (t : ℕ). v % 2 ^ (t * 8)) {y = k} (omega arith)
read_from-value width k (suc n) i bytes offset v le e h =
    ap (λ (t : ℕ). read_from width n (suc i) bytes offset t)
      (next_byte width i v (get_or bytes (offset + i) 0) (omega arith) (h i (omega arith)))
    ∙ read_from-value width k n (suc i) bytes offset v le (omega arith) h

read_u64_le_lem :
    (bytes : List ℕ) (offset v : ℕ)
    → v < u64_mod
    → ((j : ℕ) → j < 8 → get_or bytes (offset + j) 0 ≡ v / 2 ^ (j * 8) % 256)
    → read_u64_le bytes offset ≡ v
unfolding read_u64_le
read_u64_le_lem bytes offset v w h =
    ap (λ (t : ℕ). read_from 64 8 0 bytes offset t) {y = v % 2 ^ (0 * 8)} (omega arith)
    ∙ read_from-value 64 8 8 0 bytes offset v (omega arith) (omega arith) h
    ∙ mod-eq_of_lt w

byte_of_write_u64_le :
    (out : List ℕ) (offset v j : ℕ)
    → j < 8
    → offset + 8 ≤ length out
    → get_or (write_u64_le out offset v) (offset + j) 0 ≡ low_byte (v / 2 ^ (j * 8))
unfolding write_u64_le
byte_of_write_u64_le out offset v j lt h =
    get_or-write_from 8 0 (λ i. low_byte (v / 2 ^ (i * 8))) out offset j (omega arith) (omega arith)
      (omega arith)

pub read-write_u64_le :
    (out : List ℕ) (offset v : ℕ)
    → offset + 8 ≤ length out
    → v < u64_mod
    → read_u64_le (write_u64_le out offset v) offset ≡ v
read-write_u64_le out offset v h w =
    read_u64_le_lem (write_u64_le out offset v) offset v w
      (λ j lt. byte_of_write_u64_le out offset v j lt h ∙ low_byte_lem (v / 2 ^ (j * 8)))

-- A read of bytes that are kept.
pub read_from-Keeps :
    (width n i : ℕ) (a b : List ℕ) (offset val p : ℕ)
    → Keeps p a b
    → offset + i + n ≤ p
    → read_from width n i b offset val ≡ read_from width n i a offset val
unfolding read_from
read_from-Keeps width zero i a b offset val p k h = refl
read_from-Keeps width (suc n) i a b offset val p k h =
    rw (k.1 (offset + i) (omega arith))
      (read_from-Keeps width n (suc i) a b offset _ p k (omega arith))

pub read_u64_le-Keeps :
    (a b : List ℕ) (offset p : ℕ)
    → Keeps p a b
    → offset + 8 ≤ p
    → read_u64_le b offset ≡ read_u64_le a offset
unfolding read_u64_le
read_u64_le-Keeps a b offset p k h = read_from-Keeps 64 8 0 a b offset 0 p k (omega arith)

pub write_u16_le-Keeps :
    (out : List ℕ) (offset v : ℕ) → Keeps offset out (write_u16_le out offset v)
unfolding write_u16_le
write_u16_le-Keeps out offset v =
    let out₁ : List ℕ = set out offset (low_byte v) in
    let out₂ : List ℕ = set out₁ (offset + 1) (low_byte (v / 2 ^ 8)) in
    Keeps-trans out out₁ out₂ (set-Keeps out offset (low_byte v))
      (set-Keeps out₁ (offset + 1) (low_byte (v / 2 ^ 8))) (omega arith)

pub read_u16_le-Keeps :
    (a b : List ℕ) (offset p : ℕ)
    → Keeps p a b
    → offset + 2 ≤ p
    → read_u16_le b offset ≡ read_u16_le a offset
unfolding read_u16_le
read_u16_le-Keeps a b offset p k h =
    rw (k.1 offset (omega arith), k.1 (offset + 1) (omega arith)) refl

pub read-write_u16_le :
    (out : List ℕ) (offset v : ℕ)
    → offset + 2 ≤ length out
    → v < 2 ^ 16
    → read_u16_le (write_u16_le out offset v) offset ≡ v
unfolding read_u16_le write_u16_le
read-write_u16_le out offset v h w =
    let out₁ : List ℕ = set out offset (low_byte v) in
    let out₂ : List ℕ = set out₁ (offset + 1) (low_byte (v / 2 ^ 8)) in
    let low : get_or out₂ offset 0 ≡ v % 256 =
      get_or-set_ne out₁ (low_byte (v / 2 ^ 8)) 0 (λ e. omega arith)
      ∙ get_or-set_self out offset (low_byte v) 0 (omega arith)
      ∙ low_byte_lem v in
    let high : get_or out₂ (offset + 1) 0 ≡ v / 2 ^ 8 % 256 =
      get_or-set_self out₁ (offset + 1) (low_byte (v / 2 ^ 8)) 0
        (omega (arith, h, length-set out offset (low_byte v)))
      ∙ low_byte_lem (v / 2 ^ 8) in
    rw (low, high)
      (ap (λ (t : ℕ). bit_or (v % 256) t % 2 ^ 16) {y = v / 2 ^ 8 % 256 * 2 ^ 8} (omega arith)
        ∙ ap (λ (t : ℕ). t % 2 ^ 16) (bit_or-shift 8 (v % 256) (v / 2 ^ 8 % 256) (omega arith))
        ∙ omega arith)

are_clear_lem :
    (n i : ℕ) (bytes : List ℕ) (offset : ℕ)
    → ((j : ℕ) → i ≤ j → j < i + n → get_or bytes (offset + j) 0 ≡ 0)
    → are_clear n i bytes offset ≡ true
unfolding are_clear
are_clear_lem zero i bytes offset h = refl
are_clear_lem (suc n) i bytes offset h =
    rw (h i (omega arith) (omega arith))
      (are_clear_lem n (suc i) bytes offset (λ j a b. h j (omega arith) (omega arith)))

-- Reserved bytes that are cleared are found clear.
pub are_clear-clear_bytes :
    (out : List ℕ) (offset size : ℕ)
    → offset + size ≤ length out
    → are_clear size 0 (clear_bytes out offset size) offset ≡ true
unfolding clear_bytes
are_clear-clear_bytes out offset size h =
    are_clear_lem size 0 (clear_bytes out offset size) offset
      (λ j a b. get_or-write_from size 0 (λ _. 0) out offset j a b (omega arith))

pub clear_bytes-Keeps :
    (out : List ℕ) (offset size : ℕ) → Keeps offset out (clear_bytes out offset size)
unfolding clear_bytes
clear_bytes-Keeps out offset size = (
  length-write_from size 0 (λ _. 0) out offset,
  λ j lt. get_or-write_from_before size 0 (λ _. 0) out offset j (omega arith),
)
