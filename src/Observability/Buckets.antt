-- ===== src/Observability/Buckets.antt =====
-- The bucket of a latency is its binary exponent.
use low_latency_exchange.Prelude.{
  ℕ, zero, suc, ◌*◌, ◌/◌, ◌^◌, ◌<◌, ◌≤◌, ◌≡◌, refl, ap, arith, ◌==◌, lt-or-le, inl, inr, false,
  u64_mod,
}
use native.Mathlib.Nat.{pow-suc}
use low_latency_exchange.Observability.{bit_width, bucket_of, normalize}

bit_width_zero : (bits : ℕ) → bit_width bits 0 ≡ 0
unfolding bit_width
bit_width_zero zero = refl
bit_width_zero (suc bits) = refl

bit_width_lem :
    (bits n : ℕ)
    → 0 < n
    → n < 2 ^ bits
    → (w : ℕ) × (bit_width bits n ≡ suc w) × (w < bits) × (2 ^ w ≤ n) × (n < 2 * 2 ^ w)
unfolding bit_width
bit_width_lem zero n pos small = absurd (omega (arith, small))
bit_width_lem (suc bits) n pos small = elim (lt-or-le n 2) [
  | inl one ↦
      let e : n ≡ 1 = omega arith in
      (0, rw (e, bit_width) (ap suc (bit_width_zero bits)), omega arith, omega arith, omega arith)
  | inr more ↦
      let (w, e, le, lo, hi) =
        bit_width_lem bits (n / 2) (omega arith) (omega (arith, pow-suc 2 bits, small)) in
      let ne : (n == 0) ≡ false = ground (arith, pos) in
      (
        suc w,
        rw (ne, bit_width) (ap suc e),
        omega (arith, le),
        omega (arith, lo, pow-suc 2 w),
        omega (arith, hi, pow-suc 2 w),
      )
]

-- The bucket of each 64-bit latency is one of the 64, and its number is the exponent of the latency, where 0
-- counts as 1: the bucket `i` holds the latencies from 2 ^ i up to, and without, 2 ^ (i + 1).
pub bucket_of-bounds :
    (nanoseconds : ℕ)
    → nanoseconds < u64_mod
    → (bucket_of (normalize nanoseconds) < 64)
      × (2 ^ bucket_of (normalize nanoseconds) ≤ normalize nanoseconds)
      × (normalize nanoseconds < 2 * 2 ^ bucket_of (normalize nanoseconds))
unfolding bucket_of
bucket_of-bounds nanoseconds fits =
    let (w, e, le, lo, hi) =
      bit_width_lem 64 (normalize nanoseconds) (ground arith) (ground (arith, fits)) in
    let b : bucket_of (normalize nanoseconds) ≡ w = rw (e, bucket_of) (omega (arith, le)) in
    rw b (le, lo, hi)
