-- ===== src/Prelude/Words.antt =====
-- `std::uint64_t` and `std::size_t` arithmetic, and the integers that an `std::int64_t` stands for.
use Prim.Native.Nat.{ℕ, ◌+◌, ◌-◌, ◌*◌, ◌%◌, ◌^◌, ◌<◌}
use mathlib.Core.Path.{◌≡◌}
use native.Mathlib.Omega.{arith}

abbrev pub u64_mod : ℕ
u64_mod = 2 ^ 64

abbrev pub add64 : ℕ → ℕ → ℕ
add64 a b = (a + b) % u64_mod

-- The subtraction of a word below 2 ^ 64 wraps.
abbrev pub sub64 : ℕ → ℕ → ℕ
sub64 a b = (a + u64_mod - b) % u64_mod

abbrev pub mul64 : ℕ → ℕ → ℕ
mul64 a b = (a * b) % u64_mod

-- `negsuc n` is -(n + 1).
pub data ℤ : Type 0 where
  pos : ℕ → ℤ
  negsuc : ℕ → ℤ

-- A wrapped total gives up a part as the exact total would.
pub sub64-add : (a b : ℕ) → b < u64_mod → sub64 ((a + b) % u64_mod) b ≡ a % u64_mod
sub64-add a b h = omega arith
