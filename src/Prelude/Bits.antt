-- ===== src/Prelude/Bits.antt =====
-- The bit operations as arithmetic: a mask of low bits, and a word put together from disjoint parts.
use Prim.Native.Nat.{
  ℕ, zero, suc, ◌+◌, ◌-◌, ◌*◌, ◌/◌, ◌%◌, ◌^◌, ◌≤◌, ◌<◌, min, max, bit_and, bit_or, bitwise, digits,
  bit_and-bitwise, bit_or-bitwise,
}
use mathlib.Core.Path.{◌≡◌, refl, ◌∙◌, ap}
use native.Mathlib.Nat.{pow-suc}
use native.Mathlib.Omega.{arith}

-- An operation on digits does not depend on its fuel, if there is enough.
module _ (rest : ℕ → ℕ) (op : ℕ → ℕ → ℕ) where
  any_fuel : (k l a b : ℕ) → a ≤ k → a ≤ l → digits rest op k a b ≡ digits rest op l a b
  any_fuel zero zero zero b h g = refl
  any_fuel zero (suc l) zero b h g = refl
  any_fuel (suc k) zero zero b h g = refl
  any_fuel (suc k) (suc l) zero b h g = refl
  any_fuel zero l (suc a) b h g = absurd (omega arith)
  any_fuel (suc k) zero (suc a) b h g = absurd (omega arith)
  any_fuel (suc k) (suc l) (suc a) b h g =
      ap (λ (t : ℕ). t * 2 + op (suc a % 2) (b % 2))
        (any_fuel k l (suc a / 2) (b / 2) (omega arith) (omega arith))

  low_digit :
      (a b : ℕ)
      → bitwise rest op (suc a) b ≡ bitwise rest op (suc a / 2) (b / 2) * 2 + op (suc a % 2) (b % 2)
  low_digit a b =
      ap (λ (t : ℕ). t * 2 + op (suc a % 2) (b % 2))
        (any_fuel a (suc a / 2) (suc a / 2) (b / 2) (omega arith) (omega arith))

bit_and-zero_left : (b : ℕ) → bit_and 0 b ≡ 0
bit_and-zero_left b = bit_and-bitwise 0 b

bit_or-zero_left : (b : ℕ) → bit_or 0 b ≡ b
bit_or-zero_left b = bit_or-bitwise 0 b

bit_and-halves : (a b : ℕ) → bit_and a b ≡ bit_and (a / 2) (b / 2) * 2 + min (a % 2) (b % 2)
bit_and-halves zero b = omega (arith, bit_and-zero_left b, bit_and-zero_left (b / 2))
bit_and-halves (suc a) b = omega (
  arith,
  bit_and-bitwise (suc a) b,
  bit_and-bitwise (suc a / 2) (b / 2),
  low_digit (λ _. 0) min a b,
)

bit_or-halves : (a b : ℕ) → bit_or a b ≡ bit_or (a / 2) (b / 2) * 2 + max (a % 2) (b % 2)
bit_or-halves zero b = omega (arith, bit_or-zero_left b, bit_or-zero_left (b / 2))
bit_or-halves (suc a) b = omega (
  arith,
  bit_or-bitwise (suc a) b,
  bit_or-bitwise (suc a / 2) (b / 2),
  low_digit (λ y. y) max a b,
)

pub pow-add : (a b : ℕ) → 2 ^ (a + b) ≡ 2 ^ a * 2 ^ b
pow-add zero b = ground (arith, ap (λ (t : ℕ). 2 ^ t) (zero_left b))
  where
    zero_left : (b : ℕ) → 0 + b ≡ b
    zero_left b = omega arith
pow-add (suc a) b =
    ap (λ (t : ℕ). 2 ^ t) (suc_out a b)
    ∙ omega (
      arith,
      pow-suc 2 (a + b),
      pow-suc 2 a,
      pow-add a b,
      twice (2 ^ a) (2 ^ b),
      ap (λ (t : ℕ). t * 2 ^ b) (pow-suc 2 a),
    )
  where
    suc_out : (a b : ℕ) → suc a + b ≡ suc (a + b)
    suc_out a b = omega arith

    twice : (x y : ℕ) → x * 2 * y ≡ 2 * (x * y)
    twice x y = omega arith

pub one-le-two_pow : (k : ℕ) → 1 ≤ 2 ^ k
one-le-two_pow zero = omega arith
one-le-two_pow (suc k) = omega (arith, pow-suc 2 k, one-le-two_pow k)

bit_and-zero_right : (n a : ℕ) → a ≤ n → bit_and a 0 ≡ 0
bit_and-zero_right n zero h = bit_and-zero_left 0
bit_and-zero_right zero (suc a) h = absurd (omega arith)
bit_and-zero_right (suc n) (suc a) h =
    omega (arith, bit_and-halves (suc a) 0, bit_and-zero_right n (suc a / 2) (omega arith))

bit_or-zero_right : (n a : ℕ) → a ≤ n → bit_or a 0 ≡ a
bit_or-zero_right n zero h = bit_or-zero_left 0
bit_or-zero_right zero (suc a) h = absurd (omega arith)
bit_or-zero_right (suc n) (suc a) h =
    omega (arith, bit_or-halves (suc a) 0, bit_or-zero_right n (suc a / 2) (omega arith))

scaled : (q k : ℕ) → q * 2 ^ suc k ≡ 2 * (q * 2 ^ k)
scaled q k = omega (arith, ap (λ (t : ℕ). q * t) (pow-suc 2 k))

mask_of_parts : (k q r : ℕ) → r < 2 ^ k → bit_and (q * 2 ^ k + r) (2 ^ k - 1) ≡ r
mask_of_parts zero q r h = omega (arith, bit_and-zero_right (q * 2 ^ 0 + r) (q * 2 ^ 0 + r))
mask_of_parts (suc k) q r h = ground (
  arith,
  scaled q k,
  pow-suc 2 k,
  one-le-two_pow k,
  bit_and-halves (q * 2 ^ suc k + r) (2 ^ suc k - 1),
  mask_of_parts k q (r / 2) (omega (arith, pow-suc 2 k)),
)

-- `x & (2 ^ k - 1)`
pub bit_and-mask : (k a : ℕ) → bit_and a (2 ^ k - 1) ≡ a % 2 ^ k
bit_and-mask k a = ground (arith, one-le-two_pow k, mask_of_parts k (a / 2 ^ k) (a % 2 ^ k))

-- `low | (high << k)`, where `low` has k bits.
pub bit_or-shift : (k low high : ℕ) → low < 2 ^ k → bit_or low (high * 2 ^ k) ≡ low + high * 2 ^ k
bit_or-shift zero zero high h = omega (arith, bit_or-zero_left (high * 2 ^ 0))
bit_or-shift zero (suc low) high h = absurd (omega arith)
bit_or-shift (suc k) low high h = ground (
  arith,
  scaled high k,
  pow-suc 2 k,
  bit_or-halves low (high * 2 ^ suc k),
  bit_or-shift k (low / 2) high (omega (arith, pow-suc 2 k)),
)
