-- ===== src/Spsc/Indices.antt =====
-- Arithmetic of the ring's indices: wrapped words, and slots of a ring whose size divides 2 ^ 64.
use low_latency_exchange.Prelude.{
  ℕ, suc, ◌+◌, ◌-◌, ◌*◌, ◌%◌, ◌/◌, ◌≤◌, ◌<◌, List, [], ◌∷◌, ◌≡◌, ◌≢◌, refl, sym, ◌∙◌, ap, arith,
  inl, inr, Bool-cases, leb, length, sub64, u64_mod,
}
use native.Mathlib.Nat.{div-add-mod, mul-le-mul_left, add-mul-mod_self_left, mod-add-div, mul_assoc}

-- A divisor of the modulus does not see the wrap.
pub mod_of_mod : (x c m : ℕ) → 1 ≤ c → (x % (c * m)) % c ≡ x % c
mod_of_mod x c m h =
    sym (add-mul-mod_self_left (x % (c * m)) c (m * (x / (c * m))))
    ∙ ap (λ (t : ℕ). t % c)
        (ap (λ (t : ℕ). x % (c * m) + t) (sym (mul_assoc c m (x / (c * m))))
          ∙ mod-add-div x (c * m))

-- The distance of two indices is not affected by the wrap.
pub distance : (w c : ℕ) → c ≤ w → w < c + u64_mod → sub64 (w % u64_mod) (c % u64_mod) ≡ w - c
distance w c h g = omega arith

pub same_index : (w c : ℕ) → c ≤ w → w < c + u64_mod → c % u64_mod ≡ w % u64_mod → w ≡ c
same_index w c h g e = omega arith

-- Two indices less than a capacity apart have different slots.
pub distinct_slots : (a b c : ℕ) → a < b → b < a + c → a % c ≢ b % c
distinct_slots a b c lt near e = elim (Bool-cases (leb (b / c) (a / c))) [
  | inl h ↦
      let le : c * (b / c) ≤ c * (a / c) = mul-le-mul_left c (ground (arith, h)) in
      omega (arith, e, le, lt, div-add-mod a c, div-add-mod b c)
  | inr h ↦
      let le : c * suc (a / c) ≤ c * (b / c) = mul-le-mul_left c (ground (arith, h)) in
      omega (arith, e, le, near, div-add-mod a c, div-add-mod b c)
]

pub length-nil {ℓ} : {A : Type ℓ} (xs : List A) → length xs ≡ 0 → xs ≡ []
length-nil [] e = refl
length-nil (x ∷ xs) e = absurd (omega (arith, e))
