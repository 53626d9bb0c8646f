-- ===== src/Assoc/Laws.antt =====
-- What a lookup and the number of entries are after each operation.
use low_latency_exchange.Prelude.{
  ℕ, ◌+◌, none, some, List, [], ◌∷◌, ◌==◌, if◌then◌else◌, ◌≡◌, ◌≢◌, refl, ◌∙◌, inl, inr, Bool-cases,
  sym, ap, ℕ_discrete, arith, length,
}
use low_latency_exchange.Assoc.Defs.{lookup, emplace, assign, erase, IsMap}

none-ne-some {ℓ} : {V : Type ℓ} {v : V} → none ≡ some v → ⊥
none-ne-some h = cc

module _ {ℓ} {V : Type ℓ} where
  pub lookup-erase_ne : (k j : ℕ) (m : List (ℕ × V)) → j ≢ k → lookup j (erase k m) ≡ lookup j m
  unfolding lookup erase
  lookup-erase_ne k j [] h = refl
  lookup-erase_ne k j ((i, v) ∷ m) h = ground (arith, lookup-erase_ne k j m h)

  pub lookup-erase_self : (k : ℕ) (m : List (ℕ × V)) → IsMap m → lookup k (erase k m) ≡ none
  unfolding lookup erase
  lookup-erase_self k [] h = refl
  lookup-erase_self k ((i, v) ∷ m) h = ground (arith, lookup-erase_self k m h.1)

  pub lookup-emplace :
      (k j : ℕ) (v : V) (m : List (ℕ × V))
      → lookup k m ≡ none
      → lookup j (emplace k v m) ≡ (if k == j then some v else lookup j m)
  unfolding lookup emplace
  lookup-emplace k j v m h = ground (arith, h)

  pub lookup-assign :
      (k j : ℕ) (v : V) (m : List (ℕ × V))
      → lookup j (assign k v m) ≡ (if k == j then some v else lookup j m)
  unfolding lookup assign
  lookup-assign k j v [] = refl
  lookup-assign k j v ((i, w) ∷ m) = ground (arith, lookup-assign k j v m)

  pub erase-IsMap : (k : ℕ) (m : List (ℕ × V)) → IsMap m → IsMap (erase k m)
  unfolding erase
  erase-IsMap k [] h = tt
  erase-IsMap k ((i, v) ∷ m) h = elim (Bool-cases (i == k)) [
    | inl e ↦ rw e h.1
    | inr e ↦ rw e (lookup-erase_ne k i m (ground arith) ∙ h.0, erase-IsMap k m h.1)
  ]

  pub emplace-IsMap :
      (k : ℕ) (v : V) (m : List (ℕ × V)) → lookup k m ≡ none → IsMap m → IsMap (emplace k v m)
  unfolding emplace
  emplace-IsMap k v m e h = ground (arith, e)

  pub length-erase :
      (k : ℕ) (m : List (ℕ × V)) (v : V) → lookup k m ≡ some v → length m ≡ length (erase k m) + 1
  unfolding lookup erase
  length-erase k [] v h = ground arith
  length-erase k ((i, w) ∷ m) v h = ground (arith, length-erase k m v)

  pub length-emplace :
      (k : ℕ) (v : V) (m : List (ℕ × V)) → lookup k m ≡ none → length (emplace k v m) ≡ length m + 1
  unfolding emplace
  length-emplace k v m e = ground (arith, e)

  -- What is found after an erasure was there before.
  pub lookup_of_erase :
      (k j : ℕ) (m : List (ℕ × V)) (v : V)
      → IsMap m
      → lookup j (erase k m) ≡ some v
      → lookup j m ≡ some v
  lookup_of_erase k j m v h e = elim (ℕ_discrete j k) [
    | yes p ↦
        absurd (
          none-ne-some (sym (lookup-erase_self k m h) ∙ ap (λ i. lookup i (erase k m)) (sym p) ∙ e))
    | no p ↦ sym (lookup-erase_ne k j m p) ∙ e
  ]
