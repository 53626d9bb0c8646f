-- ===== src/Observability/Counts.antt =====
-- What a histogram says of the latencies that it has observed.
use low_latency_exchange.Prelude.{
  ℕ, zero, suc, ◌-◌, ◌<◌, ◌≤◌, ◌≡◌, ◌≢◌, refl, sym, ap, ◌∙◌, subst, arith, ◌==◌, ltb, u64_mod, min,
  max, List, [], ◌∷◌, length, get_or, replicate, length-set, get_or-set_self, get_or-set_ne, add64,
  All, if◌then◌else◌,
}
use low_latency_exchange.Prelude.{ℕ_discrete}
use native.Mathlib.Nat.{mod-eq_of_lt}
use low_latency_exchange.Observability.{
  LatencyHistogram, new_histogram, normalize, bucket_of, observe,
}
use low_latency_exchange.Observability.Buckets.{bucket_of-bounds}

-- The histogram after some latencies, of which the last one stands first.
unfoldable pub observed : List ℕ → LatencyHistogram
observed [] = new_histogram
observed (x ∷ xs) = observe x (observed xs)

abbrev pub AreWords : List ℕ → Type 0
AreWords = All (λ x. x < u64_mod)

-- How many latencies fall into a bucket.
unfoldable pub tally : ℕ → List ℕ → ℕ
tally bucket [] = 0
tally bucket (x ∷ xs) =
    let rest = tally bucket xs in if bucket_of (normalize x) == bucket then suc rest else rest

-- How many are less than a bound.
unfoldable pub count_below : ℕ → List ℕ → ℕ
count_below bound [] = 0
count_below bound (x ∷ xs) =
    let rest = count_below bound xs in if ltb (normalize x) bound then suc rest else rest

-- The least one; that of no latencies is the largest word.
unfoldable pub least : List ℕ → ℕ
least [] = u64_mod - 1
least (x ∷ xs) = min (normalize x) (least xs)

unfoldable pub greatest : List ℕ → ℕ
greatest [] = 0
greatest (x ∷ xs) = max (normalize x) (greatest xs)

pub record Describes (h : LatencyHistogram) (xs : List ℕ) : Type 0 where
  pub size : length h.buckets ≡ 64
  pub tallies : (i : ℕ) → i < 64 → get_or h.buckets i 0 ≡ tally i xs
  pub counted : h.count ≡ length xs
  pub low : h.min_nanoseconds ≡ least xs
  pub high : h.max_nanoseconds ≡ greatest xs

get_or-replicate : (n i : ℕ) → get_or {A = ℕ} (replicate n 0) i 0 ≡ 0
get_or-replicate zero i = refl
get_or-replicate (suc n) zero = refl
get_or-replicate (suc n) (suc i) = get_or-replicate n i

tally-length : (i : ℕ) (xs : List ℕ) → tally i xs ≤ length xs
unfolding tally
tally-length i [] = omega arith
tally-length i (x ∷ xs) = ground (arith, tally-length i xs)

tally_same :
    (i x : ℕ) (xs : List ℕ) → bucket_of (normalize x) ≡ i → tally i (x ∷ xs) ≡ suc (tally i xs)
unfolding tally
tally_same i x xs e = ground (arith, e)

tally_other : (i x : ℕ) (xs : List ℕ) → bucket_of (normalize x) ≢ i → tally i (x ∷ xs) ≡ tally i xs
unfolding tally
tally_other i x xs e = ground (arith, e)

min_test : (a b : ℕ) → (if ltb a b then a else b) ≡ min a b
min_test a b = ground arith

max_test : (a b : ℕ) → (if ltb b a then a else b) ≡ max a b
max_test a b = ground arith

observe-tallies :
    (x : ℕ) (xs : List ℕ) (h : LatencyHistogram)
    → x < u64_mod
    → suc (length xs) < u64_mod
    → Describes h xs
    → (i : ℕ) → i < 64
    → get_or (observe x h).buckets i 0 ≡ tally i (x ∷ xs)
unfolding observe
observe-tallies x xs h w few d i lt =
    let b : ℕ = bucket_of (normalize x) in
    let (inside, _, _) = bucket_of-bounds x w in
    elim (ℕ_discrete b i) [
      | yes same ↦
          subst (λ (j : ℕ). get_or (observe x h).buckets j 0 ≡ tally j (x ∷ xs)) same
            (get_or-set_self h.buckets b _ 0 (omega (arith, inside, d.size))
              ∙ ap (λ (n : ℕ). add64 n 1) (d.tallies b inside)
              ∙ mod-eq_of_lt (omega (arith, few, tally-length b xs))
              ∙ omega (arith, tally_same b x xs refl))
      | no other ↦
          get_or-set_ne h.buckets _ 0 other ∙ d.tallies i lt ∙ sym (tally_other i x xs other)
    ]

observe-Describes :
    (x : ℕ) (xs : List ℕ) (h : LatencyHistogram)
    → x < u64_mod
    → suc (length xs) < u64_mod
    → Describes h xs
    → Describes (observe x h) (x ∷ xs)
unfolding observe least greatest
observe-Describes x xs h w few d = record {
  size = length-set h.buckets (bucket_of (normalize x)) _ ∙ d.size;
  tallies = observe-tallies x xs h w few d;
  counted = ap (λ (n : ℕ). add64 n 1) d.counted ∙ mod-eq_of_lt (omega (arith, few)) ∙ omega arith;
  low = min_test (normalize x) h.min_nanoseconds ∙ ap (min (normalize x)) d.low;
  high = max_test (normalize x) h.max_nanoseconds ∙ ap (max (normalize x)) d.high;
}

-- After fewer than 2 ^ 64 latencies, each a 64-bit word, the histogram counts them, each bucket counts those
-- that fall into it, and the least and the greatest of them are kept, where 0 counts as 1.
pub observed-Describes :
    (xs : List ℕ) → AreWords xs → length xs < u64_mod → Describes (observed xs) xs
unfolding observed tally least greatest
observed-Describes [] w few = record {
  size = refl;
  tallies = λ i lt. get_or-replicate 64 i;
  counted = refl;
  low = refl;
  high = refl;
}
observed-Describes (x ∷ xs) w few =
    observe-Describes x xs (observed xs) w.0 (omega (arith, few))
      (observed-Describes xs w.1 (omega (arith, few)))
