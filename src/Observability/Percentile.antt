-- ===== src/Observability/Percentile.antt =====
-- What `percentile_upper_bound` returns.
use low_latency_exchange.Prelude.{
  ℕ, zero, suc, ◌+◌, ◌-◌, ◌*◌, ◌^◌, ◌<◌, ◌≤◌, ◌%◌, ◌≡◌, refl, sym, ap, ◌∙◌, subst, arith, ◌==◌, ltb,
  lt-or-le, inl, inr, true, false, u64_mod, List, [], ◌∷◌, length, get_or, add64, if◌then◌else◌,
  lt→ltb,
}
use native.Mathlib.Nat.{pow-suc, pow-le-pow_right, mod-eq_of_lt}
use low_latency_exchange.Observability.{
  LatencyHistogram, normalize, bucket_of, snapshot, find_bucket, percentile_upper_bound,
}
use low_latency_exchange.Observability.Buckets.{bucket_of-bounds}
use low_latency_exchange.Observability.Counts.{
  observed, AreWords, tally, count_below, observed-Describes,
}

not_less : (a b : ℕ) → b ≤ a → ltb a b ≡ false
not_less a b h = ground arith

power : (i : ℕ) → (if i == 0 then 1 else 2 ^ i) ≡ 2 ^ i
power zero = refl
power (suc i) = ground arith

-- The next bucket adds its own.
count_below-suc :
    (i : ℕ) (xs : List ℕ)
    → AreWords xs
    → count_below (2 ^ suc i) xs ≡ count_below (2 ^ i) xs + tally i xs
unfolding count_below tally
count_below-suc i [] w = omega arith
count_below-suc i (x ∷ xs) w =
    let rest = count_below-suc i xs w.1 in
    let n : ℕ = normalize x in
    let b : ℕ = bucket_of n in
    let (_, lo, hi) = bucket_of-bounds x w.0 in
    elim (lt-or-le b i) [
      | inl less ↦
          let small : n < 2 ^ i =
            omega (arith, hi, pow-suc 2 b, pow-le-pow_right {n = 2} (omega arith) less) in
          let small' : n < 2 ^ suc i = omega (arith, small, pow-suc 2 i) in
          let e : (b == i) ≡ false = ground (arith, less) in
          rw (e, lt→ltb n (2 ^ i) small, lt→ltb n (2 ^ suc i) small') (omega (arith, rest))
      | inr le ↦ elim (lt-or-le i b) [
        | inl more ↦
            let large' : 2 ^ suc i ≤ n =
              omega (arith, lo, pow-le-pow_right {n = 2} (omega arith) more) in
            let large : 2 ^ i ≤ n = omega (arith, large', pow-suc 2 i) in
            let e : (b == i) ≡ false = ground (arith, more) in
            rw (e, not_less n (2 ^ i) large, not_less n (2 ^ suc i) large') (omega (arith, rest))
        | inr ge ↦
            let same : b ≡ i = omega arith in
            let large : 2 ^ i ≤ n = subst (λ (j : ℕ). 2 ^ j ≤ n) same lo in
            let small' : n < 2 ^ suc i =
              omega (arith, pow-suc 2 i, subst (λ (j : ℕ). n < 2 * 2 ^ j) same hi) in
            let e : (b == i) ≡ true = ground (arith, same) in
            rw (e, not_less n (2 ^ i) large, lt→ltb n (2 ^ suc i) small') (omega (arith, rest))
      ]
    ]

count_below-length : (b : ℕ) (xs : List ℕ) → count_below b xs ≤ length xs
unfolding count_below
count_below-length b [] = omega arith
count_below-length b (x ∷ xs) = ground (arith, count_below-length b xs)

-- None is less than 1.
count_below_one : (xs : List ℕ) → count_below 1 xs ≡ 0
unfolding count_below
count_below_one [] = refl
count_below_one (x ∷ xs) = ground (arith, count_below_one xs)

-- Each is less than 2 ^ 64.
count_below_all : (xs : List ℕ) → AreWords xs → count_below (2 ^ 64) xs ≡ length xs
unfolding count_below
count_below_all [] w = refl
count_below_all (x ∷ xs) w = ground (arith, w.0, count_below_all xs w.1)

-- The power of two that `find_bucket` returns.
IsFound : ℕ → ℕ → List ℕ → Type 0
IsFound result rank xs =
    (i : ℕ) × (result ≡ 2 ^ i)
    × (count_below (2 ^ i) xs ≤ rank)
    × (rank < count_below (2 ^ suc i) xs)

find_bucket_lem :
    (buckets : List ℕ) (index rank most : ℕ) (xs : List ℕ)
    → AreWords xs
    → length xs < u64_mod
    → rank < length xs
    → index + length buckets ≡ 64
    → ((j : ℕ) → j < length buckets → get_or buckets j 0 ≡ tally (index + j) xs)
    → count_below (2 ^ index) xs ≤ rank
    → IsFound (find_bucket buckets index (count_below (2 ^ index) xs) rank most) rank xs
unfolding find_bucket IsFound
find_bucket_lem [] index rank most xs w few fits size same low =
    let e : index ≡ 64 = omega (arith, size) in
    absurd
      (omega (arith, low, fits, ap (λ (i : ℕ). count_below (2 ^ i) xs) e, count_below_all xs w))
find_bucket_lem (bucket ∷ buckets) index rank most xs w few fits size same low =
    let here : bucket ≡ tally index xs =
      same 0 (omega arith) ∙ ap (λ (i : ℕ). tally i xs) {x = index + 0} (omega arith) in
    let sum : add64 (count_below (2 ^ index) xs) bucket ≡ count_below (2 ^ suc index) xs =
      ap (λ (n : ℕ). n % u64_mod) {y = count_below (2 ^ suc index) xs}
        (omega (arith, here, count_below-suc index xs w))
      ∙ mod-eq_of_lt (omega (arith, few, count_below-length (2 ^ suc index) xs)) in
    elim (lt-or-le rank (count_below (2 ^ suc index) xs)) [
      | inl found ↦ (
        index,
        rw (sum, lt→ltb rank (count_below (2 ^ suc index) xs) found) (power index),
        low,
        found,
      )
      | inr on ↦
          rw (sum, not_less rank (count_below (2 ^ suc index) xs) on)
            (find_bucket_lem buckets (suc index) rank most xs w few fits (omega (arith, size))
              (λ j lt.
                same (suc j) (omega arith)
                ∙ ap (λ (i : ℕ). tally i xs) {x = index + suc j} {y = suc index + j} (omega arith))
              on)
    ]

percentile_some :
    (scale : ℕ → ℕ) (h : LatencyHistogram)
    → (h.count == 0) ≡ false
    → percentile_upper_bound scale (snapshot h)
      ≡ find_bucket h.buckets 0 0 (scale (h.count - 1)) h.max_nanoseconds
unfolding percentile_upper_bound snapshot
percentile_some scale h some_of = rw some_of refl

-- For a rank below the number of latencies, `percentile_upper_bound` returns a power of two 2 ^ i such that
-- the latency of that rank, in ascending order from 0, is at least 2 ^ i and less than 2 ^ (i + 1): no more
-- latencies than the rank are less than the result, and more than the rank are less than its double. There
-- are fewer than 2 ^ 64 latencies, each a 64-bit word, of which 0 counts as 1.
pub percentile_upper_bound_lem :
    (scale : ℕ → ℕ) (xs : List ℕ)
    → AreWords xs
    → length xs < u64_mod
    → scale (length xs - 1) < length xs
    → (i : ℕ) × (percentile_upper_bound scale (snapshot (observed xs)) ≡ 2 ^ i)
      × (count_below (2 ^ i) xs ≤ scale (length xs - 1))
      × (scale (length xs - 1) < count_below (2 ^ suc i) xs)
unfolding IsFound
percentile_upper_bound_lem scale xs w few fits =
    let d = observed-Describes xs w few in
    let some_of : ((observed xs).count == 0) ≡ false = ground (arith, d.counted, fits) in
    let none_below : count_below (2 ^ 0) xs ≡ 0 = count_below_one xs in
    let rank : scale ((observed xs).count - 1) ≡ scale (length xs - 1) =
      ap (λ (n : ℕ). scale (n - 1)) d.counted in
    let (i, e, low, high) =
      find_bucket_lem (observed xs).buckets 0 (scale (length xs - 1)) (observed xs).max_nanoseconds
        xs w few fits (omega (arith, d.size))
        (λ j lt.
          d.tallies j (omega (arith, lt, d.size))
          ∙ ap (λ (n : ℕ). tally n xs) {y = 0 + j} (omega arith))
        (omega (arith, none_below)) in
    (
      i,
      percentile_some scale (observed xs) some_of
          ∙ ap (λ (r : ℕ). find_bucket (observed xs).buckets 0 0 r (observed xs).max_nanoseconds)
              rank
          ∙ ap
              (λ (n : ℕ).
                find_bucket (observed xs).buckets 0 n (scale (length xs - 1))
                  (observed xs).max_nanoseconds)
              (sym none_below)
          ∙ e,
      low,
      high,
    )
