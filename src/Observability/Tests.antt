-- ===== src/Observability/Tests.antt =====
-- Examples: three latencies, of which the one in the middle is 5.
use low_latency_exchange.Prelude.{
  ℕ, suc, ◌-◌, ◌/◌, ◌*◌, ◌^◌, ◌<◌, ◌≤◌, List, [], ◌∷◌, ◌≡◌, arith, length,
}
use low_latency_exchange.Observability.{bucket_of, normalize, snapshot, percentile_upper_bound}
use low_latency_exchange.Observability.Buckets.{bucket_of-bounds}
use low_latency_exchange.Observability.Counts.{observed, Describes, observed-Describes, count_below}
use low_latency_exchange.Observability.Percentile.{percentile_upper_bound_lem}

abbrev latencies : List ℕ
latencies = 900 ∷ 0 ∷ 5 ∷ []

abbrev half : ℕ → ℕ
half n = n / 2

bucket_of-bounds_example :
    (bucket_of (normalize 900) < 64)
    × (2 ^ bucket_of (normalize 900) ≤ normalize 900)
    × (normalize 900 < 2 * 2 ^ bucket_of (normalize 900))
bucket_of-bounds_example = bucket_of-bounds 900 (omega arith)

observed-Describes_example : Describes (observed latencies) latencies
observed-Describes_example =
    observed-Describes latencies (omega arith, (omega arith, (omega arith, tt))) (omega arith)

percentile_upper_bound_lem_example :
    (i : ℕ) × (percentile_upper_bound half (snapshot (observed latencies)) ≡ 2 ^ i)
    × (count_below (2 ^ i) latencies ≤ half (length latencies - 1))
    × (half (length latencies - 1) < count_below (2 ^ suc i) latencies)
percentile_upper_bound_lem_example =
    percentile_upper_bound_lem half latencies (omega arith, (omega arith, (omega arith, tt)))
      (omega arith) (omega arith)
