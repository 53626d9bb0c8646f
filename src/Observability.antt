-- ===== src/Observability.antt =====
-- include/low_latency_exchange/observability.hpp: the latency histogram. Latencies and counts are
-- 64-bit words.
pub mod Buckets
pub mod Counts
pub mod Percentile
mod Tests
use low_latency_exchange.Prelude.{
  ℕ, zero, suc, ◌-◌, ◌/◌, ◌^◌, List, [], ◌∷◌, ◌==◌, ltb, if◌then◌else◌, min, get_or, set, replicate,
  add64, u64_mod,
}

abbrev pub latency_histogram_buckets : ℕ
latency_histogram_buckets = 64

pub record LatencyHistogramSnapshot : Type 0 where
  pub buckets : List ℕ
  pub count : ℕ
  pub min_nanoseconds : ℕ
  pub max_nanoseconds : ℕ

pub record LatencyHistogram : Type 0 where
  pub buckets : List ℕ
  pub count : ℕ
  pub min_nanoseconds : ℕ
  pub max_nanoseconds : ℕ

abbrev pub new_histogram : LatencyHistogram
new_histogram = record {
  buckets = replicate latency_histogram_buckets 0;
  count = 0;
  min_nanoseconds = u64_mod - 1;
  max_nanoseconds = 0;
}

-- `std::bit_width` of a number below 2 ^ bits.
unfoldable pub bit_width : ℕ → ℕ → ℕ
bit_width zero n = 0
bit_width (suc bits) n = let rest = bit_width bits (n / 2) in if n == 0 then 0 else suc rest

abbrev pub normalize : ℕ → ℕ
normalize nanoseconds = if nanoseconds == 0 then 1 else nanoseconds

unfoldable pub bucket_of : ℕ → ℕ
bucket_of normalized = min (bit_width 64 normalized - 1) (latency_histogram_buckets - 1)

unfoldable pub observe : ℕ → LatencyHistogram → LatencyHistogram
observe nanoseconds h =
    let normalized = normalize nanoseconds in
    let bucket = bucket_of normalized in
    record {
      buckets = set h.buckets bucket (add64 (get_or h.buckets bucket 0) 1);
      count = add64 h.count 1;
      min_nanoseconds = if ltb normalized h.min_nanoseconds then normalized else h.min_nanoseconds;
      max_nanoseconds = if ltb h.max_nanoseconds normalized then normalized else h.max_nanoseconds;
    }

unfoldable pub snapshot : LatencyHistogram → LatencyHistogramSnapshot
snapshot h = record {
  buckets = h.buckets;
  count = h.count;
  min_nanoseconds = if h.count == 0 then 0 else h.min_nanoseconds;
  max_nanoseconds = h.max_nanoseconds;
}

-- The loop over the buckets from `index` on; `max` is the value past the last.
unfoldable pub find_bucket : List ℕ → ℕ → ℕ → ℕ → ℕ → ℕ
find_bucket [] index observed rank max = max
find_bucket (bucket ∷ buckets) index observed rank max =
    let observed' = add64 observed bucket in
    let rest = find_bucket buckets (suc index) observed' rank max in
    if ltb rank observed' then (if index == 0 then 1 else 2 ^ index) else rest

-- `scale` is the product of the percentile and a count, in `double`, truncated to an integer.
unfoldable pub percentile_upper_bound : (ℕ → ℕ) → LatencyHistogramSnapshot → ℕ
percentile_upper_bound scale s =
    if s.count == 0 then 0 else find_bucket s.buckets 0 0 (scale (s.count - 1)) s.max_nanoseconds
