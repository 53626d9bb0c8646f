-- ===== src/Spsc.antt =====
-- include/low_latency_exchange/spsc_queue.hpp: `BoundedSPSCQueue`.
-- The indices are 64-bit words.
pub mod Operations
pub mod Indices
pub mod Refine
pub mod Trace
mod Tests
use low_latency_exchange.Prelude.{
  ℕ, ◌+◌, ◌-◌, ◌%◌, ◌^◌, Bool, true, false, Option, none, some, List, [], ◌∷◌, ◌==◌, ltb, leb,
  if◌then◌else◌, get_or, set, add64, sub64, replicate,
}

-- `T{}` is `blank`. The capacity is that of the template.
pub record Queue {ℓ} (T : Type ℓ) : Type ℓ where
  pub buffer : List T
  pub write_index : ℕ
  pub cached_read_index : ℕ
  pub read_index : ℕ
  pub cached_write_index : ℕ
