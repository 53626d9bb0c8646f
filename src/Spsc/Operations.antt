-- ===== src/Spsc/Operations.antt =====
-- The operations, each run to its end by its thread while the other thread rests.
use low_latency_exchange.Prelude.{
  ℕ, ◌-◌, Bool, true, false, Option, none, some, ◌==◌, leb, if◌then◌else◌, get_or, set, add64,
  sub64, replicate,
}
use Prim.Native.Nat.{bit_and}
use low_latency_exchange.Spsc.{Queue}

module _ {ℓ} {T : Type ℓ} (capacity : ℕ) (blank : T) where
  unfoldable pub empty_queue : Queue T
  empty_queue = record {
    buffer = replicate capacity blank;
    write_index = 0;
    cached_read_index = 0;
    read_index = 0;
    cached_write_index = 0;
  }

  -- `index & kMask`
  unfoldable pub slot : ℕ → ℕ
  slot index = bit_and index (capacity - 1)

  unfoldable pub store_item : T → Queue T → Queue T
  unfolding slot
  store_item item q = record q {
    buffer = set q.buffer (slot q.write_index) item;
    write_index = add64 q.write_index 1;
  }

  -- `current_write - cached_read_index_ >= Capacity`
  unfoldable pub looks_full : Queue T → Bool
  looks_full q = leb capacity (sub64 q.write_index q.cached_read_index)

  unfoldable pub try_push : T → Queue T → Queue T × Bool
  unfolding store_item looks_full
  try_push item q =
      if looks_full q
      then (let q' : Queue T = record q { cached_read_index = q.read_index } in
          if looks_full q' then (q', false) else (store_item item q', true))
      else (store_item item q, true)

  unfoldable pub load_item : Queue T → Queue T × Option T
  unfolding slot
  load_item q = (
    record q { read_index = add64 q.read_index 1 },
    some (get_or q.buffer (slot q.read_index) blank),
  )

  -- The option is what goes through `out`.
  unfoldable pub try_pop : Queue T → Queue T × Option T
  unfolding load_item
  try_pop q =
      if q.read_index == q.cached_write_index
      then (let q' : Queue T = record q { cached_write_index = q.write_index } in
          if q'.read_index == q'.cached_write_index then (q', none) else load_item q')
      else load_item q

  unfoldable pub size : Queue T → ℕ
  size q = if leb q.read_index q.write_index then q.write_index - q.read_index else 0

  unfoldable pub empty : Queue T → Bool
  empty q = q.write_index == q.read_index

  unfoldable pub full : Queue T → Bool
  full q = leb capacity (sub64 q.write_index q.read_index)
