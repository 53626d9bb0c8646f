-- ===== src/EventLog/Stream.antt =====
-- What src/event_log.cpp uses of `std::ofstream` and `std::ifstream`: a file is a list of bytes. A
-- stream writes into a file that has room for some number of bytes more; a write that does not fit
-- stores what fits and clears `good()`, and later writes store nothing. The buffer of the stream is
-- not modelled.
use low_latency_exchange.Prelude.{
  ℕ, ◌-◌, ◌≤◌, Bool, true, false, ◌≡◌, arith, List, ◌++◌, leb, if◌then◌else◌, length, take, drop,
}

pub record OutputStream : Type 0 where
  pub is_good : Bool
  pub written : List ℕ
  pub room : ℕ

unfoldable pub write : List ℕ → OutputStream → OutputStream
write bytes o =
    if o.is_good
    then (if leb (length bytes) o.room
        then record o { written = o.written ++ bytes; room = o.room - length bytes }
        else record { is_good = false; written = o.written ++ take o.room bytes; room = 0 })
    else o

-- A write that fits.
pub write-fits :
    (bytes : List ℕ) (written : List ℕ) (room : ℕ)
    → length bytes ≤ room
    → write bytes (record { is_good = true; written = written; room = room })
      ≡ record { is_good = true; written = written ++ bytes; room = room - length bytes }
unfolding write
write-fits bytes written room h = ground (arith, h)

-- `input.read(…, size)`: the bytes that were there, of which `gcount()` is the number, and the rest.
abbrev pub read : ℕ → List ℕ → List ℕ × List ℕ
read size input = (take size input, drop size input)
