-- ===== src/Types.antt =====
-- include/low_latency_exchange/types.hpp. Each class holds one number behind a private constructor
-- and a factory that refuses 0, so a value is that number and the factory is what makes it.
use low_latency_exchange.Prelude.{
  ℕ, ◌<◌, ◌^◌, Option, none, some, if◌then◌else◌, ◌==◌, ℤ, pos, negsuc, u64_mod,
}

-- The ticks of a price are positive, so they are held as a natural number.
abbrev pub Price : Type 0
Price = ℕ

abbrev pub Quantity : Type 0
Quantity = ℕ

abbrev pub OrderId : Type 0
OrderId = ℕ

abbrev pub SequenceNumber : Type 0
SequenceNumber = ℕ

abbrev pub FeedSequence : Type 0
FeedSequence = ℕ

abbrev pub from_ticks : ℤ → Option Price
from_ticks (pos n) = if n == 0 then none else some n
from_ticks (negsuc n) = none

abbrev pub from_units : ℕ → Option Quantity
from_units units = if units == 0 then none else some units

-- `OrderId::from_value`, `SequenceNumber::from_value` and `FeedSequence::from_value`.
abbrev pub from_value : ℕ → Option ℕ
from_value value = if value == 0 then none else some value

pub data Side : Type 0 where
  buy sell : Side

pub data OrderType : Type 0 where
  limit market : OrderType

-- What the constructors guarantee of a 64-bit value, and of a price.
abbrev pub IsWord : ℕ → Type 0
IsWord v = (0 < v) × (v < u64_mod)

abbrev pub IsPrice : Price → Type 0
IsPrice p = (0 < p) × (p < 2 ^ 63)
