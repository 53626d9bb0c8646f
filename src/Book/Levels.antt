-- ===== src/Book/Levels.antt =====
-- The levels of a side: what their form is to be.
pub mod Loops
pub mod Order
pub mod Insert
pub mod Remove
pub mod Edits
use low_latency_exchange.Prelude.{ℕ, ◌+◌, ◌%◌, true, List, [], ◌∷◌, ◌++◌, ◌≡◌, ◌≢◌, All, u64_mod}
use low_latency_exchange.Types.{Price, IsWord, Side}
use low_latency_exchange.Book.State.{Node, PriceLevel, Levels, before}

abbrev pub units : List Node → ℕ
units [] = 0
units (n ∷ ns) = n.order.remaining_quantity + units ns

-- Quantities are positive words, and the total is theirs, as far as a word holds it.
abbrev pub IsTotalled : ℕ → List Node → Type 0
IsTotalled total ns =
    (total ≡ units ns % u64_mod) × All (λ n. IsWord (n.order.remaining_quantity)) ns

-- Every level of the list comes behind the price.
abbrev pub AreBehind : Side → Price → Levels → Type 0
AreBehind side price = All (λ e. before side price e.0 ≡ true)

-- No level is empty, each has its total, and the prices run strictly from best to worst.
abbrev pub AreLevels : Side → Levels → Type 0
AreLevels side [] = Unit
AreLevels side ((price, level) ∷ rest) =
    (level.orders ≢ [])
    × IsTotalled level.total_units level.orders
    × AreBehind side price rest
    × AreLevels side rest
