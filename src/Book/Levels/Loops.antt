-- ===== src/Book/Levels/Loops.antt =====
-- The loops of `match_against_book` keep the form of the levels.
use low_latency_exchange.Prelude.{
  ℕ, zero, suc, Bool, List, [], ◌∷◌, ltb, ◌&&◌, arith, inl, inr, Bool-cases, length,
}
use low_latency_exchange.Types.{Price, OrderId, Side}
use low_latency_exchange.Book.State.{Node, PriceLevel, Levels}
use low_latency_exchange.Book.Match.{
  MatchState, execute_front, match_level, erase_if_empty, match_levels,
}
use low_latency_exchange.Book.Levels.{IsTotalled, AreBehind, AreLevels}

abbrev LevelIsTotalled : PriceLevel → Type 0
LevelIsTotalled level = IsTotalled level.total_units level.orders

execute_front-IsTotalled :
    (incoming : OrderId) (price : Price) (front : Node) (rest : List Node) (total : ℕ)
    (s : MatchState)
    → IsTotalled total (front ∷ rest)
    → LevelIsTotalled (execute_front incoming price front rest total s).0
unfolding execute_front
execute_front-IsTotalled incoming price front rest total s h = ground arith

pub match_level-IsTotalled :
    (fuel : ℕ) (incoming : OrderId) (price : Price) (total : ℕ) (ns : List Node) (s : MatchState)
    → IsTotalled total ns
    → LevelIsTotalled (match_level fuel incoming price total ns s).0
unfolding match_level
match_level-IsTotalled zero incoming price total ns s h = h
match_level-IsTotalled (suc fuel) incoming price total [] s h = h
match_level-IsTotalled (suc fuel) incoming price total (front ∷ rest) s h =
    elim (Bool-cases (ltb 0 s.remaining_units)) [
      | inl go ↦
          let (level, s') = execute_front incoming price front rest total s in
          rw (go, match_level)
            (match_level-IsTotalled fuel incoming price level.total_units level.orders s'
              (execute_front-IsTotalled incoming price front rest total s h))
      | inr stop ↦ rw (stop, match_level) h
    ]

module _ (side : Side) where
  pub erase_if_empty-AreLevels :
      (price : Price) (total : ℕ) (ns : List Node) (rest : Levels)
      → IsTotalled total ns
      → AreBehind side price rest
      → AreLevels side rest
      → AreLevels side (erase_if_empty price total ns rest)
  unfolding erase_if_empty
  erase_if_empty-AreLevels price total [] rest t b h = h
  erase_if_empty-AreLevels price total (n ∷ ns) rest t b h = ((λ e. cc), t, b, h)

  pub match_levels-AreLevels :
      (fuel : ℕ) (accepts : Price → Bool) (incoming : OrderId) (levels : Levels) (s : MatchState)
      → AreLevels side levels
      → AreLevels side (match_levels fuel accepts incoming levels s).0
  unfolding match_levels
  match_levels-AreLevels zero accepts incoming levels s h = h
  match_levels-AreLevels (suc fuel) accepts incoming [] s h = h
  match_levels-AreLevels (suc fuel) accepts incoming ((price, level) ∷ rest) s h =
      elim (Bool-cases (ltb 0 s.remaining_units && accepts price)) [
        | inl go ↦
            let done =
              match_level (suc (length level.orders)) incoming price level.total_units level.orders
                s in
            rw (go, match_levels)
              (match_levels-AreLevels fuel accepts incoming
                (erase_if_empty price done.0.total_units done.0.orders rest) done.1
                (erase_if_empty-AreLevels price done.0.total_units done.0.orders rest
                  (match_level-IsTotalled (suc (length level.orders)) incoming price
                    level.total_units level.orders s h.1)
                  h.2 h.3))
        | inr stop ↦ rw (stop, match_levels) h
      ]
