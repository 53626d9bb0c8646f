-- ===== src/Book/Fill/Loops.antt =====
-- The nested loops of `match_against_book` are the walk.
use low_latency_exchange.Prelude.{
  ℕ, zero, suc, ◌<◌, Bool, true, List, [], ◌∷◌, ◌++◌, ltb, ◌&&◌, ◌≡◌, refl, sym, ◌∙◌, ap, arith,
  length, ◌⊎◌, inl, inr, Bool-cases,
}
use low_latency_exchange.Types.{Price, OrderId}
use low_latency_exchange.Book.State.{Node, PriceLevel, Levels}
use low_latency_exchange.Book.Match.{
  MatchState, execute_front, match_level, erase_if_empty, match_levels,
}
use low_latency_exchange.Book.Fill.{Entry, tag, entries, AreNonempty, fill, fill_done, fill_refused}

fuel_left :
    (fuel : ℕ) (rest orders : List Node) (units : ℕ)
    → (length rest < fuel) ⊎ (units ≡ 0)
    → (orders ≡ rest) ⊎ (units ≡ 0)
    → (length orders < fuel) ⊎ (units ≡ 0)
fuel_left fuel rest orders units h p = ground arith

pub entries-erase_if_empty :
    (price : Price) (total : ℕ) (ns : List Node) (rest : Levels)
    → entries (erase_if_empty price total ns rest) ≡ tag price ns ++ entries rest
unfolding erase_if_empty
entries-erase_if_empty price total [] rest = refl
entries-erase_if_empty price total (n ∷ ns) rest = refl

levels_left :
    (fuel : ℕ) (price : Price) (total : ℕ) (ns : List Node) (rest : Levels) (units : ℕ)
    → (suc (length rest) < suc fuel) ⊎ (units ≡ 0)
    → (ns ≡ []) ⊎ (units ≡ 0)
    → (length (erase_if_empty price total ns rest) < fuel) ⊎ (units ≡ 0)
unfolding erase_if_empty
levels_left fuel price total [] rest units h p = ground arith
levels_left fuel price total (n ∷ ns) rest units h p = ground arith

erase_if_empty-AreNonempty :
    (price : Price) (total : ℕ) (ns : List Node) (rest : Levels)
    → AreNonempty rest
    → AreNonempty (erase_if_empty price total ns rest)
unfolding erase_if_empty
erase_if_empty-AreNonempty price total [] rest h = h
erase_if_empty-AreNonempty price total (n ∷ ns) rest h = (λ e. cc, h)

-- The result of the loops, with the levels seen as one list.
abbrev pub flat : Levels × MatchState → List Entry × MatchState
flat (levels, s) = (entries levels, s)

module _ (accepts : Price → Bool) (incoming : OrderId) where
  -- One round of the inner loop is one step of the walk.
  fill-execute_front :
      (price : Price) (front : Node) (rest : List Node) (total : ℕ) (s : MatchState)
      (tail : List Entry)
      → accepts price ≡ true
      → 0 < s.remaining_units
      → let (level, s') = execute_front incoming price front rest total s in
        fill accepts incoming s (tag price (front ∷ rest) ++ tail)
        ≡ fill accepts incoming s' (tag price level.orders ++ tail)
  unfolding fill execute_front
  fill-execute_front price front rest total s tail ok some_left = ground arith

  -- A round shortens the queue or uses the incoming order up.
  execute_front_progress :
      (price : Price) (front : Node) (rest : List Node) (total : ℕ) (s : MatchState)
      → let (level, s') = execute_front incoming price front rest total s in
        (level.orders ≡ rest) ⊎ (s'.remaining_units ≡ 0)
  unfolding execute_front
  execute_front_progress price front rest total s = ground arith

  -- What the inner loop has done when it stops.
  abbrev LevelLoop : Price → List Node → List Entry → MatchState → PriceLevel × MatchState → Type 0
  LevelLoop price ns tail s (level, s') =
      (fill accepts incoming s (tag price ns ++ tail)
        ≡ fill accepts incoming s' (tag price level.orders ++ tail))
      × ((level.orders ≡ []) ⊎ (s'.remaining_units ≡ 0))

  -- With a round for each order and one more the inner loop stops by its own test, and it has
  -- walked along the level.
  match_level-LevelLoop :
      (fuel : ℕ) (price : Price) (total : ℕ) (ns : List Node) (s : MatchState) (tail : List Entry)
      → accepts price ≡ true
      → (length ns < fuel) ⊎ (s.remaining_units ≡ 0)
      → LevelLoop price ns tail s (match_level fuel incoming price total ns s)
  unfolding match_level
  match_level-LevelLoop zero price total ns s tail ok h = (refl, ground arith)
  match_level-LevelLoop (suc fuel) price total [] s tail ok h = (refl, inl refl)
  match_level-LevelLoop (suc fuel) price total (front ∷ rest) s tail ok h =
      elim (Bool-cases (ltb 0 s.remaining_units)) [
        | inl go ↦
            let (level, s') = execute_front incoming price front rest total s in
            let left : (length level.orders < fuel) ⊎ (s'.remaining_units ≡ 0) =
              fuel_left fuel rest level.orders s'.remaining_units (ground arith)
                (execute_front_progress price front rest total s) in
            let ih =
              match_level-LevelLoop fuel price level.total_units level.orders s' tail ok left in
            rw (go, match_level)
              (fill-execute_front price front rest total s tail ok (ground arith) ∙ ih.0, ih.1)
        | inr stop ↦ rw (stop, match_level) (refl, inr (ground arith))
      ]

  -- With a round for each level and one more, the loops are the walk.
  pub match_levels-fill :
      (fuel : ℕ) (levels : Levels) (s : MatchState)
      → AreNonempty levels
      → (length levels < fuel) ⊎ (s.remaining_units ≡ 0)
      → flat (match_levels fuel accepts incoming levels s)
        ≡ fill accepts incoming s (entries levels)
  unfolding match_levels
  match_levels-fill zero levels s ne h =
      sym (fill_done accepts incoming s (entries levels) (ground arith))
  match_levels-fill (suc fuel) [] s ne h = unfold fill in refl
  match_levels-fill (suc fuel) ((price, level) ∷ rest) s ne h =
      elim (Bool-cases (ltb 0 s.remaining_units && accepts price)) [
        | inl go ↦
            let (level', s') =
              match_level (suc (length level.orders)) incoming price level.total_units level.orders
                s in
            let loop : LevelLoop price level.orders (entries rest) s (level', s') =
              match_level-LevelLoop (suc (length level.orders)) price level.total_units level.orders
                s (entries rest) (ground arith) (inl (omega arith)) in
            let next = erase_if_empty price level'.total_units level'.orders rest in
            let ih =
              match_levels-fill fuel next s'
                (erase_if_empty-AreNonempty price level'.total_units level'.orders rest ne.1)
                (levels_left fuel price level'.total_units level'.orders rest s'.remaining_units
                  (ground arith) loop.1) in
            rw (go, match_levels)
              (ih
                ∙ ap (fill accepts incoming s')
                    (entries-erase_if_empty price level'.total_units level'.orders rest)
                ∙ sym loop.0)
        | inr stop ↦
            rw (stop, match_levels)
              (sym (fill_refused accepts incoming price level.orders s (entries rest) ne.0 stop))
      ]
