-- ===== src/Book/Valid/Match.antt =====
-- A match keeps a book valid, and leaves no order on the contra side that it could still trade with.
use low_latency_exchange.Prelude.{
  ℕ, suc, ◌≤◌, Bool, false, Option, some, List, [], ◌∷◌, ◌++◌, ltb, leb, ◌&&◌, ◌≡◌, ◌≢◌, refl, sym,
  ap, subst, arith, ◌⊎◌, inl, inr, Bool-cases, length, All, All-append,
}
use low_latency_exchange.Types.{Price, OrderId, Side, buy, sell, OrderType, limit}
use low_latency_exchange.Assoc.{lookup, IsMap, lookup_of_erase, erase-IsMap}
use low_latency_exchange.Book.State.{Node, OrderLocation, Levels, OrderBook, opposite, side_levels}
use low_latency_exchange.Book.Match.{MatchState, marketable, match_levels, match_against_book}
use low_latency_exchange.Book.Fill.{Entry, tag, entries, take_whole, AreNonempty, fill}
use low_latency_exchange.Book.Fill.Loops.{flat, match_levels-fill}
use low_latency_exchange.Book.Fill.Trades.{IsRefused, fill_exhausts, fill_conserves}
use low_latency_exchange.Book.Index.Walk.{fill-InStep, InStep}
use low_latency_exchange.Book.Levels.{AreBehind, AreLevels}
use low_latency_exchange.Book.Levels.Loops.{match_levels-AreLevels}
use low_latency_exchange.Book.Valid.{Clears, AreValid, IsValidFor}
use low_latency_exchange.Book.Valid.Parts.{
  flip-AreValid, unflip-AreValid, fill-All, refused-behind, clears_of_refused,
}

pub AreLevels-AreNonempty :
    (side : Side) (levels : Levels) → AreLevels side levels → AreNonempty levels
AreLevels-AreNonempty side [] v = tt
AreLevels-AreNonempty side ((p, level) ∷ rest) v = (v.0, AreLevels-AreNonempty side rest v.3)

tag-All {ℓ} :
    (P : Entry → Type ℓ) (p : Price) (ns : List Node) → ((n : Node) → P (p, n)) → All P (tag p ns)
tag-All P p [] h = tt
tag-All P p (n ∷ ns) h = (h n, tag-All P p ns h)

module _ (side : Side) (bound : Price) where
  Clears-behind :
      (p : Price) (levels : Levels)
      → marketable side limit (some bound) p ≡ false
      → AreBehind (opposite side) p levels
      → Clears side bound (entries levels)
  Clears-behind p [] h b = tt
  Clears-behind p ((q, level) ∷ rest) h b =
      All-append _ (tag q level.orders) (entries rest)
        (tag-All _ q level.orders
          (λ n. clears_of_refused side bound q (refused-behind side bound p q h b.0)))
        (Clears-behind p rest h b.1)

  -- Where the best order is refused, the bound clears the whole side.
  pub IsRefused-Clears :
      (levels : Levels)
      → AreLevels (opposite side) levels
      → IsRefused (marketable side limit (some bound)) (entries levels)
      → Clears side bound (entries levels)
  IsRefused-Clears [] v h = tt
  IsRefused-Clears ((p, level) ∷ rest) v h =
      let refused = front level.orders v.0 h in
      All-append _ (tag p level.orders) (entries rest)
        (tag-All _ p level.orders (λ n. clears_of_refused side bound p refused))
        (Clears-behind p rest refused v.2)
    where
      front :
          (ns : List Node)
          → ns ≢ []
          → IsRefused (marketable side limit (some bound)) (tag p ns ++ entries rest)
          → marketable side limit (some bound) p ≡ false
      front [] ne h = absurd (ne refl)
      front (n ∷ ns) ne h = h

-- The walk drops entries of the index, and adds none.
fill-lookup :
    (accepts : Price → Bool) (incoming : OrderId) (s : MatchState) (es : List Entry)
    → IsMap s.resting_orders
    → (j : OrderId) (loc : OrderLocation)
    → lookup j (fill accepts incoming s es).1.resting_orders ≡ some loc
    → lookup j s.resting_orders ≡ some loc
unfolding fill
fill-lookup accepts incoming s [] m j loc = λ h. h
fill-lookup accepts incoming s ((price, n) ∷ es) m j loc =
    elim (Bool-cases (ltb 0 s.remaining_units && accepts price)) [
      | inr stop ↦ rw (stop, fill) (λ h. h)
      | inl go ↦ elim (Bool-cases (leb n.order.remaining_quantity s.remaining_units)) [
        | inl whole ↦
            rw (go, whole, fill)
              (λ h. lookup_of_erase n.order.order_id j s.resting_orders loc m (
                fill-lookup accepts incoming (take_whole incoming price n s) es
                  (erase-IsMap n.order.order_id s.resting_orders m) j loc h))
        | inr part ↦ rw (go, part, fill) (λ h. h)
      ]
    ]

-- The walk keeps the parts of a book valid.
fill-AreValid :
    (next : ℕ) (ids : List OrderId) (contra : Side) (accepts : Price → Bool) (incoming : OrderId)
    (s : MatchState) (levels own levels' : Levels) (s' : MatchState)
    → AreValid s.resting_orders s.resting_order_count next ids contra levels own
    → AreLevels contra levels'
    → flat (levels', s') ≡ fill accepts incoming s (entries levels)
    → AreValid s'.resting_orders s'.resting_order_count next ids contra levels' own
fill-AreValid next ids contra accepts incoming s levels own levels' s' v sorted e =
    let es : entries levels' ≡ (fill accepts incoming s (entries levels)).0 = ap (λ r. r.0) e in
    let st : s' ≡ (fill accepts incoming s (entries levels)).1 = ap (λ r. r.1) e in
    record {
      sorted = sorted;
      sorted_own = v.sorted_own;
      index =
          subst (λ r. InStep contra (entries own) r.1 r.0) (sym e)
            (fill-InStep accepts incoming contra (entries own) s (entries levels) v.index);
      below = rw es (fill-All _ accepts incoming s (entries levels) (λ _ _ _ h. h) v.below);
      below_own = v.below_own;
      uncrossed = rw es (fill-All _ accepts incoming s (entries levels) (λ _ _ _ h. h) v.uncrossed);
      known = λ id loc h. v.known id loc (
          fill-lookup accepts incoming s (entries levels) v.index.map id loc
            (subst (λ (r : MatchState). lookup id r.resting_orders ≡ some loc) st h));
    }

-- What a match promises of the book that it is given, for an order of `side`.
pub record Matched (side : Side) (type : OrderType) (limit_price : Option Price) (units : ℕ)
    (b b' : OrderBook) (units' : ℕ) : Type 0 where
  pub valid : IsValidFor side b'
  pub own : side_levels side b' ≡ side_levels side b
  pub seen : b'.seen_order_ids ≡ b.seen_order_ids
  pub next : b'.next_address ≡ b.next_address
  pub dropped :
      (j : OrderId) (loc : OrderLocation)
      → lookup j b'.resting_orders ≡ some loc
      → lookup j b.resting_orders ≡ some loc
  pub bounded : units' ≤ units
  pub exhausted :
      (units' ≡ 0)
      ⊎ IsRefused (marketable side type limit_price) (entries (side_levels (opposite side) b'))

-- The state in which the loops start.
abbrev pub start : ℕ → OrderBook → MatchState
start units b = record {
  remaining_units = units;
  executions = [];
  resting_orders = b.resting_orders;
  resting_order_count = b.resting_order_count;
}

-- The loops of a match, over the levels of the contra side.
abbrev loops : OrderId → Side → (Price → Bool) → ℕ → OrderBook → Levels × MatchState
loops incoming side accepts units b =
    match_levels (suc (length (side_levels (opposite side) b))) accepts incoming
      (side_levels (opposite side) b) (start units b)

-- They are the walk along that side's queue.
pub loops-fill :
    (incoming : OrderId) (side : Side) (accepts : Price → Bool) (units : ℕ) (b : OrderBook)
    → AreNonempty (side_levels (opposite side) b)
    → flat (loops incoming side accepts units b)
      ≡ fill accepts incoming (start units b) (entries (side_levels (opposite side) b))
loops-fill incoming side accepts units b ne =
    match_levels-fill accepts incoming (suc (length (side_levels (opposite side) b)))
      (side_levels (opposite side) b) (start units b) ne (inl (omega arith))

module _ (incoming : OrderId) (side : Side) (accepts : Price → Bool) (units : ℕ) (b : OrderBook)
    (v : IsValidFor side b) where
  walk :
      flat (loops incoming side accepts units b)
      ≡ fill accepts incoming (start units b) (entries (side_levels (opposite side) b))
  walk =
      loops-fill incoming side accepts units b
        (AreLevels-AreNonempty (opposite side) (side_levels (opposite side) b) v.sorted_own)

  loops-AreValid :
      let (levels, s) = loops incoming side accepts units b in
      AreValid s.resting_orders s.resting_order_count b.next_address b.seen_order_ids side
        (side_levels side b)
        levels
  loops-AreValid =
      let (levels, s) = loops incoming side accepts units b in
      unflip-AreValid s.resting_orders s.resting_order_count b.next_address b.seen_order_ids side
        (side_levels side b) levels
        (fill-AreValid b.next_address b.seen_order_ids (opposite side) accepts incoming
          (start units b) (side_levels (opposite side) b) (side_levels side b) levels s
          (flip-AreValid b.resting_orders b.resting_order_count b.next_address b.seen_order_ids side
            (side_levels side b) (side_levels (opposite side) b) v)
          (match_levels-AreLevels (opposite side) (suc (length (side_levels (opposite side) b)))
            accepts incoming (side_levels (opposite side) b) (start units b) v.sorted_own)
          walk)

  loops-dropped :
      (j : OrderId) (loc : OrderLocation)
      → lookup j (loops incoming side accepts units b).1.resting_orders ≡ some loc
      → lookup j b.resting_orders ≡ some loc
  loops-dropped j loc h =
      fill-lookup accepts incoming (start units b) (entries (side_levels (opposite side) b))
        v.index.map j loc (subst (λ r. lookup j r.1.resting_orders ≡ some loc) walk h)

  loops-exhausted :
      let (levels, s) = loops incoming side accepts units b in
      (s.remaining_units ≡ 0) ⊎ IsRefused accepts (entries levels)
  loops-exhausted =
      subst (λ r. (r.1.remaining_units ≡ 0) ⊎ IsRefused accepts r.0) (sym walk)
        (fill_exhausts accepts incoming (start units b) (entries (side_levels (opposite side) b)))

  loops_bounded : (loops incoming side accepts units b).1.remaining_units ≤ units
  loops_bounded =
      subst (λ r. r.1.remaining_units ≤ units) (sym walk)
        (omega (
          arith,
          (fill_conserves accepts incoming (start units b)
              (entries (side_levels (opposite side) b))).0,
        ))

pub match_against_book-Matched :
    (incoming : OrderId) (side : Side) (type : OrderType) (limit_price : Option Price) (units : ℕ)
    (b : OrderBook)
    → IsValidFor side b
    → let (b', units', _) = match_against_book incoming side type limit_price units b in
      Matched side type limit_price units b b' units'
unfolding match_against_book
match_against_book-Matched incoming buy type limit_price units b v =
    let accepts = marketable buy type limit_price in
    record {
      valid = loops-AreValid incoming buy accepts units b v;
      own = refl;
      seen = refl;
      next = refl;
      dropped = loops-dropped incoming buy accepts units b v;
      bounded = loops_bounded incoming buy accepts units b v;
      exhausted = loops-exhausted incoming buy accepts units b v;
    }
match_against_book-Matched incoming sell type limit_price units b v =
    let accepts = marketable sell type limit_price in
    record {
      valid = loops-AreValid incoming sell accepts units b v;
      own = refl;
      seen = refl;
      next = refl;
      dropped = loops-dropped incoming sell accepts units b v;
      bounded = loops_bounded incoming sell accepts units b v;
      exhausted = loops-exhausted incoming sell accepts units b v;
    }
