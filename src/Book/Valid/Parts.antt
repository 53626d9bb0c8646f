-- ===== src/Book/Valid/Parts.antt =====
-- The two sides of a valid book change places, and a price that is refused clears the queue.
use low_latency_exchange.Prelude.{
  ℕ, ◌+◌, Bool, true, false, some, List, [], ◌∷◌, ltb, leb, ◌&&◌, ◌≡◌, refl, arith, inl, inr,
  Bool-cases, All,
}
use low_latency_exchange.Types.{Price, OrderId, Side, buy, sell, limit}
use low_latency_exchange.Book.State.{Node, Levels, before, opposite}
use low_latency_exchange.Book.Match.{marketable, MatchState}
use low_latency_exchange.Book.Fill.{Entry, entries, take_whole, with_quantity, fill}
use low_latency_exchange.Book.Queue.{AreElsewhere}
use low_latency_exchange.Book.Index.{Locations, IsIndexed}
use low_latency_exchange.Book.Valid.{AreBelow, AreUncrossed, AreValid}

-- `before` from the other side.
flip-before :
    (side : Side) (p q : Price)
    → before (opposite side) p q ≡ true
    → before (opposite (opposite side)) q p ≡ true
flip-before buy p q h = h
flip-before sell p q h = h

flip-AreUncrossed :
    (side : Side) (es own : List Entry)
    → AreUncrossed side es own
    → AreUncrossed (opposite side) own es
flip-AreUncrossed side es [] h = tt
flip-AreUncrossed side es (e ∷ own) h = (column es h, flip-AreUncrossed side es own (rest es h))
  where
    column :
        (l : List Entry)
        → AreUncrossed side l (e ∷ own)
        → All (λ x. before (opposite (opposite side)) e.0 x.0 ≡ true) l
    column [] h = tt
    column (x ∷ l) h = (flip-before side x.0 e.0 h.0.0, column l h.1)

    rest : (l : List Entry) → AreUncrossed side l (e ∷ own) → AreUncrossed side l own
    rest [] h = tt
    rest (x ∷ l) h = (h.0.1, rest l h.1)

opposite-opposite : (side : Side) → opposite (opposite side) ≡ side
opposite-opposite buy = refl
opposite-opposite sell = refl

pub flip-IsIndexed :
    {m : Locations} {count : ℕ} (side : Side) {es own : List Entry}
    → IsIndexed m count side es own
    → IsIndexed m count (opposite side) own es
flip-IsIndexed buy v = record {
  map = v.map;
  located = v.located_own;
  located_own = v.located;
  backed = v.backed_own;
  backed_own = v.backed;
  apart = v.apart_own;
  apart_own = v.apart;
  size = omega (arith, v.size);
  counted = v.counted;
}
flip-IsIndexed sell v = record {
  map = v.map;
  located = v.located_own;
  located_own = v.located;
  backed = v.backed_own;
  backed_own = v.backed;
  apart = v.apart_own;
  apart_own = v.apart;
  size = omega (arith, v.size);
  counted = v.counted;
}

-- A book's validity, seen from the other side.
pub flip-AreValid :
    (m : Locations) (count next : ℕ) (ids : List OrderId) (side : Side) (levels own : Levels)
    → AreValid m count next ids side levels own
    → AreValid m count next ids (opposite side) own levels
flip-AreValid m count next ids buy levels own v = record {
  sorted = v.sorted_own;
  sorted_own = v.sorted;
  index = flip-IsIndexed buy v.index;
  below = v.below_own;
  below_own = v.below;
  uncrossed = flip-AreUncrossed buy (entries levels) (entries own) v.uncrossed;
  known = v.known;
}
flip-AreValid m count next ids sell levels own v = record {
  sorted = v.sorted_own;
  sorted_own = v.sorted;
  index = flip-IsIndexed sell v.index;
  below = v.below_own;
  below_own = v.below;
  uncrossed = flip-AreUncrossed sell (entries levels) (entries own) v.uncrossed;
  known = v.known;
}

pub unflip-AreValid :
    (m : Locations) (count next : ℕ) (ids : List OrderId) (side : Side) (own levels : Levels)
    → AreValid m count next ids (opposite side) levels own
    → AreValid m count next ids side own levels
unflip-AreValid m count next ids buy own levels v = flip-AreValid m count next ids sell levels own v
unflip-AreValid m count next ids sell own levels v = flip-AreValid m count next ids buy levels own v

pub AreBelow-AreElsewhere : (next : ℕ) (es : List Entry) → AreBelow next es → AreElsewhere next es
AreBelow-AreElsewhere next [] h = tt
AreBelow-AreElsewhere next (e ∷ es) h =
    ((λ eq. omega (arith, h.0)), AreBelow-AreElsewhere next es h.1)

pub AreBelow-suc : (next : ℕ) (es : List Entry) → AreBelow next es → AreBelow (next + 1) es
AreBelow-suc next [] h = tt
AreBelow-suc next (e ∷ es) h = (omega (arith, h.0), AreBelow-suc next es h.1)

-- A walk leaves entries that it found.
pub fill-All {ℓ} :
    (P : Entry → Type ℓ) (accepts : Price → Bool) (incoming : OrderId) (s : MatchState)
    (es : List Entry)
    → ((p : Price) (n : Node) (q : ℕ) → P (p, n) → P (p, with_quantity n q))
    → All P es
    → All P (fill accepts incoming s es).0
unfolding fill
fill-All P accepts incoming s [] keep h = tt
fill-All P accepts incoming s ((price, n) ∷ es) keep h =
    elim (Bool-cases (ltb 0 s.remaining_units && accepts price)) [
      | inr stop ↦ rw (stop, fill) h
      | inl go ↦ elim (Bool-cases (leb n.order.remaining_quantity s.remaining_units)) [
        | inl whole ↦
            rw (go, whole, fill)
              (fill-All P accepts incoming (take_whole incoming price n s) es keep h.1)
        | inr part ↦ rw (go, part, fill) (keep price n _ h.0, h.1)
      ]
    ]

-- What a limit refuses, it refuses behind it too.
pub refused-behind :
    (side : Side) (bound p q : Price)
    → marketable side limit (some bound) p ≡ false
    → before (opposite side) p q ≡ true
    → marketable side limit (some bound) q ≡ false
unfolding marketable
refused-behind buy bound p q h b = ground arith
refused-behind sell bound p q h b = ground arith

pub clears_of_refused :
    (side : Side) (bound p : Price)
    → marketable side limit (some bound) p ≡ false
    → before (opposite side) bound p ≡ true
unfolding marketable
clears_of_refused buy bound p h = ground arith
clears_of_refused sell bound p h = ground arith
