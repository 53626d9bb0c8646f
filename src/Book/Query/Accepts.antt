-- ===== src/Book/Query/Accepts.antt =====
-- `validate_invariants` accepts every valid book whose totals have not wrapped.
use low_latency_exchange.Prelude.{
  ℕ, suc, ◌+◌, ◌<◌, true, false, some, List, [], ◌∷◌, ◌++◌, ◌≡◌, ◌≢◌, refl, ap, ◌∙◌, arith, All,
  length, length-append, u64_mod, add64,
}
use low_latency_exchange.Types.{Price, Side, buy, sell}
use low_latency_exchange.Book.State.{Node, Levels, OrderBook, side_levels}
use low_latency_exchange.Book.Fill.{Entry, tag, entries}
use low_latency_exchange.Book.Queue.{find_entry, AreApart, AreElsewhere}
use low_latency_exchange.Book.Index.{AreLocated}
use low_latency_exchange.Book.Levels.{units, AreLevels}
use low_latency_exchange.Book.Valid.{IsValid, IsValidFor, AreUncrossed}
use low_latency_exchange.Book.Valid.Edits.{deref-find_entry}
use low_latency_exchange.Book.Valid.Submit.{to_side}
use low_latency_exchange.Book.Query.Quotes.{AreExact, units_pos}
use low_latency_exchange.Book.Query.Check.{
  check_order, count_units, count_orders, crossed, validate_invariants,
}

-- A queue's entries are found under their own prices and addresses.
abbrev AreFound : List Entry → List Entry → Type 0
AreFound all = All (λ e. find_entry e.0 e.1.address all ≡ some e.1)

AreFound-cons :
    (e : Entry) (all es : List Entry)
    → AreElsewhere e.1.address es
    → AreFound all es
    → AreFound (e ∷ all) es
unfolding find_entry
AreFound-cons e all [] a f = tt
AreFound-cons e all (e' ∷ es) a f = (ground (arith, f.0, a.0), AreFound-cons e all es a.1 f.1)

AreFound-self : (es : List Entry) → AreApart es → AreFound es es
unfolding find_entry
AreFound-self [] a = tt
AreFound-self (e ∷ es) a = (ground arith, AreFound-cons e es es a.0 (AreFound-self es a.1))

All-split {ℓ} : (P : Entry → Type ℓ) (xs ys : List Entry) → All P (xs ++ ys) → All P xs × All P ys
All-split P [] ys h = (tt, h)
All-split P (x ∷ xs) ys h = let (l, r) = All-split P xs ys h.1 in ((h.0, l), r)

length-tag : (p : Price) (ns : List Node) → length (tag p ns) ≡ length ns
length-tag p [] = refl
length-tag p (n ∷ ns) = ap suc (length-tag p ns)

module _ (side : Side) (b : OrderBook) (v : IsValidFor side b) where
  -- Every order passes the tests.
  AreChecked :
      (es : List Entry)
      → AreLocated b.resting_orders side es
      → AreFound (entries (side_levels side b)) es
      → All (λ e. check_order b side e.0 e.1 ≡ true) es
  unfolding check_order
  AreChecked [] l f = tt
  AreChecked ((p, n) ∷ es) l f = (
    rw (l.0, check_order) (rw (deref-find_entry side b p n.address n v f.0) (ground arith)),
    AreChecked es l.1 f.1,
  )

  abbrev ArePassed : List Entry → Type 0
  ArePassed = All (λ e. check_order b side e.0 e.1 ≡ true)

  count_units-units :
      (p : Price) (counted : ℕ) (ns : List Node)
      → ArePassed (tag p ns)
      → counted + units ns < u64_mod
      → count_units b side p counted ns ≡ some (counted + units ns)
  unfolding count_units
  count_units-units p counted [] c h = ap some (omega arith)
  count_units-units p counted (n ∷ ns) c h =
      let now : add64 counted n.order.remaining_quantity ≡ counted + n.order.remaining_quantity =
        omega arith in
      rw (c.0, count_units)
        (rw now (
          count_units-units p (counted + n.order.remaining_quantity) ns c.1 (omega arith)
          ∙ ap some (omega arith)))

  count_orders-length :
      (total : ℕ) (levels : Levels)
      → AreLevels side levels
      → AreExact levels
      → ArePassed (entries levels)
      → total + length (entries levels) < u64_mod
      → count_orders b side total levels ≡ some (total + length (entries levels))
  unfolding count_orders
  count_orders-length total [] s x c h = ap some (omega arith)
  count_orders-length total ((p, level) ∷ rest) s x c h =
      let (here, there) = All-split _ (tag p level.orders) (entries rest) c in
      let size = length-append (tag p level.orders) (entries rest) in
      let own = length-tag p level.orders in
      let now : add64 total (length level.orders) ≡ total + length level.orders =
        omega (arith, size, own) in
      rw (counted here) (
        rw now (
          ground (
            arith,
            size,
            own,
            s.1.0,
            units_pos level.orders s.0 s.1.1,
            count_orders-length (total + length level.orders) rest s.3 x.1 there,
            ap (λ (k : ℕ). some k) (sum size own),
          )))
    where
      counted :
          ArePassed (tag p level.orders)
          → count_units b side p 0 level.orders ≡ some (0 + units level.orders)
      counted here = count_units-units p 0 level.orders here (omega arith)

      sum :
          length (tag p level.orders ++ entries rest)
            ≡ length (tag p level.orders) + length (entries rest)
          → length (tag p level.orders) ≡ length level.orders
          → total + length level.orders + length (entries rest)
            ≡ total + length (tag p level.orders ++ entries rest)
      sum a b = omega arith

-- What holds of a side holds of its best order.
first_of_level {ℓ} :
    (P : Entry → Type ℓ) (p : Price) (ns : List Node) (es : List Entry)
    → ns ≢ []
    → All P (tag p ns ++ es)
    → (n : Node) × P (p, n)
first_of_level P p [] es ne h = absurd (ne refl)
first_of_level P p (n ∷ ns) es ne h = (n, h.0)

-- The best bid of uncrossed sides lies below the best ask.
crossed-AreUncrossed :
    (bids asks : Levels)
    → AreLevels buy bids
    → AreLevels sell asks
    → AreUncrossed buy (entries bids) (entries asks)
    → crossed bids asks ≡ false
unfolding crossed
crossed-AreUncrossed [] asks s t u = refl
crossed-AreUncrossed (b ∷ bids) [] s t u = refl
crossed-AreUncrossed ((p, l) ∷ bids) ((q, m) ∷ asks) s t u =
    let (n, row) = first_of_level _ p l.orders (entries bids) s.0 u in
    let (k, clear) = first_of_level _ q m.orders (entries asks) t.0 row in rw clear

-- The checker of the source accepts every valid book, if no total and no count has wrapped.
pub validate_invariants-IsValid :
    (b : OrderBook)
    → IsValid b
    → AreExact b.bids
    → AreExact b.asks
    → length b.resting_orders < u64_mod
    → validate_invariants b ≡ true
unfolding validate_invariants
validate_invariants-IsValid b v x y small =
    let own = to_side sell b v in
    let bids_counted =
      count_orders-length buy b v 0 b.bids v.sorted x
        (AreChecked buy b v (entries b.bids) v.index.located
          (AreFound-self (entries b.bids) v.index.apart))
        (omega (arith, v.index.size)) in
    let asks_counted =
      count_orders-length sell b own (0 + length (entries b.bids)) b.asks v.sorted_own y
        (AreChecked sell b own (entries b.asks) v.index.located_own
          (AreFound-self (entries b.asks) v.index.apart_own))
        (omega (arith, v.index.size)) in
    rw (crossed-AreUncrossed b.bids b.asks v.sorted v.sorted_own v.uncrossed)
      (rw bids_counted (rw asks_counted (ground (arith, v.index.size, v.index.counted))))
