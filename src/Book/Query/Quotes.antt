-- ===== src/Book/Query/Quotes.antt =====
-- What the queries report of a valid book, and where a total that wraps makes them undefined.
use low_latency_exchange.Prelude.{
  ℕ, zero, suc, ◌+◌, ◌-◌, ◌%◌, ◌≤◌, ◌<◌, false, subst, Option, none, some, List, [], ◌∷◌, ◌++◌,
  ◌==◌, ◌≡◌, ◌≢◌, refl, sym, ap, ◌∙◌, arith, All, length, set, take, replicate, append-nil,
  append_assoc, length-append, u64_mod, Bool-cases, inl, inr,
}
use low_latency_exchange.Types.{Price, IsWord, Side, buy, sell}
use low_latency_exchange.Book.State.{Node, PriceLevel, Levels, OrderBook, LevelQuote}
use low_latency_exchange.Book.Levels.{units, AreLevels}
use low_latency_exchange.Book.Valid.{IsValid}
use low_latency_exchange.Book.Query.{
  quote, top, top_bid, collect, depth, copy_from, reset_all, copy_depth,
}

-- The totals that a word can hold.
abbrev pub AreExact : Levels → Type 0
AreExact = All (λ e. units e.1.orders < u64_mod)

-- A level as it is to be shown.
abbrev pub shown : Price × PriceLevel → LevelQuote
shown (price, level) = record {
  price = price;
  quantity = units level.orders;
  order_count = length level.orders;
}

abbrev pub quotes : Levels → List LevelQuote
quotes [] = []
quotes (e ∷ es) = shown e ∷ quotes es

pub units_pos :
    (ns : List Node) → ns ≢ [] → All (λ n. IsWord (n.order.remaining_quantity)) ns → 0 < units ns
units_pos [] ne w = absurd (ne refl)
units_pos (n ∷ ns) ne w = omega (arith, w.0)

quote-shown :
    (side : Side) (e : Price × PriceLevel) (rest : Levels)
    → AreLevels side (e ∷ rest)
    → units e.1.orders < u64_mod
    → quote e ≡ some (shown e)
unfolding quote
quote-shown side (p, level) rest v x = ground (arith, units_pos level.orders v.0 v.1.1, v.1.0)

pub top-shown :
    (side : Side) (levels : Levels)
    → AreLevels side levels
    → AreExact levels
    → top levels ≡ some (elim levels [ [] ↦ none | e ∷ rest ↦ some (shown e) ])
unfolding top
top-shown side [] v x = refl
top-shown side (e ∷ rest) v x = rw (quote-shown side e rest v x.0)

collect-quotes :
    (side : Side) (n : ℕ) (out : List LevelQuote) (levels : Levels)
    → AreLevels side levels
    → AreExact levels
    → length out ≤ n
    → collect n out levels ≡ some (out ++ take (n - length out) (quotes levels))
unfolding collect
collect-quotes side n out [] v x h = ap some (sym (none-left (n - length out)))
  where
    none-left : (k : ℕ) → out ++ take k [] ≡ out
    none-left zero = append-nil out
    none-left (suc k) = append-nil out
collect-quotes side n out (e ∷ rest) v x h = elim (Bool-cases (length out == n)) [
  | inl full ↦ rw full (ap some (sym (stop (n - length out) (ground arith))))
  | inr more ↦
      rw (more, quote-shown side e rest v x.0)
        (collect-quotes side n (out ++ shown e ∷ []) rest v.3 x.1
            (ground (arith, length-append {0} out (shown e ∷ [])))
          ∙ ap some (
              append_assoc out (shown e ∷ []) _
              ∙ ap (◌++◌ out)
                  (one (n - length out) _ (ground (arith, length-append {0} out (shown e ∷ []))))))
]
  where
    stop : (k : ℕ) → k ≡ 0 → out ++ take k (quotes (e ∷ rest)) ≡ out
    stop zero h = append-nil out
    stop (suc k) h = absurd (omega arith)

    one : (k j : ℕ) → k ≡ suc j → shown e ∷ take j (quotes rest) ≡ take k (quotes (e ∷ rest))
    one zero j h = absurd (omega arith)
    one (suc k) j h = ap (λ i. shown e ∷ take i (quotes rest)) (omega arith)

-- The depth of a valid book is the first levels of each side, best first, with the units and the
-- number of the orders that stand there, provided that no total has wrapped.
pub depth-quotes :
    (n : ℕ) (b : OrderBook)
    → IsValid b
    → AreExact b.bids
    → AreExact b.asks
    → depth n b ≡ some (record { bids = take n (quotes b.bids); asks = take n (quotes b.asks) })
unfolding depth
depth-quotes n b v x y =
    rw (collect-quotes buy n [] b.bids v.sorted x (omega arith))
      (rw (collect-quotes sell n [] b.asks v.sorted_own y (omega arith)) (rw whole))
  where
    whole : n - 0 ≡ n
    whole = omega arith

-- A span of `k` entries: the quotes in it, then empty ones.
abbrev pub pad : ℕ → List LevelQuote → List (Option LevelQuote)
pad zero qs = []
pad (suc k) [] = none ∷ pad k []
pad (suc k) (q ∷ qs) = some q ∷ pad k qs

pad-nil : (k : ℕ) → replicate k none ≡ pad k []
pad-nil zero = refl
pad-nil (suc k) = ap (◌∷◌ none) (pad-nil k)

set_next :
    (pre : List (Option LevelQuote)) (k : ℕ) (q : Option LevelQuote)
    → set (pre ++ none ∷ replicate k none) (length pre) q ≡ (pre ++ q ∷ []) ++ replicate k none
set_next [] k q = refl
set_next (x ∷ pre) k q = ap (◌∷◌ x) (set_next pre k q)

length_span :
    (pre : List (Option LevelQuote)) (k : ℕ) → length (pre ++ replicate k none) ≡ length pre + k
length_span [] zero = omega arith
length_span [] (suc k) = omega (arith, length_span [] k)
length_span (x ∷ pre) k = omega (arith, length_span pre k)

copy_from-pad :
    (side : Side) (pre : List (Option LevelQuote)) (k : ℕ) (levels : Levels)
    → AreLevels side levels
    → AreExact levels
    → copy_from (length pre) (pre ++ replicate k none) levels ≡ some (pre ++ pad k (quotes levels))
unfolding copy_from
copy_from-pad side pre k [] v x = ap (λ l. some (pre ++ l)) (pad-nil k)
copy_from-pad side pre zero (e ∷ rest) v x =
    rw (ap (◌==◌ (length pre)) (length_span pre zero)) (ground arith)
copy_from-pad side pre (suc k) (e ∷ rest) v x =
    let room : (length pre == length (pre ++ replicate (suc k) none)) ≡ false =
      ground (arith, length_span pre (suc k)) in
    rw room (
      rw (quote-shown side e rest v x.0) (
        rw (set_next pre k (some (shown e))) (
          ap (λ i. copy_from i ((pre ++ some (shown e) ∷ []) ++ replicate k none) rest)
            (sym (length-append pre (some (shown e) ∷ [])))
          ∙ copy_from-pad side (pre ++ some (shown e) ∷ []) k rest v.3 x.1
          ∙ ap some (append_assoc pre (some (shown e) ∷ []) _))))

reset_all-replicate : (out : List (Option LevelQuote)) → reset_all out ≡ replicate (length out) none
unfolding reset_all
reset_all-replicate [] = refl
reset_all-replicate (q ∷ out) = ap (◌∷◌ none) (reset_all-replicate out)

-- Whatever the two spans held before, `copy_depth` of a valid book in which no total has wrapped
-- writes the first levels of each side into them, best first, as many as there is room for, and
-- leaves every other entry empty.
pub copy_depth-pad :
    (bid_out ask_out : List (Option LevelQuote)) (b : OrderBook)
    → IsValid b
    → AreExact b.bids
    → AreExact b.asks
    → copy_depth bid_out ask_out b
      ≡ some (pad (length bid_out) (quotes b.bids), pad (length ask_out) (quotes b.asks))
unfolding copy_depth
copy_depth-pad bid_out ask_out b v x y =
    rw (reset_all-replicate bid_out, reset_all-replicate ask_out)
      (rw (copy_from-pad buy [] (length bid_out) b.bids v.sorted x)
        (rw (copy_from-pad sell [] (length ask_out) b.asks v.sorted_own y) refl))

-- Where the units of the best bids add up to a multiple of 2 ^ 64, the total is 0 and the query
-- dereferences an empty `std::optional`.
pub top_bid_undefined :
    (b : OrderBook) (price : Price) (level : PriceLevel) (rest : Levels)
    → IsValid b
    → b.bids ≡ (price, level) ∷ rest
    → units level.orders % u64_mod ≡ 0
    → top_bid b ≡ none
unfolding top_bid quote top
top_bid_undefined b price level rest v e h =
    let total = (subst (AreLevels buy) e v.sorted).1.0 in rw (e, top) (ground (arith, total, h))
