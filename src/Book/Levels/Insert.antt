-- ===== src/Book/Levels/Insert.antt =====
-- `push_back` keeps the form of the levels, and on the entries it is insertion behind all orders
-- that are as good or better.
use low_latency_exchange.Prelude.{
  ℕ, ◌+◌, true, false, List, [], ◌∷◌, ◌++◌, ◌≡◌, ◌≢◌, refl, sym, ap, ◌∙◌, arith, inl, inr,
  Bool-cases, All, append_assoc, add64, subst,
}
use low_latency_exchange.Types.{Price, Side, IsWord}
use low_latency_exchange.Book.State.{Node, Levels, before}
use low_latency_exchange.Book.Edit.{push_back}
use low_latency_exchange.Book.Fill.{Entry, tag, entries}
use low_latency_exchange.Book.Queue.{insert_entry}
use low_latency_exchange.Book.Levels.{units, IsTotalled, AreBehind, AreLevels}
use low_latency_exchange.Book.Levels.Order.{before_tri, AreBehind-trans}

-- The units of a queue that gets one more order.
IsTotalled-snoc :
    (total : ℕ) (ns : List Node) (n : Node)
    → IsTotalled total ns
    → IsWord (n.order.remaining_quantity)
    → IsTotalled (add64 total n.order.remaining_quantity) (ns ++ n ∷ [])
IsTotalled-snoc total ns n h w = (omega (arith, h.0, units-snoc ns), words ns h.1)
  where
    units-snoc : (l : List Node) → units (l ++ n ∷ []) ≡ units l + n.order.remaining_quantity
    units-snoc [] = omega arith
    units-snoc (k ∷ l) = omega (arith, units-snoc l)

    words :
        (l : List Node)
        → All (λ k. IsWord (k.order.remaining_quantity)) l
        → All (λ k. IsWord (k.order.remaining_quantity)) (l ++ n ∷ [])
    words [] h = (w, tt)
    words (k ∷ l) h = (h.0, words l h.1)

snoc-ne-nil : (ns : List Node) (n : Node) → ns ++ n ∷ [] ≢ []
snoc-ne-nil [] n e = cc
snoc-ne-nil (k ∷ ns) n e = cc

push_back-AreBehind :
    (side : Side) (p price : Price) (n : Node) (levels : Levels)
    → before side p price ≡ true
    → AreBehind side p levels
    → AreBehind side p (push_back side price n levels)
unfolding push_back
push_back-AreBehind side p price n [] b h = (b, tt)
push_back-AreBehind side p price n ((q, level) ∷ rest) b h =
    elim (Bool-cases (before side price q)) [
      | inl first ↦ rw first (b, h)
      | inr later ↦ elim (Bool-cases (before side q price)) [
        | inl on ↦ rw (later, on) (h.0, push_back-AreBehind side p price n rest b h.1)
        | inr here ↦ rw (later, here) h
      ]
    ]

pub push_back-AreLevels :
    (side : Side) (price : Price) (n : Node) (levels : Levels)
    → IsWord (n.order.remaining_quantity)
    → AreLevels side levels
    → AreLevels side (push_back side price n levels)
unfolding push_back
push_back-AreLevels side price n [] w h = ((λ e. cc), (omega arith, (w, tt)), tt, tt)
push_back-AreLevels side price n ((p, level) ∷ rest) w h = elim (Bool-cases (before side price p)) [
  | inl first ↦
      rw first
        ((λ e. cc), (omega arith, (w, tt)), (first, AreBehind-trans side price p rest first h.2), h)
  | inr later ↦ elim (Bool-cases (before side p price)) [
    | inl on ↦
        rw (later, on)
          (
            h.0,
            h.1,
            push_back-AreBehind side p price n rest on h.2,
            push_back-AreLevels side price n rest w h.3,
          )
    | inr here ↦
        rw (later, here)
          (
            snoc-ne-nil level.orders n,
            IsTotalled-snoc level.total_units level.orders n h.1 w,
            h.2,
            h.3,
          )
  ]
]

-- Past a level whose price is as good or better.
insert-tag :
    (side : Side) (e : Entry) (p : Price) (ns : List Node) (es : List Entry)
    → before side e.0 p ≡ false
    → insert_entry side e (tag p ns ++ es) ≡ tag p ns ++ insert_entry side e es
unfolding insert_entry
insert-tag side e p [] es b = refl
insert-tag side e p (n ∷ ns) es b = rw b (ap (◌∷◌ (p, n)) (insert-tag side e p ns es b))

-- In front of levels that come behind the price.
insert-behind :
    (side : Side) (price : Price) (n : Node) (levels : Levels)
    → AreLevels side levels
    → AreBehind side price levels
    → insert_entry side (price, n) (entries levels) ≡ (price, n) ∷ entries levels
unfolding insert_entry
insert-behind side price n [] v h = refl
insert-behind side price n ((p, level) ∷ rest) v h = front level.orders v.0
  where
    front :
        (ns : List Node)
        → ns ≢ []
        → insert_entry side (price, n) (tag p ns ++ entries rest)
          ≡ (price, n) ∷ tag p ns ++ entries rest
    front [] ne = absurd (ne refl)
    front (k ∷ ns) ne = rw h.0

tag-snoc : (p : Price) (ns : List Node) (n : Node) → tag p (ns ++ n ∷ []) ≡ tag p ns ++ (p, n) ∷ []
tag-snoc p [] n = refl
tag-snoc p (k ∷ ns) n = ap (◌∷◌ (p, k)) (tag-snoc p ns n)

-- `push_back` is insertion behind all orders that are as good or better.
pub entries-push_back :
    (side : Side) (price : Price) (n : Node) (levels : Levels)
    → AreLevels side levels
    → entries (push_back side price n levels) ≡ insert_entry side (price, n) (entries levels)
unfolding push_back
entries-push_back side price n [] v = unfold insert_entry in refl
entries-push_back side price n ((p, level) ∷ rest) v = elim (Bool-cases (before side price p)) [
  | inl first ↦ rw first (
      sym (
        insert-behind side price n ((p, level) ∷ rest) v
          (first, AreBehind-trans side price p rest first v.2)))
  | inr later ↦ elim (Bool-cases (before side p price)) [
    | inl on ↦
        rw (later, on)
          (ap (◌++◌ (tag p level.orders)) (entries-push_back side price n rest v.3)
            ∙ sym (insert-tag side (price, n) p level.orders (entries rest) later))
    | inr here ↦
        let same : price ≡ p = before_tri side price p later here in
        rw (later, here)
          (ap (λ l. l ++ entries rest) (tag-snoc p level.orders n)
            ∙ append_assoc (tag p level.orders) _ _
            ∙ ap (λ q. tag p level.orders ++ (q, n) ∷ entries rest) (sym same)
            ∙ ap (◌++◌ (tag p level.orders)) (
                sym (
                  insert-behind side price n rest v.3
                    (subst (λ q. AreBehind side q rest) (sym same) v.2)))
            ∙ sym (insert-tag side (price, n) p level.orders (entries rest) later))
  ]
]
