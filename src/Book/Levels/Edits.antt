-- ===== src/Book/Levels/Edits.antt =====
-- `remove_at` and `reduce_at`, level by level.
use low_latency_exchange.Prelude.{
  ℕ, ◌-◌, ◌≤◌, true, some, List, [], ◌∷◌, ◌++◌, ◌==◌, ◌≡◌, ◌≢◌, refl, sym, ap, ◌∙◌, arith, inl, inr,
  Bool-cases, sub64, subst, ==_iff,
}
use low_latency_exchange.Types.{Price, Quantity, Side, IsWord}
use low_latency_exchange.Book.State.{Node, PriceLevel, Levels}
use low_latency_exchange.Book.Match.{erase_if_empty}
use low_latency_exchange.Book.Edit.{find_node, erase_node, remove_at, set_quantity, reduce_at}
use low_latency_exchange.Book.Fill.{tag, entries}
use low_latency_exchange.Book.Queue.{remove_entry, set_entry, find_entry}
use low_latency_exchange.Book.Levels.{AreBehind, AreLevels}
use low_latency_exchange.Book.Levels.Loops.{erase_if_empty-AreLevels}
use low_latency_exchange.Book.Levels.Remove.{
  find-behind, find-tag, find-tag_ne, remove-tag, remove-tag_ne, set-tag, set-tag_ne,
  IsTotalled-erase, IsTotalled-set_quantity,
}
use low_latency_exchange.Book.Fill.Loops.{entries-erase_if_empty}

module _ (side : Side) (price : Price) (it : ℕ) where
  -- The node under the address, in a level that has the price.
  find_here :
      (p : Price) (level : PriceLevel) (rest : Levels) (n : Node)
      → AreBehind side p rest
      → (p == price) ≡ true
      → find_entry price it (entries ((p, level) ∷ rest)) ≡ some n
      → find_node it level.orders ≡ some n
  find_here p level rest n b e h =
      sym (
        find-tag price it p level.orders (entries rest) e (
          find-behind side price it rest
            (subst (λ q. AreBehind side q rest) ((==_iff p price).0 e) b)))
      ∙ h

  remove_at-AreBehind :
      (q : Price) (quantity : Quantity) (levels : Levels)
      → AreBehind side q levels
      → AreBehind side q (remove_at price it quantity levels)
  unfolding remove_at
  remove_at-AreBehind q quantity [] h = tt
  remove_at-AreBehind q quantity ((p, level) ∷ rest) h = elim (Bool-cases (p == price)) [
    | inl e ↦ rw e (kept (sub64 level.total_units quantity) (erase_node it level.orders))
    | inr ne ↦ rw ne (h.0, remove_at-AreBehind q quantity rest h.1)
  ]
    where
      kept : (total : ℕ) (ns : List Node) → AreBehind side q (erase_if_empty p total ns rest)
      kept total [] = h.1
      kept total (n ∷ ns) = h

  pub remove_at-AreLevels :
      (levels : Levels) (n : Node)
      → AreLevels side levels
      → find_entry price it (entries levels) ≡ some n
      → AreLevels side (remove_at price it n.order.remaining_quantity levels)
  unfolding remove_at
  remove_at-AreLevels [] n v h = tt
  remove_at-AreLevels ((p, level) ∷ rest) n v h = elim (Bool-cases (p == price)) [
    | inl e ↦ rw e (
        erase_if_empty-AreLevels side p _ (erase_node it level.orders) rest
          (IsTotalled-erase level.total_units it level.orders n v.1
            (find_here p level rest n v.2 e h))
          v.2 v.3)
    | inr ne ↦ rw ne (
      v.0,
      v.1,
      remove_at-AreBehind p n.order.remaining_quantity rest v.2,
      remove_at-AreLevels rest n v.3
          (sym (find-tag_ne price it p level.orders (entries rest) ne) ∙ h),
    )
  ]

  pub entries-remove_at :
      (levels : Levels) (n : Node)
      → AreLevels side levels
      → find_entry price it (entries levels) ≡ some n
      → entries (remove_at price it n.order.remaining_quantity levels)
        ≡ remove_entry price it (entries levels)
  unfolding remove_at
  entries-remove_at [] n v h = unfold remove_entry in refl
  entries-remove_at ((p, level) ∷ rest) n v h = elim (Bool-cases (p == price)) [
    | inl e ↦ rw e (
        entries-erase_if_empty p _ (erase_node it level.orders) rest
        ∙ sym (
            remove-tag price it p level.orders (entries rest) n e
              (find_here p level rest n v.2 e h)))
    | inr ne ↦ rw ne (
        ap (◌++◌ (tag p level.orders)) (
          entries-remove_at rest n v.3
            (sym (find-tag_ne price it p level.orders (entries rest) ne) ∙ h))
        ∙ sym (remove-tag_ne price it p level.orders (entries rest) ne))
  ]

  module _ (quantity : Quantity) (w : IsWord quantity) where
    reduce_at-AreBehind :
        (q : Price) (diff : ℕ) (levels : Levels)
        → AreBehind side q levels
        → AreBehind side q (reduce_at price it diff quantity levels)
    unfolding reduce_at
    reduce_at-AreBehind q diff [] h = tt
    reduce_at-AreBehind q diff ((p, level) ∷ rest) h = elim (Bool-cases (p == price)) [
      | inl e ↦ rw e h
      | inr ne ↦ rw ne (h.0, reduce_at-AreBehind q diff rest h.1)
    ]

    set_quantity-ne-nil : (ns : List Node) → ns ≢ [] → set_quantity it quantity ns ≢ []
    unfolding set_quantity
    set_quantity-ne-nil [] h = h
    set_quantity-ne-nil (n ∷ ns) h = ground arith

    pub reduce_at-AreLevels :
        (levels : Levels) (n : Node)
        → AreLevels side levels
        → quantity ≤ n.order.remaining_quantity
        → find_entry price it (entries levels) ≡ some n
        → AreLevels side
            (reduce_at price it (n.order.remaining_quantity - quantity) quantity levels)
    unfolding reduce_at
    reduce_at-AreLevels [] n v le h = tt
    reduce_at-AreLevels ((p, level) ∷ rest) n v le h = elim (Bool-cases (p == price)) [
      | inl e ↦ rw e (
        set_quantity-ne-nil level.orders v.0,
        IsTotalled-set_quantity level.total_units it quantity level.orders n v.1 w le
            (find_here p level rest n v.2 e h),
        v.2,
        v.3,
      )
      | inr ne ↦ rw ne (
        v.0,
        v.1,
        reduce_at-AreBehind p (n.order.remaining_quantity - quantity) rest v.2,
        reduce_at-AreLevels rest n v.3 le
            (sym (find-tag_ne price it p level.orders (entries rest) ne) ∙ h),
      )
    ]

    pub entries-reduce_at :
        (diff : ℕ) (levels : Levels) (n : Node)
        → AreLevels side levels
        → find_entry price it (entries levels) ≡ some n
        → entries (reduce_at price it diff quantity levels)
          ≡ set_entry price it quantity (entries levels)
    unfolding reduce_at
    entries-reduce_at diff [] n v h = unfold set_entry in refl
    entries-reduce_at diff ((p, level) ∷ rest) n v h = elim (Bool-cases (p == price)) [
      | inl e ↦ rw e (
          sym (
            set-tag price it quantity p level.orders (entries rest) n e
              (find_here p level rest n v.2 e h)))
      | inr ne ↦ rw ne (
          ap (◌++◌ (tag p level.orders)) (
            entries-reduce_at diff rest n v.3
              (sym (find-tag_ne price it p level.orders (entries rest) ne) ∙ h))
          ∙ sym (set-tag_ne price it quantity p level.orders (entries rest) ne))
    ]
