-- ===== src/Book/Levels/Remove.antt =====
-- The removal of an order and its reduction in place: they keep the form of the levels, and on the
-- entries they are the edits of a queue.
use low_latency_exchange.Prelude.{
  ℕ, ◌+◌, ◌-◌, ◌≤◌, true, false, none, some, List, [], ◌∷◌, ◌++◌, ◌==◌, ◌≡◌, refl, ap, ◌∙◌, arith,
  inl, inr, Bool-cases, All, ◌>>=◌, sub64, subst, ==_iff,
}
use low_latency_exchange.Types.{Price, Quantity, Side, IsWord}
use low_latency_exchange.Book.State.{Node, Levels}
use low_latency_exchange.Book.Edit.{find_node, find_level, erase_node, set_quantity}
use low_latency_exchange.Book.Fill.{Entry, tag, entries}
use low_latency_exchange.Book.Queue.{remove_entry, set_entry, find_entry}
use low_latency_exchange.Book.Levels.{units, IsTotalled, AreBehind, AreLevels}
use low_latency_exchange.Book.Levels.Order.{before-ne}

-- No entry of a level behind a price stands at that price.
pub find-behind :
    (side : Side) (price : Price) (it : ℕ) (levels : Levels)
    → AreBehind side price levels
    → find_entry price it (entries levels) ≡ none
unfolding find_entry
find-behind side price it [] h = refl
find-behind side price it ((p, level) ∷ rest) h =
    past (find-behind side price it rest h.1) level.orders
  where
    past :
        find_entry price it (entries rest) ≡ none
        → (ns : List Node) → find_entry price it (tag p ns ++ entries rest) ≡ none
    past b [] = b
    past b (n ∷ ns) = rw (before-ne side price p h.0) (past b ns)

-- A level at another price is passed by.
pub find-tag_ne :
    (price : Price) (it : ℕ) (p : Price) (ns : List Node) (es : List Entry)
    → (p == price) ≡ false
    → find_entry price it (tag p ns ++ es) ≡ find_entry price it es
unfolding find_entry
find-tag_ne price it p [] es ne = refl
find-tag_ne price it p (n ∷ ns) es ne = rw ne (find-tag_ne price it p ns es ne)

pub remove-tag_ne :
    (price : Price) (it : ℕ) (p : Price) (ns : List Node) (es : List Entry)
    → (p == price) ≡ false
    → remove_entry price it (tag p ns ++ es) ≡ tag p ns ++ remove_entry price it es
unfolding remove_entry
remove-tag_ne price it p [] es ne = refl
remove-tag_ne price it p (n ∷ ns) es ne =
    rw ne (ap (◌∷◌ (p, n)) (remove-tag_ne price it p ns es ne))

pub set-tag_ne :
    (price : Price) (it : ℕ) (quantity : Quantity) (p : Price) (ns : List Node) (es : List Entry)
    → (p == price) ≡ false
    → set_entry price it quantity (tag p ns ++ es) ≡ tag p ns ++ set_entry price it quantity es
unfolding set_entry
set-tag_ne price it quantity p [] es ne = refl
set-tag_ne price it quantity p (n ∷ ns) es ne =
    rw ne (ap (◌∷◌ (p, n)) (set-tag_ne price it quantity p ns es ne))

-- In the level at the price the address decides.
pub find-tag :
    (price : Price) (it : ℕ) (p : Price) (ns : List Node) (es : List Entry)
    → (p == price) ≡ true
    → find_entry price it es ≡ none
    → find_entry price it (tag p ns ++ es) ≡ find_node it ns
unfolding find_entry find_node
find-tag price it p [] es e h = h
find-tag price it p (n ∷ ns) es e h = ground (arith, find-tag price it p ns es e h)

pub remove-tag :
    (price : Price) (it : ℕ) (p : Price) (ns : List Node) (es : List Entry) (n : Node)
    → (p == price) ≡ true
    → find_node it ns ≡ some n
    → remove_entry price it (tag p ns ++ es) ≡ tag p (erase_node it ns) ++ es
unfolding remove_entry find_node erase_node
remove-tag price it p [] es n e h = cc
remove-tag price it p (k ∷ ns) es n e h = ground (arith, remove-tag price it p ns es n e)

pub set-tag :
    (price : Price) (it : ℕ) (quantity : Quantity) (p : Price) (ns : List Node) (es : List Entry)
    (n : Node)
    → (p == price) ≡ true
    → find_node it ns ≡ some n
    → set_entry price it quantity (tag p ns ++ es) ≡ tag p (set_quantity it quantity ns) ++ es
unfolding set_entry find_node set_quantity
set-tag price it quantity p [] es n e h = cc
set-tag price it quantity p (k ∷ ns) es n e h =
    ground (arith, set-tag price it quantity p ns es n e)

-- Through an iterator one reads the entry at its price and address.
pub find_entry-find_node :
    (side : Side) (price : Price) (it : ℕ) (levels : Levels)
    → AreLevels side levels
    → find_entry price it (entries levels)
      ≡ (find_level price levels >>= λ level. find_node it level.orders)
unfolding find_level
find_entry-find_node side price it [] v = unfold find_entry in refl
find_entry-find_node side price it ((p, level) ∷ rest) v = elim (Bool-cases (p == price)) [
  | inl e ↦ rw e (
      find-tag price it p level.orders (entries rest) e (
        find-behind side price it rest
          (subst (λ q. AreBehind side q rest) ((==_iff p price).0 e) v.2)))
  | inr ne ↦ rw ne (
      find-tag_ne price it p level.orders (entries rest) ne
      ∙ find_entry-find_node side price it rest v.3)
]

abbrev AreWords : List Node → Type 0
AreWords = All (λ k. IsWord (k.order.remaining_quantity))

erase_node_parts :
    (it : ℕ) (ns : List Node) (n : Node)
    → AreWords ns
    → find_node it ns ≡ some n
    → (units ns ≡ units (erase_node it ns) + n.order.remaining_quantity)
      × IsWord (n.order.remaining_quantity)
      × AreWords (erase_node it ns)
unfolding find_node erase_node
erase_node_parts it [] n w h = cc
erase_node_parts it (k ∷ ns) n w h = elim (Bool-cases (k.address == it)) [
  | inl here ↦ rw here (ground arith, ground arith, w.1)
  | inr on ↦
      let rest = erase_node_parts it ns n w.1 (ground arith) in
      rw on (omega (arith, rest.0), rest.1, (w.0, rest.2))
]

set_quantity_parts :
    (it : ℕ) (quantity : Quantity) (ns : List Node) (n : Node)
    → AreWords ns
    → IsWord quantity
    → find_node it ns ≡ some n
    → (units ns + quantity ≡ units (set_quantity it quantity ns) + n.order.remaining_quantity)
      × IsWord (n.order.remaining_quantity)
      × AreWords (set_quantity it quantity ns)
unfolding find_node set_quantity
set_quantity_parts it quantity [] n w q h = cc
set_quantity_parts it quantity (k ∷ ns) n w q h = elim (Bool-cases (k.address == it)) [
  | inl here ↦ rw here (ground arith, ground arith, (q, w.1))
  | inr on ↦
      let rest = set_quantity_parts it quantity ns n w.1 q (ground arith) in
      rw on (omega (arith, rest.0), rest.1, (w.0, rest.2))
]

-- What a queue's total is after the two edits.
pub IsTotalled-erase :
    (total it : ℕ) (ns : List Node) (n : Node)
    → IsTotalled total ns
    → find_node it ns ≡ some n
    → IsTotalled (sub64 total n.order.remaining_quantity) (erase_node it ns)
IsTotalled-erase total it ns n h e =
    let parts = erase_node_parts it ns n h.1 e in (omega (arith, h.0, parts.0, parts.1), parts.2)

pub IsTotalled-set_quantity :
    (total it : ℕ) (quantity : Quantity) (ns : List Node) (n : Node)
    → IsTotalled total ns
    → IsWord quantity
    → quantity ≤ n.order.remaining_quantity
    → find_node it ns ≡ some n
    → IsTotalled (sub64 total (n.order.remaining_quantity - quantity)) (set_quantity it quantity ns)
IsTotalled-set_quantity total it quantity ns n h q le e =
    let parts = set_quantity_parts it quantity ns n h.1 q e in
    (omega (arith, h.0, parts.0, parts.1, le), parts.2)
