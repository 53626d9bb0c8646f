-- ===== src/Book/Valid/Edits.antt =====
-- Insertion, removal and reduction in place keep a book valid.
use low_latency_exchange.Prelude.{
  ℕ, ◌+◌, ◌-◌, ◌≤◌, true, Option, none, some, List, [], ◌∷◌, ◌==◌, ◌&&◌, ◌≡◌, refl, sym, ◌∙◌, subst,
  arith, inl, inr, Bool-cases, ◌>>=◌, ℕ_discrete, sub64, add64,
}
use low_latency_exchange.Types.{Price, Quantity, SequenceNumber, OrderId, Side, buy, sell, IsWord}
use low_latency_exchange.Assoc.{lookup, emplace, erase, lookup-emplace, lookup_of_erase}
use low_latency_exchange.Book.State.{
  Node, PriceLevel, OrderLocation, Levels, OrderBook, opposite, seen, side_levels, set_side_levels,
}
use low_latency_exchange.Book.Edit.{
  push_back, insert_resting_order, find_level, find_node, deref, remove_at, reduce_at,
  remove_resting_order,
}
use low_latency_exchange.Book.Fill.{Entry, entries}
use low_latency_exchange.Book.Queue.{
  find_entry, Holds, Holds-unique, insert-All, remove-All, set-All,
}
use low_latency_exchange.Book.Index.{Locations, location}
use low_latency_exchange.Book.Index.Edits.{insert-IsIndexed, remove-IsIndexed, set-IsIndexed}
use low_latency_exchange.Book.Levels.Insert.{push_back-AreLevels, entries-push_back}
use low_latency_exchange.Book.Levels.Remove.{find_entry-find_node}
use low_latency_exchange.Book.Levels.Edits.{
  remove_at-AreLevels, entries-remove_at, reduce_at-AreLevels, entries-reduce_at,
}
use low_latency_exchange.Book.Valid.{Clears, AreValid, IsValidFor}
use low_latency_exchange.Book.Valid.Parts.{AreBelow-AreElsewhere, AreBelow-suc}

-- What the index points to can be read.
find_of_Holds :
    (id : OrderId) (price : Price) (it : ℕ) (es : List Entry)
    → Holds id price it es
    → (n : Node) × (find_entry price it es ≡ some n)
unfolding find_entry
find_of_Holds id price it [] h = absurd h
find_of_Holds id price it ((p, n) ∷ es) (inl h) = (n, ground arith)
find_of_Holds id price it ((p, n) ∷ es) (inr h) =
    elim (Bool-cases (p == price && n.address == it)) [
      | inl e ↦ (n, rw e)
      | inr ne ↦ let (k, f) = find_of_Holds id price it es h in (k, rw ne f)
    ]

Holds-of_find :
    (price : Price) (it : ℕ) (es : List Entry) (n : Node)
    → find_entry price it es ≡ some n
    → Holds n.order.order_id price it es
unfolding find_entry
Holds-of_find price it [] n h = cc
Holds-of_find price it ((p, k) ∷ es) n h = elim (Bool-cases (p == price && k.address == it)) [
  | inl e ↦ inl (ground arith, ground arith, ground arith)
  | inr ne ↦ inr (Holds-of_find price it es n (ground arith))
]

module _ (m : Locations) (count next : ℕ) (ids : List OrderId) (side : Side) (levels own : Levels)
    (v : AreValid m count next ids side levels own) where
  -- The entry of an order that the index has.
  pub located :
      (id : OrderId) (price : Price) (it : ℕ)
      → lookup id m ≡ some (record { side = side; price = price; it = it })
      → (n : Node) × (find_entry price it (entries levels) ≡ some n) × (n.order.order_id ≡ id)
  located id price it h =
      let held = v.index.backed id _ h refl in
      let (n, f) = find_of_Holds id price it (entries levels) held in
      (
        n,
        f,
        Holds-unique n.order.order_id id price it (entries levels) v.index.apart
            (Holds-of_find price it (entries levels) n f) held,
      )

  pub insert-AreValid :
      (price : Price) (n : Node)
      → n.address ≡ next
      → lookup n.order.order_id m ≡ none
      → seen n.order.order_id ids ≡ true
      → IsWord (n.order.remaining_quantity)
      → Clears side price (entries own)
      → AreValid
          (emplace n.order.order_id (location side (price, n)) m)
          (add64 count 1)
          (next + 1)
          ids
          side
          (push_back side price n levels)
          own
  insert-AreValid price n at fresh marked w clear =
      let es = entries-push_back side price n levels v.sorted in
      record {
        sorted = push_back-AreLevels side price n levels w v.sorted;
        sorted_own = v.sorted_own;
        index = rw es (
            insert-IsIndexed m count side (entries levels) (entries own) v.index price n fresh
              (rw at (AreBelow-AreElsewhere next (entries levels) v.below)));
        below = rw es (
            insert-All _ side (price, n) (entries levels) (omega arith)
              (AreBelow-suc next (entries levels) v.below));
        below_own = AreBelow-suc next (entries own) v.below_own;
        uncrossed = rw es (insert-All _ side (price, n) (entries levels) clear v.uncrossed);
        known = λ j loc h. elim (ℕ_discrete n.order.order_id j) [
          | yes e ↦ subst (λ i. seen i ids ≡ true) e marked
          | no ne ↦ v.known j loc (
              ground
                (arith, h, lookup-emplace n.order.order_id j (location side (price, n)) m fresh))
        ];
      }

  pub remove-AreValid :
      (id : OrderId) (price : Price) (it : ℕ) (n : Node)
      → lookup id m ≡ some (record { side = side; price = price; it = it })
      → find_entry price it (entries levels) ≡ some n
      → AreValid
          (erase id m)
          (sub64 count 1)
          next
          ids
          side
          (remove_at price it n.order.remaining_quantity levels)
          own
  remove-AreValid id price it n found f =
      let es = entries-remove_at side price it levels n v.sorted f in
      record {
        sorted = remove_at-AreLevels side price it levels n v.sorted f;
        sorted_own = v.sorted_own;
        index = rw es (
            remove-IsIndexed m count side (entries levels) (entries own) v.index id price it found);
        below = rw es (remove-All _ price it (entries levels) v.below);
        below_own = v.below_own;
        uncrossed = rw es (remove-All _ price it (entries levels) v.uncrossed);
        known = λ j loc h. v.known j loc (lookup_of_erase id j m loc v.index.map h);
      }

  pub reduce-AreValid :
      (price : Price) (it : ℕ) (quantity : Quantity) (n : Node)
      → IsWord quantity
      → quantity ≤ n.order.remaining_quantity
      → find_entry price it (entries levels) ≡ some n
      → AreValid m count next ids side
          (reduce_at price it (n.order.remaining_quantity - quantity) quantity levels)
          own
  reduce-AreValid price it quantity n w le f =
      let es =
        entries-reduce_at side price it quantity w (n.order.remaining_quantity - quantity) levels n
          v.sorted f in
      record {
        sorted = reduce_at-AreLevels side price it quantity w levels n v.sorted le f;
        sorted_own = v.sorted_own;
        index =
            rw es
              (set-IsIndexed m count side (entries levels) (entries own) v.index price it quantity);
        below = rw es (set-All _ price it quantity (entries levels) (λ _ _ h. h) v.below);
        below_own = v.below_own;
        uncrossed = rw es (set-All _ price it quantity (entries levels) (λ _ _ h. h) v.uncrossed);
        known = v.known;
      }

pub insert_resting_order-IsValidFor :
    (order_id : OrderId) (sequence : SequenceNumber) (side : Side) (price : Price)
    (quantity : Quantity) (b : OrderBook)
    → IsValidFor side b
    → lookup order_id b.resting_orders ≡ none
    → seen order_id b.seen_order_ids ≡ true
    → IsWord quantity
    → Clears side price (entries (side_levels (opposite side) b))
    → IsValidFor side (insert_resting_order order_id sequence side price quantity b)
unfolding insert_resting_order
insert_resting_order-IsValidFor id sequence buy price quantity b v fresh marked w clear =
    insert-AreValid b.resting_orders b.resting_order_count b.next_address b.seen_order_ids buy
      b.bids b.asks v price _ refl fresh marked w clear
insert_resting_order-IsValidFor id sequence sell price quantity b v fresh marked w clear =
    insert-AreValid b.resting_orders b.resting_order_count b.next_address b.seen_order_ids sell
      b.asks b.bids v price _ refl fresh marked w clear

read_order :
    (it : ℕ) (o : Option PriceLevel) (n : Node)
    → (o >>= λ level. find_node it level.orders) ≡ some n
    → (o >>= λ level. find_node it level.orders >>= λ k. some k.order) ≡ some n.order
read_order it none n h = absurd (none-ne-some h)
  where
    none-ne-some : {k : Node} → none ≡ some k → ⊥
    none-ne-some h = cc
read_order it (some level) n h = rw h

-- What a location of the index reads.
pub deref-find_entry :
    (side : Side) (b : OrderBook) (price : Price) (it : ℕ) (n : Node)
    → IsValidFor side b
    → find_entry price it (entries (side_levels side b)) ≡ some n
    → deref b (record { side = side; price = price; it = it }) ≡ some n.order
unfolding deref
deref-find_entry side b price it n v f =
    read_order it (find_level price (side_levels side b)) n
      (sym (find_entry-find_node side price it (side_levels side b) v.sorted) ∙ f)

-- The book without the order, in the form that `remove_resting_order` gives it.
abbrev pub without : OrderBook → OrderId → OrderLocation → Quantity → OrderBook
without b id loc quantity =
    set_side_levels loc.side (remove_at loc.price loc.it quantity (side_levels loc.side b))
      (record b {
        resting_orders = erase id b.resting_orders;
        resting_order_count = sub64 b.resting_order_count 1;
      })

without-IsValidFor :
    (side : Side) (b : OrderBook) (id : OrderId) (price : Price) (it : ℕ) (n : Node)
    → IsValidFor side b
    → lookup id b.resting_orders ≡ some (record { side = side; price = price; it = it })
    → find_entry price it (entries (side_levels side b)) ≡ some n
    → IsValidFor side
        (without b id (record { side = side; price = price; it = it }) n.order.remaining_quantity)
without-IsValidFor buy b id price it n v =
    remove-AreValid b.resting_orders b.resting_order_count b.next_address b.seen_order_ids buy
      b.bids b.asks v id price it n
without-IsValidFor sell b id price it n v =
    remove-AreValid b.resting_orders b.resting_order_count b.next_address b.seen_order_ids sell
      b.asks b.bids v id price it n

-- What taking an indexed order out of a valid book gives.
pub record Removed (side : Side) (b : OrderBook) (id : OrderId) (price : Price) (it : ℕ)
    : Type 0 where
  pub node : Node
  pub here : find_entry price it (entries (side_levels side b)) ≡ some node
  pub named : node.order.order_id ≡ id
  pub read : deref b (record { side = side; price = price; it = it }) ≡ some node.order
  pub result :
      remove_resting_order (record { side = side; price = price; it = it }) id b
      ≡ some (
        without b id (record { side = side; price = price; it = it }) node.order.remaining_quantity,
        node.order.remaining_quantity,
      )
  pub valid :
      IsValidFor side (
        without b id (record { side = side; price = price; it = it }) node.order.remaining_quantity)

pub remove_resting_order-Removed :
    (side : Side) (b : OrderBook) (id : OrderId) (price : Price) (it : ℕ)
    → IsValidFor side b
    → lookup id b.resting_orders ≡ some (record { side = side; price = price; it = it })
    → Removed side b id price it
unfolding remove_resting_order
remove_resting_order-Removed side b id price it v found =
    let (n, f, e) =
      located b.resting_orders b.resting_order_count b.next_address b.seen_order_ids side
        (side_levels side b) (side_levels (opposite side) b) v id price it found in
    let read = deref-find_entry side b price it n v f in
    record {
      node = n;
      here = f;
      named = e;
      read = read;
      result = rw read;
      valid = without-IsValidFor side b id price it n v found f;
    }
