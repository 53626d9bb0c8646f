-- ===== src/Book/Index/Edits.antt =====
-- Each edit of a queue, with the edit of the index that goes with it, keeps them in step.
use low_latency_exchange.Prelude.{
  ℕ, ◌+◌, none, some, List, [], ◌∷◌, ◌&&◌, ◌==◌, ◌≡◌, ◌≢◌, refl, sym, ◌∙◌, ap, arith, All, inl, inr,
  Bool-cases, length, sub64, add64, subst, ℕ_discrete,
}
use low_latency_exchange.Types.{Price, Quantity, OrderId, Side, buy, sell}
use low_latency_exchange.Assoc.{
  lookup, emplace, erase, lookup-erase_ne, lookup-erase_self, lookup-emplace, erase-IsMap,
  emplace-IsMap, length-erase, length-emplace,
}
use low_latency_exchange.Book.State.{Node, OrderLocation, opposite}
use low_latency_exchange.Book.Fill.{Entry}
use low_latency_exchange.Book.Queue.{
  insert_entry, remove_entry, set_entry, Holds, AreElsewhere, AreApart, Holds-unique, insert-All,
  insert-AreApart, insert-Holds, insert-Holds_self, length-insert, remove-AreApart, remove-Holds,
  length-remove, remove-All, set-All, set-AreApart, set-Holds, length-set_entry,
}
use low_latency_exchange.Book.Index.{Locations, location, AreLocated, IsBacked, IsIndexed}

pub opposite-ne : (side : Side) → opposite side ≢ side
opposite-ne buy e = cc
opposite-ne sell e = cc

-- Erasing an id leaves the locations of the orders that stand elsewhere.
erase-AreLocated :
    (m : Locations) (id : OrderId) (loc : OrderLocation) (side : Side) (es : List Entry)
    → lookup id m ≡ some loc
    → All (λ e. location side e ≢ loc) es
    → AreLocated m side es
    → AreLocated (erase id m) side es
erase-AreLocated m id loc side [] h a l = tt
erase-AreLocated m id loc side ((p, n) ∷ es) h a l = (
  lookup-erase_ne id n.order.order_id m (λ e. a.0 (ground (arith, h, l.0))) ∙ l.0,
  erase-AreLocated m id loc side es h a.1 l.1,
)

-- No entry of the other side stands at a location of this one.
other-side :
    (side : Side) (loc : OrderLocation) (es : List Entry)
    → loc.side ≢ side
    → All (λ e. location side e ≢ loc) es
other-side side loc [] ne = tt
other-side side loc ((p, n) ∷ es) ne =
    ((λ e. ne (sym (ap (λ (l : OrderLocation). l.side) e))), other-side side loc es ne)

-- Nor does what stays of a queue stand where the entry was that is taken out.
remove-elsewhere :
    (side : Side) (price : Price) (it : ℕ) (es : List Entry)
    → AreApart es
    → All
        (λ e. location side e ≢ record { side = side; price = price; it = it })
        (remove_entry price it es)
unfolding remove_entry
remove-elsewhere side price it [] a = tt
remove-elsewhere side price it ((p, n) ∷ es) a = elim (Bool-cases (p == price && n.address == it)) [
  | inl b ↦ rw b (elsewhere es (rest es (ground arith) a.0))
  | inr b ↦ rw b ((λ e. ground arith), remove-elsewhere side price it es a.1)
]
  where
    rest : (l : List Entry) → n.address ≡ it → AreElsewhere n.address l → AreElsewhere it l
    rest l e h = rw (← e) h

    elsewhere :
        (l : List Entry)
        → AreElsewhere it l
        → All (λ e. location side e ≢ record { side = side; price = price; it = it }) l
    elsewhere [] h = tt
    elsewhere ((q, k) ∷ l) h = ((λ e. h.0 (ap (λ (x : OrderLocation). x.it) e)), elsewhere l h.1)

module _ (m : Locations) (count : ℕ) (side : Side) (es own : List Entry)
    (v : IsIndexed m count side es own) where
  -- An order is taken out of its queue and of the index.
  module _ (id : OrderId) (price : Price) (it : ℕ)
      (found : lookup id m ≡ some (record { side = side; price = price; it = it })) where
    remove-IsBacked : IsBacked (erase id m) side (remove_entry price it es)
    remove-IsBacked j loc h here = elim (ℕ_discrete j id) [
      | yes e ↦ ground (arith, lookup-erase_self id m v.map)
      | no ne ↦
          let old = sym (lookup-erase_ne id j m ne) ∙ h in
          remove-Holds price it j loc.price loc.it es
            (λ ep ei. ne (
              Holds-unique j id price it es v.apart
                (subst (λ q. Holds j q it es) ep
                  (subst (λ a. Holds j loc.price a es) ei (v.backed j loc old here)))
                (v.backed id _ found refl)))
            (v.backed j loc old here)
    ]

    remove-IsBacked_own : IsBacked (erase id m) (opposite side) own
    remove-IsBacked_own j loc h there = elim (ℕ_discrete j id) [
      | yes e ↦ ground (arith, lookup-erase_self id m v.map)
      | no ne ↦ v.backed_own j loc (sym (lookup-erase_ne id j m ne) ∙ h) there
    ]

    pub remove-IsIndexed :
        IsIndexed (erase id m) (sub64 count 1) side (remove_entry price it es) own
    remove-IsIndexed = record {
      map = erase-IsMap id m v.map;
      located =
          erase-AreLocated m id _ side (remove_entry price it es) found
            (remove-elsewhere side price it es v.apart) (remove-All _ price it es v.located);
      located_own =
          erase-AreLocated m id _ (opposite side) own found
            (other-side (opposite side) _ own (λ e. opposite-ne side (sym e))) v.located_own;
      backed = remove-IsBacked;
      backed_own = remove-IsBacked_own;
      apart = remove-AreApart price it es v.apart;
      apart_own = v.apart_own;
      size = omega (
        arith,
        v.size,
        length-erase id m _ found,
        length-remove price it id es (v.backed id _ found refl),
      );
      counted = omega (arith, v.counted, length-erase id m _ found);
    }

  -- A new order joins its queue and the index.
  module _ (price : Price) (n : Node) (fresh : lookup n.order.order_id m ≡ none)
      (new : AreElsewhere n.address es) where
    abbrev added : Locations
    added = emplace n.order.order_id (location side (price, n)) m

    keep-AreLocated : (s : Side) (l : List Entry) → AreLocated m s l → AreLocated added s l
    keep-AreLocated s [] h = tt
    keep-AreLocated s ((p, k) ∷ l) h = (
      ground (
        arith,
        h.0,
        lookup-emplace n.order.order_id k.order.order_id (location side (price, n)) m fresh,
      ),
      keep-AreLocated s l h.1,
    )

    insert-IsBacked : IsBacked added side (insert_entry side (price, n) es)
    insert-IsBacked j loc h here = elim (ℕ_discrete n.order.order_id j) [
      | yes e ↦
          let at : location side (price, n) ≡ loc =
            ground
              (arith, h, lookup-emplace n.order.order_id j (location side (price, n)) m fresh) in
          subst (λ l. Holds j l.price l.it (insert_entry side (price, n) es)) at
            (subst (λ i. Holds i price n.address (insert_entry side (price, n) es)) e
              (insert-Holds_self side price n es))
      | no ne ↦
          insert-Holds side (price, n) j loc.price loc.it es
            (v.backed j loc
              (ground
                (arith, h, lookup-emplace n.order.order_id j (location side (price, n)) m fresh))
              here)
    ]

    insert-IsBacked_own : IsBacked added (opposite side) own
    insert-IsBacked_own j loc h there = elim (ℕ_discrete n.order.order_id j) [
      | yes e ↦
          let at : location side (price, n) ≡ loc =
            ground
              (arith, h, lookup-emplace n.order.order_id j (location side (price, n)) m fresh) in
          absurd (opposite-ne side (sym there ∙ sym (ap (λ (l : OrderLocation). l.side) at)))
      | no ne ↦
          v.backed_own j loc
            (ground
              (arith, h, lookup-emplace n.order.order_id j (location side (price, n)) m fresh))
            there
    ]

    pub insert-IsIndexed :
        IsIndexed added (add64 count 1) side (insert_entry side (price, n) es) own
    insert-IsIndexed = record {
      map = emplace-IsMap n.order.order_id _ m fresh v.map;
      located =
          insert-All _ side (price, n) es
            (ground (
              arith,
              lookup-emplace n.order.order_id n.order.order_id (location side (price, n)) m fresh,
            ))
            (keep-AreLocated side es v.located);
      located_own = keep-AreLocated (opposite side) own v.located_own;
      backed = insert-IsBacked;
      backed_own = insert-IsBacked_own;
      apart = insert-AreApart side (price, n) es new v.apart;
      apart_own = v.apart_own;
      size = omega (
        arith,
        v.size,
        length-emplace n.order.order_id (location side (price, n)) m fresh,
        length-insert side (price, n) es,
      );
      counted =
          omega
            (arith, v.counted, length-emplace n.order.order_id (location side (price, n)) m fresh);
    }

  -- A quantity is written in place.
  pub set-IsIndexed :
      (price : Price) (it : ℕ) (quantity : Quantity)
      → IsIndexed m count side (set_entry price it quantity es) own
  set-IsIndexed price it quantity = record {
    map = v.map;
    located = set-All _ price it quantity es (λ _ _ h. h) v.located;
    located_own = v.located_own;
    backed =
        λ j loc h here. set-Holds price it quantity j loc.price loc.it es (v.backed j loc h here);
    backed_own = v.backed_own;
    apart = set-AreApart price it quantity es v.apart;
    apart_own = v.apart_own;
    size = v.size ∙ ap (λ k. k + length own) (sym (length-set_entry price it quantity es));
    counted = v.counted;
  }
