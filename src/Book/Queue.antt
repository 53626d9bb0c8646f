-- ===== src/Book/Queue.antt =====
-- The edits of a queue seen as one list: what `push_back`, `erase` and a write through an iterator
-- do to the entries of a side.
use low_latency_exchange.Prelude.{
  ℕ, ◌+◌, Option, none, some, List, [], ◌∷◌, if◌then◌else◌, ◌&&◌, ◌==◌, ◌≡◌, ◌≢◌, refl, sym, ◌∙◌,
  arith, All, ◌⊎◌, inl, inr, Bool-cases, length,
}
use low_latency_exchange.Types.{Price, Quantity, OrderId, Side}
use low_latency_exchange.Book.State.{Node, before}
use low_latency_exchange.Book.Fill.{Entry, with_quantity}

-- Behind all orders that are as good or better.
unfoldable pub insert_entry : Side → Entry → List Entry → List Entry
insert_entry side e [] = e ∷ []
insert_entry side e (e' ∷ es) =
    if before side e.0 e'.0 then e ∷ e' ∷ es else e' ∷ insert_entry side e es

unfoldable pub remove_entry : Price → ℕ → List Entry → List Entry
remove_entry price it [] = []
remove_entry price it ((p, n) ∷ es) =
    if p == price && n.address == it then es else (p, n) ∷ remove_entry price it es

unfoldable pub set_entry : Price → ℕ → Quantity → List Entry → List Entry
set_entry price it quantity [] = []
set_entry price it quantity ((p, n) ∷ es) =
    if p == price && n.address == it
    then (p, with_quantity n quantity) ∷ es
    else (p, n) ∷ set_entry price it quantity es

unfoldable pub find_entry : Price → ℕ → List Entry → Option Node
find_entry price it [] = none
find_entry price it ((p, n) ∷ es) =
    if p == price && n.address == it then some n else find_entry price it es

-- The queue holds an order with this id under this price and address.
abbrev pub Holds : OrderId → Price → ℕ → List Entry → Type 0
Holds id price it [] = ⊥
Holds id price it ((p, n) ∷ es) =
    ((p ≡ price) × (n.address ≡ it) × (n.order.order_id ≡ id)) ⊎ Holds id price it es

-- No node of the queue has this address.
abbrev pub AreElsewhere : ℕ → List Entry → Type 0
AreElsewhere it = All (λ e. e.1.address ≢ it)

-- No two nodes of a queue share an address.
abbrev pub AreApart : List Entry → Type 0
AreApart [] = Unit
AreApart (e ∷ es) = AreElsewhere e.1.address es × AreApart es

pub Holds-elsewhere :
    (id : OrderId) (price : Price) (it : ℕ) (es : List Entry)
    → AreElsewhere it es
    → Holds id price it es
    → ⊥
Holds-elsewhere id price it ((p, n) ∷ es) a (inl h) = a.0 h.1
Holds-elsewhere id price it ((p, n) ∷ es) a (inr h) = Holds-elsewhere id price it es a.1 h
Holds-elsewhere id price it [] a h = h

pub Holds-unique :
    (i j : OrderId) (price : Price) (it : ℕ) (es : List Entry)
    → AreApart es
    → Holds i price it es
    → Holds j price it es
    → i ≡ j
Holds-unique i j price it [] a h k = absurd h
Holds-unique i j price it ((p, n) ∷ es) a (inl h) (inl k) = sym h.2 ∙ k.2
Holds-unique i j price it ((p, n) ∷ es) a (inr h) (inr k) = Holds-unique i j price it es a.1 h k
Holds-unique i j price it ((p, n) ∷ es) a (inl h) (inr k) =
    absurd (Holds-elsewhere j price n.address es a.0 (rw h.1 k))
Holds-unique i j price it ((p, n) ∷ es) a (inr h) (inl k) =
    absurd (Holds-elsewhere i price n.address es a.0 (rw k.1 h))

-- Insertion.
pub insert-All {ℓ} :
    (P : Entry → Type ℓ) (side : Side) (e : Entry) (es : List Entry)
    → P e
    → All P es
    → All P (insert_entry side e es)
unfolding insert_entry
insert-All P side e [] h hs = (h, tt)
insert-All P side e (e' ∷ es) h hs = elim (Bool-cases (before side e.0 e'.0)) [
  | inl b ↦ rw b (h, hs)
  | inr b ↦ rw b (hs.0, insert-All P side e es h hs.1)
]

pub insert-AreApart :
    (side : Side) (e : Entry) (es : List Entry)
    → AreElsewhere e.1.address es
    → AreApart es
    → AreApart (insert_entry side e es)
unfolding insert_entry
insert-AreApart side e [] h a = (tt, tt)
insert-AreApart side e (e' ∷ es) h a = elim (Bool-cases (before side e.0 e'.0)) [
  | inl b ↦ rw b (h, a)
  | inr b ↦ rw b (
    insert-All (λ x. x.1.address ≢ e'.1.address) side e es (λ eq. h.0 (sym eq)) a.0,
    insert-AreApart side e es h.1 a.1,
  )
]

pub insert-Holds :
    (side : Side) (e : Entry) (id : OrderId) (price : Price) (it : ℕ) (es : List Entry)
    → Holds id price it es
    → Holds id price it (insert_entry side e es)
unfolding insert_entry
insert-Holds side e id price it [] h = absurd h
insert-Holds side e id price it (e' ∷ es) h = elim (Bool-cases (before side e.0 e'.0)) [
  | inl b ↦ rw b (inr h)
  | inr b ↦
      rw b (elim h [
        | inl here ↦ inl here
        | inr there ↦ inr (insert-Holds side e id price it es there)
      ])
]

pub insert-Holds_self :
    (side : Side) (price : Price) (n : Node) (es : List Entry)
    → Holds n.order.order_id price n.address (insert_entry side (price, n) es)
unfolding insert_entry
insert-Holds_self side price n [] = inl (refl, refl, refl)
insert-Holds_self side price n (e' ∷ es) = elim (Bool-cases (before side price e'.0)) [
  | inl b ↦ rw b (inl (refl, refl, refl))
  | inr b ↦ rw b (inr (insert-Holds_self side price n es))
]

pub length-insert :
    (side : Side) (e : Entry) (es : List Entry) → length (insert_entry side e es) ≡ length es + 1
unfolding insert_entry
length-insert side e [] = omega arith
length-insert side e (e' ∷ es) = ground (arith, length-insert side e es)

-- Removal.
pub remove-All {ℓ} :
    (P : Entry → Type ℓ) (price : Price) (it : ℕ) (es : List Entry)
    → All P es
    → All P (remove_entry price it es)
unfolding remove_entry
remove-All P price it [] h = tt
remove-All P price it ((p, n) ∷ es) h = elim (Bool-cases (p == price && n.address == it)) [
  | inl b ↦ rw b h.1
  | inr b ↦ rw b (h.0, remove-All P price it es h.1)
]

pub remove-AreApart :
    (price : Price) (it : ℕ) (es : List Entry) → AreApart es → AreApart (remove_entry price it es)
unfolding remove_entry
remove-AreApart price it [] a = tt
remove-AreApart price it ((p, n) ∷ es) a = elim (Bool-cases (p == price && n.address == it)) [
  | inl b ↦ rw b a.1
  | inr b ↦
      rw b
        (remove-All (λ x. x.1.address ≢ n.address) price it es a.0, remove-AreApart price it es a.1)
]

pub remove-Holds :
    (price : Price) (it : ℕ) (id : OrderId) (price' : Price) (it' : ℕ) (es : List Entry)
    → ((price' ≡ price) → (it' ≡ it) → ⊥)
    → Holds id price' it' es
    → Holds id price' it' (remove_entry price it es)
unfolding remove_entry
remove-Holds price it id price' it' [] ne h = h
remove-Holds price it id price' it' ((p, n) ∷ es) ne (inl h) =
    elim (Bool-cases (p == price && n.address == it)) [
      | inl b ↦ absurd (ne (ground arith) (ground arith))
      | inr b ↦ rw b (inl h)
    ]
remove-Holds price it id price' it' ((p, n) ∷ es) ne (inr h) =
    elim (Bool-cases (p == price && n.address == it)) [
      | inl b ↦ rw b h
      | inr b ↦ rw b (inr (remove-Holds price it id price' it' es ne h))
    ]

pub length-remove :
    (price : Price) (it : ℕ) (id : OrderId) (es : List Entry)
    → Holds id price it es
    → length es ≡ length (remove_entry price it es) + 1
unfolding remove_entry
length-remove price it id [] h = absurd h
length-remove price it id ((p, n) ∷ es) (inl h) = ground arith
length-remove price it id ((p, n) ∷ es) (inr h) = ground (arith, length-remove price it id es h)

-- A change of quantity leaves prices, addresses and ids.
pub set-All {ℓ} :
    (P : Entry → Type ℓ) (price : Price) (it : ℕ) (quantity : Quantity) (es : List Entry)
    → ((p : Price) (n : Node) → P (p, n) → P (p, with_quantity n quantity))
    → All P es
    → All P (set_entry price it quantity es)
unfolding set_entry
set-All P price it quantity [] keep h = tt
set-All P price it quantity ((p, n) ∷ es) keep h =
    elim (Bool-cases (p == price && n.address == it)) [
      | inl b ↦ rw b (keep p n h.0, h.1)
      | inr b ↦ rw b (h.0, set-All P price it quantity es keep h.1)
    ]

pub set-AreApart :
    (price : Price) (it : ℕ) (quantity : Quantity) (es : List Entry)
    → AreApart es
    → AreApart (set_entry price it quantity es)
unfolding set_entry
set-AreApart price it quantity [] a = tt
set-AreApart price it quantity ((p, n) ∷ es) a = elim (Bool-cases (p == price && n.address == it)) [
  | inl b ↦ rw b a
  | inr b ↦ rw b (
    set-All (λ x. x.1.address ≢ n.address) price it quantity es (λ _ _ h. h) a.0,
    set-AreApart price it quantity es a.1,
  )
]

pub set-Holds :
    (price : Price) (it : ℕ) (quantity : Quantity) (id : OrderId) (price' : Price) (it' : ℕ)
    (es : List Entry)
    → Holds id price' it' es
    → Holds id price' it' (set_entry price it quantity es)
unfolding set_entry
set-Holds price it quantity id price' it' [] h = h
set-Holds price it quantity id price' it' ((p, n) ∷ es) h =
    elim (Bool-cases (p == price && n.address == it)) [
      | inl b ↦ rw b h
      | inr b ↦ rw b (elim h [
        | inl here ↦ inl here
        | inr there ↦ inr (set-Holds price it quantity id price' it' es there)
      ])
    ]

pub length-set_entry :
    (price : Price) (it : ℕ) (quantity : Quantity) (es : List Entry)
    → length (set_entry price it quantity es) ≡ length es
unfolding set_entry
length-set_entry price it quantity [] = refl
length-set_entry price it quantity ((p, n) ∷ es) =
    ground (arith, length-set_entry price it quantity es)
