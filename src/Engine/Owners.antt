-- ===== src/Engine/Owners.antt =====
-- `order_sessions_` has an owner for exactly the orders that rest.
use low_latency_exchange.Prelude.{
  ℕ, Bool, true, false, Option, none, some, List, [], ◌∷◌, ◌==◌, ltb, ◌&&◌, ◌≡◌, ◌≢◌, refl, sym, ap,
  ◌∙◌, subst, arith, if◌then◌else◌, Bool-cases, Option-cases, inl, inr, ℕ_discrete,
}
use low_latency_exchange.Types.{OrderId}
use low_latency_exchange.Assoc.{
  is_some, lookup, assign, erase, IsMap, lookup-erase_ne, lookup-erase_self, lookup_of_erase,
  lookup-assign, erase-IsMap,
}
use low_latency_exchange.Book.State.{Execution, OrderBook}
use low_latency_exchange.Book.Fill.Named.{is_named}
use low_latency_exchange.Book.Query.{has_order}
use low_latency_exchange.Engine.Handlers.{units_or_zero}
use low_latency_exchange.Engine.Replies.{forget}

abbrev pub Owners : Type 0
Owners = List (OrderId × ℕ)

absent : (o : Option ℕ) → is_some o ≡ false → o ≡ none
absent none h = refl
absent (some v) h = absurd (ground (arith, h))

distinct : {v : ℕ} → none ≡ some v → ⊥
distinct h = cc

-- What an order's executions tell of another: one that none names is where it was, and none comes in.
abbrev pub Told : OrderBook → OrderBook → List Execution → OrderId → Type 0
Told b₀ book execs id =
    (is_named id execs ≡ false → has_order id book ≡ has_order id b₀)
    × (has_order id book ≡ true → has_order id b₀ ≡ true)

module _ (book : OrderBook) (id : OrderId) where
  -- An order that rests is not forgotten.
  forget-kept :
      (execs : List Execution) (sessions : Owners)
      → has_order id book ≡ true
      → lookup id (forget book execs sessions) ≡ lookup id sessions
  unfolding forget
  forget-kept [] sessions h = refl
  forget-kept (exec ∷ execs) sessions h = elim (Bool-cases (has_order exec.resting_order_id book)) [
    | inl there ↦ rw there (forget-kept execs sessions h)
    | inr gone ↦ rw gone (
        forget-kept execs (erase exec.resting_order_id sessions) h
        ∙ lookup-erase_ne exec.resting_order_id id sessions (λ e. cc))
  ]

  -- Nor is one that no execution names.
  forget-unnamed :
      (execs : List Execution) (sessions : Owners)
      → is_named id execs ≡ false
      → lookup id (forget book execs sessions) ≡ lookup id sessions
  unfolding forget is_named
  forget-unnamed [] sessions h = refl
  forget-unnamed (exec ∷ execs) sessions h =
      elim (Bool-cases (has_order exec.resting_order_id book)) [
        | inl there ↦ rw there (forget-unnamed execs sessions (ground (arith, h)))
        | inr gone ↦ rw gone (
            forget-unnamed execs (erase exec.resting_order_id sessions) (ground (arith, h))
            ∙ lookup-erase_ne exec.resting_order_id id sessions (λ e. ground (arith, e, h)))
      ]

  erase-none :
      (k : OrderId) (sessions : Owners)
      → IsMap sessions
      → lookup id sessions ≡ none
      → lookup id (erase k sessions) ≡ none
  erase-none k sessions m h = elim (Option-cases (lookup id (erase k sessions))) [
    | inl e ↦ e
    | inr (v, e) ↦ absurd (distinct (sym h ∙ lookup_of_erase k id sessions v m e))
  ]

  forget-none :
      (execs : List Execution) (sessions : Owners)
      → IsMap sessions
      → lookup id sessions ≡ none
      → lookup id (forget book execs sessions) ≡ none
  unfolding forget
  forget-none [] sessions m h = h
  forget-none (exec ∷ execs) sessions m h =
      elim (Bool-cases (has_order exec.resting_order_id book)) [
        | inl there ↦ rw there (forget-none execs sessions m h)
        | inr gone ↦ rw gone (
            forget-none execs (erase exec.resting_order_id sessions)
              (erase-IsMap exec.resting_order_id sessions m)
              (erase-none exec.resting_order_id sessions m h))
      ]

  -- One that is named and gone is forgotten.
  forget-gone :
      (execs : List Execution) (sessions : Owners)
      → IsMap sessions
      → has_order id book ≡ false
      → is_named id execs ≡ true
      → lookup id (forget book execs sessions) ≡ none
  unfolding forget is_named
  forget-gone [] sessions m h named = absurd (ground (arith, named))
  forget-gone (exec ∷ execs) sessions m h named = elim (Bool-cases (exec.resting_order_id == id)) [
    | inl e ↦
        let same : exec.resting_order_id ≡ id = ground (arith, e) in
        let gone : has_order exec.resting_order_id book ≡ false =
          ap (λ i. has_order i book) same ∙ h in
        rw gone (
          forget-none execs (erase exec.resting_order_id sessions)
            (erase-IsMap exec.resting_order_id sessions m)
            (ap (λ i. lookup i (erase exec.resting_order_id sessions)) (sym same)
              ∙ lookup-erase_self exec.resting_order_id sessions m))
    | inr other ↦
        let later : is_named id execs ≡ true = ground (arith, other, named) in
        elim (Bool-cases (has_order exec.resting_order_id book)) [
          | inl there ↦ rw there (forget-gone execs sessions m h later)
          | inr gone ↦ rw gone (
              forget-gone execs (erase exec.resting_order_id sessions)
                (erase-IsMap exec.resting_order_id sessions m) h later)
        ]
  ]

  -- What the executions leave of one entry: it is there where the order still rests.
  forget-at :
      (execs : List Execution) (sessions : Owners) (b₀ : OrderBook)
      → IsMap sessions
      → is_some (lookup id sessions) ≡ has_order id b₀
      → Told b₀ book execs id
      → is_some (lookup id (forget book execs sessions)) ≡ has_order id book
  forget-at execs sessions b₀ m own (unnamed, back) = elim (Bool-cases (has_order id book)) [
    | inl there ↦ ap is_some (forget-kept execs sessions there) ∙ own ∙ back there ∙ sym there
    | inr gone ↦ elim (Bool-cases (is_named id execs)) [
      | inl named ↦ ap is_some (forget-gone execs sessions m gone named) ∙ sym gone
      | inr not_named ↦
          ap is_some (forget-unnamed execs sessions not_named) ∙ own ∙ sym (unnamed not_named)
    ]
  ]

forget-IsMap :
    (book : OrderBook) (execs : List Execution) (sessions : Owners)
    → IsMap sessions
    → IsMap (forget book execs sessions)
unfolding forget
forget-IsMap book [] sessions m = m
forget-IsMap book (exec ∷ execs) sessions m =
    elim (Bool-cases (has_order exec.resting_order_id book)) [
      | inl there ↦ rw there (forget-IsMap book execs sessions m)
      | inr gone ↦ rw gone (
          forget-IsMap book execs (erase exec.resting_order_id sessions)
            (erase-IsMap exec.resting_order_id sessions m))
    ]

-- Each order that rests has an owner, and nothing else has.
pub record AreOwned (sessions : Owners) (book : OrderBook) : Type 0 where
  pub map : IsMap sessions
  pub same : (id : OrderId) → is_some (lookup id sessions) ≡ has_order id book

assign-IsMap : (k v : ℕ) (m : Owners) → IsMap m → IsMap (assign k v m)
unfolding assign
assign-IsMap k v [] h = (unfold lookup in refl, tt)
assign-IsMap k v ((j, w) ∷ m) h = elim (Bool-cases (j == k)) [
  | inl e ↦
      let same : j ≡ k = ground (arith, e) in rw e (ap (λ i. lookup i m) (sym same) ∙ h.0, h.1)
  | inr e ↦
      let other : (k == j) ≡ false = ground (arith, e) in
      rw e (lookup-assign k j v m ∙ rw other h.0, assign-IsMap k v m h.1)
]

-- What is put down at the end of a handler, for an order that rests exactly if the test says so.
assign-AreOwned :
    (id session_id : ℕ) (test : Bool) (sessions : Owners) (book : OrderBook)
    → IsMap sessions
    → ((j : OrderId) → j ≢ id → is_some (lookup j sessions) ≡ has_order j book)
    → (test ≡ false → is_some (lookup id sessions) ≡ has_order id book)
    → (test ≡ true → has_order id book ≡ true)
    → AreOwned (if test then assign id session_id sessions else sessions) book
assign-AreOwned id session_id false sessions book m others own put = record {
  map = m;
  same = λ j. elim (ℕ_discrete j id) [
    | yes e ↦ subst (λ i. is_some (lookup i sessions) ≡ has_order i book) (sym e) (own refl)
    | no ne ↦ others j ne
  ];
}
assign-AreOwned id session_id true sessions book m others own put = record {
  map = assign-IsMap id session_id sessions m;
  same = λ j. elim (ℕ_discrete id j) [
    | yes e ↦
        let found : (id == j) ≡ true = ground (arith, e) in
        ap is_some (lookup-assign id j session_id sessions)
        ∙ rw found (sym (ap (λ i. has_order i book) (sym e) ∙ put refl))
    | no ne ↦
        let other : (id == j) ≡ false = ground (arith, ne) in
        ap is_some (lookup-assign id j session_id sessions) ∙ rw other (others j (λ e. ne (sym e)))
  ];
}

-- What is known of the book after an order was executed against `b₀`, in which it does not rest.
pub record Rested (id : OrderId) (b₀ book : OrderBook) (execs : List Execution) (left : Option ℕ)
    : Type 0 where
  pub told : (j : OrderId) → j ≢ id → Told b₀ book execs j
  pub rests : has_order id book ≡ ltb 0 (units_or_zero left)

-- The end of `handle_new_order`.
pub submit-AreOwned :
    (id session_id : ℕ) (b₀ book : OrderBook) (execs : List Execution) (left : Option ℕ)
    (sessions : Owners)
    → AreOwned sessions b₀
    → has_order id b₀ ≡ false
    → Rested id b₀ book execs left
    → AreOwned
        (if ltb 0 (units_or_zero left) && has_order id book
          then assign id session_id (forget book execs sessions)
          else forget book execs sessions)
        book
submit-AreOwned id session_id b₀ book execs left sessions o fresh r =
    assign-AreOwned id session_id (ltb 0 (units_or_zero left) && has_order id book)
      (forget book execs sessions) book (forget-IsMap book execs sessions o.map)
      (λ j ne. forget-at book j execs sessions b₀ o.map (o.same j) (r.told j ne))
      (λ out.
        ap is_some (
          forget-none book id execs sessions o.map
            (absent (lookup id sessions) (o.same id ∙ fresh)))
        ∙ ground (arith, out, r.rests))
      (λ put. ground (arith, put))

-- The end of `handle_replace_order`.
pub replace-AreOwned :
    (id session_id : ℕ) (b₀ book : OrderBook) (execs : List Execution) (left : Option ℕ)
    (sessions : Owners)
    → IsMap sessions
    → ((j : OrderId) → j ≢ id → is_some (lookup j sessions) ≡ has_order j b₀)
    → Rested id b₀ book execs left
    → AreOwned
        (if ltb 0 (units_or_zero left) && has_order id book
          then assign id session_id (forget book execs sessions)
          else erase id (forget book execs sessions))
        book
replace-AreOwned id session_id b₀ book execs left sessions m others r =
    ends (ltb 0 (units_or_zero left) && has_order id book) refl
  where
    ends :
        (test : Bool)
        → (ltb 0 (units_or_zero left) && has_order id book) ≡ test
        → AreOwned
            (if test
              then assign id session_id (forget book execs sessions)
              else erase id (forget book execs sessions))
            book
    ends true e =
        assign-AreOwned id session_id true (forget book execs sessions) book
          (forget-IsMap book execs sessions m)
          (λ j ne. forget-at book j execs sessions b₀ m (others j ne) (r.told j ne))
          (λ off. absurd (ground (arith, off))) (λ put. ground (arith, e))
    ends false e = record {
      map = erase-IsMap id (forget book execs sessions) (forget-IsMap book execs sessions m);
      same = λ j. elim (ℕ_discrete j id) [
        | yes same ↦
            ap (λ i. is_some (lookup i (erase id (forget book execs sessions)))) same
            ∙ ap is_some (
                lookup-erase_self id (forget book execs sessions)
                  (forget-IsMap book execs sessions m))
            ∙ ground (arith, e, r.rests)
            ∙ ap (λ i. has_order i book) (sym same)
        | no ne ↦
            ap is_some (lookup-erase_ne id j (forget book execs sessions) ne)
            ∙ forget-at book j execs sessions b₀ m (others j ne) (r.told j ne)
      ];
    }
