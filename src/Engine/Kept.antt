-- ===== src/Engine/Kept.antt =====
-- The owners after each command, where exactly the orders that rest had one before it.
use low_latency_exchange.Prelude.{
  ℕ, Bool, true, false, not, Option, some, List, [], ltb, ◌≡◌, ◌≢◌, refl, sym, ap, ◌∙◌, subst,
  arith, Bool-cases, Option-cases, inl, inr, ℕ_discrete,
}
use low_latency_exchange.Types.{OrderId, IsWord}
use low_latency_exchange.Command.{NewOrder, CancelOrder, ReplaceOrder, validate}
use low_latency_exchange.Assoc.{
  is_some, lookup, erase, contains, erase-IsMap, lookup-erase_ne, lookup-erase_self,
}
use low_latency_exchange.Book.State.{Execution, OrderLocation, OrderBook, SubmitResult, seen}
use low_latency_exchange.Book.Commands.{submit, execute_order, rejected}
use low_latency_exchange.Book.Query.{has_order}
use low_latency_exchange.Book.Valid.{IsValid}
use low_latency_exchange.Book.Valid.Submit.{to_side, of_side, marked, marked-IsValid}
use low_latency_exchange.Book.Valid.Cancel.{missing, taken, cancel-CancelOutcome}
use low_latency_exchange.Book.Valid.Replace.{
  ReplaceOutcome, requeued, reduced, replace-ReplaceOutcome, as_new_order, with_seen,
}
use low_latency_exchange.EventLog.Types.{monostate, new_order, cancel_order, replace_order}
use low_latency_exchange.EventLog.Replay.{apply_command}
use low_latency_exchange.EventLog.Apply.{IsSizedCommand, execute_order-accepts}
use low_latency_exchange.Engine.Types.{InboundCommand}
use low_latency_exchange.Engine.Answers.{
  is_command, owners_of_submit, owners_of_replace, owners_after,
}
use low_latency_exchange.Engine.Owners.{Owners, AreOwned, Rested, submit-AreOwned, replace-AreOwned}
use low_latency_exchange.Engine.Resting.{execute_order-Rested}

-- The book and the owners after a command.
pub record Kept (session_id : ℕ) (command : InboundCommand) (b : OrderBook) (sessions : Owners)
    : Type 0 where
  pub book : OrderBook
  pub accepted : Bool
  pub applied : apply_command b command ≡ some (book, accepted)
  pub owned : AreOwned (owners_after session_id command accepted b sessions) book

-- An id that was not seen does not rest.
unseen-absent :
    (id : OrderId) (b : OrderBook)
    → IsValid b
    → seen id b.seen_order_ids ≡ false
    → has_order id b ≡ false
unfolding has_order contains
unseen-absent id b v new = elim (Option-cases (lookup id b.resting_orders)) [
  | inl e ↦ ap is_some e
  | inr (loc, e) ↦ absurd (ground (arith, new, v.known id loc e))
]

submit-Kept :
    (session_id : ℕ) (order : NewOrder) (b : OrderBook) (sessions : Owners)
    → IsValid b
    → AreOwned sessions b
    → Kept session_id (new_order order) b sessions
unfolding apply_command owners_after submit rejected
submit-Kept session_id order b sessions v o = elim (Option-cases (validate order)) [
  | inr (e, h) ↦ record {
    book = b;
    accepted = false;
    applied = rw (h, apply_command, submit) refl;
    owned = o;
  }
  | inl e ↦ elim (Bool-cases (seen order.order_id b.seen_order_ids)) [
    | inl old ↦ record {
      book = b;
      accepted = false;
      applied = rw (e, old, apply_command, submit) refl;
      owned = o;
    }
    | inr new ↦
        let same : submit order b ≡ execute_order order b = rw (e, new, submit) refl in
        let accepts = execute_order-accepts order b in
        let r =
          execute_order-Rested order b
            (to_side order.side (marked order.order_id b) (marked-IsValid order.order_id b v))
            (unseen-absent order.order_id b v new) in
        record {
          book = (execute_order order b).0;
          accepted = true;
          applied =
              ap (λ (x : OrderBook × SubmitResult). some (x.0, not (is_some x.1.rejection))) same
              ∙ ap (λ x. some ((execute_order order b).0, not (is_some x))) accepts;
          owned =
              subst
                (λ x.
                  AreOwned (owners_of_submit session_id order x sessions) (execute_order order b).0)
                (sym same)
                (submit-AreOwned order.order_id session_id b (execute_order order b).0
                  (execute_order order b).1.executions (execute_order order b).1.remaining_quantity
                  sessions o (unseen-absent order.order_id b v new) r);
        }
  ]
]

-- One order is forgotten, of which the book keeps nothing.
erased :
    (id : OrderId) (sessions : Owners) (b b' : OrderBook)
    → AreOwned sessions b
    → b'.resting_orders ≡ erase id b.resting_orders
    → (j : OrderId) → j ≢ id
    → is_some (lookup j sessions) ≡ has_order j b'
unfolding has_order contains
erased id sessions b b' o index j ne =
    o.same j ∙ ap is_some (sym (ap (lookup j) index ∙ lookup-erase_ne id j b.resting_orders ne))

cancel-Kept :
    (session_id : ℕ) (order : CancelOrder) (b : OrderBook) (sessions : Owners)
    → IsValid b
    → AreOwned sessions b
    → Kept session_id (cancel_order order) b sessions
unfolding apply_command owners_after has_order contains
cancel-Kept session_id order b sessions v o = elim (cancel-CancelOutcome order b v) [
  | missing e h ↦ record {
    book = b;
    accepted = false;
    applied = rw (h, apply_command) refl;
    owned = o;
  }
  | taken loc n' b' e f named h valid absent es own index ↦ record {
    book = b';
    accepted = true;
    applied = rw (h, apply_command) refl;
    owned = record {
      map = erase-IsMap order.order_id sessions o.map;
      same = λ j. elim (ℕ_discrete j order.order_id) [
        | yes same ↦
            ap (λ i. is_some (lookup i (erase order.order_id sessions))) same
            ∙ ap is_some (lookup-erase_self order.order_id sessions o.map)
            ∙ sym (ap (λ i. has_order i b') same ∙ ap is_some absent)
        | no ne ↦
            ap is_some (lookup-erase_ne order.order_id j sessions ne)
            ∙ erased order.order_id sessions b b' o index j ne
      ];
    };
  }
]

-- What rests does not turn on the ids that were seen.
Rested-with_seen :
    (id : OrderId) (b₀ b : OrderBook) (ids : List OrderId) (execs : List Execution)
    (left : Option ℕ)
    → Rested id b₀ b execs left
    → Rested id b₀ (with_seen ids b) execs left
unfolding has_order contains
Rested-with_seen id b₀ b ids execs left r = record { told = λ j ne. r.told j ne; rests = r.rests }

reduced-Rested :
    (order : ReplaceOrder) (loc : OrderLocation) (b b' : OrderBook)
    → IsWord order.new_quantity
    → lookup order.order_id b.resting_orders ≡ some loc
    → b'.resting_orders ≡ b.resting_orders
    → Rested order.order_id b b' [] (some order.new_quantity)
unfolding has_order contains
reduced-Rested order loc b b' w e index = record {
  told = λ j ne.
      let same = ap (λ m. is_some (lookup j m)) index in
      (λ unnamed. same, λ there. sym same ∙ there);
  rests =
      let some_left : ltb 0 order.new_quantity ≡ true = ground (arith, w) in
      ap (λ m. is_some (lookup order.order_id m)) index ∙ ap is_some e ∙ sym some_left;
}

replace-Kept :
    (session_id : ℕ) (order : ReplaceOrder) (b : OrderBook) (sessions : Owners)
    → IsValid b
    → IsWord order.new_quantity
    → AreOwned sessions b
    → Kept session_id (replace_order order) b sessions
unfolding apply_command owners_after
replace-Kept session_id order b sessions v w o = elim (replace-ReplaceOutcome order b v w) [
  | ReplaceOutcome.missing e h ↦ record {
    book = b;
    accepted = false;
    applied = rw (h, apply_command) refl;
    owned = o;
  }
  | reduced loc n' b' e f kept h valid es own index ↦ record {
    book = b';
    accepted = true;
    applied = rw (h, apply_command) refl;
    owned =
        subst (λ r. AreOwned (owners_of_replace session_id order r sessions) b') (sym h)
          (replace-AreOwned order.order_id session_id b b' [] (some order.new_quantity) sessions
            o.map (λ j ne. o.same j) (reduced-Rested order loc b b' w e index));
  }
  | requeued loc n' b₁ e f lost es own known h valid before index ↦
      let fresh : has_order order.order_id b₁ ≡ false =
        unfold has_order contains in
        ap (λ m. is_some (lookup order.order_id m)) index
        ∙ ap is_some (lookup-erase_self order.order_id b.resting_orders v.index.map) in
      let again = as_new_order order loc.side in
      let (b₂, result) = execute_order again b₁ in
      let r =
        execute_order-Rested again b₁
          (to_side loc.side (marked order.order_id b₁)
            (marked-IsValid order.order_id b₁ (of_side loc.side b₁ before)))
          fresh in
      record {
        book = with_seen b₁.seen_order_ids b₂;
        accepted = true;
        applied = rw (h, apply_command) refl;
        owned =
            subst
              (λ r.
                AreOwned (owners_of_replace session_id order r sessions)
                  (with_seen b₁.seen_order_ids b₂))
              (sym h)
              (replace-AreOwned order.order_id session_id b₁ (with_seen b₁.seen_order_ids b₂)
                result.executions result.remaining_quantity sessions o.map
                (erased order.order_id sessions b b₁ o index)
                (Rested-with_seen order.order_id b₁ b₂ b₁.seen_order_ids result.executions
                  result.remaining_quantity r));
      }
]

pub command-Kept :
    (session_id : ℕ) (command : InboundCommand) (b : OrderBook) (sessions : Owners)
    → is_command command ≡ true
    → IsSizedCommand command
    → IsValid b
    → AreOwned sessions b
    → Kept session_id command b sessions
command-Kept session_id monostate b sessions real w v o = absurd (ground (arith, real))
command-Kept session_id (new_order order) b sessions real w v o =
    submit-Kept session_id order b sessions v o
command-Kept session_id (cancel_order order) b sessions real w v o =
    cancel-Kept session_id order b sessions v o
command-Kept session_id (replace_order order) b sessions real w v o =
    replace-Kept session_id order b sessions v w o
