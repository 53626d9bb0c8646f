-- ===== src/EventLog/Apply.antt =====
-- `apply_command` on a valid book: it is defined, the book stays valid, and a command that is
-- rejected changes nothing.
use low_latency_exchange.Prelude.{
  ℕ, Bool, true, false, not, Option, none, some, List, ◌≡◌, refl, arith, Option-cases, Bool-cases,
  inl, inr,
}
use low_latency_exchange.Types.{OrderType, limit, market, Price, IsWord}
use low_latency_exchange.Command.{NewOrder, validate}
use low_latency_exchange.Assoc.{is_some}
use low_latency_exchange.Book.State.{Execution, OrderBook, seen}
use low_latency_exchange.Book.Commands.{rest_remainder, execute_order, rejected, submit}
use low_latency_exchange.Book.Valid.{IsValid}
use low_latency_exchange.Book.Valid.Submit.{submit-IsValid}
use low_latency_exchange.Book.Valid.Cancel.{missing, taken, cancel-CancelOutcome}
use low_latency_exchange.Book.Valid.Replace.{
  ReplaceOutcome, requeued, reduced, replace-ReplaceOutcome,
}
use low_latency_exchange.EventLog.Types.{
  CapturedCommand, monostate, new_order, cancel_order, replace_order,
}
use low_latency_exchange.EventLog.Replay.{apply_command}

-- The quantity of a command is one.
abbrev pub IsSizedCommand : CapturedCommand → Type 0
IsSizedCommand (new_order order) = IsWord order.quantity
IsSizedCommand (replace_order order) = IsWord order.new_quantity
IsSizedCommand _ = Unit

rest_remainder-accepts :
    (order : NewOrder) (type : OrderType) (price : Option Price) (b : OrderBook) (units : ℕ)
    (executions : List Execution)
    → (rest_remainder order type price b units executions).1.rejection ≡ none
unfolding rest_remainder
rest_remainder-accepts order limit (some price) b units executions = ground arith
rest_remainder-accepts order limit none b units executions = refl
rest_remainder-accepts order market price b units executions = refl

pub execute_order-accepts :
    (order : NewOrder) (b : OrderBook) → (execute_order order b).1.rejection ≡ none
unfolding execute_order
execute_order-accepts order b = rest_remainder-accepts order order.type order.limit_price _ _ _

pub submit-unchanged :
    (order : NewOrder) (b : OrderBook)
    → is_some (submit order b).1.rejection ≡ true
    → (submit order b).0 ≡ b
unfolding submit rejected
submit-unchanged order b h = elim (Option-cases (validate order)) [
  | inr (e, h') ↦ rw (h', submit) refl
  | inl e ↦ elim (Bool-cases (seen order.order_id b.seen_order_ids)) [
    | inl old ↦ rw (e, old, submit) refl
    | inr new ↦ absurd (ground (arith, e, new, h, execute_order-accepts order b))
  ]
]

-- The command has an outcome; one that is rejected leaves the book as it was.
pub record Applied (command : CapturedCommand) (b : OrderBook) : Type 0 where
  pub book : OrderBook
  pub accepted : Bool
  pub result : apply_command b command ≡ some (book, accepted)
  pub valid : IsValid book
  pub unchanged : accepted ≡ false → book ≡ b

pub apply_command-Applied :
    (command : CapturedCommand) (b : OrderBook)
    → IsSizedCommand command
    → IsValid b
    → Applied command b
unfolding apply_command
apply_command-Applied monostate b w v = record {
  book = b;
  accepted = false;
  result = refl;
  valid = v;
  unchanged = λ h. refl;
}
apply_command-Applied (new_order order) b w v = record {
  book = (submit order b).0;
  accepted = not (is_some (submit order b).1.rejection);
  result = refl;
  valid = submit-IsValid order b v w;
  unchanged = λ h. submit-unchanged order b (ground (arith, h));
}
apply_command-Applied (cancel_order c) b w v = elim (cancel-CancelOutcome c b v) [
  | missing e h ↦ record {
    book = b;
    accepted = false;
    result = rw (h, apply_command) refl;
    valid = v;
    unchanged = λ h. refl;
  }
  | taken loc n b' e f named h valid absent es own index ↦ record {
    book = b';
    accepted = true;
    result = rw (h, apply_command) refl;
    valid = valid;
    unchanged = λ h. absurd (ground (arith, h));
  }
]
apply_command-Applied (replace_order c) b w v = elim (replace-ReplaceOutcome c b v w) [
  | ReplaceOutcome.missing e h ↦ record {
    book = b;
    accepted = false;
    result = rw (h, apply_command) refl;
    valid = v;
    unchanged = λ h. refl;
  }
  | reduced loc n b' e f kept h valid es own index ↦ record {
    book = b';
    accepted = true;
    result = rw (h, apply_command) refl;
    valid = valid;
    unchanged = λ h. absurd (ground (arith, h));
  }
  | requeued loc n b₁ e f lost es own known h valid before index ↦ record {
    book = _;
    accepted = true;
    result = rw (h, apply_command) refl;
    valid = valid;
    unchanged = λ h. absurd (ground (arith, h));
  }
]
