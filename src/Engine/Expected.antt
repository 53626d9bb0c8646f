-- ===== src/Engine/Expected.antt =====
-- The messages that the sender of a command is to be told, field by field.
use low_latency_exchange.Prelude.{ℕ, Option, none, some, ◌≡◌, refl, ap, ◌∙◌, ◌>>=◌}
use low_latency_exchange.Types.{SequenceNumber, OrderId}
use low_latency_exchange.Command.{NewOrder, CancelOrder, ReplaceOrder}
use low_latency_exchange.Book.State.{
  Execution, OrderBook, SubmitResult, CancelResult, ReplaceResult, OrderRejectReason,
  ReplaceRejectReason,
}
use low_latency_exchange.Book.Commands.{submit, cancel, replace}
use low_latency_exchange.Protocol.MessageTypes
use low_latency_exchange.Protocol.ErrorCodes.{ErrorCode}
use low_latency_exchange.Protocol.Codes.{reject_error_code, cancel_error_code, replace_error_code}
use low_latency_exchange.EventLog.Types.{monostate, new_order, cancel_order, replace_order}
use low_latency_exchange.Engine.Types.{
  OutboundPayload, accepted_event, rejected_event, execution_event, cancelled_event, InboundCommand,
  OutboundMessage,
}
use low_latency_exchange.Engine.Handlers.{units_or_zero}

-- An execution of the command with this sequence, with the flag that more follows.
abbrev pub execution_report : ℕ → SequenceNumber → Execution → OutboundMessage
execution_report session_id sequence exec = record {
  session_id = session_id;
  type = MessageTypes.execution;
  flags = 1;
  payload = execution_event (record {
    sequence = sequence;
    resting_order_id = exec.resting_order_id;
    incoming_order_id = exec.incoming_order_id;
    price = exec.price;
    quantity = exec.quantity;
  });
}

-- The units that are left; 0 for a quantity that is not there.
abbrev pub units_left : Option ℕ → ℕ
units_left none = 0
units_left (some units) = units

pub units_left-units_or_zero : (left : Option ℕ) → units_left left ≡ units_or_zero left
units_left-units_or_zero none = refl
units_left-units_or_zero (some units) = refl

abbrev pub refusal : SequenceNumber → OrderId → ErrorCode → OutboundPayload
refusal sequence order_id error_code =
    rejected_event (record { sequence = sequence; order_id = order_id; error_code = error_code })

abbrev pub acceptance : SequenceNumber → OrderId → ℕ → OutboundPayload
acceptance sequence order_id units =
    accepted_event (record { sequence = sequence; order_id = order_id; remaining_quantity = units })

-- An acceptance with the units that are left, or a refusal with the code of its reason.
abbrev answer :
    {A : Type 0} → SequenceNumber → OrderId → ℕ → (A → ErrorCode) → Option A → OutboundPayload
answer sequence order_id units code none = acceptance sequence order_id units
answer sequence order_id units code (some reason) = refusal sequence order_id (code reason)

abbrev pub submit_payload : NewOrder → SubmitResult → OutboundPayload
submit_payload order result =
    answer order.sequence order.order_id (units_left result.remaining_quantity) reject_error_code
      result.rejection

abbrev pub cancel_payload : CancelOrder → CancelResult → Option OutboundPayload
cancel_payload order result = elim result.rejection [
  | none ↦ elim result.cancelled_quantity [
    | none ↦ none
    | some units ↦ some (
        cancelled_event (record {
          sequence = order.sequence;
          order_id = order.order_id;
          cancelled_quantity = units;
        }))
  ]
  | some reason ↦ some (refusal order.sequence order.order_id (cancel_error_code reason))
]

abbrev pub replace_payload : ReplaceOrder → ReplaceResult → OutboundPayload
replace_payload order result =
    answer order.sequence order.order_id (units_left result.remaining_quantity) replace_error_code
      result.rejection

-- The payload of the last answer, from what the book reports of the command: the units that are left
-- or were cancelled, or the code of the reason why it is rejected.
unfoldable pub answer_payload : InboundCommand → OrderBook → Option OutboundPayload
answer_payload monostate book = none
answer_payload (new_order order) book = some (submit_payload order (submit order book).1)
answer_payload (cancel_order order) book = do
  (book', result) ← cancel order book
  cancel_payload order result
answer_payload (replace_order order) book = do
  (book', result) ← replace order book
  some (replace_payload order result)

-- The answer to a new order, on both branches.
pub accepted_payload :
    (order : NewOrder) (b : OrderBook)
    → (submit order b).1.rejection ≡ none
    → answer_payload (new_order order) b
      ≡ some (
          acceptance order.sequence order.order_id
            (units_or_zero (submit order b).1.remaining_quantity))
unfolding answer_payload
accepted_payload order b e =
    ap
      (λ (x : Option OrderRejectReason). some (
        answer order.sequence order.order_id (units_left (submit order b).1.remaining_quantity)
          reject_error_code x))
      e
    ∙ ap (λ (k : ℕ). some (acceptance order.sequence order.order_id k))
        (units_left-units_or_zero (submit order b).1.remaining_quantity)

pub rejected_payload :
    (order : NewOrder) (b : OrderBook) (reason : OrderRejectReason)
    → (submit order b).1.rejection ≡ some reason
    → answer_payload (new_order order) b
      ≡ some (refusal order.sequence order.order_id (reject_error_code reason))
unfolding answer_payload
rejected_payload order b reason e =
    ap
      (λ (x : Option OrderRejectReason). some (
        answer order.sequence order.order_id (units_left (submit order b).1.remaining_quantity)
          reject_error_code x))
      e

pub replaced_payload :
    (order : ReplaceOrder) (b b' : OrderBook) (result : ReplaceResult)
    → replace order b ≡ some (b', result)
    → result.rejection ≡ none
    → answer_payload (replace_order order) b
      ≡ some (acceptance order.sequence order.order_id (units_or_zero result.remaining_quantity))
unfolding answer_payload
replaced_payload order b b' result h e =
    rw (h, answer_payload)
      (ap
          (λ (x : Option ReplaceRejectReason). some (
            answer order.sequence order.order_id (units_left result.remaining_quantity)
              replace_error_code x))
          e
        ∙ ap (λ (k : ℕ). some (acceptance order.sequence order.order_id k))
            (units_left-units_or_zero result.remaining_quantity))
