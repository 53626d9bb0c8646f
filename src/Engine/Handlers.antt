-- ===== src/Engine/Handlers.antt =====
-- src/tcp_gateway.cpp: `handle_new_order`, `handle_cancel_order`, `handle_replace_order`. `none` is
-- undefined behaviour, or the engine waiting for ever.
use low_latency_exchange.Prelude.{
  ℕ, Bool, true, false, not, Option, none, some, List, [], ◌∷◌, ◌==◌, ltb, ◌&&◌, if◌then◌else◌,
  add64, ◌>>=◌,
}
use low_latency_exchange.Types.{OrderId, SequenceNumber}
use low_latency_exchange.Command.{NewOrder, CancelOrder, ReplaceOrder}
use low_latency_exchange.Assoc.{lookup, assign, erase}
use low_latency_exchange.Book.State.{Execution, SubmitResult, CancelResult, ReplaceResult}
use low_latency_exchange.Book.Commands.{submit, cancel, replace}
use low_latency_exchange.Book.Query.{has_order}
use low_latency_exchange.Protocol.MessageTypes
use low_latency_exchange.Protocol.MessageTypes.{MessageType}
use low_latency_exchange.Protocol.ErrorCodes.{ErrorCode}
use low_latency_exchange.Protocol.Codes.{reject_error_code, cancel_error_code, replace_error_code}
use low_latency_exchange.Engine.Types.{
  accepted_event, rejected_event, execution_event, cancelled_event, OutboundMessage,
  MatchingEngineService,
}
use low_latency_exchange.Engine.Outbound.{push_outbound}

-- `kFlagMore`
abbrev pub flag_more : ℕ
flag_more = 1

abbrev pub rejected_message :
    ℕ → MessageType → SequenceNumber → OrderId → ErrorCode → OutboundMessage
rejected_message session_id type sequence order_id error_code = record {
  session_id = session_id;
  type = type;
  flags = 0;
  payload =
      rejected_event (record { sequence = sequence; order_id = order_id; error_code = error_code });
}

abbrev pub accepted_message : ℕ → MessageType → SequenceNumber → OrderId → ℕ → OutboundMessage
accepted_message session_id type sequence order_id remaining_units = record {
  session_id = session_id;
  type = type;
  flags = 0;
  payload =
      accepted_event
        (record { sequence = sequence; order_id = order_id; remaining_quantity = remaining_units });
}

abbrev pub execution_message : ℕ → ℕ → SequenceNumber → Execution → OutboundMessage
execution_message session_id flags sequence exec = record {
  session_id = session_id;
  type = MessageTypes.execution;
  flags = flags;
  payload = execution_event (record {
    sequence = sequence;
    resting_order_id = exec.resting_order_id;
    incoming_order_id = exec.incoming_order_id;
    price = exec.price;
    quantity = exec.quantity;
  });
}

-- `it != end() ? it->second : 0`
abbrev pub session_or_zero : Option ℕ → ℕ
session_or_zero none = 0
session_or_zero (some session_id) = session_id

abbrev pub units_or_zero : Option ℕ → ℕ
units_or_zero none = 0
units_or_zero (some units) = units

-- The body of the loop over the executions, which the two handlers share.
unfoldable pub notify_execution :
    ℕ → SequenceNumber → Execution → MatchingEngineService → Option MatchingEngineService
notify_execution session_id sequence exec s = do
  let resting_session_id = session_or_zero (lookup exec.resting_order_id s.order_sessions)
  let s₁ : MatchingEngineService = record s {
    metrics = record s.metrics { executions = add64 s.metrics.executions 1 };
    order_sessions =
        if has_order exec.resting_order_id s.book
        then s.order_sessions
        else erase exec.resting_order_id s.order_sessions;
  }
  s₂ ← push_outbound (execution_message session_id flag_more sequence exec) s₁
  if not (resting_session_id == 0) && not (resting_session_id == session_id)
      then push_outbound (execution_message resting_session_id 0 sequence exec) s₂
      else some s₂

unfoldable pub notify_executions :
    ℕ → SequenceNumber → List Execution → MatchingEngineService → Option MatchingEngineService
notify_executions session_id sequence [] s = some s
notify_executions session_id sequence (exec ∷ execs) s = do
  s' ← notify_execution session_id sequence exec s
  notify_executions session_id sequence execs s'

-- `handle_new_order` past the rejection.
unfoldable pub report_submit :
    ℕ → NewOrder → SubmitResult → MatchingEngineService → Option MatchingEngineService
report_submit session_id order result s = do
  s₁ ← notify_executions session_id order.sequence result.executions s
  let remaining_units = units_or_zero result.remaining_quantity
  s₂ ←
      push_outbound
        (accepted_message session_id MessageTypes.order_accepted order.sequence order.order_id
          remaining_units)
        s₁
  some (record s₂ {
    order_sessions =
        if ltb 0 remaining_units && has_order order.order_id s₂.book
        then assign order.order_id session_id s₂.order_sessions
        else s₂.order_sessions;
  })

unfoldable pub handle_new_order :
    ℕ → NewOrder → MatchingEngineService → Option (MatchingEngineService × Bool)
handle_new_order session_id order s =
    let (book, result) = submit order s.book in
    let s₁ : MatchingEngineService = record s { book = book } in
    elim result.rejection [
      | some reason ↦ do
        s₂ ←
            push_outbound
              (rejected_message session_id MessageTypes.order_rejected order.sequence order.order_id
                (reject_error_code reason))
              s₁
        some (s₂, false)
      | none ↦ do s₂ ← report_submit session_id order result s₁; some (s₂, true)
    ]

-- `handle_cancel_order` after the book has answered.
unfoldable pub report_cancel :
    ℕ → CancelOrder → CancelResult → MatchingEngineService → Option (MatchingEngineService × Bool)
report_cancel session_id order result s = elim result.rejection [
  | none ↦ do
    cancelled_quantity ← result.cancelled_quantity
    s₁ ←
        push_outbound
          (record {
            session_id = session_id;
            type = MessageTypes.cancel_accepted;
            flags = 0;
            payload = cancelled_event (record {
              sequence = order.sequence;
              order_id = order.order_id;
              cancelled_quantity = cancelled_quantity;
            });
          })
          (record s { order_sessions = erase order.order_id s.order_sessions })
    some (s₁, true)
  | some reason ↦ do
    s₁ ←
        push_outbound
          (rejected_message session_id MessageTypes.cancel_rejected order.sequence order.order_id
            (cancel_error_code reason))
          s
    some (s₁, false)
]

unfoldable pub handle_cancel_order :
    ℕ → CancelOrder → MatchingEngineService → Option (MatchingEngineService × Bool)
handle_cancel_order session_id order s = do
  (book, result) ← cancel order s.book
  report_cancel session_id order result (record s { book = book })

-- `handle_replace_order` past the rejection.
unfoldable pub report_replace :
    ℕ → ReplaceOrder → ReplaceResult → MatchingEngineService → Option MatchingEngineService
report_replace session_id order result s = do
  s₁ ← notify_executions session_id order.sequence result.executions s
  let remaining_units = units_or_zero result.remaining_quantity
  push_outbound
      (accepted_message session_id MessageTypes.replace_accepted order.sequence order.order_id
        remaining_units)
      (record s₁ {
        order_sessions =
            if ltb 0 remaining_units && has_order order.order_id s₁.book
            then assign order.order_id session_id s₁.order_sessions
            else erase order.order_id s₁.order_sessions;
      })

unfoldable pub handle_replace_order :
    ℕ → ReplaceOrder → MatchingEngineService → Option (MatchingEngineService × Bool)
handle_replace_order session_id order s = do
  (book, result) ← replace order s.book
  let s₁ : MatchingEngineService = record s { book = book }
  elim result.rejection [
    | some reason ↦ do
      s₂ ←
          push_outbound
            (rejected_message session_id MessageTypes.replace_rejected order.sequence order.order_id
              (replace_error_code reason))
            s₁
      some (s₂, false)
    | none ↦ do s₂ ← report_replace session_id order result s₁; some (s₂, true)
  ]
