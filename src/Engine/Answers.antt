-- ===== src/Engine/Answers.antt =====
-- What an answer to a command is, and the answer that is one message.
use low_latency_exchange.Prelude.{
  if◌then◌else◌, ◌&&◌, ltb, ℕ, suc, ◌+◌, ◌*◌, Bool, true, false, Option, none, some, List, [], ◌∷◌,
  ◌++◌, map, ◌≡◌, refl, sym, ap, ◌∙◌, subst, arith, length, Bool-cases, Option-cases, inl, inr,
  ◌>>=◌,
}
use low_latency_exchange.Types.{OrderId, SequenceNumber}
use low_latency_exchange.Command.{NewOrder, ReplaceOrder, validate}
use low_latency_exchange.Assoc.{is_some, assign, erase}
use low_latency_exchange.Book.State.{Execution, OrderBook, SubmitResult, ReplaceResult, seen}
use low_latency_exchange.Book.Commands.{submit, rejected, replace}
use low_latency_exchange.Book.Query.{has_order}
use low_latency_exchange.Protocol.MessageTypes
use low_latency_exchange.Protocol.MessageTypes.{MessageType}
use low_latency_exchange.EventLog.Types.{monostate, new_order, cancel_order, replace_order}
use low_latency_exchange.EventLog.Replay.{apply_command}
use low_latency_exchange.EventLog.Apply.{execute_order-accepts}
use low_latency_exchange.Engine.Types.{InboundCommand, OutboundMessage, MatchingEngineService}
use low_latency_exchange.Engine.Outbound.{push_outbound}
use low_latency_exchange.Engine.Handlers.{flag_more, execution_message, units_or_zero}
use low_latency_exchange.Engine.Expected.{execution_report, answer_payload}
use low_latency_exchange.Engine.Delivered.{Ready, push_outbound-Pushed}
use low_latency_exchange.Engine.Replies.{forget, to_session, to_session-append}

abbrev pub is_command : InboundCommand → Bool
is_command monostate = false
is_command _ = true

abbrev pub sequence_of : InboundCommand → SequenceNumber
sequence_of monostate = 0
sequence_of (new_order order) = order.sequence
sequence_of (cancel_order order) = order.sequence
sequence_of (replace_order order) = order.sequence

abbrev pub executed_by : Option (OrderBook × ReplaceResult) → List Execution
executed_by none = []
executed_by (some (book, result)) = result.executions

-- The executions of a command.
unfoldable pub executions_of : InboundCommand → OrderBook → List Execution
executions_of (new_order order) book = (submit order book).1.executions
executions_of (replace_order order) book = executed_by (replace order book)
executions_of _ book = []

-- The type of the last answer.
abbrev pub answer_type : InboundCommand → Bool → MessageType
answer_type (new_order _) true = MessageTypes.order_accepted
answer_type (new_order _) false = MessageTypes.order_rejected
answer_type (cancel_order _) true = MessageTypes.cancel_accepted
answer_type (cancel_order _) false = MessageTypes.cancel_rejected
answer_type (replace_order _) true = MessageTypes.replace_accepted
answer_type (replace_order _) false = MessageTypes.replace_rejected
answer_type monostate _ = MessageTypes.protocol_error

-- The owners of the orders after a command.
abbrev pub owners_of_replace :
    ℕ → ReplaceOrder → Option (OrderBook × ReplaceResult) → List (OrderId × ℕ) → List (OrderId × ℕ)
owners_of_replace session_id order none sessions = sessions
owners_of_replace session_id order (some (book, result)) sessions =
    if ltb 0 (units_or_zero result.remaining_quantity) && has_order order.order_id book
    then assign order.order_id session_id (forget book result.executions sessions)
    else erase order.order_id (forget book result.executions sessions)

abbrev pub owners_of_submit :
    ℕ → NewOrder → OrderBook × SubmitResult → List (OrderId × ℕ) → List (OrderId × ℕ)
owners_of_submit session_id order (book, result) sessions =
    if ltb 0 (units_or_zero result.remaining_quantity) && has_order order.order_id book
    then assign order.order_id session_id (forget book result.executions sessions)
    else forget book result.executions sessions

unfoldable pub owners_after :
    ℕ → InboundCommand → Bool → OrderBook → List (OrderId × ℕ) → List (OrderId × ℕ)
owners_after session_id (new_order order) true book sessions =
    owners_of_submit session_id order (submit order book) sessions
owners_after session_id (cancel_order order) true book sessions = erase order.order_id sessions
owners_after session_id (replace_order order) true book sessions =
    owners_of_replace session_id order (replace order book) sessions
owners_after session_id _ _ book sessions = sessions

-- What `handle` does with a command: the book takes it as `apply_command` does, and the session that
-- sent it is told each of its executions, with the flag that more follows, and then, without the
-- flag, whether it is accepted, with the ids, the units or the reason that the book gives.
pub record Answered (n session_id : ℕ) (command : InboundCommand) (s : MatchingEngineService)
    (history : List OutboundMessage) (result : Option (MatchingEngineService × Bool)) : Type 0 where
  pub after : MatchingEngineService
  pub accepted : Bool
  pub done : result ≡ some (after, accepted)
  pub applied : apply_command s.book command ≡ some (after.book, accepted)
  pub replies : List OutboundMessage
  pub last : OutboundMessage
  pub ready : Ready n after.outbound (history ++ replies)
  pub told :
      to_session session_id replies
      ≡ map (execution_report session_id (sequence_of command)) (executions_of command s.book)
        ++ last ∷ []
  pub last_payload : answer_payload command s.book ≡ some last.payload
  pub last_type : last.type ≡ answer_type command accepted
  pub last_flags : last.flags ≡ 0
  pub sessions :
      after.order_sessions ≡ owners_after session_id command accepted s.book s.order_sessions
  pub same_inbound : after.inbound ≡ s.inbound
  pub same_feed : after.market_data ≡ s.market_data
  pub same_capture : after.event_capture ≡ s.event_capture

pub told_one :
    (id : ℕ) (msg : OutboundMessage) → msg.session_id ≡ id → to_session id (msg ∷ []) ≡ msg ∷ []
unfolding to_session
told_one id msg e = ground (arith, e)

pub submit-rejected_executions :
    (order : NewOrder) (b : OrderBook)
    → is_some (submit order b).1.rejection ≡ true
    → (submit order b).1.executions ≡ []
unfolding submit rejected
submit-rejected_executions order b h = elim (Option-cases (validate order)) [
  | inr (e, h') ↦ rw (h', submit) refl
  | inl e ↦ elim (Bool-cases (seen order.order_id b.seen_order_ids)) [
    | inl old ↦ rw (e, old, submit) refl
    | inr new ↦ absurd (ground (arith, e, new, h, execute_order-accepts order b))
  ]
]

-- The messages about the executions, and the last answer.
pub told_last :
    (session_id : ℕ) (sequence : SequenceNumber) (execs : List Execution)
    (replies : List OutboundMessage) (last : OutboundMessage)
    → to_session session_id replies ≡ map (execution_message session_id flag_more sequence) execs
    → last.session_id ≡ session_id
    → to_session session_id (replies ++ last ∷ [])
      ≡ map (execution_message session_id flag_more sequence) execs ++ last ∷ []
told_last session_id sequence execs replies last e own =
    to_session-append session_id replies (last ∷ []) ∙ rw (e, told_one session_id last own) refl

-- The answer that stands alone, sent after the service has gone from `s` to `s₀`.
pub record Alone (session_id : ℕ) (command : InboundCommand) (s s₀ : MatchingEngineService)
    (last : OutboundMessage) (accepted : Bool) : Type 0 where
  pub applied : apply_command s.book command ≡ some (s₀.book, accepted)
  pub quiet : executions_of command s.book ≡ []
  pub own : last.session_id ≡ session_id
  pub payload : answer_payload command s.book ≡ some last.payload
  pub type : last.type ≡ answer_type command accepted
  pub flags : last.flags ≡ 0
  pub sessions :
      s₀.order_sessions ≡ owners_after session_id command accepted s.book s.order_sessions
  pub same_outbound : s₀.outbound ≡ s.outbound
  pub same_inbound : s₀.inbound ≡ s.inbound
  pub same_feed : s₀.market_data ≡ s.market_data
  pub same_capture : s₀.event_capture ≡ s.event_capture

pub Alone-Answered :
    (n session_id : ℕ) (command : InboundCommand) (s s₀ : MatchingEngineService)
    (last : OutboundMessage) (accepted : Bool) (history : List OutboundMessage)
    → Alone session_id command s s₀ last accepted
    → Ready (suc n) s.outbound history
    → Answered n session_id command s history (push_outbound last s₀ >>= λ s₁. some (s₁, accepted))
Alone-Answered n session_id command s s₀ last accepted history a ready =
    let (s₁, e, p) =
      push_outbound-Pushed n last s₀ history
        (subst (λ o. Ready (suc n) o history) (sym a.same_outbound) ready) in
    record {
      after = s₁;
      accepted = accepted;
      done = rw e refl;
      applied = a.applied ∙ ap (λ b. some (b, accepted)) (sym p.same_book);
      replies = last ∷ [];
      last = last;
      ready = p.ready;
      told = rw a.quiet (told_one session_id last a.own);
      last_payload = a.payload;
      last_type = a.type;
      last_flags = a.flags;
      sessions = p.same_sessions ∙ a.sessions;
      same_inbound = p.same_inbound ∙ a.same_inbound;
      same_feed = p.same_feed ∙ a.same_feed;
      same_capture = p.same_capture ∙ a.same_capture;
    }

-- The room that the answers to a command take.
abbrev pub room_for : InboundCommand → OrderBook → ℕ → ℕ
room_for command book n = length (executions_of command book) * 2 + suc n
