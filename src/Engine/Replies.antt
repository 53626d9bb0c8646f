-- ===== src/Engine/Replies.antt =====
-- What a client is told of the executions of its command.
use low_latency_exchange.Prelude.{
  ℕ, suc, ◌+◌, ◌*◌, true, false, not, ◌&&◌, some, List, [], ◌∷◌, ◌++◌, map, ◌≡◌, refl, sym, ap, ◌∙◌,
  subst, arith, length, append_assoc, append-nil, ◌==◌, if◌then◌else◌, Bool-cases, inl, inr, add64,
}
use low_latency_exchange.Types.{OrderId, SequenceNumber}
use low_latency_exchange.Assoc.{lookup, erase}
use low_latency_exchange.Book.State.{Execution, OrderBook}
use low_latency_exchange.Book.Query.{has_order}
use low_latency_exchange.Engine.Types.{OutboundMessage, MatchingEngineService}
use low_latency_exchange.Engine.Handlers.{
  flag_more, execution_message, session_or_zero, notify_execution, notify_executions,
}
use low_latency_exchange.Engine.Delivered.{Ready, Ready-weaken, push_outbound-Pushed}

-- The messages to a session.
unfoldable pub to_session : ℕ → List OutboundMessage → List OutboundMessage
to_session id [] = []
to_session id (msg ∷ msgs) =
    let rest = to_session id msgs in if msg.session_id == id then msg ∷ rest else rest

pub to_session-append :
    (id : ℕ) (xs ys : List OutboundMessage)
    → to_session id (xs ++ ys) ≡ to_session id xs ++ to_session id ys
unfolding to_session
to_session-append id [] ys = refl
to_session-append id (x ∷ xs) ys = elim (Bool-cases (x.session_id == id)) [
  | inl e ↦ rw e (ap (λ ms. x ∷ ms) (to_session-append id xs ys))
  | inr e ↦ rw e (to_session-append id xs ys)
]

-- The owners, without those of the orders that an execution has used up.
unfoldable pub forget : OrderBook → List Execution → List (OrderId × ℕ) → List (OrderId × ℕ)
forget book [] sessions = sessions
forget book (exec ∷ execs) sessions = forget book execs (
    if has_order exec.resting_order_id book then sessions else erase exec.resting_order_id sessions)

-- A service before and after some executions are told.
pub record Notified (n session_id : ℕ) (sequence : SequenceNumber) (execs : List Execution)
    (s s' : MatchingEngineService) (history : List OutboundMessage) : Type 0 where
  pub replies : List OutboundMessage
  pub ready : Ready n s'.outbound (history ++ replies)
  pub told :
      to_session session_id replies ≡ map (execution_message session_id flag_more sequence) execs
  pub same_book : s'.book ≡ s.book
  pub sessions : s'.order_sessions ≡ forget s.book execs s.order_sessions
  pub same_inbound : s'.inbound ≡ s.inbound
  pub same_feed : s'.market_data ≡ s.market_data
  pub same_capture : s'.event_capture ≡ s.event_capture

-- The service that one execution is told of, before its first message.
abbrev begun : Execution → MatchingEngineService → MatchingEngineService
begun exec s = record s {
  metrics = record s.metrics { executions = add64 s.metrics.executions 1 };
  order_sessions =
      if has_order exec.resting_order_id s.book
      then s.order_sessions
      else erase exec.resting_order_id s.order_sessions;
}

notify_execution-Notified :
    (n session_id : ℕ) (sequence : SequenceNumber) (exec : Execution) (s : MatchingEngineService)
    (history : List OutboundMessage)
    → Ready (suc (suc n)) s.outbound history
    → (s' : MatchingEngineService) × (notify_execution session_id sequence exec s ≡ some s')
      × Notified n session_id sequence (exec ∷ []) s s' history
unfolding notify_execution forget to_session
notify_execution-Notified n session_id sequence exec s history ready =
    let own : OutboundMessage = execution_message session_id flag_more sequence exec in
    let other_id : ℕ = session_or_zero (lookup exec.resting_order_id s.order_sessions) in
    let other : OutboundMessage = execution_message other_id 0 sequence exec in
    let (s₂, e₂, p₂) = push_outbound-Pushed (suc n) own (begun exec s) history ready in
    let self : (session_id == session_id) ≡ true = ground arith in
    elim (Bool-cases (not (other_id == 0) && not (other_id == session_id))) [
      | inl two ↦
          let (s₃, e₃, p₃) = push_outbound-Pushed n other s₂ (history ++ own ∷ []) p₂.ready in
          let distinct : (other_id == session_id) ≡ false = ground (arith, two) in
          (
            s₃,
            rw (e₂, two, notify_execution) e₃,
            record {
              replies = own ∷ other ∷ [];
              ready =
                  subst (Ready n s₃.outbound) (append_assoc history (own ∷ []) (other ∷ []))
                    p₃.ready;
              told = rw (self, distinct, to_session) refl;
              same_book = p₃.same_book ∙ p₂.same_book;
              sessions = p₃.same_sessions ∙ p₂.same_sessions;
              same_inbound = p₃.same_inbound ∙ p₂.same_inbound;
              same_feed = p₃.same_feed ∙ p₂.same_feed;
              same_capture = p₃.same_capture ∙ p₂.same_capture;
            },
          )
      | inr one ↦ (
        s₂,
        rw (e₂, one, notify_execution) refl,
        record {
          replies = own ∷ [];
          ready = Ready-weaken n (suc n) s₂.outbound (history ++ own ∷ []) (omega arith) p₂.ready;
          told = rw (self, to_session) refl;
          same_book = p₂.same_book;
          sessions = p₂.same_sessions;
          same_inbound = p₂.same_inbound;
          same_feed = p₂.same_feed;
          same_capture = p₂.same_capture;
        },
      )
    ]

-- The messages about some executions, and then those about more.
told-append :
    (session_id : ℕ) (sequence : SequenceNumber) (exec : Execution) (execs : List Execution)
    (msgs more : List OutboundMessage)
    → to_session session_id msgs ≡ execution_message session_id flag_more sequence exec ∷ []
    → to_session session_id more ≡ map (execution_message session_id flag_more sequence) execs
    → to_session session_id (msgs ++ more)
      ≡ map (execution_message session_id flag_more sequence) (exec ∷ execs)
told-append session_id sequence exec execs msgs more e f =
    to_session-append session_id msgs more ∙ rw (e, f) refl

-- Each execution takes two messages at most.
pub notify_executions-Notified :
    (n session_id : ℕ) (sequence : SequenceNumber) (execs : List Execution)
    (s : MatchingEngineService) (history : List OutboundMessage)
    → Ready (length execs * 2 + n) s.outbound history
    → (s' : MatchingEngineService) × (notify_executions session_id sequence execs s ≡ some s')
      × Notified n session_id sequence execs s s' history
unfolding notify_executions forget to_session
notify_executions-Notified n session_id sequence [] s history ready = (
  s,
  refl,
  record {
    replies = [];
    ready =
        Ready-weaken n (0 * 2 + n) s.outbound (history ++ []) (omega arith)
          (subst (Ready (0 * 2 + n) s.outbound) (sym (append-nil history)) ready);
    told = refl;
    same_book = refl;
    sessions = refl;
    same_inbound = refl;
    same_feed = refl;
    same_capture = refl;
  },
)
notify_executions-Notified n session_id sequence (exec ∷ execs) s history ready =
    let (s₁, e₁, p₁) =
      notify_execution-Notified (length execs * 2 + n) session_id sequence exec s history (
        Ready-weaken (suc (suc (length execs * 2 + n))) (length (exec ∷ execs) * 2 + n) s.outbound
          history (omega arith) ready) in
    let (s₂, e₂, p₂) =
      notify_executions-Notified n session_id sequence execs s₁ (history ++ p₁.replies) p₁.ready in
    (
      s₂,
      rw (e₁, notify_executions) e₂,
      record {
        replies = p₁.replies ++ p₂.replies;
        ready = subst (Ready n s₂.outbound) (append_assoc history p₁.replies p₂.replies) p₂.ready;
        told = told-append session_id sequence exec execs p₁.replies p₂.replies p₁.told p₂.told;
        same_book = p₂.same_book ∙ p₁.same_book;
        sessions =
            p₂.sessions
            ∙ ap (λ (b : OrderBook). forget b execs s₁.order_sessions) p₁.same_book
            ∙ ap (forget s.book execs) p₁.sessions;
        same_inbound = p₂.same_inbound ∙ p₁.same_inbound;
        same_feed = p₂.same_feed ∙ p₁.same_feed;
        same_capture = p₂.same_capture ∙ p₁.same_capture;
      },
    )
