-- ===== src/Engine/Service.antt =====
-- What the service answers to a command, and what it does to its book.
use low_latency_exchange.Prelude.{
  ℕ, suc, ◌+◌, ◌*◌, true, false, none, some, List, [], ◌∷◌, ◌++◌, ◌≡◌, refl, sym, ap, ◌∙◌, subst,
  arith, length, append_assoc, ltb, ◌&&◌, if◌then◌else◌, Option-cases, inl, inr,
}
use low_latency_exchange.Types.{IsWord}
use low_latency_exchange.Command.{NewOrder, CancelOrder, ReplaceOrder}
use low_latency_exchange.Assoc.{is_some, assign, erase}
use low_latency_exchange.Book.State.{OrderBook, ReplaceResult, ReplaceRejectReason}
use low_latency_exchange.Book.Commands.{submit, replace}
use low_latency_exchange.Book.Query.{has_order}
use low_latency_exchange.Book.Valid.{IsValid}
use low_latency_exchange.Book.Valid.Cancel.{missing, taken, cancel-CancelOutcome}
use low_latency_exchange.Book.Valid.Replace.{
  ReplaceOutcome, requeued, reduced, replace-ReplaceOutcome,
}
use low_latency_exchange.Protocol.MessageTypes
use low_latency_exchange.Protocol.MessageTypes.{MessageType}
use low_latency_exchange.Protocol.Codes.{reject_error_code, replace_error_code}
use low_latency_exchange.EventLog.Types.{monostate, new_order, cancel_order, replace_order}
use low_latency_exchange.EventLog.Replay.{apply_command}
use low_latency_exchange.EventLog.Apply.{IsSizedCommand}
use low_latency_exchange.Engine.Types.{InboundCommand, OutboundMessage, MatchingEngineService}
use low_latency_exchange.Engine.Handlers.{
  rejected_message, accepted_message, units_or_zero, report_submit, handle_new_order, report_cancel,
  handle_cancel_order, report_replace, handle_replace_order,
}
use low_latency_exchange.Engine.Process.{handle}
use low_latency_exchange.Engine.Expected.{
  accepted_payload, rejected_payload, replaced_payload, answer_payload,
}
use low_latency_exchange.Engine.Delivered.{Ready, Ready-weaken, push_outbound-Pushed}
use low_latency_exchange.Engine.Replies.{notify_executions-Notified}
use low_latency_exchange.Engine.Answers.{
  owners_after, is_command, executed_by, executions_of, Answered, submit-rejected_executions,
  told_last, Alone-Answered, room_for,
}

-- The new order that the book has accepted.
accepted_order-Answered :
    (n session_id : ℕ) (order : NewOrder) (s : MatchingEngineService)
    (history : List OutboundMessage)
    → (submit order s.book).1.rejection ≡ none
    → Ready (length (submit order s.book).1.executions * 2 + suc n) s.outbound history
    → Answered n session_id (new_order order) s history (handle_new_order session_id order s)
unfolding handle_new_order report_submit executions_of apply_command owners_after answer_payload
accepted_order-Answered n session_id order s history accepts ready =
    let result = (submit order s.book).1 in
    let s₀ : MatchingEngineService = record s { book = (submit order s.book).0 } in
    let (s₁, e₁, p₁) =
      notify_executions-Notified (suc n) session_id order.sequence result.executions s₀ history
        ready in
    let units : ℕ = units_or_zero result.remaining_quantity in
    let last : OutboundMessage =
      accepted_message session_id MessageTypes.order_accepted order.sequence order.order_id units in
    let (s₂, e₂, p₂) = push_outbound-Pushed n last s₁ (history ++ p₁.replies) p₁.ready in
    record {
      after = record s₂ {
        order_sessions =
            if ltb 0 units && has_order order.order_id s₂.book
            then assign order.order_id session_id s₂.order_sessions
            else s₂.order_sessions;
      };
      accepted = true;
      done = rw (accepts, report_submit, e₁, e₂, handle_new_order) refl;
      applied =
          rw (accepts, apply_command)
            (ap (λ b. some (b, true)) (sym (p₂.same_book ∙ p₁.same_book)));
      replies = p₁.replies ++ last ∷ [];
      last = last;
      ready = subst (Ready n s₂.outbound) (append_assoc history p₁.replies (last ∷ [])) p₂.ready;
      told = told_last session_id order.sequence result.executions p₁.replies last p₁.told refl;
      last_payload = accepted_payload order s.book accepts;
      last_type = refl;
      last_flags = refl;
      sessions = rw (p₂.same_book, p₁.same_book, p₂.same_sessions, p₁.sessions) refl;
      same_inbound = p₂.same_inbound ∙ p₁.same_inbound;
      same_feed = p₂.same_feed ∙ p₁.same_feed;
      same_capture = p₂.same_capture ∙ p₁.same_capture;
    }

handle_new_order-Answered :
    (n session_id : ℕ) (order : NewOrder) (s : MatchingEngineService)
    (history : List OutboundMessage)
    → Ready (room_for (new_order order) s.book n) s.outbound history
    → Answered n session_id (new_order order) s history (handle_new_order session_id order s)
unfolding handle_new_order executions_of apply_command owners_after answer_payload
handle_new_order-Answered n session_id order s history ready =
    elim (Option-cases (submit order s.book).1.rejection) [
      | inl e ↦ accepted_order-Answered n session_id order s history e ready
      | inr (reason, e) ↦
          let quiet : (submit order s.book).1.executions ≡ [] =
            submit-rejected_executions order s.book (ap is_some e) in
          rw (e, handle_new_order)
            (Alone-Answered n session_id (new_order order) s
              (record s { book = (submit order s.book).0 })
              (rejected_message session_id MessageTypes.order_rejected order.sequence order.order_id
                (reject_error_code reason))
              false history
              (record {
                applied = rw (e, apply_command) refl;
                quiet = quiet;
                own = refl;
                payload = rejected_payload order s.book reason e;
                type = refl;
                flags = refl;
                sessions = refl;
                same_outbound = refl;
                same_inbound = refl;
                same_feed = refl;
                same_capture = refl;
              })
              (Ready-weaken (suc n) (room_for (new_order order) s.book n) s.outbound history
                (omega arith) ready))
    ]

handle_cancel_order-Answered :
    (n session_id : ℕ) (order : CancelOrder) (s : MatchingEngineService)
    (history : List OutboundMessage)
    → IsValid s.book
    → Ready (suc n) s.outbound history
    → Answered n session_id (cancel_order order) s history (handle_cancel_order session_id order s)
unfolding handle_cancel_order report_cancel executions_of apply_command owners_after answer_payload
handle_cancel_order-Answered n session_id order s history v ready =
    elim (cancel-CancelOutcome order s.book v) [
      | missing e h ↦
          rw (h, handle_cancel_order, report_cancel)
            (Alone-Answered n session_id (cancel_order order) s s _ false history
              (record {
                applied = rw (h, apply_command) refl;
                quiet = refl;
                own = refl;
                payload = rw (h, answer_payload) refl;
                type = refl;
                flags = refl;
                sessions = refl;
                same_outbound = refl;
                same_inbound = refl;
                same_feed = refl;
                same_capture = refl;
              })
              ready)
      | taken loc n' b' e f named h valid absent es own index ↦
          rw (h, handle_cancel_order, report_cancel)
            (Alone-Answered n session_id (cancel_order order) s
              (record s { book = b'; order_sessions = erase order.order_id s.order_sessions }) _
              true history
              (record {
                applied = rw (h, apply_command) refl;
                quiet = refl;
                own = refl;
                payload = rw (h, answer_payload) refl;
                type = refl;
                flags = refl;
                sessions = refl;
                same_outbound = refl;
                same_inbound = refl;
                same_feed = refl;
                same_capture = refl;
              })
              ready)
    ]

-- The replacement that the book has accepted.
accepted_replace-Answered :
    (n session_id : ℕ) (order : ReplaceOrder) (s : MatchingEngineService) (book : OrderBook)
    (result : ReplaceResult) (history : List OutboundMessage)
    → replace order s.book ≡ some (book, result)
    → result.rejection ≡ none
    → Ready (length result.executions * 2 + suc n) s.outbound history
    → Answered n session_id
        (replace_order order)
        s
        history
        (handle_replace_order session_id order s)
unfolding handle_replace_order report_replace executions_of apply_command owners_after
    answer_payload
accepted_replace-Answered n session_id order s book result history h accepts ready =
    let s₀ : MatchingEngineService = record s { book = book } in
    let (s₁, e₁, p₁) =
      notify_executions-Notified (suc n) session_id order.sequence result.executions s₀ history
        ready in
    let units : ℕ = units_or_zero result.remaining_quantity in
    let last : OutboundMessage =
      accepted_message session_id MessageTypes.replace_accepted order.sequence order.order_id
        units in
    let s₂ : MatchingEngineService = record s₁ {
      order_sessions =
          if ltb 0 units && has_order order.order_id s₁.book
          then assign order.order_id session_id s₁.order_sessions
          else erase order.order_id s₁.order_sessions;
    } in
    let (s₃, e₃, p₃) = push_outbound-Pushed n last s₂ (history ++ p₁.replies) p₁.ready in
    record {
      after = s₃;
      accepted = true;
      done = rw (h, accepts, report_replace, e₁, e₃, handle_replace_order) refl;
      applied =
          rw (h, apply_command)
            (rw accepts (ap (λ b. some (b, true)) (sym (p₃.same_book ∙ p₁.same_book))));
      replies = p₁.replies ++ last ∷ [];
      last = last;
      ready = subst (Ready n s₃.outbound) (append_assoc history p₁.replies (last ∷ [])) p₃.ready;
      told =
          rw h (told_last session_id order.sequence result.executions p₁.replies last p₁.told refl);
      last_payload = replaced_payload order s.book book result h accepts;
      last_type = refl;
      last_flags = refl;
      sessions = p₃.same_sessions ∙ rw (h, p₁.same_book, p₁.sessions) refl;
      same_inbound = p₃.same_inbound ∙ p₁.same_inbound;
      same_feed = p₃.same_feed ∙ p₁.same_feed;
      same_capture = p₃.same_capture ∙ p₁.same_capture;
    }

handle_replace_order-Answered :
    (n session_id : ℕ) (order : ReplaceOrder) (s : MatchingEngineService)
    (history : List OutboundMessage)
    → IsValid s.book
    → IsWord order.new_quantity
    → Ready (room_for (replace_order order) s.book n) s.outbound history
    → Answered n session_id
        (replace_order order)
        s
        history
        (handle_replace_order session_id order s)
unfolding handle_replace_order executions_of apply_command owners_after answer_payload
handle_replace_order-Answered n session_id order s history v w ready =
    elim (replace-ReplaceOutcome order s.book v w) [
      | ReplaceOutcome.missing e h ↦
          rw (h, handle_replace_order)
            (Alone-Answered n session_id (replace_order order) s s
              (rejected_message session_id MessageTypes.replace_rejected order.sequence
                order.order_id (replace_error_code ReplaceRejectReason.order_not_found))
              false history
              (record {
                applied = rw (h, apply_command) refl;
                quiet = rw h refl;
                own = refl;
                payload = rw (h, answer_payload) refl;
                type = refl;
                flags = refl;
                sessions = refl;
                same_outbound = refl;
                same_inbound = refl;
                same_feed = refl;
                same_capture = refl;
              })
              (Ready-weaken (suc n) (room_for (replace_order order) s.book n) s.outbound history
                (omega arith) ready))
      | reduced loc n' b' e f kept h valid es own index ↦
          accepted_replace-Answered n session_id order s _ _ history h refl
            (subst (λ r. Ready (length (executed_by r) * 2 + suc n) s.outbound history) h ready)
      | requeued loc n' b₁ e f lost es own known h valid before index ↦
          accepted_replace-Answered n session_id order s _ _ history h refl
            (subst (λ r. Ready (length (executed_by r) * 2 + suc n) s.outbound history) h ready)
    ]

-- The engine handles each command on a valid book, whose quantity is positive and below 2 ^ 64, if the thread
-- that empties the outbound queue takes something at enough turns: two for each execution, and one
-- more. The book takes the command as `apply_command` does. The session that sent it is told each of
-- its executions in order, with the flag that more follows, and then, without that flag, whether it
-- was accepted: the answer names the sequence and the id of the command, and the units that the book
-- reports as left or cancelled, or the code of the reason why it was rejected. `replies` adds to what
-- was sent before.
pub handle-Answered :
    (n session_id : ℕ) (command : InboundCommand) (s : MatchingEngineService)
    (history : List OutboundMessage)
    → is_command command ≡ true
    → IsSizedCommand command
    → IsValid s.book
    → Ready (room_for command s.book n) s.outbound history
    → Answered n session_id command s history (handle session_id command s)
unfolding handle executions_of
handle-Answered n session_id monostate s history real w v ready = absurd (ground (arith, real))
handle-Answered n session_id (new_order order) s history real w v ready =
    handle_new_order-Answered n session_id order s history ready
handle-Answered n session_id (cancel_order order) s history real w v ready =
    handle_cancel_order-Answered n session_id order s history v
      (Ready-weaken (suc n) (0 * 2 + suc n) s.outbound history (omega arith) ready)
handle-Answered n session_id (replace_order order) s history real w v ready =
    handle_replace_order-Answered n session_id order s history v w ready
