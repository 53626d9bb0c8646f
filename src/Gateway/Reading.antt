-- ===== src/Gateway/Reading.antt =====
-- What a session lets through to the engine.
use low_latency_exchange.Prelude.{
  ℕ, suc, ◌<◌, ◌≤◌, Bool, true, false, List, [], ◌∷◌, ◌≡◌, refl, sym, ◌∙◌, subst, arith, All, ◌==◌,
  leb, Bool-cases, Option-cases, inl, inr,
}
use low_latency_exchange.Spsc.{Queue}
use low_latency_exchange.Spsc.Operations.{try_push}
use low_latency_exchange.Protocol.ErrorCodes
use low_latency_exchange.Protocol.ErrorCodes.{ErrorCode}
use low_latency_exchange.Protocol.MessageTypes
use low_latency_exchange.Protocol.MessageTypes.{MessageType}
use low_latency_exchange.Protocol.Codes.{WireHeader, Decoded, failed, decoded}
use low_latency_exchange.Protocol.Header.{validate_header, decode_header}
use low_latency_exchange.Protocol.Commands.{
  decode_new_order, decode_cancel_order, decode_replace_order,
}
use low_latency_exchange.EventLog.Types.{new_order, cancel_order, replace_order}
use low_latency_exchange.Engine.Types.{InboundCommand, InboundMessage, blank_inbound}
use low_latency_exchange.Engine.Answers.{sequence_of}
use low_latency_exchange.Gateway.Serialize.{make_error_frame}
use low_latency_exchange.Gateway.Session.{
  TcpSession, Reading, no_read, header_read, payload_read, new_session, is_empty, send_raw_frame,
  send_protocol_error, command_message, enqueue_command, read_on, on_header, on_command, on_payload,
  on_write, on_read, SessionEvent, read_done, write_done, frame_sent, closed, queue_changed,
  on_event, run_session,
}
use low_latency_exchange.Gateway.Admitted.{
  IsAdmitted, decode_new_order-IsAdmitted, decode_cancel_order_valid, decode_replace_order_valid,
}

-- The sequences of the messages, newest first, fall from the bound on.
abbrev pub AreFalling : ℕ → List InboundMessage → Type 0
AreFalling bound [] = Unit
AreFalling bound (msg ∷ msgs) =
    (sequence_of msg.command < bound) × AreFalling (sequence_of msg.command) msgs

-- The messages that a session has enqueued are its own, hold admitted commands, and their sequences rise.
pub record Enqueues (id : ℕ) (s : TcpSession) : Type 0 where
  pub own_id : s.session_id ≡ id
  pub falling : AreFalling (suc s.last_sequence) s.enqueued
  pub admitted : All (λ msg. (msg.session_id ≡ id) × IsAdmitted msg.command) s.enqueued

-- The parts that `Enqueues` speaks of are the same.
abbrev IsSame : TcpSession → TcpSession → Type 0
IsSame s s' =
    (s'.session_id ≡ s.session_id)
    × (s'.last_sequence ≡ s.last_sequence)
    × (s'.enqueued ≡ s.enqueued)

same-Enqueues : (id : ℕ) (s s' : TcpSession) → IsSame s s' → Enqueues id s → Enqueues id s'
same-Enqueues id s s' same h = record {
  own_id = same.0 ∙ h.own_id;
  falling =
      subst (AreFalling (suc s'.last_sequence)) (sym same.2)
        (subst (λ (n : ℕ). AreFalling (suc n) s.enqueued) (sym same.1) h.falling);
  admitted =
      subst (All (λ msg. (msg.session_id ≡ id) × IsAdmitted msg.command)) (sym same.2) h.admitted;
}

send_protocol_error-IsSame :
    (code : ErrorCode) (offending_type : ℕ) (s : TcpSession)
    → IsSame s (send_protocol_error code offending_type s)
unfolding send_protocol_error send_raw_frame
send_protocol_error-IsSame code offending_type s =
    elim (Bool-cases (is_empty (make_error_frame code offending_type))) [
      | inl e ↦ rw e (refl, refl, refl)
      | inr e ↦ rw e (refl, refl, refl)
    ]

AreFalling-weaken :
    (m n : ℕ) (msgs : List InboundMessage) → m ≤ n → AreFalling m msgs → AreFalling n msgs
AreFalling-weaken m n [] le h = tt
AreFalling-weaken m n (msg ∷ msgs) le h = (omega (arith, le, h.0), h.1)

enqueue_command-Enqueues :
    (now id : ℕ) (type : MessageType) (command : InboundCommand) (s : TcpSession)
    → IsAdmitted command
    → Enqueues id s
    → Enqueues id (read_on (enqueue_command now (sequence_of command) type command s))
unfolding enqueue_command
enqueue_command-Enqueues now id type command s ok h =
    let msg : InboundMessage = command_message now s.session_id type command in
    elim (Bool-cases (leb (sequence_of command) s.last_sequence)) [
      | inl late ↦
          rw (late, enqueue_command)
            (same-Enqueues id s _
              (send_protocol_error-IsSame ErrorCodes.sequence_out_of_order type s) h)
      | inr next ↦
          let rises : suc s.last_sequence ≤ sequence_of command = ground (arith, next) in
          elim (Bool-cases (try_push 4096 blank_inbound msg s.inbound).1) [
            | inl stored ↦
                rw (next, stored, enqueue_command)
                  (record {
                    own_id = h.own_id;
                    falling = (
                      omega arith,
                      AreFalling-weaken (suc s.last_sequence) (sequence_of command) s.enqueued rises
                          h.falling,
                    );
                    admitted = ((h.own_id, ok), h.admitted);
                  })
            | inr full ↦
                rw (next, full, enqueue_command)
                  (same-Enqueues id s _
                    (send_protocol_error-IsSame ErrorCodes.session_overloaded type
                      (record s { inbound = (try_push 4096 blank_inbound msg s.inbound).0 }))
                    h)
          ]
    ]

on_command-Enqueues :
    {A : Type 0} (now id : ℕ) (type : MessageType) (result : Decoded A) (sequence : A → ℕ)
    (make : A → InboundCommand) (s : TcpSession)
    → ((a : A) → result ≡ decoded a → IsAdmitted (make a))
    → ((a : A) → sequence a ≡ sequence_of (make a))
    → Enqueues id s
    → Enqueues id (on_command now type result sequence make s)
unfolding on_command
on_command-Enqueues now id type (failed error) sequence make s valid same h =
    same-Enqueues id s _ (send_protocol_error-IsSame error type s) h
on_command-Enqueues now id type (decoded a) sequence make s valid same h =
    subst (λ (n : ℕ). Enqueues id (read_on (enqueue_command now n type (make a) s))) (sym (same a))
      (enqueue_command-Enqueues now id type (make a) s (valid a refl) h)

on_payload-Enqueues :
    (error : Bool) (now id : ℕ) (header : WireHeader) (bytes : List ℕ) (s : TcpSession)
    → Enqueues id s
    → Enqueues id (on_payload error now header bytes s)
unfolding on_payload
on_payload-Enqueues true now id header bytes s h = same-Enqueues id s _ (refl, refl, refl) h
on_payload-Enqueues false now id header bytes s h =
    let s' : TcpSession = record s { reading = no_read } in
    let h' : Enqueues id s' = same-Enqueues id s s' (refl, refl, refl) h in
    elim (Bool-cases (header.type == MessageTypes.new_order)) [
      | inl e ↦
          rw (e, on_payload)
            (on_command-Enqueues now id header.type (decode_new_order bytes)
              (λ order. order.sequence) new_order s' (decode_new_order-IsAdmitted bytes)
              (λ order. refl) h')
      | inr e ↦ elim (Bool-cases (header.type == MessageTypes.cancel_order)) [
        | inl f ↦
            rw (e, f, on_payload)
              (on_command-Enqueues now id header.type (decode_cancel_order bytes)
                (λ order. order.sequence) cancel_order s' (decode_cancel_order_valid bytes)
                (λ order. refl) h')
        | inr f ↦ elim (Bool-cases (header.type == MessageTypes.replace_order)) [
          | inl g ↦
              rw (e, f, g, on_payload)
                (on_command-Enqueues now id header.type (decode_replace_order bytes)
                  (λ order. order.sequence) replace_order s' (decode_replace_order_valid bytes)
                  (λ order. refl) h')
          | inr g ↦
              rw (e, f, g, on_payload)
                (same-Enqueues id s' _
                  (send_protocol_error-IsSame ErrorCodes.unknown_message_type header.type s') h')
        ]
      ]
    ]

on_header-Enqueues :
    (error : Bool) (id : ℕ) (bytes : List ℕ) (s : TcpSession)
    → Enqueues id s
    → Enqueues id (on_header error bytes s)
unfolding on_header
on_header-Enqueues true id bytes s h = same-Enqueues id s _ (refl, refl, refl) h
on_header-Enqueues false id bytes s h =
    let s' : TcpSession = record s { reading = no_read } in
    let h' : Enqueues id s' = same-Enqueues id s s' (refl, refl, refl) h in
    elim (Option-cases (decode_header bytes)) [
      | inl e ↦
          rw (e, on_header)
            (same-Enqueues id s' _ (send_protocol_error-IsSame ErrorCodes.malformed_frame 0 s') h')
      | inr (header, e) ↦ elim (Option-cases (validate_header header)) [
        | inl f ↦ rw (e, f, on_header) (same-Enqueues id s _ (refl, refl, refl) h)
        | inr (error, f) ↦
            rw (e, f, on_header)
              (same-Enqueues id s' _ (send_protocol_error-IsSame error header.type s') h')
      ]
    ]

on_write-IsSame :
    (error : Bool) (frames : List (List ℕ)) (s : TcpSession)
    → s.write_queue ≡ frames
    → IsSame s (on_write error s)
unfolding on_write
on_write-IsSame error [] s e = rw (e, on_write) (refl, refl, refl)
on_write-IsSame true (frame ∷ rest) s e = rw (e, on_write) (refl, refl, refl)
on_write-IsSame false (frame ∷ next ∷ rest) s e = rw (e, on_write) (refl, refl, refl)
on_write-IsSame false (frame ∷ []) s e = elim (Bool-cases s.close_after_write) [
  | inl c ↦ rw (e, c, on_write) (refl, refl, refl)
  | inr c ↦ rw (e, c, on_write) (refl, refl, refl)
]

on_write-Enqueues :
    (error : Bool) (id : ℕ) (s : TcpSession) → Enqueues id s → Enqueues id (on_write error s)
on_write-Enqueues error id s h =
    same-Enqueues id s (on_write error s) (on_write-IsSame error s.write_queue s refl) h

on_event-Enqueues :
    (event : SessionEvent) (id : ℕ) (s : TcpSession)
    → Enqueues id s
    → Enqueues id (on_event event s)
unfolding on_event on_read send_raw_frame
on_event-Enqueues (read_done error now bytes) id s h = reads s.reading
  where
    reads : (r : Reading) → Enqueues id (on_read error now bytes r s)
    reads no_read = h
    reads header_read = on_header-Enqueues error id bytes s h
    reads (payload_read header) = on_payload-Enqueues error now id header bytes s h
on_event-Enqueues (write_done error) id s h = on_write-Enqueues error id s h
on_event-Enqueues (frame_sent frame) id s h = same-Enqueues id s _ (refl, refl, refl) h
on_event-Enqueues closed id s h = same-Enqueues id s _ (refl, refl, refl) h
on_event-Enqueues (queue_changed q) id s h = same-Enqueues id s _ (refl, refl, refl) h

run_session-Enqueues :
    (events : List SessionEvent) (id : ℕ) (s : TcpSession)
    → Enqueues id s
    → Enqueues id (run_session events s)
unfolding run_session
run_session-Enqueues [] id s h = h
run_session-Enqueues (event ∷ events) id s h =
    run_session-Enqueues events id (on_event event s) (on_event-Enqueues event id s h)

-- Whatever bytes a client sends, in whatever pieces errors leave them, and whatever happens to the queue and
-- the session meanwhile, the messages that a session enqueues carry its number, hold commands whose
-- sequence, id, quantity and price (that of a new order, where it has one) are positive, new orders
-- that `validate` accepts among them, and their sequences rise strictly.
pub new_session-Enqueues :
    (events : List SessionEvent) (id : ℕ) (inbound : Queue InboundMessage)
    → Enqueues id (run_session events (new_session id inbound))
new_session-Enqueues events id inbound =
    run_session-Enqueues events id (new_session id inbound)
      (record { own_id = refl; falling = tt; admitted = tt })
