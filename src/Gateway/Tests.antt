-- ===== src/Gateway/Tests.antt =====
-- Examples: a session that reads one cancel order, and the frames of two messages.
use low_latency_exchange.Prelude.{
  ℕ, suc, false, some, List, [], ◌∷◌, ◌++◌, ◌≡◌, refl, arith, length, replicate,
}
use low_latency_exchange.Assoc.{lookup}
use low_latency_exchange.Spsc.{Queue}
use low_latency_exchange.Spsc.Operations.{empty_queue, try_push}
use low_latency_exchange.Spsc.Refine.{empty_queue-Holds, stored_last, refused, try_push-Pushed}
use low_latency_exchange.Protocol.MessageTypes
use low_latency_exchange.Protocol.ErrorCodes
use low_latency_exchange.Engine.Types.{
  InboundMessage, OutboundMessage, accepted_event, blank_inbound, blank_outbound,
}
use low_latency_exchange.Engine.Delivered.{exponent_pos, exponent_small}
use low_latency_exchange.Gateway.Serialize.{serialize_outbound, make_error_frame}
use low_latency_exchange.Gateway.Frames.{IsFrameOf, error_message, serialize_outbound_lem}
use low_latency_exchange.Gateway.Session.{
  TcpSession, SessionEvent, read_done, write_done, new_session, send_protocol_error, run_session,
}
use low_latency_exchange.Gateway.Reading.{Enqueues, new_session-Enqueues}
use low_latency_exchange.Gateway.Writing.{Finished, send_protocol_error-Finished}
use low_latency_exchange.Gateway.Poll.{TcpGateway, poll_outbound}
use low_latency_exchange.Gateway.Delivery.{
  Waiting, with_frames, frames_for, poll_outbound-with_frames,
}

abbrev inbound : Queue InboundMessage
inbound = empty_queue 4096 blank_inbound

abbrev header : List ℕ
header = 76 ∷ 88 ∷ 1 ∷ 2 ∷ 0 ∷ 0 ∷ 16 ∷ 0 ∷ []

abbrev payload : List ℕ
payload = 1 ∷ 0 ∷ 0 ∷ 0 ∷ 0 ∷ 0 ∷ 0 ∷ 0 ∷ 7 ∷ 0 ∷ 0 ∷ 0 ∷ 0 ∷ 0 ∷ 0 ∷ 0 ∷ []

-- The same command twice.
abbrev events : List SessionEvent
events =
    read_done false 5 header
    ∷ read_done false 6 payload
    ∷ read_done false 7 header
    ∷ read_done false 8 payload
    ∷ write_done false
    ∷ []

new_session-Enqueues_example : Enqueues 3 (run_session events (new_session 3 inbound))
new_session-Enqueues_example = new_session-Enqueues events 3 inbound

abbrev accepted : OutboundMessage
accepted = record {
  session_id = 3;
  type = MessageTypes.order_accepted;
  flags = 0;
  payload = accepted_event (record { sequence = 1; order_id = 7; remaining_quantity = 0 });
}

serialize_outbound_lem_example : IsFrameOf accepted (serialize_outbound accepted)
serialize_outbound_lem_example =
    serialize_outbound_lem accepted
      (((omega arith, omega arith), (omega arith, omega arith), omega arith), refl, omega arith)

-- A session that is writing a frame.
abbrev busy : TcpSession
busy = record (new_session 3 inbound) { write_queue = (1 ∷ 2 ∷ []) ∷ [] }

send_protocol_error-Finished_example :
    Finished busy
      (run_session
        (replicate (suc (length busy.write_queue)) (write_done false))
        (send_protocol_error ErrorCodes.session_overloaded 2 busy))
      (busy.write_queue ++ make_error_frame ErrorCodes.session_overloaded 2 ∷ [])
    × IsFrameOf
        (error_message ErrorCodes.session_overloaded 2)
        (make_error_frame ErrorCodes.session_overloaded 2)
send_protocol_error-Finished_example =
    send_protocol_error-Finished ErrorCodes.session_overloaded 2 busy (omega arith) refl

abbrev outbound : Queue OutboundMessage
outbound = (try_push 4096 blank_outbound accepted (empty_queue 4096 blank_outbound)).0

outbound-Waiting : Waiting outbound (accepted ∷ [])
outbound-Waiting =
    elim (try_push-Pushed blank_outbound 12 exponent_pos exponent_small
      (empty_queue 4096 blank_outbound) 0 [] accepted
      (empty_queue-Holds blank_outbound 12 exponent_pos exponent_small)) [
        | stored_last room e held ↦ (0, held)
        | refused full e held ↦ absurd (omega (arith, full))
      ]

abbrev gateway : TcpGateway
gateway = record {
  outbound = outbound;
  next_session_id = 4;
  sessions = (3, busy) ∷ [];
  stopped = false;
}

gateway-busy : lookup 3 gateway.sessions ≡ some busy
unfolding lookup
gateway-busy = refl

poll_outbound-with_frames_example :
    (after : TcpGateway) × (poll_outbound 2 0 gateway ≡ some (after, 1))
    × Waiting after.outbound []
    × (lookup 3 after.sessions ≡ some (with_frames (frames_for 3 (accepted ∷ [])) busy))
poll_outbound-with_frames_example =
    poll_outbound-with_frames 2 (accepted ∷ []) gateway 3 busy outbound-Waiting (omega arith)
      (omega arith) gateway-busy refl
