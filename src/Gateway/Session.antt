-- ===== src/Gateway/Session.antt =====
-- src/tcp_gateway.cpp: `TcpSession`, with what it reaches of its gateway. Boost.Asio calls a handler
-- when an operation that the session has started is done; each handler is a function of the error flag
-- and of the bytes that were read. `now` is what the clock says. A socket is open or closed.
use low_latency_exchange.Prelude.{
  ℕ, ◌+◌, ◌%◌, ◌^◌, Bool, true, false, not, ◌||◌, none, some, List, [], ◌∷◌, ◌++◌, leb, ◌==◌,
  if◌then◌else◌,
}
use low_latency_exchange.Spsc.{Queue}
use low_latency_exchange.Spsc.Operations.{try_push}
use low_latency_exchange.Protocol.ErrorCodes
use low_latency_exchange.Protocol.ErrorCodes.{ErrorCode}
use low_latency_exchange.Protocol.MessageTypes
use low_latency_exchange.Protocol.MessageTypes.{MessageType}
use low_latency_exchange.Protocol.Codes.{
  WireHeader, Decoded, failed, decoded, expected_payload_length,
}
use low_latency_exchange.Protocol.Header.{header_size, validate_header, decode_header}
use low_latency_exchange.Protocol.Commands.{
  decode_new_order, decode_cancel_order, decode_replace_order,
}
use low_latency_exchange.EventLog.Types.{new_order, cancel_order, replace_order}
use low_latency_exchange.Engine.Types.{
  InboundCommand, InboundMessage, blank_inbound, gateway_capacity,
}
use low_latency_exchange.Engine.Handlers.{units_or_zero}
use low_latency_exchange.Gateway.Serialize.{make_error_frame}

-- The read that has been started and is not done.
pub data Reading : Type 0 where
  no_read : Reading
  header_read : Reading
  payload_read : WireHeader → Reading

-- The members, the inbound queue of the gateway, and whether the gateway has the session in its map.
-- `sent` and `enqueued` are kept for the statements alone: the frames whose write is done, oldest first,
-- and the messages that the queue has taken from this session, newest first. A write is under way
-- while `write_queue` is not empty, and it is that of the first frame.
pub record TcpSession : Type 0 where
  pub session_id : ℕ
  pub is_open : Bool
  pub is_registered : Bool
  pub reading : Reading
  pub write_queue : List (List ℕ)
  pub last_sequence : ℕ
  pub close_after_write : Bool
  pub inbound : Queue InboundMessage
  pub sent : List (List ℕ)
  pub enqueued : List InboundMessage

-- `do_accept` with `start`.
abbrev pub new_session : ℕ → Queue InboundMessage → TcpSession
new_session session_id inbound = record {
  session_id = session_id;
  is_open = true;
  is_registered = true;
  reading = header_read;
  write_queue = [];
  last_sequence = 0;
  close_after_write = false;
  inbound = inbound;
  sent = [];
  enqueued = [];
}

abbrev pub close : TcpSession → TcpSession
close s = record s { is_open = false }

-- `gateway_.unregister_session(session_id_)`
abbrev pub unregister : TcpSession → TcpSession
unregister s = record s { is_registered = false }

abbrev pub is_empty : List ℕ → Bool
is_empty [] = true
is_empty (_ ∷ _) = false

-- With `do_write`, which starts to write the first frame where none is being written.
unfoldable pub send_raw_frame : List ℕ → TcpSession → TcpSession
send_raw_frame frame s = record s {
  write_queue =
      if is_empty frame || not s.is_open then s.write_queue else s.write_queue ++ frame ∷ [];
}

unfoldable pub send_protocol_error : ErrorCode → ℕ → TcpSession → TcpSession
send_protocol_error code offending_type s =
    let s' : TcpSession = record s { close_after_write = true } in
    let frame = make_error_frame code offending_type in
    if is_empty frame then unregister (close s') else send_raw_frame frame s'

abbrev pub command_message : ℕ → ℕ → MessageType → InboundCommand → InboundMessage
command_message now session_id type command = record {
  session_id = session_id;
  command = command;
  wire_bytes = (header_size + units_or_zero (expected_payload_length type)) % 2 ^ 32;
  received_at = now;
}

-- Whether the command was taken.
unfoldable pub enqueue_command :
    ℕ → ℕ → MessageType → InboundCommand → TcpSession → TcpSession × Bool
enqueue_command now sequence type command s =
    if leb sequence s.last_sequence
    then (send_protocol_error ErrorCodes.sequence_out_of_order type s, false)
    else let msg : InboundMessage = command_message now s.session_id type command in
      let (inbound, pushed) = try_push gateway_capacity blank_inbound msg s.inbound in
      let s' : TcpSession = record s { inbound = inbound } in
      if pushed
      then (record s' { last_sequence = sequence; enqueued = msg ∷ s.enqueued }, true)
      else (send_protocol_error ErrorCodes.session_overloaded type s', false)

-- The end of each case of the switch: `return` where the command was not taken, and otherwise
-- `do_read_header`.
abbrev pub read_on : TcpSession × Bool → TcpSession
read_on (s, true) = record s { reading = header_read }
read_on (s, false) = s

-- The handler of `do_read_header`. No read is under way while it runs.
unfoldable pub on_header : Bool → List ℕ → TcpSession → TcpSession
on_header true header_buf s = unregister (record s { reading = no_read })
on_header false header_buf s =
    let s' : TcpSession = record s { reading = no_read } in
    elim (decode_header header_buf) [
      | none ↦ unregister (send_protocol_error ErrorCodes.malformed_frame 0 s')
      | some header ↦ elim (validate_header header) [
        | some error ↦ send_protocol_error error header.type s'
        | none ↦ record s { reading = payload_read header }
      ]
    ]

-- A case of the switch on the type.
unfoldable pub on_command {ℓ} :
    {A : Type ℓ}
    → ℕ
    → MessageType
    → Decoded A
    → (A → ℕ)
    → (A → InboundCommand)
    → TcpSession
    → TcpSession
on_command now type (failed error) sequence_of make s = send_protocol_error error type s
on_command now type (decoded order) sequence_of make s =
    read_on (enqueue_command now (sequence_of order) type (make order) s)

-- The handler of `do_read_payload`.
unfoldable pub on_payload : Bool → ℕ → WireHeader → List ℕ → TcpSession → TcpSession
on_payload true now header payload_slice s = unregister (record s { reading = no_read })
on_payload false now header payload_slice s =
    let s' : TcpSession = record s { reading = no_read } in
    if header.type == MessageTypes.new_order
    then on_command now header.type (decode_new_order payload_slice) (λ order. order.sequence)
        new_order s'
    else if header.type == MessageTypes.cancel_order
    then on_command now header.type (decode_cancel_order payload_slice) (λ order. order.sequence)
        cancel_order s'
    else if header.type == MessageTypes.replace_order
    then on_command now header.type (decode_replace_order payload_slice) (λ order. order.sequence)
        replace_order s'
    else send_protocol_error ErrorCodes.unknown_message_type header.type s'

-- The handler of `do_write`, which runs where a frame is being written.
unfoldable pub on_write : Bool → TcpSession → TcpSession
on_write error s = elim s.write_queue [
  | [] ↦ s
  | ◌∷◌ frame rest ↦
      if error
      then unregister s
      else (let s' : TcpSession = record s { write_queue = rest; sent = s.sent ++ frame ∷ [] } in
          elim rest [
            | ◌∷◌ _ _ ↦ s'
            | [] ↦
                if s.close_after_write
                then unregister (close (record s' { close_after_write = false }))
                else s'
          ])
]

-- What Boost.Asio reports, and what others do: the gateway sends a frame or closes the session, and the engine
-- works on the queue.
pub data SessionEvent : Type 0 where
  read_done : Bool → ℕ → List ℕ → SessionEvent
  write_done : Bool → SessionEvent
  frame_sent : List ℕ → SessionEvent
  closed : SessionEvent
  queue_changed : Queue InboundMessage → SessionEvent

unfoldable pub on_read : Bool → ℕ → List ℕ → Reading → TcpSession → TcpSession
on_read error now bytes no_read s = s
on_read error now bytes header_read s = on_header error bytes s
on_read error now bytes (payload_read header) s = on_payload error now header bytes s

unfoldable pub on_event : SessionEvent → TcpSession → TcpSession
on_event (read_done error now bytes) s = on_read error now bytes s.reading s
on_event (write_done error) s = on_write error s
on_event (frame_sent frame) s = send_raw_frame frame s
on_event closed s = unregister (close s)
on_event (queue_changed q) s = record s { inbound = q }

unfoldable pub run_session : List SessionEvent → TcpSession → TcpSession
run_session [] s = s
run_session (event ∷ events) s = run_session events (on_event event s)
