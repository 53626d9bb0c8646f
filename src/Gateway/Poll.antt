-- ===== src/Gateway/Poll.antt =====
-- src/tcp_gateway.cpp: `TcpGateway`. The acceptor, the timer and the sockets are Boost.Asio's; what is
-- modelled is what the gateway does when they call it. The sessions stand in a map by their number.
use low_latency_exchange.Prelude.{
  ℕ, zero, suc, Bool, true, false, Option, none, some, List, [], ◌∷◌, length, ◌==◌, if◌then◌else◌,
  add64,
}
use low_latency_exchange.Assoc.{lookup, emplace, assign, erase}
use low_latency_exchange.Spsc.{Queue}
use low_latency_exchange.Spsc.Operations.{try_pop}
use low_latency_exchange.Engine.Types.{
  InboundMessage, OutboundMessage, blank_outbound, gateway_capacity,
}
use low_latency_exchange.Gateway.Serialize.{serialize_outbound}
use low_latency_exchange.Gateway.Session.{TcpSession, new_session, close, send_raw_frame}

abbrev pub Sessions : Type 0
Sessions = List (ℕ × TcpSession)

-- `io_ctx_`, the acceptor and the timer are left out; the inbound queue is that of the sessions.
pub record TcpGateway : Type 0 where
  pub outbound : Queue OutboundMessage
  pub next_session_id : ℕ
  pub sessions : Sessions
  pub stopped : Bool

abbrev pub new_gateway : Queue OutboundMessage → TcpGateway
new_gateway outbound = record {
  outbound = outbound;
  next_session_id = 1;
  sessions = [];
  stopped = true;
}

unfoldable pub start : TcpGateway → TcpGateway
start g = record g { stopped = false }

unfoldable pub close_all : Sessions → Sessions
close_all [] = []
close_all ((id, session) ∷ sessions) = (id, close session) ∷ close_all sessions

-- The sessions are closed and then forgotten: those that were closed are the second part.
unfoldable pub stop : TcpGateway → TcpGateway × Sessions
stop g =
    if g.stopped
    then (g, [])
    else (record g { stopped = true; sessions = [] }, close_all g.sessions)

unfoldable pub active_session_count : TcpGateway → ℕ
active_session_count g = length g.sessions

-- The handler of `async_accept`.
unfoldable pub on_accept : Bool → Queue InboundMessage → TcpGateway → TcpGateway
on_accept true inbound g = g
on_accept false inbound g = record g {
  next_session_id = add64 g.next_session_id 1;
  sessions = emplace g.next_session_id (new_session g.next_session_id inbound) g.sessions;
}

unfoldable pub unregister_session : ℕ → TcpGateway → TcpGateway
unregister_session session_id g = record g { sessions = erase session_id g.sessions }

unfoldable pub send_to_all : List ℕ → Sessions → Sessions
send_to_all frame [] = []
send_to_all frame ((id, session) ∷ sessions) =
    (id, send_raw_frame frame session) ∷ send_to_all frame sessions

unfoldable pub send_to_one : ℕ → List ℕ → Sessions → Sessions
send_to_one session_id frame sessions = elim (lookup session_id sessions) [
  | none ↦ sessions
  | some session ↦ assign session_id (send_raw_frame frame session) sessions
]

-- The body of the loop of `poll_outbound`.
unfoldable pub deliver : OutboundMessage → Sessions → Sessions
deliver msg sessions =
    let frame = serialize_outbound msg in
    if msg.session_id == 0
    then send_to_all frame sessions
    else send_to_one msg.session_id frame sessions

-- `while (outbound_.try_pop(msg))`, on fuel: `none` where the fuel runs out.
unfoldable pub poll_outbound : ℕ → ℕ → TcpGateway → Option (TcpGateway × ℕ)
poll_outbound zero count g = none
poll_outbound (suc fuel) count g =
    let (outbound, out) = try_pop gateway_capacity blank_outbound g.outbound in
    elim out [
      | none ↦ some (record g { outbound = outbound }, count)
      | some msg ↦
          poll_outbound fuel (add64 count 1)
            (record g { outbound = outbound; sessions = deliver msg g.sessions })
    ]
