-- ===== src/Gateway/Delivery.antt =====
-- `poll_outbound` hands each message to the sessions that it is for, in order.
use low_latency_exchange.Prelude.{
  ℕ, zero, suc, ◌+◌, ◌<◌, Bool, true, false, not, ◌||◌, ◌&&◌, Option, none, some, List, [], ◌∷◌,
  ◌++◌, ◌≡◌, refl, sym, ap, ◌∙◌, subst, arith, length, ◌==◌, if◌then◌else◌, Bool-cases,
  Option-cases, inl, inr, add64, u64_mod, append_assoc, append-nil,
}
use native.Mathlib.Nat.{mod-eq_of_lt}
use low_latency_exchange.Assoc.{lookup, lookup-assign}
use low_latency_exchange.Spsc.{Queue}
use low_latency_exchange.Spsc.Operations.{try_pop}
use low_latency_exchange.Spsc.Refine.{Holds, taken, nothing, try_pop-Popped}
use low_latency_exchange.Engine.Types.{OutboundMessage, blank_outbound}
use low_latency_exchange.Engine.Delivered.{exponent_pos, exponent_small}
use low_latency_exchange.Gateway.Serialize.{serialize_outbound}
use low_latency_exchange.Gateway.Session.{TcpSession, is_empty, send_raw_frame}
use low_latency_exchange.Gateway.Poll.{
  Sessions, TcpGateway, send_to_all, send_to_one, deliver, poll_outbound,
}

-- The messages for a session: its own, and those for all.
unfoldable pub is_for : ℕ → OutboundMessage → Bool
is_for id msg = msg.session_id == 0 || msg.session_id == id

-- What a session is handed of some messages.
unfoldable pub handed : ℕ → List OutboundMessage → TcpSession → TcpSession
handed id [] s = s
handed id (msg ∷ msgs) s =
    handed id msgs (if is_for id msg then send_raw_frame (serialize_outbound msg) s else s)

-- The same, where there is such a session.
abbrev pub handed_to : ℕ → List OutboundMessage → Option TcpSession → Option TcpSession
handed_to id msgs none = none
handed_to id msgs (some s) = some (handed id msgs s)

abbrev sent_to : List ℕ → Option TcpSession → Option TcpSession
sent_to frame none = none
sent_to frame (some s) = some (send_raw_frame frame s)

lookup-send_to_all :
    (id : ℕ) (frame : List ℕ) (sessions : Sessions)
    → lookup id (send_to_all frame sessions) ≡ sent_to frame (lookup id sessions)
unfolding lookup send_to_all
lookup-send_to_all id frame [] = refl
lookup-send_to_all id frame ((j, session) ∷ sessions) = elim (Bool-cases (j == id)) [
  | inl e ↦ rw e refl
  | inr e ↦ rw e (lookup-send_to_all id frame sessions)
]

lookup-send_to_one :
    (id to : ℕ) (frame : List ℕ) (sessions : Sessions)
    → lookup id (send_to_one to frame sessions)
      ≡ (if to == id then sent_to frame (lookup id sessions) else lookup id sessions)
unfolding send_to_one
lookup-send_to_one id to frame sessions = elim (Bool-cases (to == id)) [
  | inl e ↦
      let same : to ≡ id = ground (arith, e) in
      elim (Option-cases (lookup to sessions)) [
        | inl h ↦
            let h' : lookup id sessions ≡ none = ap (λ i. lookup i sessions) (sym same) ∙ h in
            rw (e, h, send_to_one) (rw h' refl)
        | inr (session, h) ↦
            let h' : lookup id sessions ≡ some session =
              ap (λ i. lookup i sessions) (sym same) ∙ h in
            rw (e, h, send_to_one)
              (lookup-assign to id (send_raw_frame frame session) sessions ∙ rw (e, h') refl)
      ]
  | inr e ↦ elim (Option-cases (lookup to sessions)) [
    | inl h ↦ rw (e, h, send_to_one) refl
    | inr (session, h) ↦
        rw (e, h, send_to_one)
          (lookup-assign to id (send_raw_frame frame session) sessions ∙ rw e refl)
  ]
]

lookup-deliver :
    (id : ℕ) (msg : OutboundMessage) (sessions : Sessions)
    → lookup id (deliver msg sessions) ≡ (
        if is_for id msg
        then sent_to (serialize_outbound msg) (lookup id sessions)
        else lookup id sessions)
unfolding deliver is_for
lookup-deliver id msg sessions = elim (Bool-cases (msg.session_id == 0)) [
  | inl e ↦ rw (e, deliver) (lookup-send_to_all id (serialize_outbound msg) sessions)
  | inr e ↦ rw (e, deliver) (lookup-send_to_one id msg.session_id (serialize_outbound msg) sessions)
]

handed-next :
    (id : ℕ) (msg : OutboundMessage) (msgs : List OutboundMessage) (sessions : Sessions)
    → handed_to id msgs (lookup id (deliver msg sessions))
      ≡ handed_to id (msg ∷ msgs) (lookup id sessions)
unfolding handed
handed-next id msg msgs sessions =
    ap (handed_to id msgs) (lookup-deliver id msg sessions) ∙ here (is_for id msg) refl
  where
    here :
        (b : Bool)
        → is_for id msg ≡ b
        → handed_to id msgs (
            if is_for id msg
            then sent_to (serialize_outbound msg) (lookup id sessions)
            else lookup id sessions)
          ≡ handed_to id (msg ∷ msgs) (lookup id sessions)
    here true e = elim (Option-cases (lookup id sessions)) [
      | inl h ↦ rw (e, h) refl
      | inr (s, h) ↦ rw (e, h) (rw e refl)
    ]
    here false e = elim (Option-cases (lookup id sessions)) [
      | inl h ↦ rw (e, h) refl
      | inr (s, h) ↦ rw (e, h) (rw e refl)
    ]

-- The frames that reach a session: those of the messages for it that can be serialized.
unfoldable pub frames_for : ℕ → List OutboundMessage → List (List ℕ)
frames_for id [] = []
frames_for id (msg ∷ msgs) =
    let rest = frames_for id msgs in
    if is_for id msg && not (is_empty (serialize_outbound msg))
    then serialize_outbound msg ∷ rest
    else rest

-- The session with frames behind those that wait.
abbrev pub with_frames : List (List ℕ) → TcpSession → TcpSession
with_frames frames s = record s { write_queue = s.write_queue ++ frames }

send_raw_frame-open :
    (frame : List ℕ) (s : TcpSession)
    → is_empty frame ≡ false
    → s.is_open ≡ true
    → send_raw_frame frame s ≡ with_frames (frame ∷ []) s
unfolding send_raw_frame
send_raw_frame-open frame s some_bytes opened =
    ap (λ fs. record s { write_queue = fs })
      {x = if is_empty frame || not s.is_open then s.write_queue else s.write_queue ++ frame ∷ []}
      (rw (some_bytes, opened) refl)

send_raw_frame_empty :
    (frame : List ℕ) (s : TcpSession) → is_empty frame ≡ true → send_raw_frame frame s ≡ s
unfolding send_raw_frame
send_raw_frame_empty frame s nothing_there =
    ap (λ fs. record s { write_queue = fs })
      {x = if is_empty frame || not s.is_open then s.write_queue else s.write_queue ++ frame ∷ []}
      (rw nothing_there refl)

handed-open :
    (id : ℕ) (msgs : List OutboundMessage) (s : TcpSession)
    → s.is_open ≡ true
    → handed id msgs s ≡ with_frames (frames_for id msgs) s
unfolding handed frames_for
handed-open id [] s opened =
    ap (λ fs. record s { write_queue = fs }) (sym (append-nil s.write_queue))
handed-open id (msg ∷ msgs) s opened =
    let frame : List ℕ = serialize_outbound msg in
    elim (Bool-cases (is_for id msg)) [
      | inr other ↦ rw other (handed-open id msgs s opened)
      | inl mine ↦ elim (Bool-cases (is_empty frame)) [
        | inl nothing_there ↦
            rw (mine, nothing_there)
              (ap (handed id msgs) (send_raw_frame_empty frame s nothing_there)
                ∙ handed-open id msgs s opened)
        | inr some_bytes ↦
            rw (mine, some_bytes)
              (ap (handed id msgs) (send_raw_frame-open frame s some_bytes opened)
                ∙ handed-open id msgs (with_frames (frame ∷ []) s) opened
                ∙ ap (λ fs. record s { write_queue = fs })
                    (append_assoc s.write_queue (frame ∷ []) (frames_for id msgs)))
      ]
    ]

-- The outbound queue holds these messages.
abbrev pub Waiting : Queue OutboundMessage → List OutboundMessage → Type 0
Waiting q msgs = (taken : ℕ) × Holds blank_outbound 12 exponent_pos exponent_small q taken msgs

-- What a poll does to the messages that wait.
pub record Polled (msgs : List OutboundMessage) (count : ℕ) (g : TcpGateway)
    (result : Option (TcpGateway × ℕ)) : Type 0 where
  pub after : TcpGateway
  pub done : result ≡ some (after, count + length msgs)
  pub emptied : Waiting after.outbound []
  pub reached : (id : ℕ) → lookup id after.sessions ≡ handed_to id msgs (lookup id g.sessions)

handed-none : (id : ℕ) (o : Option TcpSession) → o ≡ handed_to id [] o
unfolding handed
handed-none id none = refl
handed-none id (some s) = refl

poll_outbound-Polled :
    (fuel count : ℕ) (msgs : List OutboundMessage) (g : TcpGateway)
    → Waiting g.outbound msgs
    → length msgs < fuel
    → count + length msgs < u64_mod
    → Polled msgs count g (poll_outbound fuel count g)
unfolding poll_outbound
poll_outbound-Polled zero count msgs g w enough few = absurd (omega (arith, enough))
poll_outbound-Polled (suc fuel) count msgs g (r, held) enough few =
    elim (try_pop-Popped blank_outbound 12 exponent_pos exponent_small g.outbound r msgs held) [
      | nothing same e next ↦
          let size : length msgs ≡ 0 = ap (λ (ms : List OutboundMessage). length ms) same in
          let g' : TcpGateway = record g {
            outbound = (try_pop 4096 blank_outbound g.outbound).0;
          } in
          record {
            after = g';
            done =
                rw (e, poll_outbound)
                  (ap (λ (n : ℕ). some (g', n)) {y = count + length msgs} (omega (arith, size)));
            emptied = (
              r,
              subst (Holds blank_outbound 12 exponent_pos exponent_small g'.outbound r) same next,
            );
            reached = λ id.
                unfold handed in
                subst (λ ms. lookup id g.sessions ≡ handed_to id ms (lookup id g.sessions))
                  (sym same) (handed-none id (lookup id g.sessions));
          }
      | taken msg rest same e next ↦
          let size : length msgs ≡ suc (length rest) =
            ap (λ (ms : List OutboundMessage). length ms) same in
          let g' : TcpGateway = record g {
            outbound = (try_pop 4096 blank_outbound g.outbound).0;
            sessions = deliver msg g.sessions;
          } in
          let p =
            poll_outbound-Polled fuel (count + 1) rest g' (suc r, next)
              (omega (arith, enough, size)) (omega (arith, few, size)) in
          let counted : add64 count 1 ≡ count + 1 = mod-eq_of_lt (omega (arith, few, size)) in
          record {
            after = p.after;
            done =
                rw (e, poll_outbound)
                  (ap (λ (n : ℕ). poll_outbound fuel n g') counted
                    ∙ p.done
                    ∙ ap (λ (n : ℕ). some (p.after, n)) {y = count + length msgs}
                        (omega (arith, size)));
            emptied = p.emptied;
            reached = λ id.
                p.reached id
                ∙ handed-next id msg rest g.sessions
                ∙ ap (λ ms. handed_to id ms (lookup id g.sessions)) (sym same);
          }
    ]

-- A poll of a queue that holds some messages, with fuel for one pop more, takes them all and counts them, and
-- leaves the queue empty. An open session has then, behind the frames that waited, the frames of the
-- messages that carry its number or 0, in order, and is otherwise as before.
pub poll_outbound-with_frames :
    (fuel : ℕ) (msgs : List OutboundMessage) (g : TcpGateway) (id : ℕ) (s : TcpSession)
    → Waiting g.outbound msgs
    → length msgs < fuel
    → length msgs < u64_mod
    → lookup id g.sessions ≡ some s
    → s.is_open ≡ true
    → (after : TcpGateway) × (poll_outbound fuel 0 g ≡ some (after, length msgs))
      × Waiting after.outbound []
      × (lookup id after.sessions ≡ some (with_frames (frames_for id msgs) s))
poll_outbound-with_frames fuel msgs g id s w enough few here opened =
    let p = poll_outbound-Polled fuel 0 msgs g w enough (omega (arith, few)) in
    (
      p.after,
      p.done ∙ ap (λ (n : ℕ). some (p.after, n)) {x = 0 + length msgs} (omega arith),
      p.emptied,
      p.reached id ∙ ap (handed_to id msgs) here ∙ ap some (handed-open id msgs s opened),
    )
