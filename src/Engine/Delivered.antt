-- ===== src/Engine/Delivered.antt =====
-- What the engine has pushed and the other thread has taken: `push_outbound` adds one message, and ends
-- if the other thread takes something at some turn.
use low_latency_exchange.Prelude.{
  ℕ, zero, suc, ◌<◌, ◌≤◌, Option, some, List, [], ◌∷◌, ◌++◌, ◌≡◌, refl, sym, ap, ◌∙◌, arith, length,
  append_assoc,
}
use low_latency_exchange.Spsc.{Queue}
use low_latency_exchange.Spsc.Operations.{try_push, try_pop, size}
use low_latency_exchange.Spsc.Refine.{
  Holds, stored_last, refused, try_push-Pushed, taken, nothing, try_pop-Popped,
}
use low_latency_exchange.Engine.Types.{
  OutboundMessage, blank_outbound, gateway_capacity, Outbound, MatchingEngineService,
}
use low_latency_exchange.Engine.Outbound.{
  take_turn, spin, record_outbound_message, raise_high_water, push_outbound,
}

pub exponent_pos : 1 ≤ 12
exponent_pos = omega arith

pub exponent_small : 12 < 64
exponent_small = omega arith

-- The outbound queue holds what has been pushed and not taken; `history` is all that has been pushed.
pub record Pending (q : Queue OutboundMessage) (received history : List OutboundMessage)
    : Type 0 where
  pub taken_before : ℕ
  pub items : List OutboundMessage
  pub held : Holds blank_outbound 12 exponent_pos exponent_small q taken_before items
  pub all : history ≡ received ++ items

-- A turn delivers what it takes, and a turn of at least one pop leaves room.
record Turn (n bound : ℕ) (q : Queue OutboundMessage) (received history : List OutboundMessage)
    : Type 0 where
  pending : Pending q received history
  fewer : length pending.items ≤ bound
  room : 0 < n → length pending.items < 4096

take_turn-Turn :
    (n : ℕ) (q : Queue OutboundMessage) (received history : List OutboundMessage)
    (p : Pending q received history)
    → let (q', received') = take_turn n q received in Turn n (length p.items) q' received' history
unfolding take_turn
take_turn-Turn zero q received history p = record {
  pending = p;
  fewer = omega arith;
  room = λ h. absurd (omega (arith, h));
}
take_turn-Turn (suc n) q received history p =
    elim (try_pop-Popped blank_outbound 12 exponent_pos exponent_small q p.taken_before p.items
      p.held) [
        | taken x rest same e next ↦
            let p' : Pending (try_pop 4096 blank_outbound q).0 (received ++ x ∷ []) history =
              record {
                taken_before = suc p.taken_before;
                items = rest;
                held = next;
                all =
                    p.all
                    ∙ ap (λ ms. received ++ ms) same
                    ∙ sym (append_assoc received (x ∷ []) rest);
              } in
            let t =
              take_turn-Turn n (try_pop 4096 blank_outbound q).0 (received ++ x ∷ []) history p' in
            let size : length p.items ≡ suc (length rest) =
              ap (λ (ms : List OutboundMessage). length ms) same in
            rw (e, take_turn)
              (record {
                pending = t.pending;
                fewer = omega (arith, size, t.fewer);
                room = λ h. omega (arith, size, t.fewer, p.held.bounded);
              })
        | nothing same e next ↦
            let size : length p.items ≡ 0 = ap (λ (ms : List OutboundMessage). length ms) same in
            rw (e, take_turn)
              (record {
                pending = record {
                  taken_before = p.taken_before;
                  items = p.items;
                  held = next;
                  all = p.all;
                };
                fewer = omega arith;
                room = λ h. omega (arith, size);
              })
      ]

-- The turns at which something can be taken.
unfoldable pub chances : List ℕ → ℕ
chances [] = 0
chances (zero ∷ turns) = chances turns
chances (suc n ∷ turns) = suc (chances turns)

-- The messages so far are `history`, and the other thread has `n` turns left at which it takes some.
pub record Ready (n : ℕ) (o : Outbound) (history : List OutboundMessage) : Type 0 where
  pub pending : Pending o.queue o.received history
  pub left : n ≤ chances o.turns

abbrev Spun : ℕ → OutboundMessage → List OutboundMessage → Option Outbound → Type 0
Spun n msg history result = (o : Outbound) × (result ≡ some o) × Ready n o (history ++ msg ∷ [])

chances-next : (k : ℕ) (turns : List ℕ) → chances (k ∷ turns) ≤ suc (chances turns)
unfolding chances
chances-next zero turns = omega arith
chances-next (suc k) turns = omega arith

chances_idle : (k : ℕ) (turns : List ℕ) → (0 < k → ⊥) → chances (k ∷ turns) ≡ chances turns
unfolding chances
chances_idle zero turns idle = refl
chances_idle (suc k) turns idle = absurd (idle (omega arith))

spin-Spun :
    (n : ℕ) (msg : OutboundMessage) (turns : List ℕ) (q : Queue OutboundMessage)
    (received history : List OutboundMessage)
    → Pending q received history
    → suc n ≤ chances turns
    → Spun n msg history (spin msg turns q received)
unfolding spin
spin-Spun n msg [] q received history p left = absurd (unfold chances in omega (arith, left))
spin-Spun n msg (k ∷ turns) q received history p left =
    let q₁ = (take_turn k q received).0 in
    let received₁ = (take_turn k q received).1 in
    let t = take_turn-Turn k q received history p in
    let q₂ = (try_push 4096 blank_outbound msg q₁).0 in
    elim (try_push-Pushed blank_outbound 12 exponent_pos exponent_small q₁ t.pending.taken_before
      t.pending.items msg t.pending.held) [
        | stored_last room e next ↦ (
          record { queue = q₂; received = received₁; turns = turns },
          rw (e, spin) refl,
          record {
            pending = record {
              taken_before = t.pending.taken_before;
              items = t.pending.items ++ msg ∷ [];
              held = next;
              all =
                  ap (λ ms. ms ++ msg ∷ []) t.pending.all
                  ∙ append_assoc received₁ t.pending.items (msg ∷ []);
            };
            left = omega (arith, left, chances-next k turns);
          },
        )
        | refused full e next ↦
            let p₂ : Pending q₂ received₁ history = record {
              taken_before = t.pending.taken_before;
              items = t.pending.items;
              held = next;
              all = t.pending.all;
            } in
            let idle : chances (k ∷ turns) ≡ chances turns =
              chances_idle k turns (λ some_pops. omega (arith, full, t.room some_pops)) in
            let (o, done, ready) =
              spin-Spun n msg turns q₂ received₁ history p₂ (omega (arith, left, idle)) in
            (o, rw (e, spin) done, ready)
      ]

-- A service before and after messages are pushed: the rest of it, but for the metrics, stays.
pub record Pushed (n : ℕ) (s s' : MatchingEngineService) (history : List OutboundMessage)
    : Type 0 where
  pub ready : Ready n s'.outbound history
  pub same_book : s'.book ≡ s.book
  pub same_sessions : s'.order_sessions ≡ s.order_sessions
  pub same_inbound : s'.inbound ≡ s.inbound
  pub same_feed : s'.market_data ≡ s.market_data
  pub same_capture : s'.event_capture ≡ s.event_capture
  pub same_latency : s'.command_to_ack_latency ≡ s.command_to_ack_latency

-- `push_outbound` ends, and adds its message behind those that were pushed before, if the other thread
-- has a turn left at which it takes something. It changes the outbound queue and the metrics only.
pub push_outbound-Pushed :
    (n : ℕ) (msg : OutboundMessage) (s : MatchingEngineService) (history : List OutboundMessage)
    → Ready (suc n) s.outbound history
    → (s' : MatchingEngineService) × (push_outbound msg s ≡ some s')
      × Pushed n s s' (history ++ msg ∷ [])
unfolding push_outbound
push_outbound-Pushed n msg s history ready =
    let (o, e, next) =
      spin-Spun n msg s.outbound.turns s.outbound.queue s.outbound.received history ready.pending
        ready.left in
    (
      record s {
        outbound = o;
        metrics =
            raise_high_water (size gateway_capacity blank_outbound o.queue)
              (record_outbound_message msg s.metrics);
      },
      rw (e, push_outbound) refl,
      record {
        ready = next;
        same_book = refl;
        same_sessions = refl;
        same_inbound = refl;
        same_feed = refl;
        same_capture = refl;
        same_latency = refl;
      },
    )

pub Ready-weaken :
    (m n : ℕ) (o : Outbound) (history : List OutboundMessage)
    → m ≤ n
    → Ready n o history
    → Ready m o history
Ready-weaken m n o history le ready = record {
  pending = ready.pending;
  left = omega (arith, le, ready.left);
}
