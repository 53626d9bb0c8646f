-- ===== src/Engine/Owned.antt =====
-- Every handler keeps an owner for exactly the orders that rest.
use low_latency_exchange.Prelude.{ℕ, Bool, true, Option, some, List, ◌≡◌, sym, subst}
use low_latency_exchange.Book.State.{OrderBook}
use low_latency_exchange.Book.Valid.{IsValid}
use low_latency_exchange.EventLog.Replay.{apply_command}
use low_latency_exchange.EventLog.Apply.{IsSizedCommand}
use low_latency_exchange.Engine.Types.{InboundCommand, OutboundMessage, MatchingEngineService}
use low_latency_exchange.Engine.Process.{handle}
use low_latency_exchange.Engine.Delivered.{Ready}
use low_latency_exchange.Engine.Answers.{is_command, room_for, owners_after}
use low_latency_exchange.Engine.Service.{handle-Answered}
use low_latency_exchange.Engine.Owners.{AreOwned}
use low_latency_exchange.Engine.Kept.{command-Kept}

outcome_once :
    (r : Option (OrderBook × Bool)) (x y : OrderBook × Bool) → r ≡ some x → r ≡ some y → x ≡ y
outcome_once r x y e f = cc

-- While the outbound queue is emptied as in `handle-Answered`, every handler on a valid book keeps
-- `order_sessions` in step with the book: if exactly the orders that rest have an owner before a
-- command whose quantity is positive and below 2 ^ 64, then exactly those that rest after it do.
pub handle-AreOwned :
    (n session_id : ℕ) (command : InboundCommand) (s : MatchingEngineService)
    (history : List OutboundMessage)
    → is_command command ≡ true
    → IsSizedCommand command
    → IsValid s.book
    → Ready (room_for command s.book n) s.outbound history
    → AreOwned s.order_sessions s.book
    → (s' : MatchingEngineService) × (accepted : Bool) × (handle session_id command s
        ≡ some (s', accepted))
      × AreOwned s'.order_sessions s'.book
handle-AreOwned n session_id command s history real w v ready o =
    let a = handle-Answered n session_id command s history real w v ready in
    let k = command-Kept session_id command s.book s.order_sessions real w v o in
    let same =
      outcome_once (apply_command s.book command) (k.book, k.accepted) (a.after.book, a.accepted)
        k.applied a.applied in
    (
      a.after,
      a.accepted,
      a.done,
      subst (λ x. AreOwned x a.after.book) (sym a.sessions)
          (subst (λ x. AreOwned (owners_after session_id command x.1 s.book s.order_sessions) x.0)
            same k.owned),
    )
