-- ===== src/Engine/Steps.antt =====
-- `process_message`: what the captured log, the market data and the clients get of one command.
use low_latency_exchange.Prelude.{
  ℕ, ◌<◌, Bool, true, false, Option, none, some, List, [], ◌∷◌, ◌++◌, ◌≡◌, refl, sym, ap, ◌∙◌,
  subst, arith, length, if◌then◌else◌, replicate,
}
use low_latency_exchange.Book.State.{OrderBook, LevelQuote, empty_book}
use low_latency_exchange.Book.Query.{copy_depth}
use low_latency_exchange.Book.Valid.{IsValid}
use low_latency_exchange.Spsc.{Queue}
use low_latency_exchange.Spsc.Refine.{Holds, stored_last, refused, try_push-Pushed}
use low_latency_exchange.Market.Types.{MarketDataFeed, MarketDataEvent, MarketDataBook}
use low_latency_exchange.Market.InStep.{InStep}
use low_latency_exchange.Market.Publishing.{publish-InStep}
use low_latency_exchange.EventLog.Types.{CapturedCommand, EventCaptureMessage, EventCaptureFeed}
use low_latency_exchange.EventLog.Capture.{CaptureQueue, blank_message, capture}
use low_latency_exchange.EventLog.Replay.{apply_command}
use low_latency_exchange.EventLog.Apply.{IsSizedCommand, apply_command-Applied}
use low_latency_exchange.Engine.Types.{
  InboundCommand, InboundMessage, OutboundMessage, MatchingEngineService,
}
use low_latency_exchange.Engine.Process.{
  record_command_result, count_inbound, capture_event, publish_market_data, process_message,
}
use low_latency_exchange.Engine.Delivered.{exponent_pos, exponent_small, Ready}
use low_latency_exchange.Engine.Answers.{is_command, room_for}
use low_latency_exchange.Engine.Service.{handle-Answered}

-- The capture queue holds these commands.
abbrev pub HoldsCommands : CaptureQueue → ℕ → List EventCaptureMessage → Type 0
HoldsCommands = Holds blank_message 12 exponent_pos exponent_small

-- The same, where there is a feed.
abbrev pub Captures : Option (EventCaptureFeed × CaptureQueue) → List EventCaptureMessage → Type 0
Captures none items = Unit
Captures (some (feed, q)) items = (taken : ℕ) × HoldsCommands q taken items

-- The market data are in step with a subscriber, where there is a feed.
abbrev pub IsFeedInStep : Option (MarketDataFeed × Queue MarketDataEvent) → MarketDataBook → Type 0
IsFeedInStep none subscriber = Unit
IsFeedInStep (some (feed, q)) subscriber = InStep feed q subscriber

-- The depth of the book is defined.
abbrev pub IsShown : OrderBook → Type 0
IsShown book =
    (levels : List (Option LevelQuote) × List (Option LevelQuote)) × (copy_depth (replicate 5 none)
        (replicate 5 none) book
      ≡ some levels)

capture-Captures :
    (command : CapturedCommand) (feed : EventCaptureFeed) (q : CaptureQueue)
    (items : List EventCaptureMessage)
    → Captures (some (feed, q)) items
    → length items < 4096
    → Captures (some (capture command feed q)) (items ++ record { command = command } ∷ [])
unfolding capture
capture-Captures command feed q items (taken, held) room =
    elim (try_push-Pushed blank_message 12 exponent_pos exponent_small q taken items
      (record { command = command }) held) [
        | stored_last fits e next ↦ (taken, rw (e, capture) next)
        | refused full e next ↦ absurd (omega (arith, full, room))
      ]

-- The commands that are captured: those that were, and an accepted one.
abbrev pub captured : Bool → CapturedCommand → List EventCaptureMessage → List EventCaptureMessage
captured accepted command items =
    if accepted then items ++ record { command = command } ∷ [] else items

capture_event-Captures :
    (command : InboundCommand) (accepted : Bool)
    (capturing : Option (EventCaptureFeed × CaptureQueue)) (items : List EventCaptureMessage)
    → Captures capturing items
    → length items < 4096
    → Captures (capture_event command accepted capturing) (captured accepted command items)
unfolding capture_event
capture_event-Captures command true none items held room = tt
capture_event-Captures command true (some (feed, q)) items held room =
    capture-Captures command feed q items held room
capture_event-Captures command false none items held room = held
capture_event-Captures command false (some (feed, q)) items held room = held

publish_market_data-IsFeedInStep :
    (book : OrderBook) (feeding : Option (MarketDataFeed × Queue MarketDataEvent))
    (subscriber : MarketDataBook)
    → IsShown book
    → IsFeedInStep feeding subscriber
    → (feeding' : Option (MarketDataFeed × Queue MarketDataEvent)) × (publish_market_data book
          feeding
        ≡ some feeding')
      × IsFeedInStep feeding' subscriber
unfolding publish_market_data
publish_market_data-IsFeedInStep book none subscriber shown step = (none, refl, tt)
publish_market_data-IsFeedInStep book (some (feed, q)) subscriber (levels, shown) step =
    let (feed', q', e, step') = publish-InStep book levels feed q subscriber shown step in
    (some (feed', q'), rw e refl, step')

abbrev pub book_or_empty : Option (OrderBook × Bool) → OrderBook
book_or_empty none = empty_book
book_or_empty (some (book, _)) = book

-- What a service is to have for a command that arrives at it.
pub record Serving (n : ℕ) (s : MatchingEngineService) (history : List OutboundMessage)
    (items : List EventCaptureMessage) (subscriber : MarketDataBook) : Type 0 where
  pub valid : IsValid s.book
  pub ready : Ready n s.outbound history
  pub captures : Captures s.event_capture items
  pub in_step : IsFeedInStep s.market_data subscriber

-- What `process_message` does.
pub record Processed (n session_id : ℕ) (command : InboundCommand) (s : MatchingEngineService)
    (history : List OutboundMessage) (items : List EventCaptureMessage)
    (subscriber : MarketDataBook) (result : Option MatchingEngineService) : Type 0 where
  pub after : MatchingEngineService
  pub done : result ≡ some after
  pub book : OrderBook
  pub accepted : Bool
  pub applied : apply_command s.book command ≡ some (book, accepted)
  pub same_book : after.book ≡ book
  pub replies : List OutboundMessage
  pub serving : Serving n after (history ++ replies) (captured accepted command items) subscriber
  pub same_inbound : after.inbound ≡ s.inbound

pub process_message-Processed :
    (n now : ℕ) (msg : InboundMessage) (s : MatchingEngineService) (history : List OutboundMessage)
    (items : List EventCaptureMessage) (subscriber : MarketDataBook)
    → is_command msg.command ≡ true
    → IsSizedCommand msg.command
    → Serving (room_for msg.command s.book n) s history items subscriber
    → length items < 4096
    → ((book : OrderBook) (accepted : Bool)
        → apply_command s.book msg.command ≡ some (book, accepted)
        → IsShown book)
    → Processed n msg.session_id msg.command s history items subscriber (process_message now msg s)
unfolding process_message record_command_result count_inbound
process_message-Processed n now msg s history items subscriber real w serving room shows =
    let a =
      handle-Answered n msg.session_id msg.command s history real w serving.valid serving.ready in
    let d = apply_command-Applied msg.command s.book w serving.valid in
    let same : a.after.book ≡ d.book = ap book_or_empty (sym a.applied ∙ d.result) in
    let (feeding, e, step) =
      publish_market_data-IsFeedInStep a.after.book a.after.market_data subscriber
        (shows a.after.book a.accepted a.applied)
        (subst (λ f. IsFeedInStep f subscriber) (sym a.same_feed) serving.in_step) in
    record {
      after = record (record_command_result now msg a.accepted (count_inbound msg a.after)) {
        event_capture = capture_event msg.command a.accepted a.after.event_capture;
        market_data = feeding;
      };
      done = rw (a.done, e, process_message) refl;
      book = a.after.book;
      accepted = a.accepted;
      applied = a.applied;
      same_book = refl;
      replies = a.replies;
      serving = record {
        valid = subst IsValid (sym same) d.valid;
        ready = a.ready;
        captures =
            capture_event-Captures msg.command a.accepted a.after.event_capture items
              (subst (λ c. Captures c items) (sym a.same_capture) serving.captures) room;
        in_step = step;
      };
      same_inbound = a.same_inbound;
    }
