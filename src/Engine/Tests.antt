-- ===== src/Engine/Tests.antt =====
-- Examples: a service at which one order has arrived.
use low_latency_exchange.Prelude.{
  Bool, Option, none, some, List, [], ◌∷◌, ◌≡◌, refl, arith, replicate,
}
use low_latency_exchange.Types.{buy, limit}
use low_latency_exchange.Command.{NewOrder, validate}
use low_latency_exchange.Assoc.{emplace, contains}
use low_latency_exchange.Book.State.{LevelQuote, seen, empty_book}
use low_latency_exchange.Book.Match.{match_against_book}
use low_latency_exchange.Book.Edit.{insert_resting_order}
use low_latency_exchange.Book.Commands.{submit}
use low_latency_exchange.Book.Query.{copy_depth, has_order}
use low_latency_exchange.Book.Valid.{empty_book-IsValid}
use low_latency_exchange.Spsc.{Queue}
use low_latency_exchange.Spsc.Operations.{empty_queue, try_push}
use low_latency_exchange.Spsc.Refine.{empty_queue-Holds, stored_last, refused, try_push-Pushed}
use low_latency_exchange.Market.Types.{blank_event}
use low_latency_exchange.Market.Feed.{new_feed}
use low_latency_exchange.Market.Publishing.{new_feed-InStep}
use low_latency_exchange.Market.Subscriber.{new_subscriber}
use low_latency_exchange.EventLog.Types.{new_order}
use low_latency_exchange.EventLog.Replay.{apply_command}
use low_latency_exchange.EventLog.Capture.{new_capture_feed, blank_message}
use low_latency_exchange.Observability.{new_histogram}
use low_latency_exchange.Engine.Types.{
  InboundMessage, blank_inbound, blank_outbound, zero_metrics, MatchingEngineService,
}
use low_latency_exchange.Engine.Outbound.{push_outbound}
use low_latency_exchange.Engine.Process.{handle, process_available}
use low_latency_exchange.Engine.Delivered.{
  exponent_pos, exponent_small, chances, Ready, Pushed, push_outbound-Pushed,
}
use low_latency_exchange.Engine.Answers.{executions_of, room_for, Answered}
use low_latency_exchange.Engine.Service.{handle-Answered}
use low_latency_exchange.Engine.Owners.{AreOwned}
use low_latency_exchange.Engine.Owned.{handle-AreOwned}
use low_latency_exchange.Engine.Steps.{Serving}
use low_latency_exchange.Engine.Batch.{
  room_for_all, AreShown, Arrived, Batch, process_available-Batch,
}

abbrev buy_one : NewOrder
buy_one = record {
  sequence = 1;
  order_id = 1;
  side = buy;
  type = limit;
  quantity = 10;
  limit_price = some 100;
}

abbrev arrival : InboundMessage
arrival = record { session_id = 3; command = new_order buy_one; wire_bytes = 48; received_at = 0 }

abbrev inbound : Queue InboundMessage
inbound = (try_push 4096 blank_inbound arrival (empty_queue 4096 blank_inbound)).0

abbrev service : MatchingEngineService
service = record {
  inbound = inbound;
  outbound = record {
    queue = empty_queue 4096 blank_outbound;
    received = [];
    turns = 1 ∷ 0 ∷ 2 ∷ [];
  };
  market_data = some (new_feed 64, empty_queue 1024 blank_event);
  event_capture = some (new_capture_feed, empty_queue 4096 blank_message);
  book = empty_book;
  order_sessions = [];
  metrics = zero_metrics;
  command_to_ack_latency = new_histogram;
}

service-Ready : Ready 2 service.outbound []
unfolding chances
service-Ready = record {
  pending = record {
    taken_before = 0;
    items = [];
    held = empty_queue-Holds blank_outbound 12 exponent_pos exponent_small;
    all = refl;
  };
  left = omega arith;
}

inbound-Arrived : Arrived inbound (arrival ∷ [])
inbound-Arrived =
    elim (try_push-Pushed blank_inbound 12 exponent_pos exponent_small
      (empty_queue 4096 blank_inbound) 0 [] arrival
      (empty_queue-Holds blank_inbound 12 exponent_pos exponent_small)) [
        | stored_last room e held ↦ (0, held)
        | refused full e held ↦ absurd (omega (arith, full))
      ]

abbrev shown_bids : List (Option LevelQuote)
shown_bids = some (record { price = 100; quantity = 10; order_count = 1 }) ∷ replicate 4 none

arrival-AreShown : AreShown (arrival ∷ []) empty_book
unfolding apply_command submit validate seen match_against_book empty_book insert_resting_order
    emplace copy_depth
arrival-AreShown = (((shown_bids, replicate 5 none), refl), tt)

arrival-room_for_all : room_for_all (arrival ∷ []) empty_book ≡ 1
unfolding room_for_all executions_of apply_command submit validate seen match_against_book
    empty_book insert_resting_order emplace
arrival-room_for_all = refl

arrival-room_for : room_for (new_order buy_one) empty_book 1 ≡ 2
unfolding executions_of apply_command submit validate seen match_against_book empty_book
    insert_resting_order emplace
arrival-room_for = refl

push_outbound-Pushed_example :
    (s' : MatchingEngineService) × (push_outbound blank_outbound service ≡ some s')
    × Pushed 1 service s' (blank_outbound ∷ [])
push_outbound-Pushed_example = push_outbound-Pushed 1 blank_outbound service [] service-Ready

handle-Answered_example :
    Answered 1 3 (new_order buy_one) service [] (handle 3 (new_order buy_one) service)
handle-Answered_example =
    handle-Answered 1 3 (new_order buy_one) service [] refl (omega arith, omega arith)
      empty_book-IsValid (rw arrival-room_for service-Ready)

service-AreOwned : AreOwned service.order_sessions service.book
unfolding has_order contains empty_book
service-AreOwned = record { map = tt; same = λ id. refl }

handle-AreOwned_example :
    (s' : MatchingEngineService) × (accepted : Bool) × (handle 3 (new_order buy_one) service
      ≡ some (s', accepted))
    × AreOwned s'.order_sessions s'.book
handle-AreOwned_example =
    handle-AreOwned 1 3 (new_order buy_one) service [] refl (omega arith, omega arith)
      empty_book-IsValid (rw arrival-room_for service-Ready) service-AreOwned

service-Serving : Serving (room_for_all (arrival ∷ []) empty_book) service [] [] new_subscriber
service-Serving = record {
  valid = empty_book-IsValid;
  ready =
      rw arrival-room_for_all
        (record { pending = service-Ready.pending; left = omega (arith, service-Ready.left) });
  captures = (0, empty_queue-Holds blank_message 12 exponent_pos exponent_small);
  in_step = new_feed-InStep 64;
}

process_available-Batch_example :
    Batch (arrival ∷ []) 0 service [] [] new_subscriber (process_available 2 (λ n. n) 0 service)
process_available-Batch_example =
    process_available-Batch 2 (λ n. n) 0 (arrival ∷ []) service [] [] new_subscriber inbound-Arrived
      ((refl, (omega arith, omega arith)), tt) arrival-AreShown service-Serving (omega arith)
      (omega arith) (omega arith)
