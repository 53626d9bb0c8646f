-- ===== src/EventLog/Capture.antt =====
-- src/event_log.cpp: `EventCaptureFeed` and `drain_event_capture_one`.
use low_latency_exchange.Prelude.{Bool, false, none, some, ltb, if◌then◌else◌, add64}
use low_latency_exchange.Spsc.{Queue}
use low_latency_exchange.Spsc.Operations.{try_push, try_pop, size}
use low_latency_exchange.EventLog.Types.{
  CapturedCommand, monostate, EventCaptureMessage, EventCaptureMetrics, EventCaptureFeed,
  capture_capacity,
}
use low_latency_exchange.EventLog.Stream.{OutputStream}
use low_latency_exchange.EventLog.Format.{append}

abbrev pub CaptureQueue : Type 0
CaptureQueue = Queue EventCaptureMessage

-- `EventCaptureMessage{}`
abbrev pub blank_message : EventCaptureMessage
blank_message = record { command = monostate }

abbrev pub new_capture_feed : EventCaptureFeed
new_capture_feed = record { captured_commands = 0; dropped_commands = 0; max_queue_occupancy = 0 }

unfoldable pub record_capture_occupancy : CaptureQueue → EventCaptureFeed → EventCaptureFeed
record_capture_occupancy q feed =
    let occupancy = size capture_capacity blank_message q in
    if ltb feed.max_queue_occupancy occupancy
    then record feed { max_queue_occupancy = occupancy }
    else feed

unfoldable pub capture :
    CapturedCommand → EventCaptureFeed → CaptureQueue → EventCaptureFeed × CaptureQueue
capture command feed q =
    let (q', pushed) = try_push capture_capacity blank_message (record { command = command }) q in
    if pushed
    then (
      record_capture_occupancy q'
          (record feed { captured_commands = add64 feed.captured_commands 1 }),
      q',
    )
    else (
      record_capture_occupancy q'
          (record feed { dropped_commands = add64 feed.dropped_commands 1 }),
      q',
    )

unfoldable pub capture_metrics : EventCaptureFeed → CaptureQueue → EventCaptureMetrics
capture_metrics feed q = record {
  captured_commands = feed.captured_commands;
  dropped_commands = feed.dropped_commands;
  queue_occupancy = size capture_capacity blank_message q;
  max_queue_occupancy = feed.max_queue_occupancy;
}

unfoldable pub drain_event_capture_one :
    CaptureQueue → OutputStream → CaptureQueue × OutputStream × Bool
drain_event_capture_one q output =
    let (q', out) = try_pop capture_capacity blank_message q in
    elim out [
      | none ↦ (q', output, false)
      | some message ↦ let (output', ok) = append message.command output in (q', output', ok)
    ]
