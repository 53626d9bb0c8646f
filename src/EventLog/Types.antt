-- ===== src/EventLog/Types.antt =====
-- include/low_latency_exchange/event_log.hpp: the captured commands, the errors and the results.
use low_latency_exchange.Prelude.{ℕ, Option}
use low_latency_exchange.Command.{NewOrder, CancelOrder, ReplaceOrder}

-- `CapturedCommand`, and the `InboundCommand` of the gateway, which is the same variant.
pub data CapturedCommand : Type 0 where
  monostate : CapturedCommand
  new_order : NewOrder → CapturedCommand
  cancel_order : CancelOrder → CapturedCommand
  replace_order : ReplaceOrder → CapturedCommand

pub record EventCaptureMessage : Type 0 where
  pub command : CapturedCommand

pub record EventCaptureMetrics : Type 0 where
  pub captured_commands : ℕ
  pub dropped_commands : ℕ
  pub queue_occupancy : ℕ
  pub max_queue_occupancy : ℕ

abbrev pub capture_capacity : ℕ
capture_capacity = 4096

pub record EventCaptureFeed : Type 0 where
  pub captured_commands : ℕ
  pub dropped_commands : ℕ
  pub max_queue_occupancy : ℕ

pub data EventLogError : Type 0 where
  io_error truncated_header malformed_header truncated_payload checksum_mismatch invalid_command
        replay_command_rejected :
      EventLogError

pub record ReplayResult : Type 0 where
  pub error : Option EventLogError
  pub replayed_commands : ℕ
  pub state_digest : ℕ

-- `ReadResult`: its status, with the error or the command that goes with it.
pub data ReadResult : Type 0 where
  record_of : CapturedCommand → ReadResult
  end_of_log : ReadResult
  read_error : EventLogError → ReadResult
