-- ===== src/EventLog/Replay.antt =====
-- src/event_log.cpp: `apply_command` and `replay_event_log`. `none` is undefined behaviour of the
-- book. The digest is that of the book, wherever the replay ends.
use low_latency_exchange.Prelude.{
  ℕ, zero, suc, Bool, true, false, not, Option, none, some, List, add64, length, ◌>>=◌,
}
use low_latency_exchange.Assoc.{is_some}
use low_latency_exchange.Book.State.{OrderBook, empty_book}
use low_latency_exchange.Book.Commands.{submit, cancel, replace}
use low_latency_exchange.Book.Query.Check
use low_latency_exchange.EventLog.Types.{
  CapturedCommand, monostate, new_order, cancel_order, replace_order, EventLogError, io_error,
  replay_command_rejected, ReplayResult, record_of, end_of_log, read_error,
}
use low_latency_exchange.EventLog.Format.{read_record}

-- The book after the command, and whether it was accepted.
unfoldable pub apply_command : OrderBook → CapturedCommand → Option (OrderBook × Bool)
apply_command book monostate = some (book, false)
apply_command book (new_order order) =
    let (book', result) = submit order book in some (book', not (is_some result.rejection))
apply_command book (cancel_order command) = do
  (book', result) ← cancel command book
  some (book', not (is_some result.rejection))
apply_command book (replace_order command) = do
  (book', result) ← replace command book
  some (book', not (is_some result.rejection))

abbrev pub replayed : Option EventLogError → ℕ → OrderBook → ReplayResult
replayed error count book = record {
  error = error;
  replayed_commands = count;
  state_digest = Check.state_digest book;
}

-- `while (true)`, on fuel: `none` also where the fuel runs out.
unfoldable pub replay_from : ℕ → OrderBook → ℕ → List ℕ → Option ReplayResult
replay_from zero book count input = none
replay_from (suc fuel) book count input =
    let (result, rest) = read_record input in
    elim result [
      | end_of_log ↦ some (replayed none count book)
      | read_error error ↦ some (replayed (some error) count book)
      | record_of command ↦ elim (apply_command book command) [
        | none ↦ none
        | some (book', accepted) ↦ elim accepted [
          | false ↦ some (replayed (some replay_command_rejected) count book')
          | true ↦ replay_from fuel book' (add64 count 1) rest
        ]
      ]
    ]

-- A file that cannot be opened is `none`. A record has sixteen bytes at least, so the number of
-- bytes is enough fuel.
unfoldable pub replay_event_log : Option (List ℕ) → Option ReplayResult
replay_event_log none =
    some (record { error = some io_error; replayed_commands = 0; state_digest = 0 })
replay_event_log (some input) = replay_from (suc (length input)) empty_book 0 input
