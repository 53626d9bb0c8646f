-- ===== src/EventLog/Tests.antt =====
-- Examples: a log of two orders, one of which is refused.
use low_latency_exchange.Prelude.{
  ℕ, All, ◌≤◌, none, some, List, [], ◌∷◌, ◌≡◌, refl, arith, length, take, drop, ◌-◌,
}
use low_latency_exchange.Types.{buy, limit}
use low_latency_exchange.Command.{NewOrder, validate}
use low_latency_exchange.Book.State.{OrderBook, empty_book}
use low_latency_exchange.EventLog.Types.{CapturedCommand, new_order, cancel_order}
use low_latency_exchange.EventLog.Stream.{OutputStream}
use low_latency_exchange.EventLog.Replay.{replayed, replay_event_log}
use low_latency_exchange.EventLog.Payload.{IsStorable}
use low_latency_exchange.EventLog.Journal.{journal, IsLog, stream}
use low_latency_exchange.EventLog.Recovery.{replay-journal}
use low_latency_exchange.EventLog.Cut.{truncation, IsCutAt}
use low_latency_exchange.EventLog.Truncation.{replay-truncated}
use low_latency_exchange.Protocol.CommandTrip.{HasPrices}

abbrev buy_one : NewOrder
buy_one = record {
  sequence = 1;
  order_id = 1;
  side = buy;
  type = limit;
  quantity = 10;
  limit_price = some 100;
}

-- The cancel of an order that is not there, and then of the one that is.
abbrev commands : List CapturedCommand
commands =
    new_order buy_one
    ∷ cancel_order (record { sequence = 2; order_id = 9 })
    ∷ cancel_order (record { sequence = 3; order_id = 1 })
    ∷ []

prices : HasPrices buy_one
prices p e = ground (arith, e)

buy_one-validate : validate buy_one ≡ none
unfolding validate
buy_one-validate = refl

commands-IsStorable : All IsStorable commands
commands-IsStorable = (
  (
    (omega arith, omega arith),
    (omega arith, omega arith),
    (omega arith, omega arith),
    prices,
    buy_one-validate,
  ),
  (
    ((omega arith, omega arith), (omega arith, omega arith)),
    (((omega arith, omega arith), (omega arith, omega arith)), tt),
  ),
)

replay-journal_example :
    (book : OrderBook) × (count : ℕ) × (output : OutputStream) × (journal commands empty_book
        (stream [] 200)
      ≡ some (book, count, output))
    × (replay_event_log (some output.written) ≡ some (replayed none count book))
replay-journal_example = replay-journal commands 200 commands-IsStorable (omega arith) (omega arith)

replay-truncated_example :
    (book : OrderBook) × (count : ℕ) × (output : OutputStream) × (journal commands empty_book
        (stream [] 200)
      ≡ some (book, count, output))
    × (last : OrderBook) × (n : ℕ) × (whole : ℕ) × (whole ≤ length (take 60 output.written))
    × (replay_event_log (some (take 60 output.written))
        ≡ some (replayed (truncation (length (take 60 output.written) - whole)) n last))
    × IsLog empty_book (take whole output.written) n last
    × IsCutAt (drop whole output.written) (length (take 60 output.written) - whole)
replay-truncated_example =
    replay-truncated commands 200 60 commands-IsStorable (omega arith) (omega arith)
