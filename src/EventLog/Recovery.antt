-- ===== src/EventLog/Recovery.antt =====
-- A log of what a book has accepted rebuilds the book.
use low_latency_exchange.Prelude.{
  ℕ, zero, suc, ◌+◌, ◌*◌, ◌<◌, ◌≤◌, true, none, some, List, [], ◌++◌, ◌≡◌, refl, ◌∙◌, ap, arith,
  length, length-append, All, u64_mod, add64,
}
use native.Mathlib.Nat.{mod-eq_of_lt}
use low_latency_exchange.Book.State.{OrderBook, empty_book}
use low_latency_exchange.Book.Valid.{empty_book-IsValid}
use low_latency_exchange.Protocol.MessageTypes.{MessageType}
use low_latency_exchange.EventLog.Types.{CapturedCommand}
use low_latency_exchange.EventLog.Stream.{OutputStream}
use low_latency_exchange.EventLog.Format.{read_record, record_header}
use low_latency_exchange.EventLog.Payload.{IsStorable, IsPayload}
use low_latency_exchange.EventLog.Record.{record_header_lem, record_bytes, read_record-append}
use low_latency_exchange.EventLog.Replay.{apply_command, replayed, replay_from, replay_event_log}
use low_latency_exchange.EventLog.Journal.{
  journal, IsLog, finished, recorded, stream, journal-Journaled,
}

pub record_bytes-length :
    (type : MessageType) (payload : List ℕ)
    → length (record_bytes type payload) ≡ 16 + length payload
record_bytes-length type payload =
    length-append (record_header type payload) payload
    ∙ ap (λ (n : ℕ). n + length payload) ((record_header_lem type payload).0)

-- One turn of the loop.
pub replay_from-record :
    (fuel : ℕ) (book next : OrderBook) (count : ℕ) (command : CapturedCommand) (type : MessageType)
    (payload rest : List ℕ)
    → IsPayload command type payload
    → apply_command book command ≡ some (next, true)
    → replay_from (suc fuel) book count (record_bytes type payload ++ rest)
      ≡ replay_from fuel next (add64 count 1) rest
unfolding replay_from
replay_from-record fuel book next count command type payload rest ok e =
    let back = read_record-append command type payload rest ok in
    rw (back, e, replay_from) (rw back refl)

pub replay_from-end :
    (fuel : ℕ) (book : OrderBook) (count : ℕ)
    → replay_from (suc fuel) book count [] ≡ some (replayed none count book)
unfolding replay_from read_record
replay_from-end fuel book count = refl

replay_from-IsLog :
    (fuel : ℕ) (book last : OrderBook) (start count : ℕ) (bytes : List ℕ)
    → IsLog book bytes count last
    → length bytes < fuel
    → start + count < u64_mod
    → replay_from fuel book start bytes ≡ some (replayed none (start + count) last)
replay_from-IsLog zero book last start count bytes log enough fits = absurd (omega (arith, enough))
replay_from-IsLog (suc fuel) book last start count bytes (finished _) enough fits =
    replay_from-end fuel book start
    ∙ ap (λ (k : ℕ). some (replayed none k book)) {y = start + 0} (omega arith)
replay_from-IsLog (suc fuel) book last start count bytes
      (recorded _ next _ rest n command type payload ok e log) enough fits =
    let size = length-append (record_bytes type payload) rest in
    let head = record_bytes-length type payload in
    let counted : add64 start 1 ≡ start + 1 = mod-eq_of_lt (omega (arith, fits)) in
    replay_from-record fuel book next start command type payload rest ok e
    ∙ ap (λ (k : ℕ). replay_from fuel next k rest) counted
    ∙ replay_from-IsLog fuel next last (start + 1) n rest log (omega (arith, enough, size, head))
        (omega (arith, fits))
    ∙ ap (λ (k : ℕ). some (replayed none k last)) {y = start + suc n} (omega arith)

-- A valid book takes any commands whose fields are in range and whose new orders pass `validate`, and
-- a file with 56 bytes of room for each keeps those that it accepts: the file then replays to the
-- end without an error, counts them, and has the digest of the book that accepted them. The book
-- starts empty, and there are less than 2 ^ 64 commands.
pub replay-journal :
    (commands : List CapturedCommand) (room : ℕ)
    → All IsStorable commands
    → length commands * 56 ≤ room
    → length commands < u64_mod
    → (book : OrderBook) × (count : ℕ) × (output : OutputStream) × (journal commands empty_book
          (stream [] room)
        ≡ some (book, count, output))
      × (replay_event_log (some output.written) ≡ some (replayed none count book))
replay-journal commands room ok enough few =
    let j = journal-Journaled commands empty_book [] room ok empty_book-IsValid enough in
    (
      j.last,
      j.count,
      stream j.bytes j.left,
      j.result,
      unfold replay_event_log in
          replay_from-IsLog (suc (length j.bytes)) empty_book j.last 0 j.count j.bytes j.log
            (omega arith) (omega (arith, few, j.counted))
          ∙ ap (λ (n : ℕ). some (replayed none n j.last)) {x = 0 + j.count} (omega arith),
    )
