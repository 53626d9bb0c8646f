-- ===== src/EventLog/Journal.antt =====
-- The log that a book and a stream make of a list of commands.
use low_latency_exchange.Prelude.{
  ℕ, suc, ◌+◌, ◌-◌, ◌*◌, ◌≤◌, true, false, Option, some, List, [], ◌∷◌, ◌++◌, append-nil,
  append_assoc, ◌≡◌, refl, ◌∙◌, ap, sym, arith, length, All, Bool-cases, inl, inr, ◌>>=◌,
  if◌then◌else◌,
}
use low_latency_exchange.Book.State.{OrderBook}
use low_latency_exchange.Book.Valid.{IsValid}
use low_latency_exchange.Protocol.MessageTypes.{MessageType}
use low_latency_exchange.EventLog.Types.{
  CapturedCommand, monostate, new_order, cancel_order, replace_order,
}
use low_latency_exchange.EventLog.Stream.{OutputStream, write-fits}
use low_latency_exchange.EventLog.Format.{append, record_header}
use low_latency_exchange.EventLog.Payload.{IsStorable, IsPayload, encode_command_lem}
use low_latency_exchange.EventLog.Record.{record_header_lem, record_bytes}
use low_latency_exchange.EventLog.Apply.{IsSizedCommand, apply_command-Applied}
use low_latency_exchange.EventLog.Replay.{apply_command}

-- The book after the commands, with the log of those that it accepted and their number: the engine
-- captures what the book accepts, and the captured commands are appended in that order.
unfoldable pub journal :
    List CapturedCommand → OrderBook → OutputStream → Option (OrderBook × ℕ × OutputStream)
journal [] book output = some (book, 0, output)
journal (command ∷ commands) book output = do
  (book₁, accepted) ← apply_command book command
  let output₁ : OutputStream = if accepted then (append command output).0 else output
  (book₂, count, output₂) ← journal commands book₁ output₁
  some (book₂, if accepted then suc count else count, output₂)

-- The bytes are the records of `count` commands that the book accepts one after the other, and they
-- take it to `last`.
pub data IsLog : OrderBook → List ℕ → ℕ → OrderBook → Type 0 where
  finished : (book : OrderBook) → IsLog book [] 0 book
  recorded :
      (book next last : OrderBook) (bytes : List ℕ) (count : ℕ) (command : CapturedCommand)
      (type : MessageType) (payload : List ℕ)
      → IsPayload command type payload
      → apply_command book command ≡ some (next, true)
      → IsLog next bytes count last
      → IsLog book (record_bytes type payload ++ bytes) (suc count) last

pub IsStorable-IsSizedCommand :
    (command : CapturedCommand) → IsStorable command → IsSizedCommand command
IsStorable-IsSizedCommand monostate ok = absurd ok
IsStorable-IsSizedCommand (new_order order) ok = ok.2
IsStorable-IsSizedCommand (cancel_order c) ok = tt
IsStorable-IsSizedCommand (replace_order c) ok = ok.2

-- A stream that is good.
abbrev pub stream : List ℕ → ℕ → OutputStream
stream written room = record { is_good = true; written = written; room = room }

-- What `append` writes to a stream that is good and has room.
append_lem :
    (command : CapturedCommand) (type : MessageType) (payload written : List ℕ) (room : ℕ)
    → IsPayload command type payload
    → 56 ≤ room
    → (append command (stream written room)).0
      ≡ stream (written ++ record_bytes type payload) (room - (16 + length payload))
unfolding append
append_lem command type payload written room ok enough =
    let header : List ℕ = record_header type payload in
    let size : length header ≡ 16 = (record_header_lem type payload).0 in
    rw
      (
        ok.0,
        write-fits header written room (omega (arith, size, enough)),
        write-fits payload (written ++ header) (room - length header)
            (omega (arith, size, enough, ok.3)),
        append_assoc written header payload,
        size,
      )
      (ap (stream (written ++ (header ++ payload))) {x = room - 16 - length payload}
        {y = room - (16 + length payload)} (omega arith))

-- What `journal` does.
pub record Journaled (commands : List CapturedCommand) (book : OrderBook) (written : List ℕ)
    (room : ℕ) : Type 0 where
  pub last : OrderBook
  pub count : ℕ
  pub bytes : List ℕ
  pub left : ℕ
  pub result :
      journal commands book (stream written room)
      ≡ some (last, count, stream (written ++ bytes) left)
  pub log : IsLog book bytes count last
  pub valid : IsValid last
  pub counted : count ≤ length commands

-- A rejected command leaves no record.
journal-rejected :
    (command : CapturedCommand) (commands : List CapturedCommand) (book : OrderBook)
    (written : List ℕ) (room : ℕ)
    → apply_command book command ≡ some (book, false)
    → Journaled commands book written room
    → Journaled (command ∷ commands) book written room
unfolding journal
journal-rejected command commands book written room e j = record {
  last = j.last;
  count = j.count;
  bytes = j.bytes;
  left = j.left;
  result = rw (e, journal) (rw j.result refl);
  log = j.log;
  valid = j.valid;
  counted = omega (arith, j.counted);
}

-- An accepted one leaves its record.
journal-accepted :
    (command : CapturedCommand) (commands : List CapturedCommand) (book next : OrderBook)
    (type : MessageType) (payload written : List ℕ) (room : ℕ)
    → IsPayload command type payload
    → 56 ≤ room
    → apply_command book command ≡ some (next, true)
    → Journaled commands next (written ++ record_bytes type payload) (room - (16 + length payload))
    → Journaled (command ∷ commands) book written room
unfolding journal
journal-accepted command commands book next type payload written room ok enough e j = record {
  last = j.last;
  count = suc j.count;
  bytes = record_bytes type payload ++ j.bytes;
  left = j.left;
  result =
      rw (e, append_lem command type payload written room ok enough, journal)
        (rw (j.result, append_assoc written (record_bytes type payload) j.bytes) refl);
  log = recorded book next j.last j.bytes j.count command type payload ok e j.log;
  valid = j.valid;
  counted = omega (arith, j.counted);
}

pub journal-Journaled :
    (commands : List CapturedCommand) (book : OrderBook) (written : List ℕ) (room : ℕ)
    → All IsStorable commands
    → IsValid book
    → length commands * 56 ≤ room
    → Journaled commands book written room
journal-Journaled [] book written room ok v enough = record {
  last = book;
  count = 0;
  bytes = [];
  left = room;
  result =
      unfold journal in
      ap (λ (bs : List ℕ). some (book, 0, stream bs room)) (sym (append-nil written));
  log = finished book;
  valid = v;
  counted = omega arith;
}
journal-Journaled (command ∷ commands) book written room ok v enough =
    let a = apply_command-Applied command book (IsStorable-IsSizedCommand command ok.0) v in
    elim (Bool-cases a.accepted) [
      | inl kept ↦
          let (type, payload, is) = encode_command_lem command ok.0 in
          journal-accepted command commands book a.book type payload written room is
            (omega (arith, enough)) (a.result ∙ ap (λ x. some (a.book, x)) kept)
            (journal-Journaled commands a.book (written ++ record_bytes type payload)
              (room - (16 + length payload)) ok.1 a.valid (omega (arith, enough, is.3)))
      | inr refused ↦
          journal-rejected command commands book written room
            (a.result ∙ ap some (rw (a.unchanged refused, refused) refl))
            (journal-Journaled commands book written room ok.1 v (omega (arith, enough)))
    ]
