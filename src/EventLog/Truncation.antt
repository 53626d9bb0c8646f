-- ===== src/EventLog/Truncation.antt =====
-- A log that ends early, as after a crash in the middle of a write, still replays its whole records.
use low_latency_exchange.Prelude.{
  ℕ, zero, suc, ◌+◌, ◌-◌, ◌*◌, ◌<◌, ◌≤◌, true, some, List, [], ◌++◌, ◌≡◌, refl, ◌∙◌, ap, sym, subst,
  arith, length, take, length-append, take-append_after, take-all, length-take_le, take-length,
  u64_mod, add64, All, inl, inr, lt-or-le, drop, ◌∷◌,
}
use native.Mathlib.Nat.{mod-eq_of_lt}
use low_latency_exchange.Book.State.{OrderBook, empty_book}
use low_latency_exchange.Book.Valid.{empty_book-IsValid}
use low_latency_exchange.Protocol.MessageTypes.{MessageType}
use low_latency_exchange.EventLog.Types.{CapturedCommand}
use low_latency_exchange.EventLog.Payload.{IsStorable, IsPayload}
use low_latency_exchange.EventLog.Record.{record_bytes}
use low_latency_exchange.EventLog.Stream.{OutputStream}
use low_latency_exchange.EventLog.Replay.{apply_command, replayed, replay_from, replay_event_log}
use low_latency_exchange.EventLog.Journal.{
  journal, IsLog, finished, recorded, stream, journal-Journaled,
}
use low_latency_exchange.EventLog.Recovery.{
  record_bytes-length, replay_from-record, replay_from-end,
}
use low_latency_exchange.EventLog.Cut.{truncation, IsCutAt, Survives, nothing, cut_record}

drop-append_after : (xs ys : List ℕ) (n : ℕ) → drop (length xs + n) (xs ++ ys) ≡ drop n ys
drop-append_after [] ys n = ap (λ (k : ℕ). drop k ys) {x = 0 + n} (omega arith)
drop-append_after (x ∷ xs) ys n =
    ap (λ (k : ℕ). drop k (x ∷ xs ++ ys)) {x = length (x ∷ xs) + n} {y = suc (length xs + n)}
      (omega arith)
    ∙ drop-append_after xs ys n

whole_record :
    (fuel : ℕ) (book next : OrderBook) (start k m : ℕ) (rest : List ℕ) (command : CapturedCommand)
    (type : MessageType) (payload : List ℕ)
    → IsPayload command type payload
    → apply_command book command ≡ some (next, true)
    → start + 1 < u64_mod
    → k ≡ length (record_bytes type payload) + m
    → Survives fuel next (start + 1) m rest
    → Survives (suc fuel) book start k (record_bytes type payload ++ rest)
whole_record fuel book next start k m rest command type payload ok e fits cut s =
    let head : List ℕ = record_bytes type payload in
    let counted : add64 start 1 ≡ start + 1 = mod-eq_of_lt fits in
    let left : m - s.whole ≡ k - (length head + s.whole) = omega (arith, cut, s.kept) in
    record {
      last = s.last;
      count = suc s.count;
      whole = length head + s.whole;
      kept = omega (arith, cut, s.kept);
      result =
          ap (replay_from (suc fuel) book start) (take-append_after head rest m k cut)
          ∙ replay_from-record fuel book next start command type payload (take m rest) ok e
          ∙ ap (λ (n : ℕ). replay_from fuel next n (take m rest)) counted
          ∙ s.result
          ∙ ap (λ (n : ℕ). some (replayed (truncation (m - s.whole)) n s.last))
              {y = start + suc s.count} (omega arith)
          ∙ ap (λ (n : ℕ). some (replayed (truncation n) (start + suc s.count) s.last)) left;
      log =
          subst (λ bs. IsLog book bs (suc s.count) s.last)
            (sym (take-append_after head rest s.whole (length head + s.whole) refl))
            (recorded book next s.last (take s.whole rest) s.count command type payload ok e s.log);
      cut =
          subst (λ bs. IsCutAt bs (k - (length head + s.whole)))
            (sym (drop-append_after head rest s.whole))
            (subst (λ (n : ℕ). IsCutAt (drop s.whole rest) n) left s.cut);
    }

IsLog-Survives :
    (fuel : ℕ) (book last : OrderBook) (start k count : ℕ) (bytes : List ℕ)
    → IsLog book bytes count last
    → k ≤ length bytes
    → k < fuel
    → start + count < u64_mod
    → Survives fuel book start k bytes
IsLog-Survives zero book last start k count bytes log cut enough fits =
    absurd (omega (arith, enough))
IsLog-Survives (suc fuel) book last start k count bytes (finished _) cut enough fits =
    let none_left : k ≡ 0 = omega (arith, cut) in
    nothing (suc fuel) book start k []
      (ap (replay_from (suc fuel) book start) (take-all [] k (omega arith))
        ∙ replay_from-end fuel book start
        ∙ ap (λ x. some (replayed x start book))
            (sym (ap truncation none_left ∙ unfold truncation in refl)))
      (inl (refl, none_left))
IsLog-Survives (suc fuel) book last start k count bytes
      (recorded _ next _ rest n command type payload ok e log) cut enough fits =
    let size = record_bytes-length type payload in
    let total = length-append (record_bytes type payload) rest in
    elim (lt-or-le k (16 + length payload)) [
      | inl early ↦ cut_record fuel book next start k rest command type payload ok early
      | inr late ↦
          let m : ℕ = k - length (record_bytes type payload) in
          whole_record fuel book next start k m rest command type payload ok e (omega (arith, fits))
            (omega (arith, late, size))
            (IsLog-Survives fuel next last (start + 1) m n rest log
              (omega (arith, cut, total, size, late)) (omega (arith, enough, late, size))
              (omega (arith, fits)))
    ]

-- Of such a log, let a file hold only the first `k` bytes. It replays every record that is whole in
-- it, and no other: `whole` counts the bytes of these records, and the log ends there or goes on with
-- a record that the file does not hold in whole, which has 56 bytes at most. The replay reports no
-- error if the file ends there too, a truncated header if it ends in the 16 bytes of the next header,
-- and a truncated payload if it ends behind them. The commands are as for `replay-journal`: their
-- fields are in range, their new orders pass `validate`, the file had room for all of them, and there
-- are less than 2 ^ 64.
pub replay-truncated :
    (commands : List CapturedCommand) (room k : ℕ)
    → All IsStorable commands
    → length commands * 56 ≤ room
    → length commands < u64_mod
    → (book : OrderBook) × (count : ℕ) × (output : OutputStream) × (journal commands empty_book
          (stream [] room)
        ≡ some (book, count, output))
      × (last : OrderBook) × (n : ℕ) × (whole : ℕ) × (whole ≤ length (take k output.written))
      × (replay_event_log (some (take k output.written))
          ≡ some (replayed (truncation (length (take k output.written) - whole)) n last))
      × IsLog empty_book (take whole output.written) n last
      × IsCutAt (drop whole output.written) (length (take k output.written) - whole)
replay-truncated commands room k ok enough few =
    let j = journal-Journaled commands empty_book [] room ok empty_book-IsValid enough in
    let cut : ℕ = length (take k j.bytes) in
    let s =
      IsLog-Survives (suc cut) empty_book j.last 0 cut j.count j.bytes j.log
        (length-take_le k j.bytes) (omega arith) (omega (arith, few, j.counted)) in
    (
      j.last,
      j.count,
      stream j.bytes j.left,
      j.result,
      s.last,
      s.count,
      s.whole,
      s.kept,
      unfold replay_event_log in
          ap (replay_from (suc cut) empty_book 0) (sym (take-length k j.bytes))
          ∙ s.result
          ∙ ap (λ (n : ℕ). some (replayed (truncation (cut - s.whole)) n s.last)) {x = 0 + s.count}
              (omega arith),
      s.log,
      s.cut,
    )
