-- ===== src/EventLog/Cut.antt =====
-- A log that ends within a record: what is read of it.
use low_latency_exchange.Prelude.{
  ℕ, zero, suc, ◌+◌, ◌-◌, ◌<◌, ◌≤◌, false, Option, none, some, List, [], ◌++◌, ◌≡◌, refl, ◌∙◌, ap,
  sym, subst, arith, length, take, length-append, length-take, take-append_before,
  take-append_after, take-all, append_assoc, ◌⊎◌, inl, inr, ◌==◌, lt-or-le, drop, ltb,
  if◌then◌else◌,
}
use low_latency_exchange.Book.State.{OrderBook}
use low_latency_exchange.Protocol.MessageTypes.{MessageType}
use low_latency_exchange.EventLog.Types.{
  CapturedCommand, EventLogError, truncated_header, truncated_payload, read_error,
}
use low_latency_exchange.EventLog.Format.{record_header, read_record, read_payload, checksum}
use low_latency_exchange.EventLog.Payload.{IsPayload}
use low_latency_exchange.EventLog.Record.{record_bytes, record_header_lem, read_header-append}
use low_latency_exchange.EventLog.Replay.{replayed, replay_from}
use low_latency_exchange.EventLog.Journal.{IsLog, finished}
use low_latency_exchange.EventLog.Recovery.{record_bytes-length, replay_from-end}

-- What a replay reports of a file that ends so many bytes behind its last whole record.
unfoldable pub truncation : ℕ → Option EventLogError
truncation zero = none
truncation (suc n) = if ltb (suc n) 16 then some truncated_header else some truncated_payload

-- What is left of the log is nothing, or starts with a record that is longer than the bytes that the
-- file has of it.
abbrev pub IsCutAt : List ℕ → ℕ → Type 0
IsCutAt rest n =
    ((rest ≡ []) × (n ≡ 0))
    ⊎ ((command : CapturedCommand) × (type : MessageType) × (payload : List ℕ) × (more : List ℕ)
        × IsPayload command type payload
        × (rest ≡ record_bytes type payload ++ more)
        × (n < length (record_bytes type payload)))

-- Fewer bytes than a header has.
short_header :
    (bytes : List ℕ)
    → 0 < length bytes
    → length bytes < 16
    → (read_record bytes).0 ≡ read_error truncated_header
unfolding read_record
short_header bytes started few =
    let e₁ : (length bytes == 0) ≡ false = ground (arith, started) in
    let e₂ : (length bytes == 16) ≡ false = ground (arith, few) in
    rw (take-all bytes 16 (omega (arith, few)), e₁, e₂) refl

-- Fewer bytes than the payload has.
short_payload :
    (type : MessageType) (n sum : ℕ) (bytes : List ℕ)
    → length bytes < n
    → (read_payload type n sum bytes).0 ≡ read_error truncated_payload
unfolding read_payload
short_payload type n sum bytes few =
    let e : (length bytes == n) ≡ false = ground (arith, few) in
    rw (take-all bytes n (omega (arith, few)), e) refl

replay_from-error :
    (fuel : ℕ) (book : OrderBook) (count : ℕ) (bytes : List ℕ) (error : EventLogError)
    → (read_record bytes).0 ≡ read_error error
    → replay_from (suc fuel) book count bytes ≡ some (replayed (some error) count book)
unfolding replay_from
replay_from-error fuel book count bytes error e = rw (e, replay_from) refl

-- What a replay of the first `k` bytes of a log does: it takes the records that are whole in them,
-- and says how the next one is cut.
pub record Survives (fuel : ℕ) (book : OrderBook) (start k : ℕ) (bytes : List ℕ) : Type 0 where
  pub last : OrderBook
  pub count : ℕ
  pub whole : ℕ
  pub kept : whole ≤ k
  pub result :
      replay_from fuel book start (take k bytes)
      ≡ some (replayed (truncation (k - whole)) (start + count) last)
  pub log : IsLog book (take whole bytes) count last
  pub cut : IsCutAt (drop whole bytes) (k - whole)

-- No whole record is there.
pub nothing :
    (fuel : ℕ) (book : OrderBook) (start k : ℕ) (bytes : List ℕ)
    → replay_from fuel book start (take k bytes) ≡ some (replayed (truncation k) start book)
    → IsCutAt bytes k
    → Survives fuel book start k bytes
nothing fuel book start k bytes e cut =
    let all_left : k ≡ k - 0 = omega arith in
    record {
      last = book;
      count = 0;
      whole = 0;
      kept = omega arith;
      result =
          e
          ∙ ap (λ (n : ℕ). some (replayed (truncation k) n book)) {y = start + 0} (omega arith)
          ∙ ap (λ (n : ℕ). some (replayed (truncation n) (start + 0) book)) all_left;
      log = finished book;
      cut = subst (λ (n : ℕ). IsCutAt bytes n) all_left cut;
    }

truncation-header : (k : ℕ) → suc k < 16 → truncation (suc k) ≡ some truncated_header
unfolding truncation
truncation-header k h = ground (arith, h)

truncation-payload : (k : ℕ) → 16 ≤ suc k → truncation (suc k) ≡ some truncated_payload
unfolding truncation
truncation-payload k h = ground (arith, h)

pub cut_record :
    (fuel : ℕ) (book next : OrderBook) (start k : ℕ) (rest : List ℕ) (command : CapturedCommand)
    (type : MessageType) (payload : List ℕ)
    → IsPayload command type payload
    → k < 16 + length payload
    → Survives (suc fuel) book start k (record_bytes type payload ++ rest)
cut_record fuel book next start zero rest command type payload ok few =
    nothing (suc fuel) book start 0 (record_bytes type payload ++ rest)
      (unfold truncation in replay_from-end fuel book start)
      (inr
        (command, type, payload, rest, ok, refl, omega (arith, record_bytes-length type payload)))
cut_record fuel book next start (suc k) rest command type payload ok few =
    let header : List ℕ = record_header type payload in
    let whole : List ℕ = record_bytes type payload ++ rest in
    let cut : IsCutAt whole (suc k) = inr (
      command,
      type,
      payload,
      rest,
      ok,
      refl,
      omega (arith, few, record_bytes-length type payload),
    ) in
    let split : whole ≡ header ++ (payload ++ rest) = append_assoc header payload rest in
    let size : length header ≡ 16 = (record_header_lem type payload).0 in
    let len : length whole ≡ 16 + length payload + length rest =
      length-append (record_bytes type payload) rest
      ∙ ap (λ (n : ℕ). n + length rest) (record_bytes-length type payload) in
    elim (lt-or-le (suc k) 16) [
      | inl early ↦
          let have : length (take (suc k) whole) ≡ suc k =
            length-take (suc k) whole (omega (arith, early, len)) in
          nothing (suc fuel) book start (suc k) whole
            (replay_from-error fuel book start (take (suc k) whole) truncated_header (
                short_header (take (suc k) whole) (omega (arith, have))
                  (omega (arith, have, early)))
              ∙ ap (λ x. some (replayed x start book)) (sym (truncation-header k early)))
            cut
      | inr late ↦
          let m : ℕ = suc k - 16 in
          let part : take (suc k) whole ≡ header ++ take m payload =
            ap (take (suc k)) split
            ∙ take-append_after header (payload ++ rest) m (suc k) (omega (arith, size, late))
            ∙ ap (λ (bs : List ℕ). header ++ bs)
                (take-append_before payload rest m (omega (arith, few))) in
          nothing (suc fuel) book start (suc k) whole
            (replay_from-error fuel book start (take (suc k) whole) truncated_payload (
                ap (λ bs. (read_record bs).0) part
                ∙ ap (λ r. r.0) (read_header-append command type payload (take m payload) ok)
                ∙ short_payload type (length payload) (checksum type payload) (take m payload)
                    (omega (arith, few, late, length-take m payload (omega (arith, few)))))
              ∙ ap (λ x. some (replayed x start book)) (sym (truncation-payload k late)))
            cut
    ]

-- A whole record, and what survives after it.
