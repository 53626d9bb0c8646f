-- ===== src/Engine/Batch.antt =====
-- `process_available`: all the commands that have arrived, one after the other.
use low_latency_exchange.Prelude.{
  ℕ, zero, suc, ◌+◌, ◌<◌, ◌≤◌, Bool, true, false, Option, none, some, List, [], ◌∷◌, ◌++◌, ◌≡◌,
  refl, sym, ap, ◌∙◌, subst, arith, length, length-append, All, add64, u64_mod, append_assoc,
  append-nil, ◌>>=◌,
}
use native.Mathlib.Nat.{mod-eq_of_lt}
use low_latency_exchange.Book.State.{OrderBook}
use low_latency_exchange.Market.Types.{MarketDataBook}
use low_latency_exchange.Spsc.{Queue}
use low_latency_exchange.Spsc.Operations.{try_pop}
use low_latency_exchange.Spsc.Refine.{Holds, taken, nothing, try_pop-Popped}
use low_latency_exchange.EventLog.Types.{EventCaptureMessage}
use low_latency_exchange.EventLog.Replay.{apply_command}
use low_latency_exchange.EventLog.Apply.{IsSizedCommand}
use low_latency_exchange.Engine.Types.{
  InboundMessage, blank_inbound, OutboundMessage, MatchingEngineService,
}
use low_latency_exchange.Engine.Process.{
  raise_inbound_high_water, process_message, process_one, process_available,
}
use low_latency_exchange.Engine.Delivered.{exponent_pos, exponent_small, Ready}
use low_latency_exchange.Engine.Answers.{is_command, room_for}
use low_latency_exchange.Engine.Steps.{
  book_or_empty, IsShown, captured, Serving, Processed, process_message-Processed,
}

-- The book after the messages, and the commands that are captured: those that the book accepts.
unfoldable pub served :
    List InboundMessage
    → OrderBook
    → List EventCaptureMessage
    → Option (OrderBook × List EventCaptureMessage)
served [] book items = some (book, items)
served (msg ∷ msgs) book items = do
  (book', accepted) ← apply_command book msg.command
  served msgs book' (captured accepted msg.command items)

abbrev pub next_book : InboundMessage → OrderBook → OrderBook
next_book msg book = book_or_empty (apply_command book msg.command)

-- The turns that the answers to all the messages may take.
unfoldable pub room_for_all : List InboundMessage → OrderBook → ℕ
room_for_all [] book = 0
room_for_all (msg ∷ msgs) book = room_for msg.command book (room_for_all msgs (next_book msg book))

-- The depth of the book is defined after each message.
abbrev pub AreShown : List InboundMessage → OrderBook → Type 0
AreShown [] book = Unit
AreShown (msg ∷ msgs) book = IsShown (next_book msg book) × AreShown msgs (next_book msg book)

-- The messages hold commands, whose quantities are positive and below 2 ^ 64.
abbrev pub AreCommands : List InboundMessage → Type 0
AreCommands = All (λ msg. (is_command msg.command ≡ true) × IsSizedCommand msg.command)

-- The inbound queue holds these messages.
abbrev pub Arrived : Queue InboundMessage → List InboundMessage → Type 0
Arrived q msgs = (taken : ℕ) × Holds blank_inbound 12 exponent_pos exponent_small q taken msgs

-- What `process_available` does with the messages.
pub record Batch (msgs : List InboundMessage) (count : ℕ) (s : MatchingEngineService)
    (history : List OutboundMessage) (items : List EventCaptureMessage)
    (subscriber : MarketDataBook) (result : Option (MatchingEngineService × ℕ)) : Type 0 where
  pub after : MatchingEngineService
  pub done : result ≡ some (after, count + length msgs)
  pub emptied : Arrived after.inbound []
  pub captures : List EventCaptureMessage
  pub result_book : served msgs s.book items ≡ some (after.book, captures)
  pub replies : List OutboundMessage
  pub serving : Serving 0 after (history ++ replies) captures subscriber

captured-length :
    (msg : InboundMessage) (accepted : Bool) (items : List EventCaptureMessage)
    → length (captured accepted msg.command items) ≤ suc (length items)
captured-length msg true items =
    omega (arith, length-append items (record { command = msg.command } ∷ []))
captured-length msg false items = omega arith

head_or : InboundMessage → List InboundMessage → InboundMessage
head_or m [] = m
head_or m (x ∷ xs) = x

tail : List InboundMessage → List InboundMessage
tail [] = []
tail (x ∷ xs) = xs

-- The queue after a pop.
abbrev left : Queue InboundMessage → Queue InboundMessage
left q = (try_pop 4096 blank_inbound q).0

pop_none :
    (q : Queue InboundMessage)
    → Arrived q []
    → ((try_pop 4096 blank_inbound q).1 ≡ none) × Arrived (left q) []
pop_none q (r, held) =
    elim (try_pop-Popped blank_inbound 12 exponent_pos exponent_small q r [] held) [
      | nothing same e next ↦ (e, (r, next))
      | taken x rest same e next ↦
          absurd (omega (arith, ap (λ (ms : List InboundMessage). length ms) same))
    ]

pop_some :
    (q : Queue InboundMessage) (msg : InboundMessage) (msgs : List InboundMessage)
    → Arrived q (msg ∷ msgs)
    → ((try_pop 4096 blank_inbound q).1 ≡ some msg) × Arrived (left q) msgs
unfolding head_or tail
pop_some q msg msgs (r, held) =
    elim (try_pop-Popped blank_inbound 12 exponent_pos exponent_small q r (msg ∷ msgs) held) [
      | nothing same e next ↦
          absurd (omega (arith, ap (λ (ms : List InboundMessage). length ms) same))
      | taken x rest same e next ↦ (
        e ∙ ap some (sym (ap (head_or msg) same)),
        (
          suc r,
          subst (Holds blank_inbound 12 exponent_pos exponent_small (left q) (suc r))
              (sym (ap tail same)) next,
        ),
      )
    ]

-- The service that has taken its next message.
abbrev popped : MatchingEngineService → MatchingEngineService
popped s = record (raise_inbound_high_water s) { inbound = left s.inbound }

process_one-none :
    (now : ℕ) (s : MatchingEngineService)
    → (try_pop 4096 blank_inbound s.inbound).1 ≡ none
    → process_one now s ≡ some (popped s, false)
unfolding process_one raise_inbound_high_water
process_one-none now s e = rw (e, process_one) refl

process_one-some :
    (now : ℕ) (s after : MatchingEngineService) (msg : InboundMessage)
    → (try_pop 4096 blank_inbound s.inbound).1 ≡ some msg
    → process_message now msg (popped s) ≡ some after
    → process_one now s ≡ some (after, true)
unfolding process_one raise_inbound_high_water
process_one-some now s after msg e f = rw (e, f, process_one) refl

process_available_next :
    (fuel : ℕ) (clock : ℕ → ℕ) (count : ℕ) (s after : MatchingEngineService)
    → process_one (clock count) s ≡ some (after, true)
    → count + 1 < u64_mod
    → process_available (suc fuel) clock count s ≡ process_available fuel clock (count + 1) after
unfolding process_available
process_available_next fuel clock count s after e few =
    let counted : add64 count 1 ≡ count + 1 = mod-eq_of_lt few in
    rw (e, process_available) (ap (λ (n : ℕ). process_available fuel clock n after) counted)

-- The first message, and then the others.
after_one :
    (fuel : ℕ) (clock : ℕ → ℕ) (count : ℕ) (msg : InboundMessage) (msgs : List InboundMessage)
    (s : MatchingEngineService) (history : List OutboundMessage) (items : List EventCaptureMessage)
    (subscriber : MarketDataBook) {n : ℕ}
    → (try_pop 4096 blank_inbound s.inbound).1 ≡ some msg
    → count + 1 < u64_mod
    → (p : Processed n msg.session_id msg.command
        (popped s)
        history
        items
        subscriber
        (process_message (clock count) msg (popped s)))
    → Batch msgs
        (count + 1)
        p.after
        (history ++ p.replies)
        (captured p.accepted msg.command items)
        subscriber
        (process_available fuel clock (count + 1) p.after)
    → Batch
        (msg ∷ msgs)
        count
        s
        history
        items
        subscriber
        (process_available (suc fuel) clock count s)
unfolding served raise_inbound_high_water
after_one fuel clock count msg msgs s history items subscriber e few p b = record {
  after = b.after;
  done =
      process_available_next fuel clock count s p.after
        (process_one-some (clock count) s p.after msg e p.done) few
      ∙ b.done
      ∙ ap (λ (n : ℕ). some (b.after, n)) {y = count + suc (length msgs)} (omega arith);
  emptied = b.emptied;
  captures = b.captures;
  result_book =
      rw (p.applied, served)
        (ap (λ book. served msgs book (captured p.accepted msg.command items)) (sym p.same_book)
          ∙ b.result_book);
  replies = p.replies ++ b.replies;
  serving =
      subst (λ sent. Serving 0 b.after sent b.captures subscriber)
        (append_assoc history p.replies b.replies) b.serving;
}

-- All the messages that have arrived are processed, and their number is returned: the book takes them in
-- turn, the capture queue gets those that the book accepts, in order, and the queue ends empty; the
-- book stays valid and the market data in step. The messages hold commands with positive quantities
-- below 2 ^ 64, the depth of the book is defined after each, the capture queue has room for all of
-- them, the thread that empties the outbound queue takes something at enough turns, and there is fuel
-- for one call more than there are messages.
pub process_available-Batch :
    (fuel : ℕ) (clock : ℕ → ℕ) (count : ℕ) (msgs : List InboundMessage) (s : MatchingEngineService)
    (history : List OutboundMessage) (items : List EventCaptureMessage)
    (subscriber : MarketDataBook)
    → Arrived s.inbound msgs
    → AreCommands msgs
    → AreShown msgs s.book
    → Serving (room_for_all msgs s.book) s history items subscriber
    → length items + length msgs ≤ 4096
    → length msgs < fuel
    → count + length msgs < u64_mod
    → Batch msgs count s history items subscriber (process_available fuel clock count s)
unfolding process_available served raise_inbound_high_water room_for_all
process_available-Batch zero clock count msgs s history items subscriber arrived real shows serving
      room enough few =
    absurd (omega (arith, enough))
process_available-Batch (suc fuel) clock count [] s history items subscriber arrived real shows
      serving room enough few =
    let (e, empty) = pop_none s.inbound arrived in
    let one = process_one-none (clock count) s e in
    record {
      after = popped s;
      done =
          rw (one, process_available)
            (ap (λ (n : ℕ). some (popped s, n)) {y = count + 0} (omega arith));
      emptied = empty;
      captures = items;
      result_book = refl;
      replies = [];
      serving = record {
        valid = serving.valid;
        ready = subst (Ready 0 s.outbound) (sym (append-nil history)) serving.ready;
        captures = serving.captures;
        in_step = serving.in_step;
      };
    }
process_available-Batch (suc fuel) clock count (msg ∷ msgs) s history items subscriber arrived real
      shows serving room enough few =
    let (e, arrived') = pop_some s.inbound msg msgs arrived in
    let p =
      process_message-Processed (room_for_all msgs (next_book msg s.book)) (clock count) msg
        (popped s) history items subscriber real.0.0 real.0.1
        (record {
          valid = serving.valid;
          ready = serving.ready;
          captures = serving.captures;
          in_step = serving.in_step;
        })
        (omega (arith, room))
        (λ book accepted applied. subst IsShown (ap book_or_empty applied) shows.0) in
    let now_at : next_book msg s.book ≡ p.after.book =
      ap book_or_empty p.applied ∙ sym p.same_book in
    after_one fuel clock count msg msgs s history items subscriber e (omega (arith, few)) p (
      process_available-Batch fuel clock (count + 1) msgs p.after (history ++ p.replies)
        (captured p.accepted msg.command items) subscriber
        (subst (λ q. Arrived q msgs) (sym p.same_inbound) arrived') real.1
        (subst (AreShown msgs) now_at shows.1)
        (subst
          (λ book.
            Serving (room_for_all msgs book) p.after (history ++ p.replies)
              (captured p.accepted msg.command items) subscriber)
          now_at p.serving)
        (omega (arith, room, captured-length msg p.accepted items)) (omega (arith, enough))
        (omega (arith, few)))
