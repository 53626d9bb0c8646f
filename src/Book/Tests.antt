-- ===== src/Book/Tests.antt =====
-- Runs of the order book, and its theorems at concrete inputs.
use low_latency_exchange.Prelude.{
  ℕ, ◌+◌, ◌^◌, Option, List, replicate, ◌≡◌, refl, none, some, [], ◌∷◌, ◌⊎◌, arith, false,
}
use low_latency_exchange.Types.{Side, buy, sell, limit}
use low_latency_exchange.Command.{NewOrder, CancelOrder, ReplaceOrder, validate}
use low_latency_exchange.Assoc.{emplace}
use low_latency_exchange.Book.State.{
  LevelQuote, OrderBook, OrderLocation, Node, PriceLevel, empty_book, seen,
}
use low_latency_exchange.Book.Match.{marketable, match_against_book}
use low_latency_exchange.Book.Edit.{insert_resting_order}
use low_latency_exchange.Book.Commands.{submit, cancel, replace}
use low_latency_exchange.Book.Fill.{entries, AreNonempty, fill}
use low_latency_exchange.Book.Fill.Trades.{traded, resting_units, IsRefused, InPriority}
use low_latency_exchange.Book.Valid.{IsValid, empty_book-IsValid}
use low_latency_exchange.Book.Valid.Submit.{submit-IsValid}
use low_latency_exchange.Book.Valid.Cancel.{CancelOutcome, cancel-CancelOutcome}
use low_latency_exchange.Book.Valid.Replace.{ReplaceOutcome, replace-ReplaceOutcome}
use low_latency_exchange.Book.Query.{depth, copy_depth, top_bid}
use low_latency_exchange.Book.Query.Check.{validate_invariants}
use low_latency_exchange.Book.Query.Quotes.{
  quotes, pad, depth-quotes, copy_depth-pad, top_bid_undefined,
}
use low_latency_exchange.Book.History.{submits, cancels, replaces, run, history-IsValid}
use low_latency_exchange.Book.Valid.Match.{start}
use low_latency_exchange.Book.Walk.{Walked, match_against_book-Walked}
use low_latency_exchange.Book.Refines.{SubmitOutcome, submit-SubmitOutcome}
use low_latency_exchange.Book.Trades.{
  match_against_book_conserves, match_against_book-InPriority, match_against_book_exhausts,
}

abbrev limit_order : ℕ → ℕ → Side → ℕ → ℕ → NewOrder
limit_order sequence id side quantity price = record {
  sequence = sequence;
  order_id = id;
  side = side;
  type = limit;
  quantity = quantity;
  limit_price = some price;
}

abbrev first_ask : NewOrder
first_ask = limit_order 1 11 sell 10 100

abbrev second_ask : NewOrder
second_ask = limit_order 2 12 sell 5 100

abbrev far_ask : NewOrder
far_ask = limit_order 3 13 sell 7 102

abbrev sweep : NewOrder
sweep = limit_order 4 14 buy 12 101

abbrev resting : ℕ → ℕ → ℕ → ℕ → Node
resting address id sequence quantity = record {
  address = address;
  order = record { order_id = id; sequence = sequence; remaining_quantity = quantity };
}

abbrev ask_at : ℕ → ℕ → OrderLocation
ask_at price it = record { side = sell; price = price; it = it }

-- The book after the three asks.
abbrev asks_book : OrderBook
asks_book = record {
  bids = [];
  asks =
      (100, record { total_units = 15; orders = resting 0 11 1 10 ∷ resting 1 12 2 5 ∷ [] })
      ∷ (102, record { total_units = 7; orders = resting 2 13 3 7 ∷ [] })
      ∷ [];
  resting_orders = (13, ask_at 102 2) ∷ (12, ask_at 100 1) ∷ (11, ask_at 100 0) ∷ [];
  seen_order_ids = 13 ∷ 12 ∷ 11 ∷ [];
  resting_order_count = 3;
  next_address = 3;
}

three_asks :
    run (submits first_ask ∷ submits second_ask ∷ submits far_ask ∷ []) empty_book ≡ some asks_book
unfolding run submit validate seen match_against_book empty_book insert_resting_order emplace
three_asks = refl

asks_book-IsValid : IsValid asks_book
unfolding submit validate seen match_against_book empty_book insert_resting_order emplace
asks_book-IsValid =
    submit-IsValid far_ask _
      (submit-IsValid second_ask _
        (submit-IsValid first_ask empty_book empty_book-IsValid (omega arith)) (omega arith))
      (omega arith)

-- Twelve units take the first order, and two of the second at the same price.
sweep_executions :
    (submit sweep asks_book).1.executions
    ≡ record { resting_order_id = 11; incoming_order_id = 14; price = 100; quantity = 10 }
      ∷ record { resting_order_id = 12; incoming_order_id = 14; price = 100; quantity = 2 }
      ∷ []
unfolding submit validate seen match_against_book empty_book insert_resting_order emplace
sweep_executions = refl

asks_nonempty : AreNonempty asks_book.asks
asks_nonempty = ((λ e. cc), ((λ e. cc), tt))

history-IsValid_example :
    (b : OrderBook) × (run
        (submits first_ask
          ∷ submits sweep
          ∷ replaces (record { sequence = 5; order_id = 14; new_quantity = 1; new_price = 101 })
          ∷ cancels (record { sequence = 6; order_id = 14 })
          ∷ [])
        empty_book
      ≡ some b)
    × IsValid b
history-IsValid_example =
    history-IsValid
      (submits first_ask
        ∷ submits sweep
        ∷ replaces (record { sequence = 5; order_id = 14; new_quantity = 1; new_price = 101 })
        ∷ cancels (record { sequence = 6; order_id = 14 })
        ∷ [])
      (omega arith)

submit-SubmitOutcome_example : SubmitOutcome sweep asks_book (submit sweep asks_book)
submit-SubmitOutcome_example = submit-SubmitOutcome sweep asks_book asks_book-IsValid

submit-IsValid_example : IsValid (submit sweep asks_book).0
submit-IsValid_example = submit-IsValid sweep asks_book asks_book-IsValid (omega arith)

abbrev cancel_second : CancelOrder
cancel_second = record { sequence = 5; order_id = 12 }

cancel-CancelOutcome_example :
    CancelOutcome cancel_second asks_book (cancel cancel_second asks_book)
cancel-CancelOutcome_example = cancel-CancelOutcome cancel_second asks_book asks_book-IsValid

abbrev reprice_first : ReplaceOrder
reprice_first = record { sequence = 5; order_id = 11; new_quantity = 10; new_price = 102 }

replace-ReplaceOutcome_example :
    ReplaceOutcome reprice_first asks_book (replace reprice_first asks_book)
replace-ReplaceOutcome_example =
    replace-ReplaceOutcome reprice_first asks_book asks_book-IsValid (omega arith)

match_against_book-Walked_example :
    Walked buy asks_book
      (match_against_book 14 buy limit (some 101) 12 asks_book).0
      (match_against_book 14 buy limit (some 101) 12 asks_book).1
      (match_against_book 14 buy limit (some 101) 12 asks_book).2
      (fill (marketable buy limit (some 101)) 14 (start 12 asks_book) (entries asks_book.asks))
match_against_book-Walked_example =
    match_against_book-Walked 14 buy limit (some 101) 12 asks_book asks_nonempty

match_against_book_conserves_example :
    (traded (match_against_book 14 buy limit (some 101) 12 asks_book).2
        + (match_against_book 14 buy limit (some 101) 12 asks_book).1
      ≡ 12)
    × (traded (match_against_book 14 buy limit (some 101) 12 asks_book).2
          + resting_units (entries (match_against_book 14 buy limit (some 101) 12 asks_book).0.asks)
        ≡ 22)
match_against_book_conserves_example =
    match_against_book_conserves 14 buy limit (some 101) 12 asks_book asks_nonempty

match_against_book-InPriority_example :
    InPriority 14 []
      (entries asks_book.asks)
      (entries (match_against_book 14 buy limit (some 101) 12 asks_book).0.asks)
      (match_against_book 14 buy limit (some 101) 12 asks_book).2
match_against_book-InPriority_example =
    match_against_book-InPriority 14 buy limit (some 101) 12 asks_book asks_nonempty

match_against_book_exhausts_example :
    ((match_against_book 14 buy limit (some 101) 12 asks_book).1 ≡ 0)
    ⊎ IsRefused
        (marketable buy limit (some 101))
        (entries (match_against_book 14 buy limit (some 101) 12 asks_book).0.asks)
match_against_book_exhausts_example =
    match_against_book_exhausts 14 buy limit (some 101) 12 asks_book asks_nonempty

depth-quotes_example :
    depth 1 asks_book
    ≡ some
        (record { bids = []; asks = record { price = 100; quantity = 15; order_count = 2 } ∷ [] })
depth-quotes_example = depth-quotes 1 asks_book asks_book-IsValid tt (omega arith)

-- A span that an older query has filled.
abbrev old_quotes : List (Option LevelQuote)
old_quotes = replicate 3 (some (record { price = 90; quantity = 1; order_count = 1 }))

copy_depth-pad_example :
    copy_depth old_quotes old_quotes asks_book ≡ some (pad 3 [], pad 3 (quotes asks_book.asks))
copy_depth-pad_example =
    copy_depth-pad old_quotes old_quotes asks_book asks_book-IsValid tt (omega arith)

-- Two bids of 2 ^ 63 units at one price: the total of the level wraps to 0.
abbrev huge_bid : ℕ → NewOrder
huge_bid id = limit_order id id buy (2 ^ 63) 100

abbrev bid_at : ℕ → ℕ → OrderLocation
bid_at price it = record { side = buy; price = price; it = it }

abbrev huge_level : PriceLevel
huge_level = record {
  total_units = 0;
  orders = resting 0 1 1 (2 ^ 63) ∷ resting 1 2 2 (2 ^ 63) ∷ [];
}

abbrev huge_book : OrderBook
huge_book = record {
  bids = (100, huge_level) ∷ [];
  asks = [];
  resting_orders = (2, bid_at 100 1) ∷ (1, bid_at 100 0) ∷ [];
  seen_order_ids = 2 ∷ 1 ∷ [];
  resting_order_count = 2;
  next_address = 2;
}

two_huge_bids : run (submits (huge_bid 1) ∷ submits (huge_bid 2) ∷ []) empty_book ≡ some huge_book
unfolding run submit validate seen match_against_book empty_book insert_resting_order emplace
two_huge_bids = refl

huge_book-IsValid : IsValid huge_book
unfolding submit validate seen match_against_book empty_book insert_resting_order emplace
huge_book-IsValid =
    submit-IsValid (huge_bid 2) _
      (submit-IsValid (huge_bid 1) empty_book empty_book-IsValid (omega arith)) (omega arith)

huge_book_fails_check : validate_invariants huge_book ≡ false
unfolding validate_invariants
huge_book_fails_check = refl

top_bid_undefined_example : top_bid huge_book ≡ none
top_bid_undefined_example =
    top_bid_undefined huge_book 100 huge_level [] huge_book-IsValid refl refl
