-- ===== src/Book/History.antt =====
-- Whole histories of an order book: any sequence of commands, from the empty book on.
use low_latency_exchange.Prelude.{Option, some, List, [], ◌∷◌, ◌≡◌, refl, All, ◌>>=◌}
use low_latency_exchange.Types.{IsWord}
use low_latency_exchange.Command.{NewOrder, CancelOrder, ReplaceOrder}
use low_latency_exchange.Book.State.{OrderBook, CancelResult, ReplaceResult, empty_book}
use low_latency_exchange.Book.Commands.{submit, cancel, replace}
use low_latency_exchange.Book.Valid.{IsValid, empty_book-IsValid}
use low_latency_exchange.Book.Valid.Submit.{submit-IsValid}
use low_latency_exchange.Book.Valid.Cancel.{CancelOutcome, missing, taken, cancel-CancelOutcome}
use low_latency_exchange.Book.Valid.Replace.{
  ReplaceOutcome, requeued, reduced, replace-ReplaceOutcome,
}

pub data Request : Type 0 where
  submits : NewOrder → Request
  cancels : CancelOrder → Request
  replaces : ReplaceOrder → Request

-- The book after a request; `none` is undefined behaviour.
unfoldable pub apply : Request → OrderBook → Option OrderBook
apply (submits order) b = some (submit order b).0
apply (cancels c) b = do (b', _) ← cancel c b; some b'
apply (replaces c) b = do (b', _) ← replace c b; some b'

unfoldable pub run : List Request → OrderBook → Option OrderBook
unfolding apply
run [] b = some b
run (r ∷ rs) b = do b' ← apply r b; run rs b'

-- The quantities are those that a `Quantity` can hold.
abbrev pub IsSized : Request → Type 0
IsSized (submits order) = IsWord (order.quantity)
IsSized (cancels c) = Unit
IsSized (replaces c) = IsWord (c.new_quantity)

apply-IsValid :
    (r : Request) (b : OrderBook)
    → IsSized r
    → IsValid b
    → (b' : OrderBook) × (apply r b ≡ some b') × IsValid b'
unfolding apply
apply-IsValid (submits order) b w v = ((submit order b).0, refl, submit-IsValid order b v w)
apply-IsValid (cancels c) b w v = after (cancel c b) (cancel-CancelOutcome c b v)
  where
    after :
        (r : Option (OrderBook × CancelResult))
        → CancelOutcome c b r
        → (b' : OrderBook) × ((r >>= λ x. some x.0) ≡ some b') × IsValid b'
    after r (missing e h) = (b, rw h, v)
    after r (taken loc n b' e f named h valid absent es own index) = (b', rw h, valid)
apply-IsValid (replaces c) b w v = after (replace c b) (replace-ReplaceOutcome c b v w)
  where
    after :
        (r : Option (OrderBook × ReplaceResult))
        → ReplaceOutcome c b r
        → (b' : OrderBook) × ((r >>= λ x. some x.0) ≡ some b') × IsValid b'
    after r (ReplaceOutcome.missing e h) = (b, rw h, v)
    after r (reduced loc n b' e f kept h valid es own index) = (b', rw h, valid)
    after r (requeued loc n b₁ e f lost es own known h valid before index) = (_, rw h, valid)

run-IsValid :
    (rs : List Request) (b : OrderBook)
    → All IsSized rs
    → IsValid b
    → (b' : OrderBook) × (run rs b ≡ some b') × IsValid b'
unfolding run
run-IsValid [] b w v = (b, refl, v)
run-IsValid (r ∷ rs) b w v =
    let (b₁, e, v₁) = apply-IsValid r b w.0 v in
    let (b', h, v') = run-IsValid rs b₁ w.1 v₁ in (b', rw e h, v')

-- No history of positive quantities below 2 ^ 64 uses a dangling iterator, and each ends in a valid book.
pub history-IsValid :
    (rs : List Request)
    → All IsSized rs
    → (b : OrderBook) × (run rs empty_book ≡ some b) × IsValid b
history-IsValid rs w = run-IsValid rs empty_book w empty_book-IsValid
