-- ===== src/Market/InStep.antt =====
-- The feed, the queue and the subscriber together: what stands in the queue continues what the
-- subscriber has, and the feed knows when its next event would not.
use low_latency_exchange.Prelude.{
  ℕ, suc, ◌≤◌, ◌<◌, Bool, true, false, Option, none, some, List, [], ◌∷◌, ◌++◌, ◌≡◌, refl, sym,
  arith, subst, u64_mod,
}
use low_latency_exchange.Spsc.{Queue}
use low_latency_exchange.Spsc.Refine.{Holds}
use low_latency_exchange.Market.Types.{
  snapshot, depth_update, MarketDataEvent, blank_event, MarketDataFeed, MarketDataBook,
}
use low_latency_exchange.Market.Subscriber.{is_next_sequence, continues, apply}

-- The capacity is 2 ^ 10.
pub exponent_pos : 1 ≤ 10
exponent_pos = omega arith

pub exponent_small : 10 < 64
exponent_small = omega arith

-- The queue holds `items`, and `r` items have been taken before.
abbrev pub Queued : Queue MarketDataEvent → ℕ → List MarketDataEvent → Type 0
Queued q r items = Holds blank_event 10 exponent_pos exponent_small q r items

abbrev position_of : Bool → Option ℕ → Option ℕ
position_of true last = last
position_of false last = none

position_of-some :
    (b : Bool) (last : Option ℕ) (p : ℕ)
    → position_of b last ≡ some p
    → (b ≡ true) × (last ≡ some p)
position_of-some true last p e = (refl, e)
position_of-some false last p e = cc

-- The sequence that a depth update has to follow: none if the subscriber is not synchronized.
abbrev pub position : MarketDataBook → Option ℕ
position book = position_of book.synchronized book.last_sequence

-- A subscriber at `previous` accepts the event.
pub data Fits (previous : Option ℕ) (e : MarketDataEvent) : Type 0 where
  fresh : (s : ℕ) → e.sequence ≡ some s → e.kind ≡ snapshot → Fits previous e
  next :
      (p : ℕ)
      → previous ≡ some p
      → suc p < u64_mod
      → e.sequence ≡ some (suc p)
      → e.kind ≡ depth_update
      → Fits previous e

-- From `previous`, each of the events is accepted in its turn, and `last` is then the position.
abbrev pub Chain : Option ℕ → List MarketDataEvent → Option ℕ → Type 0
Chain previous [] last = previous ≡ last
Chain previous (e ∷ es) last = Fits previous e × Chain e.sequence es last

pub Chain-append :
    (previous last : Option ℕ) (es : List MarketDataEvent) (e : MarketDataEvent)
    → Chain previous es last
    → Fits last e
    → Chain previous (es ++ e ∷ []) e.sequence
Chain-append previous last [] e c f = (subst (λ p. Fits p e) (sym c) f, refl)
Chain-append previous last (x ∷ es) e c f = (c.0, Chain-append x.sequence last es e c.1 f)

-- The feed's own state: its next event is a snapshot, or follows the last one.
pub record IsLinked (feed : MarketDataFeed) (last : Option ℕ) : Type 0 where
  pub positive : 0 < feed.next_sequence
  pub bounded : feed.next_sequence < u64_mod
  pub linked :
      feed.snapshot_pending ≡ false → (p : ℕ) × (last ≡ some p) × (feed.next_sequence ≡ suc p)

pub record InStep (feed : MarketDataFeed) (q : Queue MarketDataEvent) (subscriber : MarketDataBook)
    : Type 0 where
  pub taken_before : ℕ
  pub items : List MarketDataEvent
  pub queued : Queued q taken_before items
  pub last : Option ℕ
  pub chain : Chain (position subscriber) items last
  pub link : IsLinked feed last

-- A fitting event is accepted, and gives its levels and its sequence.
pub apply-Fits :
    (e : MarketDataEvent) (book : MarketDataBook)
    → Fits (position book) e
    → ((apply e book).1 ≡ true)
      × (position (apply e book).0 ≡ e.sequence)
      × ((apply e book).0.bids ≡ e.bids)
      × ((apply e book).0.asks ≡ e.asks)
unfolding apply continues is_next_sequence
apply-Fits e book (fresh s es ek) = rw (es, ek, apply) (refl, es, refl, refl)
apply-Fits e book (next p at fits es ek) =
    let (on, was) = position_of-some book.synchronized book.last_sequence p at in
    let follows : is_next_sequence p (suc p) ≡ true =
      unfold is_next_sequence in ground (arith, fits) in
    rw (es, ek, on, was, follows, apply, continues) (refl, es, refl, refl)
