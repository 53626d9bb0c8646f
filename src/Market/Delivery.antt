-- ===== src/Market/Delivery.antt =====
-- `publish_one`: no event that the queue lets through is rejected.
use low_latency_exchange.Prelude.{
  ℕ, suc, Bool, true, false, Option, List, [], ◌∷◌, ◌≡◌, refl, sym, subst,
}
use low_latency_exchange.Spsc.{Queue}
use low_latency_exchange.Spsc.Refine.{taken, nothing, try_pop-Popped}
use low_latency_exchange.Market.Types.{MarketDataEvent, blank_event, MarketDataFeed, MarketDataBook}
use low_latency_exchange.Market.Subscriber.{publish_one}
use low_latency_exchange.Market.InStep.{
  exponent_pos, exponent_small, position, Chain, InStep, apply-Fits,
}

-- What `publish_one` gives.
pub data Delivered (feed : MarketDataFeed) (q : Queue MarketDataEvent) (subscriber : MarketDataBook)
    (items : List MarketDataEvent) (result : Queue MarketDataEvent × MarketDataBook × Bool)
    : Type 0 where
  delivered :
      (e : MarketDataEvent) (rest : List MarketDataEvent)
      → items ≡ e ∷ rest
      → result.2 ≡ true
      → result.1.bids ≡ e.bids
      → result.1.asks ≡ e.asks
      → InStep feed result.0 result.1
      → Delivered feed q subscriber items result
  idle :
      items ≡ []
      → result.2 ≡ false
      → result.1 ≡ subscriber
      → InStep feed result.0 result.1
      → Delivered feed q subscriber items result

-- `publish_one` gives the subscriber the oldest event of the queue, which it accepts and whose levels it
-- then has, and reports false only of an empty queue; the three stay in step.
pub publish_one-Delivered :
    (feed : MarketDataFeed) (q : Queue MarketDataEvent) (subscriber : MarketDataBook)
    (s : InStep feed q subscriber)
    → Delivered feed q subscriber s.items (publish_one q subscriber)
unfolding publish_one
publish_one-Delivered feed q subscriber s =
    elim (try_pop-Popped blank_event 10 exponent_pos exponent_small q s.taken_before s.items
      s.queued) [
        | nothing same e held ↦
            rw (e, publish_one)
              (idle same refl refl (record {
                taken_before = s.taken_before;
                items = s.items;
                queued = held;
                last = s.last;
                chain = s.chain;
                link = s.link;
              }))
        | taken x rest same e held ↦
            let c : Chain (position subscriber) (x ∷ rest) s.last =
              subst (λ (es : List MarketDataEvent). Chain (position subscriber) es s.last) same
                s.chain in
            let (ok, at, bids, asks) = apply-Fits x subscriber c.0 in
            rw (e, publish_one)
              (delivered x rest same ok bids asks (record {
                taken_before = suc s.taken_before;
                items = rest;
                queued = held;
                last = s.last;
                chain = subst (λ (p : Option ℕ). Chain p rest s.last) (sym at) c.1;
                link = s.link;
              }))
      ]
