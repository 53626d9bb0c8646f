-- ===== src/Market/Draining.antt =====
-- `publish_available`: the subscriber catches up with the queue.
use low_latency_exchange.Prelude.{
  ℕ, zero, suc, ◌+◌, ◌<◌, Option, List, [], ◌∷◌, ◌≡◌, sym, ap, arith, subst, u64_mod, length, add64,
}
use low_latency_exchange.Spsc.{Queue}
use low_latency_exchange.Spsc.Operations.{try_pop}
use low_latency_exchange.Spsc.Refine.{taken, nothing, try_pop-Popped}
use low_latency_exchange.Market.Types.{
  MarketDataEvent, blank_event, queue_capacity, MarketDataFeed, MarketDataBook,
}
use low_latency_exchange.Market.Subscriber.{apply, drain, publish_available}
use low_latency_exchange.Market.InStep.{
  exponent_pos, exponent_small, Queued, position, Chain, InStep, apply-Fits,
}

-- What `publish_available` leaves.
pub record Drained (last : Option ℕ) (n : ℕ) (result : Queue MarketDataEvent × MarketDataBook × ℕ)
    : Type 0 where
  pub taken_before : ℕ
  pub emptied : Queued result.0 taken_before []
  pub caught_up : position result.1 ≡ last
  pub counted : result.2 ≡ n

drain-Drained :
    (fuel published : ℕ) (q : Queue MarketDataEvent) (subscriber : MarketDataBook) (r : ℕ)
    (items : List MarketDataEvent) (last : Option ℕ)
    → Queued q r items
    → Chain (position subscriber) items last
    → length items < fuel
    → published + length items < u64_mod
    → Drained last (published + length items) (drain fuel published q subscriber)
unfolding drain
drain-Drained zero published q subscriber r items last held c enough small = absurd (omega arith)
drain-Drained (suc fuel) published q subscriber r items last held c enough small =
    elim (try_pop-Popped blank_event 10 exponent_pos exponent_small q r items held) [
      | nothing same e left ↦
          rw (e, drain)
            (record {
              taken_before = r;
              emptied =
                  subst
                    (λ (es : List MarketDataEvent).
                      Queued (try_pop queue_capacity blank_event q).0 r es)
                    same left;
              caught_up =
                  subst (λ (es : List MarketDataEvent). Chain (position subscriber) es last) same c;
              counted = omega (arith, ap length same);
            })
      | taken x rest same e left ↦
          let c' : Chain (position subscriber) (x ∷ rest) last =
            subst (λ (es : List MarketDataEvent). Chain (position subscriber) es last) same c in
          let size : length items ≡ suc (length rest) = ap length same in
          let (ok, at, _, _) = apply-Fits x subscriber c'.0 in
          let d =
            drain-Drained fuel (add64 published 1) (try_pop queue_capacity blank_event q).0
              (apply x subscriber).0 (suc r) rest last left
              (subst (λ (p : Option ℕ). Chain p rest last) (sym at) c'.1)
              (omega (arith, size, enough)) (omega (arith, size, small)) in
          rw (e, ok, drain)
            (subst
              (λ (n : ℕ). Drained last n (
                drain fuel (add64 published 1) (try_pop queue_capacity blank_event q).0
                  (apply x subscriber).0))
              (omega (arith, size, small)) d)
    ]

-- `publish_available` empties the queue: each event that stood there is accepted and counted, and the
-- subscriber is then at the last of them.
pub publish_available-Drained :
    (feed : MarketDataFeed) (q : Queue MarketDataEvent) (subscriber : MarketDataBook)
    (s : InStep feed q subscriber)
    → Drained s.last (length s.items) (publish_available q subscriber)
unfolding publish_available
publish_available-Drained feed q subscriber s =
    subst (λ (n : ℕ). Drained s.last n (drain 1025 0 q subscriber)) {x = 0 + length s.items}
      (omega arith)
      (drain-Drained 1025 0 q subscriber s.taken_before s.items s.last s.queued s.chain
        (omega (arith, s.queued.bounded)) (omega (arith, s.queued.bounded)))
