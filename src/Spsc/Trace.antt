-- ===== src/Spsc/Trace.antt =====
-- Any sequence of pushes and pops, against a bounded first-in first-out list.
use low_latency_exchange.Prelude.{
  ℕ, ◌^◌, ◌≤◌, ◌<◌, suc, Bool, true, false, Option, none, some, List, [], ◌∷◌, ◌++◌, ◌≡◌, refl, ap,
  arith, ltb, if◌then◌else◌, length, subst,
}
use low_latency_exchange.Spsc.{Queue}
use low_latency_exchange.Spsc.Operations.{empty_queue, try_push, try_pop}
use low_latency_exchange.Spsc.Refine.{
  Holds, empty_queue-Holds, stored_last, refused, try_push-Pushed, taken, nothing, try_pop-Popped,
}

pub data Call {ℓ} (T : Type ℓ) : Type ℓ where
  push : T → Call T
  pop : Call T

pub data Reply {ℓ} (T : Type ℓ) : Type ℓ where
  pushed : Bool → Reply T
  popped : Option T → Reply T

module _ {ℓ} {T : Type ℓ} where
  unfoldable pub run_queue : ℕ → T → List (Call T) → Queue T → List (Reply T)
  run_queue size blank [] q = []
  run_queue size blank (push item ∷ calls) q =
      let (q', done) = try_push size blank item q in pushed done ∷ run_queue size blank calls q'
  run_queue size blank (pop ∷ calls) q =
      let (q', out) = try_pop size blank q in popped out ∷ run_queue size blank calls q'

  -- A list that takes at most `size` items, and gives the oldest.
  unfoldable pub run_list : ℕ → List (Call T) → List T → List (Reply T)
  run_list size [] items = []
  run_list size (push item ∷ calls) items =
      let refusal = pushed false ∷ run_list size calls items in
      if ltb (length items) size
      then pushed true ∷ run_list size calls (items ++ item ∷ [])
      else refusal
  run_list size (pop ∷ calls) [] = popped none ∷ run_list size calls []
  run_list size (pop ∷ calls) (x ∷ rest) = popped (some x) ∷ run_list size calls rest

module _ {ℓ} {T : Type ℓ} (blank : T) (k : ℕ) (k_pos : 1 ≤ k) (k_small : k < 64) where
  run_queue-Holds :
      (calls : List (Call T)) (q : Queue T) (r : ℕ) (items : List T)
      → Holds blank k k_pos k_small q r items
      → run_queue (2 ^ k) blank calls q ≡ run_list (2 ^ k) calls items
  unfolding run_queue run_list
  run_queue-Holds [] q r items h = refl
  run_queue-Holds (push item ∷ calls) q r items h =
      elim (try_push-Pushed blank k k_pos k_small q r items item h) [
        | stored_last room e next ↦
            rw
              (
                e,
                run_queue-Holds calls (try_push (2 ^ k) blank item q).0 r (items ++ item ∷ []) next,
              )
              (ground (arith, room))
        | refused full e next ↦
            rw (e, run_queue-Holds calls (try_push (2 ^ k) blank item q).0 r items next)
              (ground (arith, full))
      ]
  run_queue-Holds (pop ∷ calls) q r items h =
      elim (try_pop-Popped blank k k_pos k_small q r items h) [
        | taken x rest same e next ↦
            rw (e, same)
              (ap (λ (rs : List (Reply T)). popped (some x) ∷ rs)
                (run_queue-Holds calls (try_pop (2 ^ k) blank q).0 (suc r) rest next))
        | nothing same e next ↦
            rw (e, same)
              (ap (λ (rs : List (Reply T)). popped none ∷ rs)
                (run_queue-Holds calls (try_pop (2 ^ k) blank q).0 r [] (
                  subst
                    (λ (xs : List T). Holds blank k k_pos k_small (try_pop (2 ^ k) blank q).0 r xs)
                    same next)))
      ]

  -- Each sequence of pushes and pops on a new queue, whose capacity is a power of two below 2 ^ 64, gets
  -- the answers of a list that holds at most that many items and gives the oldest first.
  pub run_queue-run_list :
      (calls : List (Call T))
      → run_queue (2 ^ k) blank calls (empty_queue (2 ^ k) blank) ≡ run_list (2 ^ k) calls []
  run_queue-run_list calls =
      run_queue-Holds calls (empty_queue (2 ^ k) blank) 0 []
        (empty_queue-Holds blank k k_pos k_small)
