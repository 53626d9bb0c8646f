-- ===== src/Spsc/Tests.antt =====
-- Examples: a queue of two items, over one round of the indices.
use low_latency_exchange.Prelude.{
  ℕ, ◌≤◌, ◌<◌, true, false, some, none, List, [], ◌∷◌, ◌≡◌, refl, arith,
}
use low_latency_exchange.Spsc.Operations.{empty_queue, try_push, try_pop}
use low_latency_exchange.Spsc.Refine.{
  empty_queue-Holds, Pushed, try_push-Pushed, Popped, try_pop-Popped,
}
use low_latency_exchange.Spsc.Trace.{
  Call, push, pop, pushed, popped, run_queue, run_list, run_queue-run_list,
}

one_pos : 1 ≤ 1
one_pos = omega arith

one_small : 1 < 64
one_small = omega arith

try_push-Pushed_example :
    Pushed {T = ℕ} 0 1 one_pos one_small 0 [] 5 (try_push 2 0 5 (empty_queue 2 0))
try_push-Pushed_example =
    try_push-Pushed 0 1 one_pos one_small (empty_queue 2 0) 0 [] 5
      (empty_queue-Holds 0 1 one_pos one_small)

try_pop-Popped_example : Popped {T = ℕ} 0 1 one_pos one_small 0 [] (try_pop 2 0 (empty_queue 2 0))
try_pop-Popped_example =
    try_pop-Popped 0 1 one_pos one_small (empty_queue 2 0) 0 []
      (empty_queue-Holds 0 1 one_pos one_small)

abbrev busy : List (Call ℕ)
busy = push 1 ∷ push 2 ∷ push 3 ∷ pop ∷ push 4 ∷ pop ∷ pop ∷ pop ∷ []

busy_replies :
    run_list 2 busy []
    ≡ pushed true
      ∷ pushed true
      ∷ pushed false
      ∷ popped (some 1)
      ∷ pushed true
      ∷ popped (some 2)
      ∷ popped (some 4)
      ∷ popped none
      ∷ []
unfolding run_list
busy_replies = refl

run_queue-run_list_example : run_queue 2 0 busy (empty_queue 2 0) ≡ run_list 2 busy []
run_queue-run_list_example = run_queue-run_list 0 1 one_pos one_small busy
