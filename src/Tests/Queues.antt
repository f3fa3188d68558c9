-- ===== src/Tests/Queues.antt =====
-- fuzzy_log_util/src/hash_deque_map.rs and tree_deque_map.rs at concrete inputs.
use delos_rust.Prelude.{
  ℕ, ◌≡◌, refl, none, some, List, [], ◌∷◌, arith, ok, Returns, lookup, insert, remove,
}
use delos_rust.Util.DequeMap
use delos_rust.Util.DequeMap.{DequeMap}
use delos_rust.Util.DequeMap.Laws.{IsValid, new-IsValid, push-IsValid, Popped, pop_front_lem}
use delos_rust.Util.TreeDequeMap
use delos_rust.Util.TreeDequeMap.Same.{
  Op, Reply, pushes, pops, puts, gets, skips, value, at_index, done, hash_run, tree_run, hash_step,
  run-same,
}

-- A queue with the value 5 at index 0.
abbrev five : DequeMap ℕ
five = record { entries = (0, 5) ∷ []; start = 0; next = 1; min = 0 }

five-IsValid : IsValid five
unfolding DequeMap.new insert
five-IsValid = push-IsValid DequeMap.new 5 new-IsValid

pop_front_lem_example : Returns (Popped five) (DequeMap.pop_front five)
pop_front_lem_example = pop_front_lem five five-IsValid refl (omega arith) (omega arith)

-- A client that puts ahead of the queue, reads, pops and skips.
abbrev calls : List (Op ℕ)
calls = pushes 5 ∷ puts 2 7 ∷ gets 2 ∷ pops ∷ skips ∷ pops ∷ gets 2 ∷ []

abbrev replies : List (Reply ℕ)
replies =
    at_index 0
    ∷ value none
    ∷ value (some 7)
    ∷ value (some 5)
    ∷ done
    ∷ value (some 7)
    ∷ value none
    ∷ []

calls_run : hash_run DequeMap.new calls ≡ ok replies
unfolding hash_run hash_step DequeMap.new DequeMap.push_back DequeMap.put DequeMap.get
    DequeMap.pop_front DequeMap.increment_start lookup insert remove
calls_run = refl

run-same_example : tree_run TreeDequeMap.new calls ≡ ok replies
run-same_example = run-same calls replies calls_run
