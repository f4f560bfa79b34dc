-- ===== src/Util/Queue/Tests.antt =====
-- The theorems about the queue at the items 3 and 5.
use btree_benchmarks.Prelude.{[], ◌∷◌, arith}
use btree_benchmarks.Util.Queue.{Queue, new_queue, push_back, pop_front}
use btree_benchmarks.Util.Queue.Order.{
  IsQueue, Pops, new_queue-IsQueue, push_back-IsQueue, pop_front-Pops,
}

abbrev one : Queue
one = push_back 3 (new_queue (λ p. 9))

one-IsQueue : IsQueue one (3 ∷ [])
one-IsQueue =
    push_back-IsQueue 3 (new_queue (λ p. 9)) [] (omega arith) tt (new_queue-IsQueue (λ p. 9))

push_back-IsQueue_example : IsQueue (push_back 5 one) (3 ∷ 5 ∷ [])
push_back-IsQueue_example =
    push_back-IsQueue 5 one (3 ∷ []) (omega arith) (λ e. absurd (omega arith), tt) one-IsQueue

pop_front-Pops_example : Pops one (3 ∷ []) (pop_front one)
pop_front-Pops_example = pop_front-Pops one (3 ∷ []) one-IsQueue
