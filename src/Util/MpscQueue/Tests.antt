-- ===== src/Util/MpscQueue/Tests.antt =====
-- Items through a queue whose stub is at address 9.
use btree_benchmarks.Prelude.{◌≡◌, refl, [], ◌∷◌, true, arith, ◌==◌, if◌then◌else◌}
use btree_benchmarks.Util.MpscQueue.{
  MpscQueue, new_mpsc_queue, push, push_range, pop, is_empty_queue,
}
use btree_benchmarks.Util.MpscQueue.Order.{IsLinked, Holds, Pops, push-Holds, pop-Pops}

abbrev new : MpscQueue
new = new_mpsc_queue (λ _. 0) 9

new-IsLinked : IsLinked new 9 []
new-IsLinked = record {
  chain = (refl, omega arith, tt, refl);
  head_last = refl;
  some_stub = omega arith;
}

abbrev two : MpscQueue
two = push 4 (push 3 new)

two-IsLinked : IsLinked two 9 (3 ∷ 4 ∷ [])
two-IsLinked = record {
  chain = (
    refl,
    omega arith,
    (omega arith, (omega arith, tt)),
    (refl, omega arith, (omega arith, tt), (refl, omega arith, tt, refl)),
  );
  head_last = refl;
  some_stub = omega arith;
}

first_out : (pop two).0 ≡ 3
first_out = refl

then_empty : is_empty_queue (pop (pop two).1).1 ≡ true
then_empty = refl

-- The item 3 is followed by 4.
abbrev linked : MpscQueue
linked = new_mpsc_queue (λ p. if p == 3 then 4 else 0) 9

-- Two linked items are put behind another one.
range_behind : (pop (pop (push_range 3 4 (push 5 linked))).1).0 ≡ 3
range_behind = refl

push-Holds_example : Holds (push 5 two) (3 ∷ 4 ∷ 5 ∷ [])
push-Holds_example =
    push-Holds 5 two 9 (3 ∷ 4 ∷ []) (omega arith) (omega arith)
      (omega arith, (omega arith, (omega arith, tt))) two-IsLinked

pop-Pops_example : Pops two (3 ∷ 4 ∷ []) (pop two)
pop-Pops_example = pop-Pops two 9 (3 ∷ 4 ∷ []) two-IsLinked
