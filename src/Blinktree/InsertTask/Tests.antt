-- ===== src/Blinktree/InsertTask/Tests.antt =====
-- The insertion task at a tree of one leaf, with spinlocks for latches.
use btree_benchmarks.Prelude.{refl, arith, inl}
use btree_benchmarks.Blinktree.Tree.{Tree}
use btree_benchmarks.Blinktree.Sample.{layout, layout-IsRoomy, one_leaf, one_leaf-IsTree}
use btree_benchmarks.Blinktree.Latched.Running.{Ends}
use btree_benchmarks.Blinktree.Latched.Latches.{spinlock, spinlock-LatchLaws}
use btree_benchmarks.Blinktree.Latched.Commands.{AllFree}
use btree_benchmarks.Blinktree.InsertTask.{insert_task}
use btree_benchmarks.Blinktree.InsertTask.Splits.{AllHaveParents}
use btree_benchmarks.Blinktree.InsertTask.Climb.{Finishes}
use btree_benchmarks.Blinktree.InsertTask.Inserts.{insert_task-Finishes}

abbrev sample : Tree spinlock.State
sample = one_leaf spinlock.fresh

sample-AllFree : AllFree spinlock spinlock-LatchLaws sample.next sample.latches
sample-AllFree q above below = spinlock-LatchLaws.fresh_free

sample-AllHaveParents : AllHaveParents sample
sample-AllHaveParents r at = inl (refl, omega (arith, at))

insert_task-Finishes_example :
    Ends
      (Finishes spinlock spinlock-LatchLaws {l = layout} layout-IsRoomy sample 15 6 0 (omega arith))
      (insert_task spinlock layout 18 15 6 sample)
insert_task-Finishes_example =
    insert_task-Finishes spinlock spinlock-LatchLaws layout-IsRoomy (one_leaf-IsTree spinlock.fresh)
      sample-AllFree sample-AllHaveParents (omega arith) 15 6 (omega arith) 18 (omega arith)
