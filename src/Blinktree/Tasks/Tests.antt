-- ===== src/Blinktree/Tasks/Tests.antt =====
-- The tasks at a tree of one leaf, with spinlocks for latches.
use btree_benchmarks.Prelude.{◌≡◌, arith}
use btree_benchmarks.Blinktree.Tree.{Tree}
use btree_benchmarks.Blinktree.Tree.Contents.{Contains}
use btree_benchmarks.Blinktree.Sample.{layout, one_leaf, one_leaf-IsTree, one_leaf-Contains}
use btree_benchmarks.Blinktree.Latched.Running.{Ends}
use btree_benchmarks.Blinktree.Latched.Latches.{spinlock, spinlock-LatchLaws}
use btree_benchmarks.Blinktree.Latched.Commands.{AllFree}
use btree_benchmarks.Blinktree.Latched.Update.{Replaced}
use btree_benchmarks.Blinktree.Tasks.{lookup_task, update_task}
use btree_benchmarks.Blinktree.Tasks.Lookup.{Reads, lookup_task-present}
use btree_benchmarks.Blinktree.Tasks.Update.{Writes, update_task-present}

abbrev sample : Tree spinlock.State
sample = one_leaf spinlock.fresh

sample-AllFree : AllFree spinlock spinlock-LatchLaws sample.next sample.latches
sample-AllFree q above below = spinlock-LatchLaws.fresh_free

lookup_task-present_example :
    Ends
      (Reads spinlock spinlock-LatchLaws
        (one_leaf-IsTree spinlock.fresh)
        sample-AllFree
        10
        (omega arith)
        12
        (omega arith)
        (λ w. w ≡ 8))
      (lookup_task spinlock layout 12 10 sample)
lookup_task-present_example =
    lookup_task-present spinlock spinlock-LatchLaws (one_leaf-IsTree spinlock.fresh) sample-AllFree
      10 (omega arith) 12 (omega arith) 8 (one_leaf-Contains spinlock.fresh)

update_task-present_example :
    Ends
      (Writes spinlock spinlock-LatchLaws
        (one_leaf-IsTree spinlock.fresh)
        sample-AllFree
        10
        5
        (omega arith)
        12
        (omega arith)
        (Replaced 10 5 (Contains sample)))
      (update_task spinlock layout 12 10 5 sample)
update_task-present_example =
    update_task-present spinlock spinlock-LatchLaws (one_leaf-IsTree spinlock.fresh) sample-AllFree
      10 5 (omega arith) 12 (omega arith) 8 (one_leaf-Contains spinlock.fresh)
