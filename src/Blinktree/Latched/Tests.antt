-- ===== src/Blinktree/Latched/Tests.antt =====
-- The theorems about `ThreadTree` at a tree of one leaf, in the build with spinlocks, and runs on a
-- new tree.
use btree_benchmarks.Prelude.{suc, ◌≡◌, ◌↔◌, false, arith}
use btree_benchmarks.Blinktree.Node.{Key, Value, max_key}
use btree_benchmarks.Blinktree.Tree.Shape.{Shape, IsTree}
use btree_benchmarks.Blinktree.Tree.NewTree.{leaf_shape}
use btree_benchmarks.Blinktree.Tree.Contents.{Contains}
use btree_benchmarks.Blinktree.Sample.{
  layout, layout-IsRoomy, one_leaf, one_leaf-IsTree, one_leaf-Contains, lacks_15, no_stale_15,
}
use btree_benchmarks.Blinktree.Latched.{find, update_value, insert}
use btree_benchmarks.Blinktree.Latched.Running.{Ends}
use btree_benchmarks.Blinktree.Latched.Latches.{spinlock, spinlock-LatchLaws}
use btree_benchmarks.Blinktree.Latched.Commands.{LatchesOnly, AllFree}
use btree_benchmarks.Blinktree.Latched.Find.{find-present, find-absent}
use btree_benchmarks.Blinktree.Latched.Update.{Replaced, update_value-present}
use btree_benchmarks.Blinktree.Latched.Insert.{Inserts, insert-Inserts}

one_leaf-AllFree :
    AllFree spinlock spinlock-LatchLaws
      (one_leaf spinlock.fresh).next
      (one_leaf spinlock.fresh).latches
one_leaf-AllFree q above below = spinlock-LatchLaws.fresh_free

find-present_example :
    LatchesOnly
      (one_leaf spinlock.fresh)
      (λ w m. (w ≡ 8) × AllFree spinlock spinlock-LatchLaws (one_leaf spinlock.fresh).next m)
      (find spinlock layout 1 101 10 (one_leaf spinlock.fresh))
find-present_example =
    find-present spinlock spinlock-LatchLaws (one_leaf-IsTree spinlock.fresh) one_leaf-AllFree 10
      (omega arith) 1 100 (omega arith) (omega arith) (omega arith) 8
      (one_leaf-Contains spinlock.fresh)

find-absent_example :
    LatchesOnly
      (one_leaf spinlock.fresh)
      (λ w m. (w ≡ 0) × AllFree spinlock spinlock-LatchLaws (one_leaf spinlock.fresh).next m)
      (find spinlock layout 1 101 15 (one_leaf spinlock.fresh))
find-absent_example =
    find-absent spinlock spinlock-LatchLaws (one_leaf-IsTree spinlock.fresh) one_leaf-AllFree 15
      (omega arith) 1 100 (omega arith) (omega arith) (omega arith) (lacks_15 spinlock.fresh)
      (no_stale_15 spinlock.fresh)

update_value-present_example :
    Ends
      (λ _ t'.
        IsTree layout leaf_shape t'
        × AllFree spinlock spinlock-LatchLaws t'.next t'.latches
        × ((k : Key) (w : Value)
            → Contains t' k w ↔ Replaced 10 5 (Contains (one_leaf spinlock.fresh)) k w))
      (update_value spinlock layout 1 101 10 5 (one_leaf spinlock.fresh))
update_value-present_example =
    update_value-present spinlock spinlock-LatchLaws (one_leaf-IsTree spinlock.fresh)
      one_leaf-AllFree 10 5 (omega arith) 1 100 (omega arith) (omega arith) (omega arith) 8
      (one_leaf-Contains spinlock.fresh)

insert-Inserts_example :
    Ends
      (λ _ u.
        (u.locked ≡ false)
        × ((s' : Shape) × Inserts spinlock spinlock-LatchLaws layout
              (one_leaf spinlock.fresh)
              15
              6
              u.tree
              s'))
      (insert spinlock layout 1
        (suc max_key)
        15
        6
        (record { tree = (one_leaf spinlock.fresh); locked = false }))
insert-Inserts_example =
    insert-Inserts spinlock spinlock-LatchLaws layout-IsRoomy (one_leaf-IsTree spinlock.fresh)
      one_leaf-AllFree 15 6 (omega arith) 1 max_key (omega arith) (omega arith) (omega arith)
