-- ===== src/Blinktree/Optimistic/Tests.antt =====
-- The theorems about the optimistic tree at a tree of one leaf.
use btree_benchmarks.Prelude.{suc, ◌≡◌, ◌↔◌, refl, false, arith}
use btree_benchmarks.Blinktree.Node.{Key, Value, max_key}
use btree_benchmarks.Blinktree.OptimisticLock.{initial_version}
use btree_benchmarks.Blinktree.Tree.Shape.{Shape, IsTree}
use btree_benchmarks.Blinktree.Tree.NewTree.{leaf_shape}
use btree_benchmarks.Blinktree.Tree.Contents.{Contains}
use btree_benchmarks.Blinktree.Sample.{
  layout, layout-IsRoomy, one_leaf, one_leaf-IsTree, one_leaf-Contains,
}
use btree_benchmarks.Blinktree.Latched.Running.{Ends}
use btree_benchmarks.Blinktree.Latched.Update.{Replaced}
use btree_benchmarks.Blinktree.Latched.Insert.{Inserts}
use btree_benchmarks.Blinktree.Optimistic.{find, update_value, insert}
use btree_benchmarks.Blinktree.Optimistic.Latch.{optimistic, optimistic-LatchLaws}
use btree_benchmarks.Blinktree.Optimistic.Reads.{Reads, IsUnlocked}
use btree_benchmarks.Blinktree.Optimistic.Find.{optimistic_find-present}
use btree_benchmarks.Blinktree.Optimistic.Update.{optimistic_update-present}
use btree_benchmarks.Blinktree.Optimistic.Insert.{optimistic-insert-Inserts}

one_leaf-IsUnlocked : IsUnlocked (one_leaf initial_version)
one_leaf-IsUnlocked q above below = refl

optimistic_find-present_example :
    Reads
      (one_leaf initial_version)
      (λ w. w ≡ 8)
      (find layout 1 1 101 10 (one_leaf initial_version))
optimistic_find-present_example =
    optimistic_find-present (one_leaf-IsTree initial_version) one_leaf-IsUnlocked 10 (omega arith) 0
      1 100 (omega arith) (omega arith) (omega arith) 8 (one_leaf-Contains initial_version)

optimistic_update-present_example :
    Ends
      (λ _ t'.
        IsTree layout leaf_shape t'
        × IsUnlocked t'
        × ((k : Key) (w : Value)
            → Contains t' k w ↔ Replaced 10 5 (Contains (one_leaf initial_version)) k w))
      (update_value layout 1 1 101 10 5 (one_leaf initial_version))
optimistic_update-present_example =
    optimistic_update-present (one_leaf-IsTree initial_version) one_leaf-IsUnlocked 10 5
      (omega arith) 0 1 100 (omega arith) (omega arith) (omega arith) 8
      (one_leaf-Contains initial_version)

optimistic-insert-Inserts_example :
    Ends
      (λ _ u.
        (u.locked ≡ false)
        × ((s' : Shape) × Inserts optimistic optimistic-LatchLaws layout
              (one_leaf initial_version)
              15
              6
              u.tree
              s'))
      (insert layout 1 1
        (suc max_key)
        15
        6
        (record { tree = one_leaf initial_version; locked = false }))
optimistic-insert-Inserts_example =
    optimistic-insert-Inserts layout-IsRoomy (one_leaf-IsTree initial_version) one_leaf-IsUnlocked
      15 6 (omega arith) 0 1 max_key (omega arith) (omega arith) (omega arith)
