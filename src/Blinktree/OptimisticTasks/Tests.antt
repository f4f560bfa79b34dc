-- ===== src/Blinktree/OptimisticTasks/Tests.antt =====
-- The tasks of the optimistic build at a tree of one leaf.
use btree_benchmarks.Prelude.{ℕ, ◌≡◌, arith, inl, refl}
use btree_benchmarks.Blinktree.Tree.{Tree}
use btree_benchmarks.Blinktree.Sample.{
  layout, layout-IsRoomy, one_leaf, one_leaf-IsTree, one_leaf-Contains,
}
use btree_benchmarks.Blinktree.Latched.Running.{Ends}
use btree_benchmarks.Blinktree.Optimistic.Latch.{optimistic, optimistic-LatchLaws}
use btree_benchmarks.Blinktree.Optimistic.Reads.{IsUnlocked}
use btree_benchmarks.Blinktree.InsertTask.Splits.{AllHaveParents}
use btree_benchmarks.Blinktree.InsertTask.Climb.{Finishes}
use btree_benchmarks.Blinktree.OptimisticTasks.{lookup_task, update_task, insert_task}
use btree_benchmarks.Blinktree.OptimisticTasks.Lookup.{optimistic_lookup_task-present}
use btree_benchmarks.Blinktree.OptimisticTasks.Update.{Updated, optimistic_update_task-present}
use btree_benchmarks.Blinktree.OptimisticTasks.Insert.{optimistic-insert_task-Finishes}

abbrev sample : Tree ℕ
sample = one_leaf 4

sample-IsUnlocked : IsUnlocked sample
sample-IsUnlocked q above below = refl

sample-AllHaveParents : AllHaveParents sample
sample-AllHaveParents r at = inl (refl, omega (arith, at))

optimistic_lookup_task-present_example :
    Ends
      (λ value t'. (value ≡ 8) × (t'.nodes ≡ sample.nodes) × IsUnlocked t')
      (lookup_task layout 12 1 10 sample)
optimistic_lookup_task-present_example =
    optimistic_lookup_task-present (one_leaf-IsTree 4) sample-IsUnlocked 10 (omega arith) 12 0
      (omega arith) 8 (one_leaf-Contains {L = ℕ} 4)

optimistic_update_task-present_example :
    Ends
      (Updated (one_leaf-IsTree 4) sample-IsUnlocked 10 5 (omega arith) 12 0 (omega arith))
      (update_task layout 12 1 10 5 sample)
optimistic_update_task-present_example =
    optimistic_update_task-present (one_leaf-IsTree 4) sample-IsUnlocked 10 5 (omega arith) 12 0
      (omega arith) 8 (one_leaf-Contains {L = ℕ} 4)

optimistic-insert_task-Finishes_example :
    Ends
      (Finishes optimistic optimistic-LatchLaws {l = layout} layout-IsRoomy sample 15 6 0
        (omega arith))
      (insert_task layout 18 1 15 6 sample)
optimistic-insert_task-Finishes_example =
    optimistic-insert_task-Finishes layout-IsRoomy (one_leaf-IsTree 4) sample-IsUnlocked
      sample-AllHaveParents (omega arith) 15 6 (omega arith) 18 0 (omega arith)
