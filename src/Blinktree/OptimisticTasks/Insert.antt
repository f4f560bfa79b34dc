-- ===== src/Blinktree/OptimisticTasks/Insert.antt =====
-- `InsertTask` of src/indices/blinktree/tbb/insert_task.cpp in the optimistic build.
use btree_benchmarks.Prelude.{
  ℕ, suc, ◌+◌, ◌*◌, ◌^◌, ◌≤◌, ◌<◌, ◌≡◌, refl, true, false, arith, ◌==◌, ne→==, leb,
}
use btree_benchmarks.Blinktree.Node.{Ptr, null, Key, Value, max_key, Layout}
use btree_benchmarks.Blinktree.Tree.{Tree, IsAllocated}
use btree_benchmarks.Blinktree.Tree.Shape.{Shape, IsRoomy, IsTree}
use btree_benchmarks.Blinktree.Latched.Running.{Ends, ends, Ends-bind}
use btree_benchmarks.Blinktree.Latched.Commands.{
  latches_only, latches-Ends, AllFree, read-Ends, lock_node_shared-Holds, unlock_node-Frees,
}
use btree_benchmarks.Blinktree.Latched.Path.{Covers}
use btree_benchmarks.Blinktree.Optimistic.Latch.{optimistic, optimistic-LatchLaws}
use btree_benchmarks.Blinktree.Optimistic.Reads.{IsUnlocked}
use btree_benchmarks.Blinktree.Tasks.Run.{IsVisit}
use btree_benchmarks.Blinktree.InsertTask.{InsertState, new_insert_state}
use btree_benchmarks.Blinktree.InsertTask.Splits.{AllHaveParents, Climbs, GoesOn}
use btree_benchmarks.Blinktree.InsertTask.AtLeaf.{insert_into_leaf_node-Steps}
use btree_benchmarks.Blinktree.InsertTask.AtInner.{insert_into_inner_node-Steps}
use btree_benchmarks.Blinktree.InsertTask.Climb.{Finishes, Climbs-latches, unlocked-GoesOn}
use btree_benchmarks.Blinktree.InsertTask.Inserts.{insertion-Finishes}
use btree_benchmarks.Blinktree.OptimisticTasks.{insert_at_node, insert_execute, insert_task}
use btree_benchmarks.Blinktree.OptimisticTasks.Visits.{visit-right, visit-down, visit-stop}

module _ {l : Layout} {s : Shape} {t : Tree ℕ} (roomy : IsRoomy l) (tree : IsTree l s t)
    (free : IsUnlocked t) (parents : AllHaveParents t) (low_tree : s.level t.root + 2 < 2 ^ 16)
    (key : Key) (value : Value) (small : key < max_key) (fuel rounds : ℕ)
    (enough : (s.level t.root + 1) * (key + 3) ≤ fuel) where
  insert-IsVisit :
      IsVisit optimistic optimistic-LatchLaws tree key small
        (insert_execute l (suc rounds) key value)
        new_insert_state
  unfolding insert_execute
  insert-IsVisit = record {
    goes_right = λ p m at free_m past.
        rw (visit-right (record t { latches = m }) p at free_m rounds key true past)
          (latches_only (refl, refl, free_m));
    goes_down = λ p m at free_m here inner.
        rw (visit-down (record t { latches = m }) p at free_m rounds key true here inner refl)
          (latches_only (refl, refl, free_m));
  }

  at_leaf-GoesOn :
      (q : Ptr) (m : Ptr → ℕ)
      → Covers s t.next 0 key q
      → AllFree optimistic optimistic-LatchLaws t.next m
      → leb (t.nodes q).high_key key ≡ false
      → (t.nodes q).is_leaf ≡ true
      → Ends
          (λ r t'.
            GoesOn optimistic optimistic-LatchLaws {l = l} roomy t key value
              (s.level t.root)
              low_tree
              0
              r
              t'
            × IsUnlocked t')
          (insert_execute l (suc rounds) key value q new_insert_state (record t { latches = m }))
  unfolding insert_execute insert_at_node
  at_leaf-GoesOn q m covers free_m here leaf =
      let at : IsAllocated t q = (covers.starts.not_null, covers.starts.below_next) in
      rw (visit-stop (record t { latches = m }) q at free_m rounds key true here (simp leaf refl)) (
        latches-Ends _ (lock_node_shared-Holds optimistic optimistic-LatchLaws t m q at free_m)
          (λ _ m₁ held₁. read-Ends optimistic optimistic-LatchLaws t m₁ q at _ (
            rw leaf (
              Ends-bind
                (insert_into_leaf_node-Steps optimistic optimistic-LatchLaws roomy t tree key value
                  small low_tree parents q m₁ new_insert_state refl covers held₁)
                (λ r t' (goes_on, at', held').
                  latches-Ends _
                    (unlock_node-Frees optimistic optimistic-LatchLaws t' t'.latches q at' held')
                    (λ _ m₂ free₂. ends (
                      unlocked-GoesOn optimistic optimistic-LatchLaws roomy t key value
                          (s.level t.root) low_tree 0 q r t' m₂ goes_on,
                      free₂,
                    )))))))

  next_level :
      (level : ℕ) (q : Ptr) (s' : Shape) (t' : Tree ℕ) (state : InsertState)
      → Climbs optimistic optimistic-LatchLaws {l = l} roomy t key value
          (s.level t.root)
          low_tree
          s'
          t'
          level
          q
          state
      → IsUnlocked t'
      → Ends
          (λ r t''.
            GoesOn optimistic optimistic-LatchLaws {l = l} roomy t key value
              (s.level t.root)
              low_tree
              (suc level)
              r
              t''
            × IsUnlocked t'')
          (insert_execute l (suc rounds) key value q state t')
  unfolding insert_execute insert_at_node
  next_level level q s' t' state climbs free' =
      let at : IsAllocated t' q =
        (climbs.covers.starts.not_null, climbs.covers.starts.below_next) in
      let here : leb (t'.nodes q).high_key key ≡ false =
        ground (arith, (climbs.tree.nodes_fit q at).ends, climbs.key_inside) in
      let inner : (t'.nodes q).is_leaf ≡ false =
        ground (arith, (climbs.tree.nodes_fit q at).kind, climbs.covers.starts.at_level) in
      let upwards : (state.separator == null) ≡ false =
        ne→== state.separator null (omega (arith, climbs.pending.new_at.not_null)) in
      rw (visit-stop t' q at free' rounds key (state.separator == null) here (simp upwards refl)) (
        latches-Ends _
          (lock_node_shared-Holds optimistic optimistic-LatchLaws t' t'.latches q at free')
          (λ _ m₁ held₁. read-Ends optimistic optimistic-LatchLaws t' m₁ q at _ (
            rw inner (
              Ends-bind
                (insert_into_inner_node-Steps optimistic optimistic-LatchLaws roomy t key value
                  (s.level t.root) low_tree {t = record t' { latches = m₁ }}
                  (Climbs-latches optimistic optimistic-LatchLaws roomy t key value (s.level t.root)
                    low_tree m₁ climbs)
                  held₁)
                (λ r t'' (goes_on, at', held').
                  latches-Ends _
                    (unlock_node-Frees optimistic optimistic-LatchLaws t'' t''.latches q at' held')
                    (λ _ m₂ free₂. ends (
                      unlocked-GoesOn optimistic optimistic-LatchLaws roomy t key value
                          (s.level t.root) low_tree (suc level) q r t'' m₂ goes_on,
                      free₂,
                    )))))))

  -- In a well-formed tree with no node locked, in which every node but the root is a child of its
  -- parent, an `InsertTask` of the optimistic build for a key below 2^64 - 1 ends within
  -- (level of the root + 1) * (key + 3) executions of one round each, if the root's level is below
  -- 2^16 - 2. It ends in a well-formed tree with no node locked and `_lock` released, in which every
  -- node but the root is again a child of its parent. The tree then contains the entry, if it lacked
  -- the key, and otherwise what it contained before, in either case.
  pub optimistic-insert_task-Finishes :
      Ends
        (Finishes optimistic optimistic-LatchLaws {l = l} roomy t key value
          (s.level t.root)
          low_tree)
        (insert_task l fuel (suc rounds) key value t)
  unfolding insert_task
  optimistic-insert_task-Finishes =
      insertion-Finishes optimistic optimistic-LatchLaws roomy tree free parents low_tree key value
        small fuel enough (insert_execute l (suc rounds) key value) insert-IsVisit at_leaf-GoesOn
        next_level
