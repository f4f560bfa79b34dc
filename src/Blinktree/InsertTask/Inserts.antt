-- ===== src/Blinktree/InsertTask/Inserts.antt =====
-- `InsertTask` of src/indices/blinktree/tbb/insert_task.cpp, from the root to its end.
use btree_benchmarks.Prelude.{ℕ, suc, ◌+◌, ◌*◌, ◌^◌, ◌≤◌, ◌<◌, ◌≡◌, refl, true, false, arith, leb}
use btree_benchmarks.Blinktree.Node.{Ptr, Key, Value, max_key, Layout}
use btree_benchmarks.Blinktree.Tree.{Tree, IsAllocated}
use btree_benchmarks.Blinktree.Tree.Shape.{Shape, IsRoomy, IsTree}
use btree_benchmarks.Blinktree.Latched.{Latch, Command}
use btree_benchmarks.Blinktree.Latched.Running.{Ends, ends, Ends-bind}
use btree_benchmarks.Blinktree.Latched.Latches.{LatchLaws}
use btree_benchmarks.Blinktree.Latched.Commands.{
  latches_only, latches-bind, latches-Ends, AllFree, read-latches, read-Ends,
  lock_node_shared-Holds, unlock_node_shared-Frees, upgrade_lock-Holds, unlock_node-Frees,
}
use btree_benchmarks.Blinktree.Latched.Path.{Covers}
use btree_benchmarks.Blinktree.Tasks.{task_loop}
use btree_benchmarks.Blinktree.Tasks.Run.{IsVisit, task-Ends}
use btree_benchmarks.Blinktree.InsertTask.{
  InsertState, new_insert_state, insert_at_node, insert_execute, insert_task,
}
use btree_benchmarks.Blinktree.InsertTask.Splits.{AllHaveParents, Climbs, GoesOn}
use btree_benchmarks.Blinktree.InsertTask.AtLeaf.{insert_into_leaf_node-Steps}
use btree_benchmarks.Blinktree.InsertTask.Climb.{
  Finishes, step-Finishes, unlocked-GoesOn, climb-Finishes, execute-GoesOn,
}

module _ (b : Latch) (laws : LatchLaws b) {l : Layout} {s : Shape} {t : Tree b.State}
    (roomy : IsRoomy l) (tree : IsTree l s t) (free : AllFree b laws t.next t.latches)
    (parents : AllHaveParents t) (low_tree : s.level t.root + 2 < 2 ^ 16) (key : Key)
    (value : Value) (small : key < max_key) (fuel : ℕ)
    (enough : (s.level t.root + 1) * (key + 3) ≤ fuel) where
  open b use {State as L}

  module _ (execute : Ptr → InsertState → Command b (Ptr × InsertState))
      (visit : IsVisit b laws tree key small execute new_insert_state)
      (at_leaf : (q : Ptr) (m : Ptr → L)
        → Covers s t.next 0 key q
        → AllFree b laws t.next m
        → leb (t.nodes q).high_key key ≡ false
        → (t.nodes q).is_leaf ≡ true
        → Ends
            (λ r t'.
              GoesOn b laws {l = l} roomy t key value (s.level t.root) low_tree 0 r t'
              × AllFree b laws t'.next t'.latches)
            (execute q new_insert_state (record t { latches = m })))
      (climbs_on : (level : ℕ) (q : Ptr) (s' : Shape) (t' : Tree L) (state : InsertState)
        → Climbs b laws {l = l} roomy t key value (s.level t.root) low_tree s' t' level q state
        → AllFree b laws t'.next t'.latches
        → Ends
            (λ r t''.
              GoesOn b laws {l = l} roomy t key value (s.level t.root) low_tree (suc level) r t''
              × AllFree b laws t''.next t''.latches)
            (execute q state t')) where
    -- The executions of a task that goes down, inserts, and goes up.
    pub insertion-Finishes :
        Ends
          (Finishes b laws {l = l} roomy t key value (s.level t.root) low_tree)
          (task_loop b fuel execute t.root new_insert_state t)
    insertion-Finishes =
        task-Ends b laws tree key small execute new_insert_state visit
          (Finishes b laws {l = l} roomy t key value (s.level t.root) low_tree) (s.level t.root)
          (λ left q m some_left covers free_m here leaf.
            step-Finishes b laws roomy t key value (s.level t.root) low_tree execute left 0 q
              new_insert_state (record t { latches = m }) (at_leaf q m covers free_m here leaf)
              (λ s' p state' t' climbs free'.
                climb-Finishes b laws roomy t key value (s.level t.root) low_tree execute climbs_on
                  left 0 p s' t' state' (omega (arith, some_left)) climbs free'))
          fuel (grind (arith, enough)) free

  insert-IsVisit :
      IsVisit b laws tree key small {S = InsertState}
        (insert_execute b l key value)
        new_insert_state
  unfolding insert_execute
  insert-IsVisit = record {
    goes_right = λ p m at free_m past.
        latches-bind _ (lock_node_shared-Holds b laws t m p at free_m) (λ _ m₁ held.
          read-latches b laws t m₁ p at _ (
            rw past (
              latches-bind _ (unlock_node_shared-Frees b laws t m₁ p at held)
                (λ _ m₂ free₂. latches_only (refl, refl, free₂)))));
    goes_down = λ p m at free_m here inner.
        latches-bind _ (lock_node_shared-Holds b laws t m p at free_m) (λ _ m₁ held.
          read-latches b laws t m₁ p at _ (
            simp (here, inner)
              (latches-bind _ (unlock_node_shared-Frees b laws t m₁ p at held)
                (λ _ m₂ free₂. latches_only (refl, refl, free₂)))));
  }

  at_leaf-GoesOn :
      (q : Ptr) (m : Ptr → L)
      → Covers s t.next 0 key q
      → AllFree b laws t.next m
      → leb (t.nodes q).high_key key ≡ false
      → (t.nodes q).is_leaf ≡ true
      → Ends
          (λ r t'.
            GoesOn b laws {l = l} roomy t key value (s.level t.root) low_tree 0 r t'
            × AllFree b laws t'.next t'.latches)
          (insert_execute b l key value q (new_insert_state) (record t { latches = m }))
  unfolding insert_execute insert_at_node
  at_leaf-GoesOn q m covers free_m here leaf =
      let at : IsAllocated t q = (covers.starts.not_null, covers.starts.below_next) in
      latches-Ends _ (lock_node_shared-Holds b laws t m q at free_m) (λ _ m₁ held₁.
        read-Ends b laws t m₁ q at _ (
          simp (here, leaf)
            (latches-Ends _ (upgrade_lock-Holds b laws t m₁ q at held₁) (λ _ m₂ held₂.
              Ends-bind
                (insert_into_leaf_node-Steps b laws roomy t tree key value small low_tree parents q
                  m₂ new_insert_state refl covers held₂)
                (λ r t' (goes_on, at', held').
                  latches-Ends _ (unlock_node-Frees b laws t' t'.latches q at' held') (λ _ m₃ free₃.
                    ends (
                      unlocked-GoesOn b laws roomy t key value (s.level t.root) low_tree 0 q r t' m₃
                          goes_on,
                      free₃,
                    )))))))

  -- In a well-formed tree with all latches free, in which every node but the root is a child of its
  -- parent, an `InsertTask` for a key below 2^64 - 1 ends within (level of the root + 1) * (key + 3)
  -- executions, if the root's level is below 2^16 - 2. It ends in a well-formed tree with all latches
  -- free and `_lock` released, in which every node but the root is again a child of its parent. The tree
  -- then contains the entry, if it lacked the key, and otherwise what it contained before, in either case.
  pub insert_task-Finishes :
      Ends
        (Finishes b laws {l = l} roomy t key value (s.level t.root) low_tree)
        (insert_task b l fuel key value t)
  unfolding insert_task
  insert_task-Finishes =
      insertion-Finishes (insert_execute b l key value) insert-IsVisit at_leaf-GoesOn
        (execute-GoesOn b laws roomy t key value (s.level t.root) low_tree)
