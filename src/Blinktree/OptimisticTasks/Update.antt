-- ===== src/Blinktree/OptimisticTasks/Update.antt =====
-- `UpdateTask` of src/indices/blinktree/tbb/update_task.cpp in the optimistic build.
use btree_benchmarks.Prelude.{
  ℕ, suc, ◌+◌, ◌*◌, ◌≤◌, ◌<◌, ◌≡◌, ◌↔◌, refl, true, false, arith, ==_iff, leb,
}
use btree_benchmarks.Blinktree.Node.{Ptr, null, Key, Value, max_key, Layout, index}
use btree_benchmarks.Blinktree.Tree.{Tree, IsAllocated, set_node}
use btree_benchmarks.Blinktree.Tree.Shape.{Shape, IsTree}
use btree_benchmarks.Blinktree.Tree.Contents.{Contains}
use btree_benchmarks.Blinktree.Latched.Running.{Ends, ends}
use btree_benchmarks.Blinktree.Latched.Commands.{
  latches_only, latches-Ends, IsTree-latches, AllFree, read-Ends, write-Ends,
  lock_node_shared-Holds, unlock_node-Frees,
}
use btree_benchmarks.Blinktree.Latched.Path.{Covers}
use btree_benchmarks.Blinktree.Latched.Find.{Covers-holds, Covers-index, Covers-read}
use btree_benchmarks.Blinktree.Latched.Update.{
  with_value, Replaced, position, written, written-IsTree, written-Contains,
}
use btree_benchmarks.Blinktree.Optimistic.Latch.{optimistic, optimistic-LatchLaws}
use btree_benchmarks.Blinktree.Optimistic.Reads.{IsUnlocked}
use btree_benchmarks.Blinktree.Tasks.Run.{IsVisit, stop_here, task-Ends}
use btree_benchmarks.Blinktree.OptimisticTasks.{write_value, update_execute, update_task}
use btree_benchmarks.Blinktree.OptimisticTasks.Visits.{visit-right, visit-down, visit-stop}

module _ {l : Layout} {s : Shape} {t : Tree ℕ} (tree : IsTree l s t) (free : IsUnlocked t)
    (key : Key) (new_value : Value) (small : key < max_key) (fuel rounds : ℕ)
    (enough : (s.level t.root + 1) * (key + 2) ≤ fuel) where
  update-IsVisit :
      IsVisit optimistic optimistic-LatchLaws tree key small
        (update_execute l (suc rounds) key new_value)
        tt
  unfolding update_execute
  update-IsVisit = record {
    goes_right = λ p m at free_m past.
        rw (visit-right (record t { latches = m }) p at free_m rounds key true past)
          (latches_only (refl, refl, free_m));
    goes_down = λ p m at free_m here inner.
        rw (visit-down (record t { latches = m }) p at free_m rounds key true here inner refl)
          (latches_only (refl, refl, free_m));
  }

  -- What the task ends with: a well-formed tree with no node locked, and the new value.
  pub record Updated (state : Unit {0}) (t' : Tree ℕ) : Type 0 where
    pub tree_after : IsTree l s t'
    pub unlocked : IsUnlocked t'
    pub contents : (k : Key) (w : Value) → Contains t' k w ↔ Replaced key new_value (Contains t) k w

  at_leaf :
      (v : Value)
      → Contains t key v
      → (q : Ptr) (m : Ptr → ℕ) → Covers s t.next 0 key q
      → AllFree optimistic optimistic-LatchLaws t.next m
      → leb (t.nodes q).high_key key ≡ false
      → (t.nodes q).is_leaf ≡ true
      → Ends
          (λ r t'. (r.0 ≡ null) × Updated r.1 t')
          (update_execute l (suc rounds) key new_value q tt (record t { latches = m }))
  unfolding update_execute write_value written position
  at_leaf v present q m covers free_m here leaf =
      let at : IsAllocated t q = (covers.starts.not_null, covers.starts.below_next) in
      let (inside, is_key, e) =
        Covers-index tree key covers v (Covers-holds tree key covers v present) in
      rw (visit-stop (record t { latches = m }) q at free_m rounds key true here (simp leaf refl)) (
        latches-Ends _ (lock_node_shared-Holds optimistic optimistic-LatchLaws t m q at free_m)
          (λ _ m₁ held. read-Ends optimistic optimistic-LatchLaws t m₁ q at _ (
            rw
              (
                Covers-read tree key covers v (Covers-holds tree key covers v present),
                (==_iff key key).1 refl,
              )
              (write-Ends optimistic optimistic-LatchLaws t m₁ q at _ _ (
                latches-Ends _
                  (unlock_node-Frees optimistic optimistic-LatchLaws
                    (set_node t q (with_value (t.nodes q) (index (t.nodes q) key) new_value)) m₁ q
                    at held)
                  (λ _ m₂ free₂. ends (
                    refl,
                    record {
                      tree_after =
                          IsTree-latches m₂
                            (written-IsTree tree key new_value covers inside is_key);
                      unlocked = free₂;
                      contents = written-Contains tree key new_value covers inside is_key;
                    },
                  )))))))

  -- In a well-formed tree with no node locked, an `UpdateTask` of the optimistic build, for a key
  -- below 2^64 - 1 that the tree contains, ends, within (level of the root + 1) * (key + 2)
  -- executions of one round each, in a well-formed tree with no node locked that contains the new value
  -- under the key and every other entry as before.
  pub optimistic_update_task-present :
      (v : Value)
      → Contains t key v
      → Ends Updated (update_task l fuel (suc rounds) key new_value t)
  unfolding update_task
  optimistic_update_task-present v present =
      task-Ends optimistic optimistic-LatchLaws tree key small
        (update_execute l (suc rounds) key new_value) tt update-IsVisit Updated 0
        (λ left q m _ covers free_m here leaf.
          stop_here optimistic optimistic-LatchLaws tree key small
            (update_execute l (suc rounds) key new_value) Updated tt left q
            (record t { latches = m }) (at_leaf v present q m covers free_m here leaf))
        fuel (omega (arith, enough)) free
