-- ===== src/Blinktree/Tasks/Update.antt =====
-- `UpdateTask` of src/indices/blinktree/tbb/update_task.cpp.
use btree_benchmarks.Prelude.{arith, ℕ, ◌+◌, ◌*◌, ◌≤◌, ◌<◌, ◌≡◌, ◌↔◌, refl, ne→==, ==_iff}
use btree_benchmarks.Blinktree.Node.{Ptr, null, Key, Value, max_key, Layout, index}
use btree_benchmarks.Blinktree.Tree.{Tree, IsAllocated, set_node}
use btree_benchmarks.Blinktree.Tree.Shape.{Shape, IsTree}
use btree_benchmarks.Blinktree.Tree.Contents.{Contains}
use btree_benchmarks.Blinktree.Latched.{Latch}
use btree_benchmarks.Blinktree.Latched.Running.{Ends, ends}
use btree_benchmarks.Blinktree.Latched.Latches.{LatchLaws}
use btree_benchmarks.Blinktree.Latched.Commands.{
  latches_only, latches-bind, latches-Ends, IsTree-latches, IsHeld, AllFree, read-latches,
  read-Ends, write-Ends, lock_node_shared-Holds, unlock_node_shared-Frees, upgrade_lock-Holds,
  unlock_node-Frees,
}
use btree_benchmarks.Blinktree.Latched.Path.{Covers}
use btree_benchmarks.Blinktree.Latched.Find.{
  NoStaleKey, Covers-holds, Covers-index, Covers-read, Covers-absent,
}
use btree_benchmarks.Blinktree.Latched.Update.{
  with_value, Replaced, position, written, written-IsTree, written-Contains,
}
use btree_benchmarks.Blinktree.Tasks.{write_value, update_execute, update_task}
use btree_benchmarks.Blinktree.Tasks.Run.{IsVisit, stop_here, task-Ends}

module _ (b : Latch) (laws : LatchLaws b) {l : Layout} {s : Shape} {t : Tree b.State}
    (tree : IsTree l s t) (free : AllFree b laws t.next t.latches) (key : Key) (new_value : Value)
    (small : key < max_key) (fuel : ℕ) (enough : (s.level t.root + 1) * (key + 2) ≤ fuel) where
  open b use {State as L}

  update-IsVisit : IsVisit b laws tree key small (update_execute b l key new_value) tt
  unfolding update_execute
  update-IsVisit = record {
    goes_right = λ p m at free_m past.
        latches-bind _ (lock_node_shared-Holds b laws t m p at free_m) (λ _ m₁ held.
          read-latches b laws t m₁ p at _ (
            simp past (
              latches-bind _ (unlock_node_shared-Frees b laws t m₁ p at held)
                (λ _ m₂ free₂. latches_only (refl, refl, free₂)))));
    goes_down = λ p m at free_m here inner.
        latches-bind _ (lock_node_shared-Holds b laws t m p at free_m) (λ _ m₁ held.
          read-latches b laws t m₁ p at _ (
            simp (here, inner)
              (latches-bind _ (unlock_node_shared-Frees b laws t m₁ p at held)
                (λ _ m₂ free₂. latches_only (refl, refl, free₂)))));
  }

  -- What the task ends with: a well-formed tree with all latches free, and these entries.
  pub record Writes (entries : Key → Value → Type 0) (state : Unit {0}) (t' : Tree L) : Type 0 where
    pub tree_after : IsTree l s t'
    pub all_free : AllFree b laws t'.next t'.latches
    pub contents : (k : Key) (w : Value) → Contains t' k w ↔ entries k w

  -- At the leaf of a key that the tree contains.
  write_value-present :
      (v : Value) (q : Ptr) (m : Ptr → L)
      → Contains t key v
      → Covers s t.next 0 key q
      → IsHeld b laws laws.IsShared q t.next m
      → Ends
          (λ r t'. (r.0 ≡ null) × Writes (Replaced key new_value (Contains t)) r.1 t')
          (write_value b l key new_value q (t.nodes q) (record t { latches = m }))
  unfolding write_value written position
  write_value-present v q m present covers held =
      let at : IsAllocated t q = (covers.starts.not_null, covers.starts.below_next) in
      let (inside, is_key, e) =
        Covers-index tree key covers v (Covers-holds tree key covers v present) in
      latches-Ends _ (upgrade_lock-Holds b laws t m q at held) (λ _ m₂ held₂.
        rw
          (
            Covers-read tree key covers v (Covers-holds tree key covers v present),
            (==_iff key key).1 refl,
          )
          (write-Ends b laws t m₂ q at _ _ (
            latches-Ends _
              (unlock_node-Frees b laws
                (set_node t q (with_value (t.nodes q) (index (t.nodes q) key) new_value)) m₂ q at
                held₂)
              (λ _ m₃ free₃. ends (
                refl,
                record {
                  tree_after =
                      IsTree-latches m₃ (written-IsTree tree key new_value covers inside is_key);
                  all_free = free₃;
                  contents = written-Contains tree key new_value covers inside is_key;
                },
              )))))

  -- At the leaf of a key that the tree lacks.
  write_value-absent :
      (q : Ptr) (m : Ptr → L)
      → ¬ ((v : Value) × Contains t key v)
      → NoStaleKey l t key
      → Covers s t.next 0 key q
      → IsHeld b laws laws.IsShared q t.next m
      → Ends
          (λ r t'. (r.0 ≡ null) × Writes (Contains t) r.1 t')
          (write_value b l key new_value q (t.nodes q) (record t { latches = m }))
  unfolding write_value
  write_value-absent q m absent no_stale covers held =
      let at : IsAllocated t q = (covers.starts.not_null, covers.starts.below_next) in
      latches-Ends _ (upgrade_lock-Holds b laws t m q at held) (λ _ m₂ held₂.
        rw (ne→== _ key (Covers-absent tree key covers absent no_stale)) (
          latches-Ends _ (unlock_node-Frees b laws t m₂ q at held₂) (λ _ m₃ free₃. ends (
            refl,
            record {
              tree_after = IsTree-latches m₃ tree;
              all_free = free₃;
              contents = λ k w. (λ h. h, λ h. h);
            },
          ))))

  -- The task, given what it does at the leaf of the key.
  update_task-Ends :
      (entries : Key → Value → Type 0)
      → ((q : Ptr) (m : Ptr → L)
          → Covers s t.next 0 key q
          → IsHeld b laws laws.IsShared q t.next m
          → Ends
              (λ r t'. (r.0 ≡ null) × Writes entries r.1 t')
              (write_value b l key new_value q (t.nodes q) (record t { latches = m })))
      → Ends (Writes entries) (update_task b l fuel key new_value t)
  unfolding update_task update_execute
  update_task-Ends entries at_leaf =
      task-Ends b laws tree key small (update_execute b l key new_value) tt update-IsVisit
        (Writes entries) 0
        (λ left q m _ covers free_m here leaf.
          stop_here b laws tree key small (update_execute b l key new_value) (Writes entries) tt
            left q (record t { latches = m })
            (let at : IsAllocated t q = (covers.starts.not_null, covers.starts.below_next) in
              latches-Ends _ (lock_node_shared-Holds b laws t m q at free_m) (λ _ m₁ held.
                read-Ends b laws t m₁ q at _ (simp (here, leaf) (at_leaf q m₁ covers held)))))
        fuel (omega (arith, enough)) free

  -- In a well-formed tree with all latches free, an `UpdateTask` for a key below 2^64 - 1 that the
  -- tree contains ends, within (level of the root + 1) * (key + 2) executions, in a well-formed
  -- tree with all latches free that contains the new value under the key and every other entry as
  -- before.
  pub update_task-present :
      (v : Value)
      → Contains t key v
      → Ends (Writes (Replaced key new_value (Contains t))) (update_task b l fuel key new_value t)
  update_task-present v present =
      update_task-Ends (Replaced key new_value (Contains t))
        (λ q m covers held. write_value-present v q m present covers held)

  -- In a well-formed tree with all latches free, and within (level of the root + 1) * (key + 2)
  -- executions, an `UpdateTask` for a key below 2^64 - 1 that the tree does not contain
  -- ends in a well-formed tree with the same entries, if in no leaf the cell behind the keys, which
  -- is the first value if it is full, holds the key.
  pub update_task-absent :
      ¬ ((v : Value) × Contains t key v)
      → NoStaleKey l t key
      → Ends (Writes (Contains t)) (update_task b l fuel key new_value t)
  update_task-absent absent no_stale =
      update_task-Ends (Contains t)
        (λ q m covers held. write_value-absent q m absent no_stale covers held)
