-- ===== src/Blinktree/Tasks/Lookup.antt =====
-- `LookupTask` of src/indices/blinktree/tbb/lookup_task.cpp.
use btree_benchmarks.Prelude.{
  arith, ℕ, ◌+◌, ◌*◌, ◌≤◌, ◌<◌, ◌≡◌, refl, ◌==◌, ne→==, ==_iff, if◌then◌else◌,
}
use btree_benchmarks.Blinktree.Node.{Ptr, null, Key, Value, max_key, Layout, leaf_key, index}
use btree_benchmarks.Blinktree.Tree.{Tree, IsAllocated}
use btree_benchmarks.Blinktree.Tree.Shape.{Shape, IsTree}
use btree_benchmarks.Blinktree.Tree.Contents.{Contains}
use btree_benchmarks.Blinktree.Latched.{Latch}
use btree_benchmarks.Blinktree.Latched.Running.{Ends}
use btree_benchmarks.Blinktree.Latched.Latches.{LatchLaws}
use btree_benchmarks.Blinktree.Latched.Commands.{
  latches_only, latches-bind, latches-weaken, AllFree, read-latches, lock_node_shared-Holds,
  unlock_node_shared-Frees,
}
use btree_benchmarks.Blinktree.Latched.Path.{Covers}
use btree_benchmarks.Blinktree.Latched.Find.{
  NoStaleKey, Covers-holds, Covers-index, Covers-read, Covers-absent,
}
use btree_benchmarks.Blinktree.Tasks.{lookup_execute, lookup_task}
use btree_benchmarks.Blinktree.Tasks.Run.{IsVisit, stop_here, task-Ends}

module _ (b : Latch) (laws : LatchLaws b) {l : Layout} {s : Shape} {t : Tree b.State}
    (tree : IsTree l s t) (free : AllFree b laws t.next t.latches) (key : Key)
    (small : key < max_key) (fuel : ℕ) (enough : (s.level t.root + 1) * (key + 2) ≤ fuel) where
  open b use {State as L}

  lookup-IsVisit : IsVisit b laws tree key small (lookup_execute b l key) 0
  unfolding lookup_execute
  lookup-IsVisit = record {
    goes_right = λ p m at free_m past.
        latches-bind _ (lock_node_shared-Holds b laws t m p at free_m) (λ _ m₁ held.
          read-latches b laws t m₁ p at _ (
            rw past (
              latches-bind _ (unlock_node_shared-Frees b laws t m₁ p at held)
                (λ _ m₂ free₂. latches_only (refl, refl, free₂)))));
    goes_down = λ p m at free_m here inner.
        latches-bind _ (lock_node_shared-Holds b laws t m p at free_m) (λ _ m₁ held.
          read-latches b laws t m₁ p at _ (
            simp (here, inner)
              (latches-bind _ (unlock_node_shared-Frees b laws t m₁ p at held)
                (λ _ m₂ free₂. latches_only (refl, refl, free₂)))));
  }

  -- The task changes no node.
  pub record Reads (P : Value → Type 0) (value : Value) (t' : Tree L) : Type 0 where
    pub result : P value
    pub same_nodes : t'.nodes ≡ t.nodes
    pub all_free : AllFree b laws t.next t'.latches

  lookup-Reads :
      (P : Value → Type 0)
      → ((q : Ptr)
          → Covers s t.next 0 key q
          → P (
              if leaf_key l (t.nodes q) (index (t.nodes q) key) == key
              then (t.nodes q).values (index (t.nodes q) key)
              else 0))
      → Ends (Reads P) (lookup_task b l fuel key t)
  unfolding lookup_task lookup_execute
  lookup-Reads P result =
      task-Ends b laws tree key small (lookup_execute b l key) 0 lookup-IsVisit (Reads P) 0
        (λ left q m _ covers free_m here leaf.
          let at : IsAllocated t q = (covers.starts.not_null, covers.starts.below_next) in
          stop_here b laws tree key small (lookup_execute b l key) (Reads P) 0 left q
            (record t { latches = m })
            (latches-weaken {P = λ r m'. (r.0 ≡ null) × P r.1 × AllFree b laws t.next m'}
              (latches-bind _ (lock_node_shared-Holds b laws t m q at free_m) (λ _ m₁ held.
                read-latches b laws t m₁ q at _ (
                  simp (here, leaf)
                    (latches-bind _ (unlock_node_shared-Frees b laws t m₁ q at held)
                      (λ _ m₂ free₂. latches_only (refl, result q covers, free₂))))))
              (λ r m₂ found.
                (found.0, record { result = found.1; same_nodes = refl; all_free = found.2 }))))
        fuel (omega (arith, enough)) free

  -- In a well-formed tree with all latches free, a `LookupTask` for a key below 2^64 - 1 that the
  -- tree contains ends with its value, changes no node and leaves all latches free, within
  -- (level of the root + 1) * (key + 2) executions.
  pub lookup_task-present :
      (v : Value) → Contains t key v → Ends (Reads (λ w. w ≡ v)) (lookup_task b l fuel key t)
  lookup_task-present v present =
      lookup-Reads (λ w. w ≡ v)
        (λ q covers.
          let (inside, here, e) =
            Covers-index tree key covers v (Covers-holds tree key covers v present) in
          rw
            (
              Covers-read tree key covers v (Covers-holds tree key covers v present),
              (==_iff key key).1 refl,
            )
            e)

  -- In a well-formed tree with all latches free, and within (level of the root + 1) * (key + 2)
  -- executions, the task ends with 0 for a key below 2^64 - 1 that the tree does not
  -- contain, if in no leaf the cell behind the keys, which is the first value if it is full, holds the key.
  pub lookup_task-absent :
      ¬ ((v : Value) × Contains t key v)
      → NoStaleKey l t key
      → Ends (Reads (λ w. w ≡ 0)) (lookup_task b l fuel key t)
  lookup_task-absent absent no_stale =
      lookup-Reads (λ w. w ≡ 0)
        (λ q covers. rw (ne→== _ key (Covers-absent tree key covers absent no_stale)) refl)
