-- ===== src/Blinktree/OptimisticTasks/Lookup.antt =====
-- `LookupTask` of src/indices/blinktree/tbb/lookup_task.cpp in the optimistic build.
use btree_benchmarks.Prelude.{
  ℕ, suc, ◌+◌, ◌*◌, ◌≤◌, ◌<◌, ◌≡◌, refl, true, false, arith, ◌==◌, ==_iff, leb, if◌then◌else◌,
}
use btree_benchmarks.Blinktree.Node.{Ptr, null, Key, Value, max_key, Layout, leaf_key, child, index}
use btree_benchmarks.Blinktree.Tree.{Tree, IsAllocated}
use btree_benchmarks.Blinktree.Tree.Shape.{Shape, IsTree}
use btree_benchmarks.Blinktree.Tree.Contents.{Contains}
use btree_benchmarks.Blinktree.Latched.Running.{done, Ends, ends}
use btree_benchmarks.Blinktree.Latched.Commands.{latches_only}
use btree_benchmarks.Blinktree.Latched.Find.{Covers-holds, Covers-index, Covers-read}
use btree_benchmarks.Blinktree.Optimistic.Latch.{optimistic, optimistic-LatchLaws}
use btree_benchmarks.Blinktree.Optimistic.Reads.{IsUnlocked}
use btree_benchmarks.Blinktree.Tasks.Run.{IsVisit, stop_here, task-Ends}
use btree_benchmarks.Blinktree.OptimisticTasks.{read_value, lookup_execute, lookup_task}
use btree_benchmarks.Blinktree.OptimisticTasks.Visits.{version-then, node-then, valid-then}

module _ (l : Layout) (t : Tree ℕ) (p : Ptr) (at : IsAllocated t p) (free : IsUnlocked t)
    (rounds : ℕ) (key : Key) (value : Value) where
  lookup-right :
      leb (t.nodes p).high_key key ≡ true
      → lookup_execute l (suc rounds) key p value t ≡ done ((t.nodes p).right_sibling, value) t
  unfolding lookup_execute
  lookup-right past =
      version-then t p at _ free (node-then t p at _ (rw past (valid-then t p at _ refl)))

  lookup-down :
      leb (t.nodes p).high_key key ≡ false
      → (t.nodes p).is_leaf ≡ false
      → lookup_execute l (suc rounds) key p value t ≡ done (child (t.nodes p) key, value) t
  unfolding lookup_execute
  lookup-down here inner =
      version-then t p at _ free
        (node-then t p at _ (simp (here, inner) (valid-then t p at _ refl)))

  lookup-leaf :
      leb (t.nodes p).high_key key ≡ false
      → (t.nodes p).is_leaf ≡ true
      → lookup_execute l (suc rounds) key p value t
        ≡ done
            (
              null,
              if leaf_key l (t.nodes p) (index (t.nodes p) key) == key
                  then (t.nodes p).values (index (t.nodes p) key)
                  else value,
            )
            t
  unfolding lookup_execute read_value
  lookup-leaf here leaf =
      version-then t p at _ free
        (node-then t p at _ (simp (here, leaf) (node-then t p at _ (valid-then t p at _ refl))))

module _ {l : Layout} {s : Shape} {t : Tree ℕ} (tree : IsTree l s t) (free : IsUnlocked t)
    (key : Key) (small : key < max_key) (fuel rounds : ℕ)
    (enough : (s.level t.root + 1) * (key + 2) ≤ fuel) where
  lookup-IsVisit :
      IsVisit optimistic optimistic-LatchLaws tree key small (lookup_execute l (suc rounds) key) 0
  lookup-IsVisit = record {
    goes_right = λ p m at free_m past.
        rw (lookup-right l (record t { latches = m }) p at free_m rounds key 0 past)
          (latches_only (refl, refl, free_m));
    goes_down = λ p m at free_m here inner.
        rw (lookup-down l (record t { latches = m }) p at free_m rounds key 0 here inner)
          (latches_only (refl, refl, free_m));
  }

  -- In a well-formed tree with no node locked, a `LookupTask` of the optimistic build, for a key below
  -- 2^64 - 1 that the tree contains, ends with its value and changes no node, within
  -- (level of the root + 1) * (key + 2) executions of one round each.
  pub optimistic_lookup_task-present :
      (v : Value)
      → Contains t key v
      → Ends
          (λ value t'. (value ≡ v) × (t'.nodes ≡ t.nodes) × IsUnlocked t')
          (lookup_task l fuel (suc rounds) key t)
  unfolding lookup_task
  optimistic_lookup_task-present v present =
      task-Ends optimistic optimistic-LatchLaws tree key small (lookup_execute l (suc rounds) key) 0
        lookup-IsVisit (λ value t'. (value ≡ v) × (t'.nodes ≡ t.nodes) × IsUnlocked t') 0
        (λ left q m _ covers free_m here leaf.
          let at : IsAllocated t q = (covers.starts.not_null, covers.starts.below_next) in
          let (inside, is_key, e) =
            Covers-index tree key covers v (Covers-holds tree key covers v present) in
          stop_here optimistic optimistic-LatchLaws tree key small
            (lookup_execute l (suc rounds) key)
            (λ value t'. (value ≡ v) × (t'.nodes ≡ t.nodes) × IsUnlocked t') 0 left q
            (record t { latches = m })
            (rw (lookup-leaf l (record t { latches = m }) q at free_m rounds key 0 here leaf) (
              ends (
                refl,
                (
                  rw
                      (
                        Covers-read tree key covers v (Covers-holds tree key covers v present),
                        (==_iff key key).1 refl,
                      )
                      e,
                  refl,
                  free_m,
                ),
              ))))
        fuel (omega (arith, enough)) free
