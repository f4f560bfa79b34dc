-- ===== src/Blinktree/OptimisticTasks/Visits.antt =====
-- The rounds of the tasks' loops in the optimistic build (src/indices/blinktree/tbb/update_task.cpp,
-- insert_task.cpp), while no node is locked: the first check succeeds.
use btree_benchmarks.Prelude.{ℕ, suc, ◌≡◌, refl, Bool, true, false, not, ◌&&◌, some, none, leb}
use btree_benchmarks.Blinktree.Node.{Ptr, Key, Node, child}
use btree_benchmarks.Blinktree.Tree.{Tree, IsAllocated}
use btree_benchmarks.Blinktree.Latched.Running.{Outcome, done, and_then}
use btree_benchmarks.Blinktree.Optimistic.Reads.{IsUnlocked, node_lem, version_lem, valid_lem}
use btree_benchmarks.Blinktree.OptimisticTasks.{visit_loop}
use btree_benchmarks.Blinktree.Optimistic.{read_version, is_valid_node}
use btree_benchmarks.Blinktree.Optimistic.Latch.{optimistic}
use btree_benchmarks.Blinktree.Latched.{read_node}

module _ (t : Tree ℕ) (p : Ptr) (at : IsAllocated t p) where
  pub version-then :
      {B : Type 0} (k : ℕ → Tree ℕ → Outcome (Tree ℕ) B) {r : Outcome (Tree ℕ) B}
      → IsUnlocked t
      → k (t.latches p) t ≡ r
      → and_then (read_version p t) k ≡ r
  version-then k free e = rw (version_lem t p at free) e

  pub node-then :
      {B : Type 0} (k : Node → Tree ℕ → Outcome (Tree ℕ) B) {r : Outcome (Tree ℕ) B}
      → k (t.nodes p) t ≡ r
      → and_then (read_node optimistic p t) k ≡ r
  node-then k e = rw (node_lem t p at) e

  pub valid-then :
      {B : Type 0} (k : Bool → Tree ℕ → Outcome (Tree ℕ) B) {r : Outcome (Tree ℕ) B}
      → k true t ≡ r
      → and_then (is_valid_node p (t.latches p) t) k ≡ r
  valid-then k e = rw (valid_lem t p at) e

module _ (t : Tree ℕ) (p : Ptr) (at : IsAllocated t p) (free : IsUnlocked t) (rounds : ℕ)
    (key : Key) (down : Bool) where
  pub visit-right :
      leb (t.nodes p).high_key key ≡ true
      → visit_loop (suc rounds) key down p t ≡ done (some (t.nodes p).right_sibling) t
  unfolding visit_loop
  visit-right past =
      version-then t p at _ free (node-then t p at _ (valid-then t p at _ (rw past refl)))

  pub visit-down :
      leb (t.nodes p).high_key key ≡ false
      → (t.nodes p).is_leaf ≡ false
      → down ≡ true
      → visit_loop (suc rounds) key down p t ≡ done (some (child (t.nodes p) key)) t
  unfolding visit_loop
  visit-down here inner goes_down =
      version-then t p at _ free
        (node-then t p at _ (valid-then t p at _ (simp (here, inner, goes_down) refl)))

  pub visit-stop :
      leb (t.nodes p).high_key key ≡ false
      → (down && not (t.nodes p).is_leaf) ≡ false
      → visit_loop (suc rounds) key down p t ≡ done none t
  unfolding visit_loop
  visit-stop here stop =
      version-then t p at _ free (node-then t p at _ (valid-then t p at _ (simp (here, stop) refl)))
