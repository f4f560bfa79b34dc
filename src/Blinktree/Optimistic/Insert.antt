-- ===== src/Blinktree/Optimistic/Insert.antt =====
-- `ThreadTree::insert` of src/indices/blinktree/thread/optimistic/thread_tree.cpp.
use btree_benchmarks.Prelude.{ℕ, suc, ◌≤◌, ◌<◌, ◌≡◌, refl, true, false, some, [], arith}
use btree_benchmarks.Blinktree.Node.{Ptr, Key, Value, max_key, Layout}
use btree_benchmarks.Blinktree.NodePath.{NodePath}
use btree_benchmarks.Blinktree.Tree.{Tree, IsAllocated}
use btree_benchmarks.Blinktree.Tree.Shape.{Shape, IsRoomy, IsTree}
use btree_benchmarks.Blinktree.Latched.Running.{Ends}
use btree_benchmarks.Blinktree.Latched.Commands.{latches-Ends, lock_node_shared-Holds}
use btree_benchmarks.Blinktree.Latched.Path.{StartsBefore, IsPath, IsPath-raise, at_root}
use btree_benchmarks.Blinktree.Latched.Insert.{
  Inserts, InsertsBelow, insert_at, insert_root-Inserts, IsPath-of,
}
use btree_benchmarks.Blinktree.Optimistic.{
  insert_into_leaf, propagate, insert_loop, insert_below, insert,
}
use btree_benchmarks.Blinktree.Optimistic.Latch.{optimistic, optimistic-LatchLaws}
use btree_benchmarks.Blinktree.Optimistic.Reads.{Reads-Ends, IsUnlocked, version_lem, valid_lem}
use btree_benchmarks.Blinktree.Optimistic.Descent.{locate_leaf-Stands}
use btree_benchmarks.Blinktree.Optimistic.Leaf.{walk_leaf-from}

module _ {l : Layout} {s : Shape} {t : Tree ℕ} (roomy : IsRoomy l) (tree : IsTree l s t)
    (free : IsUnlocked t) (key : Key) (value : Value) (small : key < max_key)
    (rounds fuel steps : ℕ) (enough : s.level t.root < fuel) (far : max_key ≤ steps)
    (low_tree : s.level t.root ≤ 10) where
  abbrev Result : Ptr × Key → Tree ℕ → Type 0
  Result up t' =
      (s' : Shape) × InsertsBelow optimistic optimistic-LatchLaws roomy tree free key value small
        fuel steps enough far low_tree up t' s'

  insert_loop-Ends :
      (p : Ptr) (path : NodePath)
      → StartsBefore s t.next 0 key p
      → IsPath s t.next t.root 0 (s.low p) path
      → Ends Result (insert_loop l (suc rounds) (suc steps) p path key value t)
  unfolding insert_loop insert_into_leaf propagate
  insert_loop-Ends p path starts is_path =
      let at : IsAllocated t p = (starts.not_null, starts.below_next) in
      rw (version_lem t p at free) (
        rw (valid_lem t p at) (
          Reads-Ends _
            (walk_leaf-from tree free key small steps p (omega (arith, far, small)) starts)
            (λ w walked.
              let covers = walked.0 in
              latches-Ends _
                (lock_node_shared-Holds optimistic optimistic-LatchLaws t t.latches w.0
                  (covers.starts.not_null, covers.starts.below_next) free)
                (λ _ m held.
                  insert_at optimistic optimistic-LatchLaws roomy tree free key value small fuel
                    steps enough far low_tree w.0 path m covers
                    (IsPath-raise (s.low p) (s.low w.0) walked.1 is_path) held))))

  -- In a well-formed tree of at most 11 levels with no node locked, `insert` of the optimistic tree,
  -- of a key below 2^64 - 1, returns, with fuel above the root's level and 2^64 steps for
  -- each walk; it ends in a well-formed tree with no node locked and `_lock` released. The
  -- tree then contains the entry, if it lacked the key, and otherwise what it contained
  -- before, in either case.
  pub optimistic-insert-Inserts :
      Ends
        (λ _ u.
          (u.locked ≡ false)
          × ((s' : Shape) × Inserts optimistic optimistic-LatchLaws l t key value u.tree s'))
        (insert l (suc rounds) fuel (suc steps) key value (record { tree = t; locked = false }))
  unfolding insert insert_below
  optimistic-insert-Inserts =
      insert_root-Inserts optimistic optimistic-LatchLaws roomy tree free key value small fuel steps
        enough far low_tree
        (Reads-Ends _
          (locate_leaf-Stands tree free key true fuel (some []) enough low_tree (at_root refl))
          (λ r located. insert_loop-Ends r.0 _ located.0 (IsPath-of 0 (s.low r.0) r.1 located.1)))
