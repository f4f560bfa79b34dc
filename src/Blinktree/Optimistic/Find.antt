-- ===== src/Blinktree/Optimistic/Find.antt =====
-- `ThreadTree::find` of src/indices/blinktree/thread/optimistic/thread_tree.cpp.
use btree_benchmarks.Prelude.{
  ℕ, suc, ◌≤◌, ◌<◌, ◌≡◌, refl, false, none, ◌==◌, ne→==, ==_iff, if◌then◌else◌,
}
use btree_benchmarks.Blinktree.Node.{Ptr, Key, Value, max_key, Layout, leaf_key, index}
use btree_benchmarks.Blinktree.Tree.{Tree, IsAllocated}
use btree_benchmarks.Blinktree.Tree.Shape.{Shape, IsTree}
use btree_benchmarks.Blinktree.Tree.Contents.{Contains}
use btree_benchmarks.Blinktree.Latched.Path.{StartsBefore, Covers}
use btree_benchmarks.Blinktree.Latched.Find.{
  NoStaleKey, Covers-holds, Covers-index, Covers-read, Covers-absent,
}
use btree_benchmarks.Blinktree.Optimistic.{find_loop, find}
use btree_benchmarks.Blinktree.Optimistic.Reads.{
  Reads, reads, Reads-bind, IsUnlocked, node_lem, version_lem, valid_lem,
}
use btree_benchmarks.Blinktree.Optimistic.Descent.{locate_leaf-Stands}
use btree_benchmarks.Blinktree.Optimistic.Leaf.{walk_leaf-from}

module _ {l : Layout} {s : Shape} {t : Tree ℕ} (tree : IsTree l s t) (free : IsUnlocked t)
    (key : Key) (small : key < max_key) (rounds fuel steps : ℕ) (enough : s.level t.root < fuel)
    (far : key ≤ steps) (low_tree : s.level t.root ≤ 10) where
  find_loop-Reads :
      (P : Value → Type 0) (p : Ptr)
      → StartsBefore s t.next 0 key p
      → ((q : Ptr)
          → Covers s t.next 0 key q
          → P (
              if leaf_key l (t.nodes q) (index (t.nodes q) key) == key
              then (t.nodes q).values (index (t.nodes q) key)
              else 0))
      → Reads t P (find_loop l (suc rounds) (suc steps) p key t)
  unfolding find_loop
  find_loop-Reads P p at result = rw (version_lem t p (at.not_null, at.below_next) free) (
      Reads-bind _ (walk_leaf-from tree free key small steps p far at) (λ r walked.
        let (covers, above, e) = walked in
        let at_q : IsAllocated t r.0 = (covers.starts.not_null, covers.starts.below_next) in
        rw (node_lem t r.0 at_q) (rw (e, valid_lem t r.0 at_q) (reads (result r.0 covers)))))

  find-Reads :
      (P : Value → Type 0)
      → ((q : Ptr)
          → Covers s t.next 0 key q
          → P (
              if leaf_key l (t.nodes q) (index (t.nodes q) key) == key
              then (t.nodes q).values (index (t.nodes q) key)
              else 0))
      → Reads t P (find l (suc rounds) fuel (suc steps) key t)
  unfolding find
  find-Reads P result =
      Reads-bind _ (locate_leaf-Stands tree free key false fuel none enough low_tree refl)
        (λ r located. find_loop-Reads P r.0 located.0 result)

  -- In a well-formed tree of at most 11 levels with no node locked, `find` of the optimistic tree,
  -- of a key below 2^64 - 1 that the tree contains, returns its value in the first round and
  -- changes nothing, with fuel above the root's level and more steps than the key.
  pub optimistic_find-present :
      (v : Value)
      → Contains t key v
      → Reads t (λ w. w ≡ v) (find l (suc rounds) fuel (suc steps) key t)
  optimistic_find-present v present =
      find-Reads (λ w. w ≡ v)
        (λ q covers.
          let (inside, here, e) =
            Covers-index tree key covers v (Covers-holds tree key covers v present) in
          rw
            (
              Covers-read tree key covers v (Covers-holds tree key covers v present),
              (==_iff key key).1 refl,
            )
            e)

  -- In a well-formed tree of at most 11 levels with no node locked, with fuel above the
  -- root's level and more steps than the key, `find` returns 0 for a key below 2^64 - 1 that the tree does not
  -- contain, if in no leaf the cell behind the keys, which is the first value if it is full, holds the key.
  pub optimistic_find-absent :
      ¬ ((v : Value) × Contains t key v)
      → NoStaleKey l t key
      → Reads t (λ w. w ≡ 0) (find l (suc rounds) fuel (suc steps) key t)
  optimistic_find-absent absent no_stale =
      find-Reads (λ w. w ≡ 0)
        (λ q covers. rw (ne→== _ key (Covers-absent tree key covers absent no_stale)) refl)
