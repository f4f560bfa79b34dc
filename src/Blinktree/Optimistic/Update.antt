-- ===== src/Blinktree/Optimistic/Update.antt =====
-- `ThreadTree::update` of src/indices/blinktree/thread/optimistic/thread_tree.cpp.
use btree_benchmarks.Prelude.{ℕ, suc, ◌≤◌, ◌<◌, ◌↔◌, refl, true, some, [], ne→==, ==_iff}
use btree_benchmarks.Blinktree.Node.{Key, Value, max_key, Layout, index}
use btree_benchmarks.Blinktree.Tree.{Tree, IsAllocated, set_node}
use btree_benchmarks.Blinktree.Tree.Shape.{Shape, IsTree}
use btree_benchmarks.Blinktree.Tree.Contents.{Contains}
use btree_benchmarks.Blinktree.Latched.Running.{Ends}
use btree_benchmarks.Blinktree.Latched.Commands.{
  LatchesOnly, latches-bind, latches-Ends, latches-weaken, IsTree-latches, AllFree, read-latches,
  read-Ends, write-Ends, lock_node_shared-Holds, unlock_node-Frees,
}
use btree_benchmarks.Blinktree.Latched.Path.{at_root}
use btree_benchmarks.Blinktree.Latched.Find.{
  NoStaleKey, Covers-holds, Covers-index, Covers-read, Covers-absent,
}
use btree_benchmarks.Blinktree.Latched.Update.{
  with_value, Replaced, position, written, written-IsTree, written-Contains,
}
use btree_benchmarks.Blinktree.Optimistic.{update_loop, update_value}
use btree_benchmarks.Blinktree.Optimistic.Latch.{optimistic, optimistic-LatchLaws}
use btree_benchmarks.Blinktree.Optimistic.Reads.{
  Reads-Ends, Reads-latches, IsUnlocked, version_lem, valid_lem,
}
use btree_benchmarks.Blinktree.Optimistic.Descent.{locate_leaf-Stands}
use btree_benchmarks.Blinktree.Optimistic.Leaf.{walk_leaf-from}

module _ {l : Layout} {s : Shape} {t : Tree ℕ} (tree : IsTree l s t) (free : IsUnlocked t)
    (key : Key) (value : Value) (small : key < max_key) (rounds fuel steps : ℕ)
    (enough : s.level t.root < fuel) (far : key ≤ steps) (low_tree : s.level t.root ≤ 10) where
  -- In a well-formed tree of at most 11 levels with no node locked, `update` of the optimistic tree,
  -- of a key below 2^64 - 1 that the tree contains, returns in the first round, with fuel above
  -- the root's level and more steps than the key, in a well-formed tree with no node locked
  -- that contains the new value under the key and every other entry as before.
  pub optimistic_update-present :
      (v : Value)
      → Contains t key v
      → Ends
          (λ _ t'.
            IsTree l s t'
            × IsUnlocked t'
            × ((k : Key) (w : Value) → Contains t' k w ↔ Replaced key value (Contains t) k w))
          (update_value l (suc rounds) fuel (suc steps) key value t)
  unfolding update_value update_loop written position
  optimistic_update-present v present =
      Reads-Ends _
        (locate_leaf-Stands tree free key true fuel (some []) enough low_tree (at_root refl))
        (λ r located.
          let starts = located.0 in
          rw (version_lem t r.0 (starts.not_null, starts.below_next) free) (
            Reads-Ends _ (walk_leaf-from tree free key small steps r.0 far starts) (λ w walked.
              let (covers, above, e) = walked in
              let at : IsAllocated t w.0 = (covers.starts.not_null, covers.starts.below_next) in
              let (inside, here, e') =
                Covers-index tree key covers v (Covers-holds tree key covers v present) in
              rw (e, valid_lem t w.0 at)
                (latches-Ends _
                  (lock_node_shared-Holds optimistic optimistic-LatchLaws t t.latches w.0 at free)
                  (λ _ m₁ held. read-Ends optimistic optimistic-LatchLaws t m₁ w.0 at _ (
                    rw
                      (
                        Covers-read tree key covers v (Covers-holds tree key covers v present),
                        (==_iff key key).1 refl,
                      )
                      (write-Ends optimistic optimistic-LatchLaws t m₁ w.0 at _ _ (
                        latches-weaken
                          (unlock_node-Frees optimistic optimistic-LatchLaws
                            (set_node t w.0
                              (with_value (t.nodes w.0) (index (t.nodes w.0) key) value))
                            m₁ w.0 at held)
                          (λ _ m₂ free₂. (
                            IsTree-latches m₂ (written-IsTree tree key value covers inside here),
                            free₂,
                            written-Contains tree key value covers inside here,
                          ))))))))))

  -- In a well-formed tree of at most 11 levels with no node locked, with fuel above the
  -- root's level and more steps than the key, `update` of a key below 2^64 - 1 that the tree does not contain
  -- returns and changes no node, if in no leaf the cell behind the keys, which is the first value if it is full, holds the key.
  pub optimistic_update-absent :
      ¬ ((v : Value) × Contains t key v)
      → NoStaleKey l t key
      → LatchesOnly t
          (λ _ m. AllFree optimistic optimistic-LatchLaws t.next m)
          (update_value l (suc rounds) fuel (suc steps) key value t)
  unfolding update_value update_loop
  optimistic_update-absent absent no_stale =
      Reads-latches _
        (locate_leaf-Stands tree free key true fuel (some []) enough low_tree (at_root refl))
        (λ r located.
          let starts = located.0 in
          rw (version_lem t r.0 (starts.not_null, starts.below_next) free) (
            Reads-latches _ (walk_leaf-from tree free key small steps r.0 far starts) (λ w walked.
              let (covers, above, e) = walked in
              let at : IsAllocated t w.0 = (covers.starts.not_null, covers.starts.below_next) in
              rw (e, valid_lem t w.0 at)
                (latches-bind _
                  (lock_node_shared-Holds optimistic optimistic-LatchLaws t t.latches w.0 at free)
                  (λ _ m₁ held. read-latches optimistic optimistic-LatchLaws t m₁ w.0 at _ (
                    rw (ne→== _ key (Covers-absent tree key covers absent no_stale))
                      (unlock_node-Frees optimistic optimistic-LatchLaws t m₁ w.0 at held)))))))
