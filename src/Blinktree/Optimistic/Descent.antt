-- ===== src/Blinktree/Optimistic/Descent.antt =====
-- `ThreadTree::locate_leaf` of src/indices/blinktree/thread/optimistic/thread_tree.cpp.
use btree_benchmarks.Prelude.{
  ℕ, zero, suc, ◌≤◌, ◌<◌, ◌≡◌, ◌≢◌, refl, Bool, true, false, Option, none, some, arith, lt→ltb,
  ne→==, length, ap,
}
use btree_benchmarks.Blinktree.Node.{Ptr, Key, Layout, child}
use btree_benchmarks.Blinktree.NodePath.{NodePath}
use btree_benchmarks.Blinktree.Tree.{Tree, IsAllocated}
use btree_benchmarks.Blinktree.Tree.Shape.{Shape, IsTree}
use btree_benchmarks.Blinktree.Latched.{push_node}
use btree_benchmarks.Blinktree.Latched.Path.{
  StartsBefore, below, IsPath-length, IsOptionalPath, raise_optional, child-StartsBefore,
}
use btree_benchmarks.Blinktree.Optimistic.{descend_step, descend, locate_leaf}
use btree_benchmarks.Blinktree.Optimistic.Latch.{optimistic}
use btree_benchmarks.Blinktree.Optimistic.Reads.{
  Reads, reads, Reads-bind, IsUnlocked, node_lem, version_lem, valid_lem,
}

module _ {l : Layout} {s : Shape} {t : Tree ℕ} (tree : IsTree l s t) (free : IsUnlocked t)
    (key : Key) (wanted : Bool) where
  -- A child is no right sibling of its parent, since it is one level below.
  child-not-sibling :
      (level : ℕ) (q : Ptr)
      → StartsBefore s t.next (suc level) key q
      → child (t.nodes q) key ≢ (t.nodes q).right_sibling
  child-not-sibling level q at e =
      let (at_c, above) = child-StartsBefore tree key level q at in
      let linked =
        (tree.nodes_fit q (at.not_null, at.below_next)).linked
          (λ z. omega (arith, at_c.not_null, e, z)) in
      omega (arith, linked.at_level, at.at_level, at_c.at_level, ap s.level e)

  push-IsPath :
      (level : ℕ) (q : Ptr) (path : Option NodePath)
      → s.level t.root ≤ 10
      → StartsBefore s t.next (suc level) (s.low q) q
      → IsOptionalPath wanted s t.next t.root (suc level) (s.low q) path
      → Reads t
          (λ path'. IsOptionalPath wanted s t.next t.root level (s.low q) path')
          (push_node optimistic path q t)
  unfolding push_node
  push-IsPath level q none low_tree at is_path = reads is_path
  push-IsPath level q (some path) low_tree at is_path =
      let room = IsPath-length path (suc level) (s.low q) is_path in
      rw (lt→ltb (length path) 10 (omega arith), push_node) (reads (below at is_path))

  -- Where the descent stands with a node and a path.
  Stands : (level : ℕ) → Ptr × Option NodePath → Type 0
  Stands level r =
      StartsBefore s t.next level key r.0
      × IsOptionalPath wanted s t.next t.root level (s.low r.0) r.1

  descend_step-Stands :
      (level : ℕ) (q : Ptr) (path : Option NodePath)
      → s.level t.root ≤ 10
      → Stands (suc level) (q, path)
      → Reads t (Stands level) (descend_step q (t.latches q) key path t)
  unfolding descend_step Stands
  descend_step-Stands level q path low_tree (at, is_path) =
      let allocated : IsAllocated t q = (at.not_null, at.below_next) in
      let (at_c, above) = child-StartsBefore tree key level q at in
      rw (node_lem t q allocated, valid_lem t q allocated, ne→== _ _ (child-not-sibling level q at))
        (Reads-bind _
          (push-IsPath level q path low_tree
            (record {
              not_null = at.not_null;
              below_next = at.below_next;
              at_level = at.at_level;
              begins = omega arith;
            })
            is_path)
          (λ path' is_path'.
            reads
              (at_c, raise_optional s t.next t.root wanted level (s.low q) _ path' above is_path')))

  descend-Stands :
      (fuel level : ℕ) (q : Ptr) (path : Option NodePath)
      → level < fuel
      → s.level t.root ≤ 10
      → Stands level (q, path)
      → Reads t (Stands 0) (descend fuel q (t.latches q) key path t)
  unfolding descend Stands
  descend-Stands zero level q path enough low_tree stands = absurd (omega arith)
  descend-Stands (suc fuel) zero q path enough low_tree stands =
      let allocated : IsAllocated t q = (stands.0.not_null, stands.0.below_next) in
      let leaf : (t.nodes q).is_leaf ≡ true =
        ground (arith, (tree.nodes_fit q allocated).kind, stands.0.at_level) in
      rw (node_lem t q allocated, leaf) (reads stands)
  descend-Stands (suc fuel) (suc level) q path enough low_tree stands =
      let allocated : IsAllocated t q = (stands.0.not_null, stands.0.below_next) in
      let inner : (t.nodes q).is_leaf ≡ false =
        ground (arith, (tree.nodes_fit q allocated).kind, stands.0.at_level) in
      rw (node_lem t q allocated, inner)
        (Reads-bind _ (descend_step-Stands level q path low_tree stands) (λ r stands'.
          rw (version_lem t r.0 (stands'.0.not_null, stands'.0.below_next) free)
            (descend-Stands fuel level r.0 r.1 (omega arith) low_tree stands')))

  -- `locate_leaf` ends at a leaf that begins at or before the key, and changes nothing.
  pub locate_leaf-Stands :
      (fuel : ℕ) (path : Option NodePath)
      → s.level t.root < fuel
      → s.level t.root ≤ 10
      → IsOptionalPath wanted s t.next t.root (s.level t.root) 0 path
      → Reads t
          (λ r.
            StartsBefore s t.next 0 key r.0
            × IsOptionalPath wanted s t.next t.root 0 (s.low r.0) r.1)
          (locate_leaf fuel key path t)
  unfolding locate_leaf Stands
  locate_leaf-Stands fuel path enough low_tree is_path =
      rw (version_lem t t.root tree.root_at free) (
        descend-Stands fuel (s.level t.root) t.root path enough low_tree (
          record {
            not_null = tree.root_at.0;
            below_next = tree.root_at.1;
            at_level = refl;
            begins = omega (arith, tree.root_low);
          },
          raise_optional s t.next t.root wanted (s.level t.root) 0 (s.low t.root) path (omega arith)
              is_path,
        ))
