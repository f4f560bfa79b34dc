-- ===== src/Blinktree/Tree/LeafSplitTree.antt =====
-- `Tree::split_leaf_node` of src/indices/blinktree/tree.cpp, over the whole tree.
use btree_benchmarks.Prelude.{◌+◌, ◌≤◌, ◌<◌, ◌≡◌, ◌≢◌, true, arith, refl, ==_iff, ne→==}
use btree_benchmarks.Prelude.Memory.{update}
use btree_benchmarks.Blinktree.Node.{Ptr, Key, Value, Layout, max_items, new_node}
use btree_benchmarks.Blinktree.Node.Contents.{HoldsKey}
use btree_benchmarks.Blinktree.Tree.{
  Tree, IsAllocated, Halves, halve_leaf, split_leaf, split_leaf_node, create_node,
}
use btree_benchmarks.Blinktree.Tree.Shape.{Shape, IsRoomy, IsTree, split_shape, split-IsTree}
use btree_benchmarks.Blinktree.Tree.LeafHalves.{halve_leaf-AreHalves}
use btree_benchmarks.Blinktree.Tree.LeafSplit.{SplitsLeaf, split_leaf-SplitsLeaf}
use btree_benchmarks.Blinktree.Tree.Contents.{Gains, split-Gains}

-- What a split of the leaf at `p` does: a new leaf at `next` takes over the upper part of the
-- range of keys, from `sep`, its first key, on.
pub record SplitsLeafNode {L : Type 0} (l : Layout) (s : Shape) (fresh : L) (t : Tree L) (p : Ptr)
    (key : Key) (value : Value) (sep : Key) (new : Ptr) (t' : Tree L) : Type 0 where
  pub new_node_at : new ≡ t.next
  pub first_key : (t'.nodes new).keys 0 ≡ sep
  pub above : s.low p < sep
  pub below : sep < s.high p
  pub tree : IsTree l (split_shape s p t.next sep) t'
  pub gains : Gains (λ k v. (k ≡ key) × (v ≡ value)) t t'
  pub same_root : t'.root ≡ t.root
  pub same_height : t'.height ≡ t.height
  pub one_more : t'.next ≡ t.next + 1
  pub others : (q : Ptr) → q ≢ p → q ≢ t.next → t'.nodes q ≡ t.nodes q
  pub latches : (q : Ptr) → q ≢ t.next → t'.latches q ≡ t.latches q
  pub new_latch : t'.latches new ≡ fresh

module _ {L : Type 0} {l : Layout} {s : Shape} {t : Tree L} {p : Ptr} {key : Key} (fresh : L)
    (value : Value) (roomy : IsRoomy l) (tree : IsTree l s t) (at : IsAllocated t p)
    (leaf : (t.nodes p).is_leaf ≡ true) (full : (t.nodes p).size ≡ max_items l)
    (above_low : s.low p ≤ key) (below_high : key < s.high p)
    (absent : ¬ HoldsKey (t.nodes p).keys (t.nodes p).size key) where
  halves : Halves
  halves = halve_leaf l (t.nodes p) (new_node true (t.nodes p).parent (t.nodes t.next)) t.next

  splits :
      SplitsLeaf l s t.next p
        (t.nodes p)
        key
        value
        (halves.right.keys 0)
        (split_leaf halves key value)
  unfolding halves new_node
  splits =
      split_leaf-SplitsLeaf value roomy (tree.nodes_fit p at) leaf at.1 full above_low below_high
        absent (halve_leaf-AreHalves l (t.nodes p) _ t.next leaf refl)

  -- The tree with the two halves in it.
  after : Tree L
  after = record t {
    nodes =
        update
          (update (update t.nodes t.next (new_node true (t.nodes p).parent (t.nodes t.next))) p
            (split_leaf halves key value).left)
          t.next (split_leaf halves key value).right;
    latches = update t.latches t.next fresh;
    next = t.next + 1;
  }

  split_leaf_node-after : split_leaf_node l fresh p key value t ≡ (t.next, after)
  unfolding split_leaf_node create_node halves after
  split_leaf_node-after = rw (ne→== p t.next (omega arith), (==_iff t.next t.next).1 refl)

  after-left : after.nodes p ≡ (split_leaf halves key value).left
  unfolding after
  after-left = rw (ne→== p t.next (omega arith), (==_iff p p).1 refl)

  after-right : after.nodes t.next ≡ (split_leaf halves key value).right
  unfolding after
  after-right = rw ((==_iff t.next t.next).1 refl)

  after-others : (q : Ptr) → q ≢ p → q ≢ t.next → after.nodes q ≡ t.nodes q
  unfolding after
  after-others q other old = rw (ne→== q t.next old, ne→== q p other)

  after-latches : (q : Ptr) → q ≢ t.next → after.latches q ≡ t.latches q
  unfolding after
  after-latches q old = rw (ne→== q t.next old)

  after-new_latch : after.latches t.next ≡ fresh
  unfolding after
  after-new_latch = rw ((==_iff t.next t.next).1 refl)

  after-SplitsLeafNode : SplitsLeafNode l s fresh t p key value (halves.right.keys 0) t.next after
  after-SplitsLeafNode = record {
    new_node_at = refl;
    first_key = rw after-right splits.sep_first;
    above = splits.sep_above;
    below = splits.sep_below;
    tree =
        split-IsTree tree at splits.sep_above splits.sep_below e_next e_root e_height
          (rw after-left splits.left_fits) (rw after-right splits.right_fits)
          (λ q a b. rw (after-others q a b));
    gains =
        split-Gains t after at leaf e_next (rw after-left splits.left_leaf)
          (rw after-right splits.right_leaf) (rw (after-left, after-right) splits.contents)
          after-others;
    same_root = e_root;
    same_height = e_height;
    one_more = e_next;
    others = after-others;
    latches = λ q old. after-latches q old;
    new_latch = after-new_latch;
  }
    where
      e_next : after.next ≡ t.next + 1
      e_next = unfold after in refl

      e_root : after.root ≡ t.root
      e_root = unfold after in refl

      e_height : after.height ≡ t.height
      e_height = unfold after in refl

  -- The split of a full leaf in a well-formed tree, for a key that the leaf is responsible for and
  -- does not hold, keeps the tree well formed; the tree then contains the new entry and the old
  -- ones. The new leaf takes over the keys from its first one on.
  pub split_leaf_node-SplitsLeafNode :
      (sep : Key) × SplitsLeafNode l s fresh t p key value sep
        (split_leaf_node l fresh p key value t).0
        (split_leaf_node l fresh p key value t).1
  split_leaf_node-SplitsLeafNode =
      (halves.right.keys 0, rw split_leaf_node-after after-SplitsLeafNode)
