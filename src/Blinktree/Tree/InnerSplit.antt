-- ===== src/Blinktree/Tree/InnerSplit.antt =====
-- `Tree::split_inner_node` of src/indices/blinktree/tree.cpp: the two halves of a split inner node,
-- on each of its three branches.
use btree_benchmarks.Prelude.{
  ◌+◌, ◌-◌, ◌/◌, ◌<◌, ◌≡◌, false, arith, ltb, Bool-cases, inl, inr, ltb→lt, ltb→le, refl, ◌∙◌, sym,
}
use btree_benchmarks.Blinktree.Node.{Ptr, Key, Layout, max_keys, Node}
use btree_benchmarks.Blinktree.Node.Contents.{HoldsKey}
use btree_benchmarks.Blinktree.Tree.{InnerHalves, split_inner}
use btree_benchmarks.Blinktree.Tree.Shape.{
  Shape, IsRoomy, IsAt, NodeFits, split_shape, IsAt-split, IsAt-cong,
}
use btree_benchmarks.Blinktree.Tree.InnerCases.{
  SplitsAt, low-SplitsAt, middle-SplitsAt, high-SplitsAt,
}

-- The nodes that a split of `old`, at `p`, leaves at `p` and `next`, when a child goes in.
pub record SplitsInner (l : Layout) (s : Shape) (next p : Ptr) (h : InnerHalves) : Type 0 where
  pub up_above : s.low p < h.key_up
  pub up_below : h.key_up < s.high p
  pub left_inner : h.left.is_leaf ≡ false
  pub right_inner : h.right.is_leaf ≡ false
  pub left_fits : NodeFits l (split_shape s p next h.key_up) (next + 1) p h.left
  pub right_fits : NodeFits l (split_shape s p next h.key_up) (next + 1) next h.right

module _ {l : Layout} {s : Shape} {next p : Ptr} {old : Node} (new : Node)
    (fits : NodeFits l s next p old) (inner : old.is_leaf ≡ false) (below : p < next)
    (right_end : new.high_key ≡ old.high_key) where
  -- The pieces, linked to one another.
  linked : InnerHalves → InnerHalves
  linked h = record h {
    left = record h.left { right_sibling = next; high_key = h.key_up };
    right = record h.right { right_sibling = h.left.right_sibling };
  }

  linked-SplitsInner :
      (h : InnerHalves) → SplitsAt l s next p old new h → SplitsInner l s next p (linked h)
  unfolding linked
  linked-SplitsInner h at = record {
    up_above = at.up_above;
    up_below = at.up_below;
    left_inner = at.left_part.inner;
    right_inner = at.right_part.inner;
    left_fits = record {
      kind = ground (arith, at.left_part.inner, inner, fits.kind);
      within = ground (arith, at.left_part.inner, at.left_part.within);
      sorted = at.left_part.sorted;
      keys_in = λ i q. ground (arith, at.left_part.keys_in i q);
      inner_keys_in = λ e i q. ground (arith, at.left_part.keys_in i q);
      range = ground (arith, at.up_above);
      capped = ground (arith, at.up_below, fits.capped);
      ends = ground arith;
      rightmost = λ e. absurd (omega arith);
      linked = λ e. record {
        not_null = omega arith;
        below_next = omega arith;
        at_level = ground arith;
        at_low = ground arith;
      };
      children = λ e i q.
          IsAt-cong (IsAt-split p next h.key_up (at.left_part.children i q)) (ground arith)
            (ground arith);
    };
    right_fits = record {
      kind = ground (arith, at.right_part.inner, inner, fits.kind);
      within = ground (arith, at.right_part.inner, at.right_part.within);
      sorted = at.right_part.sorted;
      keys_in = λ i q. ground (arith, at.right_part.keys_in i q);
      inner_keys_in = λ e i q. ground (arith, at.right_part.keys_in i q);
      range = ground (arith, at.up_below);
      capped = ground (arith, fits.capped);
      ends = ground (arith, at.right_high, fits.ends);
      rightmost = λ e. ground (arith, fits.rightmost (sym at.left_right ∙ e));
      linked = λ e. rw at.left_right (
          IsAt-cong (IsAt-split p next h.key_up (fits.linked (λ e'. e (at.left_right ∙ e'))))
            (ground arith) (ground arith));
      children = λ e i q.
          IsAt-cong (IsAt-split p next h.key_up (at.right_part.children i q)) (ground arith)
            (ground arith);
    };
  }

module _ {l : Layout} {s : Shape} {next p : Ptr} {old : Node} (new : Node) {key : Key}
    {separator : Ptr} (roomy : IsRoomy l) (fits : NodeFits l s next p old)
    (inner : old.is_leaf ≡ false) (inner' : new.is_leaf ≡ false) (below : p < next)
    (full : old.size ≡ max_keys l) (above_low : s.low p < key) (below_high : key < s.high p)
    (absent : ¬ HoldsKey old.keys old.size key)
    (at : IsAt s next separator (s.level p - 1) key) where
  new' : Node
  new' = record new { high_key = old.high_key }

  pub split_inner-SplitsInner : SplitsInner l s next p (split_inner l old new next key separator)
  unfolding split_inner new' linked
  split_inner-SplitsInner = elim (Bool-cases (ltb key (old.keys (max_keys l / 2 - 1)))) [
    | inl low ↦ rw low (
        linked-SplitsInner new' fits inner below refl _ (
          low-SplitsAt new' roomy fits inner inner' full above_low below_high absent at
            (ltb→lt _ _ low)))
    | inr not_low ↦ elim (Bool-cases (ltb key (old.keys (max_keys l / 2)))) [
      | inl middle ↦
          rw (not_low, middle)
            (linked-SplitsInner new' fits inner below refl _ (
              middle-SplitsAt new' roomy fits inner inner' full above_low below_high absent at
                (ltb→le _ _ not_low) (ltb→lt _ _ middle)))
      | inr high ↦
          rw (not_low, high)
            (linked-SplitsInner new' fits inner below refl _ (
              high-SplitsAt new' roomy fits inner inner' full above_low below_high absent at
                (ltb→le _ _ high)))
    ]
  ]
