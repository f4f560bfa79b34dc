-- ===== src/Blinktree/Tree/LeafPart.antt =====
-- A sorted leaf with its keys in a range, as the halves that `Tree::split_leaf_node` of
-- src/indices/blinktree/tree.cpp leaves.
use btree_benchmarks.Prelude.{ℕ, ◌+◌, ◌≤◌, ◌<◌, ◌≡◌, true, arith, ◌∙◌}
use btree_benchmarks.Blinktree.Node.{Ptr, Key, Value, Layout, max_items, Node}
use btree_benchmarks.Blinktree.Node.Search.{IsSorted}
use btree_benchmarks.Blinktree.Node.Contents.{HoldsKey}
use btree_benchmarks.Blinktree.Node.LeafInsert.{
  insert_entry, insert_entry-InsertsValue, insert_entry-IsSorted, insert_entry-bounds,
}
use btree_benchmarks.Blinktree.Tree.Shape.{Shape, NodeFits, split_shape, IsAt-split, IsAt-cong}

-- A sorted leaf with its keys in a range.
pub record IsPart (l : Layout) (low high : Key) (n : Node) : Type 0 where
  pub leaf : n.is_leaf ≡ true
  pub within : n.size ≤ max_items l
  pub sorted : IsSorted n.keys n.size
  pub keys_in : (i : ℕ) → i < n.size → (low ≤ n.keys i) × (n.keys i < high)

pub insert_entry-IsPart :
    {l : Layout} {low high : Key} (n : Node) (key : Key) (value : Value)
    → IsPart l low high n
    → n.size < max_items l
    → ¬ HoldsKey n.keys n.size key
    → low ≤ key
    → key < high
    → IsPart l low high (insert_entry n key value)
insert_entry-IsPart {l} {low} {high} n key value part room absent above below =
    let ins = insert_entry-InsertsValue l n key value part.sorted room absent in
    record {
      leaf = ins.header.same_leaf ∙ part.leaf;
      within = omega (arith, ins.grown);
      sorted = rw ins.grown (insert_entry-IsSorted l n key value part.sorted room absent);
      keys_in = rw ins.grown (
          insert_entry-bounds l n key value part.sorted room absent low high part.keys_in above
            below);
    }

module _ {l : Layout} {s : Shape} {next p : Ptr} {old : Node} (fits : NodeFits l s next p old)
    (leaf : old.is_leaf ≡ true) (below : p < next) where
  pub left-NodeFits :
      (n : Node) (sep : Key)
      → s.low p < sep
      → sep < s.high p
      → IsPart l (s.low p) sep n
      → n.right_sibling ≡ next
      → NodeFits l (split_shape s p next sep) (next + 1) p (record n { high_key = sep })
  left-NodeFits n sep above under part right = record {
    kind = ground (arith, part.leaf, leaf, fits.kind);
    within = ground (arith, part.leaf, part.within);
    sorted = part.sorted;
    keys_in = λ i h. ground (arith, part.keys_in i h);
    inner_keys_in = λ e. cc (part.leaf);
    range = ground arith;
    capped = ground (arith, fits.capped, fits.range);
    ends = ground arith;
    rightmost = λ e. ground arith;
    linked = λ e. record {
      not_null = omega arith;
      below_next = omega arith;
      at_level = ground arith;
      at_low = ground arith;
    };
    children = λ e. cc (part.leaf);
  }

  pub right-NodeFits :
      (n : Node) (sep : Key)
      → sep < s.high p
      → IsPart l sep (s.high p) n
      → n.right_sibling ≡ old.right_sibling
      → n.high_key ≡ old.high_key
      → NodeFits l (split_shape s p next sep) (next + 1) next n
  right-NodeFits n sep under part right high = record {
    kind = ground (arith, part.leaf, leaf, fits.kind);
    within = ground (arith, part.leaf, part.within);
    sorted = part.sorted;
    keys_in = λ i h. ground (arith, part.keys_in i h);
    inner_keys_in = λ e. cc (part.leaf);
    range = ground arith;
    capped = ground (arith, fits.capped);
    ends = ground (arith, fits.ends);
    rightmost = λ e. ground (arith, fits.rightmost);
    linked = λ e. rw right (
        IsAt-cong (IsAt-split p next sep (fits.linked (λ e'. e (right ∙ e')))) (ground arith)
          (ground arith));
    children = λ e. cc (part.leaf);
  }
