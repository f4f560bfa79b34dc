-- ===== src/Blinktree/Tree/Tests.antt =====
-- The theorems about splits and new roots: at a tree that is one full leaf, at a full inner node
-- over empty leaves, and at a leaf that was split and has no parent yet.
use btree_benchmarks.Prelude.{
  ℕ, ◌+◌, ◌-◌, ◌*◌, ◌<◌, ◌≡◌, ◌≢◌, inl, inr, refl, true, false, arith, if◌then◌else◌, ◌==◌,
  ℕ_discrete, Bool-cases, ==_iff, sym, ap, subst,
}
use btree_benchmarks.Blinktree.Node.{Ptr, null, Key, max_key, Layout, Node, Value}
use btree_benchmarks.Blinktree.Node.Contents.{HoldsKey}
use btree_benchmarks.Blinktree.Tree.{
  Tree, create_new_root, split_leaf_node, split_inner_node, new_tree,
}
use btree_benchmarks.Blinktree.Tree.Shape.{Shape, IsRoomy, IsAt, NodeFits, IsTree}
use btree_benchmarks.Blinktree.Tree.LeafSplitTree.{SplitsLeafNode, split_leaf_node-SplitsLeafNode}
use btree_benchmarks.Blinktree.Tree.InnerSplitTree.{
  SplitsInnerNode, split_inner_node-SplitsInnerNode,
}
use btree_benchmarks.Blinktree.Tree.NewRoot.{root_shape, create_new_root-IsTree}
use btree_benchmarks.Blinktree.Tree.NewTree.{leaf_shape, new_tree-IsTree}
use btree_benchmarks.Blinktree.Tree.Contents.{Contains}

-- 61 entries fit into a leaf, 60 keys into an inner node.
abbrev layout : Layout
layout = record { header_size = 40; garbage_size = 0 }

layout-IsRoomy : IsRoomy layout
layout-IsRoomy = record { room = omega arith }

abbrev empty_leaf : Node
empty_leaf = record {
  is_leaf = true;
  high_key = max_key;
  right_sibling = null;
  parent = null;
  size = 0;
  keys = λ i. 0;
  values = λ i. 0;
  separators = λ i. null;
}

-- The keys 0, 10, 20, … in the only leaf.
abbrev full_leaf : Node
full_leaf = record empty_leaf { size = 61; keys = λ i. 10 * i; values = λ i. i }

abbrev one_leaf : Tree ℕ
one_leaf = record { nodes = λ p. full_leaf; latches = λ p. 0; next = 2; root = 1; height = 1 }

abbrev one_leaf_shape : Shape
one_leaf_shape = record { level = λ p. 0; low = λ p. 0; high = λ p. max_key }

one_leaf-IsTree : IsTree layout one_leaf_shape one_leaf
one_leaf-IsTree = record {
  nodes_fit = λ p h. record {
    kind = refl;
    within = omega arith;
    sorted = λ i j q r. omega arith;
    keys_in = λ i q. (omega arith, omega arith);
    inner_keys_in = λ e. cc e;
    range = omega arith;
    capped = omega arith;
    ends = refl;
    rightmost = λ e. refl;
    linked = λ e. absurd (e refl);
    children = λ e. cc e;
  };
  apart = λ p q hp hq d e. absurd (omega arith);
  root_at = (omega arith, omega arith);
  root_low = refl;
  height_root = refl;
  top = λ p h. omega arith;
  some_node = omega arith;
}

absent_15 : ¬ HoldsKey full_leaf.keys full_leaf.size 15
absent_15 (i, p, e) = omega arith

split_leaf_node-SplitsLeafNode_example :
    (sep : Key) × SplitsLeafNode layout one_leaf_shape 0 one_leaf 1 15 9 sep
      (split_leaf_node layout 0 1 15 9 one_leaf).0
      (split_leaf_node layout 0 1 15 9 one_leaf).1
split_leaf_node-SplitsLeafNode_example =
    split_leaf_node-SplitsLeafNode 0 9 layout-IsRoomy one_leaf-IsTree (omega arith, omega arith)
      refl refl (omega arith) (omega arith) absent_15

-- A full root over 62 empty leaves, and a leaf at 64 that took over the keys from 5 to 10 from the
-- leaf at 2 and is not in the root yet.
abbrev wide_shape : Shape
wide_shape = record {
  level = λ p. if p == 1 then 1 else 0;
  low = λ p. if p == 1 then 0 else if p == 64 then 5 else 10 * (p - 2);
  high = λ p.
      if p == 1
      then max_key
      else if p == 63
      then max_key
      else if p == 2
      then 5
      else if p == 64
      then 10
      else 10 * (p - 1);
}

abbrev full_root : Node
full_root = record empty_leaf {
  is_leaf = false;
  size = 61;
  keys = λ i. 10 * (i + 1);
  separators = λ i. i + 2;
}

abbrev wide_leaf : Ptr → Node
wide_leaf p = record empty_leaf {
  high_key = wide_shape.high p;
  right_sibling = if p == 63 then null else if p == 2 then 64 else if p == 64 then 3 else p + 1;
}

abbrev wide : Tree ℕ
wide = record {
  nodes = λ p. if p == 1 then full_root else wide_leaf p;
  latches = λ p. 0;
  next = 65;
  root = 1;
  height = 2;
}

full_root-NodeFits : NodeFits layout wide_shape 65 1 full_root
full_root-NodeFits = record {
  kind = refl;
  within = omega arith;
  sorted = λ i j q r. omega arith;
  keys_in = λ i q. (omega arith, omega arith);
  inner_keys_in = λ e i q. omega arith;
  range = omega arith;
  capped = omega arith;
  ends = refl;
  rightmost = λ e. refl;
  linked = λ e. absurd (e refl);
  children = λ e i q. record {
    not_null = omega arith;
    below_next = omega arith;
    at_level = ground arith;
    at_low = ground arith;
  };
}

wide_leaf-NodeFits :
    (p : Ptr) → 0 < p → p < 65 → p ≢ 1 → NodeFits layout wide_shape 65 p (wide_leaf p)
wide_leaf-NodeFits p above below other = record {
  kind = ground arith;
  within = omega arith;
  sorted = λ i j q r. absurd (omega arith);
  keys_in = λ i q. absurd (omega arith);
  inner_keys_in = λ e. cc e;
  range = ground arith;
  capped = ground arith;
  ends = refl;
  rightmost = λ e. ground arith;
  linked = λ e. record {
    not_null = ground arith;
    below_next = ground arith;
    at_level = ground arith;
    at_low = ground arith;
  };
  children = λ e. cc e;
}

wide_others : (p : Ptr) → p ≢ 1 → wide.nodes p ≡ wide_leaf p
wide_others p other = elim (Bool-cases (p == 1)) [
  | inl e ↦ absurd (other ((==_iff p 1).0 e))
  | inr e ↦ ap (λ b. if b then full_root else wide_leaf p) e
]

wide-IsTree : IsTree layout wide_shape wide
wide-IsTree = record {
  nodes_fit = λ p h. elim (ℕ_discrete p 1) [
    | yes e ↦ rw e full_root-NodeFits
    | no other ↦
        subst (NodeFits layout wide_shape 65 p) (sym (wide_others p other))
          (wide_leaf-NodeFits p h.0 h.1 other)
  ];
  apart = λ p q hp hq d e. ground arith;
  root_at = (omega arith, omega arith);
  root_low = refl;
  height_root = refl;
  top = λ p h. ground arith;
  some_node = omega arith;
}

absent_5 : ¬ HoldsKey full_root.keys full_root.size 5
absent_5 (i, p, e) = omega arith

new_leaf-IsAt : IsAt wide_shape 65 64 0 5
new_leaf-IsAt = record {
  not_null = omega arith;
  below_next = omega arith;
  at_level = refl;
  at_low = refl;
}

split_inner_node-SplitsInnerNode_example :
    SplitsInnerNode layout wide_shape 0 wide 1
      (split_inner_node layout 0 1 5 64 wide).0
      (split_inner_node layout 0 1 5 64 wide).1
      (split_inner_node layout 0 1 5 64 wide).2
split_inner_node-SplitsInnerNode_example =
    split_inner_node-SplitsInnerNode 0 layout-IsRoomy wide-IsTree (omega arith, omega arith) refl
      refl (omega arith) (omega arith) absent_5 new_leaf-IsAt

-- Two leaves; the one at 2 took over the keys from 10 on.
abbrev pair_shape : Shape
pair_shape = record {
  level = λ p. 0;
  low = λ p. if p == 1 then 0 else 10;
  high = λ p. if p == 1 then 10 else max_key;
}

abbrev pair : Tree ℕ
pair = record {
  nodes = λ p. record empty_leaf {
    high_key = pair_shape.high p;
    right_sibling = if p == 1 then 2 else null;
  };
  latches = λ p. 0;
  next = 3;
  root = 1;
  height = 1;
}

pair-IsTree : IsTree layout pair_shape pair
pair-IsTree = record {
  nodes_fit = λ p h. record {
    kind = refl;
    within = omega arith;
    sorted = λ i j q r. absurd (omega arith);
    keys_in = λ i q. absurd (omega arith);
    inner_keys_in = λ e. cc e;
    range = ground arith;
    capped = ground arith;
    ends = refl;
    rightmost = λ e. ground arith;
    linked = λ e. record {
      not_null = ground arith;
      below_next = ground arith;
      at_level = refl;
      at_low = ground arith;
    };
    children = λ e. cc e;
  };
  apart = λ p q hp hq d e. ground arith;
  root_at = (omega arith, omega arith);
  root_low = refl;
  height_root = refl;
  top = λ p h. omega arith;
  some_node = omega arith;
}

right-IsAt : IsAt pair_shape 3 2 0 10
right-IsAt = record {
  not_null = omega arith;
  below_next = omega arith;
  at_level = refl;
  at_low = refl;
}

create_new_root-IsTree_example :
    IsTree layout (root_shape pair_shape 3 1) (create_new_root 0 1 2 10 pair)
create_new_root-IsTree_example =
    create_new_root-IsTree 0 layout-IsRoomy pair-IsTree right-IsAt (omega arith) (omega arith)
      (omega arith)

abbrev latch : ℕ
latch = 0

new_tree-IsTree_example :
    IsTree layout leaf_shape (new_tree latch (λ p. full_leaf))
    × ((k : Key) (v : Value) → ¬ Contains (new_tree latch (λ p. full_leaf)) k v)
new_tree-IsTree_example = new_tree-IsTree latch (λ p. full_leaf)
