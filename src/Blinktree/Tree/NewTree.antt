-- ===== src/Blinktree/Tree/NewTree.antt =====
-- `Tree::Tree` of src/indices/blinktree/tree.cpp.
use btree_benchmarks.Prelude.{◌≡◌, refl, true, arith}
use btree_benchmarks.Blinktree.Node.{Ptr, null, Key, Value, max_key, Layout, Node, new_node}
use btree_benchmarks.Blinktree.Tree.{new_tree, create_node}
use btree_benchmarks.Blinktree.Tree.Shape.{Shape, NodeFits, IsTree}
use btree_benchmarks.Blinktree.Tree.Contents.{Contains}

-- One leaf, responsible for all keys.
abbrev pub leaf_shape : Shape
leaf_shape = record { level = λ p. 0; low = λ p. 0; high = λ p. max_key }

module _ {L : Type 0} {l : Layout} (fresh : L) (memory : Ptr → Node) where
  new_leaf-NodeFits : NodeFits l leaf_shape 2 1 (new_node true null (memory 1))
  unfolding new_node
  new_leaf-NodeFits = record {
    kind = refl;
    within = omega arith;
    sorted = λ i j p q. absurd (omega arith);
    keys_in = λ i p. absurd (omega arith);
    inner_keys_in = λ e. cc e;
    range = omega arith;
    capped = omega arith;
    ends = refl;
    rightmost = λ e. refl;
    linked = λ e. absurd (e refl);
    children = λ e. cc e;
  }

  -- A new tree is well formed and contains nothing, whatever the memory held.
  pub new_tree-IsTree :
      IsTree l leaf_shape (new_tree fresh memory)
      × ((k : Key) (v : Value) → ¬ Contains (new_tree fresh memory) k v)
  unfolding new_tree create_node new_node
  new_tree-IsTree = (
    record {
      nodes_fit = λ p h. rw (let e : p ≡ 1 = omega (arith, h) in e) new_leaf-NodeFits;
      apart = λ p q hp hq d e. absurd (omega arith);
      root_at = (omega arith, omega arith);
      root_low = refl;
      height_root = refl;
      top = λ p h. omega arith;
      some_node = omega arith;
    },
    λ k v (p, a, leaf, (i, below, e, e')). ground (arith, below, a),
  )
