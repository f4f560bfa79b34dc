-- ===== src/Blinktree/Traversal/Tests.antt =====
-- The tree's iterator, check and statistics at a tree of one leaf and at a tree of two levels.
use btree_benchmarks.Prelude.{
  ◌≡◌, refl, some, none, [], ◌∷◌, arith, ℕ, false, inl, ◌+◌, ◌==◌, if◌then◌else◌,
}
use btree_benchmarks.Blinktree.Tree.{Tree}
use btree_benchmarks.Blinktree.Sample.{leaf, one_leaf, one_leaf-IsTree, layout-IsRoomy}
use btree_benchmarks.Blinktree.ConsistencyChecker.Accepts.{IsComplete}
use btree_benchmarks.Blinktree.Traversal.{nodes_from, begin, check_tree, tree_statistics}
use btree_benchmarks.Blinktree.Traversal.Rows.{IsRows, check_tree-accepts}

abbrev sample : Tree ℕ
sample = one_leaf 0

sample-IsComplete : IsComplete sample
sample-IsComplete = record { not_empty = λ p at. omega arith; parents = λ p at. inl refl }

check_tree-accepts_example :
    (nodes_from sample 2 (begin sample) ≡ some (1 ∷ [])) × (check_tree sample 2 ≡ some [])
check_tree-accepts_example =
    check_tree-accepts layout-IsRoomy (one_leaf-IsTree 0) sample-IsComplete (1 ∷ []) 2
      (IsRows.leaves [] ((omega arith, omega arith), refl, refl)) (omega arith)

-- An inner node 1 above the leaves 2 and 3.
abbrev two_levels : Tree ℕ
two_levels = record sample {
  nodes = λ p.
      if p == 1
      then record leaf { is_leaf = false; size = 1; separators = λ i. i + 2 }
      else if p == 2
      then record leaf { right_sibling = 3 }
      else leaf;
  next = 4;
  height = 2;
}

order_lem : nodes_from two_levels 4 (begin two_levels) ≡ some (1 ∷ 2 ∷ 3 ∷ [])
order_lem = refl

no_fuel_lem : nodes_from two_levels 3 (begin two_levels) ≡ none
no_fuel_lem = refl

statistics_lem :
    tree_statistics two_levels 4
    ≡ some (record {
      count_inner_nodes = 1;
      count_leaf_nodes = 2;
      count_inner_node_keys = 1;
      count_leaf_node_keys = 6;
      tree_height = 2;
    })
statistics_lem = refl
