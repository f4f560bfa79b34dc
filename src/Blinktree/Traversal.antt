-- ===== src/Blinktree/Traversal.antt =====
-- The tree's iterator, which visits each level from left to right, and what is done on the way:
-- `TreeIterator` of src/indices/blinktree/tree.h, `Tree::check` of tree.cpp and `TreeStatistics` of
-- tree_statistics.h and tree_statistics.cpp.
pub mod Rows
mod Tests
use btree_benchmarks.Prelude.{
  ℕ, zero, suc, ◌+◌, ◌*◌, ◌%◌, ◌^◌, Bool, true, false, not, Option, none, some, List, [], ◌∷◌, ◌++◌,
  ◌==◌, if◌then◌else◌,
}
use btree_benchmarks.Blinktree.Node.{Ptr, null, Node}
use btree_benchmarks.Blinktree.Tree.{Tree}
use btree_benchmarks.Blinktree.ConsistencyChecker.{Complaint, check_node}

pub record TreeIterator : Type 0 where
  pub current_node : Ptr
  pub first_node_in_level : Ptr

abbrev pub iterator_at : Ptr → TreeIterator
iterator_at node = record { current_node = node; first_node_in_level = node }

pub record TreeStatistics : Type 0 where
  pub count_inner_nodes : ℕ
  pub count_leaf_nodes : ℕ
  pub count_inner_node_keys : ℕ
  pub count_leaf_node_keys : ℕ
  pub tree_height : ℕ

-- A Boolean as a factor.
abbrev pub as_number : Bool → ℕ
as_number b = if b then 1 else 0

-- `+=` on a std::size_t
abbrev pub plus_size : ℕ → ℕ → ℕ
plus_size a b = (a + b) % 2 ^ 64

abbrev pub collect_node_statistics : Node → TreeStatistics → TreeStatistics
collect_node_statistics n s = record s {
  count_inner_nodes = plus_size s.count_inner_nodes (as_number (not n.is_leaf));
  count_leaf_nodes = plus_size s.count_leaf_nodes (as_number n.is_leaf);
  count_inner_node_keys = plus_size s.count_inner_node_keys (as_number (not n.is_leaf) * n.size);
  count_leaf_node_keys = plus_size s.count_leaf_node_keys (as_number n.is_leaf * n.size);
}

module _ {L : Type 0} (t : Tree L) where
  -- `operator++`
  abbrev pub advance : TreeIterator → TreeIterator
  advance i =
      if (t.nodes i.current_node).right_sibling == null
      then (if (t.nodes i.current_node).is_leaf
          then record i { current_node = null }
          else iterator_at ((t.nodes i.first_node_in_level).separators 0))
      else record i { current_node = (t.nodes i.current_node).right_sibling }

  -- The nodes of `for (auto node : *this)` from the iterator on; `none`, if the fuel does not do.
  abbrev pub nodes_from : (fuel : ℕ) → TreeIterator → Option (List Ptr)
  nodes_from zero i = none
  nodes_from (suc fuel) i =
      if i.current_node == null then some [] else elim (nodes_from fuel (advance i)) [
        | none ↦ none
        | some rest ↦ some (i.current_node ∷ rest)
      ]

  abbrev pub begin : TreeIterator
  begin = iterator_at t.root

  abbrev pub check_nodes : List Ptr → Option (List Complaint)
  check_nodes [] = some []
  check_nodes (p ∷ ps) = elim (check_node t p) [
    | none ↦ none
    | some found ↦ elim (check_nodes ps) [ none ↦ none | some others ↦ some (found ++ others) ]
  ]

  -- `Tree::check`
  abbrev pub check_tree : (fuel : ℕ) → Option (List Complaint)
  check_tree fuel = elim (nodes_from fuel begin) [ none ↦ none | some nodes ↦ check_nodes nodes ]

  abbrev pub collect_all : List Ptr → TreeStatistics → TreeStatistics
  collect_all [] s = s
  collect_all (p ∷ ps) s = collect_all ps (collect_node_statistics (t.nodes p) s)

  -- `Tree::print_statistics`, up to the printing
  abbrev pub tree_statistics : (fuel : ℕ) → Option TreeStatistics
  tree_statistics fuel = elim (nodes_from fuel begin) [
    | none ↦ none
    | some nodes ↦ some (
        collect_all nodes (record {
          count_inner_nodes = 0;
          count_leaf_nodes = 0;
          count_inner_node_keys = 0;
          count_leaf_node_keys = 0;
          tree_height = t.height;
        }))
  ]
