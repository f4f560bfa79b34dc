-- ===== src/Blinktree/ConsistencyChecker/Tests.antt =====
-- The checks at a tree of one leaf, and at broken nodes.
use btree_benchmarks.Prelude.{ℕ, ◌-◌, ◌≡◌, refl, false, some, none, [], ◌∷◌, inl, arith}
use btree_benchmarks.Blinktree.Node.{Node}
use btree_benchmarks.Blinktree.Tree.{Tree}
use btree_benchmarks.Blinktree.Sample.{leaf, one_leaf, one_leaf-IsTree, layout-IsRoomy}
use btree_benchmarks.Blinktree.ConsistencyChecker.{wrong_high_key, wrong_key_order, check_node}
use btree_benchmarks.Blinktree.ConsistencyChecker.Accepts.{IsComplete, check_node-accepts}

abbrev sample : Tree ℕ
sample = one_leaf 0

sample-IsComplete : IsComplete sample
sample-IsComplete = record { not_empty = λ p at. omega arith; parents = λ p at. inl refl }

check_node-accepts_example : check_node sample 1 ≡ some []
check_node-accepts_example =
    check_node-accepts layout-IsRoomy (one_leaf-IsTree 0) sample-IsComplete 1
      (omega arith, omega arith)

-- The keys 20, 19 and 18 stand in descending order, above the high key 5.
abbrev broken : Node
broken = record leaf { high_key = 5; keys = λ i. 20 - i }

broken_lem :
    check_node (record sample { nodes = λ p. broken }) 1
    ≡ some (wrong_high_key ∷ wrong_key_order ∷ [])
broken_lem = refl

-- An inner node with a null separator makes the checker read through it.
null_child_lem :
    check_node (record sample { nodes = λ p. record leaf { is_leaf = false } }) 1 ≡ none
null_child_lem = refl
