-- ===== src/Blinktree/NodePath.antt =====
-- src/indices/blinktree/node_path.h: the inner nodes that a descent visited. The list is the first
-- `_counter` cells of `_data`, the last one pushed at its head. A push onto a full array and a pop
-- from an empty one are undefined in the source, and `none` here.
use btree_benchmarks.Prelude.{
  ℕ, Bool, true, false, List, [], ◌∷◌, Option, none, some, length, ltb, if◌then◌else◌,
}
use btree_benchmarks.Blinktree.Node.{Ptr}

abbrev pub path_capacity : ℕ
path_capacity = 10

abbrev pub NodePath : Type 0
NodePath = List Ptr

abbrev pub push : NodePath → Ptr → Option NodePath
push path node = if ltb (length path) path_capacity then some (node ∷ path) else none

abbrev pub pop : NodePath → Option (Ptr × NodePath)
pop [] = none
pop (node ∷ path) = some (node, path)

abbrev pub is_empty : NodePath → Bool
is_empty [] = true
is_empty (node ∷ path) = false
