-- ===== src/Blinktree/ConsistencyChecker.antt =====
-- `ConsistencyChecker` of src/indices/blinktree/consistency_checker.cpp. What it prints is a list of
-- complaints; `none` stands for an access through a null pointer. `leaf_key`, `inner_key` and
-- `key` are the cells `keys` of a node.
pub mod Loops
pub mod Accepts
mod Tests
use btree_benchmarks.Prelude.{
  ℕ, zero, suc, ◌+◌, ◌-◌, ◌%◌, ◌^◌, Bool, true, false, not, Option, none, some, List, [], ◌∷◌, ◌++◌,
  ltb, leb, ◌==◌, if◌then◌else◌,
}
use btree_benchmarks.Blinktree.Node.{Ptr, null, Key, Node, contains_separator}
use btree_benchmarks.Blinktree.Tree.{Tree}

pub data Complaint : Type 0 where
  wrong_high_key : Complaint
  wrong_key_order : Complaint
  null_separator : Complaint
  wrong_children : Complaint
  wrong_level : Complaint
  wrong_parent_1 : Complaint
  wrong_parent_2 : Complaint
  wrong_parent_3 : Complaint

-- `node->size() - 1`, passed as a size_type, which has 16 bits.
abbrev pub last_key : Node → Key
last_key n = n.keys ((n.size + 2 ^ 16 - 1) % 2 ^ 16)

abbrev pub is_high_key_valid : Node → Bool
is_high_key_valid n = ltb (last_key n) n.high_key

-- The rounds `index`, `index + 1`, … of the loop, `rounds` of them.
abbrev pub key_order_loop : (rounds index : ℕ) → Node → Bool
key_order_loop zero index n = true
key_order_loop (suc rounds) index n =
    if leb (n.keys index) (n.keys (index - 1)) then false else key_order_loop rounds (suc index) n

abbrev pub is_key_order_valid : Node → Bool
is_key_order_valid n = key_order_loop (n.size - 1) 1 n

abbrev pub separator_loop : (rounds index : ℕ) → Node → Bool
separator_loop zero index n = true
separator_loop (suc rounds) index n =
    if n.separators index == null then false else separator_loop rounds (suc index) n

abbrev pub is_no_null_separator : Node → Bool
is_no_null_separator n = if n.is_leaf then true else separator_loop (n.size + 1) 0 n

-- The index at which the search for the child stops, or `size + 1`.
abbrev pub position_loop : (rounds index : ℕ) (node : Ptr) → Node → ℕ
position_loop zero index node n = index
position_loop (suc rounds) index node n =
    if n.separators index == node then index else position_loop rounds (suc index) node n

abbrev pub same_kind : Node → Node → Bool
same_kind a b = if a.is_leaf then b.is_leaf else not b.is_leaf

module _ {L : Type 0} (t : Tree L) where
  -- `*p`.
  abbrev pub load_node : Ptr → Option Node
  load_node p = if p == null then none else some (t.nodes p)

  abbrev pub children_loop : (rounds index : ℕ) → Node → Option Bool
  children_loop zero index n = some true
  children_loop (suc rounds) index n = elim (load_node (n.separators index)) [
    | none ↦ none
    | some child ↦
        if leb (n.keys index) (last_key child)
        then some false
        else children_loop rounds (suc index) n
  ]

  abbrev pub is_children_order_valid : Node → Option Bool
  is_children_order_valid n = if n.is_leaf then some true else children_loop n.size 0 n

  abbrev pub level_loop : (rounds index : ℕ) → Node → Option Bool
  level_loop zero index n = some true
  level_loop (suc rounds) index n = elim (load_node (n.separators index)) [
    | none ↦ none
    | some left ↦ elim (load_node (n.separators (index + 1))) [
      | none ↦ none
      | some right ↦ if same_kind left right then level_loop rounds (suc index) n else some false
    ]
  ]

  abbrev pub is_level_valid : Node → Option Bool
  is_level_valid n =
      if (if n.right_sibling == null then false else not (same_kind n (t.nodes n.right_sibling)))
      then some false
      else if n.is_leaf
      then some true
      else level_loop n.size 0 n

  -- `check_and_print_parent` of the node at `p`.
  abbrev pub check_parent : (p : Ptr) → Node → List Complaint
  check_parent p n =
      if n.parent == null
      then []
      else let parent : Node = t.nodes n.parent in
        if not (contains_separator parent p)
        then wrong_parent_1 ∷ []
        else let index : ℕ = position_loop (parent.size + 1) 0 p parent in
          if ltb index parent.size
          then (if not (ltb (last_key n) (parent.keys index)) then wrong_parent_2 ∷ [] else [])
          else if not (leb (parent.keys (index - 1)) (n.keys 0))
          then wrong_parent_3 ∷ []
          else []

  abbrev pub unless : Bool → Complaint → List Complaint
  unless valid complaint = if valid then [] else complaint ∷ []

  -- `check_node_and_print_errors`.
  abbrev pub check_node : (p : Ptr) → Option (List Complaint)
  check_node p = elim (load_node p) [
    | none ↦ none
    | some n ↦ elim (is_children_order_valid n) [
      | none ↦ none
      | some children_valid ↦ elim (is_level_valid n) [
        | none ↦ none
        | some level_valid ↦ some (
            unless (is_high_key_valid n) wrong_high_key
            ++ unless (is_key_order_valid n) wrong_key_order
            ++ unless (is_no_null_separator n) null_separator
            ++ unless children_valid wrong_children
            ++ unless level_valid wrong_level
            ++ check_parent p n)
      ]
    ]
  ]
