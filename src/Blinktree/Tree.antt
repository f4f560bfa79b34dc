-- ===== src/Blinktree/Tree.antt =====
-- src/indices/blinktree/tree.h and tree.cpp: the tree's nodes in memory, its splits and its new
-- roots. A tree is parametric in the latch that the build's NodeBase puts into each node.
pub mod Shape
pub mod LeafHalves
pub mod LeafPart
pub mod LeafSplit
pub mod Contents
pub mod LeafSplitTree
pub mod InnerPart
pub mod InnerCases
pub mod InnerSplit
pub mod Parents
pub mod Children
pub mod InnerChildren
pub mod InnerSplitTree
pub mod NewRoot
pub mod NewTree
mod Tests
use btree_benchmarks.Prelude.{
  ℕ, zero, suc, ◌+◌, ◌-◌, ◌/◌, ◌<◌, ◌≤◌, Bool, true, false, ltb, if◌then◌else◌,
}
use btree_benchmarks.Prelude.Memory.{update}
use btree_benchmarks.Blinktree.Node.{
  Ptr, null, Key, Value, to_size, Layout, max_keys, max_items, Node, new_node, index,
  insert_separator, insert_value, copy,
}

-- `next` is the address that the allocator returns next: those below it, but for null, hold nodes.
pub record Tree (L : Type 0) : Type 0 where
  pub nodes : Ptr → Node
  pub latches : Ptr → L
  pub next : Ptr
  pub root : Ptr
  pub height : ℕ

abbrev pub IsAllocated : {L : Type 0} → Tree L → Ptr → Type 0
IsAllocated t p = (0 < p) × (p < t.next)

abbrev pub set_node : {L : Type 0} → Tree L → Ptr → Node → Tree L
set_node t p n = record t { nodes = update t.nodes p n }

abbrev pub set_parent : {L : Type 0} → Tree L → Ptr → Ptr → Tree L
set_parent t p parent = set_node t p (record (t.nodes p) { parent = parent })

-- `fresh` is the latch that a node is constructed with.
unfoldable pub create_node :
    {L : Type 0} → (fresh : L) (is_leaf : Bool) (parent : Ptr) → Tree L → Ptr × Tree L
create_node fresh is_leaf parent t = (
  t.next,
  record t {
    nodes = update t.nodes t.next (new_node is_leaf parent (t.nodes t.next));
    latches = update t.latches t.next fresh;
    next = t.next + 1;
  },
)

-- `Tree::Tree`, over any memory.
unfoldable pub new_tree : {L : Type 0} → (fresh : L) (memory : Ptr → Node) → Tree L
new_tree fresh memory =
    let (root, t) =
      create_node fresh true null
        (record { nodes = memory; latches = λ _. fresh; next = 1; root = null; height = 1 }) in
    record t { root = root }

unfoldable pub create_new_root :
    {L : Type 0} → (fresh : L) (left right : Ptr) (key : Key) → Tree L → Tree L
create_new_root fresh left right key t =
    let (root, t₁) = create_node fresh false null t in
    let t₂ = set_parent t₁ left root in
    let n = t₂.nodes root in
    let t₃ = set_node t₂ root (record n { separators = update n.separators 0 left }) in
    let t₄ = set_parent t₃ right root in
    let t₅ = set_node t₄ root (insert_separator (t₄.nodes root) 0 right key) in
    record t₅ { height = to_size (t.height + 1); root = root }

-- What a split leaves of the full node, and the new node.
pub record Halves : Type 0 where
  pub left : Node
  pub right : Node

-- The full leaf `old` shrinks to its first half and `new`, at `address`, gets the second.
unfoldable pub halve_leaf : Layout → (old new : Node) (address : Ptr) → Halves
halve_leaf l old new address =
    let left_size = max_items l / 2 in
    let right_size = max_items l - left_size in
    record {
      left = record old { size = left_size; right_sibling = address };
      right = record (copy old new left_size right_size) {
        high_key = old.high_key;
        right_sibling = old.right_sibling;
        size = right_size;
      };
    }

-- The entry goes to one of the halves, and the left half ends where the right one begins.
unfoldable pub split_leaf : Halves → (key : Key) (value : Value) → Halves
split_leaf h key value =
    let in_left : Halves = record h { left = insert_value h.left (index h.left key) value key } in
    let in_right : Halves = record h {
      right = insert_value h.right (index h.right key) value key;
    } in
    let both : Halves = if ltb key (h.right.keys 0) then in_left else in_right in
    record both { left = record both.left { high_key = both.right.keys 0 } }

unfoldable pub split_leaf_node :
    {L : Type 0}
    → Layout
    → (fresh : L) (leaf : Ptr) (key : Key) (value : Value) → Tree L
    → Ptr × Tree L
split_leaf_node l fresh leaf key value t =
    let (new, t₁) = create_node fresh true (t.nodes leaf).parent t in
    let h = split_leaf (halve_leaf l (t₁.nodes leaf) (t₁.nodes new) new) key value in
    (new, set_node (set_node t₁ leaf h.left) new h.right)

-- The halves of a split inner node, and the key between them, which moves up.
pub record InnerHalves : Type 0 where
  pub left : Node
  pub right : Node
  pub key_up : Key

abbrev pub left_size : Layout → ℕ
left_size l = max_keys l / 2

abbrev pub right_size : Layout → ℕ
right_size l = max_keys l - left_size l

module _ (l : Layout) (old new : Node) (key : Key) (separator : Ptr) where
  -- `key < inner_key(left_size - 1)`: the separator goes into the left half.
  unfoldable pub split_inner_low : InnerHalves
  split_inner_low =
      let copied : Node = copy old new (left_size l) (right_size l) in
      let shrunk : Node = record old { size = left_size l - 1 } in
      record {
        left = insert_separator shrunk (index shrunk key) separator key;
        right = record copied {
          separators = update copied.separators 0 (old.separators (left_size l));
          size = right_size l;
        };
        key_up = old.keys (left_size l - 1);
      }

  -- `key < inner_key(left_size)`: the separator is the first child of the right half.
  unfoldable pub split_inner_middle : InnerHalves
  split_inner_middle =
      let copied : Node = copy old new (left_size l) (right_size l) in
      record {
        left = record old { size = left_size l };
        right = record copied {
          separators = update copied.separators 0 separator;
          size = right_size l;
        };
        key_up = key;
      }

  -- Otherwise the separator goes into the right half.
  unfoldable pub split_inner_high : InnerHalves
  split_inner_high =
      let copied : Node = copy old new (left_size l + 1) (right_size l - 1) in
      let filled : Node = record copied {
        separators = update copied.separators 0 (old.separators (left_size l + 1));
        size = right_size l - 1;
      } in
      record {
        left = record old { size = left_size l };
        right = insert_separator filled (index filled key) separator key;
        key_up = old.keys (left_size l);
      }

unfoldable pub split_inner :
    Layout → (old new : Node) (address : Ptr) (key : Key) (separator : Ptr) → InnerHalves
split_inner l old new address key separator =
    let new' : Node = record new { high_key = old.high_key } in
    let h : InnerHalves =
      if ltb key (old.keys (max_keys l / 2 - 1))
      then split_inner_low l old new' key separator
      else if ltb key (old.keys (max_keys l / 2))
      then split_inner_middle l old new' key separator
      else split_inner_high l old new' key separator in
    record h {
      left = record h.left { right_sibling = address; high_key = h.key_up };
      right = record h.right { right_sibling = h.left.right_sibling };
    }

-- The loop `for (index = 0; index <= size; index++) separator(index)->parent(new)`.
unfoldable pub adopt :
    {L : Type 0} → (rounds i : ℕ) (separators : ℕ → Ptr) (new : Ptr) → Tree L → Tree L
adopt zero i separators new t = t
adopt (suc rounds) i separators new t =
    adopt rounds (i + 1) separators new (set_parent t (separators i) new)

unfoldable pub split_inner_node :
    {L : Type 0}
    → Layout
    → (fresh : L) (inner : Ptr) (key : Key) (separator : Ptr) → Tree L
    → Ptr × Key × Tree L
split_inner_node l fresh inner key separator t =
    let (new, t₁) = create_node fresh false (t.nodes inner).parent t in
    let t₂ =
      if ltb key ((t₁.nodes inner).keys (max_keys l / 2 - 1))
      then set_parent t₁ separator inner
      else t₁ in
    let h = split_inner l (t₂.nodes inner) (t₂.nodes new) new key separator in
    let t₃ = set_node (set_node t₂ inner h.left) new h.right in
    (new, h.key_up, adopt (h.right.size + 1) 0 h.right.separators new t₃)
