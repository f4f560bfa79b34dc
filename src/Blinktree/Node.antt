-- ===== src/Blinktree/Node.antt =====
-- src/indices/blinktree/node.h, node.cpp, src/indices/types.h and src/config.h: one node of the
-- B-link tree and the operations on its arrays. The two structs of the node's union both begin
-- with the keys, so the model has one array of keys; `is_leaf` says whether `values` or
-- `separators` is in use. An address is a number and 0 is the null pointer.
pub mod Search
pub mod Insert
pub mod Contents
pub mod LeafInsert
pub mod SeparatorInsert
mod Tests
use btree_benchmarks.Prelude.{
  ℕ, zero, suc, ◌+◌, ◌-◌, ◌*◌, ◌/◌, ◌%◌, ◌^◌, ◌<◌, ◌≡◌, refl, lt→ltb, Bool, true, false, not, ltb,
  leb, ◌==◌, if◌then◌else◌,
}
use btree_benchmarks.Prelude.Memory.{update, memcpy, memmove}

abbrev pub Ptr : Type 0
Ptr = ℕ

abbrev pub null : Ptr
null = 0

-- `key_type` is uint64_t, `value_type` is kept as the 64-bit pattern of its int64_t.
abbrev pub Key : Type 0
Key = ℕ

abbrev pub Value : Type 0
Value = ℕ

abbrev pub max_key : Key
max_key = 2 ^ 64 - 1

-- `size_type` is uint16_t.
abbrev pub to_size : ℕ → ℕ
to_size n = n % 2 ^ 16

abbrev pub node_size : ℕ
node_size = 1024

-- What the build decides: `sizeof(NodeHeader)`, with the latch of the build in it, and
-- `NODE_GARBAGE_SIZE`.
pub record Layout : Type 0 where
  pub header_size : ℕ
  pub garbage_size : ℕ

-- Keys, values and pointers take 8 bytes each.
abbrev pub max_keys : Layout → ℕ
max_keys l = (node_size - l.garbage_size - l.header_size - 8) / (8 + 8)

abbrev pub max_items : Layout → ℕ
max_items l = (node_size - l.garbage_size - l.header_size) / (8 + 8)

pub record Node : Type 0 where
  pub is_leaf : Bool
  pub high_key : Key
  pub right_sibling : Ptr
  pub parent : Ptr
  pub size : ℕ
  pub keys : ℕ → Key
  pub values : ℕ → Value
  pub separators : ℕ → Ptr

-- The array of a leaf's keys ends before its values, so that the cell at `max_items`, which a search
-- in a full leaf may read, is `values[0]`.
unfoldable pub leaf_key : Layout → Node → (index : ℕ) → Key
leaf_key l n index =
    if ltb index (max_items l) then n.keys index else n.values (index - max_items l)

pub leaf_key-inside :
    (l : Layout) (n : Node) (index : ℕ) → index < max_items l → leaf_key l n index ≡ n.keys index
unfolding leaf_key
leaf_key-inside l n index lt = rw (lt→ltb index (max_items l) lt) refl

-- The constructor, over memory that `aligned_alloc` returned: the arrays keep what was there.
unfoldable pub new_node : (is_leaf : Bool) (parent : Ptr) (memory : Node) → Node
new_node is_leaf parent memory = record {
  is_leaf = is_leaf;
  high_key = max_key;
  right_sibling = null;
  parent = parent;
  size = 0;
  keys = memory.keys;
  values = memory.values;
  separators = memory.separators;
}

unfoldable pub is_full : Layout → Node → Bool
is_full l n = leb (if n.is_leaf then max_items l else max_keys l) n.size

-- `std::lower_bound` over `keys[first .. first + len)`, by halving.
lower_bound_loop : (fuel : ℕ) (keys : ℕ → Key) (key : Key) (first len : ℕ) → ℕ
lower_bound_loop zero keys key first len = first
lower_bound_loop (suc fuel) keys key first len = elim (ltb 0 len) [
  | false ↦ first
  | true ↦ elim (ltb (keys (first + len / 2)) key) [
    | true ↦ lower_bound_loop fuel keys key (first + len / 2 + 1) (len - len / 2 - 1)
    | false ↦ lower_bound_loop fuel keys key first (len / 2)
  ]
]

pub index : Node → Key → ℕ
unfolding lower_bound_loop
index n key = to_size (lower_bound_loop n.size n.keys key 0 n.size)

-- The loop of `child`. `high` starts at `size - 1`, may become -1, and is used as `high + 1` only:
-- the model's `above` is `high + 1`. Below 2^15 keys no int16_t of the loop overflows, and the model
-- holds there only: with 2^15 keys and more `high` or `mid + 1` would wrap around.
child_loop : (fuel : ℕ) (keys : ℕ → Key) (key : Key) (low above : ℕ) → ℕ
child_loop zero keys key low above = above
child_loop (suc fuel) keys key low above = elim (ltb low above) [
  | false ↦ above
  | true ↦ elim (leb (keys ((low + above - 1) / 2)) key) [
    | true ↦ child_loop fuel keys key ((low + above - 1) / 2 + 1) above
    | false ↦ child_loop fuel keys key low ((low + above - 1) / 2)
  ]
]

abbrev pub child_index : Node → Key → ℕ
unfolding child_loop
child_index n key = child_loop (n.size + 1) n.keys key 0 n.size

pub child : Node → Key → Ptr
unfolding child_loop
child n key = n.separators (child_loop (n.size + 1) n.keys key 0 n.size)

unfoldable pub insert_separator : Node → (index : ℕ) (separator : Ptr) (key : Key) → Node
insert_separator n index separator key =
    let offset = n.size - index in
    let moved =
      if ltb index n.size
      then record n {
        keys = memmove n.keys (index + 1) index offset;
        separators = memmove n.separators (index + 2) (index + 1) offset;
      }
      else n in
    record moved {
      keys = update moved.keys index key;
      separators = update moved.separators (index + 1) separator;
      size = to_size (moved.size + 1);
    }

-- In a leaf that is not full; in a full one, which no caller passes, the key behind the others would
-- go over `values[0]`.
unfoldable pub insert_value : Node → (index : ℕ) (value : Value) (key : Key) → Node
insert_value n index value key =
    let offset = n.size - index in
    let moved =
      if ltb index n.size
      then record n {
        keys = memmove n.keys (index + 1) index offset;
        values = memmove n.values (index + 1) index offset;
      }
      else n in
    record moved {
      keys = update moved.keys index key;
      values = update moved.values index value;
      size = to_size (moved.size + 1);
    }

-- `this->copy(other, from_index, count)`: the new `other`.
unfoldable pub copy : Node → (other : Node) (from_index count : ℕ) → Node
copy n other from_index count =
    if n.is_leaf
    then record other {
      keys = memcpy other.keys 0 n.keys from_index count;
      values = memcpy other.values 0 n.values from_index count;
    }
    else record other {
      keys = memcpy other.keys 0 n.keys from_index count;
      separators = memcpy other.separators 1 n.separators (from_index + 1) count;
    }

-- The rounds `i`, `i + 1`, … of the loop of `contains_separator`, `rounds` of them.
separator_scan : (rounds i : ℕ) (separators : ℕ → Ptr) (separator : Ptr) → Bool
separator_scan zero i separators separator = false
separator_scan (suc rounds) i separators separator =
    let rest = separator_scan rounds (i + 1) separators separator in
    if separators i == separator then true else rest

pub contains_separator : Node → Ptr → Bool
unfolding separator_scan
contains_separator n separator = separator_scan (n.size + 1) 0 n.separators separator
