-- ===== src/Blinktree/Node/Insert.antt =====
-- `Node::insert_value`, `Node::insert_separator` and `Node::copy` of
-- src/indices/blinktree/node.cpp: what they do to the arrays.
use btree_benchmarks.Prelude.{
  ℕ, ◌+◌, ◌-◌, ◌^◌, ◌≤◌, ◌<◌, ◌≡◌, ◌≢◌, ◌⊎◌, inl, inr, ap, true, arith, dec_lt,
}
use btree_benchmarks.Blinktree.Node.{Key, Value, Ptr, Node, insert_value, insert_separator, copy}
use btree_benchmarks.Blinktree.Node.Search.{IsSorted, IsLowerBound}

-- `g` is `f` with `x` put in at `index` and the cells from there up to `n` moved up by one.
pub record IsInserted {ℓ} {A : Type ℓ} (f : ℕ → A) (n index : ℕ) (x : A) (g : ℕ → A) : Type ℓ where
  pub before : (i : ℕ) → i < index → g i ≡ f i
  pub here : g index ≡ x
  pub behind : (i : ℕ) → index ≤ i → i < n → g (i + 1) ≡ f i

-- The header fields that no operation on the arrays touches.
pub record SameHeader (n n' : Node) : Type 0 where
  pub same_leaf : n'.is_leaf ≡ n.is_leaf
  pub same_high : n'.high_key ≡ n.high_key
  pub same_right : n'.right_sibling ≡ n.right_sibling
  pub same_parent : n'.parent ≡ n.parent

pub record InsertsValue (n : Node) (index : ℕ) (value : Value) (key : Key) (n' : Node)
    : Type 0 where
  pub header : SameHeader n n'
  pub grown : n'.size ≡ n.size + 1
  pub keys_inserted : IsInserted n.keys n.size index key n'.keys
  pub values_inserted : IsInserted n.values n.size index value n'.values

pub record InsertsSeparator (n : Node) (index : ℕ) (separator : Ptr) (key : Key) (n' : Node)
    : Type 0 where
  pub header : SameHeader n n'
  pub grown : n'.size ≡ n.size + 1
  pub keys_inserted : IsInserted n.keys n.size index key n'.keys
  pub separators_inserted : IsInserted n.separators (n.size + 1) (index + 1) separator n'.separators

module _ (n : Node) (index : ℕ) (inside : index ≤ n.size) (small : n.size + 1 < 2 ^ 16) where
  -- `insert_value` at an index up to the size moves the entries from there on up by one, puts the
  -- new one there, grows the size by one and keeps the header, if the size stays below 2^16.
  pub insert_value-InsertsValue :
      (value : Value) (key : Key) → InsertsValue n index value key (insert_value n index value key)
  unfolding insert_value
  insert_value-InsertsValue value key = record {
    header = ground arith;
    grown = ground arith;
    keys_inserted = record {
      before = λ i p. ground arith;
      here = ground arith;
      behind = λ i p q. ground arith;
    };
    values_inserted = record {
      before = λ i p. ground arith;
      here = ground arith;
      behind = λ i p q. ground arith;
    };
  }

  -- `insert_separator` at an index up to the size moves the keys from there on and the separators
  -- behind it up by one, puts the key there and the child to its right, grows the size by one and
  -- keeps the header, if the size stays below 2^16.
  pub insert_separator-InsertsSeparator :
      (separator : Ptr) (key : Key)
      → InsertsSeparator n index separator key (insert_separator n index separator key)
  unfolding insert_separator
  insert_separator-InsertsSeparator separator key = record {
    header = ground arith;
    grown = ground arith;
    keys_inserted = record {
      before = λ i p. ground arith;
      here = ground arith;
      behind = λ i p q. ground arith;
    };
    separators_inserted = record {
      before = λ i p. ground arith;
      here = ground arith;
      behind = λ i p q. ground arith;
    };
  }

-- Where a cell of the new array comes from.
pub IsInserted-cases {ℓ} :
    {A : Type ℓ} {f g : ℕ → A} {n index : ℕ} {x : A}
    → IsInserted f n index x g
    → (j : ℕ) → j < n + 1
    → ((j < index) × (g j ≡ f j)) ⊎ ((j ≡ index) × (g j ≡ x)) ⊎ ((index < j) × (g j ≡ f (j - 1)))
IsInserted-cases {g} {index} inserted j p = elim (dec_lt j index) [
  | yes low ↦ inl (low, inserted.before j low)
  | no other ↦ elim (dec_lt index j) [
    | yes high ↦ inr (
        inr (
          high,
          rw (← inserted.behind (j - 1) (omega arith) (omega arith))
              (ap g (let e : j ≡ j - 1 + 1 = omega arith in e)),
        ))
    | no same ↦ let e : j ≡ index = omega arith in inr (inl (e, rw e inserted.here))
  ]
]

module _ {f g : ℕ → Key} {n index : ℕ} {key : Key} where
  -- A new key at its lower bound keeps the order.
  pub IsInserted-IsSorted :
      IsSorted f n
      → IsLowerBound f n key index
      → (index < n → f index ≢ key)
      → IsInserted f n index key g
      → IsSorted g (n + 1)
  IsInserted-IsSorted sorted bound fresh inserted i j p q = ground (
    arith,
    IsInserted-cases inserted i,
    IsInserted-cases inserted j,
    sorted i j,
    sorted i (j - 1),
    sorted (i - 1) (j - 1),
    sorted index (j - 1),
    bound.below i,
    bound.above (j - 1),
    bound.above index,
  )

  -- A bound on the old keys and on the new one bounds them all.
  pub IsInserted-bounds :
      (low high : ℕ)
      → ((i : ℕ) → i < n → (low ≤ f i) × (f i < high))
      → low ≤ key
      → key < high
      → IsInserted f n index key g
      → index ≤ n
      → (i : ℕ) → i < n + 1
      → (low ≤ g i) × (g i < high)
  IsInserted-bounds low high bounded above below inserted inside i p =
      ground (arith, IsInserted-cases inserted i, bounded i, bounded (i - 1))

-- `copy` fills the first `count` cells of the other node from `from_index` on; of an inner node it
-- copies the children to the right of the keys.
pub copy-leaf :
    (n other : Node) (from_index count : ℕ)
    → n.is_leaf ≡ true
    → (i : ℕ) → i < count
    → ((copy n other from_index count).keys i ≡ n.keys (i + from_index))
      × ((copy n other from_index count).values i ≡ n.values (i + from_index))
unfolding copy
copy-leaf n other from_index count leaf i p = ground arith
