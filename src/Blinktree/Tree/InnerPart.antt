-- ===== src/Blinktree/Tree/InnerPart.antt =====
-- Pieces of inner nodes: a run of children with the keys between them, and what an insertion makes
-- of it. `Tree::split_inner_node` of src/indices/blinktree/tree.cpp cuts a node into two of these.
use btree_benchmarks.Prelude.{
  ℕ, suc, ◌+◌, ◌-◌, ◌^◌, ◌≤◌, ◌<◌, ◌≡◌, false, arith, ◌∙◌, Bool-cases, inl, inr, ◌==◌,
}
use btree_benchmarks.Blinktree.Node.{Ptr, Key, Layout, max_keys, Node}
use btree_benchmarks.Blinktree.Node.Search.{IsSorted}
use btree_benchmarks.Blinktree.Node.Contents.{HoldsKey}
use btree_benchmarks.Blinktree.Node.SeparatorInsert.{
  insert_child, low_of, insert_child-InsertsSeparator, insert_child-IsSorted, insert_child-bounds,
  insert_child-children,
}
use btree_benchmarks.Blinktree.Tree.Shape.{Shape, IsRoomy, IsAt}

-- The children of `n` are at `level` and share the keys from `low` up to below `high`.
pub record IsInnerPart (l : Layout) (s : Shape) (next : Ptr) (level : ℕ) (low high : Key) (n : Node)
    : Type 0 where
  pub inner : n.is_leaf ≡ false
  pub within : n.size ≤ max_keys l
  pub sorted : IsSorted n.keys n.size
  pub keys_in : (i : ℕ) → i < n.size → (low < n.keys i) × (n.keys i < high)
  pub children : (i : ℕ) → i ≤ n.size → IsAt s next (n.separators i) level (low_of low n.keys i)

-- `n` has the keys of `old` from `a` on, `c` of them, and the children behind them.
pub record IsSlice (old : Node) (a c : ℕ) (n : Node) : Type 0 where
  pub slice_inner : n.is_leaf ≡ false
  pub slice_size : n.size ≡ c
  pub slice_keys : (i : ℕ) → i < c → n.keys i ≡ old.keys (i + a)
  pub slice_children : (i : ℕ) → 0 < i → i ≤ c → n.separators i ≡ old.separators (i + a)

module _ {l : Layout} {s : Shape} {next : Ptr} {level : ℕ} {low high : Key} where
  pub slice-IsInnerPart :
      (old n : Node) (a c : ℕ) (low' high' : Key)
      → IsInnerPart l s next level low high old
      → IsSlice old a c n
      → a + c ≤ old.size
      → ((i : ℕ) → i < c → (low' < old.keys (i + a)) × (old.keys (i + a) < high'))
      → IsAt s next (n.separators 0) level low'
      → IsInnerPart l s next level low' high' n
  slice-IsInnerPart old n a c low' high' part slice fits bounds first = record {
    inner = slice.slice_inner;
    within = omega (arith, slice.slice_size, part.within);
    sorted = λ i j p q. ground (
      arith,
      slice.slice_size,
      slice.slice_keys i,
      slice.slice_keys j,
      part.sorted (i + a) (j + a),
    );
    keys_in = λ i p. ground (arith, slice.slice_size, slice.slice_keys i, bounds i);
    children = children;
  }
    where
      children : (i : ℕ) → i ≤ n.size → IsAt s next (n.separators i) level (low_of low' n.keys i)
      children i p = elim (Bool-cases (i == 0)) [
        | inl zeroth ↦ let e : i ≡ 0 = ground arith in rw e first
        | inr later ↦
            let at = part.children (i + a) (omega (arith, slice.slice_size)) in
            let e : n.separators i ≡ old.separators (i + a) =
              slice.slice_children i (ground arith) (omega (arith, slice.slice_size)) in
            let k : n.keys (i - 1) ≡ old.keys (i - 1 + a) =
              slice.slice_keys (i - 1) (ground (arith, slice.slice_size)) in
            rw (e, later)
              (record {
                not_null = at.not_null;
                below_next = at.below_next;
                at_level = at.at_level;
                at_low = ground (arith, at.at_low, k);
              })
      ]

  -- An insertion between the bounds keeps the piece.
  pub insert_child-IsInnerPart :
      (n : Node) (key : Key) (separator : Ptr)
      → IsInnerPart l s next level low high n
      → IsRoomy l
      → n.size < max_keys l
      → ¬ HoldsKey n.keys n.size key
      → low < key
      → key < high
      → IsAt s next separator level key
      → IsInnerPart l s next level low high (insert_child n key separator)
  insert_child-IsInnerPart n key separator part roomy room absent above below at =
      let small : n.size + 1 < 2 ^ 16 = omega arith in
      let ins = insert_child-InsertsSeparator n key separator part.sorted small absent in
      record {
        inner = ins.header.same_leaf ∙ part.inner;
        within = omega (arith, ins.grown);
        sorted = rw ins.grown (insert_child-IsSorted n key separator part.sorted small absent);
        keys_in = rw ins.grown (
            insert_child-bounds n key separator part.sorted small absent (suc low) high part.keys_in
              above below);
        children = rw ins.grown (
            insert_child-children n key separator part.sorted small absent
              (λ q k. IsAt s next q level k) low part.children at);
      }
