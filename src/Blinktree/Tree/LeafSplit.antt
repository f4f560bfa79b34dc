-- ===== src/Blinktree/Tree/LeafSplit.antt =====
-- `Tree::split_leaf_node` of src/indices/blinktree/tree.cpp: a full leaf and a new entry.
use btree_benchmarks.Prelude.{
  ℕ, ◌+◌, ◌/◌, ◌≤◌, ◌<◌, ◌≡◌, ◌↔◌, ◌⊎◌, inl, inr, true, arith, ltb, Bool-cases, sym, ◌∙◌, refl,
  ltb→lt, ltb→le,
}
use btree_benchmarks.Prelude.Iff.{iff_gain_left, iff_gain_right}
use btree_benchmarks.Blinktree.Node.{Ptr, Key, Value, Layout, max_items, Node, index}
use btree_benchmarks.Blinktree.Node.Search.{IsSorted}
use btree_benchmarks.Blinktree.Node.Insert.{InsertsValue}
use btree_benchmarks.Blinktree.Node.Contents.{Holds, HoldsKey}
use btree_benchmarks.Blinktree.Node.LeafInsert.{
  insert_entry, insert_entry-InsertsValue, insert_entry-first, insert_entry-Holds,
}
use btree_benchmarks.Blinktree.Tree.{Halves, split_leaf}
use btree_benchmarks.Blinktree.Tree.LeafHalves.{
  AreHalves, left-IsSorted, right-IsSorted, Holds-halves,
}
use btree_benchmarks.Blinktree.Tree.Shape.{Shape, IsRoomy, NodeFits, split_shape}
use btree_benchmarks.Blinktree.Tree.LeafPart.{
  IsPart, insert_entry-IsPart, left-NodeFits, right-NodeFits,
}

-- The nodes that a split of `old`, at `p`, leaves at `p` and `next`, when `(key, value)` goes in.
pub record SplitsLeaf (l : Layout) (s : Shape) (next p : Ptr) (old : Node) (key : Key)
    (value : Value) (sep : Key) (h : Halves) : Type 0 where
  pub sep_first : h.right.keys 0 ≡ sep
  pub sep_above : s.low p < sep
  pub sep_below : sep < s.high p
  pub left_leaf : h.left.is_leaf ≡ true
  pub right_leaf : h.right.is_leaf ≡ true
  pub left_fits : NodeFits l (split_shape s p next sep) (next + 1) p h.left
  pub right_fits : NodeFits l (split_shape s p next sep) (next + 1) next h.right
  pub contents :
      (k : Key) (v : Value)
      → (Holds h.left.keys h.left.values h.left.size k v
          ⊎ Holds h.right.keys h.right.values h.right.size k v)
        ↔ (((k ≡ key) × (v ≡ value)) ⊎ Holds old.keys old.values old.size k v)

module _ {l : Layout} {s : Shape} {next p : Ptr} {old : Node} {key : Key} (value : Value)
    {h : Halves} (roomy : IsRoomy l) (fits : NodeFits l s next p old) (leaf : old.is_leaf ≡ true)
    (below : p < next) (full : old.size ≡ max_items l) (above_low : s.low p ≤ key)
    (below_high : key < s.high p) (absent : ¬ HoldsKey old.keys old.size key)
    (halves : AreHalves l old next h) where
  absent_left : ¬ HoldsKey h.left.keys h.left.size key
  absent_left (i, q, e) = absent (i, omega (arith, halves.left_size), sym (halves.left_keys i) ∙ e)

  absent_right : ¬ HoldsKey h.right.keys h.right.size key
  absent_right (i, q, e) = absent (
    i + max_items l / 2,
    omega (arith, halves.right_size),
    ground (arith, halves.right_size, halves.right_keys i),
  )

  left_half-IsSorted : IsSorted h.left.keys h.left.size
  left_half-IsSorted = left-IsSorted roomy full fits.sorted halves

  right_half-IsSorted : IsSorted h.right.keys h.right.size
  right_half-IsSorted = right-IsSorted roomy full fits.sorted halves

  left_bounds :
      (i : ℕ) → i < h.left.size → (s.low p ≤ h.left.keys i) × (h.left.keys i < h.right.keys 0)
  left_bounds i q = ground (
    arith,
    halves.left_size,
    roomy.room,
    halves.left_keys i,
    halves.right_keys 0,
    fits.keys_in i,
    fits.sorted i (max_items l / 2),
  )

  right_bounds :
      (i : ℕ) → i < h.right.size → (h.right.keys 0 ≤ h.right.keys i) × (h.right.keys i < s.high p)
  right_bounds i q = ground (
    arith,
    halves.right_size,
    halves.right_keys 0,
    halves.right_keys i,
    fits.keys_in (i + max_items l / 2),
    fits.sorted (max_items l / 2) (i + max_items l / 2),
  )

  sep_bounds : (s.low p < h.right.keys 0) × (h.right.keys 0 < s.high p)
  sep_bounds =
      ground (arith, halves.left_size, halves.right_size, roomy.room, left_bounds 0, right_bounds 0)

  left-IsPart : IsPart l (s.low p) (h.right.keys 0) h.left
  left-IsPart = record {
    leaf = halves.left_leaf;
    within = omega (arith, halves.left_size);
    sorted = left_half-IsSorted;
    keys_in = left_bounds;
  }

  right-IsPart : IsPart l (h.right.keys 0) (s.high p) h.right
  right-IsPart = record {
    leaf = halves.right_leaf;
    within = omega (arith, halves.right_size);
    sorted = right_half-IsSorted;
    keys_in = right_bounds;
  }

  module _ (smaller : key < h.right.keys 0) where
    in_left : Node
    in_left = insert_entry h.left key value

    in_left_inserts : InsertsValue h.left (index h.left key) value key in_left
    unfolding in_left
    in_left_inserts =
        insert_entry-InsertsValue l h.left key value left_half-IsSorted
          (omega (arith, halves.left_size, roomy.room)) absent_left

    in_left-IsPart : IsPart l (s.low p) (h.right.keys 0) in_left
    unfolding in_left
    in_left-IsPart =
        insert_entry-IsPart h.left key value left-IsPart
          (omega (arith, halves.left_size, roomy.room)) absent_left above_low smaller

    split_leaf-left :
        SplitsLeaf l s next p old key value
          (h.right.keys 0)
          (record h { left = record in_left { high_key = h.right.keys 0 } })
    unfolding in_left
    split_leaf-left = record {
      sep_first = refl;
      sep_above = sep_bounds.0;
      sep_below = sep_bounds.1;
      left_leaf = in_left-IsPart.leaf;
      right_leaf = halves.right_leaf;
      left_fits =
          left-NodeFits fits leaf below _ _ sep_bounds.0 sep_bounds.1 in_left-IsPart
            (in_left_inserts.header.same_right ∙ halves.left_right);
      right_fits =
          right-NodeFits fits leaf below h.right _ sep_bounds.1 right-IsPart halves.right_right
            halves.right_high;
      contents = λ k v.
          iff_gain_left
            (insert_entry-Holds l h.left key value left_half-IsSorted
              (omega (arith, halves.left_size, roomy.room)) absent_left k v)
            (Holds-halves roomy full fits.sorted halves k v);
    }

  module _ (larger : h.right.keys 0 ≤ key) where
    in_right : Node
    in_right = insert_entry h.right key value

    in_right_inserts : InsertsValue h.right (index h.right key) value key in_right
    unfolding in_right
    in_right_inserts =
        insert_entry-InsertsValue l h.right key value right_half-IsSorted
          (omega (arith, halves.right_size, roomy.room)) absent_right

    in_right-IsPart : IsPart l (h.right.keys 0) (s.high p) in_right
    unfolding in_right
    in_right-IsPart =
        insert_entry-IsPart h.right key value right-IsPart
          (omega (arith, halves.right_size, roomy.room)) absent_right larger below_high

    in_right_first : in_right.keys 0 ≡ h.right.keys 0
    unfolding in_right
    in_right_first =
        insert_entry-first l h.right key value right_half-IsSorted
          (omega (arith, halves.right_size, roomy.room)) absent_right
          (omega (arith, halves.right_size, roomy.room)) larger

    split_leaf-right :
        SplitsLeaf l s next p old key value
          (h.right.keys 0)
          (record { left = record h.left { high_key = in_right.keys 0 }; right = in_right })
    unfolding in_right
    split_leaf-right = rw in_right_first (record {
      sep_first = in_right_first;
      sep_above = sep_bounds.0;
      sep_below = sep_bounds.1;
      left_leaf = halves.left_leaf;
      right_leaf = in_right-IsPart.leaf;
      left_fits =
          left-NodeFits fits leaf below h.left _ sep_bounds.0 sep_bounds.1 left-IsPart
            halves.left_right;
      right_fits =
          right-NodeFits fits leaf below in_right _ sep_bounds.1 in_right-IsPart
            (in_right_inserts.header.same_right ∙ halves.right_right)
            (in_right_inserts.header.same_high ∙ halves.right_high);
      contents = λ k v.
          iff_gain_right
            (insert_entry-Holds l h.right key value right_half-IsSorted
              (omega (arith, halves.right_size, roomy.room)) absent_right k v)
            (Holds-halves roomy full fits.sorted halves k v);
    })

  -- The split halves the leaf, puts the entry where its key belongs, and loses nothing.
  pub split_leaf-SplitsLeaf :
      SplitsLeaf l s next p old key value (h.right.keys 0) (split_leaf h key value)
  unfolding split_leaf in_left in_right
  split_leaf-SplitsLeaf = elim (Bool-cases (ltb key (h.right.keys 0))) [
    | inl smaller ↦ rw smaller (split_leaf-left (ltb→lt _ _ smaller))
    | inr larger ↦ rw larger (split_leaf-right (ltb→le _ _ larger))
  ]
