-- ===== src/Blinktree/Tree/LeafHalves.antt =====
-- `Tree::split_leaf_node` of src/indices/blinktree/tree.cpp: the halves of a full leaf before the
-- new entry goes in.
use btree_benchmarks.Prelude.{
  ℕ, ◌+◌, ◌-◌, ◌/◌, ◌<◌, ◌≡◌, ◌↔◌, ◌⊎◌, inl, inr, true, arith, dec_lt, refl, sym, ◌∙◌,
}
use btree_benchmarks.Blinktree.Node.{Ptr, Key, Value, Layout, max_items, Node, copy}
use btree_benchmarks.Blinktree.Node.Search.{IsSorted}
use btree_benchmarks.Blinktree.Node.Contents.{Holds}
use btree_benchmarks.Blinktree.Tree.{Halves, halve_leaf}
use btree_benchmarks.Blinktree.Tree.Shape.{IsRoomy}

-- What the halves of a leaf are before the new entry goes in.
pub record AreHalves (l : Layout) (old : Node) (address : Ptr) (h : Halves) : Type 0 where
  pub left_size : h.left.size ≡ max_items l / 2
  pub right_size : h.right.size ≡ max_items l - max_items l / 2
  pub left_keys : (i : ℕ) → h.left.keys i ≡ old.keys i
  pub left_values : (i : ℕ) → h.left.values i ≡ old.values i
  pub right_keys :
      (i : ℕ) → i < max_items l - max_items l / 2 → h.right.keys i ≡ old.keys (i + max_items l / 2)
  pub right_values :
      (i : ℕ)
      → i < max_items l - max_items l / 2
      → h.right.values i ≡ old.values (i + max_items l / 2)
  pub left_leaf : h.left.is_leaf ≡ true
  pub right_leaf : h.right.is_leaf ≡ true
  pub left_right : h.left.right_sibling ≡ address
  pub right_high : h.right.high_key ≡ old.high_key
  pub right_right : h.right.right_sibling ≡ old.right_sibling

pub halve_leaf-AreHalves :
    (l : Layout) (old new : Node) (address : Ptr)
    → old.is_leaf ≡ true
    → new.is_leaf ≡ true
    → AreHalves l old address (halve_leaf l old new address)
unfolding halve_leaf copy
halve_leaf-AreHalves l old new address leaf leaf' = record {
  left_size = refl;
  right_size = refl;
  left_keys = λ i. refl;
  left_values = λ i. refl;
  right_keys = λ i h. ground arith;
  right_values = λ i h. ground arith;
  left_leaf = leaf;
  right_leaf = ground arith;
  left_right = refl;
  right_high = refl;
  right_right = refl;
}

module _ {l : Layout} {old : Node} {address : Ptr} {h : Halves} (roomy : IsRoomy l)
    (full : old.size ≡ max_items l) (sorted : IsSorted old.keys old.size)
    (halves : AreHalves l old address h) where
  pub left-IsSorted : IsSorted h.left.keys h.left.size
  left-IsSorted i j p q =
      ground (arith, halves.left_size, halves.left_keys i, halves.left_keys j, sorted i j)

  pub right-IsSorted : IsSorted h.right.keys h.right.size
  right-IsSorted i j p q = ground (
    arith,
    halves.right_size,
    halves.right_keys i,
    halves.right_keys j,
    sorted (i + max_items l / 2) (j + max_items l / 2),
  )

  -- The entries of the leaf are those of its halves.
  pub Holds-halves :
      (k : Key) (v : Value)
      → Holds old.keys old.values old.size k v ↔ (
          Holds h.left.keys h.left.values h.left.size k v
          ⊎ Holds h.right.keys h.right.values h.right.size k v)
  Holds-halves k v = (there, back)
    where
      there :
          Holds old.keys old.values old.size k v
          → Holds h.left.keys h.left.values h.left.size k v
            ⊎ Holds h.right.keys h.right.values h.right.size k v
      there (i, p, ek, ev) = elim (dec_lt i (max_items l / 2)) [
        | yes low ↦
            inl (
              i,
              omega (arith, halves.left_size),
              halves.left_keys i ∙ ek,
              halves.left_values i ∙ ev,
            )
        | no high ↦ inr (
          i - max_items l / 2,
          omega (arith, halves.right_size),
          ground (arith, halves.right_keys (i - max_items l / 2)),
          ground (arith, halves.right_values (i - max_items l / 2)),
        )
      ]

      back :
          Holds h.left.keys h.left.values h.left.size k v
            ⊎ Holds h.right.keys h.right.values h.right.size k v
          → Holds old.keys old.values old.size k v
      back (inl (i, p, ek, ev)) = (
        i,
        omega (arith, halves.left_size, full, roomy.room),
        sym (halves.left_keys i) ∙ ek,
        sym (halves.left_values i) ∙ ev,
      )
      back (inr (i, p, ek, ev)) = (
        i + max_items l / 2,
        omega (arith, halves.right_size, full),
        ground (arith, halves.right_size, halves.right_keys i),
        ground (arith, halves.right_size, halves.right_values i),
      )
