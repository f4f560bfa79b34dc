-- ===== src/Blinktree/Tree/Children.antt =====
-- Children and parent pointers of the nodes in src/indices/blinktree/tree.h.
use btree_benchmarks.Prelude.{
  ℕ, ◌+◌, ◌-◌, ◌^◌, ◌≤◌, ◌<◌, ◌≡◌, ◌⊎◌, inl, inr, sym, ◌∙◌, subst, false, arith, ℕ_discrete, dec_lt,
}
use btree_benchmarks.Blinktree.Node.{Ptr, null, Key, Layout, Node, index}
use btree_benchmarks.Blinktree.Node.Search.{IsSorted, index-IsLowerBound}
use btree_benchmarks.Blinktree.Node.Contents.{HoldsKey}
use btree_benchmarks.Blinktree.Node.SeparatorInsert.{insert_child, insert_child-InsertsSeparator}
use btree_benchmarks.Blinktree.Tree.{Tree, IsAllocated}
use btree_benchmarks.Blinktree.Tree.Shape.{Shape, IsAt, IsTree, child_low}
use btree_benchmarks.Blinktree.Tree.Parents.{SameButParent}

-- `p` is one of the separators of the node.
abbrev pub HasChild : Node → Ptr → Type 0
HasChild n p = (j : ℕ) × (j ≤ n.size) × (n.separators j ≡ p)

abbrev pub IsChildOf : {L : Type 0} → Tree L → (p q : Ptr) → Type 0
IsChildOf t p q = IsAllocated t q × ((t.nodes q).is_leaf ≡ false) × HasChild (t.nodes q) p

-- The root has no parent, and another node's parent has it as a child.
abbrev pub HasParent : {L : Type 0} → Tree L → Ptr → Type 0
HasParent t p = (((t.nodes p).parent ≡ null) × (p ≡ t.root)) ⊎ IsChildOf t p (t.nodes p).parent

pub HasChild-same : (n n' : Node) (p : Ptr) → SameButParent n n' → HasChild n p → HasChild n' p
HasChild-same n n' p e (j, inside, is) = rw e (j, inside, is)

pub HasChild-back : (n n' : Node) (p : Ptr) → SameButParent n n' → HasChild n' p → HasChild n p
HasChild-back n n' p e child = subst (λ m. HasChild m p) e child

module _ (n : Node) (key : Key) (separator : Ptr) (sorted : IsSorted n.keys n.size)
    (small : n.size + 1 < 2 ^ 16) (absent : ¬ HoldsKey n.keys n.size key) where
  -- The children stay when another one goes in.
  pub insert_child-HasChild :
      (p : Ptr) → HasChild n p ⊎ (p ≡ separator) → HasChild (insert_child n key separator) p
  insert_child-HasChild p old =
      let ins = insert_child-InsertsSeparator n key separator sorted small absent in
      elim old [
        | inr e ↦ (
          index n key + 1,
          omega (arith, ins.grown, (index-IsLowerBound n key sorted (omega (arith, small))).inside),
          ins.separators_inserted.here ∙ sym e,
        )
        | inl (j, within, is) ↦ elim (dec_lt j (index n key + 1)) [
          | yes left ↦
              (j, omega (arith, within, ins.grown), ins.separators_inserted.before j left ∙ is)
          | no right ↦ (
            j + 1,
            omega (arith, within, ins.grown),
            ins.separators_inserted.behind j (omega (arith, right)) (omega (arith, within)) ∙ is,
          )
        ]
      ]

module _ {L : Type 0} {l : Layout} {s : Shape} {t : Tree L} (tree : IsTree l s t) (q : Ptr)
    (at : IsAllocated t q) (inner : (t.nodes q).is_leaf ≡ false) where
  level_above : 0 < s.level q
  level_above = ground (arith, (tree.nodes_fit q at).kind, inner)

  -- Each node that begins before an inner node's right sibling, and no deeper than its children, ends there.
  pub ends_within :
      (c : Ptr)
      → IsAllocated t c
      → s.level c ≡ s.level q - 1
      → s.low c < s.high q
      → s.high c ≤ s.high q
  ends_within c at_c level begins =
      let fits = tree.nodes_fit q at in
      elim (ℕ_discrete (t.nodes q).right_sibling null) [
        | yes e ↦ omega (arith, fits.rightmost e, (tree.nodes_fit c at_c).capped)
        | no e ↦
            let r = fits.linked e in
            let at_r : IsAllocated t (t.nodes q).right_sibling = (r.not_null, r.below_next) in
            let fits_r = tree.nodes_fit (t.nodes q).right_sibling at_r in
            let inner_r : (t.nodes (t.nodes q).right_sibling).is_leaf ≡ false =
              ground (arith, fits_r.kind, r.at_level, level_above) in
            let first = fits_r.children inner_r 0 (omega arith) in
            let first_low : s.low ((t.nodes (t.nodes q).right_sibling).separators 0) ≡ s.high q =
              ground (arith, first.at_low, r.at_low) in
            let range =
              (tree.nodes_fit ((t.nodes (t.nodes q).right_sibling).separators 0)
                (first.not_null, first.below_next)).range in
            ground (
              arith,
              first_low,
              range,
              begins,
              level,
              first.at_level,
              r.at_level,
              tree.apart c ((t.nodes (t.nodes q).right_sibling).separators 0) at_c
                  (first.not_null, first.below_next),
            )
      ]

  -- The keys that a child is responsible for are its parent's.
  pub child_within :
      (c : Ptr)
      → HasChild (t.nodes q) c
      → IsAllocated t c × (s.level c ≡ s.level q - 1) × (s.low q ≤ s.low c) × (s.high c ≤ s.high q)
  child_within c (j, inside, is) =
      let fits = tree.nodes_fit q at in
      let child =
        subst (λ x. IsAt s t.next x (s.level q - 1) (child_low s q (t.nodes q) j)) is
          (fits.children inner j inside) in
      let low : (s.low q ≤ s.low c) × (s.low c < s.high q) =
        ground (arith, child.at_low, fits.range, fits.keys_in (j - 1)) in
      let at_c : IsAllocated t c = (child.not_null, child.below_next) in
      (at_c, child.at_level, low.0, ends_within c at_c child.at_level low.1)
