-- ===== src/Blinktree/Tree/InnerSplitTree/NewParents.antt =====
-- `Tree::split_inner_node` of src/indices/blinktree/tree.cpp: the parent pointers that it leaves.
use btree_benchmarks.Prelude.{
  ◌+◌, ◌-◌, ◌/◌, ◌<◌, ◌≡◌, ◌≢◌, ◌⊎◌, inl, inr, refl, Bool, sym, ◌∙◌, ap, subst, true, false, arith,
  ltb, ==_iff, ne→==, Bool-cases, ℕ_discrete,
}
use btree_benchmarks.Blinktree.Node.{Ptr, Key, Layout, max_keys, Node, insert_separator}
use btree_benchmarks.Blinktree.Node.Contents.{HoldsKey}
use btree_benchmarks.Blinktree.Tree.{
  Tree, IsAllocated, InnerHalves, split_inner, split_inner_low, split_inner_middle,
  split_inner_high, split_inner_node,
}
use btree_benchmarks.Blinktree.Tree.Shape.{Shape, IsRoomy, IsAt, IsTree}
use btree_benchmarks.Blinktree.Tree.Parents.{SameButParent, adopt-parent, adopt-adopted}
use btree_benchmarks.Blinktree.Tree.Children.{HasChild, IsChildOf, HasParent, HasChild-same}
use btree_benchmarks.Blinktree.Tree.InnerChildren.{KeepsChildren, split_inner-KeepsChildren}
use btree_benchmarks.Blinktree.Tree.InnerSplitTree.{
  after, halves, marked, written, marked-old, written-left, written-others, created-old, after-left,
  after-right, after-others, e_next, e_root, splits, split_inner_node-after,
}

insert_separator-parent :
    (n : Node) (i : Ptr) (separator : Ptr) (key : Key)
    → (insert_separator n i separator key).parent ≡ n.parent
unfolding insert_separator
insert_separator-parent n i separator key = elim (Bool-cases (ltb i n.size)) [
  | inl e ↦ rw e refl
  | inr e ↦ rw e refl
]

split_inner-parent :
    (l : Layout) (old new : Node) (address : Ptr) (key : Key) (separator : Ptr)
    → (split_inner l old new address key separator).left.parent ≡ old.parent
unfolding split_inner split_inner_low split_inner_middle split_inner_high
split_inner-parent l old new address key separator =
    elim (Bool-cases (ltb key (old.keys (max_keys l / 2 - 1)))) [
      | inl low ↦ rw low (insert_separator-parent _ _ separator key)
      | inr not_low ↦ elim (Bool-cases (ltb key (old.keys (max_keys l / 2)))) [
        | inl middle ↦ rw (not_low, middle) refl
        | inr high ↦ rw (not_low, high) refl
      ]
    ]

module _ {L : Type 0} {l : Layout} {s : Shape} {t : Tree L} {p : Ptr} {key : Key} {separator : Ptr}
    (fresh : L) (roomy : IsRoomy l) (tree : IsTree l s t) (at : IsAllocated t p)
    (inner : (t.nodes p).is_leaf ≡ false) (full : (t.nodes p).size ≡ max_keys l)
    (above_low : s.low p < key) (below_high : key < s.high p)
    (absent : ¬ HoldsKey (t.nodes p).keys (t.nodes p).size key)
    (child : IsAt s t.next separator (s.level p - 1) key) where
  -- The new tree, and the steps to it.
  abbrev new_tree : Tree L
  new_tree = after fresh roomy tree at inner full above_low below_high absent child

  abbrev new_halves : InnerHalves
  new_halves = halves fresh roomy tree at inner full above_low below_high absent child

  abbrev marked_tree : Tree L
  marked_tree = marked fresh roomy tree at inner full above_low below_high absent child

  abbrev written_tree : Tree L
  written_tree = written fresh roomy tree at inner full above_low below_high absent child

  old_p : SameButParent (t.nodes p) (marked_tree.nodes p)
  old_p =
      marked-old fresh roomy tree at inner full above_low below_high absent child p
        (omega (arith, at))

  abbrev is_low : Bool
  is_low = ltb key ((t.nodes p).keys (max_keys l / 2 - 1))

  keeps : KeepsChildren (t.nodes p) separator is_low new_halves
  unfolding halves
  keeps = rw old_p (
      let k =
        split_inner-KeepsChildren {l = l}
          (record (t.nodes p) { parent = (marked_tree.nodes p).parent }) (marked_tree.nodes t.next)
          t.next key separator roomy inner (tree.nodes_fit p at).sorted full absent in
      record { kept = k.kept; taken = k.taken })

  -- The children of the new node have it as their parent.
  right-parent : (r : Ptr) → HasChild new_halves.right r → (new_tree.nodes r).parent ≡ t.next
  unfolding after written
  right-parent r (j, inside, is) =
      adopt-adopted _ 0 _ t.next _ r j (omega arith) (omega (arith, inside)) is

  halves-parent : new_halves.left.parent ≡ (marked_tree.nodes p).parent
  unfolding halves
  halves-parent = split_inner-parent l (marked_tree.nodes p) _ t.next key separator

  written-parent :
      (r : Ptr) → r ≢ t.next → (written_tree.nodes r).parent ≡ (marked_tree.nodes r).parent
  written-parent r old = elim (ℕ_discrete r p) [
    | yes e ↦ rw e (
        ap (λ (n : Node). n.parent)
          (written-left fresh roomy tree at inner full above_low below_high absent child)
        ∙ halves-parent)
    | no other ↦
        ap (λ (n : Node). n.parent)
          (written-others fresh roomy tree at inner full above_low below_high absent child r other
            old)
  ]

  -- Others have the parent that they had before the loop.
  other-parent :
      (r : Ptr)
      → r ≢ t.next
      → ((new_tree.nodes r).parent ≡ (marked_tree.nodes r).parent) ⊎ HasChild new_halves.right r
  unfolding after written
  other-parent r old =
      elim (adopt-parent (new_halves.right.size + 1) 0 new_halves.right.separators t.next
        written_tree r) [
          | inl same ↦ inl (same ∙ written-parent r old)
          | inr (k, above, below, e) ↦ inr (k, omega (arith, below), e)
        ]

  marked-parent :
      (r : Ptr) → r ≢ t.next → r ≢ separator → (marked_tree.nodes r).parent ≡ (t.nodes r).parent
  unfolding marked
  marked-parent r old other = elim (Bool-cases is_low) [
    | inl low ↦
        rw
          (
            created-old fresh roomy tree at inner full above_low below_high absent child p
                (omega (arith, at)),
            low,
          )
          (rw (ne→== r separator other) (
            ap (λ (n : Node). n.parent)
              (created-old fresh roomy tree at inner full above_low below_high absent child r old)))
    | inr high ↦
        rw
          (
            created-old fresh roomy tree at inner full above_low below_high absent child p
                (omega (arith, at)),
            high,
          )
          (ap (λ (n : Node). n.parent)
            (created-old fresh roomy tree at inner full above_low below_high absent child r old))
  ]

  low-parent : is_low ≡ true → (marked_tree.nodes separator).parent ≡ p
  unfolding marked
  low-parent low =
      rw
        (
          created-old fresh roomy tree at inner full above_low below_high absent child p
              (omega (arith, at)),
          low,
        )
        (rw ((==_iff separator separator).1 refl) refl)

  by_parent :
      (r q : Ptr) → (new_tree.nodes r).parent ≡ q → IsChildOf new_tree r q → HasParent new_tree r
  by_parent r q e is_child = inr (rw e is_child)

  left_child : (r : Ptr) → HasChild new_halves.left r → IsChildOf new_tree r p
  left_child r has =
      let kept = after-left fresh roomy tree at inner full above_low below_high absent child in
      (
        (
          at.0,
          omega
              (arith, at, e_next fresh roomy tree at inner full above_low below_high absent child),
        ),
        ap (λ (n : Node). n.is_leaf) kept
            ∙ (splits fresh roomy tree at inner full above_low below_high absent child).left_inner,
        HasChild-same new_halves.left (new_tree.nodes p) r kept has,
      )

  right_child : (r : Ptr) → HasChild new_halves.right r → HasParent new_tree r
  right_child r has =
      let kept = after-right fresh roomy tree at inner full above_low below_high absent child in
      by_parent r t.next (right-parent r has) (
        (
          omega (arith, at),
          omega (arith, e_next fresh roomy tree at inner full above_low below_high absent child),
        ),
        ap (λ (n : Node). n.is_leaf) kept
            ∙ (splits fresh roomy tree at inner full above_low below_high absent child).right_inner,
        HasChild-same new_halves.right (new_tree.nodes t.next) r kept has,
      )

  separator-HasParent : HasParent new_tree separator
  separator-HasParent = elim keeps.taken [
    | inl right ↦ right_child separator right
    | inr (low, left) ↦ elim (other-parent separator (omega (arith, child.below_next))) [
      | inl same ↦ by_parent separator p (same ∙ low-parent low) (left_child separator left)
      | inr right ↦ right_child separator right
    ]
  ]

  same-HasParent :
      (r : Ptr)
      → (new_tree.nodes r).parent ≡ (t.nodes r).parent
      → HasParent t r
      → HasParent new_tree r
  same-HasParent r same (inl (none_above, is_root)) = inl (
    same ∙ none_above,
    is_root ∙ sym (e_root fresh roomy tree at inner full above_low below_high absent child),
  )
  same-HasParent r same (inr (at_q, inner_q, has)) = elim (ℕ_discrete (t.nodes r).parent p) [
    | yes e ↦ elim (keeps.kept r (subst (λ q. HasChild (t.nodes q) r) e has)) [
      | inl left ↦ by_parent r p (same ∙ e) (left_child r left)
      | inr right ↦ right_child r right
    ]
    | no other ↦
        let kept =
          after-others fresh roomy tree at inner full above_low below_high absent child
            (t.nodes r).parent other (omega (arith, at_q)) in
        by_parent r (t.nodes r).parent same (
          (
            at_q.0,
            omega (
              arith,
              at_q,
              e_next fresh roomy tree at inner full above_low below_high absent child,
            ),
          ),
          ap (λ (n : Node). n.is_leaf) kept ∙ inner_q,
          HasChild-same (t.nodes (t.nodes r).parent) (new_tree.nodes (t.nodes r).parent) r kept has,
        )
  ]

  -- When each node but the new child had its parent before the split, each but the new node has it
  -- afterwards.
  pub split_inner_node-HasParent :
      ((r : Ptr) → IsAllocated t r → r ≢ separator → HasParent t r)
      → (r : Ptr) → IsAllocated t r
      → HasParent (split_inner_node l fresh p key separator t).2 r
  split_inner_node-HasParent before r at_r =
      rw (split_inner_node-after fresh roomy tree at inner full above_low below_high absent child)
        (elim (ℕ_discrete r separator) [
          | yes e ↦ subst (HasParent new_tree) (sym e) separator-HasParent
          | no other ↦ elim (other-parent r (omega (arith, at_r))) [
            | inr right ↦ right_child r right
            | inl same ↦
                same-HasParent r (same ∙ marked-parent r (omega (arith, at_r)) other)
                  (before r at_r other)
          ]
        ])
