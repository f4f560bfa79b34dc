-- ===== src/Blinktree/Tree/NewRoot/NewParents.antt =====
-- `Tree::create_new_root` of src/indices/blinktree/tree.cpp: the parent pointers that it leaves.
use btree_benchmarks.Prelude.{
  ◌+◌, ◌^◌, ◌<◌, ◌≡◌, ◌≢◌, inl, inr, refl, sym, ◌∙◌, ap, subst, false, arith, ==_iff, ne→==, ◌==◌,
  Bool-cases, ℕ_discrete,
}
use btree_benchmarks.Blinktree.Node.{
  Ptr, null, Key, max_key, Layout, Node, new_node, insert_separator,
}
use btree_benchmarks.Blinktree.Tree.{Tree, IsAllocated, create_node, create_new_root}
use btree_benchmarks.Blinktree.Tree.Shape.{Shape, IsRoomy, IsAt, IsTree}
use btree_benchmarks.Blinktree.Tree.Parents.{SameButParent}
use btree_benchmarks.Blinktree.Tree.Children.{HasChild, HasParent, HasChild-same}
use btree_benchmarks.Blinktree.Tree.NewRoot.{
  after, root_node, after-root, after-others, e_next, e_root,
}

module _ {L : Type 0} {l : Layout} {s : Shape} {t : Tree L} {right : Ptr} {key : Key} (fresh : L)
    (roomy : IsRoomy l) (tree : IsTree l s t) (at : IsAt s t.next right (s.level t.root) key)
    (above : 0 < key) (below : key < max_key) (low_tree : t.height + 1 < 2 ^ 16) where
  abbrev new_tree : Tree L
  new_tree = create_new_root fresh t.root right key t

  abbrev top_node : Node
  top_node = root_node fresh roomy tree at above below low_tree

  top : new_tree.nodes t.next ≡ top_node
  unfolding after
  top = after-root fresh roomy tree at above below low_tree

  next_more : new_tree.next ≡ t.next + 1
  unfolding after
  next_more = e_next fresh roomy tree at above below low_tree

  new_root : new_tree.root ≡ t.next
  unfolding after
  new_root = e_root fresh roomy tree at above below low_tree

  top-parent : top_node.parent ≡ null
  unfolding root_node new_node insert_separator
  top-parent = ground arith

  top-inner : top_node.is_leaf ≡ false
  unfolding root_node new_node insert_separator
  top-inner = ground arith

  old-kept : (q : Ptr) → q ≢ t.next → SameButParent (t.nodes q) (new_tree.nodes q)
  unfolding after
  old-kept = after-others fresh roomy tree at above below low_tree

  top-left : HasChild top_node t.root
  unfolding root_node new_node insert_separator
  top-left = (0, omega arith, ground arith)

  top-right : HasChild top_node right
  unfolding root_node new_node insert_separator
  top-right = (1, ground arith, ground arith)

  left-parent : (new_tree.nodes t.root).parent ≡ t.next
  unfolding create_new_root create_node
  left-parent =
      rw (ne→== t.root t.next (omega (arith, tree.root_at))) (elim (Bool-cases (t.root == right)) [
        | inl e ↦ rw e refl
        | inr e ↦ rw e (rw ((==_iff t.root t.root).1 refl) refl)
      ])

  right-parent : (new_tree.nodes right).parent ≡ t.next
  unfolding create_new_root create_node
  right-parent =
      rw (ne→== right t.next (omega (arith, at.below_next)), (==_iff right right).1 refl) refl

  others-parent :
      (r : Ptr)
      → r ≢ t.next
      → r ≢ t.root
      → r ≢ right
      → (new_tree.nodes r).parent ≡ (t.nodes r).parent
  unfolding create_new_root create_node
  others-parent r old not_left not_right =
      rw (ne→== r t.next old, ne→== r right not_right) (rw (ne→== r t.root not_left) refl)

  below_top :
      (r : Ptr) → (new_tree.nodes r).parent ≡ t.next → HasChild top_node r → HasParent new_tree r
  below_top r e has = inr (
      rw e (
        (omega (arith, tree.some_node), omega (arith, next_more)),
        ap (λ (n : Node). n.is_leaf) top ∙ top-inner,
        subst (λ n. HasChild n r) (sym top) has,
      ))

  -- When each node but the right one had its parent, each has it below the new root.
  pub create_new_root-HasParent :
      ((r : Ptr) → IsAllocated t r → r ≢ right → HasParent t r)
      → (r : Ptr) → IsAllocated (create_new_root fresh t.root right key t) r
      → HasParent (create_new_root fresh t.root right key t) r
  create_new_root-HasParent before r at_r = elim (ℕ_discrete r t.next) [
    | yes e ↦ inl (rw (e, top) top-parent, e ∙ sym new_root)
    | no old ↦ elim (ℕ_discrete r t.root) [
      | yes e ↦ subst (HasParent new_tree) (sym e) (below_top t.root left-parent top-left)
      | no not_left ↦ elim (ℕ_discrete r right) [
        | yes e ↦ subst (HasParent new_tree) (sym e) (below_top right right-parent top-right)
        | no not_right ↦
            elim (before r (omega (arith, at_r), omega (arith, at_r, old, next_more)) not_right) [
              | inl was_root ↦ absurd (not_left was_root.1)
              | inr was_child ↦
                  let q = (t.nodes r).parent in
                  let kept = old-kept q (omega (arith, was_child.0)) in
                  inr (
                    rw (others-parent r old not_left not_right) (
                      (omega (arith, was_child.0), omega (arith, was_child.0, next_more)),
                      ap (λ (n : Node). n.is_leaf) kept ∙ was_child.1,
                      HasChild-same (t.nodes q) (new_tree.nodes q) r kept was_child.2,
                    ))
            ]
      ]
    ]
  ]
