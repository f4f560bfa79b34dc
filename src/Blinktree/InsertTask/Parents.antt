-- ===== src/Blinktree/InsertTask/Parents.antt =====
-- The parent pointers after the insertions of src/indices/blinktree/tbb/insert_task.cpp that split no
-- inner node.
use btree_benchmarks.Prelude.{
  ◌+◌, ◌^◌, ◌≤◌, ◌<◌, ◌≡◌, ◌≢◌, ◌⊎◌, inl, inr, refl, sym, ◌∙◌, ap, subst, true, false, arith, ltb,
  ==_iff, ne→==, Bool-cases, ℕ_discrete,
}
use btree_benchmarks.Blinktree.Node.{Ptr, Key, Value, Layout, Node, insert_value}
use btree_benchmarks.Blinktree.Node.Insert.{SameHeader}
use btree_benchmarks.Blinktree.Node.Search.{IsSorted}
use btree_benchmarks.Blinktree.Node.Contents.{HoldsKey}
use btree_benchmarks.Blinktree.Node.SeparatorInsert.{insert_child, insert_child-InsertsSeparator}
use btree_benchmarks.Blinktree.Tree.{
  Tree, Halves, IsAllocated, set_node, set_parent, split_leaf_node, halve_leaf, split_leaf,
  create_node,
}
use btree_benchmarks.Blinktree.Tree.Parents.{SameButParent, set_parent-SameButParents}
use btree_benchmarks.Blinktree.Tree.Children.{
  HasChild, IsChildOf, HasParent, HasChild-same, insert_child-HasChild,
}

pub insert_value-parent :
    (n : Node) (i : Ptr) (value : Value) (key : Key)
    → (insert_value n i value key).parent ≡ n.parent
unfolding insert_value
insert_value-parent n i value key = elim (Bool-cases (ltb i n.size)) [
  | inl e ↦ rw e refl
  | inr e ↦ rw e refl
]

split_leaf-parent :
    (h : Halves) (key : Key) (value : Value) → (split_leaf h key value).left.parent ≡ h.left.parent
unfolding split_leaf
split_leaf-parent h key value = elim (Bool-cases (ltb key (h.right.keys 0))) [
  | inl e ↦ rw e (insert_value-parent h.left _ value key)
  | inr e ↦ rw e refl
]

halve_leaf-parent :
    (l : Layout) (old new : Node) (address : Ptr)
    → (halve_leaf l old new address).left.parent ≡ old.parent
unfolding halve_leaf
halve_leaf-parent l old new address = refl

-- A split leaf keeps its parent.
pub split_leaf_node-parent :
    {L : Type 0} (l : Layout) (fresh : L) (p : Ptr) (key : Key) (value : Value) (t : Tree L)
    → IsAllocated t p
    → ((split_leaf_node l fresh p key value t).1.nodes p).parent ≡ (t.nodes p).parent
unfolding split_leaf_node create_node
split_leaf_node-parent l fresh p key value t at =
    rw (ne→== p t.next (omega (arith, at)), (==_iff p p).1 refl)
      (split_leaf-parent _ key value ∙ halve_leaf-parent l (t.nodes p) _ t.next)

module _ {L : Type 0} (t t' : Tree L) (q : Ptr) (leaf : (t.nodes q).is_leaf ≡ true)
    (more : t.next ≤ t'.next) (same_root : t'.root ≡ t.root)
    (same_parent : (t'.nodes q).parent ≡ (t.nodes q).parent)
    (others : (r : Ptr) → IsAllocated t r → r ≢ q → t'.nodes r ≡ t.nodes r) where
  -- When no node but a leaf changes, and that one keeps its parent, all nodes keep theirs.
  pub leaf_change-HasParent : (r : Ptr) → IsAllocated t r → HasParent t r → HasParent t' r
  leaf_change-HasParent r at has = elim has [
    | inl (none_above, is_root) ↦ inl (parent ∙ none_above, is_root ∙ sym same_root)
    | inr (at_p, inner, child) ↦
        let not_q : (t.nodes r).parent ≢ q = λ e. cc (inner, leaf, e) in
        let kept = others (t.nodes r).parent at_p not_q in
        inr (rw (parent, kept) ((at_p.0, omega (arith, at_p, more)), inner, child))
  ]
    where
      parent : (t'.nodes r).parent ≡ (t.nodes r).parent
      parent = elim (ℕ_discrete r q) [
        | yes e ↦ rw e same_parent
        | no other ↦ ap (λ (n : Node). n.parent) (others r at other)
      ]

module _ {L : Type 0} (t : Tree L) (q : Ptr) (key : Key) (separator : Ptr) (at : IsAllocated t q)
    (inner : (t.nodes q).is_leaf ≡ false) (sorted : IsSorted (t.nodes q).keys (t.nodes q).size)
    (small : (t.nodes q).size + 1 < 2 ^ 16)
    (absent : ¬ HoldsKey (t.nodes q).keys (t.nodes q).size key) (other : q ≢ separator) where
  abbrev with_child : Tree L
  with_child = set_node t q (insert_child (t.nodes q) key separator)

  abbrev pub linked : Tree L
  linked = set_parent with_child separator q

  header : SameHeader (t.nodes q) (insert_child (t.nodes q) key separator)
  header = (insert_child-InsertsSeparator (t.nodes q) key separator sorted small absent).header

  here : linked.nodes q ≡ insert_child (t.nodes q) key separator
  here = rw (ne→== q separator other, (==_iff q q).1 refl) refl

  others : (r : Ptr) → r ≢ q → SameButParent (t.nodes r) (linked.nodes r)
  others r not_q =
      let same : with_child.nodes r ≡ t.nodes r = rw (ne→== r q not_q) refl in
      subst (λ n. SameButParent n (linked.nodes r)) same
        ((set_parent-SameButParents with_child separator q).same_nodes r)

  kept : (r : Ptr) → r ≢ separator → (linked.nodes r).parent ≡ (t.nodes r).parent
  kept r not_new = elim (ℕ_discrete r q) [
    | yes e ↦ rw e (ap (λ (n : Node). n.parent) here ∙ header.same_parent)
    | no not_q ↦ rw (ne→== r separator not_new, ne→== r q not_q) refl
  ]

  new_children : (r : Ptr) → HasChild (t.nodes q) r ⊎ (r ≡ separator) → IsChildOf linked r q
  new_children r has = (
    at,
    ap (λ (n : Node). n.is_leaf) here ∙ header.same_leaf ∙ inner,
    subst (λ n. HasChild n r) (sym here)
        (insert_child-HasChild (t.nodes q) key separator sorted small absent r has),
  )

  new-parent : (linked.nodes separator).parent ≡ q
  new-parent = rw ((==_iff separator separator).1 refl) refl

  kept-HasParent : (r : Ptr) → r ≢ separator → HasParent t r → HasParent linked r
  kept-HasParent r not_new (inl (none_above, is_root)) = inl (kept r not_new ∙ none_above, is_root)
  kept-HasParent r not_new (inr (at_p, inner_p, has)) =
      let p = (t.nodes r).parent in
      inr (
        rw (kept r not_new) (elim (ℕ_discrete p q) [
          | yes e ↦
              subst (IsChildOf linked r) (sym e)
                (new_children r (inl (subst (λ x. HasChild (t.nodes x) r) e has)))
          | no not_q ↦ (
            at_p,
            ap (λ (n : Node). n.is_leaf) (others p not_q) ∙ inner_p,
            HasChild-same (t.nodes p) (linked.nodes p) r (others p not_q) has,
          )
        ]))

  -- The new child has its parent, and every other node keeps it.
  pub set_child-HasParent :
      ((r : Ptr) → IsAllocated t r → r ≢ separator → HasParent t r)
      → (r : Ptr) → IsAllocated t r
      → HasParent linked r
  set_child-HasParent before r at_r = elim (ℕ_discrete r separator) [
    | yes e ↦
        subst (HasParent linked) (sym e) (inr (rw new-parent (new_children separator (inr refl))))
    | no not_new ↦ kept-HasParent r not_new (before r at_r not_new)
  ]
