-- ===== src/Blinktree/Tree/Parents.antt =====
-- Changes of parent pointers in src/indices/blinktree/tree.cpp: `separator->parent(inner_node)` and
-- the loop at the end of `Tree::split_inner_node`.
use btree_benchmarks.Prelude.{
  ℕ, zero, suc, ◌+◌, ◌≡◌, refl, ◌∙◌, ap, Bool-cases, inl, inr, ◌==◌, sym, ==_iff, ◌≤◌, ◌<◌, ◌⊎◌,
  ℕ_discrete, arith,
}
use btree_benchmarks.Blinktree.Node.{Ptr, Node}
use btree_benchmarks.Blinktree.Tree.{Tree, set_parent, adopt}

-- The node but for its parent pointer.
abbrev pub SameButParent : Node → Node → Type 0
SameButParent n n' = n' ≡ record n { parent = n'.parent }

-- The tree but for the parent pointers of its nodes.
pub record SameButParents {L : Type 0} (t t' : Tree L) : Type 0 where
  pub same_nodes : (q : Ptr) → SameButParent (t.nodes q) (t'.nodes q)
  pub same_latches : t'.latches ≡ t.latches
  pub same_next : t'.next ≡ t.next
  pub same_root : t'.root ≡ t.root
  pub same_height : t'.height ≡ t.height

pub SameButParent-trans :
    (n n' n'' : Node) → SameButParent n n' → SameButParent n' n'' → SameButParent n n''
SameButParent-trans n n' n'' e f = f ∙ ap (λ (x : Node). record x { parent = n''.parent }) e

module _ {L : Type 0} where
  pub SameButParents-refl : (t : Tree L) → SameButParents t t
  SameButParents-refl t = record {
    same_nodes = λ q. refl;
    same_latches = refl;
    same_next = refl;
    same_root = refl;
    same_height = refl;
  }

  pub SameButParents-trans :
      {t u v : Tree L} → SameButParents t u → SameButParents u v → SameButParents t v
  SameButParents-trans {t} {u} {v} a b = record {
    same_nodes = λ q.
        SameButParent-trans (t.nodes q) (u.nodes q) (v.nodes q) (a.same_nodes q) (b.same_nodes q);
    same_latches = b.same_latches ∙ a.same_latches;
    same_next = b.same_next ∙ a.same_next;
    same_root = b.same_root ∙ a.same_root;
    same_height = b.same_height ∙ a.same_height;
  }

  pub set_parent-SameButParents :
      (t : Tree L) (p parent : Ptr) → SameButParents t (set_parent t p parent)
  set_parent-SameButParents t p parent = record {
    same_nodes = same;
    same_latches = refl;
    same_next = refl;
    same_root = refl;
    same_height = refl;
  }
    where
      same : (q : Ptr) → SameButParent (t.nodes q) ((set_parent t p parent).nodes q)
      same q = elim (Bool-cases (q == p)) [
        | inl here ↦
            rw here (ap (λ x. record (t.nodes x) { parent = parent }) (sym ((==_iff q p).0 here)))
        | inr other ↦ rw other
      ]

  pub adopt-SameButParents :
      (rounds i : ℕ) (separators : ℕ → Ptr) (new : Ptr) (t : Tree L)
      → SameButParents t (adopt rounds i separators new t)
  unfolding adopt
  adopt-SameButParents zero i separators new t = SameButParents-refl t
  adopt-SameButParents (suc rounds) i separators new t =
      SameButParents-trans (set_parent-SameButParents t (separators i) new)
        (adopt-SameButParents rounds (i + 1) separators new (set_parent t (separators i) new))

  -- A node whose parent the loop does not set keeps the one it has.
  pub adopt-parent :
      (rounds i : ℕ) (separators : ℕ → Ptr) (new : Ptr) (t : Tree L) (p : Ptr)
      → (((adopt rounds i separators new t).nodes p).parent ≡ (t.nodes p).parent)
        ⊎ ((k : ℕ) × (i ≤ k) × (k < i + rounds) × (separators k ≡ p))
  unfolding adopt
  adopt-parent zero i separators new t p = inl refl
  adopt-parent (suc rounds) i separators new t p =
      elim (adopt-parent rounds (i + 1) separators new (set_parent t (separators i) new) p) [
        | inr (k, above, below, e) ↦ inr (k, omega (arith, above), omega (arith, below), e)
        | inl kept ↦ elim (Bool-cases (p == separators i)) [
          | inl here ↦ inr (i, omega arith, omega arith, sym ((==_iff p (separators i)).0 here))
          | inr other ↦ inl (kept ∙ rw other refl)
        ]
      ]

  -- The loop sets the parent of each node that it comes to.
  pub adopt-adopted :
      (rounds i : ℕ) (separators : ℕ → Ptr) (new : Ptr) (t : Tree L) (p k : ℕ)
      → i ≤ k
      → k < i + rounds
      → separators k ≡ p
      → ((adopt rounds i separators new t).nodes p).parent ≡ new
  unfolding adopt
  adopt-adopted zero i separators new t p k above below e = absurd (omega (arith, above, below))
  adopt-adopted (suc rounds) i separators new t p k above below e =
      let t' = set_parent t (separators i) new in
      elim (adopt-parent rounds (i + 1) separators new t' p) [
        | inr (k', above', below', e') ↦
            adopt-adopted rounds (i + 1) separators new t' p k' above' below' e'
        | inl kept ↦ elim (ℕ_discrete k i) [
          | yes here ↦ kept ∙ rw ((==_iff p (separators i)).1 (sym e ∙ ap separators here)) refl
          | no later ↦
              adopt-adopted rounds (i + 1) separators new t' p k (omega (arith, above, later))
                (omega (arith, below)) e
        ]
      ]
