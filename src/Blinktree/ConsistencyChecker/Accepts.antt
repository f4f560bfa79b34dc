-- ===== src/Blinktree/ConsistencyChecker/Accepts.antt =====
-- `ConsistencyChecker::check_node_and_print_errors` of src/indices/blinktree/consistency_checker.cpp
-- prints nothing for a well-formed tree.
use btree_benchmarks.Prelude.{
  ℕ, zero, suc, ◌+◌, ◌-◌, ◌^◌, ◌%◌, ◌≤◌, ◌<◌, ◌≡◌, ◌≢◌, ◌⊎◌, ◌∙◌, refl, sym, ap, subst, true, false,
  not, some, [], ◌∷◌, arith, if◌then◌else◌, ltb, leb, ◌==◌, ne→==, Bool-cases, inl, inr, dec_lt,
  ℕ_discrete,
}
use btree_benchmarks.Blinktree.Node.{Ptr, null, Layout, contains_separator}
use btree_benchmarks.Blinktree.Node.Search.{contains_separator_iff}
use btree_benchmarks.Blinktree.Tree.{Tree, IsAllocated}
use btree_benchmarks.Blinktree.Tree.Shape.{Shape, IsRoomy, IsTree, NodeFits}
use btree_benchmarks.Blinktree.ConsistencyChecker.{
  last_key, is_high_key_valid, is_key_order_valid, is_no_null_separator, same_kind, children_loop,
  wrong_parent_2, wrong_parent_3, is_children_order_valid, level_loop, is_level_valid, check_parent,
  check_node,
}
use btree_benchmarks.Blinktree.ConsistencyChecker.Loops.{
  is_key_order_valid_iff, separator_loop-true, position_loop-finds,
}

-- Every node has a key, and the parent of a node, if it has one, has it as a child.
pub record IsComplete {L : Type 0} (t : Tree L) : Type 0 where
  pub not_empty : (p : Ptr) → IsAllocated t p → 0 < (t.nodes p).size
  pub parents :
      (p : Ptr)
      → IsAllocated t p
      → ((t.nodes p).parent ≡ null)
        ⊎ (IsAllocated t (t.nodes p).parent
            × ((t.nodes (t.nodes p).parent).is_leaf ≡ false)
            × ((j : ℕ) × (j ≤ (t.nodes (t.nodes p).parent).size)
                × ((t.nodes (t.nodes p).parent).separators j ≡ p)))

module _ {L : Type 0} {l : Layout} {s : Shape} {t : Tree L} (roomy : IsRoomy l)
    (tree : IsTree l s t) (complete : IsComplete t) where
  last_key-in :
      (p : Ptr)
      → IsAllocated t p
      → (s.low p ≤ last_key (t.nodes p)) × (last_key (t.nodes p) < s.high p)
  last_key-in p at =
      let fits = tree.nodes_fit p at in
      let filled = complete.not_empty p at in
      let e : ((t.nodes p).size + 2 ^ 16 - 1) % 2 ^ 16 ≡ (t.nodes p).size - 1 =
        ground (arith, fits.within, filled) in
      rw (e, last_key) (fits.keys_in ((t.nodes p).size - 1) (omega (arith, filled)))

  -- Child `i` ends where child `i + 1` begins, or before.
  child-high :
      (q : Ptr) (at : IsAllocated t q) (inner : (t.nodes q).is_leaf ≡ false) (i : ℕ)
      → i < (t.nodes q).size
      → s.high ((t.nodes q).separators i) ≤ (t.nodes q).keys i
  child-high q at inner i inside =
      let fits = tree.nodes_fit q at in
      let left = fits.children inner i (omega (arith, inside)) in
      let right = fits.children inner (suc i) (omega (arith, inside)) in
      let range =
        (tree.nodes_fit ((t.nodes q).separators (suc i))
          (right.not_null, right.below_next)).range in
      let later : s.low ((t.nodes q).separators i) < (t.nodes q).keys i =
        ground (arith, left.at_low, fits.inner_keys_in inner i inside, fits.sorted (i - 1) i) in
      let begins : s.low ((t.nodes q).separators (suc i)) ≡ (t.nodes q).keys i =
        ground (arith, right.at_low) in
      let other : (t.nodes q).separators i ≢ (t.nodes q).separators (suc i) =
        λ e. omega (arith, later, begins, ap s.low e) in
      ground (
        arith,
        tree.apart ((t.nodes q).separators i) ((t.nodes q).separators (suc i))
            (left.not_null, left.below_next) (right.not_null, right.below_next) other
            (left.at_level ∙ sym right.at_level),
        later,
        begins,
        range,
      )

  children_loop-true :
      (q : Ptr) (at : IsAllocated t q) (inner : (t.nodes q).is_leaf ≡ false) (rounds index : ℕ)
      → index + rounds ≤ (t.nodes q).size
      → children_loop t rounds index (t.nodes q) ≡ some true
  children_loop-true q at inner zero index inside = refl
  children_loop-true q at inner (suc rounds) index inside =
      let child = (tree.nodes_fit q at).children inner index (omega (arith, inside)) in
      let r : Ptr = (t.nodes q).separators index in
      let bounds = last_key-in r (child.not_null, child.below_next) in
      let fine : leb ((t.nodes q).keys index) (last_key (t.nodes r)) ≡ false =
        ground (arith, bounds, child-high q at inner index (omega (arith, inside))) in
      rw (ne→== r null (omega (arith, child.not_null)), children_loop)
        (rw (fine, children_loop)
          (children_loop-true q at inner rounds (suc index) (omega (arith, inside))))

  -- Two nodes of a level are of the same kind.
  level-same_kind :
      (p q : Ptr)
      → IsAllocated t p
      → IsAllocated t q
      → s.level p ≡ s.level q
      → same_kind (t.nodes p) (t.nodes q) ≡ true
  level-same_kind p q at_p at_q e =
      ground (arith, (tree.nodes_fit p at_p).kind, (tree.nodes_fit q at_q).kind, e)

  level_loop-true :
      (q : Ptr) (at : IsAllocated t q) (inner : (t.nodes q).is_leaf ≡ false) (rounds index : ℕ)
      → index + rounds ≤ (t.nodes q).size
      → level_loop t rounds index (t.nodes q) ≡ some true
  level_loop-true q at inner zero index inside = refl
  level_loop-true q at inner (suc rounds) index inside =
      let left = (tree.nodes_fit q at).children inner index (omega (arith, inside)) in
      let right = (tree.nodes_fit q at).children inner (index + 1) (omega (arith, inside)) in
      rw (ne→== ((t.nodes q).separators index) null (omega (arith, left.not_null)), level_loop)
        (rw
          (
            ne→== ((t.nodes q).separators (index + 1)) null (omega (arith, right.not_null)),
            level_loop,
          )
          (rw
            (
              level-same_kind ((t.nodes q).separators index) ((t.nodes q).separators (index + 1))
                  (left.not_null, left.below_next) (right.not_null, right.below_next)
                  (left.at_level ∙ sym right.at_level),
              level_loop,
            )
            (level_loop-true q at inner rounds (suc index) (omega (arith, inside)))))

  module _ (p : Ptr) (at : IsAllocated t p) where
    fits : NodeFits l s t.next p (t.nodes p)
    fits = tree.nodes_fit p at

    accepts_separators : is_no_null_separator (t.nodes p) ≡ true
    accepts_separators = elim (Bool-cases (t.nodes p).is_leaf) [
      | inl leaf ↦ ground (arith, leaf)
      | inr inner ↦ ground (
        arith,
        inner,
        separator_loop-true ((t.nodes p).size + 1) 0 (t.nodes p) (λ j low high e.
            let child = fits.children inner j (omega (arith, high)) in
            omega (arith, child.not_null, e)),
      )
    ]

    accepts_children : is_children_order_valid t (t.nodes p) ≡ some true
    accepts_children = elim (Bool-cases (t.nodes p).is_leaf) [
      | inl leaf ↦ ground (arith, leaf)
      | inr inner ↦
          ground (arith, inner, children_loop-true p at inner (t.nodes p).size 0 (omega arith))
    ]

    sibling_kind :
        (if (t.nodes p).right_sibling == null
          then false
          else not (same_kind (t.nodes p) (t.nodes (t.nodes p).right_sibling)))
        ≡ false
    sibling_kind = elim (ℕ_discrete (t.nodes p).right_sibling null) [
      | yes e ↦ ground (arith, e)
      | no some_right ↦
          let right = fits.linked some_right in
          ground (
            arith,
            some_right,
            level-same_kind p (t.nodes p).right_sibling at (right.not_null, right.below_next)
                (sym right.at_level),
          )
    ]

    accepts_level : is_level_valid t (t.nodes p) ≡ some true
    accepts_level = elim (Bool-cases (t.nodes p).is_leaf) [
      | inl leaf ↦ ground (arith, leaf, sibling_kind)
      | inr inner ↦
          ground (
            arith,
            inner,
            sibling_kind,
            level_loop-true p at inner (t.nodes p).size 0 (omega arith),
          )
    ]

    -- The child is found at `i`: the key behind it is larger than the child's keys, and the key
    -- before it is not.
    parent_fine :
        (q : Ptr) (at_q : IsAllocated t q) (inner : (t.nodes q).is_leaf ≡ false) (i : ℕ)
        → i < (t.nodes q).size + 1
        → (t.nodes q).separators i ≡ p
        → (if ltb i (t.nodes q).size
            then (if not (ltb (last_key (t.nodes p)) ((t.nodes q).keys i))
                then wrong_parent_2 ∷ []
                else [])
            else if not (leb ((t.nodes q).keys (i - 1)) ((t.nodes p).keys 0))
            then wrong_parent_3 ∷ []
            else [])
          ≡ []
    parent_fine q at_q inner i inside e = elim (dec_lt i (t.nodes q).size) [
      | yes below ↦ ground (
        arith,
        below,
        last_key-in p at,
        subst (λ r. s.high r ≤ (t.nodes q).keys i) e (child-high q at_q inner i below),
      )
      | no last ↦ ground (
        arith,
        last,
        inside,
        complete.not_empty q at_q,
        fits.keys_in 0 (complete.not_empty p at),
        ap s.low e,
        ((tree.nodes_fit q at_q).children inner i (omega (arith, inside))).at_low,
      )
    ]

    accepts_parent : check_parent t p (t.nodes p) ≡ []
    accepts_parent = elim (complete.parents p at) [
      | inl root ↦ ground (arith, root)
      | inr (at_q, inner, (j, inside, e)) ↦
          let q : Ptr = (t.nodes p).parent in
          let (i, found, bound, e') =
            position_loop-finds ((t.nodes q).size + 1) 0 j p (t.nodes q) (omega arith)
              (omega (arith, inside)) e in
          let has : contains_separator (t.nodes q) p ≡ true =
            (contains_separator_iff (t.nodes q) p).1 (j, inside, e) in
          rw (ne→== q null (omega (arith, at_q.0)))
            (rw has (rw found (parent_fine q at_q inner i (omega (arith, bound)) e')))
    ]

    -- For each node of a well-formed tree in which every node has a key and is a child of its
    -- parent, if it has one, `check_node_and_print_errors` ends without an access through a null
    -- pointer and prints nothing.
    pub check_node-accepts : check_node t p ≡ some []
    check_node-accepts =
        let high : is_high_key_valid (t.nodes p) ≡ true =
          ground (arith, last_key-in p at, fits.ends) in
        let sorted : is_key_order_valid (t.nodes p) ≡ true =
          (is_key_order_valid_iff (t.nodes p)).1 fits.sorted in
        rw (ne→== p null (omega (arith, at)), check_node)
          (rw accepts_children
            (rw accepts_level (rw (high, sorted, accepts_separators, accepts_parent) refl)))
