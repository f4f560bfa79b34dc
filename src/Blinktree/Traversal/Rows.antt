-- ===== src/Blinktree/Traversal/Rows.antt =====
-- The order in which `TreeIterator` of src/indices/blinktree/tree.h visits the nodes, and what
-- `Tree::check` of tree.cpp finds on the way.
use btree_benchmarks.Prelude.{
  ℕ, zero, suc, ◌+◌, ◌<◌, ◌≡◌, refl, sym, ◌∙◌, ap, subst, Bool, if◌then◌else◌, length,
  length-append, List, [], ◌∷◌, ◌++◌, some, true, false, arith, ==_iff, ne→==,
}
use mathlib.Core.List.{append-nil}
use btree_benchmarks.Blinktree.Node.{Ptr, null, Layout}
use btree_benchmarks.Blinktree.Tree.{Tree, IsAllocated}
use btree_benchmarks.Blinktree.Tree.Shape.{Shape, IsRoomy, IsTree}
use btree_benchmarks.Blinktree.ConsistencyChecker.Accepts.{IsComplete, check_node-accepts}
use btree_benchmarks.Blinktree.Traversal.{
  TreeIterator, iterator_at, advance, nodes_from, begin, check_nodes, check_tree,
}

module _ {L : Type 0} (t : Tree L) where
  -- From `p` the right siblings are the nodes of the row, and the last one is a leaf or not.
  abbrev pub IsRow : (is_leaf : Bool) → Ptr → List Ptr → Type 0
  IsRow is_leaf p [] =
      IsAllocated t p × ((t.nodes p).right_sibling ≡ null) × ((t.nodes p).is_leaf ≡ is_leaf)
  IsRow is_leaf p (q ∷ qs) = IsAllocated t p × ((t.nodes p).right_sibling ≡ q) × IsRow is_leaf q qs

  -- The rows of the tree from the level of `p`, its first node, down to the leaves.
  pub data IsRows : Ptr → List Ptr → Type 0 where
    leaves : {p : Ptr} (row : List Ptr) → IsRow true p row → IsRows p (p ∷ row)
    above :
        {p : Ptr} (row rest : List Ptr)
        → IsRow false p row
        → IsRows ((t.nodes p).separators 0) rest
        → IsRows p (p ∷ (row ++ rest))

  visit :
      (fuel : ℕ) (i : TreeIterator) (rest : List Ptr)
      → 0 < i.current_node
      → nodes_from t fuel (advance t i) ≡ some rest
      → nodes_from t (suc fuel) i ≡ some (i.current_node ∷ rest)
  visit fuel i rest some_node e =
      rw (ne→== i.current_node null (omega (arith, some_node)), nodes_from) (rw e refl)

  right_null :
      (p first : Ptr)
      → (t.nodes p).right_sibling ≡ null
      → advance t (record { current_node = p; first_node_in_level = first }) ≡ (
          if (t.nodes p).is_leaf
          then record { current_node = null; first_node_in_level = first }
          else iterator_at ((t.nodes first).separators 0))
  right_null p first e = rw ((==_iff (t.nodes p).right_sibling null).1 e, advance) refl

  right_some :
      (p q first : Ptr)
      → 0 < q
      → (t.nodes p).right_sibling ≡ q
      → advance t (record { current_node = p; first_node_in_level = first })
        ≡ record { current_node = q; first_node_in_level = first }
  right_some p q first some_q e =
      rw (ne→== (t.nodes p).right_sibling null (omega (arith, e, some_q)), advance)
        (ap (λ r. record { current_node = r; first_node_in_level = first }) e)

  row_at : (is_leaf : Bool) (p : Ptr) (row : List Ptr) → IsRow is_leaf p row → IsAllocated t p
  row_at is_leaf p [] h = h.0
  row_at is_leaf p (q ∷ qs) h = h.0

  -- Along a row; `next` is the visit of what comes behind it.
  along :
      (is_leaf : Bool) (row : List Ptr) (fuel : ℕ) (p first : Ptr) (rest : List Ptr)
      → length row + length rest + 1 < fuel
      → IsRow is_leaf p row
      → ((f : ℕ)
          → length rest < f
          → nodes_from t f (
              if is_leaf
              then record { current_node = null; first_node_in_level = first }
              else iterator_at ((t.nodes first).separators 0))
            ≡ some rest)
      → nodes_from t fuel (record { current_node = p; first_node_in_level = first })
        ≡ some (p ∷ (row ++ rest))
  along is_leaf row zero p first rest enough h next = absurd (omega (arith, enough))
  along is_leaf [] (suc fuel) p first rest enough h next =
      visit fuel (record { current_node = p; first_node_in_level = first }) rest h.0.0
        (ap (nodes_from t fuel) (right_null p first h.1)
          ∙ (subst
              (λ b.
                nodes_from t fuel (
                  if b
                  then record { current_node = null; first_node_in_level = first }
                  else iterator_at ((t.nodes first).separators 0))
                ≡ some rest)
              (sym h.2) (next fuel (omega (arith, enough)))))
  along is_leaf (q ∷ qs) (suc fuel) p first rest enough h next =
      visit fuel (record { current_node = p; first_node_in_level = first }) (q ∷ (qs ++ rest)) h.0.0
        (ap (nodes_from t fuel) (right_some p q first (row_at is_leaf q qs h.2).0 h.1)
          ∙ along is_leaf qs fuel q first rest (omega (arith, enough)) h.2 next)

  at_end :
      (f : ℕ) (first : Ptr)
      → 0 < f
      → nodes_from t f (record { current_node = null; first_node_in_level = first }) ≡ some []
  at_end zero first h = absurd (omega (arith, h))
  at_end (suc f) first h = refl

  rows_visit :
      (p : Ptr) (nodes : List Ptr)
      → IsRows p nodes
      → (fuel : ℕ) → length nodes < fuel
      → nodes_from t fuel (iterator_at p) ≡ some nodes
  rows_visit p nodes (leaves row h) fuel enough =
      along true row fuel p p [] (omega (arith, enough)) h
        (λ f some_f. at_end f p (omega (arith, some_f)))
      ∙ ap (λ l. some (p ∷ l)) (append-nil row)
  rows_visit p nodes (above row rest h below) fuel enough =
      along false row fuel p p rest (omega (arith, enough, length-append row rest)) h
        (λ f some_f. rows_visit ((t.nodes p).separators 0) rest below f some_f)

  -- The loop over a tree visits the rows of its nodes from the root's level down to the leaves, each
  -- from left to right, with fuel above the number of nodes in the rows.
  pub nodes_from-visits :
      (nodes : List Ptr) (fuel : ℕ)
      → IsRows t.root nodes
      → length nodes < fuel
      → nodes_from t fuel (begin t) ≡ some nodes
  nodes_from-visits nodes fuel rows enough = rows_visit t.root nodes rows fuel enough

  AllAllocated : List Ptr → Type 0
  AllAllocated [] = Unit {0}
  AllAllocated (p ∷ ps) = IsAllocated t p × AllAllocated ps

  row-AllAllocated :
      (is_leaf : Bool) (p : Ptr) (row rest : List Ptr)
      → IsRow is_leaf p row
      → AllAllocated rest
      → AllAllocated (p ∷ (row ++ rest))
  unfolding AllAllocated
  row-AllAllocated is_leaf p [] rest h others = (h.0, others)
  row-AllAllocated is_leaf p (q ∷ qs) rest h others =
      (h.0, row-AllAllocated is_leaf q qs rest h.2 others)

  rows-AllAllocated : (p : Ptr) (nodes : List Ptr) → IsRows p nodes → AllAllocated nodes
  unfolding AllAllocated
  rows-AllAllocated p nodes (leaves row h) =
      subst (λ l. AllAllocated (p ∷ l)) (append-nil row) (row-AllAllocated true p row [] h tt)
  rows-AllAllocated p nodes (above row rest h below) =
      row-AllAllocated false p row rest h (rows-AllAllocated ((t.nodes p).separators 0) rest below)

module _ {L : Type 0} {l : Layout} {s : Shape} {t : Tree L} (roomy : IsRoomy l)
    (tree : IsTree l s t) (complete : IsComplete t) where
  check_nodes-accepts : (nodes : List Ptr) → AllAllocated t nodes → check_nodes t nodes ≡ some []
  unfolding AllAllocated
  check_nodes-accepts [] at = refl
  check_nodes-accepts (p ∷ ps) at =
      rw (check_node-accepts roomy tree complete p at.0, check_nodes)
        (rw (check_nodes-accepts ps at.1) refl)

  -- `Tree::check` of a well-formed tree in which every node has a key and is a child of its parent,
  -- if it has one, and in which the rows are linked from the first child down, visits all
  -- nodes of the rows and prints nothing, with fuel above the number of these nodes.
  pub check_tree-accepts :
      (nodes : List Ptr) (fuel : ℕ)
      → IsRows t t.root nodes
      → length nodes < fuel
      → (nodes_from t fuel (begin t) ≡ some nodes) × (check_tree t fuel ≡ some [])
  check_tree-accepts nodes fuel rows enough =
      let e = nodes_from-visits t nodes fuel rows enough in
      (e, rw (e, check_tree) (check_nodes-accepts nodes (rows-AllAllocated t t.root nodes rows)))
