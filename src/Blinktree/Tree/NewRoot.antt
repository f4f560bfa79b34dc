-- ===== src/Blinktree/Tree/NewRoot.antt =====
-- `Tree::create_new_root` of src/indices/blinktree/tree.cpp.
pub mod NewParents
use btree_benchmarks.Prelude.{
  ℕ, zero, suc, ◌+◌, ◌-◌, ◌%◌, ◌^◌, ◌≤◌, ◌<◌, ◌≡◌, ◌≢◌, ◌↔◌, true, false, arith, refl, ==_iff,
  ne→==, ◌∙◌, ap, ℕ_discrete, subst,
}
use btree_benchmarks.Prelude.Memory.{update}
use btree_benchmarks.Blinktree.Node.{
  Ptr, null, Key, Value, max_key, Layout, Node, new_node, insert_separator,
}
use btree_benchmarks.Blinktree.Tree.{
  Tree, IsAllocated, create_node, set_node, set_parent, create_new_root,
}
use btree_benchmarks.Blinktree.Tree.Shape.{
  Shape, IsRoomy, IsAt, NodeFits, NodeFits-parent, IsTree, Grows, IsAt-grow, IsAt-cong,
  NodeFits-grow, child_low,
}
use btree_benchmarks.Blinktree.Tree.Parents.{
  SameButParent, SameButParent-trans, set_parent-SameButParents,
}
use btree_benchmarks.Blinktree.Tree.Contents.{Contains, inner_change-Contains}

-- The new root stands one level above the old one and is responsible for all keys.
abbrev pub root_shape : Shape → (new root : Ptr) → Shape
root_shape s new root = record {
  level = update s.level new (s.level root + 1);
  low = update s.low new 0;
  high = update s.high new max_key;
}

module _ {L : Type 0} {l : Layout} {s : Shape} {t : Tree L} {right : Ptr} {key : Key} (fresh : L)
    (roomy : IsRoomy l) (tree : IsTree l s t) (at : IsAt s t.next right (s.level t.root) key)
    (above : 0 < key) (below : key < max_key) (low_tree : t.height + 1 < 2 ^ 16) where
  shape : Shape
  shape = root_shape s t.next t.root

  shape-Grows : Grows s shape t.next
  unfolding shape
  shape-Grows = record { same_level = λ q h. ground arith; same_low = λ q h. ground arith }

  pub after : Tree L
  after = create_new_root fresh t.root right key t

  -- The new node: `t.root` and `right` on the two sides of `key`.
  pub root_node : Node
  root_node =
      let n : Node = new_node false null (t.nodes t.next) in
      insert_separator (record n { separators = update n.separators 0 t.root }) 0 right key

  pub after-root : after.nodes t.next ≡ root_node
  unfolding after root_node create_new_root create_node
  after-root = rw (
    ne→== t.next right (omega (arith, at.below_next)),
    ne→== t.next t.root (omega (arith, tree.root_at)),
    (==_iff t.next t.next).1 refl,
  )

  -- The tree after each of the first steps.
  created : Tree L
  created = (create_node fresh false null t).1

  left_set : Tree L
  left_set = set_parent created t.root t.next

  linked : Tree L
  linked =
      let n = left_set.nodes t.next in
      set_node left_set t.next (record n { separators = update n.separators 0 t.root })

  right_set : Tree L
  right_set = set_parent linked right t.next

  after-right_set : after ≡ (
      let u = set_node right_set t.next (insert_separator (right_set.nodes t.next) 0 right key) in
      record u { height = (t.height + 1) % 2 ^ 16; root = t.next })
  unfolding after create_new_root create_node created left_set linked right_set
  after-right_set = refl

  created-others : (q : Ptr) → q ≢ t.next → created.nodes q ≡ t.nodes q
  unfolding created create_node
  created-others q old = rw (ne→== q t.next old)

  left_set-others : (q : Ptr) → q ≢ t.next → SameButParent (t.nodes q) (left_set.nodes q)
  unfolding left_set
  left_set-others q old =
      subst (λ n. SameButParent n (left_set.nodes q)) (created-others q old)
        ((set_parent-SameButParents created t.root t.next).same_nodes q)

  linked-others : (q : Ptr) → q ≢ t.next → linked.nodes q ≡ left_set.nodes q
  unfolding linked
  linked-others q old = rw (ne→== q t.next old)

  right_set-others : (q : Ptr) → SameButParent (linked.nodes q) (right_set.nodes q)
  unfolding right_set
  right_set-others q = (set_parent-SameButParents linked right t.next).same_nodes q

  after-right_set-others : (q : Ptr) → q ≢ t.next → after.nodes q ≡ right_set.nodes q
  after-right_set-others q old = rw (after-right_set, ne→== q t.next old)

  pub after-others : (q : Ptr) → q ≢ t.next → SameButParent (t.nodes q) (after.nodes q)
  after-others q old = rw (after-right_set-others q old) (
      SameButParent-trans (t.nodes q) (left_set.nodes q) (right_set.nodes q) (left_set-others q old)
        (subst (λ n. SameButParent n (right_set.nodes q)) (linked-others q old)
          (right_set-others q)))

  pub e_next : after.next ≡ t.next + 1
  unfolding after create_new_root create_node
  e_next = refl

  pub e_root : after.root ≡ t.next
  unfolding after create_new_root create_node
  e_root = refl

  e_height : after.height ≡ t.height + 1
  unfolding after create_new_root create_node
  e_height = omega arith

  e_latches : after.latches ≡ update t.latches t.next fresh
  unfolding after create_new_root create_node
  e_latches = refl

  root_node-NodeFits : NodeFits l shape (t.next + 1) t.next root_node
  unfolding root_node new_node insert_separator shape
  root_node-NodeFits = record {
    kind = ground arith;
    within = ground (arith, roomy.room);
    sorted = λ i j p q. absurd (omega arith);
    keys_in = λ i p. ground arith;
    inner_keys_in = λ e i p. ground arith;
    range = ground arith;
    capped = ground arith;
    ends = ground arith;
    rightmost = λ e. ground arith;
    linked = λ e. absurd (e refl);
    children = children;
  }
    where
      children :
          root_node.is_leaf ≡ false
          → (i : ℕ) → i ≤ root_node.size
          → IsAt shape
              (t.next + 1)
              (root_node.separators i)
              (shape.level t.next - 1)
              (child_low shape t.next root_node i)
      children e zero p =
          IsAt-cong
            (IsAt-grow shape-Grows (record {
              not_null = tree.root_at.0;
              below_next = tree.root_at.1;
              at_level = refl;
              at_low = tree.root_low;
            }))
            (ground arith) (ground arith)
      children e (suc zero) p = IsAt-cong (IsAt-grow shape-Grows at) (ground arith) (ground arith)
      children e (suc (suc i)) p = absurd (omega arith)

  -- A new root over the old root and its right neighbour, which begins at the given key, keeps the
  -- tree well formed; the tree grows by a level.
  pub create_new_root-IsTree :
      IsTree l (root_shape s t.next t.root) (create_new_root fresh t.root right key t)
  unfolding after shape
  create_new_root-IsTree = record {
    nodes_fit = nodes_fit;
    apart = λ p q hp hq d e. ground (arith, e_next, tree.apart p q, tree.top p, tree.top q);
    root_at = rw (e_next, e_root) (omega (arith, tree.some_node));
    root_low = rw e_root (ground arith);
    height_root = rw (e_root, e_height) (ground (arith, tree.height_root));
    top = λ p h. rw e_root (ground (arith, e_next, tree.top p));
    some_node = rw e_next (omega arith);
  }
    where
      nodes_fit : (q : Ptr) → IsAllocated after q → NodeFits l shape after.next q (after.nodes q)
      nodes_fit q h = rw e_next (elim (ℕ_discrete q t.next) [
        | yes e ↦ rw (e, after-root) root_node-NodeFits
        | no old ↦ rw (after-others q old) (
            NodeFits-parent _ (
              NodeFits-grow shape-Grows q (omega (arith, e_next)) (ground arith)
                (tree.nodes_fit q (h.0, omega (arith, e_next)))))
      ])

  -- A new root over the old root of a well-formed tree and its right neighbour, which begins at the
  -- given key, changes no entry of the tree.
  pub create_new_root-Contains :
      (k : Key) (v : Value)
      → Contains (create_new_root fresh t.root right key t) k v ↔ Contains t k v
  unfolding after
  create_new_root-Contains = inner_change-Contains t after (omega (arith, e_next)) old_leaf (λ q a.
      let kept = after-others q (omega arith) in (ap (λ (n : Node). n.is_leaf) kept, λ b. kept))
    where
      new_inner : (after.nodes t.next).is_leaf ≡ false
      new_inner =
          ap (λ (n : Node). n.is_leaf) after-root
          ∙ (unfold root_node insert_separator new_node in refl)

      old_leaf : (q : Ptr) → IsAllocated after q → (after.nodes q).is_leaf ≡ true → IsAllocated t q
      old_leaf q a b = elim (ℕ_discrete q t.next) [
        | yes e ↦ cc (new_inner, b, e)
        | no old ↦ (a.0, omega (arith, e_next))
      ]

  pub create_new_root-latches :
      (create_new_root fresh t.root right key t).latches ≡ update t.latches t.next fresh
  unfolding after
  create_new_root-latches = e_latches

  pub create_new_root-next : (create_new_root fresh t.root right key t).next ≡ t.next + 1
  unfolding after
  create_new_root-next = e_next
