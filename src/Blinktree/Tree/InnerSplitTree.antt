-- ===== src/Blinktree/Tree/InnerSplitTree.antt =====
-- `Tree::split_inner_node` of src/indices/blinktree/tree.cpp, over the whole tree.
pub mod NewParents
use btree_benchmarks.Prelude.{
  ◌+◌, ◌-◌, ◌/◌, ◌<◌, ◌≡◌, ◌≢◌, ◌↔◌, true, false, arith, refl, ==_iff, ne→==, sym, subst, ltb,
  if◌then◌else◌, Bool-cases, inl, inr, ◌∙◌, ap, ℕ_discrete,
}
use btree_benchmarks.Prelude.Memory.{update}
use btree_benchmarks.Blinktree.Node.{Ptr, Key, Value, Layout, max_keys, Node, new_node}
use btree_benchmarks.Blinktree.Node.Contents.{HoldsKey}
use btree_benchmarks.Blinktree.Tree.{
  Tree, IsAllocated, InnerHalves, split_inner, split_inner_node, create_node, set_node, set_parent,
  adopt,
}
use btree_benchmarks.Blinktree.Tree.Shape.{
  Shape, IsRoomy, IsAt, NodeFits-parent, IsTree, split_shape, split-IsTree,
}
use btree_benchmarks.Blinktree.Tree.InnerSplit.{SplitsInner, split_inner-SplitsInner}
use btree_benchmarks.Blinktree.Tree.Parents.{
  SameButParent, SameButParent-trans, SameButParents, SameButParents-refl,
  set_parent-SameButParents, adopt-SameButParents,
}
use btree_benchmarks.Blinktree.Tree.Contents.{Contains, inner_change-Contains}

-- What a split of the inner node at `p` does: a new inner node at `next` takes over the upper part
-- of the range of keys, from `key_up` on, and no entry changes.
pub record SplitsInnerNode {L : Type 0} (l : Layout) (s : Shape) (fresh : L) (t : Tree L) (p : Ptr)
    (new : Ptr) (key_up : Key) (t' : Tree L) : Type 0 where
  pub new_node_at : new ≡ t.next
  pub above : s.low p < key_up
  pub below : key_up < s.high p
  pub tree : IsTree l (split_shape s p t.next key_up) t'
  pub contents : (k : Key) (v : Value) → Contains t' k v ↔ Contains t k v
  pub same_root : t'.root ≡ t.root
  pub same_height : t'.height ≡ t.height
  pub one_more : t'.next ≡ t.next + 1
  pub others : (q : Ptr) → q ≢ p → q ≢ t.next → SameButParent (t.nodes q) (t'.nodes q)
  pub latches : (q : Ptr) → q ≢ t.next → t'.latches q ≡ t.latches q
  pub new_latch : t'.latches new ≡ fresh

module _ {L : Type 0} {l : Layout} {s : Shape} {t : Tree L} {p : Ptr} {key : Key} {separator : Ptr}
    (fresh : L) (roomy : IsRoomy l) (tree : IsTree l s t) (at : IsAllocated t p)
    (inner : (t.nodes p).is_leaf ≡ false) (full : (t.nodes p).size ≡ max_keys l)
    (above_low : s.low p < key) (below_high : key < s.high p)
    (absent : ¬ HoldsKey (t.nodes p).keys (t.nodes p).size key)
    (child : IsAt s t.next separator (s.level p - 1) key) where
  pub created : Tree L
  created = (create_node fresh false (t.nodes p).parent t).1

  pub marked : Tree L
  marked =
      if ltb key ((created.nodes p).keys (max_keys l / 2 - 1))
      then set_parent created separator p
      else created

  created-marked : SameButParents created marked
  unfolding marked
  created-marked = elim (Bool-cases (ltb key ((created.nodes p).keys (max_keys l / 2 - 1)))) [
    | inl low ↦ rw low (set_parent-SameButParents created separator p)
    | inr high ↦ rw high (SameButParents-refl created)
  ]

  pub halves : InnerHalves
  halves = split_inner l (marked.nodes p) (marked.nodes t.next) t.next key separator

  pub written : Tree L
  written = set_node (set_node marked p halves.left) t.next halves.right

  pub after : Tree L
  after = adopt (halves.right.size + 1) 0 halves.right.separators t.next written

  pub split_inner_node-after :
      split_inner_node l fresh p key separator t ≡ (t.next, halves.key_up, after)
  unfolding split_inner_node create_node created marked halves written after
  split_inner_node-after = refl

  pub created-old : (q : Ptr) → q ≢ t.next → created.nodes q ≡ t.nodes q
  unfolding created create_node
  created-old q old = rw (ne→== q t.next old)

  created-new : (created.nodes t.next).is_leaf ≡ false
  unfolding created create_node new_node
  created-new = rw ((==_iff t.next t.next).1 refl)

  pub marked-old : (q : Ptr) → q ≢ t.next → SameButParent (t.nodes q) (marked.nodes q)
  marked-old q old =
      subst (λ n. SameButParent n (marked.nodes q)) (created-old q old)
        (created-marked.same_nodes q)

  marked-new : (marked.nodes t.next).is_leaf ≡ false
  marked-new = ap (λ (n : Node). n.is_leaf) (created-marked.same_nodes t.next) ∙ created-new

  old_p : SameButParent (t.nodes p) (marked.nodes p)
  old_p = marked-old p (omega arith)

  pub splits : SplitsInner l s t.next p halves
  unfolding halves
  splits = rw old_p (
      split_inner-SplitsInner (marked.nodes t.next) roomy (NodeFits-parent _ (tree.nodes_fit p at))
        inner marked-new at.1 full above_low below_high absent child)

  pub after-written : SameButParents written after
  unfolding after
  after-written =
      adopt-SameButParents (halves.right.size + 1) 0 halves.right.separators t.next written

  pub written-left : written.nodes p ≡ halves.left
  unfolding written
  written-left = rw (ne→== p t.next (omega arith), (==_iff p p).1 refl)

  written-right : written.nodes t.next ≡ halves.right
  unfolding written
  written-right = rw ((==_iff t.next t.next).1 refl)

  pub written-others : (q : Ptr) → q ≢ p → q ≢ t.next → written.nodes q ≡ marked.nodes q
  unfolding written
  written-others q other old = rw (ne→== q t.next old, ne→== q p other)

  pub after-left : SameButParent halves.left (after.nodes p)
  after-left =
      subst (λ n. SameButParent n (after.nodes p)) written-left (after-written.same_nodes p)

  pub after-right : SameButParent halves.right (after.nodes t.next)
  after-right =
      subst (λ n. SameButParent n (after.nodes t.next)) written-right
        (after-written.same_nodes t.next)

  pub after-others : (q : Ptr) → q ≢ p → q ≢ t.next → SameButParent (t.nodes q) (after.nodes q)
  after-others q other old =
      SameButParent-trans (t.nodes q) (marked.nodes q) (after.nodes q) (marked-old q old) (
        subst (λ n. SameButParent n (after.nodes q)) (written-others q other old)
          (after-written.same_nodes q))

  pub e_next : after.next ≡ t.next + 1
  unfolding written created create_node
  e_next = after-written.same_next ∙ created-marked.same_next

  pub e_root : after.root ≡ t.root
  unfolding written created create_node
  e_root = after-written.same_root ∙ created-marked.same_root

  e_height : after.height ≡ t.height
  unfolding written created create_node
  e_height = after-written.same_height ∙ created-marked.same_height

  e_latches : after.latches ≡ update t.latches t.next fresh
  unfolding written created create_node
  e_latches = after-written.same_latches ∙ created-marked.same_latches

  after-Contains : (k : Key) (v : Value) → Contains after k v ↔ Contains t k v
  after-Contains = inner_change-Contains t after (omega (arith, e_next)) old_leaf same
    where
      left_inner : (after.nodes p).is_leaf ≡ false
      left_inner = ap (λ (n : Node). n.is_leaf) after-left ∙ splits.left_inner

      right_inner : (after.nodes t.next).is_leaf ≡ false
      right_inner = ap (λ (n : Node). n.is_leaf) after-right ∙ splits.right_inner

      old_leaf : (q : Ptr) → IsAllocated after q → (after.nodes q).is_leaf ≡ true → IsAllocated t q
      old_leaf q a b = elim (ℕ_discrete q t.next) [
        | yes e ↦ cc (right_inner, b, e)
        | no old ↦ (a.0, omega (arith, e_next))
      ]

      same :
          (q : Ptr)
          → IsAllocated t q
          → ((after.nodes q).is_leaf ≡ (t.nodes q).is_leaf)
            × ((t.nodes q).is_leaf ≡ true → SameButParent (t.nodes q) (after.nodes q))
      same q a = elim (ℕ_discrete q p) [
        | yes e ↦ rw e (left_inner ∙ sym inner, λ b. cc (inner, b))
        | no other ↦
            let kept = after-others q other (omega arith) in
            (ap (λ (n : Node). n.is_leaf) kept, λ b. kept)
      ]

  after-SplitsInnerNode : SplitsInnerNode l s fresh t p t.next halves.key_up after
  after-SplitsInnerNode = record {
    new_node_at = refl;
    above = splits.up_above;
    below = splits.up_below;
    tree =
        split-IsTree tree at splits.up_above splits.up_below e_next e_root e_height
          (rw after-left (NodeFits-parent _ splits.left_fits))
          (rw after-right (NodeFits-parent _ splits.right_fits)) after-others;
    contents = after-Contains;
    same_root = e_root;
    same_height = e_height;
    one_more = e_next;
    others = after-others;
    latches = λ q old. rw (e_latches, ne→== q t.next old);
    new_latch = rw (e_latches, (==_iff t.next t.next).1 refl);
  }

  -- The split of a full inner node in a well-formed tree, for a new child that begins at a key
  -- inside the node's range that the node does not hold, keeps the tree well formed and all
  -- entries. The new node takes over the keys from the key that moves up on.
  pub split_inner_node-SplitsInnerNode :
      SplitsInnerNode l s fresh t p
        (split_inner_node l fresh p key separator t).0
        (split_inner_node l fresh p key separator t).1
        (split_inner_node l fresh p key separator t).2
  split_inner_node-SplitsInnerNode = rw split_inner_node-after after-SplitsInnerNode
