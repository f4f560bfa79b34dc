-- ===== src/Blinktree/Latched/InnerStep.antt =====
-- `ThreadTree::insert_into_inner` of src/indices/blinktree/thread/latched/thread_tree.cpp.
use btree_benchmarks.Prelude.{
  ℕ, suc, ◌+◌, ◌-◌, ◌^◌, ◌≤◌, ◌<◌, ◌≡◌, ◌≢◌, refl, sym, ◌∙◌, ap, true, false, arith, ne→==, ==_iff,
  inl, inr, Bool-cases, ℕ_discrete,
}
use btree_benchmarks.Prelude.Memory.{update}
use btree_benchmarks.Blinktree.Node.{Ptr, null, Key, max_keys, Layout, Node, is_full}
use btree_benchmarks.Blinktree.Node.Contents.{HoldsKey}
use btree_benchmarks.Blinktree.Node.SeparatorInsert.{
  insert_child, insert_child-InsertsSeparator, insert_child-IsSorted, insert_child-bounds,
  insert_child-children,
}
use btree_benchmarks.Blinktree.Tree.{Tree, IsAllocated, set_node, split_inner_node}
use btree_benchmarks.Blinktree.Tree.Shape.{
  Shape, IsRoomy, IsAt, IsAt-cong, IsTree, NodeFits, split_shape, set_node-IsTree,
}
use btree_benchmarks.Blinktree.Tree.Contents.{inner_change-Contains}
use btree_benchmarks.Blinktree.Tree.InnerSplitTree.{
  SplitsInnerNode, split_inner_node-SplitsInnerNode,
}
use btree_benchmarks.Blinktree.Latched.{Latch, insert_into_inner}
use btree_benchmarks.Blinktree.Latched.Running.{Ends, ends}
use btree_benchmarks.Blinktree.Latched.Latches.{LatchLaws}
use btree_benchmarks.Blinktree.Latched.Commands.{IsHeld, read-Ends, write-Ends}
use btree_benchmarks.Blinktree.Latched.Path.{Covers}
use btree_benchmarks.Blinktree.Latched.Step.{
  Pending, IsUp, Changes, SameEntries, Grows-refl, split_shape-Grows, IsHeld-split, split-unlinked,
}

insert_child-NodeFits :
    {l : Layout} {s : Shape} {next p : Ptr} {n : Node} (key : Key) (separator : Ptr)
    → NodeFits l s next p n
    → n.is_leaf ≡ false
    → n.size < max_keys l
    → ¬ HoldsKey n.keys n.size key
    → s.low p < key
    → key < s.high p
    → IsAt s next separator (s.level p - 1) key
    → NodeFits l s next p (insert_child n key separator)
insert_child-NodeFits {l} {s} {next} {p} {n} key separator f inner room absent above below at =
    let small : n.size + 1 < 2 ^ 16 = omega arith in
    let ins = insert_child-InsertsSeparator n key separator f.sorted small absent in
    let inner' = ins.header.same_leaf ∙ inner in
    let bounds =
      insert_child-bounds n key separator f.sorted small absent (suc (s.low p)) (s.high p)
        (λ i q. (omega (arith, f.inner_keys_in inner i q), omega (arith, f.keys_in i q)))
        (omega arith) below in
    record {
      kind = ins.header.same_leaf ∙ f.kind;
      within = ground (arith, inner', ins.grown);
      sorted = rw ins.grown (insert_child-IsSorted n key separator f.sorted small absent);
      keys_in = rw ins.grown (λ i q. (omega (arith, bounds i q), omega (arith, bounds i q)));
      inner_keys_in = rw ins.grown (λ e i q. omega (arith, bounds i q));
      range = f.range;
      capped = f.capped;
      ends = ins.header.same_high ∙ f.ends;
      rightmost = λ e. f.rightmost (sym ins.header.same_right ∙ e);
      linked = λ e. rw ins.header.same_right (f.linked (λ e'. e (ins.header.same_right ∙ e')));
      children = rw ins.grown (λ e i q.
          insert_child-children n key separator f.sorted small absent
            (λ r k. IsAt s next r (s.level p - 1) k) (s.low p) (λ j r. f.children inner j r) at i
            q);
    }

module _ (b : Latch) (laws : LatchLaws b) {l : Layout} {s : Shape} {t : Tree b.State} {q : Ptr}
    {level : ℕ} {low : Key} {up : Ptr × Key} (roomy : IsRoomy l) (tree : IsTree l s t)
    (covers : Covers s t.next (suc level) (up.1) q) (pending : Pending s t level low up)
    (held : IsHeld b laws (laws.IsExclusive) q t.next t.latches) where
  open b use {State as L}
  open laws use {IsExclusive}

  at : IsAllocated t q
  at = (covers.starts.not_null, covers.starts.below_next)

  fits : NodeFits l s t.next q (t.nodes q)
  fits = tree.nodes_fit q at

  pub inner : (t.nodes q).is_leaf ≡ false
  inner = ground (arith, fits.kind, covers.starts.at_level)

  -- No child begins where the new node does, since two nodes of a level are apart.
  no_child : (i : ℕ) → i ≤ (t.nodes q).size → s.low ((t.nodes q).separators i) ≢ up.1
  no_child i inside e =
      let child = fits.children inner i inside in
      let new = pending.new_at in
      let r : Ptr = (t.nodes q).separators i in
      let range = (tree.nodes_fit r (child.not_null, child.below_next)).range in
      let range' = (tree.nodes_fit up.0 (new.not_null, new.below_next)).range in
      ground (
        arith,
        pending.unlinked q at inner i inside,
        tree.apart r up.0 (child.not_null, child.below_next) (new.not_null, new.below_next),
        child.at_level,
        covers.starts.at_level,
        new.at_level,
        new.at_low,
      )

  pub absent : ¬ HoldsKey (t.nodes q).keys (t.nodes q).size up.1
  absent (i, p, e) =
      no_child (suc i) (omega arith)
        (ground (arith, (fits.children inner (suc i) (omega arith)).at_low))

  pub above_low : s.low q < up.1
  above_low =
      let first = fits.children inner 0 (omega arith) in
      ground (arith, no_child 0 (omega arith), first.at_low, covers.starts.begins)

  pub new_child : IsAt s t.next up.0 (s.level q - 1) up.1
  new_child = IsAt-cong pending.new_at (omega (arith, covers.starts.at_level)) refl

  -- What `insert_into_inner` ends with.
  pub record InsertsIntoInner (up' : Ptr × Key) (t' : Tree L) (s' : Shape) : Type 0 where
    pub changes : Changes l s t s' t'
    pub same_entries : SameEntries t t'
    pub up_next : IsUp s' t' (suc level) (s.low q) up'
    pub still_held : IsHeld b laws IsExclusive q t'.next t'.latches

  unfoldable pub with_child : Tree L
  with_child = set_node t q (insert_child (t.nodes q) up.1 up.0)

  pub into_free : (t.nodes q).size < max_keys l → InsertsIntoInner (null, 0) with_child s
  unfolding with_child
  into_free room = record {
    changes = record {
      tree = set_node-IsTree tree (
          insert_child-NodeFits up.1 up.0 fits inner room absent above_low covers.ends_behind
            new_child);
      grows = Grows-refl s t.next;
      more = omega arith;
      same_root = refl;
    };
    same_entries = inner_change-Contains t with_child (omega arith) (λ p a is_leaf. a) same;
    up_next = inl refl;
    still_held = held;
  }
    where
      inner' : (insert_child (t.nodes q) up.1 up.0).is_leaf ≡ false
      inner' =
          (insert_child-InsertsSeparator (t.nodes q) up.1 up.0 fits.sorted (omega arith)
            absent).header.same_leaf
          ∙ inner

      same :
          (p : Ptr)
          → IsAllocated t p
          → ((update t.nodes q (insert_child (t.nodes q) up.1 up.0) p).is_leaf
              ≡ (t.nodes p).is_leaf)
            × ((t.nodes p).is_leaf ≡ true
                → update t.nodes q (insert_child (t.nodes q) up.1 up.0) p ≡ record (t.nodes p) {
                  parent = (update t.nodes q (insert_child (t.nodes q) up.1 up.0) p).parent;
                })
      same p a = elim (ℕ_discrete p q) [
        | yes e ↦ rw (e, (==_iff q q).1 refl) (inner' ∙ sym inner, λ e'. cc (inner, e'))
        | no other ↦ rw (ne→== p q other) (refl, λ e'. refl)
      ]

  pub split_inner :
      (new : Ptr) (key_up : Key) (t' : Tree L)
      → SplitsInnerNode l s b.fresh t q new key_up t'
      → InsertsIntoInner (new, key_up) t' (split_shape s q t.next key_up)
  split_inner new key_up t' splits = record {
    changes = record {
      tree = splits.tree;
      grows = split_shape-Grows s q t.next key_up;
      more = omega (arith, splits.one_more);
      same_root = splits.same_root;
    };
    same_entries = splits.contents;
    up_next = inr (record {
      new_at = record {
        not_null = omega (arith, splits.new_node_at);
        below_next = omega (arith, splits.new_node_at, splits.one_more);
        at_level = ground (arith, splits.new_node_at, covers.starts.at_level);
        at_low = ground (arith, splits.new_node_at);
      };
      unlinked = λ p a is_inner i inside e.
          split-unlinked key_up t t' tree splits.tree at splits.one_more splits.others p a is_inner
            i inside (e ∙ splits.new_node_at);
      above = splits.above;
      below_max = omega (arith, splits.below, fits.capped);
    });
    still_held =
        IsHeld-split b laws t t' IsExclusive at splits.one_more splits.latches
          (ap t'.latches (sym splits.new_node_at) ∙ splits.new_latch) held;
  }

  -- `insert_into_inner` returns, keeps the latch and all entries, and links the new node; a split
  -- leaves another new node, one level up.
  pub insert_into_inner-InsertsIntoInner :
      Ends
        (λ up' t'. (s' : Shape) × InsertsIntoInner up' t' s')
        (insert_into_inner b l q up.1 up.0 t)
  unfolding insert_into_inner is_full with_child
  insert_into_inner-InsertsIntoInner =
      read-Ends b laws t t.latches q at _ (elim (Bool-cases (is_full l (t.nodes q))) [
        | inr free ↦ rw free (
            write-Ends b laws t t.latches q at _ _
              (ends (s, into_free (ground (arith, free, inner)))))
        | inl full ↦ rw full (
            ends (
              split_shape s q t.next (split_inner_node l b.fresh q up.1 up.0 t).1,
              split_inner _ _ _ (
                  split_inner_node-SplitsInnerNode b.fresh roomy tree at inner
                    (ground (arith, full, inner, fits.within)) above_low covers.ends_behind absent
                    new_child),
            ))
      ])
