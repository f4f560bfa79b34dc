-- ===== src/Blinktree/InsertTask/AtInner.antt =====
-- `InsertTask::insert_into_inner_node` of src/indices/blinktree/tbb/insert_task.cpp.
use btree_benchmarks.Prelude.{
  ℕ, suc, ◌+◌, ◌^◌, ◌<◌, ◌≡◌, ◌≢◌, inl, inr, refl, sym, ◌∙◌, ap, arith, Bool-cases,
}
use btree_benchmarks.Blinktree.Node.{Ptr, null, Key, Value, Layout, Node, is_full, max_keys}
use btree_benchmarks.Blinktree.Tree.{Tree, IsAllocated, set_parent, split_inner_node}
use btree_benchmarks.Blinktree.Tree.Shape.{
  Shape, IsRoomy, IsTree, NodeFits-parent, split_shape, set_node-IsTree,
}
use btree_benchmarks.Blinktree.Tree.Contents.{Gains, inner_change-Contains}
use btree_benchmarks.Blinktree.Tree.Parents.{set_parent-SameButParents}
use btree_benchmarks.Blinktree.Tree.InnerSplitTree.{split_inner_node-SplitsInnerNode}
use btree_benchmarks.Blinktree.Tree.InnerSplitTree.NewParents.{split_inner_node-HasParent}
use btree_benchmarks.Blinktree.Latched.{Latch}
use btree_benchmarks.Blinktree.Latched.Running.{Ends, ends}
use btree_benchmarks.Blinktree.Latched.Latches.{LatchLaws}
use btree_benchmarks.Blinktree.Latched.Commands.{IsHeld, read-Ends, write-Ends}
use btree_benchmarks.Blinktree.Latched.Step.{Pending, SameEntries}
use btree_benchmarks.Blinktree.Latched.LeafStep.{NewEntry}
use btree_benchmarks.Blinktree.Latched.InnerStep.{
  inner, absent, above_low, new_child, with_child, into_free, split_inner,
}
use btree_benchmarks.Blinktree.InsertTask.{InsertState, insert_into_inner_node, climb}
use btree_benchmarks.Blinktree.InsertTask.Parents.{set_child-HasParent}
use btree_benchmarks.Blinktree.InsertTask.Splits.{Climbs, GoesOn, climb-Climbed}

set_parent-Contains :
    {L : Type 0} (t : Tree L) (p parent : Ptr) → SameEntries t (set_parent t p parent)
set_parent-Contains t p parent =
    let same = set_parent-SameButParents t p parent in
    inner_change-Contains t (set_parent t p parent) (omega arith) (λ q a is_leaf. a)
      (λ q a. (ap (λ (n : Node). n.is_leaf) (same.same_nodes q), λ e. same.same_nodes q))

Gains-then :
    {L : Type 0} (E : Key → Value → Type 0) (t t' t'' : Tree L)
    → Gains E t t'
    → SameEntries t' t''
    → Gains E t t''
Gains-then E t t' t'' gains same k v =
    (λ h. (gains k v).0 ((same k v).0 h), λ h. (same k v).1 ((gains k v).1 h))

module _ (b : Latch) (laws : LatchLaws b) {l : Layout} (roomy : IsRoomy l) (t₀ : Tree b.State)
    (key : Key) (value : Value) (top : ℕ) (low_tree : top + 2 < 2 ^ 16) {s : Shape}
    {t : Tree b.State} {level : ℕ} {q : Ptr} {state : InsertState}
    (climbs : Climbs b laws {l = l} roomy t₀ key value top low_tree s t level q state)
    (held : IsHeld b laws laws.IsExclusive q t.next t.latches) where
  open b use {State as L}
  open laws use {IsExclusive}

  tree : IsTree l s t
  tree = climbs.tree

  at : IsAllocated t q
  at = (climbs.covers.starts.not_null, climbs.covers.starts.below_next)

  not_separator : q ≢ state.separator
  not_separator e =
      omega (arith, ap s.level e, climbs.covers.starts.at_level, climbs.pending.new_at.at_level)

  abbrev pub Stepped : Ptr × InsertState → Tree L → Type 0
  Stepped r t' =
      GoesOn b laws {l = l} roomy t₀ key value top low_tree (suc level) r t'
      × IsAllocated t' q
      × IsHeld b laws IsExclusive q t'.next t'.latches

  child_tree : Tree L
  child_tree = with_child b laws roomy tree climbs.covers climbs.pending held

  linked : Tree L
  linked = set_parent child_tree state.separator q

  linked-Stepped : (t.nodes q).size < max_keys l → Stepped (null, state) linked
  unfolding linked child_tree with_child
  linked-Stepped room =
      let ins = into_free b laws roomy tree climbs.covers climbs.pending held room in
      let new = climbs.pending.new_at in
      (
        inl (
          refl,
          record {
            shape = s;
            tree = set_node-IsTree ins.changes.tree (
                NodeFits-parent q
                  (ins.changes.tree.nodes_fit state.separator (new.not_null, new.below_next)));
            gains = Gains-then (NewEntry t₀ key value) t₀ t linked climbs.gains (λ k v. (
              λ h.
                  (ins.same_entries k v).0
                    ((set_parent-Contains child_tree state.separator q k v).0 h),
              λ h.
                  (set_parent-Contains child_tree state.separator q k v).1
                    ((ins.same_entries k v).1 h),
            ));
            parents =
                set_child-HasParent t q state.separator_key state.separator at
                  (inner b laws roomy tree climbs.covers climbs.pending held)
                  (tree.nodes_fit q at).sorted (omega (arith, room))
                  (absent b laws roomy tree climbs.covers climbs.pending held) not_separator
                  climbs.parents;
          },
          climbs.unlocked,
        ),
        at,
        held,
      )

  after_split :
      (full : (t.nodes q).size ≡ max_keys l)
      → let r = split_inner_node l b.fresh q state.separator_key state.separator t in
        Ends Stepped (climb b q (record state { separator = r.0; separator_key = r.1 }) r.2)
  after_split full =
      let r = split_inner_node l b.fresh q state.separator_key state.separator t in
      let is_inner = inner b laws roomy tree climbs.covers climbs.pending held in
      let above = above_low b laws roomy tree climbs.covers climbs.pending held in
      let gone = absent b laws roomy tree climbs.covers climbs.pending held in
      let child = new_child b laws roomy tree climbs.covers climbs.pending held in
      let splits =
        split_inner_node-SplitsInnerNode b.fresh roomy tree at is_inner full above
          climbs.covers.ends_behind gone child in
      let ins =
        split_inner b laws roomy tree climbs.covers climbs.pending held r.0 r.1 r.2 splits in
      let pending : Pending (split_shape s q t.next r.1) r.2 (suc level) (s.low q) (r.0, r.1) =
        elim ins.up_next [
          | inl e ↦ absurd (omega (arith, splits.new_node_at, e, at))
          | inr p ↦ p
        ] in
      let old : (p : Ptr) → IsAllocated r.2 p → p ≢ r.0 → IsAllocated t p = λ p at_p not_new.
        (at_p.0, omega (arith, at_p, splits.one_more, splits.new_node_at, not_new)) in
      climb-Climbed b laws {l = l} roomy t₀ key value top low_tree
        (record state { separator = r.0; separator_key = r.1 }) tree
        (record {
          tree_split = splits.tree;
          new_pending = pending;
          level_q = ins.changes.grows.same_level q at.1 ∙ climbs.covers.starts.at_level;
          low_q = ins.changes.grows.same_low q at.1;
          inside = splits.below;
          others = λ p at_p not_q not_new. (
            old p at_p not_new,
            splits.others p not_q (λ e. not_new (e ∙ sym splits.new_node_at)),
          );
          parents = λ p at_p not_new.
              split_inner_node-HasParent b.fresh roomy tree at is_inner full above
                climbs.covers.ends_behind gone child climbs.parents p (old p at_p not_new);
        })
        (Gains-then (NewEntry t₀ key value) t₀ t r.2 climbs.gains ins.same_entries)
        (ap (split_shape s q t.next r.1).level splits.same_root
          ∙ ins.changes.grows.same_level t.root tree.root_at.1
          ∙ climbs.at_top)
        climbs.unlocked (at.0, omega (arith, at, ins.changes.more)) climbs.key_begins
        climbs.key_inside ins.still_held

  pub insert_into_inner_node-Steps :
      Ends Stepped (insert_into_inner_node b l q state.separator_key state.separator state t)
  unfolding insert_into_inner_node is_full with_child child_tree linked
  insert_into_inner_node-Steps =
      let is_inner = inner b laws roomy tree climbs.covers climbs.pending held in
      let new = climbs.pending.new_at in
      read-Ends b laws t t.latches q at _ (elim (Bool-cases (is_full l (t.nodes q))) [
        | inr free ↦ rw free (
            write-Ends b laws t t.latches q at _ _ (
              read-Ends b laws (with_child b laws roomy tree climbs.covers climbs.pending held)
                t.latches state.separator (new.not_null, new.below_next) _
                (write-Ends b laws (with_child b laws roomy tree climbs.covers climbs.pending held)
                  t.latches state.separator (new.not_null, new.below_next) _ _
                  (ends (linked-Stepped (ground (arith, free, is_inner)))))))
        | inl full ↦
            rw full (after_split (ground (arith, full, is_inner, (tree.nodes_fit q at).within)))
      ])
