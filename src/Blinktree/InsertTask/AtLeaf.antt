-- ===== src/Blinktree/InsertTask/AtLeaf.antt =====
-- `InsertTask::insert_into_leaf_node` of
-- src/indices/blinktree/tbb/insert_task.cpp.
use btree_benchmarks.Prelude.{
  ◌+◌, ◌^◌, ◌<◌, ◌≡◌, ◌≢◌, inl, inr, refl, sym, ◌∙◌, ap, false, arith, ==_iff, ne→==, Bool-cases,
}
use btree_benchmarks.Blinktree.Node.{Ptr, null, Key, Value, max_key, Layout, is_full}
use btree_benchmarks.Blinktree.Tree.{Tree, IsAllocated}
use btree_benchmarks.Blinktree.Tree.Shape.{Shape, IsRoomy, IsTree, split_shape}
use btree_benchmarks.Blinktree.Tree.LeafSplitTree.{SplitsLeafNode, split_leaf_node-SplitsLeafNode}
use btree_benchmarks.Blinktree.Latched.{Latch}
use btree_benchmarks.Blinktree.Latched.Running.{Ends, ends}
use btree_benchmarks.Blinktree.Latched.Latches.{LatchLaws}
use btree_benchmarks.Blinktree.Latched.Commands.{IsHeld, IsTree-latches, read-Ends, write-Ends}
use btree_benchmarks.Blinktree.Latched.Path.{Covers}
use btree_benchmarks.Blinktree.Latched.Find.{Covers-leaf}
use btree_benchmarks.Blinktree.Latched.Step.{Pending}
use btree_benchmarks.Blinktree.Latched.LeafStep.{
  found, not_found, into_present, into_free, with_entry, split_leaf, InsertsIntoLeaf,
}
use btree_benchmarks.Blinktree.InsertTask.{InsertState, climb, insert_into_leaf_node}
use btree_benchmarks.Blinktree.InsertTask.Parents.{
  insert_value-parent, split_leaf_node-parent, leaf_change-HasParent,
}
use btree_benchmarks.Blinktree.InsertTask.Splits.{AllHaveParents, GoesOn, climb-Climbed}

module _ (b : Latch) (laws : LatchLaws b) {l : Layout} {s : Shape} (roomy : IsRoomy l)
    (t₀ : Tree b.State) (tree₀ : IsTree l s t₀) (key : Key) (value : Value) (small : key < max_key)
    (low_tree : s.level t₀.root + 2 < 2 ^ 16) (parents : AllHaveParents t₀) (q : Ptr)
    (m : Ptr → b.State) (state : InsertState) (unlocked : state.locked ≡ false)
    (covers : Covers s t₀.next 0 key q) (held : IsHeld b laws laws.IsExclusive q t₀.next m) where
  open b use {State as L}
  open laws use {IsExclusive}

  abbrev t : Tree L
  t = record t₀ { latches = m }

  tree : IsTree l s t
  tree = IsTree-latches m tree₀

  at : IsAllocated t q
  at = (covers.starts.not_null, covers.starts.below_next)

  -- What an insertion leaves under the latch of `q`.
  abbrev pub Stepped : Ptr × InsertState → Tree L → Type 0
  Stepped r t' =
      GoesOn b laws {l = l} roomy t₀ key value (s.level t₀.root) low_tree 0 r t'
      × IsAllocated t' q
      × IsHeld b laws IsExclusive q t'.next t'.latches

  without_split :
      (up : Ptr × Key) (t' : Tree L) (s' : Shape)
      → InsertsIntoLeaf b laws roomy tree key value small covers held up t' s'
      → AllHaveParents t'
      → Stepped (null, state) t'
  without_split up t' s' ins parents' = (
    inl (
      refl,
      record { shape = s'; tree = ins.changes.tree; gains = ins.gains; parents = parents' },
      unlocked,
    ),
    (at.0, omega (arith, at, ins.changes.more)),
    ins.still_held,
  )

  after_split :
      (sep : Key) (new : Ptr) (t' : Tree L)
      → SplitsLeafNode l s b.fresh t q key value sep new t'
      → InsertsIntoLeaf b laws roomy tree key value small covers held
          (new, (t'.nodes new).keys 0)
          t'
          (split_shape s q t.next sep)
      → (t'.nodes q).parent ≡ (t.nodes q).parent
      → Ends Stepped
          (climb b q (record state { separator = new; separator_key = (t'.nodes new).keys 0 }) t')
  after_split sep new t' splits ins same =
      let leaf = Covers-leaf tree key covers in
      let pending : Pending (split_shape s q t.next sep) t' 0 (s.low q)
          (new, (t'.nodes new).keys 0) =
        elim ins.up_next [
          | inl e ↦ absurd (omega (arith, splits.new_node_at, e, at))
          | inr p ↦ p
        ] in
      let others : (r : Ptr) → IsAllocated t r → r ≢ q → t'.nodes r ≡ t.nodes r =
        λ r at_r other. splits.others r other (omega (arith, at_r)) in
      climb-Climbed b laws {l = l} roomy t₀ key value (s.level t₀.root) low_tree
        (record state { separator = new; separator_key = (t'.nodes new).keys 0 }) tree
        (record {
          tree_split = splits.tree;
          new_pending = pending;
          level_q = ins.changes.grows.same_level q at.1 ∙ covers.starts.at_level;
          low_q = ins.changes.grows.same_low q at.1;
          inside = omega (arith, splits.first_key, splits.below);
          others = λ r at_r not_q not_new. (
            (at_r.0, omega (arith, at_r, splits.one_more, splits.new_node_at, not_new)),
            rw (splits.others r not_q (λ e. not_new (e ∙ sym splits.new_node_at))) refl,
          );
          parents = λ r at_r not_new.
              let at_old : IsAllocated t r =
                (at_r.0, omega (arith, at_r, splits.one_more, splits.new_node_at, not_new)) in
              leaf_change-HasParent t t' q leaf ins.changes.more splits.same_root same others r
                at_old (parents r at_old);
        })
        ins.gains
        (ap (split_shape s q t.next sep).level splits.same_root
          ∙ ins.changes.grows.same_level t.root tree₀.root_at.1)
        unlocked (at.0, omega (arith, at, ins.changes.more)) covers.starts.begins covers.ends_behind
        ins.still_held

  pub insert_into_leaf_node-Steps : Ends Stepped (insert_into_leaf_node b l q key value state t)
  unfolding insert_into_leaf_node found is_full with_entry
  insert_into_leaf_node-Steps =
      let leaf = Covers-leaf tree key covers in
      read-Ends b laws t t.latches q at _
        (elim (Bool-cases (found b laws roomy tree key value small covers held)) [
          | inl e ↦ rw e (
              ends (
                without_split _ _ s (into_present b laws roomy tree key value small covers held e)
                  parents))
          | inr e ↦
              let absent = not_found b laws roomy tree key value small covers held e in
              elim (Bool-cases (is_full l (t.nodes q))) [
                | inr free ↦
                    rw (e, free)
                      (let t' = with_entry b laws roomy tree key value small covers held absent in
                        let others : (r : Ptr) → IsAllocated t r → r ≢ q → t'.nodes r ≡ t.nodes r =
                          λ r _ other. rw (ne→== r q other) refl in
                        let same : (t'.nodes q).parent ≡ (t.nodes q).parent =
                          rw ((==_iff q q).1 refl) (insert_value-parent (t.nodes q) _ value key) in
                        write-Ends b laws t t.latches q at _ _ (
                          ends (
                            without_split (null, 0) t' s
                              (into_free b laws roomy tree key value small covers held absent
                                (ground (arith, free, leaf)))
                              (λ r at_r.
                                leaf_change-HasParent t t' q leaf (omega arith) refl same others r
                                  at_r (parents r at_r)))))
                | inl full ↦
                    rw (e, full)
                      (let (sep, splits) =
                          split_leaf_node-SplitsLeafNode b.fresh value roomy tree at leaf
                            (ground (arith, full, leaf, (tree.nodes_fit q at).within))
                            covers.starts.begins covers.ends_behind absent in
                        after_split sep _ _ splits
                          (split_leaf b laws roomy tree key value small covers held absent sep _ _
                            splits)
                          (split_leaf_node-parent l b.fresh q key value t at))
              ]
        ])
