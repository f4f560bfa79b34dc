-- ===== src/Blinktree/Latched/Propagate.antt =====
-- The loop of `ThreadTree::insert` in src/indices/blinktree/thread/latched/thread_tree.cpp that
-- links the new node of a split into the parent.
use btree_benchmarks.Prelude.{
  ℕ, suc, ◌≤◌, ◌<◌, ◌≡◌, ◌⊎◌, refl, ◌∙◌, [], ◌∷◌, arith, ne→==, ==_iff, inl, inr,
}
use btree_benchmarks.Blinktree.Node.{Ptr, null, Key, max_key, Layout}
use btree_benchmarks.Blinktree.NodePath.{NodePath}
use btree_benchmarks.Blinktree.Tree.{Tree, IsAllocated}
use btree_benchmarks.Blinktree.Tree.Shape.{Shape, IsRoomy, IsAt, IsTree}
use btree_benchmarks.Blinktree.Latched.{Latch, propagate}
use btree_benchmarks.Blinktree.Latched.Running.{Ends, ends, Ends-bind, Ends-weaken}
use btree_benchmarks.Blinktree.Latched.Latches.{LatchLaws}
use btree_benchmarks.Blinktree.Latched.Commands.{
  latches-Ends, IsTree-latches, AllFree, lock_node_shared-Holds, upgrade_lock-Holds,
  unlock_node-Frees,
}
use btree_benchmarks.Blinktree.Latched.Path.{
  StartsBefore-raise, IsPath, at_root, below, IsPath-raise,
}
use btree_benchmarks.Blinktree.Latched.Descent.{walk_right-Covers}
use btree_benchmarks.Blinktree.Latched.Step.{Pending, IsUp, SameEntries, IsPath-grow}
use btree_benchmarks.Blinktree.Latched.InnerStep.{insert_into_inner-InsertsIntoInner}

-- What the new root needs of the node that no parent took.
pub record IsTop {L : Type 0} (s : Shape) (t : Tree L) (up : Ptr × Key) : Type 0 where
  pub top_at : IsAt s t.next up.0 (s.level t.root) up.1
  pub top_above : 0 < up.1
  pub top_below : up.1 < max_key

module _ (b : Latch) (laws : LatchLaws b) {l : Layout} (roomy : IsRoomy l) where
  open b use {State as L}
  open laws use {IsShared, IsExclusive}

  -- What the loop ends with: all new nodes are linked but for one at the level of the root.
  pub record Propagated (s : Shape) (t : Tree L) (up : Ptr × Key) (t' : Tree L) (s' : Shape)
      : Type 0 where
    pub tree : IsTree l s' t'
    pub all_free : AllFree b laws t'.next t'.latches
    pub same_entries : SameEntries t t'
    pub up_top : (up.0 ≡ null) ⊎ IsTop s' t' up
    pub same_level : s'.level t'.root ≡ s.level t.root

  stop :
      {s : Shape} {t : Tree L} {up : Ptr × Key}
      → IsTree l s t
      → AllFree b laws t.next t.latches
      → (up.0 ≡ null) ⊎ IsTop s t up
      → Propagated s t up t s
  stop tree free top = record {
    tree = tree;
    all_free = free;
    same_entries = λ k v. (λ h. h, λ h. h);
    up_top = top;
    same_level = refl;
  }

  Pending-latches :
      {s : Shape} {t : Tree L} {level : ℕ} {low : Key} {up : Ptr × Key} (m : Ptr → L)
      → Pending s t level low up
      → Pending s (record t { latches = m }) level low up
  Pending-latches m pending = record {
    new_at = pending.new_at;
    unlinked = pending.unlinked;
    above = pending.above;
    below_max = pending.below_max;
  }

  pub IsUp-latches :
      {s : Shape} {t : Tree L} {level : ℕ} {low : Key} {up : Ptr × Key} (m : Ptr → L)
      → IsUp s t level low up
      → IsUp s (record t { latches = m }) level low up
  IsUp-latches m (inl e) = inl e
  IsUp-latches m (inr p) = inr (Pending-latches m p)

  SameEntries-trans :
      (t t' t'' : Tree L) → SameEntries t t' → SameEntries t' t'' → SameEntries t t''
  SameEntries-trans t t' t'' e f k v = (λ h. (e k v).0 ((f k v).0 h), λ h. (f k v).1 ((e k v).1 h))

  -- The loop returns, with all latches free, in a well-formed tree with the same entries.
  pub propagate-Propagated :
      (steps : ℕ) (path : NodePath) (up : Ptr × Key) (s : Shape) (t : Tree L) (level : ℕ)
      (low : Key)
      → max_key ≤ steps
      → IsTree l s t
      → AllFree b laws t.next t.latches
      → IsUp s t level low up
      → IsPath s t.next t.root level low path
      → Ends
          (λ up' t'. (s' : Shape) × Propagated s t up' t' s')
          (propagate b l (suc steps) up path t)
  unfolding propagate
  propagate-Propagated steps [] up s t level low far tree free (inl e) is_path =
      ends (s, stop tree free (inl e))
  propagate-Propagated steps [] up s t level low far tree free (inr pending) (at_root e) = ends (
    s,
    stop tree free (
        inr (record {
          top_at = rw e pending.new_at;
          top_above = omega (arith, pending.above);
          top_below = pending.below_max;
        })),
  )
  propagate-Propagated steps (q ∷ path) up s t level low far tree free (inl e) is_path =
      rw ((==_iff up.0 null).1 e, propagate) (ends (s, stop tree free (inl e)))
  propagate-Propagated steps (q ∷ path) up s t level low far tree free (inr pending)
        (below at rest) =
      let at_q : IsAllocated t q = (at.not_null, at.below_next) in
      rw (ne→== up.0 null (omega (arith, pending.new_at.not_null)), propagate)
        (latches-Ends _ (lock_node_shared-Holds b laws t t.latches q at_q free) (λ _ m₁ held₁.
          latches-Ends _
            (walk_right-Covers b laws tree up.1 pending.below_max steps (suc level) (s.low q) q m₁
              (StartsBefore-raise low up.1 (omega (arith, pending.above)) at) (omega arith)
              (omega (arith, pending.below_max)) held₁)
            (λ p m₂ walked.
              let (covers, above, held₂) = walked in
              let at_p : IsAllocated t p = (covers.starts.not_null, covers.starts.below_next) in
              latches-Ends _ (upgrade_lock-Holds b laws t m₂ p at_p held₂) (λ _ m₃ held₃.
                Ends-bind
                  (insert_into_inner-InsertsIntoInner b laws {t = record t { latches = m₃ }} roomy
                    (IsTree-latches m₃ tree) covers (Pending-latches m₃ pending) held₃)
                  (λ up' t' inserted.
                    let (s', ins) = inserted in
                    let at_p' : IsAllocated t' p = (at_p.0, omega (arith, ins.changes.more)) in
                    latches-Ends _ (unlock_node-Frees b laws t' t'.latches p at_p' ins.still_held)
                      (λ _ m₄ free₄.
                        let t₄ : Tree L = record t' { latches = m₄ } in
                        Ends-weaken
                          (propagate-Propagated steps path up' s' t₄ (suc level) (s.low p) far
                            (IsTree-latches m₄ ins.changes.tree) free₄ (IsUp-latches m₄ ins.up_next)
                            (rw ins.changes.same_root (
                              IsPath-grow path (suc level) (s.low p) ins.changes.grows
                                ins.changes.more tree.root_at.1
                                (IsPath-raise (s.low q) (s.low p) above rest))))
                          (λ up'' t'' ended.
                            let (s'', rest') = ended in
                            (
                              s'',
                              record {
                                tree = rest'.tree;
                                all_free = rest'.all_free;
                                same_entries = λ k v.
                                    SameEntries-trans t t' t'' ins.same_entries rest'.same_entries k
                                      v;
                                up_top = rest'.up_top;
                                same_level =
                                    rest'.same_level
                                    ∙ (rw ins.changes.same_root
                                        (ins.changes.grows.same_level t.root tree.root_at.1));
                              },
                            ))))))))
