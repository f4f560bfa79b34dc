-- ===== src/Blinktree/Latched/Insert.antt =====
-- `ThreadTree::insert` of src/indices/blinktree/thread/latched/thread_tree.cpp.
use btree_benchmarks.Prelude.{
  ℕ, suc, ◌+◌, ◌^◌, ℕ_discrete, ◌≤◌, ◌<◌, ◌≡◌, ◌⊎◌, refl, ◌∙◌, true, false, Option, none, some, [],
  arith, ne→==, ==_iff, inl, inr,
}
use btree_benchmarks.Prelude.Memory.{update}
use btree_benchmarks.Blinktree.Node.{Ptr, null, Key, Value, max_key, Layout}
use btree_benchmarks.Blinktree.NodePath.{NodePath}
use btree_benchmarks.Blinktree.NodePath.{NodePath}
use btree_benchmarks.Blinktree.Tree.{Tree, IsAllocated, create_new_root}
use btree_benchmarks.Blinktree.Tree.Shape.{Shape, IsRoomy, IsTree}
use btree_benchmarks.Blinktree.Tree.Contents.{Gains}
use btree_benchmarks.Blinktree.Tree.NewRoot.{
  root_shape, create_new_root-IsTree, create_new_root-Contains, create_new_root-latches,
  create_new_root-next,
}
use btree_benchmarks.Blinktree.Latched.{
  Latch, insert_below, insert_root, insert, insert_into_leaf, unlock_node, propagate,
}
use btree_benchmarks.Blinktree.Latched.Running.{
  Outcome, Ends, ends, Ends-bind, Ends-weaken, ◌>>=◌, ◌>>◌,
}
use btree_benchmarks.Blinktree.Latched.Latches.{LatchLaws}
use btree_benchmarks.Blinktree.Latched.Commands.{
  latches-Ends, IsTree-latches, IsHeld, AllFree, upgrade_lock-Holds, unlock_node-Frees,
}
use btree_benchmarks.Blinktree.Latched.Path.{Covers, IsPath, at_root, IsOptionalPath}
use btree_benchmarks.Blinktree.Latched.Descent.{locate_leaf-LocatesLeaf}
use btree_benchmarks.Blinktree.Latched.Step.{IsPath-grow}
use btree_benchmarks.Blinktree.Latched.LeafStep.{NewEntry, insert_into_leaf-InsertsIntoLeaf}
use btree_benchmarks.Blinktree.Latched.Propagate.{IsTop, IsUp-latches, propagate-Propagated}

pub IsPath-of :
    {s : Shape} {next root : Ptr} (level : ℕ) (low : Key) (path : Option NodePath)
    → IsOptionalPath true s next root level low path
    → IsPath s next root level low (elim path [ none ↦ [] | some p ↦ p ])
IsPath-of level low none e = cc e
IsPath-of level low (some path) is_path = is_path

module _ (b : Latch) (laws : LatchLaws b) (l : Layout) (t : Tree b.State) (key : Key)
    (value : Value) where
  -- What `insert` ends with, in the shape `s'`.
  pub record Inserts (t' : Tree b.State) (s' : Shape) : Type 0 where
    pub tree_after : IsTree l s' t'
    pub free_after : AllFree b laws t'.next t'.latches
    pub gains_after : Gains (NewEntry t key value) t t'

module _ (b : Latch) (laws : LatchLaws b) {l : Layout} {s : Shape} {t : Tree b.State}
    (roomy : IsRoomy l) (tree : IsTree l s t) (free : AllFree b laws t.next t.latches) (key : Key)
    (value : Value) (small : key < max_key) (fuel steps : ℕ) (enough : s.level t.root < fuel)
    (far : max_key ≤ steps) (low_tree : s.level t.root ≤ 10) where
  open b use {State as L}

  -- What the insertion below a new root ends with.
  pub record InsertsBelow (up : Ptr × Key) (t' : Tree L) (s' : Shape) : Type 0 where
    pub tree_below : IsTree l s' t'
    pub free_below : AllFree b laws t'.next t'.latches
    pub gains_below : Gains (NewEntry t key value) t t'
    pub up_top : (up.0 ≡ null) ⊎ IsTop s' t' up
    pub same_level : s'.level t'.root ≡ s.level t.root

  -- From the leaf that is responsible for the key, which is latched.
  pub insert_at :
      (q : Ptr) (path : NodePath) (m : Ptr → L)
      → Covers s t.next 0 key q
      → IsPath s t.next t.root 0 (s.low q) path
      → IsHeld b laws laws.IsExclusive q t.next m
      → Ends
          (λ up t'. (s' : Shape) × InsertsBelow up t' s')
          ((do
            up ← insert_into_leaf b l q key value
            unlock_node b q
            propagate b l (suc steps) up path)
            (record t { latches = m }))
  insert_at q path m covers is_path held =
      Ends-bind
        (insert_into_leaf-InsertsIntoLeaf b laws {t = record t { latches = m }} roomy
          (IsTree-latches m tree) key value small covers held)
        (λ up t₂ inserted.
          let (s₂, ins) = inserted in
          let at₂ : IsAllocated t₂ q =
            (covers.starts.not_null, omega (arith, covers.starts.below_next, ins.changes.more)) in
          latches-Ends _ (unlock_node-Frees b laws t₂ t₂.latches q at₂ ins.still_held)
            (λ _ m₃ free₃.
              Ends-weaken
                (propagate-Propagated b laws roomy steps _ up s₂ (record t₂ { latches = m₃ }) 0
                  (s.low q) far (IsTree-latches m₃ ins.changes.tree) free₃
                  (IsUp-latches b laws roomy m₃ ins.up_next)
                  (rw ins.changes.same_root (
                    IsPath-grow _ 0 (s.low q) ins.changes.grows ins.changes.more tree.root_at.1
                      is_path)))
                (λ up' t' ended.
                  let (s', rest) = ended in
                  (
                    s',
                    record {
                      tree_below = rest.tree;
                      free_below = rest.all_free;
                      gains_below = λ k v. (
                        λ h. (ins.gains k v).0 ((rest.same_entries k v).0 h),
                        λ h. (rest.same_entries k v).1 ((ins.gains k v).1 h),
                      );
                      up_top = rest.up_top;
                      same_level =
                          rest.same_level
                          ∙ (rw ins.changes.same_root
                              (ins.changes.grows.same_level t.root tree.root_at.1));
                    },
                  ))))

  insert_below-InsertsBelow :
      Ends
        (λ up t'. (s' : Shape) × InsertsBelow up t' s')
        (insert_below b l fuel (suc steps) key value t)
  unfolding insert_below
  insert_below-InsertsBelow =
      latches-Ends _
        (locate_leaf-LocatesLeaf b laws tree key small true fuel steps (some []) enough
          (omega arith) low_tree (at_root refl) free)
        (λ r m located.
          let (covers, is_path, held) = located in
          let at : IsAllocated t r.0 = (covers.starts.not_null, covers.starts.below_next) in
          latches-Ends _ (upgrade_lock-Holds b laws t m r.0 at held)
            (λ _ m₁ held₁. insert_at r.0 _ m₁ covers (IsPath-of 0 (s.low r.0) r.1 is_path) held₁))

  grow_root :
      {up : Ptr × Key} {t' : Tree L} {s' : Shape}
      → InsertsBelow up t' s'
      → IsTop s' t' up
      → Inserts b laws l t key value
          (create_new_root b.fresh t'.root up.0 up.1 t')
          (root_shape s' t'.next t'.root)
  grow_root {up} {t'} {s'} done_below top =
      let tree' = done_below.tree_below in
      let low_enough : t'.height + 1 < 2 ^ 16 =
        omega (arith, tree'.height_root, done_below.same_level) in
      let same =
        create_new_root-Contains b.fresh roomy tree' top.top_at top.top_above top.top_below
          low_enough in
      record {
        tree_after =
            create_new_root-IsTree b.fresh roomy tree' top.top_at top.top_above top.top_below
              low_enough;
        free_after =
            rw
              (
                create_new_root-latches b.fresh roomy tree' top.top_at top.top_above top.top_below
                    low_enough,
                create_new_root-next b.fresh roomy tree' top.top_at top.top_above top.top_below
                    low_enough,
              )
              (λ q above below. fresh_or_old q above below);
        gains_after = λ k v. (
          λ h. (done_below.gains_below k v).0 ((same k v).0 h),
          λ h. (same k v).1 ((done_below.gains_below k v).1 h),
        );
      }
    where
      fresh_or_old :
          (q : Ptr) → 0 < q → q < t'.next + 1 → laws.IsFree (update t'.latches t'.next b.fresh q)
      fresh_or_old q above below = elim (ℕ_discrete q t'.next) [
        | yes e ↦ rw (e, (==_iff t'.next t'.next).1 refl) laws.fresh_free
        | no old ↦ rw (ne→== q t'.next old) (done_below.free_below q above (omega arith))
      ]

  pub insert_root-Inserts :
      {r : Outcome (Tree L) (Ptr × Key)}
      → Ends (λ up t'. (s' : Shape) × InsertsBelow up t' s') r
      → Ends
          (λ _ u. (u.locked ≡ false) × ((s' : Shape) × Inserts b laws l t key value u.tree s'))
          (insert_root b l (record { tree = t; locked = false }) r)
  unfolding insert_root
  insert_root-Inserts (ends {a = up} {s = t'} (s', h)) = elim h.up_top [
    | inl e ↦
        rw ((==_iff up.0 null).1 e, insert_root)
          (ends (
            refl,
            (
              s',
              record {
                tree_after = h.tree_below;
                free_after = h.free_below;
                gains_after = h.gains_below;
              },
            ),
          ))
    | inr top ↦
        rw (ne→== up.0 null (omega (arith, top.top_at.not_null)), insert_root)
          (ends (refl, (root_shape s' t'.next t'.root, grow_root h top)))
  ]

  -- In a well-formed tree of at most 11 levels with all latches free, `insert` of a key below 2^64
  -- - 1 returns, with fuel above the root's level and 2^64 steps for each walk; it ends in a well-
  -- formed tree with all latches free and `_lock` released. The tree then contains the entry, if
  -- it lacked the key, and otherwise what it contained before, in either case.
  pub insert-Inserts :
      Ends
        (λ _ u. (u.locked ≡ false) × ((s' : Shape) × Inserts b laws l t key value u.tree s'))
        (insert b l fuel (suc steps) key value (record { tree = t; locked = false }))
  unfolding insert
  insert-Inserts = insert_root-Inserts insert_below-InsertsBelow
