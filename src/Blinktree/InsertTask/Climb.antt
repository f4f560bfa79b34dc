-- ===== src/Blinktree/InsertTask/Climb.antt =====
-- `InsertTask::execute` of src/indices/blinktree/tbb/insert_task.cpp on the way up.
use btree_benchmarks.Prelude.{
  ℕ, zero, suc, ◌+◌, ◌^◌, ◌≤◌, ◌<◌, ◌≡◌, inl, inr, false, arith, ==_iff, ne→==, leb,
}
use btree_benchmarks.Blinktree.Node.{Ptr, null, Key, Value, Layout}
use btree_benchmarks.Blinktree.Tree.{Tree, IsAllocated}
use btree_benchmarks.Blinktree.Tree.Shape.{Shape, IsRoomy}
use btree_benchmarks.Blinktree.Latched.{Latch, Command}
use btree_benchmarks.Blinktree.Latched.Running.{Ends, ends, Ends-bind}
use btree_benchmarks.Blinktree.Latched.Latches.{LatchLaws}
use btree_benchmarks.Blinktree.Latched.Commands.{
  latches-Ends, IsTree-latches, AllFree, read-Ends, lock_node_shared-Holds, upgrade_lock-Holds,
  unlock_node-Frees,
}
use btree_benchmarks.Blinktree.Tasks.{task_loop}
use btree_benchmarks.Blinktree.InsertTask.{InsertState, insert_at_node, insert_execute}
use btree_benchmarks.Blinktree.InsertTask.Splits.{Climbs, Inserted, GoesOn}
use btree_benchmarks.Blinktree.InsertTask.AtInner.{insert_into_inner_node-Steps}

module _ (b : Latch) (laws : LatchLaws b) {l : Layout} (roomy : IsRoomy l) (t₀ : Tree b.State)
    (key : Key) (value : Value) (top : ℕ) (low_tree : top + 2 < 2 ^ 16) where
  open b use {State as L}
  open laws use {IsExclusive}

  Inserted-latches :
      {t : Tree L} (m : Ptr → L)
      → Inserted b laws {l = l} roomy t₀ key value top low_tree t
      → Inserted b laws {l = l} roomy t₀ key value top low_tree (record t { latches = m })
  Inserted-latches m ins = record {
    shape = ins.shape;
    tree = IsTree-latches m ins.tree;
    gains = ins.gains;
    parents = ins.parents;
  }

  pub Climbs-latches :
      {s : Shape} {t : Tree L} {level : ℕ} {q : Ptr} {state : InsertState} (m : Ptr → L)
      → Climbs b laws {l = l} roomy t₀ key value top low_tree s t level q state
      → Climbs b laws {l = l} roomy t₀ key value top low_tree s
          (record t { latches = m })
          level
          q
          state
  Climbs-latches m climbs = record {
    tree = IsTree-latches m climbs.tree;
    gains = climbs.gains;
    at_top = climbs.at_top;
    low = climbs.low;
    pending = record {
      new_at = climbs.pending.new_at;
      unlinked = climbs.pending.unlinked;
      above = climbs.pending.above;
      below_max = climbs.pending.below_max;
    };
    covers = climbs.covers;
    key_begins = climbs.key_begins;
    key_inside = climbs.key_inside;
    parents = climbs.parents;
    unlocked = climbs.unlocked;
  }

  -- What the task ends with.
  pub record Finishes (state : InsertState) (t : Tree L) : Type 0 where
    pub inserted : Inserted b laws {l = l} roomy t₀ key value top low_tree t
    pub unlocked : state.locked ≡ false
    pub all_free : AllFree b laws t.next t.latches

  -- What comes behind an insertion: the latch of the node is released.
  pub unlocked-GoesOn :
      (level : ℕ) (q : Ptr) (r : Ptr × InsertState) (t' : Tree L) (m : Ptr → L)
      → GoesOn b laws {l = l} roomy t₀ key value top low_tree level r t'
      → GoesOn b laws {l = l} roomy t₀ key value top low_tree level r (record t' { latches = m })
  unlocked-GoesOn level q r t' m (inl (e, ins, unlocked)) =
      inl (e, Inserted-latches m ins, unlocked)
  unlocked-GoesOn level q r t' m (inr (s', some_next, climbs)) =
      inr (s', some_next, Climbs-latches m climbs)

  -- The node of a waiting separator.
  pub execute-GoesOn :
      (level : ℕ) (q : Ptr) (s : Shape) (t : Tree L) (state : InsertState)
      → Climbs b laws {l = l} roomy t₀ key value top low_tree s t level q state
      → AllFree b laws t.next t.latches
      → Ends
          (λ r t'.
            GoesOn b laws {l = l} roomy t₀ key value top low_tree (suc level) r t'
            × AllFree b laws t'.next t'.latches)
          (insert_execute b l key value q state t)
  unfolding insert_execute insert_at_node
  execute-GoesOn level q s t state climbs free =
      let at : IsAllocated t q = (climbs.covers.starts.not_null, climbs.covers.starts.below_next) in
      let here : leb (t.nodes q).high_key key ≡ false =
        ground (arith, (climbs.tree.nodes_fit q at).ends, climbs.key_inside) in
      latches-Ends _ (lock_node_shared-Holds b laws t t.latches q at free) (λ _ m₁ held₁.
        read-Ends b laws t m₁ q at _ (
          rw (here, ne→== state.separator null (omega (arith, climbs.pending.new_at.not_null)))
            (latches-Ends _ (upgrade_lock-Holds b laws t m₁ q at held₁) (λ _ m₂ held₂.
              rw (ne→== state.separator null (omega (arith, climbs.pending.new_at.not_null))) (
                Ends-bind
                  (insert_into_inner_node-Steps b laws roomy t₀ key value top low_tree
                    {t = record t { latches = m₂ }} (Climbs-latches m₂ climbs) held₂)
                  (λ r t' (goes_on, at', held').
                    latches-Ends _ (unlock_node-Frees b laws t' t'.latches q at' held')
                      (λ _ m₃ free₃.
                        ends (unlocked-GoesOn (suc level) q r t' m₃ goes_on, free₃))))))))

  module _ (execute : Ptr → InsertState → Command b (Ptr × InsertState)) where
    -- An insertion under the latch of `q`, and the rest of the task.
    pub step-Finishes :
        (fuel level : ℕ) (q : Ptr) (state : InsertState) (u : Tree L)
        → Ends
            (λ r t'.
              GoesOn b laws {l = l} roomy t₀ key value top low_tree level r t'
              × AllFree b laws t'.next t'.latches)
            (execute q state u)
        → ((s : Shape) (p : Ptr) (state' : InsertState) (t' : Tree L)
            → Climbs b laws {l = l} roomy t₀ key value top low_tree s t' level p state'
            → AllFree b laws t'.next t'.latches
            → Ends Finishes (task_loop b fuel execute p state' t'))
        → Ends Finishes (task_loop b (suc fuel) execute q state u)
    unfolding task_loop
    step-Finishes fuel level q state u stepped rest = Ends-bind stepped (λ r t' (goes_on, free).
        elim goes_on [
          | inl (at_end, inserted, unlocked) ↦
              rw ((==_iff r.0 null).1 at_end)
                (ends (record { inserted = inserted; unlocked = unlocked; all_free = free }))
          | inr (s', some_next, climbs) ↦
              rw (ne→== r.0 null (omega (arith, some_next))) (rest s' r.0 r.1 t' climbs free)
        ])

    module _
        (climbs_on : (level : ℕ) (q : Ptr) (s : Shape) (t : Tree L) (state : InsertState)
          → Climbs b laws {l = l} roomy t₀ key value top low_tree s t level q state
          → AllFree b laws t.next t.latches
          → Ends
              (λ r t'.
                GoesOn b laws {l = l} roomy t₀ key value top low_tree (suc level) r t'
                × AllFree b laws t'.next t'.latches)
              (execute q state t)) where
      -- The task ends within as many executions as there are levels above the one of the new node.
      pub climb-Finishes :
          (fuel level : ℕ) (q : Ptr) (s : Shape) (t : Tree L) (state : InsertState)
          → top ≤ level + fuel
          → Climbs b laws {l = l} roomy t₀ key value top low_tree s t level q state
          → AllFree b laws t.next t.latches
          → Ends Finishes (task_loop b fuel execute q state t)
      climb-Finishes zero level q s t state enough climbs free = absurd (
          omega (
            arith,
            enough,
            climbs.at_top,
            climbs.covers.starts.at_level,
            climbs.tree.top q (climbs.covers.starts.not_null, climbs.covers.starts.below_next),
          ))
      climb-Finishes (suc fuel) level q s t state enough climbs free =
          step-Finishes fuel (suc level) q state t (climbs_on level q s t state climbs free)
            (λ s' p state' t' climbs' free'.
              climb-Finishes fuel (suc level) p s' t' state' (omega (arith, enough)) climbs' free')
