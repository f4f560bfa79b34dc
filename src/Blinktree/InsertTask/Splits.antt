-- ===== src/Blinktree/InsertTask/Splits.antt =====
-- Where `InsertTask` of src/indices/blinktree/tbb/insert_task.cpp stands after a split: the new node
-- goes into the parent, or below a new root.
use btree_benchmarks.Prelude.{
  ℕ, suc, ◌+◌, ◌^◌, ◌≤◌, ◌<◌, ◌≡◌, ◌≢◌, ◌⊎◌, inl, inr, refl, sym, ◌∙◌, ap, subst, false, arith,
  ==_iff, ne→==,
}
use btree_benchmarks.Blinktree.Node.{Ptr, null, Key, Value, Layout, Node}
use btree_benchmarks.Blinktree.Tree.{Tree, IsAllocated, create_new_root}
use btree_benchmarks.Blinktree.Tree.Shape.{Shape, IsRoomy, IsAt-cong, IsTree}
use btree_benchmarks.Blinktree.Tree.Parents.{SameButParent}
use btree_benchmarks.Blinktree.Tree.Contents.{Gains}
use btree_benchmarks.Blinktree.Tree.Children.{IsChildOf, HasParent, HasChild-back, child_within}
use btree_benchmarks.Blinktree.Tree.NewRoot.{
  root_shape, create_new_root-IsTree, create_new_root-Contains, create_new_root-latches,
  create_new_root-next,
}
use btree_benchmarks.Blinktree.Tree.NewRoot.NewParents.{create_new_root-HasParent}
use btree_benchmarks.Blinktree.Latched.{Latch}
use btree_benchmarks.Blinktree.Latched.Running.{done, Ends, ends}
use btree_benchmarks.Blinktree.Latched.Latches.{LatchLaws}
use btree_benchmarks.Blinktree.Latched.Commands.{IsHeld, read-Ends}
use btree_benchmarks.Blinktree.Latched.Path.{Covers}
use btree_benchmarks.Blinktree.Latched.Step.{Pending, IsHeld-split}
use btree_benchmarks.Blinktree.Latched.LeafStep.{NewEntry}
use btree_benchmarks.Blinktree.InsertTask.{InsertState, lock_and_create_new_root, climb}

abbrev pub AllHaveParents : {L : Type 0} → Tree L → Type 0
AllHaveParents t = (r : Ptr) → IsAllocated t r → HasParent t r

-- What a split of `q` in `t` leaves in `t'`: the new node `up.0` waits for a parent.
pub record Split {L : Type 0} (l : Layout) (s : Shape) (t : Tree L) (q : Ptr) (level : ℕ)
    (s' : Shape) (t' : Tree L) (up : Ptr × Key) : Type 0 where
  pub tree_split : IsTree l s' t'
  pub new_pending : Pending s' t' level (s.low q) up
  pub level_q : s'.level q ≡ level
  pub low_q : s'.low q ≡ s.low q
  pub inside : up.1 < s.high q
  pub others :
      (r : Ptr)
      → IsAllocated t' r
      → r ≢ q
      → r ≢ up.0
      → IsAllocated t r × SameButParent (t.nodes r) (t'.nodes r)
  pub parents : (r : Ptr) → IsAllocated t' r → r ≢ up.0 → HasParent t' r

module _ (b : Latch) (laws : LatchLaws b) {l : Layout} (roomy : IsRoomy l) (t₀ : Tree b.State)
    (key : Key) (value : Value) (top : ℕ) (low_tree : top + 2 < 2 ^ 16) where
  open b use {State as L}
  open laws use {IsExclusive}

  -- Before a node above `level` is executed: the node at `q` is the one for the waiting separator.
  pub record Climbs (s : Shape) (t : Tree L) (level : ℕ) (q : Ptr) (state : InsertState)
      : Type 0 where
    pub tree : IsTree l s t
    pub gains : Gains (NewEntry t₀ key value) t₀ t
    pub at_top : s.level t.root ≡ top
    pub low : Key
    pub pending : Pending s t level low (state.separator, state.separator_key)
    pub covers : Covers s t.next (suc level) state.separator_key q
    pub key_begins : s.low q ≤ key
    pub key_inside : key < s.high q
    pub parents : (r : Ptr) → IsAllocated t r → r ≢ state.separator → HasParent t r
    pub unlocked : state.locked ≡ false

  -- When the task has ended.
  pub record Inserted (t : Tree L) : Type 0 where
    pub shape : Shape
    pub tree : IsTree l shape t
    pub gains : Gains (NewEntry t₀ key value) t₀ t
    pub parents : AllHaveParents t

  -- What `execute` gives, and what it leaves: nothing, or the next node.
  abbrev pub GoesOn : (level : ℕ) → Ptr × InsertState → Tree L → Type 0
  GoesOn level r t =
      ((r.0 ≡ null) × Inserted t × (r.1.locked ≡ false))
      ⊎ ((s : Shape) × (0 < r.0) × Climbs s t level r.0 r.1)

  module _ {s s' : Shape} {t t' : Tree L} {q : Ptr} {level : ℕ} (state : InsertState)
      (tree : IsTree l s t)
      (split : Split l s t q level s' t' (state.separator, state.separator_key))
      (gained : Gains (NewEntry t₀ key value) t₀ t') (top' : s'.level t'.root ≡ top)
      (unlocked : state.locked ≡ false) (at : IsAllocated t' q) (begins : s.low q ≤ key)
      (key_below : key < s.high q) (held : IsHeld b laws IsExclusive q t'.next t'.latches) where
    -- The parent was the parent before the split, so its keys reach as far as those of the node did.
    parent_within :
        (p : Ptr)
        → IsChildOf t' q p
        → (s'.level p ≡ suc level) × (s'.low p ≤ s.low q) × (s.high q ≤ s'.high p)
    parent_within p is_child =
        let child = child_within split.tree_split p is_child.0 is_child.1 q is_child.2 in
        let fits' = split.tree_split.nodes_fit p is_child.0 in
        let level_p : s'.level p ≡ suc level =
          ground (arith, child.1, split.level_q, fits'.kind, is_child.1) in
        let not_q : p ≢ q = λ e. ground (arith, ap s'.level e, level_p, split.level_q) in
        let not_new : p ≢ state.separator =
          λ e. ground (arith, ap s'.level e, level_p, split.new_pending.new_at.at_level) in
        let (at_p, kept) = split.others p is_child.0 not_q not_new in
        let old =
          child_within tree p at_p (sym (ap (λ (n : Node). n.is_leaf) kept) ∙ is_child.1) q
            (HasChild-back (t.nodes p) (t'.nodes p) q kept is_child.2) in
        let same_high : s'.high p ≡ s.high p =
          sym fits'.ends ∙ ap (λ (n : Node). n.high_key) kept ∙ (tree.nodes_fit p at_p).ends in
        (level_p, omega (arith, child.2, split.low_q), omega (arith, old.3, same_high))

    goes_to_parent : (p : Ptr) → IsChildOf t' q p → Climbs s' t' level p state
    goes_to_parent p is_child =
        let within = parent_within p is_child in
        record {
          tree = split.tree_split;
          gains = gained;
          at_top = top';
          low = s.low q;
          pending = split.new_pending;
          covers = record {
            starts = record {
              not_null = is_child.0.0;
              below_next = is_child.0.1;
              at_level = within.0;
              begins = omega (arith, within.1, split.new_pending.above);
            };
            ends_behind = omega (arith, within.2, split.inside);
          };
          key_begins = omega (arith, within.1, begins);
          key_inside = omega (arith, within.2, key_below);
          parents = split.parents;
          unlocked = unlocked;
        }

    abbrev grown : Tree L
    grown = create_new_root b.fresh t'.root state.separator state.separator_key t'

    under_new_root :
        q ≡ t'.root
        → Inserted grown
          × IsAllocated grown q
          × IsHeld b laws IsExclusive q grown.next grown.latches
    under_new_root is_root =
        let tree' = split.tree_split in
        let pending = split.new_pending in
        let new_at = IsAt-cong pending.new_at (sym split.level_q ∙ ap s'.level is_root) refl in
        let above : 0 < state.separator_key = omega (arith, pending.above) in
        let small : t'.height + 1 < 2 ^ 16 = omega (arith, tree'.height_root, top', low_tree) in
        let same =
          create_new_root-Contains b.fresh roomy tree' new_at above pending.below_max small in
        let next = create_new_root-next b.fresh roomy tree' new_at above pending.below_max small in
        let latches =
          create_new_root-latches b.fresh roomy tree' new_at above pending.below_max small in
        (
          record {
            shape = root_shape s' t'.next t'.root;
            tree = create_new_root-IsTree b.fresh roomy tree' new_at above pending.below_max small;
            gains =
                λ k v. (λ h. (gained k v).0 ((same k v).0 h), λ h. (same k v).1 ((gained k v).1 h));
            parents =
                create_new_root-HasParent b.fresh roomy tree' new_at above pending.below_max small
                  split.parents;
          },
          (at.0, omega (arith, at, next)),
          IsHeld-split b laws t' grown IsExclusive at next
              (λ r other. rw (latches, ne→== r t'.next other) refl)
              (rw (latches, (==_iff t'.next t'.next).1 refl) refl) held,
        )

    -- What is left to do after the split, still under the latch of the node.
    abbrev pub Climbed : Ptr × InsertState → Tree L → Type 0
    Climbed r t'' =
        GoesOn level r t'' × IsAllocated t'' q × IsHeld b laws IsExclusive q t''.next t''.latches

    pub climb-Climbed : Ends Climbed (climb b q state t')
    unfolding climb lock_and_create_new_root
    climb-Climbed =
        read-Ends b laws t' t'.latches q at _
          (elim (split.parents q at (λ e. omega (
            arith,
            ap s'.low e,
            split.low_q,
            split.new_pending.above,
            split.new_pending.new_at.at_low,
          ))) [
            | inl (none_above, is_root) ↦ rw ((==_iff (t'.nodes q).parent null).1 none_above) (
                simp unlocked (
                  let (inserted, at', held') = under_new_root is_root in
                  subst
                    (λ p. Ends Climbed (
                      done (null, state)
                        (create_new_root b.fresh p state.separator state.separator_key t')))
                    (sym is_root) (ends (inl (refl, inserted, unlocked), at', held'))))
            | inr is_child ↦ rw (ne→== (t'.nodes q).parent null (omega (arith, is_child.0))) (
                ends
                  (inr (s', is_child.0.0, goes_to_parent (t'.nodes q).parent is_child), at, held))
          ])
