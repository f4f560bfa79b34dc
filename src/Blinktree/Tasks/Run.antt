-- ===== src/Blinktree/Tasks/Run.antt =====
-- The visits of a task of src/indices/blinktree/tbb, from the root to the leaf of its key.
use btree_benchmarks.Prelude.{
  ℕ, zero, suc, ◌+◌, ◌*◌, ◌-◌, ◌≤◌, ◌<◌, ◌≡◌, ◌⊎◌, subst, ==_iff, refl, ◌∙◌, true, false, arith,
  leb, leb→le, leb→lt, ne→==, inl, inr, Bool-cases,
}
use btree_benchmarks.Blinktree.Node.{Ptr, null, Key, max_key, Layout, child}
use btree_benchmarks.Blinktree.Tree.{Tree, IsAllocated}
use btree_benchmarks.Blinktree.Tree.Shape.{Shape, IsTree}
use btree_benchmarks.Blinktree.Latched.{Latch, Command}
use btree_benchmarks.Blinktree.Latched.Running.{Ends, ends, Ends-bind}
use btree_benchmarks.Blinktree.Latched.Latches.{LatchLaws}
use btree_benchmarks.Blinktree.Latched.Commands.{LatchesOnly, latches-Ends, AllFree}
use btree_benchmarks.Blinktree.Latched.Path.{StartsBefore, Covers, child-StartsBefore}
use btree_benchmarks.Blinktree.Tasks.{task_loop}

module _ (b : Latch) (laws : LatchLaws b) {l : Layout} {s : Shape} {t : Tree b.State}
    (tree : IsTree l s t) (key : Key) (small : key < max_key) where
  open b use {State as L}

  level_cases : (level : ℕ) → (level ≡ 0) ⊎ ((below : ℕ) × (level ≡ suc below))
  level_cases zero = inl refl
  level_cases (suc below) = inr (below, refl)

  level_step :
      (below level : ℕ) → level ≡ suc below → level * (key + 2) ≡ below * (key + 2) + key + 2
  level_step below level e = rw e (omega arith)

  -- What `execute` does at a node that is not the leaf of the key: it gives the right sibling, or
  -- the child, keeps the state, and leaves all latches free.
  pub record IsVisit {S : Type 0} (execute : Ptr → S → Command b (Ptr × S)) (state : S)
      : Type 0 where
    pub goes_right :
        (p : Ptr) (m : Ptr → L)
        → IsAllocated t p
        → AllFree b laws t.next m
        → leb (t.nodes p).high_key key ≡ true
        → LatchesOnly t
            (λ r m'. (r.0 ≡ (t.nodes p).right_sibling) × (r.1 ≡ state) × AllFree b laws t.next m')
            (execute p state (record t { latches = m }))
    pub goes_down :
        (p : Ptr) (m : Ptr → L)
        → IsAllocated t p
        → AllFree b laws t.next m
        → leb (t.nodes p).high_key key ≡ false
        → (t.nodes p).is_leaf ≡ false
        → LatchesOnly t
            (λ r m'. (r.0 ≡ child (t.nodes p) key) × (r.1 ≡ state) × AllFree b laws t.next m')
            (execute p state (record t { latches = m }))

  -- A visit that gives no next node ends the task.
  pub stop_here :
      {S : Type 0} (execute : Ptr → S → Command b (Ptr × S)) (Q : S → Tree L → Type 0) (state : S)
      (fuel : ℕ) (q : Ptr) (u : Tree L)
      → Ends (λ r t'. (r.0 ≡ null) × Q r.1 t') (execute q state u)
      → Ends Q (task_loop b (suc fuel) execute q state u)
  unfolding task_loop
  stop_here execute Q state fuel q u arrived =
      Ends-bind arrived (λ r t' at_end. rw ((==_iff r.0 null).1 at_end.0) (ends at_end.1))

  module _ {S : Type 0} (execute : Ptr → S → Command b (Ptr × S)) (state : S)
      (visit : IsVisit execute state) (Q : S → Tree L → Type 0) (extra : ℕ)
      (arrives : (fuel : ℕ) (q : Ptr) (m : Ptr → L)
        → extra ≤ fuel
        → Covers s t.next 0 key q
        → AllFree b laws t.next m
        → leb (t.nodes q).high_key key ≡ false
        → (t.nodes q).is_leaf ≡ true
        → Ends Q (task_loop b (suc fuel) execute q state (record t { latches = m }))) where
    -- The steps that are left at a node: each step to the right passes a key, and a step down starts
    -- again.
    abbrev steps_left : (level : ℕ) → Ptr → ℕ
    steps_left level p = level * (key + 2) + (key + 1 - s.high p)

    -- A step to another node, and the rest of the task.
    goes_on :
        (fuel : ℕ) (p next : Ptr) (m : Ptr → L)
        → 0 < next
        → LatchesOnly t
            (λ r m'. (r.0 ≡ next) × (r.1 ≡ state) × AllFree b laws t.next m')
            (execute p state (record t { latches = m }))
        → ((m' : Ptr → L)
            → AllFree b laws t.next m'
            → Ends Q (task_loop b fuel execute next state (record t { latches = m' })))
        → Ends Q (task_loop b (suc fuel) execute p state (record t { latches = m }))
    unfolding task_loop
    goes_on fuel p next m some_next step rest = latches-Ends _ step (λ r m' stepped.
        rw (ne→== r.0 null (omega (arith, stepped.0, some_next)))
          (rw (stepped.0, stepped.1) (rest m' stepped.2)))

    -- At the leaf of the key.
    at_leaf :
        (fuel : ℕ) (p : Ptr) (m : Ptr → L)
        → extra ≤ fuel
        → StartsBefore s t.next 0 key p
        → AllFree b laws t.next m
        → leb (t.nodes p).high_key key ≡ false
        → Ends Q (task_loop b (suc fuel) execute p state (record t { latches = m }))
    at_leaf fuel p m left at free here =
        let fits = tree.nodes_fit p (at.not_null, at.below_next) in
        arrives fuel p m left
          (record { starts = at; ends_behind = ground (arith, leb→lt _ _ here, fits.ends) }) free
          here (ground (arith, fits.kind, at.at_level))

    -- The fuel that a visit of a node of `level` at `p` needs is above `steps_left level p + extra`.
    task_loop-Ends :
        (fuel level : ℕ) (p : Ptr) (m : Ptr → L)
        → steps_left level p + extra < fuel
        → StartsBefore s t.next level key p
        → AllFree b laws t.next m
        → Ends Q (task_loop b fuel execute p state (record t { latches = m }))
    task_loop-Ends zero level p m enough at free = absurd (omega (arith, enough))
    task_loop-Ends (suc fuel) level p m enough at free =
        let allocated : IsAllocated t p = (at.not_null, at.below_next) in
        let fits = tree.nodes_fit p allocated in
        elim (Bool-cases (leb (t.nodes p).high_key key)) [
          | inl past ↦
              let beyond : s.high p ≤ key = ground (arith, leb→le _ _ past, fits.ends) in
              let sibling = fits.linked (λ e. ground (arith, fits.rightmost e)) in
              let range =
                (tree.nodes_fit (t.nodes p).right_sibling
                  (sibling.not_null, sibling.below_next)).range in
              goes_on fuel p (t.nodes p).right_sibling m sibling.not_null
                (visit.goes_right p m allocated free past)
                (λ m' free'.
                  task_loop-Ends fuel level (t.nodes p).right_sibling m'
                    (omega (arith, enough, beyond, range, sibling.at_low))
                    (record {
                      not_null = sibling.not_null;
                      below_next = sibling.below_next;
                      at_level = sibling.at_level ∙ at.at_level;
                      begins = omega (arith, sibling.at_low, beyond);
                    })
                    free')
          | inr here ↦ elim (level_cases level) [
            | inl e ↦
                at_leaf fuel p m (omega (arith, enough))
                  (subst (λ k. StartsBefore s t.next k key p) e at) free here
            | inr (below, e) ↦
                let at' = subst (λ k. StartsBefore s t.next k key p) e at in
                let (at_c, above) = child-StartsBefore tree key below p at' in
                let range_c =
                  (tree.nodes_fit (child (t.nodes p) key) (at_c.not_null, at_c.below_next)).range in
                goes_on fuel p (child (t.nodes p) key) m at_c.not_null
                  (visit.goes_down p m allocated free here
                    (ground (arith, fits.kind, at'.at_level)))
                  (λ m' free'.
                    task_loop-Ends fuel below (child (t.nodes p) key) m'
                      (omega (arith, enough, e, level_step below level e)) at_c free')
          ]
        ]

    -- From the root.
    pub task-Ends :
        (fuel : ℕ)
        → (s.level t.root + 1) * (key + 2) + extra ≤ fuel
        → AllFree b laws t.next t.latches
        → Ends Q (task_loop b fuel execute t.root state t)
    task-Ends fuel enough free =
        task_loop-Ends fuel (s.level t.root) t.root t.latches
          (omega (arith, enough, tree.root_low, (tree.nodes_fit t.root tree.root_at).range))
          (record {
            not_null = tree.root_at.0;
            below_next = tree.root_at.1;
            at_level = refl;
            begins = omega (arith, tree.root_low);
          })
          free
