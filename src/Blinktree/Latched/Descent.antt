-- ===== src/Blinktree/Latched/Descent.antt =====
-- `ThreadTree::locate_leaf` of src/indices/blinktree/thread/latched/thread_tree.cpp and its loops.
use btree_benchmarks.Prelude.{
  ℕ, zero, suc, ◌+◌, ◌≤◌, ◌<◌, ◌≡◌, refl, ◌∙◌, Bool, true, false, Option, none, some, arith, inl,
  inr, lt→ltb, leb, leb→le, leb→lt, Bool-cases, length,
}
use btree_benchmarks.Blinktree.Node.{Ptr, Key, max_key, Layout, child}
use btree_benchmarks.Blinktree.NodePath.{NodePath}
use btree_benchmarks.Blinktree.Tree.{Tree, IsAllocated}
use btree_benchmarks.Blinktree.Tree.Shape.{Shape, IsTree}
use btree_benchmarks.Blinktree.Latched.{Latch, walk_right, push_node, descend, locate_leaf}
use btree_benchmarks.Blinktree.Latched.Path.{
  StartsBefore, Covers, below, IsPath-length, IsOptionalPath, raise_optional, child-StartsBefore,
}
use btree_benchmarks.Blinktree.Latched.Latches.{LatchLaws}
use btree_benchmarks.Blinktree.Latched.Commands.{
  LatchesOnly, latches_only, latches-bind, IsHeld, AllFree, read-latches, lock_node_shared-Holds,
  unlock_node_shared-Frees,
}

module _ (b : Latch) (laws : LatchLaws b) {l : Layout} {s : Shape} {t : Tree b.State}
    (tree : IsTree l s t) (key : Key) (small : key < max_key) where
  open b use {State as L}
  open laws use {IsShared}

  -- What the walk ends with, if the first node begins at `from` or behind.
  WalksTo : (level : ℕ) (from : Key) → Ptr → (Ptr → L) → Type 0
  WalksTo level from q m =
      Covers s t.next level key q × (from ≤ s.low q) × IsHeld b laws IsShared q t.next m

  -- One round; `rest` is the walk from the right sibling.
  walk_right-step :
      (fuel level : ℕ) (from : Key) (p : Ptr) (m : Ptr → L)
      → StartsBefore s t.next level key p
      → from ≤ s.low p
      → IsHeld b laws IsShared p t.next m
      → ((right : Ptr) (m₂ : Ptr → L)
          → s.high p ≤ key
          → s.low right ≡ s.high p
          → StartsBefore s t.next level key right
          → IsHeld b laws IsShared right t.next m₂
          → LatchesOnly t
              (WalksTo level from)
              (walk_right b fuel right key (record t { latches = m₂ })))
      → LatchesOnly t
          (WalksTo level from)
          (walk_right b (suc fuel) p key (record t { latches = m }))
  unfolding walk_right WalksTo
  walk_right-step fuel level from p m at above held rest =
      let allocated : IsAllocated t p = (at.not_null, at.below_next) in
      let fits = tree.nodes_fit p allocated in
      read-latches b laws t m p allocated _ (elim (Bool-cases (leb (t.nodes p).high_key key)) [
        | inr here ↦ rw here (
            latches_only (
              record { starts = at; ends_behind = ground (arith, leb→lt _ _ here, fits.ends) },
              above,
              held,
            ))
        | inl past ↦ rw past (
            let beyond : s.high p ≤ key = ground (arith, leb→le _ _ past, fits.ends) in
            let sibling = fits.linked (λ e. ground (arith, fits.rightmost e)) in
            let right : Ptr = (t.nodes p).right_sibling in
            latches-bind _ (unlock_node_shared-Frees b laws t m p allocated held) (λ _ m₁ free.
              latches-bind _
                (lock_node_shared-Holds b laws t m₁ right (sibling.not_null, sibling.below_next)
                  free)
                (λ _ m₂ held₂.
                  rest right m₂ beyond sibling.at_low
                    (record {
                      not_null = sibling.not_null;
                      below_next = sibling.below_next;
                      at_level = sibling.at_level ∙ at.at_level;
                      begins = omega (arith, sibling.at_low);
                    })
                    held₂)))
      ])

  -- The walk ends at the node of the level that is responsible for the key, and holds its latch
  -- alone. It takes at most one step for each key from the first node's end on.
  pub walk_right-Covers :
      (fuel level : ℕ) (from : Key) (p : Ptr) (m : Ptr → L)
      → StartsBefore s t.next level key p
      → from ≤ s.low p
      → key < s.high p + fuel
      → IsHeld b laws IsShared p t.next m
      → LatchesOnly t
          (λ q m'.
            Covers s t.next level key q × (from ≤ s.low q) × IsHeld b laws IsShared q t.next m')
          (walk_right b (suc fuel) p key (record t { latches = m }))
  unfolding WalksTo
  walk_right-Covers zero level from p m at above enough held =
      walk_right-step zero level from p m at above held
        (λ right m₂ beyond low at₂ held₂. absurd (omega arith))
  walk_right-Covers (suc fuel) level from p m at above enough held =
      walk_right-step (suc fuel) level from p m at above held (λ right m₂ beyond low at₂ held₂.
        let range = (tree.nodes_fit p (at.not_null, at.below_next)).range in
        let range₂ = (tree.nodes_fit right (at₂.not_null, at₂.below_next)).range in
        walk_right-Covers fuel level from right m₂ at₂ (omega arith) (omega arith) held₂)

  module _ (wanted : Bool) where
    push_node-IsPath :
        (R : (Ptr → L) → Type 0) (level : ℕ) (q : Ptr) (path : Option NodePath) (m : Ptr → L)
        → s.level t.root ≤ 10
        → StartsBefore s t.next (suc level) (s.low q) q
        → IsOptionalPath wanted s t.next t.root (suc level) (s.low q) path
        → R m
        → LatchesOnly t
            (λ path' m'. IsOptionalPath wanted s t.next t.root level (s.low q) path' × R m')
            (push_node b path q (record t { latches = m }))
    unfolding push_node
    push_node-IsPath R level q none m low_tree at is_path r = latches_only (is_path, r)
    push_node-IsPath R level q (some path) m low_tree at is_path r =
        let room = IsPath-length path (suc level) (s.low q) is_path in
        rw (lt→ltb (length path) 10 (omega arith), push_node) (latches_only (below at is_path, r))

    -- Where the descent ends: at a leaf, with all latches free.
    DescendsTo : Ptr × Option NodePath → (Ptr → L) → Type 0
    DescendsTo r m =
        StartsBefore s t.next 0 key r.0
        × IsOptionalPath wanted s t.next t.root 0 (s.low r.0) r.1
        × AllFree b laws t.next m

    descend-DescendsTo :
        (fuel steps level : ℕ) (p : Ptr) (path : Option NodePath) (m : Ptr → L)
        → level < fuel
        → key ≤ steps
        → s.level t.root ≤ 10
        → StartsBefore s t.next level key p
        → IsOptionalPath wanted s t.next t.root level (s.low p) path
        → AllFree b laws t.next m
        → LatchesOnly t DescendsTo
            (descend b fuel (suc steps) p key path (record t { latches = m }))
    unfolding descend DescendsTo
    descend-DescendsTo zero steps level p path m enough far low_tree at is_path free =
        absurd (omega arith)
    descend-DescendsTo (suc fuel) steps zero p path m enough far low_tree at is_path free =
        let allocated : IsAllocated t p = (at.not_null, at.below_next) in
        let leaf : (t.nodes p).is_leaf ≡ true =
          ground (arith, (tree.nodes_fit p allocated).kind, at.at_level) in
        read-latches b laws t m p allocated _ (rw leaf (latches_only (at, is_path, free)))
    descend-DescendsTo (suc fuel) steps (suc level) p path m enough far low_tree at is_path free =
        let allocated : IsAllocated t p = (at.not_null, at.below_next) in
        let fits = tree.nodes_fit p allocated in
        let inner : (t.nodes p).is_leaf ≡ false = ground (arith, fits.kind, at.at_level) in
        read-latches b laws t m p allocated _ (
          rw inner (
            latches-bind _ (lock_node_shared-Holds b laws t m p allocated free) (λ _ m₁ held₁.
              latches-bind _
                (walk_right-Covers steps (suc level) (s.low p) p m₁ at (omega arith)
                  (omega (arith, fits.range)) held₁)
                (λ q m₂ walked.
                  let (covers, above, held₂) = walked in
                  let at_q : IsAllocated t q = (covers.starts.not_null, covers.starts.below_next) in
                  latches-bind _
                    (push_node-IsPath (IsHeld b laws IsShared q t.next) level q path m₂ low_tree
                      (record {
                        not_null = at_q.0;
                        below_next = at_q.1;
                        at_level = covers.starts.at_level;
                        begins = omega arith;
                      })
                      (raise_optional s t.next t.root wanted (suc level) (s.low p) (s.low q) path
                        above is_path)
                      held₂)
                    (λ path' m₃ pushed. read-latches b laws t m₃ q at_q _ (
                      latches-bind _ (unlock_node_shared-Frees b laws t m₃ q at_q pushed.1)
                        (λ _ m₄ free₄.
                          let (at_c, above_c) = child-StartsBefore tree key level q covers.starts in
                          descend-DescendsTo fuel steps level (child (t.nodes q) key) path' m₄
                            (omega arith) far low_tree at_c
                            (raise_optional s t.next t.root wanted level (s.low q)
                              (s.low (child (t.nodes q) key)) path' above_c pushed.0)
                            free₄)))))))

    -- `locate_leaf` ends at the leaf that is responsible for the key, and holds its latch alone.
    pub locate_leaf-LocatesLeaf :
        (fuel steps : ℕ) (path : Option NodePath)
        → s.level t.root < fuel
        → key ≤ steps
        → s.level t.root ≤ 10
        → IsOptionalPath wanted s t.next t.root (s.level t.root) 0 path
        → AllFree b laws t.next t.latches
        → LatchesOnly t
            (λ r m.
              Covers s t.next 0 key r.0
              × IsOptionalPath wanted s t.next t.root 0 (s.low r.0) r.1
              × IsHeld b laws IsShared r.0 t.next m)
            (locate_leaf b fuel (suc steps) key path t)
    unfolding locate_leaf DescendsTo
    locate_leaf-LocatesLeaf fuel steps path enough far low_tree is_path free =
        latches-bind _
          (descend-DescendsTo fuel steps (s.level t.root) t.root path t.latches enough far low_tree
            (record {
              not_null = tree.root_at.0;
              below_next = tree.root_at.1;
              at_level = refl;
              begins = omega (arith, tree.root_low);
            })
            (raise_optional s t.next t.root wanted (s.level t.root) 0 (s.low t.root) path
              (omega arith) is_path)
            free)
          (λ r m descended.
            let (at, is_path', free') = descended in
            let allocated : IsAllocated t r.0 = (at.not_null, at.below_next) in
            latches-bind _ (lock_node_shared-Holds b laws t m r.0 allocated free') (λ _ m₁ held.
              latches-bind _
                (walk_right-Covers steps 0 (s.low r.0) r.0 m₁ at (omega arith)
                  (omega (arith, (tree.nodes_fit r.0 allocated).range)) held)
                (λ q m₂ walked. latches_only (
                  walked.0,
                  raise_optional s t.next t.root wanted 0 (s.low r.0) (s.low q) r.1 walked.1
                      is_path',
                  walked.2,
                ))))
