-- ===== src/Blinktree/Optimistic/Leaf.antt =====
-- The walk along the leaves in src/indices/blinktree/thread/optimistic/thread_tree.cpp.
use btree_benchmarks.Prelude.{
  ℕ, zero, suc, ◌+◌, ◌≤◌, ◌<◌, ◌≡◌, refl, ◌∙◌, arith, leb, leb→le, leb→lt, ne→==, inl, inr,
  Bool-cases,
}
use btree_benchmarks.Blinktree.Node.{Ptr, null, Key, max_key, Layout}
use btree_benchmarks.Blinktree.Tree.{Tree, IsAllocated}
use btree_benchmarks.Blinktree.Tree.Shape.{Shape, IsTree}
use btree_benchmarks.Blinktree.Latched.Path.{StartsBefore, Covers}
use btree_benchmarks.Blinktree.Optimistic.{walk_leaf}
use btree_benchmarks.Blinktree.Optimistic.Reads.{
  Reads, reads, IsUnlocked, node-Reads, version_lem, valid_lem,
}

module _ {l : Layout} {s : Shape} {t : Tree ℕ} (tree : IsTree l s t) (free : IsUnlocked t)
    (key : Key) (small : key < max_key) where
  -- What the walk ends with, if the first leaf begins at `from` or behind.
  abbrev WalksTo : (from : Key) → Ptr × ℕ → Type 0
  WalksTo from (q, version) = Covers s t.next 0 key q × (from ≤ s.low q) × (version ≡ t.latches q)

  -- One round; `rest` is the walk from the right sibling.
  walk_leaf-step :
      (steps : ℕ) (from : Key) (p : Ptr)
      → StartsBefore s t.next 0 key p
      → from ≤ s.low p
      → ((right : Ptr)
          → s.high p ≤ key
          → s.low right ≡ s.high p
          → StartsBefore s t.next 0 key right
          → Reads t (WalksTo from) (walk_leaf steps right (t.latches right) key t))
      → Reads t (WalksTo from) (walk_leaf (suc steps) p (t.latches p) key t)
  unfolding walk_leaf
  walk_leaf-step steps from p at above rest =
      let allocated : IsAllocated t p = (at.not_null, at.below_next) in
      let fits = tree.nodes_fit p allocated in
      node-Reads t p allocated _ (elim (Bool-cases (leb (t.nodes p).high_key key)) [
        | inr here ↦ rw here (
            reads (
              record { starts = at; ends_behind = ground (arith, leb→lt _ _ here, fits.ends) },
              above,
              refl,
            ))
        | inl past ↦
            let beyond : s.high p ≤ key = ground (arith, leb→le _ _ past, fits.ends) in
            let sibling = fits.linked (λ e. ground (arith, fits.rightmost e)) in
            let right : Ptr = (t.nodes p).right_sibling in
            rw (past, ne→== right null (omega (arith, sibling.not_null)))
              (rw (valid_lem t p allocated) (
                rw (version_lem t right (sibling.not_null, sibling.below_next) free) (
                  rest right beyond sibling.at_low (record {
                    not_null = sibling.not_null;
                    below_next = sibling.below_next;
                    at_level = sibling.at_level ∙ at.at_level;
                    begins = omega (arith, sibling.at_low);
                  }))))
      ])

  -- The walk ends at the leaf that is responsible for the key, with the leaf's version. It takes at
  -- most one step for each key from the first leaf's end on.
  pub walk_leaf-Covers :
      (steps : ℕ) (from : Key) (p : Ptr)
      → StartsBefore s t.next 0 key p
      → from ≤ s.low p
      → key < s.high p + steps
      → Reads t
          (λ r. Covers s t.next 0 key r.0 × (from ≤ s.low r.0) × (r.1 ≡ t.latches r.0))
          (walk_leaf (suc steps) p (t.latches p) key t)
  walk_leaf-Covers zero from p at above enough =
      walk_leaf-step zero from p at above (λ right beyond low at₂. absurd (omega arith))
  walk_leaf-Covers (suc steps) from p at above enough =
      walk_leaf-step (suc steps) from p at above (λ right beyond low at₂.
        let range = (tree.nodes_fit p (at.not_null, at.below_next)).range in
        let range₂ = (tree.nodes_fit right (at₂.not_null, at₂.below_next)).range in
        walk_leaf-Covers steps from right at₂ (omega arith) (omega arith))

  -- From a leaf that begins at or before the key.
  pub walk_leaf-from :
      (steps : ℕ) (p : Ptr)
      → key ≤ steps
      → StartsBefore s t.next 0 key p
      → Reads t
          (λ r. Covers s t.next 0 key r.0 × (s.low p ≤ s.low r.0) × (r.1 ≡ t.latches r.0))
          (walk_leaf (suc steps) p (t.latches p) key t)
  walk_leaf-from steps p far at =
      walk_leaf-Covers steps (s.low p) p at (omega arith)
        (omega (arith, (tree.nodes_fit p (at.not_null, at.below_next)).range))
