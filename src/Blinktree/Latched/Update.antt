-- ===== src/Blinktree/Latched/Update.antt =====
-- `ThreadTree::update` of src/indices/blinktree/thread/latched/thread_tree.cpp.
use btree_benchmarks.Prelude.{
  ℕ, suc, ◌≤◌, ◌<◌, ◌≡◌, ◌≢◌, ◌↔◌, ◌⊎◌, refl, sym, subst, true, some, [], arith, ne→==, ==_iff, inl,
  inr, ℕ_discrete,
}
use btree_benchmarks.Prelude.Memory.{update}
use btree_benchmarks.Blinktree.Node.{Ptr, Key, Value, max_key, Layout, Node, index}
use btree_benchmarks.Blinktree.Node.Contents.{index_unique}
use btree_benchmarks.Blinktree.Tree.{Tree, IsAllocated, set_node}
use btree_benchmarks.Blinktree.Tree.Shape.{Shape, IsTree, NodeFits, set_node-IsTree}
use btree_benchmarks.Blinktree.Tree.Contents.{NodeHolds, Contains}
use btree_benchmarks.Blinktree.Latched.{Latch, update_value}
use btree_benchmarks.Blinktree.Latched.Running.{Ends}
use btree_benchmarks.Blinktree.Latched.Latches.{LatchLaws}
use btree_benchmarks.Blinktree.Latched.Commands.{
  LatchesOnly, latches-bind, latches-Ends, latches-weaken, IsTree-latches, AllFree, read-latches,
  read-Ends, write-Ends, unlock_node_shared-Frees, upgrade_lock-Holds, unlock_node-Frees,
}
use btree_benchmarks.Blinktree.Latched.Path.{Covers, at_root}
use btree_benchmarks.Blinktree.Latched.Descent.{locate_leaf-LocatesLeaf}
use btree_benchmarks.Blinktree.Latched.Find.{
  NoStaleKey, Covers-leaf, Covers-unique, Covers-holds, Covers-index, Covers-read, Covers-absent,
}

abbrev pub with_value : Node → ℕ → Value → Node
with_value n i value = record n { values = update n.values i value }

with_value-NodeFits :
    {l : Layout} {s : Shape} {next p : Ptr} {n : Node} (i : ℕ) (value : Value)
    → NodeFits l s next p n
    → NodeFits l s next p (with_value n i value)
with_value-NodeFits i value f = record {
  kind = f.kind;
  within = f.within;
  sorted = f.sorted;
  keys_in = f.keys_in;
  inner_keys_in = f.inner_keys_in;
  range = f.range;
  capped = f.capped;
  ends = f.ends;
  rightmost = f.rightmost;
  linked = f.linked;
  children = f.children;
}

-- The entries after the value of `key` was replaced.
abbrev pub Replaced :
    (key : Key) (value : Value) (old : Key → Value → Type 0) → Key → Value → Type 0
Replaced key value old k v = ((k ≡ key) × (v ≡ value)) ⊎ ((k ≢ key) × old k v)

module _ {L : Type 0} {l : Layout} {s : Shape} {t : Tree L} (tree : IsTree l s t) (key : Key)
    (value : Value) {q : Ptr} (covers : Covers s t.next 0 key q)
    (inside : index (t.nodes q) key < (t.nodes q).size)
    (here : (t.nodes q).keys (index (t.nodes q) key) ≡ key) where
  unfoldable pub position : ℕ
  position = index (t.nodes q) key

  unfoldable pub written : Tree L
  written = set_node t q (with_value (t.nodes q) position value)

  written-q : written.nodes q ≡ with_value (t.nodes q) position value
  unfolding written
  written-q = rw ((==_iff q q).1 refl)

  written-others : (p : Ptr) → p ≢ q → written.nodes p ≡ t.nodes p
  unfolding written
  written-others p other = rw (ne→== p q other)

  in_leaf :
      (k : Key) (v : Value)
      → NodeHolds (with_value (t.nodes q) position value) k v
        ↔ Replaced key value (NodeHolds (t.nodes q)) k v
  unfolding position
  in_leaf k v = (there, back)
    where
      there :
          NodeHolds (with_value (t.nodes q) position value) k v
          → Replaced key value (NodeHolds (t.nodes q)) k v
      there (i, p, e, e') = elim (ℕ_discrete i (index (t.nodes q) key)) [
        | yes same ↦ inl (ground (arith, here), ground arith)
        | no other ↦ inr (
          λ is_key. other (
              index_unique
                (tree.nodes_fit q (covers.starts.not_null, covers.starts.below_next)).sorted i
                (index (t.nodes q) key) p inside (ground (arith, here))),
          (i, p, e, ground arith),
        )
      ]

      back :
          Replaced key value (NodeHolds (t.nodes q)) k v
          → NodeHolds (with_value (t.nodes q) position value) k v
      back (inl (e, e')) = (index (t.nodes q) key, inside, ground (arith, here), ground arith)
      back (inr (other, (i, p, e, e'))) = (i, p, e, ground (arith, here))

  written-leaf : (p : Ptr) → (written.nodes p).is_leaf ≡ (t.nodes p).is_leaf
  written-leaf p = elim (ℕ_discrete p q) [
    | yes e ↦ rw (e, written-q) refl
    | no other ↦ rw (written-others p other) refl
  ]

  pub written-Contains :
      (k : Key) (v : Value) → Contains written k v ↔ Replaced key value (Contains t) k v
  unfolding written position
  written-Contains k v = (there, back)
    where
      at : IsAllocated t q
      at = (covers.starts.not_null, covers.starts.below_next)

      leaf : (t.nodes q).is_leaf ≡ true
      leaf = Covers-leaf tree key covers

      widen : Replaced key value (NodeHolds (t.nodes q)) k v → Replaced key value (Contains t) k v
      widen (inl e) = inl e
      widen (inr (other, h)) = inr (other, (q, at, leaf, h))

      there : Contains written k v → Replaced key value (Contains t) k v
      there (p, a, is_leaf, h) = elim (ℕ_discrete p q) [
        | yes e ↦ widen (
            (in_leaf k v).0 (
              subst (λ n. NodeHolds n k v) written-q
                (subst (λ x. NodeHolds (written.nodes x) k v) e h)))
        | no other ↦
            let leaf_p = subst (λ b. b ≡ true) (written-leaf p) is_leaf in
            let h' = subst (λ n. NodeHolds n k v) (written-others p other) h in
            inr (
              λ is_key.
                  let (i, below, e, e') = h' in
                  other (Covers-unique tree key covers p a leaf_p (i, below, ground arith)),
              (p, a, leaf_p, h'),
            )
      ]

      in_q : Replaced key value (NodeHolds (t.nodes q)) k v → Contains written k v
      in_q h = (
        q,
        at,
        subst (λ b. b ≡ true) (sym (written-leaf q)) leaf,
        subst (λ n. NodeHolds n k v) (sym written-q) ((in_leaf k v).1 h),
      )

      back : Replaced key value (Contains t) k v → Contains written k v
      back (inl e) = in_q (inl e)
      back (inr (other, (p, a, is_leaf, h))) = elim (ℕ_discrete p q) [
        | yes e ↦ in_q (inr (other, subst (λ x. NodeHolds (t.nodes x) k v) e h))
        | no apart ↦ (
          p,
          a,
          subst (λ b. b ≡ true) (sym (written-leaf p)) is_leaf,
          subst (λ n. NodeHolds n k v) (sym (written-others p apart)) h,
        )
      ]

  pub written-IsTree : IsTree l s written
  unfolding written
  written-IsTree = set_node-IsTree tree (
      with_value-NodeFits position value
        (tree.nodes_fit q (covers.starts.not_null, covers.starts.below_next)))

module _ (b : Latch) (laws : LatchLaws b) {l : Layout} {s : Shape} {t : Tree b.State}
    (tree : IsTree l s t) (free : AllFree b laws t.next t.latches) (key : Key) (value : Value)
    (small : key < max_key) (fuel steps : ℕ) (enough : s.level t.root < fuel) (far : key ≤ steps)
    (low_tree : s.level t.root ≤ 10) where
  open b use {State as L}

  -- In a well-formed tree of at most 11 levels with all latches free, `update` of a key below
  -- 2^64 - 1 that the tree contains returns, with fuel above the root's level and more steps
  -- than the key, in a well-formed tree with all latches free that contains the new value under
  -- the key and every other entry as before.
  pub update_value-present :
      (v : Value)
      → Contains t key v
      → Ends
          (λ _ t'.
            IsTree l s t'
            × AllFree b laws t'.next t'.latches
            × ((k : Key) (w : Value) → Contains t' k w ↔ Replaced key value (Contains t) k w))
          (update_value b l fuel (suc steps) key value t)
  unfolding update_value written position
  update_value-present v present =
      latches-Ends _
        (locate_leaf-LocatesLeaf b laws tree key small true fuel steps (some []) enough far low_tree
          (at_root refl) free)
        (λ r m located.
          let (covers, is_path, held) = located in
          let at : IsAllocated t r.0 = (covers.starts.not_null, covers.starts.below_next) in
          let (inside, here, e) =
            Covers-index tree key covers v (Covers-holds tree key covers v present) in
          read-Ends b laws t m r.0 at _ (
            rw
              (
                Covers-read tree key covers v (Covers-holds tree key covers v present),
                (==_iff key key).1 refl,
              )
              (latches-Ends _ (upgrade_lock-Holds b laws t m r.0 at held) (λ _ m₁ held₁.
                write-Ends b laws t m₁ r.0 at _ _ (
                  latches-weaken
                    (unlock_node-Frees b laws
                      (set_node t r.0 (with_value (t.nodes r.0) (index (t.nodes r.0) key) value)) m₁
                      r.0 at held₁)
                    (λ _ m₂ free₂. (
                      IsTree-latches m₂ (written-IsTree tree key value covers inside here),
                      free₂,
                      written-Contains tree key value covers inside here,
                    )))))))

  -- In a well-formed tree of at most 11 levels with all latches free, with fuel above the
  -- root's level and more steps than the key, `update` of a key below 2^64 - 1 that the tree does not contain
  -- returns and changes no node, if in no leaf the cell behind the keys, which is the first value if it is full, holds the key.
  pub update_value-absent :
      ¬ ((v : Value) × Contains t key v)
      → NoStaleKey l t key
      → LatchesOnly t
          (λ _ m. AllFree b laws t.next m)
          (update_value b l fuel (suc steps) key value t)
  unfolding update_value written position
  update_value-absent absent no_stale =
      latches-bind _
        (locate_leaf-LocatesLeaf b laws tree key small true fuel steps (some []) enough far low_tree
          (at_root refl) free)
        (λ r m located.
          let (covers, is_path, held) = located in
          let at : IsAllocated t r.0 = (covers.starts.not_null, covers.starts.below_next) in
          read-latches b laws t m r.0 at _ (
            rw (ne→== _ key (Covers-absent tree key covers absent no_stale))
              (unlock_node_shared-Frees b laws t m r.0 at held)))
