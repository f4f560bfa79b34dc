-- ===== src/Blinktree/Latched/Find.antt =====
-- `ThreadTree::find` of
-- src/indices/blinktree/thread/latched/thread_tree.cpp.
use btree_benchmarks.Prelude.{
  ℕ, suc, ◌+◌, ◌^◌, ◌≤◌, ◌<◌, ◌≡◌, ◌≢◌, refl, sym, ◌∙◌, subst, true, false, none, arith, ◌==◌,
  ne→==, ==_iff, ℕ_discrete, if◌then◌else◌,
}
use btree_benchmarks.Blinktree.Node.{
  Ptr, Key, Value, max_key, Layout, leaf_key, leaf_key-inside, index,
}
use btree_benchmarks.Blinktree.Node.Search.{IsLowerBound, index-IsLowerBound}
use btree_benchmarks.Blinktree.Node.Contents.{HoldsKey, HoldsKey-bound, index_unique}
use btree_benchmarks.Blinktree.Tree.{Tree, IsAllocated}
use btree_benchmarks.Blinktree.Tree.Shape.{Shape, IsTree, NodeFits}
use btree_benchmarks.Blinktree.Tree.Contents.{NodeHolds, Contains}
use btree_benchmarks.Blinktree.Latched.{Latch, find}
use btree_benchmarks.Blinktree.Latched.Latches.{LatchLaws}
use btree_benchmarks.Blinktree.Latched.Commands.{
  LatchesOnly, latches_only, latches-bind, AllFree, read-latches, unlock_node_shared-Frees,
}
use btree_benchmarks.Blinktree.Latched.Path.{Covers}
use btree_benchmarks.Blinktree.Latched.Descent.{locate_leaf-LocatesLeaf}

-- What the searches read behind the keys of a leaf is not the key by chance. In a full leaf that is its
-- first value.
abbrev pub NoStaleKey : {L : Type 0} → Layout → Tree L → Key → Type 0
NoStaleKey l t key =
    (p : Ptr)
    → IsAllocated t p
    → (t.nodes p).is_leaf ≡ true
    → leaf_key l (t.nodes p) (t.nodes p).size ≢ key

module _ {L : Type 0} {l : Layout} {s : Shape} {t : Tree L} (tree : IsTree l s t) (key : Key)
    {q : Ptr} (covers : Covers s t.next 0 key q) where
  allocated : IsAllocated t q
  allocated = (covers.starts.not_null, covers.starts.below_next)

  fits : NodeFits l s t.next q (t.nodes q)
  fits = tree.nodes_fit q allocated

  pub Covers-leaf : (t.nodes q).is_leaf ≡ true
  Covers-leaf = ground (arith, fits.kind, covers.starts.at_level)

  pub Covers-small : (t.nodes q).size + 1 < 2 ^ 16
  Covers-small = ground (arith, fits.within)

  pub Covers-bound : IsLowerBound (t.nodes q).keys (t.nodes q).size key (index (t.nodes q) key)
  Covers-bound = index-IsLowerBound (t.nodes q) key fits.sorted (ground (arith, fits.within))

  -- No other leaf holds the key.
  pub Covers-unique :
      (p : Ptr)
      → IsAllocated t p
      → (t.nodes p).is_leaf ≡ true
      → HoldsKey (t.nodes p).keys (t.nodes p).size key
      → p ≡ q
  Covers-unique p a leaf (i, below, e) = elim (ℕ_discrete p q) [
    | yes same ↦ same
    | no other ↦
        let at_p = tree.nodes_fit p a in
        let level : s.level p ≡ 0 = ground (arith, at_p.kind, leaf) in
        let bounds = at_p.keys_in i below in
        ground (
          arith,
          tree.apart p q a allocated other,
          covers.starts.at_level,
          covers.starts.begins,
          covers.ends_behind,
        )
  ]

  -- If the tree contains the key, then in the leaf that is responsible for it.
  pub Covers-holds : (v : Value) → Contains t key v → NodeHolds (t.nodes q) key v
  Covers-holds v (p, a, leaf, (i, below, e, e')) =
      subst (λ x. NodeHolds (t.nodes x) key v) (Covers-unique p a leaf (i, below, e))
        (i, below, e, e')

  -- A key that the leaf holds is found at its index, with its value.
  pub Covers-index :
      (v : Value)
      → NodeHolds (t.nodes q) key v
      → (index (t.nodes q) key < (t.nodes q).size)
        × ((t.nodes q).keys (index (t.nodes q) key) ≡ key)
        × ((t.nodes q).values (index (t.nodes q) key) ≡ v)
  Covers-index v (i, p, e, e') =
      let (inside, here) = HoldsKey-bound fits.sorted Covers-bound (i, p, e) in
      (
        inside,
        here,
        rw (index_unique fits.sorted (index (t.nodes q) key) i inside p (ground (arith, here, e)))
            e',
      )

  -- The search then reads the key.
  pub Covers-read :
      (v : Value)
      → NodeHolds (t.nodes q) key v
      → leaf_key l (t.nodes q) (index (t.nodes q) key) ≡ key
  Covers-read v holds =
      let (inside, here, e) = Covers-index v holds in
      leaf_key-inside l (t.nodes q) (index (t.nodes q) key)
        (ground (arith, inside, fits.within, Covers-leaf))
      ∙ here

  -- A key that the tree lacks is not at its index.
  pub Covers-absent :
      ¬ ((v : Value) × Contains t key v)
      → NoStaleKey l t key
      → leaf_key l (t.nodes q) (index (t.nodes q) key) ≢ key
  Covers-absent absent no_stale e = elim (ℕ_discrete (index (t.nodes q) key) (t.nodes q).size) [
    | yes at_end ↦
        no_stale q allocated Covers-leaf (subst (λ i. leaf_key l (t.nodes q) i ≡ key) at_end e)
    | no other ↦
        let below : index (t.nodes q) key < (t.nodes q).size =
          omega (arith, Covers-bound.inside, other) in
        absent (
          (t.nodes q).values (index (t.nodes q) key),
          (
            q,
            allocated,
            Covers-leaf,
            (
              index (t.nodes q) key,
              below,
              sym (
                    leaf_key-inside l (t.nodes q) (index (t.nodes q) key)
                      (ground (arith, below, fits.within, Covers-leaf)))
                  ∙ e,
              refl,
            ),
          ),
        )
  ]

module _ (b : Latch) (laws : LatchLaws b) {l : Layout} {s : Shape} {t : Tree b.State}
    (tree : IsTree l s t) (free : AllFree b laws t.next t.latches) (key : Key)
    (small : key < max_key) (fuel steps : ℕ) (enough : s.level t.root < fuel) (far : key ≤ steps)
    (low_tree : s.level t.root ≤ 10) where
  open b use {State as L}
  open laws use {IsShared}

  find-reads :
      (P : Value → Type 0)
      → ((q : Ptr)
          → Covers s t.next 0 key q
          → P (
              if leaf_key l (t.nodes q) (index (t.nodes q) key) == key
              then (t.nodes q).values (index (t.nodes q) key)
              else 0))
      → LatchesOnly t (λ w m. P w × AllFree b laws t.next m) (find b l fuel (suc steps) key t)
  unfolding find
  find-reads P reads =
      latches-bind _
        (locate_leaf-LocatesLeaf b laws tree key small false fuel steps none enough far low_tree
          refl free)
        (λ r m located.
          let (covers, is_path, held) = located in
          let at : IsAllocated t r.0 = (covers.starts.not_null, covers.starts.below_next) in
          read-latches b laws t m r.0 at _ (
            latches-bind _ (unlock_node_shared-Frees b laws t m r.0 at held)
              (λ _ m₁ free₁. latches_only (reads r.0 covers, free₁))))

  -- In a well-formed tree of at most 11 levels with all latches free, `find` of a key below 2^64
  -- - 1 that the tree contains returns its value, changes no node and leaves all latches free,
  -- with fuel above the root's level and more steps than the key.
  pub find-present :
      (v : Value)
      → Contains t key v
      → LatchesOnly t (λ w m. (w ≡ v) × AllFree b laws t.next m) (find b l fuel (suc steps) key t)
  find-present v present =
      find-reads (λ w. w ≡ v)
        (λ q covers.
          let (inside, here, e) =
            Covers-index tree key covers v (Covers-holds tree key covers v present) in
          rw
            (
              Covers-read tree key covers v (Covers-holds tree key covers v present),
              (==_iff key key).1 refl,
            )
            e)

  -- In a well-formed tree of at most 11 levels with all latches free, with fuel above the
  -- root's level and more steps than the key, `find` returns 0 for a key below 2^64 - 1 that the tree does not
  -- contain, if in no leaf the cell behind the keys, which is the first value if the leaf is full,
  -- holds the key.
  pub find-absent :
      ¬ ((v : Value) × Contains t key v)
      → NoStaleKey l t key
      → LatchesOnly t (λ w m. (w ≡ 0) × AllFree b laws t.next m) (find b l fuel (suc steps) key t)
  find-absent absent no_stale =
      find-reads (λ w. w ≡ 0)
        (λ q covers. rw (ne→== _ key (Covers-absent tree key covers absent no_stale)) refl)
