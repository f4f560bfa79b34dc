-- ===== src/Blinktree/Latched/LeafStep.antt =====
-- `ThreadTree::insert_into_leaf` of src/indices/blinktree/thread/latched/thread_tree.cpp.
use btree_benchmarks.Prelude.{
  ◌≤◌, ◌<◌, ◌≡◌, refl, sym, ◌∙◌, ap, Bool, true, false, ◌&&◌, arith, ltb, ◌==◌, ne→==, ==_iff, inl,
  inr, Bool-cases,
}
use btree_benchmarks.Blinktree.Node.{
  Ptr, null, Key, Value, max_key, max_items, Layout, Node, index, is_full,
}
use btree_benchmarks.Blinktree.Node.Contents.{HoldsKey, HoldsKey-bound}
use btree_benchmarks.Blinktree.Node.LeafInsert.{
  insert_entry, insert_entry-InsertsValue, insert_entry-IsSorted, insert_entry-bounds,
  insert_entry-Holds,
}
use btree_benchmarks.Blinktree.Tree.{Tree, IsAllocated, set_node}
use btree_benchmarks.Blinktree.Tree.Shape.{
  Shape, IsRoomy, IsTree, NodeFits, split_shape, set_node-IsTree,
}
use btree_benchmarks.Blinktree.Tree.Contents.{Contains, Gains, gain-Gains}
use btree_benchmarks.Blinktree.Tree.LeafSplitTree.{SplitsLeafNode, split_leaf_node-SplitsLeafNode}
use btree_benchmarks.Blinktree.Latched.{Latch, insert_into_leaf}
use btree_benchmarks.Blinktree.Latched.Running.{Ends, ends}
use btree_benchmarks.Blinktree.Latched.Latches.{LatchLaws}
use btree_benchmarks.Blinktree.Latched.Commands.{IsHeld, read-Ends, write-Ends}
use btree_benchmarks.Blinktree.Latched.Path.{Covers}
use btree_benchmarks.Blinktree.Latched.Find.{Covers-leaf, Covers-bound, Covers-holds}
use btree_benchmarks.Blinktree.Latched.Step.{
  IsUp, Changes, Grows-refl, split_shape-Grows, IsHeld-split, split-unlinked,
}

-- The entry that an insertion brings into the tree: none, if the tree contains the key.
abbrev pub NewEntry : {L : Type 0} → Tree L → (key : Key) (value : Value) → Key → Value → Type 0
NewEntry t key value k v = (k ≡ key) × (v ≡ value) × ¬ ((w : Value) × Contains t key w)

insert_entry-NodeFits :
    {l : Layout} {s : Shape} {next p : Ptr} {n : Node} (key : Key) (value : Value)
    → NodeFits l s next p n
    → n.is_leaf ≡ true
    → n.size < max_items l
    → ¬ HoldsKey n.keys n.size key
    → s.low p ≤ key
    → key < s.high p
    → NodeFits l s next p (insert_entry n key value)
insert_entry-NodeFits {l} {s} {p} {n} key value f leaf room absent above below =
    let ins = insert_entry-InsertsValue l n key value f.sorted room absent in
    let leaf' = ins.header.same_leaf ∙ leaf in
    record {
      kind = ins.header.same_leaf ∙ f.kind;
      within = ground (arith, leaf', ins.grown);
      sorted = rw ins.grown (insert_entry-IsSorted l n key value f.sorted room absent);
      keys_in = rw ins.grown (
          insert_entry-bounds l n key value f.sorted room absent (s.low p) (s.high p) f.keys_in
            above below);
      inner_keys_in = λ e. cc (leaf', e);
      range = f.range;
      capped = f.capped;
      ends = ins.header.same_high ∙ f.ends;
      rightmost = λ e. f.rightmost (sym ins.header.same_right ∙ e);
      linked = λ e. rw ins.header.same_right (f.linked (λ e'. e (ins.header.same_right ∙ e')));
      children = λ e. cc (leaf', e);
    }

module _ (b : Latch) (laws : LatchLaws b) {l : Layout} {s : Shape} {t : Tree b.State} {q : Ptr}
    (roomy : IsRoomy l) (tree : IsTree l s t) (key : Key) (value : Value) (small : key < max_key)
    (covers : Covers s t.next 0 key q)
    (held : IsHeld b laws (laws.IsExclusive) q t.next t.latches) where
  open b use {State as L}
  open laws use {IsExclusive}

  pub at : IsAllocated t q
  at = (covers.starts.not_null, covers.starts.below_next)

  -- What `insert_into_leaf` ends with.
  pub record InsertsIntoLeaf (up : Ptr × Key) (t' : Tree L) (s' : Shape) : Type 0 where
    pub changes : Changes l s t s' t'
    pub gains : Gains (NewEntry t key value) t t'
    pub up_next : IsUp s' t' 0 (s.low q) up
    pub still_held : IsHeld b laws IsExclusive q t'.next t'.latches

  -- The test for a key that the leaf holds.
  unfoldable pub found : Bool
  found =
      ltb (index (t.nodes q) key) (t.nodes q).size
      && (t.nodes q).keys (index (t.nodes q) key) == key

  found-HoldsKey : found ≡ true → HoldsKey (t.nodes q).keys (t.nodes q).size key
  unfolding found
  found-HoldsKey e = (index (t.nodes q) key, ground (arith, e), ground (arith, e))

  pub not_found : found ≡ false → ¬ HoldsKey (t.nodes q).keys (t.nodes q).size key
  unfolding found
  not_found e h =
      let (inside, here) =
        HoldsKey-bound (tree.nodes_fit q at).sorted (Covers-bound tree key covers) h in
      ground (arith, e, inside, here)

  unchanged : Changes l s t s t
  unchanged = record {
    tree = tree;
    grows = Grows-refl s t.next;
    more = omega arith;
    same_root = refl;
  }

  pub into_present : found ≡ true → InsertsIntoLeaf (null, 0) t s
  into_present e = record {
    changes = unchanged;
    gains = λ k v. (
      λ h. inr h,
      λ h. elim h [
        | inl new ↦
            let (i, p, e') = found-HoldsKey e in
            absurd
              (new.2 ((t.nodes q).values i, (q, at, Covers-leaf tree key covers, (i, p, e', refl))))
        | inr old ↦ old
      ],
    );
    up_next = inl refl;
    still_held = held;
  }

  -- In the other branches the tree lacks the key.
  module _ (absent : ¬ HoldsKey (t.nodes q).keys (t.nodes q).size key) where
    no_entry : ¬ ((w : Value) × Contains t key w)
    no_entry (w, h) = let (i, p, e, e') = Covers-holds tree key covers w h in absent (i, p, e)

    new-Gains :
        (t' : Tree L)
        → Gains (λ k v. (k ≡ key) × (v ≡ value)) t t'
        → Gains (NewEntry t key value) t t'
    new-Gains t' gains k v = (
      λ h. elim ((gains k v).0 h) [ inl e ↦ inl (e.0, e.1, no_entry) | inr old ↦ inr old ],
      λ h. (gains k v).1 (elim h [ inl e ↦ inl (e.0, e.1) | inr old ↦ inr old ]),
    )

    unfoldable pub with_entry : Tree L
    with_entry = set_node t q (insert_entry (t.nodes q) key value)

    pub into_free : (t.nodes q).size < max_items l → InsertsIntoLeaf (null, 0) with_entry s
    unfolding with_entry
    into_free room =
        let here : with_entry.nodes q ≡ insert_entry (t.nodes q) key value =
          rw ((==_iff q q).1 refl) in
        let sorted = (tree.nodes_fit q at).sorted in
        let leaf = Covers-leaf tree key covers in
        record {
          changes = record {
            tree = set_node-IsTree tree (
                insert_entry-NodeFits key value (tree.nodes_fit q at) leaf room absent
                  covers.starts.begins covers.ends_behind);
            grows = Grows-refl s t.next;
            more = omega arith;
            same_root = refl;
          };
          gains = new-Gains with_entry (
              gain-Gains t with_entry at leaf refl
                (ap (λ (n : Node). n.is_leaf) here
                  ∙ (insert_entry-InsertsValue l (t.nodes q) key value sorted room
                      absent).header.same_leaf
                  ∙ leaf)
                (rw here (insert_entry-Holds l (t.nodes q) key value sorted room absent))
                (λ p other. rw (ne→== p q other)));
          up_next = inl refl;
          still_held = held;
        }

    -- The two halves; the new one's first key goes up.
    pub split_leaf :
        (sep : Key) (new : Ptr) (t' : Tree L)
        → SplitsLeafNode l s b.fresh t q key value sep new t'
        → InsertsIntoLeaf (new, (t'.nodes new).keys 0) t' (split_shape s q t.next sep)
    split_leaf sep new t' splits = record {
      changes = record {
        tree = splits.tree;
        grows = split_shape-Grows s q t.next sep;
        more = omega (arith, splits.one_more);
        same_root = splits.same_root;
      };
      gains = new-Gains t' splits.gains;
      up_next = inr (record {
        new_at = record {
          not_null = omega (arith, splits.new_node_at);
          below_next = omega (arith, splits.new_node_at, splits.one_more);
          at_level = ground (arith, splits.new_node_at, covers.starts.at_level);
          at_low = ground (arith, splits.new_node_at, splits.first_key);
        };
        unlinked = λ p a inner i inside e.
            split-unlinked sep t t' tree splits.tree at splits.one_more
              (λ r other old. rw (splits.others r other old) refl) p a inner i inside
              (e ∙ splits.new_node_at);
        above = omega (arith, splits.first_key, splits.above);
        below_max = omega (arith, splits.first_key, splits.below, (tree.nodes_fit q at).capped);
      });
      still_held =
          IsHeld-split b laws t t' IsExclusive at splits.one_more splits.latches
            (ap t'.latches (sym splits.new_node_at) ∙ splits.new_latch) held;
    }

  -- `insert_into_leaf` returns, keeps the latch, and the tree gains the entry if the key is new; a
  -- split leaves a new node for the parent.
  pub insert_into_leaf-InsertsIntoLeaf :
      Ends (λ up t'. (s' : Shape) × InsertsIntoLeaf up t' s') (insert_into_leaf b l q key value t)
  unfolding insert_into_leaf found is_full with_entry
  insert_into_leaf-InsertsIntoLeaf = read-Ends b laws t t.latches q at _ (elim (Bool-cases found) [
    | inl e ↦ rw e (ends (s, into_present e))
    | inr e ↦
        let absent = not_found e in
        let leaf = Covers-leaf tree key covers in
        elim (Bool-cases (is_full l (t.nodes q))) [
          | inr free ↦
              rw (e, free)
                (write-Ends b laws t t.latches q at _ _
                  (ends (s, into_free absent (ground (arith, free, leaf)))))
          | inl full ↦
              rw (e, full)
                (let (sep, splits) =
                    split_leaf_node-SplitsLeafNode b.fresh value roomy tree at leaf
                      (ground (arith, full, leaf, (tree.nodes_fit q at).within))
                      covers.starts.begins covers.ends_behind absent in
                  ends (split_shape s q t.next sep, split_leaf absent sep _ _ splits))
        ]
  ])
