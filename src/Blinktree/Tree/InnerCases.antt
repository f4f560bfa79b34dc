-- ===== src/Blinktree/Tree/InnerCases.antt =====
-- The three cases of `Tree::split_inner_node` of src/indices/blinktree/tree.cpp: the pieces before
-- they are linked to one another.
use btree_benchmarks.Prelude.{ℕ, ◌+◌, ◌-◌, ◌/◌, ◌≤◌, ◌<◌, ◌≡◌, ◌≢◌, false, arith, refl, ◌∙◌, sym}
use btree_benchmarks.Prelude.Memory.{update}
use btree_benchmarks.Blinktree.Node.{Ptr, Key, Layout, max_keys, Node, copy}
use btree_benchmarks.Blinktree.Node.Contents.{HoldsKey}
use btree_benchmarks.Blinktree.Node.SeparatorInsert.{insert_child-InsertsSeparator}
use btree_benchmarks.Blinktree.Tree.{
  InnerHalves, split_inner_low, split_inner_middle, split_inner_high, left_size, right_size,
}
use btree_benchmarks.Blinktree.Tree.Shape.{Shape, IsRoomy, IsAt, NodeFits, IsAt-cong}
use btree_benchmarks.Blinktree.Tree.InnerPart.{
  IsInnerPart, IsSlice, slice-IsInnerPart, insert_child-IsInnerPart,
}

-- The pieces on the two sides of the key that moves up.
pub record SplitsAt (l : Layout) (s : Shape) (next p : Ptr) (old new : Node) (h : InnerHalves)
    : Type 0 where
  pub up_above : s.low p < h.key_up
  pub up_below : h.key_up < s.high p
  pub left_part : IsInnerPart l s next (s.level p - 1) (s.low p) h.key_up h.left
  pub right_part : IsInnerPart l s next (s.level p - 1) h.key_up (s.high p) h.right
  pub left_right : h.left.right_sibling ≡ old.right_sibling
  pub right_high : h.right.high_key ≡ new.high_key

module _ {l : Layout} {s : Shape} {next p : Ptr} {old : Node} (new : Node) {key : Key}
    {separator : Ptr} (roomy : IsRoomy l) (fits : NodeFits l s next p old)
    (inner : old.is_leaf ≡ false) (inner' : new.is_leaf ≡ false) (full : old.size ≡ max_keys l)
    (above_low : s.low p < key) (below_high : key < s.high p)
    (absent : ¬ HoldsKey old.keys old.size key)
    (at : IsAt s next separator (s.level p - 1) key) where
  whole : IsInnerPart l s next (s.level p - 1) (s.low p) (s.high p) old
  whole = record {
    inner = inner;
    within = omega (arith, full);
    sorted = fits.sorted;
    keys_in = λ i q. (fits.inner_keys_in inner i q, (fits.keys_in i q).1);
    children = fits.children inner;
  }

  key_in : (i : ℕ) → i < max_keys l → (s.low p < old.keys i) × (old.keys i < s.high p)
  key_in i q = whole.keys_in i (omega (arith, full))

  -- The keys of a run are absent where the keys of the node are.
  absent_in :
      (a c : ℕ) (n : Node) → IsSlice old a c n → a + c ≤ old.size → ¬ HoldsKey n.keys n.size key
  absent_in a c n slice room (i, q, e) = absent (
    i + a,
    omega (arith, slice.slice_size),
    sym (slice.slice_keys i (omega (arith, slice.slice_size))) ∙ e,
  )

  left_piece :
      (c : ℕ)
      → c < max_keys l
      → (n : Node) → IsSlice old 0 c n
      → n.separators 0 ≡ old.separators 0
      → IsInnerPart l s next (s.level p - 1) (s.low p) (old.keys c) n
  left_piece c q n slice e =
      slice-IsInnerPart old n 0 c (s.low p) (old.keys c) whole slice (omega (arith, full))
        (λ i r. ground (arith, key_in i, fits.sorted i c)) (rw e (whole.children 0 (omega arith)))

  right_piece :
      (a c : ℕ)
      → 0 < a
      → a + c ≡ max_keys l
      → (n : Node) → IsSlice old a c n
      → n.separators 0 ≡ old.separators a
      → IsInnerPart l s next (s.level p - 1) (old.keys (a - 1)) (s.high p) n
  right_piece a c pos q n slice e =
      slice-IsInnerPart old n a c (old.keys (a - 1)) (s.high p) whole slice (omega (arith, full))
        (λ i r. ground (arith, key_in (i + a), fits.sorted (a - 1) (i + a)))
        (rw e (IsAt-cong (whole.children a (omega (arith, full))) refl (ground arith)))

  -- The run of children from 0 on, cut off before key `c`.
  cut : ℕ → Node
  cut c = record old { size = c }

  cut-IsSlice : (c : ℕ) → IsSlice old 0 c (cut c)
  unfolding cut
  cut-IsSlice c = record {
    slice_inner = inner;
    slice_size = refl;
    slice_keys = λ i q. ground arith;
    slice_children = λ i a q. ground arith;
  }

  -- The run of `c` keys from `a` on, copied to the new node behind the child `first`.
  copied : (a c : ℕ) → Ptr → Node
  copied a c first =
      let other : Node = copy old new a c in
      record other { separators = update other.separators 0 first; size = c }

  copied-IsSlice : (a c : ℕ) (first : Ptr) → IsSlice old a c (copied a c first)
  unfolding copied copy
  copied-IsSlice a c first = record {
    slice_inner = ground arith;
    slice_size = refl;
    slice_keys = λ i q. ground arith;
    slice_children = λ i b q. ground arith;
  }

  copied-high : (a c : ℕ) (first : Ptr) → (copied a c first).high_key ≡ new.high_key
  unfolding copied copy
  copied-high a c first = ground arith

  pub low-SplitsAt :
      key < old.keys (max_keys l / 2 - 1)
      → SplitsAt l s next p old new (split_inner_low l old new key separator)
  unfolding split_inner_low cut copied
  low-SplitsAt smaller = record {
    up_above = (key_in (left_size l - 1) (omega (arith, roomy.room))).0;
    up_below = (key_in (left_size l - 1) (omega (arith, roomy.room))).1;
    left_part =
        insert_child-IsInnerPart (cut (left_size l - 1)) key separator left roomy
          (omega (arith, roomy.room)) gone above_low smaller at;
    right_part =
        right_piece (left_size l) (right_size l) (omega (arith, roomy.room)) (omega arith)
          (copied (left_size l) (right_size l) (old.separators (left_size l)))
          (copied-IsSlice (left_size l) (right_size l) _) refl;
    left_right =
        (insert_child-InsertsSeparator (cut (left_size l - 1)) key separator left.sorted
          (omega arith) gone).header.same_right;
    right_high = copied-high (left_size l) (right_size l) (old.separators (left_size l));
  }
    where
      left :
          IsInnerPart l s next
            (s.level p - 1)
            (s.low p)
            (old.keys (left_size l - 1))
            (cut (left_size l - 1))
      left =
          left_piece (left_size l - 1) (omega (arith, roomy.room)) _ (cut-IsSlice (left_size l - 1))
            refl

      gone : ¬ HoldsKey old.keys (left_size l - 1) key
      gone =
          absent_in 0 (left_size l - 1) (cut (left_size l - 1)) (cut-IsSlice (left_size l - 1))
            (omega (arith, full))

  pub middle-SplitsAt :
      old.keys (max_keys l / 2 - 1) ≤ key
      → key < old.keys (max_keys l / 2)
      → SplitsAt l s next p old new (split_inner_middle l old new key separator)
  unfolding split_inner_middle cut copied
  middle-SplitsAt larger smaller = record {
    up_above = above_low;
    up_below = below_high;
    left_part =
        slice-IsInnerPart old (cut (left_size l)) 0 (left_size l) (s.low p) key whole
          (cut-IsSlice (left_size l)) (omega (arith, full))
          (λ i q. ground (arith, key_in i, before i)) (whole.children 0 (omega arith));
    right_part =
        slice-IsInnerPart old (copied (left_size l) (right_size l) separator) (left_size l)
          (right_size l) key (s.high p) whole
          (copied-IsSlice (left_size l) (right_size l) separator) (omega (arith, full))
          (λ i q. (behind i q, (key_in (i + left_size l) (omega arith)).1)) at;
    left_right = refl;
    right_high = copied-high (left_size l) (right_size l) separator;
  }
    where
      not_last : old.keys (left_size l - 1) ≢ key
      not_last e = absent (left_size l - 1, omega (arith, full, roomy.room), e)

      before : (i : ℕ) → i < left_size l → old.keys i < key
      before i q = ground (arith, fits.sorted i (left_size l - 1), not_last, full)

      behind : (i : ℕ) → i < right_size l → key < old.keys (i + left_size l)
      behind i q = ground (arith, fits.sorted (left_size l) (i + left_size l), full)

  pub high-SplitsAt :
      old.keys (max_keys l / 2) ≤ key
      → SplitsAt l s next p old new (split_inner_high l old new key separator)
  unfolding split_inner_high cut copied
  high-SplitsAt larger = record {
    up_above = (key_in (left_size l) (omega (arith, roomy.room))).0;
    up_below = (key_in (left_size l) (omega (arith, roomy.room))).1;
    left_part =
        left_piece (left_size l) (omega (arith, roomy.room)) (cut (left_size l))
          (cut-IsSlice (left_size l)) refl;
    right_part =
        insert_child-IsInnerPart filled key separator right roomy (omega (arith, roomy.room)) gone
          above_last below_high at;
    left_right = refl;
    right_high =
        (insert_child-InsertsSeparator filled key separator right.sorted (omega arith)
          gone).header.same_high
        ∙ copied-high (left_size l + 1) (right_size l - 1) (old.separators (left_size l + 1));
  }
    where
      filled : Node
      filled = copied (left_size l + 1) (right_size l - 1) (old.separators (left_size l + 1))

      filled-IsSlice : IsSlice old (left_size l + 1) (right_size l - 1) filled
      filled-IsSlice = copied-IsSlice (left_size l + 1) (right_size l - 1) _

      right : IsInnerPart l s next (s.level p - 1) (old.keys (left_size l)) (s.high p) filled
      right =
          slice-IsInnerPart old filled (left_size l + 1) (right_size l - 1) (old.keys (left_size l))
            (s.high p) whole filled-IsSlice (omega (arith, full, roomy.room))
            (λ i q. ground (
              arith,
              key_in (i + (left_size l + 1)),
              fits.sorted (left_size l) (i + (left_size l + 1)),
              full,
            ))
            (IsAt-cong (whole.children (left_size l + 1) (omega (arith, full, roomy.room))) refl
              (ground arith))

      gone : ¬ HoldsKey filled.keys filled.size key
      gone =
          absent_in (left_size l + 1) (right_size l - 1) filled filled-IsSlice
            (omega (arith, full, roomy.room))

      not_up : old.keys (left_size l) ≢ key
      not_up e = absent (left_size l, omega (arith, full, roomy.room), e)

      above_last : old.keys (left_size l) < key
      above_last = ground (arith, larger, not_up)
