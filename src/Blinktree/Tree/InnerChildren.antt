-- ===== src/Blinktree/Tree/InnerChildren.antt =====
-- `Tree::split_inner_node` of src/indices/blinktree/tree.cpp: no child is lost between the halves.
use btree_benchmarks.Prelude.{
  ℕ, ◌+◌, ◌-◌, ◌/◌, ◌≤◌, ◌<◌, ◌≡◌, ◌⊎◌, inl, inr, refl, true, false, arith, ltb, Bool, Bool-cases,
  dec_lt, ℕ_discrete,
}
use btree_benchmarks.Prelude.Memory.{update}
use btree_benchmarks.Blinktree.Node.{Ptr, Key, Layout, max_keys, Node, copy}
use btree_benchmarks.Blinktree.Node.Search.{IsSorted}
use btree_benchmarks.Blinktree.Node.Contents.{HoldsKey}
use btree_benchmarks.Blinktree.Tree.{
  InnerHalves, split_inner, split_inner_low, split_inner_middle, split_inner_high, left_size,
  right_size,
}
use btree_benchmarks.Blinktree.Tree.Shape.{IsRoomy}
use btree_benchmarks.Blinktree.Tree.Children.{HasChild, insert_child-HasChild}

-- Each child of the old node, and the new one, is in one of the halves; the new one is in the left
-- half only if it is behind a key there.
pub record KeepsChildren (old : Node) (separator : Ptr) (is_low : Bool) (h : InnerHalves)
    : Type 0 where
  pub kept : (r : Ptr) → HasChild old r → HasChild h.left r ⊎ HasChild h.right r
  pub taken : HasChild h.right separator ⊎ ((is_low ≡ true) × HasChild h.left separator)

module _ {l : Layout} (old new : Node) (address : Ptr) (key : Key) (separator : Ptr)
    (roomy : IsRoomy l) (inner : old.is_leaf ≡ false) (sorted : IsSorted old.keys old.size)
    (full : old.size ≡ max_keys l) (absent : ¬ HoldsKey old.keys old.size key) where
  -- The children from `a` on, copied behind `first`.
  copied : (a c : ℕ) → Ptr → Node
  copied a c first =
      let other : Node = copy old new a c in
      record other { separators = update other.separators 0 first; size = c }

  copied-HasChild :
      (a c : ℕ) (first : Ptr) (j : ℕ)
      → a < j
      → j ≤ a + c
      → HasChild (copied a c first) (old.separators j)
  unfolding copied copy
  copied-HasChild a c first j above below = (j - a, omega (arith, below), ground arith)

  copied-keys :
      (a c : ℕ) (first : Ptr) (i : ℕ) → i < c → (copied a c first).keys i ≡ old.keys (i + a)
  unfolding copied copy
  copied-keys a c first i h = ground arith

  low-KeepsChildren : KeepsChildren old separator true (split_inner_low l old new key separator)
  unfolding split_inner_low copied
  low-KeepsChildren =
      let put =
        insert_child-HasChild (record old { size = left_size l - 1 }) key separator
          (λ i j p q. sorted i j p (omega (arith, full))) (omega arith)
          (λ h. absent (h.0, omega (arith, h.1, full), h.2)) in
      record {
        kept = λ r (j, inside, is). elim (dec_lt j (left_size l)) [
          | yes left ↦ inl (put r (inl (j, omega (arith, left), is)))
          | no right ↦ elim (ℕ_discrete j (left_size l)) [
            | yes e ↦ inr (0, omega arith, ground (arith, e, is))
            | no other ↦ inr (
                rw (← is) (
                  copied-HasChild (left_size l) (right_size l) _ j (omega (arith, right, other))
                    (omega (arith, inside, full))))
          ]
        ];
        taken = inr (refl, put separator (inr refl));
      }

  middle-KeepsChildren :
      (is_low : Bool)
      → KeepsChildren old separator is_low (split_inner_middle l old new key separator)
  unfolding split_inner_middle copied
  middle-KeepsChildren is_low = record {
    kept = λ r (j, inside, is). elim (dec_lt (left_size l) j) [
      | yes right ↦ inr (
          rw (← is) (
            copied-HasChild (left_size l) (right_size l) separator j right
              (omega (arith, inside, full))))
      | no left ↦ inl (j, omega (arith, left), is)
    ];
    taken = inl (0, omega arith, refl);
  }

  high-KeepsChildren :
      (is_low : Bool)
      → KeepsChildren old separator is_low (split_inner_high l old new key separator)
  unfolding split_inner_high copied
  high-KeepsChildren is_low =
      let filled = copied (left_size l + 1) (right_size l - 1) (old.separators (left_size l + 1)) in
      let keys =
        copied-keys (left_size l + 1) (right_size l - 1) (old.separators (left_size l + 1)) in
      let put =
        insert_child-HasChild filled key separator
          (λ i j p q. ground (
            arith,
            keys i,
            keys j,
            sorted (i + (left_size l + 1)) (j + (left_size l + 1)),
            full,
            p,
            q,
            roomy.room,
          ))
          (omega arith)
          (λ h. absent (
            h.0 + (left_size l + 1),
            omega (arith, h.1, full, roomy.room),
            ground (arith, keys h.0, h.1, h.2),
          )) in
      record {
        kept = λ r (j, inside, is). elim (dec_lt (left_size l) j) [
          | no left ↦ inl (j, omega (arith, left), is)
          | yes right ↦ inr (
              put r (
                inl (elim (ℕ_discrete j (left_size l + 1)) [
                  | yes e ↦ (0, omega arith, ground (arith, e, is))
                  | no other ↦ rw (← is) (
                      copied-HasChild (left_size l + 1) (right_size l - 1) _ j
                        (omega (arith, right, other)) (omega (arith, inside, full, roomy.room)))
                ])))
        ];
        taken = inl (put separator (inr refl));
      }

  -- The links of the halves to one another play no part.
  linked-KeepsChildren :
      (is_low : Bool) (h : InnerHalves)
      → KeepsChildren old separator is_low h
      → KeepsChildren old separator is_low (record h {
        left = record h.left { right_sibling = address; high_key = h.key_up };
        right = record h.right { right_sibling = h.left.right_sibling };
      })
  linked-KeepsChildren is_low h keeps = record { kept = keeps.kept; taken = keeps.taken }

module _ {l : Layout} (old new : Node) (address : Ptr) (key : Key) (separator : Ptr)
    (roomy : IsRoomy l) (inner : old.is_leaf ≡ false) (sorted : IsSorted old.keys old.size)
    (full : old.size ≡ max_keys l) (absent : ¬ HoldsKey old.keys old.size key) where
  pub split_inner-KeepsChildren :
      KeepsChildren old separator
        (ltb key (old.keys (max_keys l / 2 - 1)))
        (split_inner l old new address key separator)
  unfolding split_inner
  split_inner-KeepsChildren =
      let new' : Node = record new { high_key = old.high_key } in
      elim (Bool-cases (ltb key (old.keys (max_keys l / 2 - 1)))) [
        | inl low ↦ rw low (
            linked-KeepsChildren old new' address key separator roomy inner sorted full absent true
              _ (low-KeepsChildren old new' address key separator roomy inner sorted full absent))
        | inr not_low ↦ elim (Bool-cases (ltb key (old.keys (max_keys l / 2)))) [
          | inl middle ↦
              rw (not_low, middle)
                (linked-KeepsChildren old new' address key separator roomy inner sorted full absent
                  false _
                  (middle-KeepsChildren old new' address key separator roomy inner sorted full
                    absent false))
          | inr high ↦
              rw (not_low, high)
                (linked-KeepsChildren old new' address key separator roomy inner sorted full absent
                  false _
                  (high-KeepsChildren old new' address key separator roomy inner sorted full absent
                    false))
        ]
      ]
