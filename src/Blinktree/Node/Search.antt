-- ===== src/Blinktree/Node/Search.antt =====
-- `Node::index`, `Node::child` and `Node::contains_separator` of src/indices/blinktree/node.cpp:
-- what the searches in one node find.
use btree_benchmarks.Prelude.{
  ℕ, zero, suc, ◌+◌, ◌-◌, ◌/◌, ◌^◌, ◌≤◌, ◌<◌, ◌≡◌, refl, ◌↔◌, inl, inr, true, arith, ltb, leb, ◌==◌,
  Bool-cases,
}
use btree_benchmarks.Blinktree.Node.{
  Key, Ptr, Node, lower_bound_loop, index, child_loop, child_index, child, separator_scan,
  contains_separator,
}

-- Strictly ascending on the first `n` cells.
abbrev pub IsSorted : (ℕ → Key) → ℕ → Type 0
IsSorted keys n = (i j : ℕ) → i < j → j < n → keys i < keys j

-- `r` splits the first `n` cells into keys below `key` and keys that are not.
pub record IsLowerBound (keys : ℕ → Key) (n : ℕ) (key : Key) (r : ℕ) : Type 0 where
  pub inside : r ≤ n
  pub below : (i : ℕ) → i < r → keys i < key
  pub above : (i : ℕ) → r ≤ i → i < n → key ≤ keys i

-- `r` splits the first `n` cells into keys at most `key` and keys above it.
pub record IsUpperBound (keys : ℕ → Key) (n : ℕ) (key : Key) (r : ℕ) : Type 0 where
  pub inside : r ≤ n
  pub below : (i : ℕ) → i < r → keys i ≤ key
  pub above : (i : ℕ) → r ≤ i → i < n → key < keys i

pub IsSorted-le :
    {keys : ℕ → Key} {n : ℕ} → IsSorted keys n → (i j : ℕ) → i ≤ j → j < n → keys i ≤ keys j
IsSorted-le sorted i j p q = ground (arith, sorted i j)

module _ {keys : ℕ → Key} {n : ℕ} (key : Key) (sorted : IsSorted keys n) where
  lower_bound_loop-IsLowerBound :
      (fuel first len : ℕ)
      → len ≤ fuel
      → first + len ≤ n
      → ((i : ℕ) → i < first → keys i < key)
      → ((i : ℕ) → first + len ≤ i → i < n → key ≤ keys i)
      → IsLowerBound keys n key (lower_bound_loop fuel keys key first len)
  unfolding lower_bound_loop
  lower_bound_loop-IsLowerBound zero first len enough fits below above = record {
    inside = omega arith;
    below = below;
    above = λ i p. above i (omega arith);
  }
  lower_bound_loop-IsLowerBound (suc fuel) first len enough fits below above =
      elim (Bool-cases (ltb 0 len)) [
        | inr done ↦
            rw (done, lower_bound_loop)
              (record {
                inside = omega arith;
                below = below;
                above = λ i p. above i (ground arith);
              })
        | inl more ↦ elim (Bool-cases (ltb (keys (first + len / 2)) key)) [
          | inl right ↦
              rw (more, lower_bound_loop)
                (rw (right, lower_bound_loop)
                  (lower_bound_loop-IsLowerBound fuel (first + len / 2 + 1) (len - len / 2 - 1)
                    (ground arith) (ground arith)
                    (λ i p. ground (arith, IsSorted-le sorted i (first + len / 2)))
                    (λ i p. above i (ground arith))))
          | inr left ↦
              rw (more, lower_bound_loop)
                (rw (left, lower_bound_loop)
                  (lower_bound_loop-IsLowerBound fuel first (len / 2) (ground arith) (ground arith)
                    below (λ i p. ground (arith, IsSorted-le sorted (first + len / 2) i))))
        ]
      ]

  -- Any loop of `child` that starts between the two bounds ends at the split point.
  child_loop-IsUpperBound :
      (fuel low high : ℕ)
      → high - low < fuel
      → low ≤ high
      → high ≤ n
      → ((i : ℕ) → i < low → keys i ≤ key)
      → ((i : ℕ) → high ≤ i → i < n → key < keys i)
      → IsUpperBound keys n key (child_loop fuel keys key low high)
  unfolding child_loop
  child_loop-IsUpperBound zero low high enough order fits below above = absurd (omega arith)
  child_loop-IsUpperBound (suc fuel) low high enough order fits below above =
      elim (Bool-cases (ltb low high)) [
        | inr done ↦
            rw (done, child_loop)
              (record { inside = fits; below = λ i p. below i (ground arith); above = above })
        | inl more ↦ elim (Bool-cases (leb (keys ((low + high - 1) / 2)) key)) [
          | inl right ↦
              rw (more, child_loop)
                (rw (right, child_loop)
                  (child_loop-IsUpperBound fuel ((low + high - 1) / 2 + 1) high (ground arith)
                    (ground arith) fits
                    (λ i p. ground (arith, IsSorted-le sorted i ((low + high - 1) / 2))) above))
          | inr left ↦
              rw (more, child_loop)
                (rw (left, child_loop)
                  (child_loop-IsUpperBound fuel low ((low + high - 1) / 2) (ground arith)
                    (ground arith) (ground arith) below
                    (λ i p. ground (arith, IsSorted-le sorted ((low + high - 1) / 2) i))))
        ]
      ]

module _ (n : Node) (key : Key) (sorted : IsSorted n.keys n.size) where
  -- On sorted keys, fewer than 2^16, `index` is the first position whose key is not below the
  -- given one.
  pub index-IsLowerBound : n.size < 2 ^ 16 → IsLowerBound n.keys n.size key (index n key)
  unfolding index
  index-IsLowerBound small =
      let bound =
        lower_bound_loop-IsLowerBound key sorted n.size 0 n.size (omega arith) (omega arith)
          (λ i p. absurd (omega arith)) (λ i p q. absurd (omega arith)) in
      record {
        inside = omega arith;
        below = λ i p. bound.below i (omega arith);
        above = λ i p. bound.above i (omega arith);
      }

  pub child_index-IsUpperBound :
      n.size < 2 ^ 15 → IsUpperBound n.keys n.size key (child_index n key)
  unfolding child_index
  child_index-IsUpperBound small =
      child_loop-IsUpperBound key sorted (n.size + 1) 0 n.size (omega arith) (omega arith)
        (omega arith) (λ i p. absurd (omega arith)) (λ i p q. absurd (omega arith))

pub child-child_index : (n : Node) (key : Key) → child n key ≡ n.separators (child_index n key)
unfolding child child_index
child-child_index n key = refl

-- On sorted keys, fewer than 2^15, so that an int16_t holds each index and their number, `child`
-- returns the separator to the right of all keys that are at most `key` and to the left of all keys
-- above it.
pub child-IsUpperBound :
    (n : Node) (key : Key)
    → IsSorted n.keys n.size
    → n.size < 2 ^ 15
    → (r : ℕ) × IsUpperBound n.keys n.size key r × (child n key ≡ n.separators r)
child-IsUpperBound n key sorted small =
    (child_index n key, child_index-IsUpperBound n key sorted small, child-child_index n key)

separator_scan_lem :
    (rounds i : ℕ) (separators : ℕ → Ptr) (separator : Ptr)
    → (separator_scan rounds i separators separator ≡ true)
      ↔ ((j : ℕ) × (i ≤ j) × (j < i + rounds) × (separators j ≡ separator))
unfolding separator_scan
separator_scan_lem zero i separators separator = (λ h. cc, λ (j, a, b, e). absurd (omega arith))
separator_scan_lem (suc rounds) i separators separator =
    elim (Bool-cases (separators i == separator)) [
      | inl here ↦ rw here (λ _. (i, omega arith, omega arith, ground arith), λ _. refl)
      | inr other ↦ rw other (
          let ih = separator_scan_lem rounds (i + 1) separators separator in
          (
            λ h. let (j, a, b, e) = ih.0 h in (j, omega arith, omega arith, e),
            λ (j, a, b, e). ih.1 (j, ground arith, omega arith, e),
          ))
    ]

-- `contains_separator` tests all `size + 1` children.
-- `contains_separator` answers true exactly if one of the `size + 1` separators is the given one.
pub contains_separator_iff :
    (n : Node) (separator : Ptr)
    → (contains_separator n separator ≡ true)
      ↔ ((j : ℕ) × (j ≤ n.size) × (n.separators j ≡ separator))
unfolding contains_separator
contains_separator_iff n separator =
    let scan = separator_scan_lem (n.size + 1) 0 n.separators separator in
    (
      λ h. let (j, a, b, e) = scan.0 h in (j, omega arith, e),
      λ (j, b, e). scan.1 (j, omega arith, omega arith, e),
    )
