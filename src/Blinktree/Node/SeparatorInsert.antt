-- ===== src/Blinktree/Node/SeparatorInsert.antt =====
-- `insert_separator(index(key), separator, key)`, as the trees of src/indices/blinktree call it: a
-- new child goes in behind its key, at the lower bound of the key.
use btree_benchmarks.Prelude.{
  ℕ, ◌+◌, ◌-◌, ◌^◌, ◌≤◌, ◌<◌, ◌≡◌, arith, ◌==◌, if◌then◌else◌, dec_lt, sym,
}
use mathlib.Core.Path.{subst₂}
use btree_benchmarks.Blinktree.Node.{Ptr, Key, Node, index, insert_separator}
use btree_benchmarks.Blinktree.Node.Search.{IsSorted, IsLowerBound, index-IsLowerBound}
use btree_benchmarks.Blinktree.Node.Insert.{
  InsertsSeparator, insert_separator-InsertsSeparator, IsInserted-IsSorted, IsInserted-bounds,
}
use btree_benchmarks.Blinktree.Node.Contents.{HoldsKey}

abbrev pub insert_child : Node → Key → Ptr → Node
insert_child n key separator = insert_separator n (index n key) separator key

-- Where the keys under child `i` begin, in a node that is responsible for the keys from `low` on.
abbrev pub low_of : Key → (ℕ → Key) → ℕ → Key
low_of low keys i = if i == 0 then low else keys (i - 1)

module _ (n : Node) (key : Key) (separator : Ptr) (sorted : IsSorted n.keys n.size)
    (small : n.size + 1 < 2 ^ 16) (absent : ¬ HoldsKey n.keys n.size key) where
  bound : IsLowerBound n.keys n.size key (index n key)
  bound = index-IsLowerBound n key sorted (omega arith)

  pub insert_child-InsertsSeparator :
      InsertsSeparator n (index n key) separator key (insert_child n key separator)
  insert_child-InsertsSeparator =
      insert_separator-InsertsSeparator n (index n key) bound.inside small separator key

  pub insert_child-IsSorted : IsSorted (insert_child n key separator).keys (n.size + 1)
  insert_child-IsSorted =
      IsInserted-IsSorted sorted bound (λ p e. absurd (absent (index n key, p, e)))
        insert_child-InsertsSeparator.keys_inserted

  pub insert_child-bounds :
      (low high : ℕ)
      → ((i : ℕ) → i < n.size → (low ≤ n.keys i) × (n.keys i < high))
      → low ≤ key
      → key < high
      → (i : ℕ) → i < n.size + 1
      → (low ≤ (insert_child n key separator).keys i)
        × ((insert_child n key separator).keys i < high)
  insert_child-bounds low high bounded above below =
      IsInserted-bounds low high bounded above below insert_child-InsertsSeparator.keys_inserted
        bound.inside

  -- A property of each child with the begin of its keys, kept by the insertion.
  pub insert_child-children {ℓ} :
      (P : Ptr → Key → Type ℓ) (low : Key)
      → ((i : ℕ) → i ≤ n.size → P (n.separators i) (low_of low n.keys i))
      → P separator key
      → (i : ℕ) → i ≤ n.size + 1
      → P
          ((insert_child n key separator).separators i)
          (low_of low (insert_child n key separator).keys i)
  insert_child-children P low old new i p = elim (dec_lt i (index n key + 1)) [
    | yes left ↦
        subst₂ P (sym (seps.before i left)) (ground (arith, keys.before (i - 1)))
          (old i (omega (arith, bound.inside)))
    | no other ↦ elim (dec_lt (index n key + 1) i) [
      | no same ↦
          let e : index n key + 1 ≡ i = omega arith in
          rw (← e) (subst₂ P (sym seps.here) (ground (arith, keys.here)) new)
      | yes right ↦
          let e : i - 1 + 1 ≡ i = omega arith in
          rw (← e) (
            subst₂ P (sym (seps.behind (i - 1) (omega arith) (omega arith)))
              (ground (arith, keys.behind (i - 2))) (old (i - 1) (omega arith)))
    ]
  ]
    where
      open insert_child-InsertsSeparator use {keys_inserted as keys, separators_inserted as seps}
