-- ===== src/Blinktree/Node/Contents.antt =====
-- The entries of a leaf as a relation between keys and values, and what the operations of
-- src/indices/blinktree/node.cpp do to it.
use btree_benchmarks.Prelude.{
  ℕ, ◌+◌, ◌-◌, ◌≤◌, ◌<◌, ◌≡◌, ◌⊎◌, inl, inr, ◌↔◌, arith, dec_lt, ℕ_discrete,
}
use btree_benchmarks.Blinktree.Node.{Key, Value}
use btree_benchmarks.Blinktree.Node.Search.{IsSorted, IsLowerBound}
use btree_benchmarks.Blinktree.Node.Insert.{IsInserted, IsInserted-cases}

-- One of the first `size` entries is `(k, v)`. The order of the entries is forgotten.
abbrev pub Holds : (keys : ℕ → Key) (values : ℕ → Value) (size : ℕ) → Key → Value → Type 0
Holds keys values size k v = (i : ℕ) × (i < size) × (keys i ≡ k) × (values i ≡ v)

abbrev pub HoldsKey : (keys : ℕ → Key) (size : ℕ) → Key → Type 0
HoldsKey keys size k = (i : ℕ) × (i < size) × (keys i ≡ k)

module _ {keys : ℕ → Key} {n : ℕ} {key : Key} {r : ℕ} where
  -- A key that is held stands at its lower bound.
  pub HoldsKey-bound :
      IsSorted keys n → IsLowerBound keys n key r → HoldsKey keys n key → (r < n) × (keys r ≡ key)
  HoldsKey-bound sorted bound (i, p, e) = ground (arith, bound.below i, bound.above r, sorted r i)

-- In sorted keys a key stands once.
pub index_unique :
    {keys : ℕ → Key} {n : ℕ} → IsSorted keys n → (i j : ℕ) → i < n → j < n → keys i ≡ keys j → i ≡ j
index_unique sorted i j p q e = ground (arith, sorted i j, sorted j i)

module _ {keys keys' : ℕ → Key} {values values' : ℕ → Value} {n index : ℕ} {key : Key}
    {value : Value} (inside : index ≤ n) (in_keys : IsInserted keys n index key keys')
    (in_values : IsInserted values n index value values') where
  -- After an insertion a leaf holds the new entry and the old ones, and nothing else.
  pub Holds-insert :
      (k : Key) (v : Value)
      → Holds keys' values' (n + 1) k v ↔ (((k ≡ key) × (v ≡ value)) ⊎ Holds keys values n k v)
  Holds-insert k v = (there, back)
    where
      there : Holds keys' values' (n + 1) k v → ((k ≡ key) × (v ≡ value)) ⊎ Holds keys values n k v
      there (i, p, ek, ev) = elim (dec_lt i index) [
        | yes low ↦
            inr
              (i, omega arith, ground (arith, in_keys.before i), ground (arith, in_values.before i))
        | no other ↦ elim (ℕ_discrete i index) [
          | yes same ↦ inl (
            ground (arith, IsInserted-cases in_keys i),
            ground (arith, IsInserted-cases in_values i),
          )
          | no high ↦ inr (
            i - 1,
            omega arith,
            ground (arith, IsInserted-cases in_keys i),
            ground (arith, IsInserted-cases in_values i),
          )
        ]
      ]

      back : ((k ≡ key) × (v ≡ value)) ⊎ Holds keys values n k v → Holds keys' values' (n + 1) k v
      back (inl (ek, ev)) =
          (index, omega arith, ground (arith, in_keys.here), ground (arith, in_values.here))
      back (inr (i, p, ek, ev)) = elim (dec_lt i index) [
        | yes low ↦
            (i, omega arith, ground (arith, in_keys.before i), ground (arith, in_values.before i))
        | no high ↦ (
          i + 1,
          omega arith,
          ground (arith, in_keys.behind i),
          ground (arith, in_values.behind i),
        )
      ]
