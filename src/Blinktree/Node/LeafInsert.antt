-- ===== src/Blinktree/Node/LeafInsert.antt =====
-- `insert_value(index(key), value, key)`, as the trees of src/indices/blinktree call it: an entry
-- with a new key goes into a leaf at the lower bound of its key.
use btree_benchmarks.Prelude.{ℕ, ◌+◌, ◌^◌, ◌≤◌, ◌<◌, ◌≡◌, ◌↔◌, ◌⊎◌, arith}
use btree_benchmarks.Blinktree.Node.{Key, Value, Layout, max_items, Node, index, insert_value}
use btree_benchmarks.Blinktree.Node.Search.{IsSorted, IsLowerBound, index-IsLowerBound}
use btree_benchmarks.Blinktree.Node.Insert.{
  InsertsValue, insert_value-InsertsValue, IsInserted-IsSorted, IsInserted-bounds,
}
use btree_benchmarks.Blinktree.Node.Contents.{Holds, HoldsKey, Holds-insert}

abbrev pub insert_entry : Node → Key → Value → Node
insert_entry n key value = insert_value n (index n key) value key

module _ (l : Layout) (n : Node) (key : Key) (value : Value) (sorted : IsSorted n.keys n.size)
    (room : n.size < max_items l) (absent : ¬ HoldsKey n.keys n.size key) where
  small : n.size + 1 < 2 ^ 16
  small = omega (arith, room)

  bound : IsLowerBound n.keys n.size key (index n key)
  bound = index-IsLowerBound n key sorted (omega arith)

  pub insert_entry-InsertsValue : InsertsValue n (index n key) value key (insert_entry n key value)
  insert_entry-InsertsValue = insert_value-InsertsValue n (index n key) bound.inside small value key

  pub insert_entry-size : (insert_entry n key value).size ≡ n.size + 1
  insert_entry-size = insert_entry-InsertsValue.grown

  -- The insertion of a key that a sorted leaf lacks and has room for, at the index of the key, keeps
  -- the keys sorted.
  pub insert_entry-IsSorted : IsSorted (insert_entry n key value).keys (n.size + 1)
  insert_entry-IsSorted =
      IsInserted-IsSorted sorted bound (λ p e. absurd (absent (index n key, p, e)))
        insert_entry-InsertsValue.keys_inserted

  pub insert_entry-bounds :
      (low high : ℕ)
      → ((i : ℕ) → i < n.size → (low ≤ n.keys i) × (n.keys i < high))
      → low ≤ key
      → key < high
      → (i : ℕ) → i < n.size + 1
      → (low ≤ (insert_entry n key value).keys i) × ((insert_entry n key value).keys i < high)
  insert_entry-bounds low high bounded above below =
      IsInserted-bounds low high bounded above below insert_entry-InsertsValue.keys_inserted
        bound.inside

  -- The first key stays, if the new one is above it.
  pub insert_entry-first :
      0 < n.size → n.keys 0 ≤ key → (insert_entry n key value).keys 0 ≡ n.keys 0
  insert_entry-first some_entry above = insert_entry-InsertsValue.keys_inserted.before 0 (
      ground (
        arith,
        bound.above 0,
        λ (p : index n key < n.size) (e : n.keys (index n key) ≡ key). absent (index n key, p, e),
      ))

  -- After the insertion of an entry with a key that a sorted leaf lacks, into a leaf that is not full,
  -- it holds that entry and the old ones, and nothing else.
  pub insert_entry-Holds :
      (k : Key) (v : Value)
      → Holds
          (insert_entry n key value).keys
          (insert_entry n key value).values
          (insert_entry n key value).size
          k
          v
        ↔ (((k ≡ key) × (v ≡ value)) ⊎ Holds n.keys n.values n.size k v)
  insert_entry-Holds = rw insert_entry-size (
      Holds-insert bound.inside insert_entry-InsertsValue.keys_inserted
        insert_entry-InsertsValue.values_inserted)
