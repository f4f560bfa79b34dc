-- ===== src/Blinktree/Node/Tests.antt =====
-- The theorems about one node at a leaf of `size` entries and at an inner node.
use btree_benchmarks.Prelude.{
  ℕ, ◌+◌, ◌*◌, ◌≡◌, ◌↔◌, ◌⊎◌, refl, true, false, arith, if◌then◌else◌, ltb,
}
use btree_benchmarks.Blinktree.Node.{
  null, Key, Value, max_key, Layout, Node, leaf_key, index, child,
}
use btree_benchmarks.Blinktree.Node.Search.{
  IsSorted, IsLowerBound, IsUpperBound, index-IsLowerBound, child-IsUpperBound,
}
use btree_benchmarks.Blinktree.Node.Contents.{Holds, HoldsKey}
use btree_benchmarks.Blinktree.Node.LeafInsert.{
  insert_entry, insert_entry-Holds, insert_entry-IsSorted,
}

abbrev layout : Layout
layout = record { header_size = 40; garbage_size = 0 }

-- The keys 0, 10 and 20, with free cells that hold 0.
abbrev leaf : Node
leaf = record {
  is_leaf = true;
  high_key = max_key;
  right_sibling = null;
  parent = null;
  size = 3;
  keys = λ i. if ltb i 3 then 10 * i else 0;
  values = λ i. i + 7;
  separators = λ i. 0;
}

abbrev inner : Node
inner = record leaf { is_leaf = false; separators = λ i. i + 2 }

leaf-IsSorted : IsSorted leaf.keys leaf.size
leaf-IsSorted i j p q = ground arith

absent_15 : ¬ HoldsKey leaf.keys leaf.size 15
absent_15 (i, p, e) = ground arith

index-IsLowerBound_example : IsLowerBound leaf.keys 3 15 (index leaf 15)
index-IsLowerBound_example = index-IsLowerBound leaf 15 leaf-IsSorted (omega arith)

index_15 : index leaf 15 ≡ 2
unfolding index
index_15 = refl

-- The cell behind the 61 keys of a leaf is its first value.
leaf_key-61 : leaf_key layout leaf 61 ≡ 7
unfolding leaf_key
leaf_key-61 = refl

child-IsUpperBound_example :
    (r : ℕ) × IsUpperBound inner.keys 3 10 r × (child inner 10 ≡ inner.separators r)
child-IsUpperBound_example = child-IsUpperBound inner 10 leaf-IsSorted (omega arith)

child_10 : child inner 10 ≡ 4
unfolding child
child_10 = refl

abbrev k : Key
k = 20

abbrev v : Value
v = 9

insert_entry-Holds_example :
    Holds
      (insert_entry leaf 15 9).keys
      (insert_entry leaf 15 9).values
      (insert_entry leaf 15 9).size
      k
      v
    ↔ (((k ≡ 15) × (v ≡ 9)) ⊎ Holds leaf.keys leaf.values 3 k v)
insert_entry-Holds_example =
    insert_entry-Holds layout leaf 15 9 leaf-IsSorted (omega arith) absent_15 k v

insert_entry-IsSorted_example : IsSorted (insert_entry leaf 15 9).keys 4
insert_entry-IsSorted_example =
    insert_entry-IsSorted layout leaf 15 9 leaf-IsSorted (omega arith) absent_15
