-- ===== src/Util/CoreSets/Tests.antt =====
-- The sets of cores of a machine with two nodes whose cores alternate, and the theorem about them.
use btree_benchmarks.Prelude.{
  ℕ, ◌%◌, ◌≤◌, ◌≡◌, ◌↔◌, ◌⊎◌, refl, List, [], ◌∷◌, some, arith, length, map,
}
use btree_benchmarks.Util.CoreConfiguration.{core_counts}
use btree_benchmarks.Util.CoreConfiguration.Counts.{IsIn, Ascends}
use btree_benchmarks.Util.CoreOrder.{numa_ascending, generate_core_order}
use btree_benchmarks.Util.CoreSets.{core_sets}
use btree_benchmarks.Util.CoreSets.Prefixes.{ArePrefixes, core_sets_lem}

abbrev node_of : ℕ → ℕ
node_of core = core % 2

core_sets-three :
    core_sets 4 node_of 10 numa_ascending 1 3 2
    ≡ some ((0 ∷ []) ∷ (0 ∷ 2 ∷ []) ∷ (0 ∷ 2 ∷ 1 ∷ []) ∷ [])
unfolding core_sets core_counts
core_sets-three = refl

core_sets_lem_example :
    (sets : List (List ℕ)) × (core_sets 4 node_of 10 numa_ascending 1 3 2 ≡ some sets)
    × Ascends 1 (map length sets)
    × ((c : ℕ) → IsIn c (map length sets) ↔ ((c ≡ 1) ⊎ (c ≡ 3) ⊎ ((1 ≤ c) × (c ≤ 3) × (c % 2 ≡ 0))))
    × ArePrefixes (generate_core_order 4 node_of numa_ascending 3) sets
core_sets_lem_example =
    core_sets_lem 4 node_of 10 numa_ascending 1 3 2 (omega arith) (omega arith) (omega arith)
      (omega arith) (omega arith) (omega arith)
