-- ===== src/Util/CoreOrder/Tests.antt =====
-- The order of six cores of which the even ones are on node 0 and the odd ones on node 1.
use btree_benchmarks.Prelude.{ℕ, ◌%◌, ◌≤◌, ◌<◌, ◌≡◌, refl, [], ◌∷◌, arith}
use btree_benchmarks.Util.CoreOrder.{
  all_cores, numa_ascending, numa_id, node_cores, generate_core_order,
}
use btree_benchmarks.Util.CoreOrder.Numa.{numa_ascending_lem}

abbrev node_of : ℕ → ℕ
node_of core = core % 2

by_node_lem : all_cores (node_cores 6 node_of 6) ≡ 0 ∷ 2 ∷ 4 ∷ 1 ∷ 3 ∷ 5 ∷ []
by_node_lem = refl

fourth_lem : generate_core_order 6 node_of numa_ascending 4 3 ≡ 1
fourth_lem = refl

numa_ascending_lem_example :
    ((core : ℕ)
      → core < 6
      → (i : ℕ) × (i < 6) × (generate_core_order 6 node_of numa_ascending 4 i ≡ core))
    × ((i j : ℕ)
        → i ≤ j
        → j < 6
        → numa_id 6 node_of (generate_core_order 6 node_of numa_ascending 4 i)
          ≤ numa_id 6 node_of (generate_core_order 6 node_of numa_ascending 4 j))
numa_ascending_lem_example = numa_ascending_lem 6 node_of 4 (omega arith)
