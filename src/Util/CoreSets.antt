-- ===== src/Util/CoreSets.antt =====
-- `CoreConfiguration` of src/util/core_configuration.cpp: the sets of cores that its constructor
-- makes out of the order of the cores and the sizes.
pub mod Prefixes
mod Tests
use btree_benchmarks.Prelude.{
  ℕ, zero, suc, ◌+◌, List, [], ◌∷◌, Option, none, some, map, ◌==◌, if◌then◌else◌,
}
use btree_benchmarks.Util.CoreConfiguration.{core_counts}
use btree_benchmarks.Util.CoreOrder.{CoreOrderType, generate_core_order}

-- The loop of `generate_core_set`, from `core_index` on.
unfoldable pub core_set_loop : (count core_index : ℕ) (ordered_physical_cores : ℕ → ℕ) → List ℕ
core_set_loop zero core_index ordered_physical_cores = []
core_set_loop (suc count) core_index ordered_physical_cores =
    ordered_physical_cores core_index ∷ core_set_loop count (core_index + 1) ordered_physical_cores

unfoldable pub generate_core_set : (count_cores : ℕ) (ordered_physical_cores : ℕ → ℕ) → List ℕ
unfolding core_set_loop
generate_core_set count_cores ordered_physical_cores =
    core_set_loop count_cores 0 ordered_physical_cores

-- `_core_sets` after the constructor, which generates a set at each size; `none` where the assertion
-- `core_step > 0` fails, or the fuel runs out.
unfoldable pub core_sets :
    (hardware_concurrency : ℕ) (numa_node_of_cpu : ℕ → ℕ) (fuel : ℕ)
    → CoreOrderType
    → (min_cores max_cores core_step : ℕ) → Option (List (List ℕ))
unfolding generate_core_set
core_sets hardware_concurrency numa_node_of_cpu fuel type min_cores max_cores core_step =
    let ordered_cores = generate_core_order hardware_concurrency numa_node_of_cpu type max_cores in
    if core_step == 0 then none else elim (core_counts fuel min_cores max_cores core_step) [
      | none ↦ none
      | some counts ↦ some (map (λ count. generate_core_set count ordered_cores) counts)
    ]
