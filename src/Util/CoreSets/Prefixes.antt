-- ===== src/Util/CoreSets/Prefixes.antt =====
-- The sets of cores of src/util/core_configuration.cpp are the first cores of their order.
use btree_benchmarks.Prelude.{
  ℕ, zero, suc, ◌+◌, ◌^◌, ◌%◌, ◌≤◌, ◌<◌, ◌≡◌, ◌↔◌, ◌⊎◌, refl, ap, List, [], ◌∷◌, some, arith, ne→==,
  length, get_elem?, map,
}
use btree_benchmarks.Util.CoreConfiguration.Counts.{Ascends, IsIn, core_counts_lem}
use btree_benchmarks.Util.CoreOrder.{CoreOrderType, count_cores, generate_core_order}
use btree_benchmarks.Util.CoreSets.{core_set_loop, generate_core_set, core_sets}

abbrev pub IsPrefix : (order : ℕ → ℕ) → List ℕ → Type 0
IsPrefix order cores = (i : ℕ) → i < length cores → get_elem? cores i ≡ some (order i)

-- Every set of the list is a prefix of the order.
abbrev pub ArePrefixes : (order : ℕ → ℕ) → List (List ℕ) → Type 0
ArePrefixes order [] = Unit
ArePrefixes order (cores ∷ sets) = IsPrefix order cores × ArePrefixes order sets

length-loop : (count i : ℕ) (order : ℕ → ℕ) → length (core_set_loop count i order) ≡ count
unfolding core_set_loop
length-loop zero i order = refl
length-loop (suc count) i order = rw (length-loop count (i + 1) order)

loop-get :
    (count k i n : ℕ) (order : ℕ → ℕ)
    → i < count
    → k + i ≡ n
    → get_elem? (core_set_loop count k order) i ≡ some (order n)
unfolding core_set_loop
loop-get zero k i n order lt at = absurd (omega (arith, lt))
loop-get (suc count) k zero n order lt at =
    let same : k ≡ n = omega (arith, at) in ap (λ m. some (order m)) same
loop-get (suc count) k (suc i) n order lt at =
    loop-get count (k + 1) i n order (omega (arith, lt)) (omega (arith, at))

sizes :
    (order : ℕ → ℕ) (counts : List ℕ)
    → map length (map (λ count. generate_core_set count order) counts) ≡ counts
unfolding generate_core_set
sizes order [] = refl
sizes order (count ∷ counts) = rw (length-loop count 0 order, sizes order counts)

counts-ArePrefixes :
    (order : ℕ → ℕ) (counts : List ℕ)
    → ArePrefixes order (map (λ count. generate_core_set count order) counts)
unfolding generate_core_set
counts-ArePrefixes order [] = tt
counts-ArePrefixes order (count ∷ counts) = (
  λ i lt. loop-get count 0 i i order (omega (arith, lt, length-loop count 0 order)) (omega arith),
  counts-ArePrefixes order counts,
)

-- For 0 < `min_cores` < `max_cores` < 2^16 - 1, a step above 0 and a machine whose number of cores
-- is not 0, the constructor ends, and makes sets of ascending
-- sizes: `min_cores`, the multiples of the step between the two, and `max_cores`. Each set is made
-- of the first cores of the order, so that each contains the ones before it.
pub core_sets_lem :
    (hardware_concurrency : ℕ) (numa_node_of_cpu : ℕ → ℕ) (fuel : ℕ) (type : CoreOrderType)
    (min_cores max_cores core_step : ℕ)
    → 0 < min_cores
    → min_cores < max_cores
    → max_cores + 1 < 2 ^ 16
    → max_cores + 1 < fuel
    → 0 < core_step
    → 0 < count_cores hardware_concurrency
    → (sets : List (List ℕ)) × (core_sets hardware_concurrency numa_node_of_cpu fuel type min_cores
          max_cores core_step
        ≡ some sets)
      × Ascends min_cores (map length sets)
      × ((c : ℕ)
          → IsIn c (map length sets) ↔ (
              (c ≡ min_cores)
              ⊎ (c ≡ max_cores)
              ⊎ ((min_cores ≤ c) × (c ≤ max_cores) × (c % core_step ≡ 0))))
      × ArePrefixes (generate_core_order hardware_concurrency numa_node_of_cpu type max_cores) sets
unfolding core_sets
core_sets_lem hardware_concurrency numa_node_of_cpu fuel type min_cores max_cores core_step above
      below small enough some_step known =
    let order = generate_core_order hardware_concurrency numa_node_of_cpu type max_cores in
    let (counts, e, up, mem) =
      core_counts_lem min_cores max_cores core_step fuel above below small enough in
    (
      map (λ count. generate_core_set count order) counts,
      rw (core_sets, ne→== core_step 0 (omega (arith, some_step)), e) refl,
      rw (sizes order counts) up,
      λ c. rw (sizes order counts) (mem c),
      counts-ArePrefixes order counts,
    )
