-- ===== src/Util/CoreOrder.antt =====
-- `generate_core_order` of src/util/core_configuration.cpp, in which order the cores are used, and
-- the parts of src/hardware/system.h that it asks.
pub mod Places
pub mod Numa
mod Tests
use btree_benchmarks.Prelude.{
  ℕ, zero, suc, ◌+◌, ◌%◌, ◌^◌, List, [], ◌∷◌, ◌++◌, ltb, ◌==◌, if◌then◌else◌,
}
use btree_benchmarks.Prelude.Memory.{update}
use btree_benchmarks.Blinktree.Node.{to_size}

-- The larger one, as `std::max`.
abbrev pub max : ℕ → ℕ → ℕ
max a b = if ltb a b then b else a

-- `std::map<std::uint8_t, std::vector<std::uint16_t>>`, its entries in the order of the iteration.
abbrev pub NodeCores : Type 0
NodeCores = List (ℕ × List ℕ)

-- `node_cores[numa_id].push_back(core_id)`
abbrev pub add_core : (numa_id core_id : ℕ) → NodeCores → NodeCores
add_core numa_id core_id [] = (numa_id, core_id ∷ []) ∷ []
add_core numa_id core_id ((key, cores) ∷ rest) =
    if key == numa_id
    then (key, cores ++ (core_id ∷ [])) ∷ rest
    else if ltb numa_id key
    then (numa_id, core_id ∷ []) ∷ ((key, cores) ∷ rest)
    else (key, cores) ∷ add_core numa_id core_id rest

-- The cores of all entries, one entry after the other.
abbrev pub all_cores : NodeCores → List ℕ
all_cores [] = []
all_cores ((key, cores) ∷ rest) = cores ++ all_cores rest

-- The loops that write the cores from `index` on and return as soon as `index == core_order.size()`.
abbrev pub place : (size index : ℕ) → List ℕ → (ℕ → ℕ) → ℕ → ℕ
place size index [] core_order = core_order
place size index (core_id ∷ rest) core_order =
    if index + 1 == size
    then update core_order index core_id
    else place size (index + 1) rest (update core_order index core_id)

-- `CoreConfiguration::Type`
pub data CoreOrderType : Type 0 where
  logical numa_ascending : CoreOrderType

-- `hardware_concurrency` and `numa_node_of_cpu` are the functions of the C++ library and of libnuma.
module _ (hardware_concurrency : ℕ) where
  abbrev pub count_cores : ℕ
  count_cores = to_size hardware_concurrency

  -- `count_cores` must not be 0, which `hardware_concurrency` returns where it does not know.
  abbrev pub physical_core_id : ℕ → ℕ
  physical_core_id logical_core_id = logical_core_id % count_cores

  abbrev pub real_max_cores : (max_cores : ℕ) → ℕ
  real_max_cores max_cores = max max_cores count_cores

module _ (hardware_concurrency : ℕ) (numa_node_of_cpu : ℕ → ℕ) where
  abbrev pub numa_id : ℕ → ℕ
  numa_id core_id = numa_node_of_cpu (physical_core_id hardware_concurrency core_id) % 2 ^ 8

  -- `node_cores` behind the first `count` rounds of its loop.
  abbrev pub node_cores : (count : ℕ) → NodeCores
  node_cores zero = []
  node_cores (suc count) = add_core (numa_id count) count (node_cores count)

  -- The vector has `real_max_cores` elements, zeros at first. No core is too large for
  -- the std::uint16_t, since the number of cores is one.
  abbrev pub generate_core_order : CoreOrderType → (max_cores : ℕ) → ℕ → ℕ
  generate_core_order logical max_cores = λ core. core
  generate_core_order numa_ascending max_cores =
      let n = real_max_cores hardware_concurrency max_cores in
      place n 0 (all_cores (node_cores n)) (λ i. 0)
