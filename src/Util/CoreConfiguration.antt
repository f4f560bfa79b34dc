-- ===== src/Util/CoreConfiguration.antt =====
-- src/util/core_configuration.cpp: how many cores the benchmark runs on, one count after the other.
-- The sets themselves are made in Util.CoreSets.
pub mod Counts
mod Tests
use btree_benchmarks.Prelude.{
  ℕ, zero, suc, ◌+◌, ◌%◌, Bool, true, false, not, ◌||◌, List, [], ◌∷◌, ◌++◌, Option, none, some,
  leb, ◌==◌, if◌then◌else◌,
}
use btree_benchmarks.Blinktree.Node.{to_size}

-- `for (auto count_cores = min_cores; count_cores <= max_cores; count_cores++)`; `none` if the fuel
-- runs out. The counter is a uint16_t. The step is not 0, which the constructor asserts first (in
-- Util.CoreSets).
unfoldable pub step_loop : (fuel : ℕ) (max_cores core_step count_cores : ℕ) → Option (List ℕ)
step_loop zero max_cores core_step count_cores = none
step_loop (suc fuel) max_cores core_step count_cores =
    let rest = step_loop fuel max_cores core_step (to_size (count_cores + 1)) in
    if leb count_cores max_cores
    then (if count_cores % core_step == 0
        then elim rest [ none ↦ none | some counts ↦ some (count_cores ∷ counts) ]
        else rest)
    else some []

-- The sizes of `_core_sets` after the constructor.
unfoldable pub core_counts : (fuel : ℕ) (min_cores max_cores core_step : ℕ) → Option (List ℕ)
unfolding step_loop
core_counts fuel min_cores max_cores core_step =
    if min_cores == 0 || min_cores == max_cores
    then some (max_cores ∷ [])
    else (let first : List ℕ = if min_cores % core_step == 0 then [] else min_cores ∷ [] in
        let start = if min_cores % core_step == 0 then min_cores else to_size (min_cores + 1) in
        let end : List ℕ = if max_cores % core_step == 0 then [] else max_cores ∷ [] in
        elim (step_loop fuel max_cores core_step start) [
          | none ↦ none
          | some counts ↦ some (first ++ (counts ++ end))
        ])
