-- ===== src/Util/CoreConfiguration/Tests.antt =====
-- The counts of cores from 1 to 5 cores in steps of 2.
use btree_benchmarks.Prelude.{◌≡◌, refl, [], ◌∷◌, some}
use btree_benchmarks.Util.CoreConfiguration.{core_counts}

core_counts-five : core_counts 10 1 5 2 ≡ some (1 ∷ 2 ∷ 4 ∷ 5 ∷ [])
unfolding core_counts
core_counts-five = refl
