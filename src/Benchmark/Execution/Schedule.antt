-- ===== src/Benchmark/Execution/Schedule.antt =====
-- The runs of a benchmark as three nested loops: over the sets of cores, the iterations and the
-- phases. A tree is allocated for the runs of each iteration; `tree` counts those deleted before.
use btree_benchmarks.Prelude.{ℕ, zero, suc, ◌+◌, Bool, true, false, List, [], ◌∷◌, ◌++◌}
use btree_benchmarks.Benchmark.Workload.{WorkloadPhase, fill, benchmark}
use btree_benchmarks.Benchmark.Execution.{Run}

unfoldable pub run : WorkloadPhase → (iteration core_index tree : ℕ) → Run
run phase iteration core_index tree = record {
  phase = phase;
  iteration = iteration;
  core_index = core_index;
  allocated = tree + 1;
  deleted = tree;
}

unfoldable pub phases : (has_benchmark : Bool) (iteration core_index tree : ℕ) → List Run
unfolding run
phases true i c tree = run fill i c tree ∷ run benchmark i c tree ∷ []
phases false i c tree = run fill i c tree ∷ []

-- `n` iterations from iteration `i` on
unfoldable pub iteration_runs : (has_benchmark : Bool) (n i core_index tree : ℕ) → List Run
unfolding phases
iteration_runs b zero i c tree = []
iteration_runs b (suc n) i c tree = phases b i c tree ++ iteration_runs b n (i + 1) c (tree + 1)

-- `iterations` iterations on each of `n` sets of cores from the set `c` on
unfoldable pub schedule : (has_benchmark : Bool) (iterations n core_index tree : ℕ) → List Run
unfolding iteration_runs
schedule b iterations zero c tree = []
schedule b iterations (suc n) c tree =
    iteration_runs b iterations 0 c tree ++ schedule b iterations n (c + 1) (tree + iterations)
