-- ===== src/Benchmark/Execution/Tests.antt =====
-- A benchmark of two iterations on two sets of cores.
use btree_benchmarks.Prelude.{◌+◌, ◌*◌, ◌≡◌, refl, true, [], ◌∷◌, some, arith, length, map}
use btree_benchmarks.Benchmark.Workload.{fill, Workload, has_benchmark}
use btree_benchmarks.Benchmark.Execution.{Run, execute}
use btree_benchmarks.Benchmark.Execution.Schedule.{schedule}
use btree_benchmarks.Benchmark.Execution.Rounds.{before_iteration}
use btree_benchmarks.Benchmark.Execution.Ends.{execute-schedule}

abbrev workload : Workload
workload = record {
  phase = fill;
  fill_inserts = 5;
  inserts = 1;
  lookups = 2;
  updates = 0;
  fill_tuples = [];
  workload_tuples = [];
}

trees : map (λ (r : Run). r.allocated) (schedule true 2 2 0 0) ≡ 1 ∷ 1 ∷ 2 ∷ 2 ∷ 3 ∷ 3 ∷ 4 ∷ 4 ∷ []
unfolding schedule
trees = refl

execute-schedule_example :
    execute 2 2
      (3 + length (schedule (has_benchmark workload) 2 2 0 0))
      (before_iteration workload 0 0 0 [])
    ≡ some (before_iteration workload 0 2 (2 * 2) (schedule (has_benchmark workload) 2 2 0 0))
execute-schedule_example = execute-schedule 2 2 workload (omega arith) (omega arith) (omega arith) 3
