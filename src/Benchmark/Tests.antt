-- ===== src/Benchmark/Tests.antt =====
-- The theorems about the benchmark driver at a file of three lines and a benchmark of two core sets.
use btree_benchmarks.Prelude.{ℕ, suc, ◌+◌, ◌≡◌, ◌≢◌, ◌⊎◌, refl, true, List, [], ◌∷◌, arith, length}
use btree_benchmarks.Blinktree.Node.{Key, Value}
use btree_benchmarks.Benchmark.Workload.{
  fill, OperationName, insert_name, read_name, other_name, Parsed, Workload, load,
  count_benchmark_workload,
}
use btree_benchmarks.Benchmark.Counts.{
  count_inserts, count_lookups, count_updates, IsCounted, load-count,
}
use btree_benchmarks.Benchmark.Progress.{
  finished, Progress, is_finished, remaining, IsRunning, is_finished-remaining,
}

abbrev rand : ℕ → Value
rand i = i + 3

abbrev file : List (OperationName × Key)
file = (insert_name, 5) ∷ (other_name, 6) ∷ (read_name, 5) ∷ []

abbrev nothing : Parsed
nothing = record {
  tuples = [];
  insert_counter = 0;
  lookup_counter = 0;
  update_counter = 0;
  calls = 0;
}

nothing-IsCounted : IsCounted nothing
unfolding count_inserts count_lookups count_updates
nothing-IsCounted = record {
  inserts_counted = refl;
  lookups_counted = refl;
  updates_counted = refl;
}

abbrev empty : Workload
empty = record {
  phase = fill;
  fill_inserts = 0;
  inserts = 0;
  lookups = 0;
  updates = 0;
  fill_tuples = [];
  workload_tuples = [];
}

load-count_example :
    (count_benchmark_workload (load rand file file empty)
      ≡ length (load rand file file empty).workload_tuples)
    × ((load rand file file empty).fill_inserts
        ≡ count_inserts (load rand file file empty).fill_tuples)
load-count_example = load-count rand file file empty refl refl refl refl refl refl

abbrev start : Progress
start = record {
  workload = record empty { inserts = 1; lookups = 1 };
  current_iteration = 0;
  core_index = 0;
  cleaned = 0;
}

start-IsRunning : IsRunning 3 2 start
start-IsRunning = record {
  iteration_left = omega arith;
  small = omega arith;
  cores_left = omega arith;
}

remaining-start : remaining 3 2 true start ≡ 11
unfolding remaining
remaining-start = refl

is_finished-remaining_example :
    (((is_finished 3 2 true start).0 ≡ finished) × (remaining 3 2 true start ≡ 0))
    ⊎ (((is_finished 3 2 true start).0 ≢ finished)
        × (remaining 3 2 true start ≡ suc (remaining 3 2 true (is_finished 3 2 true start).1))
        × IsRunning 3 2 (is_finished 3 2 true start).1)
is_finished-remaining_example = is_finished-remaining 3 2 true start start-IsRunning
