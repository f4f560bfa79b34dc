-- ===== src/Benchmark/Execution.antt =====
-- `ThreadBenchmark::execute` of src/indices/blinktree/thread/thread_benchmark.cpp, in the build
-- without epochs: the loop that runs the phases of a benchmark. What a run does to the tree is
-- Blinktree.ThreadBenchmark's; the timers and the output have no effect on the loop.
pub mod Schedule
pub mod Rounds
pub mod Ends
mod Tests
use btree_benchmarks.Prelude.{
  ℕ, zero, suc, ◌+◌, Bool, true, false, List, [], ◌∷◌, ◌++◌, Option, none, some, if◌then◌else◌,
}
use btree_benchmarks.Benchmark.Workload.{WorkloadPhase}
use btree_benchmarks.Benchmark.Progress.{
  Progress, Status, next_phase, next_run, next_core_configuration, finished, is_finished,
  is_fill_phase,
}

-- One call of `execute_iteration`: its phase, iteration and set of cores, and how many trees had
-- been allocated and how many deleted by then.
pub record Run : Type 0 where
  pub phase : WorkloadPhase
  pub iteration : ℕ
  pub core_index : ℕ
  pub allocated : ℕ
  pub deleted : ℕ

-- `_tree` points to the tree that was allocated last; `clean_tree`, which `Progress` counts,
-- deletes it.
pub record Execution : Type 0 where
  pub progress : Progress
  pub allocated : ℕ
  pub runs : List Run

-- `if (is_fill_phase()) _tree = new ThreadTree();`
unfoldable pub new_tree : Execution → Execution
unfolding is_fill_phase
new_tree e = if is_fill_phase e.progress then record e { allocated = e.allocated + 1 } else e

unfoldable pub execute_iteration : Execution → Execution
execute_iteration e = record e {
  runs =
      e.runs
      ++ (record {
        phase = e.progress.workload.phase;
        iteration = e.progress.current_iteration;
        core_index = e.progress.core_index;
        allocated = e.allocated;
        deleted = e.progress.cleaned;
      }
          ∷ []);
}

-- `FinishedRunStatus::operator bool`
unfoldable pub is_finished_status : Status → Bool
is_finished_status next_phase = false
is_finished_status next_run = false
is_finished_status next_core_configuration = false
is_finished_status finished = true

-- The fuel bounds the rounds of the `do` loop.
unfoldable pub execute : (iterations cores fuel : ℕ) → Execution → Option Execution
execute iterations cores zero e = none
execute iterations cores (suc fuel) e =
    let ran = execute_iteration (new_tree e) in
    let answer = is_finished iterations cores true ran.progress in
    let after : Execution = record ran { progress = answer.1 } in
    let rest = execute iterations cores fuel after in
    if is_finished_status answer.0 then some after else rest
