-- ===== src/Benchmark/Execution/Ends.antt =====
-- `execute` against the schedule of its runs.
use btree_benchmarks.Prelude.{
  ℕ, zero, suc, ◌+◌, ◌*◌, ◌^◌, ◌<◌, ◌≡◌, refl, sym, ap, ◌∙◌, subst, Bool, true, false, List, [],
  ◌++◌, some, arith, length, length-append, append_assoc, append-nil,
}
use btree_benchmarks.Benchmark.Workload.{fill, Workload, has_benchmark}
use btree_benchmarks.Benchmark.Progress.{
  Status, Progress, next_run, next_core_configuration, is_finished,
}
use btree_benchmarks.Benchmark.Execution.{Run, is_finished_status, execute}
use btree_benchmarks.Benchmark.Execution.Schedule.{phases, iteration_runs, schedule}
use btree_benchmarks.Benchmark.Execution.Rounds.{
  progress, last_phase, before_iteration, go_on, execute-phases, is_finished-next_run,
  is_finished-next_cores, is_finished-end,
}

module _ (iterations cores : ℕ) (w : Workload) (small : iterations < 2 ^ 16) (b : Bool)
    (has : has_benchmark w ≡ b) where
  -- The rounds of an iteration leave the fuel for the runs `rest` after it.
  execute-rest :
      (fuel i c tree : ℕ) (runs rest : List Run) {answer : Status × Progress}
      → is_finished iterations cores true (progress (last_phase b) w i c tree) ≡ answer
      → execute iterations cores
          (fuel + length (phases b i c tree ++ rest))
          (before_iteration w i c tree runs)
        ≡ go_on iterations cores (fuel + length rest) (tree + 1) (runs ++ phases b i c tree) answer
  execute-rest fuel i c tree runs rest {answer} eq =
      let fuel_eq : fuel + length (phases b i c tree ++ rest)
          ≡ (fuel + length rest) + length (phases b i c tree) =
        omega (arith, length-append (phases b i c tree) rest) in
      rw fuel_eq (
        execute-phases iterations cores w small b has (fuel + length rest) i c tree runs
        ∙ ap (go_on iterations cores (fuel + length rest) (tree + 1) (runs ++ phases b i c tree))
            eq)

  -- With fuel for the runs `rest`, the loop goes through them and ends without a tree left.
  abbrev IsRest : (fuel i c tree total : ℕ) (runs rest : List Run) → Type 0
  IsRest fuel i c tree total runs rest =
      execute iterations cores (fuel + length rest) (before_iteration w i c tree runs)
      ≡ some (before_iteration w 0 cores total (runs ++ rest))

  another-IsRest :
      (fuel i c tree total i' c' : ℕ) (runs rest : List Run) (status : Status)
      → is_finished_status status ≡ false
      → is_finished iterations cores true (progress (last_phase b) w i c tree)
        ≡ (status, progress fill w i' c' (tree + 1))
      → IsRest fuel i' c' (tree + 1) total (runs ++ phases b i c tree) rest
      → IsRest fuel i c tree total runs (phases b i c tree ++ rest)
  another-IsRest fuel i c tree total i' c' runs rest status more eq ih =
      execute-rest fuel i c tree runs rest eq
      ∙ simp (more, sym (append_assoc runs (phases b i c tree) rest)) ih

  last-IsRest :
      (fuel i c tree total : ℕ) (runs : List Run)
      → i + 1 ≡ iterations
      → c + 1 ≡ cores
      → tree + 1 ≡ total
      → IsRest fuel i c tree total runs (phases b i c tree ++ [])
  unfolding is_finished_status
  last-IsRest fuel i c tree total runs ei ec et =
      execute-rest fuel i c tree runs []
        (is_finished-end iterations cores w small b has i c tree ei ec)
      ∙ rw (ec, et, append-nil (phases b i c tree)) refl

  schedule-IsRest :
      (n a fuel i c tree total : ℕ) (runs : List Run)
      → i + suc a ≡ iterations
      → c + suc n ≡ cores
      → tree + suc a + n * iterations ≡ total
      → IsRest fuel i c tree total runs
          (iteration_runs b (suc a) i c tree ++ schedule b iterations n (c + 1) (tree + suc a))
  unfolding iteration_runs schedule is_finished_status
  schedule-IsRest zero zero fuel i c tree total runs ei ec et =
      rw (append_assoc (phases b i c tree) [] [])
        (last-IsRest fuel i c tree total runs ei ec (omega (arith, et)))
  schedule-IsRest (suc n) zero fuel i c tree total runs ei ec et =
      let from_one : suc i ≡ iterations = omega (arith, ei) in
      let all : 0 + suc i ≡ iterations = omega (arith, ei) in
      let times : suc n * iterations ≡ n * iterations + iterations = omega arith in
      rw (append_assoc (phases b i c tree) [] (schedule b iterations (suc n) (c + 1) (tree + 1))) (
        another-IsRest fuel i c tree total 0 (c + 1) runs _ next_core_configuration refl
          (is_finished-next_cores iterations cores w small b has i c tree ei (omega (arith, ec)))
          (subst
            (λ k. IsRest fuel 0 (c + 1) (tree + 1) total (runs ++ phases b i c tree) (
              iteration_runs b k 0 (c + 1) (tree + 1)
              ++ schedule b iterations n (c + 1 + 1) (tree + 1 + k)))
            from_one
            (schedule-IsRest n i fuel 0 (c + 1) (tree + 1) total (runs ++ phases b i c tree) all
              (omega (arith, ec)) (omega (arith, et, times, ei)))))
  schedule-IsRest n (suc a) fuel i c tree total runs ei ec et =
      let same : tree + 1 + suc a ≡ tree + suc (suc a) = omega arith in
      rw
        (append_assoc (phases b i c tree) (iteration_runs b (suc a) (i + 1) c (tree + 1))
          (schedule b iterations n (c + 1) (tree + suc (suc a))))
        (another-IsRest fuel i c tree total (i + 1) c runs _ next_run refl
          (is_finished-next_run iterations cores w small b has i c tree (omega (arith, ei)))
          (subst
            (λ k.
              IsRest fuel (i + 1) c (tree + 1) total (runs ++ phases b i c tree) (
                iteration_runs b (suc a) (i + 1) c (tree + 1) ++ schedule b iterations n (c + 1) k))
            same
            (schedule-IsRest n a fuel (i + 1) c (tree + 1) total (runs ++ phases b i c tree)
              (omega (arith, ei)) ec (omega (arith, et)))))

-- The loop of `execute`, started before the first iteration of a benchmark with at least one
-- iteration and one set of cores, ends once its fuel is the number of runs of the schedule or more.
-- It has then made the runs of the schedule, in this order: on each set of cores, in each
-- iteration, the fill phase and, when the workload has operations for it, the benchmark phase. A
-- run finds one tree allocated more than deleted, the two runs of an iteration the same one, and at
-- the end every tree is deleted.
pub execute-schedule :
    (iterations cores : ℕ) (w : Workload)
    → 0 < iterations
    → iterations < 2 ^ 16
    → 0 < cores
    → (fuel : ℕ)
    → execute iterations cores
        (fuel + length (schedule (has_benchmark w) iterations cores 0 0))
        (before_iteration w 0 0 0 [])
      ≡ some (
          before_iteration w 0 cores
            (cores * iterations)
            (schedule (has_benchmark w) iterations cores 0 0))
unfolding schedule
execute-schedule zero cores w some_iterations small some_cores fuel =
    absurd (omega (arith, some_iterations))
execute-schedule (suc k) zero w some_iterations small some_cores fuel =
    absurd (omega (arith, some_cores))
execute-schedule (suc k) (suc m) w some_iterations small some_cores fuel =
    let one : 0 + suc k ≡ suc k = omega arith in
    let all : 0 + suc m ≡ suc m = omega arith in
    let times : 0 + suc k + m * suc k ≡ suc m * suc k = omega arith in
    schedule-IsRest (suc k) (suc m) w small (has_benchmark w) refl m k fuel 0 0 0 (suc m * suc k) []
      one all times
