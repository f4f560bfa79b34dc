-- ===== src/Benchmark/Execution/Rounds.antt =====
-- The rounds of the loop of `execute` for one iteration, from the allocation of its tree on.
use btree_benchmarks.Prelude.{
  ℕ, suc, ◌+◌, ◌^◌, ◌<◌, ◌≡◌, ◌∙◌, subst, Bool, true, false, List, [], ◌∷◌, ◌++◌, Option, some,
  if◌then◌else◌, arith, lt→ltb, ltb, length, append_assoc,
}
use native.Mathlib.Numerals.{unary_clauses}
use btree_benchmarks.Blinktree.Node.{to_size}
use btree_benchmarks.Benchmark.Workload.{WorkloadPhase, fill, benchmark, Workload, has_benchmark}
use btree_benchmarks.Benchmark.Progress.{
  Progress, Status, next_run, next_core_configuration, finished, is_finished, set_phase, start_over,
  is_fill_phase,
}
use btree_benchmarks.Benchmark.Execution.{
  Run, Execution, new_tree, execute_iteration, is_finished_status, execute,
}
use btree_benchmarks.Benchmark.Execution.Schedule.{run, phases}

abbrev pub progress : WorkloadPhase → Workload → (iteration core_index cleaned : ℕ) → Progress
progress phase w i c cleaned = record {
  workload = record w { phase = phase };
  current_iteration = i;
  core_index = c;
  cleaned = cleaned;
}

abbrev pub last_phase : (has_benchmark : Bool) → WorkloadPhase
last_phase true = benchmark
last_phase false = fill

-- Before an iteration: all trees that were allocated are deleted.
abbrev pub before_iteration : Workload → (iteration core_index tree : ℕ) → List Run → Execution
before_iteration w i c tree runs = record {
  progress = progress fill w i c tree;
  allocated = tree;
  runs = runs;
}

-- What `execute` does with the answer of `is_finished`.
abbrev pub go_on :
    (iterations cores fuel allocated : ℕ) → List Run → Status × Progress → Option Execution
go_on iterations cores fuel allocated runs (status, p) =
    let after : Execution = record { progress = p; allocated = allocated; runs = runs } in
    if is_finished_status status then some after else execute iterations cores fuel after

to_size-small : (n : ℕ) → n < 2 ^ 16 → to_size n ≡ n
to_size-small n lt = omega (arith, lt)

ltb-same : (m n : ℕ) → m ≡ n → ltb m n ≡ false
ltb-same m n e = ground arith

module _ (iterations cores : ℕ) (w : Workload) (small : iterations < 2 ^ 16) where
  execute-fill :
      has_benchmark w ≡ true
      → (fuel i c tree : ℕ) (runs : List Run)
      → execute iterations cores (suc fuel) (before_iteration w i c tree runs)
        ≡ execute iterations cores fuel (record {
          progress = progress benchmark w i c tree;
          allocated = tree + 1;
          runs = runs ++ (run fill i c tree ∷ []);
        })
  unfolding execute new_tree execute_iteration is_finished is_finished_status is_fill_phase
      set_phase run has_benchmark
  execute-fill has fuel i c tree runs = simp has

  two_phases :
      (iterations cores fuel i c tree : ℕ) (runs : List Run)
      → execute iterations cores (suc fuel) (record {
        progress = progress benchmark w i c tree;
        allocated = tree + 1;
        runs = runs ++ (run fill i c tree ∷ []);
      })
        ≡ go_on iterations cores fuel
            (tree + 1)
            (runs ++ phases true i c tree)
            (is_finished iterations cores true (progress (last_phase true) w i c tree))
  unfolding execute new_tree execute_iteration is_finished_status is_fill_phase phases run
  two_phases iterations cores fuel i c tree runs =
      simp (append_assoc runs (run fill i c tree ∷ []) (run benchmark i c tree ∷ []))

  pub execute-phases :
      (b : Bool)
      → has_benchmark w ≡ b
      → (fuel i c tree : ℕ) (runs : List Run)
      → execute iterations cores
          (fuel + length (phases b i c tree))
          (before_iteration w i c tree runs)
        ≡ go_on iterations cores fuel
            (tree + 1)
            (runs ++ phases b i c tree)
            (is_finished iterations cores true (progress (last_phase b) w i c tree))
  unfolding execute new_tree execute_iteration is_finished_status is_fill_phase phases run
  execute-phases true has fuel i c tree runs =
      let two : suc (suc fuel) ≡ fuel + 2 = omega arith in
      subst
        (λ n.
          execute iterations cores n (before_iteration w i c tree runs)
          ≡ go_on iterations cores fuel (tree + 1) (runs ++ phases true i c tree)
              (is_finished iterations cores true (progress benchmark w i c tree)))
        two
        (execute-fill has (suc fuel) i c tree runs ∙ two_phases iterations cores fuel i c tree runs)
  execute-phases false has fuel i c tree runs = simp unary_clauses

  pub is_finished-next_run :
      (b : Bool)
      → has_benchmark w ≡ b
      → (i c tree : ℕ) → i + 1 < iterations
      → is_finished iterations cores true (progress (last_phase b) w i c tree)
        ≡ (next_run, progress fill w (i + 1) c (tree + 1))
  unfolding is_finished set_phase start_over is_fill_phase has_benchmark
  is_finished-next_run true has i c tree lt =
      simp (to_size-small (i + 1) (omega (arith, lt, small)), lt→ltb _ _ lt)
  is_finished-next_run false has i c tree lt =
      simp (has, to_size-small (i + 1) (omega (arith, lt, small)), lt→ltb _ _ lt)

  -- `++_core_config` moves on while sets of cores are left.
  pub is_finished-next_cores :
      (b : Bool)
      → has_benchmark w ≡ b
      → (i c tree : ℕ) → i + 1 ≡ iterations
      → c + 1 < cores
      → is_finished iterations cores true (progress (last_phase b) w i c tree)
        ≡ (next_core_configuration, progress fill w 0 (c + 1) (tree + 1))
  unfolding is_finished set_phase start_over is_fill_phase has_benchmark
  is_finished-next_cores true has i c tree eq lt = simp (
    to_size-small (i + 1) (omega (arith, eq, small)),
    ltb-same (i + 1) iterations eq,
    lt→ltb _ _ lt,
  )
  is_finished-next_cores false has i c tree eq lt = simp (
    has,
    to_size-small (i + 1) (omega (arith, eq, small)),
    ltb-same (i + 1) iterations eq,
    lt→ltb _ _ lt,
  )

  pub is_finished-end :
      (b : Bool)
      → has_benchmark w ≡ b
      → (i c tree : ℕ) → i + 1 ≡ iterations
      → c + 1 ≡ cores
      → is_finished iterations cores true (progress (last_phase b) w i c tree)
        ≡ (finished, progress fill w 0 (c + 1) (tree + 1))
  unfolding is_finished set_phase start_over is_fill_phase has_benchmark
  is_finished-end true has i c tree eq all = simp (
    to_size-small (i + 1) (omega (arith, eq, small)),
    ltb-same (i + 1) iterations eq,
    ltb-same (c + 1) cores all,
  )
  is_finished-end false has i c tree eq all = simp (
    has,
    to_size-small (i + 1) (omega (arith, eq, small)),
    ltb-same (i + 1) iterations eq,
    ltb-same (c + 1) cores all,
  )
