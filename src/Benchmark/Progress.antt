-- ===== src/Benchmark/Progress.antt =====
-- `AbstractBenchmark::is_finished` of src/benchmark/abstract_benchmark.cpp: which run comes next.
-- `iterations` is `_config.iterations()`, `cores` the number of core sets of `_core_config`.
use btree_benchmarks.Prelude.{
  ℕ, suc, ◌+◌, ◌-◌, ◌*◌, ◌^◌, ◌<◌, ◌≡◌, ◌≢◌, ◌⊎◌, inl, inr, refl, Bool, true, false, ◌&&◌, ltb,
  arith, if◌then◌else◌, Bool-cases,
}
use btree_benchmarks.Blinktree.Node.{to_size}
use btree_benchmarks.Benchmark.Workload.{WorkloadPhase, fill, benchmark, Workload, has_benchmark}

pub data Status : Type 0 where
  next_phase : Status
  next_run : Status
  next_core_configuration : Status
  finished : Status

-- `core_index` is `_core_config._index`; `cleaned` counts the calls of the virtual `clean_tree`.
pub record Progress : Type 0 where
  pub workload : Workload
  pub current_iteration : ℕ
  pub core_index : ℕ
  pub cleaned : ℕ

unfoldable pub is_fill_phase : Progress → Bool
is_fill_phase p = elim p.workload.phase [ fill ↦ true | benchmark ↦ false ]

unfoldable pub set_phase : WorkloadPhase → Progress → Progress
set_phase phase p = record p { workload = record p.workload { phase = phase } }

-- `if (use_fill_phase) { clean_tree(); phase(Fill); }`
unfoldable pub start_over : (use_fill_phase : Bool) → Progress → Progress
unfolding set_phase
start_over use_fill_phase p =
    if use_fill_phase then set_phase fill (record p { cleaned = p.cleaned + 1 }) else p

unfoldable pub is_finished :
    (iterations cores : ℕ) (use_fill_phase : Bool) → Progress → Status × Progress
unfolding is_fill_phase set_phase start_over
is_finished iterations cores use_fill_phase p =
    let p₁ : Progress = record p { current_iteration = to_size (p.current_iteration + 1) } in
    let p₂ : Progress = record p₁ { core_index = p.core_index + 1 } in
    if is_fill_phase p && has_benchmark p.workload
    then (next_phase, set_phase benchmark p)
    else if ltb p₁.current_iteration iterations
    then (next_run, start_over use_fill_phase p₁)
    else if ltb p₂.core_index cores
    then (next_core_configuration, start_over use_fill_phase (record p₂ { current_iteration = 0 }))
    else (finished, start_over use_fill_phase (record p₂ { current_iteration = 0 }))

pub record IsRunning (iterations cores : ℕ) (p : Progress) : Type 0 where
  pub iteration_left : p.current_iteration < iterations
  pub small : iterations < 2 ^ 16
  pub cores_left : p.core_index < cores

-- How many runs are left after the one that just ended.
unfoldable pub remaining : (iterations cores : ℕ) (use_fill_phase : Bool) → Progress → ℕ
unfolding is_fill_phase has_benchmark
remaining iterations cores use_fill_phase p =
    (if is_fill_phase p && has_benchmark p.workload then 1 else 0)
    + ((cores - 1 - p.core_index) * iterations + (iterations - 1 - p.current_iteration))
      * (if use_fill_phase && has_benchmark p.workload then 2 else 1)

times_suc : (k n : ℕ) → suc k * n ≡ k * n + n
times_suc k n = omega arith

phase-cases : (x : WorkloadPhase) → (x ≡ fill) ⊎ (x ≡ benchmark)
phase-cases fill = inl refl
phase-cases benchmark = inr refl

-- For fewer than 2^16 iterations, with an iteration and a set of cores left: while runs are left,
-- `is_finished` does not answer finished, leaves one run fewer and an iteration and a set of cores
-- to go on with; when none is left, it answers finished.
pub is_finished-remaining :
    (iterations cores : ℕ) (use_fill_phase : Bool) (p : Progress)
    → IsRunning iterations cores p
    → (((is_finished iterations cores use_fill_phase p).0 ≡ finished)
        × (remaining iterations cores use_fill_phase p ≡ 0))
      ⊎ (((is_finished iterations cores use_fill_phase p).0 ≢ finished)
          × (remaining iterations cores use_fill_phase p
              ≡ suc (
                  remaining iterations cores use_fill_phase
                    (is_finished iterations cores use_fill_phase p).1))
          × IsRunning iterations cores (is_finished iterations cores use_fill_phase p).1)
unfolding is_finished remaining is_fill_phase set_phase start_over has_benchmark
is_finished-remaining iterations cores true p running =
    let again = times_suc (cores - 2 - p.core_index) iterations in
    elim (phase-cases p.workload.phase) [
      | inl e ↦
          elim (Bool-cases (ltb 0 (p.workload.lookups + p.workload.inserts + p.workload.updates))) [
            | inl h ↦
                rw (e, h)
                  (ground (arith, again, running.iteration_left, running.small, running.cores_left))
            | inr h ↦
                rw (e, h)
                  (ground (arith, again, running.iteration_left, running.small, running.cores_left))
          ]
      | inr e ↦
          elim (Bool-cases (ltb 0 (p.workload.lookups + p.workload.inserts + p.workload.updates))) [
            | inl h ↦
                rw (e, h)
                  (ground (arith, again, running.iteration_left, running.small, running.cores_left))
            | inr h ↦
                rw (e, h)
                  (ground (arith, again, running.iteration_left, running.small, running.cores_left))
          ]
    ]
is_finished-remaining iterations cores false p running =
    let again = times_suc (cores - 2 - p.core_index) iterations in
    elim (phase-cases p.workload.phase) [
      | inl e ↦
          elim (Bool-cases (ltb 0 (p.workload.lookups + p.workload.inserts + p.workload.updates))) [
            | inl h ↦
                rw (e, h)
                  (ground (arith, again, running.iteration_left, running.small, running.cores_left))
            | inr h ↦
                rw (e, h)
                  (ground (arith, again, running.iteration_left, running.small, running.cores_left))
          ]
      | inr e ↦
          rw e (ground (arith, again, running.iteration_left, running.small, running.cores_left))
    ]
