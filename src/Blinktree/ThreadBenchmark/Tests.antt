-- ===== src/Blinktree/ThreadBenchmark/Tests.antt =====
-- Two threads with three items in batches of two.
use btree_benchmarks.Prelude.{ℕ, zero, suc, ◌<◌, ◌≡◌, refl, arith}
use btree_benchmarks.Blinktree.ThreadBenchmark.{
  Iteration, Worker, ended, Move, Workers, Reach, at_first, later,
}
use btree_benchmarks.Blinktree.ThreadBenchmark.Once.{executed_once}

abbrev Run : Type 0
Run = (s : Workers) × Reach 2 2 3 s

abbrev step :
    (r : Run) (i : ℕ)
    → i < 2
    → {m : Iteration} {w : Worker} → Move 2 3 r.0.iteration (r.0.workers i) m w
    → Run
step (s, reach) i lt mv = (_, later reach lt mv)

-- Both threads have taken a batch, and thread 1 has executed its only item.
abbrev halfway : Run
halfway =
    step
      (step (step (_, at_first) 0 (omega arith) (Move.batch (omega arith))) 1 (omega arith)
        (Move.batch (omega arith)))
      1 (omega arith) (Move.execute (omega arith))

abbrev executed_all : Run
executed_all =
    step
      (step (step halfway 0 (omega arith) (Move.execute (omega arith))) 0 (omega arith)
        (Move.execute (omega arith)))
      0 (omega arith) (Move.batch_end (omega arith))

abbrev all_ended : Run
all_ended =
    step
      (step (step executed_all 0 (omega arith) (Move.no_batch (omega arith))) 1 (omega arith)
        (Move.batch_end (omega arith)))
      1 (omega arith) (Move.no_batch (omega arith))

everybody_ended : (i : ℕ) → i < 2 → all_ended.0.workers i ≡ ended
everybody_ended zero lt = refl
everybody_ended (suc zero) lt = refl
everybody_ended (suc (suc i)) lt = absurd (omega (arith, lt))

executed_once_example : all_ended.0.iteration.executed 2 ≡ 1
executed_once_example = executed_once (omega arith) (omega arith) all_ended.1 everybody_ended 2
