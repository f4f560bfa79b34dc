-- ===== src/Blinktree/ThreadBenchmark/Once.antt =====
-- Each item of the workload is executed once: src/indices/blinktree/thread/thread_benchmark.cpp.
use btree_benchmarks.Prelude.{ℕ, ◌+◌, ◌*◌, ◌^◌, ◌<◌, ◌≤◌, ◌≡◌, arith, ltb, if◌then◌else◌}
use btree_benchmarks.Prelude.Sums.{sum_of-all, part-le}
use btree_benchmarks.Blinktree.ThreadBenchmark.{ended, Workers, Reach}
use btree_benchmarks.Blinktree.ThreadBenchmark.Invariant.{Reach-Inv, owes}

-- When all of at least one threads have ended, each item of the workload was executed exactly once,
-- and nothing else was; the number of threads and the batch size, with the number of items,
-- must not bring the 64-bit counter round.
pub executed_once :
    {threads batch_size count_items : ℕ} {s : Workers}
    → 0 < threads
    → count_items + batch_size * (threads + 2) < 2 ^ 64
    → Reach threads batch_size count_items s
    → ((i : ℕ) → i < threads → s.workers i ≡ ended)
    → (item : ℕ) → s.iteration.executed item ≡ (if ltb item count_items then 1 else 0)
executed_once {threads} {s = s} some_thread fits reach done_ item =
    let inv = Reach-Inv fits reach in
    ground (
      arith,
      inv.once item,
      inv.all_taken 0,
      done_ 0 some_thread,
      sum_of-all (owes item) threads s.workers (λ i lt. ground (arith, done_ i lt)),
    )

-- At every moment no item has been executed more than once, nor an item that is not in the workload,
-- and an item that a thread has in its batch still has not been executed.
pub executed_at_most_once :
    {threads batch_size count_items : ℕ} {s : Workers}
    → count_items + batch_size * (threads + 2) < 2 ^ 64
    → Reach threads batch_size count_items s
    → (item i : ℕ) → i < threads
    → s.iteration.executed item + owes item (s.workers i) ≤ (if ltb item count_items then 1 else 0)
executed_at_most_once {threads} {s = s} fits reach item i lt =
    ground (arith, (Reach-Inv fits reach).once item, part-le (owes item) threads s.workers i lt)
