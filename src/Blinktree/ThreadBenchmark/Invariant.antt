-- ===== src/Blinktree/ThreadBenchmark/Invariant.antt =====
-- What holds while the threads of src/indices/blinktree/thread/thread_benchmark.cpp run: each item
-- behind the counter has been executed or belongs to the batch of one thread.
use native.Mathlib.Nat.{mul-le-mul_left}
use btree_benchmarks.Prelude.{
  ℕ, ◌+◌, ◌*◌, ◌%◌, ◌^◌, ◌<◌, ◌≤◌, ◌≡◌, refl, ◌&&◌, arith, ltb, leb, if◌then◌else◌,
}
use btree_benchmarks.Prelude.Memory.{update}
use btree_benchmarks.Prelude.Sums.{sum_of, sum_of-update, sum_of-all, sum_of-le}
use btree_benchmarks.Blinktree.ThreadBenchmark.{
  Iteration, Worker, asking, executing, ended, Move, batch, no_batch, execute, batch_end, Workers,
  start_iteration, Reach, at_first, later,
}

-- 1, if the thread still has to execute `item`.
abbrev pub owes : (item : ℕ) → Worker → ℕ
owes item (executing current_pointer items_to_execute i) =
    if leb (current_pointer + i) item && ltb item (current_pointer + items_to_execute) then 1 else 0
owes item w = 0

abbrev pub has_ended : Worker → ℕ
has_ended ended = 1
has_ended w = 0

-- What must have been handed out of `item`.
abbrev pub taken : (count_items pointer item : ℕ) → ℕ
taken count_items pointer item = if ltb item count_items && ltb item pointer then 1 else 0

pub record Inv (threads batch_size count_items : ℕ) (m : Iteration) (workers : ℕ → Worker)
    : Type 0 where
  pub once :
      (item : ℕ)
      → m.executed item + sum_of (owes item) threads workers
        ≡ taken count_items m.workload_pointer item
  pub bounded :
      m.workload_pointer ≤ count_items + batch_size * (1 + sum_of has_ended threads workers)
  pub all_taken : (i : ℕ) → has_ended (workers i) ≡ 1 → count_items ≤ m.workload_pointer

has_ended-le : (w : Worker) → has_ended w ≤ 1
has_ended-le asking = omega arith
has_ended-le w = omega arith

times-le : (a b c : ℕ) → b ≤ c → a * b ≤ a * c
times-le a b c h = mul-le-mul_left a h

module _ {threads batch_size count_items : ℕ}
    (fits : count_items + batch_size * (threads + 2) < 2 ^ 64) {m : Iteration}
    {workers : ℕ → Worker} (inv : Inv threads batch_size count_items m workers) (i : ℕ)
    (lt : i < threads) where
  open inv use {once, bounded, all_taken}

  no_wrap : (m.workload_pointer + batch_size) % 2 ^ 64 ≡ m.workload_pointer + batch_size
  no_wrap = ground (
    arith,
    fits,
    bounded,
    times-le batch_size (sum_of has_ended threads workers + 2) (threads + 2)
        (omega (arith, sum_of-le has_ended has_ended-le threads workers)),
  )

  Move-once :
      {w w' : Worker} {m' : Iteration}
      → workers i ≡ w
      → Move batch_size count_items m w m' w'
      → (item : ℕ)
      → m'.executed item + sum_of (owes item) threads (update workers i w')
        ≡ taken count_items m'.workload_pointer item
  Move-once {w' = w'} here (batch more) item =
      ground
        (arith, here, more, no_wrap, once item, sum_of-update (owes item) threads workers i w' lt)
  Move-once {w' = w'} here (no_batch less) item =
      ground
        (arith, here, less, no_wrap, once item, sum_of-update (owes item) threads workers i w' lt)
  Move-once {w' = w'} here (execute more) item =
      ground (arith, here, more, once item, sum_of-update (owes item) threads workers i w' lt)
  Move-once {w' = w'} here (batch_end less) item =
      ground (arith, here, less, once item, sum_of-update (owes item) threads workers i w' lt)

  Move-bounded :
      {w w' : Worker} {m' : Iteration}
      → workers i ≡ w
      → Move batch_size count_items m w m' w'
      → m'.workload_pointer
        ≤ count_items + batch_size * (1 + sum_of has_ended threads (update workers i w'))
  Move-bounded {w' = w'} here (batch more) = ground (
    arith,
    here,
    more,
    no_wrap,
    sum_of-update has_ended threads workers i w' lt,
    times-le batch_size 1 (1 + sum_of has_ended threads (update workers i w')) (omega arith),
  )
  Move-bounded {w' = w'} here (no_batch less) = ground (
    arith,
    here,
    no_wrap,
    bounded,
    sum_of-update has_ended threads workers i w' lt,
    times-le batch_size (2 + sum_of has_ended threads workers)
        (1 + sum_of has_ended threads (update workers i w')),
  )
  Move-bounded {w' = w'} here mv = ground (
    arith,
    here,
    bounded,
    sum_of-update has_ended threads workers i w' lt,
    times-le batch_size (1 + sum_of has_ended threads workers)
        (1 + sum_of has_ended threads (update workers i w')),
  )

  Move-all_taken :
      {w w' : Worker} {m' : Iteration}
      → workers i ≡ w
      → Move batch_size count_items m w m' w'
      → (j : ℕ) → has_ended (update workers i w' j) ≡ 1
      → count_items ≤ m'.workload_pointer
  Move-all_taken here (no_batch less) j = ground (arith, no_wrap, less)
  Move-all_taken here mv j = ground (arith, here, no_wrap, all_taken j)

  pub Move-Inv :
      {w' : Worker} {m' : Iteration}
      → Move batch_size count_items m (workers i) m' w'
      → Inv threads batch_size count_items m' (update workers i w')
  Move-Inv mv = record {
    once = Move-once refl mv;
    bounded = Move-bounded refl mv;
    all_taken = Move-all_taken refl mv;
  }

start-Inv :
    (threads batch_size count_items : ℕ)
    → Inv threads batch_size count_items start_iteration.iteration start_iteration.workers
start-Inv threads batch_size count_items = record {
  once = λ item. ground (arith, sum_of-all (owes item) threads (λ _. asking) (λ i lt. refl));
  bounded = omega arith;
  all_taken = λ i. cc;
}

pub Reach-Inv :
    {threads batch_size count_items : ℕ} {s : Workers}
    → count_items + batch_size * (threads + 2) < 2 ^ 64
    → Reach threads batch_size count_items s
    → Inv threads batch_size count_items s.iteration s.workers
Reach-Inv {threads} {batch_size} {count_items} fits at_first =
    start-Inv threads batch_size count_items
Reach-Inv fits (later {i = i} r lt mv) = Move-Inv fits (Reach-Inv fits r) i lt mv
