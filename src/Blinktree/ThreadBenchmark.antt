-- ===== src/Blinktree/ThreadBenchmark.antt =====
-- `ThreadBenchmark::execute_iteration` of src/indices/blinktree/thread/thread_benchmark.cpp: worker
-- threads that take the items of the workload in batches from a shared counter.
pub mod Invariant
pub mod Once
mod Tests
use btree_benchmarks.Prelude.{ℕ, suc, ◌+◌, ◌-◌, ◌%◌, ◌^◌, ◌<◌, ◌≤◌, min}
use btree_benchmarks.Prelude.Memory.{update}

-- `workload_pointer`, and how often each item of the workload was executed on the tree. What an
-- insert, an update or a find does to the tree is the tree's.
pub record Iteration : Type 0 where
  pub workload_pointer : ℕ
  pub executed : ℕ → ℕ

-- Where a thread stands.
pub data Worker : Type 0 where
  asking : Worker  -- at the head of the `while` loop
  executing : (current_pointer items_to_execute i : ℕ) → Worker  -- at the head of the `for` loop
  ended : Worker

-- `workload_pointer.fetch_add(batch_size)`, on a 64-bit counter
abbrev pub take_batch : (batch_size : ℕ) → Iteration → Iteration
take_batch batch_size s = record s { workload_pointer = (s.workload_pointer + batch_size) % 2 ^ 64 }

abbrev pub execute_item : (item : ℕ) → Iteration → Iteration
execute_item item s = record s { executed = update s.executed item (s.executed item + 1) }

-- One step of one thread, with `count_items` items: what `count_current_phase` returns, which in the
-- fill phase is the number of inserts and may be less than the number of tuples.
pub data Move (batch_size count_items : ℕ) (s : Iteration)
    : Worker → Iteration → Worker → Type 0 where
  batch :
      s.workload_pointer < count_items
      → Move batch_size count_items s asking
          (take_batch batch_size s)
          (executing s.workload_pointer (min batch_size (count_items - s.workload_pointer)) 0)
  no_batch :
      count_items ≤ s.workload_pointer
      → Move batch_size count_items s asking (take_batch batch_size s) ended
  execute :
      {current_pointer items_to_execute i : ℕ}
      → i < items_to_execute
      → Move batch_size count_items s
          (executing current_pointer items_to_execute i)
          (execute_item (current_pointer + i) s)
          (executing current_pointer items_to_execute (suc i))
  batch_end :
      {current_pointer items_to_execute i : ℕ}
      → items_to_execute ≤ i
      → Move batch_size count_items s (executing current_pointer items_to_execute i) s asking

pub record Workers : Type 0 where
  pub iteration : Iteration
  pub workers : ℕ → Worker

abbrev pub start_iteration : Workers
start_iteration = record {
  iteration = record { workload_pointer = 0; executed = λ _. 0 };
  workers = λ _. asking;
}

-- What `threads` threads can come to.
pub data Reach (threads batch_size count_items : ℕ) : Workers → Type 0 where
  at_first : Reach threads batch_size count_items start_iteration
  later :
      {s : Workers} {i : ℕ} {m : Iteration} {w : Worker}
      → Reach threads batch_size count_items s
      → i < threads
      → Move batch_size count_items s.iteration (s.workers i) m w
      → Reach threads batch_size count_items
          (record { iteration = m; workers = update s.workers i w })
