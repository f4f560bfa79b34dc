-- ===== src/Blinktree/OptimisticLock/Tests.antt =====
-- Runs of two threads on one node with an optimistic lock.
use btree_benchmarks.Prelude.{ℕ, ◌≡◌, refl, [], ◌∷◌, arith}
use btree_benchmarks.Blinktree.OptimisticLock.Threads.{
  Threads, Move, pick, start, Steps, none_yet, later,
}
use btree_benchmarks.Blinktree.OptimisticLock.Safety.{Agrees, valid_reads, one_owner}

abbrev empty_cells : ℕ → ℕ
empty_cells _ = 0

abbrev Run : Type 0
Run = (s : Threads) × (n : ℕ) × Steps (start empty_cells) n s

-- Thread 1 writes 5 to cell 7.
abbrev written : Run
written = (
  _,
  _,
  later
      (later (later (later none_yet (pick 1 (Move.try_lock refl))) (pick 1 (Move.exchange refl)))
        (pick 1 (Move.store 7 5)))
      (pick 1 Move.release),
)

-- The same before it unlocks.
abbrev writing : Run
writing = (
  _,
  _,
  later (later (later none_yet (pick 1 (Move.try_lock refl))) (pick 1 (Move.exchange refl)))
      (pick 1 (Move.store 7 5)),
)

-- Thread 0 reads the cell, while thread 1 is about to lock again.
valid_reads_example : Agrees (λ a. written.0.node.cells a) (record { cell = 7; content = 5 } ∷ [])
valid_reads_example =
    valid_reads {t = record { node = written.0.node; pc = _ }} {version = 8}
      {seen = record { cell = 7; content = 5 } ∷ []} written.2 0 refl
      (later (later (later none_yet (pick 0 (Move.read_valid refl))) (pick 1 (Move.try_lock refl)))
        (pick 0 (Move.load 7)))
      (omega arith) refl refl

one_owner_example : ◌≡◌ {A = ℕ} 1 1
one_owner_example = one_owner writing.2 1 1 refl refl
