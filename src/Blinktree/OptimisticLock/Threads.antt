-- ===== src/Blinktree/OptimisticLock/Threads.antt =====
-- Threads that read and write the cells of one node under its `OptimisticLock`
-- (src/indices/blinktree/optimistic_lock.h), in any order. All accesses to the version are
-- sequentially consistent in the source; the cells are taken to be so too.
use btree_benchmarks.Prelude.{ℕ, suc, ◌≡◌, List, [], ◌∷◌, true, false}
use btree_benchmarks.Prelude.Memory.{update}
use btree_benchmarks.Blinktree.OptimisticLock.{
  initial_version, is_locked, is_valid, locked_from, unlock,
}

-- The node: the version of its lock, and its contents cell by cell.
pub record Guarded : Type 0 where
  pub version : ℕ
  pub cells : ℕ → ℕ

-- A cell that was read, and what was read there.
pub record Seen : Type 0 where
  pub cell : ℕ
  pub content : ℕ

-- Where a thread stands, with its local variables.
pub data Pc : Type 0 where
  idle : Pc  -- the head of the loop in `read_valid`, and outside of all calls
  reading : (version : ℕ) (seen : List Seen) → Pc  -- after `read_valid`, before `is_valid`
  trying : (version : ℕ) → Pc  -- in `try_lock`, before the compare-exchange
  owner : Pc  -- between `lock` and `unlock`

-- One step of one thread. `lock` is `try_lock` until it succeeds: from `idle` a thread may try again.
pub data Move (m : Guarded) : Pc → Guarded → Pc → Type 0 where
  pause : is_locked m.version ≡ true → Move m idle m idle
  read_valid : is_locked m.version ≡ false → Move m idle m (reading m.version [])
  load :
      {version : ℕ} {seen : List Seen} (cell : ℕ)
      → Move m
          (reading version seen)
          m
          (reading version (record { cell = cell; content = m.cells cell } ∷ seen))
  validate :
      {version : ℕ} {seen : List Seen}
      → is_valid version m.version ≡ true
      → Move m (reading version seen) m idle
  restart :
      {version : ℕ} {seen : List Seen}
      → is_valid version m.version ≡ false
      → Move m (reading version seen) m idle
  try_lock : is_locked m.version ≡ false → Move m idle m (trying m.version)
  exchange :
      {version : ℕ}
      → is_valid version m.version ≡ true
      → Move m (trying version) (record m { version = locked_from version }) owner
  exchange_fails :
      {version : ℕ} → is_valid version m.version ≡ false → Move m (trying version) m idle
  store : (cell content : ℕ) → Move m owner (record m { cells = update m.cells cell content }) owner
  release : Move m owner (record m { version = unlock m.version }) idle

pub record Threads : Type 0 where
  pub node : Guarded
  pub pc : ℕ → Pc

pub data Step (s : Threads) : Threads → Type 0 where
  pick :
      (i : ℕ) {m : Guarded} {p : Pc}
      → Move s.node (s.pc i) m p
      → Step s (record { node = m; pc = update s.pc i p })

-- A node with a new lock, and threads that have not begun.
abbrev pub start : (ℕ → ℕ) → Threads
start cells = record { node = record { version = initial_version; cells = cells }; pc = λ _. idle }

-- The states that the threads can come to, with the number of steps.
pub data Steps (s : Threads) : ℕ → Threads → Type 0 where
  none_yet : Steps s 0 s
  later : {n : ℕ} {t u : Threads} → Steps s n t → Step t u → Steps s (suc n) u
