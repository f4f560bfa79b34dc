-- ===== src/Blinktree/OptimisticLock/Invariant.antt =====
-- The lock bit of src/indices/blinktree/optimistic_lock.h says whether a thread is between `lock` and
-- `unlock`; at most one is.
use btree_benchmarks.Prelude.{ℕ, ◌%◌, ◌^◌, ◌<◌, ◌≡◌, refl, Bool, true, false, arith}
use btree_benchmarks.Prelude.Memory.{update}
use btree_benchmarks.Blinktree.OptimisticLock.{is_locked, is_valid}
use btree_benchmarks.Blinktree.OptimisticLock.Threads.{
  Guarded, Pc, reading, trying, owner, Move, exchange, read_valid, try_lock, release, Threads, Step,
  pick, start, Steps, none_yet, later,
}

abbrev pub is_owner : Pc → Bool
is_owner owner = true
is_owner _ = false

-- A version that a thread keeps was unlocked when it was read.
abbrev pub WasFree : Pc → Type 0
WasFree (reading version _) = (is_locked version ≡ false) × (version < 2 ^ 32)
WasFree (trying version) = is_locked version ≡ false
WasFree _ = Unit {0}

pub record Inv (m : Guarded) (pc : ℕ → Pc) : Type 0 where
  pub even : m.version % 2 ≡ 0
  pub fits : m.version < 2 ^ 32
  pub bit : (i : ℕ) → is_owner (pc i) ≡ true → is_locked m.version ≡ true
  pub unique : (i j : ℕ) → is_owner (pc i) ≡ true → is_owner (pc j) ≡ true → i ≡ j
  pub free : (i : ℕ) → WasFree (pc i)

-- The premise of a move that changes the version.
abbrev Guard : {m m' : Guarded} {p p' : Pc} → Move m p m' p' → Type 0
Guard {m} (exchange {version} _) = is_valid version m.version ≡ true
Guard {m} {p' = p'} (read_valid _) = is_locked m.version ≡ false
Guard {m} (try_lock _) = is_locked m.version ≡ false
Guard _ = Unit {0}

guard : {m m' : Guarded} {p p' : Pc} (mv : Move m p m' p') → Guard mv
guard (exchange g) = g
guard (read_valid g) = g
guard (try_lock g) = g
guard _ = tt

module _ {m : Guarded} {pc : ℕ → Pc} (inv : Inv m pc) (i : ℕ) where
  open inv use {even, fits, bit, unique, free}

  Move-even : {p p' : Pc} {m' : Guarded} → pc i ≡ p → Move m p m' p' → m'.version % 2 ≡ 0
  Move-even e release = ground (arith, even)
  Move-even e mv = ground (arith, guard mv, even)

  Move-fits : {p p' : Pc} {m' : Guarded} → pc i ≡ p → Move m p m' p' → m'.version < 2 ^ 32
  Move-fits e release = omega arith
  Move-fits e mv = ground (arith, guard mv, fits)

  Move-bit :
      {p p' : Pc} {m' : Guarded}
      → pc i ≡ p
      → Move m p m' p'
      → (j : ℕ) → is_owner (update pc i p' j) ≡ true
      → is_locked m'.version ≡ true
  Move-bit e release j = ground (arith, even, bit i, bit j, unique i j)
  Move-bit e mv j = ground (arith, guard mv, even, fits, bit i, bit j, unique i j, free i)

  Move-unique :
      {p p' : Pc} {m' : Guarded}
      → pc i ≡ p
      → Move m p m' p'
      → (j k : ℕ) → is_owner (update pc i p' j) ≡ true
      → is_owner (update pc i p' k) ≡ true
      → j ≡ k
  Move-unique e release j k = ground (arith, bit j, bit k, unique j k)
  Move-unique e mv j k = ground (arith, guard mv, bit j, bit k, unique j k, free i)

  Move-free :
      {p p' : Pc} {m' : Guarded} → pc i ≡ p → Move m p m' p' → (j : ℕ) → WasFree (update pc i p' j)
  Move-free e release j = ground (arith, free j)
  Move-free e mv j = ground (arith, guard mv, fits, free j, free i)

  pub Move-Inv : {p p' : Pc} {m' : Guarded} → pc i ≡ p → Move m p m' p' → Inv m' (update pc i p')
  Move-Inv e mv = record {
    even = Move-even e mv;
    fits = Move-fits e mv;
    bit = Move-bit e mv;
    unique = Move-unique e mv;
    free = Move-free e mv;
  }

pub start-Inv : (cells : ℕ → ℕ) → Inv (start cells).node (start cells).pc
start-Inv cells = record {
  even = refl;
  fits = omega arith;
  bit = λ i. cc;
  unique = λ i j. cc;
  free = λ i. tt;
}

pub Step-Inv : {s t : Threads} → Step s t → Inv s.node s.pc → Inv t.node t.pc
Step-Inv (pick i mv) inv = Move-Inv inv i refl mv

pub Steps-Inv : {s t : Threads} {n : ℕ} → Inv s.node s.pc → Steps s n t → Inv t.node t.pc
Steps-Inv inv none_yet = inv
Steps-Inv inv (later r st) = Step-Inv st (Steps-Inv inv r)
