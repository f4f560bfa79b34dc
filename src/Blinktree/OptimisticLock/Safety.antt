-- ===== src/Blinktree/OptimisticLock/Safety.antt =====
-- What `read_valid`, `is_valid`, `lock` and `unlock` of src/indices/blinktree/optimistic_lock.h
-- promise to a reader and to a writer.
use btree_benchmarks.Prelude.{
  ℕ, suc, ◌+◌, ◌*◌, ◌%◌, ◌^◌, ◌<◌, ◌≤◌, ◌≡◌, refl, List, [], ◌∷◌, true, false, arith, ==_iff, ◌==◌,
  Bool-cases, inl, inr, subst,
}
use btree_benchmarks.Blinktree.OptimisticLock.{is_locked, is_valid}
use btree_benchmarks.Blinktree.OptimisticLock.Threads.{
  Guarded, Seen, Pc, idle, trying, reading, owner, Move, exchange, read_valid, load, store, release,
  Threads, Step, pick, start, Steps, none_yet, later,
}
use btree_benchmarks.Blinktree.OptimisticLock.Invariant.{
  Inv, WasFree, is_owner, start-Inv, Steps-Inv,
}

-- Each cell still holds what was read there.
abbrev pub Agrees : (ℕ → ℕ) → List Seen → Type 0
Agrees cells [] = Unit {0}
Agrees cells (s ∷ seen) = (cells s.cell ≡ s.content) × Agrees cells seen

-- `version` is that of `bumps` changes ago; without a change nothing was written.
record Tracks (m : Guarded) (version : ℕ) (seen : List Seen) (bumps : ℕ) : Type 0 where
  since : m.version ≡ (version + 2 * bumps) % 2 ^ 32
  unchanged : bumps ≡ 0 → Agrees m.cells seen

-- At most `n` changes of the version since the thread read it.
abbrev IsTracked : (n : ℕ) → Guarded → Pc → Type 0
IsTracked n m (reading version seen) = (bumps : ℕ) × (bumps ≤ n) × Tracks m version seen bumps
IsTracked n m _ = Unit {0}

module _ {m : Guarded} {version : ℕ} {seen : List Seen} {bumps : ℕ}
    (h : Tracks m version seen bumps) where
  open h use {since, unchanged}

  Tracks-bump :
      (m' : Guarded) → m'.version ≡ (m.version + 2) % 2 ^ 32 → Tracks m' version seen (suc bumps)
  Tracks-bump m' e = record {
    since = omega (arith, since, e);
    unchanged = λ z. absurd (omega (arith, z));
  }

  -- Only the holder of the lock writes, so the version has changed before.
  Tracks-store :
      (cells : ℕ → ℕ)
      → is_locked version ≡ false
      → is_locked m.version ≡ true
      → Tracks (record m { cells = cells }) version seen bumps
  Tracks-store cells free locked = record {
    since = since;
    unchanged = λ z. absurd (ground (arith, since, z, free, locked));
  }

  Tracks-load :
      (cell : ℕ) → Tracks m version (record { cell = cell; content = m.cells cell } ∷ seen) bumps
  Tracks-load cell = record { since = since; unchanged = λ z. (refl, unchanged z) }

-- A step of another thread.
other-IsTracked :
    (n : ℕ) {m m' : Guarded} {p p' : Pc} (q : Pc)
    → (is_owner p ≡ true → is_locked m.version ≡ true)
    → WasFree q
    → Move m p m' p'
    → IsTracked n m q
    → IsTracked (suc n) m' q
other-IsTracked n idle locked free mv h = tt
other-IsTracked n owner locked free mv h = tt
other-IsTracked n (trying version) locked free mv h = tt
other-IsTracked n {m} (reading version seen) locked free (exchange e) (bumps, le, tracks) =
    (suc bumps, omega (arith, le), Tracks-bump tracks _ (ground (arith, e)))
other-IsTracked n (reading version seen) locked free release (bumps, le, tracks) =
    (suc bumps, omega (arith, le), Tracks-bump tracks _ refl)
other-IsTracked n (reading version seen) locked free (store cell content) (bumps, le, tracks) =
    (bumps, omega (arith, le), Tracks-store tracks _ free.0 (locked refl))
other-IsTracked n (reading version seen) locked free mv (bumps, le, tracks) =
    (bumps, omega (arith, le), tracks)

own-IsTracked :
    (n : ℕ) {m m' : Guarded} {p p' : Pc}
    → m.version < 2 ^ 32
    → Move m p m' p'
    → IsTracked n m p
    → IsTracked (suc n) m' p'
own-IsTracked n small (read_valid e) h =
    (0, omega arith, record { since = omega (arith, small); unchanged = λ z. tt })
own-IsTracked n small (load cell) (bumps, le, tracks) =
    (bumps, omega (arith, le), Tracks-load tracks cell)
own-IsTracked n small mv h = tt

module _ {s : Threads} (j : ℕ) where
  Step-IsTracked :
      (n : ℕ) {t : Threads}
      → Inv s.node s.pc
      → Step s t
      → IsTracked n s.node (s.pc j)
      → IsTracked (suc n) t.node (t.pc j)
  Step-IsTracked n inv (pick i {m} {p} mv) h = elim (Bool-cases (j == i)) [
    | inl own ↦ rw own (
        own-IsTracked n inv.fits mv
          (subst (λ k. IsTracked n s.node (s.pc k)) ((==_iff j i).0 own) h))
    | inr other ↦ rw other (other-IsTracked n (s.pc j) (inv.bit i) (inv.free j) mv h)
  ]

Steps-IsTracked :
    {s t : Threads} {n : ℕ} (j : ℕ)
    → Inv s.node s.pc
    → s.pc j ≡ idle
    → Steps s n t
    → IsTracked n t.node (t.pc j)
Steps-IsTracked {s} j inv e none_yet = rw e tt
Steps-IsTracked j inv e (later {n} r st) =
    Step-IsTracked j n (Steps-Inv inv r) st (Steps-IsTracked j inv e r)

-- Fewer changes than it takes the version to come round.
IsTracked-valid :
    {m : Guarded} {n version : ℕ} {seen : List Seen}
    → n < 2 ^ 31
    → version < 2 ^ 32
    → IsTracked n m (reading version seen)
    → is_valid version m.version ≡ true
    → Agrees m.cells seen
IsTracked-valid few small (bumps, le, tracks) valid =
    tracks.unchanged (ground (arith, tracks.since, le, few, valid))

-- From a state that the threads reach, let a thread that is outside of all calls call `read_valid`
-- and read cells, while all threads together take fewer than 2^31 steps. If `is_valid` then accepts
-- the version, all the cells that it read still hold what it read: it saw them as at one moment.
pub valid_reads :
    {cells : ℕ → ℕ} {s t : Threads} {k n version : ℕ} {seen : List Seen}
    → Steps (start cells) k s
    → (j : ℕ) → s.pc j ≡ idle
    → Steps s n t
    → n < 2 ^ 31
    → t.pc j ≡ reading version seen
    → is_valid version t.node.version ≡ true
    → Agrees t.node.cells seen
valid_reads {cells} {t = t} {n = n} reach j outside steps few now valid =
    IsTracked-valid few
      (subst WasFree now ((Steps-Inv (Steps-Inv (start-Inv cells) reach) steps).free j)).1
      (subst (IsTracked n t.node) now
        (Steps-IsTracked j (Steps-Inv (start-Inv cells) reach) outside steps))
      valid

-- Of all threads at most one is between `lock` and `unlock`.
pub one_owner :
    {cells : ℕ → ℕ} {s : Threads} {k : ℕ}
    → Steps (start cells) k s
    → (i j : ℕ) → s.pc i ≡ owner
    → s.pc j ≡ owner
    → i ≡ j
one_owner {cells} reach i j a b = ground (arith, (Steps-Inv (start-Inv cells) reach).unique i j)
