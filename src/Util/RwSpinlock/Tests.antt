-- ===== src/Util/RwSpinlock/Tests.antt =====
-- A reader, an upgrade, and a writer.
use btree_benchmarks.Prelude.{ℕ, ◌<◌, ◌≡◌, ◌≢◌, refl, arith}
use btree_benchmarks.Util.RwSpinlock.{
  Holder, reading, upgraded, writing, Move, Lock, Reach, new_lock, later,
}
use btree_benchmarks.Util.RwSpinlock.Exclusion.{rw_exclusion}

abbrev Run : Type 0
Run = (s : Lock) × Reach 2 s

abbrev step :
    (r : Run) (i : ℕ) → i < 2 → {bits : ℕ} {h : Holder} → Move r.0.bits (r.0.holders i) bits h → Run
step (s, reach) i lt mv = (_, later reach lt mv)

-- Thread 1 reads while thread 0 has the lock upgraded; thread 0 cannot write yet.
abbrev waiting : Run
waiting =
    step
      (step (step (_, new_lock) 1 (omega arith) (Move.try_lock_shared refl)) 0 (omega arith)
        (Move.try_lock_upgrade refl))
      0 (omega arith) (Move.try_unlock_upgrade_and_lock_fails (omega arith))

abbrev written : Run
written =
    step (step waiting 1 (omega arith) Move.unlock_shared) 0 (omega arith)
      (Move.try_unlock_upgrade_and_lock refl)

written_bits : written.0.bits ≡ 1
written_bits = refl

-- The other thread tries to upgrade meanwhile, and leaves its bit.
abbrev marked_twice : Run
marked_twice = step written 1 (omega arith) (Move.try_lock_upgrade_fails (omega arith))

marked_twice_bits : marked_twice.0.bits ≡ 3
marked_twice_bits = refl

rw_exclusion_example :
    (marked_twice.0.holders 0 ≡ writing
      → (marked_twice.0.holders 1 ≢ reading)
        × (marked_twice.0.holders 1 ≢ writing)
        × (marked_twice.0.holders 1 ≢ upgraded))
    × (marked_twice.0.holders 0 ≡ upgraded → marked_twice.0.holders 1 ≢ upgraded)
rw_exclusion_example =
    rw_exclusion (omega arith) marked_twice.1 0 1 (omega arith) (omega arith) (omega arith)
