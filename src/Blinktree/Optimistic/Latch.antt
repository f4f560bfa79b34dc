-- ===== src/Blinktree/Optimistic/Latch.antt =====
-- The version lock of src/indices/blinktree/thread/optimistic/optimistic_node_base.h as the latch of
-- a node, when one thread runs.
use btree_benchmarks.Prelude.{ℕ, ◌%◌, ◌≡◌, refl, none, some, arith, if◌then◌else◌}
use btree_benchmarks.Blinktree.OptimisticLock.{initial_version, is_locked, locked_from, unlock}
use btree_benchmarks.Blinktree.Latched.{Latch}
use btree_benchmarks.Blinktree.Latched.Latches.{LatchLaws}

-- `acquire` and `release`; there is no shared mode, and nothing to upgrade.
abbrev pub optimistic : Latch
optimistic = record {
  State = ℕ;
  fresh = initial_version;
  lock_shared = λ version. if is_locked version then none else some (locked_from version);
  unlock_shared = unlock;
  lock_upgrade = some;
  unlock = unlock;
}

pub acquire_lem :
    (version : ℕ)
    → version % 4 ≡ 0
    → (y : ℕ) × (optimistic.lock_shared version ≡ some y) × (y % 4 ≡ 2)
acquire_lem version e = (locked_from version, ground (arith, e), omega (arith, e))

pub release_lem : (version : ℕ) → version % 4 ≡ 2 → unlock version % 4 ≡ 0
release_lem version e = omega (arith, e)

-- A version is a multiple of 4 when it is free, and 2 more when it is locked.
abbrev pub optimistic-LatchLaws : LatchLaws optimistic
optimistic-LatchLaws = record {
  IsFree = λ version. version % 4 ≡ 0;
  IsShared = λ version. version % 4 ≡ 2;
  IsExclusive = λ version. version % 4 ≡ 2;
  fresh_free = refl;
  lock_shared_lem = acquire_lem;
  unlock_shared_lem = release_lem;
  lock_upgrade_lem = λ x e. (x, refl, e);
  unlock_lem = release_lem;
}
