-- ===== src/Blinktree/Latched/Latches.antt =====
-- What the tree of src/indices/blinktree/thread/latched relies on of a latch, and the latches of the
-- two builds when one thread runs: src/util/spinlock.h and src/util/rw_spinlock.h.
use btree_benchmarks.Prelude.{
  ℕ, ◌+◌, ◌-◌, ◌/◌, ◌%◌, ◌^◌, ◌≡◌, refl, Bool, true, false, none, some, arith, ◌==◌, if◌then◌else◌,
}
use btree_benchmarks.Blinktree.Latched.{Latch}

-- No call waits where nobody holds the latch, and each release undoes its acquisition.
pub record LatchLaws (b : Latch) : Type 1 where
  pub IsFree : b.State → Type 0
  pub IsShared : b.State → Type 0
  pub IsExclusive : b.State → Type 0
  pub fresh_free : IsFree b.fresh
  pub lock_shared_lem :
      (x : b.State) → IsFree x → (y : b.State) × (b.lock_shared x ≡ some y) × IsShared y
  pub unlock_shared_lem : (x : b.State) → IsShared x → IsFree (b.unlock_shared x)
  pub lock_upgrade_lem :
      (x : b.State) → IsShared x → (y : b.State) × (b.lock_upgrade x ≡ some y) × IsExclusive y
  pub unlock_lem : (x : b.State) → IsExclusive x → IsFree (b.unlock x)

-- `util::Spinlock`: `_flag`. The tree's `upgrade_lock` does nothing in this build, and shared and
-- exclusive are one.
unfoldable pub spinlock : Latch
spinlock = record {
  State = Bool;
  fresh = false;
  lock_shared = λ x. if x then none else some true;
  unlock_shared = λ x. false;
  lock_upgrade = some;
  unlock = λ x. false;
}

-- `util::RWSpinLock`: `bits_`, an int32_t, as its 32-bit pattern: WRITER is 1, UPGRADED is 2, and
-- each reader adds READER, 4.
abbrev pub reader : ℕ
reader = 4

unfoldable pub fetch_or_upgraded : ℕ → ℕ
fetch_or_upgraded bits = if bits % 4 / 2 == 0 then bits + 2 else bits

unfoldable pub rw_spin_lock : Latch
unfolding fetch_or_upgraded
rw_spin_lock = record {
  State = ℕ;
  fresh = 0;
  lock_shared = λ bits. if bits % 4 == 0 then some ((bits + reader) % 2 ^ 32) else none;
  unlock_shared = λ bits. (bits + (2 ^ 32 - reader)) % 2 ^ 32;
  lock_upgrade = λ bits. if bits % 4 == 0 then some (fetch_or_upgraded bits) else none;
  unlock = λ bits. bits - bits % 4;
}

pub spinlock-LatchLaws : LatchLaws spinlock
unfolding spinlock
spinlock-LatchLaws = record {
  IsFree = λ x. x ≡ false;
  IsShared = λ x. x ≡ true;
  IsExclusive = λ x. x ≡ true;
  fresh_free = refl;
  lock_shared_lem = λ x e. (true, rw e refl, refl);
  unlock_shared_lem = λ x e. refl;
  lock_upgrade_lem = λ x e. (x, refl, e);
  unlock_lem = λ x e. refl;
}

-- A thread that upgrades and unlocks leaves its READER behind: a free latch may count readers.
pub rw_spin_lock-LatchLaws : LatchLaws rw_spin_lock
unfolding rw_spin_lock fetch_or_upgraded
rw_spin_lock-LatchLaws = record {
  IsFree = λ bits. bits % 4 ≡ 0;
  IsShared = λ bits. bits % 4 ≡ 0;
  IsExclusive = λ bits. bits % 4 ≡ 2;
  fresh_free = refl;
  lock_shared_lem = λ x e. ((x + 4) % 2 ^ 32, rw e refl, omega arith);
  unlock_shared_lem = λ x e. omega arith;
  lock_upgrade_lem = λ x e. (x + 2, ground (arith, e), omega arith);
  unlock_lem = λ x e. omega arith;
}
