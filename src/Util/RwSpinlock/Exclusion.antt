-- ===== src/Util/RwSpinlock/Exclusion.antt =====
-- What `util::RWSpinLock` of src/util/rw_spinlock.h promises its threads.
use btree_benchmarks.Prelude.{ℕ, ◌+◌, ◌^◌, ◌<◌, ◌≤◌, ◌≡◌, ◌≢◌, refl, arith}
use btree_benchmarks.Prelude.Sums.{sum_of, part-le, two-le}
use btree_benchmarks.Util.RwSpinlock.{idle, reading, upgraded, writing, Lock, Reach}
use btree_benchmarks.Util.RwSpinlock.Invariant.{owns, reads, Reach-Inv}

-- With fewer than 2^29 threads, each of which releases only what it holds: while a thread has the
-- lock for writing, no other thread has it for reading or for writing, nor upgraded; and while a
-- thread has it upgraded, no other thread has it upgraded.
pub rw_exclusion :
    {threads : ℕ} {s : Lock}
    → threads < 2 ^ 29
    → Reach threads s
    → (i j : ℕ) → i < threads
    → j < threads
    → j ≢ i
    → (s.holders i ≡ writing
        → (s.holders j ≢ reading) × (s.holders j ≢ writing) × (s.holders j ≢ upgraded))
      × (s.holders i ≡ upgraded → s.holders j ≢ upgraded)
rw_exclusion {threads} {s} few reach i j p q other = (
  λ e. (
    λ r. ground (arith, e, r, alone i p, part-le reads threads s.holders j q),
    λ r. ground (arith, e, r, pair, one_owner),
    λ r. ground (arith, e, r, pair, one_owner),
  ),
  λ e r. ground (arith, e, r, pair, one_owner),
)
  where
    open (Reach-Inv few reach) use {one_owner, alone}

    pair : owns (s.holders i) + owns (s.holders j) ≤ sum_of owns threads s.holders
    pair = two-le owns threads s.holders i j idle refl p q other
