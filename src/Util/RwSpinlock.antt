-- ===== src/Util/RwSpinlock.antt =====
-- `util::RWSpinLock` of src/util/rw_spinlock.h: the word `bits_`, and threads that use it, one atomic
-- access at a time. `bits_`, an int32_t, is its 32-bit pattern: WRITER is 1, UPGRADED is 2, and
-- each reader adds READER, 4.
pub mod Invariant
pub mod Exclusion
mod Tests
use btree_benchmarks.Prelude.{ℕ, zero, ◌+◌, ◌-◌, ◌/◌, ◌%◌, ◌^◌, ◌<◌, ◌≡◌, ◌≢◌, ◌==◌, if◌then◌else◌}
use btree_benchmarks.Prelude.Memory.{update}

-- `fetch_add` of a positive and of a negative number
abbrev pub add_bits : (amount bits : ℕ) → ℕ
add_bits amount bits = (bits + amount) % 2 ^ 32

abbrev pub subtract_bits : (amount bits : ℕ) → ℕ
subtract_bits amount bits = (bits + (2 ^ 32 - amount)) % 2 ^ 32

-- `fetch_and(~(WRITER | UPGRADED))`
abbrev pub clear_bits : ℕ → ℕ
clear_bits bits = bits - bits % 4

-- `fetch_or(UPGRADED)`
abbrev pub or_upgraded : ℕ → ℕ
or_upgraded bits = if bits / 2 % 2 == 0 then bits + 2 else bits

-- What a thread holds, or where it stands in a call of two accesses.
pub data Holder : Type 0 where
  idle : Holder
  reading : Holder
  backing_out : Holder  -- in `try_lock_shared`, which did not get the lock
  upgraded : Holder
  writing : Holder
  downgrading : Holder  -- in `unlock_and_lock_shared`
  shifting : Holder  -- in `unlock_and_lock_upgrade`

-- One atomic access. The loops `lock`, `lock_shared`, `lock_upgrade` and `unlock_upgrade_and_lock`
-- try again from where a failed attempt leaves the thread.
pub data Move (bits : ℕ) : Holder → ℕ → Holder → Type 0 where
  try_lock : bits ≡ 0 → Move bits idle 1 writing
  try_lock_fails : bits ≢ 0 → Move bits idle bits idle
  unlock : Move bits writing (clear_bits bits) idle
  try_lock_shared : bits % 4 ≡ 0 → Move bits idle (add_bits 4 bits) reading
  try_lock_shared_fails : bits % 4 ≢ 0 → Move bits idle (add_bits 4 bits) backing_out
  back_out : Move bits backing_out (subtract_bits 4 bits) idle
  unlock_shared : Move bits reading (subtract_bits 4 bits) idle
  add_reader : Move bits writing (add_bits 4 bits) downgrading
  end_downgrade : Move bits downgrading (clear_bits bits) reading
  try_lock_upgrade : bits % 4 ≡ 0 → Move bits idle (or_upgraded bits) upgraded
  try_lock_upgrade_fails : bits % 4 ≢ 0 → Move bits idle (or_upgraded bits) idle
  unlock_upgrade : Move bits upgraded (subtract_bits 2 bits) idle
  try_unlock_upgrade_and_lock : bits ≡ 2 → Move bits upgraded 1 writing
  try_unlock_upgrade_and_lock_fails : bits ≢ 2 → Move bits upgraded bits upgraded
  unlock_upgrade_and_lock_shared : Move bits upgraded (add_bits 2 bits) reading
  set_upgraded : Move bits writing (or_upgraded bits) shifting
  end_shift : Move bits shifting (subtract_bits 1 bits) upgraded

pub record Lock : Type 0 where
  pub bits : ℕ
  pub holders : ℕ → Holder

-- What `threads` threads can come to with a new lock.
pub data Reach (threads : ℕ) : Lock → Type 0 where
  new_lock : Reach threads (record { bits = 0; holders = λ _. idle })
  later :
      {s : Lock} {i bits : ℕ} {h : Holder}
      → Reach threads s
      → i < threads
      → Move s.bits (s.holders i) bits h
      → Reach threads (record { bits = bits; holders = update s.holders i h })
