-- ===== src/Blinktree/OptimisticLock.antt =====
-- `OptimisticLock` of src/indices/blinktree/optimistic_lock.h: a version counter whose second bit
-- says that a writer holds the lock, and threads that use it, one shared access at a time.
pub mod Threads
pub mod Invariant
pub mod Safety
mod Tests
use btree_benchmarks.Prelude.{ℕ, ◌+◌, ◌/◌, ◌%◌, ◌^◌, Bool, ◌==◌}

-- `version_t` is a `std::uint32_t`.
abbrev pub to_version : ℕ → ℕ
to_version n = n % 2 ^ 32

-- `_version{0b100}`
abbrev pub initial_version : ℕ
initial_version = 4

-- `(version & 0b10) == 0b10`
abbrev pub is_locked : ℕ → Bool
is_locked version = version / 2 % 2 == 1

-- `version` is what the caller has read, `current` what `_version.load()` returns.
abbrev pub is_valid : (version current : ℕ) → Bool
is_valid version current = version == current

-- The value that the compare-exchange of `try_lock` stores.
abbrev pub locked_from : ℕ → ℕ
locked_from version = to_version (version + 2)

-- `_version.fetch_add(0b10)`
abbrev pub unlock : ℕ → ℕ
unlock version = to_version (version + 2)
