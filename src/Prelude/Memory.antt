-- ===== src/Prelude/Memory.antt =====
-- Arrays and heaps as functions from an index or an address to what is stored there. A cell that
-- the program never wrote holds some value that nothing is known of.
use Prim.Native.Nat.{ℕ, ◌+◌, ◌-◌}
use mathlib.Core.Bool.{◌&&◌}
use btree_benchmarks.Prelude.Tests.{◌==◌, ltb, leb, if◌then◌else◌}

-- `a[i] = x`, and also a write to a heap address.
abbrev pub update {ℓ} : {A : Type ℓ} → (ℕ → A) → ℕ → A → ℕ → A
update f i x j = if j == i then x else f j

-- `memcpy(&dst[to], &src[from], count * sizeof(cell))`.
abbrev pub memcpy {ℓ} : {A : Type ℓ} → (dst : ℕ → A) (to : ℕ) (src : ℕ → A) (from count : ℕ) → ℕ → A
memcpy dst to src from count j =
    if leb to j && ltb j (to + count) then src (j - to + from) else dst j

-- `memmove(&a[to], &a[from], count * sizeof(cell))`: the source is read before it is written.
abbrev pub memmove {ℓ} : {A : Type ℓ} → (a : ℕ → A) (to from count : ℕ) → ℕ → A
memmove a to from count = memcpy a to a from count
