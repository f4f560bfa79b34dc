-- ===== src/Prelude/Sums.antt =====
-- Sums over the threads 0, 1, … of what each of them contributes.
use Prim.Native.Nat.{ℕ, zero, suc, ◌+◌, ◌≤◌, ◌<◌}
use mathlib.Core.Path.{◌≡◌, refl}
use mathlib.Core.Logic.{◌≢◌}
use native.Mathlib.Decide.{ℕ_discrete}
use native.Mathlib.Omega.{arith}
use btree_benchmarks.Prelude.Memory.{update}

module _ {ℓ} {A : Type ℓ} (weight : A → ℕ) where
  abbrev pub sum_of : (threads : ℕ) → (ℕ → A) → ℕ
  sum_of zero f = 0
  sum_of (suc threads) f = weight (f threads) + sum_of threads f

  sum_of-beyond :
      (threads : ℕ) (f : ℕ → A) (i : ℕ) (a : A)
      → threads ≤ i
      → sum_of threads (update f i a) ≡ sum_of threads f
  sum_of-beyond zero f i a h = refl
  sum_of-beyond (suc threads) f i a h = ground (arith, h, sum_of-beyond threads f i a)

  -- One thread changes what it contributes.
  pub sum_of-update :
      (threads : ℕ) (f : ℕ → A) (i : ℕ) (a : A)
      → i < threads
      → sum_of threads (update f i a) + weight (f i) ≡ sum_of threads f + weight a
  sum_of-update zero f i a h = absurd (omega (arith, h))
  sum_of-update (suc threads) f i a h = elim (ℕ_discrete i threads) [
    | yes last ↦ ground (arith, last, sum_of-beyond threads f i a)
    | no before ↦ ground (arith, h, before, sum_of-update threads f i a)
  ]

  pub sum_of-all :
      (threads : ℕ) (f : ℕ → A) → ((i : ℕ) → i < threads → weight (f i) ≡ 0) → sum_of threads f ≡ 0
  sum_of-all zero f h = refl
  sum_of-all (suc threads) f h =
      omega (arith, h threads (omega arith), sum_of-all threads f (λ i lt. h i (omega (arith, lt))))

  pub sum_of-le : ((a : A) → weight a ≤ 1) → (threads : ℕ) (f : ℕ → A) → sum_of threads f ≤ threads
  sum_of-le small zero f = omega arith
  sum_of-le small (suc threads) f = omega (arith, small (f threads), sum_of-le small threads f)

  -- A thread's contribution is a part of the sum.
  pub part-le : (threads : ℕ) (f : ℕ → A) (i : ℕ) → i < threads → weight (f i) ≤ sum_of threads f
  part-le zero f i h = absurd (omega (arith, h))
  part-le (suc threads) f i h = elim (ℕ_discrete i threads) [
    | yes last ↦ ground (arith, last)
    | no before ↦ omega (arith, part-le threads f i (omega (arith, h, before)))
  ]

  -- So are those of two threads, where some `a` contributes nothing.
  pub two-le :
      (threads : ℕ) (f : ℕ → A) (i j : ℕ) (a : A)
      → weight a ≡ 0
      → i < threads
      → j < threads
      → j ≢ i
      → weight (f i) + weight (f j) ≤ sum_of threads f
  two-le threads f i j a none_of p q other =
      ground
        (arith, none_of, other, sum_of-update threads f i a p, part-le threads (update f i a) j q)
