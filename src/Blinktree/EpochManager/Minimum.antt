-- ===== src/Blinktree/EpochManager/Minimum.antt =====
-- `min_local_epoch` of src/indices/blinktree/epoch_manager.cpp.
use btree_benchmarks.Prelude.{
  ℕ, zero, suc, ◌+◌, ◌-◌, ◌<◌, ◌≤◌, ◌≡◌, refl, min, arith, ◌⊎◌, inl, inr, ℕ_discrete, dec_le, subst,
}
use btree_benchmarks.Blinktree.EpochManager.{Epochs, min_loop, min_local_epoch}

min_loop-le-start : (locals : ℕ → ℕ) (least i steps : ℕ) → min_loop locals least i steps ≤ least
min_loop-le-start locals least i zero = omega arith
min_loop-le-start locals least i (suc steps) =
    omega (arith, min_loop-le-start locals (min least (locals i)) (suc i) steps)

min_loop-le :
    (locals : ℕ → ℕ) (least i steps j : ℕ)
    → i ≤ j
    → j < i + steps
    → min_loop locals least i steps ≤ locals j
min_loop-le locals least i zero j low high = absurd (omega (arith, low, high))
min_loop-le locals least i (suc steps) j low high = elim (ℕ_discrete i j) [
  | yes e ↦
      subst (λ k. min_loop locals (min least (locals i)) (suc i) steps ≤ locals k) e
        (omega (arith, min_loop-le-start locals (min least (locals i)) (suc i) steps))
  | no ne ↦
      min_loop-le locals (min least (locals i)) (suc i) steps j (omega (arith, low, ne))
        (omega (arith, high))
]

-- The result is one of the values.
min_loop-attained :
    (locals : ℕ → ℕ) (least i steps : ℕ)
    → (min_loop locals least i steps ≡ least)
      ⊎ ((j : ℕ) × (i ≤ j) × (j < i + steps) × (min_loop locals least i steps ≡ locals j))
min_loop-attained locals least i zero = inl refl
min_loop-attained locals least i (suc steps) =
    elim (min_loop-attained locals (min least (locals i)) (suc i) steps) [
      | inl e ↦ elim (dec_le least (locals i)) [
        | yes p ↦ inl (omega (arith, e, p))
        | no p ↦ inr (i, omega arith, omega arith, omega (arith, e, p))
      ]
      | inr (j, low, high, e) ↦ inr (j, omega (arith, low), omega (arith, high), e)
    ]

-- With at least one thread, `min_local_epoch` is the least of the local epochs: no thread's is
-- smaller, and one thread has it.
pub min_local_epoch-IsLeast :
    (count_threads : ℕ) (s : Epochs)
    → 0 < count_threads
    → ((i : ℕ) → i < count_threads → min_local_epoch count_threads s ≤ s.local_epochs i)
      × ((i : ℕ) × (i < count_threads) × (min_local_epoch count_threads s ≡ s.local_epochs i))
min_local_epoch-IsLeast count_threads s some_thread = (below, attained)
  where
    below : (i : ℕ) → i < count_threads → min_local_epoch count_threads s ≤ s.local_epochs i
    below zero lt = min_loop-le-start s.local_epochs (s.local_epochs 0) 1 (count_threads - 1)
    below (suc i) lt =
        min_loop-le s.local_epochs (s.local_epochs 0) 1 (count_threads - 1) (suc i) (omega arith)
          (omega (arith, lt))

    attained : (i : ℕ) × (i < count_threads) × (min_local_epoch count_threads s ≡ s.local_epochs i)
    attained = elim (min_loop-attained s.local_epochs (s.local_epochs 0) 1 (count_threads - 1)) [
      | inl e ↦ (0, some_thread, e)
      | inr (j, low, high, e) ↦ (j, omega (arith, high, some_thread), e)
    ]

-- A value that one thread has and no thread's is below is what `min_local_epoch` returns.
pub min_local_epoch_unique :
    (count_threads : ℕ) (s : Epochs) (least : ℕ)
    → ((i : ℕ) → i < count_threads → least ≤ s.local_epochs i)
    → (thread : ℕ) → thread < count_threads
    → s.local_epochs thread ≡ least
    → min_local_epoch count_threads s ≡ least
min_local_epoch_unique count_threads s least below thread lt here =
    let (at_most, (i, lt_i, e)) = min_local_epoch-IsLeast count_threads s (omega (arith, lt)) in
    omega (arith, at_most thread lt, below i lt_i, here, e)
