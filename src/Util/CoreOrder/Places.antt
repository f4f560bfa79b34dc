-- ===== src/Util/CoreOrder/Places.antt =====
-- Where the loops of `generate_core_order` in src/util/core_configuration.cpp write the cores.
use btree_benchmarks.Prelude.{
  ℕ, zero, suc, ◌+◌, ◌<◌, ◌≡◌, ◌⊎◌, inl, inr, refl, sym, ltb→lt, ltb→le, ◌∙◌, ap, List, [], ◌∷◌,
  ◌++◌, false, ◌==◌, ltb, length, length-append, arith, ne→==, ==_iff, Bool-cases,
}
use btree_benchmarks.Prelude.Memory.{update}
use btree_benchmarks.Util.CoreConfiguration.Counts.{IsIn}
use btree_benchmarks.Util.CoreOrder.{NodeCores, add_core, all_cores, place}

-- `x` is the element `i` of the list.
abbrev pub At : (i x : ℕ) → List ℕ → Type 0
At i x [] = ⊥
At zero x (y ∷ ys) = x ≡ y
At (suc i) x (y ∷ ys) = At i x ys

pub place_of : (x : ℕ) (xs : List ℕ) → IsIn x xs → (i : ℕ) × (i < length xs) × At i x xs
place_of x [] h = absurd h
place_of x (y ∷ ys) (inl e) = (0, omega arith, e)
place_of x (y ∷ ys) (inr later) =
    let (i, below, at) = place_of x ys later in (suc i, omega (arith, below), at)

pub element_of : (i : ℕ) (xs : List ℕ) → i < length xs → (x : ℕ) × At i x xs
element_of i [] h = absurd (omega (arith, h))
element_of zero (y ∷ ys) h = (y, refl)
element_of (suc i) (y ∷ ys) h = element_of i ys (omega (arith, h))

pub IsIn-left : (x : ℕ) (xs ys : List ℕ) → IsIn x xs → IsIn x (xs ++ ys)
IsIn-left x [] ys h = absurd h
IsIn-left x (z ∷ zs) ys (inl e) = inl e
IsIn-left x (z ∷ zs) ys (inr later) = inr (IsIn-left x zs ys later)

pub IsIn-right : (x : ℕ) (xs ys : List ℕ) → IsIn x ys → IsIn x (xs ++ ys)
IsIn-right x [] ys h = h
IsIn-right x (z ∷ zs) ys h = inr (IsIn-right x zs ys h)

pub IsIn-split : (x : ℕ) (xs ys : List ℕ) → IsIn x (xs ++ ys) → IsIn x xs ⊎ IsIn x ys
IsIn-split x [] ys h = inr h
IsIn-split x (z ∷ zs) ys (inl e) = inl (inl e)
IsIn-split x (z ∷ zs) ys (inr later) = elim (IsIn-split x zs ys later) [
  | inl left ↦ inl (inr left)
  | inr right ↦ inr right
]

place_below :
    (size index : ℕ) (xs : List ℕ) (order : ℕ → ℕ) (j : ℕ)
    → j < index
    → place size index xs order j ≡ order j
place_below size index [] order j h = refl
place_below size index (x ∷ xs) order j h =
    let kept : update order index x j ≡ order j = rw (ne→== j index (omega (arith, h))) refl in
    elim (Bool-cases ((index + 1) == size)) [
      | inl e ↦ rw (e, place) kept
      | inr e ↦
          rw (e, place)
            (place_below size (index + 1) xs (update order index x) j (omega (arith, h)) ∙ kept)
    ]

written : (index x : ℕ) (order : ℕ → ℕ) → update order index x (index + 0) ≡ x
written index x order = rw ((==_iff (index + 0) index).1 (omega arith)) refl

-- When the cores fill the vector, each of them stands where the list has it.
pub place-At :
    (size index : ℕ) (xs : List ℕ) (order : ℕ → ℕ) (i x : ℕ)
    → index + length xs ≡ size
    → At i x xs
    → place size index xs order (index + i) ≡ x
place-At size index [] order i x fills at = absurd at
place-At size index (y ∷ []) order zero x fills at =
    rw ((==_iff (index + 1) size).1 (omega (arith, fills)), place) (written index y order ∙ sym at)
place-At size index (y ∷ []) order (suc i) x fills at = absurd at
place-At size index (y ∷ z ∷ zs) order zero x fills at =
    rw (ne→== (index + 1) size (omega (arith, fills)), place)
      (place_below size (index + 1) (z ∷ zs) (update order index y) (index + 0) (omega arith)
        ∙ written index y order
        ∙ sym at)
place-At size index (y ∷ z ∷ zs) order (suc i) x fills at =
    rw (ne→== (index + 1) size (omega (arith, fills)), place)
      (ap (place size (index + 1) (z ∷ zs) (update order index y)) (omega arith)
        ∙ place-At size (index + 1) (z ∷ zs) (update order index y) i x (omega (arith, fills)) at)

key_below : (numa_id key : ℕ) → (key == numa_id) ≡ false → ltb numa_id key ≡ false → key < numa_id
key_below numa_id key e e' = ground (arith, ltb→le numa_id key e')

-- What holds of the three outcomes at the first entry.
pub add_core-cases {ℓ} :
    (P : NodeCores → Type ℓ) (numa_id core_id key : ℕ) (cores : List ℕ) (rest : NodeCores)
    → (key ≡ numa_id → P ((key, cores ++ (core_id ∷ [])) ∷ rest))
    → (numa_id < key → P ((numa_id, core_id ∷ []) ∷ ((key, cores) ∷ rest)))
    → (key < numa_id → P ((key, cores) ∷ add_core numa_id core_id rest))
    → P (add_core numa_id core_id ((key, cores) ∷ rest))
add_core-cases P numa_id core_id key cores rest same before behind =
    elim (Bool-cases (key == numa_id)) [
      | inl e ↦ rw (e, add_core) (same ((==_iff key numa_id).0 e))
      | inr e ↦ elim (Bool-cases (ltb numa_id key)) [
        | inl e' ↦ rw (e, e', add_core) (before (ltb→lt numa_id key e'))
        | inr e' ↦ rw (e, e', add_core) (behind (key_below numa_id key e e'))
      ]
    ]

pub length-add_core :
    (numa_id core_id : ℕ) (nodes : NodeCores)
    → length (all_cores (add_core numa_id core_id nodes)) ≡ length (all_cores nodes) + 1
length-add_core numa_id core_id [] = refl
length-add_core numa_id core_id ((key, cores) ∷ rest) =
    add_core-cases (λ nodes. length (all_cores nodes) ≡ length (cores ++ all_cores rest) + 1)
      numa_id core_id key cores rest
      (λ e. omega (
        arith,
        length-append (cores ++ (core_id ∷ [])) (all_cores rest),
        length-append cores (core_id ∷ []),
        length-append cores (all_cores rest),
      ))
      (λ h. omega arith)
      (λ h. omega (
        arith,
        length-append cores (all_cores (add_core numa_id core_id rest)),
        length-append cores (all_cores rest),
        length-add_core numa_id core_id rest,
      ))

pub add_core-IsIn :
    (numa_id core_id x : ℕ) (nodes : NodeCores)
    → (x ≡ core_id) ⊎ IsIn x (all_cores nodes)
    → IsIn x (all_cores (add_core numa_id core_id nodes))
add_core-IsIn numa_id core_id x [] h = h
add_core-IsIn numa_id core_id x ((key, cores) ∷ rest) h =
    add_core-cases (λ nodes. IsIn x (all_cores nodes)) numa_id core_id key cores rest
      (λ e. elim h [
        | inl new ↦
            IsIn-left x (cores ++ (core_id ∷ [])) (all_cores rest)
              (IsIn-right x cores (core_id ∷ []) (inl new))
        | inr old ↦ elim (IsIn-split x cores (all_cores rest) old) [
          | inl here ↦
              IsIn-left x (cores ++ (core_id ∷ [])) (all_cores rest)
                (IsIn-left x cores (core_id ∷ []) here)
          | inr later ↦ IsIn-right x (cores ++ (core_id ∷ [])) (all_cores rest) later
        ]
      ])
      (λ e. h)
      (λ e. elim h [
        | inl new ↦
            IsIn-right x cores (all_cores (add_core numa_id core_id rest))
              (add_core-IsIn numa_id core_id x rest (inl new))
        | inr old ↦ elim (IsIn-split x cores (all_cores rest) old) [
          | inl here ↦ IsIn-left x cores (all_cores (add_core numa_id core_id rest)) here
          | inr later ↦
              IsIn-right x cores (all_cores (add_core numa_id core_id rest))
                (add_core-IsIn numa_id core_id x rest (inr later))
        ]
      ])
