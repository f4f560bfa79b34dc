-- ===== src/Util/CoreConfiguration/Counts.antt =====
-- The constructor of `CoreConfiguration` in src/util/core_configuration.cpp: which counts of cores it
-- makes sets for.
use btree_benchmarks.Prelude.{
  ℕ, zero, suc, ◌+◌, ◌%◌, ◌^◌, ◌≤◌, ◌<◌, ◌≡◌, ◌≢◌, ◌↔◌, ◌⊎◌, inl, inr, refl, sym, ap, ◌∙◌, List, [],
  ◌∷◌, ◌++◌, some, true, false, leb, leb→le, leb→lt, ◌==◌, ==_iff, ne→==, Bool-cases, arith,
  append-nil, ℕ_discrete, if◌then◌else◌,
}
use btree_benchmarks.Blinktree.Node.{to_size}
use btree_benchmarks.Util.CoreConfiguration.{step_loop, core_counts}

abbrev pub IsIn : ℕ → List ℕ → Type 0
IsIn c [] = ⊥
IsIn c (x ∷ xs) = (c ≡ x) ⊎ IsIn c xs

-- Strictly ascending, from `low` on.
abbrev pub Ascends : ℕ → List ℕ → Type 0
Ascends low [] = Unit {0}
Ascends low (x ∷ xs) = (low ≤ x) × Ascends (x + 1) xs

Ascends-lower : (low low' : ℕ) (xs : List ℕ) → low' ≤ low → Ascends low xs → Ascends low' xs
Ascends-lower low low' [] h up = tt
Ascends-lower low low' (x ∷ xs) h up = (omega (arith, up.0), up.1)

-- The loop ends with the multiples of the step from `count` to `max_cores`.
Multiples : (max_cores core_step count : ℕ) → List ℕ → Type 0
Multiples max_cores core_step count xs =
    Ascends count xs × ((c : ℕ) → IsIn c xs ↔ ((count ≤ c) × (c ≤ max_cores) × (c % core_step ≡ 0)))

-- What the loop ends with from `count` on.
abbrev Loops : (fuel max_cores core_step count : ℕ) → Type 0
Loops fuel max_cores core_step count =
    (xs : List ℕ) × (step_loop fuel max_cores core_step count ≡ some xs)
    × Multiples max_cores core_step count xs

step_loop-over :
    (fuel max_cores core_step count : ℕ)
    → leb count max_cores ≡ false
    → Loops (suc fuel) max_cores core_step count
unfolding step_loop Multiples
step_loop-over fuel max_cores core_step count over = (
  [],
  rw over refl,
  (tt, λ c. (λ h. absurd h, λ h. absurd (omega (arith, leb→lt count max_cores over, h.0, h.1)))),
)

module _ (fuel max_cores core_step count : ℕ) (more : leb count max_cores ≡ true) (xs : List ℕ)
    (e : step_loop fuel max_cores core_step (to_size (count + 1)) ≡ some xs)
    (rest : Multiples max_cores core_step (count + 1) xs) where
  step_loop-hit : (count % core_step == 0) ≡ true → Loops (suc fuel) max_cores core_step count
  unfolding step_loop Multiples
  step_loop-hit hit = (
    count ∷ xs,
    rw (more, hit, e) refl,
    (
      (omega arith, rest.0),
      λ c. (
        λ h. elim h [
          | inl same ↦ (
            omega (arith, same),
            omega (arith, same, leb→le count max_cores more),
            ap (λ x. x % core_step) same ∙ (==_iff (count % core_step) 0).0 hit,
          )
          | inr later ↦ let (a, b, r) = (rest.1 c).0 later in (omega (arith, a), b, r)
        ],
        λ h. elim (ℕ_discrete c count) [
          | yes same ↦ inl same
          | no other ↦ inr ((rest.1 c).1 (omega (arith, other, h.0), h.1, h.2))
        ],
      ),
    ),
  )

  step_loop-miss : (count % core_step == 0) ≡ false → Loops (suc fuel) max_cores core_step count
  unfolding step_loop Multiples
  step_loop-miss miss = (
    xs,
    rw (more, miss) e,
    (
      Ascends-lower (count + 1) count xs (omega arith) rest.0,
      λ c. (
        λ h. let (a, b, r) = (rest.1 c).0 h in (omega (arith, a), b, r),
        λ h.
            let other : c ≢ count = λ same.
              cc (
                miss,
                (==_iff (count % core_step) 0).1 (ap (λ x. x % core_step) (sym same) ∙ h.2),
              ) in
            (rest.1 c).1 (omega (arith, other, h.0), h.1, h.2),
      ),
    ),
  )

step_loop-Loops :
    (fuel max_cores core_step count : ℕ)
    → max_cores + 1 < count + fuel
    → count ≤ max_cores + 1
    → max_cores + 1 < 2 ^ 16
    → Loops fuel max_cores core_step count
step_loop-Loops zero max_cores core_step count enough inside small = absurd (omega arith)
step_loop-Loops (suc fuel) max_cores core_step count enough inside small =
    elim (Bool-cases (leb count max_cores)) [
      | inr over ↦ step_loop-over fuel max_cores core_step count over
      | inl more ↦
          let below = leb→le count max_cores more in
          let (xs, e, rest) =
            step_loop-Loops fuel max_cores core_step (count + 1) (omega arith) (omega arith)
              small in
          let e' : step_loop fuel max_cores core_step (to_size (count + 1)) ≡ some xs =
            ap (step_loop fuel max_cores core_step) (omega arith) ∙ e in
          elim (Bool-cases (count % core_step == 0)) [
            | inl hit ↦ step_loop-hit fuel max_cores core_step count more xs e' rest hit
            | inr miss ↦ step_loop-miss fuel max_cores core_step count more xs e' rest miss
          ]
    ]

Ascends-append :
    (low last : ℕ) (xs : List ℕ)
    → low ≤ last
    → Ascends low xs
    → ((c : ℕ) → IsIn c xs → c < last)
    → Ascends low (xs ++ (last ∷ []))
Ascends-append low last [] h up below = (h, tt)
Ascends-append low last (x ∷ xs) h up below = (
  up.0,
  Ascends-append (x + 1) last xs (omega (arith, below x (inl refl))) up.1
      (λ c is_in. below c (inr is_in)),
)

IsIn-append : (c last : ℕ) (xs : List ℕ) → IsIn c (xs ++ (last ∷ [])) ↔ ((c ≡ last) ⊎ IsIn c xs)
IsIn-append c last [] = (λ h. h, λ h. h)
IsIn-append c last (x ∷ xs) =
    let rest = IsIn-append c last xs in
    (
      λ h. elim h [
        | inl e ↦ inr (inl e)
        | inr later ↦ elim (rest.0 later) [ inl e ↦ inl e | inr is_in ↦ inr (inr is_in) ]
      ],
      λ h. elim h [
        | inl e ↦ inr (rest.1 (inl e))
        | inr is_in ↦ elim is_in [ inl e ↦ inl e | inr later ↦ inr (rest.1 (inr later)) ]
      ],
    )

-- The multiples from `start` on, and the last count.
abbrev Ended : (max_cores core_step start : ℕ) → List ℕ → Type 0
Ended max_cores core_step start ys =
    Ascends start ys
    × ((c : ℕ)
        → IsIn c ys ↔ ((c ≡ max_cores) ⊎ ((start ≤ c) × (c ≤ max_cores) × (c % core_step ≡ 0))))

end-Ended :
    (max_cores core_step start : ℕ) (xs : List ℕ)
    → start ≤ max_cores
    → Multiples max_cores core_step start xs
    → Ended max_cores core_step start
        (xs ++ (if max_cores % core_step == 0 then [] else max_cores ∷ []))
unfolding Multiples
end-Ended max_cores core_step start xs inside (up, mem) =
    elim (Bool-cases (max_cores % core_step == 0)) [
      | inl hit ↦ rw hit (
          rw (append-nil xs) (
            up,
            λ c. (
              λ h. inr ((mem c).0 h),
              λ h. elim h [
                | inl e ↦ (mem c).1 (
                  omega (arith, e),
                  omega (arith, e),
                  ap (λ x. x % core_step) e ∙ (==_iff (max_cores % core_step) 0).0 hit,
                )
                | inr is ↦ (mem c).1 is
              ],
            ),
          ))
      | inr miss ↦ rw miss (
        Ascends-append start max_cores xs inside up (λ c is_in.
            let (a, b, r) = (mem c).0 is_in in
            let other : c ≢ max_cores = λ same. cc (
              miss,
              (==_iff (max_cores % core_step) 0).1 (ap (λ x. x % core_step) (sym same) ∙ r),
            ) in
            omega (arith, b, other)),
        λ c.
            let last = IsIn-append c max_cores xs in
            (
              λ h. elim (last.0 h) [ inl e ↦ inl e | inr is_in ↦ inr ((mem c).0 is_in) ],
              λ h. last.1 (elim h [ inl e ↦ inl e | inr is ↦ inr ((mem c).1 is) ]),
            ),
      )
    ]

-- For 0 < `min_cores` < `max_cores` < 2^16 - 1 the constructor ends, and makes sets of ascending
-- sizes: `min_cores`, the multiples of the step between the two, and `max_cores`.
pub core_counts_lem :
    (min_cores max_cores core_step fuel : ℕ)
    → 0 < min_cores
    → min_cores < max_cores
    → max_cores + 1 < 2 ^ 16
    → max_cores + 1 < fuel
    → (xs : List ℕ) × (core_counts fuel min_cores max_cores core_step ≡ some xs)
      × Ascends min_cores xs
      × ((c : ℕ)
          → IsIn c xs ↔ (
              (c ≡ min_cores)
              ⊎ (c ≡ max_cores)
              ⊎ ((min_cores ≤ c) × (c ≤ max_cores) × (c % core_step ≡ 0))))
unfolding core_counts Multiples
core_counts_lem min_cores max_cores core_step fuel above below small enough =
    let not_zero = ne→== min_cores 0 (omega arith) in
    let not_same = ne→== min_cores max_cores (omega arith) in
    elim (Bool-cases (min_cores % core_step == 0)) [
      | inl hit ↦
          let (xs, e, rest) =
            step_loop-Loops fuel max_cores core_step min_cores (omega arith) (omega arith) small in
          let (up, mem) = end-Ended max_cores core_step min_cores xs (omega arith) rest in
          (
            xs ++ (if max_cores % core_step == 0 then [] else max_cores ∷ []),
            rw (not_zero, not_same, hit, e) (rw hit refl),
            up,
            λ c. (
              λ h. inr ((mem c).0 h),
              λ h. elim h [
                | inl same ↦ (mem c).1 (
                    inr (
                      omega (arith, same),
                      omega (arith, same),
                      ap (λ x. x % core_step) same ∙ (==_iff (min_cores % core_step) 0).0 hit,
                    ))
                | inr is ↦ (mem c).1 is
              ],
            ),
          )
      | inr miss ↦
          let (xs, e, rest) =
            step_loop-Loops fuel max_cores core_step (min_cores + 1) (omega arith) (omega arith)
              small in
          let e' : step_loop fuel max_cores core_step (to_size (min_cores + 1)) ≡ some xs =
            ap (step_loop fuel max_cores core_step) (omega arith) ∙ e in
          let (up, mem) = end-Ended max_cores core_step (min_cores + 1) xs (omega arith) rest in
          (
            min_cores ∷ (xs ++ (if max_cores % core_step == 0 then [] else max_cores ∷ [])),
            rw (not_zero, not_same, miss, e') (rw miss refl),
            (omega arith, up),
            λ c. (
              λ h. elim h [
                | inl same ↦ inl same
                | inr is_in ↦ elim ((mem c).0 is_in) [
                  | inl e ↦ inr (inl e)
                  | inr is ↦ let (a, b, r) = is in inr (inr (omega (arith, a), b, r))
                ]
              ],
              λ h. elim (ℕ_discrete c min_cores) [
                | yes same ↦ inl same
                | no other ↦ inr (
                    (mem c).1 (elim h [
                      | inl same ↦ absurd (other same)
                      | inr is ↦ elim is [
                        | inl e ↦ inl e
                        | inr m ↦ let (a, b, r) = m in inr (omega (arith, a, other), b, r)
                      ]
                    ]))
              ],
            ),
          )
    ]
