-- ===== src/Util/CoreOrder/Numa.antt =====
-- The order of the cores by NUMA node in `generate_core_order` of src/util/core_configuration.cpp.
use btree_benchmarks.Prelude.{
  ℕ, zero, suc, ◌+◌, ◌≤◌, ◌<◌, ◌≡◌, inl, inr, refl, sym, ◌∙◌, ap, List, [], ◌∷◌, ◌++◌, length,
  arith, ℕ_discrete,
}
use btree_benchmarks.Util.CoreConfiguration.Counts.{IsIn}
use btree_benchmarks.Util.CoreOrder.{
  NodeCores, add_core, all_cores, place, numa_ascending, count_cores, numa_id, real_max_cores,
  node_cores, generate_core_order,
}
use btree_benchmarks.Util.CoreOrder.Places.{
  At, place_of, element_of, place-At, add_core-cases, length-add_core, add_core-IsIn,
}

module _ (numa : ℕ → ℕ) where
  -- The NUMA nodes of the cores do not descend, and none is below `low`.
  abbrev Climbs : (low : ℕ) → List ℕ → Type 0
  Climbs low [] = Unit {0}
  Climbs low (x ∷ xs) = (low ≤ numa x) × Climbs (numa x) xs

  abbrev AllOn : (node : ℕ) → List ℕ → Type 0
  AllOn node [] = Unit {0}
  AllOn node (x ∷ xs) = (numa x ≡ node) × AllOn node xs

  -- The keys ascend, from `low` on, and the cores of an entry are on its node.
  abbrev IsGrouped : (low : ℕ) → NodeCores → Type 0
  IsGrouped low [] = Unit {0}
  IsGrouped low ((key, cores) ∷ rest) = (low ≤ key) × AllOn key cores × IsGrouped (key + 1) rest

  lower : (low low' : ℕ) (xs : List ℕ) → low' ≤ low → Climbs low xs → Climbs low' xs
  lower low low' [] h climbs = tt
  lower low low' (x ∷ xs) h climbs = (omega (arith, h, climbs.0), climbs.1)

  cores-Climbs :
      (key low : ℕ) (cores rest : List ℕ)
      → low ≤ key
      → AllOn key cores
      → Climbs key rest
      → Climbs low (cores ++ rest)
  cores-Climbs key low [] rest h on climbs = lower key low rest h climbs
  cores-Climbs key low (x ∷ xs) rest h on climbs =
      (omega (arith, h, on.0), cores-Climbs key (numa x) xs rest (omega (arith, on.0)) on.1 climbs)

  all_cores-Climbs :
      (low : ℕ) (nodes : NodeCores) → IsGrouped low nodes → Climbs low (all_cores nodes)
  all_cores-Climbs low [] h = tt
  all_cores-Climbs low ((key, cores) ∷ rest) h =
      cores-Climbs key low cores (all_cores rest) h.0 h.1
        (lower (key + 1) key (all_cores rest) (omega arith) (all_cores-Climbs (key + 1) rest h.2))

  AllOn-append :
      (node x : ℕ) (xs : List ℕ) → numa x ≡ node → AllOn node xs → AllOn node (xs ++ (x ∷ []))
  AllOn-append node x [] e on = (e, tt)
  AllOn-append node x (y ∷ ys) e on = (on.0, AllOn-append node x ys e on.1)

  add_core-IsGrouped :
      (core low : ℕ) (nodes : NodeCores)
      → low ≤ numa core
      → IsGrouped low nodes
      → IsGrouped low (add_core (numa core) core nodes)
  add_core-IsGrouped core low [] h grouped = (h, (refl, tt), tt)
  add_core-IsGrouped core low ((key, cores) ∷ rest) h grouped =
      add_core-cases (IsGrouped low) (numa core) core key cores rest
        (λ e. (grouped.0, AllOn-append key core cores (sym e) grouped.1, grouped.2))
        (λ before. (h, (refl, tt), (omega (arith, before), grouped.1, grouped.2)))
        (λ behind. (
          grouped.0,
          grouped.1,
          add_core-IsGrouped core (key + 1) rest (omega (arith, behind)) grouped.2,
        ))

  Climbs-At : (low i x : ℕ) (xs : List ℕ) → Climbs low xs → At i x xs → low ≤ numa x
  Climbs-At low i x [] climbs at = absurd at
  Climbs-At low zero x (y ∷ ys) climbs at = omega (arith, climbs.0, ap numa at)
  Climbs-At low (suc i) x (y ∷ ys) climbs at =
      let rest = Climbs-At (numa y) i x ys climbs.1 at in omega (arith, climbs.0, rest)

  -- Of two cores the later one is on the same node or a higher one.
  Climbs-pair :
      (low i j x y : ℕ) (xs : List ℕ)
      → Climbs low xs
      → i ≤ j
      → At i x xs
      → At j y xs
      → numa x ≤ numa y
  Climbs-pair low i j x y [] climbs h at at' = absurd at
  Climbs-pair low zero zero x y (z ∷ zs) climbs h at at' = omega (arith, ap numa at, ap numa at')
  Climbs-pair low zero (suc j) x y (z ∷ zs) climbs h at at' =
      let rest = Climbs-At (numa z) j y zs climbs.1 at' in omega (arith, ap numa at, rest)
  Climbs-pair low (suc i) zero x y (z ∷ zs) climbs h at at' = absurd (omega (arith, h))
  Climbs-pair low (suc i) (suc j) x y (z ∷ zs) climbs h at at' =
      Climbs-pair (numa z) i j x y zs climbs.1 (omega (arith, h)) at at'

module _ (hardware_concurrency : ℕ) (numa_node_of_cpu : ℕ → ℕ) where
  node_cores-IsGrouped :
      (count : ℕ)
      → IsGrouped
          (numa_id hardware_concurrency numa_node_of_cpu)
          0
          (node_cores hardware_concurrency numa_node_of_cpu count)
  node_cores-IsGrouped zero = tt
  node_cores-IsGrouped (suc count) =
      add_core-IsGrouped (numa_id hardware_concurrency numa_node_of_cpu) count 0
        (node_cores hardware_concurrency numa_node_of_cpu count) (omega arith)
        (node_cores-IsGrouped count)

  length-node_cores :
      (count : ℕ)
      → length (all_cores (node_cores hardware_concurrency numa_node_of_cpu count)) ≡ count
  length-node_cores zero = refl
  length-node_cores (suc count) =
      length-add_core (numa_id hardware_concurrency numa_node_of_cpu count) count
        (node_cores hardware_concurrency numa_node_of_cpu count)
      ∙ omega (arith, length-node_cores count)

  node_cores-IsIn :
      (count core : ℕ)
      → core < count
      → IsIn core (all_cores (node_cores hardware_concurrency numa_node_of_cpu count))
  node_cores-IsIn zero core h = absurd (omega (arith, h))
  node_cores-IsIn (suc count) core h =
      add_core-IsIn (numa_id hardware_concurrency numa_node_of_cpu count) count core
        (node_cores hardware_concurrency numa_node_of_cpu count)
        (elim (ℕ_discrete core count) [
          | yes e ↦ inl e
          | no ne ↦ inr (node_cores-IsIn count core (omega (arith, h, ne)))
        ])

  -- On a machine whose number of cores is known, which is one where `count_cores` is not 0, in the
  -- order by NUMA node every core below the number of cores has a place below it, and of two
  -- places the later one has a core on the same NUMA node or on one with a higher number.
  pub numa_ascending_lem :
      (max_cores : ℕ)
      → 0 < count_cores hardware_concurrency
      → let n = real_max_cores hardware_concurrency max_cores in
        let order =
          generate_core_order hardware_concurrency numa_node_of_cpu numa_ascending max_cores in
        let numa = numa_id hardware_concurrency numa_node_of_cpu in
        ((core : ℕ) → core < n → (i : ℕ) × (i < n) × (order i ≡ core))
        × ((i j : ℕ) → i ≤ j → j < n → numa (order i) ≤ numa (order j))
  numa_ascending_lem max_cores known =
      let n = real_max_cores hardware_concurrency max_cores in
      let xs = all_cores (node_cores hardware_concurrency numa_node_of_cpu n) in
      let len = length-node_cores n in
      let at : (i x : ℕ) → At i x xs → place n 0 xs (λ i. 0) i ≡ x = λ i x h.
        ap (place n 0 xs (λ i. 0)) (omega arith)
        ∙ place-At n 0 xs (λ i. 0) i x (omega (arith, len)) h in
      (
        λ core below.
            let (i, within, h) = place_of core xs (node_cores-IsIn n core below) in
            (i, omega (arith, within, len), at i core h),
        λ i j h below.
            let (x, at_i) = element_of i xs (omega (arith, len, h, below)) in
            let (y, at_j) = element_of j xs (omega (arith, len, below)) in
            let numa = numa_id hardware_concurrency numa_node_of_cpu in
            let le =
              Climbs-pair numa 0 i j x y xs
                (all_cores-Climbs numa 0 (node_cores hardware_concurrency numa_node_of_cpu n)
                  (node_cores-IsGrouped n))
                h at_i at_j in
            rw (at i x at_i, at j y at_j) le,
      )
