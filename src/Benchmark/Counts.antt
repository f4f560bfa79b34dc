-- ===== src/Benchmark/Counts.antt =====
-- `Workload::parse_file` and `Workload::load` of src/benchmark/workload.cpp: what the counters count.
use btree_benchmarks.Prelude.{ℕ, zero, suc, ◌+◌, ◌≡◌, refl, List, [], ◌∷◌, ◌++◌, arith, length}
use btree_benchmarks.Blinktree.Node.{Key, Value}
use btree_benchmarks.Benchmark.Workload.{
  Operation, insert, lookup, update, WorkloadTuple, OperationName, insert_name, read_name,
  update_name, other_name, Parsed, parse_line, parse_file, Workload, load, count_benchmark_workload,
}

-- How many of the tuples are of each kind.
unfoldable pub count_inserts : List WorkloadTuple → ℕ
count_inserts [] = 0
count_inserts (x ∷ xs) =
    elim x.operation [ insert ↦ 1 | lookup ↦ 0 | update ↦ 0 ] + count_inserts xs

unfoldable pub count_lookups : List WorkloadTuple → ℕ
count_lookups [] = 0
count_lookups (x ∷ xs) =
    elim x.operation [ insert ↦ 0 | lookup ↦ 1 | update ↦ 0 ] + count_lookups xs

unfoldable pub count_updates : List WorkloadTuple → ℕ
count_updates [] = 0
count_updates (x ∷ xs) =
    elim x.operation [ insert ↦ 0 | lookup ↦ 0 | update ↦ 1 ] + count_updates xs

-- The counters are those of the tuples.
pub record IsCounted (p : Parsed) : Type 0 where
  pub inserts_counted : p.insert_counter ≡ count_inserts p.tuples
  pub lookups_counted : p.lookup_counter ≡ count_lookups p.tuples
  pub updates_counted : p.update_counter ≡ count_updates p.tuples

count_inserts-append :
    (xs ys : List WorkloadTuple) → count_inserts (xs ++ ys) ≡ count_inserts xs + count_inserts ys
unfolding count_inserts
count_inserts-append [] ys = omega arith
count_inserts-append (x ∷ xs) ys = rw (count_inserts-append xs ys) (omega arith)

count_lookups-append :
    (xs ys : List WorkloadTuple) → count_lookups (xs ++ ys) ≡ count_lookups xs + count_lookups ys
unfolding count_lookups
count_lookups-append [] ys = omega arith
count_lookups-append (x ∷ xs) ys = rw (count_lookups-append xs ys) (omega arith)

count_updates-append :
    (xs ys : List WorkloadTuple) → count_updates (xs ++ ys) ≡ count_updates xs + count_updates ys
unfolding count_updates
count_updates-append [] ys = omega arith
count_updates-append (x ∷ xs) ys = rw (count_updates-append xs ys) (omega arith)

parse_line-IsCounted :
    (rand : ℕ → Value) (name : OperationName) (key : Key) (p : Parsed)
    → IsCounted p
    → IsCounted (parse_line rand name key p)
unfolding parse_line count_inserts count_lookups count_updates
parse_line-IsCounted rand insert_name key p c = record {
  inserts_counted = rw (count_inserts-append p.tuples _) (omega (arith, c.inserts_counted));
  lookups_counted = rw (count_lookups-append p.tuples _) (omega (arith, c.lookups_counted));
  updates_counted = rw (count_updates-append p.tuples _) (omega (arith, c.updates_counted));
}
parse_line-IsCounted rand read_name key p c = record {
  inserts_counted = rw (count_inserts-append p.tuples _) (omega (arith, c.inserts_counted));
  lookups_counted = rw (count_lookups-append p.tuples _) (omega (arith, c.lookups_counted));
  updates_counted = rw (count_updates-append p.tuples _) (omega (arith, c.updates_counted));
}
parse_line-IsCounted rand update_name key p c = record {
  inserts_counted = rw (count_inserts-append p.tuples _) (omega (arith, c.inserts_counted));
  lookups_counted = rw (count_lookups-append p.tuples _) (omega (arith, c.lookups_counted));
  updates_counted = rw (count_updates-append p.tuples _) (omega (arith, c.updates_counted));
}
parse_line-IsCounted rand other_name key p c = c

-- If the counters are those of the tuples, they are so after `parse_file`.
pub parse_file-IsCounted :
    (rand : ℕ → Value) (file : List (OperationName × Key)) (p : Parsed)
    → IsCounted p
    → IsCounted (parse_file rand file p)
unfolding parse_file
parse_file-IsCounted rand [] p c = c
parse_file-IsCounted rand ((name, key) ∷ rest) p c =
    parse_file-IsCounted rand rest (parse_line rand name key p)
      (parse_line-IsCounted rand name key p c)

one_kind :
    (o : Operation)
    → elim o [ insert ↦ 0 | lookup ↦ 1 | update ↦ 0 ]
        + elim o [ insert ↦ 1 | lookup ↦ 0 | update ↦ 0 ]
        + elim o [ insert ↦ 0 | lookup ↦ 0 | update ↦ 1 ]
      ≡ suc zero
one_kind insert = refl
one_kind lookup = refl
one_kind update = refl

count-length :
    (xs : List WorkloadTuple) → count_lookups xs + count_inserts xs + count_updates xs ≡ length xs
unfolding count_inserts count_lookups count_updates
count-length [] = refl
count-length (x ∷ xs) = omega (arith, count-length xs, one_kind x.operation)

none_counted : (0 ≡ count_inserts []) × (0 ≡ count_lookups []) × (0 ≡ count_updates [])
unfolding count_inserts count_lookups count_updates
none_counted = (refl, refl, refl)

-- After `load` into an empty workload, the size of the benchmark phase is the number of its tuples,
-- and the fill phase counts the insertions of its tuples.
pub load-count :
    (rand : ℕ → Value) (fill_file workload_file : List (OperationName × Key)) (w : Workload)
    → w.fill_tuples ≡ []
    → w.workload_tuples ≡ []
    → w.fill_inserts ≡ 0
    → w.inserts ≡ 0
    → w.lookups ≡ 0
    → w.updates ≡ 0
    → (count_benchmark_workload (load rand fill_file workload_file w)
        ≡ length (load rand fill_file workload_file w).workload_tuples)
      × ((load rand fill_file workload_file w).fill_inserts
          ≡ count_inserts (load rand fill_file workload_file w).fill_tuples)
unfolding load count_benchmark_workload
load-count rand fill_file workload_file w ef ew e₀ e₁ e₂ e₃ =
    let f =
      parse_file-IsCounted rand fill_file
        (record {
          tuples = w.fill_tuples;
          insert_counter = w.fill_inserts;
          lookup_counter = 0;
          update_counter = 0;
          calls = 0;
        })
        (record {
          inserts_counted = rw (ef, e₀) none_counted.0;
          lookups_counted = rw ef none_counted.1;
          updates_counted = rw ef none_counted.2;
        }) in
    let b =
      parse_file-IsCounted rand workload_file
        (record {
          tuples = w.workload_tuples;
          insert_counter = w.inserts;
          lookup_counter = w.lookups;
          update_counter = w.updates;
          calls = 0;
        })
        (record {
          inserts_counted = rw (ew, e₁) none_counted.0;
          lookups_counted = rw (ew, e₂) none_counted.1;
          updates_counted = rw (ew, e₃) none_counted.2;
        }) in
    (
      omega (
        arith,
        b.inserts_counted,
        b.lookups_counted,
        b.updates_counted,
        count-length (load rand fill_file workload_file w).workload_tuples,
      ),
      f.inserts_counted,
    )
