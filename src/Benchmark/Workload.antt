-- ===== src/Benchmark/Workload.antt =====
-- src/benchmark/workload.h, workload.cpp, workload_tuple.h and workload_type.h: the operations of a
-- benchmark, read from two files. A file is the list of pairs that `>>` reads from it; `rand` gives
-- the values that std::rand returns after std::srand(1337), in order.
use btree_benchmarks.Prelude.{ℕ, ◌+◌, Bool, List, [], ◌∷◌, ◌++◌, ltb}
use btree_benchmarks.Blinktree.Node.{Key, Value}

pub data WorkloadPhase : Type 0 where
  fill : WorkloadPhase
  benchmark : WorkloadPhase

pub data Operation : Type 0 where
  insert : Operation
  lookup : Operation
  update : Operation

pub record WorkloadTuple : Type 0 where
  pub operation : Operation
  pub key : Key
  pub value : Value

-- The word in front of a key: "INSERT", "READ", "UPDATE" or any other.
pub data OperationName : Type 0 where
  insert_name : OperationName
  read_name : OperationName
  update_name : OperationName
  other_name : OperationName

-- What `parse_file` changes: the references that it is given, and how often std::rand was called.
pub record Parsed : Type 0 where
  pub tuples : List WorkloadTuple
  pub insert_counter : ℕ
  pub lookup_counter : ℕ
  pub update_counter : ℕ
  pub calls : ℕ

module _ (rand : ℕ → Value) where
  -- One round of the loop of `parse_file`.
  unfoldable pub parse_line : OperationName → Key → Parsed → Parsed
  parse_line insert_name key p = record p {
    tuples = p.tuples ++ (record { operation = insert; key = key; value = rand p.calls } ∷ []);
    insert_counter = p.insert_counter + 1;
    calls = p.calls + 1;
  }
  parse_line read_name key p = record p {
    tuples = p.tuples ++ (record { operation = lookup; key = key; value = 0 } ∷ []);
    lookup_counter = p.lookup_counter + 1;
  }
  parse_line update_name key p = record p {
    tuples = p.tuples ++ (record { operation = update; key = key; value = rand p.calls } ∷ []);
    update_counter = p.update_counter + 1;
    calls = p.calls + 1;
  }
  parse_line other_name key p = p

  unfoldable pub parse_file : List (OperationName × Key) → Parsed → Parsed
  unfolding parse_line
  parse_file [] p = p
  parse_file ((name, key) ∷ rest) p = parse_file rest (parse_line name key p)

pub record Workload : Type 0 where
  pub phase : WorkloadPhase
  pub fill_inserts : ℕ
  pub inserts : ℕ
  pub lookups : ℕ
  pub updates : ℕ
  pub fill_tuples : List WorkloadTuple
  pub workload_tuples : List WorkloadTuple

-- `Workload::load`. The lookups and updates of the fill file go to counters that are dropped, and
-- each call of `parse_file` seeds std::rand anew.
unfoldable pub load :
    (rand : ℕ → Value) (fill_file workload_file : List (OperationName × Key)) → Workload → Workload
unfolding parse_file
load rand fill_file workload_file w =
    let f = parse_file rand fill_file (record {
      tuples = w.fill_tuples;
      insert_counter = w.fill_inserts;
      lookup_counter = 0;
      update_counter = 0;
      calls = 0;
    }) in
    let b = parse_file rand workload_file (record {
      tuples = w.workload_tuples;
      insert_counter = w.inserts;
      lookup_counter = w.lookups;
      update_counter = w.updates;
      calls = 0;
    }) in
    record w {
      fill_tuples = f.tuples;
      fill_inserts = f.insert_counter;
      workload_tuples = b.tuples;
      inserts = b.insert_counter;
      lookups = b.lookup_counter;
      updates = b.update_counter;
    }

unfoldable pub count_benchmark_workload : Workload → ℕ
count_benchmark_workload w = w.lookups + w.inserts + w.updates

unfoldable pub count_current_phase : Workload → ℕ
unfolding count_benchmark_workload
count_current_phase w = elim w.phase [
  | fill ↦ w.fill_inserts
  | benchmark ↦ count_benchmark_workload w
]

unfoldable pub current_workload : Workload → List WorkloadTuple
current_workload w = elim w.phase [ fill ↦ w.fill_tuples | benchmark ↦ w.workload_tuples ]

unfoldable pub has_benchmark : Workload → Bool
unfolding count_benchmark_workload
has_benchmark w = ltb 0 (count_benchmark_workload w)
