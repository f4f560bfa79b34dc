-- ===== src/Util/CliArguments/Print.antt =====
-- What a user writes for the cores of a benchmark, as an independent description of parse_cores.
use btree_benchmarks.Prelude.{ℕ, zero, suc, ◌+◌, ◌/◌, ◌%◌, max, [], ◌∷◌, ◌++◌, ◌==◌, if◌then◌else◌}
use btree_benchmarks.Util.CliArguments.{Text}

-- The decimal digits of `n` in front of `out`; the fuel bounds the number of digits.
unfoldable pub digits : (fuel n : ℕ) → Text → Text
digits zero n out = out
digits (suc fuel) n out =
    let rest = digits fuel (n / 10) ((b'0' + n % 10) ∷ out) in
    if n / 10 == 0 then (b'0' + n % 10) ∷ out else rest

unfoldable pub decimal : ℕ → Text
unfolding digits
decimal n = digits (suc n) n []

-- A number of cores, the numbers from one on, or a range.
pub data Cores : Type 0 where
  single from : ℕ → Cores
  range : (min max : ℕ) → Cores

unfoldable pub print : Cores → Text
unfolding decimal
print (single n) = decimal n
print (from n) = decimal n ++ (b':' ∷ [])
print (range m n) = decimal m ++ (b':' ∷ decimal n)

unfoldable pub min_cores : Cores → ℕ
min_cores (single n) = n
min_cores (from n) = n
min_cores (range m n) = m

unfoldable pub max_cores : (count_cores : ℕ) → Cores → ℕ
max_cores count_cores (single n) = n
max_cores count_cores (from n) = count_cores
max_cores count_cores (range m n) = n

-- The largest number that is written.
unfoldable pub largest : Cores → ℕ
largest (single n) = n
largest (from n) = n
largest (range m n) = max m n
