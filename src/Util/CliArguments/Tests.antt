-- ===== src/Util/CliArguments/Tests.antt =====
-- The command line's cores at a few texts.
use btree_benchmarks.Prelude.{◌^◌, ◌≡◌, refl, [], ◌∷◌, none, some, arith, ltb, if◌then◌else◌}
use btree_benchmarks.Util.CliArguments.{to_uint16, split, parse_cores}
use btree_benchmarks.Util.CliArguments.Print.{range, from, print, min_cores, max_cores, largest}
use btree_benchmarks.Util.CliArguments.Cores.{parse_cores-largest, parse_cores-print}

print-range : print (range 1 12) ≡ b'1' ∷ b':' ∷ b'1' ∷ b'2' ∷ []
unfolding print
print-range = refl

-- "a;;b;"
split_end : split (b'a' ∷ b';' ∷ b';' ∷ b'b' ∷ b';' ∷ []) ≡ (b'a' ∷ []) ∷ [] ∷ (b'b' ∷ []) ∷ []
unfolding split
split_end = refl

-- Tokens that match nothing are passed over: "x;3"
later_token : parse_cores 8 (b'x' ∷ b';' ∷ b'3' ∷ []) ≡ some (3, 3)
unfolding parse_cores
later_token = refl

nothing_matches : parse_cores 8 (b':' ∷ b'3' ∷ []) ≡ some (0, 0)
unfolding parse_cores
nothing_matches = refl

parse_cores-largest_example : parse_cores 8 (print (range 1 65537)) ≡ (
    if ltb (largest (range 1 65537)) (2 ^ 31)
    then some (to_uint16 (min_cores (range 1 65537)), to_uint16 (max_cores 8 (range 1 65537)))
    else none)
parse_cores-largest_example = parse_cores-largest 8 (range 1 65537)

parse_cores-print_example :
    parse_cores 8 (print (from 4)) ≡ some (min_cores (from 4), max_cores 8 (from 4))
unfolding min_cores max_cores
parse_cores-print_example = parse_cores-print 8 (from 4) (omega arith) (omega arith)
