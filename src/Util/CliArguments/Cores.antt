-- ===== src/Util/CliArguments/Cores.antt =====
-- What `parse_cores` reads from a print.
use btree_benchmarks.Prelude.{
  ℕ, ◌^◌, ◌<◌, ◌≡◌, refl, sym, ◌∙◌, ap, true, [], ◌∷◌, ◌++◌, Option, none, some, arith, ltb,
  if◌then◌else◌, append-nil,
}
use btree_benchmarks.Util.CliArguments.{
  Text, is_digit, take_digits, split, prepend, Match, single_core, from_core, core_range,
  match_last, match_first, regex_match, stoi, to_uint16, both, parse_token, parse_tokens,
  parse_cores,
}
use btree_benchmarks.Util.CliArguments.Digits.{
  IsNumeral, one, more, number-decimal, decimal-IsNumeral, take_digits-numeral,
}
use btree_benchmarks.Util.CliArguments.Print.{
  decimal, Cores, single, from, range, print, min_cores, max_cores, largest,
}

is_digit-split : (c : ℕ) (s : Text) → is_digit c ≡ true → split (c ∷ s) ≡ prepend c (split s)
unfolding is_digit split
is_digit-split c s d = ground arith

split-numeral : {s : Text} → IsNumeral s → split s ≡ s ∷ []
unfolding split prepend
split-numeral (one {c} d) = is_digit-split c [] d
split-numeral (more {c} {s} d numeral) =
    is_digit-split c s d ∙ ap (prepend c) (split-numeral numeral)

split-append :
    {s : Text} (rest : Text)
    → IsNumeral s
    → split rest ≡ rest ∷ []
    → split (s ++ rest) ≡ (s ++ rest) ∷ []
unfolding prepend
split-append rest (one {c} d) eq = is_digit-split c rest d ∙ ap (prepend c) eq
split-append rest (more {c} {s} d numeral) eq =
    is_digit-split c (s ++ rest) d ∙ ap (prepend c) (split-append rest numeral eq)

match-single : {s : Text} → IsNumeral s → match_first (s, []) ≡ single_core s
unfolding match_first
match-single (one d) = refl
match-single (more d numeral) = refl

match-colon :
    {s : Text} (rest : Text)
    → IsNumeral s
    → match_first (s, b':' ∷ rest) ≡ match_last s (take_digits rest)
unfolding match_first
match-colon rest (one d) = refl
match-colon rest (more d numeral) = refl

match-range :
    (first : Text) {s : Text} → IsNumeral s → match_last first (s, []) ≡ core_range first s
unfolding match_last
match-range first (one d) = refl
match-range first (more d numeral) = refl

-- The match that a print has.
match_of : Cores → Match
match_of (single n) = single_core (decimal n)
match_of (from n) = from_core (decimal n)
match_of (range m n) = core_range (decimal m) (decimal n)

take_digits-decimal : (n : ℕ) → take_digits (decimal n) ≡ (decimal n, [])
unfolding take_digits
take_digits-decimal n =
    ap take_digits (sym (append-nil (decimal n)))
    ∙ take_digits-numeral [] (decimal-IsNumeral n) refl

take_digits-colon :
    (n : ℕ) (rest : Text) → take_digits (decimal n ++ (b':' ∷ rest)) ≡ (decimal n, b':' ∷ rest)
unfolding take_digits is_digit
take_digits-colon n rest = take_digits-numeral (b':' ∷ rest) (decimal-IsNumeral n) refl

regex_match-print : (r : Cores) → regex_match (print r) ≡ match_of r
unfolding regex_match print match_of take_digits match_last
regex_match-print (single n) =
    ap match_first (take_digits-decimal n) ∙ match-single (decimal-IsNumeral n)
regex_match-print (from n) =
    ap match_first (take_digits-colon n []) ∙ match-colon [] (decimal-IsNumeral n)
regex_match-print (range m n) =
    ap match_first (take_digits-colon m (decimal n))
    ∙ match-colon (decimal n) (decimal-IsNumeral m)
    ∙ ap (match_last (decimal m)) (take_digits-decimal n)
    ∙ match-range (decimal m) (decimal-IsNumeral n)

split-print : (r : Cores) → split (print r) ≡ print r ∷ []
unfolding print split prepend
split-print (single n) = split-numeral (decimal-IsNumeral n)
split-print (from n) = split-append (b':' ∷ []) (decimal-IsNumeral n) refl
split-print (range m n) =
    split-append (b':' ∷ decimal n) (decimal-IsNumeral m)
      (ap (prepend b':') (split-numeral (decimal-IsNumeral n)))

stoi-decimal : (n : ℕ) → stoi (decimal n) ≡ (if ltb n (2 ^ 31) then some n else none)
unfolding stoi
stoi-decimal n = simp (number-decimal n)

parse_token-print :
    (count_cores : ℕ) (r : Cores) (next : Option (ℕ × ℕ))
    → parse_token count_cores (match_of r) next ≡ (
        if ltb (largest r) (2 ^ 31)
        then some (to_uint16 (min_cores r), to_uint16 (max_cores count_cores r))
        else none)
unfolding parse_token match_of both largest min_cores max_cores
parse_token-print count_cores (single n) next = simp (stoi-decimal n) (ground arith)
parse_token-print count_cores (from n) next = simp (stoi-decimal n) (ground arith)
parse_token-print count_cores (range m n) next =
    simp (stoi-decimal m, stoi-decimal n) (ground arith)

-- The text of a choice of cores is read without an exception when the numbers in it are below 2^31,
-- and its numbers are then those that are left in 16 bits; otherwise std::out_of_range is thrown.
pub parse_cores-largest :
    (count_cores : ℕ) (r : Cores)
    → parse_cores count_cores (print r) ≡ (
        if ltb (largest r) (2 ^ 31)
        then some (to_uint16 (min_cores r), to_uint16 (max_cores count_cores r))
        else none)
unfolding parse_cores parse_tokens
parse_cores-largest count_cores r =
    ap (parse_tokens count_cores) (split-print r)
    ∙ ap (λ m. parse_token count_cores m (some (0, 0))) (regex_match-print r)
    ∙ parse_token-print count_cores r (some (0, 0))

largest-lt :
    (count_cores : ℕ) (r : Cores)
    → min_cores r < 2 ^ 16
    → max_cores count_cores r < 2 ^ 16
    → largest r < 2 ^ 31
unfolding largest min_cores max_cores
largest-lt count_cores (single n) small_min small_max = omega (arith, small_min)
largest-lt count_cores (from n) small_min small_max = omega (arith, small_min)
largest-lt count_cores (range m n) small_min small_max = omega (arith, small_min, small_max)

-- The text of a choice of cores whose numbers fit in 16 bits is read back as these numbers: "4" is
-- from 4 to 4, "4:" from 4 to the number of cores of the machine, and "1:4" from 1 to 4.
pub parse_cores-print :
    (count_cores : ℕ) (r : Cores)
    → min_cores r < 2 ^ 16
    → max_cores count_cores r < 2 ^ 16
    → parse_cores count_cores (print r) ≡ some (min_cores r, max_cores count_cores r)
parse_cores-print count_cores r small_min small_max =
    parse_cores-largest count_cores r ∙ ground (arith, largest-lt count_cores r small_min small_max)
