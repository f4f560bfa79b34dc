-- ===== src/Util/CliArguments.antt =====
-- `CLIArguments::parse_cores` of src/util/cli_arguments.h: the numbers of cores of a benchmark, read
-- from a text such as "4", "4:" or "1:4". A text is the list of its characters' codes.
mod Digits
pub mod Print
pub mod Cores
mod Tests
use btree_benchmarks.Prelude.{
  ℕ, ◌+◌, ◌-◌, ◌*◌, ◌%◌, ◌^◌, Bool, true, false, ◌&&◌, List, [], ◌∷◌, Option, none, some, ltb, leb,
  ◌==◌, if◌then◌else◌,
}

abbrev pub Text : Type 0
Text = List ℕ

-- `std::getline(stream, token, ';')` until it fails: the tokens of a text. A text that ends in ';'
-- has no empty token behind it.
unfoldable pub prepend : ℕ → List Text → List Text
prepend c [] = (c ∷ []) ∷ []
prepend c (token ∷ tokens) = (c ∷ token) ∷ tokens

unfoldable pub split : Text → List Text
unfolding prepend
split [] = []
split (c ∷ s) = if c == b';' then [] ∷ split s else prepend c (split s)

unfoldable pub is_digit : ℕ → Bool
is_digit c = leb b'0' c && leb c b'9'

-- `\d+`, which takes as many digits as there are, and the text behind it
unfoldable pub take_digits : Text → Text × Text
unfolding is_digit
take_digits [] = ([], [])
take_digits (c ∷ s) =
    let (digits, rest) = take_digits s in if is_digit c then (c ∷ digits, rest) else ([], c ∷ s)

-- What `std::regex_match` finds: the groups of the expression that matches first.
pub data Match : Type 0 where
  single_core : (core : Text) → Match  -- (\d+)$
  from_core : (first : Text) → Match  -- (\d+):$
  core_range : (first last : Text) → Match  -- (\d+):(\d+)
  no_match : Match

unfoldable pub match_last : (first : Text) → Text × Text → Match
match_last first ([], []) = from_core first
match_last first ([], c ∷ s) = no_match
match_last first (d ∷ last, []) = core_range first (d ∷ last)
match_last first (d ∷ last, c ∷ s) = no_match

unfoldable pub match_first : Text × Text → Match
unfolding match_last take_digits
match_first ([], s) = no_match
match_first (d ∷ first, []) = single_core (d ∷ first)
match_first (d ∷ first, c ∷ s) =
    if c == b':' then match_last (d ∷ first) (take_digits s) else no_match

unfoldable pub regex_match : Text → Match
unfolding match_first take_digits
regex_match token = match_first (take_digits token)

-- The number that digits spell behind `n`, with no bound.
unfoldable pub number : ℕ → Text → ℕ
number n [] = n
number n (c ∷ s) = number (n * 10 + (c - b'0')) s

-- `std::stoi`, which throws std::out_of_range on a number that an int does not hold
unfoldable pub stoi : Text → Option ℕ
unfolding number
stoi digits = if ltb (number 0 digits) (2 ^ 31) then some (number 0 digits) else none

-- An int as a std::uint16_t.
abbrev pub to_uint16 : ℕ → ℕ
to_uint16 n = n % 2 ^ 16

unfoldable pub both : Option ℕ → Option ℕ → Option (ℕ × ℕ)
both (some min) (some max) = some (to_uint16 min, to_uint16 max)
both none max = none
both (some min) none = none

-- `none` stands for the exception; `count_cores` is what hardware::System::count_cores returns.
unfoldable pub parse_token : (count_cores : ℕ) → Match → Option (ℕ × ℕ) → Option (ℕ × ℕ)
unfolding both stoi
parse_token count_cores (single_core core) next = both (stoi core) (stoi core)
parse_token count_cores (from_core first) next = both (stoi first) (some count_cores)
parse_token count_cores (core_range first last) next = both (stoi first) (stoi last)
parse_token count_cores no_match next = next

unfoldable pub parse_tokens : (count_cores : ℕ) → List Text → Option (ℕ × ℕ)
unfolding parse_token regex_match
parse_tokens count_cores [] = some (0, 0)
parse_tokens count_cores (token ∷ tokens) =
    parse_token count_cores (regex_match token) (parse_tokens count_cores tokens)

unfoldable pub parse_cores : (count_cores : ℕ) → Text → Option (ℕ × ℕ)
unfolding parse_tokens split
parse_cores count_cores cores = parse_tokens count_cores (split cores)
