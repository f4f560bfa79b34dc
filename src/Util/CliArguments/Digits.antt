-- ===== src/Util/CliArguments/Digits.antt =====
-- The digits of a number: they are digits, and read back they are the number.
use btree_benchmarks.Prelude.{
  ℕ, zero, suc, ◌+◌, ◌/◌, ◌%◌, ◌<◌, ◌≡◌, true, [], ◌∷◌, ◌++◌, arith, inl, inr, ◌==◌, Bool-cases,
}
use btree_benchmarks.Util.CliArguments.{Text, is_digit, take_digits, number}
use btree_benchmarks.Util.CliArguments.Print.{digits, decimal}

-- The text is a digit and digits behind it.
pub data IsNumeral : Text → Type 0 where
  one : {c : ℕ} → is_digit c ≡ true → IsNumeral (c ∷ [])
  more : {c : ℕ} {s : Text} → is_digit c ≡ true → IsNumeral s → IsNumeral (c ∷ s)

is_digit-last : (n : ℕ) → is_digit (b'0' + n % 10) ≡ true
unfolding is_digit
is_digit-last n = ground arith

number-digits : (fuel n : ℕ) (out : Text) → n < fuel → number 0 (digits fuel n out) ≡ number n out
unfolding number digits
number-digits zero n out lt = absurd (omega (arith, lt))
number-digits (suc fuel) n out lt =
    ground (arith, number-digits fuel (n / 10) ((b'0' + n % 10) ∷ out))

pub number-decimal : (n : ℕ) → number 0 (decimal n) ≡ n
unfolding decimal number
number-decimal n = number-digits (suc n) n [] (omega arith)

digits-IsNumeral :
    (fuel n : ℕ) (out : Text)
    → n < fuel
    → ((c : ℕ) → is_digit c ≡ true → IsNumeral (c ∷ out))
    → IsNumeral (digits fuel n out)
unfolding digits
digits-IsNumeral zero n out lt start = absurd (omega (arith, lt))
digits-IsNumeral (suc fuel) n out lt start =
    let first = start (b'0' + n % 10) (is_digit-last n) in
    elim (Bool-cases (n / 10 == 0)) [
      | inl h ↦ rw h first
      | inr h ↦ rw h (
          digits-IsNumeral fuel (n / 10) ((b'0' + n % 10) ∷ out) (ground (arith, lt, h))
            λ c d. more d first)
    ]

pub decimal-IsNumeral : (n : ℕ) → IsNumeral (decimal n)
unfolding decimal
decimal-IsNumeral n = digits-IsNumeral (suc n) n [] (omega arith) λ c d. one d

-- `\d+` takes the numeral when no digit stands behind it.
pub take_digits-numeral :
    {s : Text} (rest : Text)
    → IsNumeral s
    → take_digits rest ≡ ([], rest)
    → take_digits (s ++ rest) ≡ (s, rest)
unfolding take_digits
take_digits-numeral rest (one d) stop = simp (d, stop)
take_digits-numeral rest (more d numeral) stop = simp (d, take_digits-numeral rest numeral stop)
