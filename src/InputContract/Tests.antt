-- ===== src/InputContract/Tests.antt =====
-- Runs of include/ils_sp/detail/input_contract.hpp, and the theorems at those inputs.
use ils_sp.Prelude.{
  ℕ, ◌≤◌, ◌≡◌, ◌↔◌, refl, List, [], ◌∷◌, ◌++◌, arith, ok, throw, invalid_argument, length,
}
use ils_sp.Double.Femto.{femto_double}
use ils_sp.InputContract.{digits_from, is_digit, parse_nonnegative_integer}
use ils_sp.InputContract.Parsing.{
  digits_before, AllDigits, value_after, numeral, parse_nonnegative_integer_iff,
  parse_nonnegative_integer-numeral,
}

-- The largest value of a 32-bit `int`.
abbrev int_max : ℕ
int_max = 2147483647

abbrev forty_two : List ℕ
forty_two = 52 ∷ 50 ∷ []

numeral_of : numeral 42 ≡ forty_two
unfolding numeral digits_before
numeral_of = refl

-- A sign, a blank behind the digits, and the first number that is too large.
signed : parse_nonnegative_integer int_max (45 ∷ forty_two) ≡ throw invalid_argument
unfolding parse_nonnegative_integer is_digit
signed = refl

blank : parse_nonnegative_integer int_max (forty_two ++ 32 ∷ []) ≡ throw invalid_argument
unfolding parse_nonnegative_integer is_digit digits_from
blank = refl

too_large : parse_nonnegative_integer 41 forty_two ≡ throw invalid_argument
unfolding parse_nonnegative_integer is_digit digits_from
too_large = refl

parse_nonnegative_integer_iff_example : (parse_nonnegative_integer int_max forty_two ≡ ok 42) ↔ (
    (1 ≤ length forty_two) × AllDigits forty_two × (value_after 0 forty_two ≡ 42) × (42 ≤ int_max))
parse_nonnegative_integer_iff_example =
    parse_nonnegative_integer_iff int_max forty_two 42 (omega arith)

parse_nonnegative_integer-numeral_example : parse_nonnegative_integer int_max (numeral 42) ≡ ok 42
parse_nonnegative_integer-numeral_example =
    parse_nonnegative_integer-numeral int_max 42 (omega arith) (omega arith)
