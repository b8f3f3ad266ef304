-- ===== src/InputContract.antt =====
-- include/ils_sp/detail/input_contract.hpp: the numbers that the command line and the solver accept.
pub mod Parsing
mod Tests
use ils_sp.Prelude.{
  ℕ, zero, suc, ◌+◌, ◌-◌, ◌*◌, ◌^◌, Bool, true, false, not, ◌&&◌, ◌||◌, List, [], ◌∷◌, Option, leb,
  ltb, if◌then◌else◌, Result, ok, throw, invalid_argument, throw_if,
}
use ils_sp.Prelude.Int.{ℤ, pos, ◌+ℤ◌, ◌-ℤ◌, ltb_ℤ}
use ils_sp.Double.{Double, nought}

-- Characters are bytes: '0' is 48 and '9' is 57.
unfoldable pub is_digit : ℕ → Bool
is_digit c = leb 48 c && leb c 57

abbrev pub uintmax_max : ℕ
uintmax_max = 2 ^ 64 - 1

-- `std::from_chars` on decimal digits: the value of the longest run of digits and what follows it.
unfoldable pub digits_from : ℕ → List ℕ → ℕ × List ℕ
digits_from value [] = (value, [])
digits_from value (c ∷ text) =
    let rest = digits_from (value * 10 + (c - 48)) text in
    if is_digit c then rest else (value, c ∷ text)

abbrev pub is_empty : List ℕ → Bool
is_empty [] = true
is_empty (c ∷ text) = false

abbrev pub starts_with_digit : List ℕ → Bool
starts_with_digit [] = false
starts_with_digit (c ∷ text) = is_digit c

-- `parse_nonnegative_integer`, for an integer type whose largest value is `limit`. A run of digits
-- above `uintmax_max` is `std::errc::result_out_of_range`.
unfoldable pub parse_nonnegative_integer : ℕ → List ℕ → Result ℕ
parse_nonnegative_integer limit value =
    if not (starts_with_digit value)
    then throw invalid_argument
    else let (parsed, rest) = digits_from 0 value in
      if ltb uintmax_max parsed || not (is_empty rest) || ltb limit parsed
      then throw invalid_argument
      else ok parsed

-- `Clock` of the platform: the count of `duration<double, Clock::period>(seconds)`, the exact
-- comparison of such a count with an integer, its conversion to `Rep`, the seconds of a count of
-- ticks, and the time point that the `long double` sum of a time point and some seconds stands for,
-- or none where that sum is not below the largest time point.
pub record ClockType (D : Type 0) : Type 0 where
  pub rep_max : ℕ
  pub ticks : D → D
  pub above : D → ℤ → Bool
  pub truncated : D → ℤ
  pub seconds : ℤ → D
  pub point_after : ℤ → D → Option ℤ

module _ {D : Type 0} ⦃d : Double D⦄ where
  -- `roundable_objective`; `LLONG_MAX` is 2^63 - 1.
  unfoldable pub roundable_objective : D → Bool
  roundable_objective value =
      let cents = d.mul value (d.decimal 100 0) in
      d.is_finite value
      && d.le nought value
      && d.is_finite cents
      && d.lt cents (d.decimal (2 ^ 63 - 1) 0)

  -- `validate_rounded_target`.
  unfoldable pub validate_rounded_target : D → Result (Unit {0})
  validate_rounded_target value = throw_if (not (roundable_objective value)) invalid_argument

  -- `checked_deadline_after`.
  unfoldable pub checked_deadline_after : ClockType D → ℤ → D → Result ℤ
  checked_deadline_after clock start seconds =
      let ticks = clock.ticks seconds in
      let maximum = pos clock.rep_max in
      if not (d.is_finite seconds) || d.le seconds nought
      then throw invalid_argument
      else if not (d.is_finite ticks)
          || clock.above ticks maximum
          || clock.above ticks (maximum -ℤ start)
      then throw invalid_argument
      else ok (start +ℤ clock.truncated ticks)
