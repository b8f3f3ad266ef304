-- ===== src/InputContract/Parsing.antt =====
-- `parse_nonnegative_integer` of include/ils_sp/detail/input_contract.hpp on decimal numerals.
use ils_sp.Prelude.{
  ℕ, zero, suc, ◌+◌, ◌-◌, ◌*◌, ◌≤◌, ◌<◌, ◌/◌, ◌%◌, ◌≡◌, refl, ap, ◌∙◌, ◌↔◌, true, false, not, ◌||◌,
  Bool-cases, inl, inr, List, [], ◌∷◌, All, length, ltb, if◌then◌else◌, arith, ok,
}
use ils_sp.InputContract.{
  is_digit, digits_from, is_empty, starts_with_digit, uintmax_max, parse_nonnegative_integer,
}

-- The value of a run of digits, to the left of which a value stands.
unfoldable pub value_after : ℕ → List ℕ → ℕ
value_after value [] = value
value_after value (c ∷ text) = value_after (value * 10 + (c - 48)) text

abbrev pub AllDigits : List ℕ → Type 0
AllDigits text = All (λ c. is_digit c ≡ true) text

digits_from-all :
    (v : ℕ) (text : List ℕ) → AllDigits text → digits_from v text ≡ (value_after v text, [])
unfolding digits_from value_after
digits_from-all v [] h = refl
digits_from-all v (c ∷ text) h = rw (h.0) (digits_from-all (v * 10 + (c - 48)) text h.1)

digits_from-rest : (v : ℕ) (text : List ℕ) → is_empty (digits_from v text).1 ≡ true → AllDigits text
unfolding digits_from
digits_from-rest v [] e = tt
digits_from-rest v (c ∷ text) e = elim (Bool-cases (is_digit c)) [
  | inl digit ↦ (digit, digits_from-rest (v * 10 + (c - 48)) text (rw digit at e))
  | inr other ↦ absurd (cc (rw other at e))
]

starts-AllDigits :
    (text : List ℕ) → 1 ≤ length text → AllDigits text → starts_with_digit text ≡ true
starts-AllDigits [] some_text h = absurd (omega arith)
starts-AllDigits (c ∷ text) some_text h = h.0

starts-length : (text : List ℕ) → starts_with_digit text ≡ true → 1 ≤ length text
starts-length [] h = absurd cc
starts-length (c ∷ text) h = omega arith

-- For an integer type whose largest value fits a `std::uintmax_t`: a text is read as a number
-- exactly when it is not empty, has digits only, and stands for that number, and the number does
-- not exceed the largest value of the type.
pub parse_nonnegative_integer_iff :
    (limit : ℕ) (text : List ℕ) (n : ℕ)
    → limit ≤ uintmax_max
    → (parse_nonnegative_integer limit text ≡ ok n)
      ↔ ((1 ≤ length text) × AllDigits text × (value_after 0 text ≡ n) × (n ≤ limit))
unfolding parse_nonnegative_integer
parse_nonnegative_integer_iff limit text n h = (
  (λ e. elim (Bool-cases (starts_with_digit text)) [
    | inr other ↦ absurd (cc (rw (parse_nonnegative_integer, other) at e))
    | inl digit ↦
        elim (Bool-cases (
          ltb uintmax_max (digits_from 0 text).0
          || not (is_empty (digits_from 0 text).1)
          || ltb limit (digits_from 0 text).0)) [
            | inl bad ↦ absurd (cc (rw (parse_nonnegative_integer, digit, bad) at e))
            | inr good ↦
                let digits = digits_from-rest 0 text (ground (arith, good)) in
                let all = digits_from-all 0 text digits in
                let value : (digits_from 0 text).0 ≡ n =
                  cc (rw (parse_nonnegative_integer, digit, good) at e) in
                (starts-length text digit, digits, rw all at value, ground (arith, good, value))
          ]
  ]),
  λ facts.
      let (some_text, digits, value, small) = facts in
      let fits : ltb uintmax_max (value_after 0 text) ≡ false = ground arith in
      let within : ltb limit (value_after 0 text) ≡ false = ground arith in
      rw
        (
          parse_nonnegative_integer,
          starts-AllDigits text some_text digits,
          digits_from-all 0 text digits,
          fits,
          within,
        )
        (ap ok value),
)

-- The decimal numeral of a number, as `std::to_string` writes it: the digits before some text, on
-- fuel above the number.
unfoldable pub digits_before : ℕ → ℕ → List ℕ → List ℕ
digits_before zero n text = text
digits_before (suc fuel) n text =
    let longer = (48 + n % 10) ∷ text in
    let rest = digits_before fuel (n / 10) longer in if ltb n 10 then longer else rest

unfoldable pub numeral : ℕ → List ℕ
numeral n = digits_before (suc n) n []

digit : (n : ℕ) → is_digit (48 + n % 10) ≡ true
unfolding is_digit
digit n = ground arith

digits_before-AllDigits :
    (fuel n : ℕ) (text : List ℕ) → AllDigits text → AllDigits (digits_before fuel n text)
unfolding digits_before
digits_before-AllDigits zero n text h = h
digits_before-AllDigits (suc fuel) n text h = elim (Bool-cases (ltb n 10)) [
  | inl last ↦ rw last (digit n, h)
  | inr more ↦ rw more (digits_before-AllDigits fuel (n / 10) ((48 + n % 10) ∷ text) (digit n, h))
]

digits_before-value :
    (fuel n : ℕ) (text : List ℕ)
    → n < fuel
    → value_after 0 (digits_before fuel n text) ≡ value_after n text
unfolding digits_before value_after
digits_before-value zero n text h = absurd (omega arith)
digits_before-value (suc fuel) n text h = elim (Bool-cases (ltb n 10)) [
  | inl last ↦
      let small : 0 * 10 + (48 + n % 10 - 48) ≡ n = ground (arith, last) in
      rw last (ap (λ v. value_after v text) small)
  | inr more ↦
      let whole : n / 10 * 10 + (48 + n % 10 - 48) ≡ n = omega arith in
      rw more (
        digits_before-value fuel (n / 10) ((48 + n % 10) ∷ text) (ground (arith, more, h))
        ∙ ap (λ v. value_after v text) whole)
]

digits_before-length :
    (fuel n : ℕ) (text : List ℕ) → length text ≤ length (digits_before fuel n text)
unfolding digits_before
digits_before-length zero n text = omega arith
digits_before-length (suc fuel) n text = elim (Bool-cases (ltb n 10)) [
  | inl last ↦ rw last (omega arith)
  | inr more ↦ rw more (omega (arith, digits_before-length fuel (n / 10) ((48 + n % 10) ∷ text)))
]

numeral-length : (n : ℕ) → 1 ≤ length (numeral n)
unfolding numeral digits_before
numeral-length n = elim (Bool-cases (ltb n 10)) [
  | inl last ↦ rw (numeral, digits_before, last) (omega arith)
  | inr more ↦
      rw (numeral, digits_before, more) (digits_before-length n (n / 10) ((48 + n % 10) ∷ []))
]

-- The numeral of a number that the integer type holds is read back as that number.
pub parse_nonnegative_integer-numeral :
    (limit n : ℕ)
    → limit ≤ uintmax_max
    → n ≤ limit
    → parse_nonnegative_integer limit (numeral n) ≡ ok n
unfolding numeral value_after
parse_nonnegative_integer-numeral limit n h small =
    (parse_nonnegative_integer_iff limit (numeral n) n h).1 (
      numeral-length n,
      digits_before-AllDigits (suc n) n [] tt,
      digits_before-value (suc n) n [] (omega arith),
      small,
    )
