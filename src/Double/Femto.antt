-- ===== src/Double/Femto.antt =====
-- A concrete `Double`: fixed-point numbers with fifteen decimals, and `none` for NaN. It shows that
-- the hypotheses on `double` can be met, and runs the tests.
use native.Mathlib.Nat.{le-div_iff_mul-le, div-le_of_le-mul, mul-le-mul_left, mul_comm}
use ils_sp.Prelude.{
  ℕ, ◌+◌, ◌*◌, ◌/◌, ◌^◌, ◌≤◌, ◌<◌, ◌≡◌, refl, ◌↔◌, Bool, true, false, Option, none, some, arith,
}
use ils_sp.Prelude.Int.{
  ℤ, pos, negsuc, ◌+ℤ◌, ◌-ℤ◌, ◌≤ℤ◌, ◌<ℤ◌, ltb_ℤ, leb_ℤ, eqb_ℤ, eqb_ℤ_iff, pos_part, neg_part, sub_ℕ,
  int_laws,
}
use ils_sp.Double.{Double, IsOrdered, IsRounded, IsScaled}

abbrev pub Femto : Type 0
Femto = Option ℤ

abbrev on_values : (ℤ → ℤ → Bool) → Femto → Femto → Bool
on_values f (some a) (some b) = f a b
on_values f _ _ = false

abbrev with_values : (ℤ → ℤ → ℤ) → Femto → Femto → Femto
with_values f (some a) (some b) = some (f a b)
with_values f _ _ = none

abbrev is_some : Femto → Bool
is_some (some a) = true
is_some none = false

-- The product and the quotient of the two signs' parts, cut to fifteen decimals.
abbrev scaled : ℤ → ℤ → ℤ
scaled a b =
    sub_ℕ ((pos_part a * pos_part b + neg_part a * neg_part b) / 10 ^ 15)
      ((pos_part a * neg_part b + neg_part a * pos_part b) / 10 ^ 15)

abbrev quotient : ℤ → ℤ → ℤ
quotient a (pos b) = sub_ℕ (pos_part a * 10 ^ 15 / b) (neg_part a * 10 ^ 15 / b)
quotient a (negsuc b) = sub_ℕ (neg_part a * 10 ^ 15 / (b + 1)) (pos_part a * 10 ^ 15 / (b + 1))

abbrev map_value : (ℤ → ℤ) → Femto → Femto
map_value f (some a) = some (f a)
map_value f none = none

abbrev value_or : Femto → ℤ
value_or (some a) = a
value_or none = pos 0

abbrev whole : ℕ → ℕ
whole n = (n + 5 * 10 ^ 14) / 10 ^ 15

abbrev rounded : Femto → ℤ
rounded (some (pos n)) = pos (whole n)
rounded (some (negsuc n)) = sub_ℕ 0 (whole (n + 1))
rounded none = pos 0

abbrev same_value : Femto → Femto → Bool
same_value (some a) (some b) = eqb_ℤ a b
same_value none none = true
same_value _ _ = false

instance abbrev pub femto_double : Double Femto
femto_double = record {
  decimal = λ m e. some (pos (m * 10 ^ 15 / 10 ^ e));
  lt = on_values ltb_ℤ;
  le = on_values leb_ℤ;
  is_finite = is_some;
  add = with_values ◌+ℤ◌;
  sub = with_values ◌-ℤ◌;
  mul = with_values scaled;
  div = with_values quotient;
  next_down = map_value (λ a. a -ℤ pos 1);
  next_up = map_value (λ a. a +ℤ pos 1);
  hypot = with_values (λ a b. pos (pos_part a + neg_part a + (pos_part b + neg_part b)));
  infinity = none;
  llround = rounded;
  same_bits = same_value;
}

pub Femto-IsOrdered : IsOrdered Femto
Femto-IsOrdered = record {
  le_trans = ground arith;
  refl_of_le = ground arith;
  le_total = ground arith;
  lt-not-le = ground arith;
  le_of_lt = ground arith;
  refl_of_finite = ground arith;
}

sub_one_le : (a : ℤ) → a -ℤ pos 1 ≤ℤ a
sub_one_le a = omega int_laws

le_add_one : (a : ℤ) → a ≤ℤ a +ℤ pos 1
le_add_one a = omega int_laws

pub down_value :
    (f : ℤ → ℤ → ℤ) (a b : Femto)
    → is_some a ≡ true
    → is_some b ≡ true
    → value_or (map_value (λ c. c -ℤ pos 1) (with_values f a b)) ≤ℤ f (value_or a) (value_or b)
down_value f (some a) (some b) p q = sub_one_le (f a b)
down_value f none _ p q = cc
down_value f (some a) none p q = cc

pub up_value :
    (f : ℤ → ℤ → ℤ) (a b : Femto)
    → is_some a ≡ true
    → is_some b ≡ true
    → f (value_or a) (value_or b) ≤ℤ value_or (map_value (λ c. c +ℤ pos 1) (with_values f a b))
up_value f (some a) (some b) p q = le_add_one (f a b)
up_value f none _ p q = cc
up_value f (some a) none p q = cc

pub lt_values :
    (a b : Femto)
    → is_some a ≡ true
    → is_some b ≡ true
    → (on_values ltb_ℤ a b ≡ true) ↔ (value_or a <ℤ value_or b)
lt_values (some a) (some b) p q = ground arith
lt_values none _ p q = absurd (cc)
lt_values (some a) none p q = absurd (cc)

pub le_values :
    (a b : Femto)
    → is_some a ≡ true
    → is_some b ≡ true
    → (on_values leb_ℤ a b ≡ true) ↔ (value_or a ≤ℤ value_or b)
le_values (some a) (some b) p q = ground arith
le_values none _ p q = absurd (cc)
le_values (some a) none p q = absurd (cc)

unfoldable pub Femto-IsRounded : IsRounded Femto
Femto-IsRounded = record {
  value = value_or;
  finite_zero = refl;
  value-zero = refl;
  finite_tolerance = refl;
  value-tolerance = omega arith;
  lt_iff = lt_values;
  le_iff = le_values;
  down_add = λ a b p q _ _. down_value ◌+ℤ◌ a b p q;
  up_add = λ a b p q _ _. up_value ◌+ℤ◌ a b p q;
  down_sub = λ a b p q _ _. down_value ◌-ℤ◌ a b p q;
  up_sub = λ a b p q _ _. up_value ◌-ℤ◌ a b p q;
}

pub same_value_iff : (a b : Femto) → (same_value a b ≡ true) ↔ (a ≡ b)
same_value_iff (some a) (some b) = ground (arith, eqb_ℤ_iff a b)
same_value_iff (some a) none = ground arith
same_value_iff none (some b) = ground arith
same_value_iff none none = ground arith

scaled_le : (a f : ℕ) → 10 ^ 15 < f → a ≤ a * f / 10 ^ 15
scaled_le a f h = (le-div_iff_mul-le (omega arith)).1 (mul-le-mul_left a (omega arith))

quotient_le : (a f : ℕ) → 10 ^ 15 < f → a * 10 ^ 15 / f ≤ a
quotient_le a f h = div-le_of_le-mul f (rw (mul_comm f a) (mul-le-mul_left a (omega arith)))

le_sub : (a x y : ℕ) → a ≤ x → y ≡ 0 → leb_ℤ (pos a) (sub_ℕ x y) ≡ true
le_sub a x y h e = ground arith

sub_le : (a x y : ℕ) → x ≤ a → leb_ℤ (sub_ℕ x y) (pos a) ≡ true
sub_le a x y h = ground arith

mul_grows :
    (a f : Femto)
    → on_values leb_ℤ (some (pos 0)) a ≡ true
    → on_values ltb_ℤ (some (pos (10 ^ 15))) f ≡ true
    → is_some f ≡ true
    → on_values leb_ℤ a (with_values scaled a f) ≡ true
mul_grows (some (pos a)) (some (pos f)) p q r =
    le_sub a ((a * f + 0 * 0) / 10 ^ 15) ((a * 0 + 0 * f) / 10 ^ 15)
      (omega (arith, scaled_le a f (ground (arith, q)))) (omega arith)
mul_grows (some (negsuc a)) _ p q r = absurd (ground (arith, p))
mul_grows (some (pos a)) (some (negsuc f)) p q r = absurd (ground (arith, q))
mul_grows (some (pos a)) none p q r = absurd cc
mul_grows none _ p q r = absurd cc

div_shrinks :
    (a f : Femto)
    → on_values leb_ℤ (some (pos 0)) a ≡ true
    → on_values ltb_ℤ (some (pos (10 ^ 15))) f ≡ true
    → is_some f ≡ true
    → on_values leb_ℤ (with_values quotient a f) a ≡ true
div_shrinks (some (pos a)) (some (pos f)) p q r =
    sub_le a (a * 10 ^ 15 / f) (0 * 10 ^ 15 / f) (quotient_le a f (ground (arith, q)))
div_shrinks (some (negsuc a)) _ p q r = absurd (ground (arith, p))
div_shrinks (some (pos a)) (some (negsuc f)) p q r = absurd (ground (arith, q))
div_shrinks (some (pos a)) none p q r = absurd cc
div_shrinks none _ p q r = absurd cc

pub Femto-IsScaled : IsScaled Femto
Femto-IsScaled = record { le_mul = mul_grows; div_le = div_shrinks }
