-- ===== src/Double.antt =====
-- The C++ type `double`, which the program takes from the platform: an abstract type with the
-- operations that the code applies to it, and the documented IEEE 754 facts (round to nearest,
-- as `sp_certificate_fp_supported` demands) that the theorems take as hypotheses.
pub mod Femto
use ils_sp.Prelude.{
  ℕ, ◌≡◌, ◌↔◌, ◌⊎◌, Bool, true, false, not, ◌&&◌, if◌then◌else◌, arith, inl, inr, Bool-cases,
}
use ils_sp.Prelude.Int.{ℤ, pos, ◌+ℤ◌, ◌-ℤ◌, ◌≤ℤ◌, ◌<ℤ◌}

-- `decimal m e` is the literal `m` times ten to the power `-e`, so `1e-9` is `decimal 1 9`.
pub record Double (D : Type 0) : Type 0 where
  pub decimal : ℕ → ℕ → D
  pub lt : D → D → Bool
  pub le : D → D → Bool
  pub is_finite : D → Bool
  pub add : D → D → D
  pub sub : D → D → D
  pub mul : D → D → D
  pub div : D → D → D
  pub next_down : D → D
  pub next_up : D → D
  pub hypot : D → D → D
  pub infinity : D
  pub llround : D → ℤ
  pub same_bits : D → D → Bool

module _ {D : Type 0} ⦃d : Double D⦄ where
  -- `0.0`.
  abbrev pub nought : D
  nought = d.decimal 0 0

  -- `kCostTolerance`.
  abbrev pub cost_tolerance : D
  cost_tolerance = d.decimal 1 9

  -- `kEnergyToleranceWh` and `kTimeToleranceH`.
  abbrev pub energy_tolerance : D
  energy_tolerance = d.decimal 1 6

  abbrev pub time_tolerance : D
  time_tolerance = d.decimal 1 9

  -- `std::min`, `std::max` and `std::abs`: the first argument where the two compare equal.
  unfoldable pub fmin : D → D → D
  fmin a b = if d.lt b a then b else a

  unfoldable pub fmax : D → D → D
  fmax a b = if d.lt a b then b else a

  -- `std::clamp`.
  unfoldable pub clamp : D → D → D → D
  clamp v low high = if d.lt v low then low else if d.lt high v then high else v

  -- `-a`.
  abbrev pub negate : D → D
  negate a = d.sub nought a

  unfoldable pub fabs : D → D
  fabs a = if d.lt a nought then d.sub nought a else a

  -- `a == b`, and `a != b` as its negation: false whenever one of them is NaN.
  unfoldable pub feq : D → D → Bool
  feq a b = d.le a b && d.le b a

-- The order of the values that are no NaN. NaN is the value that is not `<=` itself.
pub record IsOrdered (D : Type 0) ⦃d : Double D⦄ : Type 0 where
  pub le_trans : (a b c : D) → d.le a b ≡ true → d.le b c ≡ true → d.le a c ≡ true
  pub refl_of_le : (a b : D) → d.le a b ≡ true → (d.le a a ≡ true) × (d.le b b ≡ true)
  pub le_total :
      (a b : D) → d.le a a ≡ true → d.le b b ≡ true → (d.le a b ≡ true) ⊎ (d.le b a ≡ true)
  pub lt-not-le : (a b : D) → d.le a a ≡ true → d.le b b ≡ true → d.lt a b ≡ not (d.le b a)
  pub le_of_lt : (a b : D) → d.lt a b ≡ true → d.le a b ≡ true
  pub refl_of_finite : (a : D) → d.is_finite a ≡ true → d.le a a ≡ true

-- Rounding keeps the order: a product with a factor above one is no smaller, a quotient no larger.
pub record IsScaled (D : Type 0) ⦃d : Double D⦄ : Type 0 where
  pub le_mul :
      (a f : D)
      → d.le (d.decimal 0 0) a ≡ true
      → d.lt (d.decimal 1 0) f ≡ true
      → d.is_finite f ≡ true
      → d.le a (d.mul a f) ≡ true
  pub div_le :
      (a f : D)
      → d.le (d.decimal 0 0) a ≡ true
      → d.lt (d.decimal 1 0) f ≡ true
      → d.is_finite f ≡ true
      → (d.le (d.div a f) a ≡ true)

-- Every finite double is a whole multiple of the smallest subnormal, so its exact value is an
-- integer. The neighbour of a rounded sum or difference lies on its side of the exact one.
pub record IsRounded (D : Type 0) ⦃d : Double D⦄ : Type 0 where
  pub value : D → ℤ
  pub finite_zero : d.is_finite (d.decimal 0 0) ≡ true
  pub value-zero : value (d.decimal 0 0) ≡ pos 0
  pub finite_tolerance : d.is_finite (d.decimal 1 9) ≡ true
  pub value-tolerance : pos 0 ≤ℤ value (d.decimal 1 9)
  pub lt_iff :
      (a b : D)
      → d.is_finite a ≡ true
      → d.is_finite b ≡ true
      → (d.lt a b ≡ true) ↔ (value a <ℤ value b)
  pub le_iff :
      (a b : D)
      → d.is_finite a ≡ true
      → d.is_finite b ≡ true
      → (d.le a b ≡ true) ↔ (value a ≤ℤ value b)
  pub down_add :
      (a b : D)
      → d.is_finite a ≡ true
      → d.is_finite b ≡ true
      → d.is_finite (d.add a b) ≡ true
      → d.is_finite (d.next_down (d.add a b)) ≡ true
      → value (d.next_down (d.add a b)) ≤ℤ value a +ℤ value b
  pub up_add :
      (a b : D)
      → d.is_finite a ≡ true
      → d.is_finite b ≡ true
      → d.is_finite (d.add a b) ≡ true
      → d.is_finite (d.next_up (d.add a b)) ≡ true
      → value a +ℤ value b ≤ℤ value (d.next_up (d.add a b))
  pub down_sub :
      (a b : D)
      → d.is_finite a ≡ true
      → d.is_finite b ≡ true
      → d.is_finite (d.sub a b) ≡ true
      → d.is_finite (d.next_down (d.sub a b)) ≡ true
      → value (d.next_down (d.sub a b)) ≤ℤ value a -ℤ value b
  pub up_sub :
      (a b : D)
      → d.is_finite a ≡ true
      → d.is_finite b ≡ true
      → d.is_finite (d.sub a b) ≡ true
      → d.is_finite (d.next_up (d.sub a b)) ≡ true
      → value a -ℤ value b ≤ℤ value (d.next_up (d.sub a b))

module _ {D : Type 0} ⦃d : Double D⦄ (ordered : IsOrdered D) where
  open ordered use {le_trans, refl_of_le, le_total, lt-not-le, le_of_lt}

  pub lt_trans : (a b c : D) → d.lt a b ≡ true → d.lt b c ≡ true → d.lt a c ≡ true
  lt_trans a b c p q = ground (
    arith,
    le_of_lt a b p,
    le_of_lt b c q,
    refl_of_le a b,
    refl_of_le b c,
    lt-not-le a b,
    lt-not-le b c,
    lt-not-le a c,
    le_trans b c a,
    le_trans c a b,
    le_trans a b c,
  )

  pub lt_irrefl : (a : D) → d.lt a a ≡ false
  lt_irrefl a = ground (arith, le_of_lt a a, lt-not-le a a)

  pub lt_asymm : (a b : D) → d.lt a b ≡ true → d.lt b a ≡ false
  lt_asymm a b h = ground (arith, lt_trans a b a, lt_irrefl a)

  -- `std::max` and `std::min` bound both arguments, where neither is NaN.
  pub fmin_bounds :
      (a b : D)
      → d.le a a ≡ true
      → d.le b b ≡ true
      → (d.le (fmin a b) a ≡ true) × (d.le (fmin a b) b ≡ true)
  unfolding fmin
  fmin_bounds a b p q = ground (arith, lt-not-le b a, le_total a b, le_of_lt b a)

  pub fmax_bounds :
      (a b : D)
      → d.le a a ≡ true
      → d.le b b ≡ true
      → (d.le a (fmax a b) ≡ true) × (d.le b (fmax a b) ≡ true)
  unfolding fmax
  fmax_bounds a b p q = ground (arith, lt-not-le a b, le_total a b, le_of_lt a b)
