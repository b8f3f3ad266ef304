-- ===== src/Certificate/Rows.antt =====
-- The incidence loop of sp_dual_certificate.hpp against the exact sums: `base` and the rounded-up
-- products `A^T y`.
use ils_sp.Prelude.{
  ℕ, zero, suc, ◌+◌, ◌<◌, ◌≡◌, refl, ◌∙◌, Bool, true, false, Bool-cases, inl, inr, some, List, [],
  ◌∷◌, length, get_or, set, length-set, All, arith, leb, nat_eq, to_nat, ◌||◌,
}
use ils_sp.Prelude.Int.{◌+ℤ◌, ◌≤ℤ◌, int_laws, parts_of_eq}
use mathlib.Core.Path.{subst}
use ils_sp.Double.{Double, IsRounded, nought}
use ils_sp.Certificate.{Cover, enter_column, up, cover_row}
use ils_sp.Certificate.Exact.{hits, times, chosen_sum, chosen_sum-set, raised_sum, times-add}
use ils_sp.Certificate.Directed.{up_flag, up_sum}

module _ {D : Type 0} ⦃d : Double D⦄ where
  enter_column-flag :
      (selected : List Bool) (i : ℕ) (y : D) (j : ℕ) (s : Cover D)
      → (enter_column selected i y j s).finite ≡ true
      → s.finite ≡ true
  unfolding enter_column
  enter_column-flag selected i y j s h = (up_flag _ s.finite h).0

  pub cover_row-flag :
      (columns : ℕ) (selected : List Bool) (i : ℕ) (y : D) (row : List ℕ) (s t : Cover D)
      → cover_row columns selected i y row s ≡ some t
      → t.finite ≡ true
      → s.finite ≡ true
  unfolding cover_row
  cover_row-flag columns selected i y [] s t e f = let same : s ≡ t = cc in rw same f
  cover_row-flag columns selected i y (j ∷ row) s t e f =
      elim (Bool-cases (leb columns j || nat_eq (get_or s.seen j 0) i)) [
        | inl bad ↦ cc (rw bad at e)
        | inr good ↦
            enter_column-flag selected i y j s
              (cover_row-flag columns selected i y row _ t (rw good at e) f)
      ]

module _ {D : Type 0} ⦃d : Double D⦄ (rounded : IsRounded D) where
  open rounded use {value, finite_zero}

  abbrev pub Finite : List D → Type 0
  Finite = All (λ a. d.is_finite a ≡ true)

  pub Finite-get_or : (xs : List D) (j : ℕ) → Finite xs → d.is_finite (get_or xs j nought) ≡ true
  Finite-get_or [] j h = finite_zero
  Finite-get_or (x ∷ xs) zero h = h.0
  Finite-get_or (x ∷ xs) (suc j) h = Finite-get_or xs j h.1

  pub Finite-set :
      (xs : List D) (j : ℕ) (a : D) → Finite xs → d.is_finite a ≡ true → Finite (set xs j a)
  Finite-set [] j a h k = tt
  Finite-set (x ∷ xs) zero a h k = (k, h.1)
  Finite-set (x ∷ xs) (suc j) a h k = (h.0, Finite-set xs j a h.1 k)

  -- What the loop state keeps.
  pub record Sound (columns : ℕ) (s : Cover D) : Type 0 where
    pub sized : length s.ay_upper ≡ columns
    pub finite : Finite s.ay_upper

  module _ (columns : ℕ) (selected : List Bool) (x : List Bool) (x_sized : length x ≡ columns) where
    -- What a row that ends normally has done to the state: the flag held before, the exact sum of
    -- the partition has gained `y` `n` times, and `covered` has grown by `m`.
    pub record Gain (y : D) (n m : ℕ) (s t : Cover D) : Type 0 where
      pub was_finite : s.finite ≡ true
      pub sound : Sound columns t
      pub gained :
          times n (value y) +ℤ chosen_sum value x s.ay_upper ≤ℤ chosen_sum value x t.ay_upper
      pub counted : t.covered ≡ s.covered + m

    Gain-refl : (y : D) (s : Cover D) → Sound columns s → s.finite ≡ true → Gain y 0 0 s s
    Gain-refl y s sound f = record {
      was_finite = f;
      sound = sound;
      gained = omega int_laws;
      counted = omega arith;
    }

    enter_column-Gain :
        (i : ℕ) (y : D) (j : ℕ) (s : Cover D)
        → j < columns
        → d.is_finite y ≡ true
        → Sound columns s
        → (enter_column selected i y j s).finite ≡ true
        → Gain y
            (to_nat (get_or x j false))
            (to_nat (get_or selected j false))
            s
            (enter_column selected i y j s)
    unfolding enter_column
    enter_column-Gain i y j s h fy sound f =
        let a = get_or s.ay_upper j nought in
        let b = (up (d.add a y) s.finite).0 in
        let above = up_sum rounded a y (Finite-get_or s.ay_upper j sound.finite) fy s.finite f in
        record {
          was_finite = above.was_finite;
          sound = record {
            sized = length-set s.ay_upper j b ∙ sound.sized;
            finite = Finite-set s.ay_upper j b sound.finite above.finite;
          };
          gained =
              raised_sum (get_or x j false) (value a) (value b) (value y) _ _
                (chosen_sum-set value x s.ay_upper j b nought (omega (arith, sound.sized))
                  (omega (arith, sound.sized)))
                above.above;
          counted = refl;
        }

    Gain-trans :
        (y : D) (b : Bool) (k n m : ℕ) (s t u : Cover D)
        → Gain y (to_nat b) k s t
        → Gain y n m t u
        → Gain y (to_nat b + n) (k + m) s u
    Gain-trans y b k n m s t u g h = record {
      was_finite = g.was_finite;
      sound = h.sound;
      gained = omega (int_laws, g.gained, h.gained, parts_of_eq (times-add b n (value y)));
      counted = omega (arith, g.counted, h.counted);
    }

    pub cover_row-Gain :
        (i : ℕ) (y : D) (row : List ℕ) (s t : Cover D)
        → d.is_finite y ≡ true
        → Sound columns s
        → cover_row columns selected i y row s ≡ some t
        → t.finite ≡ true
        → Gain y (hits x row) (hits selected row) s t
    unfolding cover_row
    cover_row-Gain i y [] s t fy sound e f =
        let same : s ≡ t = cc in subst (Gain y 0 0 s) same (Gain-refl y s sound (rw same f))
    cover_row-Gain i y (j ∷ row) s t fy sound e f =
        elim (Bool-cases (leb columns j || nat_eq (get_or s.seen j 0) i)) [
          | inl bad ↦ absurd (cc (rw bad at e))
          | inr good ↦
              let u = enter_column selected i y j s in
              let more : cover_row columns selected i y row u ≡ some t = rw good at e in
              let first =
                enter_column-Gain i y j s (ground arith) fy sound
                  (cover_row-flag columns selected i y row u t more f) in
              Gain-trans y (get_or x j false) (to_nat (get_or selected j false)) (hits x row)
                (hits selected row) s u t first (cover_row-Gain i y row u t fy first.sound more f)
        ]
