-- ===== src/Certificate/Fixing.antt =====
-- The start and the fixed columns of sp_dual_certificate.hpp: what `selected`, `upper` and
-- `fixed_zero_columns` mean.
use ils_sp.Prelude.{
  ℕ, zero, suc, ◌+◌, ◌<◌, ◌≡◌, refl, ◌∙◌, Bool, true, false, Bool-cases, Option-cases, inl, inr,
  some, List, [], ◌∷◌, In, length, length-set, get_elem?, get_or, set, replicate, arith, leb, ◌||◌,
}
use ils_sp.Prelude.Int.{ℤ, pos, ◌+ℤ◌, ◌≤ℤ◌, int_laws, parts_of_eq, eq_of_parts}
use mathlib.Core.Path.{subst}
use ils_sp.Double.{Double, IsRounded, fmax, nought}
use ils_sp.Certificate.{down, select_start, sum_upper, fix_columns}
use ils_sp.Certificate.Exact.{chosen_sum}
use ils_sp.Certificate.Directed.{up_flag, up_sum}
use ils_sp.Certificate.Rows.{Finite}

module _ {D : Type 0} (value : D → ℤ) (zero_cost : D) where
  -- The exact cost of the columns that a list of indices names.
  unfoldable pub index_sum : List ℕ → List D → ℤ
  index_sum [] costs = pos 0
  index_sum (j ∷ start) costs = value (get_or costs j zero_cost) +ℤ index_sum start costs

  chosen_sum-mark :
      (x : List Bool) (costs : List D) (j : ℕ)
      → j < length costs
      → length x ≡ length costs
      → get_or x j false ≡ false
      → chosen_sum value (set x j true) costs
        ≡ value (get_or costs j zero_cost) +ℤ chosen_sum value x costs
  unfolding chosen_sum
  chosen_sum-mark x [] j h k e = absurd (omega arith)
  chosen_sum-mark [] (c ∷ costs) j h k e = absurd (omega arith)
  chosen_sum-mark (true ∷ x) (c ∷ costs) zero h k e = absurd (cc)
  chosen_sum-mark (false ∷ x) (c ∷ costs) zero h k e = eq_of_parts _ _ (omega int_laws)
  chosen_sum-mark (b ∷ x) (c ∷ costs) (suc j) h k e =
      eq_of_parts _ _
        (omega (int_laws, parts_of_eq (chosen_sum-mark x costs j (omega arith) (omega arith) e)))

  pub chosen_sum-none :
      (n : ℕ) (costs : List D) → chosen_sum value (replicate n false) costs ≡ pos 0
  unfolding chosen_sum
  chosen_sum-none zero costs = refl
  chosen_sum-none (suc n) [] = refl
  chosen_sum-none (suc n) (c ∷ costs) =
      eq_of_parts _ _ (omega (int_laws, parts_of_eq (chosen_sum-none n costs)))

  -- The marks hold exactly the start, each column once.
  pub select_start_sum :
      (costs : List D) (start : List ℕ) (before after : List Bool)
      → length before ≡ length costs
      → select_start (length costs) start before ≡ some after
      → (length after ≡ length costs)
        × (chosen_sum value after costs ≡ index_sum start costs +ℤ chosen_sum value before costs)
  unfolding select_start index_sum
  select_start_sum costs [] before after sized e =
      let same : before ≡ after = cc in rw (← same) (sized, eq_of_parts _ _ (omega int_laws))
  select_start_sum costs (j ∷ start) before after sized e =
      elim (Bool-cases (leb (length costs) j || get_or before j false)) [
        | inl bad ↦ absurd (cc (rw bad at e))
        | inr good ↦
            let ih =
              select_start_sum costs start (set before j true) after
                (length-set before j true ∙ sized) (rw good at e) in
            (
              ih.0,
              eq_of_parts _ _ (
                  omega (
                    int_laws,
                    parts_of_eq ih.1,
                    parts_of_eq
                        (chosen_sum-mark before costs j (ground arith) sized (ground arith)),
                  )),
            )
      ]

module _ {D : Type 0} ⦃d : Double D⦄ where
  sum_upper-finite :
      (c : D) (costs : List D) (b : Bool) (selected : List Bool) (upper : D) (finite : Bool)
      (last : D) (flag : Bool)
      → sum_upper (c ∷ costs) (b ∷ selected) upper finite ≡ some (last, flag)
      → d.is_finite c ≡ true
  unfolding sum_upper
  sum_upper-finite c costs b selected upper finite last flag e = elim (Bool-cases (d.is_finite c)) [
    | inl good ↦ good
    | inr bad ↦ cc (rw bad at e)
  ]

  sum_upper-flag :
      (costs : List D) (selected : List Bool) (upper : D) (finite : Bool) (last : D) (flag : Bool)
      → sum_upper costs selected upper finite ≡ some (last, flag)
      → flag ≡ true
      → finite ≡ true
  unfolding sum_upper
  sum_upper-flag [] selected upper finite last flag e f = ground arith
  sum_upper-flag (c ∷ costs) [] upper finite last flag e f = cc
  sum_upper-flag (c ∷ costs) (true ∷ selected) upper finite last flag e f =
      let fc = sum_upper-finite c costs true selected upper finite last flag e in
      (up_flag _ finite (sum_upper-flag costs selected _ _ last flag (rw fc at e) f)).0
  sum_upper-flag (c ∷ costs) (false ∷ selected) upper finite last flag e f =
      let fc = sum_upper-finite c costs false selected upper finite last flag e in
      sum_upper-flag costs selected _ _ last flag (rw fc at e) f

  module _ (rounded : IsRounded D) where
    open rounded use {value}

    chosen_sum_no_costs : (x : List Bool) → chosen_sum value x [] ≡ pos 0
    unfolding chosen_sum
    chosen_sum_no_costs [] = refl
    chosen_sum_no_costs (b ∷ x) = refl

    -- The loop over the costs bounds the exact cost of the marked columns from above.
    pub record Summed (costs : List D) (selected : List Bool) (upper : D) (finite : Bool) (last : D)
        : Type 0 where
      pub was_finite : finite ≡ true
      pub costs_finite : Finite rounded costs
      pub last_finite : d.is_finite last ≡ true
      pub bounded : value upper +ℤ chosen_sum value selected costs ≤ℤ value last

    pub sum_upper-Summed :
        (costs : List D) (selected : List Bool) (upper : D) (finite : Bool) (last : D) (flag : Bool)
        → sum_upper costs selected upper finite ≡ some (last, flag)
        → flag ≡ true
        → d.is_finite upper ≡ true
        → Summed costs selected upper finite last
    unfolding sum_upper chosen_sum
    sum_upper-Summed [] selected upper finite last flag e f fu =
        let same : (upper ≡ last) × (finite ≡ flag) = ground arith in
        rw (← same.0) (record {
          was_finite = same.1 ∙ f;
          costs_finite = tt;
          last_finite = fu;
          bounded = omega (int_laws, parts_of_eq (chosen_sum_no_costs selected));
        })
    sum_upper-Summed (c ∷ costs) [] upper finite last flag e f fu = absurd (cc)
    sum_upper-Summed (c ∷ costs) (true ∷ selected) upper finite last flag e f fu =
        let fc = sum_upper-finite c costs true selected upper finite last flag e in
        let above =
          up_sum rounded upper c fu fc finite
            (sum_upper-flag costs selected _ _ last flag (rw fc at e) f) in
        let ih = sum_upper-Summed costs selected _ _ last flag (rw fc at e) f above.finite in
        record {
          was_finite = above.was_finite;
          costs_finite = (fc, ih.costs_finite);
          last_finite = ih.last_finite;
          bounded = omega (int_laws, above.above, ih.bounded);
        }
    sum_upper-Summed (c ∷ costs) (false ∷ selected) upper finite last flag e f fu =
        let fc = sum_upper-finite c costs false selected upper finite last flag e in
        let ih = sum_upper-Summed costs selected _ _ last flag (rw fc at e) f fu in
        record {
          was_finite = ih.was_finite;
          costs_finite = (fc, ih.costs_finite);
          last_finite = ih.last_finite;
          bounded = omega (int_laws, ih.bounded);
        }

  -- The entries of `fixed_zero_columns`, from column `j` on: their conditional bound is above the
  -- threshold.
  pub record FixedAt (lower threshold : D) (residuals : List D) (i : ℕ) : Type 0 where
    pub residual : D
    pub found : get_elem? residuals i ≡ some residual
    pub flag : (down (d.add lower (fmax nought residual)) true).1 ≡ true
    pub above : d.lt threshold (down (d.add lower (fmax nought residual)) true).0 ≡ true

  pub fix_columns-FixedAt :
      (lower threshold : D) (j : ℕ) (residuals : List D) (selected : List Bool) (fixed : List ℕ)
      (k : ℕ)
      → fix_columns lower threshold j residuals selected ≡ some fixed
      → In k fixed
      → (i : ℕ) × (k ≡ j + i) × FixedAt lower threshold residuals i
  unfolding fix_columns
  fix_columns-FixedAt lower threshold j [] selected fixed k e m =
      let same : fixed ≡ [] = cc in absurd (subst (In k) same m)
  fix_columns-FixedAt lower threshold j (r ∷ residuals) [] fixed k e m = absurd (cc)
  fix_columns-FixedAt lower threshold j (r ∷ residuals) (b ∷ selected) fixed k e m =
      let conditional = down (d.add lower (fmax nought r)) true in
      elim (Bool-cases conditional.1) [
        | inr bad ↦ absurd (cc (rw bad at e))
        | inl flag ↦ elim (Bool-cases (d.lt threshold conditional.0)) [
          | inr below ↦ later (
              fix_columns-FixedAt lower threshold (suc j) residuals selected fixed k
                (rw (flag, below) at e) m)
          | inl above ↦ elim (Bool-cases b) [
            | inl chosen ↦ absurd (cc (rw (flag, above, chosen) at e))
            | inr free ↦
                elim (Option-cases (fix_columns lower threshold (suc j) residuals selected)) [
                  | inl failed ↦ absurd (cc (rw (flag, above, free, failed) at e))
                  | inr (more, ran) ↦
                      let same : fixed ≡ j ∷ more = cc (rw (flag, above, free, ran) at e) in
                      elim (subst (In k) same m) [
                        | inl here ↦ (
                          0,
                          omega (arith, here),
                          record { residual = r; found = refl; flag = flag; above = above },
                        )
                        | inr there ↦ later (
                            fix_columns-FixedAt lower threshold (suc j) residuals selected more k
                              ran there)
                      ]
                ]
          ]
        ]
      ]
    where
      later :
          (i : ℕ) × (k ≡ suc j + i) × FixedAt lower threshold residuals i
          → (i : ℕ) × (k ≡ j + i) × FixedAt lower threshold (r ∷ residuals) i
      later (i, at, h) = (
        suc i,
        omega arith,
        record { residual = h.residual; found = h.found; flag = h.flag; above = h.above },
      )
