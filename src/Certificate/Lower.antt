-- ===== src/Certificate/Lower.antt =====
-- The loop that forms `lower` in sp_dual_certificate.hpp, against the exact reduced costs of a choice
-- of columns, also with one column forced in.
use ils_sp.Prelude.{
  ℕ, zero, suc, ◌≡◌, refl, Bool, true, false, some, List, [], ◌∷◌, length, get_elem?, Bool-cases,
  inl, inr, arith, if◌then◌else◌,
}
use ils_sp.Prelude.Int.{ℤ, pos, ◌+ℤ◌, ◌-ℤ◌, ◌≤ℤ◌, int_laws, parts_of_eq}
use ils_sp.Double.{Double, IsRounded, fmin, fmax, nought}
use ils_sp.Certificate.{down, sum_lower}
use ils_sp.Certificate.Exact.{chosen_sum}
use ils_sp.Certificate.Directed.{down_flag, down_sum, down_difference, fmin_value, not_lt_value}
use ils_sp.Certificate.Rows.{Finite}

-- One column in the exact sums: `m` stands for the smaller of zero and the residual `r`.
column_bounds :
    (b : Bool) (total ay_sum cost_sum next lower m r c a : ℤ)
    → total +ℤ ay_sum ≤ℤ next +ℤ cost_sum
    → next ≤ℤ lower +ℤ m
    → m ≤ℤ pos 0
    → m ≤ℤ r
    → r ≤ℤ c -ℤ a
    → total +ℤ ((if b then a else pos 0) +ℤ ay_sum)
      ≤ℤ lower +ℤ ((if b then c else pos 0) +ℤ cost_sum)
column_bounds true total ay_sum cost_sum next lower m r c a h k m0 mr rc = omega int_laws
column_bounds false total ay_sum cost_sum next lower m r c a h k m0 mr rc = omega int_laws

-- The column that is forced in pays its whole residual.
column_forced :
    (total ay_sum cost_sum next lower m k r c a : ℤ)
    → total +ℤ ay_sum ≤ℤ next +ℤ cost_sum
    → next ≤ℤ lower +ℤ m
    → m +ℤ k ≤ℤ r
    → r ≤ℤ c -ℤ a
    → total +ℤ k +ℤ (a +ℤ ay_sum) ≤ℤ lower +ℤ (c +ℤ cost_sum)
column_forced total ay_sum cost_sum next lower m k r c a h p q s = omega int_laws

module _ {D : Type 0} ⦃d : Double D⦄ where
  pub sum_lower-flag :
      (costs ay : List D) (lower : D) (finite : Bool)
      → (sum_lower costs ay lower finite).1 ≡ true
      → finite ≡ true
  unfolding sum_lower
  sum_lower-flag [] ay lower finite f = f
  sum_lower-flag (c ∷ costs) [] lower finite f = cc
  sum_lower-flag (c ∷ costs) (a ∷ ay) lower finite f =
      let residual = down (d.sub c a) finite in
      (down_flag _ finite
        (down_flag (d.add lower (fmin nought residual.0)) residual.1
          (sum_lower-flag costs ay _ _ f)).0).0

  module _ (rounded : IsRounded D) where
    open rounded use {value, finite_zero, value-zero, lt_iff}

    fmin_fmax :
        (r : D) → d.is_finite r ≡ true → value (fmin nought r) +ℤ value (fmax nought r) ≤ℤ value r
    unfolding fmin fmax
    fmin_fmax r f =
        let below = lt_iff r nought f finite_zero in
        let above = lt_iff nought r finite_zero f in
        elim (Bool-cases (d.lt r nought)) [
          | inl p ↦ elim (Bool-cases (d.lt nought r)) [
            | inl q ↦ absurd (omega (int_laws, below.0 p, above.0 q))
            | inr q ↦ rw (p, q) (omega (int_laws, parts_of_eq value-zero))
          ]
          | inr p ↦ elim (Bool-cases (d.lt nought r)) [
            | inl q ↦ rw (p, q) (omega (int_laws, parts_of_eq value-zero))
            | inr q ↦
                rw (p, q)
                  (omega (
                    int_laws,
                    not_lt_value rounded r nought f finite_zero p,
                    parts_of_eq value-zero,
                  ))
          ]
        ]

    -- One round: the lower residual `r`, and the new `lower`.
    record Round (c a lower : D) (finite : Bool) (r next : D) : Type 0 where
      was_finite : finite ≡ true
      residual_finite : d.is_finite r ≡ true
      next_finite : d.is_finite next ≡ true
      least_nonpositive : value (fmin nought r) ≤ℤ pos 0
      least_residual : value (fmin nought r) ≤ℤ value r
      split : value (fmin nought r) +ℤ value (fmax nought r) ≤ℤ value r
      residual : value r ≤ℤ value c -ℤ value a
      lowered : value next ≤ℤ value lower +ℤ value (fmin nought r)

    round_lem :
        (c a lower : D) (finite : Bool)
        → d.is_finite c ≡ true
        → d.is_finite a ≡ true
        → d.is_finite lower ≡ true
        → let residual = down (d.sub c a) finite in
          let next = down (d.add lower (fmin nought residual.0)) residual.1 in
          next.1 ≡ true → Round c a lower finite residual.0 next.0
    round_lem c a lower finite fc fa fl f =
        let residual = down (d.sub c a) finite in
        let least = fmin nought residual.0 in
        let (f', _, _, _) = down_flag (d.add lower least) residual.1 f in
        let below = down_difference rounded c a fc fa finite f' in
        let (fm, m0, mr) = fmin_value rounded nought residual.0 finite_zero below.finite true in
        let next = down_sum rounded lower least fl fm residual.1 f in
        record {
          was_finite = below.was_finite;
          residual_finite = below.finite;
          next_finite = next.finite;
          least_nonpositive = omega (int_laws, m0, parts_of_eq value-zero);
          split = fmin_fmax residual.0 below.finite;
          least_residual = mr;
          residual = below.below;
          lowered = next.below;
        }

    chosen_sum_nil : (x : List Bool) (cs : List D) → length x ≡ 0 → chosen_sum value x cs ≡ pos 0
    unfolding chosen_sum
    chosen_sum_nil [] cs h = refl
    chosen_sum_nil (b ∷ x) cs h = absurd (omega arith)

    pub record Lowered (costs ay : List D) (lower : D) (result : D × Bool × List D) : Type 0 where
      pub finite : d.is_finite result.0 ≡ true
      pub residuals_finite : Finite rounded result.2
      pub residuals_sized : length result.2 ≡ length costs
      pub bounds :
          (x : List Bool)
          → length x ≡ length costs
          → value result.0 +ℤ chosen_sum value x ay ≤ℤ value lower +ℤ chosen_sum value x costs
      pub forced :
          (x : List Bool) (j : ℕ) (r : D)
          → length x ≡ length costs
          → get_elem? x j ≡ some true
          → get_elem? result.2 j ≡ some r
          → value result.0 +ℤ value (fmax nought r) +ℤ chosen_sum value x ay
            ≤ℤ value lower +ℤ chosen_sum value x costs

    module _ (c a lower : D) (finite : Bool) (r next : D) (round : Round c a lower finite r next)
        (costs ay : List D) (result : D × Bool × List D)
        (later : Lowered costs ay next result) where
      bounds_cons :
          (x : List Bool)
          → length x ≡ suc (length costs)
          → value result.0 +ℤ chosen_sum value x (a ∷ ay)
            ≤ℤ value lower +ℤ chosen_sum value x (c ∷ costs)
      unfolding chosen_sum
      bounds_cons [] h = absurd (omega arith)
      bounds_cons (b ∷ x) h =
          column_bounds b _ _ _ _ _ _ _ _ _ (later.bounds x (omega arith)) round.lowered
            round.least_nonpositive round.least_residual round.residual

      forced_cons :
          (x : List Bool) (j : ℕ) (s : D)
          → length x ≡ suc (length costs)
          → get_elem? x j ≡ some true
          → get_elem? (r ∷ result.2) j ≡ some s
          → value result.0 +ℤ value (fmax nought s) +ℤ chosen_sum value x (a ∷ ay)
            ≤ℤ value lower +ℤ chosen_sum value x (c ∷ costs)
      unfolding chosen_sum
      forced_cons [] j s h k e = absurd (omega arith)
      forced_cons (false ∷ x) zero s h k e = absurd (cc)
      forced_cons (true ∷ x) zero s h k e =
          let same : r ≡ s = cc in
          rw (← same) (
            column_forced _ _ _ _ _ _ _ _ _ _ (later.bounds x (omega arith)) round.lowered
              round.split round.residual)
      forced_cons (b ∷ x) (suc j) s h k e =
          column_bounds b _ _ _ _ _ _ _ _ _ (later.forced x j s (omega arith) k e) round.lowered
            round.least_nonpositive round.least_residual round.residual

    pub sum_lower-Lowered :
        (costs ay : List D) (lower : D) (finite : Bool)
        → Finite rounded costs
        → Finite rounded ay
        → length ay ≡ length costs
        → d.is_finite lower ≡ true
        → (sum_lower costs ay lower finite).1 ≡ true
        → Lowered costs ay lower (sum_lower costs ay lower finite)
    unfolding sum_lower chosen_sum
    sum_lower-Lowered [] ay lower finite fc fa sized fl f = record {
      finite = fl;
      residuals_finite = tt;
      residuals_sized = refl;
      bounds = λ x h.
          omega
            (int_laws, parts_of_eq (chosen_sum_nil x ay h), parts_of_eq (chosen_sum_nil x [] h));
      forced = λ x j r h k e. absurd (cc);
    }
    sum_lower-Lowered (c ∷ costs) [] lower finite fc fa sized fl f = absurd (omega arith)
    sum_lower-Lowered (c ∷ costs) (a ∷ ay) lower finite fc fa sized fl f =
        let residual = down (d.sub c a) finite in
        let next = down (d.add lower (fmin nought residual.0)) residual.1 in
        let round =
          round_lem c a lower finite fc.0 fa.0 fl (sum_lower-flag costs ay next.0 next.1 f) in
        let ih =
          sum_lower-Lowered costs ay next.0 next.1 fc.1 fa.1 (omega arith) round.next_finite f in
        record {
          finite = ih.finite;
          residuals_finite = (round.residual_finite, ih.residuals_finite);
          residuals_sized = omega (arith, ih.residuals_sized);
          bounds = bounds_cons c a lower finite _ _ round costs ay _ ih;
          forced = forced_cons c a lower finite _ _ round costs ay _ ih;
        }
