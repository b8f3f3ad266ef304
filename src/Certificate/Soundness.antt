-- ===== src/Certificate/Soundness.antt =====
-- What a certificate of sp_dual_certificate.hpp proves, over every feasible point of the
-- set-partitioning model in exact arithmetic.
use mathlib.Core.Path.{subst}
use ils_sp.Prelude.{
  ℕ, zero, suc, ◌≡◌, sym, ◌∙◌, Bool, true, false, inl, inr, some, List, [], ◌∷◌, In, length,
  length-replicate, get_elem?, replicate, arith,
}
use ils_sp.Prelude.Int.{◌+ℤ◌, ◌≤ℤ◌, ◌<ℤ◌, int_laws, parts_of_eq, eq_of_parts}
use ils_sp.Double.{Double, IsRounded, fmin, fmax, nought, cost_tolerance}
use ils_sp.Certificate.{Certificate, Cover, initial_cover, up, sum_lower, certify_sp_start}
use ils_sp.Certificate.Exact.{chosen_sum, chosen_sum-replicate, IsPartition}
use ils_sp.Certificate.Directed.{up_sum, up_difference, down_sum, fmin_value, fmax_value}
use ils_sp.Certificate.Rows.{Finite}
use ils_sp.Certificate.Base.{Balanced, cover_rows-Balanced, cover_rows-flag}
use ils_sp.Certificate.Lower.{Lowered, sum_lower-flag, sum_lower-Lowered}
use ils_sp.Certificate.Fixing.{
  index_sum, chosen_sum-none, select_start_sum, Summed, sum_upper-Summed, fix_columns-FixedAt,
}
use ils_sp.Certificate.Opened.{Opened, open_certificate}

module _ {D : Type 0} ⦃d : Double D⦄ (rounded : IsRounded D) where
  open rounded use {value, finite_zero, value-zero, finite_tolerance, lt_iff, le_iff}

  Finite-replicate : (n : ℕ) → Finite rounded (replicate n nought)
  Finite-replicate zero = tt
  Finite-replicate (suc n) = (finite_zero, Finite-replicate n)

  Finite-found :
      (xs : List D) (i : ℕ) (r : D)
      → Finite rounded xs
      → get_elem? xs i ≡ some r
      → d.is_finite r ≡ true
  Finite-found [] i r h e = absurd (cc)
  Finite-found (a ∷ xs) zero r h e = let same : a ≡ r = cc in rw (← same) h.0
  Finite-found (a ∷ xs) (suc i) r h e = Finite-found xs i r h.1 e

  module _ (costs : List D) (incidence : List (List ℕ)) (start : List ℕ) (duals : List D)
      (abs_gap : D) (c : Certificate D)
      (opened : Opened costs incidence start duals abs_gap c) where
    open opened use {result, loops, concluded}

    lowered : D × Bool × List D
    lowered = sum_lower costs result.3.ay_upper result.2 result.3.finite

    rows_flag : result.3.finite ≡ true
    rows_flag = sum_lower-flag costs result.3.ay_upper result.2 result.3.finite concluded.flag

    summed : Summed rounded costs result.0 nought true result.1
    summed =
        sum_upper-Summed rounded costs result.0 nought true result.1 loops.flag loops.summing
          (cover_rows-flag _ _ _ _ _ _ _ _ _ loops.covering rows_flag) finite_zero

    pub selected_sum :
        (length result.0 ≡ length costs)
        × (chosen_sum value result.0 costs ≡ index_sum value nought start costs)
    selected_sum =
        let (sized, total) =
          select_start_sum value nought costs start (replicate (length costs) false) result.0
            (length-replicate (length costs) false) loops.selecting in
        (
          sized,
          eq_of_parts _ _ (
              omega (
                int_laws,
                parts_of_eq total,
                parts_of_eq (chosen_sum-none value nought (length costs) costs),
              )),
        )

    acceptance_value :
        (d.is_finite (fmin abs_gap cost_tolerance) ≡ true)
        × (value (fmin abs_gap cost_tolerance) ≤ℤ value abs_gap)
        × (value (fmin abs_gap cost_tolerance) ≤ℤ value cost_tolerance)
    acceptance_value =
        fmin_value rounded abs_gap cost_tolerance opened.gap_finite finite_tolerance true

    module _ (x : List Bool) (partition : IsPartition costs incidence x) where
      before : Cover D
      before = initial_cover (length costs) (length incidence) loops.flag

      balanced :
          Balanced rounded
            (length costs)
            result.0
            x
            partition.sized
            incidence
            nought
            before
            result.2
            result.3
      unfolding before
      balanced =
          cover_rows-Balanced rounded (length costs) result.0 x partition.sized 0 duals incidence
            nought before result.2 result.3 loops.covering rows_flag finite_zero
            (record {
              sized = length-replicate (length costs) nought;
              finite = Finite-replicate (length costs);
            })
            partition.covers

      lowering : Lowered rounded costs result.3.ay_upper result.2 lowered
      unfolding lowered
      lowering =
          sum_lower-Lowered rounded costs result.3.ay_upper result.2 result.3.finite
            summed.costs_finite balanced.sound.finite balanced.sound.sized balanced.finite
            concluded.flag

      -- The exact cost of the choice lies above `lower`, with a forced column's residual too.
      base_below : value result.2 ≤ℤ chosen_sum value x result.3.ay_upper
      unfolding before
      base_below = omega (
        int_laws,
        balanced.gained,
        parts_of_eq value-zero,
        parts_of_eq (chosen_sum-replicate value x (length costs) nought value-zero),
      )

      lower_below : value c.lower_h ≤ℤ chosen_sum value x costs
      unfolding lowered
      lower_below =
          rw concluded.same_lower (omega (int_laws, base_below, lowering.bounds x partition.sized))

      forced_below :
          (j : ℕ) (r : D)
          → get_elem? x j ≡ some true
          → get_elem? lowered.2 j ≡ some r
          → value c.lower_h +ℤ value (fmax nought r) ≤ℤ chosen_sum value x costs
      unfolding lowered
      forced_below j r chosen found =
          rw concluded.same_lower
            (omega (int_laws, base_below, lowering.forced x j r partition.sized chosen found))

      -- The recorded gap is no less than the exact difference of the two bounds.
      gap_above : value c.upper_h ≤ℤ value c.lower_h +ℤ value c.gap_upper_h
      unfolding lowered
      gap_above =
          let above =
            up_difference rounded result.1 lowered.0 summed.last_finite lowering.finite lowered.1
              concluded.gap_flag in
          rw (concluded.same_upper, concluded.same_lower, concluded.gap)
            (omega (int_laws, above.above))

      gap_accepted : c.certified ≡ true → value c.gap_upper_h ≤ℤ value c.acceptance_gap_h
      unfolding lowered
      gap_accepted good =
          let above =
            up_difference rounded result.1 lowered.0 summed.last_finite lowering.finite lowered.1
              concluded.gap_flag in
          (le_iff c.gap_upper_h c.acceptance_gap_h (rw concluded.gap above.finite)
              (rw concluded.acceptance acceptance_value.0)).0
            (sym concluded.certified ∙ good)

      -- A fixed column's conditional bound is above the threshold, and so above the start.
      fixed_above :
          (j : ℕ)
          → In j c.fixed_zero_columns
          → get_elem? x j ≡ some true
          → value c.upper_h +ℤ value cost_tolerance <ℤ chosen_sum value x costs
      unfolding lowered
      fixed_above j m chosen = elim concluded.fixed [
        | inl nothing ↦ absurd (subst (In j) nothing m)
        | inr (flag, ran) ↦
            let threshold = up (d.add result.1 cost_tolerance) true in
            let (i, at, f) =
              fix_columns-FixedAt lowered.0 threshold.0 0 lowered.2 result.0 c.fixed_zero_columns j
                ran m in
            let same : i ≡ j = omega (arith, at) in
            let r_finite = Finite-found lowered.2 i f.residual lowering.residuals_finite f.found in
            let residual = fmax_value rounded nought f.residual finite_zero r_finite true in
            let conditional =
              down_sum rounded lowered.0 (fmax nought f.residual) lowering.finite residual.0 true
                f.flag in
            let above =
              up_sum rounded result.1 cost_tolerance summed.last_finite finite_tolerance true
                flag in
            rw concluded.same_upper (
              omega (
                int_laws,
                above.above,
                (lt_iff threshold.0 _ above.finite conditional.finite).0 f.above,
                conditional.below,
                rw concluded.same_lower at (
                    forced_below j f.residual chosen
                      (subst (λ k. get_elem? lowered.2 k ≡ some f.residual) same f.found)),
              ))
      ]

    start_below : index_sum value nought start costs ≤ℤ value c.upper_h
    start_below =
        rw concluded.same_upper
          (omega (int_laws, summed.bounded, parts_of_eq selected_sum.1, parts_of_eq value-zero))

    upper_finite : d.is_finite c.upper_h ≡ true
    upper_finite = rw concluded.same_upper summed.last_finite

  module _ (fp_supported : Bool) (costs : List D) (incidence : List (List ℕ)) (start : List ℕ)
      (duals : List D) (abs_gap rel_gap : D) (allow : Bool) where
    abbrev run : Certificate D
    run = certify_sp_start fp_supported costs incidence start duals abs_gap rel_gap allow

    Opened-run : run.is_valid ≡ true → Opened costs incidence start duals abs_gap run
    Opened-run = open_certificate fp_supported costs incidence start duals abs_gap rel_gap allow

    -- A valid certificate encloses the optimum: the start costs at most `upper_h` in exact
    -- arithmetic, and every choice of columns that covers each row exactly once costs at least
    -- `lower_h`.
    pub certify_sp_start-bounds :
        run.is_valid ≡ true
        → (index_sum value nought start costs ≤ℤ value run.upper_h)
          × ((x : List Bool)
              → IsPartition costs incidence x
              → value run.lower_h ≤ℤ chosen_sum value x costs)
    certify_sp_start-bounds valid =
        let o = Opened-run valid in
        (
          start_below costs incidence start duals abs_gap run o,
          λ x p. lower_below costs incidence start duals abs_gap run o x p,
        )

    -- A start that a valid certificate marks as certified costs at most the acceptance gap more than
    -- any choice of columns that covers each row exactly once, in exact arithmetic, and that gap is
    -- at most the caller's `abs_gap` and at most `kCostTolerance`.
    pub certify_sp_start-certified :
        run.is_valid ≡ true
        → run.certified ≡ true
        → (x : List Bool) → IsPartition costs incidence x
        → (index_sum value nought start costs
            ≤ℤ chosen_sum value x costs +ℤ value run.acceptance_gap_h)
          × (value run.acceptance_gap_h ≤ℤ value abs_gap)
          × (value run.acceptance_gap_h ≤ℤ value cost_tolerance)
    certify_sp_start-certified valid good x p =
        let o = Opened-run valid in
        let above = gap_above costs incidence start duals abs_gap run o x p in
        let accepted = gap_accepted costs incidence start duals abs_gap run o x p good in
        let (_, gap, tolerance) = acceptance_value costs incidence start duals abs_gap run o in
        (
          omega (
            int_laws,
            start_below costs incidence start duals abs_gap run o,
            above,
            accepted,
            lower_below costs incidence start duals abs_gap run o x p,
          ),
          rw o.concluded.acceptance gap,
          rw o.concluded.acceptance tolerance,
        )

    -- Reduced-cost fixing loses nothing: every choice of columns that covers each row exactly once,
    -- and that uses a column which a valid certificate fixes to zero, costs more than the start by
    -- more than `kCostTolerance`, in exact arithmetic.
    pub certify_sp_start-fixing :
        run.is_valid ≡ true
        → (j : ℕ) → In j run.fixed_zero_columns
        → (x : List Bool) → IsPartition costs incidence x
        → get_elem? x j ≡ some true
        → index_sum value nought start costs +ℤ value cost_tolerance <ℤ chosen_sum value x costs
    certify_sp_start-fixing valid j fixed x p chosen =
        let o = Opened-run valid in
        omega (
          int_laws,
          start_below costs incidence start duals abs_gap run o,
          fixed_above costs incidence start duals abs_gap run o x p j fixed chosen,
        )
