-- ===== src/Certificate.antt =====
-- include/ils_sp/detail/sp_dual_certificate.hpp: the check that an LP dual vector proves a start
-- of the set-partitioning model good enough, and that columns may be fixed to zero.
pub mod Exact
pub mod Directed
pub mod Rows
pub mod Base
pub mod Lower
pub mod Fixing
pub mod Marks
pub mod Opened
pub mod Soundness
pub mod Feasible
mod Tests
use ils_sp.Prelude.{
  ℕ, zero, suc, ◌+◌, Bool, true, false, not, ◌&&◌, ◌||◌, Option, none, some, List, [], ◌∷◌, length,
  get_or, set, replicate, if◌then◌else◌, leb, nat_eq, to_nat,
}
use ils_sp.Prelude.Options.{◌>>=◌}
use ils_sp.Double.{Double, nought, cost_tolerance, fmin, fmax}

-- `SpDualCertificate`.
pub record Certificate (D : Type 0) : Type 0 where
  pub is_valid : Bool
  pub certified : Bool
  pub relative_gap_certified : Bool
  pub upper_h : D
  pub lower_h : D
  pub gap_upper_h : D
  pub relative_gap_upper : D
  pub acceptance_gap_h : D
  pub fixing_valid : Bool
  pub fixing_columns_considered : ℕ
  pub fixing_threshold_h : D
  pub fixed_zero_columns : List ℕ

-- What the incidence loop carries from one entry to the next: `seen`, `ay_upper`, the captured
-- flag `finite`, and the row's `covered`.
pub record Cover (D : Type 0) : Type 0 where
  pub seen : List ℕ
  pub covered : ℕ
  pub ay_upper : List D
  pub finite : Bool

-- The loop that fills `selected`; `none` is the early return.
unfoldable pub select_start : ℕ → List ℕ → List Bool → Option (List Bool)
select_start columns [] selected = some selected
select_start columns (index ∷ start) selected =
    if leb columns index || get_or selected index false
    then none
    else select_start columns start (set selected index true)

module _ {D : Type 0} ⦃d : Double D⦄ where
  unfoldable pub no_certificate : Certificate D
  no_certificate = record {
    is_valid = false;
    certified = false;
    relative_gap_certified = false;
    upper_h = nought;
    lower_h = nought;
    gap_upper_h = nought;
    relative_gap_upper = nought;
    acceptance_gap_h = nought;
    fixing_valid = false;
    fixing_columns_considered = 0;
    fixing_threshold_h = nought;
    fixed_zero_columns = [];
  }

  -- The lambdas `down` and `up`, with the flag `finite` that they capture passed on.
  unfoldable pub down : D → Bool → D × Bool
  down rounded finite =
      if d.is_finite rounded
      then (d.next_down rounded, finite && d.is_finite (d.next_down rounded))
      else (nought, false)

  unfoldable pub up : D → Bool → D × Bool
  up rounded finite =
      if d.is_finite rounded
      then (d.next_up rounded, finite && d.is_finite (d.next_up rounded))
      else (nought, false)

  -- The loop that sums the costs of the selected columns upwards.
  unfoldable pub sum_upper : List D → List Bool → D → Bool → Option (D × Bool)
  sum_upper [] selected upper finite = some (upper, finite)
  sum_upper (cost ∷ costs) [] upper finite = none
  sum_upper (cost ∷ costs) (chosen ∷ selected) upper finite =
      let next = if chosen then up (d.add upper cost) finite else (upper, finite) in
      if not (d.is_finite cost) then none else sum_upper costs selected next.0 next.1

  -- The body of the inner loop at column `j` of row `i`, whose dual value is `dual`.
  unfoldable pub enter_column : List Bool → ℕ → D → ℕ → Cover D → Cover D
  enter_column selected i dual j s =
      let raised = up (d.add (get_or s.ay_upper j nought) dual) s.finite in
      record {
        seen = set s.seen j i;
        covered = s.covered + to_nat (get_or selected j false);
        ay_upper = set s.ay_upper j raised.0;
        finite = raised.1;
      }

  -- The inner loop over the columns of row `i`.
  unfoldable pub cover_row : ℕ → List Bool → ℕ → D → List ℕ → Cover D → Option (Cover D)
  cover_row columns selected i dual [] s = some s
  cover_row columns selected i dual (j ∷ row) s =
      if leb columns j || nat_eq (get_or s.seen j 0) i
      then none
      else cover_row columns selected i dual row (enter_column selected i dual j s)

  -- The loop over the rows from row `i` on; the result is `base` beside the loop's state.
  unfoldable pub cover_rows :
      ℕ → List Bool → ℕ → List D → List (List ℕ) → D → Cover D → Option (D × Cover D)
  cover_rows columns selected i duals [] base s = some (base, s)
  cover_rows columns selected i [] (row ∷ incidence) base s = none
  cover_rows columns selected i (dual ∷ duals) ([] ∷ incidence) base s = none
  cover_rows columns selected i (dual ∷ duals) ((j ∷ row) ∷ incidence) base s =
      let lowered = down (d.add base dual) s.finite in
      if not (d.is_finite dual)
      then none
      else elim (cover_row columns selected i dual (j ∷ row)
          (record s { covered = 0; finite = lowered.1 })) [
            | none ↦ none
            | some t ↦
                if nat_eq t.covered 1
                then cover_rows columns selected (suc i) duals incidence lowered.0 t
                else none
          ]

  -- The loop that adds `min(0, c - A^T y)` downwards, and keeps the lower residuals.
  unfoldable pub sum_lower : List D → List D → D → Bool → D × Bool × List D
  sum_lower [] ay_upper lower finite = (lower, finite, [])
  sum_lower (cost ∷ costs) [] lower finite = (lower, false, [])
  sum_lower (cost ∷ costs) (ay ∷ ay_upper) lower finite =
      let residual = down (d.sub cost ay) finite in
      let next = down (d.add lower (fmin nought residual.0)) residual.1 in
      let rest = sum_lower costs ay_upper next.0 next.1 in (rest.0, rest.1, residual.0 ∷ rest.2)

  -- The loop that collects the columns to fix, from column `j` on; `none` is `return {}`.
  unfoldable pub fix_columns : D → D → ℕ → List D → List Bool → Option (List ℕ)
  fix_columns lower threshold j [] selected = some []
  fix_columns lower threshold j (residual ∷ residuals) [] = none
  fix_columns lower threshold j (residual ∷ residuals) (chosen ∷ selected) =
      let conditional = down (d.add lower (fmax nought residual)) true in
      let rest = fix_columns lower threshold (suc j) residuals selected in
      if not conditional.1
      then none
      else if d.lt threshold conditional.0
      then if chosen then none else elim rest [ none ↦ none | some fixed ↦ some (j ∷ fixed) ]
      else rest

  -- The part after the loops, on `upper`, `lower`, `gap` and the residuals.
  unfoldable pub fix_result : Certificate D → Bool → List Bool → List D → Certificate D
  unfolding no_certificate
  fix_result result allow selected residuals =
      let threshold = up (d.add result.upper_h cost_tolerance) true in
      if not (allow && not result.certified)
      then result
      else if not threshold.1
      then no_certificate
      else elim (fix_columns result.lower_h threshold.0 0 residuals selected) [
        | none ↦ no_certificate
        | some fixed ↦ record result {
          fixing_valid = true;
          fixing_columns_considered = length residuals;
          fixing_threshold_h = threshold.0;
          fixed_zero_columns = fixed;
        }
      ]

  -- `relative` and `relative_ok`, with the flag.
  unfoldable pub relative_bound : D → D → D → D → D × Bool × Bool
  relative_bound upper lower gap rel_gap =
      let relative = up (d.div gap upper) true in
      if d.le nought lower && d.lt nought upper
      then (relative.0, d.le relative.0 rel_gap, relative.1)
      else (nought, false, true)

  -- From `if (!finite || lower > upper) return result;` on.
  unfoldable pub conclude : D → D → Bool → List Bool → D → D → Bool → List D → Certificate D
  unfolding no_certificate
  conclude abs_gap rel_gap allow selected upper lower finite residuals =
      let gap = up (d.sub upper lower) finite in
      let relative = relative_bound upper lower gap.0 rel_gap in
      let acceptance = fmin abs_gap cost_tolerance in
      if not finite || d.lt upper lower || not gap.1 || d.lt gap.0 nought || not relative.2
      then no_certificate
      else fix_result
          (record {
            is_valid = true;
            certified = d.le gap.0 acceptance;
            relative_gap_certified = relative.1;
            upper_h = upper;
            lower_h = lower;
            gap_upper_h = gap.0;
            relative_gap_upper = relative.0;
            acceptance_gap_h = acceptance;
            fixing_valid = false;
            fixing_columns_considered = 0;
            fixing_threshold_h = nought;
            fixed_zero_columns = [];
          })
          allow selected residuals

  -- The early returns on the arguments.
  unfoldable pub accepts_arguments : Bool → List D → List (List ℕ) → List ℕ → List D → D → D → Bool
  accepts_arguments fp_supported costs incidence start duals abs_gap rel_gap =
      fp_supported
      && not (nat_eq (length costs) 0)
      && not (nat_eq (length incidence) 0)
      && not (nat_eq (length start) 0)
      && nat_eq (length duals) (length incidence)
      && d.is_finite abs_gap
      && not (d.lt abs_gap nought)
      && d.is_finite rel_gap
      && not (d.lt rel_gap nought)

  -- The vectors as they stand before the rows.
  abbrev pub initial_cover : ℕ → ℕ → Bool → Cover D
  initial_cover columns rows finite = record {
    seen = replicate columns rows;
    covered = 0;
    ay_upper = replicate columns nought;
    finite = finite;
  }

  -- The three loops that feed `lower`: `upper`, and the state after the rows.
  unfoldable pub run_loops :
      List D → List (List ℕ) → List ℕ → List D → Option (List Bool × D × D × Cover D)
  run_loops costs incidence start duals = do
    selected ← select_start (length costs) start (replicate (length costs) false)
    (upper, finite) ← sum_upper costs selected nought true
    (base, s) ←
        cover_rows (length costs) selected 0 duals incidence nought
          (initial_cover (length costs) (length incidence) finite)
    some (selected, upper, base, s)

  -- `certify_sp_start`. `fp_supported` is what `sp_certificate_fp_supported` reads off the CPU.
  unfoldable pub certify_sp_start :
      Bool → List D → List (List ℕ) → List ℕ → List D → D → D → Bool → Certificate D
  unfolding no_certificate
  certify_sp_start fp_supported costs incidence start duals abs_gap rel_gap allow =
      if not (accepts_arguments fp_supported costs incidence start duals abs_gap rel_gap)
      then no_certificate
      else elim (run_loops costs incidence start duals) [
        | none ↦ no_certificate
        | some (selected, upper, base, s) ↦
            let lower = sum_lower costs s.ay_upper base s.finite in
            conclude abs_gap rel_gap allow selected upper lower.0 lower.1 lower.2
      ]
