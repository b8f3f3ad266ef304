-- ===== src/Certificate/Tests.antt =====
-- Runs of `certify_sp_start` (include/ils_sp/detail/sp_dual_certificate.hpp) on a model with two
-- rows and three columns, and the theorems at those inputs.
use ils_sp.Prelude.{
  ℕ, ◌≡◌, ◌↔◌, All, refl, Bool, true, false, some, List, [], ◌∷◌, In, inl, arith, get_elem?,
}
use ils_sp.Prelude.Int.{◌≤ℤ◌, ◌<ℤ◌, ◌+ℤ◌, ◌-ℤ◌, int_laws}
use ils_sp.Double.{nought, cost_tolerance, fmin, fmax}
use ils_sp.Double.Femto.{Femto, femto_double, Femto-IsRounded}
use ils_sp.Certificate.{
  Certificate, no_certificate, select_start, sum_upper, enter_column, cover_row, cover_rows,
  sum_lower, fix_columns, fix_result, relative_bound, conclude, accepts_arguments, run_loops,
  certify_sp_start, down, up,
}
use ils_sp.Certificate.Exact.{IsPartition, chosen_sum}
use ils_sp.Certificate.Fixing.{index_sum}
use ils_sp.Certificate.Feasible.{certify_sp_start-feasible, certify_sp_start-optimum}
use ils_sp.Certificate.Soundness.{
  certify_sp_start-bounds, certify_sp_start-certified, certify_sp_start-fixing,
}

abbrev hours : ℕ → Femto
hours h = femto_double.decimal h 0

abbrev costs : List Femto
costs = hours 1 ∷ hours 1 ∷ hours 5 ∷ []

-- The third column covers both rows.
abbrev incidence : List (List ℕ)
incidence = (0 ∷ 2 ∷ []) ∷ (1 ∷ 2 ∷ []) ∷ []

abbrev start : List ℕ
start = 0 ∷ 1 ∷ []

abbrev duals : List Femto
duals = hours 1 ∷ hours 1 ∷ []

-- With an absolute gap of zero the start is not certified, and the third column is fixed.
abbrev strict : Certificate Femto
strict = certify_sp_start true costs incidence start duals (hours 0) (hours 0) true

-- With the gap of the solver's tolerance it is certified.
abbrev lenient : Certificate Femto
lenient = certify_sp_start true costs incidence start duals cost_tolerance (hours 0) true

strict_run : (strict.is_valid ≡ true) × (strict.fixed_zero_columns ≡ 2 ∷ [])
unfolding certify_sp_start accepts_arguments run_loops select_start sum_upper enter_column cover_row
    cover_rows sum_lower conclude fix_result fix_columns relative_bound no_certificate down up fmin
    fmax ◌-ℤ◌ ◌+ℤ◌
strict_run = (refl, refl)

lenient_run : (lenient.is_valid ≡ true) × (lenient.certified ≡ true)
unfolding certify_sp_start accepts_arguments run_loops select_start sum_upper enter_column cover_row
    cover_rows sum_lower conclude fix_result fix_columns relative_bound no_certificate down up fmin
    fmax ◌-ℤ◌ ◌+ℤ◌
lenient_run = (refl, refl)

strict_fixes_two : In 2 strict.fixed_zero_columns
strict_fixes_two = rw strict_run.1 (inl refl)

abbrev by_third : List Bool
by_third = false ∷ false ∷ true ∷ []

by_third-IsPartition : IsPartition costs incidence by_third
by_third-IsPartition = record { sized = refl; covers = (refl, (refl, tt)) }

certify_sp_start-bounds_example :
    (index_sum Femto-IsRounded.value nought start costs ≤ℤ Femto-IsRounded.value strict.upper_h)
    × ((x : List Bool)
        → IsPartition costs incidence x
        → Femto-IsRounded.value strict.lower_h ≤ℤ chosen_sum Femto-IsRounded.value x costs)
certify_sp_start-bounds_example =
    certify_sp_start-bounds Femto-IsRounded true costs incidence start duals (hours 0) (hours 0)
      true strict_run.0

certify_sp_start-certified_example :
    (index_sum Femto-IsRounded.value nought start costs
      ≤ℤ chosen_sum Femto-IsRounded.value by_third costs
        +ℤ Femto-IsRounded.value lenient.acceptance_gap_h)
    × (Femto-IsRounded.value lenient.acceptance_gap_h
        ≤ℤ Femto-IsRounded.value (cost_tolerance {D = Femto}))
    × (Femto-IsRounded.value lenient.acceptance_gap_h
        ≤ℤ Femto-IsRounded.value (cost_tolerance {D = Femto}))
certify_sp_start-certified_example =
    certify_sp_start-certified Femto-IsRounded true costs incidence start duals cost_tolerance
      (hours 0) true lenient_run.0 lenient_run.1 by_third by_third-IsPartition

certify_sp_start-fixing_example :
    index_sum Femto-IsRounded.value nought start costs
      +ℤ Femto-IsRounded.value (cost_tolerance {D = Femto})
    <ℤ chosen_sum Femto-IsRounded.value by_third costs
certify_sp_start-fixing_example =
    certify_sp_start-fixing Femto-IsRounded true costs incidence start duals (hours 0) (hours 0)
      true strict_run.0 2 strict_fixes_two by_third by_third-IsPartition refl

certify_sp_start-feasible_example :
    (x : List Bool) × IsPartition costs incidence x
    × ((j : ℕ) → (get_elem? x j ≡ some true) ↔ In j start)
    × (chosen_sum Femto-IsRounded.value x costs
        ≡ index_sum Femto-IsRounded.value nought start costs)
    × All (λ j. ¬ (In j strict.fixed_zero_columns)) start
certify_sp_start-feasible_example =
    certify_sp_start-feasible Femto-IsRounded true costs incidence start duals (hours 0) (hours 0)
      true strict_run.0

abbrev by_start : List Bool
by_start = true ∷ true ∷ false ∷ []

by_start-IsPartition : IsPartition costs incidence by_start
by_start-IsPartition = record { sized = refl; covers = (refl, (refl, tt)) }

start_cheapest :
    (z : List Bool)
    → IsPartition costs incidence z
    → chosen_sum Femto-IsRounded.value by_start costs ≤ℤ chosen_sum Femto-IsRounded.value z costs
unfolding chosen_sum ◌+ℤ◌ Femto-IsRounded
start_cheapest (true ∷ true ∷ true ∷ []) p = absurd (omega (arith, p.covers.0, p.covers.1.0))
start_cheapest (true ∷ true ∷ false ∷ []) p = omega int_laws
start_cheapest (true ∷ false ∷ true ∷ []) p = absurd (omega (arith, p.covers.0, p.covers.1.0))
start_cheapest (true ∷ false ∷ false ∷ []) p = absurd (omega (arith, p.covers.0, p.covers.1.0))
start_cheapest (false ∷ true ∷ true ∷ []) p = absurd (omega (arith, p.covers.0, p.covers.1.0))
start_cheapest (false ∷ true ∷ false ∷ []) p = absurd (omega (arith, p.covers.0, p.covers.1.0))
start_cheapest (false ∷ false ∷ true ∷ []) p = omega int_laws
start_cheapest (false ∷ false ∷ false ∷ []) p = absurd (omega (arith, p.covers.0, p.covers.1.0))
start_cheapest [] p = absurd (omega (arith, p.sized))
start_cheapest (a ∷ []) p = absurd (omega (arith, p.sized))
start_cheapest (a ∷ b ∷ []) p = absurd (omega (arith, p.sized))
start_cheapest (a ∷ b ∷ c ∷ e ∷ z) p = absurd (omega (arith, p.sized))

certify_sp_start-optimum_example : ¬ (get_elem? by_start 2 ≡ some true)
certify_sp_start-optimum_example =
    certify_sp_start-optimum Femto-IsRounded true costs incidence start duals (hours 0) (hours 0)
      true strict_run.0 2 strict_fixes_two by_start by_start-IsPartition start_cheapest
