-- ===== src/Solver/Config.antt =====
-- The configuration that the constructor in src/solver.cpp accepts.
use ils_sp.Prelude.{
  ℕ, Bool, true, false, not, ◌&&◌, ◌||◌, Option, none, some, nat_eq, Result, ok, invalid_argument,
  ◌>>=◌, ◌>>◌, throw_if,
}
use ils_sp.Prelude.Int.{ℤ}
use ils_sp.Double.{Double, nought}
use ils_sp.InputContract.{ClockType, checked_deadline_after, validate_rounded_target}
use ils_sp.Solver.{
  SearchProfile, paper, linked_winner, linked_insertion_candidates, granular_adaptive,
  PaperParameters, SolverConfig,
}

abbrev pub is_paper : SearchProfile → Bool
is_paper paper = true
is_paper linked_winner = false
is_paper linked_insertion_candidates = false
is_paper granular_adaptive = false

abbrev pub value_or : Option Bool → Bool → Bool
value_or none default = default
value_or (some b) default = b

abbrev pub has_value {ℓ} : {A : Type ℓ} → Option A → Bool
has_value none = false
has_value (some a) = true

unfoldable pub bad_adaptive : Option ℕ → ℕ → Bool
bad_adaptive none interval = false
bad_adaptive (some stall) interval = nat_eq stall 0 || nat_eq interval 0

module _ {D : Type 0} ⦃d : Double D⦄ where
  -- The combinations of the station options: the four tests before the last one.
  unfoldable pub conflicting_options : SolverConfig D → Bool
  conflicting_options config =
      ((config.rebuild_initialization_paths || config.preserve_initialization_station_visits)
        && (not (is_paper config.search_profile)
            || not (value_or config.complete_initialization_paths false)))
      || (has_value config.complete_initialization_paths && not (is_paper config.search_profile))
      || ((has_value config.complete_insertion_paths || config.preserve_station_visits)
          && not (is_paper config.search_profile))
      || (config.preserve_station_visits && value_or config.complete_insertion_paths false)
      || (is_paper config.search_profile
          && config.preserve_station_visits
          && not config.implicit_replace_path
          && not config.project_opening_station_visits)

  unfoldable pub bad_parameters : PaperParameters D → Bool
  bad_parameters p =
      nat_eq p.penalty_window 0
      || not (d.is_finite p.penalty_factor)
      || not (d.is_finite p.lambda_min)
      || not (d.is_finite p.lambda_initial)
      || not (d.is_finite p.lambda_max)
      || d.le p.penalty_factor (d.decimal 1 0)
      || d.lt p.lambda_min nought
      || d.lt p.lambda_initial p.lambda_min
      || d.lt p.lambda_max p.lambda_initial
      || nat_eq p.sp_frequency 0
      || nat_eq p.backup_frequency 0
      || nat_eq p.pool_capacity 0
      || nat_eq p.max_iterations 0

  -- A limit that is given and is not finite and positive.
  unfoldable pub bad_limit : Option D → Bool
  bad_limit none = false
  bad_limit (some limit) = not (d.is_finite limit) || d.le limit nought

  unfoldable pub bad_target : Option D → Bool
  bad_target none = false
  bad_target (some target) = not (d.is_finite target) || d.lt target nought

  unfoldable pub bad_configuration : SolverConfig D → Bool
  bad_configuration config =
      bad_parameters config.parameters
      || nat_eq config.progress_interval 0
      || bad_limit config.global_time_limit_s
      || bad_target config.rounded_target_objective_h
      || bad_limit config.sp_incumbent_stall_limit_s
      || bad_limit config.sp_maximum_time_s
      || bad_adaptive config.adaptive_sp_stall_iterations config.adaptive_sp_minimum_interval

  unfoldable pub check_limit : ClockType D → ℤ → Option D → Result (Unit {0})
  check_limit clock now none = ok tt
  check_limit clock now (some limit) = do deadline ← checked_deadline_after clock now limit; ok tt

  unfoldable pub check_target : Option D → Result (Unit {0})
  check_target none = ok tt
  check_target (some target) = validate_rounded_target target

  -- The constructor's body, at the two readings of the clock.
  unfoldable pub validate_configuration : ClockType D → ℤ → ℤ → SolverConfig D → Result (Unit {0})
  validate_configuration clock first second config = do
    check_limit clock first config.global_time_limit_s
    check_limit clock second config.sp_maximum_time_s
    check_target config.rounded_target_objective_h
    throw_if (conflicting_options config) invalid_argument
    throw_if (bad_configuration config) invalid_argument
