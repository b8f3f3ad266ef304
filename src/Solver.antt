-- ===== src/Solver.antt =====
-- include/ils_sp/solver.hpp and src/solver.cpp: the iterated local search with set partitioning. This
-- file has the configuration, and the solver's members that its own functions change.
pub mod Config
pub mod Penalty
pub mod Records
pub mod Workstate
pub mod Epochs
pub mod Start
pub mod Tests
pub mod Budget
pub mod Members
pub mod Schedule
pub mod Assembly
pub mod Loop
use ils_sp.Prelude.{ℕ, Bool, Option}
use ils_sp.Pool.{PoolIdentity}

-- `SearchProfile` of include/ils_sp/search.hpp.
pub data SearchProfile : Type 0 where
  paper linked_winner linked_insertion_candidates granular_adaptive : SearchProfile

-- `ContinuationPolicy`; `by_record` is its `Record`.
pub data ContinuationPolicy : Type 0 where
  operational by_record : ContinuationPolicy

pub record PaperParameters (D : Type 0) : Type 0 where
  pub penalty_window : ℕ
  pub penalty_factor : D
  pub lambda_initial : D
  pub lambda_min : D
  pub lambda_max : D
  pub sp_frequency : ℕ
  pub backup_frequency : ℕ
  pub pool_capacity : ℕ
  pub max_iterations : ℕ

-- `SolverConfig`: the members that solver.cpp reads itself. It hands the others on to the search,
-- to the evaluator and to the two backends.
pub record SolverConfig (D : Type 0) : Type 0 where
  pub parameters : PaperParameters D
  pub search_profile : SearchProfile
  pub continuation_policy : ContinuationPolicy
  pub implicit_replace_path : Bool
  pub complete_insertion_paths : Option Bool
  pub complete_initialization_paths : Option Bool
  pub rebuild_initialization_paths : Bool
  pub preserve_initialization_station_visits : Bool
  pub preserve_station_visits : Bool
  pub project_opening_station_visits : Bool
  pub global_time_limit_s : Option D
  pub frvcp_active_wall_budget_s : Option D
  pub rounded_target_objective_h : Option D
  pub sp_incumbent_stall_limit_s : Option D
  pub sp_maximum_time_s : Option D
  pub pool_identity : PoolIdentity
  pub protect_best_partition : Bool
  pub keep_evicted_in_backup : Bool
  pub reprice_after_lp : Bool
  pub adaptive_sp_stall_iterations : Option ℕ
  pub adaptive_sp_minimum_interval : ℕ
  pub progress_interval : ℕ

-- The members that `observe_penalty` changes.
pub record PenaltyState (D : Type 0) : Type 0 where
  pub penalty_lambda : D
  pub consecutive_feasible : ℕ
  pub consecutive_infeasible : ℕ
