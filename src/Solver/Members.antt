-- ===== src/Solver/Members.antt =====
-- The members of `IlsSpSolver` that its functions change, what it takes from the two backends, and
-- the clock.
use ils_sp.Prelude.{ℕ, Bool, false, Option, none, some, List, Result}
use ils_sp.Prelude.Int.{ℤ, leb_ℤ}
use ils_sp.Core.{Plan}
use ils_sp.Pool.{Key, RouteColumn, RoutePool}
use ils_sp.InputContract.{ClockType}
use ils_sp.Solver.{PenaltyState}
use ils_sp.Solver.Budget.{WallBudget}

-- The members of src/solver.cpp's class, but the search components and the backends.
pub record Members (D : Type 0) : Type 0 where
  pub pool : RoutePool D
  pub penalty : PenaltyState D
  pub previous_sp_customer_sets : List Key
  pub sp_calls : ℕ
  pub sp_skipped_incomplete_pool : ℕ
  pub adaptive_sp_calls : ℕ
  pub last_sp_iteration : ℕ
  pub pool_effective_generation_at_last_sp : ℕ
  pub last_best_improvement_iteration : ℕ
  pub last_coverage_improvement_iteration : ℕ
  pub lp_calls : ℕ
  pub sp_lp_prepass_calls : ℕ
  pub sp_lp_certified_calls : ℕ
  pub sp_lp_fallback_calls : ℕ
  pub sp_lp_exception_calls : ℕ
  pub sp_lp_prepass_wall_s : D
  pub sp_rc_fixing_calls : ℕ
  pub sp_rc_fixed_columns : ℕ
  pub sp_rc_considered_columns : ℕ
  pub frvcp_calls : ℕ
  pub sp_model_runtime_s : D
  pub lp_model_runtime_s : D
  pub frvcp_model_runtime_s : D

-- What solver.cpp reads of `LinearRelaxationResult`, `SetPartitioningResult` and `FrvcpResult`.
pub record Relaxation (D : Type 0) : Type 0 where
  pub optimal : Bool
  pub duals : List (ℤ × D)
  pub runtime_s : D

pub record Partitioned (D : Type 0) : Type 0 where
  pub selected_columns : List (RouteColumn D)
  pub runtime_s : D
  pub lp_prepass_attempted : Bool
  pub lp_prepass_exception : Bool
  pub lp_certified_start : Bool
  pub lp_prepass_wall_s : D
  pub fixed_zero_columns : ℕ
  pub fixing_columns_considered : ℕ
  pub reused_relaxation : Option (Relaxation D)

pub record Optimized (D : Type 0) : Type 0 where
  pub plan : Option (Plan D)
  pub runtime_s : D

-- The clock and the backends, on whatever state `W` they keep.
pub record Services (D W : Type 0) : Type 0 where
  pub clock : ClockType D
  pub now : W → ℤ × W
  pub solve_integer : List (RouteColumn D) → Option ℤ → List ℕ → W → Result (Partitioned D × W)
  pub solve_relaxation : List (RouteColumn D) → Option ℤ → W → Result (Relaxation D × W)
  pub optimize : Plan D → Option ℤ → W → Result (Optimized D × W)

-- What a run of the solver changes.
pub record Session (D W : Type 0) : Type 0 where
  pub members : Members D
  pub budget : WallBudget D
  pub world : W

module _ {D W : Type 0} (services : Services D W) where
  -- `SolverClock::now`.
  unfoldable pub read_clock : Session D W → ℤ × Session D W
  read_clock s = let (point, world) = services.now s.world in (point, record s { world = world })

  -- `deadline_expired`: the clock is read only where there is a deadline.
  unfoldable pub deadline_expired : Option ℤ → Session D W → Bool × Session D W
  deadline_expired none s = (false, s)
  deadline_expired (some deadline) s = let (point, t) = read_clock s in (leb_ℤ deadline point, t)
