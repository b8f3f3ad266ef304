-- ===== src/Solver/Assembly.antt =====
-- `assemble_routes` of src/solver.cpp, without the calls that only report progress. A dereferenced
-- evaluation is one that the code takes to be there.
pub mod Checked
pub mod Replaced
pub mod Routes
pub mod Tests
use ils_sp.Prelude.{
  ℕ, suc, ◌+◌, ◌%◌, Bool, true, false, not, ◌&&◌, ◌||◌, Option, none, some, List, [], ◌∷◌, map,
  length, nat_eq, to_nat, if◌then◌else◌, Result, ok, throw, ◌>>=◌, ◌>>◌,
}
use ils_sp.Prelude.Int.{ℤ, pos}
use ils_sp.Double.{Double, cost_tolerance}
use ils_sp.Core.{Plan, Solution, plan_feasible, plan_cost, solution_feasible}
use ils_sp.Core.Instance.{Instance}
use ils_sp.Core.Partition.{validate_partition}
use ils_sp.Pool.{Key, RouteColumn, RoutePool, PoolUpdate, PoolRepriceUpdate, from_plan, counted_up}
use ils_sp.Pool.Methods.{admit}
use ils_sp.Pool.Upkeep.{reprice_backup, update_duals, main_columns}
use ils_sp.Solver.{SolverConfig, ContinuationPolicy, operational, by_record}
use ils_sp.Solver.Records.{rounded_target_reached}
use ils_sp.Solver.Schedule.{periodic_sp, adaptive_sp, run_sp}
use ils_sp.Solver.Start.{
  SpMipStartChoice, previous_sp, best_feasible, local_feasible, make_sp_mip_start,
  consider_mip_start, empty_start, solution_customer_sets, pool_covers_all_customers, is_nil,
}
use ils_sp.Solver.Members.{
  Members, Services, Session, Relaxation, Partitioned, Optimized, deadline_expired,
}

-- The result of a step that may have found a solution.
abbrev pub Outcome : (D W : Type 0) → Type 0
Outcome D W = Option (Solution D) × Session D W

module _ {D : Type 0} ⦃d : Double D⦄ where
  -- `if (improved) last_coverage_improvement_iteration_ = iteration`.
  unfoldable pub note_coverage : Bool → ℕ → Members D → Members D
  note_coverage improved iteration m =
      if improved then record m { last_coverage_improvement_iteration = iteration } else m

  -- `pool_.admit(RouteColumn::from_plan(plan))`.
  unfoldable pub admit_plan : ℕ → Plan D → Members D → Result (Members D)
  admit_plan iteration plan m = do
    column ← from_plan plan
    admitted ← admit column m.pool
    ok (
        note_coverage admitted.0.effective_coverage_improvement iteration
          (record m { pool = admitted.1 }))

  unfoldable pub admit_plans : ℕ → List (Plan D) → Members D → Result (Members D)
  admit_plans iteration [] m = ok m
  admit_plans iteration (plan ∷ plans) m = do
    n ← if plan_feasible plan then admit_plan iteration plan m else ok m
    admit_plans iteration plans n

  unfoldable pub reprice : ℕ → Members D → Result (Members D)
  reprice iteration m = do
    repriced ← reprice_backup m.pool
    ok (
        note_coverage (not (nat_eq repriced.0.effective_coverage_improvements 0)) iteration
          (record m { pool = repriced.1 }))

  -- The ordinary rounds: only the record policy passes the local solution through.
  unfoldable pub ordinary_round : ContinuationPolicy → Solution D → Option (Solution D)
  ordinary_round by_record local = some local
  ordinary_round operational local = none

  -- The three starts that are considered.
  unfoldable pub start_of_best :
      Instance D → List (RouteColumn D) → Option (Solution D) → Option (SpMipStartChoice D)
  start_of_best instance_ columns none = none
  start_of_best instance_ columns (some best) =
      make_sp_mip_start instance_ columns (solution_customer_sets best) best_feasible

  unfoldable pub start_of_local :
      Instance D → List (RouteColumn D) → Solution D → Option (SpMipStartChoice D)
  start_of_local instance_ columns local =
      if solution_feasible local
      then make_sp_mip_start instance_ columns (solution_customer_sets local) local_feasible
      else none

  unfoldable pub choose_start :
      Instance D
      → List (RouteColumn D)
      → List Key
      → Option (Solution D)
      → Solution D
      → SpMipStartChoice D
  choose_start instance_ columns previous best local =
      consider_mip_start
        (consider_mip_start
          (consider_mip_start empty_start
            (make_sp_mip_start instance_ columns previous previous_sp))
          (start_of_best instance_ columns best))
        (start_of_local instance_ columns local)

  -- The members before and after the integer model.
  unfoldable pub count_sp_call : Bool → ℕ → Members D → Members D
  count_sp_call adaptive iteration m = record m {
    sp_calls = counted_up m.sp_calls 1;
    last_sp_iteration = iteration;
    pool_effective_generation_at_last_sp = m.pool.effective_generation;
    adaptive_sp_calls = counted_up m.adaptive_sp_calls (to_nat adaptive);
  }

  unfoldable pub keep_selection : List (RouteColumn D) → Members D → Members D
  keep_selection [] m = m
  keep_selection (column ∷ columns) m = record m {
    previous_sp_customer_sets = map (λ c. c.customer_set) (column ∷ columns);
  }

  unfoldable pub count_partition : Partitioned D → Members D → Members D
  count_partition p m = keep_selection p.selected_columns (record m {
    sp_model_runtime_s = d.add m.sp_model_runtime_s p.runtime_s;
    sp_lp_prepass_calls = counted_up m.sp_lp_prepass_calls (to_nat p.lp_prepass_attempted);
    sp_lp_certified_calls = counted_up m.sp_lp_certified_calls (to_nat p.lp_certified_start);
    sp_lp_fallback_calls =
        counted_up m.sp_lp_fallback_calls
          (to_nat (p.lp_prepass_attempted && not p.lp_certified_start));
    sp_lp_exception_calls = counted_up m.sp_lp_exception_calls (to_nat p.lp_prepass_exception);
    lp_calls = counted_up m.lp_calls (to_nat p.lp_prepass_exception);
    sp_lp_prepass_wall_s = d.add m.sp_lp_prepass_wall_s p.lp_prepass_wall_s;
    sp_rc_fixing_calls =
        counted_up m.sp_rc_fixing_calls (to_nat (not (nat_eq p.fixed_zero_columns 0)));
    sp_rc_fixed_columns = counted_up m.sp_rc_fixed_columns p.fixed_zero_columns;
    sp_rc_considered_columns = counted_up m.sp_rc_considered_columns p.fixing_columns_considered;
  })

  -- The solution of the selected columns, which is checked.
  unfoldable pub assembled_of : Instance D → List (RouteColumn D) → Result (Option (Solution D))
  assembled_of instance_ [] = ok none
  assembled_of instance_ (column ∷ columns) = do
    let solution : Solution D = record { plans = map (λ c. c.plan) (column ∷ columns) }
    validate_partition instance_ solution
    ok (some solution)

  unfoldable pub target_met : Option D → Option (Solution D) → Bool
  target_met target none = false
  target_met target (some solution) = rounded_target_reached target solution

  -- The duals of an optimal relaxation go to the pool.
  unfoldable pub take_duals : SolverConfig D → ℕ → Relaxation D → Members D → Result (Members D)
  take_duals config iteration relaxation m =
      let priced = record m { pool = update_duals relaxation.duals m.pool } in
      if not relaxation.optimal
      then ok m
      else if config.reprice_after_lp
      then reprice iteration priced
      else ok priced
