-- ===== src/Solver/Assembly/Routes.antt =====
-- `assemble_routes` of src/solver.cpp: the fixed-route model on the selected columns, and the phases
-- from the pool to the assembled solution.
use ils_sp.Prelude.{
  ℕ, ◌+◌, ◌%◌, Bool, not, ◌&&◌, ◌||◌, Option, none, some, List, [], ◌∷◌, length, set, get_elem?,
  nat_eq, if◌then◌else◌, Result, ok, ◌>>=◌, ◌>>◌,
}
use ils_sp.Prelude.Int.{ℤ, pos}
use ils_sp.Double.{Double, cost_tolerance}
use ils_sp.Core.{Plan, Solution, plan_feasible, plan_cost}
use ils_sp.Core.Instance.{Instance}
use ils_sp.Core.Partition.{validate_partition}
use ils_sp.Pool.{RouteColumn, counted_up}
use ils_sp.Pool.Upkeep.{main_columns}
use ils_sp.Solver.{SolverConfig}
use ils_sp.Solver.Records.{rounded_target_reached}
use ils_sp.Solver.Schedule.{adaptive_sp, run_sp}
use ils_sp.Solver.Start.{pool_covers_all_customers}
use ils_sp.Solver.Budget.{enabled, exhausted, deadline, charge}
use ils_sp.Solver.Members.{
  Members, Services, Session, Partitioned, Optimized, read_clock, deadline_expired,
}
use ils_sp.Solver.Assembly.{
  Outcome, admit_plan, admit_plans, reprice, ordinary_round, choose_start, count_sp_call,
  count_partition, assembled_of, target_met, take_duals,
}

module _ {D W : Type 0} ⦃d : Double D⦄ where
  -- The state with other members.
  abbrev pub with_members : Members D → Session D W → Session D W
  with_members m s = record s { members = m }

module _ {D : Type 0} ⦃d : Double D⦄ where
  -- `improves || upgrades_exactness`.
  unfoldable pub accepts : Plan D → Plan D → Bool
  accepts candidate incumbent =
      d.lt (plan_cost candidate) (d.sub (plan_cost incumbent) cost_tolerance)
      || (candidate.exact_charging
          && not incumbent.exact_charging
          && d.le (plan_cost candidate) (d.add (plan_cost incumbent) cost_tolerance))

-- The plan at an index, which the selected column gave the solution.
abbrev pub plan_at {ℓ} : {A : Type ℓ} → List A → ℕ → A → A
plan_at plans index default = elim (get_elem? plans index) [ none ↦ default | some plan ↦ plan ]

module _ {D W : Type 0} ⦃d : Double D⦄ (config : SolverConfig D) (services : Services D W)
    (iteration : ℕ) (limit : Option ℤ) where
  unfoldable pub take_plan :
      Option (Plan D)
      → ℕ
      → RouteColumn D
      → List (Plan D)
      → Members D
      → Result (List (Plan D) × Members D)
  take_plan none index selected plans m = ok (plans, m)
  take_plan (some candidate) index selected plans m =
      if plan_feasible candidate && accepts candidate (plan_at plans index selected.plan)
      then (do n ← admit_plan iteration candidate m; ok (set plans index candidate, n))
      else ok (plans, m)

  -- The model's answer for one selected column, with the wall time that it is charged.
  unfoldable pub start_point : Session D W → ℤ × Session D W
  start_point s = if enabled s.budget then read_clock services s else (pos 0, s)

  unfoldable pub charge_since : ℤ → Session D W → Session D W
  charge_since started s =
      if enabled s.budget
      then (let (point, t) = read_clock services s in
          record t { budget = charge services.clock started point t.budget })
      else s

  unfoldable pub count_optimized : Optimized D → Members D → Members D
  count_optimized optimized m = record m {
    frvcp_model_runtime_s = d.add m.frvcp_model_runtime_s optimized.runtime_s;
  }

  unfoldable pub call_optimize :
      RouteColumn D → Session D W → Result (Option (Plan D) × Session D W)
  call_optimize selected s =
      let (started, t) = start_point s in
      let counted = record t.members { frvcp_calls = counted_up t.members.frvcp_calls 1 } in
      do
        answer ←
            services.optimize selected.plan (deadline services.clock t.budget started limit) t.world
        let charged = charge_since started (record t { members = counted; world = answer.1 })
        ok (answer.0.plan, with_members (count_optimized answer.0 charged.members) charged)

  unfoldable pub optimize_route :
      RouteColumn D → ℕ → List (Plan D) → Session D W → Result (List (Plan D) × Session D W)
  optimize_route selected index plans s = do
    answer ← call_optimize selected s
    taken ← take_plan answer.0 index selected plans answer.1.members
    ok (taken.0, with_members taken.1 answer.1)

  -- The loop over the selected columns, from an index on.
  unfoldable pub reached : List (Plan D) → Bool
  reached plans =
      rounded_target_reached config.rounded_target_objective_h (record { plans = plans })

  unfoldable pub skip_routes : ℕ → Session D W → Session D W
  skip_routes routes s = record s {
    budget = record s.budget { skipped_routes = counted_up s.budget.skipped_routes routes };
  }

  unfoldable pub optimize_routes :
      List (RouteColumn D) → ℕ → List (Plan D) → Session D W → Result (List (Plan D) × Session D W)
  optimize_routes [] index plans s = ok (plans, s)
  optimize_routes (selected ∷ rest) index plans s =
      let (expired, t) = deadline_expired services limit s in
      if expired || reached plans
      then ok (plans, t)
      else if exhausted t.budget
      then ok (plans, skip_routes (length (selected ∷ rest)) t)
      else (do
        next ← optimize_route selected index plans t
        if reached next.0 then ok next else optimize_routes rest (index + 1) next.0 next.1)

  -- Behind the relaxation: the loop, and the check of what it leaves.
  unfoldable pub optimize_assembled :
      Instance D → List (RouteColumn D) → Option (Solution D) → Session D W → Result (Outcome D W)
  optimize_assembled instance_ selected none s = ok (none, s)
  optimize_assembled instance_ selected (some solution) s =
      let (expired, t) = deadline_expired services limit s in
      if expired then ok (some solution, t) else (do
        optimized ← optimize_routes selected 0 solution.plans t
        let final : Solution D = record { plans = optimized.0 }
        validate_partition instance_ final
        ok (some final, optimized.1))

  -- The linear relaxation, reused or solved.
  unfoldable pub relax : List (RouteColumn D) → Partitioned D → Session D W → Result (Session D W)
  relax columns p s =
      let counted = record s.members { lp_calls = counted_up s.members.lp_calls 1 } in
      do
        solved ← elim p.reused_relaxation [
          | some relaxation ↦ ok (relaxation, s.world)
          | none ↦ services.solve_relaxation columns limit s.world
        ]
        let timed = record counted {
          lp_model_runtime_s = d.add counted.lp_model_runtime_s solved.0.runtime_s;
        }
        priced ← take_duals config iteration solved.0 timed
        ok (record s { members = priced; world = solved.1 })

  unfoldable pub finish_assembly :
      Instance D
      → List (RouteColumn D)
      → Partitioned D
      → Option (Solution D)
      → Session D W
      → Result (Outcome D W)
  finish_assembly instance_ columns p assembled s =
      if target_met config.rounded_target_objective_h assembled
      then ok (assembled, s)
      else let (expired, t) = deadline_expired services limit s in
        if expired
        then ok (assembled, t)
        else (do u ← relax columns p t; optimize_assembled instance_ p.selected_columns assembled u)

  -- The integer model on the pool's columns.
  unfoldable pub solve_partition :
      Instance D
      → List (RouteColumn D)
      → Option (Solution D)
      → Solution D
      → Bool
      → Session D W
      → Result (Outcome D W)
  solve_partition instance_ columns best local adaptive s =
      let start = choose_start instance_ columns s.members.previous_sp_customer_sets best local in
      let counted = count_sp_call adaptive iteration s.members in
      do
        solved ← services.solve_integer columns limit start.column_indices s.world
        let t = record s { members = count_partition solved.0 counted; world = solved.1 }
        assembled ← assembled_of instance_ solved.0.selected_columns
        finish_assembly instance_ columns solved.0 assembled t

  unfoldable pub skip_incomplete : Members D → Members D
  skip_incomplete m = record m {
    sp_skipped_incomplete_pool = counted_up m.sp_skipped_incomplete_pool 1;
  }

  unfoldable pub partition_pool :
      Instance D → Option (Solution D) → Solution D → Bool → Session D W → Result (Outcome D W)
  partition_pool instance_ best local adaptive s =
      let (expired, t) = deadline_expired services limit s in
      let columns = main_columns t.members.pool in
      let (expired_again, u) = deadline_expired services limit t in
      if expired
      then ok (none, t)
      else if expired_again
      then ok (none, u)
      else if not (pool_covers_all_customers instance_ columns)
      then ok (none, with_members (skip_incomplete u.members) u)
      else solve_partition instance_ columns best local adaptive u

  -- `assemble_routes`.
  unfoldable pub reprice_when_due : Bool → Members D → Result (Members D)
  reprice_when_due run m =
      if nat_eq (iteration % config.parameters.backup_frequency) 0 || run
      then reprice iteration m
      else ok m

  unfoldable pub play_round :
      Instance D
      → Solution D
      → Option (Solution D)
      → Bool
      → Bool
      → Session D W
      → Result (Outcome D W)
  play_round instance_ local best run adaptive s =
      if run
      then partition_pool instance_ best local adaptive s
      else ok (ordinary_round config.continuation_policy local, s)

  unfoldable pub assemble_routes :
      Instance D → Solution D → Option (Solution D) → Session D W → Result (Outcome D W)
  assemble_routes instance_ local best s = do
    admitted ← admit_plans iteration local.plans s.members
    let run = run_sp config best iteration admitted
    let adaptive = adaptive_sp config best iteration admitted
    priced ← reprice_when_due run admitted
    let t = with_members priced s
    play_round instance_ local best run adaptive t
