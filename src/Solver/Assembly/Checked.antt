-- ===== src/Solver/Assembly/Checked.antt =====
-- `assemble_routes` of src/solver.cpp: which solutions it returns.
use ils_sp.Prelude.{
  ℕ, ◌≡◌, refl, ◌⊎◌, inl, inr, Bool, true, false, not, Option, none, some, List, [], ◌∷◌, All, ok,
  Returns, Returns->>=, Returns-if, Returns-ok, Returns-weaken,
}
use ils_sp.Prelude.Int.{ℤ}
use ils_sp.Double.{Double}
use ils_sp.Core.{Solution}
use ils_sp.Core.Curve.{Text, ChargingCurve}
use ils_sp.Core.Sets.{count}
use ils_sp.Core.Instance.{Node, Vehicle, Instance, new_instance}
use ils_sp.Core.Partition.Cover.{IsConsistent, plan_customers, validate_partition_iff}
use ils_sp.Core.Partition.{validate_partition}
use ils_sp.Pool.{RouteColumn}
use ils_sp.Pool.Upkeep.{main_columns}
use ils_sp.Solver.{SolverConfig, ContinuationPolicy, operational, by_record}
use ils_sp.Solver.Start.{pool_covers_all_customers}
use ils_sp.Solver.Members.{Services, Session, Partitioned, deadline_expired}
use ils_sp.Solver.Assembly.{Outcome, admit_plans, ordinary_round, assembled_of, target_met}
use ils_sp.Solver.Assembly.Routes.{
  optimize_routes, optimize_assembled, relax, finish_assembly, solve_partition, partition_pool,
  play_round, reprice_when_due, assemble_routes,
}

module _ {D W : Type 0} ⦃d : Double D⦄ (config : SolverConfig D) (services : Services D W)
    (iteration : ℕ) (limit : Option ℤ) (i : Instance D) where
  -- No solution, or one that `validate_partition` accepts.
  abbrev pub IsChecked : Option (Solution D) → Type 0
  IsChecked none = Unit
  IsChecked (some solution) = validate_partition i solution ≡ ok tt

  abbrev OfOutcome : Outcome D W → Type 0
  OfOutcome outcome = IsChecked outcome.0

  assembled_of-IsChecked :
      (columns : List (RouteColumn D)) → Returns (λ o. IsChecked o) (assembled_of i columns)
  unfolding assembled_of
  assembled_of-IsChecked [] = tt
  assembled_of-IsChecked (column ∷ columns) =
      Returns->>= (λ o. IsChecked o) (validate_partition i _) _ (λ u valid. valid)

  optimize_assembled-IsChecked :
      (selected : List (RouteColumn D)) (o : Option (Solution D)) (s : Session D W)
      → IsChecked o
      → Returns OfOutcome (optimize_assembled config services iteration limit i selected o s)
  unfolding optimize_assembled
  optimize_assembled-IsChecked selected none s h = tt
  optimize_assembled-IsChecked selected (some solution) s h =
      Returns-if OfOutcome (deadline_expired services limit s).0 _ _ (λ _. h)
        (λ _.
          Returns->>= OfOutcome
            (optimize_routes config services iteration limit selected 0 solution.plans _) _
            (λ optimized _. Returns->>= OfOutcome (validate_partition i _) _ (λ u valid. valid)))

  finish_assembly-IsChecked :
      (columns : List (RouteColumn D)) (p : Partitioned D) (o : Option (Solution D))
      (s : Session D W)
      → IsChecked o
      → Returns OfOutcome (finish_assembly config services iteration limit i columns p o s)
  unfolding finish_assembly
  finish_assembly-IsChecked columns p o s h =
      Returns-if OfOutcome (target_met config.rounded_target_objective_h o) _ _ (λ _. h)
        (λ _.
          Returns-if OfOutcome (deadline_expired services limit s).0 _ _ (λ _. h)
            (λ _.
              Returns->>= OfOutcome (relax config services iteration limit columns p _) _
                (λ u _. optimize_assembled-IsChecked p.selected_columns o u h)))

  solve_partition-IsChecked :
      (columns : List (RouteColumn D)) (best : Option (Solution D)) (local : Solution D)
      (adaptive : Bool) (s : Session D W)
      → Returns OfOutcome
          (solve_partition config services iteration limit i columns best local adaptive s)
  unfolding solve_partition
  solve_partition-IsChecked columns best local adaptive s =
      Returns->>= OfOutcome (services.solve_integer columns limit _ s.world) _ (λ solved _.
        Returns->>= OfOutcome (assembled_of i solved.0.selected_columns) _ (λ o e.
          finish_assembly-IsChecked columns solved.0 o _ (
            Returns-ok (λ x. IsChecked x) _ o e
              (assembled_of-IsChecked solved.0.selected_columns))))

  partition_pool-IsChecked :
      (best : Option (Solution D)) (local : Solution D) (adaptive : Bool) (s : Session D W)
      → Returns OfOutcome (partition_pool config services iteration limit i best local adaptive s)
  unfolding partition_pool
  partition_pool-IsChecked best local adaptive s =
      let first = deadline_expired services limit s in
      let second = deadline_expired services limit first.1 in
      Returns-if OfOutcome first.0 _ _ (λ _. tt)
        (λ _.
          Returns-if OfOutcome second.0 _ _ (λ _. tt)
            (λ _.
              Returns-if OfOutcome
                (not (pool_covers_all_customers i (main_columns first.1.members.pool))) _ _
                (λ _. tt)
                (λ _.
                  solve_partition-IsChecked (main_columns first.1.members.pool) best local adaptive
                    second.1)))

  -- A solution that `assemble_routes` returns is one that `validate_partition` accepts or, in a
  -- round without a call of the set-partitioning model and under the record policy, the local
  -- solution as it came.
  abbrev pub Assembled : Solution D → Option (Solution D) → Type 0
  Assembled local o = IsChecked o ⊎ ((o ≡ some local) × (config.continuation_policy ≡ by_record))

  ordinary_round-Assembled :
      (policy : ContinuationPolicy) (local : Solution D)
      → config.continuation_policy ≡ policy
      → Assembled local (ordinary_round policy local)
  unfolding ordinary_round
  ordinary_round-Assembled operational local e = inl tt
  ordinary_round-Assembled by_record local e = inr (refl, e)

  play_round-Assembled :
      (local : Solution D) (best : Option (Solution D)) (run adaptive : Bool) (s : Session D W)
      → Returns
          (λ outcome. Assembled local outcome.0)
          (play_round config services iteration limit i local best run adaptive s)
  unfolding play_round
  play_round-Assembled local best true adaptive s =
      Returns-weaken OfOutcome _
        (partition_pool config services iteration limit i best local adaptive s)
        (λ outcome h. inl h) (partition_pool-IsChecked best local adaptive s)
  play_round-Assembled local best false adaptive s =
      ordinary_round-Assembled config.continuation_policy local refl

  pub assemble_routes-Assembled :
      (local : Solution D) (best : Option (Solution D)) (s : Session D W)
      → Returns
          (λ outcome. Assembled local outcome.0)
          (assemble_routes config services iteration limit i local best s)
  unfolding assemble_routes
  assemble_routes-Assembled local best s =
      Returns->>= (λ outcome. Assembled local outcome.0)
        (admit_plans iteration local.plans s.members) _
        (λ admitted _.
          Returns->>= (λ outcome. Assembled local outcome.0)
            (reprice_when_due config services iteration limit _ admitted) _
            (λ priced _. play_round-Assembled local best _ _ _))

module _ {D W : Type 0} ⦃d : Double D⦄ (config : SolverConfig D) (services : Services D W) where
  -- On an instance that the constructor has returned, whatever the clock and the backends answer:
  -- a solution that `assemble_routes` returns has consistent plans that serve every customer once
  -- and nothing else or, under the record policy, is the local solution that it was given.
  pub assemble_routes-IsPartition :
      (name dataset : Text) (nodes : List (Node D)) (vehicle : Vehicle D)
      (curves : List (Text × ChargingCurve D)) (i : Instance D) (iteration : ℕ) (limit : Option ℤ)
      (local : Solution D) (best : Option (Solution D)) (s t : Session D W) (solution : Solution D)
      → new_instance name dataset nodes vehicle curves ≡ ok i
      → assemble_routes config services iteration limit i local best s ≡ ok (some solution, t)
      → (All IsConsistent solution.plans
          × ((a : ℤ) → count a (plan_customers solution.plans) ≡ count a i.customer_ids))
        ⊎ ((solution ≡ local) × (config.continuation_policy ≡ by_record))
  assemble_routes-IsPartition name dataset nodes vehicle curves i iteration limit local best s t
        solution built e =
      elim (Returns-ok (λ outcome. Assembled config services iteration limit i local outcome.0) _
        (some solution, t) e
        (assemble_routes-Assembled config services iteration limit i local best s)) [
          | inl valid ↦
              inl (
                (validate_partition_iff name dataset nodes vehicle curves i built solution).0 valid)
          | inr (same, policy) ↦ inr (cc, policy)
        ]
