-- ===== src/Solver/Loop/Answers.antt =====
-- `solve` of src/solver.cpp: the solutions of its result, and where they come from.
use ils_sp.Prelude.{
  ◌≤◌, ◌≡◌, arith, true, Option, none, some, List, ok, Returns, Returns->>=, Returns-ok,
}
use ils_sp.Double.{Double}
use ils_sp.Core.{Solution, solution_feasible}
use ils_sp.Core.Curve.{Text, ChargingCurve}
use ils_sp.Core.Instance.{Node, Vehicle, Instance, new_instance}
use ils_sp.Core.Partition.Cover.{validate_partition_iff}
use ils_sp.Solver.{SolverConfig}
use ils_sp.Solver.Records.{cheaper, select_fallback}
use ils_sp.Solver.Budget.{new_budget}
use ils_sp.Solver.Members.{Members, Services}
use ils_sp.Solver.Loop.{Search}
use ils_sp.Solver.Loop.Rounds.{SolverResult, rounds, deadline_of, if_feasible, conclude_run, solve}
use ils_sp.Solver.Loop.Sound.{
  either, IsValid, ServesAll, Built, Found, builds, IsAnswer, Sound, rounds-Sound,
}

module _ {D W : Type 0} ⦃d : Double D⦄ (i : Instance D) (search : Search D W) where
  -- Nothing to beat, or a solution that costs less by more than `kCostTolerance`.
  abbrev pub Outbids : Option (Solution D) → Solution D → Type 0
  Outbids none fallback = Unit
  Outbids (some best) fallback = cheaper fallback best ≡ true

  -- No fallback, or one that the builder returns, that is feasible and outbids the best solution.
  abbrev pub IsFallback : Option (Solution D) → Option (Solution D) → Type 0
  IsFallback best none = Unit
  IsFallback best (some s) = (solution_feasible s ≡ true) × Built i search s × Outbids best s

  select_fallback-IsFallback :
      (best fallback : Option (Solution D))
      → IsFallback none fallback
      → IsFallback best (select_fallback best fallback)
  unfolding select_fallback
  select_fallback-IsFallback none fallback h = h
  select_fallback-IsFallback (some best) none h = tt
  select_fallback-IsFallback (some best) (some fallback) h =
      either (IsFallback (some best)) (cheaper fallback best) _ _ (λ less. (h.0, h.1, less))
        (λ _. tt)

module _ {D W : Type 0} ⦃d : Double D⦄ (config : SolverConfig D) (services : Services D W)
    (search : Search D W) (i : Instance D) where
  abbrev pub Answers : SolverResult D W → Type 0
  Answers result =
      IsAnswer i search result.best_solution
      × IsFallback i search result.best_solution result.initialization_fallback
      × Found i search result.final_solution
      × (result.iterations ≤ config.parameters.max_iterations)

  if_feasible-IsFallback :
      (s : Solution D)
      → Built i search s
      → IsFallback i search none (if_feasible config services search i s)
  unfolding if_feasible
  if_feasible-IsFallback s made =
      either (IsFallback i search none) (solution_feasible s) _ _ (λ e. (e, made, tt)) (λ _. tt)

  solve-Answers :
      (members : Members D) (world : W)
      → ((s : Solution D) → IsValid i s → ServesAll i s)
      → Returns Answers (solve config services search i members world)
  unfolding solve conclude_run
  solve-Answers members world serves =
      let bound = config.parameters.max_iterations in
      let lambda = members.penalty.penalty_lambda in
      Returns->>= Answers (new_budget config.frvcp_active_wall_budget_s) _ (λ budget _.
        Returns->>= Answers (deadline_of config services search i _) _ (λ limit _.
          Returns->>= Answers (search.build lambda (services.now world).1) _ (λ initial e.
            let made : Built i search initial.0 = (lambda, _, initial.1, e) in
            Returns->>= Answers (rounds config services search i limit bound 1 _) _ (λ ended e'.
              let kept =
                Returns-ok (λ v. Sound config services search i limit bound serves v.1) _ ended e'
                  (rounds-Sound config services search i limit bound serves bound 1 _ (omega arith)
                    (builds made, tt, omega arith)) in
              let answers : Answers (
                  conclude_run config services search i
                    (if_feasible config services search i initial.0) ended) =
                (
                  kept.1,
                  select_fallback-IsFallback i search ended.1.best _
                      (if_feasible-IsFallback initial.0 made),
                  kept.0,
                  kept.2,
                ) in
              answers))))

module _ {D W : Type 0} ⦃d : Double D⦄ (config : SolverConfig D) (services : Services D W)
    (search : Search D W) where
  -- On an instance that the constructor has returned, whatever the search components, the clock and
  -- the backends answer, under either policy. A solution has an origin if the builder of the initial
  -- solution returns it, if its plans are consistent and serve every customer once and nothing else,
  -- or if the perturbation or the descent returns it from a solution that has an origin. Then of a
  -- result of `solve`: the final solution has an origin; the best solution is absent, or it is
  -- feasible and either its plans are consistent and serve every customer once and nothing else or
  -- the descent returns it from a solution that has an origin; the fallback is absent, or the
  -- builder returns it, it is feasible, and it costs less than the best solution, if there is one,
  -- by more than `kCostTolerance`; and the iterations are at most the configured number.
  pub solve-IsAnswer :
      (name dataset : Text) (nodes : List (Node D)) (vehicle : Vehicle D)
      (curves : List (Text × ChargingCurve D)) (i : Instance D) (members : Members D) (world : W)
      (result : SolverResult D W)
      → new_instance name dataset nodes vehicle curves ≡ ok i
      → solve config services search i members world ≡ ok result
      → IsAnswer i search result.best_solution
        × IsFallback i search result.best_solution result.initialization_fallback
        × Found i search result.final_solution
        × (result.iterations ≤ config.parameters.max_iterations)
  solve-IsAnswer name dataset nodes vehicle curves i members world result built e =
      Returns-ok (Answers config services search i) _ result e (
        solve-Answers config services search i members world
          (λ s. (validate_partition_iff name dataset nodes vehicle curves i built s).0))
