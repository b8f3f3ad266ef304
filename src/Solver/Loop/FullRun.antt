-- ===== src/Solver/Loop/FullRun.antt =====
-- `solve` of src/solver.cpp: a run that nothing stops early.
use ils_sp.Prelude.{
  ℕ, zero, suc, ◌+◌, ◌≡◌, refl, ◌∙◌, arith, false, not, ◌&&◌, Option, none, some, Result, ok,
  Returns, Returns->>=, Returns-if, Returns-ok,
}
use ils_sp.Prelude.Int.{ℤ}
use ils_sp.Double.{Double}
use ils_sp.Core.{Solution}
use ils_sp.Core.Instance.{Instance}
use ils_sp.Solver.{SolverConfig}
use ils_sp.Solver.Budget.{new_budget}
use ils_sp.Solver.Records.{rounded_target_reached}
use ils_sp.Solver.Members.{Members, Services, Session, deadline_expired}
use ils_sp.Solver.Assembly.{target_met}
use ils_sp.Solver.Assembly.Routes.{assemble_routes}
use ils_sp.Solver.Loop.{Search, Run, count_carry}
use ils_sp.Solver.Loop.Rounds.{
  StopReason, max_iterations, SolverResult, generate, take_assembled, assemble, record_local,
  stops_after, play, round, after_round, rounds, deadline_of, conclude_run, solve, with_session,
}

module _ {D W : Type 0} ⦃d : Double D⦄ (config : SolverConfig D) (services : Services D W)
    (search : Search D W) (i : Instance D) (limit : Option ℤ) (unlimited : limit ≡ none)
    (untargeted : config.rounded_target_objective_h ≡ none) where
  never_expired : (s : Session D W) → (deadline_expired services limit s).0 ≡ false
  unfolding deadline_expired
  never_expired s = rw unlimited refl

  never_met :
      (best : Option (Solution D)) → target_met config.rounded_target_objective_h best ≡ false
  unfolding target_met rounded_target_reached
  never_met none = refl
  never_met (some best) = rw untargeted refl

  assemble-counts :
      (local : Solution D) (iteration : ℕ) (r : Run D W)
      → Returns
          (λ v. v.iterations ≡ iteration)
          (assemble config services search i limit local iteration r)
  unfolding assemble
  assemble-counts local iteration r =
      let Counted : Run D W → Type 0 = λ v. v.iterations ≡ iteration in
      let target = target_met config.rounded_target_objective_h r.best in
      let s = (deadline_expired services limit r.session).1 in
      Returns-if Counted (not (deadline_expired services limit r.session).0 && not target) _ _
        (λ _.
          Returns->>= Counted (assemble_routes config services iteration limit i local r.best s) _
            (λ outcome _.
              Returns->>= Counted
                (take_assembled config services search i limit local iteration outcome.0
                  (with_session outcome.1 r))
                _ (λ taken _. refl)))
        (λ e. absurd (ground (arith, never_expired r.session, never_met r.best, e)))

  stops_after-none :
      (r : Run D W)
      → ((stops_after config services search i limit r).0 ≡ none)
        × ((stops_after config services search i limit r).1.iterations ≡ r.iterations)
  unfolding stops_after
  stops_after-none r = rw (never_met r.best, never_expired r.session) (refl, refl)

  abbrev Continues : ℕ → Option StopReason × Run D W → Type 0
  Continues iteration v = (v.0 ≡ none) × (v.1.iterations ≡ iteration)

  play-Continues :
      (iteration : ℕ) (r : Run D W)
      → Returns (Continues iteration) (play config services search i limit iteration r)
  unfolding play
  play-Continues iteration r =
      Returns->>= (Continues iteration) (generate config services search i limit _) _ (λ made _.
        Returns->>= (Continues iteration)
          (record_local config services search i limit made.1 iteration _) _
          (λ recorded _.
            Returns->>= (Continues iteration)
              (assemble config services search i limit made.1 iteration recorded) _
              (λ assembled e.
                let counted =
                  Returns-ok (λ v. v.iterations ≡ iteration) _ assembled e
                    (assemble-counts made.1 iteration recorded) in
                let stopped =
                  stops_after-none (record assembled { anchor = count_carry assembled.anchor }) in
                (stopped.0, stopped.1 ∙ counted))))

  round-Continues :
      (iteration : ℕ) (r : Run D W)
      → Returns (Continues iteration) (round config services search i limit iteration r)
  unfolding round
  round-Continues iteration r =
      Returns-if (Continues iteration) (deadline_expired services limit r.session).0 _ _
        (λ e. absurd (ground (arith, never_expired r.session, e))) (λ _. play-Continues iteration _)

  abbrev Exhausts : ℕ → StopReason × Run D W → Type 0
  Exhausts last v = (v.0 ≡ max_iterations) × (v.1.iterations ≡ last)

  after_round-Exhausts :
      (last iteration : ℕ) (rest : Run D W → Result (StopReason × Run D W))
      (next : Option StopReason × Run D W)
      → Continues iteration next
      → ((r : Run D W) → r.iterations ≡ iteration → Returns (Exhausts last) (rest r))
      → Returns (Exhausts last) (after_round config services search i limit rest next.0 next.1)
  after_round-Exhausts last iteration rest (none, r) h k = k r h.1
  after_round-Exhausts last iteration rest (some reason, r) h k = absurd (cc h.0)

  pub rounds-Exhausts :
      (last left iteration : ℕ) (r : Run D W)
      → r.iterations + 1 ≡ iteration
      → r.iterations + left ≡ last
      → Returns (Exhausts last) (rounds config services search i limit left iteration r)
  unfolding rounds
  rounds-Exhausts last zero iteration r e total = (refl, omega arith)
  rounds-Exhausts last (suc left) iteration r e total =
      Returns->>= (Exhausts last) (round config services search i limit iteration r) _ (λ next h.
        after_round-Exhausts last iteration _ next
          (Returns-ok (Continues iteration) _ next h (round-Continues iteration r))
          (λ s same. rounds-Exhausts last left (suc iteration) s (omega arith) (omega arith)))

module _ {D W : Type 0} ⦃d : Double D⦄ (config : SolverConfig D) (services : Services D W)
    (search : Search D W) (i : Instance D) where
  abbrev Completes : SolverResult D W → Type 0
  Completes result =
      (result.stop_reason ≡ max_iterations) × (result.iterations ≡ config.parameters.max_iterations)

  no_limit :
      (started : ℤ)
      → config.global_time_limit_s ≡ none
      → Returns (λ limit. limit ≡ none) (deadline_of config services search i started)
  unfolding deadline_of
  no_limit started e = rw e refl

  solve-Completes :
      (members : Members D) (world : W)
      → config.global_time_limit_s ≡ none
      → config.rounded_target_objective_h ≡ none
      → Returns Completes (solve config services search i members world)
  unfolding solve conclude_run
  solve-Completes members world unlimited untargeted =
      let last = config.parameters.max_iterations in
      Returns->>= Completes (new_budget config.frvcp_active_wall_budget_s) _ (λ budget _.
        Returns->>= Completes (deadline_of config services search i _) _ (λ limit e.
          let none_left = Returns-ok (λ l. l ≡ none) _ limit e (no_limit _ unlimited) in
          Returns->>= Completes (search.build members.penalty.penalty_lambda _) _ (λ initial _.
            Returns->>= Completes (rounds config services search i limit last 1 _) _ (λ ended e'.
              Returns-ok (Exhausts config services search i limit none_left untargeted last) _ ended
                e'
                (rounds-Exhausts config services search i limit none_left untargeted last last 1 _
                  (omega arith) (omega arith))))))

  -- Without a time limit and a rounded target: a call of `solve` that returns has made every
  -- iteration that is configured, and gives that as the reason to stop.
  pub solve-runs_all :
      (members : Members D) (world : W) (result : SolverResult D W)
      → config.global_time_limit_s ≡ none
      → config.rounded_target_objective_h ≡ none
      → solve config services search i members world ≡ ok result
      → (result.stop_reason ≡ max_iterations)
        × (result.iterations ≡ config.parameters.max_iterations)
  solve-runs_all members world result unlimited untargeted e =
      Returns-ok Completes _ result e (solve-Completes members world unlimited untargeted)
