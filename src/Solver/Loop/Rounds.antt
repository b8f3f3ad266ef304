-- ===== src/Solver/Loop/Rounds.antt =====
-- The rounds of `solve` in src/solver.cpp, and the result.
use ils_sp.Prelude.{
  ℕ, zero, suc, Bool, false, not, ◌&&◌, Option, none, some, List, [], ◌∷◌, if◌then◌else◌, Result,
  ok, ◌>>=◌,
}
use ils_sp.Prelude.Int.{ℤ, ℤ_eq}
use ils_sp.Double.{Double}
use ils_sp.Maps.{contains}
use ils_sp.Core.{Solution, solution_feasible}
use ils_sp.Core.Instance.{Instance}
use ils_sp.Core.Partition.{IdSet}
use ils_sp.Pool.Upkeep.{main_columns}
use ils_sp.InputContract.{checked_deadline_after}
use ils_sp.Solver.{SolverConfig}
use ils_sp.Solver.Config.{has_value}
use ils_sp.Solver.Penalty.{observe_penalty}
use ils_sp.Solver.Records.{select_fallback}
use ils_sp.Solver.Start.{cover_columns}
use ils_sp.Solver.Budget.{new_budget}
use ils_sp.Solver.Members.{Members, Services, Session, deadline_expired}
use ils_sp.Solver.Assembly.{target_met}
use ils_sp.Solver.Assembly.Routes.{assemble_routes, with_members}
use ils_sp.Solver.Loop.{
  Search, Anchor, Run, continue_from_record, cooperative_mode, fixed_anchor_mode, drop_anchor,
  follow_anchor, record_reset, count_carry, record_candidate, counted_if,
}

-- Why the loop has stopped, `stop_reason`.
pub data StopReason : Type 0 where
  max_iterations time_limit rounded_target : StopReason

-- `SolverResult`: its solutions and what the loop knows. The statistics are those of the members.
pub record SolverResult (D W : Type 0) : Type 0 where
  pub best_solution : Option (Solution D)
  pub initialization_fallback : Option (Solution D)
  pub final_solution : Solution D
  pub pool_uncovered_customers : List ℤ
  pub iterations : ℕ
  pub stop_reason : StopReason
  pub session : Session D W

module _ {D W : Type 0} ⦃d : Double D⦄ where
  -- The penalty feedback has changed the factor.
  unfoldable pub lambda_reset : Solution D → Run D W → Run D W
  lambda_reset local r = record r {
    current = local;
    anchor = record (drop_anchor r.anchor) {
      lambda_resets = counted_if (has_value r.anchor.return_anchor) r.anchor.lambda_resets;
      pending_p_carry = false;
    };
  }

  abbrev pub with_session : Session D W → Run D W → Run D W
  with_session s r = record r { session = s }

module _ {D W : Type 0} ⦃d : Double D⦄ (config : SolverConfig D) (services : Services D W)
    (search : Search D W) (i : Instance D) (limit : Option ℤ) where
  -- The perturbation and the descent: the perturbed and the local solution.
  unfoldable pub generate : Run D W → Result (Solution D × Solution D × Run D W)
  generate r =
      let lambda = r.session.members.penalty.penalty_lambda in
      do
        perturbed ← search.apply r.current lambda r.session.world
        local ←
            search.improve perturbed.0 lambda limit
              (if cooperative_mode config
                then some (search.last_removal_count perturbed.1)
                else none)
              perturbed.1
        ok (perturbed.0, local.0, with_session (record r.session { world = local.1 }) r)

  -- Which solution the round goes on from, behind the descent.
  unfoldable pub settle : Solution D → Solution D → Run D W → Run D W
  settle perturbed local r =
      if fixed_anchor_mode config
      then (let (expired, s) = deadline_expired services limit r.session in
          let lambda = r.session.members.penalty.penalty_lambda in
          let (current, anchor) = follow_anchor (not expired) lambda perturbed local r.anchor in
          record r { session = s; current = current; anchor = anchor })
      else if cooperative_mode config
      then record r { current = local }
      else if continue_from_record config
      then record r { current = perturbed }
      else r

  -- The penalty feedback, and what it does to the anchor.
  unfoldable pub feed_back : Solution D → Run D W → Run D W
  feed_back local r =
      let before = r.session.members.penalty in
      let after = observe_penalty config.parameters (solution_feasible local) before in
      let next =
        with_session (with_members (record r.session.members { penalty = after }) r.session) r in
      if fixed_anchor_mode config && not (d.same_bits after.penalty_lambda before.penalty_lambda)
      then lambda_reset local next
      else next

  -- `record_candidate` on the run: whether there is a new record.
  unfoldable pub record_run : Solution D → ℕ → Run D W → Result (Bool × Run D W)
  record_run candidate iteration r = do
    recorded ← record_candidate config candidate iteration r.best r.session.members
    ok (recorded.0, record r { best = recorded.1; session = with_members recorded.2 r.session })

  -- What becomes of the assembled solution.
  unfoldable pub take_assembled : Solution D → ℕ → Option (Solution D) → Run D W → Result (Run D W)
  take_assembled local iteration none r =
      ok (if continue_from_record config then r else record r { current = local })
  take_assembled local iteration (some assembled) r =
      if continue_from_record config
      then (do
        recorded ← record_run assembled iteration r
        ok (
            if recorded.0
            then record recorded.1 {
              current = assembled;
              anchor = if fixed_anchor_mode config then record_reset r.anchor else r.anchor;
            }
            else recorded.1))
      else (do
        recorded ← record_run assembled iteration (record r { current = assembled })
        ok recorded.1)

  unfoldable pub skip_assembly : Solution D → ℕ → Bool → Run D W → Run D W
  skip_assembly local iteration target r = record r {
    current = if continue_from_record config then r.current else local;
    iterations = if target then iteration else r.iterations;
  }

  unfoldable pub assemble : Solution D → ℕ → Run D W → Result (Run D W)
  assemble local iteration r =
      let target = target_met config.rounded_target_objective_h r.best in
      let (expired, s) = deadline_expired services limit r.session in
      if not expired && not target
      then (do
        outcome ← assemble_routes config services iteration limit i local r.best s
        taken ← take_assembled local iteration outcome.0 (with_session outcome.1 r)
        ok (record taken { iterations = iteration }))
      else ok (skip_assembly local iteration target (with_session s r))

  -- The operational policy records the local solution before the assembly.
  unfoldable pub record_local : Solution D → ℕ → Run D W → Result (Run D W)
  record_local local iteration r =
      if continue_from_record config
      then ok r
      else (do recorded ← record_run local iteration r; ok recorded.1)

  -- The tests behind a round: the rounded target goes before the time limit.
  unfoldable pub stops_after : Run D W → Option StopReason × Run D W
  stops_after r =
      let (expired, s) = deadline_expired services limit r.session in
      let stop =
        if target_met config.rounded_target_objective_h r.best
        then some rounded_target
        else if expired
        then some time_limit
        else none in
      (stop, with_session s r)

  -- A round within the time limit, and whether the loop stops behind it.
  unfoldable pub play : ℕ → Run D W → Result (Option StopReason × Run D W)
  play iteration r = do
    made ← generate (record r { anchor = record r.anchor { pending_p_carry = false } })
    recorded ← record_local made.1 iteration (feed_back made.1 (settle made.0 made.1 made.2))
    assembled ← assemble made.1 iteration recorded
    ok (stops_after (record assembled { anchor = count_carry assembled.anchor }))

  unfoldable pub round : ℕ → Run D W → Result (Option StopReason × Run D W)
  round iteration r =
      let (expired, s) = deadline_expired services limit r.session in
      if expired then ok (some time_limit, with_session s r) else play iteration (with_session s r)

  abbrev pub after_round :
      (Run D W → Result (StopReason × Run D W))
      → Option StopReason
      → Run D W
      → Result (StopReason × Run D W)
  after_round rest (some reason) r = ok (reason, r)
  after_round rest none r = rest r

  -- The loop, from an iteration on, with the iterations that are left.
  unfoldable pub rounds : ℕ → ℕ → Run D W → Result (StopReason × Run D W)
  rounds zero iteration r = ok (max_iterations, r)
  rounds (suc left) iteration r = do
    next ← round iteration r
    after_round (rounds left (suc iteration)) next.0 next.1

-- The customers that no column covers.
unfoldable pub uncovered : IdSet → List ℤ → List ℤ
uncovered covered [] = []
uncovered covered (customer ∷ customers) =
    let rest = uncovered covered customers in
    if contains customer covered then rest else customer ∷ rest

module _ {D W : Type 0} ⦃d : Double D⦄ (config : SolverConfig D) (services : Services D W)
    (search : Search D W) (i : Instance D) where
  abbrev pub no_anchor : D → Anchor D
  no_anchor lambda = record {
    return_anchor = none;
    return_anchor_lambda = lambda;
    pending_p_carry = false;
    p_carry_decisions = 0;
    cumulative_p_steps = 0;
    max_cumulative_p_steps = 0;
    different_l_resets = 0;
    lambda_resets = 0;
    record_resets = 0;
  }

  unfoldable pub deadline_of : ℤ → Result (Option ℤ)
  deadline_of started = elim config.global_time_limit_s [
    | none ↦ ok none
    | some seconds ↦ do
      point ← checked_deadline_after services.clock started seconds
      ok (some point)
  ]

  unfoldable pub if_feasible : Solution D → Option (Solution D)
  if_feasible solution = if solution_feasible solution then some solution else none

  -- What `solve` returns behind the loop.
  unfoldable pub conclude_run : Option (Solution D) → StopReason × Run D W → SolverResult D W
  conclude_run fallback (reason, r) = record {
    best_solution = r.best;
    initialization_fallback = select_fallback r.best fallback;
    final_solution = r.current;
    pool_uncovered_customers =
        uncovered (cover_columns (main_columns r.session.members.pool) []) i.customer_ids;
    iterations = r.iterations;
    stop_reason = reason;
    session = r.session;
  }

  -- `solve`, on the members and the outside state that the constructor left.
  unfoldable pub solve : Members D → W → Result (SolverResult D W)
  solve members world =
      let (started, w) = services.now world in
      do
        budget ← new_budget config.frvcp_active_wall_budget_s
        limit ← deadline_of started
        initial ← search.build members.penalty.penalty_lambda w
        let first : Run D W = record {
          session = record { members = members; budget = budget; world = initial.1 };
          current = initial.0;
          best = none;
          anchor = no_anchor (d.decimal 0 0);
          iterations = 0;
        }
        ended ← rounds config services search i limit config.parameters.max_iterations 1 first
        ok (conclude_run (if_feasible initial.0) ended)
