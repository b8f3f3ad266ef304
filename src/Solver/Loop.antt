-- ===== src/Solver/Loop.antt =====
-- `solve` of src/solver.cpp: its variables, and what one round does with the local solution. The
-- readings of the clock that only measure run times, and the reports, are left out.
pub mod Rounds
pub mod Sound
pub mod Answers
pub mod FullRun
pub mod Tests
use ils_sp.Prelude.{
  ℕ, Bool, true, false, not, ◌&&◌, ◌||◌, Option, none, some, List, [], ◌∷◌, nat_eq, if◌then◌else◌,
  Result, ok, throw, ◌>>=◌, ltb,
}
use ils_sp.Prelude.Int.{ℤ}
use ils_sp.Double.{Double}
use ils_sp.Core.{Solution, solution_feasible}
use ils_sp.Pool.{counted_up}
use ils_sp.Pool.Upkeep.{protect_partition}
use ils_sp.Solver.{SolverConfig, ContinuationPolicy, operational, by_record}
use ils_sp.Solver.Config.{is_paper, has_value}
use ils_sp.Solver.Penalty.{observe_penalty}
use ils_sp.Solver.Records.{update_best}
use ils_sp.Solver.Workstate.{same_complete_workstate}
use ils_sp.Solver.Members.{Members, Session}

-- The search components, on the state that the clock and the backends share with them.
pub record Search (D W : Type 0) : Type 0 where
  pub build : D → W → Result (Solution D × W)
  pub apply : Solution D → D → W → Result (Solution D × W)
  pub last_removal_count : W → ℕ
  pub improve : Solution D → D → Option ℤ → Option ℕ → W → Result (Solution D × W)

-- The return anchor of the fixed-anchor mode, and its counters.
pub record Anchor (D : Type 0) : Type 0 where
  pub return_anchor : Option (Solution D)
  pub return_anchor_lambda : D
  pub pending_p_carry : Bool
  pub p_carry_decisions : ℕ
  pub cumulative_p_steps : ℕ
  pub max_cumulative_p_steps : ℕ
  pub different_l_resets : ℕ
  pub lambda_resets : ℕ
  pub record_resets : ℕ

-- The other variables of the loop.
pub record Run (D W : Type 0) : Type 0 where
  pub session : Session D W
  pub current : Solution D
  pub best : Option (Solution D)
  pub anchor : Anchor D
  pub iterations : ℕ

abbrev pub counted_if : Bool → ℕ → ℕ
counted_if b n = if b then counted_up n 1 else n

abbrev pub records_only : ContinuationPolicy → Bool
records_only operational = false
records_only by_record = true

module _ {D : Type 0} ⦃d : Double D⦄ where
  -- `continue_from_record`, `cooperative_mode` and `fixed_anchor_mode`.
  unfoldable pub continue_from_record : SolverConfig D → Bool
  continue_from_record config = records_only config.continuation_policy

  unfoldable pub cooperative_mode : SolverConfig D → Bool
  cooperative_mode config =
      is_paper config.search_profile
      && config.preserve_station_visits
      && not config.implicit_replace_path

  unfoldable pub fixed_anchor_mode : SolverConfig D → Bool
  fixed_anchor_mode config = continue_from_record config && cooperative_mode config

  -- `return_anchor.reset()` with the counter that starts anew.
  unfoldable pub drop_anchor : Anchor D → Anchor D
  drop_anchor a = record a { return_anchor = none; cumulative_p_steps = 0 }

  -- The anchor is the local solution again.
  unfoldable pub same_endpoint : Anchor D → D → Solution D → Bool
  same_endpoint a lambda local = elim a.return_anchor [
    | none ↦ false
    | some anchor ↦
        d.same_bits a.return_anchor_lambda lambda && same_complete_workstate anchor local
  ]

  unfoldable pub move_anchor : D → Solution D → Anchor D → Anchor D
  move_anchor lambda local a = record a {
    different_l_resets = counted_if (has_value a.return_anchor) a.different_l_resets;
    return_anchor = some local;
    return_anchor_lambda = lambda;
    cumulative_p_steps = 0;
  }

  -- The fixed-anchor mode behind the descent: the solution to go on from, and the anchor.
  unfoldable pub follow_anchor :
      Bool → D → Solution D → Solution D → Anchor D → Solution D × Anchor D
  follow_anchor completed lambda perturbed local a =
      if not completed
      then (local, drop_anchor a)
      else if same_endpoint a lambda local
      then (perturbed, record a { pending_p_carry = true })
      else (local, move_anchor lambda local a)

  -- A record that the assembler has found.
  unfoldable pub record_reset : Anchor D → Anchor D
  record_reset a = record (drop_anchor a) {
    record_resets = counted_if (has_value a.return_anchor) a.record_resets;
    pending_p_carry = false;
  }

  -- The carries that survive the round.
  unfoldable pub count_carry : Anchor D → Anchor D
  count_carry a =
      let steps = counted_up a.cumulative_p_steps 1 in
      if a.pending_p_carry
      then record a {
        p_carry_decisions = counted_up a.p_carry_decisions 1;
        cumulative_p_steps = steps;
        max_cumulative_p_steps =
            if ltb a.max_cumulative_p_steps steps then steps else a.max_cumulative_p_steps;
      }
      else a

  -- `record_candidate`, for a candidate that is the best solution now.
  unfoldable pub protect_record : SolverConfig D → Solution D → ℕ → Members D → Result (Members D)
  protect_record config best iteration m = do
    pool ← if config.protect_best_partition then protect_partition best m.pool else ok m.pool
    ok (record m {
      pool = pool;
      last_best_improvement_iteration = iteration;
      last_coverage_improvement_iteration =
          if nat_eq pool.effective_generation m.pool.effective_generation
          then m.last_coverage_improvement_iteration
          else iteration;
    })

  -- `record_candidate`: whether it is a record, the best solution, and the members.
  unfoldable pub record_candidate :
      SolverConfig D
      → Solution D
      → ℕ
      → Option (Solution D)
      → Members D
      → Result (Bool × Option (Solution D) × Members D)
  record_candidate config candidate iteration best m =
      let (improved, next) = update_best candidate best in
      if not improved
      then ok (false, best, m)
      else (do n ← protect_record config candidate iteration m; ok (true, next, n))
