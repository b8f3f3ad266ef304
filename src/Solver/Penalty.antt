-- ===== src/Solver/Penalty.antt =====
-- `observe_penalty` of src/solver.cpp: the penalty factor and the counters that steer it.
pub mod Bounds
use ils_sp.Prelude.{ℕ, Bool, true, false, List, [], ◌∷◌, leb, if◌then◌else◌}
use ils_sp.Double.{Double, fmin, fmax}
use ils_sp.Pool.{counted_up}
use ils_sp.Solver.{PaperParameters, PenaltyState}

module _ {D : Type 0} ⦃d : Double D⦄ where
  -- The first test: one counter goes up and the other starts anew.
  unfoldable pub count_feasible : Bool → PenaltyState D → PenaltyState D
  count_feasible true p = record p {
    consecutive_feasible = counted_up p.consecutive_feasible 1;
    consecutive_infeasible = 0;
  }
  count_feasible false p = record p {
    consecutive_feasible = 0;
    consecutive_infeasible = counted_up p.consecutive_infeasible 1;
  }

  -- The second.
  unfoldable pub adjust_lambda : PaperParameters D → PenaltyState D → PenaltyState D
  adjust_lambda c p =
      if leb c.penalty_window p.consecutive_infeasible
      then record p {
        penalty_lambda = fmin c.lambda_max (d.mul p.penalty_lambda c.penalty_factor);
        consecutive_infeasible = 0;
      }
      else if leb c.penalty_window p.consecutive_feasible
      then record p {
        penalty_lambda = fmax c.lambda_min (d.div p.penalty_lambda c.penalty_factor);
        consecutive_feasible = 0;
      }
      else p

  unfoldable pub observe_penalty : PaperParameters D → Bool → PenaltyState D → PenaltyState D
  observe_penalty c feasible p = adjust_lambda c (count_feasible feasible p)

  -- The constructor's initial values.
  abbrev pub initial_penalty : PaperParameters D → PenaltyState D
  initial_penalty c = record {
    penalty_lambda = c.lambda_initial;
    consecutive_feasible = 0;
    consecutive_infeasible = 0;
  }

  -- The solver's loop observes one local optimum after the other.
  unfoldable pub observe_all : PaperParameters D → List Bool → PenaltyState D → PenaltyState D
  observe_all c [] p = p
  observe_all c (feasible ∷ rest) p = observe_all c rest (observe_penalty c feasible p)
