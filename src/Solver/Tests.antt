-- ===== src/Solver/Tests.antt =====
-- Runs of src/solver.cpp on the small instance, and the theorems at those inputs.
use ils_sp.Core.Partition.{all_seen}
use ils_sp.Maps.{contains}
use ils_sp.Prelude.{
  list_eq, ℕ, ◌≡◌, ◌↔◌, ◌⊎◌, inl, inr, refl, true, false, none, some, List, [], ◌∷◌, replicate,
  arith,
}
use ils_sp.Prelude.Int.{◌-ℤ◌, ◌+ℤ◌, ℤ, pos, -ℤ_parts}
use ils_sp.Double.{nought, fmin, fmax, cost_tolerance}
use ils_sp.Double.Femto.{Femto, femto_double, Femto-IsOrdered, Femto-IsScaled, same_value_iff}
use ils_sp.Core.{list_less, solution_cost, Plan, Solution, RouteEvaluation, solution_feasible}
use ils_sp.Core.Sets.{count}
use ils_sp.Core.Example.{hours, a_name, some_nodes, a_vehicle, some_curves, an_instance, built}
use ils_sp.Pool.{counted_up, RouteColumn}
use ils_sp.Solver.{PaperParameters}
use ils_sp.Solver.Config.{bad_parameters}
use ils_sp.Solver.Penalty.{
  count_feasible, adjust_lambda, observe_all, initial_penalty, observe_penalty,
}
use ils_sp.Solver.Penalty.Bounds.{
  IsBounded, observe_all-IsBounded, penalty_window_effect, with_counts,
}
use ils_sp.Solver.Records.{
  beats, update_best, cheaper, best_after, best_after_optimal, kept_or_beaten,
}
use ils_sp.Solver.Workstate.{same_complete_workstate, same_complete_workstate_iff}
use ils_sp.Solver.Epochs.{Epoch}
use ils_sp.Solver.Epochs.Deferral.{explores, explores_in_time}
use ils_sp.Solver.Start.{
  covers_instance, finish_start, cover_set, lower_bound, matching, column_for, choose_column,
  choose_columns, make_sp_mip_start, SpMipStartChoice, previous_sp,
}
use ils_sp.Solver.Start.Cover.{IsSelection, ids_of, make_sp_mip_start-IsCover}

abbrev pub evaluation : List ℤ → Femto → RouteEvaluation Femto
evaluation visits cost = record {
  route = record { visits = visits };
  feasible = true;
  raw_cost_h = cost;
  travel_time_h = cost;
  charging_time_h = nought;
  service_time_h = nought;
  route_duration_h = cost;
  energy_shortfall_wh = nought;
  duration_excess_h = nought;
  arrival_energy_wh = cost ∷ [];
  departure_energy_wh = [];
  charging_events = [];
}

abbrev pub served_plan : ℤ → ℕ → Plan Femto
served_plan customer cost = record {
  customer_ids = customer ∷ [];
  gaps = [] ∷ [] ∷ [];
  route = record { visits = customer ∷ [] };
  evaluation = some (evaluation (customer ∷ []) (hours cost));
  exact_charging = false;
}

abbrev pub of_cost : ℕ → Solution Femto
of_cost cost = record { plans = served_plan (pos 7) cost ∷ served_plan (pos 3) 1 ∷ [] }

abbrev pub some_parameters : PaperParameters Femto
some_parameters = record {
  penalty_window = 2;
  penalty_factor = hours 3;
  lambda_initial = hours 10;
  lambda_min = hours 1;
  lambda_max = hours 50;
  sp_frequency = 5;
  backup_frequency = 5;
  pool_capacity = 1;
  max_iterations = 20;
}

accepted : bad_parameters some_parameters ≡ false
unfolding bad_parameters
accepted = refl

-- Two infeasible local optima, and two more that meet the cap.
raised_twice :
    observe_all some_parameters (replicate 4 false) (initial_penalty some_parameters)
    ≡ with_counts some_parameters (omega arith) (hours 50) 0 0
unfolding observe_all observe_penalty adjust_lambda count_feasible counted_up fmin
raised_twice = refl

observe_all-IsBounded_example :
    IsBounded some_parameters
      (observe_all some_parameters (false ∷ true ∷ true ∷ []) (initial_penalty some_parameters))
observe_all-IsBounded_example =
    observe_all-IsBounded Femto-IsOrdered Femto-IsScaled refl refl some_parameters
      (false ∷ true ∷ true ∷ []) accepted

penalty_window_effect_example :
    (observe_all some_parameters (replicate 2 false) (initial_penalty some_parameters)
      ≡ with_counts some_parameters
          (omega arith)
          (fmin (hours 50) (femto_double.mul (hours 10) (hours 3)))
          0
          0)
    × (observe_all some_parameters (replicate 2 true) (initial_penalty some_parameters)
        ≡ with_counts some_parameters
            (omega arith)
            (fmax (hours 1) (femto_double.div (hours 10) (hours 3)))
            0
            0)
penalty_window_effect_example =
    penalty_window_effect some_parameters (omega arith) (initial_penalty some_parameters)
      (omega arith) refl refl

tolerance_below :
    (x b : Femto)
    → femto_double.lt x (femto_double.sub b cost_tolerance) ≡ true
    → femto_double.lt x b ≡ true
tolerance_below (some x) (some b) h = ground (arith, h, -ℤ_parts b (pos 1000000))
tolerance_below none _ h = absurd cc
tolerance_below (some x) none h = absurd cc

abbrev three_costs : List (Solution Femto)
three_costs = of_cost 4 ∷ of_cost 2 ∷ of_cost 3 ∷ []

best_is_second : best_after three_costs none ≡ some (of_cost 2)
unfolding best_after update_best solution_feasible beats cheaper solution_cost ◌+ℤ◌ ◌-ℤ◌
best_is_second = refl

third_feasible : solution_feasible (of_cost 3) ≡ true
unfolding solution_feasible
third_feasible = refl

best_after_optimal_example : cheaper (of_cost 3) (of_cost 2) ≡ false
best_after_optimal_example =
    best_after_optimal Femto-IsOrdered tolerance_below three_costs none (of_cost 2) (of_cost 3) tt
      best_is_second (inr (inr (inl refl))) third_feasible

kept_or_beaten_example :
    (f : Solution Femto) × (best_after three_costs (some (of_cost 3)) ≡ some f)
    × (solution_feasible f ≡ true)
    × ((f ≡ of_cost 3) ⊎ (cheaper f (of_cost 3) ≡ true))
kept_or_beaten_example =
    kept_or_beaten Femto-IsOrdered tolerance_below three_costs (of_cost 3) third_feasible

same_complete_workstate_iff_example :
    (same_complete_workstate (of_cost 2) (of_cost 3) ≡ true) ↔ (of_cost 2 ≡ of_cost 3)
same_complete_workstate_iff_example =
    same_complete_workstate_iff same_value_iff (of_cost 2) (of_cost 3)

abbrev idle : Epoch Femto
idle = record {
  anchor = none;
  current = of_cost 4;
  epoch_generation = 0;
  productive = false;
  exploring = false;
  entries = 0;
  record_exits = 0;
  epoch_exits = 0;
  exploit_epoch_age = 3;
}

explores_in_time_example : explores (1 ∷ 2 ∷ 3 ∷ []) idle ≡ true
explores_in_time_example = explores_in_time (1 ∷ 2 ∷ 3 ∷ []) idle refl (omega arith) (omega arith)

abbrev pub column : ℤ → ℕ → RouteColumn Femto
column customer cost = record {
  plan = served_plan customer cost;
  customer_set = customer ∷ [];
  cost_h = hours cost;
  signature = customer ∷ [];
}

abbrev a_start : SpMipStartChoice Femto
a_start = record { column_indices = 1 ∷ 0 ∷ []; source = previous_sp; objective_h = some (hours 3) }

start_made :
    make_sp_mip_start an_instance
      (column (pos 3) 1 ∷ column (pos 7) 2 ∷ [])
      ((pos 7 ∷ []) ∷ (pos 3 ∷ []) ∷ [])
      previous_sp
    ≡ some a_start
unfolding make_sp_mip_start choose_columns choose_column column_for matching lower_bound list_less
    list_eq cover_set contains finish_start covers_instance an_instance all_seen ◌+ℤ◌
start_made = refl

make_sp_mip_start-IsCover_example :
    IsSelection
      (column (pos 3) 1 ∷ column (pos 7) 2 ∷ [])
      a_start.column_indices
      ((pos 7 ∷ []) ∷ (pos 3 ∷ []) ∷ [])
    × ((a : ℤ)
        → count a an_instance.customer_ids ≡ count a (ids_of ((pos 7 ∷ []) ∷ (pos 3 ∷ []) ∷ [])))
make_sp_mip_start-IsCover_example =
    make_sp_mip_start-IsCover a_name [] some_nodes a_vehicle some_curves an_instance
      (column (pos 3) 1 ∷ column (pos 7) 2 ∷ []) ((pos 7 ∷ []) ∷ (pos 3 ∷ []) ∷ []) previous_sp
      a_start built start_made
