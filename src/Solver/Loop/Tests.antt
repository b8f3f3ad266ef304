-- ===== src/Solver/Loop/Tests.antt =====
-- `solve` of src/solver.cpp on the small instance: two rounds in the fixed-anchor mode, with search
-- components that keep the initial solution, and the theorems at that input.
use ils_sp.Solver.Start.{insert_all, cover_columns}
use ils_sp.Pool.Upkeep.{listing_less, sort_columns, main_columns}
use ils_sp.Solver.Records.{cheaper, select_fallback, rounded_target_reached, beats, update_best}
use ils_sp.Solver.Schedule.{adaptive_due, adaptive_sp, periodic_sp, run_sp}
use ils_sp.Pool.Methods.{reject, insert_below_capacity, backup_dominates, admit_new, admit}
use ils_sp.Solver.Assembly.Routes.{play_round, reprice_when_due, assemble_routes}
use ils_sp.Solver.Penalty.{count_feasible, adjust_lambda, observe_penalty}
use ils_sp.Solver.Assembly.{ordinary_round, note_coverage, admit_plan, admit_plans, target_met}
use ils_sp.Solver.Budget.{bad_budget, new_budget}
use ils_sp.Maps.{erase, assign, contains, find}
use ils_sp.Prelude.{list_eq, ℕ, ◌≤◌, ◌≡◌, refl, true, false, none, some, [], ◌∷◌, ok}
use ils_sp.Prelude.Int.{◌+ℤ◌, ◌-ℤ◌, ℤ_eq, pos}
use ils_sp.Double.{fabs, fmax, nought}
use ils_sp.Double.Femto.{Femto, femto_double}
use ils_sp.Core.{
  cost_from, solution_cost, list_less, plan_cost, sorted_customer_set, solution_feasible,
}
use ils_sp.Core.Example.{hours, a_name, some_nodes, a_vehicle, some_curves, an_instance, built}
use ils_sp.Pool.{
  incumbent_dominates, key_of, record_improvement, insert_cost, index_main_insert, stored, costs_of,
  best_coverage_cost, coverage_improved, put_main, from_plan, counted_up, RoutePool, no_statistics,
  empty_pool, ordered_sequence,
}
use ils_sp.Solver.{SolverConfig}
use ils_sp.Solver.Members.{deadline_expired, Members}
use ils_sp.Solver.Tests.{some_parameters, column}
use ils_sp.Solver.Assembly.Tests.{a_config, backends, some_members, selected}
use ils_sp.Solver.Loop.{
  drop_anchor, record_reset, count_carry, move_anchor, same_endpoint, follow_anchor, protect_record,
  record_candidate, cooperative_mode, fixed_anchor_mode, continue_from_record, Search,
}
use ils_sp.Solver.Loop.Rounds.{
  conclude_run, if_feasible, uncovered, lambda_reset, stops_after, record_run, take_assembled,
  settle, feed_back, assemble, record_local, generate, play, round, rounds, deadline_of,
  SolverResult, max_iterations, solve,
}
use ils_sp.Solver.Loop.FullRun.{solve-runs_all}
use ils_sp.Solver.Loop.Sound.{IsAnswer, Found}
use ils_sp.Solver.Loop.Answers.{IsFallback, solve-IsAnswer}

abbrev anchored_config : SolverConfig Femto
anchored_config = record a_config {
  preserve_station_visits = true;
  parameters = record some_parameters { max_iterations = 2 };
}

abbrev idle_search : Search Femto ℕ
idle_search = record {
  build = λ lambda w. ok (selected, w);
  apply = λ s lambda w. ok (s, w);
  last_removal_count = λ w. 1;
  improve = λ s lambda limit removed w. ok (s, w);
}

abbrev first_members : Members Femto
first_members = some_members (empty_pool 4 nought ordered_sequence false) 0

abbrev filled_pool : RoutePool Femto
filled_pool = record (empty_pool 4 nought ordered_sequence false) {
  main = (pos 3 ∷ [], column (pos 3) 1) ∷ (pos 7 ∷ [], column (pos 7) 4) ∷ [];
  coverage_costs = (pos 3 ∷ [], hours 1 ∷ []) ∷ (pos 7 ∷ [], hours 4 ∷ []) ∷ [];
  effective_generation = 2;
  statistics = record no_statistics {
    admission_attempts = 4;
    dominated_rejections = 2;
    main_insertions = 2;
    effective_coverage_improvements = 2;
  };
}

abbrev expected : SolverResult Femto ℕ
expected = record {
  best_solution = some selected;
  initialization_fallback = none;
  final_solution = selected;
  pool_uncovered_customers = [];
  iterations = 2;
  stop_reason = max_iterations;
  session = record {
    members = record (some_members filled_pool 0) {
      penalty = record {
        penalty_lambda = some (pos 3333333333333333);
        consecutive_feasible = 0;
        consecutive_infeasible = 0;
      };
      last_best_improvement_iteration = 1;
      last_coverage_improvement_iteration = 1;
    };
    budget = record { limit_s = none; spent_s = nought; skipped_routes = 0 };
    world = 1;
  };
}

solved :
    solve anchored_config (backends (λ ids. none)) idle_search an_instance first_members 0
    ≡ ok expected
unfolding solve new_budget bad_budget deadline_of rounds round deadline_expired play generate
    record_local continue_from_record assemble target_met feed_back fixed_anchor_mode
    cooperative_mode observe_penalty adjust_lambda count_feasible solution_feasible counted_up
    settle assemble_routes admit_plans admit_plan from_plan sorted_customer_set admit find admit_new
    backup_dominates insert_below_capacity put_main note_coverage coverage_improved
    best_coverage_cost costs_of stored index_main_insert assign list_eq insert_cost
    record_improvement key_of erase reprice_when_due run_sp periodic_sp adaptive_sp play_round
    take_assembled ordinary_round record_run record_candidate update_best beats protect_record
    stops_after rounded_target_reached fmax lambda_reset incumbent_dominates plan_cost ◌-ℤ◌
    an_instance follow_anchor same_endpoint move_anchor count_carry record_reset drop_anchor
    uncovered if_feasible conclude_run main_columns sort_columns listing_less list_less
    solution_cost cost_from cover_columns insert_all contains select_fallback cheaper fabs reject
    adaptive_due ◌+ℤ◌
solved = refl

solve-IsAnswer_example :
    IsAnswer an_instance idle_search expected.best_solution
    × IsFallback an_instance idle_search expected.best_solution expected.initialization_fallback
    × Found an_instance idle_search expected.final_solution
    × (2 ≤ 2)
solve-IsAnswer_example =
    solve-IsAnswer anchored_config (backends (λ ids. none)) idle_search a_name [] some_nodes
      a_vehicle some_curves an_instance first_members 0 expected built solved

solve-runs_all_example :
    (expected.stop_reason ≡ max_iterations)
    × (expected.iterations ≡ anchored_config.parameters.max_iterations)
solve-runs_all_example =
    solve-runs_all anchored_config (backends (λ ids. none)) idle_search an_instance first_members 0
      expected refl refl solved
