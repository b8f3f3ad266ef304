-- ===== src/Solver/Assembly/Tests.antt =====
-- A round of `assemble_routes` of src/solver.cpp on the small instance, with backends that select the
-- two columns of the pool and find a cheaper plan for one of them, and the theorems at that input.
use ils_sp.Pool.Methods.{insert_below_capacity, backup_dominates, admit_new, admit}
use ils_sp.Solver.Records.{rounded_target_reached}
use ils_sp.Core.Instance.{element_at, index_at, direct_index, node}
use ils_sp.Maps.{erase, find, assign, contains}
use ils_sp.Core.Partition.{see_customers, consistent_plan, see_plans, validate_partition, all_seen}
use ils_sp.Solver.Start.{insert_all, cover_columns, pool_covers_all_customers}
use ils_sp.Pool.Upkeep.{listing_less, sort_columns, main_columns, reprice_backup}
use ils_sp.Solver.Assembly.{
  admit_plan, count_sp_call, keep_selection, count_partition, target_met, assembled_of,
  note_coverage, reprice, admit_plans,
}
use ils_sp.Prelude.{
  ℕ, suc, ◌+◌, ◌≤◌, ◌<◌, ◌≡◌, ◌⊎◌, refl, true, false, Option, none, some, List, [], ◌∷◌, All, arith,
  get_elem?, length, ok, ◌==◌, List_eq, list_eq, if◌then◌else◌,
}
use ils_sp.Prelude.Int.{◌-ℤ◌, ◌+ℤ◌, ℤ, pos, ℤ_eq}
use ils_sp.Double.{nought}
use ils_sp.Double.Femto.{Femto, femto_double}
use ils_sp.Core.{
  sorted_customer_set, plan_cost, plan_feasible, expand_route, list_less, Plan, Solution,
}
use ils_sp.Core.Sets.{count}
use ils_sp.Core.Example.{hours, a_name, some_nodes, a_vehicle, some_curves, an_instance, built}
use ils_sp.Core.Partition.Cover.{IsConsistent, plan_customers}
use ils_sp.Pool.{
  key_of, record_improvement, insert_cost, index_main_insert, stored, costs_of, best_coverage_cost,
  coverage_improved, put_main, from_plan, no_statistics, counted_up, RoutePool, empty_pool,
  ordered_sequence,
}
use ils_sp.InputContract.{ClockType}
use ils_sp.Solver.{SolverConfig, paper, by_record}
use ils_sp.Solver.Penalty.{initial_penalty}
use ils_sp.Solver.Budget.{enabled, exhausted}
use ils_sp.Solver.Members.{read_clock, deadline_expired, Members, Services, Session, Partitioned}
use ils_sp.Solver.Schedule.{
  run_sp, stalled, iterations_until_periodic, size_sub, adaptive_due, adaptive_sp, periodic_sp,
  adaptive_sp_spacing,
}
use ils_sp.Solver.Assembly.Routes.{
  start_point, charge_since, count_optimized, accepts, take_plan, call_optimize, optimize_route,
  reached, finish_assembly, solve_partition, partition_pool, play_round, reprice_when_due,
  assemble_routes, optimize_routes,
}
use ils_sp.Solver.Assembly.Checked.{assemble_routes-IsPartition}
use ils_sp.Solver.Assembly.Replaced.{Successor, optimize_routes_effect}
use ils_sp.Solver.Tests.{served_plan, of_cost, column, some_parameters}

abbrev pub a_config : SolverConfig Femto
a_config = record {
  parameters = some_parameters;
  search_profile = paper;
  continuation_policy = by_record;
  implicit_replace_path = false;
  complete_insertion_paths = none;
  complete_initialization_paths = none;
  rebuild_initialization_paths = false;
  preserve_initialization_station_visits = false;
  preserve_station_visits = false;
  project_opening_station_visits = false;
  global_time_limit_s = none;
  frvcp_active_wall_budget_s = none;
  rounded_target_objective_h = none;
  sp_incumbent_stall_limit_s = none;
  sp_maximum_time_s = none;
  pool_identity = ordered_sequence;
  protect_best_partition = false;
  keep_evicted_in_backup = false;
  reprice_after_lp = false;
  adaptive_sp_stall_iterations = some 1;
  adaptive_sp_minimum_interval = 2;
  progress_interval = 100;
}

abbrev pub a_clock : ClockType Femto
a_clock = record {
  rep_max = 1000;
  ticks = λ s. s;
  above = λ t limit. false;
  truncated = λ t. pos 1;
  seconds = λ t. nought;
  point_after = λ t s. none;
}

abbrev found : Partitioned Femto
found = record {
  selected_columns = column (pos 3) 1 ∷ column (pos 7) 4 ∷ [];
  runtime_s = nought;
  lp_prepass_attempted = false;
  lp_prepass_exception = false;
  lp_certified_start = false;
  lp_prepass_wall_s = nought;
  fixed_zero_columns = 0;
  fixing_columns_considered = 0;
  reused_relaxation = some (record { optimal = false; duals = []; runtime_s = nought });
}

-- The fixed-route model serves customer 7 in two hours, and knows nothing of other routes.
abbrev cheaper_plan : List ℤ → Option (Plan Femto)
cheaper_plan customers = if customers == (pos 7 ∷ []) then some (served_plan (pos 7) 2) else none

abbrev pub backends : (List ℤ → Option (Plan Femto)) → Services Femto ℕ
backends answer = record {
  clock = a_clock;
  now = λ reads. (pos reads, suc reads);
  solve_integer = λ columns limit start w. ok (found, w);
  solve_relaxation =
      λ columns limit w. ok (record { optimal = false; duals = []; runtime_s = nought }, w);
  optimize = λ plan limit w. ok (record { plan = answer plan.customer_ids; runtime_s = nought }, w);
}

abbrev pub some_members : RoutePool Femto → ℕ → Members Femto
some_members pool generation = record {
  pool = pool;
  penalty = initial_penalty some_parameters;
  previous_sp_customer_sets = [];
  sp_calls = 0;
  sp_skipped_incomplete_pool = 0;
  adaptive_sp_calls = 0;
  last_sp_iteration = 0;
  pool_effective_generation_at_last_sp = generation;
  last_best_improvement_iteration = 0;
  last_coverage_improvement_iteration = 0;
  lp_calls = 0;
  sp_lp_prepass_calls = 0;
  sp_lp_certified_calls = 0;
  sp_lp_fallback_calls = 0;
  sp_lp_exception_calls = 0;
  sp_lp_prepass_wall_s = nought;
  sp_rc_fixing_calls = 0;
  sp_rc_fixed_columns = 0;
  sp_rc_considered_columns = 0;
  frvcp_calls = 0;
  sp_model_runtime_s = nought;
  lp_model_runtime_s = nought;
  frvcp_model_runtime_s = nought;
}

abbrev session : Session Femto ℕ
session = record {
  members = some_members (empty_pool 4 nought ordered_sequence false) 0;
  budget = record { limit_s = none; spent_s = nought; skipped_routes = 0 };
  world = 0;
}

-- A full pool that has improved once.
abbrev pub full_pool : RoutePool Femto
full_pool = record (empty_pool 1 nought ordered_sequence false) {
  main = (pos 7 ∷ [], column (pos 7) 4) ∷ [];
  effective_generation = 1;
}

adaptive_due_there : adaptive_sp a_config (some (of_cost 4)) 2 (some_members full_pool 0) ≡ true
unfolding adaptive_sp periodic_sp adaptive_due size_sub iterations_until_periodic stalled
adaptive_due_there = refl

adaptive_sp_spacing_example :
    (length full_pool.main ≡ full_pool.capacity)
    × (0 < full_pool.effective_generation)
    × (0 + 2 ≤ 2)
    × (periodic_sp a_config 2 ≡ false)
    × (periodic_sp a_config (2 + 1) ≡ false)
adaptive_sp_spacing_example =
    adaptive_sp_spacing a_config (some (of_cost 4)) 2 (some_members full_pool 0) 1 (omega arith)
      (omega arith) (omega arith) (omega arith) adaptive_due_there

-- Round 5 is periodic and the pool covers the customers. The third reading of the clock is past
-- the deadline.
abbrev pub covering_pool : RoutePool Femto
covering_pool = record (empty_pool 4 nought ordered_sequence false) {
  main = (pos 7 ∷ [], column (pos 7) 4) ∷ (pos 3 ∷ [], column (pos 3) 1) ∷ [];
}

abbrev before_round : Session Femto ℕ
before_round = record session { members = some_members covering_pool 0 }

abbrev after_round : Session Femto ℕ
after_round = record session {
  members = record (some_members covering_pool 0) {
    previous_sp_customer_sets = (pos 3 ∷ []) ∷ (pos 7 ∷ []) ∷ [];
    sp_calls = 1;
    last_sp_iteration = 5;
  };
  world = 3;
}

abbrev pub selected : Solution Femto
selected = record { plans = served_plan (pos 3) 1 ∷ served_plan (pos 7) 4 ∷ [] }

abbrev no_routes : Solution Femto
no_routes = record { plans = [] }

round_five :
    assemble_routes a_config
      (backends (λ ids. none))
      5
      (some (pos 2))
      an_instance
      no_routes
      none
      before_round
    ≡ ok (some selected, after_round)
unfolding assemble_routes admit_plans reprice_when_due reprice reprice_backup play_round run_sp
    periodic_sp partition_pool deadline_expired read_clock pool_covers_all_customers all_seen
    an_instance contains cover_columns main_columns sort_columns note_coverage listing_less list_eq
    list_less insert_all assign solve_partition assembled_of validate_partition see_plans
    consistent_plan expand_route see_customers node direct_index index_at find element_at
    finish_assembly target_met rounded_target_reached count_partition keep_selection count_sp_call
    counted_up adaptive_sp ◌+ℤ◌
round_five = refl

assemble_routes-IsPartition_example :
    (All IsConsistent selected.plans
      × ((a : ℤ) → count a (plan_customers selected.plans) ≡ count a an_instance.customer_ids))
    ⊎ ((selected ≡ no_routes) × (a_config.continuation_policy ≡ by_record))
assemble_routes-IsPartition_example =
    assemble_routes-IsPartition a_config (backends (λ ids. none)) a_name [] some_nodes a_vehicle
      some_curves an_instance 5 (some (pos 2)) no_routes none before_round after_round selected
      built round_five

-- The loop on one route, which the model improves.
abbrev improved_pool : RoutePool Femto
improved_pool = record (empty_pool 4 nought ordered_sequence false) {
  main = (pos 7 ∷ [], column (pos 7) 2) ∷ [];
  coverage_costs = (pos 7 ∷ [], hours 2 ∷ []) ∷ [];
  effective_generation = 1;
  statistics = record no_statistics {
    admission_attempts = 1;
    main_insertions = 1;
    effective_coverage_improvements = 1;
  };
}

abbrev after_loop : Session Femto ℕ
after_loop = record session {
  members = record (some_members improved_pool 0) {
    last_coverage_improvement_iteration = 5;
    frvcp_calls = 1;
  };
}

loop_improves :
    optimize_routes a_config
      (backends cheaper_plan)
      5
      none
      (column (pos 7) 4 ∷ [])
      0
      (served_plan (pos 7) 4 ∷ [])
      session
    ≡ ok (served_plan (pos 7) 2 ∷ [], after_loop)
unfolding optimize_routes deadline_expired reached rounded_target_reached exhausted optimize_route
    call_optimize take_plan list_eq plan_feasible accepts plan_cost ◌-ℤ◌ admit_plan from_plan
    sorted_customer_set admit find count_optimized charge_since enabled start_point admit_new
    backup_dominates insert_below_capacity put_main note_coverage coverage_improved
    best_coverage_cost costs_of stored index_main_insert assign insert_cost record_improvement
    counted_up ◌+ℤ◌ key_of erase
loop_improves = refl

optimize_routes_effect_example :
    (q : Plan Femto) × (get_elem? (served_plan (pos 7) 2 ∷ []) 0 ≡ some q)
    × Successor a_config (backends cheaper_plan) 5 none 0 0 (served_plan (pos 7) 4) q
optimize_routes_effect_example =
    optimize_routes_effect a_config (backends cheaper_plan) 5 none (column (pos 7) 4 ∷ []) 0
      (served_plan (pos 7) 4 ∷ []) (served_plan (pos 7) 2 ∷ []) session after_loop loop_improves 0
      (served_plan (pos 7) 4) refl
