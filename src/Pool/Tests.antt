-- ===== src/Pool/Tests.antt =====
-- Runs of `RoutePool` (src/pool.cpp) at capacity two, and the theorems at those inputs.
use ils_sp.Prelude.{
  ◌<◌, ◌↔◌, In, List_eq, false, ℕ, ◌≤◌, ◌≡◌, refl, true, some, List, [], ◌∷◌, All, Result, ok,
  length, list_eq, arith,
}
use ils_sp.Prelude.Int.{ℤ_eq, ℤ, pos}
use ils_sp.Double.{feq, nought, cost_tolerance}
use ils_sp.Double.Femto.{Femto, femto_double, Femto-IsOrdered}
use ils_sp.Core.{
  Plan, RouteEvaluation, Solution, plan_feasible, all_feasible, solution_feasible, plan_cost,
  sorted_customer_set, sort, insert_sorted, unique,
}
use ils_sp.Pool.{
  Key, RouteColumn, RoutePool, PoolUpdate, PoolRepriceUpdate, customer_coverage, rejected,
  empty_pool, key_of, put_main, stored, index_main_insert, insert_cost, worst_main, first_evictable,
  demote_main, index_main_erase, worst_from, column_rank_less, reduced_cost, subtract_duals,
  erase_cost, costs_of, best_coverage_cost, coverage_improved, record_improvement, new_pool,
  from_plan,
}
use ils_sp.Pool.Methods.{
  admit, admit_new, backup_dominates, insert_below_capacity, insert_and_demote,
}
use ils_sp.Maps.{find, contains, assign, erase}
use ils_sp.Pool.Upkeep.{
  reprice_backup, update_duals, protect_partition, collect_protected, protected_key,
}
use ils_sp.Pool.Invariant.{IsValid}
use ils_sp.Pool.Admission.{admit_total, KeepsValid}
use ils_sp.Core.Sets.{count, sorted_customer_set-eq_iff}
use ils_sp.Pool.Columns.{IsUsable, column_of, from_plan_iff}
use ils_sp.Pool.Ranking.{Rankable}
use ils_sp.Pool.Eviction.{worst_main-worst}
use ils_sp.Pool.Repricing.{reprice_backup_total}
use ils_sp.Pool.Protection.{Storable, protect_partition_total}
use ils_sp.Pool.History.{admits, prices, Reachable, created, stepped, Reachable-IsValid}

abbrev hours : ℕ → Femto
hours h = femto_double.decimal h 0

abbrev evaluation : List ℤ → Femto → RouteEvaluation Femto
evaluation visits cost = record {
  route = record { visits = visits };
  feasible = true;
  raw_cost_h = cost;
  travel_time_h = cost;
  charging_time_h = nought;
  service_time_h = nought;
  route_duration_h = cost;
  energy_shortfall_wh = nought;
  duration_excess_h = nought;
  arrival_energy_wh = [];
  departure_energy_wh = [];
  charging_events = [];
}

abbrev plan : List ℤ → Femto → Plan Femto
plan customers cost = record {
  customer_ids = customers;
  gaps = [];
  route = record { visits = customers };
  evaluation = some (evaluation customers cost);
  exact_charging = true;
}

abbrev column : List ℤ → Femto → RouteColumn Femto
column customers cost = record {
  plan = plan customers cost;
  customer_set = customers;
  cost_h = cost;
  signature = customers;
}

abbrev empty : RoutePool Femto
empty = empty_pool 2 cost_tolerance customer_coverage true

empty-Reachable : Reachable empty
unfolding new_pool
empty-Reachable = created 2 cost_tolerance customer_coverage true refl

-- Two admissions fill the pool, and a third one demotes a column.
abbrev first : RouteColumn Femto
first = column (pos 1 ∷ pos 2 ∷ []) (hours 5)

abbrev second : RouteColumn Femto
second = column (pos 3 ∷ []) (hours 3)

abbrev third : RouteColumn Femto
third = column (pos 4 ∷ []) (hours 2)

abbrev pool_of : Result (PoolUpdate × RoutePool Femto) → RoutePool Femto
pool_of (ok r) = r.1
pool_of _ = empty

abbrev update_of : Result (PoolUpdate × RoutePool Femto) → PoolUpdate
update_of (ok r) = r.0
update_of _ = rejected

abbrev with_one : RoutePool Femto
with_one = pool_of (admit first empty)

abbrev with_two : RoutePool Femto
with_two = pool_of (admit second with_one)

with_one_run : admit first empty ≡ ok (update_of (admit first empty), with_one)
unfolding admit admit_new backup_dominates insert_below_capacity put_main stored key_of find
    contains assign erase index_main_insert insert_cost costs_of best_coverage_cost
    coverage_improved record_improvement list_eq
with_one_run = refl

with_two_run : admit second with_one ≡ ok (update_of (admit second with_one), with_two)
unfolding admit admit_new backup_dominates insert_below_capacity put_main stored key_of find
    contains assign erase index_main_insert insert_cost costs_of best_coverage_cost
    coverage_improved record_improvement list_eq
with_two_run = refl

with_two-Reachable : Reachable with_two
with_two-Reachable =
    stepped
      (stepped empty-Reachable (admits first (update_of (admit first empty)) refl with_one_run))
      (admits second (update_of (admit second with_one)) refl with_two_run)

Reachable-IsValid_example : IsValid Femto-IsOrdered with_two
Reachable-IsValid_example = Reachable-IsValid Femto-IsOrdered with_two-Reachable

with_two-IsValid : IsValid Femto-IsOrdered with_two
with_two-IsValid = Reachable-IsValid Femto-IsOrdered with_two-Reachable

admit_total_example : KeepsValid Femto-IsOrdered (admit third with_two)
admit_total_example = admit_total Femto-IsOrdered third with_two refl with_two-IsValid

-- The third admission moves the dearest column to the backup, and with the dual values it comes
-- back into the main pool.
abbrev with_three : RoutePool Femto
with_three = pool_of (admit third with_two)

with_three_run : admit third with_two ≡ ok (update_of (admit third with_two), with_three)
unfolding admit admit_new insert_and_demote backup_dominates insert_below_capacity put_main stored
    key_of find contains assign erase index_main_insert insert_cost costs_of best_coverage_cost
    coverage_improved record_improvement list_eq worst_main first_evictable demote_main
    index_main_erase worst_from column_rank_less feq reduced_cost erase_cost
with_three_run = refl

abbrev priced : RoutePool Femto
priced = update_duals ((pos 1, hours 6) ∷ (pos 3, hours 1) ∷ []) with_three

priced-IsValid : IsValid Femto-IsOrdered priced
priced-IsValid = Reachable-IsValid Femto-IsOrdered (
    stepped
      (stepped with_two-Reachable
        (admits third (update_of (admit third with_two)) refl with_three_run))
      (prices ((pos 1, hours 6) ∷ (pos 3, hours 1) ∷ [])))

reprice_backup_total_example :
    (r : PoolRepriceUpdate × RoutePool Femto) × (reprice_backup priced ≡ ok r)
    × (r.0.promoted ≤ r.0.candidates)
    × IsValid Femto-IsOrdered r.1
reprice_backup_total_example = reprice_backup_total Femto-IsOrdered priced priced-IsValid

abbrev incumbent : Solution Femto
incumbent = record { plans = first.plan ∷ third.plan ∷ [] }

abbrev keys : List (Key × Unit {0})
keys = (third.customer_set, tt) ∷ (first.customer_set, tt) ∷ []

incumbent-feasible : solution_feasible incumbent ≡ true
unfolding solution_feasible all_feasible plan_feasible
incumbent-feasible = refl

incumbent-distinct : collect_protected customer_coverage incumbent.plans [] ≡ ok keys
unfolding collect_protected protected_key sorted_customer_set sort insert_sorted unique contains
    list_eq
incumbent-distinct = refl

with_two_settings :
    (length incumbent.plans ≤ with_two.capacity) × (with_two.identity ≡ customer_coverage)
unfolding admit admit_new backup_dominates insert_below_capacity put_main stored key_of find
    contains assign erase index_main_insert insert_cost costs_of best_coverage_cost
    coverage_improved record_improvement list_eq
with_two_settings = (omega arith, refl)

incumbent-Storable : All Storable incumbent.plans
unfolding from_plan plan_cost plan_feasible sorted_customer_set sort insert_sorted unique
incumbent-Storable = ((first, refl, refl), ((third, refl, refl), tt))

protect_partition_total_example :
    (q : RoutePool Femto) × (protect_partition incumbent with_two ≡ ok q)
    × IsValid Femto-IsOrdered q
    × (q.protected_sequences ≡ keys)
protect_partition_total_example =
    protect_partition_total Femto-IsOrdered incumbent with_two keys incumbent-feasible
      with_two_settings.0 (rw with_two_settings.1 incumbent-distinct) incumbent-Storable
      with_two-IsValid

with_two_costs :
    (length with_two.protected_sequences < length with_two.main)
    × All (λ e. Rankable with_two.duals e.1) with_two.main
unfolding admit admit_new backup_dominates insert_below_capacity put_main stored key_of find
    contains assign erase index_main_insert insert_cost costs_of best_coverage_cost
    coverage_improved record_improvement list_eq reduced_cost subtract_duals
with_two_costs = (omega arith, ((refl, refl), ((refl, refl), tt)))

worst_main-worst_example :
    (w : Key × RouteColumn Femto) × (worst_main with_two ≡ ok w)
    × (contains w.0 with_two.protected_sequences ≡ false)
    × (find w.0 with_two.main ≡ some w.1)
    × ((x : Key × RouteColumn Femto)
        → In x with_two.main
        → contains x.0 with_two.protected_sequences ≡ false
        → column_rank_less w.1 x.1 with_two.duals ≡ false)
worst_main-worst_example =
    worst_main-worst Femto-IsOrdered with_two with_two-IsValid.consistent.distinct_main
      with_two-IsValid.consistent.distinct_protected with_two_costs.0 with_two_costs.1

from_plan_iff_example :
    (from_plan first.plan ≡ ok first) ↔ (IsUsable first.plan × (first ≡ column_of first.plan))
from_plan_iff_example = from_plan_iff first.plan first

sorted_customer_set-eq_iff_example :
    (sorted_customer_set (pos 2 ∷ pos 1 ∷ []) ≡ sorted_customer_set (pos 1 ∷ pos 2 ∷ []))
    ↔ ((a : ℤ) → (count a (pos 2 ∷ pos 1 ∷ []) ≡ 0) ↔ (count a (pos 1 ∷ pos 2 ∷ []) ≡ 0))
sorted_customer_set-eq_iff_example =
    sorted_customer_set-eq_iff (pos 2 ∷ pos 1 ∷ []) (pos 1 ∷ pos 2 ∷ [])
