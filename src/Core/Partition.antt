-- ===== src/Core/Partition.antt =====
-- `Solution::validate_partition` and `generalized_cost` of src/core.cpp.
pub mod Counts
pub mod Cover
use ils_sp.Prelude.{
  ℕ, suc, ◌+◌, Bool, true, false, not, ◌&&◌, ◌||◌, Option, none, some, List, [], ◌∷◌, length,
  nat_eq, ◌==◌, List_eq, list_eq, if◌then◌else◌, Result, ok, throw, invalid_argument, ◌>>=◌, ◌>>◌,
  throw_if,
}
use ils_sp.Prelude.Int.{ℤ, ℤ_eq}
use ils_sp.Double.{Double, nought}
use ils_sp.Maps.{contains}
use ils_sp.Core.{Plan, Solution, RouteEvaluation, expand_route}
use ils_sp.Core.Instance.{Instance, NodeKind, depot, customer, station, node}

-- `std::unordered_set<int>`.
abbrev pub IdSet : Type 0
IdSet = List (ℤ × Unit {0})

abbrev pub is_customer : NodeKind → Bool
is_customer depot = false
is_customer customer = true
is_customer station = false

-- The last loop.
unfoldable pub all_seen : IdSet → List ℤ → Bool
all_seen seen [] = true
all_seen seen (id ∷ ids) = contains id seen && all_seen seen ids

module _ {D : Type 0} ⦃d : Double D⦄ where
  -- The first test on a plan.
  unfoldable pub consistent_plan : Plan D → Result (Unit {0})
  consistent_plan plan = do
    throw_if
        (nat_eq (length plan.customer_ids) 0
          || not (nat_eq (length plan.gaps) (length plan.customer_ids + 1)))
        invalid_argument
    route ← expand_route plan.customer_ids plan.gaps
    throw_if (not (plan.route.visits == route.visits)) invalid_argument

  -- The loop over a plan's customers.
  unfoldable pub see_customers : Instance D → List ℤ → IdSet → Result IdSet
  see_customers instance_ [] seen = ok seen
  see_customers instance_ (id ∷ ids) seen = do
    n ← node instance_ id
    throw_if (not (is_customer n.kind) || contains id seen) invalid_argument
    see_customers instance_ ids ((id, tt) ∷ seen)

  -- The loop over the plans.
  unfoldable pub see_plans : Instance D → List (Plan D) → IdSet → Result IdSet
  see_plans instance_ [] seen = ok seen
  see_plans instance_ (plan ∷ plans) seen = do
    consistent_plan plan
    later ← see_customers instance_ plan.customer_ids seen
    see_plans instance_ plans later

  unfoldable pub validate_partition : Instance D → Solution D → Result (Unit {0})
  validate_partition instance_ solution = do
    seen ← see_plans instance_ solution.plans []
    throw_if (not (nat_eq (length seen) (length instance_.customer_ids))) invalid_argument
    throw_if (not (all_seen seen instance_.customer_ids)) invalid_argument

  -- `generalized_cost` of an evaluation, and of a solution whose plans have evaluations.
  unfoldable pub evaluation_cost : RouteEvaluation D → Instance D → D → Result D
  evaluation_cost evaluation instance_ penalty_lambda =
      let distance_violation_km =
        d.div evaluation.energy_shortfall_wh instance_.vehicle.consumption_wh_per_km in
      if not (d.is_finite penalty_lambda) || d.lt penalty_lambda nought
      then throw invalid_argument
      else ok (
          d.add evaluation.raw_cost_h
            (d.mul penalty_lambda (d.add distance_violation_km evaluation.duration_excess_h)))

  unfoldable pub generalized_from : D → List (RouteEvaluation D) → Instance D → D → Result D
  generalized_from result [] instance_ penalty_lambda = ok result
  generalized_from result (evaluation ∷ evaluations) instance_ penalty_lambda = do
    cost ← evaluation_cost evaluation instance_ penalty_lambda
    generalized_from (d.add result cost) evaluations instance_ penalty_lambda

  unfoldable pub generalized_cost : List (RouteEvaluation D) → Instance D → D → Result D
  generalized_cost evaluations instance_ penalty_lambda =
      generalized_from nought evaluations instance_ penalty_lambda
