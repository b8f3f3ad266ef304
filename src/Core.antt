-- ===== src/Core.antt =====
-- include/ils_sp/core.hpp and src/core.cpp: routes, plans and solutions, and the functions on
-- them. Node ids are `int`, here integers of any size: nothing computes with them but comparison.
pub mod Curve
pub mod Example
pub mod Instance
pub mod Partition
pub mod Sets
mod Tests
use ils_sp.Prelude.{
  ℕ, ◌+◌, Bool, true, false, not, ◌&&◌, Option, none, some, List, [], ◌∷◌, ◌++◌, map, length,
  replicate, if◌then◌else◌, nat_eq, Result, ok, throw, invalid_argument,
}
use ils_sp.Prelude.Int.{ℤ, ltb_ℤ, eqb_ℤ}
use ils_sp.Double.{Double, nought}

-- `Route`: the visits between the depot's two occurrences.
pub record Route : Type 0 where
  pub visits : List ℤ

-- `ChargingEvent`.
pub record ChargingEvent (D : Type 0) : Type 0 where
  pub visit_index : ℕ
  pub station_id : ℤ
  pub arrival_energy_wh : D
  pub departure_energy_wh : D
  pub duration_h : D

-- `RouteEvaluation`.
pub record RouteEvaluation (D : Type 0) : Type 0 where
  pub route : Route
  pub feasible : Bool
  pub raw_cost_h : D
  pub travel_time_h : D
  pub charging_time_h : D
  pub service_time_h : D
  pub route_duration_h : D
  pub energy_shortfall_wh : D
  pub duration_excess_h : D
  pub arrival_energy_wh : List D
  pub departure_energy_wh : List D
  pub charging_events : List (ChargingEvent D)

-- `Plan`. The shared pointer to an immutable evaluation is an option.
pub record Plan (D : Type 0) : Type 0 where
  pub customer_ids : List ℤ
  pub gaps : List (List ℤ)
  pub route : Route
  pub evaluation : Option (RouteEvaluation D)
  pub exact_charging : Bool

-- `Solution`.
pub record Solution (D : Type 0) : Type 0 where
  pub plans : List (Plan D)

-- `expand_route`: each gap's stations, with the customers between the gaps.
unfoldable pub expand_visits : List ℤ → List (List ℤ) → List ℤ
expand_visits customers [] = []
expand_visits [] (gap ∷ gaps) = gap
expand_visits (customer ∷ customers) (gap ∷ gaps) = gap ++ customer ∷ expand_visits customers gaps

unfoldable pub expand_route : List ℤ → List (List ℤ) → Result Route
unfolding expand_visits
expand_route customer_ids gaps =
    if not (nat_eq (length gaps) (length customer_ids + 1))
    then throw invalid_argument
    else ok (record { visits = expand_visits customer_ids gaps })

-- `direct_gaps`.
unfoldable pub direct_gaps : ℕ → List (List ℤ)
direct_gaps customers = replicate (customers + 1) []

-- `std::sort` on ids, whose result is determined, and `std::unique`.
unfoldable pub insert_sorted : ℤ → List ℤ → List ℤ
insert_sorted a [] = a ∷ []
insert_sorted a (b ∷ l) = if ltb_ℤ b a then b ∷ insert_sorted a l else a ∷ b ∷ l

unfoldable pub sort : List ℤ → List ℤ
sort [] = []
sort (a ∷ l) = insert_sorted a (sort l)

unfoldable pub unique : List ℤ → List ℤ
unique [] = []
unique (a ∷ []) = a ∷ []
unique (a ∷ b ∷ l) = let rest = unique (b ∷ l) in if eqb_ℤ a b then rest else a ∷ rest

-- `sorted_customer_set`.
unfoldable pub sorted_customer_set : List ℤ → List ℤ
unfolding sort insert_sorted unique
sorted_customer_set customer_ids = unique (sort customer_ids)

-- `operator<` of `std::vector<int>`.
unfoldable pub list_less : List ℤ → List ℤ → Bool
list_less [] [] = false
list_less [] (b ∷ ys) = true
list_less (a ∷ xs) [] = false
list_less (a ∷ xs) (b ∷ ys) =
    let rest = list_less xs ys in if ltb_ℤ a b then true else if ltb_ℤ b a then false else rest

module _ {D : Type 0} ⦃d : Double D⦄ where
  -- `plan.evaluation != nullptr && plan.evaluation->feasible`.
  unfoldable pub plan_feasible : Plan D → Bool
  plan_feasible plan = elim plan.evaluation [ none ↦ false | some e ↦ e.feasible ]

  -- `Solution::feasible`.
  unfoldable pub all_feasible : List (Plan D) → Bool
  unfolding plan_feasible
  all_feasible [] = true
  all_feasible (plan ∷ plans) = plan_feasible plan && all_feasible plans

  unfoldable pub solution_feasible : Solution D → Bool
  unfolding all_feasible
  solution_feasible s = all_feasible s.plans

  -- `plan.evaluation->raw_cost_h`; a null pointer is not read where the code has checked it.
  unfoldable pub plan_cost : Plan D → D
  plan_cost plan = elim plan.evaluation [ none ↦ nought | some e ↦ e.raw_cost_h ]

  -- `Solution::raw_cost_h`: the sum from the left.
  unfoldable pub cost_from : D → List (Plan D) → D
  unfolding plan_cost
  cost_from total [] = total
  cost_from total (plan ∷ plans) = cost_from (d.add total (plan_cost plan)) plans

  unfoldable pub solution_cost : Solution D → D
  unfolding cost_from
  solution_cost s = cost_from nought s.plans

  -- `Solution::customer_sequences`.
  unfoldable pub customer_sequences : Solution D → List (List ℤ)
  customer_sequences s = map (λ plan. plan.customer_ids) s.plans
