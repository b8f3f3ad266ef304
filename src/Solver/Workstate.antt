-- ===== src/Solver/Workstate.antt =====
-- `same_complete_workstate` of src/solver.cpp. Evaluations are compared by their values: two pointers
-- to one immutable evaluation agree in every field.
use mathlib.Core.Path.{subst}
use ils_sp.Prelude.{
  ◌≡◌, refl, ◌↔◌, Bool, true, false, not, ◌&&◌, Option, none, some, List, [], ◌∷◌, nat_eq,
  nat_eq_iff, ◌==◌, List_eq, list_eq_iff, arith,
}
use ils_sp.Prelude.Int.{eqb_ℤ, eqb_ℤ_iff, ℤ_eq}
use ils_sp.Double.{Double}
use ils_sp.Core.{ChargingEvent, RouteEvaluation, Plan, Solution}

abbrev same_bool : Bool → Bool → Bool
same_bool true b = b
same_bool false b = not b

same_bool_iff : (a b : Bool) → (same_bool a b ≡ true) ↔ (a ≡ b)
same_bool_iff true b = ground arith
same_bool_iff false true = ground arith
same_bool_iff false false = ground arith

both_iff :
    {a b : Bool} {P Q : Type 0} → (a ≡ true) ↔ P → (b ≡ true) ↔ Q → ((a && b) ≡ true) ↔ (P × Q)
both_iff {a} {b} p q = (
  (λ h. (p.0 (ground (arith, h)), q.0 (ground (arith, h)))),
  λ h. ground (arith, p.1 h.0, q.1 h.1),
)

module _ {D : Type 0} ⦃d : Double D⦄ where
  -- `same_values`.
  unfoldable pub same_values : List D → List D → Bool
  same_values [] [] = true
  same_values [] (b ∷ right) = false
  same_values (a ∷ left) [] = false
  same_values (a ∷ left) (b ∷ right) = d.same_bits a b && same_values left right

  unfoldable pub same_event : ChargingEvent D → ChargingEvent D → Bool
  same_event p q =
      nat_eq p.visit_index q.visit_index
      && eqb_ℤ p.station_id q.station_id
      && d.same_bits p.arrival_energy_wh q.arrival_energy_wh
      && d.same_bits p.departure_energy_wh q.departure_energy_wh
      && d.same_bits p.duration_h q.duration_h

  unfoldable pub same_events : List (ChargingEvent D) → List (ChargingEvent D) → Bool
  same_events [] [] = true
  same_events [] (q ∷ right) = false
  same_events (p ∷ left) [] = false
  same_events (p ∷ left) (q ∷ right) = same_event p q && same_events left right

  unfoldable pub same_evaluation : RouteEvaluation D → RouteEvaluation D → Bool
  same_evaluation x y =
      (x.route.visits == y.route.visits)
      && (same_bool x.feasible y.feasible
          && (d.same_bits x.raw_cost_h y.raw_cost_h
              && (d.same_bits x.travel_time_h y.travel_time_h
                  && (d.same_bits x.charging_time_h y.charging_time_h
                      && (d.same_bits x.service_time_h y.service_time_h
                          && (d.same_bits x.route_duration_h y.route_duration_h
                              && (d.same_bits x.energy_shortfall_wh y.energy_shortfall_wh
                                  && (d.same_bits x.duration_excess_h y.duration_excess_h
                                      && (same_values x.arrival_energy_wh y.arrival_energy_wh
                                          && (same_values x.departure_energy_wh
                                                y.departure_energy_wh
                                              && same_events x.charging_events
                                                  y.charging_events))))))))))

  unfoldable pub same_certificate : Option (RouteEvaluation D) → Option (RouteEvaluation D) → Bool
  same_certificate none none = true
  same_certificate none (some y) = false
  same_certificate (some x) none = false
  same_certificate (some x) (some y) = same_evaluation x y

  unfoldable pub same_plan : Plan D → Plan D → Bool
  same_plan a b =
      (a.route.visits == b.route.visits)
      && (a.customer_ids == b.customer_ids)
      && (a.gaps == b.gaps)
      && same_bool a.exact_charging b.exact_charging
      && same_certificate a.evaluation b.evaluation

  unfoldable pub same_plans : List (Plan D) → List (Plan D) → Bool
  same_plans [] [] = true
  same_plans [] (b ∷ right) = false
  same_plans (a ∷ left) [] = false
  same_plans (a ∷ left) (b ∷ right) = same_plan a b && same_plans left right

  unfoldable pub same_complete_workstate : Solution D → Solution D → Bool
  same_complete_workstate left right = same_plans left.plans right.plans

  -- `std::bit_cast` tells every two doubles apart.
  module _ (bits : (a b : D) → (d.same_bits a b ≡ true) ↔ (a ≡ b)) where
    same_values_iff : (l r : List D) → (same_values l r ≡ true) ↔ (l ≡ r)
    unfolding same_values
    same_values_iff [] [] = ground arith
    same_values_iff [] (b ∷ r) = ground arith
    same_values_iff (a ∷ l) [] = ground arith
    same_values_iff (a ∷ l) (b ∷ r) = ground (arith, bits a b, same_values_iff l r)

    same_event_iff : (p q : ChargingEvent D) → (same_event p q ≡ true) ↔ (p ≡ q)
    unfolding same_event
    same_event_iff p q = ground (
      arith,
      nat_eq_iff p.visit_index q.visit_index,
      eqb_ℤ_iff p.station_id q.station_id,
      bits p.arrival_energy_wh q.arrival_energy_wh,
      bits p.departure_energy_wh q.departure_energy_wh,
      bits p.duration_h q.duration_h,
    )

    same_events_iff : (l r : List (ChargingEvent D)) → (same_events l r ≡ true) ↔ (l ≡ r)
    unfolding same_events
    same_events_iff [] [] = ground arith
    same_events_iff [] (b ∷ r) = ground arith
    same_events_iff (a ∷ l) [] = ground arith
    same_events_iff (a ∷ l) (b ∷ r) = ground (arith, same_event_iff a b, same_events_iff l r)

    -- The fields, one for one.
    same_evaluation-fields :
        (x y : RouteEvaluation D)
        → (same_evaluation x y ≡ true) ↔ (
            (x.route.visits ≡ y.route.visits)
            × ((x.feasible ≡ y.feasible)
                × ((x.raw_cost_h ≡ y.raw_cost_h)
                    × ((x.travel_time_h ≡ y.travel_time_h)
                        × ((x.charging_time_h ≡ y.charging_time_h)
                            × ((x.service_time_h ≡ y.service_time_h)
                                × ((x.route_duration_h ≡ y.route_duration_h)
                                    × ((x.energy_shortfall_wh ≡ y.energy_shortfall_wh)
                                        × ((x.duration_excess_h ≡ y.duration_excess_h)
                                            × ((x.arrival_energy_wh ≡ y.arrival_energy_wh)
                                                × ((x.departure_energy_wh ≡ y.departure_energy_wh)
                                                    × (x.charging_events
                                                        ≡ y.charging_events))))))))))))
    unfolding same_evaluation
    same_evaluation-fields x y = both_iff (list_eq_iff x.route.visits y.route.visits) (
        both_iff (same_bool_iff x.feasible y.feasible) (
          both_iff (bits x.raw_cost_h y.raw_cost_h) (
            both_iff (bits x.travel_time_h y.travel_time_h) (
              both_iff (bits x.charging_time_h y.charging_time_h) (
                both_iff (bits x.service_time_h y.service_time_h) (
                  both_iff (bits x.route_duration_h y.route_duration_h) (
                    both_iff (bits x.energy_shortfall_wh y.energy_shortfall_wh) (
                      both_iff (bits x.duration_excess_h y.duration_excess_h) (
                        both_iff (same_values_iff x.arrival_energy_wh y.arrival_energy_wh) (
                          both_iff (same_values_iff x.departure_energy_wh y.departure_energy_wh)
                            (same_events_iff x.charging_events y.charging_events)))))))))))

    same_evaluation_iff : (x y : RouteEvaluation D) → (same_evaluation x y ≡ true) ↔ (x ≡ y)
    same_evaluation_iff x y = (
      (λ h.
          let (a, (b, (c, (e, (f, (g, (i, (j, (k, (l, (m, n))))))))))) =
            (same_evaluation-fields x y).0 h in
          cc),
      λ e.
          subst (λ z. same_evaluation x z ≡ true) e
            ((same_evaluation-fields x x).1 (
              refl,
              (refl, (refl, (refl, (refl, (refl, (refl, (refl, (refl, (refl, (refl, refl)))))))))),
            )),
    )

    same_certificate_iff :
        (x y : Option (RouteEvaluation D)) → (same_certificate x y ≡ true) ↔ (x ≡ y)
    unfolding same_certificate
    same_certificate_iff none none = ground arith
    same_certificate_iff none (some y) = ground arith
    same_certificate_iff (some x) none = ground arith
    same_certificate_iff (some x) (some y) = ground (arith, same_evaluation_iff x y)

    same_plan_iff : (a b : Plan D) → (same_plan a b ≡ true) ↔ (a ≡ b)
    unfolding same_plan
    same_plan_iff a b = ground (
      arith,
      list_eq_iff a.route.visits b.route.visits,
      list_eq_iff a.customer_ids b.customer_ids,
      list_eq_iff a.gaps b.gaps,
      same_bool_iff a.exact_charging b.exact_charging,
      same_certificate_iff a.evaluation b.evaluation,
    )

    same_plans_iff : (l r : List (Plan D)) → (same_plans l r ≡ true) ↔ (l ≡ r)
    unfolding same_plans
    same_plans_iff [] [] = ground arith
    same_plans_iff [] (b ∷ r) = ground arith
    same_plans_iff (a ∷ l) [] = ground arith
    same_plans_iff (a ∷ l) (b ∷ r) = ground (arith, same_plan_iff a b, same_plans_iff l r)

    -- Where the bits tell every two doubles apart, the test of the complete work state accepts two
    -- solutions exactly when they are equal in every plan, evaluation and charging event.
    pub same_complete_workstate_iff :
        (left right : Solution D) → (same_complete_workstate left right ≡ true) ↔ (left ≡ right)
    unfolding same_complete_workstate
    same_complete_workstate_iff left right = ground (arith, same_plans_iff left.plans right.plans)
