-- ===== src/Evaluator.antt =====
-- The labels of visit sequences in include/ils_sp/evaluator.hpp and src/evaluator.cpp: how
-- `NonlinearSequenceEvaluator` builds, joins and evaluates them.
pub mod Joining
pub mod Stops
mod Tests
use ils_sp.Prelude.{
  Bool, true, false, not, Option, none, some, List, [], ◌∷◌, ◌++◌, if◌then◌else◌, Result, ok, throw,
  throw_if, invalid_argument, ◌>>=◌, ◌>>◌,
}
use ils_sp.Prelude.Int.{ℤ, ℤ_eq}
use ils_sp.Prelude.{◌==◌}
use ils_sp.Double.{Double, nought}
use ils_sp.Core.{Route}
use ils_sp.Core.Instance.{
  NodeKind, depot, customer, station, Node, Instance, node, travel_time_h, energy_wh,
}

-- `ChargingSequenceLeg`.
pub record Leg (D : Type 0) : Type 0 where
  pub station_id : ℤ
  pub energy_from_previous_station_wh : D
  pub physical_same_station_predecessor : Bool

-- `ChargingSequenceLabel`.
pub record Label (D : Type 0) : Type 0 where
  pub initialized : Bool
  pub origin_id : ℤ
  pub target_id : ℤ
  pub station_legs : List (Leg D)
  pub tail_energy_wh : D
  pub travel_time_h : D
  pub service_time_h : D

-- `ChargingSequenceView`.
pub record View (D : Type 0) : Type 0 where
  pub initialized : Bool
  pub origin_id : ℤ
  pub target_id : ℤ
  pub station_legs : List (Leg D)
  pub first_energy_wh : D
  pub tail_energy_wh : D
  pub travel_time_h : D
  pub service_time_h : D

-- The locals of `edge_label` on its way.
pub record Walk (D : Type 0) : Type 0 where
  pub label : Label D
  pub energy_since_station : D
  pub previous : ℤ

unfoldable pub is_station : NodeKind → Bool
is_station depot = false
is_station customer = false
is_station station = true

unfoldable pub gap : Option ℤ → ℤ → Bool
gap none origin = false
gap (some target) origin = not (target == origin)

module _ {D : Type 0} ⦃d : Double D⦄ where
  abbrev pub empty_label : ℤ → ℤ → Bool → Label D
  empty_label origin target initialized = record {
    initialized = initialized;
    origin_id = origin;
    target_id = target;
    station_legs = [];
    tail_energy_wh = nought;
    travel_time_h = nought;
    service_time_h = nought;
  }

  -- `traverse`, with the travel time and the energy of the edge.
  unfoldable pub pass_edge : D → D → ℤ → Bool → Walk D → Walk D
  pass_edge hours used node_id charging_opportunity w =
      let accumulated = d.add w.energy_since_station used in
      let travelled = record w.label { travel_time_h = d.add w.label.travel_time_h hours } in
      let leg : Leg D = record {
        station_id = node_id;
        energy_from_previous_station_wh = accumulated;
        physical_same_station_predecessor = w.previous == node_id;
      } in
      if charging_opportunity
      then record {
        label = record travelled { station_legs = travelled.station_legs ++ leg ∷ [] };
        energy_since_station = nought;
        previous = node_id;
      }
      else record { label = travelled; energy_since_station = accumulated; previous = node_id }

  unfoldable pub traverse : Instance D → ℤ → Bool → Walk D → Result (Walk D)
  traverse i node_id charging_opportunity w = do
    hours ← travel_time_h i w.previous node_id
    used ← energy_wh i w.previous node_id
    ok (pass_edge hours used node_id charging_opportunity w)

  unfoldable pub served_for : Node D → D → D
  served_for n service = elim n.kind [
    | depot ↦ service
    | customer ↦ n.service_time_h
    | station ↦ service
  ]

  unfoldable pub through_stations : Instance D → List ℤ → Walk D → Result (Walk D)
  through_stations i [] w = ok w
  through_stations i (station_id ∷ station_ids) w = do
    n ← node i station_id
    throw_if (not (is_station n.kind)) invalid_argument
    next ← traverse i station_id true w
    through_stations i station_ids next

  unfoldable pub finish_edge : Node D → Walk D → Label D
  finish_edge target w = record w.label {
    tail_energy_wh = w.energy_since_station;
    service_time_h = served_for target w.label.service_time_h;
  }

  unfoldable pub edge_label : Instance D → ℤ → List ℤ → ℤ → Result (Label D)
  edge_label i origin_id station_ids target_id = do
    origin ← node i origin_id
    target ← node i target_id
    let first : Walk D = record {
      label = empty_label origin_id target_id true;
      energy_since_station = nought;
      previous = origin_id;
    }
    reached ← through_stations i station_ids first
    last ← traverse i target_id (is_station target.kind) reached
    ok (finish_edge target last)

  -- `append` of a label that is initialized to another.
  unfoldable pub join_legs : Label D → List (Leg D) → Label D → Label D
  join_legs left [] right = record left {
    tail_energy_wh = d.add left.tail_energy_wh right.tail_energy_wh;
  }
  join_legs left (front ∷ legs) right = record left {
    station_legs =
        left.station_legs
        ++ record front {
          energy_from_previous_station_wh =
              d.add front.energy_from_previous_station_wh left.tail_energy_wh;
        }
          ∷ legs;
    tail_energy_wh = right.tail_energy_wh;
  }

  unfoldable pub join : Label D → Label D → Label D
  join left right =
      let moved : Label D = record left {
        target_id = right.target_id;
        travel_time_h = d.add left.travel_time_h right.travel_time_h;
        service_time_h = d.add left.service_time_h right.service_time_h;
      } in
      join_legs moved right.station_legs right

  unfoldable pub append : Label D → Label D → Result (Label D)
  append left right =
      if not right.initialized
      then ok left
      else if not left.initialized
      then ok right
      else if not (left.target_id == right.origin_id)
      then throw invalid_argument
      else ok (join left right)

  -- The loop of `route_label`, and the edge back to the depot.
  unfoldable pub append_visits : Instance D → ℤ → List ℤ → Label D → Result (Label D)
  append_visits i previous [] result = do
    edge ← edge_label i previous [] i.depot_id
    append result edge
  append_visits i previous (node_id ∷ visits) result = do
    edge ← edge_label i previous [] node_id
    longer ← append result edge
    append_visits i node_id visits longer

  unfoldable pub route_label : Instance D → Route → Result (Label D)
  route_label i route =
      append_visits i i.depot_id route.visits (empty_label i.depot_id i.depot_id false)

  -- The view of a label.
  unfoldable pub first_energy : List (Leg D) → D
  first_energy [] = nought
  first_energy (front ∷ legs) = front.energy_from_previous_station_wh

  unfoldable pub view_of : Label D → View D
  view_of label = record {
    initialized = label.initialized;
    origin_id = label.origin_id;
    target_id = label.target_id;
    station_legs = label.station_legs;
    first_energy_wh = first_energy label.station_legs;
    tail_energy_wh = label.tail_energy_wh;
    travel_time_h = label.travel_time_h;
    service_time_h = label.service_time_h;
  }

  -- The first loop of `evaluate` on components: the checks, and the sums of the times.
  unfoldable pub sum_times : Option ℤ → D → D → List (View D) → Result (D × D)
  sum_times previous travel service [] = ok (travel, service)
  sum_times previous travel service (component ∷ components) = do
    throw_if (not component.initialized) invalid_argument
    throw_if (gap previous component.origin_id) invalid_argument
    sum_times (some component.target_id) (d.add travel component.travel_time_h)
        (d.add service component.service_time_h) components

  -- The second loop: the legs, and the energy behind the last of them.
  unfoldable pub gather_legs : D → List (View D) → List (Leg D) × D
  gather_legs tail [] = ([], tail)
  gather_legs tail (component ∷ components) =
      let without = gather_legs (d.add tail component.tail_energy_wh) components in
      let behind = gather_legs component.tail_energy_wh components in
      elim component.station_legs [
        | [] ↦ without
        | front ∷ legs ↦ (
          record front { energy_from_previous_station_wh = d.add component.first_energy_wh tail }
                ∷ legs
              ++ behind.0,
          behind.1,
        )
      ]

  module _ {Cost : Type 0} (evaluate_data : D → D → List (Leg D) → D → Result Cost) where
    -- `evaluate` of a label.
    unfoldable pub evaluate : Label D → Result Cost
    evaluate route = do
      throw_if (not route.initialized) invalid_argument
      evaluate_data route.travel_time_h route.service_time_h route.station_legs route.tail_energy_wh

    -- `evaluate` of components, which joins none of them.
    unfoldable pub evaluate_components : List (View D) → Result Cost
    evaluate_components [] = throw invalid_argument
    evaluate_components (component ∷ components) = do
      times ← sum_times none nought nought (component ∷ components)
      let gathered = gather_legs nought (component ∷ components)
      evaluate_data times.0 times.1 gathered.0 gathered.1
