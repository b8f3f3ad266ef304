-- ===== src/Evaluator/Tests.antt =====
-- The labels of src/evaluator.cpp on two sequences that meet at a customer.
use ils_sp.Maps.{find}
use ils_sp.Core.Instance.{
  distance_between, energy_wh, distance_table, mapped_distance, distance_km, travel_time_h,
  element_at, index_at, direct_index, node,
}
use ils_sp.Prelude.{some, ◌≡◌, refl, true, false, List, [], ◌∷◌, ◌++◌, ok, map, ◌>>=◌, Result}
use ils_sp.Prelude.Int.{◌-ℤ◌, ◌+ℤ◌, pos}
use ils_sp.Double.{nought}
use ils_sp.Double.Femto.{Femto, femto_double}
use ils_sp.Core.{Route}
use ils_sp.Core.Example.{hours, an_instance}
use ils_sp.Evaluator.{
  served_for, join_legs, join, is_station, pass_edge, finish_edge, append, traverse,
  through_stations, edge_label, append_visits, route_label, first_energy, gather_legs, gap,
  sum_times, Leg, Label, view_of, evaluate, evaluate_components,
}
use ils_sp.Evaluator.Stops.{stop_ids, stops, stop_of, route_label-stops}
use ils_sp.Evaluator.Joining.{append_all, evaluate_components-append_all}

abbrev to_customer : Label Femto
to_customer = record {
  initialized = true;
  origin_id = pos 0;
  target_id = pos 7;
  station_legs =
      record {
        station_id = pos 9;
        energy_from_previous_station_wh = hours 3;
        physical_same_station_predecessor = false;
      }
      ∷ [];
  tail_energy_wh = hours 2;
  travel_time_h = hours 5;
  service_time_h = hours 1;
}

abbrev to_depot : Label Femto
to_depot = record to_customer { origin_id = pos 7; target_id = pos 0; tail_energy_wh = hours 4 }

abbrev Facts : Type 0
Facts = Femto × Femto × List (Leg Femto) × Femto

abbrev facts : Femto → Femto → List (Leg Femto) → Femto → Result Facts
facts travel service legs tail = ok (travel, service, legs, tail)

evaluate_components-append_all_example :
    evaluate_components facts (map view_of (to_customer ∷ to_depot ∷ []))
    ≡ (append_all to_customer (to_depot ∷ []) >>= evaluate facts)
unfolding ◌+ℤ◌ first_energy
evaluate_components-append_all_example =
    evaluate_components-append_all facts to_customer (to_depot ∷ []) (refl, (refl, tt)) (refl, refl)
      (refl, refl) (refl, refl) (refl, refl)

joined_facts :
    evaluate_components facts (map view_of (to_customer ∷ to_depot ∷ []))
    ≡ ok (
      hours 10,
      hours 2,
      record {
        station_id = pos 9;
        energy_from_previous_station_wh = hours 3;
        physical_same_station_predecessor = false;
      }
          ∷ record {
            station_id = pos 9;
            energy_from_previous_station_wh = hours 5;
            physical_same_station_predecessor = false;
          }
          ∷ [],
      hours 4,
    )
unfolding evaluate_components sum_times view_of gap ◌+ℤ◌ gather_legs first_energy
joined_facts = refl

abbrev a_route : Route
a_route = record { visits = pos 7 ∷ pos 2 ∷ pos 2 ∷ pos 3 ∷ [] }

abbrev a_label : Label Femto
a_label = record {
  initialized = true;
  origin_id = pos 0;
  target_id = pos 0;
  station_legs =
      record {
        station_id = pos 2;
        energy_from_previous_station_wh = hours 5;
        physical_same_station_predecessor = false;
      }
      ∷ record {
        station_id = pos 2;
        energy_from_previous_station_wh = nought;
        physical_same_station_predecessor = true;
      }
      ∷ [];
  tail_energy_wh = hours 13;
  travel_time_h = some (pos 360000000000000);
  service_time_h = nought;
}

labelled : route_label an_instance a_route ≡ ok a_label
unfolding route_label append_visits edge_label node direct_index an_instance index_at find
    element_at through_stations traverse travel_time_h distance_km mapped_distance distance_table
    energy_wh append finish_edge pass_edge is_station join join_legs distance_between served_for
    ◌+ℤ◌ ◌-ℤ◌
labelled = refl

route_label-stops_example :
    (a_label.origin_id ≡ an_instance.depot_id)
    × (a_label.target_id ≡ an_instance.depot_id)
    × (stop_ids a_label
        ≡ stops an_instance a_route.visits ++ stop_of an_instance an_instance.depot_id)
route_label-stops_example = route_label-stops an_instance a_route a_label labelled
