-- ===== src/Core/Example.antt =====
-- A small instance of src/core.cpp on which the tests run: a depot, two customers and a station, whose
-- ids are not their positions.
use ils_sp.Maps.{find, contains}
use ils_sp.Prelude.{list_eq, ℕ, ◌≡◌, refl, List, [], ◌∷◌, false, none, ok}
use ils_sp.Prelude.Int.{◌-ℤ◌, ℤ, pos}
use ils_sp.Double.{fabs, nought}
use ils_sp.Double.Femto.{Femto, femto_double}
use ils_sp.Core.{insert_sorted, sort, Plan, Solution}
use ils_sp.Core.Curve.{capacity_wh, Text, ChargingCurve}
use ils_sp.Core.Instance.{
  is_index, finish_instance, classify, valid_geometry, scan_node, scan_nodes, valid_vehicle, Node,
  Vehicle, Instance, NodeKind, depot, customer, station, distance_table, new_instance,
}

abbrev pub hours : ℕ → Femto
hours h = femto_double.decimal h 0

abbrev pub fast : Text
fast = 102 ∷ []

abbrev pub fast_curve : ChargingCurve Femto
fast_curve = record {
  station_type = fast;
  points =
      record { time_h = nought; energy_wh = nought }
      ∷ record { time_h = hours 1; energy_wh = hours 80 }
      ∷ record { time_h = hours 2; energy_wh = hours 100 }
      ∷ [];
}

abbrev pub a_vehicle : Vehicle Femto
a_vehicle = record {
  speed_kmph = hours 50;
  consumption_wh_per_km = hours 1;
  battery_capacity_wh = hours 100;
  max_route_duration_h = hours 10;
}

abbrev pub node_at : ℕ → NodeKind → ℕ → Text → Node Femto
node_at id kind x type = record {
  id = pos id;
  kind = kind;
  x_km = hours x;
  y_km = nought;
  service_time_h = nought;
  station_type = type;
}

abbrev pub some_nodes : List (Node Femto)
some_nodes =
    node_at 0 depot 0 []
    ∷ node_at 7 customer 3 []
    ∷ node_at 2 station 5 fast
    ∷ node_at 3 customer 9 []
    ∷ []

abbrev pub some_curves : List (Text × ChargingCurve Femto)
some_curves = (fast, fast_curve) ∷ []

abbrev pub a_name : Text
a_name = 105 ∷ []

unfoldable pub an_instance : Instance Femto
an_instance = record {
  name = a_name;
  dataset = [];
  nodes = some_nodes;
  vehicle = a_vehicle;
  charging_curves = some_curves;
  index_by_id = (pos 3, 3) ∷ (pos 2, 2) ∷ (pos 7, 1) ∷ (pos 0, 0) ∷ [];
  nodes_indexed_by_id = false;
  distances_km = distance_table some_nodes;
  depot_id = pos 0;
  customer_ids = pos 3 ∷ pos 7 ∷ [];
  station_ids = pos 2 ∷ [];
}

pub built : new_instance a_name [] some_nodes a_vehicle some_curves ≡ ok an_instance
unfolding an_instance new_instance valid_vehicle scan_nodes scan_node contains valid_geometry
    classify find list_eq fabs capacity_wh ◌-ℤ◌ finish_instance is_index sort insert_sorted
built = refl

-- Plans that serve some customers without a charge.
abbrev pub direct_plan : List ℤ → List (List ℤ) → Plan Femto
direct_plan customers gaps = record {
  customer_ids = customers;
  gaps = gaps;
  route = record { visits = customers };
  evaluation = none;
  exact_charging = false;
}

abbrev pub two_routes : Solution Femto
two_routes = record {
  plans = direct_plan (pos 7 ∷ []) ([] ∷ [] ∷ []) ∷ direct_plan (pos 3 ∷ []) ([] ∷ [] ∷ []) ∷ [];
}
