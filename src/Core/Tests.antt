-- ===== src/Core/Tests.antt =====
-- Runs of src/core.cpp on the small instance, and the theorems at those inputs.
use ils_sp.Prelude.{
  Bool, true, false, list_eq, ◌≡◌, ◌↔◌, refl, [], ◌∷◌, All, get_elem?, Result, ok, throw,
  invalid_argument, out_of_range, ◌>>=◌, some, List_eq, ℕ_eq,
}
use ils_sp.Prelude.Int.{◌+ℤ◌, ◌-ℤ◌, ℤ, pos, negsuc, ℤ_eq}
use ils_sp.Double.Femto.{Femto, femto_double}
use ils_sp.Maps.{contains, find}
use ils_sp.Core.{expand_route}
use ils_sp.Double.{feq, clamp, fabs, nought}
use ils_sp.Core.Curve.{
  time_from, time_of, in_domain, time_at_energy, charge_duration, no_slower_from, sort_values,
  spread_values, no_slower, capacity_wh, Text, ChargingCurve, charging_curve_no_slower,
}
use ils_sp.Core.Sets.{count}
use ils_sp.Core.Example.{
  hours, fast, a_name, some_nodes, a_vehicle, some_curves, an_instance, built, node_at, two_routes,
  direct_plan,
}
use ils_sp.Core.Instance.{
  finish_instance, classify, valid_geometry, scan_node, scan_nodes, valid_vehicle, distance_table,
  mapped_distance, element_at, index_at, direct_index, customer, station, node, distance_km,
  distance_between, curve_for_station, new_instance,
}
use ils_sp.Core.Instance.Built.{IsBuilt, new_instance-IsBuilt}
use ils_sp.Core.Instance.Queries.{search_id, node_of_id, distance_of_ids, curve_of_station}
use ils_sp.Core.Partition.{all_seen, see_customers, consistent_plan, see_plans, validate_partition}
use ils_sp.Core.Partition.Cover.{IsConsistent, plan_customers, validate_partition_iff}

-- `node` finds a customer through the map, and throws on an id that no node has.
node_there : node an_instance (pos 7) ≡ ok (node_at 7 customer 3 [])
unfolding node direct_index an_instance index_at find element_at
node_there = refl

node_missing : node an_instance (negsuc 0) ≡ throw out_of_range
unfolding node direct_index index_at find an_instance
node_missing = refl

distance_there : distance_km an_instance (pos 7) (pos 3) ≡ ok (hours 6)
unfolding distance_km direct_index an_instance mapped_distance index_at find element_at
    distance_table distance_between ◌-ℤ◌
distance_there = refl

no_depot :
    new_instance a_name [] (node_at 9 customer 1 [] ∷ []) a_vehicle some_curves
    ≡ throw invalid_argument
unfolding new_instance valid_vehicle scan_nodes scan_node contains valid_geometry classify
    finish_instance
no_depot = refl

partition_there : validate_partition an_instance two_routes ≡ ok tt
unfolding validate_partition see_plans consistent_plan expand_route list_eq see_customers node
    direct_index an_instance index_at find element_at contains all_seen
partition_there = refl

customer_missing :
    validate_partition an_instance (record { plans = direct_plan (pos 7 ∷ []) ([] ∷ [] ∷ []) ∷ [] })
    ≡ throw invalid_argument
unfolding validate_partition see_plans consistent_plan expand_route list_eq see_customers node
    direct_index an_instance index_at find element_at contains
customer_missing = refl

new_instance-IsBuilt_example : IsBuilt an_instance
new_instance-IsBuilt_example =
    new_instance-IsBuilt a_name [] some_nodes a_vehicle some_curves an_instance built

node_of_id_example : node an_instance (pos 7) ≡ search_id (pos 7) an_instance.nodes
node_of_id_example = node_of_id a_name [] some_nodes a_vehicle some_curves an_instance built (pos 7)

distance_of_ids_example : distance_km an_instance (pos 7) (pos 3) ≡ (do
  left ← search_id (pos 7) an_instance.nodes
  right ← search_id (pos 3) an_instance.nodes
  ok (distance_between left right))
distance_of_ids_example =
    distance_of_ids a_name [] some_nodes a_vehicle some_curves an_instance built (pos 7) (pos 3)

third_node : get_elem? an_instance.nodes 2 ≡ some (node_at 2 station 5 fast)
unfolding an_instance
third_node = refl

curve_of_station_example :
    (c : ChargingCurve Femto) × (find fast an_instance.charging_curves ≡ some c)
    × (curve_for_station an_instance (pos 2) ≡ ok c)
curve_of_station_example =
    curve_of_station a_name [] some_nodes a_vehicle some_curves an_instance built 2
      (node_at 2 station 5 fast) third_node refl

validate_partition_iff_example : (validate_partition an_instance two_routes ≡ ok tt) ↔ (
    All IsConsistent two_routes.plans
    × ((a : ℤ) → count a (plan_customers two_routes.plans) ≡ count a an_instance.customer_ids))
validate_partition_iff_example =
    validate_partition_iff a_name [] some_nodes a_vehicle some_curves an_instance built two_routes

-- Two curves whose capacities are 100 Wh with 1e-6 Wh more and less. An instance with a battery of
-- 100 Wh takes both, and their comparison throws.
abbrev curve_up_to : Text → Femto → ChargingCurve Femto
curve_up_to type capacity = record {
  station_type = type;
  points =
      record { time_h = nought; energy_wh = nought }
      ∷ record { time_h = hours 2; energy_wh = capacity }
      ∷ [];
}

abbrev larger : ChargingCurve Femto
larger = curve_up_to fast (femto_double.add (hours 100) (femto_double.decimal 1 6))

abbrev smaller : ChargingCurve Femto
smaller = curve_up_to a_name (femto_double.sub (hours 100) (femto_double.decimal 1 6))

abbrev is_ok {ℓ} : {T : Type ℓ} → Result T → Bool
is_ok (ok v) = true
is_ok (throw x) = false

both_accepted :
    is_ok (
      new_instance a_name []
        (node_at 8 station 6 a_name ∷ some_nodes)
        a_vehicle
        ((fast, larger) ∷ (a_name, smaller) ∷ []))
    ≡ true
unfolding new_instance valid_vehicle scan_nodes scan_node contains valid_geometry classify find
    list_eq fabs capacity_wh ◌-ℤ◌ ◌+ℤ◌ finish_instance
both_accepted = refl

curves_apart : charging_curve_no_slower larger smaller ≡ throw out_of_range
unfolding charging_curve_no_slower no_slower spread_values sort_values ◌-ℤ◌ ◌+ℤ◌ fabs no_slower_from
    charge_duration time_at_energy in_domain capacity_wh time_of time_from clamp feq
curves_apart = refl
