-- ===== src/Core/Instance.antt =====
-- `Node`, `Vehicle` and `Instance` of include/ils_sp/core.hpp and src/core.cpp.
pub mod Built
pub mod Queries
pub mod Scanned
use ils_sp.Prelude.{
  ℕ, suc, ◌+◌, Bool, true, false, not, ◌&&◌, ◌||◌, Option, none, some, List, [], ◌∷◌, ◌++◌, map,
  length, get_elem?, if◌then◌else◌, ltb, nat_eq, list_eq, List_eq, ℕ_eq, Result, ok, throw,
  invalid_argument, out_of_range, ◌>>=◌, ◌>>◌, throw_if,
}
use ils_sp.Prelude.Int.{ℤ, pos, negsuc, eqb_ℤ, ℤ_eq}
use ils_sp.Double.{Double, nought, fabs}
use ils_sp.Maps.{find, contains}
use ils_sp.Core.Curve.{Text, ChargingCurve, capacity_wh}
use ils_sp.Core.{sort}

pub data NodeKind : Type 0 where
  depot customer station : NodeKind

pub record Node (D : Type 0) : Type 0 where
  pub id : ℤ
  pub kind : NodeKind
  pub x_km : D
  pub y_km : D
  pub service_time_h : D
  pub station_type : Text

pub record Vehicle (D : Type 0) : Type 0 where
  pub speed_kmph : D
  pub consumption_wh_per_km : D
  pub battery_capacity_wh : D
  pub max_route_duration_h : D

pub record Instance (D : Type 0) : Type 0 where
  pub name : Text
  pub dataset : Text
  pub nodes : List (Node D)
  pub vehicle : Vehicle D
  pub charging_curves : List (Text × ChargingCurve D)
  pub index_by_id : List (ℤ × ℕ)
  pub nodes_indexed_by_id : Bool
  pub distances_km : List (List D)
  pub depot_id : ℤ
  pub customer_ids : List ℤ
  pub station_ids : List ℤ

-- The members that the constructor's loop over the nodes fills.
pub record Scan : Type 0 where
  pub index_by_id : List (ℤ × ℕ)
  pub indexed : Bool
  pub depot_count : ℕ
  pub depot_id : ℤ
  pub customers : List ℤ
  pub stations : List ℤ

-- `current.id >= 0 && static_cast<std::size_t>(current.id) == index`.
unfoldable pub is_index : ℤ → ℕ → Bool
is_index (pos n) index = nat_eq n index
is_index (negsuc n) index = false

abbrev pub no_scan : Scan
no_scan = record {
  index_by_id = [];
  indexed = true;
  depot_count = 0;
  depot_id = pos 0;
  customers = [];
  stations = [];
}

unfoldable pub element_at : {A : Type 0} → List A → ℕ → Result A
element_at l n = elim (get_elem? l n) [ none ↦ throw out_of_range | some a ↦ ok a ]

module _ {D : Type 0} ⦃d : Double D⦄ where
  unfoldable pub positive : D → Bool
  positive value = not (not (d.is_finite value) || d.le value nought)

  unfoldable pub valid_vehicle : Vehicle D → Bool
  unfolding positive
  valid_vehicle v =
      positive v.speed_kmph
      && positive v.consumption_wh_per_km
      && positive v.battery_capacity_wh
      && positive v.max_route_duration_h

  unfoldable pub valid_geometry : Node D → Bool
  valid_geometry n = not (
      not (d.is_finite n.x_km)
      || not (d.is_finite n.y_km)
      || not (d.is_finite n.service_time_h)
      || d.lt n.service_time_h nought)

  -- The `switch` on the node's kind.
  unfoldable pub classify :
      Vehicle D → List (Text × ChargingCurve D) → Node D → NodeKind → Scan → Result Scan
  classify vehicle curves n depot s =
      ok (record s { depot_count = s.depot_count + 1; depot_id = n.id })
  classify vehicle curves n customer s = ok (record s { customers = s.customers ++ n.id ∷ [] })
  classify vehicle curves n station s = elim (find n.station_type curves) [
    | none ↦ throw invalid_argument
    | some curve ↦
        if d.lt (d.decimal 1 6) (fabs (d.sub (capacity_wh curve) vehicle.battery_capacity_wh))
        then throw invalid_argument
        else ok (record s { stations = s.stations ++ n.id ∷ [] })
  ]

  -- The loop's body at one node; `emplace` leaves an entry that is there.
  unfoldable pub scan_node :
      Vehicle D → List (Text × ChargingCurve D) → ℕ → Node D → Scan → Result Scan
  scan_node vehicle curves index n s =
      if contains n.id s.index_by_id
      then throw invalid_argument
      else if not (valid_geometry n)
      then throw invalid_argument
      else classify vehicle curves n n.kind (record s {
        index_by_id = (n.id, index) ∷ s.index_by_id;
        indexed = s.indexed && is_index n.id index;
      })

  unfoldable pub scan_nodes :
      Vehicle D → List (Text × ChargingCurve D) → ℕ → List (Node D) → Scan → Result Scan
  scan_nodes vehicle curves index [] s = ok s
  scan_nodes vehicle curves index (n ∷ nodes) s = do
    t ← scan_node vehicle curves index n s
    scan_nodes vehicle curves (suc index) nodes t

  -- The distance table.
  unfoldable pub distance_between : Node D → Node D → D
  distance_between left right = d.hypot (d.sub left.x_km right.x_km) (d.sub left.y_km right.y_km)

  unfoldable pub distance_table : List (Node D) → List (List D)
  distance_table nodes = map (λ left. map (λ right. distance_between left right) nodes) nodes

  -- The constructor, once the nodes are scanned, and the whole.
  unfoldable pub finish_instance :
      Text
      → Text
      → List (Node D)
      → Vehicle D
      → List (Text × ChargingCurve D)
      → Scan
      → Result (Instance D)
  finish_instance name dataset nodes vehicle curves s =
      if not (nat_eq s.depot_count 1) || nat_eq (length s.customers) 0
      then throw invalid_argument
      else ok (record {
        name = name;
        dataset = dataset;
        nodes = nodes;
        vehicle = vehicle;
        charging_curves = curves;
        index_by_id = s.index_by_id;
        nodes_indexed_by_id = s.indexed;
        distances_km = distance_table nodes;
        depot_id = s.depot_id;
        customer_ids = sort s.customers;
        station_ids = sort s.stations;
      })

  unfoldable pub new_instance :
      Text → Text → List (Node D) → Vehicle D → List (Text × ChargingCurve D) → Result (Instance D)
  new_instance name dataset nodes vehicle curves = do
    throw_if (nat_eq (length name) 0 || nat_eq (length nodes) 0) invalid_argument
    throw_if (not (valid_vehicle vehicle)) invalid_argument
    s ← scan_nodes vehicle curves 0 nodes no_scan
    finish_instance name dataset nodes vehicle curves s

  -- The index of an id that is in range, or `none` where the code takes the map instead.
  unfoldable pub direct_index : Instance D → ℤ → Option ℕ
  direct_index i (negsuc n) = none
  direct_index i (pos n) = if i.nodes_indexed_by_id && ltb n (length i.nodes) then some n else none

  -- `index_by_id_.at(id)`, or the id itself.
  unfoldable pub index_at : Instance D → ℤ → Result ℕ
  index_at i id = elim (find id i.index_by_id) [ none ↦ throw out_of_range | some n ↦ ok n ]

  -- `node`.
  unfoldable pub node : Instance D → ℤ → Result (Node D)
  node i id = elim (direct_index i id) [
    | some n ↦ element_at i.nodes n
    | none ↦ do n ← index_at i id; element_at i.nodes n
  ]

  -- `curve_for_station`.
  unfoldable pub curve_of_kind : Instance D → Node D → NodeKind → Result (ChargingCurve D)
  curve_of_kind i n depot = throw invalid_argument
  curve_of_kind i n customer = throw invalid_argument
  curve_of_kind i n station = elim (find n.station_type i.charging_curves) [
    | none ↦ throw out_of_range
    | some c ↦ ok c
  ]

  unfoldable pub curve_for_station : Instance D → ℤ → Result (ChargingCurve D)
  curve_for_station i station_id = do n ← node i station_id; curve_of_kind i n n.kind

  -- `distance_km`: directly where both ids are in range, or through the map.
  unfoldable pub table_at : Instance D → ℕ → ℕ → Result D
  table_at i left right = do row ← element_at i.distances_km left; element_at row right

  unfoldable pub mapped_distance : Instance D → ℤ → ℤ → Result D
  mapped_distance i origin_id target_id = do
    left ← index_at i origin_id
    row ← element_at i.distances_km left
    right ← index_at i target_id
    element_at row right

  unfoldable pub distance_km : Instance D → ℤ → ℤ → Result D
  distance_km i origin_id target_id = elim (direct_index i origin_id) [
    | none ↦ mapped_distance i origin_id target_id
    | some left ↦ elim (direct_index i target_id) [
      | none ↦ mapped_distance i origin_id target_id
      | some right ↦ table_at i left right
    ]
  ]

  unfoldable pub travel_time_h : Instance D → ℤ → ℤ → Result D
  travel_time_h i origin_id target_id = do
    distance ← distance_km i origin_id target_id
    ok (d.div distance i.vehicle.speed_kmph)

  unfoldable pub energy_wh : Instance D → ℤ → ℤ → Result D
  energy_wh i origin_id target_id = do
    distance ← distance_km i origin_id target_id
    ok (d.mul distance i.vehicle.consumption_wh_per_km)
