-- ===== src/Core/Instance/Queries.antt =====
-- `node`, `distance_km` and `curve_for_station` of src/core.cpp on an instance that the constructor
-- has returned.
use ils_sp.Prelude.{
  ℕ, zero, suc, ◌<◌, ◌≡◌, refl, sym, ap, ◌∙◌, true, false, ◌&&◌, Bool-cases, Option-cases, ◌⊎◌, inl,
  inr, none, some, List, [], ◌∷◌, ltb, map, length, get_elem?, get_elem?-total, get_elem?-map,
  if◌then◌else◌, arith, Result, ok, throw, out_of_range, ◌>>=◌, List_eq, ℕ_eq,
}
use ils_sp.Prelude.Int.{ℤ, pos, negsuc, eqb_ℤ, eqb_ℤ_iff, ℤ_eq}
use ils_sp.Double.{Double}
use ils_sp.Maps.{find}
use ils_sp.Core.Curve.{Text, ChargingCurve}
use ils_sp.Core.Instance.{
  station, Node, Vehicle, Instance, element_at, distance_between, distance_table, direct_index,
  index_at, node, table_at, mapped_distance, distance_km, curve_of_kind, curve_for_station,
  new_instance,
}
use ils_sp.Core.Instance.Built.{IsBuilt, new_instance-IsBuilt}

module _ {D : Type 0} ⦃d : Double D⦄ where
  -- The first node that has an id, by a walk through the nodes.
  unfoldable pub search_id : ℤ → List (Node D) → Result (Node D)
  search_id id [] = throw out_of_range
  search_id id (n ∷ nodes) = let rest = search_id id nodes in if eqb_ℤ n.id id then ok n else rest

  pub search_id-cases :
      (id : ℤ) (nodes : List (Node D))
      → (search_id id nodes ≡ throw out_of_range)
        ⊎ ((k : ℕ) × (n : Node D) × (get_elem? nodes k ≡ some n)
            × (n.id ≡ id)
            × (search_id id nodes ≡ ok n))
  unfolding search_id
  search_id-cases id [] = inl refl
  search_id-cases id (n ∷ nodes) = elim (Bool-cases (eqb_ℤ n.id id)) [
    | inl e ↦ inr (0, n, refl, (eqb_ℤ_iff n.id id).0 e, rw e refl)
    | inr e ↦ elim (search_id-cases id nodes) [
      | inl missing ↦ inl (rw e missing)
      | inr (k, m, at_k, same, found) ↦ inr (suc k, m, at_k, same, rw e found)
    ]
  ]

  search_id-absent :
      (id : ℤ) (nodes : List (Node D))
      → search_id id nodes ≡ throw out_of_range
      → (k : ℕ) (n : Node D) → get_elem? nodes k ≡ some n
      → eqb_ℤ n.id id ≡ false
  unfolding search_id
  search_id-absent id [] e k n at_k = absurd cc
  search_id-absent id (m ∷ nodes) e zero n at_k =
      let here : m ≡ n = cc in
      elim (Bool-cases (eqb_ℤ m.id id)) [
        | inl same ↦ absurd (cc (rw same at e))
        | inr other ↦ rw (← here) other
      ]
  search_id-absent id (m ∷ nodes) e (suc k) n at_k = elim (Bool-cases (eqb_ℤ m.id id)) [
    | inl same ↦ absurd (cc (rw same at e))
    | inr other ↦ search_id-absent id nodes (rw other at e) k n at_k
  ]

module _ {D : Type 0} ⦃d : Double D⦄ (i : Instance D) (v : IsBuilt i) where
  -- Where an id is found: nowhere, or at one place that the index and the walk agree on.
  record Missing (id : ℤ) : Type 0 where
    searched : search_id id i.nodes ≡ throw out_of_range
    direct : direct_index i id ≡ none
    mapped : find id i.index_by_id ≡ none

  record Placed (id : ℤ) : Type 0 where
    place : ℕ
    at_id : Node D
    listed : get_elem? i.nodes place ≡ some at_id
    searched : search_id id i.nodes ≡ ok at_id
    direct : (direct_index i id ≡ none) ⊎ (direct_index i id ≡ some place)
    mapped : find id i.index_by_id ≡ some place

  direct-cases :
      (id : ℤ)
      → (direct_index i id ≡ none)
        ⊎ ((k : ℕ) × (direct_index i id ≡ some k)
            × (id ≡ pos k)
            × (i.nodes_indexed_by_id ≡ true)
            × (k < length i.nodes))
  unfolding direct_index
  direct-cases (negsuc n) = inl refl
  direct-cases (pos n) = elim (Bool-cases (i.nodes_indexed_by_id && ltb n (length i.nodes))) [
    | inr e ↦ inl (rw e refl)
    | inl e ↦ inr (n, rw e refl, refl, ground (arith, e), ground (arith, e))
  ]

  placed :
      (id : ℤ) (k : ℕ) (n : Node D)
      → get_elem? i.nodes k ≡ some n
      → n.id ≡ id
      → search_id id i.nodes ≡ ok n
      → Placed id
  placed id k n at_k same searched = record {
    place = k;
    at_id = n;
    listed = at_k;
    searched = searched;
    direct = elim (direct-cases id) [
      | inl absent ↦ inl absent
      | inr (j, direct, id_j, on, inside) ↦
          let (m, at_j) = get_elem?-total i.nodes j inside in
          let m_id : m.id ≡ id = v.in_place on j m at_j ∙ sym id_j in
          let first : find id i.index_by_id ≡ some j = rw m_id at (v.found j m at_j) in
          let second : find id i.index_by_id ≡ some k = rw same at (v.found k n at_k) in
          let one : j ≡ k = cc in inr (rw one at direct)
    ];
    mapped = rw same at (v.found k n at_k);
  }

  missing : (id : ℤ) → search_id id i.nodes ≡ throw out_of_range → Missing id
  missing id searched = record {
    searched = searched;
    direct = elim (direct-cases id) [
      | inl absent ↦ absent
      | inr (j, direct, id_j, on, inside) ↦
          let (m, at_j) = get_elem?-total i.nodes j inside in
          absurd (
            ground (
              arith,
              v.in_place on j m at_j,
              search_id-absent id i.nodes searched j m at_j,
              eqb_ℤ_iff m.id id,
            ))
    ];
    mapped = elim (Option-cases (find id i.index_by_id)) [
      | inl absent ↦ absent
      | inr (k, e) ↦
          let (n, at_k, same) = v.mapped id k e in
          absurd (ground (arith, search_id-absent id i.nodes searched k n at_k, eqb_ℤ_iff n.id id))
    ];
  }

  place-cases : (id : ℤ) → Missing id ⊎ Placed id
  place-cases id = elim (search_id-cases id i.nodes) [
    | inl absent ↦ inl (missing id absent)
    | inr (k, n, at_k, same, searched) ↦ inr (placed id k n at_k same searched)
  ]

  pub node-search : (id : ℤ) → node i id ≡ search_id id i.nodes
  unfolding node index_at element_at
  node-search id = elim (place-cases id) [
    | inl m ↦ rw (node, m.direct, index_at, m.mapped, m.searched) refl
    | inr p ↦ elim p.direct [
      | inl none_direct ↦
          rw (node, none_direct, index_at, p.mapped, element_at, p.listed, p.searched) refl
      | inr direct ↦ rw (node, direct, element_at, p.listed, p.searched) refl
    ]
  ]

  -- The table's entry at two places.
  table_at-places :
      (j k : ℕ) (m n : Node D)
      → get_elem? i.nodes j ≡ some m
      → get_elem? i.nodes k ≡ some n
      → table_at i j k ≡ ok (distance_between m n)
  unfolding table_at element_at distance_table
  table_at-places j k m n at_j at_k =
      let row =
        get_elem?-map (λ left. map (λ right. distance_between left right) i.nodes) i.nodes j m
          at_j in
      let cell = get_elem?-map (λ right. distance_between m right) i.nodes k n at_k in
      rw (table_at, v.tabled, element_at, row, cell) refl

  row_at-place :
      (j : ℕ) (m : Node D)
      → get_elem? i.nodes j ≡ some m
      → element_at i.distances_km j ≡ ok (map (λ right. distance_between m right) i.nodes)
  unfolding element_at distance_table
  row_at-place j m at_j =
      let row =
        get_elem?-map (λ left. map (λ right. distance_between left right) i.nodes) i.nodes j m
          at_j in
      rw (v.tabled, element_at, row) refl

  mapped_distance-search :
      (origin target : ℤ)
      → mapped_distance i origin target ≡ (do
        left ← search_id origin i.nodes
        right ← search_id target i.nodes
        ok (distance_between left right))
  unfolding mapped_distance index_at element_at
  mapped_distance-search origin target = elim (place-cases origin) [
    | inl m ↦ rw (mapped_distance, index_at, m.mapped, m.searched) refl
    | inr p ↦ elim (place-cases target) [
      | inl m ↦
          rw
            (
              mapped_distance,
              index_at,
              p.mapped,
              row_at-place p.place p.at_id p.listed,
              m.mapped,
              p.searched,
              m.searched,
            )
            refl
      | inr q ↦
          let cell =
            get_elem?-map (λ right. distance_between p.at_id right) i.nodes q.place q.at_id
              q.listed in
          rw
            (
              mapped_distance,
              index_at,
              p.mapped,
              row_at-place p.place p.at_id p.listed,
              q.mapped,
              p.searched,
              q.searched,
              element_at,
              cell,
            )
            refl
    ]
  ]

  distance_km-search :
      (origin target : ℤ)
      → distance_km i origin target ≡ (do
        left ← search_id origin i.nodes
        right ← search_id target i.nodes
        ok (distance_between left right))
  unfolding distance_km
  distance_km-search origin target = elim (place-cases origin) [
    | inl m ↦ rw (distance_km, m.direct) (mapped_distance-search origin target)
    | inr p ↦ elim (place-cases target) [
      | inl m ↦ elim p.direct [
        | inl e ↦ rw (distance_km, e) (mapped_distance-search origin target)
        | inr e ↦ rw (distance_km, e, m.direct) (mapped_distance-search origin target)
      ]
      | inr q ↦ elim p.direct [
        | inl e ↦ rw (distance_km, e) (mapped_distance-search origin target)
        | inr e ↦ elim q.direct [
          | inl f ↦ rw (distance_km, e, f) (mapped_distance-search origin target)
          | inr f ↦
              rw (distance_km, e, f, p.searched, q.searched)
                (table_at-places p.place q.place p.at_id q.at_id p.listed q.listed)
        ]
      ]
    ]
  ]

  curve_at :
      (id : ℤ) (n : Node D) (c : ChargingCurve D)
      → node i id ≡ ok n
      → n.kind ≡ station
      → find n.station_type i.charging_curves ≡ some c
      → curve_for_station i id ≡ ok c
  unfolding curve_for_station curve_of_kind
  curve_at id n c at_id kind at_c = rw (curve_for_station, at_id, kind, curve_of_kind, at_c) refl

  pub node-listed :
      (id : ℤ) (k : ℕ) (n : Node D) → get_elem? i.nodes k ≡ some n → n.id ≡ id → node i id ≡ ok n
  node-listed id k n at_k n_id = elim (search_id-cases id i.nodes) [
    | inl missing ↦
        absurd (ground (arith, search_id-absent id i.nodes missing k n at_k, eqb_ℤ_iff n.id id))
    | inr (j, m, at_j, m_id, searched) ↦
        let first : find id i.index_by_id ≡ some j = rw m_id at (v.found j m at_j) in
        let second : find id i.index_by_id ≡ some k = rw n_id at (v.found k n at_k) in
        let place : j ≡ k = cc in
        let same : m ≡ n = cc (rw place at at_j) in node-search id ∙ searched ∙ ap ok same
  ]

  curve-served :
      (k : ℕ) (n : Node D)
      → get_elem? i.nodes k ≡ some n
      → n.kind ≡ station
      → (c : ChargingCurve D) × (find n.station_type i.charging_curves ≡ some c)
        × (curve_for_station i n.id ≡ ok c)
  curve-served k n at_k kind =
      let (c, at_c) = v.served k n at_k kind in
      (c, at_c, curve_at n.id n c (node-listed n.id k n at_k refl) kind at_c)

module _ {D : Type 0} ⦃d : Double D⦄ (name dataset : Text) (nodes : List (Node D))
    (vehicle : Vehicle D) (curves : List (Text × ChargingCurve D)) (i : Instance D)
    (returned : new_instance name dataset nodes vehicle curves ≡ ok i) where
  -- On an instance that the constructor has returned, `node` is a walk through the nodes to the
  -- first with the id: it throws `std::out_of_range` exactly when there is none, whether or not
  -- the direct index is on.
  pub node_of_id : (id : ℤ) → node i id ≡ search_id id i.nodes
  node_of_id id =
      node-search i (new_instance-IsBuilt name dataset nodes vehicle curves i returned) id

  -- On an instance that the constructor has returned, `distance_km` is `std::hypot` of the
  -- differences of the coordinates of the two nodes that a walk finds, and throws
  -- `std::out_of_range` when one of the ids is no node's.
  pub distance_of_ids :
      (origin target : ℤ)
      → distance_km i origin target ≡ (do
        left ← search_id origin i.nodes
        right ← search_id target i.nodes
        ok (distance_between left right))
  distance_of_ids origin target =
      distance_km-search i (new_instance-IsBuilt name dataset nodes vehicle curves i returned)
        origin target

  -- On an instance that the constructor has returned, `curve_for_station` returns, for every node
  -- that is a station, the curve of the station's type.
  pub curve_of_station :
      (k : ℕ) (n : Node D)
      → get_elem? i.nodes k ≡ some n
      → n.kind ≡ station
      → (c : ChargingCurve D) × (find n.station_type i.charging_curves ≡ some c)
        × (curve_for_station i n.id ≡ ok c)
  curve_of_station k n at_k kind =
      curve-served i (new_instance-IsBuilt name dataset nodes vehicle curves i returned) k n at_k
        kind
