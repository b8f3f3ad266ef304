-- ===== src/Core/Instance/Built.antt =====
-- The constructor of `Instance` in src/core.cpp: what it has filled when it returns.
use mathlib.Core.Path.{subst}
use mathlib.Core.List.{append-nil, append_assoc}
use ils_sp.Prelude.{
  ℕ, suc, ◌+◌, ◌≡◌, refl, sym, ap, ◌∙◌, true, not, ◌&&◌, ◌||◌, Bool-cases, Option-cases, inl, inr,
  some, List, [], ◌∷◌, ◌++◌, length, get_elem?, get_elem?-old, get_elem?-new, nat_eq, nat_eq_iff,
  to_nat, arith, ok, throw_if, >>=-eq-ok, length-append, List_eq, ℕ_eq, invalid_argument,
}
use ils_sp.Prelude.Int.{ℤ, pos, ℤ_eq}
use ils_sp.Double.{Double, fabs}
use ils_sp.Maps.{find, contains}
use ils_sp.Core.Curve.{Text, ChargingCurve, capacity_wh}
use ils_sp.Core.Sets.{count, count-sort}
use ils_sp.Core.Instance.{
  NodeKind, depot, customer, station, Node, Vehicle, Instance, Scan, is_index, valid_geometry,
  valid_vehicle, classify, scan_node, scan_nodes, no_scan, distance_table, finish_instance,
  new_instance,
}
use ils_sp.Core.Instance.Scanned.{
  same_kind, kind_count, depots, IsIndexed, IsClassified, kind_other, kind_listed, depots-snoc,
  grown_served, IsIndexed-snoc,
}

ok_inj : {T : Type 0} (a b : T) → ok a ≡ ok b → a ≡ b
ok_inj a b e = cc

module _ {D : Type 0} ⦃d : Double D⦄ (vehicle : Vehicle D)
    (curves : List (Text × ChargingCurve D)) where
  grown_depots :
      (nodes : List (Node D)) (n : Node D) (more : ℕ)
      → to_nat (same_kind n.kind depot) ≡ more
      → depots nodes + more ≡ depots (nodes ++ n ∷ [])
  grown_depots nodes n more h = omega (arith, depots-snoc nodes n)

  station_served :
      (n : Node D) (s t : Scan)
      → classify vehicle curves n station s ≡ ok t
      → (c : ChargingCurve D) × (find n.station_type curves ≡ some c)
        × (record s { stations = s.stations ++ n.id ∷ [] } ≡ t)
  unfolding classify
  station_served n s t e = elim (Option-cases (find n.station_type curves)) [
    | inl none_found ↦ absurd (cc (rw (classify, none_found) at e))
    | inr (c, at_c) ↦
        elim (Bool-cases
          (d.lt (d.decimal 1 6) (fabs (d.sub (capacity_wh c) vehicle.battery_capacity_wh)))) [
            | inl far ↦ absurd (cc (rw (classify, at_c, far) at e))
            | inr near ↦ (c, at_c, ok_inj _ t (rw (classify, at_c, near) at e))
          ]
  ]

  classify-IsClassified :
      (nodes : List (Node D)) (n : Node D) (k : NodeKind) (s t : Scan)
      → n.kind ≡ k
      → classify vehicle curves n k s ≡ ok t
      → IsClassified curves nodes s
      → IsClassified curves (nodes ++ n ∷ []) t
  unfolding classify
  classify-IsClassified nodes n depot s t k e v =
      subst (λ t. IsClassified curves (nodes ++ n ∷ []) t) (ok_inj _ t e)
        (record {
          customers = λ a. v.customers a ∙ sym (kind_other nodes n customer a (rw k refl));
          stations = λ a. v.stations a ∙ sym (kind_other nodes n station a (rw k refl));
          counted = omega (arith, v.counted, grown_depots nodes n 1 (rw k refl));
          served = grown_served curves nodes n s v (λ h. absurd (cc (rw k at h)));
          based = λ _. (length nodes, n, get_elem?-new nodes n, k, refl);
        })
  classify-IsClassified nodes n customer s t k e v =
      subst (λ t. IsClassified curves (nodes ++ n ∷ []) t) (ok_inj _ t e)
        (record {
          customers = λ a. kind_listed nodes n customer s.customers a (rw k refl) (v.customers a);
          stations = λ a. v.stations a ∙ sym (kind_other nodes n station a (rw k refl));
          counted = omega (arith, v.counted, grown_depots nodes n 0 (rw k refl));
          served = grown_served curves nodes n s v (λ h. absurd (cc (rw k at h)));
          based = λ h.
              let (i, m, e, same, id) = v.based h in (i, m, get_elem?-old nodes i m n e, same, id);
        })
  classify-IsClassified nodes n station s t k e v =
      let (c, at_c, same) = station_served n s t e in
      subst (λ t. IsClassified curves (nodes ++ n ∷ []) t) same
        (record {
          customers = λ a. v.customers a ∙ sym (kind_other nodes n customer a (rw k refl));
          stations = λ a. kind_listed nodes n station s.stations a (rw k refl) (v.stations a);
          counted = omega (arith, v.counted, grown_depots nodes n 0 (rw k refl));
          served = grown_served curves nodes n s v (λ _. (c, at_c));
          based = λ h.
              let (i, m, e, same, id) = v.based h in (i, m, get_elem?-old nodes i m n e, same, id);
        })

  classify-keeps :
      (n : Node D) (k : NodeKind) (s t : Scan)
      → classify vehicle curves n k s ≡ ok t
      → (s.index_by_id ≡ t.index_by_id) × (s.indexed ≡ t.indexed)
  unfolding classify
  classify-keeps n depot s t e =
      let same = ok_inj _ t e in (ap (λ x. x.index_by_id) same, ap (λ x. x.indexed) same)
  classify-keeps n customer s t e =
      let same = ok_inj _ t e in (ap (λ x. x.index_by_id) same, ap (λ x. x.indexed) same)
  classify-keeps n station s t e =
      let (c, at_c, same) = station_served n s t e in
      (ap (λ x. x.index_by_id) same, ap (λ x. x.indexed) same)

  scan_node-ok :
      (nodes : List (Node D)) (n : Node D) (s t : Scan)
      → scan_node vehicle curves (length nodes) n s ≡ ok t
      → IsIndexed nodes s.index_by_id s.indexed
      → IsClassified curves nodes s
      → IsIndexed (nodes ++ n ∷ []) t.index_by_id t.indexed
        × IsClassified curves (nodes ++ n ∷ []) t
  unfolding scan_node
  scan_node-ok nodes n s t e x v = elim (Bool-cases (contains n.id s.index_by_id)) [
    | inl taken ↦ absurd (cc (rw (scan_node, taken) at e))
    | inr fresh ↦ elim (Bool-cases (valid_geometry n)) [
      | inr bad ↦ absurd (cc (rw (scan_node, fresh, bad) at e))
      | inl good ↦
          let next : Scan = record s {
            index_by_id = (n.id, length nodes) ∷ s.index_by_id;
            indexed = s.indexed && is_index n.id (length nodes);
          } in
          let c : classify vehicle curves n n.kind next ≡ ok t = rw (scan_node, fresh, good) at e in
          let (kept, direct) = classify-keeps n n.kind next t c in
          (
            rw (← kept, ← direct) (IsIndexed-snoc nodes s.index_by_id s.indexed n fresh x),
            classify-IsClassified nodes n n.kind next t refl c (record {
              customers = v.customers;
              stations = v.stations;
              counted = v.counted;
              served = v.served;
              based = v.based;
            }),
          )
    ]
  ]

  longer : (seen : List (Node D)) (n : Node D) → length (seen ++ n ∷ []) ≡ suc (length seen)
  longer seen n = omega (arith, length-append seen (n ∷ []))

  pub scan_nodes-ok :
      (seen nodes : List (Node D)) (s t : Scan)
      → scan_nodes vehicle curves (length seen) nodes s ≡ ok t
      → IsIndexed seen s.index_by_id s.indexed
      → IsClassified curves seen s
      → IsIndexed (seen ++ nodes) t.index_by_id t.indexed × IsClassified curves (seen ++ nodes) t
  unfolding scan_nodes
  scan_nodes-ok seen [] s t e x v = let same = ok_inj s t e in rw (append-nil seen, ← same) (x, v)
  scan_nodes-ok seen (n ∷ nodes) s t e x v =
      let (u, first, rest) = >>=-eq-ok (scan_node vehicle curves (length seen) n s) _ e in
      let (y, w) = scan_node-ok seen n s u first x v in
      let r : (seen ++ n ∷ []) ++ nodes ≡ seen ++ n ∷ nodes = append_assoc seen (n ∷ []) nodes in
      rw (← r) (scan_nodes-ok (seen ++ n ∷ []) nodes u t (rw (longer seen n) rest) y w)

-- An instance that the constructor may return: one depot, a customer, and, for the ids, the members
-- that answer the queries.
pub record IsBuilt {D : Type 0} ⦃d : Double D⦄ (i : Instance D) : Type 0 where
  pub mapped :
      (id : ℤ) (k : ℕ)
      → find id i.index_by_id ≡ some k
      → (n : Node D) × (get_elem? i.nodes k ≡ some n) × (n.id ≡ id)
  pub found : (k : ℕ) (n : Node D) → get_elem? i.nodes k ≡ some n → find n.id i.index_by_id ≡ some k
  pub in_place :
      i.nodes_indexed_by_id ≡ true
      → (k : ℕ) (n : Node D) → get_elem? i.nodes k ≡ some n
      → n.id ≡ pos k
  pub tabled : i.distances_km ≡ distance_table i.nodes
  pub customers : (a : ℤ) → count a i.customer_ids ≡ kind_count customer a i.nodes
  pub stations : (a : ℤ) → count a i.station_ids ≡ kind_count station a i.nodes
  pub one_depot : depots i.nodes ≡ 1
  pub based :
      (k : ℕ) × (n : Node D) × (get_elem? i.nodes k ≡ some n)
      × (n.kind ≡ depot)
      × (n.id ≡ i.depot_id)
  pub served :
      (k : ℕ) (n : Node D)
      → get_elem? i.nodes k ≡ some n
      → n.kind ≡ station
      → (c : ChargingCurve D) × (find n.station_type i.charging_curves ≡ some c)

module _ {D : Type 0} ⦃d : Double D⦄ where
  finish_instance-IsBuilt :
      (name dataset : Text) (nodes : List (Node D)) (vehicle : Vehicle D)
      (curves : List (Text × ChargingCurve D)) (s : Scan) (i : Instance D)
      → finish_instance name dataset nodes vehicle curves s ≡ ok i
      → IsIndexed nodes s.index_by_id s.indexed
      → IsClassified curves nodes s
      → IsBuilt i
  unfolding finish_instance
  finish_instance-IsBuilt name dataset nodes vehicle curves s i e x v =
      elim (Bool-cases (not (nat_eq s.depot_count 1) || nat_eq (length s.customers) 0)) [
        | inl bad ↦ absurd (cc (rw (finish_instance, bad) at e))
        | inr good ↦
            let one : s.depot_count ≡ 1 = ground (arith, good, nat_eq_iff s.depot_count 1) in
            subst (λ i. IsBuilt i) (ok_inj _ i (rw (finish_instance, good) at e))
              (record {
                mapped = x.mapped;
                found = x.found;
                in_place = x.in_place;
                tabled = refl;
                customers = λ a. count-sort a s.customers ∙ v.customers a;
                stations = λ a. count-sort a s.stations ∙ v.stations a;
                one_depot = omega (arith, one, v.counted);
                based = v.based (omega (arith, one));
                served = v.served;
              })
      ]

  no_scan-IsIndexed : IsIndexed {D = D} [] no_scan.index_by_id no_scan.indexed
  unfolding find
  no_scan-IsIndexed = record {
    mapped = λ id i e. absurd cc;
    found = λ i n e. absurd cc;
    in_place = λ _ i n e. absurd cc;
  }

  no_scan-IsClassified : (curves : List (Text × ChargingCurve D)) → IsClassified curves [] no_scan
  unfolding count kind_count depots
  no_scan-IsClassified curves = record {
    customers = λ a. refl;
    stations = λ a. refl;
    counted = refl;
    served = λ i n e. absurd cc;
    based = λ h. absurd (omega arith);
  }

  -- An instance that the constructor returns is well formed: its index holds every node under its
  -- id and nothing else, ids are positions where the direct index is on, the id lists hold exactly
  -- the customers and the stations, there is one depot, and every station's type has a curve.
  pub new_instance-IsBuilt :
      (name dataset : Text) (nodes : List (Node D)) (vehicle : Vehicle D)
      (curves : List (Text × ChargingCurve D)) (i : Instance D)
      → new_instance name dataset nodes vehicle curves ≡ ok i
      → IsBuilt i
  unfolding new_instance
  new_instance-IsBuilt name dataset nodes vehicle curves i e =
      let (_, _, e1) =
        >>=-eq-ok (throw_if (nat_eq (length name) 0 || nat_eq (length nodes) 0) invalid_argument) _
          e in
      let (_, _, e2) = >>=-eq-ok (throw_if (not (valid_vehicle vehicle)) invalid_argument) _ e1 in
      let (s, scanned, e3) = >>=-eq-ok (scan_nodes vehicle curves 0 nodes no_scan) _ e2 in
      let (x, v) =
        scan_nodes-ok vehicle curves [] nodes no_scan s scanned no_scan-IsIndexed
          (no_scan-IsClassified curves) in
      finish_instance-IsBuilt name dataset nodes vehicle curves s i e3 x v
