-- ===== src/Evaluator/Stops.antt =====
-- `route_label` of src/evaluator.cpp: the stations of its legs.
use ils_sp.Prelude.{
  ◌≡◌, refl, sym, ap, ◌∙◌, Bool, true, false, not, List, [], ◌∷◌, ◌++◌, map, if◌then◌else◌, ok,
  throw, Returns, Returns->>=, Returns-if, Returns-ok, ◌==◌,
}
use mathlib.Core.List.{append_assoc, append-nil, map-append}
use mathlib.Core.Path.{subst}
use ils_sp.Prelude.Int.{ℤ, ℤ_eq}
use ils_sp.Double.{Double, nought}
use ils_sp.Core.{Route}
use ils_sp.Core.Instance.{Node, Instance, node, travel_time_h, energy_wh}
use ils_sp.Evaluator.{
  Leg, Label, Walk, empty_label, pass_edge, traverse, is_station, through_stations, finish_edge,
  edge_label, join_legs, join, append, append_visits, route_label,
}

module _ {D : Type 0} ⦃d : Double D⦄ where
  abbrev pub stop_ids : Label D → List ℤ
  stop_ids label = map (λ leg. leg.station_id) label.station_legs

  -- A visit, if it is a station of the instance.
  unfoldable pub stop_of : Instance D → ℤ → List ℤ
  stop_of i id = elim (node i id) [
    | throw x ↦ []
    | ok n ↦ if is_station n.kind then id ∷ [] else []
  ]

  unfoldable pub stops : Instance D → List ℤ → List ℤ
  stops i [] = []
  stops i (id ∷ visits) = stop_of i id ++ stops i visits

  -- A label from one node to another, with these stations.
  record Spans (origin target : ℤ) (ids : List ℤ) (label : Label D) : Type 0 where
    is_initialized : label.initialized ≡ true
    starts : label.origin_id ≡ origin
    ends : label.target_id ≡ target
    visits_all : stop_ids label ≡ ids

  pass_edge-Spans :
      (n : Node D) (hours used : D) (origin target : ℤ) (b : Bool)
      → Spans origin target (if b then target ∷ [] else []) (
          finish_edge n (
            pass_edge hours used target b (record {
              label = empty_label origin target true;
              energy_since_station = nought;
              previous = origin;
            })))
  unfolding finish_edge pass_edge
  pass_edge-Spans n hours used origin target true = record {
    is_initialized = refl;
    starts = refl;
    ends = refl;
    visits_all = refl;
  }
  pass_edge-Spans n hours used origin target false = record {
    is_initialized = refl;
    starts = refl;
    ends = refl;
    visits_all = refl;
  }

  traverse-Spans :
      (i : Instance D) (n : Node D) (origin target : ℤ) (b : Bool)
      → Returns
          (λ w. Spans origin target (if b then target ∷ [] else []) (finish_edge n w))
          (traverse i target b (record {
            label = empty_label origin target true;
            energy_since_station = nought;
            previous = origin;
          }))
  unfolding traverse
  traverse-Spans i n origin target b =
      let Walked : Walk D → Type 0 =
        λ w. Spans origin target (if b then target ∷ [] else []) (finish_edge n w) in
      Returns->>= Walked (travel_time_h i origin target) _ (λ hours _.
        Returns->>= Walked (energy_wh i origin target) _
          (λ used _. pass_edge-Spans n hours used origin target b))

  stop_of-node :
      (i : Instance D) (id : ℤ) (n : Node D)
      → node i id ≡ ok n
      → stop_of i id ≡ (if is_station n.kind then id ∷ [] else [])
  unfolding stop_of
  stop_of-node i id n e = rw (e, stop_of) refl

  edge_label-Spans :
      (i : Instance D) (origin target : ℤ)
      → Returns (Spans origin target (stop_of i target)) (edge_label i origin [] target)
  unfolding edge_label through_stations
  edge_label-Spans i origin target =
      let Edge : Label D → Type 0 = Spans origin target (stop_of i target) in
      Returns->>= Edge (node i origin) _ (λ from _. Returns->>= Edge (node i target) _ (λ n e.
        Returns->>= Edge (traverse i target (is_station n.kind) _) _ (λ last e'.
          let same = sym (stop_of-node i target n e) in
          subst (λ ids. Spans origin target ids (finish_edge n last)) same
            (Returns-ok _ _ last e' (traverse-Spans i n origin target (is_station n.kind))))))

  join_legs-Spans :
      (left right : Label D) (legs : List (Leg D)) (origin middle target : ℤ) (seen ids : List ℤ)
      → right.station_legs ≡ legs
      → Spans origin target seen left
      → Spans middle target ids right
      → Spans origin target (seen ++ ids) (join_legs left legs right)
  unfolding join_legs
  join_legs-Spans left right [] origin middle target seen ids e l r = record {
    is_initialized = l.is_initialized;
    starts = l.starts;
    ends = l.ends;
    visits_all =
        let without : ids ≡ [] = sym r.visits_all ∙ ap (map (λ leg. leg.station_id)) e in
        l.visits_all ∙ sym (append-nil seen) ∙ ap (λ t. seen ++ t) (sym without);
  }
  join_legs-Spans left right (front ∷ legs) origin middle target seen ids e l r = record {
    is_initialized = l.is_initialized;
    starts = l.starts;
    ends = l.ends;
    visits_all =
        let same : ids ≡ map (λ leg. leg.station_id) (front ∷ legs) =
          sym r.visits_all ∙ ap (map (λ leg. leg.station_id)) e in
        map-append (λ leg. leg.station_id) left.station_legs _
        ∙ ap (λ t. t ++ front.station_id ∷ map (λ leg. leg.station_id) legs) l.visits_all
        ∙ ap (λ t. seen ++ t) (sym same);
  }

  append-Spans :
      (left right : Label D) (origin middle target : ℤ) (seen ids : List ℤ)
      → Spans origin middle seen left
      → Spans middle target ids right
      → Returns (Spans origin target (seen ++ ids)) (append left right)
  unfolding append join
  append-Spans left right origin middle target seen ids l r =
      let Joined : Label D → Type 0 = Spans origin target (seen ++ ids) in
      let absent : (label : Label D) → label.initialized ≡ true → not label.initialized ≡ true → ⊥ =
        λ label i e. cc in
      Returns-if Joined (not right.initialized) _ _ (λ e. absurd (absent right r.is_initialized e))
        (λ _.
          Returns-if Joined (not left.initialized) _ _
            (λ e. absurd (absent left l.is_initialized e))
            (λ _.
              Returns-if Joined (not (left.target_id == right.origin_id)) _ _ (λ _. tt)
                (λ _.
                  join_legs-Spans _ right right.station_legs origin middle target seen ids refl
                    (record {
                      is_initialized = l.is_initialized;
                      starts = l.starts;
                      ends = r.ends;
                      visits_all = l.visits_all;
                    })
                    r)))

  append_visits-Spans :
      (i : Instance D) (visits : List ℤ) (previous : ℤ) (label : Label D) (seen : List ℤ)
      → Spans i.depot_id previous seen label
      → Returns
          (Spans i.depot_id i.depot_id (seen ++ (stops i visits ++ stop_of i i.depot_id)))
          (append_visits i previous visits label)
  unfolding append_visits stops
  append_visits-Spans i [] previous label seen h =
      let Whole : Label D → Type 0 = Spans i.depot_id i.depot_id (seen ++ stop_of i i.depot_id) in
      Returns->>= Whole (edge_label i previous [] i.depot_id) _ (λ edge e.
        append-Spans label edge i.depot_id previous i.depot_id seen _ h
          (Returns-ok _ _ edge e (edge_label-Spans i previous i.depot_id)))
  append_visits-Spans i (v ∷ visits) previous label seen h =
      let Whole : Label D → Type 0 =
        Spans i.depot_id i.depot_id
          (seen ++ ((stop_of i v ++ stops i visits) ++ stop_of i i.depot_id)) in
      Returns->>= Whole (edge_label i previous [] v) _ (λ edge e.
        Returns->>= Whole (append label edge) _ (λ longer e'.
          let next = Returns-ok _ _ longer e' (
            append-Spans label edge i.depot_id previous v seen _ h
              (Returns-ok _ _ edge e (edge_label-Spans i previous v))) in
          subst (λ ids. Returns (Spans i.depot_id i.depot_id ids) (append_visits i v visits longer))
            (append_assoc seen (stop_of i v) _
              ∙ ap (λ t. seen ++ t) (sym (append_assoc (stop_of i v) (stops i visits) _)))
            (append_visits-Spans i visits v longer _ next)))

  append-first :
      (i : Instance D) (target : ℤ) (edge : Label D) (ids : List ℤ)
      → Spans i.depot_id target ids edge
      → append (empty_label i.depot_id i.depot_id false) edge ≡ ok edge
  unfolding append
  append-first i target edge ids h = simp h.is_initialized

  route_label-Spans :
      (i : Instance D) (visits : List ℤ)
      → Returns
          (Spans i.depot_id i.depot_id (stops i visits ++ stop_of i i.depot_id))
          (append_visits i i.depot_id visits (empty_label i.depot_id i.depot_id false))
  unfolding append_visits stops
  route_label-Spans i [] =
      let Whole : Label D → Type 0 = Spans i.depot_id i.depot_id (stop_of i i.depot_id) in
      Returns->>= Whole (edge_label i i.depot_id [] i.depot_id) _ (λ edge e.
        let h = Returns-ok _ _ edge e (edge_label-Spans i i.depot_id i.depot_id) in
        subst (Returns Whole) (sym (append-first i _ edge _ h)) h)
  route_label-Spans i (v ∷ visits) =
      let Whole : Label D → Type 0 =
        Spans i.depot_id i.depot_id ((stop_of i v ++ stops i visits) ++ stop_of i i.depot_id) in
      Returns->>= Whole (edge_label i i.depot_id [] v) _ (λ edge e.
        let h = Returns-ok _ _ edge e (edge_label-Spans i i.depot_id v) in
        Returns->>= Whole (append _ edge) _ (λ longer e'.
          let joined = sym (append-first i v edge _ h) ∙ e' in
          let same : edge ≡ longer = cc in
          subst (λ ids. Returns (Spans i.depot_id i.depot_id ids) (append_visits i v visits longer))
            (sym (append_assoc (stop_of i v) (stops i visits) _))
            (append_visits-Spans i visits v longer _
              (subst (Spans i.depot_id v (stop_of i v)) same h))))

  -- A label that `route_label` returns goes from the depot to the depot, and its legs are the visits
  -- at stations, in their order and with their repetitions (behind them the depot, if the instance
  -- calls it a station).
  pub route_label-stops :
      (i : Instance D) (route : Route) (label : Label D)
      → route_label i route ≡ ok label
      → (label.origin_id ≡ i.depot_id)
        × (label.target_id ≡ i.depot_id)
        × (stop_ids label ≡ stops i route.visits ++ stop_of i i.depot_id)
  unfolding route_label
  route_label-stops i route label e =
      let h = Returns-ok _ _ label e (route_label-Spans i route.visits) in
      (h.starts, h.ends, h.visits_all)
