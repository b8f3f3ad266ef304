-- ===== src/Core/Instance/Scanned.antt =====
-- What the constructor of `Instance` in src/core.cpp has filled when its loop ends.
use ils_sp.Prelude.{
  ℕ, ◌+◌, ◌≤◌, ◌≡◌, sym, ap, Bool, true, false, ◌&&◌, Bool-cases, inl, inr, some, List, [], ◌∷◌,
  ◌++◌, length, get_elem?, get_elem?-old, get_elem?-new, get_elem?-cases, nat_eq_iff, to_nat, arith,
  List_eq, ℕ_eq,
}
use ils_sp.Prelude.Int.{ℤ, pos, negsuc, eqb_ℤ, eqb_ℤ_iff, ℤ_eq}
use ils_sp.Double.{Double}
use ils_sp.Maps.{find, contains, contains-find}
use ils_sp.Core.Curve.{Text, ChargingCurve}
use ils_sp.Core.Sets.{count}
use ils_sp.Core.Instance.{NodeKind, depot, customer, station, Node, Scan, is_index}

-- Whether two kinds are the same.
abbrev pub same_kind : NodeKind → NodeKind → Bool
same_kind depot depot = true
same_kind customer customer = true
same_kind station station = true
same_kind _ _ = false

pub count-append : (a : ℤ) (l m : List ℤ) → count a (l ++ m) ≡ count a l + count a m
unfolding count
count-append a [] m = omega arith
count-append a (b ∷ l) m = omega (arith, count-append a l m)

is_index-eq : (id : ℤ) (index : ℕ) → is_index id index ≡ true → id ≡ pos index
unfolding is_index
is_index-eq (pos n) index e = ap pos ((nat_eq_iff n index).0 e)
is_index-eq (negsuc n) index e = absurd cc

module _ {D : Type 0} ⦃d : Double D⦄ where
  -- How many nodes have a kind and an id, and how many a kind.
  unfoldable pub kind_count : NodeKind → ℤ → List (Node D) → ℕ
  kind_count kind a [] = 0
  kind_count kind a (n ∷ nodes) =
      to_nat (same_kind n.kind kind && eqb_ℤ n.id a) + kind_count kind a nodes

  unfoldable pub depots : List (Node D) → ℕ
  depots [] = 0
  depots (n ∷ nodes) = to_nat (same_kind n.kind depot) + depots nodes

  kind_count-snoc :
      (kind : NodeKind) (a : ℤ) (nodes : List (Node D)) (n : Node D)
      → kind_count kind a (nodes ++ n ∷ [])
        ≡ kind_count kind a nodes + to_nat (same_kind n.kind kind && eqb_ℤ n.id a)
  unfolding kind_count
  kind_count-snoc kind a [] n = omega arith
  kind_count-snoc kind a (m ∷ nodes) n = omega (arith, kind_count-snoc kind a nodes n)

  pub depots-snoc :
      (nodes : List (Node D)) (n : Node D)
      → depots (nodes ++ n ∷ []) ≡ depots nodes + to_nat (same_kind n.kind depot)
  unfolding depots
  depots-snoc [] n = omega arith
  depots-snoc (m ∷ nodes) n = omega (arith, depots-snoc nodes n)

  -- The index: every node under its id, and nothing else.
  pub record IsIndexed (nodes : List (Node D)) (index : List (ℤ × ℕ)) (direct : Bool) : Type 0 where
    pub mapped :
        (id : ℤ) (i : ℕ)
        → find id index ≡ some i
        → (n : Node D) × (get_elem? nodes i ≡ some n) × (n.id ≡ id)
    pub found : (i : ℕ) (n : Node D) → get_elem? nodes i ≡ some n → find n.id index ≡ some i
    pub in_place : direct ≡ true → (i : ℕ) (n : Node D) → get_elem? nodes i ≡ some n → n.id ≡ pos i

  -- The kinds: customers and stations listed, depots counted, and a curve for every station.
  pub record IsClassified (curves : List (Text × ChargingCurve D)) (nodes : List (Node D))
      (s : Scan) : Type 0 where
    pub customers : (a : ℤ) → count a s.customers ≡ kind_count customer a nodes
    pub stations : (a : ℤ) → count a s.stations ≡ kind_count station a nodes
    pub counted : s.depot_count ≡ depots nodes
    pub served :
        (i : ℕ) (n : Node D)
        → get_elem? nodes i ≡ some n
        → n.kind ≡ station
        → (c : ChargingCurve D) × (find n.station_type curves ≡ some c)
    pub based :
        1 ≤ s.depot_count
        → (i : ℕ) × (n : Node D) × (get_elem? nodes i ≡ some n)
          × (n.kind ≡ depot)
          × (n.id ≡ s.depot_id)

  pub IsIndexed-snoc :
      (nodes : List (Node D)) (index : List (ℤ × ℕ)) (direct : Bool) (n : Node D)
      → contains n.id index ≡ false
      → IsIndexed nodes index direct
      → IsIndexed
          (nodes ++ n ∷ [])
          ((n.id, length nodes) ∷ index)
          (direct && is_index n.id (length nodes))
  unfolding find
  IsIndexed-snoc nodes index direct n fresh v = record {
    mapped = λ id i e. elim (Bool-cases (eqb_ℤ n.id id)) [
      | inl here ↦
          let place : length nodes ≡ i = cc (rw here at e) in
          (n, rw (← place) (get_elem?-new nodes n), (eqb_ℤ_iff n.id id).0 here)
      | inr other ↦
          let (m, at_i, same) = v.mapped id i (rw other at e) in
          (m, get_elem?-old nodes i m n at_i, same)
    ];
    found = λ i m e. elim (get_elem?-cases nodes n i m e) [
      | inl old ↦
          let before = v.found i m old in
          ground (arith, before, contains-find m.id index i before, eqb_ℤ_iff n.id m.id, fresh)
      | inr new ↦ rw (new.0, sym new.1) (ground (arith, eqb_ℤ_iff n.id n.id))
    ];
    in_place = λ both i m e. elim (get_elem?-cases nodes n i m e) [
      | inl old ↦ v.in_place (ground (arith, both)) i m old
      | inr new ↦ rw (new.0, sym new.1) (is_index-eq n.id (length nodes) (ground (arith, both)))
    ];
  }

  pub grown_served :
      (curves : List (Text × ChargingCurve D)) (nodes : List (Node D)) (n : Node D) (s : Scan)
      → IsClassified curves nodes s
      → (n.kind ≡ station → (c : ChargingCurve D) × (find n.station_type curves ≡ some c))
      → (i : ℕ) (m : Node D) → get_elem? (nodes ++ n ∷ []) i ≡ some m
      → m.kind ≡ station
      → (c : ChargingCurve D) × (find m.station_type curves ≡ some c)
  grown_served curves nodes n s v h i m e k = elim (get_elem?-cases nodes n i m e) [
    | inl old ↦ v.served i m old k
    | inr new ↦ rw (← new.1) (h (rw new.1 k))
  ]

  pub kind_other :
      (nodes : List (Node D)) (n : Node D) (kind : NodeKind) (a : ℤ)
      → same_kind n.kind kind ≡ false
      → kind_count kind a (nodes ++ n ∷ []) ≡ kind_count kind a nodes
  kind_other nodes n kind a h = ground (arith, kind_count-snoc kind a nodes n, h)

  pub kind_same :
      (nodes : List (Node D)) (n : Node D) (kind : NodeKind) (a : ℤ)
      → same_kind n.kind kind ≡ true
      → kind_count kind a (nodes ++ n ∷ []) ≡ kind_count kind a nodes + to_nat (eqb_ℤ n.id a)
  kind_same nodes n kind a h = ground (arith, kind_count-snoc kind a nodes n, h)

  pub kind_listed :
      (nodes : List (Node D)) (n : Node D) (kind : NodeKind) (l : List ℤ) (a : ℤ)
      → same_kind n.kind kind ≡ true
      → count a l ≡ kind_count kind a nodes
      → count a (l ++ n.id ∷ []) ≡ kind_count kind a (nodes ++ n ∷ [])
  unfolding count
  kind_listed nodes n kind l a h e =
      omega (arith, count-append a l (n.id ∷ []), kind_same nodes n kind a h, e)
