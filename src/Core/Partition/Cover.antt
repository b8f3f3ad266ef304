-- ===== src/Core/Partition/Cover.antt =====
-- What `Solution::validate_partition` of src/core.cpp decides.
use ils_sp.Prelude.{
  ◌+◌, ◌≤◌, ◌≡◌, refl, sym, ap, ◌∙◌, ◌↔◌, Bool, true, false, not, ◌||◌, Bool-cases, inl, inr, List,
  [], ◌∷◌, ◌++◌, All, length, length-append, nat_eq, nat_eq_iff, to_nat, arith, ok, throw_if,
  >>=-eq-ok, invalid_argument, list_eq_iff, ◌==◌, List_eq,
}
use ils_sp.Prelude.Int.{ℤ, eqb_ℤ, eqb_ℤ_iff, ℤ_eq}
use ils_sp.Double.{Double}
use ils_sp.Maps.{contains}
use ils_sp.Core.{Route, Plan, Solution, expand_route}
use ils_sp.Core.Sets.{count}
use ils_sp.Core.Curve.{Text, ChargingCurve}
use ils_sp.Core.Instance.{Node, Vehicle, Instance, node, new_instance}
use ils_sp.Core.Instance.Built.{IsBuilt, new_instance-IsBuilt}
use ils_sp.Core.Instance.Scanned.{count-append}
use ils_sp.Core.Partition.{
  IdSet, is_customer, all_seen, consistent_plan, see_customers, see_plans, validate_partition,
}
use ils_sp.Core.Partition.Counts.{
  le_or_lt, length_of_counts, customers_le, customer_of_count, count_of_customer,
}

route_eq : (r s : Route) → r.visits ≡ s.visits → r ≡ s
route_eq r s e = ap (λ v. record { visits = v }) e

-- The throwing test of a condition.
throw_if-ok : (b : Bool) (u : Unit {0}) → throw_if b invalid_argument ≡ ok u → b ≡ false
throw_if-ok true u e = absurd cc
throw_if-ok false u e = refl

gaps_of_expanded :
    (ids : List ℤ) (gaps : List (List ℤ)) (route : Route)
    → expand_route ids gaps ≡ ok route
    → nat_eq (length gaps) (length ids + 1) ≡ true
unfolding expand_route
gaps_of_expanded ids gaps route e = elim (Bool-cases (nat_eq (length gaps) (length ids + 1))) [
  | inl same ↦ same
  | inr other ↦ absurd (cc (rw (expand_route, other) at e))
]

-- The last loop finds every id.
pub all_seen-count :
    (seen : IdSet) (ids : List ℤ)
    → all_seen seen ids ≡ true
    → (a : ℤ) → 1 ≤ count a ids
    → contains a seen ≡ true
unfolding all_seen count
all_seen-count seen [] h a k = absurd (omega arith)
all_seen-count seen (id ∷ ids) h a k = elim (Bool-cases (eqb_ℤ id a)) [
  | inl same ↦ rw (← (eqb_ℤ_iff id a).0 same) (ground (arith, h))
  | inr other ↦ all_seen-count seen ids (ground (arith, h)) a (ground (arith, k, other))
]

all_seen-of :
    (seen : IdSet) (ids : List ℤ)
    → ((a : ℤ) → 1 ≤ count a ids → contains a seen ≡ true)
    → all_seen seen ids ≡ true
unfolding all_seen count
all_seen-of seen [] h = refl
all_seen-of seen (id ∷ ids) h =
    let first = h id (ground (arith, eqb_ℤ_iff id id)) in
    let rest = all_seen-of seen ids (λ a k. h a (omega arith)) in ground (arith, first, rest)

module _ {D : Type 0} ⦃d : Double D⦄ where
  -- A plan with a customer whose route is its customers between its gaps.
  pub record IsConsistent (plan : Plan D) : Type 0 where
    pub served : 1 ≤ length plan.customer_ids
    pub expanded : expand_route plan.customer_ids plan.gaps ≡ ok plan.route

  -- The customers of all plans.
  unfoldable pub plan_customers : List (Plan D) → List ℤ
  plan_customers [] = []
  plan_customers (plan ∷ plans) = plan.customer_ids ++ plan_customers plans

  consistent_plan-ok : (plan : Plan D) → (consistent_plan plan ≡ ok tt) ↔ IsConsistent plan
  unfolding consistent_plan
  consistent_plan-ok plan = (
    (λ e.
        let (_, first, e1) =
          >>=-eq-ok
            (throw_if
              (nat_eq (length plan.customer_ids) 0
                || not (nat_eq (length plan.gaps) (length plan.customer_ids + 1)))
              invalid_argument)
            _ e in
        let (route, expanded, e2) = >>=-eq-ok (expand_route plan.customer_ids plan.gaps) _ e1 in
        let visits = throw_if-ok (not (plan.route.visits == route.visits)) tt e2 in
        record {
          served = ground (arith, throw_if-ok _ _ first, nat_eq_iff (length plan.customer_ids) 0);
          expanded =
              expanded
              ∙ sym (
                  ap (λ r. ok r)
                    (route_eq plan.route route
                      (ground (arith, visits, list_eq_iff plan.route.visits route.visits))));
        }),
    (λ c.
        let first : (nat_eq (length plan.customer_ids) 0
              || not (nat_eq (length plan.gaps) (length plan.customer_ids + 1)))
            ≡ false =
          ground (
            arith,
            c.served,
            gaps_of_expanded plan.customer_ids plan.gaps plan.route c.expanded,
            nat_eq_iff (length plan.customer_ids) 0,
          ) in
        let visits : (plan.route.visits == plan.route.visits) ≡ true =
          (list_eq_iff plan.route.visits plan.route.visits).1 refl in
        rw (consistent_plan, first, c.expanded, visits) refl),
  )

  -- The ids that the set holds, one more than before for each customer.
  see_customers-ok :
      (i : Instance D) (ids : List ℤ) (seen later : IdSet)
      → see_customers i ids seen ≡ ok later
      → (length later ≡ length ids + length seen)
        × ((a : ℤ) → to_nat (contains a later) ≡ count a ids + to_nat (contains a seen))
  unfolding see_customers count contains
  see_customers-ok i [] seen later e =
      let same : seen ≡ later = cc in rw same (omega arith, λ a. omega arith)
  see_customers-ok i (id ∷ ids) seen later e =
      let (n, at_id, e1) = >>=-eq-ok (node i id) _ e in
      let (_, fresh, e2) =
        >>=-eq-ok (throw_if (not (is_customer n.kind) || contains id seen) invalid_argument) _ e1 in
      let rest = see_customers-ok i ids ((id, tt) ∷ seen) later e2 in
      let absent = throw_if-ok _ _ fresh in
      (omega (arith, rest.0), λ a. ground (arith, rest.1 a, absent, eqb_ℤ_iff id a))

  module _ (i : Instance D) (v : IsBuilt i) where
    see_customers-customers :
        (ids : List ℤ) (seen later : IdSet)
        → see_customers i ids seen ≡ ok later
        → (a : ℤ) → 1 ≤ count a ids
        → 1 ≤ count a i.customer_ids
    unfolding see_customers count
    see_customers-customers [] seen later e a h = absurd (omega arith)
    see_customers-customers (id ∷ ids) seen later e a h =
        let (n, at_id, e1) = >>=-eq-ok (node i id) _ e in
        let (_, fresh, e2) =
          >>=-eq-ok (throw_if (not (is_customer n.kind) || contains id seen) invalid_argument) _
            e1 in
        let kind : is_customer n.kind ≡ true = ground (arith, throw_if-ok _ _ fresh) in
        elim (Bool-cases (eqb_ℤ id a)) [
          | inl same ↦
              rw (← (eqb_ℤ_iff id a).0 same) (omega (arith, count_of_customer i v id n at_id kind))
          | inr other ↦
              see_customers-customers ids ((id, tt) ∷ seen) later e2 a (ground (arith, other, h))
        ]

    see_customers-runs :
        (ids : List ℤ) (seen : IdSet)
        → ((a : ℤ) → 1 ≤ count a ids → 1 ≤ count a i.customer_ids)
        → ((a : ℤ) → count a ids + to_nat (contains a seen) ≤ 1)
        → (later : IdSet) × (see_customers i ids seen ≡ ok later)
    unfolding see_customers count contains
    see_customers-runs [] seen c u = (seen, refl)
    see_customers-runs (id ∷ ids) seen c u =
        let (n, at_id, kind) = customer_of_count i v id (c id (ground (arith, eqb_ℤ_iff id id))) in
        let fresh : contains id seen ≡ false = ground (arith, u id, eqb_ℤ_iff id id) in
        let (later, e) =
          see_customers-runs ids ((id, tt) ∷ seen) (λ a h. c a (omega arith))
            (λ a. ground (arith, u a, u id, eqb_ℤ_iff id a)) in
        (later, rw (see_customers, at_id, kind, fresh) e)

    -- The loop over the plans, in both directions.
    see_plans-ok :
        (plans : List (Plan D)) (seen later : IdSet)
        → see_plans i plans seen ≡ ok later
        → All IsConsistent plans
          × (length later ≡ length (plan_customers plans) + length seen)
          × ((a : ℤ)
              → to_nat (contains a later)
                ≡ count a (plan_customers plans) + to_nat (contains a seen))
          × ((a : ℤ) → 1 ≤ count a (plan_customers plans) → 1 ≤ count a i.customer_ids)
    unfolding see_plans plan_customers count
    see_plans-ok [] seen later e =
        let same : seen ≡ later = cc in
        (tt, rw same (omega arith), (λ a. rw same (omega arith)), λ a h. absurd (omega arith))
    see_plans-ok (plan ∷ plans) seen later e =
        let (_, consistent, e1) = >>=-eq-ok (consistent_plan plan) _ e in
        let (middle, customers, e2) = >>=-eq-ok (see_customers i plan.customer_ids seen) _ e1 in
        let (more, counted) = see_customers-ok i plan.customer_ids seen middle customers in
        let (rest, longer, counts, known) = see_plans-ok plans middle later e2 in
        (
          ((consistent_plan-ok plan).0 consistent, rest),
          omega (arith, more, longer, length-append plan.customer_ids (plan_customers plans)),
          (λ a. omega (
            arith,
            counted a,
            counts a,
            count-append a plan.customer_ids (plan_customers plans),
          )),
          λ a h. elim (le_or_lt 1 (count a plan.customer_ids)) [
            | inl here ↦ see_customers-customers plan.customer_ids seen middle customers a here
            | inr later ↦
                known a
                  (omega (arith, h, later, count-append a plan.customer_ids (plan_customers plans)))
          ],
        )

    see_plans-runs :
        (plans : List (Plan D)) (seen : IdSet)
        → All IsConsistent plans
        → ((a : ℤ) → 1 ≤ count a (plan_customers plans) → 1 ≤ count a i.customer_ids)
        → ((a : ℤ) → count a (plan_customers plans) + to_nat (contains a seen) ≤ 1)
        → (later : IdSet) × (see_plans i plans seen ≡ ok later)
    unfolding see_plans plan_customers count
    see_plans-runs [] seen h c u = (seen, refl)
    see_plans-runs (plan ∷ plans) seen h c u =
        let split = λ (a : ℤ). count-append a plan.customer_ids (plan_customers plans) in
        let (middle, e1) =
          see_customers-runs plan.customer_ids seen (λ a k. c a (omega (arith, split a)))
            (λ a. omega (arith, split a, u a)) in
        let (more, counted) = see_customers-ok i plan.customer_ids seen middle e1 in
        let (later, e2) =
          see_plans-runs plans middle h.1 (λ a k. c a (omega (arith, split a)))
            (λ a. omega (arith, split a, u a, counted a)) in
        (later, rw (see_plans, (consistent_plan-ok plan).1 h.0, e1) e2)

    partition_sound :
        (s : Solution D)
        → validate_partition i s ≡ ok tt
        → All IsConsistent s.plans
          × ((a : ℤ) → count a (plan_customers s.plans) ≡ count a i.customer_ids)
    unfolding validate_partition contains
    partition_sound s e =
        let (seen, plans, e1) = >>=-eq-ok (see_plans i s.plans []) _ e in
        let (_, _, e2) =
          >>=-eq-ok (throw_if (not (nat_eq (length seen) (length i.customer_ids))) invalid_argument)
            _ e1 in
        let (consistent, _, counts, known) = see_plans-ok s.plans [] seen plans in
        let all_there : all_seen seen i.customer_ids ≡ true = ground (arith, throw_if-ok _ _ e2) in
        (
          consistent,
          λ a. elim (le_or_lt 1 (count a i.customer_ids)) [
            | inl customer ↦
                let there = all_seen-count seen i.customer_ids all_there a customer in
                ground (arith, there, counts a, customer, customers_le i v a)
            | inr other ↦ elim (le_or_lt 1 (count a (plan_customers s.plans))) [
              | inl served ↦ absurd (omega (arith, known a served, other))
              | inr unserved ↦ omega (arith, other, unserved)
            ]
          ],
        )

    partition_complete :
        (s : Solution D)
        → All IsConsistent s.plans
        → ((a : ℤ) → count a (plan_customers s.plans) ≡ count a i.customer_ids)
        → validate_partition i s ≡ ok tt
    unfolding validate_partition contains
    partition_complete s consistent same =
        let (seen, plans) =
          see_plans-runs s.plans [] consistent (λ a h. rw (same a) at h)
            (λ a. omega (arith, same a, customers_le i v a)) in
        let (_, longer, counts, _) = see_plans-ok s.plans [] seen plans in
        let long : length seen ≡ length i.customer_ids =
          omega (arith, longer, length_of_counts (plan_customers s.plans) i.customer_ids same) in
        let there : all_seen seen i.customer_ids ≡ true =
          all_seen-of seen i.customer_ids (λ a h. ground (arith, counts a, same a, h)) in
        rw
          (
            validate_partition,
            plans,
            (nat_eq_iff (length seen) (length i.customer_ids)).1 long,
            there,
          )
          refl

module _ {D : Type 0} ⦃d : Double D⦄ where
  -- On an instance that the constructor has returned, `validate_partition` returns exactly when
  -- every plan serves a customer and has as its route its customers between its gaps, and the
  -- plans together serve every customer of the instance once and nothing else.
  pub validate_partition_iff :
      (name dataset : Text) (nodes : List (Node D)) (vehicle : Vehicle D)
      (curves : List (Text × ChargingCurve D)) (i : Instance D)
      → new_instance name dataset nodes vehicle curves ≡ ok i
      → (s : Solution D)
      → (validate_partition i s ≡ ok tt) ↔ (
          All IsConsistent s.plans
          × ((a : ℤ) → count a (plan_customers s.plans) ≡ count a i.customer_ids))
  validate_partition_iff name dataset nodes vehicle curves i returned s =
      let built = new_instance-IsBuilt name dataset nodes vehicle curves i returned in
      (partition_sound i built s, λ h. partition_complete i built s h.0 h.1)
