-- ===== src/Pool/Protection.antt =====
-- `RoutePool::protect_partition` of src/pool.cpp.
use ils_sp.Prelude.{
  ℕ, zero, suc, ◌+◌, ◌≤◌, ◌<◌, ◌≡◌, refl, sym, ap, ◌∙◌, ◌⊎◌, Bool, true, false, not, ◌||◌,
  Bool-cases, Option-cases, inl, inr, none, List, [], ◌∷◌, map, All, In, length, ltb, ltb→lt,
  nat_eq, arith, ok, ◌==◌, List_eq, list_eq_iff, beq_refl,
}
use mathlib.Core.Path.{subst}
use ils_sp.Prelude.Int.{ℤ_eq}
use ils_sp.Double.{Double, IsOrdered}
use ils_sp.Core.{Plan, Solution, solution_feasible, plan_feasible, sorted_customer_set}
use ils_sp.Maps.{find, contains, Distinct, contains-assign, contains-find}
use ils_sp.Pool.{
  Key, PoolIdentity, ordered_sequence, customer_coverage, RouteColumn, RoutePool, from_plan, key_of,
  column_key, stored, best_coverage_cost, coverage_improved, record_improvement,
}
use ils_sp.Pool.Upkeep.{
  protected_key, collect_protected, main_dominates, store_candidate, store_protected, store_all,
  shrink, protect_partition,
}
use ils_sp.Pool.Index.{Comparable}
use ils_sp.Pool.Invariant.{
  IsConsistent, IsValid, Keeps, put_main_total, record_improvement-IsConsistent,
}
use ils_sp.Pool.Demotion.{worst_main_total, demote_main_total}
use ils_sp.Pool.Admission.{evicted-Keeps, evicted_length}

module _ {D : Type 0} ⦃d : Double D⦄ where
  -- `RouteColumn::from_plan` takes the plan, and its cost is no NaN.
  abbrev pub Storable : Plan D → Type 0
  Storable plan = (column : RouteColumn D) × (from_plan plan ≡ ok column) × Comparable column.cost_h

  from_plan-fields :
      (plan : Plan D) (column : RouteColumn D)
      → from_plan plan ≡ ok column
      → (column.plan ≡ plan) × (column.customer_set ≡ sorted_customer_set plan.customer_ids)
  unfolding from_plan
  from_plan-fields plan column e =
      elim (Bool-cases (not (plan_feasible plan) || nat_eq (length plan.customer_ids) 0)) [
        | inl bad ↦ absurd (cc (rw bad at e))
        | inr good ↦
            elim (Bool-cases (
              not (
                nat_eq (length (sorted_customer_set plan.customer_ids))
                  (length plan.customer_ids)))) [
                    | inl repeated ↦ absurd (cc (rw (good, repeated) at e))
                    | inr once ↦ ground (arith, rw (good, once) at e)
                  ]
      ]

  from_plan-key :
      (identity : PoolIdentity) (plan : Plan D) (column : RouteColumn D)
      → from_plan plan ≡ ok column
      → key_of identity column ≡ protected_key identity plan
  unfolding key_of protected_key
  from_plan-key ordered_sequence plan column e =
      ap (λ (x : Plan D). x.customer_ids) (from_plan-fields plan column e).0
  from_plan-key customer_coverage plan column e = (from_plan-fields plan column e).1

  -- The keys that are collected are those of the plans, none of them twice.
  collect_protected_lem :
      (identity : PoolIdentity) (plans : List (Plan D)) (before keys : List (Key × Unit {0}))
      → Distinct before
      → collect_protected identity plans before ≡ ok keys
      → Distinct keys
        × (length keys ≡ length plans + length before)
        × ((k : Key)
            → contains k keys ≡ true
            → (contains k before ≡ true) ⊎ In k (map (protected_key identity) plans))
  unfolding collect_protected contains
  collect_protected_lem identity [] before keys distinct e =
      let same : before ≡ keys = cc in
      (
        subst (λ x. Distinct x) same distinct,
        omega (arith, ap length same),
        λ k h. inl (rw (ap (contains k) same) h),
      )
  collect_protected_lem identity (plan ∷ plans) before keys distinct e =
      elim (Bool-cases (contains (protected_key identity plan) before)) [
        | inl again ↦ absurd (cc (rw again at e))
        | inr fresh ↦
            let (apart, size, from) =
              collect_protected_lem identity plans ((protected_key identity plan, tt) ∷ before) keys
                (fresh, distinct) (rw fresh at e) in
            (
              apart,
              omega (arith, size),
              λ k h. elim (from k h) [
                | inr later ↦ inr (inr later)
                | inl now ↦ elim (Bool-cases (protected_key identity plan == k)) [
                  | inl here ↦
                      inr (inl (sym ((list_eq_iff (protected_key identity plan) k).0 here)))
                  | inr other ↦ inl (rw other at now)
                ]
              ],
            )
      ]

  module _ (ordered : IsOrdered D) where
    -- A step that leaves the settings and loses no main key.
    record Grown (p q : RoutePool D) : Type 0 where
      consistent : IsConsistent ordered q
      same_capacity : q.capacity ≡ p.capacity
      same_identity : q.identity ≡ p.identity
      same_protected : q.protected_sequences ≡ p.protected_sequences
      grown : (k : Key) → contains k p.main ≡ true → contains k q.main ≡ true

    stored-Grown :
        (column : RouteColumn D) (index : List (Key × List D)) (p : RoutePool D) (improved : Bool)
        → IsConsistent ordered (stored column index p)
        → Grown p (record_improvement improved (stored column index p))
          × (contains
                (column_key p column)
                (record_improvement improved (stored column index p)).main
              ≡ true)
    unfolding stored record_improvement
    stored-Grown column index p improved v = (
      record {
        consistent = record_improvement-IsConsistent ordered improved _ v;
        same_capacity = ground arith;
        same_identity = ground arith;
        same_protected = ground arith;
        grown = λ k h. ground (arith, contains-assign (column_key p column) k column p.main, h);
      },
      ground (
        arith,
        contains-assign (column_key p column) (column_key p column) column p.main,
        beq_refl (column_key p column),
      ),
    )

    Grown-refl : (p : RoutePool D) → IsConsistent ordered p → Grown p p
    Grown-refl p v = record {
      consistent = v;
      same_capacity = refl;
      same_identity = refl;
      same_protected = refl;
      grown = λ k h. h;
    }

    dominated_absent :
        (column : RouteColumn D) (p : RoutePool D)
        → find (column_key p column) p.main ≡ none
        → main_dominates column p ≡ true
        → ⊥
    unfolding main_dominates
    dominated_absent column p absent e = ground (arith, absent, e)

    main_dominates-contains :
        (column : RouteColumn D) (p : RoutePool D)
        → main_dominates column p ≡ true
        → contains (column_key p column) p.main ≡ true
    unfolding main_dominates
    main_dominates-contains column p e = elim (Option-cases (find (column_key p column) p.main)) [
      | inl absent ↦ absurd (dominated_absent column p absent e)
      | inr (incumbent, present) ↦ contains-find (column_key p column) p.main incumbent present
    ]

    store_candidate_total :
        (column : RouteColumn D) (p : RoutePool D)
        → Comparable column.cost_h
        → IsConsistent ordered p
        → (q : RoutePool D) × (store_candidate column p ≡ ok q)
          × Grown p q
          × (contains (column_key p column) q.main ≡ true)
    unfolding store_candidate
    store_candidate_total column p fine v = elim (Bool-cases (main_dominates column p)) [
      | inl worse ↦ (p, rw worse, Grown-refl p v, main_dominates-contains column p worse)
      | inr better ↦
          let (index, ran, c) = put_main_total ordered column p fine v in
          let (g, here) =
            stored-Grown column index p
              (coverage_improved p (best_coverage_cost p column.customer_set)
                (best_coverage_cost (stored column index p) column.customer_set))
              c in
          (_, rw (better, ran), g, here)
    ]

    -- A plan of the partition is in the main pool once its column is stored or dominated.
    store_protected_total :
        (plan : Plan D) (p : RoutePool D)
        → Storable plan
        → IsConsistent ordered p
        → (q : RoutePool D) × (store_protected plan p ≡ ok q)
          × Grown p q
          × (contains (protected_key p.identity plan) q.main ≡ true)
    unfolding store_protected
    store_protected_total plan p (column, made, fine) v =
        let (q, ran, g, here) = store_candidate_total column p fine v in
        (q, rw (made, ran), g, rw (from_plan-key p.identity plan column made) at here)

    store_all_total :
        (plans : List (Plan D)) (p : RoutePool D)
        → All Storable plans
        → IsConsistent ordered p
        → (q : RoutePool D) × (store_all plans p ≡ ok q)
          × Grown p q
          × ((k : Key) → In k (map (protected_key p.identity) plans) → contains k q.main ≡ true)
    unfolding store_all
    store_all_total [] p fine v = (
      p,
      refl,
      record {
        consistent = v;
        same_capacity = refl;
        same_identity = refl;
        same_protected = refl;
        grown = λ k h. h;
      },
      λ k h. absurd h,
    )
    store_all_total (plan ∷ plans) p (fine, fines) v =
        let (q, ran, g, here) = store_protected_total plan p fine v in
        let (r, rest, h, there) = store_all_total plans q fines g.consistent in
        (
          r,
          rw (ran, rest),
          record {
            consistent = h.consistent;
            same_capacity = h.same_capacity ∙ g.same_capacity;
            same_identity = h.same_identity ∙ g.same_identity;
            same_protected = h.same_protected ∙ g.same_protected;
            grown = λ k e. h.grown k (g.grown k e);
          },
          λ k i. elim i [
            | inl same ↦ h.grown k (rw same here)
            | inr later ↦ there k (rw g.same_identity later)
          ],
        )

    -- Each round of the loop takes out one column, so that as many rounds as there are columns
    -- above the capacity are enough.
    shrink_total :
        (rounds : ℕ) (p : RoutePool D)
        → IsConsistent ordered p
        → Keeps ordered p
        → length p.protected_sequences ≤ p.capacity
        → length p.main ≤ p.capacity + rounds
        → (q : RoutePool D) × (shrink rounds p ≡ ok q)
          × IsValid ordered q
          × (q.protected_sequences ≡ p.protected_sequences)
          × (q.identity ≡ p.identity)
    unfolding shrink
    shrink_total zero p v h few bound = (
      p,
      refl,
      record { consistent = v; kept = h; few = few; bounded = omega (arith, bound) },
      refl,
      refl,
    )
    shrink_total (suc rounds) p v h few bound = elim (Bool-cases (ltb p.capacity (length p.main))) [
      | inr fits ↦ (
        p,
        rw (fits, shrink),
        record { consistent = v; kept = h; few = few; bounded = ground (arith, fits) },
        refl,
        refl,
      )
      | inl over ↦
          let above : p.capacity < length p.main = ltb→lt _ _ over in
          let (e, picked, free, found) =
            worst_main_total p v.distinct_main v.distinct_protected (omega (arith, above, few)) in
          let (q, ran, out) = demote_main_total ordered e p found v in
          let (r, rest, w, prot, same) =
            shrink_total rounds q out.consistent (evicted-Keeps ordered e.0 p q h v free out)
              (rw (out.same_capacity, out.same_protected) few)
              (omega (arith, evicted_length ordered e p q found out, bound, out.same_capacity)) in
          (
            r,
            rw (over, picked, ran, rest, shrink),
            w,
            prot ∙ out.same_protected,
            same ∙ out.same_identity,
          )
    ]

    nothing_contains : (k : Key) → contains {V = Unit {0}} k [] ≡ true → ⊥
    unfolding contains
    nothing_contains k e = cc

    reprotected-IsConsistent :
        (keys : List (Key × Unit {0})) (p : RoutePool D)
        → Distinct keys
        → IsConsistent ordered p
        → IsConsistent ordered (record p { protected_sequences = keys })
    reprotected-IsConsistent keys p distinct v = record {
      distinct_main = v.distinct_main;
      distinct_backup = v.distinct_backup;
      distinct_protected = distinct;
      keyed = v.keyed;
      comparable_main = v.comparable_main;
      comparable_backup = v.comparable_backup;
      indexed = v.indexed;
      apart = v.apart;
      counted = v.counted;
    }

    -- On a valid pool and a feasible partition of at most as many plans as the pool's capacity,
    -- whose plans make columns with distinct keys and costs that are no NaN, protecting it never
    -- throws, leaves the pool valid, and makes the keys collected from the plans the protected ones,
    -- which a valid pool has in its main pool.
    pub protect_partition_total :
        (solution : Solution D) (p : RoutePool D) (keys : List (Key × Unit {0}))
        → solution_feasible solution ≡ true
        → length solution.plans ≤ p.capacity
        → collect_protected p.identity solution.plans [] ≡ ok keys
        → All Storable solution.plans
        → IsValid ordered p
        → (q : RoutePool D) × (protect_partition solution p ≡ ok q)
          × IsValid ordered q
          × (q.protected_sequences ≡ keys)
    unfolding protect_partition
    protect_partition_total solution p keys feasible few collected fine v =
        let (distinct, size, from) =
          collect_protected_lem p.identity solution.plans [] keys tt collected in
        let (q, ran, g, there) =
          store_all_total solution.plans (record p { protected_sequences = keys }) fine
            (reprotected-IsConsistent keys p distinct v.consistent) in
        let kept : Keeps ordered q = λ k h. elim (from k (rw g.same_protected at h)) [
          | inl before ↦ absurd (nothing_contains k before)
          | inr wanted ↦ there k wanted
        ] in
        let (r, shrunk, w, prot, same) =
          shrink_total (length q.main) q g.consistent kept
            (rw (g.same_capacity, g.same_protected) (omega (arith, size, few))) (omega arith) in
        let guard : (not (solution_feasible solution) || ltb p.capacity (length solution.plans))
            ≡ false =
          ground (arith, feasible, few) in
        (r, rw (guard, collected, ran, shrunk), w, prot ∙ g.same_protected)
