-- ===== src/Pool/Columns.antt =====
-- `RouteColumn::from_plan` of src/pool.cpp: which plans make a column, and which column.
use ils_sp.Prelude.{
  ◌≤◌, ◌≡◌, ◌↔◌, true, not, ◌||◌, Bool-cases, inl, inr, length, nat_eq, nat_eq_iff, arith, ok,
}
use ils_sp.Prelude.Int.{ℤ}
use ils_sp.Double.{Double}
use ils_sp.Core.{Plan, plan_feasible, plan_cost, sorted_customer_set}
use ils_sp.Core.Sets.{count, sorted_customer_set-once, length-sorted_customer_set}
use ils_sp.Pool.{RouteColumn, from_plan}

module _ {D : Type 0} ⦃d : Double D⦄ where
  -- A plan that the set-partitioning model can use.
  pub record IsUsable (plan : Plan D) : Type 0 where
    pub feasible : plan_feasible plan ≡ true
    pub serves : ¬ (length plan.customer_ids ≡ 0)
    pub once : (a : ℤ) → count a plan.customer_ids ≤ 1

  abbrev pub column_of : Plan D → RouteColumn D
  column_of plan = record {
    plan = plan;
    customer_set = sorted_customer_set plan.customer_ids;
    cost_h = plan_cost plan;
    signature = plan.route.visits;
  }

  from_plan-IsUsable : (plan : Plan D) → IsUsable plan → from_plan plan ≡ ok (column_of plan)
  unfolding from_plan
  from_plan-IsUsable plan u = ground (
    arith,
    u.feasible,
    u.serves,
    length-sorted_customer_set plan.customer_ids u.once,
    nat_eq_iff (length plan.customer_ids) 0,
    nat_eq_iff (length (sorted_customer_set plan.customer_ids)) (length plan.customer_ids),
  )

  IsUsable-from_plan :
      (plan : Plan D) (column : RouteColumn D) → from_plan plan ≡ ok column → IsUsable plan
  unfolding from_plan
  IsUsable-from_plan plan column e =
      elim (Bool-cases (not (plan_feasible plan) || nat_eq (length plan.customer_ids) 0)) [
        | inl bad ↦ absurd (cc (rw bad at e))
        | inr good ↦
            elim (Bool-cases (
              not (
                nat_eq (length (sorted_customer_set plan.customer_ids))
                  (length plan.customer_ids)))) [
                    | inl repeated ↦ absurd (cc (rw (good, repeated) at e))
                    | inr same ↦ record {
                      feasible = ground (arith, good);
                      serves = ground (arith, good);
                      once = sorted_customer_set-once plan.customer_ids (ground (arith, same));
                    }
                  ]
      ]

  -- `from_plan` returns for the plans that are feasible, serve somebody and serve nobody twice, and
  -- for no others, and then the column has the plan's sorted customers, its cost and its visits.
  pub from_plan_iff :
      (plan : Plan D) (column : RouteColumn D)
      → (from_plan plan ≡ ok column) ↔ (IsUsable plan × (column ≡ column_of plan))
  from_plan_iff plan column = (
    λ e.
        let usable = IsUsable-from_plan plan column e in
        let made = from_plan-IsUsable plan usable in (usable, cc),
    λ h. let made = from_plan-IsUsable plan h.0 in cc (h.1, made),
  )
