-- ===== src/Pool/History.antt =====
-- The life of a `RoutePool` (src/pool.cpp): its constructor, and the public operations that return.
use ils_sp.Prelude.{
  ℕ, ◌≡◌, refl, Bool, true, false, not, ◌||◌, List, [], All, length, ltb, nat_eq, arith, Bool-cases,
  inl, inr, ok, Exception, invalid_argument, throw_if, >>=-eq-ok,
}
use mathlib.Core.Path.{subst}
use ils_sp.Prelude.Int.{ℤ}
use ils_sp.Double.{Double, IsOrdered, nought}
use ils_sp.Core.{Solution, solution_feasible}
use ils_sp.Maps.{find, contains}
use ils_sp.Pool.{
  PoolIdentity, RouteColumn, PoolUpdate, PoolRepriceUpdate, RoutePool, empty_pool, new_pool,
  costs_of,
}
use ils_sp.Pool.Methods.{admit}
use ils_sp.Pool.Upkeep.{reprice_backup, update_duals, protect_partition, collect_protected}
use ils_sp.Pool.Index.{Comparable, cost_count, main_count}
use ils_sp.Pool.Invariant.{IsValid}
use ils_sp.Pool.Admission.{admit_total}
use ils_sp.Pool.Repricing.{update_duals-IsValid, reprice_backup_total}
use ils_sp.Pool.Protection.{Storable, protect_partition_total}

module _ {D : Type 0} ⦃d : Double D⦄ where
  -- A public operation that returned. The costs of admitted columns, and of the columns that protected
  -- plans make, are no NaN.
  pub data Step : RoutePool D → RoutePool D → Type 0 where
    admits :
        {p q : RoutePool D} (column : RouteColumn D) (update : PoolUpdate)
        → Comparable column.cost_h
        → admit column p ≡ ok (update, q)
        → Step p q
    prices : {p : RoutePool D} (duals : List (ℤ × D)) → Step p (update_duals duals p)
    reprices :
        {p q : RoutePool D} (update : PoolRepriceUpdate)
        → reprice_backup p ≡ ok (update, q)
        → Step p q
    protects :
        {p q : RoutePool D} (solution : Solution D)
        → All Storable solution.plans
        → protect_partition solution p ≡ ok q
        → Step p q

  -- The pools that the constructor and such operations lead to.
  pub data Reachable : RoutePool D → Type 0 where
    created :
        {p : RoutePool D} (capacity : ℕ) (tolerance : D) (identity : PoolIdentity) (keep : Bool)
        → new_pool capacity tolerance identity keep ≡ ok p
        → Reachable p
    stepped : {p q : RoutePool D} → Reachable p → Step p q → Reachable q

  module _ (ordered : IsOrdered D) where
    empty_pool-IsValid :
        (capacity : ℕ) (tolerance : D) (identity : PoolIdentity) (keep : Bool)
        → IsValid ordered (empty_pool capacity tolerance identity keep)
    unfolding contains costs_of find cost_count main_count
    empty_pool-IsValid capacity tolerance identity keep = record {
      consistent = record {
        distinct_main = tt;
        distinct_backup = tt;
        distinct_protected = tt;
        keyed = tt;
        comparable_main = tt;
        comparable_backup = tt;
        indexed = record {
          distinct = tt;
          counted = λ coverage c h. refl;
          comparable = λ coverage. tt;
        };
        apart = λ k h. refl;
        counted = refl;
      };
      kept = λ k h. absurd cc;
      few = omega arith;
      bounded = omega arith;
    }

    new_pool-IsValid :
        (capacity : ℕ) (tolerance : D) (identity : PoolIdentity) (keep : Bool) (p : RoutePool D)
        → new_pool capacity tolerance identity keep ≡ ok p
        → IsValid ordered p
    unfolding new_pool
    new_pool-IsValid capacity tolerance identity keep p e =
        elim (Bool-cases
          (nat_eq capacity 0 || not (d.is_finite tolerance) || d.lt tolerance nought)) [
            | inl bad ↦ absurd (cc (rw bad at e))
            | inr good ↦
                let same : empty_pool capacity tolerance identity keep ≡ p = cc (rw good at e) in
                subst (λ x. IsValid ordered x) same
                  (empty_pool-IsValid capacity tolerance identity keep)
          ]

    throw_if-eq-ok :
        (bad : Bool) (x : Exception) {u : Unit {0}} → throw_if bad x ≡ ok u → bad ≡ false
    throw_if-eq-ok true x e = absurd cc
    throw_if-eq-ok false x e = refl

    protected-IsValid :
        (solution : Solution D) (p q : RoutePool D)
        → All Storable solution.plans
        → protect_partition solution p ≡ ok q
        → IsValid ordered p
        → IsValid ordered q
    unfolding protect_partition
    protected-IsValid solution p q fine e v =
        let (u, guard, e1) =
          >>=-eq-ok
            (throw_if (not (solution_feasible solution) || ltb p.capacity (length solution.plans))
              invalid_argument)
            _ e in
        let (keys, collected, e2) =
          >>=-eq-ok (collect_protected p.identity solution.plans []) _ e1 in
        let open_ = throw_if-eq-ok _ _ guard in
        let (r, ran, w, same) =
          protect_partition_total ordered solution p keys (ground (arith, open_))
            (ground (arith, open_)) collected fine v in
        subst (λ x. IsValid ordered x) (let same : r ≡ q = cc in same) w

    -- Such an operation leaves a valid pool valid.
    pub Step-IsValid : {p q : RoutePool D} → Step p q → IsValid ordered p → IsValid ordered q
    Step-IsValid {p = p} {q = q} (admits column update fine e) v =
        let (r, ran, w) = admit_total ordered column p fine v in
        subst (λ x. IsValid ordered x.1) (let same : r ≡ (update, q) = cc in same) w
    Step-IsValid {p = p} (prices duals) v = update_duals-IsValid ordered duals p v
    Step-IsValid {p = p} {q = q} (reprices update e) v =
        let (r, ran, few, w) = reprice_backup_total ordered p v in
        subst (λ x. IsValid ordered x.1) (let same : r ≡ (update, q) = cc in same) w
    Step-IsValid {p = p} {q = q} (protects solution fine e) v =
        protected-IsValid solution p q fine e v

    -- Where no admitted column and no column that a protected plan makes has a NaN as its cost: every
    -- pool that the constructor and the public operations that return lead to is valid, that is, within
    -- its capacity, with its protected sequences in the main pool, and the coverage index in step.
    pub Reachable-IsValid : {p : RoutePool D} → Reachable p → IsValid ordered p
    Reachable-IsValid {p = p} (created capacity tolerance identity keep e) =
        new_pool-IsValid capacity tolerance identity keep p e
    Reachable-IsValid (stepped before step) = Step-IsValid step (Reachable-IsValid before)
