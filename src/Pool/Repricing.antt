-- ===== src/Pool/Repricing.antt =====
-- `RoutePool::update_duals` and `RoutePool::reprice_backup` of src/pool.cpp.
use ils_sp.Prelude.{
  ◌+◌, ◌≤◌, ◌≡◌, refl, Bool, true, false, not, Bool-cases, inl, inr, List, [], ◌∷◌, All, length,
  if◌then◌else◌, to_nat, arith, Result, ok, List_eq,
}
use ils_sp.Prelude.Int.{ℤ, ℤ_eq}
use ils_sp.Double.{Double, IsOrdered, nought}
use ils_sp.Maps.{erase, Distinct-erase, All-erase, contains-erase}
use ils_sp.Pool.{
  counted_up, Key, RouteColumn, RoutePool, PoolRepriceUpdate, column_key, reduced_cost,
}
use ils_sp.Pool.Upkeep.{
  insert_column, sort_columns, repricing_candidates, admit_candidates, reprice_candidates,
  reprice_backup, update_duals,
}
use ils_sp.Pool.Index.{Comparable}
use ils_sp.Pool.Invariant.{IsValid, retag-IsValid}
use ils_sp.Pool.Admission.{admit_total}

module _ {D : Type 0} ⦃d : Double D⦄ where
  insert_column-All :
      (P : RouteColumn D → Type 0) (less : RouteColumn D → RouteColumn D → Bool) (c : RouteColumn D)
      (cs : List (RouteColumn D))
      → P c
      → All P cs
      → All P (insert_column less c cs)
  unfolding insert_column
  insert_column-All P less c [] h hs = (h, hs)
  insert_column-All P less c (x ∷ xs) h hs = elim (Bool-cases (less x c)) [
    | inl e ↦ rw (e, insert_column) (hs.0, insert_column-All P less c xs h hs.1)
    | inr e ↦ rw (e, insert_column) (h, hs)
  ]

  sort_columns-All :
      (P : RouteColumn D → Type 0) (less : RouteColumn D → RouteColumn D → Bool)
      (cs : List (RouteColumn D))
      → All P cs
      → All P (sort_columns less cs)
  unfolding sort_columns
  sort_columns-All P less [] hs = hs
  sort_columns-All P less (c ∷ cs) hs =
      insert_column-All P less c (sort_columns less cs) hs.0 (sort_columns-All P less cs hs.1)

  repricing_candidates-All :
      (P : RouteColumn D → Type 0) (p : RoutePool D) (m : List (Key × RouteColumn D))
      → All (λ e. P e.1) m
      → All P (repricing_candidates p m)
  unfolding repricing_candidates
  repricing_candidates-All P p [] hs = hs
  repricing_candidates-All P p ((k, c) ∷ m) hs =
      elim (Bool-cases (d.lt (reduced_cost c p.duals) (d.sub nought p.tolerance))) [
        | inl e ↦ rw (e, repricing_candidates) (hs.0, repricing_candidates-All P p m hs.1)
        | inr e ↦ rw (e, repricing_candidates) (repricing_candidates-All P p m hs.1)
      ]

  module _ (ordered : IsOrdered D) where
    -- The backup may lose any column.
    unbacked-IsValid :
        (key : Key) (p : RoutePool D)
        → IsValid ordered p
        → IsValid ordered (record p { backup = erase key p.backup })
    unbacked-IsValid key p v = record {
      consistent = record {
        distinct_main = v.consistent.distinct_main;
        distinct_backup = Distinct-erase key p.backup v.consistent.distinct_backup;
        distinct_protected = v.consistent.distinct_protected;
        keyed = v.consistent.keyed;
        comparable_main = v.consistent.comparable_main;
        comparable_backup =
            All-erase (λ e. Comparable e.1.cost_h) key p.backup v.consistent.comparable_backup;
        indexed = v.consistent.indexed;
        apart = λ k h. ground (
          arith,
          contains-erase key k p.backup v.consistent.distinct_backup,
          v.consistent.apart k h,
        );
        counted = v.consistent.counted;
      };
      kept = v.kept;
      few = v.few;
      bounded = v.bounded;
    }

    -- New dual values leave the pool valid.
    pub update_duals-IsValid :
        (duals : List (ℤ × D)) (p : RoutePool D)
        → IsValid ordered p
        → IsValid ordered (update_duals duals p)
    unfolding update_duals
    update_duals-IsValid duals p v = record {
      consistent = record {
        distinct_main = v.consistent.distinct_main;
        distinct_backup = v.consistent.distinct_backup;
        distinct_protected = v.consistent.distinct_protected;
        keyed = v.consistent.keyed;
        comparable_main = v.consistent.comparable_main;
        comparable_backup = v.consistent.comparable_backup;
        indexed = v.consistent.indexed;
        apart = v.consistent.apart;
        counted = v.consistent.counted;
      };
      kept = v.kept;
      few = v.few;
      bounded = v.bounded;
    }

    to_nat_le : (b : Bool) → to_nat b ≤ 1
    to_nat_le true = omega arith
    to_nat_le false = omega arith

    admit_candidates_total :
        (cs : List (RouteColumn D)) (update : PoolRepriceUpdate) (p : RoutePool D)
        → All (λ c. Comparable c.cost_h) cs
        → IsValid ordered p
        → (r : PoolRepriceUpdate × RoutePool D) × (admit_candidates cs update p ≡ ok r)
          × (r.0.promoted ≤ update.promoted + length cs)
          × (r.0.candidates ≡ update.candidates)
          × IsValid ordered r.1
    unfolding admit_candidates
    admit_candidates_total [] update p fine v = ((update, p), refl, omega arith, refl, v)
    admit_candidates_total (c ∷ cs) update p fine v =
        let ((admitted, q), ran, w) =
          admit_total ordered c (record p { backup = erase (column_key p c) p.backup }) fine.0
            (unbacked-IsValid (column_key p c) p v) in
        let (r, rest, few, same, x) =
          admit_candidates_total cs
            (record update {
              promoted = update.promoted + to_nat admitted.main;
              effective_coverage_improvements =
                  update.effective_coverage_improvements
                  + to_nat admitted.effective_coverage_improvement;
            })
            q fine.1 w in
        (r, rw (ran, rest), omega (arith, few, to_nat_le admitted.main), same, x)

    abbrev Repriced : Result (PoolRepriceUpdate × RoutePool D) → Type 0
    Repriced call =
        (r : PoolRepriceUpdate × RoutePool D) × (call ≡ ok r)
        × (r.0.promoted ≤ r.0.candidates)
        × IsValid ordered r.1

    reprice_candidates_total :
        (cs : List (RouteColumn D)) (p : RoutePool D)
        → All (λ c. Comparable c.cost_h) cs
        → IsValid ordered p
        → Repriced (reprice_candidates cs p)
    unfolding reprice_candidates
    reprice_candidates_total cs p fine v =
        let (r, ran, few, same, w) =
          admit_candidates_total cs
            (record { candidates = length cs; promoted = 0; effective_coverage_improvements = 0 })
            (record p {
              statistics = record p.statistics {
                repricing_candidates = counted_up p.statistics.repricing_candidates (length cs);
              };
            })
            fine (retag-IsValid ordered p _ refl v) in
        let final : PoolRepriceUpdate × RoutePool D = (
          r.0,
          record r.1 {
            statistics = record r.1.statistics {
              repricing_promotions = counted_up r.1.statistics.repricing_promotions r.0.promoted;
            };
          },
        ) in
        (final, rw ran, omega (arith, few, same), retag-IsValid ordered r.1 _ refl w)

    either_Repriced :
        (b : Bool) (x y : Result (PoolRepriceUpdate × RoutePool D))
        → Repriced x
        → Repriced y
        → Repriced (if b then x else y)
    either_Repriced true x y h k = h
    either_Repriced false x y h k = k

    -- On a valid pool, repricing the backup never throws, leaves the pool valid, and promotes no
    -- more columns than it has candidates.
    pub reprice_backup_total :
        (p : RoutePool D)
        → IsValid ordered p
        → (r : PoolRepriceUpdate × RoutePool D) × (reprice_backup p ≡ ok r)
          × (r.0.promoted ≤ r.0.candidates)
          × IsValid ordered r.1
    unfolding reprice_backup
    reprice_backup_total p v =
        either_Repriced (not p.duals_valid) _ _ (_, refl, omega arith, v)
          (reprice_candidates_total _ p
            (sort_columns-All (λ c. Comparable c.cost_h) _ _
              (repricing_candidates-All (λ c. Comparable c.cost_h) p p.backup
                v.consistent.comparable_backup))
            v)
