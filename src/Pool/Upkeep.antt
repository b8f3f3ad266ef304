-- ===== src/Pool/Upkeep.antt =====
-- The other public operations of `RoutePool` in src/pool.cpp: repricing, the dual values, the
-- protected partition, and the two sorted listings.
use ils_sp.Prelude.{
  ℕ, zero, suc, ◌+◌, Bool, true, false, not, ◌||◌, none, some, List, [], ◌∷◌, length, map,
  if◌then◌else◌, ltb, to_nat, ◌==◌, List_eq, Result, ok, throw, invalid_argument, ◌>>=◌, ◌>>◌,
  throw_if,
}
use ils_sp.Prelude.Int.{ℤ, ℤ_eq}
use ils_sp.Double.{Double, nought, feq}
use ils_sp.Core.{Plan, Solution, solution_feasible, sorted_customer_set, list_less}
use ils_sp.Maps.{find, contains, erase}
use ils_sp.Pool.{
  counted_up, Key, PoolIdentity, ordered_sequence, customer_coverage, RouteColumn,
  PoolRepriceUpdate, RoutePool, reduced_cost, column_rank_less, incumbent_dominates, from_plan,
  column_key, best_coverage_cost, coverage_improved, put_main, demote_main, record_improvement,
  worst_main,
}
use ils_sp.Pool.Methods.{admit}

module _ {D : Type 0} ⦃d : Double D⦄ where
  -- `std::sort` by a comparison of columns.
  unfoldable pub insert_column :
      (RouteColumn D → RouteColumn D → Bool)
      → RouteColumn D
      → List (RouteColumn D)
      → List (RouteColumn D)
  insert_column less c [] = c ∷ []
  insert_column less c (x ∷ xs) = if less x c then x ∷ insert_column less c xs else c ∷ x ∷ xs

  unfoldable pub sort_columns :
      (RouteColumn D → RouteColumn D → Bool) → List (RouteColumn D) → List (RouteColumn D)
  unfolding insert_column
  sort_columns less [] = []
  sort_columns less (c ∷ cs) = insert_column less c (sort_columns less cs)

  -- The loop of `reprice_backup` that collects the candidates.
  unfoldable pub repricing_candidates :
      RoutePool D → List (Key × RouteColumn D) → List (RouteColumn D)
  repricing_candidates p [] = []
  repricing_candidates p ((_, column) ∷ rest) =
      let later = repricing_candidates p rest in
      if d.lt (reduced_cost column p.duals) (d.sub nought p.tolerance)
      then column ∷ later
      else later

  -- The loop that erases each candidate from the backup and admits it.
  unfoldable pub admit_candidates :
      List (RouteColumn D)
      → PoolRepriceUpdate
      → RoutePool D
      → Result (PoolRepriceUpdate × RoutePool D)
  admit_candidates [] update p = ok (update, p)
  admit_candidates (candidate ∷ rest) update p = do
    (admitted, q) ← admit candidate (record p { backup = erase (column_key p candidate) p.backup })
    admit_candidates rest
        (record update {
          promoted = update.promoted + to_nat admitted.main;
          effective_coverage_improvements =
              update.effective_coverage_improvements
              + to_nat admitted.effective_coverage_improvement;
        })
        q

  -- `reprice_backup` behind its test: the part on the sorted candidates, and the whole.
  unfoldable pub reprice_candidates :
      List (RouteColumn D) → RoutePool D → Result (PoolRepriceUpdate × RoutePool D)
  reprice_candidates candidates p = do
    (update, q) ←
        admit_candidates candidates
          (record {
            candidates = length candidates;
            promoted = 0;
            effective_coverage_improvements = 0;
          })
          (record p {
            statistics = record p.statistics {
              repricing_candidates =
                  counted_up p.statistics.repricing_candidates (length candidates);
            };
          })
    ok (
      update,
      record q {
        statistics = record q.statistics {
          repricing_promotions = counted_up q.statistics.repricing_promotions update.promoted;
        };
      },
    )

  unfoldable pub reprice_backup : RoutePool D → Result (PoolRepriceUpdate × RoutePool D)
  reprice_backup p =
      if not p.duals_valid
      then ok (record { candidates = 0; promoted = 0; effective_coverage_improvements = 0 }, p)
      else reprice_candidates
          (sort_columns (λ left right. column_rank_less left right p.duals)
            (repricing_candidates p p.backup))
          p

  -- `update_duals`.
  unfoldable pub update_duals : List (ℤ × D) → RoutePool D → RoutePool D
  update_duals duals p = record p { duals = duals; duals_valid = true }

  -- The key that `protect_partition` takes of a plan.
  unfoldable pub protected_key : PoolIdentity → Plan D → Key
  protected_key customer_coverage plan = sorted_customer_set plan.customer_ids
  protected_key ordered_sequence plan = plan.customer_ids

  -- The loop that collects the keys, which must not repeat.
  unfoldable pub collect_protected :
      PoolIdentity → List (Plan D) → List (Key × Unit {0}) → Result (List (Key × Unit {0}))
  collect_protected identity [] keys = ok keys
  collect_protected identity (plan ∷ plans) keys =
      let key = protected_key identity plan in
      if contains key keys
      then throw invalid_argument
      else collect_protected identity plans ((key, tt) ∷ keys)

  -- The body of the loop that stores the partition's columns, on the column, and on its plan.
  unfoldable pub main_dominates : RouteColumn D → RoutePool D → Bool
  main_dominates candidate p = elim (find (column_key p candidate) p.main) [
    | none ↦ false
    | some incumbent ↦ incumbent_dominates incumbent candidate p.tolerance
  ]

  unfoldable pub store_candidate : RouteColumn D → RoutePool D → Result (RoutePool D)
  store_candidate candidate p =
      let before = best_coverage_cost p candidate.customer_set in
      if main_dominates candidate p then ok p else do
        q ← put_main candidate p
        ok (
            record_improvement
              (coverage_improved p before (best_coverage_cost q candidate.customer_set)) q)

  unfoldable pub store_protected : Plan D → RoutePool D → Result (RoutePool D)
  store_protected plan p = do candidate ← from_plan plan; store_candidate candidate p

  unfoldable pub store_all : List (Plan D) → RoutePool D → Result (RoutePool D)
  store_all [] p = ok p
  store_all (plan ∷ plans) p = do q ← store_protected plan p; store_all plans q

  -- `while (main_.size() > capacity_) demote_main(worst_main());` on as many rounds as there are
  -- columns: each round takes one column out.
  unfoldable pub shrink : ℕ → RoutePool D → Result (RoutePool D)
  shrink zero p = ok p
  shrink (suc rounds) p = elim (ltb p.capacity (length p.main)) [
    | false ↦ ok p
    | true ↦ do worst ← worst_main p; q ← demote_main worst p; shrink rounds q
  ]

  -- `protect_partition`.
  unfoldable pub protect_partition : Solution D → RoutePool D → Result (RoutePool D)
  protect_partition solution p = do
    throw_if (not (solution_feasible solution) || ltb p.capacity (length solution.plans))
        invalid_argument
    keys ← collect_protected p.identity solution.plans []
    q ← store_all solution.plans (record p { protected_sequences = keys })
    shrink (length q.main) q

  -- `main_columns` and `backup_columns`.
  unfoldable pub listing_less : RouteColumn D → RouteColumn D → Bool
  listing_less left right =
      if not (left.customer_set == right.customer_set)
      then list_less left.customer_set right.customer_set
      else if not (feq left.cost_h right.cost_h)
      then d.lt left.cost_h right.cost_h
      else list_less left.signature right.signature

  unfoldable pub main_columns : RoutePool D → List (RouteColumn D)
  main_columns p = sort_columns listing_less (map (λ e. e.1) p.main)

  unfoldable pub backup_columns : RoutePool D → List (RouteColumn D)
  backup_columns p =
      sort_columns (λ left right. column_rank_less left right p.duals) (map (λ e. e.1) p.backup)

  -- `distinct_main_coverages`.
  unfoldable pub distinct_main_coverages : RoutePool D → ℕ
  distinct_main_coverages p = length p.coverage_costs
