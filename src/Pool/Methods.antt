-- ===== src/Pool/Methods.antt =====
-- `RoutePool::admit` in src/pool.cpp, a function for each of its branches.
use ils_sp.Prelude.{
  Bool, true, false, not, ◌&&◌, none, some, length, if◌then◌else◌, ltb, ◌==◌, List_eq, Result, ok,
  throw, out_of_range, ◌>>=◌,
}
use ils_sp.Prelude.Int.{ℤ_eq}
use ils_sp.Double.{Double, nought}
use ils_sp.Maps.{find}
use ils_sp.Pool.{
  counted_up, Key, ordered_sequence, customer_coverage, RouteColumn, PoolUpdate, RoutePool,
  rejected, reduced_cost, incumbent_dominates, column_key, best_coverage_cost, coverage_improved,
  put_main, put_backup, demote_main, record_improvement, worst_main,
}

module _ {D : Type 0} ⦃d : Double D⦄ where
  -- `++statistics_.dominated_rejections; return PoolUpdate{};`
  unfoldable pub reject : RoutePool D → PoolUpdate × RoutePool D
  reject p = (
    rejected,
    record p {
      statistics = record p.statistics {
        dominated_rejections = counted_up p.statistics.dominated_rejections 1;
      };
    },
  )

  -- `++statistics_.same_coverage_replacements` or `same_sequence_replacements`.
  unfoldable pub count_replacement : RoutePool D → RoutePool D
  count_replacement p = elim p.identity [
    | customer_coverage ↦ record p {
      statistics = record p.statistics {
        same_coverage_replacements = counted_up p.statistics.same_coverage_replacements 1;
      };
    }
    | ordered_sequence ↦ record p {
      statistics = record p.statistics {
        same_sequence_replacements = counted_up p.statistics.same_sequence_replacements 1;
      };
    }
  ]

  -- `main_.at(key)`.
  unfoldable pub main_at : Key → RoutePool D → Result (RouteColumn D)
  main_at key p = elim (find key p.main) [ none ↦ throw out_of_range | some column ↦ ok column ]

  -- The branch of `admit` for a key that the main pool has, and that is not dominated.
  unfoldable pub replace_incumbent :
      RouteColumn D → RouteColumn D → RoutePool D → Result (PoolUpdate × RoutePool D)
  replace_incumbent incumbent column p = do
    let before = best_coverage_cost p column.customer_set
    q ← put_main column p
    let counted : RoutePool D = count_replacement q
    stored ← main_at (column_key p column) counted
    let effective = coverage_improved p before (best_coverage_cost counted stored.customer_set)
    ok (
      record rejected {
        main = true;
        replaced_dominated = true;
        effective_coverage_improvement = effective;
        evicted_customer_sequence = some incumbent.plan.customer_ids;
      },
      record_improvement effective counted,
    )

  -- The branch for a main pool that is not full.
  unfoldable pub insert_below_capacity :
      RouteColumn D → RoutePool D → Result (PoolUpdate × RoutePool D)
  insert_below_capacity column p = do
    let before = best_coverage_cost p column.customer_set
    q ← put_main column p
    let effective = coverage_improved p before (best_coverage_cost q column.customer_set)
    ok (
      record rejected { main = true; effective_coverage_improvement = effective },
      record_improvement effective q,
    )

  -- `if (new_survived && duals_valid_) ++statistics_.negative_reduced_cost_admissions;`
  unfoldable pub count_negative : Bool → RoutePool D → RoutePool D
  count_negative new_survived p =
      if new_survived && p.duals_valid
      then record p {
        statistics = record p.statistics {
          negative_reduced_cost_admissions =
              counted_up p.statistics.negative_reduced_cost_admissions 1;
        };
      }
      else p

  -- The last branch: put the column in, and demote the worst one.
  unfoldable pub insert_and_demote : RouteColumn D → RoutePool D → Result (PoolUpdate × RoutePool D)
  insert_and_demote column p = do
    let before = best_coverage_cost p column.customer_set
    q ← put_main column p
    worst ← worst_main q
    let new_survived = not (worst.0 == column_key p column)
    r ← demote_main worst q
    let counted = count_negative new_survived r
    let effective =
        new_survived && coverage_improved p before (best_coverage_cost counted column.customer_set)
    ok (
      record {
        main = new_survived;
        backup = not new_survived && p.keep_evicted_in_backup;
        replaced_dominated = false;
        effective_coverage_improvement = effective;
        evicted_customer_sequence = some worst.1.plan.customer_ids;
      },
      record_improvement effective counted,
    )

  -- `backup_incumbent != backup_.end() && incumbent_dominates(...)`.
  unfoldable pub backup_dominates : RouteColumn D → RoutePool D → Bool
  backup_dominates column p = elim (find (column_key p column) p.backup) [
    | none ↦ false
    | some incumbent ↦ incumbent_dominates incumbent column p.tolerance
  ]

  -- The part of `admit` for a key that the main pool lacks.
  unfoldable pub admit_new : RouteColumn D → RoutePool D → Result (PoolUpdate × RoutePool D)
  admit_new column p =
      if backup_dominates column p
      then ok (reject p)
      else if ltb (length p.main) p.capacity
      then insert_below_capacity column p
      else if p.duals_valid && d.le (d.sub nought p.tolerance) (reduced_cost column p.duals)
      then ok (record rejected { backup = true }, put_backup column p)
      else insert_and_demote column p

  -- `admit`.
  unfoldable pub admit : RouteColumn D → RoutePool D → Result (PoolUpdate × RoutePool D)
  admit column p =
      let q : RoutePool D = record p {
        statistics = record p.statistics {
          admission_attempts = counted_up p.statistics.admission_attempts 1;
        };
      } in
      elim (find (column_key q column) q.main) [
        | none ↦ admit_new column q
        | some incumbent ↦
            if incumbent_dominates incumbent column q.tolerance
            then ok (reject q)
            else replace_incumbent incumbent column q
      ]
