-- ===== src/Pool/Invariant.antt =====
-- The invariant of `RoutePool` in src/pool.cpp, under storing and demoting a column.
use ils_sp.Prelude.{
  ℕ, ◌≤◌, ◌≡◌, refl, sym, ap, ◌∙◌, Bool, true, false, Bool-cases, Option-cases, inl, inr, some,
  List, All, length, List_eq, list_eq_iff, beq_refl, arith, ok,
}
use ils_sp.Prelude.Int.{ℤ_eq}
use ils_sp.Double.{Double, IsOrdered}
use ils_sp.Maps.{
  find, contains, assign, Distinct, Distinct-assign, Distinct-erase, All-assign, All-erase,
  All-find, contains-assign, contains-erase,
}
use ils_sp.Pool.{
  counted_up, Key, RouteColumn, RoutePool, key_of, column_key, stored, removed, put_main,
  put_backup, improves_backup, PoolStatistics, index_main_insert, record_improvement,
}
use ils_sp.Pool.Index.{Comparable, main_count-assign_new, main_count-assign_old, main_count-erase}
use ils_sp.Pool.Indexed.{IndexOf, Erased, index_main_erase_total, index_main_insert-IndexOf}

module _ {D : Type 0} ⦃d : Double D⦄ (ordered : IsOrdered D) where
  -- All that does not bound the size of the main pool.
  pub record IsConsistent (p : RoutePool D) : Type 0 where
    pub distinct_main : Distinct p.main
    pub distinct_backup : Distinct p.backup
    pub distinct_protected : Distinct p.protected_sequences
    pub keyed : All (λ e. key_of p.identity e.1 ≡ e.0) p.main
    pub comparable_main : All (λ e. Comparable e.1.cost_h) p.main
    pub comparable_backup : All (λ e. Comparable e.1.cost_h) p.backup
    pub indexed : IndexOf ordered p.main p.coverage_costs
    pub apart : (k : Key) → contains k p.main ≡ true → contains k p.backup ≡ false
    pub counted : p.effective_generation ≡ p.statistics.effective_coverage_improvements

  -- The protected sequences stay in the main pool.
  abbrev pub Keeps : RoutePool D → Type 0
  Keeps p = (k : Key) → contains k p.protected_sequences ≡ true → contains k p.main ≡ true

  -- The invariant between two public operations.
  pub record IsValid (p : RoutePool D) : Type 0 where
    pub consistent : IsConsistent p
    pub kept : Keeps p
    pub few : length p.protected_sequences ≤ p.capacity
    pub bounded : length p.main ≤ p.capacity

  -- Storing a column keeps the pool consistent, on any index that has lost the incumbent's cost.
  stored-IsConsistent :
      (column : RouteColumn D) (index : List (Key × List D)) (p : RoutePool D)
      → Comparable column.cost_h
      → IsConsistent p
      → IndexOf ordered
          (assign (column_key p column) column p.main)
          (index_main_insert column index)
      → IsConsistent (stored column index p)
  unfolding stored
  stored-IsConsistent column index p fine v ix = record {
    distinct_main = Distinct-assign (column_key p column) column p.main v.distinct_main;
    distinct_backup = Distinct-erase (column_key p column) p.backup v.distinct_backup;
    distinct_protected = v.distinct_protected;
    keyed =
        All-assign (λ e. key_of p.identity e.1 ≡ e.0) (column_key p column) column p.main refl
          v.keyed;
    comparable_main =
        All-assign (λ e. Comparable e.1.cost_h) (column_key p column) column p.main fine
          v.comparable_main;
    comparable_backup =
        All-erase (λ e. Comparable e.1.cost_h) (column_key p column) p.backup v.comparable_backup;
    indexed = ix;
    apart = λ k h. ground (
      arith,
      contains-assign (column_key p column) k column p.main,
      contains-erase (column_key p column) k p.backup v.distinct_backup,
      v.apart k,
    );
    counted = v.counted;
  }

  -- `put_main` never throws on a consistent pool.
  pub put_main_total :
      (column : RouteColumn D) (p : RoutePool D)
      → Comparable column.cost_h
      → IsConsistent p
      → (index : List (Key × List D)) × (put_main column p ≡ ok (stored column index p))
        × IsConsistent (stored column index p)
  unfolding put_main
  put_main_total column p fine v = elim (Option-cases (find (column_key p column) p.main)) [
    | inl absent ↦ (
      p.coverage_costs,
      rw absent,
      stored-IsConsistent column p.coverage_costs p fine v (
          index_main_insert-IndexOf ordered column _ p.coverage_costs fine v.indexed.distinct
            v.indexed.comparable
            (λ coverage c pc. omega (
              arith,
              v.indexed.counted coverage c pc,
              main_count-assign_new coverage c (column_key p column) column p.main absent,
            ))),
    )
    | inr (old, present) ↦
        let (index, ran, gone) =
          index_main_erase_total ordered p.main p.coverage_costs (column_key p column) old v.indexed
            present
            (All-find (λ e. Comparable e.1.cost_h) (column_key p column) old p.main
              v.comparable_main present) in
        (
          index,
          rw (present, ran),
          stored-IsConsistent column index p fine v (
              index_main_insert-IndexOf ordered column _ index fine gone.distinct gone.comparable
                (λ coverage c pc. omega (
                  arith,
                  v.indexed.counted coverage c pc,
                  gone.counted coverage c pc,
                  main_count-assign_old coverage c (column_key p column) column old p.main present,
                ))),
        )
  ]

  -- Taking a main column out, and its cost out of the index, keeps the pool consistent, and its
  -- key is then in neither map.
  pub removed-IsConsistent :
      (key : Key) (old : RouteColumn D) (index : List (Key × List D)) (p : RoutePool D)
      → find key p.main ≡ some old
      → Erased ordered old p.coverage_costs index
      → IsConsistent p
      → IsConsistent (removed key index p) × (contains key (removed key index p).main ≡ false)
  unfolding removed
  removed-IsConsistent key old index p found gone v = (
    record {
      distinct_main = Distinct-erase key p.main v.distinct_main;
      distinct_backup = v.distinct_backup;
      distinct_protected = v.distinct_protected;
      keyed = All-erase (λ e. key_of p.identity e.1 ≡ e.0) key p.main v.keyed;
      comparable_main = All-erase (λ e. Comparable e.1.cost_h) key p.main v.comparable_main;
      comparable_backup = v.comparable_backup;
      indexed = record {
        distinct = gone.distinct;
        counted = λ coverage c pc. omega (
          arith,
          v.indexed.counted coverage c pc,
          gone.counted coverage c pc,
          main_count-erase coverage c key old p.main found,
        );
        comparable = gone.comparable;
      };
      apart = λ k h. ground (arith, contains-erase key k p.main v.distinct_main, v.apart k);
      counted = v.counted;
    },
    ground (arith, contains-erase key key p.main v.distinct_main, beq_refl key),
  )

  -- `put_backup` keeps the pool consistent where the main pool lacks the column's key.
  pub put_backup-IsConsistent :
      (column : RouteColumn D) (p : RoutePool D)
      → Comparable column.cost_h
      → contains (column_key p column) p.main ≡ false
      → IsConsistent p
      → IsConsistent (put_backup column p)
  unfolding put_backup
  put_backup-IsConsistent column p fine absent v =
      elim (Bool-cases (improves_backup column (find (column_key p column) p.backup) p.tolerance)) [
        | inr worse ↦ rw (worse, put_backup) v
        | inl better ↦
            rw (better, put_backup)
              (record {
                distinct_main = v.distinct_main;
                distinct_backup =
                    Distinct-assign (column_key p column) column p.backup v.distinct_backup;
                distinct_protected = v.distinct_protected;
                keyed = v.keyed;
                comparable_main = v.comparable_main;
                comparable_backup =
                    All-assign (λ e. Comparable e.1.cost_h) (column_key p column) column p.backup
                      fine v.comparable_backup;
                indexed = v.indexed;
                apart = λ k h. ground (
                  arith,
                  contains-assign (column_key p column) k column p.backup,
                  v.apart k,
                  list_eq_iff (column_key p column) k,
                );
                counted = v.counted;
              })
      ]

  -- The statistics matter to the invariant in one counter only.
  pub retag-IsValid :
      (p : RoutePool D) (s : PoolStatistics)
      → s.effective_coverage_improvements ≡ p.statistics.effective_coverage_improvements
      → IsValid p
      → IsValid (record p { statistics = s })
  retag-IsValid p s same v = record {
    consistent = record {
      distinct_main = v.consistent.distinct_main;
      distinct_backup = v.consistent.distinct_backup;
      distinct_protected = v.consistent.distinct_protected;
      keyed = v.consistent.keyed;
      comparable_main = v.consistent.comparable_main;
      comparable_backup = v.consistent.comparable_backup;
      indexed = v.consistent.indexed;
      apart = v.consistent.apart;
      counted = v.consistent.counted ∙ sym same;
    };
    kept = v.kept;
    few = v.few;
    bounded = v.bounded;
  }

  -- The generation and the statistic move together.
  pub record_improvement-IsConsistent :
      (improved : Bool) (p : RoutePool D)
      → IsConsistent p
      → IsConsistent (record_improvement improved p)
  unfolding record_improvement
  record_improvement-IsConsistent false p v = v
  record_improvement-IsConsistent true p v = record {
    distinct_main = v.distinct_main;
    distinct_backup = v.distinct_backup;
    distinct_protected = v.distinct_protected;
    keyed = v.keyed;
    comparable_main = v.comparable_main;
    comparable_backup = v.comparable_backup;
    indexed = v.indexed;
    apart = v.apart;
    counted = ap (λ (n : ℕ). counted_up n 1) v.counted;
  }

  pub record_improvement-IsValid :
      (improved : Bool) (p : RoutePool D) → IsValid p → IsValid (record_improvement improved p)
  unfolding record_improvement
  record_improvement-IsValid false p v = v
  record_improvement-IsValid true p v = record {
    consistent = record_improvement-IsConsistent true p v.consistent;
    kept = v.kept;
    few = v.few;
    bounded = v.bounded;
  }
