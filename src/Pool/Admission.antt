-- ===== src/Pool/Admission.antt =====
-- `RoutePool::admit` of src/pool.cpp on valid pools, for columns whose costs are no NaN.
use ils_sp.Prelude.{
  suc, ◌≤◌, ◌<◌, ◌≡◌, refl, ap, Bool, true, false, ◌&&◌, Bool-cases, Option-cases, inl, inr, some,
  List, length, ltb, ltb→lt, List_eq, list_eq_iff, beq_refl, if◌then◌else◌, arith, Result, ok,
  ◌>>=◌,
}
use ils_sp.Prelude.Int.{ℤ_eq}
use ils_sp.Double.{Double, IsOrdered, nought}
use ils_sp.Maps.{
  find, contains, contains-erase, contains-assign, contains-find, contains-find-none, find-assign,
  length-erase, length-assign,
}
use ils_sp.Pool.{
  counted_up, Key, PoolIdentity, ordered_sequence, customer_coverage, RouteColumn, RoutePool,
  PoolUpdate, column_key, stored, put_backup, put_main, demote_main, worst_main, reduced_cost,
  incumbent_dominates,
}
use ils_sp.Pool.Methods.{
  reject, count_replacement, count_negative, main_at, replace_incumbent, insert_below_capacity,
  insert_and_demote, backup_dominates, admit_new, admit,
}
use ils_sp.Pool.Index.{Comparable}
use ils_sp.Pool.Invariant.{
  IsConsistent, IsValid, Keeps, put_main_total, put_backup-IsConsistent, retag-IsValid,
  record_improvement-IsValid,
}
use ils_sp.Pool.Demotion.{worst_main_total, demote_main_total, Demoted}

module _ {D : Type 0} ⦃d : Double D⦄ (ordered : IsOrdered D) where
  -- A call that returns a valid pool.
  abbrev pub KeepsValid : Result (PoolUpdate × RoutePool D) → Type 0
  KeepsValid call = (r : PoolUpdate × RoutePool D) × (call ≡ ok r) × IsValid ordered r.1

  returns :
      {A : Type 0} (m : Result A) (f : A → Result (PoolUpdate × RoutePool D)) {a : A}
      → m ≡ ok a
      → KeepsValid (f a)
      → KeepsValid (m >>= f)
  returns m f e h = rw e h

  done : (r : PoolUpdate × RoutePool D) → IsValid ordered r.1 → KeepsValid (ok r)
  done r v = (r, refl, v)

  stored-Keeps :
      (column : RouteColumn D) (index : List (Key × List D)) (p : RoutePool D)
      → Keeps ordered p
      → Keeps ordered (stored column index p)
  unfolding stored
  stored-Keeps column index p h k e =
      ground (arith, contains-assign (column_key p column) k column p.main, h k e)

  length-stored :
      (column : RouteColumn D) (index : List (Key × List D)) (p : RoutePool D)
      → length (stored column index p).main
        ≡ (if contains (column_key p column) p.main then length p.main else suc (length p.main))
  unfolding stored
  length-stored column index p = length-assign (column_key p column) column p.main

  stored_same :
      (column : RouteColumn D) (index : List (Key × List D)) (p : RoutePool D)
      → ((stored column index p).capacity ≡ p.capacity)
        × ((stored column index p).protected_sequences ≡ p.protected_sequences)
        × (find (column_key p column) (stored column index p).main ≡ some column)
  unfolding stored
  stored_same column index p = (
    refl,
    refl,
    ground (
      arith,
      find-assign (column_key p column) (column_key p column) column p.main,
      beq_refl (column_key p column),
    ),
  )

  -- A valid pool in which a column is stored without growing past the capacity.
  stored-IsValid :
      (column : RouteColumn D) (index : List (Key × List D)) (p : RoutePool D)
      → IsValid ordered p
      → IsConsistent ordered (stored column index p)
      → length (stored column index p).main ≤ p.capacity
      → IsValid ordered (stored column index p)
  stored-IsValid column index p v c bound =
      let (cap, prot, _) = stored_same column index p in
      record {
        consistent = c;
        kept = stored-Keeps column index p v.kept;
        few = rw (cap, prot) v.few;
        bounded = rw cap bound;
      }

  reject-IsValid : (p : RoutePool D) → IsValid ordered p → IsValid ordered (reject p).1
  unfolding reject
  reject-IsValid p v = retag-IsValid ordered p _ refl v

  count_replacement-IsValid :
      (p : RoutePool D) → IsValid ordered p → IsValid ordered (count_replacement p)
  unfolding count_replacement
  count_replacement-IsValid p v = by_identity p.identity
    where
      by_identity :
          (i : PoolIdentity)
          → IsValid ordered (elim i [
            | customer_coverage ↦ record p {
              statistics = record p.statistics {
                same_coverage_replacements = counted_up p.statistics.same_coverage_replacements 1;
              };
            }
            | ordered_sequence ↦ record p {
              statistics = record p.statistics {
                same_sequence_replacements = counted_up p.statistics.same_sequence_replacements 1;
              };
            }
          ])
      by_identity customer_coverage = retag-IsValid ordered p _ refl v
      by_identity ordered_sequence = retag-IsValid ordered p _ refl v

  stored_at :
      (column : RouteColumn D) (index : List (Key × List D)) (p : RoutePool D)
      → main_at (column_key p column) (count_replacement (stored column index p)) ≡ ok column
  unfolding main_at count_replacement
  stored_at column index p = ground (arith, (stored_same column index p).2)

  insert_below_capacity_total :
      (column : RouteColumn D) (p : RoutePool D)
      → Comparable column.cost_h
      → IsValid ordered p
      → length p.main < p.capacity
      → KeepsValid (insert_below_capacity column p)
  unfolding insert_below_capacity
  insert_below_capacity_total column p fine v room =
      let (index, ran, c) = put_main_total ordered column p fine v.consistent in
      returns (put_main column p) _ ran (
        done _ (
          record_improvement-IsValid ordered _ _
            (stored-IsValid column index p v c (ground (arith, length-stored column index p)))))

  replace_incumbent_total :
      (incumbent column : RouteColumn D) (p : RoutePool D)
      → Comparable column.cost_h
      → IsValid ordered p
      → find (column_key p column) p.main ≡ some incumbent
      → KeepsValid (replace_incumbent incumbent column p)
  unfolding replace_incumbent
  replace_incumbent_total incumbent column p fine v present =
      let (index, ran, c) = put_main_total ordered column p fine v.consistent in
      let q = stored column index p in
      let counted = count_replacement-IsValid q (
        stored-IsValid column index p v c (
          ground (
            arith,
            length-stored column index p,
            contains-find (column_key p column) p.main incumbent present,
            v.bounded,
          ))) in
      returns (put_main column p) _ ran (
        returns (main_at (column_key p column) (count_replacement q)) _ (stored_at column index p)
          (done _ (record_improvement-IsValid ordered _ _ counted)))

  -- A demotion of a column that is not protected keeps the protected ones.
  pub evicted-Keeps :
      (key : Key) (q r : RoutePool D)
      → Keeps ordered q
      → IsConsistent ordered q
      → contains key q.protected_sequences ≡ false
      → Demoted ordered key q r
      → Keeps ordered r
  evicted-Keeps key q r h c free out k e =
      let before : contains k q.protected_sequences ≡ true = rw out.same_protected at e in
      rw out.main
        (ground (arith, contains-erase key k q.main c.distinct_main, h k before, list_eq_iff key k))

  pub evicted_length :
      (e : Key × RouteColumn D) (q r : RoutePool D)
      → find e.0 q.main ≡ some e.1
      → Demoted ordered e.0 q r
      → suc (length r.main) ≡ length q.main
  evicted_length e q r found out =
      rw out.main (length-erase e.0 q.main (contains-find e.0 q.main e.1 found))

  count_negative-IsValid :
      (new_survived : Bool) (p : RoutePool D)
      → IsValid ordered p
      → IsValid ordered (count_negative new_survived p)
  unfolding count_negative
  count_negative-IsValid new_survived p v = elim (Bool-cases (new_survived && p.duals_valid)) [
    | inl e ↦ rw (e, count_negative) (retag-IsValid ordered p _ refl v)
    | inr e ↦ rw (e, count_negative) v
  ]

  insert_and_demote_total :
      (column : RouteColumn D) (p : RoutePool D)
      → Comparable column.cost_h
      → IsValid ordered p
      → contains (column_key p column) p.main ≡ false
      → p.capacity ≤ length p.main
      → KeepsValid (insert_and_demote column p)
  unfolding insert_and_demote
  insert_and_demote_total column p fine v absent full =
      let (index, ran, c) = put_main_total ordered column p fine v.consistent in
      let q = stored column index p in
      let (cap, prot, _) = stored_same column index p in
      let grown : length q.main ≡ suc (length p.main) =
        rw absent at (length-stored column index p) in
      let (e, picked, free, found) =
        worst_main_total q c.distinct_main c.distinct_protected
          (omega (arith, grown, full, v.few, ap length prot)) in
      let (r, demoted, out) = demote_main_total ordered e q found c in
      let valid : IsValid ordered r = record {
        consistent = out.consistent;
        kept = evicted-Keeps e.0 q r (stored-Keeps column index p v.kept) c free out;
        few = rw (out.same_capacity, out.same_protected, cap, prot) v.few;
        bounded =
            omega (arith, evicted_length e q r found out, grown, v.bounded, out.same_capacity, cap);
      } in
      returns (put_main column p) _ ran (
        returns (worst_main q) _ picked (
          returns (demote_main e q) _ demoted
            (done _ (record_improvement-IsValid ordered _ _ (count_negative-IsValid _ r valid)))))

  put_backup-IsValid :
      (column : RouteColumn D) (p : RoutePool D)
      → Comparable column.cost_h
      → contains (column_key p column) p.main ≡ false
      → IsValid ordered p
      → IsValid ordered (put_backup column p)
  unfolding put_backup
  put_backup-IsValid column p fine absent v = record {
    consistent = put_backup-IsConsistent ordered column p fine absent v.consistent;
    kept = λ k e. ground (arith, v.kept k);
    few = ground (arith, v.few);
    bounded = ground (arith, v.bounded);
  }

  admit_new_total :
      (column : RouteColumn D) (p : RoutePool D)
      → Comparable column.cost_h
      → IsValid ordered p
      → contains (column_key p column) p.main ≡ false
      → KeepsValid (admit_new column p)
  unfolding admit_new
  admit_new_total column p fine v absent = elim (Bool-cases (backup_dominates column p)) [
    | inl worse ↦ rw (worse, admit_new) (done _ (reject-IsValid p v))
    | inr better ↦ elim (Bool-cases (ltb (length p.main) p.capacity)) [
      | inl room ↦
          rw (better, room, admit_new)
            (insert_below_capacity_total column p fine v (ltb→lt _ _ room))
      | inr full ↦
          elim (Bool-cases
            (p.duals_valid && d.le (d.sub nought p.tolerance) (reduced_cost column p.duals))) [
              | inl priced ↦
                  rw (better, full, priced, admit_new)
                    (done _ (put_backup-IsValid column p fine absent v))
              | inr open_ ↦
                  rw (better, full, open_, admit_new)
                    (insert_and_demote_total column p fine v absent (ground arith))
            ]
    ]
  ]

  -- On a valid pool, admitting a column whose cost is no NaN never throws, and leaves the pool
  -- valid: within its capacity, with every protected sequence in the main pool, no key in both
  -- maps, the coverage index in step, and the generation equal to its statistic.
  pub admit_total :
      (column : RouteColumn D) (p : RoutePool D)
      → Comparable column.cost_h
      → IsValid ordered p
      → KeepsValid (admit column p)
  unfolding admit
  admit_total column p fine v =
      let q : RoutePool D = record p {
        statistics = record p.statistics {
          admission_attempts = counted_up p.statistics.admission_attempts 1;
        };
      } in
      let w : IsValid ordered q = retag-IsValid ordered p _ refl v in
      elim (Option-cases (find (column_key q column) q.main)) [
        | inl absent ↦
            rw (absent, admit)
              (admit_new_total column q fine w (contains-find-none _ q.main absent))
        | inr (incumbent, present) ↦
            elim (Bool-cases (incumbent_dominates incumbent column q.tolerance)) [
              | inl worse ↦ rw (present, worse, admit) (done _ (reject-IsValid q w))
              | inr better ↦
                  rw (present, better, admit)
                    (replace_incumbent_total incumbent column q fine w present)
            ]
      ]
