-- ===== src/Pool/Demotion.antt =====
-- `worst_main` and `demote_main` of src/pool.cpp on a main pool above its capacity.
use ils_sp.Prelude.{
  ◌≤◌, ◌<◌, ◌≡◌, refl, ◌∙◌, ◌⊎◌, Bool, true, false, Bool-cases, inl, inr, some, List, [], ◌∷◌, In,
  length, List_eq, list_eq_iff, beq_refl, if◌then◌else◌, arith, ok,
}
use ils_sp.Prelude.Int.{ℤ_eq}
use ils_sp.Double.{Double, IsOrdered}
use ils_sp.Maps.{
  find, contains, erase, Distinct, Distinct-erase, All-find, contains-erase, contains-find,
  length-erase,
}
use ils_sp.Pool.{
  Key, RouteColumn, RoutePool, key_of, column_key, column_rank_less, removed, count_demotion,
  put_backup, demote_main, worse_of, worst_from, first_evictable, worst_main,
}
use ils_sp.Pool.Index.{Comparable}
use ils_sp.Pool.Indexed.{index_main_erase_total}
use ils_sp.Pool.Invariant.{IsConsistent, removed-IsConsistent, put_backup-IsConsistent}

-- Distinct keys that all lie in another map are no more than its entries.
pub length-le_of_contains :
    {V W : Type 0} (m : List (Key × V)) (q : List (Key × W))
    → Distinct m
    → Distinct q
    → ((k : Key) → contains k m ≡ true → contains k q ≡ true)
    → length m ≤ length q
unfolding contains
length-le_of_contains [] q dm dq h = omega arith
length-le_of_contains ((j, w) ∷ m) q dm dq h =
    let held : contains j q ≡ true = h j (rw (beq_refl j)) in
    let ih =
      length-le_of_contains m (erase j q) dm.1 (Distinct-erase j q dq)
        (λ k e. ground (arith, contains-erase j k q dq, h k, list_eq_iff j k, dm.0)) in
    omega (arith, ih, length-erase j q held)

find-In :
    {V : Type 0} (e : Key × V) (m : List (Key × V)) → Distinct m → In e m → find e.0 m ≡ some e.1
unfolding find contains
find-In e [] dm h = absurd h
find-In e ((j, w) ∷ m) dm (inl here) = rw here (ground (arith, beq_refl j))
find-In e ((j, w) ∷ m) dm (inr there) =
    let ih = find-In e m dm.1 there in
    ground (arith, ih, contains-find e.0 m e.1 ih, list_eq_iff j e.0, dm.0)

module _ {D : Type 0} ⦃d : Double D⦄ where
  worse_of-cases :
      (p : RoutePool D) (worst e : Key × RouteColumn D)
      → contains worst.0 p.protected_sequences ≡ false
      → (contains (worse_of p worst e).0 p.protected_sequences ≡ false)
        × ((worse_of p worst e ≡ worst) ⊎ (worse_of p worst e ≡ e))
  unfolding worse_of
  worse_of-cases p worst e free = elim (Bool-cases (contains e.0 p.protected_sequences)) [
    | inl protected ↦ rw (protected, worse_of) (free, inl refl)
    | inr evictable ↦ elim (Bool-cases (column_rank_less worst.1 e.1 p.duals)) [
      | inr ranked ↦ rw (evictable, ranked, worse_of) (free, inl refl)
      | inl worse ↦ rw (evictable, worse, worse_of) (evictable, inr refl)
    ]
  ]

  worst_from-In :
      (p : RoutePool D) (worst : Key × RouteColumn D) (rest : List (Key × RouteColumn D))
      → contains worst.0 p.protected_sequences ≡ false
      → (contains (worst_from p worst rest).0 p.protected_sequences ≡ false)
        × ((worst_from p worst rest ≡ worst) ⊎ In (worst_from p worst rest) rest)
  unfolding worst_from
  worst_from-In p worst [] free = (free, inl refl)
  worst_from-In p worst (e ∷ rest) free =
      let (still, from) = worse_of-cases p worst e free in
      let (last, place) = worst_from-In p (worse_of p worst e) rest still in
      (
        last,
        elim place [
          | inr there ↦ inr (inr there)
          | inl same ↦ elim from [ inl old ↦ inl (same ∙ old) | inr new ↦ inr (inl (same ∙ new)) ]
        ],
      )

  first_evictable_total :
      (p : RoutePool D) (m : List (Key × RouteColumn D))
      → (((k : Key) → contains k m ≡ true → contains k p.protected_sequences ≡ true))
        ⊎ ((e : Key × RouteColumn D) × (first_evictable p m ≡ ok e)
            × (contains e.0 p.protected_sequences ≡ false)
            × In e m)
  unfolding first_evictable contains
  first_evictable_total p [] = inl (λ k h. cc)
  first_evictable_total p (e ∷ m) = elim (Bool-cases (contains e.0 p.protected_sequences)) [
    | inr evictable ↦
        let (free, place) = worst_from-In p e m evictable in
        inr (worst_from p e m, rw (evictable, first_evictable), free, place)
    | inl protected ↦ elim (first_evictable_total p m) [
      | inl all ↦ inl (λ k h. ground (arith, all k, list_eq_iff e.0 k))
      | inr (x, ran, free, place) ↦ inr (x, rw (protected, first_evictable) ran, free, inr place)
    ]
  ]

  -- With more main columns than protected sequences, `worst_main` names a main column that is not
  -- protected, and does not throw.
  pub worst_main_total :
      (p : RoutePool D)
      → Distinct p.main
      → Distinct p.protected_sequences
      → length p.protected_sequences < length p.main
      → (e : Key × RouteColumn D) × (worst_main p ≡ ok e)
        × (contains e.0 p.protected_sequences ≡ false)
        × (find e.0 p.main ≡ some e.1)
  unfolding worst_main
  worst_main_total p dm dq more = elim (first_evictable_total p p.main) [
    | inl all ↦ absurd (omega (arith, length-le_of_contains p.main p.protected_sequences dm dq all))
    | inr (e, ran, free, place) ↦ (e, ground (arith, ran), free, find-In e p.main dm place)
  ]

  -- What a demotion leaves: the pool without that column.
  module _ (ordered : IsOrdered D) where
    pub record Demoted (key : Key) (p q : RoutePool D) : Type 0 where
      pub consistent : IsConsistent ordered q
      pub main : q.main ≡ erase key p.main
      pub same_protected : q.protected_sequences ≡ p.protected_sequences
      pub same_capacity : q.capacity ≡ p.capacity
      pub same_identity : q.identity ≡ p.identity

    -- A step that leaves all of the pool but its backup and its statistics.
    record Left (p q : RoutePool D) : Type 0 where
      consistent : IsConsistent ordered q
      main : q.main ≡ p.main
      same_protected : q.protected_sequences ≡ p.protected_sequences
      same_capacity : q.capacity ≡ p.capacity
      same_identity : q.identity ≡ p.identity

    Left-refl : (p : RoutePool D) → IsConsistent ordered p → Left p p
    Left-refl p v = record {
      consistent = v;
      main = refl;
      same_protected = refl;
      same_capacity = refl;
      same_identity = refl;
    }

    removed-same :
        (key : Key) (index : List (Key × List D)) (p : RoutePool D)
        → ((removed key index p).main ≡ erase key p.main)
          × ((removed key index p).protected_sequences ≡ p.protected_sequences)
          × ((removed key index p).capacity ≡ p.capacity)
          × ((removed key index p).identity ≡ p.identity)
    unfolding removed
    removed-same key index p = (refl, refl, refl, refl)

    removed_absent :
        (key : Key) (column : RouteColumn D) (index : List (Key × List D)) (p : RoutePool D)
        → key_of p.identity column ≡ key
        → contains key (removed key index p).main ≡ false
        → contains (column_key (removed key index p) column) (removed key index p).main ≡ false
    unfolding removed
    removed_absent key column index p same h = rw same h

    if-Left :
        (keep : Bool) (p q : RoutePool D) → Left p q → Left p p → Left p (if keep then q else p)
    if-Left true p q h k = h
    if-Left false p q h k = k

    put_backup-Left :
        (column : RouteColumn D) (p : RoutePool D)
        → Comparable column.cost_h
        → contains (column_key p column) p.main ≡ false
        → IsConsistent ordered p
        → Left p (put_backup column p)
    unfolding put_backup
    put_backup-Left column p fine absent v = record {
      consistent = put_backup-IsConsistent ordered column p fine absent v;
      main = ground arith;
      same_protected = ground arith;
      same_capacity = ground arith;
      same_identity = ground arith;
    }

    count_demotion-Demoted :
        (key : Key) (p q r : RoutePool D)
        → q.main ≡ erase key p.main
        → q.protected_sequences ≡ p.protected_sequences
        → q.capacity ≡ p.capacity
        → q.identity ≡ p.identity
        → Left q r
        → Demoted key p (count_demotion r)
    unfolding count_demotion
    count_demotion-Demoted key p q r m s c i l = record {
      consistent = record {
        distinct_main = l.consistent.distinct_main;
        distinct_backup = l.consistent.distinct_backup;
        distinct_protected = l.consistent.distinct_protected;
        keyed = l.consistent.keyed;
        comparable_main = l.consistent.comparable_main;
        comparable_backup = l.consistent.comparable_backup;
        indexed = l.consistent.indexed;
        apart = l.consistent.apart;
        counted = l.consistent.counted;
      };
      main = l.main ∙ m;
      same_protected = l.same_protected ∙ s;
      same_capacity = l.same_capacity ∙ c;
      same_identity = l.same_identity ∙ i;
    }

    pub demote_main_total :
        (e : Key × RouteColumn D) (p : RoutePool D)
        → find e.0 p.main ≡ some e.1
        → IsConsistent ordered p
        → (q : RoutePool D) × (demote_main e p ≡ ok q) × Demoted e.0 p q
    unfolding demote_main
    demote_main_total e p found v =
        let fine : Comparable e.1.cost_h =
          All-find (λ x. Comparable x.1.cost_h) e.0 e.1 p.main v.comparable_main found in
        let (index, ran, gone) =
          index_main_erase_total ordered p.main p.coverage_costs e.0 e.1 v.indexed found fine in
        let (consistent, absent) = removed-IsConsistent ordered e.0 e.1 index p found gone v in
        let without = removed e.0 index p in
        let s = if without.keep_evicted_in_backup then put_backup e.1 without else without in
        let kept : Left without s =
          if-Left without.keep_evicted_in_backup without _
            (put_backup-Left e.1 without fine
              (removed_absent e.0 e.1 index p
                (All-find (λ x. key_of p.identity x.1 ≡ x.0) e.0 e.1 p.main v.keyed found) absent)
              consistent)
            (Left-refl without consistent) in
        (
          count_demotion s,
          rw ran,
          count_demotion-Demoted e.0 p without s (removed-same e.0 index p).0
              (removed-same e.0 index p).1 (removed-same e.0 index p).2 (removed-same e.0 index p).3
              kept,
        )
