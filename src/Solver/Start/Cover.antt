-- ===== src/Solver/Start/Cover.antt =====
-- The starts of src/solver.cpp for the set-partitioning model, and the customers that they cover.
use mathlib.Core.List.{append_assoc, append-nil}
use ils_sp.Prelude.{
  ℕ, ◌+◌, ◌≡◌, sym, ap, ◌∙◌, true, Bool-cases, Option-cases, inl, inr, some, List, [], ◌∷◌, ◌++◌,
  length, length-append, get_elem?, nat_eq_iff, to_nat, arith, ok, ◌==◌, List_eq, list_eq_iff,
}
use ils_sp.Prelude.Int.{ℤ, eqb_ℤ_iff, ℤ_eq}
use ils_sp.Prelude.Options.{>>=-eq-some}
use ils_sp.Double.{Double}
use ils_sp.Maps.{contains}
use ils_sp.Core.Sets.{count}
use ils_sp.Core.Curve.{Text, ChargingCurve}
use ils_sp.Core.Instance.{Node, Vehicle, Instance, new_instance}
use ils_sp.Core.Instance.Built.{IsBuilt, new_instance-IsBuilt}
use ils_sp.Core.Instance.Scanned.{count-append}
use ils_sp.Core.Partition.{IdSet, all_seen}
use ils_sp.Core.Partition.Counts.{le_or_lt, counts_of_length, customers_le}
use ils_sp.Core.Partition.Cover.{all_seen-count}
use ils_sp.Pool.{Key, RouteColumn}
use ils_sp.Solver.Start.{
  StartSource, SpMipStartChoice, Chosen, cover_set, lower_bound, matching, column_for,
  choose_column, choose_columns, covers_instance, nothing_chosen, finish_start, make_sp_mip_start,
}

cover_set-ok :
    (ids : List ℤ) (seen later : IdSet)
    → cover_set ids seen ≡ some later
    → (length later ≡ length ids + length seen)
      × ((a : ℤ) → to_nat (contains a later) ≡ count a ids + to_nat (contains a seen))
unfolding cover_set count contains
cover_set-ok [] seen later e =
    let same : seen ≡ later = cc in rw same (omega arith, λ a. omega arith)
cover_set-ok (id ∷ ids) seen later e = elim (Bool-cases (contains id seen)) [
  | inl twice ↦ absurd (cc (rw twice at e))
  | inr fresh ↦
      let (longer, counts) = cover_set-ok ids ((id, tt) ∷ seen) later (rw fresh at e) in
      (omega (arith, longer), λ a. ground (arith, counts a, fresh, eqb_ℤ_iff id a))
]

-- All the ids of some sets.
unfoldable pub ids_of : List Key → List ℤ
ids_of [] = []
ids_of (key ∷ keys) = key ++ ids_of keys

module _ {D : Type 0} where
  -- The columns at the indices have the sets, one for one.
  abbrev pub IsSelection : List (RouteColumn D) → List ℕ → List Key → Type 0
  IsSelection columns [] [] = Unit
  IsSelection columns [] (key ∷ keys) = ⊥
  IsSelection columns (i ∷ indices) [] = ⊥
  IsSelection columns (i ∷ indices) (key ∷ keys) =
      ((column : RouteColumn D) × (get_elem? columns i ≡ some column) × (column.customer_set ≡ key))
      × IsSelection columns indices keys

  column_for-ok :
      (key : Key) (columns : List (RouteColumn D)) (column : RouteColumn D)
      → column_for key columns ≡ some column
      → (get_elem? columns (lower_bound key columns) ≡ some column) × (column.customer_set ≡ key)
  unfolding column_for matching
  column_for-ok key columns column e =
      elim (Option-cases (get_elem? columns (lower_bound key columns))) [
        | inl missing ↦ absurd (cc (rw (column_for, missing) at e))
        | inr (c, there) ↦ elim (Bool-cases (c.customer_set == key)) [
          | inr other ↦ absurd (cc (rw (column_for, there, matching, other) at e))
          | inl same ↦
              let one : c ≡ column = cc (rw (column_for, there, matching, same) at e) in
              (there ∙ ap some one, rw (← one) ((list_eq_iff c.customer_set key).0 same))
        ]
      ]

module _ {D : Type 0} ⦃d : Double D⦄ where
  record Picked (columns : List (RouteColumn D)) (keys : List Key) (before after : Chosen D)
      : Type 0 where
    indices : List ℕ
    appended : after.column_indices ≡ before.column_indices ++ indices
    selected : IsSelection columns indices keys
    longer : length after.covered ≡ length (ids_of keys) + length before.covered
    counts :
        (a : ℤ)
        → to_nat (contains a after.covered)
          ≡ count a (ids_of keys) + to_nat (contains a before.covered)

  choose_columns-ok :
      (columns : List (RouteColumn D)) (keys : List Key) (before after : Chosen D)
      → choose_columns columns keys before ≡ some after
      → Picked columns keys before after
  unfolding choose_columns choose_column ids_of count
  choose_columns-ok columns [] before after e =
      let same : before ≡ after = cc in
      rw (← same) (record {
        indices = [];
        appended = sym (append-nil before.column_indices);
        selected = tt;
        longer = omega arith;
        counts = λ a. omega arith;
      })
  choose_columns-ok columns (key ∷ keys) before after e =
      let (next, chosen, later) = >>=-eq-some (choose_column columns key before) _ e in
      let (column, found, e1) = >>=-eq-some (column_for key columns) _ chosen in
      let (covered, fresh, e2) = >>=-eq-some (cover_set key before.covered) _ e1 in
      let rest = choose_columns-ok columns keys next after later in
      let (more, counted) = cover_set-ok key before.covered covered fresh in
      let (there, set_is) = column_for-ok key columns column found in
      let indices : before.column_indices ++ lower_bound key columns ∷ [] ≡ next.column_indices =
        cc in
      let covers : covered ≡ next.covered = cc in
      let more_next : length next.covered ≡ length key + length before.covered =
        rw (← covers) more in
      record {
        indices = lower_bound key columns ∷ rest.indices;
        appended =
            rest.appended
            ∙ ap (λ l. l ++ rest.indices) (sym indices)
            ∙ append_assoc before.column_indices (lower_bound key columns ∷ []) rest.indices;
        selected = ((column, there, set_is), rest.selected);
        longer = omega (arith, rest.longer, more_next, length-append key (ids_of keys));
        counts = λ a.
            omega
              (arith, rest.counts a, rw covers at (counted a), count-append a key (ids_of keys));
      }

  -- The test after the loop leaves an exact cover.
  covers-counts :
      (i : Instance D) (keys : List Key) (covered : IdSet)
      → IsBuilt i
      → covers_instance i covered ≡ true
      → length covered ≡ length (ids_of keys)
      → ((a : ℤ) → to_nat (contains a covered) ≡ count a (ids_of keys))
      → (a : ℤ) → count a i.customer_ids ≡ count a (ids_of keys)
  unfolding covers_instance
  covers-counts i keys covered v fits long counts a =
      let sizes : length covered ≡ length i.customer_ids =
        ground (arith, fits, nat_eq_iff (length covered) (length i.customer_ids)) in
      let seen : all_seen covered i.customer_ids ≡ true = ground (arith, fits) in
      counts_of_length i.customer_ids (ids_of keys)
        (λ b. elim (le_or_lt 1 (count b i.customer_ids)) [
          | inr none_there ↦ omega arith
          | inl customer ↦
              let there = all_seen-count covered i.customer_ids seen b customer in
              ground (arith, there, counts b, customers_le i v b)
        ])
        (omega (arith, sizes, long)) a

  start-cover :
      (i : Instance D) (columns : List (RouteColumn D)) (keys : List Key) (source : StartSource)
      (choice : SpMipStartChoice D)
      → IsBuilt i
      → make_sp_mip_start i columns keys source ≡ some choice
      → IsSelection columns choice.column_indices keys
        × ((a : ℤ) → count a i.customer_ids ≡ count a (ids_of keys))
  unfolding make_sp_mip_start finish_start contains
  start-cover i columns [] source choice v e = absurd cc
  start-cover i columns (key ∷ keys) source choice v e =
      let (chosen, loop, e1) =
        >>=-eq-some (choose_columns columns (key ∷ keys) nothing_chosen) _ e in
      let picked = choose_columns-ok columns (key ∷ keys) nothing_chosen chosen loop in
      elim (Bool-cases (covers_instance i chosen.covered)) [
        | inr misses ↦ absurd (cc (rw (finish_start, misses) at e1))
        | inl fits ↦
            let same : chosen.column_indices ≡ choice.column_indices =
              cc (rw (finish_start, fits) at e1) in
            (
              rw (← same, picked.appended) picked.selected,
              λ a.
                  covers-counts i (key ∷ keys) chosen.covered v fits (omega (arith, picked.longer))
                    (λ b. omega (arith, picked.counts b)) a,
            )
      ]

  -- On an instance that the constructor has returned: a start that `make_sp_mip_start` makes names,
  -- for the requested customer sets one for one, columns with exactly these sets, and the sets
  -- together hold every customer of the instance once and nothing else.
  pub make_sp_mip_start-IsCover :
      (name dataset : Text) (nodes : List (Node D)) (vehicle : Vehicle D)
      (curves : List (Text × ChargingCurve D)) (i : Instance D) (columns : List (RouteColumn D))
      (requested : List Key) (source : StartSource) (choice : SpMipStartChoice D)
      → new_instance name dataset nodes vehicle curves ≡ ok i
      → make_sp_mip_start i columns requested source ≡ some choice
      → IsSelection columns choice.column_indices requested
        × ((a : ℤ) → count a i.customer_ids ≡ count a (ids_of requested))
  make_sp_mip_start-IsCover name dataset nodes vehicle curves i columns requested source choice
        built e =
      start-cover i columns requested source choice
        (new_instance-IsBuilt name dataset nodes vehicle curves i built) e
