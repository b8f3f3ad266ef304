-- ===== src/Certificate/Feasible.antt =====
-- The start of include/ils_sp/detail/sp_dual_certificate.hpp, seen from a valid certificate.
use ils_sp.Prelude.{
  ℕ, zero, suc, ◌+◌, ◌≡◌, ◌↔◌, refl, Bool, true, false, length, length-replicate, replicate,
  Bool-cases, Option-cases, inl, inr, some, List, [], ◌∷◌, All, In, leb, nat_eq, nat_eq_iff, ◌||◌,
  get_or, get_elem?, arith,
}
use ils_sp.Prelude.Int.{◌≤ℤ◌, int_laws, parts_of_eq}
use ils_sp.Double.{Double, IsRounded, nought}
use ils_sp.Certificate.{
  Certificate, Cover, enter_column, cover_row, cover_rows, down, select_start, certify_sp_start,
}
use ils_sp.Certificate.Exact.{hits, IsPartition, chosen_sum}
use ils_sp.Certificate.Fixing.{index_sum}
use ils_sp.Certificate.Marks.{select_start-marks}
use ils_sp.Certificate.Opened.{open_certificate}
use ils_sp.Certificate.Soundness.{selected_sum, certify_sp_start-fixing}

All-from_In : {A : Type 0} (P : A → Type 0) (l : List A) → ((a : A) → In a l → P a) → All P l
All-from_In P [] h = tt
All-from_In P (a ∷ l) h = (h a (inl refl), All-from_In P l (λ b m. h b (inr m)))

unmarked : (columns j : ℕ) → get_elem? (replicate columns false) j ≡ some true → ⊥
unmarked zero j e = absurd cc
unmarked (suc columns) zero e = absurd cc
unmarked (suc columns) (suc j) e = unmarked columns j e

start_marks :
    (columns : ℕ) (start : List ℕ) (selected : List Bool)
    → select_start columns start (replicate columns false) ≡ some selected
    → (j : ℕ) → (get_elem? selected j ≡ some true) ↔ In j start
start_marks columns start selected e j =
    let marks = select_start-marks columns start _ selected (length-replicate columns false) e j in
    (
      (λ h. elim (marks.0 h) [ inl old ↦ absurd (unmarked columns j old) | inr chosen ↦ chosen ]),
      λ chosen. marks.1 (inr chosen),
    )

module _ {D : Type 0} ⦃d : Double D⦄ where
  cover_row-counted :
      (columns : ℕ) (selected : List Bool) (i : ℕ) (y : D) (row : List ℕ) (s t : Cover D)
      → cover_row columns selected i y row s ≡ some t
      → t.covered ≡ s.covered + hits selected row
  unfolding cover_row enter_column
  cover_row-counted columns selected i y [] s t e = let same : s ≡ t = cc in rw same (omega arith)
  cover_row-counted columns selected i y (j ∷ row) s t e =
      elim (Bool-cases (leb columns j || nat_eq (get_or s.seen j 0) i)) [
        | inl bad ↦ absurd (cc (rw bad at e))
        | inr good ↦ omega (arith, cover_row-counted columns selected i y row _ t (rw good at e))
      ]

  cover_rows-covers :
      (columns : ℕ) (selected : List Bool) (i : ℕ) (duals : List D) (incidence : List (List ℕ))
      (base : D) (s : Cover D) (last : D) (t : Cover D)
      → cover_rows columns selected i duals incidence base s ≡ some (last, t)
      → All (λ row. hits selected row ≡ 1) incidence
  unfolding cover_rows
  cover_rows-covers columns selected i duals [] base s last t e = tt
  cover_rows-covers columns selected i [] (row ∷ incidence) base s last t e = absurd (cc)
  cover_rows-covers columns selected i (y ∷ duals) ([] ∷ incidence) base s last t e = absurd (cc)
  cover_rows-covers columns selected i (y ∷ duals) ((j ∷ row) ∷ incidence) base s last t e =
      elim (Bool-cases (d.is_finite y)) [
        | inr bad ↦ absurd (cc (rw bad at e))
        | inl good ↦
            let before : Cover D = record s {
              covered = 0;
              finite = (down (d.add base y) s.finite).1;
            } in
            elim (Option-cases (cover_row columns selected i y (j ∷ row) before)) [
              | inl failed ↦ absurd (cc (rw (good, failed) at e))
              | inr (u, ran) ↦ elim (Bool-cases (nat_eq u.covered 1)) [
                | inr missed ↦ absurd (cc (rw (good, ran, missed) at e))
                | inl once ↦ (
                  omega (
                    arith,
                    cover_row-counted columns selected i y (j ∷ row) before u ran,
                    (nat_eq_iff u.covered 1).0 once,
                  ),
                  cover_rows-covers columns selected (suc i) duals incidence _ u last t
                      (rw (good, ran, once) at e),
                )
              ]
            ]
      ]

  module _ (rounded : IsRounded D) (fp_supported : Bool) (costs : List D)
      (incidence : List (List ℕ)) (start : List ℕ) (duals : List D) (abs_gap rel_gap : D)
      (allow : Bool) where
    open rounded use {value}

    abbrev run : Certificate D
    run = certify_sp_start fp_supported costs incidence start duals abs_gap rel_gap allow

    -- A valid certificate shows that the start is a feasible point of the model: the choice of
    -- exactly the start's columns covers every row exactly once, it costs in exact arithmetic what
    -- the start costs, and none of the start's columns is fixed to zero.
    pub certify_sp_start-feasible :
        run.is_valid ≡ true
        → (x : List Bool) × IsPartition costs incidence x
          × ((j : ℕ) → (get_elem? x j ≡ some true) ↔ In j start)
          × (chosen_sum value x costs ≡ index_sum value nought start costs)
          × All (λ j. ¬ (In j run.fixed_zero_columns)) start
    certify_sp_start-feasible valid =
        let o =
          open_certificate fp_supported costs incidence start duals abs_gap rel_gap allow valid in
        let (sized, total) = selected_sum rounded costs incidence start duals abs_gap run o in
        let partition : IsPartition costs incidence o.result.0 = record {
          sized = sized;
          covers = cover_rows-covers _ _ _ _ _ _ _ _ _ o.loops.covering;
        } in
        let marks = start_marks (length costs) start o.result.0 o.loops.selecting in
        (
          o.result.0,
          partition,
          marks,
          total,
          All-from_In _ start (λ j chosen fixed.
              let dearer =
                certify_sp_start-fixing rounded fp_supported costs incidence start duals abs_gap
                  rel_gap allow valid j fixed o.result.0 partition ((marks j).1 chosen) in
              omega (int_laws, dearer, parts_of_eq total, rounded.value-tolerance)),
        )

    -- Reduced-cost fixing keeps every optimum: no cheapest choice of columns that covers each row
    -- exactly once uses a column that a valid certificate fixes to zero.
    pub certify_sp_start-optimum :
        run.is_valid ≡ true
        → (j : ℕ) → In j run.fixed_zero_columns
        → (x : List Bool) → IsPartition costs incidence x
        → ((z : List Bool)
            → IsPartition costs incidence z
            → chosen_sum value x costs ≤ℤ chosen_sum value z costs)
        → ¬ (get_elem? x j ≡ some true)
    certify_sp_start-optimum valid j fixed x p cheapest chosen =
        let (z, q, marks, total, free) = certify_sp_start-feasible valid in
        let dearer =
          certify_sp_start-fixing rounded fp_supported costs incidence start duals abs_gap rel_gap
            allow valid j fixed x p chosen in
        omega (int_laws, dearer, cheapest z q, parts_of_eq total, rounded.value-tolerance)
