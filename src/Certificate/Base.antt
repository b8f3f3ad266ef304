-- ===== src/Certificate/Base.antt =====
-- The loop over the rows of sp_dual_certificate.hpp: `base` against the exact product of the duals
-- with a partition.
use mathlib.Core.Path.{subst}
use ils_sp.Prelude.{
  ℕ, suc, ◌≡◌, Bool, true, Bool-cases, Option-cases, inl, inr, some, List, [], ◌∷◌, All, arith,
  nat_eq, nat_eq_iff, length,
}
use ils_sp.Prelude.Int.{◌+ℤ◌, ◌≤ℤ◌, int_laws}
use ils_sp.Double.{Double, IsRounded}
use ils_sp.Certificate.{Cover, down, cover_row, cover_rows}
use ils_sp.Certificate.Exact.{hits, chosen_sum, times_once}
use ils_sp.Certificate.Directed.{down_flag, down_sum}
use ils_sp.Certificate.Rows.{Sound, cover_row-flag, cover_row-Gain}

module _ {D : Type 0} ⦃d : Double D⦄ where
  -- One round of the loop that ends normally, taken apart.
  record Round (columns : ℕ) (selected : List Bool) (i : ℕ) (y : D) (row : List ℕ) (duals : List D)
      (incidence : List (List ℕ)) (base : D) (s : Cover D) (last : D) (t : Cover D) : Type 0 where
    state : Cover D
    dual_finite : d.is_finite y ≡ true
    row_run :
        cover_row columns selected i y row
          (record s { covered = 0; finite = (down (d.add base y) s.finite).1 })
        ≡ some state
    once : state.covered ≡ 1
    rest :
        cover_rows columns selected (suc i) duals incidence (down (d.add base y) s.finite).0 state
        ≡ some (last, t)

  open-Round :
      (columns : ℕ) (selected : List Bool) (i : ℕ) (y : D) (j : ℕ) (row : List ℕ) (duals : List D)
      (incidence : List (List ℕ)) (base : D) (s : Cover D) (last : D) (t : Cover D)
      → cover_rows columns selected i (y ∷ duals) ((j ∷ row) ∷ incidence) base s ≡ some (last, t)
      → Round columns selected i y (j ∷ row) duals incidence base s last t
  unfolding cover_rows
  open-Round columns selected i y j row duals incidence base s last t e =
      elim (Bool-cases (d.is_finite y)) [
        | inr bad ↦ absurd (cc (rw bad at e))
        | inl fin ↦
            elim (Option-cases (
              cover_row columns selected i y (j ∷ row)
                (record s { covered = 0; finite = (down (d.add base y) s.finite).1 }))) [
                  | inl failed ↦ absurd (cc (rw (fin, failed) at e))
                  | inr (u, ran) ↦ elim (Bool-cases (nat_eq u.covered 1)) [
                    | inr twice ↦ absurd (cc (rw (fin, ran, twice) at e))
                    | inl once ↦ record {
                      state = u;
                      dual_finite = fin;
                      row_run = ran;
                      once = (nat_eq_iff u.covered 1).0 once;
                      rest = rw (fin, ran, once) at e;
                    }
                  ]
                ]
      ]

  pub cover_rows-flag :
      (columns : ℕ) (selected : List Bool) (i : ℕ) (duals : List D) (incidence : List (List ℕ))
      (base : D) (s : Cover D) (last : D) (t : Cover D)
      → cover_rows columns selected i duals incidence base s ≡ some (last, t)
      → t.finite ≡ true
      → s.finite ≡ true
  unfolding cover_rows
  cover_rows-flag columns selected i duals [] base s last t e f = ground arith
  cover_rows-flag columns selected i [] (row ∷ incidence) base s last t e f = cc
  cover_rows-flag columns selected i (y ∷ duals) ([] ∷ incidence) base s last t e f = cc
  cover_rows-flag columns selected i (y ∷ duals) ((j ∷ row) ∷ incidence) base s last t e f =
      let r = open-Round columns selected i y j row duals incidence base s last t e in
      let later =
        cover_rows-flag columns selected (suc i) duals incidence _ r.state last t r.rest f in
      (down_flag (d.add base y) s.finite
        (cover_row-flag columns selected i y (j ∷ row) _ r.state r.row_run later)).0

  module _ (rounded : IsRounded D) where
    open rounded use {value}

    module _ (columns : ℕ) (selected x : List Bool) (x_sized : length x ≡ columns) where
      -- What the loop over the rows promises when its flag holds at the end.
      pub record Balanced (incidence : List (List ℕ)) (base : D) (s : Cover D) (last : D)
          (t : Cover D) : Type 0 where
        pub was_finite : s.finite ≡ true
        pub finite : d.is_finite last ≡ true
        pub sound : Sound rounded columns t
        pub starts_once : All (λ row. hits selected row ≡ 1) incidence
        pub gained :
            value last +ℤ chosen_sum value x s.ay_upper
            ≤ℤ value base +ℤ chosen_sum value x t.ay_upper

      pub cover_rows-Balanced :
          (i : ℕ) (duals : List D) (incidence : List (List ℕ)) (base : D) (s : Cover D) (last : D)
          (t : Cover D)
          → cover_rows columns selected i duals incidence base s ≡ some (last, t)
          → t.finite ≡ true
          → d.is_finite base ≡ true
          → Sound rounded columns s
          → All (λ row. hits x row ≡ 1) incidence
          → Balanced incidence base s last t
      unfolding cover_rows
      cover_rows-Balanced i duals [] base s last t e f fb sound once =
          let same : (base ≡ last) × (s ≡ t) = ground arith in
          subst (λ c. Balanced [] base s c t) same.0
            (subst (Balanced [] base s base) same.1 (record {
              was_finite = rw same.1 f;
              finite = fb;
              sound = sound;
              starts_once = tt;
              gained = omega int_laws;
            }))
      cover_rows-Balanced i [] (row ∷ incidence) base s last t e f fb sound once = absurd (cc)
      cover_rows-Balanced i (y ∷ duals) ([] ∷ incidence) base s last t e f fb sound once =
          absurd (cc)
      cover_rows-Balanced i (y ∷ duals) ((j ∷ row) ∷ incidence) base s last t e f fb sound once =
          let r = open-Round columns selected i y j row duals incidence base s last t e in
          let later =
            cover_rows-flag columns selected (suc i) duals incidence _ r.state last t r.rest f in
          let lowered = down (d.add base y) s.finite in
          let fl = cover_row-flag columns selected i y (j ∷ row) _ r.state r.row_run later in
          let below = down_sum rounded base y fb r.dual_finite s.finite fl in
          let gain =
            cover_row-Gain rounded columns selected x x_sized i y (j ∷ row)
              (record s { covered = 0; finite = lowered.1 }) r.state r.dual_finite
              (record { sized = sound.sized; finite = sound.finite }) r.row_run later in
          let ih =
            cover_rows-Balanced (suc i) duals incidence lowered.0 r.state last t r.rest f
              below.finite gain.sound once.1 in
          record {
            was_finite = below.was_finite;
            finite = ih.finite;
            sound = ih.sound;
            starts_once = (omega (arith, gain.counted, r.once), ih.starts_once);
            gained = omega (
              int_laws,
              below.below,
              ih.gained,
              times_once (hits x (j ∷ row)) (value y) _ _ once.0 gain.gained,
            );
          }
