-- ===== src/Certificate/Opened.antt =====
-- The control flow of certify_sp_start in sp_dual_certificate.hpp, taken apart: which loops and
-- tests lie behind a certificate that is marked valid.
use ils_sp.Prelude.{
  ℕ, ◌≡◌, ◌⊎◌, Bool, true, false, Bool-cases, Option-cases, inl, inr, some, List, [], length,
  replicate, arith,
}
use ils_sp.Prelude.Options.{>>=-eq-some}
use mathlib.Core.Path.{subst}
use ils_sp.Double.{Double, fmin, nought, cost_tolerance}
use ils_sp.Certificate.{
  Certificate, Cover, initial_cover, up, select_start, sum_upper, cover_rows, sum_lower,
  fix_columns, fix_result, conclude, accepts_arguments, run_loops, certify_sp_start,
}

module _ {D : Type 0} ⦃d : Double D⦄ where
  -- The loops, where they end normally.
  pub record Loops (costs : List D) (incidence : List (List ℕ)) (start : List ℕ) (duals : List D)
      (result : List Bool × D × D × Cover D) : Type 0 where
    pub flag : Bool
    pub selecting :
        select_start (length costs) start (replicate (length costs) false) ≡ some result.0
    pub summing : sum_upper costs result.0 nought true ≡ some (result.1, flag)
    pub covering :
        cover_rows
          (length costs)
          result.0
          0
          duals
          incidence
          nought
          (initial_cover (length costs) (length incidence) flag)
        ≡ some (result.2, result.3)

  open-Loops :
      (costs : List D) (incidence : List (List ℕ)) (start : List ℕ) (duals : List D)
      (result : List Bool × D × D × Cover D)
      → run_loops costs incidence start duals ≡ some result
      → Loops costs incidence start duals result
  unfolding run_loops
  open-Loops costs incidence start duals result e =
      let n = length costs in
      let (marks, selecting, e₁) = >>=-eq-some (select_start n start (replicate n false)) _ e in
      let (sums, summing, e₂) = >>=-eq-some (sum_upper costs marks nought true) _ e₁ in
      let (last, covering, e₃) =
        >>=-eq-some
          (cover_rows n marks 0 duals incidence nought (initial_cover n (length incidence) sums.1))
          _ e₂ in
      let same : (marks, sums.0, last.0, last.1) ≡ result = cc e₃ in
      subst (Loops costs incidence start duals) same
        (record { flag = sums.1; selecting = selecting; summing = summing; covering = covering })

  -- What the last part records, where it returns a valid certificate.
  pub record Concluded (abs_gap : D) (selected : List Bool) (upper lower : D) (finite : Bool)
      (residuals : List D) (c : Certificate D) : Type 0 where
    pub flag : finite ≡ true
    pub same_upper : c.upper_h ≡ upper
    pub same_lower : c.lower_h ≡ lower
    pub gap_flag : (up (d.sub upper lower) finite).1 ≡ true
    pub gap : c.gap_upper_h ≡ (up (d.sub upper lower) finite).0
    pub acceptance : c.acceptance_gap_h ≡ fmin abs_gap cost_tolerance
    pub certified : c.certified ≡ d.le c.gap_upper_h c.acceptance_gap_h
    pub fixed :
        (c.fixed_zero_columns ≡ [])
        ⊎ (((up (d.add upper cost_tolerance) true).1 ≡ true)
            × (fix_columns lower (up (d.add upper cost_tolerance) true).0 0 residuals selected
                ≡ some c.fixed_zero_columns))

  conclude-Concluded :
      (abs_gap rel_gap : D) (allow : Bool) (selected : List Bool) (upper lower : D) (finite : Bool)
      (residuals : List D)
      → (conclude abs_gap rel_gap allow selected upper lower finite residuals).is_valid ≡ true
      → Concluded abs_gap selected upper lower finite residuals
          (conclude abs_gap rel_gap allow selected upper lower finite residuals)
  unfolding conclude fix_result
  conclude-Concluded abs_gap rel_gap allow selected upper lower finite residuals h = record {
    flag = ground arith;
    same_upper = ground arith;
    same_lower = ground arith;
    gap_flag = ground arith;
    gap = ground arith;
    acceptance = ground arith;
    certified = ground arith;
    fixed = ground arith;
  }

  -- A valid certificate comes from loops that end normally with the flag still set.
  pub record Opened (costs : List D) (incidence : List (List ℕ)) (start : List ℕ) (duals : List D)
      (abs_gap : D) (c : Certificate D) : Type 0 where
    pub gap_finite : d.is_finite abs_gap ≡ true
    pub result : List Bool × D × D × Cover D
    pub loops : Loops costs incidence start duals result
    pub concluded :
        let lowered = sum_lower costs result.3.ay_upper result.2 result.3.finite in
        Concluded abs_gap result.0 result.1 lowered.0 lowered.1 lowered.2 c

  accepts-gap :
      (fp_supported : Bool) (costs : List D) (incidence : List (List ℕ)) (start : List ℕ)
      (duals : List D) (abs_gap rel_gap : D)
      → accepts_arguments fp_supported costs incidence start duals abs_gap rel_gap ≡ true
      → d.is_finite abs_gap ≡ true
  unfolding accepts_arguments
  accepts-gap fp_supported costs incidence start duals abs_gap rel_gap h = ground arith

  pub open_certificate :
      (fp_supported : Bool) (costs : List D) (incidence : List (List ℕ)) (start : List ℕ)
      (duals : List D) (abs_gap rel_gap : D) (allow : Bool)
      → (certify_sp_start fp_supported costs incidence start duals abs_gap rel_gap allow).is_valid
        ≡ true
      → Opened costs incidence start duals abs_gap
          (certify_sp_start fp_supported costs incidence start duals abs_gap rel_gap allow)
  unfolding certify_sp_start
  open_certificate fp_supported costs incidence start duals abs_gap rel_gap allow h =
      elim (Bool-cases
        (accepts_arguments fp_supported costs incidence start duals abs_gap rel_gap)) [
          | inr bad ↦ absurd (cc (rw bad at h))
          | inl good ↦ elim (Option-cases (run_loops costs incidence start duals)) [
            | inl failed ↦ absurd (cc (rw (good, failed) at h))
            | inr (result, ran) ↦
                rw (good, ran)
                  (record {
                    gap_finite = accepts-gap _ _ _ _ _ abs_gap rel_gap good;
                    result = result;
                    loops = open-Loops costs incidence start duals result ran;
                    concluded =
                        conclude-Concluded abs_gap rel_gap allow _ _ _ _ _ (rw (good, ran) at h);
                  })
          ]
        ]
