-- ===== src/Certificate/Marks.antt =====
-- The loop of sp_dual_certificate.hpp that fills `selected`: which columns it marks.
use ils_sp.Prelude.{
  ℕ, zero, suc, ◌<◌, ◌≡◌, ◌↔◌, ◌⊎◌, refl, ◌∙◌, Bool, true, false, Bool-cases, inl, inr, some, List,
  [], ◌∷◌, In, length, length-set, get_elem?, get_or, set, arith, leb, ◌||◌,
}
use ils_sp.Certificate.{select_start}

-- Marking a column that is there adds it to the marks.
set-marks :
    (x : List Bool) (k j : ℕ)
    → k < length x
    → (get_elem? (set x k true) j ≡ some true) ↔ ((get_elem? x j ≡ some true) ⊎ (j ≡ k))
set-marks [] k j h = absurd (omega arith)
set-marks (b ∷ x) zero zero h = ((λ _. inr refl), λ _. refl)
set-marks (b ∷ x) zero (suc j) h =
    ((λ e. inl e), λ e. elim e [ inl old ↦ old | inr here ↦ absurd (omega (arith, here)) ])
set-marks (b ∷ x) (suc k) zero h =
    ((λ e. inl e), λ e. elim e [ inl old ↦ old | inr here ↦ absurd (omega (arith, here)) ])
set-marks (b ∷ x) (suc k) (suc j) h =
    let ih = set-marks x k j (omega arith) in
    (
      (λ e. elim (ih.0 e) [ inl old ↦ inl old | inr here ↦ inr (omega (arith, here)) ]),
      λ e. ih.1 (elim e [ inl old ↦ inl old | inr here ↦ inr (omega (arith, here)) ]),
    )

-- The marks after the loop are those before it and the start's columns.
pub select_start-marks :
    (columns : ℕ) (start : List ℕ) (before after : List Bool)
    → length before ≡ columns
    → select_start columns start before ≡ some after
    → (j : ℕ) → (get_elem? after j ≡ some true) ↔ ((get_elem? before j ≡ some true) ⊎ In j start)
unfolding select_start
select_start-marks columns [] before after sized e j =
    let same : before ≡ after = cc in
    rw (← same) ((λ h. inl h), λ h. elim h [ inl marked ↦ marked | inr never ↦ elim never [ ] ])
select_start-marks columns (k ∷ start) before after sized e j =
    elim (Bool-cases (leb columns k || get_or before k false)) [
      | inl bad ↦ absurd (cc (rw bad at e))
      | inr good ↦
          let ih =
            select_start-marks columns start (set before k true) after
              (length-set before k true ∙ sized) (rw good at e) j in
          let marks = set-marks before k j (ground (arith, good)) in
          (
            (λ h. elim (ih.0 h) [
              | inr later ↦ inr (inr later)
              | inl now ↦ elim (marks.0 now) [ inl old ↦ inl old | inr here ↦ inr (inl here) ]
            ]),
            λ h. ih.1 (elim h [
              | inl old ↦ inl (marks.1 (inl old))
              | inr (inl here) ↦ inl (marks.1 (inr here))
              | inr (inr later) ↦ inr later
            ]),
          )
    ]
