-- ===== src/Solver/Epochs/Deferral.antt =====
-- How long the epochs of src/solver.cpp put exploration off.
use ils_sp.Prelude.{
  ℕ, ◌+◌, ◌≤◌, ◌≡◌, refl, ◌∙◌, ◌⊎◌, inl, inr, Bool, true, false, ◌||◌, Bool-cases, List, [], ◌∷◌,
  nat_eq, ltb, leb, length, arith,
}
use ils_sp.Double.{Double}
use ils_sp.Solver.Epochs.{Epoch, finish_assembler_epoch, close_epoch, age_exploitation}

or_left : (a b : Bool) → a ≡ true → (a || b) ≡ true
or_left a b h = rw h refl

or_right : (a b : Bool) → b ≡ true → (a || b) ≡ true
or_right true b h = refl
or_right false b h = h

module _ {D : Type 0} ⦃d : Double D⦄ where
  -- Completed scheduled epochs without a record, each at a generation of the pool: whether one of
  -- them, or the state before them, explores.
  unfoldable pub explores : List ℕ → Epoch D → Bool
  explores [] e = e.exploring
  explores (generation ∷ rest) e =
      e.exploring || explores rest (finish_assembler_epoch true true generation e)

  aged :
      (generation : ℕ) (e : Epoch D)
      → e.exploring ≡ false
      → e.productive ≡ false
      → ((close_epoch generation e).exploring ≡ true)
        ⊎ (((close_epoch generation e).exploring ≡ false)
            × (e.exploit_epoch_age + 1 ≤ (close_epoch generation e).exploit_epoch_age)
            × ((close_epoch generation e).exploit_epoch_age ≤ 5))
  unfolding close_epoch age_exploitation
  aged generation e x p = elim (Bool-cases (ltb e.exploit_epoch_age 6)) [
    | inr old ↦
        let due : leb 6 e.exploit_epoch_age ≡ true = ground (arith, old) in
        elim (Bool-cases (nat_eq generation e.epoch_generation)) [
          | inl same ↦ rw (p, x, age_exploitation, old, same) (inl refl)
          | inr grown ↦ rw (p, x, age_exploitation, old, grown, due) (inl refl)
        ]
    | inl young ↦
        elim (Bool-cases
          (nat_eq generation e.epoch_generation || leb 6 (e.exploit_epoch_age + 1))) [
            | inl due ↦ rw (p, x, age_exploitation, young, due) (inl refl)
            | inr early ↦
                rw (p, x, age_exploitation, young, early)
                  (inr (refl, omega arith, ground (arith, early)))
          ]
  ]

  closed :
      (generation : ℕ) (e : Epoch D)
      → ((finish_assembler_epoch true true generation e).exploring
          ≡ (close_epoch generation e).exploring)
        × ((finish_assembler_epoch true true generation e).exploit_epoch_age
            ≡ (close_epoch generation e).exploit_epoch_age)
        × ((finish_assembler_epoch true true generation e).productive ≡ false)
  unfolding finish_assembler_epoch
  closed generation e = (refl, refl, refl)

  explores_head :
      (generations : List ℕ) (e : Epoch D) → e.exploring ≡ true → explores generations e ≡ true
  unfolding explores
  explores_head [] e x = x
  explores_head (generation ∷ rest) e x = or_left e.exploring _ x

  -- Epochs without a record cannot put exploration off for ever: after as many of them as the age
  -- lacks of six the code explores or has explored, however much the pool has grown meanwhile.
  pub explores_in_time :
      (generations : List ℕ) (e : Epoch D)
      → e.productive ≡ false
      → 6 ≤ e.exploit_epoch_age + length generations
      → 1 ≤ length generations
      → explores generations e ≡ true
  unfolding explores
  explores_in_time [] e p enough some_epoch = absurd (omega arith)
  explores_in_time (generation ∷ rest) e p enough some_epoch = elim (Bool-cases e.exploring) [
    | inl x ↦ or_left e.exploring _ x
    | inr x ↦
        let next : Epoch D = finish_assembler_epoch true true generation e in
        let (same_exploring, same_age, p') = closed generation e in
        elim (aged generation e x p) [
          | inl there ↦ or_right e.exploring _ (explores_head rest next (same_exploring ∙ there))
          | inr (still, older, bounded) ↦ or_right e.exploring _ (
              explores_in_time rest next p' (omega (arith, enough, older, same_age))
                (omega (arith, enough, older, bounded, same_age)))
        ]
  ]
