-- ===== src/Solver/Records.antt =====
-- src/solver.cpp: the best solution so far, and the objective at which the search may stop.
use ils_sp.Prelude.{
  ◌≡◌, ◌⊎◌, inl, inr, refl, Bool, true, false, not, ◌&&◌, Bool-cases, Option, none, some, List, [],
  ◌∷◌, In, if◌then◌else◌, arith,
}
use ils_sp.Prelude.Int.{leb_ℤ}
use ils_sp.Double.{Double, IsOrdered, cost_tolerance, lt_trans, lt_irrefl}
use ils_sp.Core.{Solution, solution_feasible, solution_cost}
use ils_sp.InputContract.{roundable_objective}

module _ {D : Type 0} ⦃d : Double D⦄ where
  -- `candidate.raw_cost_h() < best->raw_cost_h() - kCostTolerance`.
  unfoldable pub cheaper : Solution D → Solution D → Bool
  cheaper candidate best =
      d.lt (solution_cost candidate) (d.sub (solution_cost best) cost_tolerance)

  unfoldable pub beats : Solution D → Option (Solution D) → Bool
  beats candidate none = true
  beats candidate (some best) = cheaper candidate best

  -- `update_best`: whether it has replaced the best solution, and the best solution then.
  unfoldable pub update_best : Solution D → Option (Solution D) → Bool × Option (Solution D)
  update_best candidate best =
      if not (solution_feasible candidate)
      then (false, best)
      else if beats candidate best
      then (true, some candidate)
      else (false, best)

  -- `rounded_target_reached`.
  unfoldable pub rounded_target_reached : Option D → Solution D → Bool
  rounded_target_reached none candidate = false
  rounded_target_reached (some target) candidate =
      solution_feasible candidate
      && roundable_objective (solution_cost candidate)
      && leb_ℤ (d.llround (d.mul (solution_cost candidate) (d.decimal 100 0)))
          (d.llround (d.mul target (d.decimal 100 0)))

  -- The best solution after a run of candidates.
  unfoldable pub best_after : List (Solution D) → Option (Solution D) → Option (Solution D)
  best_after [] best = best
  best_after (candidate ∷ rest) best = best_after rest (update_best candidate best).1

  -- Output-only selection: the initial solution stays only beside no record, or a dearer one.
  unfoldable pub select_fallback : Option (Solution D) → Option (Solution D) → Option (Solution D)
  select_fallback none fallback = fallback
  select_fallback (some best) none = none
  select_fallback (some best) (some fallback) =
      if cheaper fallback best then some fallback else none

  -- No solution yet, or a feasible one.
  abbrev pub IsRecord : Option (Solution D) → Type 0
  IsRecord none = Unit
  IsRecord (some best) = solution_feasible best ≡ true

  -- What a run of candidates leaves behind, compared with the best solution before it.
  module _ (ordered : IsOrdered D)
      (tolerance_below : (x b : D) → d.lt x (d.sub b cost_tolerance) ≡ true → d.lt x b ≡ true) where
    cheaper_trans :
        (a b c : Solution D) → cheaper a b ≡ true → cheaper b c ≡ true → cheaper a c ≡ true
    unfolding cheaper
    cheaper_trans a b c p q =
        lt_trans ordered (solution_cost a) (solution_cost b)
          (d.sub (solution_cost c) cost_tolerance)
          (tolerance_below (solution_cost a) (solution_cost b) p) q

    cheaper_irrefl : (a : Solution D) → cheaper a a ≡ false
    unfolding cheaper
    cheaper_irrefl a = ground (
      arith,
      tolerance_below (solution_cost a) (solution_cost a),
      lt_irrefl ordered (solution_cost a),
    )

    -- On ordered doubles, where subtracting the tolerance does not raise a cost: a feasible best
    -- solution is never lost. After any run of candidates the best solution is feasible, and it is
    -- the one before or cheaper than that by more than the tolerance.
    pub kept_or_beaten :
        (candidates : List (Solution D)) (b : Solution D)
        → solution_feasible b ≡ true
        → (f : Solution D) × (best_after candidates (some b) ≡ some f)
          × (solution_feasible f ≡ true)
          × ((f ≡ b) ⊎ (cheaper f b ≡ true))
    unfolding best_after update_best beats
    kept_or_beaten [] b h = (b, refl, h, inl refl)
    kept_or_beaten (c ∷ rest) b h = elim (Bool-cases (solution_feasible c)) [
      | inr bad ↦ rw bad (kept_or_beaten rest b h)
      | inl fine ↦ elim (Bool-cases (cheaper c b)) [
        | inr dear ↦ rw (fine, dear) (kept_or_beaten rest b h)
        | inl better ↦
            let (f, e, feasible, how) = kept_or_beaten rest c fine in
            rw (fine, better)
              (
                f,
                e,
                feasible,
                inr (elim how [
                  | inl same ↦ rw same better
                  | inr cheap ↦ cheaper_trans f c b cheap better
                ]),
              )
      ]
    ]

    unbeaten :
        (candidates : List (Solution D)) (b f c : Solution D)
        → solution_feasible b ≡ true
        → best_after candidates (some b) ≡ some f
        → cheaper c b ≡ false
        → cheaper c f ≡ false
    unbeaten candidates b f c h e not_b =
        let (g, at_g, _, how) = kept_or_beaten candidates b h in
        let same : g ≡ f = cc in
        elim how [
          | inl kept ↦ rw (← same, kept) not_b
          | inr cheap ↦ ground (arith, cheaper_trans c f b, rw same at cheap, not_b)
        ]

    update_best-unbeaten :
        (c : Solution D) (best : Option (Solution D))
        → IsRecord best
        → solution_feasible c ≡ true
        → (y : Solution D) × ((update_best c best).1 ≡ some y)
          × (solution_feasible y ≡ true)
          × (cheaper c y ≡ false)
    unfolding update_best beats
    update_best-unbeaten c none h fine = rw fine (c, refl, fine, cheaper_irrefl c)
    update_best-unbeaten c (some b) h fine = elim (Bool-cases (cheaper c b)) [
      | inl better ↦ rw (fine, better) (c, refl, fine, cheaper_irrefl c)
      | inr dear ↦ rw (fine, dear) (b, refl, h, dear)
    ]

    update_best-IsRecord :
        (c : Solution D) (best : Option (Solution D))
        → IsRecord best
        → IsRecord (update_best c best).1
    unfolding update_best
    update_best-IsRecord c best h = elim (Bool-cases (solution_feasible c)) [
      | inr bad ↦ rw bad h
      | inl fine ↦ elim (Bool-cases (beats c best)) [
        | inl better ↦ rw (fine, better) fine
        | inr dear ↦ rw (fine, dear) h
      ]
    ]

    -- On ordered doubles, where subtracting the tolerance does not raise a cost: after a run of
    -- candidates, none of them that is feasible is cheaper than the best solution by more than the
    -- tolerance, if the best solution at the start was none or feasible.
    pub best_after_optimal :
        (candidates : List (Solution D)) (start : Option (Solution D)) (f c : Solution D)
        → IsRecord start
        → best_after candidates start ≡ some f
        → In c candidates
        → solution_feasible c ≡ true
        → cheaper c f ≡ false
    unfolding best_after
    best_after_optimal [] start f c h e member fine = absurd member
    best_after_optimal (x ∷ rest) start f c h e (inl same) fine =
        let (y, at_y, y_fine, dear) = update_best-unbeaten c start h fine in
        unbeaten rest y f c y_fine (rw (← same, at_y) at e) dear
    best_after_optimal (x ∷ rest) start f c h e (inr later) fine =
        best_after_optimal rest (update_best x start).1 f c (update_best-IsRecord x start h) e later
          fine
