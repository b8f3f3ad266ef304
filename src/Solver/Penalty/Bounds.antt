-- ===== src/Solver/Penalty/Bounds.antt =====
-- `observe_penalty` of src/solver.cpp: the range of the penalty factor, and when it changes.
use ils_sp.Prelude.{
  ℕ, zero, suc, ◌+◌, ◌^◌, ◌≤◌, ◌<◌, ◌≡◌, refl, ap, ◌∙◌, Bool, true, false, Bool-cases, inl, inr,
  List, [], ◌∷◌, replicate, leb, nat_eq_iff, arith,
}
use ils_sp.Double.{Double, IsOrdered, IsScaled, nought, fmin, fmax, fmin_bounds, fmax_bounds}
use ils_sp.Pool.{counted_up}
use ils_sp.Solver.{PaperParameters, PenaltyState}
use ils_sp.Solver.Config.{bad_parameters}
use ils_sp.Solver.Penalty.{
  count_feasible, adjust_lambda, observe_penalty, initial_penalty, observe_all,
}

counted_up_le : (n : ℕ) → counted_up n 1 ≤ n + 1
unfolding counted_up
counted_up_le n = omega arith

counted_up_small : (n : ℕ) → n + 1 < 2 ^ 64 → counted_up n 1 ≡ n + 1
unfolding counted_up
counted_up_small n h = omega arith

module _ {D : Type 0} ⦃d : Double D⦄ where
  -- The factor is within its limits, and no counter has reached the window.
  pub record IsBounded (c : PaperParameters D) (p : PenaltyState D) : Type 0 where
    pub above : d.le c.lambda_min p.penalty_lambda ≡ true
    pub below : d.le p.penalty_lambda c.lambda_max ≡ true
    pub feasible_below : p.consecutive_feasible < c.penalty_window
    pub infeasible_below : p.consecutive_infeasible < c.penalty_window

  -- What an accepted configuration says of the parameters.
  record IsSound (c : PaperParameters D) : Type 0 where
    window : 1 ≤ c.penalty_window
    factor : d.lt (d.decimal 1 0) c.penalty_factor ≡ true
    finite : d.is_finite c.penalty_factor ≡ true
    nonnegative : d.le nought c.lambda_min ≡ true
    start_above : d.le c.lambda_min c.lambda_initial ≡ true
    start_below : d.le c.lambda_initial c.lambda_max ≡ true

  module _ (ordered : IsOrdered D) (scaled : IsScaled D)
      (finite_zero : d.is_finite (d.decimal 0 0) ≡ true)
      (finite_one : d.is_finite (d.decimal 1 0) ≡ true) where
    open ordered use {le_trans, refl_of_le, le_total, lt-not-le, le_of_lt, refl_of_finite}

    not_lt :
        (a b : D) → d.is_finite a ≡ true → d.is_finite b ≡ true → d.lt b a ≡ false → d.le a b ≡ true
    not_lt a b p q h = ground (arith, refl_of_finite a p, refl_of_finite b q, lt-not-le b a, h)

    sound : (c : PaperParameters D) → bad_parameters c ≡ false → IsSound c
    unfolding bad_parameters
    sound c h = record {
      window = ground (arith, h, nat_eq_iff c.penalty_window 0);
      factor = ground (
        arith,
        h,
        refl_of_finite c.penalty_factor,
        refl_of_finite (d.decimal 1 0) finite_one,
        lt-not-le (d.decimal 1 0) c.penalty_factor,
      );
      finite = ground (arith, h);
      nonnegative = not_lt nought c.lambda_min finite_zero (ground (arith, h)) (ground (arith, h));
      start_above =
          not_lt c.lambda_min c.lambda_initial (ground (arith, h)) (ground (arith, h))
            (ground (arith, h));
      start_below =
          not_lt c.lambda_initial c.lambda_max (ground (arith, h)) (ground (arith, h))
            (ground (arith, h));
    }

    raised_bounds :
        (c : PaperParameters D) (l : D)
        → IsSound c
        → d.le c.lambda_min l ≡ true
        → d.le l c.lambda_max ≡ true
        → (d.le c.lambda_min (fmin c.lambda_max (d.mul l c.penalty_factor)) ≡ true)
          × (d.le (fmin c.lambda_max (d.mul l c.penalty_factor)) c.lambda_max ≡ true)
    unfolding fmin
    raised_bounds c l s p q =
        let positive = le_trans nought c.lambda_min l s.nonnegative p in
        let grown = scaled.le_mul l c.penalty_factor positive s.factor s.finite in
        let fine = (refl_of_le l (d.mul l c.penalty_factor) grown).1 in
        let top = (refl_of_le l c.lambda_max q).1 in
        (
          ground (
            arith,
            le_trans c.lambda_min l (d.mul l c.penalty_factor) p grown,
            le_trans c.lambda_min l c.lambda_max p q,
          ),
          (fmin_bounds ordered c.lambda_max (d.mul l c.penalty_factor) top fine).0,
        )

    lowered_bounds :
        (c : PaperParameters D) (l : D)
        → IsSound c
        → d.le c.lambda_min l ≡ true
        → d.le l c.lambda_max ≡ true
        → (d.le c.lambda_min (fmax c.lambda_min (d.div l c.penalty_factor)) ≡ true)
          × (d.le (fmax c.lambda_min (d.div l c.penalty_factor)) c.lambda_max ≡ true)
    unfolding fmax
    lowered_bounds c l s p q =
        let positive = le_trans nought c.lambda_min l s.nonnegative p in
        let shrunk = scaled.div_le l c.penalty_factor positive s.factor s.finite in
        let fine = (refl_of_le (d.div l c.penalty_factor) l shrunk).0 in
        let bottom = (refl_of_le c.lambda_min l p).0 in
        (
          (fmax_bounds ordered c.lambda_min (d.div l c.penalty_factor) bottom fine).0,
          ground (
            arith,
            le_trans (d.div l c.penalty_factor) l c.lambda_max shrunk q,
            le_trans c.lambda_min l c.lambda_max p q,
          ),
        )

    no_infeasible : (c : PaperParameters D) → IsSound c → leb c.penalty_window 0 ≡ false
    no_infeasible c s = ground (arith, s.window)

    observe_penalty-IsBounded :
        (c : PaperParameters D) (feasible : Bool) (p : PenaltyState D)
        → IsSound c
        → IsBounded c p
        → IsBounded c (observe_penalty c feasible p)
    unfolding observe_penalty count_feasible adjust_lambda
    observe_penalty-IsBounded c true p s b =
        let first = s.window in
        elim (Bool-cases (leb c.penalty_window (counted_up p.consecutive_feasible 1))) [
          | inl due ↦
              let (low, high) = lowered_bounds c p.penalty_lambda s b.above b.below in
              rw (no_infeasible c s, due, adjust_lambda)
                (record {
                  above = low;
                  below = high;
                  feasible_below = omega arith;
                  infeasible_below = omega arith;
                })
          | inr early ↦
              rw (no_infeasible c s, early, adjust_lambda)
                (record {
                  above = b.above;
                  below = b.below;
                  feasible_below = ground (arith, early);
                  infeasible_below = omega arith;
                })
        ]
    observe_penalty-IsBounded c false p s b =
        let first = s.window in
        elim (Bool-cases (leb c.penalty_window (counted_up p.consecutive_infeasible 1))) [
          | inl due ↦
              let (low, high) = raised_bounds c p.penalty_lambda s b.above b.below in
              rw (due, adjust_lambda)
                (record {
                  above = low;
                  below = high;
                  feasible_below = omega arith;
                  infeasible_below = omega arith;
                })
          | inr early ↦
              rw (early, no_infeasible c s, adjust_lambda)
                (record {
                  above = b.above;
                  below = b.below;
                  feasible_below = omega arith;
                  infeasible_below = ground (arith, early);
                })
        ]

    observe_all-keeps :
        (c : PaperParameters D) (seen : List Bool) (p : PenaltyState D)
        → IsSound c
        → IsBounded c p
        → IsBounded c (observe_all c seen p)
    unfolding observe_all
    observe_all-keeps c [] p s b = b
    observe_all-keeps c (feasible ∷ seen) p s b =
        observe_all-keeps c seen (observe_penalty c feasible p) s
          (observe_penalty-IsBounded c feasible p s b)

    -- With parameters that the constructor accepts, and on doubles that are ordered and whose
    -- products and quotients by a factor above one do not turn round, the penalty factor stays
    -- between its two limits and the counters below the window, whatever local optima the search
    -- observes.
    pub observe_all-IsBounded :
        (c : PaperParameters D) (seen : List Bool)
        → bad_parameters c ≡ false
        → IsBounded c (observe_all c seen (initial_penalty c))
    observe_all-IsBounded c seen accepted =
        let s = sound c accepted in
        let first = s.window in
        observe_all-keeps c seen (initial_penalty c) s (record {
          above = s.start_above;
          below = s.start_below;
          feasible_below = omega arith;
          infeasible_below = omega arith;
        })

module _ {D : Type 0} ⦃d : Double D⦄ (c : PaperParameters D)
    (fits : c.penalty_window < 2 ^ 64) where
  abbrev pub with_counts : D → ℕ → ℕ → PenaltyState D
  with_counts l feasible infeasible = record {
    penalty_lambda = l;
    consecutive_feasible = feasible;
    consecutive_infeasible = infeasible;
  }

  infeasible_step :
      (j feasible : ℕ) (l : D)
      → j + 1 < c.penalty_window
      → observe_penalty c false (with_counts l feasible j) ≡ with_counts l 0 (j + 1)
  unfolding observe_penalty count_feasible adjust_lambda
  infeasible_step j feasible l h =
      let step : counted_up j 1 ≡ j + 1 = counted_up_small j (omega arith) in
      let early : leb c.penalty_window (j + 1) ≡ false = ground arith in
      let calm : leb c.penalty_window 0 ≡ false = ground arith in
      rw (step, adjust_lambda, early, calm) refl

  infeasible_end :
      (j feasible : ℕ) (l : D)
      → j + 1 ≡ c.penalty_window
      → observe_penalty c false (with_counts l feasible j)
        ≡ with_counts (fmin c.lambda_max (d.mul l c.penalty_factor)) 0 0
  unfolding observe_penalty count_feasible adjust_lambda
  infeasible_end j feasible l h =
      let step : counted_up j 1 ≡ j + 1 = counted_up_small j (omega arith) in
      let due : leb c.penalty_window (j + 1) ≡ true = ground arith in
      rw (step, adjust_lambda, due) refl

  infeasible_run :
      (k j feasible : ℕ) (l : D)
      → j + suc k ≡ c.penalty_window
      → observe_all c (replicate (suc k) false) (with_counts l feasible j)
        ≡ with_counts (fmin c.lambda_max (d.mul l c.penalty_factor)) 0 0
  unfolding observe_all
  infeasible_run zero j feasible l e = infeasible_end j feasible l (omega arith)
  infeasible_run (suc k) j feasible l e =
      ap (λ p. observe_all c (replicate (suc k) false) p)
        (infeasible_step j feasible l (omega arith))
      ∙ infeasible_run k (j + 1) 0 l (omega arith)

  feasible_step :
      (j infeasible : ℕ) (l : D)
      → j + 1 < c.penalty_window
      → observe_penalty c true (with_counts l j infeasible) ≡ with_counts l (j + 1) 0
  unfolding observe_penalty count_feasible adjust_lambda
  feasible_step j infeasible l h =
      let step : counted_up j 1 ≡ j + 1 = counted_up_small j (omega arith) in
      let early : leb c.penalty_window (j + 1) ≡ false = ground arith in
      let calm : leb c.penalty_window 0 ≡ false = ground arith in
      rw (step, adjust_lambda, calm, early) refl

  feasible_end :
      (j infeasible : ℕ) (l : D)
      → j + 1 ≡ c.penalty_window
      → 1 ≤ c.penalty_window
      → observe_penalty c true (with_counts l j infeasible)
        ≡ with_counts (fmax c.lambda_min (d.div l c.penalty_factor)) 0 0
  unfolding observe_penalty count_feasible adjust_lambda
  feasible_end j infeasible l h w =
      let step : counted_up j 1 ≡ j + 1 = counted_up_small j (omega arith) in
      let due : leb c.penalty_window (j + 1) ≡ true = ground arith in
      let calm : leb c.penalty_window 0 ≡ false = ground arith in
      rw (step, adjust_lambda, calm, due) refl

  feasible_run :
      (k j infeasible : ℕ) (l : D)
      → j + suc k ≡ c.penalty_window
      → observe_all c (replicate (suc k) true) (with_counts l j infeasible)
        ≡ with_counts (fmax c.lambda_min (d.div l c.penalty_factor)) 0 0
  unfolding observe_all
  feasible_run zero j infeasible l e = feasible_end j infeasible l (omega arith) (omega arith)
  feasible_run (suc k) j infeasible l e =
      ap (λ p. observe_all c (replicate (suc k) true) p)
        (feasible_step j infeasible l (omega arith))
      ∙ feasible_run k (j + 1) 0 l (omega arith)

  replicated :
      (n : ℕ) (b : Bool) (p q : PenaltyState D)
      → 1 ≤ n
      → ((k : ℕ) → suc k ≡ n → observe_all c (replicate (suc k) b) p ≡ q)
      → observe_all c (replicate n b) p ≡ q
  replicated zero b p q h f = absurd (omega arith)
  replicated (suc n) b p q h f = f n refl

  -- With a window that is not zero and is a `std::size_t`: as many local optima in a row as the
  -- window is long, counted from empty counters, change the penalty factor exactly once. It is
  -- multiplied and capped when they are infeasible, divided and floored when they are feasible,
  -- and both counters are empty again.
  pub penalty_window_effect :
      (p : PenaltyState D)
      → 1 ≤ c.penalty_window
      → p.consecutive_infeasible ≡ 0
      → p.consecutive_feasible ≡ 0
      → (observe_all c (replicate c.penalty_window false) p
          ≡ with_counts (fmin c.lambda_max (d.mul p.penalty_lambda c.penalty_factor)) 0 0)
        × (observe_all c (replicate c.penalty_window true) p
            ≡ with_counts (fmax c.lambda_min (d.div p.penalty_lambda c.penalty_factor)) 0 0)
  penalty_window_effect p w no_infeasible_yet no_feasible_yet = (
    replicated c.penalty_window false p _ w (λ k e.
        infeasible_run k p.consecutive_infeasible p.consecutive_feasible p.penalty_lambda
          (omega arith)),
    replicated c.penalty_window true p _ w (λ k e.
        feasible_run k p.consecutive_feasible p.consecutive_infeasible p.penalty_lambda
          (omega arith)),
  )
