-- ===== src/Solver/Budget.antt =====
-- include/ils_sp/detail/frvcp_active_budget.hpp: the wall time that the fixed-route model may take.
use ils_sp.Prelude.{
  ℕ, Bool, true, false, not, ◌||◌, Option, none, some, if◌then◌else◌, Result, ok, throw,
  invalid_argument,
}
use ils_sp.Prelude.Int.{ℤ, pos, ◌-ℤ◌, ltb_ℤ}
use ils_sp.Double.{Double, nought, fmax}
use ils_sp.InputContract.{ClockType}

-- `FrvcpActiveWallBudget`.
pub record WallBudget (D : Type 0) : Type 0 where
  pub limit_s : Option D
  pub spent_s : D
  pub skipped_routes : ℕ

abbrev pub earlier : ℤ → Option ℤ → Option ℤ
earlier own none = some own
earlier own (some global) = if ltb_ℤ own global then some own else some global

module _ {D : Type 0} ⦃d : Double D⦄ where
  -- `guard_s`.
  abbrev pub guard_s : D
  guard_s = d.decimal 1 2

  unfoldable pub bad_budget : Option D → Bool
  bad_budget none = false
  bad_budget (some limit) = not (d.is_finite limit) || d.le limit nought

  -- The constructor.
  unfoldable pub new_budget : Option D → Result (WallBudget D)
  new_budget limit =
      if bad_budget limit
      then throw invalid_argument
      else ok (record { limit_s = limit; spent_s = nought; skipped_routes = 0 })

  unfoldable pub enabled : WallBudget D → Bool
  enabled b = elim b.limit_s [ none ↦ false | some limit ↦ true ]

  unfoldable pub exhausted : WallBudget D → Bool
  exhausted b = elim b.limit_s [ none ↦ false | some limit ↦ d.le (d.sub limit b.spent_s) guard_s ]

  -- `deadline`: the earlier of the global one and the end of the allowance.
  abbrev pub saturated : ClockType D → Option ℤ → ℤ
  saturated clock none = pos clock.rep_max
  saturated clock (some point) = point

  unfoldable pub deadline : ClockType D → WallBudget D → ℤ → Option ℤ → Option ℤ
  deadline clock b now global = elim b.limit_s [
    | none ↦ global
    | some limit ↦
        earlier (saturated clock (clock.point_after now (fmax nought (d.sub limit b.spent_s))))
          global
  ]

  unfoldable pub charge : ClockType D → ℤ → ℤ → WallBudget D → WallBudget D
  charge clock start end b =
      if enabled b then record b { spent_s = d.add b.spent_s (clock.seconds (end -ℤ start)) } else b
