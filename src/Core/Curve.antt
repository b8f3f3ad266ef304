-- ===== src/Core/Curve.antt =====
-- `ChargingCurve` of include/ils_sp/core.hpp and src/core.cpp: the piecewise linear charging times,
-- and the comparison of two curves. A `std::string` is the list of its bytes.
use ils_sp.Prelude.{
  ℕ, Bool, true, false, not, ◌&&◌, ◌||◌, List, [], ◌∷◌, ◌++◌, map, length, if◌then◌else◌, ltb,
  nat_eq, Result, ok, throw, invalid_argument, out_of_range, ◌>>=◌,
}
use ils_sp.Double.{Double, nought, fmax, fabs, feq, clamp, negate, energy_tolerance, time_tolerance}

abbrev pub Text : Type 0
Text = List ℕ

pub record ChargingPoint (D : Type 0) : Type 0 where
  pub time_h : D
  pub energy_wh : D

pub record ChargingCurve (D : Type 0) : Type 0 where
  pub station_type : Text
  pub points : List (ChargingPoint D)

module _ {D : Type 0} ⦃d : Double D⦄ where
  -- The test of the constructor's loop, from the previous time and energy on.
  unfoldable pub monotone_from : D → D → List (ChargingPoint D) → Bool
  monotone_from previous_time previous_energy [] = true
  monotone_from previous_time previous_energy (point ∷ points) =
      not (
        not (d.is_finite point.time_h)
        || not (d.is_finite point.energy_wh)
        || d.lt point.time_h previous_time
        || d.lt point.energy_wh previous_energy)
      && monotone_from point.time_h point.energy_wh points

  -- `points_.front()` against the origin.
  unfoldable pub starts_at_origin : List (ChargingPoint D) → Bool
  starts_at_origin [] = false
  starts_at_origin (front ∷ points) =
      not (d.lt (d.decimal 1 12) (fabs front.time_h) || d.lt (d.decimal 1 9) (fabs front.energy_wh))

  -- The constructor.
  unfoldable pub new_curve : Text → List (ChargingPoint D) → Result (ChargingCurve D)
  new_curve station_type points =
      if nat_eq (length station_type) 0 || ltb (length points) 2
      then throw invalid_argument
      else if not (monotone_from (negate (d.decimal 1 0)) (negate (d.decimal 1 0)) points)
      then throw invalid_argument
      else if not (starts_at_origin points)
      then throw invalid_argument
      else ok (record { station_type = station_type; points = points })

  -- `capacity_wh`: the last point's energy. A curve has points.
  unfoldable pub last_energy : D → List (ChargingPoint D) → D
  last_energy energy [] = energy
  last_energy energy (point ∷ points) = last_energy point.energy_wh points

  unfoldable pub capacity_wh : ChargingCurve D → D
  unfolding last_energy
  capacity_wh curve = last_energy nought curve.points

  -- The loop of `time_at_energy`, with the segment's left end.
  unfoldable pub time_from : D → ChargingPoint D → List (ChargingPoint D) → D
  time_from energy left [] = left.time_h
  time_from energy left (right ∷ points) =
      let later = time_from energy right points in
      let delta_energy = d.sub right.energy_wh left.energy_wh in
      let ratio = d.div (d.sub energy left.energy_wh) delta_energy in
      if d.le energy right.energy_wh
      then if feq delta_energy nought
        then left.time_h
        else d.add left.time_h (d.mul ratio (d.sub right.time_h left.time_h))
      else later

  unfoldable pub time_of : D → List (ChargingPoint D) → D
  time_of energy [] = nought
  time_of energy (left ∷ points) = time_from energy left points

  -- The guard of `time_at_energy`.
  unfoldable pub in_domain : ChargingCurve D → D → Bool
  in_domain curve energy_wh = not (
      not (d.is_finite energy_wh)
      || d.lt energy_wh (negate energy_tolerance)
      || d.lt (d.add (capacity_wh curve) energy_tolerance) energy_wh)

  unfoldable pub time_at_energy : ChargingCurve D → D → Result D
  time_at_energy curve energy_wh =
      if not (in_domain curve energy_wh)
      then throw out_of_range
      else ok (time_of (clamp energy_wh nought (capacity_wh curve)) curve.points)

  unfoldable pub charge_duration : ChargingCurve D → D → D → Result D
  charge_duration curve arrival_wh departure_wh =
      if d.lt departure_wh (d.sub arrival_wh (d.decimal 1 7)) then throw invalid_argument else do
        departure ← time_at_energy curve departure_wh
        arrival ← time_at_energy curve arrival_wh
        ok (d.sub departure arrival)

  -- The loop of `marginal_rate_at`.
  unfoldable pub rate_from : D → ChargingPoint D → List (ChargingPoint D) → D
  rate_from energy left [] = nought
  rate_from energy left (right ∷ points) =
      let later = rate_from energy right points in
      let delta_time = d.sub right.time_h left.time_h in
      if d.lt energy (d.sub right.energy_wh (d.decimal 1 8))
      then if d.le delta_time (d.decimal 1 15)
        then d.infinity
        else d.div (d.sub right.energy_wh left.energy_wh) delta_time
      else later

  unfoldable pub rate_of : D → List (ChargingPoint D) → D
  rate_of energy [] = nought
  rate_of energy (left ∷ points) = rate_from energy left points

  unfoldable pub marginal_rate_at : ChargingCurve D → D → D
  marginal_rate_at curve energy_wh =
      if d.le (d.sub (capacity_wh curve) (d.decimal 1 8)) energy_wh
      then nought
      else rate_of (fmax nought energy_wh) curve.points

  -- The loop of `next_breakpoint_energy`, which starts behind the first point.
  unfoldable pub first_above : D → D → List (ChargingPoint D) → D
  first_above bound otherwise [] = otherwise
  first_above bound otherwise (point ∷ points) =
      if d.lt bound point.energy_wh then point.energy_wh else first_above bound otherwise points

  unfoldable pub behind_first : List (ChargingPoint D) → List (ChargingPoint D)
  behind_first [] = []
  behind_first (point ∷ points) = points

  unfoldable pub next_breakpoint_energy : ChargingCurve D → D → D
  next_breakpoint_energy curve energy_wh =
      first_above (d.add energy_wh (d.decimal 1 8)) (capacity_wh curve) (behind_first curve.points)

  -- `std::sort` and `std::unique` of `charging_curve_no_slower`; `unique` compares with the last
  -- value that it has kept.
  unfoldable pub insert_value : D → List D → List D
  insert_value a [] = a ∷ []
  insert_value a (b ∷ l) = if d.lt b a then b ∷ insert_value a l else a ∷ b ∷ l

  unfoldable pub sort_values : List D → List D
  unfolding insert_value
  sort_values [] = []
  sort_values (a ∷ l) = insert_value a (sort_values l)

  unfoldable pub spread_from : D → List D → List D
  spread_from kept [] = kept ∷ []
  spread_from kept (a ∷ l) =
      let skipped = spread_from kept l in
      let taken = spread_from a l in
      if d.le (fabs (d.sub kept a)) energy_tolerance then skipped else kept ∷ taken

  unfoldable pub spread_values : List D → List D
  unfolding spread_from
  spread_values [] = []
  spread_values (a ∷ l) = spread_from a l

  -- The last loop, from one breakpoint on.
  unfoldable pub no_slower_from : ChargingCurve D → ChargingCurve D → D → List D → Result Bool
  no_slower_from left right start [] = ok true
  no_slower_from left right start (finish ∷ breakpoints) =
      let rest = no_slower_from left right finish breakpoints in
      if d.le finish (d.add start energy_tolerance) then rest else do
        a ← charge_duration left start finish
        b ← charge_duration right start finish
        if d.lt (d.add b time_tolerance) a then ok false else rest

  unfoldable pub no_slower : ChargingCurve D → ChargingCurve D → List D → Result Bool
  no_slower left right [] = ok true
  no_slower left right (start ∷ breakpoints) = no_slower_from left right start breakpoints

  unfoldable pub charging_curve_no_slower : ChargingCurve D → ChargingCurve D → Result Bool
  charging_curve_no_slower left right = no_slower left right (
      spread_values
        (sort_values (map (λ p. p.energy_wh) left.points ++ map (λ p. p.energy_wh) right.points)))
