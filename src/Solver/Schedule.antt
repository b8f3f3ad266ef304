-- ===== src/Solver/Schedule.antt =====
-- When `assemble_routes` of src/solver.cpp calls the set-partitioning model.
use native.Mathlib.Nat.{mod-add-mod, mod-eq_of_lt, mod-lt}
use ils_sp.Prelude.{
  ℕ, ◌+◌, ◌-◌, ◌%◌, ◌^◌, ◌≤◌, ◌<◌, ◌≡◌, Bool, true, false, not, ◌&&◌, ◌||◌, inl, inr, Option, none,
  some, nat_eq, nat_eq_iff, Option-cases, sym, ◌∙◌, ltb, leb, if◌then◌else◌, length, arith,
}
use ils_sp.Double.{Double}
use ils_sp.Core.{Solution}
use ils_sp.Solver.{SolverConfig}
use ils_sp.Solver.Config.{has_value}
use ils_sp.Solver.Members.{Members}

-- The difference of two `std::size_t`.
unfoldable pub size_sub : ℕ → ℕ → ℕ
size_sub a b = (a + 2 ^ 64 - b) % 2 ^ 64

-- A round between two multiples of a period.
between : (f i k : ℕ) → 1 ≤ f → i % f + k < f → (i + k) % f ≡ i % f + k
between f i k h small = sym (mod-add-mod i f k) ∙ mod-eq_of_lt small

size_sub_le : (a b : ℕ) → a < 2 ^ 64 → b ≤ a → b + size_sub a b ≡ a
unfolding size_sub
size_sub_le a b h k = omega arith

module _ {D : Type 0} ⦃d : Double D⦄ where
  unfoldable pub periodic_sp : SolverConfig D → ℕ → Bool
  periodic_sp config iteration = nat_eq (iteration % config.parameters.sp_frequency) 0

  unfoldable pub iterations_until_periodic : SolverConfig D → ℕ → ℕ
  iterations_until_periodic config iteration =
      if nat_eq (iteration % config.parameters.sp_frequency) 0
      then 0
      else config.parameters.sp_frequency - iteration % config.parameters.sp_frequency

  -- The conditions on the two stalls, for a stall limit that is given.
  unfoldable pub stalled : ℕ → ℕ → Members D → Bool
  stalled stall iteration m =
      leb stall (size_sub iteration m.last_best_improvement_iteration)
      && leb stall (size_sub iteration m.last_coverage_improvement_iteration)

  unfoldable pub adaptive_due : SolverConfig D → ℕ → Members D → ℕ → Bool
  adaptive_due config iteration m stall =
      nat_eq (length m.pool.main) m.pool.capacity
      && ltb m.pool_effective_generation_at_last_sp m.pool.effective_generation
      && leb config.adaptive_sp_minimum_interval (size_sub iteration m.last_sp_iteration)
      && leb config.adaptive_sp_minimum_interval (iterations_until_periodic config iteration)
      && stalled stall iteration m

  unfoldable pub adaptive_sp : SolverConfig D → Option (Solution D) → ℕ → Members D → Bool
  adaptive_sp config best iteration m = elim config.adaptive_sp_stall_iterations [
    | none ↦ false
    | some stall ↦
        not (periodic_sp config iteration)
        && has_value best
        && adaptive_due config iteration m stall
  ]

  unfoldable pub run_sp : SolverConfig D → Option (Solution D) → ℕ → Members D → Bool
  run_sp config best iteration m =
      periodic_sp config iteration || adaptive_sp config best iteration m

  -- With a frequency that is not zero, in a round that fits a `std::size_t` and does not lie before
  -- the last call: an adaptive call is due only if the pool is full and has improved since the last
  -- call, the last call is at least the minimum interval back, and this round is none of the
  -- periodic calls, nor is any of the next ones within the interval.
  pub adaptive_sp_spacing :
      (config : SolverConfig D) (best : Option (Solution D)) (iteration : ℕ) (m : Members D) (k : ℕ)
      → 1 ≤ config.parameters.sp_frequency
      → iteration < 2 ^ 64
      → m.last_sp_iteration ≤ iteration
      → k < config.adaptive_sp_minimum_interval
      → adaptive_sp config best iteration m ≡ true
      → (length m.pool.main ≡ m.pool.capacity)
        × (m.pool_effective_generation_at_last_sp < m.pool.effective_generation)
        × (m.last_sp_iteration + config.adaptive_sp_minimum_interval ≤ iteration)
        × (periodic_sp config iteration ≡ false)
        × (periodic_sp config (iteration + k) ≡ false)
  unfolding adaptive_sp adaptive_due periodic_sp iterations_until_periodic
  adaptive_sp_spacing config best iteration m k f fits order near e =
      elim (Option-cases config.adaptive_sp_stall_iterations) [
        | inl off ↦ absurd (cc (rw (adaptive_sp, off) at e))
        | inr (stall, on) ↦
            let due = rw (adaptive_sp, on) at e in
            let aperiodic : nat_eq (iteration % config.parameters.sp_frequency) 0 ≡ false =
              ground (arith, due) in
            let far : iteration % config.parameters.sp_frequency + k
                < config.parameters.sp_frequency =
              ground (arith, due, aperiodic, near, mod-lt iteration f) in
            (
              ground (arith, due, nat_eq_iff (length m.pool.main) m.pool.capacity),
              ground (arith, due),
              ground (arith, due, size_sub_le iteration m.last_sp_iteration fits order),
              aperiodic,
              ground (arith, between config.parameters.sp_frequency iteration k f far, aperiodic),
            )
      ]
