-- ===== src/Solver/Epochs.antt =====
-- The epochs of src/solver.cpp: an anchor to return to, and when exploration starts and ends.
pub mod Deferral
use ils_sp.Prelude.{
  ℕ, suc, ◌+◌, Bool, true, false, not, ◌&&◌, ◌||◌, Option, none, some, List, [], ◌∷◌, nat_eq, ltb,
  leb, if◌then◌else◌,
}
use ils_sp.Double.{Double, cost_tolerance}
use ils_sp.Core.{Solution, solution_feasible, solution_cost}
use ils_sp.Pool.{counted_up}

-- The variables that the two epoch functions take by reference.
pub record Epoch (D : Type 0) : Type 0 where
  pub anchor : Option (Solution D)
  pub current : Solution D
  pub epoch_generation : ℕ
  pub productive : Bool
  pub exploring : Bool
  pub entries : ℕ
  pub record_exits : ℕ
  pub epoch_exits : ℕ
  pub exploit_epoch_age : ℕ

abbrev pub maximum_exploit_epoch_age : ℕ
maximum_exploit_epoch_age = 6

abbrev pub or_else {ℓ} : {A : Type ℓ} → Option A → A → A
or_else none a = a
or_else (some b) a = b

module _ {D : Type 0} ⦃d : Double D⦄ where
  -- `anchor.has_value() && candidate.raw_cost_h() >= anchor->raw_cost_h() - kCostTolerance`.
  unfoldable pub dear_beside : Solution D → Option (Solution D) → Bool
  dear_beside candidate none = false
  dear_beside candidate (some anchor) =
      d.le (d.sub (solution_cost anchor) cost_tolerance) (solution_cost candidate)

  -- `improve_epoch_anchor`.
  unfoldable pub improve_epoch_anchor :
      Solution D → Option (Solution D) → Bool × Option (Solution D)
  improve_epoch_anchor candidate anchor =
      if not (solution_feasible candidate) || dear_beside candidate anchor
      then (false, anchor)
      else (true, some candidate)

  -- `accept_epoch_record`.
  unfoldable pub accept_epoch_record : Solution D → Epoch D → Epoch D
  accept_epoch_record candidate e = record e {
    productive = true;
    exploit_epoch_age = 0;
    anchor = (improve_epoch_anchor candidate e.anchor).1;
    exploring = false;
    record_exits = if e.exploring then counted_up e.record_exits 1 else e.record_exits;
  }

  -- The three cases of `finish_assembler_epoch`.
  unfoldable pub end_exploration : Epoch D → Epoch D
  end_exploration e = record e {
    current = or_else e.anchor e.current;
    exploring = false;
    exploit_epoch_age = 0;
    epoch_exits = counted_up e.epoch_exits 1;
  }

  unfoldable pub age_exploitation : ℕ → Epoch D → Epoch D
  age_exploitation pool_generation e =
      let age =
        if ltb e.exploit_epoch_age maximum_exploit_epoch_age
        then e.exploit_epoch_age + 1
        else e.exploit_epoch_age in
      if nat_eq pool_generation e.epoch_generation || leb maximum_exploit_epoch_age age
      then record e { exploit_epoch_age = age; exploring = true; entries = counted_up e.entries 1 }
      else record e { exploit_epoch_age = age }

  unfoldable pub close_epoch : ℕ → Epoch D → Epoch D
  close_epoch pool_generation e =
      if e.productive
      then record e { exploit_epoch_age = 0 }
      else if e.exploring
      then end_exploration e
      else age_exploitation pool_generation e

  -- `finish_assembler_epoch`.
  unfoldable pub finish_assembler_epoch : Bool → Bool → ℕ → Epoch D → Epoch D
  finish_assembler_epoch completed scheduled_boundary pool_generation e =
      if not completed || not scheduled_boundary
      then e
      else record (close_epoch pool_generation e) {
        epoch_generation = pool_generation;
        productive = false;
      }
