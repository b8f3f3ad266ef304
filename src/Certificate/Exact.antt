-- ===== src/Certificate/Exact.antt =====
-- Exact values for sp_dual_certificate.hpp: sums over the chosen columns in the integers, and the
-- partitions of the rows that the set-partitioning model ranges over.
use ils_sp.Prelude.{
  ℕ, zero, suc, ◌+◌, ◌<◌, ◌≡◌, refl, Bool, true, false, List, [], ◌∷◌, length, get_or, set,
  replicate, All, arith, to_nat, if◌then◌else◌,
}
use ils_sp.Prelude.Int.{ℤ, pos, ◌+ℤ◌, ◌≤ℤ◌, int_laws, parts_of_eq, eq_of_parts}
use mathlib.Core.Path.{subst}
use native.Mathlib.Nat.{suc-add, zero-add}

-- The number of chosen columns among those of a row.
abbrev pub hits : List Bool → List ℕ → ℕ
hits x [] = 0
hits x (j ∷ row) = to_nat (get_or x j false) + hits x row

-- A choice of columns that covers every row exactly once: a feasible point of Ax = 1.
pub record IsPartition {ℓ} {A : Type ℓ} (costs : List A) (incidence : List (List ℕ)) (x : List Bool)
    : Type 0 where
  pub sized : length x ≡ length costs
  pub covers : All (λ row. hits x row ≡ 1) incidence

-- The integer `n` times `y`.
abbrev pub times : ℕ → ℤ → ℤ
times zero y = pos 0
times (suc n) y = y +ℤ times n y

pub times-add :
    (b : Bool) (n : ℕ) (y : ℤ) → times (to_nat b + n) y ≡ times (to_nat b) y +ℤ times n y
times-add true n y = rw (suc-add, zero-add) (eq_of_parts _ _ (omega int_laws))
times-add false n y = rw zero-add (eq_of_parts _ _ (omega int_laws))

-- A row that the choice meets exactly once adds `y` itself.
pub times_once :
    (n : ℕ) (y before after : ℤ) → n ≡ 1 → times n y +ℤ before ≤ℤ after → y +ℤ before ≤ℤ after
times_once n y before after e h =
    let g : times 1 y +ℤ before ≤ℤ after = subst (λ m. times m y +ℤ before ≤ℤ after) e h in
    omega int_laws

-- A raised entry of `ay_upper` in the exact sum, where column `j` is chosen or not.
pub raised_sum :
    (b : Bool) (old new y before after : ℤ)
    → after +ℤ (if b then old else pos 0) ≡ before +ℤ (if b then new else pos 0)
    → old +ℤ y ≤ℤ new
    → times (to_nat b) y +ℤ before ≤ℤ after
raised_sum true old new y before after e h = omega (int_laws, parts_of_eq e)
raised_sum false old new y before after e h = omega (int_laws, parts_of_eq e)

module _ {D : Type 0} (value : D → ℤ) where
  -- The exact sum of the values of the chosen columns.
  unfoldable pub chosen_sum : List Bool → List D → ℤ
  chosen_sum [] cs = pos 0
  chosen_sum (b ∷ x) [] = pos 0
  chosen_sum (b ∷ x) (c ∷ cs) = (if b then value c else pos 0) +ℤ chosen_sum x cs

  pub chosen_sum-set :
      (x : List Bool) (cs : List D) (j : ℕ) (c e : D)
      → j < length cs
      → length x ≡ length cs
      → chosen_sum x (set cs j c) +ℤ (if get_or x j false then value (get_or cs j e) else pos 0)
        ≡ chosen_sum x cs +ℤ (if get_or x j false then value c else pos 0)
  unfolding chosen_sum
  chosen_sum-set x [] j c e h k = absurd (omega arith)
  chosen_sum-set [] (b ∷ cs) j c e h k = absurd (omega arith)
  chosen_sum-set (true ∷ x) (b ∷ cs) zero c e h k = omega int_laws
  chosen_sum-set (false ∷ x) (b ∷ cs) zero c e h k = omega int_laws
  chosen_sum-set (t ∷ x) (b ∷ cs) (suc j) c e h k =
      let ih = chosen_sum-set x cs j c e (omega arith) (omega arith) in
      omega (int_laws, parts_of_eq ih)

  pub chosen_sum-replicate :
      (x : List Bool) (n : ℕ) (c : D) → value c ≡ pos 0 → chosen_sum x (replicate n c) ≡ pos 0
  unfolding chosen_sum
  chosen_sum-replicate [] n c h = refl
  chosen_sum-replicate (b ∷ x) zero c h = refl
  chosen_sum-replicate (true ∷ x) (suc n) c h =
      omega (int_laws, parts_of_eq (chosen_sum-replicate x n c h), parts_of_eq h)
  chosen_sum-replicate (false ∷ x) (suc n) c h =
      omega (int_laws, parts_of_eq (chosen_sum-replicate x n c h))
