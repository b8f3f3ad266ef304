-- ===== src/Prelude/Results.antt =====
-- A call that returns, or that throws one of the exceptions that the source names.
use mathlib.Core.Path.{◌≡◌, refl, subst}
use mathlib.Core.Bool.{Bool, true, false}
use ils_sp.Prelude.Tests.{if◌then◌else◌}

infixl 5 ◌>>=◌ ◌>>◌
pub data Exception : Type 0 where
  invalid_argument out_of_range logic_error runtime_error : Exception

pub data Result {ℓ} (T : Type ℓ) : Type ℓ where
  throw : Exception → Result T
  ok : T → Result T

-- An exception leaves the rest of the block undone.
abbrev pub ◌>>=◌ {ℓ κ} : {T : Type ℓ} {U : Type κ} → Result T → (T → Result U) → Result U
throw x >>= rest = throw x
ok v >>= rest = rest v

abbrev pub ◌>>◌ {κ} : {U : Type κ} → Result (Unit {0}) → Result U → Result U
call >> next = call >>= λ _. next

-- `if (bad) throw e;`
abbrev pub throw_if : Bool → Exception → Result (Unit {0})
throw_if true x = throw x
throw_if false x = ok tt

-- Inversion of a call that returned.
pub >>=-eq-ok {ℓ κ} :
    {T : Type ℓ} {U : Type κ} (call : Result T) (rest : T → Result U) {u : U}
    → (call >>= rest) ≡ ok u
    → (v : T) × (call ≡ ok v) × (rest v ≡ ok u)
>>=-eq-ok (throw x) rest returned = cc
>>=-eq-ok (ok v) rest returned = (v, refl, returned)

-- Partial correctness: what a call returns, if it returns.
module _ {ℓ κ} {T : Type ℓ} (P : T → Type κ) where
  abbrev pub Returns : Result T → Type κ
  Returns (throw x) = Unit {κ}
  Returns (ok v) = P v

  pub Returns->>= {ι} :
      {U : Type ι} (call : Result U) (rest : U → Result T)
      → ((u : U) → call ≡ ok u → Returns (rest u))
      → Returns (call >>= rest)
  Returns->>= (throw x) rest h = tt
  Returns->>= (ok u) rest h = h u refl

  pub Returns-if :
      (b : Bool) (x y : Result T)
      → (b ≡ true → Returns x)
      → (b ≡ false → Returns y)
      → Returns (if b then x else y)
  Returns-if true x y h k = h refl
  Returns-if false x y h k = k refl

  pub Returns-ok : (call : Result T) (v : T) → call ≡ ok v → Returns call → P v
  Returns-ok (throw x) v e h = absurd cc
  Returns-ok (ok u) v e h = let same : u ≡ v = cc in subst (λ t. P t) same h

pub Returns-weaken {ℓ κ ι} :
    {T : Type ℓ} (P : T → Type κ) (Q : T → Type ι) (call : Result T)
    → ((v : T) → P v → Q v)
    → Returns P call
    → Returns Q call
Returns-weaken P Q (throw x) h r = tt
Returns-weaken P Q (ok v) h r = h v r
