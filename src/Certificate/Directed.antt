-- ===== src/Certificate/Directed.antt =====
-- The lambdas `down` and `up` of sp_dual_certificate.hpp against the exact sum or difference.
use ils_sp.Prelude.{◌≡◌, Bool, true, false, arith}
use ils_sp.Prelude.Int.{ℤ, ◌+ℤ◌, ◌-ℤ◌, ◌≤ℤ◌}
use ils_sp.Double.{Double, IsRounded, fmin, fmax}
use ils_sp.Certificate.{down, up}

module _ {D : Type 0} ⦃d : Double D⦄ where
  pub down_flag :
      (a : D) (finite : Bool)
      → (down a finite).1 ≡ true
      → (finite ≡ true)
        × (d.is_finite a ≡ true)
        × (d.is_finite (d.next_down a) ≡ true)
        × ((down a finite).0 ≡ d.next_down a)
  unfolding down
  down_flag a finite h = ground arith

  pub up_flag :
      (a : D) (finite : Bool)
      → (up a finite).1 ≡ true
      → (finite ≡ true)
        × (d.is_finite a ≡ true)
        × (d.is_finite (d.next_up a) ≡ true)
        × ((up a finite).0 ≡ d.next_up a)
  unfolding up
  up_flag a finite h = ground arith

  module _ (rounded : IsRounded D) where
    open rounded use {value, down_add, up_add, down_sub, up_sub, lt_iff}

    -- What a directed operation promises while the flag holds.
    pub record Below (a : D) (bound : ℤ) (before : Bool) : Type 0 where
      pub was_finite : before ≡ true
      pub finite : d.is_finite a ≡ true
      pub below : value a ≤ℤ bound

    pub record Above (a : D) (bound : ℤ) (before : Bool) : Type 0 where
      pub was_finite : before ≡ true
      pub finite : d.is_finite a ≡ true
      pub above : bound ≤ℤ value a

    -- A comparison that fails, read back as an order of the exact values.
    pub not_lt_value :
        (a b : D)
        → d.is_finite a ≡ true
        → d.is_finite b ≡ true
        → d.lt a b ≡ false
        → value b ≤ℤ value a
    not_lt_value a b p q h = ground (arith, lt_iff a b p q)

    module _ (a b : D) (p : d.is_finite a ≡ true) (q : d.is_finite b ≡ true) (before : Bool) where
      pub down_sum :
          (down (d.add a b) before).1 ≡ true
          → Below (down (d.add a b) before).0 (value a +ℤ value b) before
      down_sum h =
          let (f, g, k, e) = down_flag (d.add a b) before h in
          rw e (record { was_finite = f; finite = k; below = down_add a b p q g k })

      pub down_difference :
          (down (d.sub a b) before).1 ≡ true
          → Below (down (d.sub a b) before).0 (value a -ℤ value b) before
      down_difference h =
          let (f, g, k, e) = down_flag (d.sub a b) before h in
          rw e (record { was_finite = f; finite = k; below = down_sub a b p q g k })

      pub up_sum :
          (up (d.add a b) before).1 ≡ true
          → Above (up (d.add a b) before).0 (value a +ℤ value b) before
      up_sum h =
          let (f, g, k, e) = up_flag (d.add a b) before h in
          rw e (record { was_finite = f; finite = k; above = up_add a b p q g k })

      pub up_difference :
          (up (d.sub a b) before).1 ≡ true
          → Above (up (d.sub a b) before).0 (value a -ℤ value b) before
      up_difference h =
          let (f, g, k, e) = up_flag (d.sub a b) before h in
          rw e (record { was_finite = f; finite = k; above = up_sub a b p q g k })

      pub fmin_value :
          (d.is_finite (fmin a b) ≡ true)
          × (value (fmin a b) ≤ℤ value a)
          × (value (fmin a b) ≤ℤ value b)
      unfolding fmin
      fmin_value = ground (arith, lt_iff b a q p)

      pub fmax_value :
          (d.is_finite (fmax a b) ≡ true)
          × (value a ≤ℤ value (fmax a b))
          × (value b ≤ℤ value (fmax a b))
      unfolding fmax
      fmax_value = ground (arith, lt_iff a b p q)
