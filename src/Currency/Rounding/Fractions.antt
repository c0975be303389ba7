-- ===== src/Currency/Rounding/Fractions.antt =====
-- The floor and the ceiling of a fraction `num / den`.
use openpcc.Base.{ℕ, ◌+◌, ◌-◌, ◌*◌, ◌/◌, ◌≤◌, ◌<◌, arith}
use native.Mathlib.Nat.{lt_of_mul-lt-mul_right, div-mul-le_self, lt-div-mul-add}

module _ (num den : ℕ) (den_pos : 0 < den) where
  pub floor_below : num / den * den ≤ num
  floor_below = div-mul-le_self num den

  pub floor_next : num < (num / den + 1) * den
  floor_next = omega (arith, lt-div-mul-add {a = num} den_pos)

  pub ceil_above : num ≤ (num + (den - 1)) / den * den
  ceil_above = omega (arith, lt-div-mul-add {a = num + (den - 1)} den_pos)

  pub ceil_below : (num + (den - 1)) / den * den < num + den
  ceil_below = omega (arith, div-mul-le_self (num + (den - 1)) den)

  -- The ceiling is the least integer from the fraction on, the floor the greatest up to it.
  pub ceil_least : (b : ℕ) → num ≤ b * den → (num + (den - 1)) / den ≤ b
  ceil_least b h = omega (
    arith,
    lt_of_mul-lt-mul_right den {m = (num + (den - 1)) / den} {n = b + 1}
        (omega (arith, ceil_below)),
  )

  pub floor_greatest : (b : ℕ) → b * den ≤ num → b ≤ num / den
  floor_greatest b h =
      omega
        (arith, lt_of_mul-lt-mul_right den {m = b} {n = num / den + 1} (omega (arith, floor_next)))

  pub ceil-le-floor_next : (num + (den - 1)) / den ≤ num / den + 1
  ceil-le-floor_next = ceil_least (num / den + 1) (omega (arith, floor_next))

  pub floor-le-ceil : num / den ≤ (num + (den - 1)) / den
  floor-le-ceil = omega (
    arith,
    lt_of_mul-lt-mul_right den {m = num / den} {n = (num + (den - 1)) / den + 1}
        (omega (arith, floor_below, ceil_above, den_pos)),
  )
