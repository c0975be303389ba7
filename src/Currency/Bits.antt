-- ===== src/Currency/Bits.antt =====
-- The bit operations of value.go on the ranges where they are used, as plain arithmetic.
use openpcc.Base.{ℕ, ◌+◌, ◌*◌, ◌/◌, ◌%◌, ◌<◌, bit_and, bit_or, ◌≡◌, refl, true, ◌==◌, ==→eq, arith}
use openpcc.Base.Bits.{table, table-entry}

module _ (f g : ℕ → ℕ) where
  -- Two functions that agree at every value below `n`, by evaluation.
  pub agree : (n : ℕ) → table (λ x. f x == g x) n ≡ true → (x : ℕ) → x < n → f x ≡ g x
  agree n checked x h = ==→eq (f x) (g x) (table-entry (λ x. f x == g x) n x h checked)

-- `mantissa &= 0xF` removes the leading one of five bits.
pub drop_leading : (q : ℕ) → q < 32 → bit_and q 0xF ≡ q % 16
unfolding table
drop_leading = agree (λ q. bit_and q 0xF) (λ q. q % 16) 32 refl

-- `biasedExponent<<4 | mantissa` of the two parts of a nine-bit value.
join_parts : (v : ℕ) → v < 512 → bit_or (v / 16 * 16) (v % 16) ≡ v
unfolding table
join_parts = agree (λ v. bit_or (v / 16 * 16) (v % 16)) (λ v. v) 512 refl

pub join : (b r : ℕ) → b < 32 → r < 16 → bit_or (b * 16) r ≡ b * 16 + r
join b r hb hr =
    let high : (b * 16 + r) / 16 ≡ b = omega arith in
    let low : (b * 16 + r) % 16 ≡ r = omega arith in
    rw (high, low) at (join_parts (b * 16 + r) (omega arith))

-- `(c.value & 0xF) | 0x10`
pub read_mantissa : (v : ℕ) → v < 512 → bit_or (bit_and v 0xF) 0x10 ≡ v % 16 + 16
unfolding table
read_mantissa = agree (λ v. bit_or (bit_and v 0xF) 0x10) (λ v. v % 16 + 16) 512 refl
