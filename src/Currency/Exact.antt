-- ===== src/Currency/Exact.antt =====
-- `Exact` and `Amount` (value.go) are inverse to each other, and `Exact` accepts just the amounts
-- of five significant bits.
use openpcc.Base.{
  ℕ, suc, ◌+◌, ◌-◌, ◌*◌, ◌/◌, ◌%◌, ◌^◌, ◌≤◌, ◌<◌, bit_and, bit_or, ◌≡◌, ap, ◌∙◌, false, inl, inr,
  ◌⊎◌, ltb, Result, ok, err, Bool-cases, ltb-false, ltb→lt, arith,
}
use openpcc.Base.Int.{ℤ, pos, negsuc}
use openpcc.Base.Words.{
  int64_of_small, len64, trailing_zeros64, len64_unique, len64_bounds, zeros_loop_max,
  zeros_loop_divides, pow-pos, pow_four, pow_add,
}
use openpcc.Currency.{Value, Error, max_amount, create_exact_unsafe, amount}
use openpcc.Currency.Error.{negative_unrepresentable, overflow, no_exact_representation}
use openpcc.Currency.Bits.{drop_leading, join, read_mantissa}
use native.Mathlib.Nat.{
  mul-div_cancel, le_of_mul-le-mul_right, lt_of_mul-lt-mul_right, pow-suc, pow-le-pow_right,
}

-- The constructor's field is a uint16 of which only the low nine bits are used.
abbrev pub IsWellFormed : Value → Type 0
IsWellFormed c = c.value < 512

-- The amounts that a value can hold: below 16, or a five-bit mantissa at an exponent of at most 30.
abbrev pub IsRepresentable : ℕ → Type 0
IsRepresentable a =
    (a < 16) ⊎ ((m : ℕ) × (e : ℕ) × (16 ≤ m) × (m < 32) × (e ≤ 30) × (a ≡ m * 2 ^ e))

abbrev pub plain : ℕ → Value
plain v = record { shift = false; value = v }

module _ (m e : ℕ) (lo : 16 ≤ m) (hi : m < 32) (small : e ≤ 30) where
  pub scaled_le : m * 2 ^ e ≤ 31 * 2 ^ 30
  scaled_le = grind (arith, pow-le-pow_right {n = 2} (omega arith) small)

  pub scaled_ge : 16 ≤ m * 2 ^ e
  scaled_ge = grind (arith, pow-pos e)

  pub len-scaled : len64 (m * 2 ^ e) ≡ e + 5
  len-scaled =
      len64_unique (e + 4) (m * 2 ^ e) (grind (arith, pow_four e))
        (rw (pow-suc 2 (e + 4)) (grind (arith, pow_four e, pow-pos e))) (omega (arith, scaled_le))
      ∙ omega arith

  pub zeros-scaled : e ≤ trailing_zeros64 (m * 2 ^ e)
  unfolding trailing_zeros64
  zeros-scaled = zeros_loop_max 64 e m (omega arith)

  shifted-scaled : m * 2 ^ e / 2 ^ (e + 5 - 5) ≡ m
  shifted-scaled = let same : e + 5 - 5 ≡ e = omega arith in rw same (mul-div_cancel m (pow-pos e))

  encoded :
      bit_or ((e + 5 - 4) * 16) (bit_and (m * 2 ^ e / 2 ^ (e + 5 - 5)) 15) % 65536
      ≡ (e + 1) * 16 + (m - 16)
  encoded =
      let bias : e + 5 - 4 ≡ e + 1 = omega arith in
      let low : m % 16 ≡ m - 16 = omega arith in
      rw
        (
          shifted-scaled,
          bias,
          drop_leading m hi,
          low,
          join (e + 1) (m - 16) (omega arith) (omega arith),
        )
        (omega arith)

  -- A mantissa of five bits with its exponent has a value, whose exponent is biased by one.
  pub create_exact-scaled : create_exact_unsafe (m * 2 ^ e) ≡ ok (plain ((e + 1) * 16 + (m - 16)))
  unfolding create_exact_unsafe
  create_exact-scaled = rw (len-scaled, encoded) (ground (arith, zeros-scaled, scaled_ge))

  -- Reading that value gives the amount back: the shift does not leave the int64.
  pub amount-scaled : amount (plain ((e + 1) * 16 + (m - 16))) ≡ ok (pos (m * 2 ^ e))
  unfolding amount
  amount-scaled =
      let v = (e + 1) * 16 + (m - 16) in
      let exponent : v / 16 ≡ e + 1 = omega arith in
      let drop_one : e + 1 - 1 ≡ e = omega arith in
      let leading : v % 16 + 16 ≡ m = omega arith in
      rw
        (
          read_mantissa v (omega arith),
          exponent,
          drop_one,
          leading,
          int64_of_small (m * 2 ^ e) (omega (arith, scaled_le)),
        )
        (ground arith)

module _ (a : ℕ) (big : 16 ≤ a) (fits : a ≤ max_amount) where
  pub bounds : (a < 2 ^ len64 a) × (2 ^ len64 a ≤ 2 * a)
  bounds = len64_bounds a (omega arith) (omega arith)

  pub len_ge : 5 ≤ len64 a
  len_ge = elim (Bool-cases (ltb (len64 a) 5)) [
    | inl short ↦ absurd (
        omega (
          arith,
          bounds,
          pow-le-pow_right {n = 2} (omega arith) {i = len64 a} {j = 4}
              (omega (arith, ltb→lt _ _ short)),
        ))
    | inr long ↦ ltb-false _ _ long
  ]

  -- The power of two at the length, by the exponent that is left below the five leading bits.
  pub pow-len : 2 ^ len64 a ≡ 32 * 2 ^ (len64 a - 5)
  pow-len =
      let e : len64 a ≡ suc ((len64 a - 5) + 4) = omega (arith, len_ge) in
      ap (λ (t : ℕ). 2 ^ t) e ∙ omega (arith, pow-suc 2 (len64 a - 5 + 4), pow_four (len64 a - 5))

  pub exponent_le : len64 a - 5 ≤ 30
  exponent_le = elim (Bool-cases (ltb 30 (len64 a - 5))) [
    | inl over ↦ absurd (
        omega (
          arith,
          bounds,
          pow-len,
          pow-le-pow_right {n = 2} (omega arith) {i = 31} {j = len64 a - 5} (ltb→lt _ _ over),
        ))
    | inr within ↦ ltb-false _ _ within
  ]

  -- Enough trailing zeros leave five significant bits.
  pub significant :
      len64 a - trailing_zeros64 a ≤ 5 → (m : ℕ) × (16 ≤ m) × (m < 32) × (a ≡ m * 2 ^ (len64 a - 5))
  unfolding trailing_zeros64
  significant few =
      let e = len64 a - 5 in
      let z = trailing_zeros64 a in
      let (q, whole) = zeros_loop_divides 64 a in
      let split : 2 ^ z ≡ 2 ^ (z - e) * 2 ^ e =
        ap (λ (t : ℕ). 2 ^ t) (omega (arith, len_ge)) ∙ pow_add (z - e) e in
      let m = q * 2 ^ (z - e) in
      let same : a ≡ m * 2 ^ e = whole ∙ rw split (omega arith) in
      (
        m,
        le_of_mul-le-mul_right {k = 2 ^ e} (omega (arith, bounds, pow-len, same)) (pow-pos e),
        lt_of_mul-lt-mul_right (2 ^ e) (omega (arith, bounds, pow-len, same)),
        same,
      )

-- What `Exact` returns: an error for a negative amount, for one above the maximum, and for one that
-- is not representable; else a value whose amount is the argument.
abbrev pub ExactReturns : ℤ → Result Error Value → Type 0
ExactReturns (negsuc n) r = r ≡ err negative_unrepresentable
ExactReturns (pos a) r =
    ((max_amount < a) × (r ≡ err overflow))
    ⊎ (((a ≤ max_amount) × (¬ IsRepresentable a) × (r ≡ err no_exact_representation))
        ⊎ (IsRepresentable a
            × ((c : Value) × (r ≡ ok c)
                × IsWellFormed c
                × (c.shift ≡ false)
                × (amount c ≡ ok (pos a)))))

pub create_exact-small : (a : ℕ) → a < 16 → create_exact_unsafe a ≡ ok (plain a)
unfolding create_exact_unsafe
create_exact-small a h = ground arith

pub amount-small : (a : ℕ) → a < 16 → amount (plain a) ≡ ok (pos a)
unfolding amount
amount-small a h = ground arith

pub create_exact-many :
    (a : ℕ)
    → 16 ≤ a
    → 5 < len64 a - trailing_zeros64 a
    → create_exact_unsafe a ≡ err no_exact_representation
unfolding create_exact_unsafe
create_exact-many a h many = ground arith

-- A representable amount has at most five significant bits.
pub representable_few : (a : ℕ) → 16 ≤ a → IsRepresentable a → len64 a - trailing_zeros64 a ≤ 5
representable_few a big (inl small) = absurd (omega arith)
representable_few a big (inr (m, e, lo, hi, bound, same)) =
    rw same (omega (arith, len-scaled m e lo hi bound, zeros-scaled m e lo hi bound))
