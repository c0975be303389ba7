-- ===== src/Currency/Inverse.antt =====
-- What `Exact` (value.go) returns for every int64, and that it undoes `Amount`.
use openpcc.Base.{
  ℕ, ◌+◌, ◌-◌, ◌*◌, ◌/◌, ◌%◌, ◌^◌, ◌≤◌, ◌<◌, ◌≡◌, refl, false, inl, inr, ◌⊎◌, ltb, ok, err,
  Bool-cases, ltb-false, ltb→lt, le→ltb-false, arith,
}
use openpcc.Base.Int.{ℤ, pos, negsuc}
use openpcc.Base.Words.{len64, trailing_zeros64}
use openpcc.Base.{Result-cases}
use openpcc.Currency.{amount_or_zero, Value, max_amount, create_exact_unsafe, exact, amount}
use openpcc.Currency.Error.{no_exact_representation}
use openpcc.Currency.Exact.{
  IsWellFormed, IsRepresentable, ExactReturns, plain, scaled_le, create_exact-scaled, amount-scaled,
  create_exact-small, amount-small, create_exact-many, representable_few, significant, exponent_le,
}

-- A representable amount has a value, and the value has that amount.
pub create_exact-representable :
    (a : ℕ)
    → IsRepresentable a
    → (c : Value) × (create_exact_unsafe a ≡ ok c)
      × IsWellFormed c
      × (c.shift ≡ false)
      × (amount c ≡ ok (pos a))
create_exact-representable a (inl small) =
    (plain a, create_exact-small a small, omega arith, refl, amount-small a small)
create_exact-representable a (inr (m, e, lo, hi, bound, same)) = rw same (
  plain ((e + 1) * 16 + (m - 16)),
  create_exact-scaled m e lo hi bound,
  omega arith,
  refl,
  amount-scaled m e lo hi bound,
)

pub representable-le-max : (a : ℕ) → IsRepresentable a → a ≤ max_amount
representable-le-max a (inl small) = omega arith
representable-le-max a (inr (m, e, lo, hi, bound, same)) = rw same (scaled_le m e lo hi bound)

-- Below the maximum a number is representable, or it has more than five significant bits.
create_exact-cases :
    (a : ℕ)
    → a ≤ max_amount
    → IsRepresentable a
      ⊎ ((¬ IsRepresentable a) × (create_exact_unsafe a ≡ err no_exact_representation))
create_exact-cases a fits = elim (Bool-cases (ltb a 16)) [
  | inl small ↦ inl (inl (ltb→lt _ _ small))
  | inr normal ↦
      let big = ltb-false _ _ normal in
      elim (Bool-cases (ltb 5 (len64 a - trailing_zeros64 a))) [
        | inl many ↦ inr (
          λ h. omega (arith, ltb→lt _ _ many, representable_few a big h),
          create_exact-many a big (ltb→lt _ _ many),
        )
        | inr few ↦
            let (m, lo, hi, same) = significant a big fits (ltb-false _ _ few) in
            inl (inr (m, len64 a - 5, lo, hi, exponent_le a big fits, same))
      ]
]

-- `Exact` fails on a negative amount, on one above `MaxAmount`, and on one that no value holds;
-- on any other it returns a well-formed value, without the shift bit, whose `Amount` is the argument.
pub exact_lem : (z : ℤ) → ExactReturns z (exact z)
unfolding exact
exact_lem (negsuc n) = refl
exact_lem (pos a) = elim (Bool-cases (ltb max_amount a)) [
  | inl over ↦ inl (ltb→lt _ _ over, rw over)
  | inr within ↦ rw within (
      let fits = ltb-false _ _ within in
      elim (create_exact-cases a fits) [
        | inl good ↦ inr (inr (good, create_exact-representable a good))
        | inr (bad, e) ↦ inr (inl (fits, bad, e))
      ])
]

plain_inverse :
    (v : ℕ) → v < 512 → (a : ℕ) × (amount (plain v) ≡ ok (pos a)) × (exact (pos a) ≡ ok (plain v))
unfolding exact
plain_inverse v wf = elim (Bool-cases (ltb v 16)) [
  | inl small ↦
      let h = ltb→lt _ _ small in
      (v, amount-small v h, rw (le→ltb-false max_amount v (omega arith)) (create_exact-small v h))
  | inr normal ↦
      let big = ltb-false _ _ normal in
      let m = v % 16 + 16 in
      let e = v / 16 - 1 in
      let code : (e + 1) * 16 + (m - 16) ≡ v = omega arith in
      let fits = scaled_le m e (omega arith) (omega arith) (omega arith) in
      (
        m * 2 ^ e,
        rw code at (amount-scaled m e (omega arith) (omega arith) (omega arith)),
        rw (le→ltb-false max_amount (m * 2 ^ e) fits)
            (rw code at (create_exact-scaled m e (omega arith) (omega arith) (omega arith))),
      )
]

-- Every well-formed value without the shift bit has an amount, and `Exact` maps it back to that value.
pub exact-amount :
    (c : Value)
    → IsWellFormed c
    → c.shift ≡ false
    → (a : ℕ) × (amount c ≡ ok (pos a)) × (exact (pos a) ≡ ok c)
exact-amount c wf unshifted =
    let same : plain c.value ≡ c = cc in
    let (a, reads, writes) = plain_inverse c.value wf in (a, rw same at reads, rw same at writes)

-- The amount of a well-formed value is from 0 to `MaxAmount`.
pub amount_bound :
    (c : Value) (z : ℤ)
    → IsWellFormed c
    → amount c ≡ ok z
    → (a : ℕ) × (z ≡ pos a) × (a ≤ max_amount)
unfolding amount exact
amount_bound c z wf reads = elim (Bool-cases c.shift) [
  | inl special ↦ absurd (ground arith)
  | inr plain ↦ let (a, is_a, back) = exact-amount c wf plain in (a, ground arith, ground arith)
]

pub amount_or_zero-amount : (c : Value) (z : ℤ) → amount c ≡ ok z → amount_or_zero c ≡ z
unfolding amount_or_zero
amount_or_zero-amount c z reads = rw (reads, amount_or_zero) refl

pub amount_or_zero_bound :
    (c : Value) → IsWellFormed c → (a : ℕ) × (amount_or_zero c ≡ pos a) × (a ≤ max_amount)
unfolding amount_or_zero
amount_or_zero_bound c wf = elim (Result-cases (amount c)) [
  | inl (z, reads) ↦
      let (a, is_a, most) = amount_bound c z wf reads in (a, rw (reads, amount_or_zero) is_a, most)
  | inr (e, special) ↦ (0, rw (special, amount_or_zero) refl, omega arith)
]
