-- ===== src/Currency/Rounding/Gaps.antt =====
-- The representable amounts around a number, from its five leading bits (value.go, `Rounded`).
use openpcc.Base.{
  ℕ, suc, ◌+◌, ◌-◌, ◌*◌, ◌/◌, ◌^◌, ◌≤◌, ◌<◌, ◌≡◌, refl, ap, ◌∙◌, ◌≢◌, inl, inr, ltb, Bool-cases,
  ltb-false, ltb→lt, arith,
}
use openpcc.Base.Words.{len64, pow-pos, pow_add}
use openpcc.Currency.{max_amount}
use openpcc.Currency.Exact.{IsRepresentable, bounds, pow-len, exponent_le}
use mathlib.Core.Path.{ap₂}
use native.Mathlib.Nat.{
  lt_of_mul-lt-mul_right, div-mul-le_self, lt-div-mul-add, pow-suc, pow-le-pow_right,
  mul-le-mul_right,
}

between : (t k m e : ℕ) → 16 ≤ t → m < 32 → t * 2 ^ k < m * 2 ^ e → (t + 1) * 2 ^ k ≤ m * 2 ^ e
between t k m e lo hi above = elim (Bool-cases (ltb e k)) [
  | inl finer ↦ absurd (
      omega (
        arith,
        above,
        pow-suc 2 e,
        mul-le-mul_right {m = 16} {n = t} (2 ^ k) lo,
        mul-le-mul_right {m = m} {n = 31} (2 ^ e) (omega arith),
        pow-pos e,
        pow-le-pow_right {n = 2} (omega arith) {i = suc e} {j = k} (ltb→lt _ _ finer),
      ))
  | inr coarser ↦
      let split : 2 ^ e ≡ 2 ^ (e - k) * 2 ^ k =
        ap (λ (u : ℕ). 2 ^ u) (omega (arith, ltb-false _ _ coarser)) ∙ pow_add (e - k) k in
      let same : m * 2 ^ e ≡ m * 2 ^ (e - k) * 2 ^ k = rw split (omega arith) in
      let less =
        lt_of_mul-lt-mul_right (2 ^ k) {m = t} {n = m * 2 ^ (e - k)} (omega (arith, above, same)) in
      rw same (mul-le-mul_right (2 ^ k) (omega (arith, less)))
]

carried : (k : ℕ) (t : ℕ) → t ≡ 31 → (t + 1) * 2 ^ k ≡ 16 * 2 ^ suc k
carried k t full = rw (full, pow-suc) (omega arith)

-- The weight of the last of the five leading bits, and those bits.
abbrev pub weight : ℕ → ℕ
weight f = 2 ^ (len64 f - 5)

abbrev pub leading : ℕ → ℕ
leading f = f / weight f

-- The five leading bits of a number from 32 to the maximum, and the bounds that they give.
module _ (f : ℕ) (big : 32 ≤ f) (fits : f ≤ max_amount) where
  pub top_range :
      (16 ≤ leading f)
      × (leading f < 32)
      × (leading f * weight f ≤ f)
      × (f < (leading f + 1) * weight f)
  top_range =
      let p = pow-pos (len64 f - 5) in
      let low = div-mul-le_self f (weight f) in
      let next : f < (leading f + 1) * weight f = omega (arith, lt-div-mul-add {a = f} p) in
      let (below, above) = bounds f (omega arith) fits in
      let whole = pow-len f (omega arith) fits in
      (
        omega (
          arith,
          lt_of_mul-lt-mul_right (weight f) {m = 16} {n = leading f + 1}
              (omega (arith, next, above, whole)),
        ),
        lt_of_mul-lt-mul_right (weight f) {m = leading f} {n = 32}
            (omega (arith, low, below, whole)),
        low,
        next,
      )

  pub top-IsRepresentable : IsRepresentable (leading f * weight f)
  top-IsRepresentable =
      let (lo, hi, _, _) = top_range in
      inr (leading f, len64 f - 5, lo, hi, exponent_le f (omega arith) fits, refl)

  room : leading f ≡ 31 → leading f * weight f ≢ max_amount → suc (len64 f - 5) ≤ 30
  room full ne = elim (Bool-cases (ltb (len64 f - 5) 30)) [
    | inl less ↦ ltb→lt _ _ less
    | inr most ↦
        let k : len64 f - 5 ≡ 30 =
          omega (arith, ltb-false _ _ most, exponent_le f (omega arith) fits) in
        absurd (ne (ap₂ (λ (t u : ℕ). t * 2 ^ u) full k))
  ]

  -- The next amount is representable too, but above the maximum.
  pub next-IsRepresentable :
      leading f * weight f ≢ max_amount → IsRepresentable ((leading f + 1) * weight f)
  next-IsRepresentable ne = elim (Bool-cases (ltb (leading f) 31)) [
    | inl five ↦
        let (lo, hi, _, _) = top_range in
        inr (
          leading f + 1,
          len64 f - 5,
          omega (arith, lo),
          omega (arith, ltb→lt _ _ five),
          exponent_le f (omega arith) fits,
          refl,
        )
    | inr carry ↦
        let k = len64 f - 5 in
        let full : leading f ≡ 31 = omega (arith, top_range, ltb-false _ _ carry) in
        inr (16, suc k, omega arith, omega arith, room full ne, carried k (leading f) full)
  ]

  -- No representable amount lies strictly between the two.
  pub no_between :
      (b : ℕ) → IsRepresentable b → leading f * weight f < b → (leading f + 1) * weight f ≤ b
  no_between b (inl small) above =
      absurd (omega (arith, top_range, pow-pos (len64 f - 5), at_least))
    where
      at_least : 16 * weight f ≤ leading f * weight f
      at_least = mul-le-mul_right (weight f) top_range.0
  no_between b (inr (m, e, lo, hi, bound, same)) above =
      rw same (between (leading f) (len64 f - 5) m e top_range.0 hi (rw same at above))
