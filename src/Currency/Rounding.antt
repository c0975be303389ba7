-- ===== src/Currency/Rounding.antt =====
-- `Rounded` (value.go) returns one of the two representable amounts next to its argument, and the
-- argument itself where it is representable, whatever the rounding factor is.
mod Fractions
mod Gaps
use openpcc.Base.{
  ℕ, zero, suc, ◌+◌, ◌-◌, ◌*◌, ◌/◌, ◌%◌, ◌^◌, ◌≤◌, ◌<◌, ◌≡◌, refl, sym, ap, ◌∙◌, ◌≢◌, Bool, true,
  false, ◌&&◌, inl, inr, ◌⊎◌, ltb, leb, ◌==◌, if◌then◌else◌, Result, ok, err, Bool-cases, ltb-false,
  ltb→lt, leb→le, leb-false, le→ltb-false, ==→eq, ==_false, arith,
}
use openpcc.Base.Int.{ℤ, pos, negsuc}
use openpcc.Base.Words.{len64, pow-pos, pow_add}
use openpcc.Currency.{
  Value, Error, max_amount, create_exact_unsafe, choose_bound, rounded_wide, rounded, amount,
}
use openpcc.Currency.Exact.{IsWellFormed, IsRepresentable, bounds, pow-len, len_ge, exponent_le}
use openpcc.Currency.Inverse.{create_exact-representable}
use mathlib.Core.Path.{ap₂}
use native.Mathlib.Nat.{
  lt_of_mul-lt-mul_right, div-mul-le_self, lt-div-mul-add, pow-suc, pow-le-pow_right,
  mul-le-mul_right, le_trans,
}
use Fractions.{
  floor_below, floor_next, ceil_above, ceil_below, ceil_least, floor_greatest, floor-le-ceil,
  ceil-le-floor_next,
}
use Gaps.{weight, leading, top_range, top-IsRepresentable, next-IsRepresentable, no_between}

-- `a` is the least representable amount from `num / den` on, or the greatest one up to it.
abbrev pub IsNeighbour : (num den a : ℕ) → Type 0
IsNeighbour num den a =
    ((num ≤ a * den) × ((b : ℕ) → IsRepresentable b → num ≤ b * den → a ≤ b))
    ⊎ ((a * den ≤ num) × ((b : ℕ) → IsRepresentable b → b * den ≤ num → b ≤ a))

-- The result holds such an amount.
abbrev pub HoldsNeighbour : (num den : ℕ) → Result Error Value → Type 0
HoldsNeighbour num den r =
    (c : Value) × (a : ℕ) × (r ≡ ok c)
    × IsWellFormed c
    × (c.shift ≡ false)
    × (amount c ≡ ok (pos a))
    × IsNeighbour num den a

holds :
    (num den a : ℕ)
    → IsRepresentable a
    → IsNeighbour num den a
    → HoldsNeighbour num den (create_exact_unsafe a)
holds num den a good near =
    let (c, made, wf, plain, reads) = create_exact-representable a good in
    (c, a, made, wf, plain, reads, near)

-- Every number up to 32 is representable.
low-IsRepresentable : (a : ℕ) → a ≤ 32 → IsRepresentable a
low-IsRepresentable a h = elim (Bool-cases (ltb a 16)) [
  | inl small ↦ inl (ltb→lt _ _ small)
  | inr normal ↦ elim (Bool-cases (ltb a 32)) [
    | inl five ↦ inr (a, 0, ltb-false _ _ normal, ltb→lt _ _ five, omega arith, omega arith)
    | inr six ↦ inr (16, 1, omega arith, omega arith, omega arith, omega (arith, ltb-false _ _ six))
  ]
]

module _ (num den : ℕ) (den_pos : 0 < den) where
  -- Whichever bound the rounding factor picks.
  choose_holds :
      (r s lower upper : ℕ)
      → HoldsNeighbour num den (create_exact_unsafe lower)
      → HoldsNeighbour num den (create_exact_unsafe upper)
      → HoldsNeighbour num den (choose_bound num den r s lower upper)
  unfolding choose_bound
  choose_holds r s lower upper low up =
      elim (Bool-cases (ltb (s * (upper * den - num)) (r * ((upper - lower) * den)))) [
        | inl e ↦ rw e up
        | inr e ↦ rw e low
      ]

  narrow_holds :
      (r s : ℕ)
      → (num + (den - 1)) / den ≤ 32
      → HoldsNeighbour num den (choose_bound num den r s (num / den) ((num + (den - 1)) / den))
  narrow_holds r s small =
      choose_holds r s _ _
        (holds num den _ (low-IsRepresentable _ (omega (arith, floor-le-ceil num den den_pos)))
          (inr (floor_below num den den_pos, λ b _ h. floor_greatest num den den_pos b h)))
        (holds num den _ (low-IsRepresentable _ small)
          (inl (ceil_above num den den_pos, λ b _ h. ceil_least num den den_pos b h)))

wide_lem :
    (num den r s amount : ℕ) (is_integer : Bool)
    → 5 ≤ len64 amount
    → rounded_wide num den r s amount is_integer ≡ (
        if is_integer && leading amount * weight amount == amount
        then create_exact_unsafe amount
        else choose_bound num den r s
            (leading amount * weight amount)
            ((leading amount + 1) * weight amount))
unfolding rounded_wide
wide_lem num den r s amount is_integer h = rw (le→ltb-false _ _ h)

-- The branch for bounds above 32: `f` is the floor of the argument, and above 31.
module _ (num den : ℕ) (den_pos : 0 < den) (wide : 32 < (num + (den - 1)) / den) where
  abbrev f : ℕ
  f = num / den

  abbrev u : ℕ
  u = (num + (den - 1)) / den

  module _ (fits : u ≤ max_amount) where
    big : 32 ≤ f
    big = omega (arith, ceil-le-floor_next num den den_pos)

    f_fits : f ≤ max_amount
    f_fits = omega (arith, floor-le-ceil num den den_pos)

    whole_holds : u ≡ f → leading f * weight f ≡ f → HoldsNeighbour num den (create_exact_unsafe f)
    whole_holds whole exactly =
        holds num den f (rw exactly at (top-IsRepresentable f big f_fits))
          (inr (floor_below num den den_pos, λ b _ h. floor_greatest num den den_pos b h))

    -- Not both an integer and representable.
    module _ (not_exact : u ≡ f → leading f * weight f ≡ f → ⊥) where
      not_full : leading f * weight f ≢ max_amount
      not_full full =
          let (_, _, below, _) = top_range f big f_fits in
          let low = floor-le-ceil num den den_pos in
          not_exact (omega (arith, below, low, fits, full)) (omega (arith, below, f_fits, full))

      -- An amount up to the floor is up to the lower bound; one from the ceiling on is above it.
      not_above : (b : ℕ) → IsRepresentable b → b ≤ f → b ≤ leading f * weight f
      not_above b rep h = elim (Bool-cases (ltb (leading f * weight f) b)) [
        | inl above ↦ absurd (
            omega
              (arith, no_between f big f_fits b rep (ltb→lt _ _ above), top_range f big f_fits, h))
        | inr within ↦ ltb-false _ _ within
      ]

      not_below : (b : ℕ) → u ≤ b → leading f * weight f < b
      not_below b h = elim (Bool-cases (ltb (leading f * weight f) b)) [
        | inl above ↦ ltb→lt _ _ above
        | inr within ↦
            let (_, _, below, _) = top_range f big f_fits in
            let low = floor-le-ceil num den den_pos in
            let under = ltb-false _ _ within in
            absurd (
              not_exact (omega (arith, below, low, under, h)) (omega (arith, below, low, under, h)))
      ]

      lower_holds : HoldsNeighbour num den (create_exact_unsafe (leading f * weight f))
      lower_holds =
          let (_, _, below, _) = top_range f big f_fits in
          holds num den _ (top-IsRepresentable f big f_fits) (
            inr (
              le_trans (mul-le-mul_right den below) (floor_below num den den_pos),
              λ b rep h. not_above b rep (floor_greatest num den den_pos b h),
            ))

      upper_holds : HoldsNeighbour num den (create_exact_unsafe ((leading f + 1) * weight f))
      upper_holds =
          let (_, _, _, above) = top_range f big f_fits in
          let next : u ≤ (leading f + 1) * weight f =
            omega (arith, above, ceil-le-floor_next num den den_pos) in
          holds num den _ (next-IsRepresentable f big f_fits not_full) (
            inl (
              le_trans (ceil_above num den den_pos) (mul-le-mul_right den next),
              λ b rep h.
                  no_between f big f_fits b rep (not_below b (ceil_least num den den_pos b h)),
            ))

    rounded_wide_holds : (r s : ℕ) → HoldsNeighbour num den (rounded_wide num den r s f (f == u))
    rounded_wide_holds r s =
        rw (wide_lem num den r s f (f == u) (len_ge f (omega (arith, big)) f_fits))
          (elim (Bool-cases ((f == u) && leading f * weight f == f)) [
            | inl e ↦ rw e (whole_holds (sym (both_left _ _ e)) (both_right _ _ e))
            | inr e ↦ rw e (
                choose_holds num den den_pos r s _ _ (lower_holds (not_both _ _ e))
                  (upper_holds (not_both _ _ e)))
          ])
      where
        both_left : (a b : ℕ) → ((f == u) && a == b) ≡ true → f ≡ u
        both_left a b e = ground arith

        both_right : (a b : ℕ) → ((f == u) && a == b) ≡ true → a ≡ b
        both_right a b e = ground arith

        not_both : (a b : ℕ) → ((f == u) && a == b) ≡ false → u ≡ f → a ≡ b → ⊥
        not_both a b e whole same = ground arith

-- For a fraction from 0 on whose ceiling is at most `MaxAmount`, `Rounded` succeeds with a well-formed
-- plain value, whose amount is the least representable one from the fraction on or the greatest one
-- up to it, for every rounding factor.
pub rounded_neighbour :
    (num den r s : ℕ)
    → 0 < den
    → (num + (den - 1)) / den ≤ max_amount
    → HoldsNeighbour num den (rounded (pos num) den r s)
unfolding rounded
rounded_neighbour num den r s den_pos fits =
    rw (le→ltb-false _ _ fits) (elim (Bool-cases (leb ((num + (den - 1)) / den) 32)) [
      | inl low ↦ rw low (elim (Bool-cases (num / den == (num + (den - 1)) / den)) [
        | inl whole ↦ rw whole (
            holds num den _ (low-IsRepresentable _ (leb→le _ _ low))
              (inl (ceil_above num den den_pos, λ b _ h. ceil_least num den den_pos b h)))
        | inr part ↦ rw part (narrow_holds num den den_pos r s (leb→le _ _ low))
      ])
      | inr high ↦ rw high (rounded_wide_holds num den den_pos (leb-false _ _ high) fits r s)
    ])
