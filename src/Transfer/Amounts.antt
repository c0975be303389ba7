-- ===== src/Transfer/Amounts.antt =====
-- The check that withdrawn credits are all of one amount.
use openpcc.Base.{◌≡◌, ◌⊎◌, refl, sym, none, some, List, [], ◌∷◌, map, inl, inr, Bool-cases}
use openpcc.Base.Int.{ℤ}
use openpcc.Base.Dict.{◌===◌, int_eq, eq_of_beq, ne_of_beq}
use openpcc.Currency.{Value, amount_or_zero}
use openpcc.Wallet.{BlindedCredit}
use openpcc.Transfer.{amounts_after, amounts_of}

abbrev pub credit_amount : BlindedCredit → ℤ
credit_amount c = amount_or_zero c.value

abbrev pub AllOf : ℤ → List BlindedCredit → Type 0
AllOf a [] = Unit
AllOf a (c ∷ cs) = (a ≡ credit_amount c) × AllOf a cs

abbrev pub OneAmount : List BlindedCredit → Type 0
OneAmount [] = Unit
OneAmount (c ∷ cs) = AllOf (credit_amount c) cs

abbrev pub values : List BlindedCredit → List Value
values cs = map (λ c. c.value) cs

amounts_after-cases :
    (a : ℤ) (cs : List BlindedCredit)
    → ((amounts_after a cs ≡ some (values cs)) × AllOf a cs)
      ⊎ ((amounts_after a cs ≡ none) × ¬ AllOf a cs)
unfolding amounts_after
amounts_after-cases a [] = inl (refl, tt)
amounts_after-cases a (c ∷ cs) = elim (Bool-cases (a === credit_amount c)) [
  | inr other ↦
      inr (rw (amounts_after, other) refl, λ (h, hs). ne_of_beq a (credit_amount c) other h)
  | inl same ↦
      let eq = eq_of_beq a (credit_amount c) same in
      elim (amounts_after-cases a cs) [
        | inl (h, hs) ↦ inl (rw (amounts_after, same, sym eq, h) refl, (eq, hs))
        | inr (h, not) ↦ inr (rw (amounts_after, same, sym eq, h) refl, λ (_, hs). not hs)
      ]
]

pub amounts_of-cases :
    (cs : List BlindedCredit)
    → ((amounts_of cs ≡ some (values cs)) × OneAmount cs)
      ⊎ ((amounts_of cs ≡ none) × ¬ OneAmount cs)
unfolding amounts_of
amounts_of-cases [] = inl (refl, tt)
amounts_of-cases (c ∷ cs) = elim (amounts_after-cases (credit_amount c) cs) [
  | inl (h, hs) ↦ inl (rw (amounts_of, h) refl, hs)
  | inr (h, not) ↦ inr (rw (amounts_of, h) refl, not)
]
