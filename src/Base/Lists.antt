-- ===== src/Base/Lists.antt =====
-- Lists measured and indexed by native numbers, and the predicate `All`.
use Prim.Native.Nat.{ℕ, zero, suc, ◌+◌, ◌-◌, ◌≤◌}
use mathlib.Core.Path.{◌≡◌, refl, ap, ◌∙◌, subst}
use mathlib.Core.Logic.{◌⊎◌, inl, inr}
use mathlib.Core.Bool.{Bool, true, false}
use mathlib.Core.List.{List, [], ◌∷◌, ◌++◌}
use mathlib.Core.Option.{Option, none, some}
use native.Mathlib.Omega.{arith}
use openpcc.Base.Tests.{if◌then◌else◌, Bool-cases}

module _ {ℓ} {A : Type ℓ} where
  abbrev pub length : List A → ℕ
  length [] = 0
  length (x ∷ xs) = suc (length xs)

  abbrev pub get_elem? : List A → ℕ → Option A
  get_elem? [] i = none
  get_elem? (x ∷ xs) zero = some x
  get_elem? (x ∷ xs) (suc i) = get_elem? xs i

  abbrev pub take : ℕ → List A → List A
  take zero xs = []
  take (suc n) [] = []
  take (suc n) (x ∷ xs) = x ∷ take n xs

  abbrev pub drop : ℕ → List A → List A
  drop zero xs = xs
  drop (suc n) [] = []
  drop (suc n) (x ∷ xs) = drop n xs

  -- The list without the element at an index.
  abbrev pub remove_at : ℕ → List A → List A
  remove_at i [] = []
  remove_at zero (x ∷ xs) = xs
  remove_at (suc i) (x ∷ xs) = x ∷ remove_at i xs

  pub length-append : (xs ys : List A) → length (xs ++ ys) ≡ length xs + length ys
  length-append [] ys = omega arith
  length-append (x ∷ xs) ys = omega (arith, length-append xs ys)

  pub take-append-drop : (n : ℕ) (xs : List A) → take n xs ++ drop n xs ≡ xs
  take-append-drop zero xs = refl
  take-append-drop (suc n) [] = refl
  take-append-drop (suc n) (x ∷ xs) = rw (take-append-drop n xs)

  pub length-drop : (n : ℕ) (xs : List A) → length (drop n xs) ≡ length xs - n
  length-drop zero xs = omega arith
  length-drop (suc n) [] = omega arith
  length-drop (suc n) (x ∷ xs) = omega (arith, length-drop n xs)

  pub length-take : (n : ℕ) (xs : List A) → n ≤ length xs → length (take n xs) ≡ n
  length-take zero xs h = refl
  length-take (suc n) [] h = absurd (omega arith)
  length-take (suc n) (x ∷ xs) h = ap suc (length-take n xs (omega arith))

  abbrev pub All {κ} : (A → Type κ) → List A → Type κ
  All P [] = Unit {κ}
  All P (x ∷ xs) = P x × All P xs

module _ {A : Type 0} where
  -- An element is one of a list.
  abbrev pub Among : A → List A → Type 0
  Among x [] = ⊥
  Among x (y ∷ ys) = (x ≡ y) ⊎ Among x ys

  abbrev pub filter : (A → Bool) → List A → List A
  filter test [] = []
  filter test (x ∷ xs) = let rest = filter test xs in if test x then x ∷ rest else rest

  pub filter-Among :
      (test : A → Bool) (x : A) (xs : List A)
      → Among x (filter test xs)
      → Among x xs × (test x ≡ true)
  filter-Among test x [] among = absurd among
  filter-Among test x (y ∷ ys) among = elim (Bool-cases (test y)) [
    | inl kept ↦ elim (kept_head kept among) [
      | inl same ↦ (inl same, ap test same ∙ kept)
      | inr later ↦ let (there, passes) = filter-Among test x ys later in (inr there, passes)
    ]
    | inr dropped ↦
        let (there, passes) = filter-Among test x ys (dropped_head dropped among) in
        (inr there, passes)
  ]
    where
      kept_head :
          test y ≡ true → Among x (filter test (y ∷ ys)) → (x ≡ y) ⊎ Among x (filter test ys)
      kept_head kept h =
          subst (λ b. Among x (if b then y ∷ filter test ys else filter test ys)) kept h

      dropped_head : test y ≡ false → Among x (filter test (y ∷ ys)) → Among x (filter test ys)
      dropped_head dropped h =
          subst (λ b. Among x (if b then y ∷ filter test ys else filter test ys)) dropped h

  abbrev pub weight : (A → Bool) → A → ℕ
  weight test x = if test x then 1 else 0

  -- How many elements pass a test.
  abbrev pub count : (A → Bool) → List A → ℕ
  count test [] = 0
  count test (x ∷ xs) = weight test x + count test xs

  pub count-append :
      (test : A → Bool) (xs ys : List A) → count test (xs ++ ys) ≡ count test xs + count test ys
  count-append test [] ys = omega arith
  count-append test (x ∷ xs) ys = omega (arith, count-append test xs ys)

  -- Taking out the element at an index.
  pub count-remove_at :
      (test : A → Bool) (i : ℕ) (x : A) (xs : List A)
      → get_elem? xs i ≡ some x
      → (count test xs ≡ weight test x + count test (remove_at i xs))
        × (length xs ≡ suc (length (remove_at i xs)))
  count-remove_at test i x [] h = absurd (ground (arith, h))
  count-remove_at test zero x (y ∷ ys) h =
      let same : y ≡ x = ground (arith, h) in (omega (arith, ap (weight test) same), refl)
  count-remove_at test (suc i) x (y ∷ ys) h =
      let (counts, lengths) = count-remove_at test i x ys h in
      (omega (arith, counts), omega (arith, lengths))
