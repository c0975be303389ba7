-- ===== src/Base/Strings.antt =====
-- Go strings as lists of bytes, in the order of their bytes, and the sort of the standard library.
use Prim.Native.Nat.{ℕ}
use mathlib.Core.Path.{◌≡◌, refl}
use mathlib.Core.Logic.{inl, inr}
use mathlib.Core.Bool.{Bool, true, false, not, ◌&&◌}
use mathlib.Core.List.{List, [], ◌∷◌}
use native.Mathlib.Omega.{arith}
use openpcc.Base.Tests.{◌==◌, ltb, if◌then◌else◌, Bool-cases}

-- `s < t`
unfoldable pub str_less : List ℕ → List ℕ → Bool
str_less s [] = false
str_less [] (d ∷ ds) = true
str_less (c ∷ cs) (d ∷ ds) = let rest = str_less cs ds in if c == d then rest else ltb c d

unfoldable pub insert_sorted : List ℕ → List (List ℕ) → List (List ℕ)
insert_sorted s [] = s ∷ []
insert_sorted s (t ∷ ts) =
    let rest = insert_sorted s ts in if str_less t s then t ∷ rest else s ∷ t ∷ ts

-- `sort.Strings`
unfoldable pub sort_strings : List (List ℕ) → List (List ℕ)
sort_strings [] = []
sort_strings (s ∷ ss) = insert_sorted s (sort_strings ss)

-- `sort.StringsAreSorted`
unfoldable pub are_sorted : List (List ℕ) → Bool
are_sorted [] = true
are_sorted (s ∷ []) = true
are_sorted (s ∷ t ∷ ts) = not (str_less t s) && are_sorted (t ∷ ts)

str_less_asym : (s t : List ℕ) → str_less s t ≡ true → str_less t s ≡ false
unfolding str_less
str_less_asym s [] h = absurd (ground (arith, h))
str_less_asym [] (d ∷ ds) h = refl
str_less_asym (c ∷ cs) (d ∷ ds) h = ground (arith, h, str_less_asym cs ds)

insert_sorted-are_sorted :
    (s : List ℕ) (ts : List (List ℕ))
    → are_sorted ts ≡ true
    → are_sorted (insert_sorted s ts) ≡ true
unfolding are_sorted insert_sorted
insert_sorted-are_sorted s [] h = refl
insert_sorted-are_sorted s (t ∷ []) h = elim (Bool-cases (str_less t s)) [
  | inl less ↦ rw (insert_sorted, less) (rw (str_less_asym t s less) refl)
  | inr more ↦ rw (insert_sorted, more) (rw more refl)
]
insert_sorted-are_sorted s (t ∷ u ∷ ts) h = elim (Bool-cases (str_less t s)) [
  | inr more ↦ rw (insert_sorted, more) (rw more h)
  | inl less ↦
      let ih = insert_sorted-are_sorted s (u ∷ ts) (ground (arith, h)) in
      rw (insert_sorted, less)
        (elim (Bool-cases (str_less u s)) [
          | inl later ↦ rw later (ground (arith, later, ih, h))
          | inr more ↦ rw more (ground (arith, more, ih, h, str_less_asym t s less))
        ])
]

pub sort_strings-are_sorted : (ss : List (List ℕ)) → are_sorted (sort_strings ss) ≡ true
unfolding sort_strings are_sorted
sort_strings-are_sorted [] = refl
sort_strings-are_sorted (s ∷ ss) =
    insert_sorted-are_sorted s (sort_strings ss) (sort_strings-are_sorted ss)
