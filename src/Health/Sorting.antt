-- ===== src/Health/Sorting.antt =====
-- What the history needs of `sort.Slice`, and a sort that has it, for tests.
use openpcc.Base.{
  suc, ◌≡◌, refl, List, [], ◌∷◌, All, length, inl, inr, ◌⊎◌, arith, Bool-cases, if◌then◌else◌,
  ltb→lt, ltb-false,
}
use openpcc.Base.Int.{◌≤ℤ◌}
use openpcc.Health.{Check, before}
use openpcc.Health.Merge.{IsOrdered, Contains}

-- A sort by timestamp: it orders the checks, and keeps them.
pub record SliceSort : Type 1 where
  pub sort : List Check → List Check
  pub sort-IsOrdered : (xs : List Check) → IsOrdered (sort xs)
  pub length-sort : (xs : List Check) → length (sort xs) ≡ length xs
  pub All-sort : (P : Check → Type 0) (xs : List Check) → All P xs → All P (sort xs)
  pub Contains-sort : (c : Check) (xs : List Check) → Contains c xs → Contains c (sort xs)

insert_sorted : Check → List Check → List Check
insert_sorted x [] = x ∷ []
insert_sorted x (y ∷ ys) =
    let rest = insert_sorted x ys in if before y x then y ∷ rest else x ∷ y ∷ ys

insertion_sort : List Check → List Check
insertion_sort [] = []
insertion_sort (x ∷ xs) = insert_sorted x (insertion_sort xs)

All-insert_sorted :
    (P : Check → Type 0) (x : Check) (ys : List Check) → P x → All P ys → All P (insert_sorted x ys)
unfolding insert_sorted
All-insert_sorted P x [] px all = (px, tt)
All-insert_sorted P x (y ∷ ys) px all = elim (Bool-cases (before y x)) [
  | inl lt ↦ rw lt (all.0, All-insert_sorted P x ys px all.1)
  | inr ge ↦ rw ge (px, all)
]

above :
    (x y : Check) (ys : List Check)
    → x.timestamp ≤ℤ y.timestamp
    → All (λ c. y.timestamp ≤ℤ c.timestamp) ys
    → All (λ c. x.timestamp ≤ℤ c.timestamp) ys
above x y [] le rest = tt
above x y (z ∷ zs) le rest = (omega (arith, rest.0), above x y zs le rest.1)

IsOrdered-insert_sorted :
    (x : Check) (ys : List Check) → IsOrdered ys → IsOrdered (insert_sorted x ys)
unfolding insert_sorted
IsOrdered-insert_sorted x [] ordered = (tt, tt)
IsOrdered-insert_sorted x (y ∷ ys) ordered = elim (Bool-cases (before y x)) [
  | inl lt ↦ rw lt (
    All-insert_sorted (λ c. y.timestamp ≤ℤ c.timestamp) x ys (omega (arith, ltb→lt _ _ lt))
        ordered.0,
    IsOrdered-insert_sorted x ys ordered.1,
  )
  | inr ge ↦
      let le : x.timestamp ≤ℤ y.timestamp = omega (arith, ltb-false _ _ ge) in
      rw ge ((le, above x y ys le ordered.0), ordered)
]

length-insert_sorted : (x : Check) (ys : List Check) → length (insert_sorted x ys) ≡ suc (length ys)
unfolding insert_sorted
length-insert_sorted x [] = refl
length-insert_sorted x (y ∷ ys) = elim (Bool-cases (before y x)) [
  | inl lt ↦ rw lt (omega (arith, length-insert_sorted x ys))
  | inr ge ↦ rw ge refl
]

module _ (c : Check) where
  Contains-insert_sorted :
      (x : Check) (ys : List Check) → (c ≡ x) ⊎ Contains c ys → Contains c (insert_sorted x ys)
  unfolding insert_sorted
  Contains-insert_sorted x [] there = there
  Contains-insert_sorted x (y ∷ ys) there = elim (Bool-cases (before y x)) [
    | inl lt ↦ rw lt (elim there [
      | inl here ↦ inr (Contains-insert_sorted x ys (inl here))
      | inr (inl first) ↦ inl first
      | inr (inr later) ↦ inr (Contains-insert_sorted x ys (inr later))
    ])
    | inr ge ↦ rw ge there
  ]

  Contains-insertion_sort : (xs : List Check) → Contains c xs → Contains c (insertion_sort xs)
  unfolding insertion_sort
  Contains-insertion_sort [] none = absurd none
  Contains-insertion_sort (x ∷ xs) (inl here) =
      Contains-insert_sorted x (insertion_sort xs) (inl here)
  Contains-insertion_sort (x ∷ xs) (inr later) =
      Contains-insert_sorted x (insertion_sort xs) (inr (Contains-insertion_sort xs later))

insertion_sort-IsOrdered : (xs : List Check) → IsOrdered (insertion_sort xs)
unfolding insertion_sort
insertion_sort-IsOrdered [] = tt
insertion_sort-IsOrdered (x ∷ xs) =
    IsOrdered-insert_sorted x (insertion_sort xs) (insertion_sort-IsOrdered xs)

length-insertion_sort : (xs : List Check) → length (insertion_sort xs) ≡ length xs
unfolding insertion_sort
length-insertion_sort [] = refl
length-insertion_sort (x ∷ xs) =
    omega (arith, length-insert_sorted x (insertion_sort xs), length-insertion_sort xs)

All-insertion_sort : (P : Check → Type 0) (xs : List Check) → All P xs → All P (insertion_sort xs)
unfolding insertion_sort
All-insertion_sort P [] all = tt
All-insertion_sort P (x ∷ xs) all =
    All-insert_sorted P x (insertion_sort xs) all.0 (All-insertion_sort P xs all.1)

pub insertion_sorter : SliceSort
insertion_sorter = record {
  sort = insertion_sort;
  sort-IsOrdered = insertion_sort-IsOrdered;
  length-sort = length-insertion_sort;
  All-sort = All-insertion_sort;
  Contains-sort = Contains-insertion_sort;
}
