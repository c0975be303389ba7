-- ===== src/Health/Merge.antt =====
-- Merging health histories keeps them in order and loses no check.
use openpcc.Base.{
  ℕ, zero, suc, ◌+◌, ◌≤◌, ◌≡◌, refl, sym, ◌∙◌, true, List, [], ◌∷◌, All, length, ok, arith, inl,
  inr, ◌⊎◌, Bool-cases, ltb→lt, ltb-false,
}
use openpcc.Base.Int.{◌≤ℤ◌}
use openpcc.Base.Dict.{list_eq, int_eq, eq_of_beq}
use openpcc.Health.{Check, before, equal, merge_loop, merge}

-- In chronological order, the oldest first.
abbrev pub IsOrdered : List Check → Type 0
IsOrdered [] = Unit
IsOrdered (x ∷ xs) = All (λ y. x.timestamp ≤ℤ y.timestamp) xs × IsOrdered xs

module _ (P : Check → Type 0) where
  All-merge_loop :
      (f : ℕ) (xs ys : List Check)
      → length xs + length ys ≤ f
      → All P xs
      → All P ys
      → All P (merge_loop f xs ys)
  unfolding merge_loop
  All-merge_loop zero [] ys enough hx hy = hy
  All-merge_loop zero (x ∷ xs) ys enough hx hy = absurd (omega arith)
  All-merge_loop (suc f) [] ys enough hx hy = hy
  All-merge_loop (suc f) (x ∷ xs) [] enough hx hy = hx
  All-merge_loop (suc f) (x ∷ xs) (y ∷ ys) enough hx hy =
      let left = All-merge_loop f xs (y ∷ ys) (omega arith) hx.1 hy in
      let right = All-merge_loop f (x ∷ xs) ys (omega arith) hx hy.1 in
      let both = All-merge_loop f xs ys (omega arith) hx.1 hy.1 in
      elim (Bool-cases (before x y)) [
        | inl lt ↦ rw lt (hx.0, left)
        | inr ge ↦ elim (Bool-cases (before y x)) [
          | inl gt ↦ rw (ge, gt) (hy.0, right)
          | inr le ↦ elim (Bool-cases (equal x y)) [
            | inl same ↦ rw (ge, le, same) (hx.0, both)
            | inr other ↦ rw (ge, le, other) (hx.0, (hy.0, both))
          ]
        ]
      ]

-- What is below the first of an ordered history is below all of it.
below :
    (x : Check) (y : Check) (ys : List Check)
    → x.timestamp ≤ℤ y.timestamp
    → All (λ c. y.timestamp ≤ℤ c.timestamp) ys
    → All (λ c. x.timestamp ≤ℤ c.timestamp) ys
below x y [] le above = tt
below x y (z ∷ ys) le above = (omega (arith, above.0), below x y ys le above.1)

IsOrdered-merge_loop :
    (f : ℕ) (xs ys : List Check)
    → length xs + length ys ≤ f
    → IsOrdered xs
    → IsOrdered ys
    → IsOrdered (merge_loop f xs ys)
unfolding merge_loop
IsOrdered-merge_loop zero [] ys enough hx hy = hy
IsOrdered-merge_loop zero (x ∷ xs) ys enough hx hy = absurd (omega arith)
IsOrdered-merge_loop (suc f) [] ys enough hx hy = hy
IsOrdered-merge_loop (suc f) (x ∷ xs) [] enough hx hy = hx
IsOrdered-merge_loop (suc f) (x ∷ xs) (y ∷ ys) enough hx hy =
    let left = IsOrdered-merge_loop f xs (y ∷ ys) (omega arith) hx.1 hy in
    let right = IsOrdered-merge_loop f (x ∷ xs) ys (omega arith) hx hy.1 in
    let both = IsOrdered-merge_loop f xs ys (omega arith) hx.1 hy.1 in
    elim (Bool-cases (before x y)) [
      | inl lt ↦
          let le : x.timestamp ≤ℤ y.timestamp = omega (arith, ltb→lt _ _ lt) in
          rw lt (
            All-merge_loop (λ c. x.timestamp ≤ℤ c.timestamp) f xs (y ∷ ys) (omega arith) hx.0
                (le, below x y ys le hy.0),
            left,
          )
      | inr ge ↦ elim (Bool-cases (before y x)) [
        | inl gt ↦
            let le : y.timestamp ≤ℤ x.timestamp = omega (arith, ltb→lt _ _ gt) in
            rw (ge, gt)
              (
                All-merge_loop (λ c. y.timestamp ≤ℤ c.timestamp) f (x ∷ xs) ys (omega arith)
                    (le, below y x xs le hx.0) hy.0,
                right,
              )
        | inr le ↦
            let xy : x.timestamp ≤ℤ y.timestamp = omega (arith, ltb-false _ _ le) in
            let yx : y.timestamp ≤ℤ x.timestamp = omega (arith, ltb-false _ _ ge) in
            let above_x =
              All-merge_loop (λ c. x.timestamp ≤ℤ c.timestamp) f xs ys (omega arith) hx.0
                (below x y ys xy hy.0) in
            elim (Bool-cases (equal x y)) [
              | inl same ↦ rw (ge, le, same) (above_x, both)
              | inr other ↦
                  rw (ge, le, other)
                    (
                      (xy, above_x),
                      (
                        All-merge_loop (λ c. y.timestamp ≤ℤ c.timestamp) f xs ys (omega arith)
                            (below y x xs yx hx.0) hy.0,
                        both,
                      ),
                    )
            ]
      ]
    ]

pub equal→eq : (x y : Check) → equal x y ≡ true → x ≡ y
unfolding equal
equal→eq x y same = ground (
  arith,
  eq_of_beq x.node_id y.node_id,
  eq_of_beq x.url y.url,
  eq_of_beq x.retries y.retries,
  eq_of_beq x.timestamp y.timestamp,
  eq_of_beq x.latency y.latency,
  eq_of_beq x.http_status_code y.http_status_code,
  eq_of_beq x.error_message y.error_message,
)

abbrev pub Contains : Check → List Check → Type 0
Contains c [] = ⊥
Contains c (x ∷ xs) = (c ≡ x) ⊎ Contains c xs

module _ (c : Check) where
  pub Contains-merge_loop :
      (f : ℕ) (xs ys : List Check)
      → length xs + length ys ≤ f
      → Contains c xs ⊎ Contains c ys
      → Contains c (merge_loop f xs ys)
  unfolding merge_loop
  Contains-merge_loop zero [] ys enough (inr there) = there
  Contains-merge_loop zero [] ys enough (inl none) = absurd none
  Contains-merge_loop zero (x ∷ xs) ys enough there = absurd (omega arith)
  Contains-merge_loop (suc f) [] ys enough (inr there) = there
  Contains-merge_loop (suc f) [] ys enough (inl none) = absurd none
  Contains-merge_loop (suc f) (x ∷ xs) [] enough (inl there) = there
  Contains-merge_loop (suc f) (x ∷ xs) [] enough (inr none) = absurd none
  Contains-merge_loop (suc f) (x ∷ xs) (y ∷ ys) enough there =
      let left = Contains-merge_loop f xs (y ∷ ys) (omega arith) in
      let right = Contains-merge_loop f (x ∷ xs) ys (omega arith) in
      let both = Contains-merge_loop f xs ys (omega arith) in
      elim (Bool-cases (before x y)) [
        | inl lt ↦ rw lt (elim there [
          | inl (inl here) ↦ inl here
          | inl (inr later) ↦ inr (left (inl later))
          | inr found ↦ inr (left (inr found))
        ])
        | inr ge ↦ elim (Bool-cases (before y x)) [
          | inl gt ↦
              rw (ge, gt)
                (elim there [
                  | inl found ↦ inr (right (inl found))
                  | inr (inl here) ↦ inl here
                  | inr (inr later) ↦ inr (right (inr later))
                ])
          | inr le ↦ elim (Bool-cases (equal x y)) [
            | inl same ↦
                rw (ge, le, same)
                  (elim there [
                    | inl (inl here) ↦ inl here
                    | inl (inr later) ↦ inr (both (inl later))
                    | inr (inl here) ↦ inl (here ∙ sym (equal→eq x y same))
                    | inr (inr later) ↦ inr (both (inr later))
                  ])
            | inr other ↦
                rw (ge, le, other)
                  (elim there [
                    | inl (inl here) ↦ inl here
                    | inl (inr later) ↦ inr (inr (both (inl later)))
                    | inr (inl here) ↦ inr (inl here)
                    | inr (inr later) ↦ inr (inr (both (inr later)))
                  ])
          ]
        ]
      ]

pub All-Contains :
    (Q : Check → Type 0) (xs : List Check) → ((c : Check) → Contains c xs → Q c) → All Q xs
All-Contains Q [] each = tt
All-Contains Q (x ∷ xs) each =
    (each x (inl refl), All-Contains Q xs (λ c there. each c (inr there)))

-- Merging two ordered histories gives an ordered one, with every check of the two, and whatever holds
-- of all checks of the two holds of all checks of the merged history.
pub merge-IsOrdered :
    (P : Check → Type 0) (h other merged : List Check)
    → IsOrdered h
    → IsOrdered other
    → All P h
    → All P other
    → merge h other ≡ ok merged
    → IsOrdered merged
      × All P merged
      × All (λ c. Contains c merged) h
      × All (λ c. Contains c merged) other
unfolding merge
merge-IsOrdered P h [] merged ho oo hp op done =
    let same : h ≡ merged = ground arith in
    let kept = All-Contains (λ c. Contains c merged) h (λ c there. rw (← same) there) in
    (rw (← same) ho, rw (← same) hp, kept, tt)
merge-IsOrdered P [] (y ∷ ys) merged ho oo hp op done =
    let same : y ∷ ys ≡ merged = ground arith in
    let kept = All-Contains (λ c. Contains c merged) (y ∷ ys) (λ c there. rw (← same) there) in
    (rw (← same) oo, rw (← same) op, tt, kept)
merge-IsOrdered P (x ∷ xs) (y ∷ ys) merged ho oo hp op done =
    let f = length (x ∷ xs) + length (y ∷ ys) in
    let same : merge_loop f (x ∷ xs) (y ∷ ys) ≡ merged = ground arith in
    (
      rw (← same) (IsOrdered-merge_loop f (x ∷ xs) (y ∷ ys) (omega arith) ho oo),
      rw (← same) (All-merge_loop P f (x ∷ xs) (y ∷ ys) (omega arith) hp op),
      All-Contains (λ c. Contains c merged) (x ∷ xs)
          (λ c there.
            rw (← same) (Contains-merge_loop c f (x ∷ xs) (y ∷ ys) (omega arith) (inl there))),
      All-Contains (λ c. Contains c merged) (y ∷ ys)
          (λ c there.
            rw (← same) (Contains-merge_loop c f (x ∷ xs) (y ∷ ys) (omega arith) (inr there))),
    )
