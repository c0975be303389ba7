-- ===== src/Health/Insert.antt =====
-- Inserting a check into a history.
use openpcc.Base.{
  ℕ, suc, ◌≡◌, refl, sym, ◌∙◌, true, false, List, [], ◌∷◌, ◌++◌, All, length, length-append, Result,
  ok, err, inl, inr, ◌⊎◌, ◌≢◌, arith, Bool-cases,
}
use mathlib.Core.Path.{subst}
use openpcc.Base.Dict.{◌===◌, list_eq, eq_of_beq, beq_refl}
use openpcc.Health.{Check, Error, equal, has_equal, insert_check, other_node}
use openpcc.Health.Merge.{IsOrdered, Contains, All-Contains, equal→eq}
use openpcc.Health.Sorting.{SliceSort}

has_equal-Contains : (hc : Check) (h : List Check) → has_equal hc h ≡ true → Contains hc h
unfolding has_equal
has_equal-Contains hc [] found = absurd (cc found)
has_equal-Contains hc (c ∷ cs) found = elim (Bool-cases (equal c hc)) [
  | inl same ↦ inl (sym (equal→eq c hc same))
  | inr other ↦ inr (has_equal-Contains hc cs (rw other at found))
]

Contains-append :
    (c : Check) (xs ys : List Check) → Contains c xs ⊎ Contains c ys → Contains c (xs ++ ys)
Contains-append c [] ys (inr there) = there
Contains-append c [] ys (inl none) = absurd none
Contains-append c (x ∷ xs) ys (inl (inl here)) = inl here
Contains-append c (x ∷ xs) ys (inl (inr later)) = inr (Contains-append c xs ys (inl later))
Contains-append c (x ∷ xs) ys (inr there) = inr (Contains-append c xs ys (inr there))

abbrev pub IsOf : List ℕ → Check → Type 0
IsOf id c = c.node_id ≡ id

IsOf-append :
    (id : List ℕ) (xs : List Check) (c : Check)
    → All (IsOf id) xs
    → c.node_id ≡ id
    → All (IsOf id) (xs ++ c ∷ [])
IsOf-append id [] c all same = (same, tt)
IsOf-append id (x ∷ xs) c all same = (all.0, IsOf-append id xs c all.1 same)

-- What an insertion into a history of the node `id` returns.
abbrev pub Inserted : List ℕ → List Check → Check → Result Error (List Check) → Type 0
Inserted id h hc (ok h') =
    IsOrdered h'
    × Contains hc h'
    × All (λ c. Contains c h') h
    × All (IsOf hc.node_id) h'
    × ((h' ≡ h) ⊎ (length h' ≡ suc (length h)))
Inserted id h hc (err e) = hc.node_id ≢ id

same_node :
    (id : List ℕ) (h : List Check) (hc : Check)
    → All (IsOf id) h
    → other_node hc h ≡ false
    → All (IsOf hc.node_id) h
same_node id [] hc all same = tt
same_node id (c ∷ cs) hc all same =
    let here : c.node_id ≡ hc.node_id = eq_of_beq c.node_id hc.node_id (ground (arith, same)) in
    let node : id ≡ hc.node_id = sym all.0 ∙ here in subst (λ i. All (IsOf i) (c ∷ cs)) node all

differs :
    (id : List ℕ) (h : List Check) (hc : Check)
    → All (IsOf id) h
    → other_node hc h ≡ true
    → hc.node_id ≢ id
differs id [] hc all other same = cc other
differs id (c ∷ cs) hc all other same =
    let test : (c.node_id === hc.node_id) ≡ true = rw (all.0, same) (beq_refl id) in
    ground (arith, test)

module _ (sorter : SliceSort) where
  -- An insertion into an ordered history of one node fails just for a check of another node. Otherwise
  -- the new history is ordered, of the check's node, and has the check and all of the old ones;
  -- it is the old history where that has the check already, and one longer where it does not.
  pub insert_check_lem :
      (id : List ℕ) (h : List Check) (hc : Check)
      → IsOrdered h
      → All (IsOf id) h
      → Inserted id h hc (insert_check sorter.sort h hc)
  unfolding insert_check
  insert_check_lem id h hc ordered all = elim (Bool-cases (other_node hc h)) [
    | inl other ↦ rw other (differs id h hc all other)
    | inr same ↦ elim (Bool-cases (has_equal hc h)) [
      | inl there ↦
          rw (same, there)
            (
              ordered,
              has_equal-Contains hc h there,
              All-Contains (λ c. Contains c h) h (λ c found. found),
              same_node id h hc all same,
              inl refl,
            )
      | inr new ↦
          let grown = h ++ hc ∷ [] in
          rw (same, new)
            (
              sorter.sort-IsOrdered grown,
              sorter.Contains-sort hc grown (Contains-append hc h (hc ∷ []) (inr (inl refl))),
              All-Contains (λ c. Contains c (sorter.sort grown)) h
                  (λ c found.
                    sorter.Contains-sort c grown (Contains-append c h (hc ∷ []) (inl found))),
              sorter.All-sort (IsOf hc.node_id) grown
                  (IsOf-append hc.node_id h hc (same_node id h hc all same) refl),
              inr (omega (arith, sorter.length-sort grown, length-append h (hc ∷ []))),
            )
    ]
  ]
