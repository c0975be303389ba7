-- ===== src/Transfer/Repeats.antt =====
-- The results of a group are complete once all of them are in.
use openpcc.Base.{
  ℕ, zero, suc, ◌+◌, ◌≤◌, ◌<◌, ◌≡◌, refl, Bool, true, false, ◌||◌, ◌&&◌, none, some, List, [], ◌∷◌,
  length, All, ◌==◌, inl, inr, arith, Bool-cases, if◌then◌else◌,
}
use openpcc.Base.Dict.{Dict, lookup, insert, nat_eq, lookup-insert}
use openpcc.Transfer.{RepResults, no_results, add, complete}

abbrev Seen : Type 0
Seen = Dict ℕ (Unit {0})

abbrev pub is_in : ℕ → Seen → Bool
is_in i s = elim (lookup i s) [ none ↦ false | some found ↦ true ]

-- How many of the numbers below `n` are in the set.
abbrev count : ℕ → Seen → ℕ
count zero s = 0
count (suc n) s = (if is_in n s then 1 else 0) + count n s

count-insert_above : (n i : ℕ) (s : Seen) → n ≤ i → count n (insert i tt s) ≡ count n s
count-insert_above zero i s le = refl
count-insert_above (suc n) i s le =
    ground (arith, le, count-insert_above n i s, lookup-insert n i tt s)

count-insert :
    (n i : ℕ) (s : Seen) → i < n → is_in i s ≡ false → count n (insert i tt s) ≡ suc (count n s)
count-insert zero i s lt new = absurd (omega (arith, lt))
count-insert (suc n) i s lt new = elim (Bool-cases (n == i)) [
  | inl same ↦ ground (arith, lt, new, same, count-insert_above n i s, lookup-insert n i tt s)
  | inr other ↦ ground (arith, lt, new, other, count-insert n i s, lookup-insert n i tt s)
]

-- Whether all numbers below `n` are in the set.
abbrev all_in : ℕ → Seen → Bool
all_in zero s = true
all_in (suc n) s = is_in n s && all_in n s

count_le : (n : ℕ) (s : Seen) → count n s ≤ n
count_le zero s = omega arith
count_le (suc n) s = ground (arith, count_le n s)

count-all_in : (n : ℕ) (s : Seen) → (count n s == n) ≡ all_in n s
count-all_in zero s = ground arith
count-all_in (suc n) s = ground (arith, count_le n s, count-all_in n s)

length-insert :
    (i : ℕ) (s : Seen) → length (insert i tt s) ≡ (if is_in i s then length s else suc (length s))
unfolding insert lookup
length-insert i [] = refl
length-insert i ((j, found) ∷ s) = ground (arith, length-insert i s)

is_in-insert : (i j : ℕ) (s : Seen) → is_in i (insert j tt s) ≡ (i == j) || is_in i s
is_in-insert i j s = ground (arith, lookup-insert i j tt s)

count-insert_again : (n i : ℕ) (s : Seen) → is_in i s ≡ true → count n (insert i tt s) ≡ count n s
count-insert_again zero i s old = refl
count-insert_again (suc n) i s old = elim (Bool-cases (n == i)) [
  | inl same ↦
      let eq : n ≡ i = ground (arith, same) in
      let known : is_in n s ≡ true = rw eq old in
      ground (arith, same, known, is_in-insert n i s, count-insert_again n i s old)
  | inr other ↦ ground (arith, other, is_in-insert n i s, count-insert_again n i s old)
]

-- The results as they come in, the latest first.
abbrev pub received : List (ℕ × Bool) → RepResults
received [] = no_results
received ((idx, last) ∷ earlier) = add idx last (received earlier)

abbrev pub is_sent : ℕ → List (ℕ × Bool) → Bool
is_sent i [] = false
is_sent i ((idx, last) ∷ earlier) = (i == idx) || is_sent i earlier

abbrev pub all_sent : ℕ → List (ℕ × Bool) → Bool
all_sent zero rs = true
all_sent (suc n) rs = is_sent n rs && all_sent n rs

-- The results of a group of `n`: indices below `n`, and just the result with the greatest index is
-- marked as the last.
abbrev pub IsGroup : ℕ → List (ℕ × Bool) → Type 0
IsGroup n rs = All (λ r. (r.0 < n) × (r.1 ≡ (suc r.0 == n))) rs

is_in-received : (i : ℕ) (rs : List (ℕ × Bool)) → is_in i (received rs).seen ≡ is_sent i rs
unfolding add lookup
is_in-received i [] = refl
is_in-received i ((idx, last) ∷ rs) =
    ground (arith, is_in-received i rs, is_in-insert i idx (received rs).seen)

all_in-received : (n : ℕ) (rs : List (ℕ × Bool)) → all_in n (received rs).seen ≡ all_sent n rs
all_in-received zero rs = refl
all_in-received (suc n) rs = ground (arith, is_in-received n rs, all_in-received n rs)

count-empty : (n : ℕ) → count n [] ≡ 0
unfolding lookup
count-empty zero = refl
count-empty (suc n) = omega (arith, count-empty n)

count-received :
    (n : ℕ) (rs : List (ℕ × Bool))
    → IsGroup n rs
    → count n (received rs).seen ≡ length (received rs).seen
unfolding add lookup
count-received n [] group = count-empty n
count-received n ((idx, last) ∷ rs) group =
    let seen = (received rs).seen in
    let ih = count-received n rs group.1 in
    elim (Bool-cases (is_in idx seen)) [
      | inl old ↦ ground (arith, ih, old, length-insert idx seen, count-insert_again n idx seen old)
      | inr new ↦
          ground (arith, ih, new, length-insert idx seen, count-insert n idx seen group.0.0 new)
    ]

group_len-received :
    (n : ℕ) (rs : List (ℕ × Bool))
    → IsGroup (suc n) rs
    → (received rs).group_len ≡ (if is_sent n rs then some (suc n) else none)
unfolding add
group_len-received n [] group = refl
group_len-received n ((idx, last) ∷ rs) group =
    ground (arith, group, group_len-received n rs group.1)

-- The results of a group, which come in any order and may come again, are complete just when every
-- index of the group has come in.
pub complete-received :
    (n : ℕ) (rs : List (ℕ × Bool))
    → IsGroup (suc n) rs
    → complete (received rs) ≡ all_sent (suc n) rs
unfolding complete
complete-received n rs group = ground (
  arith,
  group_len-received n rs group,
  count-received (suc n) rs group,
  count-all_in (suc n) (received rs).seen,
  all_in-received (suc n) rs,
)
