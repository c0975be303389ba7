-- ===== src/Finder/Strict.antt =====
-- Lists of strings that are strictly sorted: they are determined by what they hold. `sort.Strings` of a
-- list without duplicates is one.
use openpcc.Base.{
  Bool, true, false, not, ◌&&◌, ◌||◌, ◌≡◌, refl, sym, ap, ◌∙◌, List, [], ◌∷◌, inl, inr, arith,
  Bool-cases,
}
use openpcc.Base.Dict.{list_eq, ◌===◌, beq_refl, eq_of_beq}
use openpcc.Base.Strings.{str_less, insert_sorted, sort_strings}
use openpcc.Tags.{Str}

abbrev pub has_string : Str → List Str → Bool
has_string s [] = false
has_string s (t ∷ ts) = (s === t) || has_string s ts

abbrev pub below : Str → List Str → Bool
below s [] = true
below s (t ∷ ts) = str_less s t && below s ts

abbrev pub is_strict : List Str → Bool
is_strict [] = true
is_strict (s ∷ ss) = below s ss && is_strict ss

abbrev pub is_distinct : List Str → Bool
is_distinct [] = true
is_distinct (s ∷ ss) = not (has_string s ss) && is_distinct ss

str_less_irrefl : (s : Str) → str_less s s ≡ false
unfolding str_less
str_less_irrefl [] = refl
str_less_irrefl (c ∷ cs) = ground (arith, str_less_irrefl cs)

str_less_trans : (s t u : Str) → str_less s t ≡ true → str_less t u ≡ true → str_less s u ≡ true
unfolding str_less
str_less_trans s t [] h k = absurd (ground (arith, k))
str_less_trans s [] (e ∷ es) h k = absurd (ground (arith, h))
str_less_trans [] (d ∷ ds) (e ∷ es) h k = refl
str_less_trans (c ∷ cs) (d ∷ ds) (e ∷ es) h k = ground (arith, h, k, str_less_trans cs ds es)

str_less_total : (s t : Str) → str_less t s ≡ false → (s === t) ≡ false → str_less s t ≡ true
unfolding str_less
str_less_total [] [] h ne = ground (arith, ne)
str_less_total [] (d ∷ ds) h ne = refl
str_less_total (c ∷ cs) [] h ne = ground (arith, h)
str_less_total (c ∷ cs) (d ∷ ds) h ne = ground (arith, h, ne, str_less_total cs ds)

below_has :
    (s u : Str) (ts : List Str) → below s ts ≡ true → has_string u ts ≡ true → str_less s u ≡ true
below_has s u [] h m = absurd (ground (arith, m))
below_has s u (t ∷ ts) h m = elim (Bool-cases (u === t)) [
  | inl same ↦ rw (eq_of_beq u t same) (ground (arith, h))
  | inr other ↦ ground (arith, h, m, other, below_has s u ts)
]

below_trans :
    (s t : Str) (us : List Str) → str_less s t ≡ true → below t us ≡ true → below s us ≡ true
below_trans s t [] h b = refl
below_trans s t (u ∷ us) h b = ground (arith, h, b, str_less_trans s t u, below_trans s t us)

has_string-insert_sorted :
    (u s : Str) (ts : List Str) → has_string u (insert_sorted s ts) ≡ (u === s) || has_string u ts
unfolding insert_sorted
has_string-insert_sorted u s [] = refl
has_string-insert_sorted u s (t ∷ ts) = ground (arith, has_string-insert_sorted u s ts)

-- Sorting keeps what a list holds.
pub has_string-sort_strings :
    (u : Str) (ss : List Str) → has_string u (sort_strings ss) ≡ has_string u ss
unfolding sort_strings
has_string-sort_strings u [] = refl
has_string-sort_strings u (s ∷ ss) =
    ground (arith, has_string-insert_sorted u s (sort_strings ss), has_string-sort_strings u ss)

below-insert_sorted :
    (r s : Str) (ts : List Str)
    → str_less r s ≡ true
    → below r ts ≡ true
    → below r (insert_sorted s ts) ≡ true
unfolding insert_sorted
below-insert_sorted r s [] h b = ground (arith, h)
below-insert_sorted r s (t ∷ ts) h b = ground (arith, h, b, below-insert_sorted r s ts)

insert_sorted-is_strict :
    (s : Str) (ts : List Str)
    → has_string s ts ≡ false
    → is_strict ts ≡ true
    → is_strict (insert_sorted s ts) ≡ true
unfolding insert_sorted
insert_sorted-is_strict s [] new h = refl
insert_sorted-is_strict s (t ∷ ts) new h = elim (Bool-cases (str_less t s)) [
  | inl less ↦
      rw less
        (ground (arith, h, new, below-insert_sorted t s ts less, insert_sorted-is_strict s ts))
  | inr more ↦
      let less = str_less_total s t more (ground (arith, new)) in
      rw more (ground (arith, h, less, below_trans s t ts less))
]

-- The sort of a list without duplicates is strict.
pub sort_strings-is_strict :
    (ss : List Str) → is_distinct ss ≡ true → is_strict (sort_strings ss) ≡ true
unfolding sort_strings
sort_strings-is_strict [] h = refl
sort_strings-is_strict (s ∷ ss) h =
    insert_sorted-is_strict s (sort_strings ss) (has_string-sort_strings s ss ∙ ground (arith, h))
      (sort_strings-is_strict ss (ground (arith, h)))

strict_heads :
    (s t : Str) (ss ts : List Str)
    → is_strict (s ∷ ss) ≡ true
    → is_strict (t ∷ ts) ≡ true
    → has_string s (t ∷ ts) ≡ true
    → has_string t (s ∷ ss) ≡ true
    → s ≡ t
strict_heads s t ss ts hs ht s_in t_in = elim (Bool-cases (s === t)) [
  | inl same ↦ eq_of_beq s t same
  | inr other ↦ elim (Bool-cases (t === s)) [
    | inl same ↦ sym (eq_of_beq t s same)
    | inr other' ↦
        let t_less = below_has t s ts (ground (arith, ht)) (ground (arith, s_in, other)) in
        let s_less = below_has s t ss (ground (arith, hs)) (ground (arith, t_in, other')) in
        let s_less_s = str_less_trans s t s s_less t_less in
        absurd (cc (s_less_s, str_less_irrefl s))
  ]
]

has_string-tail :
    (u s : Str) (ss ts : List Str)
    → below s ss ≡ true
    → below s ts ≡ true
    → has_string u (s ∷ ss) ≡ has_string u (s ∷ ts)
    → has_string u ss ≡ has_string u ts
has_string-tail u s ss ts b c h = elim (Bool-cases (u === s)) [
  | inr other ↦ ground (arith, other, h)
  | inl same ↦
      let e = eq_of_beq u s same in
      rw e (elim (Bool-cases (has_string s ss)) [
        | inl here ↦ absurd (cc (below_has s s ss b here, str_less_irrefl s))
        | inr gone ↦ elim (Bool-cases (has_string s ts)) [
          | inl here ↦ absurd (cc (below_has s s ts c here, str_less_irrefl s))
          | inr gone' ↦ gone ∙ sym gone'
        ]
      ])
]

-- Strict lists that hold the same strings are the same.
pub is_strict_unique :
    (ss ts : List Str)
    → is_strict ss ≡ true
    → is_strict ts ≡ true
    → ((u : Str) → has_string u ss ≡ has_string u ts)
    → ss ≡ ts
is_strict_unique [] [] hs ht same = refl
is_strict_unique [] (t ∷ ts) hs ht same = absurd (ground (arith, same t, beq_refl t))
is_strict_unique (s ∷ ss) [] hs ht same = absurd (ground (arith, same s, beq_refl s))
is_strict_unique (s ∷ ss) (t ∷ ts) hs ht same =
    let e =
      strict_heads s t ss ts hs ht (ground (arith, same s, beq_refl s))
        (ground (arith, same t, beq_refl t)) in
    let same' : (u : Str) → has_string u (s ∷ ss) ≡ has_string u (s ∷ ts) =
      λ u. same u ∙ ap (λ (x : Str). has_string u (x ∷ ts)) (sym e) in
    let below' : below s ts ≡ true = ap (λ (x : Str). below x ts) e ∙ ground (arith, ht) in
    let rest =
      is_strict_unique ss ts (ground (arith, hs)) (ground (arith, ht))
        (λ u. has_string-tail u s ss ts (ground (arith, hs)) below' (same' u)) in
    cc (e, rest)
