-- ===== src/Finder/CacheKey.antt =====
-- The key of the cache as a function of the set of tags that a request asks for.

use mathlib.Core.Quot.{Quot}
use openpcc.Base.{
  Bool, true, false, not, ◌&&◌, ◌||◌, ◌==◌, ltb, ◌≡◌, refl, sym, ap, ◌∙◌, ◌≢◌, List, [], ◌∷◌, ◌++◌,
  ok, inl, inr, arith, Bool-cases, if◌then◌else◌, length,
}
use openpcc.Base.Dict.{insert, list_eq, ◌===◌, beq_refl, eq_of_beq}
use openpcc.Base.Strings.{sort_strings}
use openpcc.Tags.{Str, Tags, from_slice, from_slice_loop, to_slice}
use openpcc.Finder.{join_bars}
use openpcc.Finder.Strict.{
  has_string, is_distinct, has_string-sort_strings, sort_strings-is_strict, is_strict_unique,
}

-- Lists of tags that hold the same ones, in any order and however often.
abbrev pub SameTags : List Str → List Str → Type 0
SameTags xs ys = (s : Str) → has_string s xs ≡ has_string s ys

abbrev pub TagSet : Type 0
TagSet = Quot SameTags

-- A tag that is not empty and has no bar.
abbrev pub has_bar : Str → Bool
has_bar [] = false
has_bar (c ∷ cs) = (c == b'|') || has_bar cs

abbrev pub is_plain : Str → Bool
is_plain [] = false
is_plain (c ∷ cs) = not (has_bar (c ∷ cs))

abbrev pub all_plain : List Str → Bool
all_plain [] = true
all_plain (s ∷ ss) = is_plain s && all_plain ss

has_string-insert :
    (s tag : Str) (t : Tags)
    → has_string s (to_slice (insert tag tt t)) ≡ (s === tag) || has_string s (to_slice t)
unfolding insert to_slice
has_string-insert s tag [] = refl
has_string-insert s tag ((j, found) ∷ t) = elim (Bool-cases (tag === j)) [
  | inl same ↦ rw (same, eq_of_beq tag j same) (ground arith)
  | inr other ↦ rw other (ground (arith, has_string-insert s tag t))
]

insert-is_distinct :
    (tag : Str) (t : Tags)
    → is_distinct (to_slice t) ≡ true
    → is_distinct (to_slice (insert tag tt t)) ≡ true
unfolding insert to_slice
insert-is_distinct tag [] h = refl
insert-is_distinct tag ((j, found) ∷ t) h = elim (Bool-cases (tag === j)) [
  | inl same ↦ rw same (rw (eq_of_beq tag j same) h)
  | inr other ↦ elim (Bool-cases (j === tag)) [
    | inl same ↦ absurd (cc (other, beq_refl tag, eq_of_beq j tag same))
    | inr new ↦
        rw other (ground (arith, new, h, has_string-insert j tag t, insert-is_distinct tag t))
  ]
]

from_slice_loop-has_string :
    (s : Str) (xs : List Str) (out t : Tags)
    → from_slice_loop xs out ≡ ok t
    → has_string s (to_slice t) ≡ has_string s xs || has_string s (to_slice out)
unfolding from_slice_loop
from_slice_loop-has_string s [] out t h = ground (arith, h)
from_slice_loop-has_string s (x ∷ xs) out t h = elim (Bool-cases (ltb 512 (length x))) [
  | inl long ↦ absurd (ground (arith, h, long))
  | inr fits ↦
      let rest = from_slice_loop-has_string s xs (insert x tt out) t (ground (arith, h, fits)) in
      ground (arith, rest, has_string-insert s x out)
]

from_slice_loop-is_distinct :
    (xs : List Str) (out t : Tags)
    → is_distinct (to_slice out) ≡ true
    → from_slice_loop xs out ≡ ok t
    → is_distinct (to_slice t) ≡ true
unfolding from_slice_loop
from_slice_loop-is_distinct [] out t d h = ground (arith, d, h)
from_slice_loop-is_distinct (x ∷ xs) out t d h = elim (Bool-cases (ltb 512 (length x))) [
  | inl long ↦ absurd (ground (arith, h, long))
  | inr fits ↦
      from_slice_loop-is_distinct xs (insert x tt out) t (insert-is_distinct x out d)
        (ground (arith, h, fits))
]

-- The tags of a set that is made from raw tags, sorted, depend on what those hold only.
pub sorted_slice :
    (xs ys : List Str) (t u : Tags)
    → from_slice xs ≡ ok t
    → from_slice ys ≡ ok u
    → SameTags xs ys
    → sort_strings (to_slice t) ≡ sort_strings (to_slice u)
unfolding from_slice to_slice
sorted_slice xs ys t u ht hu same =
    is_strict_unique (sort_strings (to_slice t)) (sort_strings (to_slice u))
      (sort_strings-is_strict (to_slice t) (from_slice_loop-is_distinct xs [] t refl ht))
      (sort_strings-is_strict (to_slice u) (from_slice_loop-is_distinct ys [] u refl hu))
      (λ s. ground (
        arith,
        has_string-sort_strings s (to_slice t),
        has_string-sort_strings s (to_slice u),
        from_slice_loop-has_string s xs [] t ht,
        from_slice_loop-has_string s ys [] u hu,
        same s,
      ))

pub sorted_slice-SameTags :
    (xs ys : List Str) (t u : Tags)
    → from_slice xs ≡ ok t
    → from_slice ys ≡ ok u
    → sort_strings (to_slice t) ≡ sort_strings (to_slice u)
    → SameTags xs ys
unfolding from_slice to_slice
sorted_slice-SameTags xs ys t u ht hu e s = ground (
  arith,
  has_string-sort_strings s (to_slice t),
  has_string-sort_strings s (to_slice u),
  from_slice_loop-has_string s xs [] t ht,
  from_slice_loop-has_string s ys [] u hu,
  ap (has_string s) e,
)

all_plain_has :
    (s : Str) (ss : List Str) → all_plain ss ≡ true → has_string s ss ≡ true → is_plain s ≡ true
all_plain_has s [] h m = absurd (ground (arith, m))
all_plain_has s (t ∷ ts) h m = elim (Bool-cases (s === t)) [
  | inl same ↦ rw (eq_of_beq s t same) (ground (arith, h))
  | inr other ↦ all_plain_has s ts (ground (arith, h)) (ground (arith, m, other))
]

all_plain_of :
    (ss : List Str) → ((s : Str) → has_string s ss ≡ true → is_plain s ≡ true) → all_plain ss ≡ true
all_plain_of [] h = refl
all_plain_of (t ∷ ts) h =
    ground
      (arith, h t (ground (arith, beq_refl t)), all_plain_of ts (λ s m. h s (ground (arith, m))))

pub sorted_slice-all_plain :
    (xs : List Str) (t : Tags)
    → all_plain xs ≡ true
    → from_slice xs ≡ ok t
    → all_plain (sort_strings (to_slice t)) ≡ true
unfolding from_slice to_slice
sorted_slice-all_plain xs t plain h = all_plain_of (sort_strings (to_slice t)) (λ s m.
    all_plain_has s xs plain (
      ground
        (arith, m, has_string-sort_strings s (to_slice t), from_slice_loop-has_string s xs [] t h)))

-- The parts between the bars.
split_bars : Str → List Str
split_bars [] = [] ∷ []
split_bars (c ∷ cs) =
    let parts = split_bars cs in
    if c == b'|' then [] ∷ parts else elim parts [ [] ↦ (c ∷ []) ∷ [] | p ∷ ps ↦ (c ∷ p) ∷ ps ]

split_bars_last : (s : Str) → has_bar s ≡ false → split_bars s ≡ s ∷ []
unfolding split_bars
split_bars_last [] h = refl
split_bars_last (c ∷ cs) h = rw (split_bars_last cs (ground (arith, h))) (ground (arith, h))

split_bars_next : (s r : Str) → has_bar s ≡ false → split_bars (s ++ (b'|' ∷ r)) ≡ s ∷ split_bars r
unfolding split_bars
split_bars_next [] r h = refl
split_bars_next (c ∷ cs) r h = rw (split_bars_next cs r (ground (arith, h))) (ground (arith, h))

plain-has_bar : (s : Str) → is_plain s ≡ true → has_bar s ≡ false
plain-has_bar [] h = refl
plain-has_bar (c ∷ cs) h = ground (arith, h)

split_bars-join_bars :
    (s : Str) (ss : List Str) → all_plain (s ∷ ss) ≡ true → split_bars (join_bars (s ∷ ss)) ≡ s ∷ ss
unfolding join_bars
split_bars-join_bars s [] h = split_bars_last s (plain-has_bar s (ground (arith, h)))
split_bars-join_bars s (t ∷ ts) h =
    split_bars_next s (join_bars (t ∷ ts)) (plain-has_bar s (ground (arith, h)))
    ∙ ap (λ (ps : List Str). s ∷ ps) (split_bars-join_bars t ts (ground (arith, h)))

join_bars-ne : (s : Str) (ss : List Str) → is_plain s ≡ true → join_bars (s ∷ ss) ≢ []
unfolding join_bars
join_bars-ne [] ss h e = cc h
join_bars-ne (c ∷ cs) [] h e = cc e
join_bars-ne (c ∷ cs) (t ∷ ts) h e = cc e

pub join_bars_injective :
    (ss ts : List Str)
    → all_plain ss ≡ true
    → all_plain ts ≡ true
    → join_bars ss ≡ join_bars ts
    → ss ≡ ts
join_bars_injective [] [] p q e = refl
join_bars_injective [] (t ∷ ts) p q e =
    absurd (join_bars-ne t ts (ground (arith, q)) (sym e ∙ unfold join_bars in refl))
join_bars_injective (s ∷ ss) [] p q e =
    absurd (join_bars-ne s ss (ground (arith, p)) (e ∙ unfold join_bars in refl))
join_bars_injective (s ∷ ss) (t ∷ ts) p q e =
    sym (split_bars-join_bars s ss p) ∙ ap split_bars e ∙ split_bars-join_bars t ts q
