-- ===== src/Finder/CacheSets.antt =====
-- The key of the cache on sets of tags, as a quotient of the lists of raw tags.
use mathlib.Core.Quot
use mathlib.Core.Quot.{Quot}
use mathlib.Core.Bool.{Bool-set}
use openpcc.Base.{
  Bool, true, false, ◌||◌, ltb, ◌≡◌, refl, sym, ap, ◌∙◌, ◌↔◌, List, [], ◌∷◌, Result, ok, err, ◌>>=◌,
  inl, inr, arith, Bool-cases, length,
}
use openpcc.Base.Dict.{insert, list_eq, ◌===◌, beq_refl, eq_of_beq}
use openpcc.Tags.{Str, Tags, Error, over_max_length, from_slice, from_slice_loop}
use openpcc.Finder.{normalized_cache_key}
use openpcc.Finder.Strict.{has_string}
use openpcc.Finder.CacheKey.{
  SameTags, TagSet, all_plain, sorted_slice, sorted_slice-SameTags, join_bars_injective,
  sorted_slice-all_plain,
}

abbrev has_long : List Str → Bool
has_long [] = false
has_long (x ∷ xs) = ltb 512 (length x) || has_long xs

has_long_of :
    (x : Str) (ys : List Str)
    → ltb 512 (length x) ≡ true
    → has_string x ys ≡ true
    → has_long ys ≡ true
has_long_of x [] long m = absurd (ground (arith, m))
has_long_of x (y ∷ ys) long m = elim (Bool-cases (x === y)) [
  | inl same ↦ rw (← eq_of_beq x y same, long) refl
  | inr other ↦ ground (arith, has_long_of x ys long (ground (arith, m, other)))
]

has_long_mono :
    (xs ys : List Str)
    → ((s : Str) → has_string s xs ≡ true → has_string s ys ≡ true)
    → has_long xs ≡ true
    → has_long ys ≡ true
has_long_mono [] ys sub h = absurd (ground (arith, h))
has_long_mono (x ∷ xs) ys sub h = elim (Bool-cases (ltb 512 (length x))) [
  | inl long ↦ has_long_of x ys long (sub x (ground (arith, beq_refl x)))
  | inr fits ↦ has_long_mono xs ys (λ s m. sub s (ground (arith, m))) (ground (arith, h, fits))
]

from_slice_loop_long :
    (xs : List Str) (out : Tags) → has_long xs ≡ true → from_slice_loop xs out ≡ err over_max_length
unfolding from_slice_loop
from_slice_loop_long [] out h = absurd (ground (arith, h))
from_slice_loop_long (x ∷ xs) out h = ground (arith, h, from_slice_loop_long xs (insert x tt out))

from_slice_loop_fits :
    (xs : List Str) (out : Tags)
    → has_long xs ≡ false
    → (t : Tags) × (from_slice_loop xs out ≡ ok t)
unfolding from_slice_loop
from_slice_loop_fits [] out h = (out, refl)
from_slice_loop_fits (x ∷ xs) out h =
    let (t, e) = from_slice_loop_fits xs (insert x tt out) (ground (arith, h)) in
    (t, ground (arith, h, e))

-- The key under which the nodes for some raw tags are cached.
pub raw_cache_key : List Str → Result Error Str
raw_cache_key xs = from_slice xs >>= λ t. ok (normalized_cache_key t)

raw_cache_key_fits :
    (xs ys : List Str)
    → SameTags xs ys
    → has_long xs ≡ false
    → has_long ys ≡ false
    → raw_cache_key xs ≡ raw_cache_key ys
unfolding raw_cache_key from_slice normalized_cache_key
raw_cache_key_fits xs ys same fx fy =
    let (t, ht) = from_slice_loop_fits xs [] fx in
    let (u, hu) = from_slice_loop_fits ys [] fy in
    rw (ht, hu, sorted_slice xs ys t u ht hu same) refl

raw_cache_key_long :
    (xs ys : List Str)
    → has_long xs ≡ true
    → has_long ys ≡ true
    → raw_cache_key xs ≡ raw_cache_key ys
unfolding raw_cache_key from_slice
raw_cache_key_long xs ys lx ly =
    rw (from_slice_loop_long xs [] lx, from_slice_loop_long ys [] ly) refl

raw_cache_key-SameTags : (xs ys : List Str) → SameTags xs ys → raw_cache_key xs ≡ raw_cache_key ys
raw_cache_key-SameTags xs ys same =
    let to_ys = has_long_mono xs ys (λ s m. sym (same s) ∙ m) in
    let to_xs = has_long_mono ys xs (λ s m. same s ∙ m) in
    elim (Bool-cases (has_long xs)) [
      | inl lx ↦ raw_cache_key_long xs ys lx (to_ys lx)
      | inr fx ↦ elim (Bool-cases (has_long ys)) [
        | inl ly ↦ absurd (cc (fx, to_xs ly))
        | inr fy ↦ raw_cache_key_fits xs ys same fx fy
      ]
    ]

Result-set : IsSet (Result Error Str)
Result-set = hlevel

-- The set of some tags.
abbrev pub tag_set : List Str → TagSet
tag_set xs = Quot.mk xs

-- The key of a set of tags.
pub cache_key : TagSet → Result Error Str
cache_key = Quot.lift Result-set raw_cache_key raw_cache_key-SameTags

pub tag_of : Str → TagSet → Bool
tag_of s = Quot.lift Bool-set (has_string s) (λ xs ys same. same s)

same_of_eq : (xs ys : List Str) → tag_set xs ≡ tag_set ys → SameTags xs ys
unfolding tag_of
same_of_eq xs ys e s = ap (tag_of s) e

key_of_accepted :
    (xs : List Str) (t : Tags)
    → from_slice xs ≡ ok t
    → cache_key (tag_set xs) ≡ ok (normalized_cache_key t)
unfolding cache_key raw_cache_key
key_of_accepted xs t h = rw h refl

slice_of_key :
    (xs ys : List Str) (t u : Tags)
    → from_slice xs ≡ ok t
    → from_slice ys ≡ ok u
    → all_plain xs ≡ true
    → all_plain ys ≡ true
    → normalized_cache_key t ≡ normalized_cache_key u
    → SameTags xs ys
unfolding normalized_cache_key
slice_of_key xs ys t u ht hu px py e = sorted_slice-SameTags xs ys t u ht hu (
    join_bars_injective _ _ (sorted_slice-all_plain xs t px ht) (sorted_slice-all_plain ys u py hu)
      e)

-- The key of the cache is a function on sets of tags: the order and the repetitions of the raw tags do
-- not matter. On two sets that `FromSlice` accepts and whose tags are not empty and have no bar, the keys
-- are the ones of the code, and they are equal just if the sets are.
pub cache_key-injective :
    (xs ys : List Str) {t u : Tags}
    → from_slice xs ≡ ok t
    → from_slice ys ≡ ok u
    → all_plain xs ≡ true
    → all_plain ys ≡ true
    → (cache_key (tag_set xs) ≡ ok (normalized_cache_key t))
      × (cache_key (tag_set ys) ≡ ok (normalized_cache_key u))
      × ((normalized_cache_key t ≡ normalized_cache_key u) ↔ (tag_set xs ≡ tag_set ys))
cache_key-injective xs ys {t} {u} ht hu px py = (
  key_of_accepted xs t ht,
  key_of_accepted ys u hu,
  (
    λ e. Quot.sound (slice_of_key xs ys t u ht hu px py e),
    λ e. cc (key_of_accepted xs t ht, key_of_accepted ys u hu, ap cache_key e),
  ),
)
