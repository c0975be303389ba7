-- ===== src/Tags/Pairs.antt =====
-- Adding, finding and removing the tags of a key.
use openpcc.Base.{
  ltb, map, ◌+◌, ◌≡◌, refl, true, false, not, ◌&&◌, ◌||◌, some, List, [], ◌∷◌, length, Result, ok,
  err, inl, inr, arith, Bool-cases,
}
use openpcc.Base.Dict.{lookup, insert, list_eq, ◌===◌, eq_of_beq, beq_refl, lookup-insert}
use openpcc.Tags.{
  Str, Tags, Error, pair, has_key, cut_prefix, has_separator, add_tag_pair, remove_key, contains,
  contains_key, contains_pair, split_n, strip_tag_key,
}

has_key-pair : (k v : Str) → has_key k (pair k v) ≡ true
unfolding cut_prefix
has_key-pair [] v = refl
has_key-pair (c ∷ k) v = ground (arith, has_key-pair k v)

contains_key-insert :
    (k tag : Str) (t : Tags) → contains_key k (insert tag tt t) ≡ has_key k tag || contains_key k t
unfolding contains_key insert
contains_key-insert k tag [] = ground arith
contains_key-insert k tag ((j, found) ∷ t) = elim (Bool-cases (tag === j)) [
  | inl same ↦ rw (same, eq_of_beq tag j same) (ground arith)
  | inr other ↦ rw other (ground (arith, contains_key-insert k tag t))
]

remove_key-contains_key : (k : Str) (t : Tags) → contains_key k (remove_key k t).1 ≡ false
unfolding contains_key remove_key
remove_key-contains_key k [] = refl
remove_key-contains_key k ((tag, found) ∷ t) = ground (arith, remove_key-contains_key k t)

remove_key-contains :
    (k tag : Str) (t : Tags)
    → contains tag (remove_key k t).1 ≡ contains tag t && not (has_key k tag)
unfolding contains remove_key lookup
remove_key-contains k tag [] = refl
remove_key-contains k tag ((j, found) ∷ t) = elim (Bool-cases (tag === j)) [
  | inl same ↦
      let eq = eq_of_beq tag j same in rw eq (ground (arith, beq_refl j, remove_key-contains k j t))
  | inr other ↦ ground (arith, other, remove_key-contains k tag t)
]

remove_key-length : (k : Str) (t : Tags) → (remove_key k t).0 + length (remove_key k t).1 ≡ length t
unfolding remove_key
remove_key-length k [] = omega arith
remove_key-length k ((j, found) ∷ t) = ground (arith, remove_key-length k t)

-- A pair that is added is found, by its key and as a pair, no other tag is touched, and the pair is
-- refused just if it is too long or has a separator in its key or its value.
abbrev pub Added : Str → Str → Str → Tags → Result Error Tags → Type 0
Added k v tag t (ok t') =
    (contains_pair k v t' ≡ true)
    × (contains_key k t' ≡ true)
    × (contains tag t' ≡ (tag === pair k v) || contains tag t)
    × (has_separator k || has_separator v ≡ false)
Added k v tag t (err e) = (ltb 512 (length (pair k v)) || has_separator k || has_separator v) ≡ true

pub add_tag_pair-Added : (k v tag : Str) (t : Tags) → Added k v tag t (add_tag_pair k v t)
unfolding add_tag_pair contains_pair contains
add_tag_pair-Added k v tag t =
    let p = pair k v in
    ground (
      arith,
      beq_refl p,
      lookup-insert p p tt t,
      lookup-insert tag p tt t,
      has_key-pair k v,
      contains_key-insert k p t,
    )

-- Removing a key takes out its tags and no others, and counts them.
pub remove_key_lem :
    (k tag : Str) (t : Tags)
    → let (num_deleted, t') = remove_key k t in
      (contains_key k t' ≡ false)
      × (contains tag t' ≡ contains tag t && not (has_key k tag))
      × (num_deleted + length t' ≡ length t)
remove_key_lem k tag t =
    (remove_key-contains_key k t, remove_key-contains k tag t, remove_key-length k t)

split_n-pair : (k v : Str) → has_separator k ≡ false → split_n (pair k v) ≡ some (k, v)
unfolding split_n has_separator
split_n-pair [] v plain = refl
split_n-pair (c ∷ k) v plain = ground (arith, plain, split_n-pair k v)

-- The values of tags that are pairs with one key, which has no separator, are read back from them.
pub strip_tag_key-pair :
    (k : Str) (vs : List Str) → has_separator k ≡ false → strip_tag_key (map (pair k) vs) k ≡ ok vs
unfolding strip_tag_key
strip_tag_key-pair k [] plain = refl
strip_tag_key-pair k (v ∷ vs) plain =
    rw (strip_tag_key, map, split_n-pair k v plain, beq_refl k, strip_tag_key-pair k vs plain) refl
