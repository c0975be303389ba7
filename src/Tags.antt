-- ===== src/Tags.antt =====
-- tags/tags.go: sets of tags, of which those of the form `key=value` carry a value. A string is its list
-- of bytes, a set a map without values; a loop over the map is in the order of its entries.
pub mod Pairs
mod Tests
use openpcc.Base.{
  ℕ, suc, ◌+◌, Bool, true, false, ◌&&◌, ◌||◌, ◌==◌, ltb, Option, none, some, List, [], ◌∷◌, ◌++◌,
  length, Result, ok, err, ◌>>=◌, if◌then◌else◌,
}
use openpcc.Base.Dict.{Dict, lookup, insert, list_eq, ◌===◌}

abbrev pub Str : Type 0
Str = List ℕ

abbrev pub Tags : Type 0
Tags = Dict Str (Unit {0})

pub data Error : Type 0 where
  over_max_length invalid_raw_tag key_has_separator value_has_separator : Error

abbrev pub max_tag_length : ℕ
max_tag_length = 512

-- `Tags.AddTag`
pub add_tag : Str → Tags → Result Error Tags
add_tag tag t =
    if ltb max_tag_length (length tag) then err over_max_length else ok (insert tag tt t)

-- The loop of `FromSlice`.
unfoldable pub from_slice_loop : List Str → Tags → Result Error Tags
from_slice_loop [] out = ok out
from_slice_loop (tag ∷ raw_tags) out =
    if ltb max_tag_length (length tag)
    then err over_max_length
    else from_slice_loop raw_tags (insert tag tt out)

unfoldable pub from_slice : List Str → Result Error Tags
from_slice raw_tags = from_slice_loop raw_tags []

-- `strings.Contains(s, "=")`
pub has_separator : Str → Bool
has_separator [] = false
has_separator (c ∷ cs) = (c == b'=') || has_separator cs

-- `strings.SplitN(s, "=", 2)`: both parts, where there are two.
pub split_n : Str → Option (Str × Str)
split_n [] = none
split_n (c ∷ cs) =
    if c == b'='
    then some ([], cs)
    else elim (split_n cs) [ none ↦ none | some parts ↦ some (c ∷ parts.0, parts.1) ]

-- `StripTagKey`
pub strip_tag_key : List Str → Str → Result Error (List Str)
strip_tag_key [] tag_key = ok []
strip_tag_key (tag ∷ raw_tags) tag_key = elim (split_n tag) [
  | none ↦ err invalid_raw_tag
  | some parts ↦
      if parts.0 === tag_key
      then (strip_tag_key raw_tags tag_key >>= λ tag_values. ok (parts.1 ∷ tag_values))
      else err invalid_raw_tag
]

-- `keyName + "=" + valueName`
abbrev pub pair : Str → Str → Str
pair key_name value_name = key_name ++ (b'=' ∷ value_name)

-- `Tags.AddTagPair`
pub add_tag_pair : Str → Str → Tags → Result Error Tags
add_tag_pair key_name value_name t =
    if ltb max_tag_length (length (pair key_name value_name))
    then err over_max_length
    else if has_separator key_name
    then err key_has_separator
    else if has_separator value_name
    then err value_has_separator
    else ok (insert (pair key_name value_name) tt t)

-- `Tags.Slice`
unfoldable pub to_slice : Tags → List Str
to_slice [] = []
to_slice ((tag, found) ∷ t) = tag ∷ to_slice t

-- `strings.CutPrefix(tag, keyName+"=")`, which also tells what `strings.HasPrefix` does.
pub cut_prefix : Str → Str → Option Str
cut_prefix [] tag = some tag
cut_prefix (c ∷ cs) [] = none
cut_prefix (c ∷ cs) (d ∷ ds) = if c == d then cut_prefix cs ds else none

abbrev pub has_key : Str → Str → Bool
has_key key_name tag = elim (cut_prefix (key_name ++ (b'=' ∷ [])) tag) [
  | none ↦ false
  | some value ↦ true
]

-- `Tags.RemoveKey`
pub remove_key : Str → Tags → ℕ × Tags
remove_key key_name [] = (0, [])
remove_key key_name ((tag, found) ∷ t) =
    let (num_deleted, rest) = remove_key key_name t in
    if has_key key_name tag then (suc num_deleted, rest) else (num_deleted, (tag, found) ∷ rest)

-- `Tags.Contains`
pub contains : Str → Tags → Bool
contains tag_name t = elim (lookup tag_name t) [ none ↦ false | some found ↦ true ]

-- `Tags.ContainsKey`
pub contains_key : Str → Tags → Bool
contains_key key_name [] = false
contains_key key_name ((tag, found) ∷ t) = has_key key_name tag || contains_key key_name t

-- `Tags.ContainsPair`
pub contains_pair : Str → Str → Tags → Bool
contains_pair key_name value_name t = contains (pair key_name value_name) t

-- `Tags.ContainsAll`
pub contains_all : Tags → Tags → Bool
contains_all t [] = true
contains_all t ((m_tag, found) ∷ m) = contains m_tag t && contains_all t m

-- `Tags.GetValues`
unfoldable pub get_values : Str → Tags → List Str
get_values key_name [] = []
get_values key_name ((tag, found) ∷ t) =
    let values = get_values key_name t in
    elim (cut_prefix (key_name ++ (b'=' ∷ [])) tag) [ none ↦ values | some value ↦ value ∷ values ]
