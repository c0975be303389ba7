-- ===== src/Finder/Tests.antt =====
-- The cached finder at concrete inputs: nodes are numbers, and the cache forgets nothing.
use openpcc.Base.{ℕ, Bool, ◌==◌, refl, ◌≡◌, ◌↔◌, Option, some, List, [], ◌∷◌, Result, ok}
use openpcc.Base.Int.{pos}
use openpcc.Base.Dict.{Dict, lookup, insert, list_eq}
use openpcc.Base.Strings.{sort_strings, insert_sorted, str_less}
use openpcc.Tags.{Str, Tags, to_slice, from_slice, from_slice_loop}
use openpcc.Finder.{Lru, CacheEntry, normalized_cache_key, join_bars, find_verified_nodes}
use openpcc.Finder.Caching.{Found, find_verified_nodes-Found}
use openpcc.Finder.CacheSets.{tag_set, cache_key, cache_key-injective}

abbrev unbounded : Lru ℕ
unbounded = record {
  Cache = Dict Str (CacheEntry ℕ);
  get = λ key cache. (lookup key cache, cache);
  add = λ key entry cache. insert key entry cache;
}

abbrev gpu_tag : Tags
gpu_tag = (b'g' ∷ [], tt) ∷ []

abbrev always_zero : ℕ → Option ℕ
always_zero i = some 0

abbrev is_four : ℕ → Bool
is_four n = n == 4

-- The first attempt finds no nodes, the second one three.
abbrev fetched : List (Result ℕ (List ℕ))
fetched = ok [] ∷ ok (4 ∷ 5 ∷ 6 ∷ []) ∷ []

find_verified_nodes-Found_example :
    Found unbounded is_four
      (pos 10)
      (pos 12)
      (pos 60)
      fetched
      (normalized_cache_key gpu_tag)
      []
      (find_verified_nodes unbounded (pos 10) (pos 12) (pos 60) always_zero fetched gpu_tag [])
find_verified_nodes-Found_example =
    find_verified_nodes-Found unbounded is_four (pos 10) (pos 12) (pos 60) always_zero fetched
      gpu_tag []

-- Two sets of tags with one cache key: the tags a and b, and the tag `a|b`.
one_key :
    normalized_cache_key ((b'b' ∷ [], tt) ∷ (b'a' ∷ [], tt) ∷ [])
    ≡ normalized_cache_key ((b'a' ∷ b'|' ∷ b'b' ∷ [], tt) ∷ [])
unfolding normalized_cache_key sort_strings insert_sorted join_bars str_less to_slice
one_key = refl

-- The tags b, a and b again
abbrev repeated : List Str
repeated = (b'b' ∷ []) ∷ (b'a' ∷ []) ∷ (b'b' ∷ []) ∷ []

abbrev ordered : List Str
ordered = (b'a' ∷ []) ∷ (b'b' ∷ []) ∷ []

abbrev repeated_tags : Tags
repeated_tags = (b'b' ∷ [], tt) ∷ (b'a' ∷ [], tt) ∷ []

abbrev ordered_tags : Tags
ordered_tags = (b'a' ∷ [], tt) ∷ (b'b' ∷ [], tt) ∷ []

repeated_accepted : from_slice repeated ≡ ok repeated_tags
unfolding from_slice from_slice_loop insert
repeated_accepted = refl

ordered_accepted : from_slice ordered ≡ ok ordered_tags
unfolding from_slice from_slice_loop insert
ordered_accepted = refl

cache_key-injective_example :
    (cache_key (tag_set repeated) ≡ ok (normalized_cache_key repeated_tags))
    × (cache_key (tag_set ordered) ≡ ok (normalized_cache_key ordered_tags))
    × ((normalized_cache_key repeated_tags ≡ normalized_cache_key ordered_tags)
        ↔ (tag_set repeated ≡ tag_set ordered))
cache_key-injective_example =
    cache_key-injective repeated ordered repeated_accepted ordered_accepted refl refl
