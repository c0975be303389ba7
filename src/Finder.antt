-- ===== src/Finder.antt =====
-- cached_node_finder.go and simple_node_finder.go: verified nodes for a set of tags, fetched from the router,
-- cached by the tags, and shuffled. The cache is the third-party LRU, a parameter; so is its
-- backoff, of which the answers of the attempts that it grants are given. A time is a count of nanoseconds.
pub mod Shuffle
pub mod CacheKey
pub mod CacheSets
pub mod Caching
pub mod Strict
mod Tests
use openpcc.Base.{
  ℕ, suc, zero, ◌+◌, ◌-◌, ◌^◌, Bool, true, false, not, ◌&&◌, ◌==◌, ltb, leb, Option, none, some,
  List, [], ◌∷◌, ◌++◌, length, get_elem?, Result, ok, err, if◌then◌else◌,
}
use openpcc.Base.Int.{ℤ, pos, negsuc, ◌+ℤ◌, ltb_ℤ, leb_ℤ}
use openpcc.Base.Strings.{sort_strings}
use openpcc.Tags.{Str, Tags, to_slice}

-- `strings.Join(ss, "|")`
pub join_bars : List Str → Str
join_bars [] = []
join_bars (s ∷ []) = s
join_bars (s ∷ t ∷ ss) = s ++ (b'|' ∷ join_bars (t ∷ ss))

-- `normalizedCacheKey`
pub normalized_cache_key : Tags → Str
normalized_cache_key tagslist = join_bars (sort_strings (to_slice tagslist))

-- `safeInt32`
pub safe_int32 : ℤ → Option ℤ
safe_int32 v = if leb_ℤ (negsuc (2 ^ 31 - 1)) v && leb_ℤ v (pos (2 ^ 31 - 1)) then some v else none

module _ {A : Type 0} where
  abbrev pub set_at : ℕ → A → List A → List A
  set_at i x [] = []
  set_at zero x (y ∷ ys) = x ∷ ys
  set_at (suc i) x (y ∷ ys) = y ∷ set_at i x ys

  -- `nodes[i], nodes[j] = nodes[j], nodes[i]`
  pub swap : (i j : ℕ) → List A → List A
  swap i j nodes = elim (get_elem? nodes i) [
    | none ↦ nodes
    | some a ↦ elim (get_elem? nodes j) [ none ↦ nodes | some b ↦ set_at i b (set_at j a nodes) ]
  ]

  -- The loops of `cryptoShuffle`, from `i` down to 1, on what `rand.Int` draws at each.
  pub shuffle_loop : (draw : ℕ → Option ℕ) → (i : ℕ) → List A → Option (List A)
  shuffle_loop draw zero nodes = some nodes
  shuffle_loop draw (suc i) nodes = elim (draw (suc i)) [
    | none ↦ none
    | some j ↦ shuffle_loop draw i (swap (suc i) j nodes)
  ]

  -- `shuffleNodes`, of a copy.
  pub shuffle_nodes : (draw : ℕ → Option ℕ) → List A → Option (List A)
  shuffle_nodes draw nodes = shuffle_loop draw (length nodes - 1) nodes

pub data Error : Type 0 where
  no_nodes not_shuffled : Error
  not_found : ℕ → Error

-- `cacheEntry`
pub record CacheEntry (Node : Type 0) : Type 0 where
  pub nodes : List Node
  pub expires_at : ℤ

-- `lru.Cache`, which counts a `Get` as a use.
pub record Lru (Node : Type 0) : Type 1 where
  pub Cache : Type 0
  pub get : Str → Cache → Option (CacheEntry Node) × Cache
  pub add : Str → CacheEntry Node → Cache → Cache

module _ {Node : Type 0} where
  -- `cacheEntry.isExpired`
  pub is_expired : (now : ℤ) → CacheEntry Node → Bool
  is_expired now e = ltb_ℤ e.expires_at now

  -- `backoff.Retry`, over the answers of the underlying finder: an error is permanent, and no nodes are
  -- asked for again, until the backoff gives up.
  pub retry : List (Result ℕ (List Node)) → Result Error (List Node)
  retry [] = err no_nodes
  retry (err e ∷ answers) = err (not_found e)
  retry (ok [] ∷ answers) = retry answers
  retry (ok (n ∷ ns) ∷ answers) = ok (n ∷ ns)

  abbrev pub shuffled : (draw : ℕ → Option ℕ) → List Node → Result Error (List Node)
  shuffled draw nodes = elim (shuffle_nodes draw nodes) [
    | none ↦ err not_shuffled
    | some ns ↦ ok ns
  ]

  module _ (lru : Lru Node) where
    -- The fetch of `FindVerifiedNodes`, on a miss.
    pub fetch :
        (now expires_after : ℤ)
        → (draw : ℕ → Option ℕ) → List (Result ℕ (List Node))
        → (cache_key : Str) → lru.Cache
        → Result Error (List Node) × lru.Cache
    fetch now expires_after draw answers cache_key cache = elim (retry answers) [
      | err e ↦ (err e, cache)
      | ok nodes ↦ (
        shuffled draw nodes,
        lru.add cache_key (record { nodes = nodes; expires_at = now +ℤ expires_after }) cache,
      )
    ]

    -- `CachedNodeFinder.FindVerifiedNodes`, which reads the clock at the lookup and after the fetch.
    pub find_verified_nodes :
        (now later expires_after : ℤ)
        → (draw : ℕ → Option ℕ) → List (Result ℕ (List Node))
        → Tags
        → lru.Cache
        → Result Error (List Node) × lru.Cache
    find_verified_nodes now later expires_after draw answers tagslist cache =
        let cache_key = normalized_cache_key tagslist in
        let (entry, cache') = lru.get cache_key cache in
        elim entry [
          | none ↦ fetch later expires_after draw answers cache_key cache'
          | some e ↦
              if not (is_expired now e)
              then (shuffled draw e.nodes, cache')
              else fetch later expires_after draw answers cache_key cache'
        ]

-- What the simple finder reads of the items that the router sends: a manifest, or none where it does not
-- parse; and the verified data of its evidence, or none.
module _ {Item Manifest Data : Type 0} (parse : Item → Option Manifest)
    (verify : Manifest → Option Data) where
  -- The loop of `simpleNodeFinder.FindVerifiedNodes`, which leaves out what does not verify.
  pub verified_nodes : List Item → List (Manifest × Data)
  verified_nodes [] = []
  verified_nodes (item ∷ items) =
      let nodes = verified_nodes items in
      elim (parse item) [
        | none ↦ nodes
        | some manifest ↦ elim (verify manifest) [
          | none ↦ nodes
          | some verified ↦ (manifest, verified) ∷ nodes
        ]
      ]
