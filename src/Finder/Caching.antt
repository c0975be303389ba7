-- ===== src/Finder/Caching.antt =====
-- Where the nodes come from that the cached finder returns, and what it caches.
use mathlib.Core.Path.{subst}
use openpcc.Base.{
  count, ℕ, suc, zero, get_elem?, ◌<◌, ◌≡◌, ◌⊎◌, ◌-◌, refl, arith, [], ◌∷◌, Bool, true, false,
  Option, none, some, List, length, Result, ok, err, inl, inr, Bool-cases, Option-cases,
  Result-cases,
}
use openpcc.Base.Int.{ℤ, ◌+ℤ◌, ◌≤ℤ◌}
use openpcc.Tags.{Tags, Str}
use openpcc.Finder.{
  Lru, CacheEntry, Error, is_expired, normalized_cache_key, retry, shuffled, shuffle_nodes, fetch,
  find_verified_nodes,
}
use openpcc.Finder.Shuffle.{Shuffled, shuffle_nodes-Shuffled}

module _ {Node : Type 0} (lru : Lru Node) where
  -- A result with the nodes of a list, shuffled.
  abbrev pub HasNodes : (Node → Bool) → List Node → Result Error (List Node) → Type 0
  HasNodes test nodes (ok ns) = count test ns ≡ count test nodes
  HasNodes test nodes (err e) = e ≡ Error.not_shuffled

  -- Whether the finder underneath answers a first number of attempts without an error and without nodes.
  abbrev pub AllEmpty : ℕ → List (Result ℕ (List Node)) → Type 0
  AllEmpty zero answers = Unit
  AllEmpty (suc i) [] = ⊥
  AllEmpty (suc i) (answer ∷ answers) = (answer ≡ ok []) × AllEmpty i answers

  -- What the attempts come to: the first answer that has nodes, or that is an error, or none of them.
  abbrev pub Answered : List (Result ℕ (List Node)) → Result Error (List Node) → Type 0
  Answered answers (ok nodes) =
      (i : ℕ) × AllEmpty i answers × (get_elem? answers i ≡ some (ok nodes)) × (0 < length nodes)
  Answered answers (err e) =
      ((i : ℕ) × (x : ℕ) × AllEmpty i answers
        × (get_elem? answers i ≡ some (err x))
        × (e ≡ Error.not_found x))
      ⊎ (AllEmpty (length answers) answers × (e ≡ Error.no_nodes))

  -- What a fetch does: it adds the nodes that the underlying finder gives, or returns its error.
  abbrev pub Fetched :
      (test : Node → Bool) (later expires_after : ℤ)
      → List (Result ℕ (List Node))
      → Str
      → lru.Cache
      → Result Error (List Node) × lru.Cache
      → Type 0
  Fetched test later expires_after answers key looked_up (result, cache') =
      ((nodes : List Node) × Answered answers (ok nodes)
        × (cache'
            ≡ lru.add key (record { nodes = nodes; expires_at = later +ℤ expires_after }) looked_up)
        × HasNodes test nodes result)
      ⊎ ((e : Error) × Answered answers (err e) × (result ≡ err e) × (cache' ≡ looked_up))

  -- What the cached finder does: it answers from an entry of the cache that has not expired, which it leaves;
  -- or there is no such entry, and the nodes that the underlying finder gives are added and returned,
  -- or its error is.
  abbrev pub Found :
      (test : Node → Bool) (now later expires_after : ℤ)
      → List (Result ℕ (List Node))
      → Str
      → lru.Cache
      → Result Error (List Node) × lru.Cache
      → Type 0
  Found test now later expires_after answers key cache (result, cache') =
      let (entry, looked_up) = lru.get key cache in
      ((e : CacheEntry Node) × (entry ≡ some e)
        × (now ≤ℤ e.expires_at)
        × (cache' ≡ looked_up)
        × HasNodes test e.nodes result)
      ⊎ (((entry ≡ none) ⊎ ((e : CacheEntry Node) × (entry ≡ some e) × ¬ (now ≤ℤ e.expires_at)))
          × Fetched test later expires_after answers key looked_up (result, cache'))

  retry-Answered : (answers : List (Result ℕ (List Node))) → Answered answers (retry answers)
  unfolding retry
  retry-Answered [] = inr (tt, refl)
  retry-Answered (err x ∷ answers) = inl (0, x, tt, refl, refl)
  retry-Answered (ok [] ∷ answers) = later (retry answers) (retry-Answered answers)
    where
      later : (r : Result Error (List Node)) → Answered answers r → Answered (ok [] ∷ answers) r
      later (ok nodes) (i, empty, there, many) = (suc i, (refl, empty), there, many)
      later (err e) (inl (i, x, empty, there, same)) = inl (suc i, x, (refl, empty), there, same)
      later (err e) (inr (empty, same)) = inr ((refl, empty), same)
  retry-Answered (ok (n ∷ ns) ∷ answers) = (0, tt, refl, omega arith)

  shuffled-HasNodes :
      (test : Node → Bool) (draw : ℕ → Option ℕ) (nodes : List Node)
      → HasNodes test nodes (shuffled draw nodes)
  shuffled-HasNodes test draw nodes =
      go (shuffle_nodes draw nodes) (shuffle_nodes-Shuffled test draw nodes)
    where
      result : Option (List Node) → Result Error (List Node)
      result o = elim o [ none ↦ err Error.not_shuffled | some ns ↦ ok ns ]

      go :
          (o : Option (List Node))
          → Shuffled test draw (length nodes - 1) nodes o
          → HasNodes test nodes (result o)
      go none failed = refl
      go (some ns) same = same

  fetch-Fetched :
      (test : Node → Bool) (later expires_after : ℤ) (draw : ℕ → Option ℕ)
      (answers : List (Result ℕ (List Node))) (key : Str) (cache : lru.Cache)
      → Fetched test later expires_after answers key cache
          (fetch lru later expires_after draw answers key cache)
  unfolding fetch
  fetch-Fetched test later expires_after draw answers key cache =
      elim (Result-cases (retry answers)) [
        | inr (e, h) ↦
            rw (fetch, h) (inr (e, subst (Answered answers) h (retry-Answered answers), refl, refl))
        | inl (nodes, h) ↦
            rw (fetch, h)
              (inl (
                nodes,
                subst (Answered answers) h (retry-Answered answers),
                refl,
                shuffled-HasNodes test draw nodes,
              ))
      ]

  is_expired-fresh :
      (now : ℤ) (e : CacheEntry Node) → is_expired now e ≡ false → now ≤ℤ e.expires_at
  unfolding is_expired
  is_expired-fresh now e fresh = ground (arith, fresh)

  is_expired-old :
      (now : ℤ) (e : CacheEntry Node) → is_expired now e ≡ true → ¬ (now ≤ℤ e.expires_at)
  unfolding is_expired
  is_expired-old now e old = λ h. ground (arith, old, h)

  -- The cached finder returns, in some order, the nodes of an entry for the tags that expires no earlier than
  -- now, and asks for none; or there is no entry or one that expired before now, and it asks. Then
  -- the nodes of the first answer that has some, where those before it are empty, are added to the
  -- cache with a new time of expiry and returned. An error as the first answer that is not empty is
  -- returned, or that there are no nodes where all are empty, and the cache is left.
  pub find_verified_nodes-Found :
      (test : Node → Bool) (now later expires_after : ℤ) (draw : ℕ → Option ℕ)
      (answers : List (Result ℕ (List Node))) (tagslist : Tags) (cache : lru.Cache)
      → Found test now later expires_after answers
          (normalized_cache_key tagslist)
          cache
          (find_verified_nodes lru now later expires_after draw answers tagslist cache)
  unfolding find_verified_nodes
  find_verified_nodes-Found test now later expires_after draw answers tagslist cache =
      let key = normalized_cache_key tagslist in
      let (entry, looked_up) = lru.get key cache in
      let fetched = fetch-Fetched test later expires_after draw answers key looked_up in
      elim (Option-cases entry) [
        | inl h ↦ rw (find_verified_nodes, h) (inr (inl refl, fetched))
        | inr (e, h) ↦ elim (Bool-cases (is_expired now e)) [
          | inr fresh ↦
              rw (find_verified_nodes, h, fresh)
                (inl (
                  e,
                  refl,
                  is_expired-fresh now e fresh,
                  refl,
                  shuffled-HasNodes test draw e.nodes,
                ))
          | inl old ↦
              rw (find_verified_nodes, h, old)
                (inr (inr (e, refl, is_expired-old now e old), fetched))
        ]
      ]
