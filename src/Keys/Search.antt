-- ===== src/Keys/Search.antt =====
-- Which key pair the gateway finds, and what its generated pairs are made of.
use openpcc.Base.{
  ℕ, suc, zero, ◌%◌, ◌^◌, ◌<◌, ◌≡◌, refl, ap, Bool, ◌&&◌, ltb, Option, none, some, List, [], ◌∷◌,
  length, All, Result, ok, err, inl, inr, arith, Bool-cases, Result-cases, if◌then◌else◌,
}
use openpcc.Base.Int.{ℤ, ltb_ℤ, leb_ℤ}
use openpcc.Keys.{
  Period, Error, key_expired, key_not_yet_active, ExpiringKeyPair, check_if_active, is_active,
  is_expired, find_pair_secret_key, find_loop, find_secret_key, generate_key_pair, generate_loop,
  generate_key_pairs,
}

module _ {KeyPair SecretKeyInfo : Type 0} (find : KeyPair → Result Error SecretKeyInfo)
    (now : ℤ) where
  -- A pair in its period, which begins after `active_from` and ends with `active_until`.
  abbrev pub is_current : Period → Bool
  is_current p = ltb_ℤ p.active_from now && leb_ℤ now p.active_until

  -- What the first pair has that is in its period and has the key of the request.
  abbrev pub first_usable : List (ExpiringKeyPair KeyPair) → Option SecretKeyInfo
  first_usable [] = none
  first_usable (kp ∷ kps) = elim (find kp.key_pair) [
    | err e ↦ first_usable kps
    | ok info ↦ if is_current kp.period then some info else first_usable kps
  ]

  -- Why the last pair is not usable.
  abbrev pub last_reason : Option Error → List (ExpiringKeyPair KeyPair) → Option Error
  last_reason e [] = e
  last_reason e (kp ∷ kps) =
      last_reason
        (elim (find kp.key_pair) [
          | err e' ↦ some e'
          | ok info ↦
              if ltb_ℤ kp.period.active_until now then some key_expired else some key_not_yet_active
        ])
        kps

  abbrev pub found :
      SecretKeyInfo → Option SecretKeyInfo → Option Error → Result Error SecretKeyInfo
  found no_info (some info) e = ok info
  found no_info none (some e) = err e
  found no_info none none = ok no_info

  find_loop-found :
      (no_info : SecretKeyInfo) (kps : List (ExpiringKeyPair KeyPair)) (e : Option Error)
      → find_loop find now no_info kps e ≡ found no_info (first_usable kps) (last_reason e kps)
  unfolding find_loop find_pair_secret_key check_if_active is_active is_expired
  find_loop-found no_info [] none = refl
  find_loop-found no_info [] (some e) = refl
  find_loop-found no_info (kp ∷ kps) e = elim (Result-cases (find kp.key_pair)) [
    | inr (e', h) ↦ ground (arith, h, find_loop-found no_info kps (some e'))
    | inl (info, h) ↦ ground (
      arith,
      h,
      find_loop-found no_info kps (some key_expired),
      find_loop-found no_info kps (some key_not_yet_active),
    )
  ]

  -- The search returns what the first key pair has that both is in its period and has the key of
  -- the request; where there is none, the reason why the last one is not usable; and of no
  -- pairs at all the empty information, without an error.
  pub find_secret_key-found :
      (no_info : SecretKeyInfo) (kps : List (ExpiringKeyPair KeyPair))
      → find_secret_key find now no_info kps
        ≡ found no_info (first_usable kps) (last_reason none kps)
  unfolding find_secret_key
  find_secret_key-found no_info kps = find_loop-found no_info kps none

module _ {KeyPair : Type 0} (add_year : ℤ → ℤ) (make : (id : ℕ) (seed : List ℕ) → KeyPair)
    (now : (id : ℕ) → ℤ) where
  abbrev pub OfSeed : List ℕ → ExpiringKeyPair KeyPair → Type 0
  OfSeed seed kp = (id : ℕ) × (kp.key_pair ≡ make id seed)

  abbrev pub Generated : ℕ → List ℕ → Result Error (List (ExpiringKeyPair KeyPair)) → Type 0
  Generated n seed (ok kps) = (length kps ≡ n) × All (OfSeed seed) kps
  Generated n seed (err e) = 255 < n

  generate_loop-Generated :
      (left i : ℕ) (seed : List ℕ) (seeds : List (List ℕ))
      → (kps : List (ExpiringKeyPair KeyPair)) × (generate_loop add_year make now left i
            (seed ∷ seeds)
          ≡ ok kps)
        × (length kps ≡ left)
        × All (OfSeed seed) kps
  unfolding generate_loop generate_key_pair
  generate_loop-Generated zero i seed seeds = ([], refl, refl, tt)
  generate_loop-Generated (suc left) i seed seeds =
      let (kps, h, count, all) = generate_loop-Generated left (suc i) seed seeds in
      let kp = generate_key_pair add_year make now i seed (now i) (add_year (now i)) in
      (kp ∷ kps, rw (generate_loop, h) refl, ap suc count, ((i, refl), all))

  -- Up to 255 seeds give as many key pairs, and all of them are made of the first seed.
  pub generate_key_pairs-Generated :
      (seed : List ℕ) (seeds : List (List ℕ))
      → Generated (suc (length seeds)) seed (generate_key_pairs add_year make now (seed ∷ seeds))
  unfolding generate_key_pairs
  generate_key_pairs-Generated seed seeds = elim (Bool-cases (ltb 255 (suc (length seeds)))) [
    | inl many ↦ rw many (ground (arith, many))
    | inr few ↦
        let whole : suc (length seeds) % 2 ^ 8 ≡ suc (length seeds) = ground (arith, few) in
        let (kps, h, count, all) = generate_loop-Generated (suc (length seeds)) 0 seed seeds in
        rw (few, whole, h) (count, all)
  ]
