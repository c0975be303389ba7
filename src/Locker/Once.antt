-- ===== src/Locker/Once.antt =====
-- A nonce is consumed at most once, whatever calls reach the locker; what a lock and a release leave.
use openpcc.Base.{
  ℕ, ◌+◌, ◌≤◌, ◌≡◌, refl, ap, Bool, true, false, ◌&&◌, Option, none, some, List, [], ◌∷◌, ◌==◌, inl,
  inr, Bool-cases, if◌then◌else◌, length, ok, is_ok, Result, arith,
}
use openpcc.Base.Int.{ℤ}
use openpcc.Base.Dict.{
  lookup, insert, erase, list_eq, ◌===◌, eq_of_beq, lookup-insert_self, lookup-insert_ne,
  lookup-erase_self, lookup-erase_ne, ne_of_beq,
}
use openpcc.Nonce.{Nonce}
use openpcc.Locker.{
  locked, consumed, NonceLocker, Error, Call, lock, consume, release, call, calls, status_of,
  lock_nonce, consume_nonce, release_nonce, key_of,
}
use openpcc.Locker.Steps.{call-Step}

-- Whether a call is one that consumes the nonce with the key, and succeeds.
abbrev pub consumes : List ℕ → Call → NonceLocker → Bool
consumes k (lock now random n) l = false
consumes k (consume n ticket) l = (k === key_of n) && is_ok (consume_nonce n ticket l).0
consumes k (release n ticket) l = false

abbrev pub count_if : Bool → ℕ
count_if b = if b then 1 else 0

-- How often a run of calls consumes the nonce.
pub times_consumed : List ℕ → List Call → NonceLocker → ℕ
times_consumed k [] l = 0
times_consumed k (c ∷ cs) l = count_if (consumes k c l) + times_consumed k cs (call c l)

-- A call on a consumed nonce leaves it so.
pub call-consumed :
    (c : Call) (k : List ℕ) (l : NonceLocker)
    → status_of k l ≡ some consumed
    → status_of k (call c l) ≡ some consumed
call-consumed c k l spent = ground (arith, call-Step c k l)

-- A successful consumption finds the nonce locked, and leaves it consumed.
consume_lem :
    (c : Call) (k : List ℕ) (l : NonceLocker)
    → consumes k c l ≡ true
    → (status_of k l ≡ some locked) × (status_of k (call c l) ≡ some consumed)
unfolding call consume_nonce status_of
consume_lem (lock now random n) k l h = cc
consume_lem (release n ticket) k l h = cc
consume_lem (consume n ticket) k l h = elim (Bool-cases (k === key_of n)) [
  | inl same ↦ rw (eq_of_beq k (key_of n) same) (
      ground (
        arith,
        lookup-insert_self (key_of n) (record { status = consumed; ticket = ticket }) l.nonces,
      ))
  | inr other ↦ ground arith
]

no_more :
    (k : List ℕ) (cs : List Call) (l : NonceLocker)
    → status_of k l ≡ some consumed
    → times_consumed k cs l ≡ 0
unfolding times_consumed
no_more k [] l spent = refl
no_more k (c ∷ cs) l spent =
    ground (arith, consume_lem c k l, no_more k cs (call c l) (call-consumed c k l spent))

-- In any run of calls, from any state, a nonce is consumed at most once.
pub consumed_once : (k : List ℕ) (cs : List Call) (l : NonceLocker) → times_consumed k cs l ≤ 1
unfolding times_consumed
consumed_once k [] l = omega arith
consumed_once k (c ∷ cs) l = elim (Bool-cases (consumes k c l)) [
  | inl e ↦ rw e (omega (arith, no_more k cs (call c l) (consume_lem c k l e).1))
  | inr e ↦ rw e (omega (arith, consumed_once k cs (call c l)))
]

module _ (n : Nonce) (l : NonceLocker) where
  refused_lock :
      (now : ℤ) (random : Option (List ℕ))
      → status_of (key_of n) l ≡ some consumed
      → is_ok (lock_nonce now random n l).0 ≡ false
  unfolding lock_nonce status_of
  refused_lock now random spent = ground arith

  refused_consume :
      (ticket : List ℕ)
      → status_of (key_of n) l ≡ some consumed
      → is_ok (consume_nonce n ticket l).0 ≡ false
  unfolding consume_nonce status_of
  refused_consume ticket spent = ground arith

  refused_release :
      (ticket : List ℕ)
      → status_of (key_of n) l ≡ some consumed
      → is_ok (release_nonce n ticket l).0 ≡ false
  unfolding release_nonce status_of
  refused_release ticket spent = ground arith

-- After any calls a consumed nonce is still consumed, and no attempt to lock, consume or
-- release it succeeds.
pub consumed_final :
    (n : Nonce) (cs : List Call) (l : NonceLocker)
    → status_of (key_of n) l ≡ some consumed
    → let l' = calls cs l in
      (status_of (key_of n) l' ≡ some consumed)
      × ((now : ℤ) (random : Option (List ℕ)) → is_ok (lock_nonce now random n l').0 ≡ false)
      × ((ticket : List ℕ) → is_ok (consume_nonce n ticket l').0 ≡ false)
      × ((ticket : List ℕ) → is_ok (release_nonce n ticket l').0 ≡ false)
unfolding calls
consumed_final n [] l spent = (
  spent,
  λ now random. refused_lock n l now random spent,
  λ ticket. refused_consume n l ticket spent,
  λ ticket. refused_release n l ticket spent,
)
consumed_final n (c ∷ cs) l spent =
    consumed_final n cs (call c l) (call-consumed c (key_of n) l spent)

abbrev pub held : Nonce → List ℕ → NonceLocker → NonceLocker
held n t l = record { nonces = insert (key_of n) (record { status = locked; ticket = t }) l.nonces }

pub lock_inversion :
    (now : ℤ) (random : Option (List ℕ)) (n : Nonce) (t : List ℕ) (l : NonceLocker)
    → (lock_nonce now random n l).0 ≡ ok t
    → ((length n.nonce == 16) ≡ true)
      × (lookup (key_of n) l.nonces ≡ none)
      × ((lock_nonce now random n l).1 ≡ held n t l)
unfolding lock_nonce
lock_inversion now none n t l got = ground arith
lock_inversion now (some b) n t l got = ground arith

free_status :
    (n : Nonce) (l : NonceLocker)
    → lookup (key_of n) l.nonces ≡ none
    → status_of (key_of n) l ≡ none
unfolding status_of
free_status n l free = rw free

module _ (n : Nonce) (t : List ℕ) (l : NonceLocker) (long : (length n.nonce == 16) ≡ true) where
  found : lookup (key_of n) (held n t l).nonces ≡ some (record { status = locked; ticket = t })
  found = lookup-insert_self (key_of n) (record { status = locked; ticket = t }) l.nonces

  held_refuses :
      (now : ℤ) (random : Option (List ℕ)) → is_ok (lock_nonce now random n (held n t l)).0 ≡ false
  unfolding lock_nonce
  held_refuses now random = ground (arith, found)

  release_held :
      (t' : List ℕ)
      → release_nonce n t' (held n t l)
        ≡ (ok tt, record { nonces = erase (key_of n) (held n t l).nonces })
  unfolding release_nonce
  release_held t' = ground (arith, found)

  back :
      (k : List ℕ)
      → lookup (key_of n) l.nonces ≡ none
      → status_of k (record { nonces = erase (key_of n) (held n t l).nonces }) ≡ status_of k l
  unfolding status_of
  back k free = elim (Bool-cases (k === key_of n)) [
    | inl same ↦
        rw (eq_of_beq k (key_of n) same, lookup-erase_self (key_of n) (held n t l).nonces, free)
    | inr other ↦
        let ne = ne_of_beq k (key_of n) other in
        rw (
          lookup-erase_ne k (key_of n) (held n t l).nonces ne,
          lookup-insert_ne k (key_of n) (record { status = locked; ticket = t }) l.nonces ne,
        )
  ]

-- A lock that succeeds finds the nonce free; while it is held every other attempt to lock fails, and
-- releasing it with any ticket succeeds and brings every nonce back to its status before.
pub release-lock :
    (now now' : ℤ) (random random' : Option (List ℕ)) (n : Nonce) (t t' : List ℕ) (l : NonceLocker)
    → (lock_nonce now random n l).0 ≡ ok t
    → let l' = (lock_nonce now random n l).1 in
      (status_of (key_of n) l ≡ none)
      × (is_ok (lock_nonce now' random' n l').0 ≡ false)
      × ((release_nonce n t' l').0 ≡ ok tt)
      × ((k : List ℕ) → status_of k (release_nonce n t' l').1 ≡ status_of k l)
release-lock now now' random random' n t t' l got =
    let (long, free, after) = lock_inversion now random n t l got in
    rw after (
      free_status n l free,
      held_refuses n t l long now' random',
      ap (λ (p : Result Error (Unit {0}) × NonceLocker). p.0) (release_held n t l long t'),
      λ k. rw (release_held n t l long t') (back n t l long k free),
    )

-- Neither `ConsumeNonce` nor `ReleaseNonce` compares its ticket with the lock's: any two tickets
-- have the same outcome, and leave the same status of every nonce.
pub ticket_ignored :
    (n : Nonce) (t t' : List ℕ) (l : NonceLocker) (k : List ℕ)
    → ((consume_nonce n t l).0 ≡ (consume_nonce n t' l).0)
      × (status_of k (consume_nonce n t l).1 ≡ status_of k (consume_nonce n t' l).1)
      × (release_nonce n t l ≡ release_nonce n t' l)
unfolding consume_nonce release_nonce status_of
ticket_ignored n t t' l k = (
  ground arith,
  elim (Bool-cases (k === key_of n)) [
    | inl same ↦ rw (eq_of_beq k (key_of n) same) (
        ground (
          arith,
          lookup-insert_self (key_of n) (record { status = consumed; ticket = t }) l.nonces,
          lookup-insert_self (key_of n) (record { status = consumed; ticket = t' }) l.nonces,
        ))
    | inr other ↦
        let ne = ne_of_beq k (key_of n) other in
        ground (
          arith,
          lookup-insert_ne k (key_of n) (record { status = consumed; ticket = t }) l.nonces ne,
          lookup-insert_ne k (key_of n) (record { status = consumed; ticket = t' }) l.nonces ne,
        )
  ],
  ground arith,
)
