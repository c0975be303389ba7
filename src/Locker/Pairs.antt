-- ===== src/Locker/Pairs.antt =====
-- What a lock and the call after it leave of every nonce's status, for the clients of the locker.
use openpcc.Base.{
  ℕ, ◌≡◌, refl, true, Option, some, none, List, ok, err, inl, inr, Bool-cases, arith, ◌==◌,
  if◌then◌else◌, length,
}
use openpcc.Base.Int.{ℤ}
use openpcc.Base.Dict.{
  insert, list_eq, ◌===◌, eq_of_beq, lookup-insert, lookup-insert_self, lookup-insert_ne, ne_of_beq,
}
use openpcc.Nonce.{Nonce}
use openpcc.Locker.{
  locked, consumed, NonceLocker, Error, status_of, lock_nonce, consume_nonce, key_of,
}
use openpcc.Locker.Once.{held, lock_inversion}

-- A lock that fails changes nothing.
pub lock_failed :
    (now : ℤ) (random : Option (List ℕ)) (n : Nonce) (e : Error) (l : NonceLocker)
    → (lock_nonce now random n l).0 ≡ err e
    → (lock_nonce now random n l).1 ≡ l
unfolding lock_nonce
lock_failed now none n e l failed = ground arith
lock_failed now (some b) n e l failed = ground arith

-- A lock that succeeds leaves the nonce locked.
pub lock_status :
    (now : ℤ) (random : Option (List ℕ)) (n : Nonce) (t : List ℕ) (l : NonceLocker)
    → (lock_nonce now random n l).0 ≡ ok t
    → status_of (key_of n) (lock_nonce now random n l).1 ≡ some locked
unfolding status_of
lock_status now random n t l got =
    let (long, free, after) = lock_inversion now random n t l got in
    rw (after, lookup-insert_self (key_of n) (record { status = locked; ticket = t }) l.nonces)

-- It changes no other nonce.
pub lock_statuses :
    (now : ℤ) (random : Option (List ℕ)) (n : Nonce) (t : List ℕ) (l : NonceLocker)
    → (lock_nonce now random n l).0 ≡ ok t
    → (k : List ℕ)
    → status_of k (lock_nonce now random n l).1
      ≡ (if k === key_of n then some locked else status_of k l)
unfolding status_of
lock_statuses now random n t l got k =
    let (long, free, after) = lock_inversion now random n t l got in
    elim (Bool-cases (k === key_of n)) [
      | inl same ↦
          rw
            (
              after,
              lookup-insert k (key_of n) (record { status = locked; ticket = t }) l.nonces,
              same,
            )
            refl
      | inr other ↦
          rw
            (
              after,
              lookup-insert k (key_of n) (record { status = locked; ticket = t }) l.nonces,
              other,
            )
            refl
    ]

module _ (n : Nonce) (t t' : List ℕ) (l : NonceLocker) where
  abbrev spent : NonceLocker
  spent = record {
    nonces = insert (key_of n) (record { status = consumed; ticket = t' }) (held n t l).nonces;
  }

  consume_held : (length n.nonce == 16) ≡ true → consume_nonce n t' (held n t l) ≡ (ok tt, spent)
  unfolding consume_nonce
  consume_held long =
      ground
        (arith, lookup-insert_self (key_of n) (record { status = locked; ticket = t }) l.nonces)

  spent_status :
      (k : List ℕ) → status_of k spent ≡ (if k === key_of n then some consumed else status_of k l)
  unfolding status_of
  spent_status k = elim (Bool-cases (k === key_of n)) [
    | inl same ↦ rw same (
        rw (
          eq_of_beq k (key_of n) same,
          lookup-insert_self (key_of n) (record { status = consumed; ticket = t' })
              (held n t l).nonces,
        ))
    | inr other ↦
        let ne = ne_of_beq k (key_of n) other in
        rw other (
          rw (
            lookup-insert_ne k (key_of n) (record { status = consumed; ticket = t' })
                (held n t l).nonces ne,
            lookup-insert_ne k (key_of n) (record { status = locked; ticket = t }) l.nonces ne,
          ))
  ]

-- Consuming a nonce right after its lock succeeds, and changes the status of no other nonce.
pub consume-lock :
    (now : ℤ) (random : Option (List ℕ)) (n : Nonce) (t t' : List ℕ) (l : NonceLocker)
    → (lock_nonce now random n l).0 ≡ ok t
    → let l' = (lock_nonce now random n l).1 in
      ((consume_nonce n t' l').0 ≡ ok tt)
      × ((k : List ℕ)
          → status_of k (consume_nonce n t' l').1
            ≡ (if k === key_of n then some consumed else status_of k l))
consume-lock now random n t t' l got =
    let (long, free, after) = lock_inversion now random n t l got in
    rw (after, consume_held n t t' l long) (refl, λ k. spent_status n t t' l k)
