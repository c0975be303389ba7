-- ===== src/Locker/Steps.antt =====
-- What the calls of the locker do to the status of a nonce. The contract's arrows are free → locked →
-- consumed and locked → free.
use openpcc.Base.{ℕ, ◌≡◌, true, Option, none, some, List, inl, inr, ◌⊎◌, Bool-cases, arith}
use openpcc.Base.Int.{ℤ}
use openpcc.Base.Dict.{
  list_eq, ◌===◌, eq_of_beq, lookup-insert_self, lookup-insert_ne, lookup-erase_self,
  lookup-erase_ne, ne_of_beq,
}
use openpcc.Nonce.{Nonce}
use openpcc.Locker.{
  NonceStatus, locked, consumed, NonceLocker, Call, lock, consume, release, call, status_of,
  lock_nonce, consume_nonce, release_nonce, key_of, encode_to_string,
}

-- The contract of `anonpay.NonceLocker` for one nonce: its status stays, or goes one arrow on.
abbrev pub Step : (s t : Option NonceStatus) → Type 0
Step s t =
    (t ≡ s)
    ⊎ (((s ≡ none) × (t ≡ some locked))
        ⊎ (((s ≡ some locked) × (t ≡ some consumed)) ⊎ ((s ≡ some locked) × (t ≡ none))))

module _ (k : List ℕ) (n : Nonce) (l : NonceLocker) where
  same_key : (k === key_of n) ≡ true → k ≡ key_of n
  same_key h = eq_of_beq k (key_of n) h

  lock-Step :
      (now : ℤ) (random : Option (List ℕ))
      → Step (status_of k l) (status_of k (lock_nonce now random n l).1)
  unfolding lock_nonce status_of
  lock-Step now none = ground arith
  lock-Step now (some ticket) = elim (Bool-cases (k === key_of n)) [
    | inl h ↦ rw (same_key h) (
        ground (
          arith,
          lookup-insert_self (key_of n)
              (record { status = locked; ticket = encode_to_string ticket }) l.nonces,
        ))
    | inr h ↦ ground (
      arith,
      lookup-insert_ne k (key_of n) (record { status = locked; ticket = encode_to_string ticket })
          l.nonces (ne_of_beq k (key_of n) h),
    )
  ]

  consume-Step : (ticket : List ℕ) → Step (status_of k l) (status_of k (consume_nonce n ticket l).1)
  unfolding consume_nonce status_of
  consume-Step ticket = elim (Bool-cases (k === key_of n)) [
    | inl h ↦ rw (same_key h) (
        ground (
          arith,
          lookup-insert_self (key_of n) (record { status = consumed; ticket = ticket }) l.nonces,
        ))
    | inr h ↦ ground (
      arith,
      lookup-insert_ne k (key_of n) (record { status = consumed; ticket = ticket }) l.nonces
          (ne_of_beq k (key_of n) h),
    )
  ]

  release-Step : (ticket : List ℕ) → Step (status_of k l) (status_of k (release_nonce n ticket l).1)
  unfolding release_nonce status_of
  release-Step ticket = elim (Bool-cases (k === key_of n)) [
    | inl h ↦ rw (same_key h) (ground (arith, lookup-erase_self (key_of n) l.nonces))
    | inr h ↦ ground (arith, lookup-erase_ne k (key_of n) l.nonces (ne_of_beq k (key_of n) h))
  ]

-- Every call moves every nonce along the contract's arrows.
pub call-Step :
    (c : Call) (k : List ℕ) (l : NonceLocker) → Step (status_of k l) (status_of k (call c l))
unfolding call
call-Step (lock now random n) k l = lock-Step k n l now random
call-Step (consume n ticket) k l = consume-Step k n l ticket
call-Step (release n ticket) k l = release-Step k n l ticket
