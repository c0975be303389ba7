-- ===== src/Processor/Exchange.antt =====
-- What an exchange of a credit for a signature does, on every branch.
use openpcc.Base.{
  ℕ, ◌≡◌, refl, true, Option, none, some, List, Result, ok, err, arith, inl, inr, if◌then◌else◌,
  Result-cases, Bool-cases,
}
use openpcc.Base.Int.{ℤ}
use openpcc.Base.Dict.{list_eq, ◌===◌}
use openpcc.Currency.{Value}
use openpcc.Nonce.{Nonce}
use openpcc.Locker.{NonceLocker, consumed, status_of, key_of, lock_nonce, Error as LockerError}
use openpcc.Locker.Once.{release-lock}
use openpcc.Locker.Pairs.{consume-lock, lock_failed}
use openpcc.Credit.{
  CreditKind, Credit, BlindSignRequest, PartiallyBlindRsa, verify_credit, blind_sign,
}
use openpcc.Processor.{Error, exchange, same_value, check_and_lock_nonce, consume, release}

same_value→eq : (v w : Value) → same_value v w ≡ true → v ≡ w
unfolding same_value
same_value→eq v w h = ground arith

module _ (now : ℤ) (random : Option (List ℕ)) (n : Nonce) where
  takes :
      (t : List ℕ) (l : NonceLocker)
      → (lock_nonce now random n l).0 ≡ ok t
      → check_and_lock_nonce now random n l
        ≡ (ok (record { nonce = n; ticket = t }), (lock_nonce now random n l).1)
  unfolding check_and_lock_nonce
  takes t l got = ground arith

  refuses :
      (e : LockerError) (l : NonceLocker)
      → (lock_nonce now random n l).0 ≡ err e
      → check_and_lock_nonce now random n l ≡ (err e, l)
  unfolding check_and_lock_nonce
  refuses e l bad = ground (arith, lock_failed now random n e l bad)

-- What an exchange returns and does to the statuses of the nonces.
abbrev pub Exchanged :
    (rsa : PartiallyBlindRsa) (k : CreditKind)
    → Credit k
    → BlindSignRequest
    → NonceLocker
    → Result Error (List ℕ) × NonceLocker
    → Type 0
Exchanged rsa k credit req l (ok signature, l') =
    (credit.value ≡ req.value)
    × (verify_credit rsa credit ≡ ok tt)
    × (blind_sign rsa req ≡ ok signature)
    × (status_of (key_of credit.nonce) l ≡ none)
    × ((key : List ℕ)
        → status_of key l'
          ≡ (if key === key_of credit.nonce then some consumed else status_of key l))
Exchanged rsa k credit req l (err e, l') = (key : List ℕ) → status_of key l' ≡ status_of key l

-- An exchange that returns a signature had a credit that verifies, of the value that the signature
-- is for, whose nonce was free and is now consumed; no other nonce changes. An exchange that
-- fails leaves every nonce with its status.
pub exchange_lem :
    (rsa : PartiallyBlindRsa) (k : CreditKind) (now : ℤ) (random : Option (List ℕ))
    (credit : Credit k) (req : BlindSignRequest) (l : NonceLocker)
    → Exchanged rsa k credit req l (exchange rsa now random credit req l)
unfolding exchange consume release
exchange_lem rsa k now random credit req l = elim (Bool-cases (same_value credit.value req.value)) [
  | inr differ ↦ rw differ (λ key. refl)
  | inl same ↦ elim (Result-cases (verify_credit rsa credit)) [
    | inr (e, bad) ↦ rw (same, bad) (λ key. refl)
    | inl (done, verified) ↦ elim (Result-cases (lock_nonce now random credit.nonce l).0) [
      | inr (e, bad) ↦
          let refused = refuses now random credit.nonce e l bad in
          rw (same, verified, refused) (rw refused (λ key. refl))
      | inl (t, got) ↦ elim (Result-cases (blind_sign rsa req)) [
        | inr (e, bad) ↦
            let (free, excludes, released, statuses) =
              release-lock now now random random credit.nonce t t l got in
            let locks = takes now random credit.nonce t l got in
            rw (same, verified, locks, bad) (rw locks statuses)
        | inl (s, signed) ↦
            let (free, excludes, released, statuses) =
              release-lock now now random random credit.nonce t t l got in
            let (used, spent) = consume-lock now random credit.nonce t t l got in
            let consumes : (consume (record { nonce = credit.nonce; ticket = t })
                  (lock_nonce now random credit.nonce l).1).0
                ≡ ok tt =
              used in
            let locks = takes now random credit.nonce t l got in
            rw (same, verified, locks, signed)
              (rw (locks, consumes)
                (same_value→eq credit.value req.value same, verified, signed, free, rw locks spent))
      ]
    ]
  ]
]
