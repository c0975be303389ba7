-- ===== src/Bank/Deposit.antt =====
-- Deposits into the in-memory bank, on every branch.
use openpcc.Base.{
  ℕ, zero, suc, ◌≡◌, refl, true, false, Option, none, some, List, [], ◌∷◌, ◌++◌, Result, ok, err,
  inl, inr, Result-cases, arith, if◌then◌else◌,
}
use openpcc.Base.Int.{ℤ, pos, negsuc, leb_ℤ, ◌+ℤ◌}
use openpcc.Base.Words.{wrap64}
use openpcc.Base.Dict.{list_eq, ◌===◌, lookup, insert}
use openpcc.Currency.{amount}
use openpcc.Currency.Exact.{IsWellFormed}
use openpcc.Currency.Inverse.{amount_bound, amount_or_zero-amount}
use openpcc.Locker.{NonceLocker, locked, consumed, status_of, key_of}
use openpcc.Locker.Once.{release-lock}
use openpcc.Locker.Pairs.{lock_statuses}
use openpcc.Credit.{Credit, blinded, PartiallyBlindRsa, verify_credit}
use openpcc.Processor.{
  Transaction, begin_transaction, commit, caller_cancelled, cancelled, bad_credit, bad_nonce,
  not_matching, not_issued, not_exchanged, Error as PaymentError,
}
use openpcc.Processor.Spending.{
  IsRefusal, begin_transaction-lock, begin_transaction_failed, commit-begin_transaction,
  ended_commit, rollback-cancelled,
}
use openpcc.Bank.{
  Bank, Error, Cancellation, never, before_commit, during_commit, is_before, is_during, not_paid,
  not_rolled_back, stored_or_zero, key_for_account, deposit,
}

-- The deposit is made: the credit was acceptable, its nonce is consumed, and the account has the amount.
abbrev pub Credited :
    (rsa : PartiallyBlindRsa) (digest secret : List ℕ)
    → Credit blinded
    → Bank
    → NonceLocker
    → (balance : ℤ) → Bank
    → NonceLocker
    → Type 0
Credited rsa digest secret credit b l balance b' l' =
    (a : ℕ) × (amount credit.value ≡ ok (pos (suc a)))
    × (verify_credit rsa credit ≡ ok tt)
    × (status_of (key_of credit.nonce) l ≡ none)
    × ((k : List ℕ)
        → status_of k l' ≡ (if k === key_of credit.nonce then some consumed else status_of k l))
    × (let stored = stored_or_zero (lookup (key_for_account rsa digest secret) b.accounts) in
        (balance ≡ wrap64 (stored.balance +ℤ pos (suc a)))
        × (b' ≡ record b {
          accounts =
              insert (key_for_account rsa digest secret)
                (record { balance = balance; mutations = stored.mutations ++ pos (suc a) ∷ [] })
                b.accounts;
        }))

-- The context was cancelled before the commit: the nonce of an acceptable credit is left locked.
abbrev pub LeftLocked :
    PartiallyBlindRsa → Credit blinded → Bank → NonceLocker → Bank → NonceLocker → Type 0
LeftLocked rsa credit b l b' l' =
    (b' ≡ b)
    × (verify_credit rsa credit ≡ ok tt)
    × (status_of (key_of credit.nonce) l ≡ none)
    × ((k : List ℕ)
        → status_of k l' ≡ (if k === key_of credit.nonce then some locked else status_of k l))

abbrev pub Unchanged : Bank → NonceLocker → Bank → NonceLocker → Type 0
Unchanged b l b' l' = (b' ≡ b) × ((k : List ℕ) → status_of k l' ≡ status_of k l)

-- What `Deposit` returns, and how it leaves the bank and the locker.
abbrev pub Deposited :
    (rsa : PartiallyBlindRsa) (digest secret : List ℕ)
    → Credit blinded
    → Cancellation
    → Bank
    → NonceLocker
    → Result Error ℤ × Bank × NonceLocker
    → Type 0
Deposited rsa digest secret credit timing b l (ok balance, b', l') =
    (timing ≡ never) × Credited rsa digest secret credit b l balance b' l'
Deposited rsa digest secret credit timing b l (err (not_rolled_back e), b', l') =
    (timing ≡ during_commit) × ((balance : ℤ) × Credited rsa digest secret credit b l balance b' l')
Deposited rsa digest secret credit timing b l (err (not_paid (cancelled cause)), b', l') =
    (timing ≡ before_commit) × LeftLocked rsa credit b l b' l'
Deposited rsa digest secret credit timing b l (err _, b', l') = Unchanged b l b' l'

positive : (a : ℕ) → leb_ℤ (pos (suc a)) (pos 0) ≡ false
positive a = ground arith

module _ (rsa : PartiallyBlindRsa) (digest secret : List ℕ) (credit : Credit blinded)
    (timing : Cancellation) (b : Bank) (l : NonceLocker) where
  refused_Deposited :
      (e : PaymentError)
      → IsRefusal e
      → Deposited rsa digest secret credit timing b l (err (not_paid e), b, l)
  refused_Deposited (bad_credit e) h = (refl, λ k. refl)
  refused_Deposited (bad_nonce e) h = (refl, λ k. refl)
  refused_Deposited not_matching h = absurd h
  refused_Deposited (not_issued e) h = absurd h
  refused_Deposited (not_exchanged e) h = absurd h
  refused_Deposited (cancelled cause) h = absurd h

module _ (rsa : PartiallyBlindRsa) (digest : List ℕ) (now : ℤ) (random : Option (List ℕ))
    (secret : List ℕ) (credit : Credit blinded) (b : Bank) (l : NonceLocker) where
  deposit_zero :
      (timing : Cancellation)
      → amount credit.value ≡ ok (pos 0)
      → Deposited rsa digest secret credit timing b l
          (deposit rsa digest timing now random secret credit b l)
  unfolding deposit
  deposit_zero timing reads = rw (reads, deposit) (refl, λ k. refl)

  deposit_refused :
      (timing : Cancellation) (a : ℕ) (e : PaymentError)
      → amount credit.value ≡ ok (pos (suc a))
      → (begin_transaction rsa (is_before timing) now random credit l).0 ≡ err e
      → Deposited rsa digest secret credit timing b l
          (deposit rsa digest timing now random secret credit b l)
  unfolding deposit
  deposit_refused timing a e reads bad =
      let (same, refusal) =
        begin_transaction_failed rsa (is_before timing) now random credit l e bad in
      rw (reads, deposit, positive a, bad)
        (rw same (refused_Deposited rsa digest secret credit timing b l e refusal))

  deposit_begun :
      (timing : Cancellation) (a : ℕ) (tx : Transaction)
      → amount credit.value ≡ ok (pos (suc a))
      → (begin_transaction rsa (is_before timing) now random credit l).0 ≡ ok tx
      → Deposited rsa digest secret credit timing b l
          (deposit rsa digest timing now random secret credit b l)
  unfolding deposit is_before is_during
  deposit_begun during_commit a tx reads begun =
      let (committed, statuses, ended) =
        commit-begin_transaction rsa now random credit true l tx begun in
      let (verifies, live, same, got, after) =
        begin_transaction-lock rsa false now random credit l tx begun in
      let (free, excludes, released, others) =
        release-lock now now random random credit.nonce tx.locked_nonce.ticket [] l got in
      let l1 = (begin_transaction rsa false now random credit l).1 in
      let undone = (ended true (commit true tx l1).2).1 in
      let paid = amount_or_zero-amount credit.value (pos (suc a)) reads in
      rw (reads, deposit, positive a, begun, committed, undone)
        (rw (undone, paid) (refl, (_, (a, reads, verifies, free, statuses, (refl, refl)))))
  deposit_begun never a tx reads begun =
      let (committed, statuses, ended) =
        commit-begin_transaction rsa now random credit false l tx begun in
      let (verifies, live, same, got, after) =
        begin_transaction-lock rsa false now random credit l tx begun in
      let (free, excludes, released, others) =
        release-lock now now random random credit.nonce tx.locked_nonce.ticket [] l got in
      let l1 = (begin_transaction rsa false now random credit l).1 in
      let undone = (ended true (commit false tx l1).2).1 in
      let paid = amount_or_zero-amount credit.value (pos (suc a)) reads in
      rw (reads, deposit, positive a, begun, committed, undone)
        (rw (undone, paid) (refl, (a, reads, verifies, free, statuses, (refl, refl))))
  deposit_begun before_commit a tx reads begun =
      let (verifies, ended, same, got, after) =
        begin_transaction-lock rsa true now random credit l tx begun in
      let l1 = (begin_transaction rsa true now random credit l).1 in
      let failed = ended_commit false tx caller_cancelled l1 ended in
      let undone = rollback-cancelled tx l1 ended in
      let t = tx.locked_nonce.ticket in
      let (free, excludes, released, others) =
        release-lock now now random random credit.nonce t [] l got in
      rw (reads, deposit, positive a, begun, failed)
        (rw (failed, undone)
          (refl, (refl, verifies, free, rw after (lock_statuses now random credit.nonce t l got))))

  deposit_positive :
      (timing : Cancellation) (a : ℕ)
      → amount credit.value ≡ ok (pos (suc a))
      → Deposited rsa digest secret credit timing b l
          (deposit rsa digest timing now random secret credit b l)
  deposit_positive timing a reads =
      elim (Result-cases (begin_transaction rsa (is_before timing) now random credit l).0) [
        | inr (e, bad) ↦ deposit_refused timing a e reads bad
        | inl (tx, begun) ↦ deposit_begun timing a tx reads begun
      ]

  -- A deposit that succeeds is of a credit that verifies, of an amount above zero, whose nonce was free
  -- and is now consumed; the account gains the amount, as the int64 sum, and no other nonce changes.
  -- If the caller cancels while the commit runs, all this is done too, but an error is returned. If
  -- the caller cancels before it and the credit is acceptable, the deposit fails, with the bank as
  -- it was and the nonce, which was free, locked. A deposit that fails otherwise leaves the bank
  -- and the status of every nonce as they were. The value of the credit must be well formed.
  pub deposit_lem :
      (timing : Cancellation)
      → IsWellFormed credit.value
      → Deposited rsa digest secret credit timing b l
          (deposit rsa digest timing now random secret credit b l)
  unfolding deposit
  deposit_lem timing wf = elim (Result-cases (amount credit.value)) [
    | inr (e, special) ↦ rw (special, deposit) (refl, λ k. refl)
    | inl (pos zero, reads) ↦ deposit_zero timing reads
    | inl (pos (suc a), reads) ↦ deposit_positive timing a reads
    | inl (negsuc n, reads) ↦
        let (a, is_a, most) = amount_bound credit.value (negsuc n) wf reads in absurd (cc is_a)
  ]
