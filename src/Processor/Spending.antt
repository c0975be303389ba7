-- ===== src/Processor/Spending.antt =====
-- The life of a transaction: what a commit, a rollback and a cancelled context leave of the nonces.
use openpcc.Base.{
  ℕ, ◌≡◌, refl, Bool, true, false, Result, Option, none, some, List, ok, err, arith, inl, inr,
  if◌then◌else◌, Result-cases,
}
use openpcc.Base.Int.{ℤ}
use openpcc.Base.Dict.{list_eq, ◌===◌}
use openpcc.Locker.{NonceLocker, locked, consumed, status_of, key_of, lock_nonce}
use openpcc.Locker.Once.{release-lock}
use openpcc.Locker.Pairs.{consume-lock, lock_failed, lock_status}
use openpcc.Credit.{Credit, blinded, PartiallyBlindRsa, verify_credit}
use openpcc.Processor.{
  Transaction, Error, Cause, bad_credit, bad_nonce, cause_after, cancelled, finished,
  caller_cancelled, commit, rollback, cancel, begin_transaction, check_and_lock_nonce, consume,
  release,
}

-- The errors of a credit or a nonce that is not accepted.
abbrev pub IsRefusal : Error → Type 0
IsRefusal (bad_credit e) = Unit
IsRefusal (bad_nonce e) = Unit
IsRefusal _ = ⊥

-- A context that nobody but the caller has cancelled.
abbrev IsLive : Option Cause → Type 0
IsLive none = Unit
IsLive (some caller_cancelled) = Unit
IsLive (some _) = ⊥

IsLive-begun :
    (done : Bool) (c : Option Cause) → c ≡ (if done then some caller_cancelled else none) → IsLive c
IsLive-begun true c h = rw h tt
IsLive-begun false c h = rw h tt

commit_lem :
    (meanwhile : Bool) (tx : Transaction) (l : NonceLocker)
    → tx.context ≡ none
    → (consume tx.locked_nonce l).0 ≡ ok tt
    → commit meanwhile tx l ≡ (
      ok tt,
      record tx { context = some (cause_after meanwhile finished) },
      (consume tx.locked_nonce l).1,
    )
unfolding commit
commit_lem meanwhile tx l live used = ground arith

pub ended_commit :
    (again : Bool) (tx : Transaction) (cause : Cause) (m : NonceLocker)
    → tx.context ≡ some cause
    → commit again tx m ≡ (err (cancelled cause), tx, m)
unfolding commit
ended_commit again tx cause m ended = ground arith

-- What `Rollback` returns once `Commit` has succeeded.
abbrev pub after_commit : (meanwhile : Bool) → Result Error (Unit {0})
after_commit true = err (cancelled caller_cancelled)
after_commit false = ok tt

ended_rollback :
    (meanwhile : Bool) (tx : Transaction) (m : NonceLocker)
    → tx.context ≡ some (cause_after meanwhile finished)
    → rollback tx m ≡ (after_commit meanwhile, m)
unfolding rollback cause_after
ended_rollback true tx m ended = ground arith
ended_rollback false tx m ended = ground arith

rollback_lem :
    (tx : Transaction) (l : NonceLocker)
    → tx.context ≡ none
    → (release tx.locked_nonce l).0 ≡ ok tt
    → rollback tx l ≡ (ok tt, (release tx.locked_nonce l).1)
unfolding rollback
rollback_lem tx l live freed = ground arith

cancel_lem : (tx : Transaction) → IsLive tx.context → (cancel tx).context ≡ some caller_cancelled
unfolding cancel
cancel_lem tx fresh = ground arith

pub rollback-cancelled :
    (tx : Transaction) (l : NonceLocker)
    → tx.context ≡ some caller_cancelled
    → rollback tx l ≡ (err (cancelled caller_cancelled), l)
unfolding rollback
rollback-cancelled tx l ended = ground arith

module _ (rsa : PartiallyBlindRsa) (done : Bool) (now : ℤ) (random : Option (List ℕ))
    (cred : Credit blinded) where
  -- A transaction begins with a credit that verifies, by a lock of its nonce.
  pub begin_transaction-lock :
      (l : NonceLocker) (tx : Transaction)
      → (begin_transaction rsa done now random cred l).0 ≡ ok tx
      → (verify_credit rsa cred ≡ ok tt)
        × (tx.context ≡ (if done then some caller_cancelled else none))
        × (tx.locked_nonce.nonce ≡ cred.nonce)
        × ((lock_nonce now random cred.nonce l).0 ≡ ok tx.locked_nonce.ticket)
        × ((begin_transaction rsa done now random cred l).1
            ≡ (lock_nonce now random cred.nonce l).1)
  unfolding begin_transaction check_and_lock_nonce
  begin_transaction-lock l tx begun = ground arith

  -- A transaction that does not begin changes nothing, and says that the credit or the nonce is not accepted.
  pub begin_transaction_failed :
      (l : NonceLocker) (e : Error)
      → (begin_transaction rsa done now random cred l).0 ≡ err e
      → ((begin_transaction rsa done now random cred l).1 ≡ l) × IsRefusal e
  unfolding begin_transaction check_and_lock_nonce
  begin_transaction_failed l e failed = elim (Result-cases (verify_credit rsa cred)) [
    | inr (c, bad) ↦ ground (arith, bad)
    | inl (v, verified) ↦ elim (Result-cases (lock_nonce now random cred.nonce l).0) [
      | inl (t, got) ↦ ground (arith, verified, got)
      | inr (n, bad) ↦ ground (arith, verified, bad, lock_failed now random cred.nonce n l bad)
    ]
  ]

  -- Once the caller's context is cancelled, before the transaction begins or after, the nonce of a
  -- transaction that has begun stays locked: `Commit` and `Rollback` both fail and change nothing.
  pub cancelled_stays_locked :
      (meanwhile : Bool) (l : NonceLocker) (tx : Transaction)
      → (begin_transaction rsa done now random cred l).0 ≡ ok tx
      → let l' = (begin_transaction rsa done now random cred l).1 in
        (status_of (key_of cred.nonce) l' ≡ some locked)
        × (commit meanwhile (cancel tx) l' ≡ (err (cancelled caller_cancelled), cancel tx, l'))
        × (rollback (cancel tx) l' ≡ (err (cancelled caller_cancelled), l'))
  cancelled_stays_locked meanwhile l tx begun =
      let (verifies, live, same, got, after) = begin_transaction-lock l tx begun in
      let l' = (begin_transaction rsa done now random cred l).1 in
      let ended = cancel_lem tx (IsLive-begun done tx.context live) in
      (
        rw after (lock_status now random cred.nonce tx.locked_nonce.ticket l got),
        ended_commit meanwhile (cancel tx) caller_cancelled l' ended,
        rollback-cancelled (cancel tx) l' ended,
      )

module _ (rsa : PartiallyBlindRsa) (now : ℤ) (random : Option (List ℕ))
    (cred : Credit blinded) where
  -- If the caller's context is live when the transaction begins and when `Commit` looks at it, `Commit`
  -- succeeds: the nonce of the credit is consumed, and no other nonce changes. The transaction can't be
  -- committed again. Rolling it back changes nothing, and returns no error, unless the caller has
  -- cancelled while `Commit` ran: then it returns the error of the cancelled context.
  pub commit-begin_transaction :
      (meanwhile : Bool) (l : NonceLocker) (tx : Transaction)
      → (begin_transaction rsa false now random cred l).0 ≡ ok tx
      → let (result, tx', l') =
          commit meanwhile tx (begin_transaction rsa false now random cred l).1 in
        (result ≡ ok tt)
        × ((k : List ℕ)
            → status_of k l' ≡ (if k === key_of cred.nonce then some consumed else status_of k l))
        × ((again : Bool) (m : NonceLocker)
            → (commit again tx' m ≡ (err (cancelled (cause_after meanwhile finished)), tx', m))
              × (rollback tx' m ≡ (after_commit meanwhile, m)))
  unfolding consume
  commit-begin_transaction meanwhile l tx begun =
      let (verifies, live, same, got, after) =
        begin_transaction-lock rsa false now random cred l tx begun in
      let t = tx.locked_nonce.ticket in
      let (used, statuses) = consume-lock now random cred.nonce t t l got in
      let ends =
        commit_lem meanwhile tx (lock_nonce now random cred.nonce l).1 live (rw same used) in
      rw (after, ends, same)
        (
          refl,
          statuses,
          λ again m. (ended_commit again _ _ m refl, ended_rollback meanwhile _ m refl),
        )

  -- Rolling back a transaction that has begun succeeds, and gives every nonce its status from before, if the
  -- caller's context is live.
  pub rollback-begin_transaction :
      (l : NonceLocker) (tx : Transaction)
      → (begin_transaction rsa false now random cred l).0 ≡ ok tx
      → let (result, l') = rollback tx (begin_transaction rsa false now random cred l).1 in
        (result ≡ ok tt) × ((k : List ℕ) → status_of k l' ≡ status_of k l)
  unfolding release
  rollback-begin_transaction l tx begun =
      let (verifies, live, same, got, after) =
        begin_transaction-lock rsa false now random cred l tx begun in
      let t = tx.locked_nonce.ticket in
      let (free, excludes, released, statuses) =
        release-lock now now random random cred.nonce t t l got in
      let ends = rollback_lem tx (lock_nonce now random cred.nonce l).1 live (rw same released) in
      rw (after, ends, same) (refl, statuses)
