-- ===== src/Processor.antt =====
-- anonpay/processor.go and exchanger.go: paying with a credit in a transaction, and exchanging a credit
-- for a signature, over the nonce locker through the adapter of
-- anonpay/noncelocking/ticket_locker_contract.go. The locker is the in-memory one of Locker.
-- A transaction's context is what cancelled it: nothing yet, its own end, its failed commit, or the
-- caller, who may have done so before the transaction begins (`done`), between its calls (`cancel`),
-- or while `Commit` runs (`meanwhile`). An exchange is one step here: other calls are before or after it.
pub mod Spending
pub mod Exchange
mod Tests
use openpcc.Base.{
  ℕ, Bool, true, false, Option, none, some, List, Result, ok, err, ◌==◌, ◌&&◌, not, if◌then◌else◌,
}
use openpcc.Base.Int.{ℤ}
use openpcc.Currency.{Value}
use openpcc.Nonce.{Nonce}
use openpcc.Locker.{NonceLocker, lock_nonce, consume_nonce, release_nonce, Error as LockerError}
use openpcc.Credit.{
  CreditKind, Credit, blinded, unblinded, BlindSignRequest, PartiallyBlindRsa, Draw, verify_credit,
  blind_sign, issue_unblinded_credit, Error as CreditError,
}

-- What cancelled a transaction's context.
pub data Cause : Type 0 where
  finished caller_cancelled : Cause
  commit_failed : LockerError → Cause

pub data Error : Type 0 where
  not_matching : Error
  bad_credit not_issued not_exchanged : CreditError → Error
  bad_nonce : LockerError → Error
  cancelled : Cause → Error

-- `ticketLock`
pub record LockedNonce : Type 0 where
  pub nonce : Nonce
  pub ticket : List ℕ

-- `ticketLockerAdapter.CheckAndLockNonce`
pub check_and_lock_nonce :
    ℤ → Option (List ℕ) → Nonce → NonceLocker → Result LockerError LockedNonce × NonceLocker
check_and_lock_nonce now random nonce l =
    let (result, l') = lock_nonce now random nonce l in
    elim result [
      | err e ↦ (err e, l')
      | ok ticket ↦ (ok (record { nonce = nonce; ticket = ticket }), l')
    ]

-- `ticketLock.Consume` and `ticketLock.Release`
pub consume : LockedNonce → NonceLocker → Result LockerError (Unit {0}) × NonceLocker
consume n l = consume_nonce n.nonce n.ticket l

pub release : LockedNonce → NonceLocker → Result LockerError (Unit {0}) × NonceLocker
release n l = release_nonce n.nonce n.ticket l

-- `Transaction`
pub record Transaction : Type 0 where
  pub context : Option Cause
  pub locked_nonce : LockedNonce
  pub credit : Credit blinded

-- The cause of a context that the caller may have cancelled first.
pub cause_after : (meanwhile : Bool) → Cause → Cause
cause_after true cause = caller_cancelled
cause_after false cause = cause

-- `Transaction.Commit`: a consumption that fails releases the nonce. The deferred cancellation has no effect if
-- the caller has cancelled in the meantime.
pub commit :
    (meanwhile : Bool)
    → Transaction
    → NonceLocker
    → Result Error (Unit {0}) × Transaction × NonceLocker
commit meanwhile tx l = elim (tx.context) [
  | some cause ↦ (err (cancelled cause), tx, l)
  | none ↦
      let (result, l') = consume tx.locked_nonce l in
      elim result [
        | ok done ↦ (ok tt, record tx { context = some (cause_after meanwhile finished) }, l')
        | err e ↦ (
          err (bad_nonce e),
          record tx { context = some (cause_after meanwhile (commit_failed e)) },
          (release tx.locked_nonce l').1,
        )
      ]
]

-- `Transaction.Rollback`
pub rollback : Transaction → NonceLocker → Result Error (Unit {0}) × NonceLocker
rollback tx l = elim (tx.context) [
  | some finished ↦ (ok tt, l)
  | some (commit_failed e) ↦ (err (cancelled (commit_failed e)), l)
  | some caller_cancelled ↦ (err (cancelled caller_cancelled), l)
  | none ↦
      let (result, l') = release tx.locked_nonce l in
      elim result [ ok done ↦ (ok tt, l') | err e ↦ (err (bad_nonce e), l') ]
]

-- The caller cancels the context that the transaction was begun with.
pub cancel : Transaction → Transaction
cancel tx = elim (tx.context) [
  | some cause ↦ tx
  | none ↦ record tx { context = some caller_cancelled }
]

abbrev bool_eq : Bool → Bool → Bool
bool_eq true b = b
bool_eq false b = not b

-- Go's `==` on two values.
pub same_value : Value → Value → Bool
same_value v w = bool_eq v.shift w.shift && v.value == w.value

module _ (rsa : PartiallyBlindRsa) where
  -- `Processor.BeginTransaction`, whose context may be cancelled already: neither the verification nor the
  -- in-memory locker looks at it.
  pub begin_transaction :
      (done : Bool)
      → ℤ
      → Option (List ℕ)
      → Credit blinded
      → NonceLocker
      → Result Error Transaction × NonceLocker
  begin_transaction done now random cred l = elim (verify_credit rsa cred) [
    | err e ↦ (err (bad_credit e), l)
    | ok verified ↦
        let (result, l') = check_and_lock_nonce now random cred.nonce l in
        let context : Option Cause = if done then some caller_cancelled else none in
        elim result [
          | err e ↦ (err (bad_nonce e), l')
          | ok n ↦ (ok (record { context = context; locked_nonce = n; credit = cred }), l')
        ]
  ]

  -- `Transaction.CommitWithUnspend`
  pub commit_with_unspend :
      (meanwhile : Bool)
      → Draw
      → Value
      → Transaction
      → NonceLocker
      → Result Error (Credit unblinded) × Transaction × NonceLocker
  commit_with_unspend meanwhile d unspend tx l =
      let (result, tx', l') = commit meanwhile tx l in
      elim result [
        | err e ↦ (err e, tx', l')
        | ok done ↦ elim (issue_unblinded_credit rsa d unspend) [
          | err e ↦ (err (not_issued e), tx', l')
          | ok cred ↦ (ok cred, tx', l')
        ]
      ]

  -- `Exchanger.Exchange`
  pub exchange :
      {k : CreditKind}
      → ℤ
      → Option (List ℕ)
      → Credit k
      → BlindSignRequest
      → NonceLocker
      → Result Error (List ℕ) × NonceLocker
  exchange now random credit req l =
      if not (same_value credit.value req.value)
      then (err not_matching, l)
      else elim (verify_credit rsa credit) [
        | err e ↦ (err (bad_credit e), l)
        | ok verified ↦
            let (result, l') = check_and_lock_nonce now random credit.nonce l in
            elim result [
              | err e ↦ (err (bad_nonce e), l')
              | ok n ↦ elim (blind_sign rsa req) [
                | err e ↦ (err (not_exchanged e), (release n l').1)
                | ok signature ↦
                    let (used, l'') = consume n l' in
                    elim used [ err e ↦ (err (bad_nonce e), l'') | ok done ↦ (ok signature, l'') ]
              ]
            ]
      ]
