-- ===== src/Bank.antt =====
-- anonpay/banking/inmem/bank.go: the in-memory bank. Balances are int64s, with the wrap-around of
-- their sums written out. An operation is one step on the bank and the locker: its mutex, and the
-- locker's, order those that change the same state.
-- The SHA-512 digest that `keyForAccount` appends to an account's secret, and the rounding function
-- of a full withdrawal, are parameters.
pub mod Requests
pub mod Withdraw
pub mod Full
pub mod Deposit
pub mod Sums
pub mod Ledger
mod Tests
use openpcc.Base.{
  ℕ, ◌-◌, Bool, true, false, Option, none, some, List, [], ◌∷◌, ◌++◌, length, Result, ok, err, ltb,
  leb, ◌==◌, ◌||◌, if◌then◌else◌, fail_if, ◌>>=◌, ◌>>◌,
}
use openpcc.Base.Int.{ℤ, pos, ◌+ℤ◌, ◌-ℤ◌, ltb_ℤ, leb_ℤ}
use openpcc.Base.Words.{wrap64}
use openpcc.Base.Dict.{Dict, lookup, insert, list_eq, ◌===◌}
use openpcc.Currency.{Value, amount, amount_or_zero, max_amount, rounded, Error as CurrencyError}
use openpcc.Locker.{NonceLocker, encode_to_string}
use openpcc.Credit.{
  CreditKind, Credit, blinded, unblinded, BlindSignRequest, PartiallyBlindRsa, Draw, blind_sign,
  issue_unblinded_credit, Error as CreditError,
}
use openpcc.Processor.{
  begin_transaction, commit, rollback, exchange as exchange_credit, Error as PaymentError,
}

abbrev pub max_reqs : ℕ
max_reqs = 15

pub record StoredAccount : Type 0 where
  pub balance : ℤ
  pub mutations : List ℤ

pub record Bank : Type 0 where
  pub accounts : Dict (List ℕ) StoredAccount
  pub rounding_mutations : List ℤ

pub data Error : Type 0 where
  no_credits too_many_credits duplicate_request zero_amount no_account over_max_amount : Error
  special_credit bad_rounding : CurrencyError → Error
  insufficient_balance : ℤ → Error
  not_signed : CreditError → Error
  not_paid : PaymentError → Error
  not_rolled_back : PaymentError → Error

-- The zero value of a missing map entry.
abbrev pub stored_or_zero : Option StoredAccount → StoredAccount
stored_or_zero none = record { balance = pos 0; mutations = [] }
stored_or_zero (some stored) = stored

pub contains : List ℕ → List (List ℕ) → Bool
contains k [] = false
contains k (j ∷ js) = (k === j) || contains k js

abbrev pub amount_of : Value → Result Error ℤ
amount_of v = elim (amount v) [ ok a ↦ ok a | err e ↦ err (special_credit e) ]

-- The first loop of `WithdrawBatch`: the sum of the amounts, from the messages seen and the sum so far.
pub check_requests : List BlindSignRequest → List (List ℕ) → ℤ → Result Error ℤ
check_requests [] seen sum = ok sum
check_requests (req ∷ reqs) seen sum = do
  fail_if (contains req.blinded_message seen) duplicate_request
  a ← amount_of req.value
  fail_if (leb_ℤ a (pos 0)) zero_amount
  check_requests reqs (req.blinded_message ∷ seen) (wrap64 (sum +ℤ a))

-- The default `roundFunc`, at the factor `r / s`: a balance up to `MaxAmount` is exact as a float64.
pub default_round : (r s : ℕ) → ℤ → Result CurrencyError Value
default_round r s balance = rounded balance 1 r s

pub new_bank : Bank
new_bank = record { accounts = []; rounding_mutations = [] }

pub total_balance : Dict (List ℕ) StoredAccount → ℤ
total_balance [] = pos 0
total_balance ((k, stored) ∷ m) = wrap64 (stored.balance +ℤ total_balance m)

-- When the caller cancels the context of a call: never in time, before `Commit` looks at it, or from then
-- until the end of `Commit`.
pub data Cancellation : Type 0 where
  never before_commit during_commit : Cancellation

pub is_before : Cancellation → Bool
is_before never = false
is_before before_commit = true
is_before during_commit = false

pub is_during : Cancellation → Bool
is_during never = false
is_during before_commit = false
is_during during_commit = true

module _ (rsa : PartiallyBlindRsa) (digest : List ℕ) where
  -- `keyForAccount`: `Sum` appends the digest of nothing to the secret.
  pub key_for_account : List ℕ → List ℕ
  key_for_account secret = encode_to_string (secret ++ digest)

  -- The second loop of `WithdrawBatch`.
  pub sign_requests : List BlindSignRequest → Result Error (List (List ℕ))
  sign_requests [] = ok []
  sign_requests (req ∷ reqs) = elim (blind_sign rsa req) [
    | err e ↦ err (not_signed e)
    | ok signature ↦ do signatures ← sign_requests reqs; ok (signature ∷ signatures)
  ]

  -- `WithdrawBatch` up to the lock of the mutex.
  pub check_batch : List BlindSignRequest → Result Error (ℤ × List (List ℕ))
  check_batch reqs = do
    fail_if (length reqs == 0) no_credits
    fail_if (ltb max_reqs (length reqs)) too_many_credits
    sum ← check_requests reqs [] (pos 0)
    signatures ← sign_requests reqs
    ok (sum, signatures)

  pub withdraw_batch :
      (secret : List ℕ) → List BlindSignRequest → Bank → Result Error (ℤ × List (List ℕ)) × Bank
  withdraw_batch secret reqs b = elim (check_batch reqs) [
    | err e ↦ (err e, b)
    | ok (sum, signatures) ↦ elim (lookup (key_for_account secret) b.accounts) [
      | none ↦ (err (insufficient_balance (pos 0)), b)
      | some stored ↦
          let balance = wrap64 (stored.balance -ℤ sum) in
          let mutations = stored.mutations ++ wrap64 (pos 0 -ℤ sum) ∷ [] in
          let after : StoredAccount = record { balance = balance; mutations = mutations } in
          if ltb_ℤ stored.balance sum then (err (insufficient_balance stored.balance), b) else (
            ok (balance, signatures),
            record b { accounts = insert (key_for_account secret) after b.accounts },
          )
    ]
  ]

  pub withdraw_full_unblinded :
      (round : ℤ → Result CurrencyError Value)
      → Draw
      → (secret : List ℕ) → Bank
      → Result Error (Credit unblinded) × Bank
  withdraw_full_unblinded round d secret b = elim (lookup (key_for_account secret) b.accounts) [
    | none ↦ (err no_account, b)
    | some stored ↦
        if leb_ℤ stored.balance (pos 0)
        then (err no_account, b)
        else if ltb_ℤ (pos max_amount) stored.balance
        then (err over_max_amount, b)
        else elim (round stored.balance) [
          | err e ↦ (err (bad_rounding e), b)
          | ok credit_amount ↦ elim (issue_unblinded_credit rsa d credit_amount) [
            | err e ↦ (err (not_signed e), b)
            | ok credit ↦
                let paid = amount_or_zero credit_amount in
                let mutations = stored.mutations ++ wrap64 (pos 0 -ℤ paid) ∷ [] in
                let after : StoredAccount = record { balance = pos 0; mutations = mutations } in
                (
                  ok credit,
                  record {
                    accounts = insert (key_for_account secret) after b.accounts;
                    rounding_mutations =
                        b.rounding_mutations ++ wrap64 (stored.balance -ℤ paid) ∷ [];
                  },
                )
          ]
        ]
  ]

  -- `Deposit`: the rollback is deferred, and touches no balance.
  pub deposit :
      Cancellation
      → ℤ
      → Option (List ℕ)
      → (secret : List ℕ) → Credit blinded
      → Bank
      → NonceLocker
      → Result Error ℤ × Bank × NonceLocker
  deposit timing now random secret credit b l =
      let key = key_for_account secret in
      let stored = stored_or_zero (lookup key b.accounts) in
      elim (amount_of credit.value) [
        | err e ↦ (err e, b, l)
        | ok a ↦
            let balance = wrap64 (stored.balance +ℤ a) in
            let mutations = stored.mutations ++ amount_or_zero credit.value ∷ [] in
            let after : StoredAccount = record { balance = balance; mutations = mutations } in
            let changed : Bank = record b { accounts = insert key after b.accounts } in
            let (begun, l1) = begin_transaction rsa (is_before timing) now random credit l in
            if leb_ℤ a (pos 0) then (err zero_amount, b, l) else elim begun [
              | err e ↦ (err (not_paid e), b, l1)
              | ok tx ↦
                  let (committed, tx', l2) = commit (is_during timing) tx l1 in
                  let (undone, l3) = rollback tx' l2 in
                  elim committed [
                    | err e ↦ (err (not_paid e), b, l3)
                    | ok done ↦ elim undone [
                      | err e ↦ (err (not_rolled_back e), changed, l3)
                      | ok nothing ↦ (ok balance, changed, l3)
                    ]
                  ]
            ]
      ]

  pub exchange :
      {k : CreditKind}
      → ℤ
      → Option (List ℕ)
      → Credit k
      → BlindSignRequest
      → NonceLocker
      → Result Error (List ℕ) × NonceLocker
  exchange now random credit req l = elim (amount_of req.value) [
    | err e ↦ (err e, l)
    | ok a ↦
        let (exchanged, l') = exchange_credit rsa now random credit req l in
        if leb_ℤ a (pos 0)
        then (err zero_amount, l)
        else elim exchanged [ err e ↦ (err (not_paid e), l') | ok signature ↦ (ok signature, l') ]
  ]

  pub balance : (secret : List ℕ) → Bank → ℤ
  balance secret b = (stored_or_zero (lookup (key_for_account secret) b.accounts)).balance

  pub account_history : (secret : List ℕ) → Bank → List ℤ
  account_history secret b = (stored_or_zero (lookup (key_for_account secret) b.accounts)).mutations
