-- ===== src/Account.antt =====
-- anonpay/wallet/internal/transfer/blindbank.go: the wallet's side of a bank account. The bank is
-- an interface: a record of functions on a state. What new credits draw at random and how the
-- delay ends are arguments.
pub mod Balance
mod Tests
use openpcc.Base.{
  ℕ, suc, zero, ◌+◌, ◌-◌, Bool, true, false, not, ◌==◌, Option, none, some, List, [], ◌∷◌, length,
  map, Result, ok, err, ◌>>=◌, if◌then◌else◌,
}
use openpcc.Base.Int.{ℤ, pos, negsuc, ◌-ℤ◌, ltb_ℤ, leb_ℤ}
use openpcc.Base.Words.{wrap64}
use openpcc.Base.Dict.{◌===◌, int_eq}
use openpcc.Currency.{Value, amount_or_zero}
use openpcc.Credit.{
  Credit, blinded, unblinded, BlindSignRequest, PartiallyBlindRsa, Draw, BlindSignState,
  begin_blinded_credit, request, finalize_blinded, Error as CreditError,
}
use openpcc.Wallet.{
  BlindedCredit, Withdrawal, Error, is_full, times, insufficient_balance, withdrawal_error, failed,
  credit_error, no_delay, empty_deposit, full_from_source, not_a_single_credit,
}

pub data BankError : Type 0 where
  bank_error : Error → BankError
  too_few_credits invalid_signatures negative_balance : BankError

-- `banking.BlindBankContract`, as far as an account uses it.
pub record BlindBankContract (S : Type 0) : Type 0 where
  pub withdraw_batch :
      (id account : List ℕ) → List BlindSignRequest → S → Result Error (ℤ × List (List ℕ)) × S
  pub withdraw_full_unblinded : (id account : List ℕ) → S → Result Error (Credit unblinded) × S
  pub deposit : (id account : List ℕ) → BlindedCredit → S → Result Error ℤ × S
  pub exchange : List ℕ → Credit unblinded → BlindSignRequest → S → Result Error (List ℕ) × S

-- `Account`, without its bank and its delay.
pub record Account : Type 0 where
  pub token : List ℕ
  pub balance : ℤ

pub empty_bank_account : List ℕ → Account
empty_bank_account token = record { token = token; balance = pos 0 }

-- `RestoreBankAccount`
pub restore_bank_account : List ℕ → ℤ → Result BankError Account
restore_bank_account token balance =
    if ltb_ℤ balance (pos 0)
    then err negative_balance
    else ok (record { token = token; balance = balance })

abbrev pub wrap_credit : {A : Type 0} → Result CreditError A → Result BankError A
wrap_credit (ok a) = ok a
wrap_credit (err e) = err (bank_error (failed (credit_error e)))

-- `int64(w.Credits) * amount`, which wraps.
pub scaled : ℤ → ℤ → ℤ
scaled (pos n) a = wrap64 (times n a)
scaled (negsuc n) a = wrap64 (pos 0 -ℤ times (suc n) a)

-- `a.balance - int64(w.Credits)*amount`, which wraps too.
pub expect_new_balance : (balance credits amount : ℤ) → ℤ
expect_new_balance balance credits amount = wrap64 (balance -ℤ scaled credits amount)

module _ (rsa : PartiallyBlindRsa) {S : Type 0} (bank : BlindBankContract S) where
  -- The first loop of `BlindBank.WithdrawBatch`, over what the credits draw.
  pub begin_credits : List Draw → Value → Result BankError (List (BlindSignState rsa))
  begin_credits [] amount = ok []
  begin_credits (d ∷ ds) amount = wrap_credit (begin_blinded_credit rsa d amount) >>= λ s.
      begin_credits ds amount >>= λ state. ok (s ∷ state)

  -- The last loop of `BlindBank.WithdrawBatch`, over lists of one length.
  pub finalize_credits :
      List (BlindSignState rsa) → List (List ℕ) → Result BankError (List BlindedCredit)
  finalize_credits [] signatures = ok []
  finalize_credits (s ∷ state) [] = err invalid_signatures
  finalize_credits (s ∷ state) (signature ∷ signatures) =
      wrap_credit ((finalize_blinded rsa s signature).0) >>= λ cred.
      finalize_credits state signatures >>= λ creds. ok (cred ∷ creds)

  -- `BlindBank.WithdrawBatch`: of the draws there are as many as credits.
  pub bank_withdraw_batch :
      (id account : List ℕ)
      → (credits : ℤ) → List Draw
      → Value
      → S
      → Result BankError (ℤ × List BlindedCredit) × S
  bank_withdraw_batch id account credits draws amount s =
      if leb_ℤ credits (pos 0)
      then (err too_few_credits, s)
      else elim (begin_credits draws amount) [
        | err e ↦ (err e, s)
        | ok state ↦
            let (result, s') = bank.withdraw_batch id account (map (request rsa) state) s in
            elim result [
              | err e ↦ (err (bank_error (failed e)), s')
              | ok (new_balance, signatures) ↦ (
                if not (length signatures == length state)
                    then err invalid_signatures
                    else finalize_credits state signatures >>= λ creds. ok (new_balance, creds),
                s',
              )
            ]
      ]

  -- The loop of `BlindBank.Deposit`, with the last balance.
  pub deposit_loop : (id account : List ℕ) → ℤ → List BlindedCredit → S → Result BankError ℤ × S
  deposit_loop id account last_balance [] s = (ok last_balance, s)
  deposit_loop id account last_balance (cred ∷ credits) s =
      let (result, s') = bank.deposit id account cred s in
      elim result [
        | err e ↦ (err (bank_error e), s')
        | ok new_balance ↦ deposit_loop id account new_balance credits s'
      ]

  -- `BlindBank.Deposit`
  pub bank_deposit : (id account : List ℕ) → List BlindedCredit → S → Result BankError ℤ × S
  bank_deposit id account [] s = (err (bank_error empty_deposit), s)
  bank_deposit id account (cred ∷ credits) s = deposit_loop id account (pos 0) (cred ∷ credits) s

  -- `BlindBank.Exchange`
  pub bank_exchange : List ℕ → Credit unblinded → Draw → S → Result BankError BlindedCredit × S
  bank_exchange id credit d s = elim (wrap_credit (begin_blinded_credit rsa d credit.value)) [
    | err e ↦ (err e, s)
    | ok state ↦
        let (result, s') = bank.exchange id credit (request rsa state) s in
        elim result [
          | err e ↦ (err (bank_error (failed e)), s')
          | ok signature ↦ (wrap_credit ((finalize_blinded rsa state signature).0), s')
        ]
  ]

  -- `Account.withdraw`, of a full withdrawal: the credit and the rounding gain.
  pub withdraw_full :
      (id : List ℕ)
      → (delay_ok : Bool) → Draw
      → Account
      → S
      → Result BankError (List BlindedCredit × ℤ) × Account × S
  withdraw_full id delay_ok d a s =
      let (result, s') = bank.withdraw_full_unblinded id a.token s in
      elim result [
        | err e ↦ (err (bank_error (failed e)), a, s')
        | ok unblinded_credit ↦
            if not delay_ok
            then (err (bank_error (failed no_delay)), a, s')
            else (let (exchanged, s'') = bank_exchange [] unblinded_credit d s' in
                elim exchanged [
                  | err e ↦ (err e, a, s'')
                  | ok credit ↦ (
                    ok (credit ∷ [], amount_or_zero credit.value -ℤ a.balance),
                    record a { balance = pos 0 },
                    s'',
                  )
                ])
      ]

  -- `Account.withdraw`
  pub withdraw :
      (id : List ℕ)
      → Withdrawal
      → (delay_ok : Bool) → (full : Draw) → List Draw
      → Account
      → S
      → Result BankError (List BlindedCredit × ℤ) × Account × S
  withdraw id w delay_ok full draws a s =
      if is_full w
      then withdraw_full id delay_ok full a s
      else if ltb_ℤ (expect_new_balance a.balance w.credits (amount_or_zero w.amount)) (pos 0)
      then (err (bank_error (withdrawal_error w (insufficient_balance a.balance))), a, s)
      else (let (result, s') = bank_withdraw_batch id a.token w.credits draws w.amount s in
          elim result [
            | err e ↦ (err e, a, s')
            | ok (new_balance, credits) ↦
                (ok (credits, pos 0), record a { balance = new_balance }, s')
          ])

  -- `Account.deposit`
  pub deposit :
      (id : List ℕ) → List BlindedCredit → Account → S → Result BankError (Unit {0}) × Account × S
  deposit id credits a s =
      let (result, s') = bank_deposit id a.token credits s in
      elim result [
        | err e ↦ (err e, a, s')
        | ok new_balance ↦ (ok tt, record a { balance = new_balance }, s')
      ]
