-- ===== src/Account/Balance.antt =====
-- The balance that an account keeps, against the bank's.
use openpcc.Base.{
  ℕ, ◌≡◌, refl, sym, Bool, ◌==◌, List, [], ◌∷◌, length, map, Result, ok, err, inl, inr, arith,
  Bool-cases, Result-cases,
}
use openpcc.Base.Int.{ℤ, pos, leb_ℤ, ltb_ℤ}
use openpcc.Currency.{Value, amount_or_zero}
use openpcc.Credit.{
  Credit, unblinded, BlindSignRequest, PartiallyBlindRsa, Draw, begin_blinded_credit, request,
}
use openpcc.Wallet.{BlindedCredit, Withdrawal, Error, is_full}
use openpcc.Account.{
  BankError, BlindBankContract, Account, begin_credits, bank_withdraw_batch, deposit_loop,
  bank_deposit, bank_exchange, withdraw_full, withdraw, deposit, finalize_credits, wrap_credit,
  expect_new_balance,
}

abbrev pub after : {A : Type 0} → ℤ → (A → ℤ) → Result Error A → ℤ
after before f (ok a) = f a
after before f (err e) = before

-- What an account relies on of its bank: the balance that the bank answers is the one that it has then,
-- a full withdrawal empties the account, a failed call changes nothing, and neither does an exchange.
pub record BankLaws {S : Type 0} (bank : BlindBankContract S) (funds : List ℕ → S → ℤ)
    : Type 0 where
  pub withdraw_batch_funds :
      (id account : List ℕ) (reqs : List BlindSignRequest) (s : S)
      → let (r, s') = bank.withdraw_batch id account reqs s in
        funds account s' ≡ after (funds account s) (λ answer. answer.0) r
  pub withdraw_full_funds :
      (id account : List ℕ) (s : S)
      → let (r, s') = bank.withdraw_full_unblinded id account s in
        funds account s' ≡ after (funds account s) (λ credit. pos 0) r
  pub deposit_funds :
      (id account : List ℕ) (credit : BlindedCredit) (s : S)
      → let (r, s') = bank.deposit id account credit s in
        funds account s' ≡ after (funds account s) (λ balance. balance) r
  pub exchange_funds :
      (id account : List ℕ) (credit : Credit unblinded) (req : BlindSignRequest) (s : S)
      → funds account (bank.exchange id credit req s).1 ≡ funds account s

module _ (rsa : PartiallyBlindRsa) {S : Type 0} (bank : BlindBankContract S)
    (funds : List ℕ → S → ℤ) (laws : BankLaws bank funds) where
  -- A success leaves the account with the bank's balance, a failure leaves the account.
  abbrev pub Synced : {A : Type 0} → Account → Result BankError A × Account × S → Type 0
  Synced a (ok r, a', s') = (a'.token ≡ a.token) × (a'.balance ≡ funds a.token s')
  Synced a (err e, a', s') = a' ≡ a

  abbrev Answers : {A : Type 0} → List ℕ → (A → ℤ) → Result BankError A × S → Type 0
  Answers account f (ok r, s') = funds account s' ≡ f r
  Answers account f (err e, s') = Unit

  bank_withdraw_batch-Answers :
      (id account : List ℕ) (credits : ℤ) (draws : List Draw) (amount : Value) (s : S)
      → Answers account (λ r. r.0) (bank_withdraw_batch rsa bank id account credits draws amount s)
  unfolding bank_withdraw_batch
  bank_withdraw_batch-Answers id account credits draws amount s =
      elim (Bool-cases (leb_ℤ credits (pos 0))) [
        | inl few ↦ rw (bank_withdraw_batch, few) tt
        | inr any ↦ elim (Result-cases (begin_credits rsa bank draws amount)) [
          | inr (e, h) ↦ rw (bank_withdraw_batch, any, h) tt
          | inl (state, h) ↦
              let reqs = map (request rsa) state in
              let law = laws.withdraw_batch_funds id account reqs s in
              elim (Result-cases ((bank.withdraw_batch id account reqs s).0)) [
                | inr (e, h₁) ↦ rw (bank_withdraw_batch, any, h, h₁) tt
                | inl ((b, signatures), h₁) ↦
                    elim (Bool-cases (length signatures == length state)) [
                      | inr h₂ ↦ rw (bank_withdraw_batch, any, h, h₁, h₂) tt
                      | inl h₂ ↦ elim (Result-cases (finalize_credits rsa bank state signatures)) [
                        | inr (e, h₃) ↦ rw (bank_withdraw_batch, any, h, h₁, h₂, h₃) tt
                        | inl (creds, h₃) ↦
                            rw (bank_withdraw_batch, any, h, h₁, h₂, h₃) (ground (arith, law, h₁))
                      ]
                    ]
              ]
        ]
      ]

  exchange-funds :
      (id account : List ℕ) (credit : Credit unblinded) (d : Draw) (s : S)
      → funds account (bank_exchange rsa bank id credit d s).1 ≡ funds account s
  unfolding bank_exchange
  exchange-funds id account credit d s =
      elim (Result-cases (wrap_credit (begin_blinded_credit rsa d credit.value))) [
        | inr (e, h) ↦ rw (bank_exchange, h) refl
        | inl (state, h) ↦
            let req = request rsa state in
            let law = laws.exchange_funds id account credit req s in
            elim (Result-cases ((bank.exchange id credit req s).0)) [
              | inr (e, h₁) ↦ rw (bank_exchange, h, h₁) law
              | inl (signature, h₁) ↦ rw (bank_exchange, h, h₁) law
            ]
      ]

  withdraw_full-Synced :
      (id : List ℕ) (delay_ok : Bool) (d : Draw) (a : Account) (s : S)
      → Synced a (withdraw_full rsa bank id delay_ok d a s)
  unfolding withdraw_full
  withdraw_full-Synced id delay_ok d a s =
      let law = laws.withdraw_full_funds id a.token s in
      let s' : S = (bank.withdraw_full_unblinded id a.token s).1 in
      elim (Result-cases ((bank.withdraw_full_unblinded id a.token s).0)) [
        | inr (e, h) ↦ rw (withdraw_full, h) refl
        | inl (credit, h) ↦ elim (Bool-cases delay_ok) [
          | inr h₁ ↦ rw (withdraw_full, h, h₁) refl
          | inl h₁ ↦ elim (Result-cases ((bank_exchange rsa bank [] credit d s').0)) [
            | inr (e, h₂) ↦ rw (withdraw_full, h, h₁, h₂) refl
            | inl (exchanged, h₂) ↦
                rw (withdraw_full, h, h₁, h₂)
                  (refl, ground (arith, law, h, exchange-funds [] a.token credit d s'))
          ]
        ]
      ]

  withdraw-Synced :
      (id : List ℕ) (w : Withdrawal) (delay_ok : Bool) (full : Draw) (draws : List Draw)
      → (a : Account) (s : S) → Synced a (withdraw rsa bank id w delay_ok full draws a s)
  unfolding withdraw
  withdraw-Synced id w delay_ok full draws a s =
      let answer = bank_withdraw_batch-Answers id a.token w.credits draws w.amount s in
      elim (Bool-cases (is_full w)) [
        | inl h ↦ rw (withdraw, h) (withdraw_full-Synced id delay_ok full a s)
        | inr h ↦
            elim (Bool-cases
              (ltb_ℤ (expect_new_balance a.balance w.credits (amount_or_zero w.amount)) (pos 0))) [
                | inl h₁ ↦ rw (withdraw, h, h₁) refl
                | inr h₁ ↦
                    elim (Result-cases
                      ((bank_withdraw_batch rsa bank id a.token w.credits draws w.amount s).0)) [
                        | inr (e, h₂) ↦ rw (withdraw, h, h₁, h₂) refl
                        | inl ((b, creds), h₂) ↦
                            rw (withdraw, h, h₁, h₂) (refl, sym (rw h₂ at answer))
                      ]
              ]
      ]

  deposit_loop-Answers :
      (id account : List ℕ) (last : ℤ) (credits : List BlindedCredit) (s : S)
      → funds account s ≡ last
      → Answers account (λ b. b) (deposit_loop rsa bank id account last credits s)
  unfolding deposit_loop
  deposit_loop-Answers id account last [] s known = known
  deposit_loop-Answers id account last (c ∷ cs) s known =
      let law = laws.deposit_funds id account c s in
      elim (Result-cases ((bank.deposit id account c s).0)) [
        | inr (e, h) ↦ rw (deposit_loop, h) tt
        | inl (b, h) ↦
            rw (deposit_loop, h)
              (deposit_loop-Answers id account b cs (bank.deposit id account c s).1 (rw h at law))
      ]

  bank_deposit-Answers :
      (id account : List ℕ) (credits : List BlindedCredit) (s : S)
      → Answers account (λ b. b) (bank_deposit rsa bank id account credits s)
  unfolding bank_deposit deposit_loop
  bank_deposit-Answers id account [] s = tt
  bank_deposit-Answers id account (c ∷ cs) s =
      let law = laws.deposit_funds id account c s in
      elim (Result-cases ((bank.deposit id account c s).0)) [
        | inr (e, h) ↦ rw (bank_deposit, deposit_loop, h) tt
        | inl (b, h) ↦
            rw (bank_deposit, deposit_loop, h)
              (deposit_loop-Answers id account b cs (bank.deposit id account c s).1 (rw h at law))
      ]

  deposit-Synced :
      (id : List ℕ) (credits : List BlindedCredit) (a : Account) (s : S)
      → Synced a (deposit rsa bank id credits a s)
  unfolding deposit
  deposit-Synced id credits a s =
      let answer = bank_deposit-Answers id a.token credits s in
      elim (Result-cases ((bank_deposit rsa bank id a.token credits s).0)) [
        | inr (e, h) ↦ rw (deposit, h) refl
        | inl (b, h) ↦ rw (deposit, h) (refl, sym (rw h at answer))
      ]

  -- With a bank that answers the balance that it has, empties an account that is fully withdrawn, and
  -- changes no balance in an exchange or a call that fails: after a withdrawal or a deposit that
  -- succeeds, the account's own balance is the bank's; one that fails leaves the account.
  pub account-Synced :
      (id : List ℕ) (w : Withdrawal) (delay_ok : Bool) (full : Draw) (draws : List Draw)
      → (credits : List BlindedCredit) (a : Account) (s : S)
      → Synced a (withdraw rsa bank id w delay_ok full draws a s)
        × Synced a (deposit rsa bank id credits a s)
  account-Synced id w delay_ok full draws credits a s =
      (withdraw-Synced id w delay_ok full draws a s, deposit-Synced id credits a s)
