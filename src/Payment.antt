-- ===== src/Payment.antt =====
-- anonpay/wallet/payment.go and the payments of wallet.go: how a payment is begun, completed with what is
-- left of its credit, or cancelled, and the wait group by which a closing wallet waits for its
-- payments. How a `select` goes is an argument. The rounding factor is one, and the amount, which
-- goes through a float64, is below 2^53 or so, where that is exact.
pub mod Once
mod Tests
use openpcc.Base.{
  ℕ, Bool, true, false, not, Option, none, some, List, [], ◌∷◌, Result, ok, err, if◌then◌else◌,
}
use openpcc.Base.Int.{ℤ, pos, ◌+ℤ◌, ◌-ℤ◌, ltb_ℤ}
use openpcc.Currency.{Value, Error as CurrencyError, amount, amount_or_zero, rounded}
use openpcc.Credit.{Credit, blinded, unblinded}

pub data AnyCredit : Type 0 where
  blinded_credit : Credit blinded → AnyCredit
  unblinded_credit : Credit unblinded → AnyCredit

abbrev pub value_of : AnyCredit → Value
value_of (blinded_credit c) = c.value
value_of (unblinded_credit c) = c.value

pub data Error : Type 0 where
  not_rounded not_a_regular_credit : CurrencyError → Error
  no_ad_hoc_withdrawals wallet_is_closed context_done : Error
  request_failed : ℕ → Error

-- The wallet as its payments see it: the count of its wait group, and the results sent to its pipeline.
pub record Wallet : Type 0 where
  pub closed : Bool
  pub payments_wg : ℤ
  pub prefetch_amount : ℤ
  pub results : List AnyCredit

pub record Payment : Type 0 where
  pub credit : Credit blinded
  pub completed : Bool

-- What a payment request is answered: a credit, or an error of the pipeline's.
pub data Response : Type 0 where
  responds : Credit blinded → Response
  fails : ℕ → Response

-- How the waits of `BeginPayment` end: the context is done before the request is sent, or while the
-- response is awaited, or the response comes.
pub data Outcome : Type 0 where
  not_sent not_awaited : Outcome
  answered : Response → Outcome

-- `payment.complete`, with `NewPaymentResult`.
pub complete : Option AnyCredit → Wallet → Result Error (Unit {0}) × Wallet
complete unspend w =
    let done : Wallet = record w { payments_wg = w.payments_wg -ℤ pos 1 } in
    elim unspend [
      | none ↦ (ok tt, done)
      | some credit ↦ elim (amount (value_of credit)) [
        | err e ↦ (err (not_a_regular_credit e), done)
        | ok regular ↦ (ok tt, record done { results = credit ∷ w.results })
      ]
    ]

-- `payment.Success`
pub success :
    Option (Credit unblinded) → Payment → Wallet → Result Error (Unit {0}) × Payment × Wallet
success unspend p w =
    if p.completed
    then (ok tt, p, w)
    else (let (result, w') =
          complete (elim unspend [ none ↦ none | some c ↦ some (unblinded_credit c) ]) w in
        (result, record p { completed = true }, w'))

-- `payment.Cancel`
pub cancel : Payment → Wallet → Result Error (Unit {0}) × Payment × Wallet
cancel p w =
    if p.completed
    then (ok tt, p, w)
    else (let (result, w') = complete (some (blinded_credit p.credit)) w in
        (result, record p { completed = true }, w'))

-- `Wallet.beginPaymentForRequest`, on how its waits end.
unfoldable pub begin_payment_for_request : Outcome → Wallet → Result Error Payment × Wallet
begin_payment_for_request not_sent w = (err context_done, w)
begin_payment_for_request not_awaited w = (err context_done, w)
begin_payment_for_request (answered (fails e)) w = (err (request_failed e), w)
begin_payment_for_request (answered (responds c)) w =
    (ok (record { credit = c; completed = false }), w)

-- `Wallet.BeginPayment`, once the amount is accepted and the wallet is open.
unfoldable pub begin_sent : Outcome → Wallet → Result Error Payment × Wallet
begin_sent outcome w =
    let added : Wallet = record w { payments_wg = w.payments_wg +ℤ pos 1 } in
    elim outcome [
      | not_sent ↦ (err context_done, record added { payments_wg = added.payments_wg -ℤ pos 1 })
      | not_awaited ↦ begin_payment_for_request not_awaited added
      | answered r ↦ begin_payment_for_request (answered r) added
    ]

-- `Wallet.BeginPayment`
unfoldable pub begin_payment : ℤ → Outcome → Wallet → Result Error Payment × Wallet
begin_payment requested outcome w = elim (rounded requested 1 1 1) [
  | err e ↦ (err (not_rounded e), w)
  | ok val ↦
      if ltb_ℤ w.prefetch_amount (amount_or_zero val)
      then (err no_ad_hoc_withdrawals, w)
      else if w.closed
      then (err wallet_is_closed, w)
      else begin_sent outcome w
]

-- `payment.waitForDanglingResponse`, once the response of a request that is not awaited is there.
pub wait_for_dangling_response : Response → Wallet → Wallet
wait_for_dangling_response (fails e) w = w
wait_for_dangling_response (responds c) w = (cancel (record { credit = c; completed = false }) w).2
