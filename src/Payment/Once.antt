-- ===== src/Payment/Once.antt =====
-- A payment is completed once, and the wait group counts the payments that are not.
use openpcc.Base.{
  ◌≡◌, refl, sym, ap, ◌∙◌, true, false, Option, none, some, List, [], ◌∷◌, Result, ok, err, inl,
  inr, arith, Bool-cases, Result-cases,
}
use openpcc.Base.Int.{ℤ, pos, ◌+ℤ◌, ◌-ℤ◌, int_laws, ltb_ℤ}
use openpcc.Currency.{amount, amount_or_zero, rounded}
use openpcc.Credit.{Credit, blinded, unblinded}
use openpcc.Payment.{
  AnyCredit, value_of, blinded_credit, unblinded_credit, Wallet, Payment, Outcome, answered,
  not_sent, not_awaited, fails, responds, Error, complete, success, cancel, begin_payment,
  begin_sent, not_rounded, not_a_regular_credit, no_ad_hoc_withdrawals, wallet_is_closed,
  context_done, request_failed, begin_payment_for_request, wait_for_dangling_response,
}

pub data Call : Type 0 where
  call_success : Option (Credit unblinded) → Call
  call_cancel : Call

abbrev pub call : Call → Payment → Wallet → Payment × Wallet
call (call_success unspend) p w = let (r, p', w') = success unspend p w in (p', w')
call call_cancel p w = let (r, p', w') = cancel p w in (p', w')

abbrev pub calls : List Call → Payment → Wallet → Payment × Wallet
calls [] p w = (p, w)
calls (c ∷ cs) p w = let (p', w') = call c p w in calls cs p' w'

pub back : (a : ℤ) → (a +ℤ pos 1) -ℤ pos 1 ≡ a
back a = grind int_laws

complete-wg :
    (unspend : Option AnyCredit) (w : Wallet)
    → (complete unspend w).1.payments_wg ≡ w.payments_wg -ℤ pos 1
unfolding complete
complete-wg none w = refl
complete-wg (some c) w = elim (Result-cases (amount (value_of c))) [
  | inl (a, h) ↦ rw (complete, h) refl
  | inr (e, h) ↦ rw (complete, h) refl
]

call-wg :
    (c : Call) (p : Payment) (w : Wallet)
    → p.completed ≡ false
    → ((call c p w).0.completed ≡ true) × ((call c p w).1.payments_wg ≡ w.payments_wg -ℤ pos 1)
unfolding success cancel
call-wg (call_success none) p w fresh = rw (call, success, fresh) (refl, complete-wg none w)
call-wg (call_success (some c)) p w fresh =
    rw (call, success, fresh) (refl, complete-wg (some (unblinded_credit c)) w)
call-wg call_cancel p w fresh =
    rw (call, cancel, fresh) (refl, complete-wg (some (blinded_credit p.credit)) w)

pub success-wg :
    (unspend : Option (Credit unblinded)) (p : Payment) (w : Wallet)
    → p.completed ≡ false
    → let (r, p', w') = success unspend p w in
      (p'.completed ≡ true) × (w'.payments_wg ≡ w.payments_wg -ℤ pos 1)
success-wg unspend p w fresh = call-wg (call_success unspend) p w fresh

pub cancel-wg :
    (p : Payment) (w : Wallet)
    → p.completed ≡ false
    → let (r, p', w') = cancel p w in
      (p'.completed ≡ true) × (w'.payments_wg ≡ w.payments_wg -ℤ pos 1)
cancel-wg p w fresh = call-wg call_cancel p w fresh

pub cancel-completed : (p : Payment) (w : Wallet) → p.completed ≡ true → cancel p w ≡ (ok tt, p, w)
unfolding cancel
cancel-completed p w done = ground (arith, done)

call-completed : (c : Call) (p : Payment) (w : Wallet) → p.completed ≡ true → call c p w ≡ (p, w)
unfolding success cancel
call-completed (call_success unspend) p w done = ground (arith, done)
call-completed call_cancel p w done = ground (arith, done)

calls-completed :
    (cs : List Call) (p : Payment) (w : Wallet) → p.completed ≡ true → calls cs p w ≡ (p, w)
calls-completed [] p w done = refl
calls-completed (c ∷ cs) p w done =
    rw (calls, call-completed c p w done) (calls-completed cs p w done)

calls-first :
    (c : Call) (cs : List Call) (p : Payment) (w : Wallet)
    → p.completed ≡ false
    → calls (c ∷ cs) p w ≡ call c p w
calls-first c cs p w fresh =
    let (p', w') = call c p w in calls-completed cs p' w' (call-wg c p w fresh).0

-- The wallet with one more payment in its wait group.
abbrev pub one_more : Wallet → Wallet
one_more w = record w { payments_wg = w.payments_wg +ℤ pos 1 }

-- How a beginning that fails leaves the wallet.
abbrev pub Refused : Outcome → Error → (w w' : Wallet) → Type 0
Refused outcome (request_failed n) w w' = (outcome ≡ answered (fails n)) × (w' ≡ one_more w)
Refused not_awaited context_done w w' = w' ≡ one_more w
Refused not_sent context_done w w' = w' ≡ w
Refused (answered r) context_done w w' = ⊥
Refused outcome (not_rounded e) w w' = w' ≡ w
Refused outcome (not_a_regular_credit e) w w' = ⊥
Refused outcome no_ad_hoc_withdrawals w w' = w' ≡ w
Refused outcome wallet_is_closed w w' = w' ≡ w

-- What a beginning leads to, with the calls on the payment that it may give.
abbrev pub Begun : Outcome → Call → List Call → Wallet → Result Error Payment × Wallet → Type 0
Begun outcome c cs w (ok p, w') =
    ((calls (c ∷ cs) p w').1.payments_wg ≡ w.payments_wg)
    × (calls (c ∷ cs) p w' ≡ calls (c ∷ []) p w')
Begun outcome c cs w (err e, w') = Refused outcome e w w'

begin_sent-Begun :
    (outcome : Outcome) (c : Call) (cs : List Call) (w : Wallet)
    → Begun outcome c cs w (begin_sent outcome w)
unfolding begin_sent begin_payment_for_request
begin_sent-Begun not_sent c cs w = rw (back w.payments_wg) refl
begin_sent-Begun not_awaited c cs w = refl
begin_sent-Begun (answered (fails n)) c cs w = (refl, refl)
begin_sent-Begun (answered (responds r)) c cs w =
    let p : Payment = record { credit = r; completed = false } in
    let added : Wallet = record w { payments_wg = w.payments_wg +ℤ pos 1 } in
    let first = calls-first c cs p added refl in
    let only = calls-first c [] p added refl in
    (
      ap (λ x. x.1.payments_wg) first ∙ (call-wg c p added refl).1 ∙ back w.payments_wg,
      first ∙ sym only,
    )

-- A payment that begins is completed by the first call of `Success` or `Cancel`: the wait group is as
-- before it, and no further call does anything. A payment that does not begin leaves the
-- wallet as it was, if its amount, the prefetched credits or a closed wallet stood against it, or
-- its context ended before the request was sent. If the context ended while the response was
-- awaited, or the pipeline answered with an error, the wait group stays one higher.
pub begin_payment-Begun :
    (requested : ℤ) (outcome : Outcome) (c : Call) (cs : List Call) (w : Wallet)
    → Begun outcome c cs w (begin_payment requested outcome w)
unfolding begin_payment
begin_payment-Begun requested outcome c cs w = elim (Result-cases (rounded requested 1 1 1)) [
  | inr (e, h) ↦ rw (begin_payment, h) refl
  | inl (val, h) ↦ elim (Bool-cases (ltb_ℤ w.prefetch_amount (amount_or_zero val))) [
    | inl h₁ ↦ rw (begin_payment, h, h₁) refl
    | inr h₁ ↦ elim (Bool-cases w.closed) [
      | inl h₂ ↦ rw (begin_payment, h, h₁, h₂) refl
      | inr h₂ ↦
          let sent : begin_payment requested outcome w ≡ begin_sent outcome w =
            ground (arith, h, h₁, h₂) in
          rw sent (begin_sent-Begun outcome c cs w)
    ]
  ]
]

-- The response that is not awaited takes the wait group back down, if it is a credit.
pub wait_for_dangling_response-wg :
    (r : Credit blinded) (w : Wallet)
    → (wait_for_dangling_response (responds r) w).payments_wg ≡ w.payments_wg -ℤ pos 1
unfolding wait_for_dangling_response cancel
wait_for_dangling_response-wg r w = complete-wg (some (blinded_credit r)) w

-- A payment that begins is not completed, and counted by the wait group.
abbrev pub Starts : Wallet → Result Error Payment × Wallet → Type 0
Starts w (ok p, w') = (p.completed ≡ false) × (w'.payments_wg ≡ w.payments_wg +ℤ pos 1)
Starts w (err e, w') = Unit

begin_sent-Starts : (outcome : Outcome) (w : Wallet) → Starts w (begin_sent outcome w)
unfolding begin_sent begin_payment_for_request
begin_sent-Starts not_sent w = tt
begin_sent-Starts not_awaited w = tt
begin_sent-Starts (answered (fails n)) w = tt
begin_sent-Starts (answered (responds r)) w = (refl, refl)

pub begin_payment-Starts :
    (requested : ℤ) (outcome : Outcome) (w : Wallet) → Starts w (begin_payment requested outcome w)
unfolding begin_payment
begin_payment-Starts requested outcome w = elim (Result-cases (rounded requested 1 1 1)) [
  | inr (e, h) ↦ rw (begin_payment, h) tt
  | inl (val, h) ↦ elim (Bool-cases (ltb_ℤ w.prefetch_amount (amount_or_zero val))) [
    | inl h₁ ↦ rw (begin_payment, h, h₁) tt
    | inr h₁ ↦ elim (Bool-cases w.closed) [
      | inl h₂ ↦ rw (begin_payment, h, h₁, h₂) tt
      | inr h₂ ↦
          let sent : begin_payment requested outcome w ≡ begin_sent outcome w =
            ground (arith, h, h₁, h₂) in
          rw sent (begin_sent-Starts outcome w)
    ]
  ]
]
