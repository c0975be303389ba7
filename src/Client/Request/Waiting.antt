-- ===== src/Client/Request/Waiting.antt =====
-- The payment and the nodes of a request, which come in either order.
use openpcc.Base.{
  ℕ, Bool, true, false, ◌≡◌, ◌⊎◌, refl, ◌∙◌, ap, Option, none, some, List, [], ◌∷◌, Result, ok, err,
  inl, inr, Result-cases, if◌then◌else◌,
}
use openpcc.Base.Int.{pos, ◌-ℤ◌}
use openpcc.Payment.{Payment, Wallet, Outcome, Error as PaymentError, begin_payment, cancel}
use openpcc.Payment.Once.{Starts, begin_payment-Starts, cancel-wg, back}
use openpcc.Tags.{from_slice}
use openpcc.Client.{RequestParams}
use openpcc.Client.Request.{
  Error, NodeId, Resources, payment_result, nodes_result, no_resources, receive, receive_all,
  finish_resources, request_resources, join_cancel,
}

-- What waiting for the answers may come to, on how the payment began: both resources, and the wallet as
-- the beginning left it; or errors, and a payment that is cancelled or did not begin.
abbrev pub Waited :
    Wallet
    → Result PaymentError Payment
    → Wallet
    → Result ℕ (List NodeId)
    → Result (List Error) (Option Payment × List NodeId) × Wallet
    → Type 0
Waited w begun w' found (ok (some p, nodes), w'') = (begun ≡ ok p) × (w'' ≡ w') × (found ≡ ok nodes)
Waited w begun w' found (ok (none, nodes), w'') = ⊥
Waited w begun w' found (err errs, w'') =
    (w''.payments_wg ≡ w.payments_wg) ⊎ ((e : PaymentError) × (begun ≡ err e) × (w'' ≡ w'))

join_cancel-wg :
    (errs : List Error) (p : Payment) (w w' : Wallet)
    → Starts w (ok p, w')
    → (join_cancel errs p w').1.payments_wg ≡ w.payments_wg
join_cancel-wg errs p w w' (fresh, started) =
    let (completed, wg) = cancel-wg p w' fresh in
    let balanced = wg ∙ ap (λ n. n -ℤ pos 1) started ∙ back w.payments_wg in
    elim (Result-cases (cancel p w').0) [
      | inl (u, h) ↦ rw (join_cancel, h) balanced
      | inr (e, h) ↦ rw (join_cancel, h) balanced
    ]

abbrev collect : Bool → Result PaymentError Payment → Result ℕ (List NodeId) → Resources
collect payment_first begun found =
    if payment_first
    then receive_all (payment_result begun ∷ nodes_result found ∷ []) no_resources
    else receive_all (nodes_result found ∷ payment_result begun ∷ []) no_resources

collect-Waited :
    (payment_first : Bool) (begun : Result PaymentError Payment) (found : Result ℕ (List NodeId))
    (w w' : Wallet)
    → Starts w (begun, w')
    → Waited w begun w' found (finish_resources (collect payment_first begun found) w')
unfolding receive receive_all finish_resources
collect-Waited true (ok p) (ok []) w w' starts = (refl, refl, refl)
collect-Waited true (ok p) (ok (n ∷ ns)) w w' starts = (refl, refl, refl)
collect-Waited true (ok p) (err e) w w' starts = inl (join_cancel-wg _ p w w' starts)
collect-Waited true (err e) (ok []) w w' starts = inr (e, refl, refl)
collect-Waited true (err e) (ok (n ∷ ns)) w w' starts = inr (e, refl, refl)
collect-Waited true (err e) (err e') w w' starts = inr (e, refl, refl)
collect-Waited false (ok p) (ok []) w w' starts = (refl, refl, refl)
collect-Waited false (ok p) (ok (n ∷ ns)) w w' starts = (refl, refl, refl)
collect-Waited false (ok p) (err e) w w' starts = inl (join_cancel-wg _ p w w' starts)
collect-Waited false (err e) (ok []) w w' starts = inr (e, refl, refl)
collect-Waited false (err e) (ok (n ∷ ns)) w w' starts = inr (e, refl, refl)
collect-Waited false (err e) (err e') w w' starts = inr (e, refl, refl)

-- The payment and the nodes of a request, in whichever order they come: both are there, or the wait group
-- is as before, or the payment did not begin.
pub request_resources-Waited :
    (payment_first : Bool) (outcome : Outcome) (found : Result ℕ (List NodeId)) (p : RequestParams)
    (w : Wallet)
    → let (begun, w') = begin_payment p.credit_amount outcome w in
      Waited w begun w' found (request_resources payment_first outcome found p w)
unfolding request_resources
request_resources-Waited payment_first outcome found p w =
    let (begun, w') = begin_payment p.credit_amount outcome w in
    elim (Result-cases (from_slice p.node_tags)) [
      | inr (e, h) ↦ rw (request_resources, h) (inl refl)
      | inl (t, h) ↦
          rw (request_resources, h)
            (collect-Waited payment_first begun found w w'
              (begin_payment-Starts p.credit_amount outcome w))
    ]
