-- ===== src/Client/Refund/Settled.antt =====
-- However a response is read and closed, its first end settles the payment, and nothing after it does.
use mathlib.Core.Path.{subst, subst⁻¹}
use openpcc.Base.{
  ℕ, Bool, true, false, ◌≡◌, refl, ◌∙◌, Option, none, some, List, [], ◌∷◌, ◌++◌, Result, ok, err,
  is_ok, inl, inr, Bool-cases, Result-cases, if◌then◌else◌,
}
use openpcc.Base.Int.{pos, ◌-ℤ◌}
use openpcc.Credit.{Credit, unblinded, CreditProto}
use openpcc.Payment.{Payment, success}
use openpcc.Payment.Once.{success-wg}
use openpcc.Client.Refund.{
  Error, RefundReader, World, BodyRead, data_read, at_end, broken, new_refund_reader, refund_of,
  refund_amount, settle, do_refund, read, read_all, close,
}

pub data Call : Type 0 where
  call_read : BodyRead → (trailer : List ℕ) → Call
  call_close : (discard_fails close_fails : Bool) (trailer : List ℕ) → Call

-- The trailer at which a call ends the response.
abbrev pub ends : Call → Option (List ℕ)
ends (call_read data_read trailer) = none
ends (call_read broken trailer) = none
ends (call_read at_end trailer) = some trailer
ends (call_close discard_fails close_fails trailer) = some trailer

abbrev pub first_end : List Call → Option (List ℕ)
first_end [] = none
first_end (c ∷ cs) = elim (ends c) [ none ↦ first_end cs | some trailer ↦ some trailer ]

abbrev pub as_calls : List (BodyRead × List ℕ) → List Call
as_calls [] = []
as_calls ((body, trailer) ∷ reads) = call_read body trailer ∷ as_calls reads

module _ (decode_base64 : List ℕ → Option (List ℕ)) (unmarshal : List ℕ → Option CreditProto) where
  abbrev pub call : Call → RefundReader → World → RefundReader × World
  call (call_read body trailer) r world =
      let (errs, r', world') = read decode_base64 unmarshal body trailer r world in (r', world')
  call (call_close discard_fails close_fails trailer) r world =
      let (errs, r', world') =
        close decode_base64 unmarshal discard_fails close_fails trailer r world in
      (r', world')

  abbrev pub calls : List Call → RefundReader → World → RefundReader × World
  calls [] r world = (r, world)
  calls (c ∷ cs) r world = let (r', world') = call c r world in calls cs r' world'

  pub read_all_lem :
      (reads : List (BodyRead × List ℕ)) (r : RefundReader) (world : World)
      → read_all decode_base64 unmarshal reads r world ≡ calls (as_calls reads) r world
  unfolding read_all
  read_all_lem [] r world = refl
  read_all_lem ((body, trailer) ∷ reads) r world =
      let (r', world') = call (call_read body trailer) r world in read_all_lem reads r' world'

  pub calls-append :
      (cs ds : List Call) (r : RefundReader) (world : World)
      → calls (cs ++ ds) r world ≡ calls ds (calls cs r world).0 (calls cs r world).1
  calls-append [] ds r world = refl
  calls-append (c ∷ cs) ds r world =
      let (r', world') = call c r world in calls-append cs ds r' world'

  -- What a trailer leads to: nothing, where its refund is not readable; or else the success of the payment,
  -- and the callback if that went well.
  abbrev pub Settles :
      Result Error (Option (Credit unblinded)) → Payment → World → Payment → World → Type 0
  Settles (err e) p world p' world' = (p' ≡ p) × (world' ≡ world)
  Settles (ok credit) p world p' world' =
      (p' ≡ (success credit p world.wallet).1)
      × (world'.wallet ≡ (success credit p world.wallet).2)
      × (p'.completed ≡ true)
      × (world'.wallet.payments_wg ≡ world.wallet.payments_wg -ℤ pos 1)
      × (world'.callbacks ≡ (
          if is_ok (success credit p world.wallet).0
          then refund_amount decode_base64 unmarshal credit ∷ world.callbacks
          else world.callbacks))

  abbrev pub SettledBy : Option (List ℕ) → Payment → World → Payment → World → Type 0
  SettledBy none p world p' world' = (p' ≡ p) × (world' ≡ world)
  SettledBy (some trailer) p world p' world' =
      Settles (refund_of decode_base64 unmarshal trailer) p world p' world'

  settle-Settles :
      (credit : Option (Credit unblinded)) (r : RefundReader) (world : World)
      → r.payment.completed ≡ false
      → let (e, r', world') = settle decode_base64 unmarshal credit r world in
        (r'.refunded ≡ r.refunded) × Settles (ok credit) r.payment world r'.payment world'
  unfolding settle
  settle-Settles credit r world fresh =
      let (complete, wg) = success-wg credit r.payment world.wallet fresh in
      elim (Result-cases (success credit r.payment world.wallet).0) [
        | inl (u, h) ↦ rw (settle, h) (refl, (refl, refl, complete, wg, refl))
        | inr (e, h) ↦ rw (settle, h) (refl, (refl, refl, complete, wg, refl))
      ]

  do_refund-Settles :
      (trailer : List ℕ) (r : RefundReader) (world : World)
      → r.refunded ≡ false
      → r.payment.completed ≡ false
      → let (e, r', world') = do_refund decode_base64 unmarshal trailer r world in
        (r'.refunded ≡ true) × SettledBy (some trailer) r.payment world r'.payment world'
  unfolding do_refund
  do_refund-Settles trailer r world open_reader fresh =
      elim (Result-cases (refund_of decode_base64 unmarshal trailer)) [
        | inr (e, h) ↦ rw (do_refund, open_reader, h) (refl, (refl, refl))
        | inl (credit, h) ↦
            let r' : RefundReader = record r { refunded = true } in
            rw (do_refund, open_reader, h) (settle-Settles credit r' world fresh)
      ]

  do_refund-refunded :
      (trailer : List ℕ) (r : RefundReader) (world : World)
      → r.refunded ≡ true
      → do_refund decode_base64 unmarshal trailer r world ≡ (none, r, world)
  unfolding do_refund
  do_refund-refunded trailer r world refunded = rw (do_refund, refunded) refl

  -- A call after the refund.
  call-refunded :
      (c : Call) (r : RefundReader) (world : World)
      → r.refunded ≡ true
      → let (r', world') = call c r world in
        (r'.refunded ≡ true) × (r'.payment ≡ r.payment) × (world' ≡ world)
  unfolding read close
  call-refunded (call_read data_read trailer) r world refunded = (refunded, refl, refl)
  call-refunded (call_read broken trailer) r world refunded = (refunded, refl, refl)
  call-refunded (call_read at_end trailer) r world refunded =
      rw (do_refund-refunded trailer (record r { eof = true }) world refunded)
        (refunded, refl, refl)
  call-refunded (call_close discard_fails close_fails trailer) r world refunded =
      elim (Bool-cases r.closed) [
        | inl closed ↦ rw (call, close, closed) (refunded, refl, refl)
        | inr unclosed ↦
            let same = do_refund-refunded trailer (record r { closed = true }) world refunded in
            rw (call, close, unclosed, same) (refunded, refl, refl)
      ]

  calls-refunded :
      (cs : List Call) (r : RefundReader) (world : World)
      → r.refunded ≡ true
      → let (r', world') = calls cs r world in (r'.payment ≡ r.payment) × (world' ≡ world)
  calls-refunded [] r world refunded = (refl, refl)
  calls-refunded (c ∷ cs) r world refunded =
      let (r', world') = call c r world in
      let (refunded', p, w) = call-refunded c r world refunded in
      let (p', w') = calls-refunded cs r' world' refunded' in (p' ∙ p, w' ∙ w)

  SettledBy-cong :
      (t : Option (List ℕ)) (p : Payment) (world : World) {p₁ p₂ : Payment} {w₁ w₂ : World}
      → p₂ ≡ p₁
      → w₂ ≡ w₁
      → SettledBy t p world p₁ w₁
      → SettledBy t p world p₂ w₂
  SettledBy-cong t p world {w₂} e e' h =
      subst⁻¹ (λ q. SettledBy t p world q w₂) e (subst⁻¹ (SettledBy t p world _) e' h)

  calls-SettledBy :
      (cs : List Call) (r : RefundReader) (world : World)
      → r.refunded ≡ false
      → r.closed ≡ false
      → r.payment.completed ≡ false
      → let (r', world') = calls cs r world in
        SettledBy (first_end cs) r.payment world r'.payment world'
  unfolding read close
  calls-SettledBy [] r world open_reader unclosed fresh = (refl, refl)
  calls-SettledBy (call_read data_read trailer ∷ cs) r world open_reader unclosed fresh =
      calls-SettledBy cs r world open_reader unclosed fresh
  calls-SettledBy (call_read broken trailer ∷ cs) r world open_reader unclosed fresh =
      calls-SettledBy cs r world open_reader unclosed fresh
  calls-SettledBy (call_read at_end trailer ∷ cs) r world open_reader unclosed fresh =
      let r₁ : RefundReader = record r { eof = true } in
      let (e, r₂, world₂) = do_refund decode_base64 unmarshal trailer r₁ world in
      let (refunded, settled) = do_refund-Settles trailer r₁ world open_reader fresh in
      let (p, w) = calls-refunded cs r₂ world₂ refunded in
      SettledBy-cong (some trailer) r.payment world p w settled
  calls-SettledBy (call_close discards closes trailer ∷ cs) r world open_reader unclosed fresh =
      let r₁ : RefundReader = record r { closed = true } in
      let (e, r₂, world₂) = do_refund decode_base64 unmarshal trailer r₁ world in
      let (refunded, settled) = do_refund-Settles trailer r₁ world open_reader fresh in
      let (p, w) = calls-refunded cs r₂ world₂ refunded in
      rw (calls, call, close, unclosed) (SettledBy-cong (some trailer) r.payment world p w settled)

  -- The reads and closes of a response, whatever they return and in whatever order they come, settle its
  -- payment by the trailer of the first of them that is a close, or a read that meets the end. If
  -- that trailer has a refund that is not readable, the payment is not completed by any of them; or else it
  -- is completed once, with the refund, and the refund callback is called at most once.
  pub new_refund_reader-SettledBy :
      (cs : List Call) (p : Payment) (world : World)
      → p.completed ≡ false
      → let (r', world') = calls cs (new_refund_reader p) world in
        SettledBy (first_end cs) p world r'.payment world'
  new_refund_reader-SettledBy cs p world fresh =
      calls-SettledBy cs (new_refund_reader p) world refl refl fresh

  SettledBy-readable :
      (t : Option (List ℕ)) (trailer : List ℕ) (credit : Option (Credit unblinded)) (p p' : Payment)
      (world world' : World)
      → t ≡ some trailer
      → refund_of decode_base64 unmarshal trailer ≡ ok credit
      → SettledBy t p world p' world'
      → (p'.completed ≡ true) × (world'.wallet.payments_wg ≡ world.wallet.payments_wg -ℤ pos 1)
  SettledBy-readable t trailer credit p p' world world' end refund settled =
      let by_trailer = subst (λ u. SettledBy u p world p' world') end settled in
      let (e, e', done, wg, called) = subst (λ x. Settles x p world p' world') refund by_trailer in
      (done, wg)

  pub new_refund_reader-readable :
      (cs : List Call) (trailer : List ℕ) (credit : Option (Credit unblinded)) (p : Payment)
      (world : World)
      → p.completed ≡ false
      → first_end cs ≡ some trailer
      → refund_of decode_base64 unmarshal trailer ≡ ok credit
      → let (r', world') = calls cs (new_refund_reader p) world in
        (r'.payment.completed ≡ true)
        × (world'.wallet.payments_wg ≡ world.wallet.payments_wg -ℤ pos 1)
  new_refund_reader-readable cs trailer credit p world fresh end refund =
      let (r', world') = calls cs (new_refund_reader p) world in
      SettledBy-readable (first_end cs) trailer credit p r'.payment world world' end refund
        (new_refund_reader-SettledBy cs p world fresh)
