-- ===== src/Transfer/Processing.antt =====
-- What a processed transfer did to its two places.
use openpcc.Base.{
  ℕ, ◌≡◌, refl, true, false, List, [], ◌∷◌, Result, ok, err, inl, inr, ◌⊎◌, arith, Bool-cases,
  Option-cases, Result-cases,
}
use openpcc.Base.Int.{ℤ}
use openpcc.Wallet.{
  BlindedCredit, Withdrawal, Error, Origin, failed, origin_not_allowed, no_id, no_delay, not_logged,
  different_values,
}
use openpcc.Transfer.{
  Entry, intent, withdraw_ok, finish_deposit_ok, finish_error_ok, finish_unexpected_error, Transfer,
  Surroundings, is_allowed, is_expected_error, is_as_expected, process, process_withdraw,
  process_withdrawn, process_deposit,
}
use openpcc.Transfer.Amounts.{OneAmount, values, amounts_of-cases}

module _ {From To : Type 0}
    (withdraw : List ℕ → Withdrawal → From → Result Error (List BlindedCredit × ℤ) × From)
    (deposit : List ℕ → List BlindedCredit → To → Result Error (Unit {0}) × To) (w : Withdrawal)
    (from : From) (to : To) where
  -- A failure before the withdrawal
  abbrev pub Untouched : Error → From → To → List Entry → Type 0
  Untouched e from' to' log =
      (from' ≡ from)
      × (to' ≡ to)
      × (((log ≡ []) × ((e ≡ origin_not_allowed) ⊎ ((e ≡ no_id) ⊎ (e ≡ failed no_delay))))
          ⊎ ((id : List ℕ) × (log ≡ intent id w ∷ []) × (e ≡ failed not_logged)))

  -- A failure of the withdrawal, which only an optimistic one may have expected.
  abbrev pub NotWithdrawn : Error → From → To → List Entry → Type 0
  NotWithdrawn e from' to' log =
      (id : List ℕ) × (cause : Error) × (withdraw id w from ≡ (err cause, from'))
      × (to' ≡ to)
      × (((w.optimistic ≡ true)
            × (is_as_expected cause ≡ true)
            × (log ≡ intent id w ∷ finish_error_ok cause ∷ [])
            × ((e ≡ cause) ⊎ (e ≡ not_logged)))
          ⊎ (((w.optimistic ≡ false) ⊎ (is_as_expected cause ≡ false))
              × (log ≡ intent id w ∷ finish_unexpected_error (failed cause) ∷ [])
              × (e ≡ failed cause)))

  -- A failure between the withdrawal and the deposit
  abbrev pub NotDeposited : Error → From → To → List Entry → Type 0
  NotDeposited e from' to' log =
      (id : List ℕ) × (gain : ℤ) × (credits : List BlindedCredit) × (withdraw id w from
        ≡ (ok (credits, gain), from'))
      × (to' ≡ to)
      × (((e ≡ different_values)
            × (¬ OneAmount credits)
            × (log ≡ intent id w ∷ finish_unexpected_error different_values ∷ []))
          ⊎ (((e ≡ failed not_logged) × (log ≡ intent id w ∷ withdraw_ok gain credits ∷ []))
              ⊎ ((e ≡ failed no_delay)
                  × (log
                      ≡ intent id w
                        ∷ withdraw_ok gain credits
                        ∷ finish_unexpected_error no_delay
                        ∷ []))))

  -- A failure of the deposit, or of the log after it.
  abbrev pub Deposited : Error → From → To → List Entry → Type 0
  Deposited e from' to' log =
      (id : List ℕ) × (gain : ℤ) × (credits : List BlindedCredit) × (withdraw id w from
        ≡ (ok (credits, gain), from'))
      × (((cause : Error) × (deposit id credits to ≡ (err cause, to'))
            × (e ≡ failed cause)
            × (log ≡ intent id w ∷ withdraw_ok gain credits ∷ finish_unexpected_error cause ∷ []))
          ⊎ ((deposit id credits to ≡ (ok tt, to'))
              × (e ≡ failed not_logged)
              × (log ≡ intent id w ∷ withdraw_ok gain credits ∷ finish_deposit_ok ∷ [])))

  -- What a processing may have come to.
  abbrev pub Processed : Result Error Transfer × From × To × List Entry → Type 0
  Processed (ok t, from', to', log) =
      (credits : List BlindedCredit) × (withdraw t.id w from
        ≡ (ok (credits, t.rounding_gain), from'))
      × (deposit t.id credits to ≡ (ok tt, to'))
      × OneAmount credits
      × (t.amounts ≡ values credits)
      × (log ≡ intent t.id w ∷ withdraw_ok t.rounding_gain credits ∷ finish_deposit_ok ∷ [])
  Processed (err e, from', to', log) =
      Untouched e from' to' log
      ⊎ (NotWithdrawn e from' to' log ⊎ (NotDeposited e from' to' log ⊎ Deposited e from' to' log))

  process_deposit-Processed :
      (s : Surroundings) (id : List ℕ) (gain : ℤ) (credits : List BlindedCredit)
      → (from' : From) → withdraw id w from ≡ (ok (credits, gain), from')
      → OneAmount credits
      → Processed (
          process_deposit withdraw deposit s id gain credits
            (values credits)
            from'
            to
            (intent id w ∷ withdraw_ok gain credits ∷ []))
  unfolding process_deposit
  process_deposit-Processed s id gain credits from' taken one =
      let r = deposit id credits to in
      elim (Result-cases r.0) [
        | inr (e, h) ↦
            rw (process_deposit, h)
              (inr (inr (inr (id, gain, credits, taken, inl (e, ground (arith, h), refl, refl)))))
        | inl (done, h) ↦ elim (Bool-cases s.log_finish_deposit_ok) [
          | inr f ↦
              rw (process_deposit, h, f)
                (inr (inr (inr (id, gain, credits, taken, inr (ground (arith, h), refl, refl)))))
          | inl t ↦ rw (process_deposit, h, t) (credits, taken, ground (arith, h), one, refl, refl)
        ]
      ]

  process_withdrawn-Processed :
      (s : Surroundings) (id : List ℕ) (gain : ℤ) (credits : List BlindedCredit) (from' : From)
      → withdraw id w from ≡ (ok (credits, gain), from')
      → Processed (process_withdrawn withdraw deposit s id gain credits from' to (intent id w ∷ []))
  unfolding process_withdrawn process_deposit
  process_withdrawn-Processed s id gain credits from' taken = elim (amounts_of-cases credits) [
    | inr (h, differ) ↦
        rw (process_withdrawn, h)
          (inr (inr (inl (id, gain, credits, taken, refl, inl (refl, differ, refl)))))
    | inl (h, one) ↦ elim (Bool-cases s.log_withdraw_ok) [
      | inr f ↦
          rw (process_withdrawn, h, f)
            (inr (inr (inl (id, gain, credits, taken, refl, inr (inl (refl, refl))))))
      | inl t ↦ elim (Bool-cases s.delay_between) [
        | inr f ↦
            rw (process_withdrawn, h, t, f)
              (inr (inr (inl (id, gain, credits, taken, refl, inr (inr (refl, refl))))))
        | inl t' ↦
            rw (process_withdrawn, h, t, t')
              (process_deposit-Processed s id gain credits from' taken one)
      ]
    ]
  ]

  expected :
      (e : Error) → is_expected_error w e ≡ true → (w.optimistic ≡ true) × (is_as_expected e ≡ true)
  unfolding is_expected_error
  expected e h = ground (arith, h)

  unexpected :
      (e : Error)
      → is_expected_error w e ≡ false
      → (w.optimistic ≡ false) ⊎ (is_as_expected e ≡ false)
  unfolding is_expected_error
  unexpected e h = ground (arith, h)

  process_withdraw-Processed :
      (s : Surroundings) (id : List ℕ)
      → Processed (process_withdraw withdraw deposit s id w from to (intent id w ∷ []))
  unfolding process_withdraw
  process_withdraw-Processed s id =
      let r = withdraw id w from in
      elim (Result-cases r.0) [
        | inl ((credits, gain), h) ↦
            rw (process_withdraw, h)
              (process_withdrawn-Processed s id gain credits r.1 (ground (arith, h)))
        | inr (e, h) ↦ elim (Bool-cases (is_expected_error w e)) [
          | inr f ↦
              rw (process_withdraw, h, f)
                (inr (inl (id, e, ground (arith, h), refl, inr (unexpected e f, refl, refl))))
          | inl t ↦ elim (Bool-cases s.log_finish_error_ok) [
            | inr f ↦
                let (o, x) = expected e t in
                rw (process_withdraw, h, t, f)
                  (inr (inl (id, e, ground (arith, h), refl, inl (o, x, refl, inr refl))))
            | inl t' ↦
                let (o, x) = expected e t in
                rw (process_withdraw, h, t, t')
                  (inr (inl (id, e, ground (arith, h), refl, inl (o, x, refl, inl refl))))
          ]
        ]
      ]

  -- A transfer that is processed without an error withdrew credits of one amount, deposited just these, and
  -- logged the intent, the withdrawal and the deposit. One that fails came to one of four ends, each
  -- with just what is in the log: it touched neither place, and logged the intent at most; its
  -- withdrawal failed, the target is as it was, and the error is logged, as an expected one just
  -- where the withdrawal is optimistic and the error is of those two kinds; it withdrew and left the
  -- target, and logged that the values differ, or the withdrawal and perhaps that a delay failed; or
  -- it called the deposit with just what it withdrew, after it logged the withdrawal, and logged how
  -- the deposit ended.
  pub process-Processed :
      (s : Surroundings) (origin : Origin) (allowed : List Origin)
      → Processed (process withdraw deposit s origin allowed w from to)
  unfolding process process_withdraw process_withdrawn process_deposit
  process-Processed s origin allowed = elim (Bool-cases (is_allowed origin allowed)) [
    | inr f ↦ rw (process, f) (inl (refl, refl, inl (refl, inl refl)))
    | inl t ↦ elim (Option-cases s.id) [
      | inl h ↦ rw (process, t, h) (inl (refl, refl, inl (refl, inr (inl refl))))
      | inr (id, h) ↦ elim (Bool-cases s.delay_before) [
        | inr f ↦ rw (process, t, h, f) (inl (refl, refl, inl (refl, inr (inr refl))))
        | inl t' ↦ elim (Bool-cases s.log_intent) [
          | inr f ↦ rw (process, t, h, t', f) (inl (refl, refl, inr (id, refl, refl)))
          | inl t'' ↦ rw (process, t, h, t', t'') (process_withdraw-Processed s id)
        ]
      ]
    ]
  ]
