-- ===== src/Client/Request/Paid.antt =====
-- Every way a request can go, and what it leaves of its payment.
use mathlib.Core.Path.{subst}
use openpcc.Base.{
  ℕ, Bool, true, false, ◌≡◌, ◌⊎◌, refl, sym, ◌∙◌, ap, ◌||◌, Option, none, some, List, [], ◌∷◌, ◌++◌,
  Result, ok, err, inl, inr, arith, Bool-cases, Result-cases, Option-cases,
}
use openpcc.Base.Dict.{list_eq, ◌===◌, eq_of_beq}
use openpcc.Base.Int.{pos, ◌-ℤ◌}
use openpcc.Credit.{Credit, unblinded, CreditProto}
use openpcc.Payment.{Payment, Wallet, Outcome, Error as PaymentError, begin_payment, cancel}
use openpcc.Payment.Once.{Starts, begin_payment-Starts, cancel-wg, cancel-completed, back}
use openpcc.Tags.{Str}
use openpcc.Client.{Client, RequestParams, Error as ParamsError}
use openpcc.Client.Params.{Headers, params_for_request}
use openpcc.Client.Refund.{RefundReader, World, new_refund_reader, refund_of}
use openpcc.Client.Refund.Settled.{
  Call, Settles, SettledBy, call, calls, as_calls, read_all_lem, calls-append, first_end,
  call_close, new_refund_reader-SettledBy,
}
use openpcc.Client.Request.{
  Error, NodeId, not_decapsulated, Answers, Request, has_sealer, send, parse_uuid7, close_body,
  decapsulate, after_response, do_router_request, badge_and_router, with_payment, resume, serve,
  checked_trip, without_port, given_host, round_trip, valid_normalized_host, unroutable_hostname,
  request_resources,
}
use openpcc.Client.Request.Waiting.{Waited, request_resources-Waited}

-- A payment that is left as it is, or completed once.
abbrev LeftOrDone : Payment → World → Payment → World → Type 0
LeftOrDone p world p' world' =
    ((p' ≡ p) × (world' ≡ world))
    ⊎ ((p'.completed ≡ true) × (world'.wallet.payments_wg ≡ world.wallet.payments_wg -ℤ pos 1))

-- Whether the node that a response names is a candidate.
abbrev pub names_candidate : (Str → Option NodeId) → (NodeId → ℕ) → Str → List NodeId → Bool
names_candidate uuid_parse version header nodes = elim (parse_uuid7 uuid_parse version header) [
  | none ↦ false
  | some node_id ↦ has_sealer node_id nodes
]

-- The reads that are made before the response is returned: none for a ping.
abbrev pub opening_calls : Answers → (is_ping : Bool) → List Call
opening_calls a true = []
opening_calls a false = as_calls a.opening

module _ (uuid_parse : Str → Option NodeId) (version : NodeId → ℕ)
    (decode_base64 : List ℕ → Option (List ℕ)) (unmarshal : List ℕ → Option CreditProto) where
  Settles-LeftOrDone :
      (refund : Result _ (Option (Credit unblinded))) (p p' : Payment) (world world' : World)
      → Settles decode_base64 unmarshal refund p world p' world'
      → LeftOrDone p world p' world'
  Settles-LeftOrDone (ok credit) p p' world world' (e, e', done, wg, called) = inr (done, wg)
  Settles-LeftOrDone (err e) p p' world world' (same, same') = inl (same, same')

  SettledBy-LeftOrDone :
      (t : Option Str) (p p' : Payment) (world world' : World)
      → SettledBy decode_base64 unmarshal t p world p' world'
      → LeftOrDone p world p' world'
  SettledBy-LeftOrDone none p p' world world' (same, same') = inl (same, same')
  SettledBy-LeftOrDone (some trailer) p p' world world' settled =
      Settles-LeftOrDone (refund_of decode_base64 unmarshal trailer) p p' world world' settled

  -- The reader and the world after the reads of the decapsulation.
  abbrev pub Opened : Answers → Bool → Payment → World → RefundReader → World → Type 0
  Opened a is_ping p world r world' =
      calls decode_base64 unmarshal (opening_calls a is_ping) (new_refund_reader p) world
      ≡ (r, world')

  abbrev Answered :
      Answers
      → Bool
      → List NodeId
      → Payment
      → World
      → Result Error RefundReader × Payment × World
      → Type 0
  Answered a is_ping nodes p world (ok r, p', world') =
      Opened a is_ping p world r world'
      × (is_ping || names_candidate uuid_parse version a.node_id_header nodes ≡ true)
  Answered a is_ping nodes p world (err e, p', world') = LeftOrDone p world p' world'

  closed_calls :
      (cs : List Call) (a : Answers) (p : Payment) (world : World)
      → p.completed ≡ false
      → let (r, w) = calls decode_base64 unmarshal cs (new_refund_reader p) world in
        let c = call_close a.discard_fails a.close_fails a.trailer in
        let (r', w') = call decode_base64 unmarshal c r w in LeftOrDone p world r'.payment w'
  closed_calls cs a p world fresh =
      let c = call_close a.discard_fails a.close_fails a.trailer in
      let both = calls-append decode_base64 unmarshal cs (c ∷ []) (new_refund_reader p) world in
      subst (λ (t : RefundReader × World). LeftOrDone p world t.0.payment t.1) both
        (SettledBy-LeftOrDone (first_end (cs ++ c ∷ [])) p _ world _
          (new_refund_reader-SettledBy decode_base64 unmarshal (cs ++ c ∷ []) p world fresh))

  close_body-Answered :
      (a : Answers) (is_ping : Bool) (nodes : List NodeId) (e : Error) (cs : List Call)
      (p : Payment) (world : World)
      → p.completed ≡ false
      → let (r, w) = calls decode_base64 unmarshal cs (new_refund_reader p) world in
        Answered a is_ping nodes p world
          (close_body uuid_parse version decode_base64 unmarshal a e r w)
  unfolding close_body
  close_body-Answered a is_ping nodes e cs p world fresh = closed_calls cs a p world fresh

  -- The last branch, whether the response can be opened or not.
  decapsulate-Answered :
      (a : Answers) (nodes : List NodeId) (p : Payment) (world : World)
      → p.completed ≡ false
      → names_candidate uuid_parse version a.node_id_header nodes ≡ true
      → Answered a false nodes p world
          (decapsulate uuid_parse version decode_base64 unmarshal a (new_refund_reader p) world)
  unfolding decapsulate close_body
  decapsulate-Answered a nodes p world fresh named =
      let reads = read_all_lem decode_base64 unmarshal a.opening (new_refund_reader p) world in
      elim (Bool-cases a.decapsulates) [
        | inl opens ↦ rw (reads, opens) (refl, named)
        | inr fails ↦
            rw (reads, fails)
              (close_body-Answered a false nodes not_decapsulated (as_calls a.opening) p world
                fresh)
      ]

  after_response-Answered :
      (a : Answers) (is_ping : Bool) (nodes : List NodeId) (p : Payment) (world : World)
      → p.completed ≡ false
      → Answered a is_ping nodes p world
          (after_response uuid_parse version decode_base64 unmarshal a is_ping nodes p world)
  unfolding after_response
  after_response-Answered a true nodes p world fresh = (refl, refl)
  after_response-Answered a false nodes p world fresh =
      let id = parse_uuid7 uuid_parse version a.node_id_header in
      elim (Option-cases id) [
        | inl h ↦ rw (after_response, h) (close_body-Answered a false nodes _ [] p world fresh)
        | inr (node_id, h) ↦ elim (Bool-cases (has_sealer node_id nodes)) [
          | inr other ↦ rw (after_response, h, other) (inl (refl, refl))
          | inl known ↦
              let named : names_candidate uuid_parse version a.node_id_header nodes ≡ true =
                rw (names_candidate, h, known) refl in
              rw (after_response, h, known) (decapsulate-Answered a nodes p world fresh named)
        ]
      ]

  badge_and_router-Answered :
      (a : Answers) (is_ping : Bool) (nodes : List NodeId) (p : Payment) (world : World)
      → p.completed ≡ false
      → Answered a is_ping nodes p world
          (badge_and_router uuid_parse version decode_base64 unmarshal a is_ping nodes p world)
  unfolding badge_and_router do_router_request
  badge_and_router-Answered a is_ping nodes p world fresh = elim (Result-cases a.badge) [
    | inr (e, h) ↦ rw (badge_and_router, h) (inl (refl, refl))
    | inl (u, h) ↦ elim (Result-cases (send a nodes)) [
      | inr (e, h₁) ↦ rw (badge_and_router, h, do_router_request, h₁) (inl (refl, refl))
      | inl (status, h₁) ↦
          rw (badge_and_router, h, do_router_request, h₁)
            (after_response-Answered a is_ping nodes p world fresh)
    ]
  ]

  -- After an error the payment is completed; a response comes with a payment that the reads may have settled.
  abbrev PaidFor :
      Answers
      → Bool
      → List NodeId
      → Payment
      → World
      → Result (List Error) RefundReader × World
      → Type 0
  PaidFor a is_ping nodes p world (ok r, world') =
      Opened a is_ping p world r world'
      × (is_ping || names_candidate uuid_parse version a.node_id_header nodes ≡ true)
  PaidFor a is_ping nodes p world (err e, world') =
      world'.wallet.payments_wg ≡ world.wallet.payments_wg -ℤ pos 1

  cancelled :
      (p p' : Payment) (world world' : World)
      → p.completed ≡ false
      → LeftOrDone p world p' world'
      → (cancel p' world'.wallet).2.payments_wg ≡ world.wallet.payments_wg -ℤ pos 1
  cancelled p p' world world' fresh (inl (same, same')) =
      rw (same, same') ((cancel-wg p world.wallet fresh).1)
  cancelled p p' world world' fresh (inr (done, wg)) =
      rw (cancel-completed p' world'.wallet done) wg

  with_payment-PaidFor :
      (a : Answers) (is_ping : Bool) (nodes : List NodeId) (p : Payment) (world : World)
      → p.completed ≡ false
      → PaidFor a is_ping nodes p world
          (with_payment uuid_parse version decode_base64 unmarshal a is_ping nodes p world)
  unfolding with_payment
  with_payment-PaidFor a is_ping nodes p world fresh =
      go (badge_and_router uuid_parse version decode_base64 unmarshal a is_ping nodes p world)
        (badge_and_router-Answered a is_ping nodes p world fresh)
    where
      finish :
          Result Error RefundReader × Payment × World → Result (List Error) RefundReader × World
      finish (result, payment', world') = elim result [
        | ok r ↦ (ok r, world')
        | err e ↦ (err (e ∷ []), record world' { wallet = (cancel payment' world'.wallet).2 })
      ]

      go :
          (t : Result Error RefundReader × Payment × World)
          → Answered a is_ping nodes p world t
          → PaidFor a is_ping nodes p world (finish t)
      go (ok r, p', world') answered = answered
      go (err e, p', world') answered = cancelled p p' world world' fresh answered

  -- What a request leads to: a response with the payment that began, to be settled by the reader if the
  -- reads so far did not, or an error that leaves the wait group, or a payment that did not begin.
  abbrev pub Served :
      (Headers → RequestParams → Result ParamsError RequestParams)
      → Outcome
      → Result ℕ (List NodeId)
      → Answers
      → Request
      → Client
      → World
      → Result (List Error) RefundReader × World
      → Type 0
  Served f outcome found a r c world (ok reader, world') =
      (params : RequestParams) × (p : Payment) × (w : Wallet) × (nodes : List NodeId)
      × (valid_normalized_host r ≡ ok unroutable_hostname)
      × (params_for_request f r.path r.header c ≡ ok params)
      × (begin_payment params.credit_amount outcome world.wallet ≡ (ok p, w))
      × (p.completed ≡ false)
      × Opened a r.is_ping p (record world { wallet = w }) reader world'
      × SettledBy decode_base64 unmarshal (first_end (opening_calls a r.is_ping)) p
          (record world { wallet = w }) reader.payment world'
      × (found ≡ ok nodes)
      × (r.is_ping || names_candidate uuid_parse version a.node_id_header nodes ≡ true)
  Served f outcome found a r c world (err errs, world') =
      (world'.wallet.payments_wg ≡ world.wallet.payments_wg)
      ⊎ ((params : RequestParams) × (e : PaymentError) × (begin_payment params.credit_amount outcome
              world.wallet
            ≡ (err e, world'.wallet)))

  -- What `serve` leads to, on how the payment began.
  abbrev Paid :
      Result PaymentError Payment × Wallet
      → Result ℕ (List NodeId)
      → Answers
      → Bool
      → World
      → Result (List Error) RefundReader × World
      → Type 0
  Paid (begun, wallet) found a is_ping world (ok reader, world') =
      (p : Payment) × (nodes : List NodeId) × (begun ≡ ok p)
      × Opened a is_ping p (record world { wallet = wallet }) reader world'
      × (p.completed ≡ false)
      × (found ≡ ok nodes)
      × (is_ping || names_candidate uuid_parse version a.node_id_header nodes ≡ true)
  Paid (begun, wallet) found a is_ping world (err errs, world') =
      (world'.wallet.payments_wg ≡ world.wallet.payments_wg)
      ⊎ ((e : PaymentError) × (begun ≡ err e) × (world'.wallet ≡ wallet))

  started :
      (p : Payment) (w w' : Wallet) → Starts w (ok p, w') → w'.payments_wg -ℤ pos 1 ≡ w.payments_wg
  started p w w' (fresh, wg) = ap (λ n. n -ℤ pos 1) wg ∙ back w.payments_wg

  paid :
      (a : Answers) (is_ping : Bool) (nodes : List NodeId) (p : Payment)
      (found : Result ℕ (List NodeId)) (world : World) (wallet : Wallet)
      (t : Result (List Error) RefundReader × World)
      → Starts world.wallet (ok p, wallet)
      → found ≡ ok nodes
      → PaidFor a is_ping nodes p (record world { wallet = wallet }) t
      → Paid (ok p, wallet) found a is_ping world t
  paid a is_ping nodes p found world wallet (ok r, world') (fresh, wg) gave (opened, named) =
      (p, nodes, refl, opened, fresh, gave, named)
  paid a is_ping nodes p found world wallet (err e, world') starts gave settled =
      inl (settled ∙ started p world.wallet wallet starts)

  after_waiting :
      (a : Answers) (is_ping : Bool) (found : Result ℕ (List NodeId)) (world : World)
      (begun : Result PaymentError Payment) (w' : Wallet)
      (resources : Result (List Error) (Option Payment × List NodeId)) (w'' : Wallet)
      → Starts world.wallet (begun, w')
      → Waited world.wallet begun w' found (resources, w'')
      → Paid
          (begun, w')
          found
          a
          is_ping
          world
          (resume uuid_parse version decode_base64 unmarshal a is_ping resources
            (record world { wallet = w'' }))
  unfolding resume
  after_waiting a is_ping found world begun w' (err errs) w'' starts (inl balanced) = inl balanced
  after_waiting a is_ping found world begun w' (err errs) w'' starts (inr (e, failed, same)) =
      inr (e, failed, same)
  after_waiting a is_ping found world begun w' (ok (none, nodes)) w'' starts waited = absurd waited
  after_waiting a is_ping found world begun w' (ok (some p, nodes)) w'' starts
        (begins, same, gave) =
      rw (begins, same)
        (let starts' = subst (λ b. Starts world.wallet (b, w')) begins starts in
          paid a is_ping nodes p found world w' _ starts' gave
            (with_payment-PaidFor a is_ping nodes p (record world { wallet = w' }) starts'.0))

  serve-Paid :
      (payment_first : Bool) (outcome : Outcome) (found : Result ℕ (List NodeId)) (a : Answers)
      (is_ping : Bool) (params : RequestParams) (world : World)
      → Paid (begin_payment params.credit_amount outcome world.wallet) found a is_ping world (
          serve uuid_parse version decode_base64 unmarshal payment_first outcome found a is_ping
            params world)
  unfolding serve
  serve-Paid payment_first outcome found a is_ping params world =
      let (begun, w') = begin_payment params.credit_amount outcome world.wallet in
      let (resources, w'') = request_resources payment_first outcome found params world.wallet in
      after_waiting a is_ping found world begun w' resources w''
        (begin_payment-Starts params.credit_amount outcome world.wallet)
        (request_resources-Waited payment_first outcome found params world.wallet)

  Paid-Served :
      (f : Headers → RequestParams → Result ParamsError RequestParams) (outcome : Outcome)
      (found : Result ℕ (List NodeId)) (a : Answers) (r : Request) (c : Client) (world : World)
      (params : RequestParams) (t : Result (List Error) RefundReader × World)
      → valid_normalized_host r ≡ ok unroutable_hostname
      → params_for_request f r.path r.header c ≡ ok params
      → Paid (begin_payment params.credit_amount outcome world.wallet) found a r.is_ping world t
      → Served f outcome found a r c world t
  Paid-Served f outcome found a r c world params (ok reader, world') host accepted paid_for =
      let (p, nodes, begun, opened, fresh, gave, named) = paid_for in
      let w = (begin_payment params.credit_amount outcome world.wallet).1 in
      (
        params,
        p,
        w,
        nodes,
        host,
        accepted,
        ap (λ b. (b, w)) begun,
        fresh,
        opened,
        subst
            (λ (t : RefundReader × World).
              SettledBy decode_base64 unmarshal (first_end (opening_calls a r.is_ping)) p
                (record world { wallet = w }) t.0.payment t.1)
            opened
            (new_refund_reader-SettledBy decode_base64 unmarshal (opening_calls a r.is_ping) p
              (record world { wallet = w }) fresh),
        gave,
        named,
      )
  Paid-Served f outcome found a r c world params (err errs, world') host accepted (inl balanced) =
      inl balanced
  Paid-Served f outcome found a r c world params (err errs, world') host accepted (inr failed) =
      let (e, begun, same) = failed in
      inr (
        params,
        e,
        ap (λ b. (b, (begin_payment params.credit_amount outcome world.wallet).1)) begun
            ∙ ap (λ w. (err e, w)) (sym same),
      )

  host-unroutable :
      (r : Request) (host : Str)
      → valid_normalized_host r ≡ ok host
      → valid_normalized_host r ≡ ok unroutable_hostname
  unfolding valid_normalized_host
  host-unroutable r host valid = elim (Result-cases (without_port (given_host r))) [
    | inr (e, h) ↦ absurd (ground (arith, h, valid))
    | inl (host', h) ↦ elim (Bool-cases (host' === unroutable_hostname)) [
      | inr other ↦ absurd (ground (arith, h, other, valid))
      | inl same ↦
          rw (valid_normalized_host, h, same) (ap ok (eq_of_beq host' unroutable_hostname same))
    ]
  ]

  checked_trip-Served :
      (f : Headers → RequestParams → Result ParamsError RequestParams) (payment_first : Bool)
      (outcome : Outcome) (found : Result ℕ (List NodeId)) (a : Answers) (r : Request) (c : Client)
      (world : World)
      → Served f outcome found a r c world (
          checked_trip uuid_parse version decode_base64 unmarshal f payment_first outcome found a r
            c world)
  unfolding checked_trip
  checked_trip-Served f payment_first outcome found a r c world =
      elim (Result-cases (valid_normalized_host r)) [
        | inr (e, h) ↦ rw (checked_trip, h) (inl refl)
        | inl (host, h) ↦ elim (Result-cases (params_for_request f r.path r.header c)) [
          | inr (e, h₁) ↦ rw (checked_trip, h, h₁) (inl refl)
          | inl (params, h₁) ↦
              let paid_for = serve-Paid payment_first outcome found a r.is_ping params world in
              rw (checked_trip, h, h₁)
                (Paid-Served f outcome found a r c world params _ (host-unroutable r host h) h₁
                  paid_for)
        ]
      ]

  -- A request that is answered is one for the unroutable host with acceptable parameters. Its payment has
  -- begun, and the reader that is returned is that of the payment after the reads that opening the
  -- response has made: the payment is settled, by the trailer of the first read that met the end, if
  -- one did, and is otherwise left to the reader, not completed. The node that answers is a
  -- candidate that the finder gave, unless the request is a ping, which is not opened. A request
  -- that fails leaves the wait group as it was, whichever step of it failed, unless its payment did
  -- not begin.
  pub round_trip-Served :
      (f : Headers → RequestParams → Result ParamsError RequestParams) (payment_first : Bool)
      (outcome : Outcome) (found : Result ℕ (List NodeId)) (a : Answers) (r : Request) (c : Client)
      (world : World)
      → Served f outcome found a r c world (
          round_trip uuid_parse version decode_base64 unmarshal f payment_first outcome found a r c
            world)
  unfolding round_trip
  round_trip-Served f payment_first outcome found a r c world = elim (Bool-cases r.has_scheme) [
    | inr h ↦ simp (round_trip, h) (inl refl)
    | inl h ↦ simp (round_trip, h) (checked_trip-Served f payment_first outcome found a r c world)
  ]
