-- ===== src/Client/Request/Closing.antt =====
-- A request from its beginning to the end of its response.
use mathlib.Core.Path.{subst}
use openpcc.Base.{ℕ, Bool, true, ◌≡◌, ◌∙◌, ap, Option, some, List, ◌++◌, Result, ok}
use openpcc.Base.Int.{pos, ◌-ℤ◌}
use openpcc.Credit.{Credit, unblinded, CreditProto}
use openpcc.Payment.{Outcome}
use openpcc.Payment.Once.{Starts, begin_payment-Starts, back}
use openpcc.Tags.{Str}
use openpcc.Client.{Client, RequestParams, Error as ParamsError}
use openpcc.Client.Params.{Headers}
use openpcc.Client.Refund.{RefundReader, World, new_refund_reader, refund_of}
use openpcc.Client.Refund.Settled.{Call, calls, calls-append, first_end, new_refund_reader-readable}
use openpcc.Client.Request.{NodeId, Answers, Request, round_trip}
use openpcc.Client.Request.Paid.{Served, opening_calls, round_trip-Served}

module _ (uuid_parse : Str → Option NodeId) (version : NodeId → ℕ)
    (decode_base64 : List ℕ → Option (List ℕ)) (unmarshal : List ℕ → Option CreditProto)
    (f : Headers → RequestParams → Result ParamsError RequestParams) (payment_first : Bool)
    (outcome : Outcome) (found : Result ℕ (List NodeId)) (a : Answers) (r : Request) (c : Client)
    (world : World) where
  -- A request that is answered, and whose response is closed or read to its end, while it is opened or
  -- afterwards, with a trailer that has no refund or a readable one the first time, leaves the wallet with no more open payments than before it.
  pub round_trip-calls :
      (reader : RefundReader) (world' : World) (cs : List Call) (trailer : Str)
      (credit : Option (Credit unblinded))
      → round_trip uuid_parse version decode_base64 unmarshal f payment_first outcome found a r c
          world
        ≡ (ok reader, world')
      → first_end (opening_calls a r.is_ping ++ cs) ≡ some trailer
      → refund_of decode_base64 unmarshal trailer ≡ ok credit
      → let (reader', world'') = calls decode_base64 unmarshal cs reader world' in
        (reader'.payment.completed ≡ true) × (world''.wallet.payments_wg ≡ world.wallet.payments_wg)
  round_trip-calls reader world' cs trailer credit answered end refund =
      let (params, p, w, nodes, host, accepted, begun, fresh, opened, settled, gave, named) =
        subst (Served uuid_parse version decode_base64 unmarshal f outcome found a r c world)
          answered
          (round_trip-Served uuid_parse version decode_base64 unmarshal f payment_first outcome
            found a r c world) in
      let starts =
        subst (Starts world.wallet) begun
          (begin_payment-Starts params.credit_amount outcome world.wallet) in
      let begun_world : World = record world { wallet = w } in
      let first = opening_calls a r.is_ping in
      let (done, wg) =
        new_refund_reader-readable decode_base64 unmarshal (first ++ cs) trailer credit p
          begun_world fresh end refund in
      let both = calls-append decode_base64 unmarshal first cs (new_refund_reader p) begun_world in
      let all : calls decode_base64 unmarshal (first ++ cs) (new_refund_reader p) begun_world
          ≡ calls decode_base64 unmarshal cs reader world' =
        both ∙ ap (λ (t : RefundReader × World). calls decode_base64 unmarshal cs t.0 t.1) opened in
      subst
        (λ (t : RefundReader × World).
          (t.0.payment.completed ≡ true) × (t.1.wallet.payments_wg ≡ world.wallet.payments_wg))
        all (done, wg ∙ ap (λ n. n -ℤ pos 1) starts.1 ∙ back world.wallet.payments_wg)
