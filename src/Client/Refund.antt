-- ===== src/Client/Refund.antt =====
-- client.go, refundReader: the reader of a response's body, which completes the payment of the request
-- when it meets the end of the body or is closed. What the body's own `Read` and `Close` return, and
-- the refund header that the trailer holds by then, are arguments of the calls; base64 and the
-- protobuf decoding are parameters. Joined errors are a list.
pub mod Settled
use openpcc.Base.{
  ℕ, Bool, true, false, ◌==◌, ◌++◌, Option, none, some, List, [], ◌∷◌, length, Result, ok, err,
  ◌>>=◌, if◌then◌else◌,
}
use openpcc.Base.Int.{ℤ, pos}
use openpcc.Currency.{amount_or_zero}
use openpcc.Credit.{Credit, unblinded, CreditProto, Error as CreditError, unmarshal_proto}
use openpcc.Payment.{Payment, Wallet, Error as PaymentError, success}

pub data Error : Type 0 where
  not_base64 not_protobuf read_failed end_of_file discard_failed body_not_closed
        decapsulated_not_closed :
      Error
  bad_credit : CreditError → Error
  not_settled : PaymentError → Error

-- `refundReader`, without the body and the trailer that it reads from.
pub record RefundReader : Type 0 where
  pub eof : Bool
  pub refunded : Bool
  pub payment : Payment
  pub closed : Bool

-- The wallet, and the amounts that the refund callback was called with.
pub record World : Type 0 where
  pub wallet : Wallet
  pub callbacks : List ℤ

abbrev pub new_refund_reader : Payment → RefundReader
new_refund_reader p = record { eof = false; refunded = false; payment = p; closed = false }

-- What `Read` of the body returns: data, or the end, or another error.
pub data BodyRead : Type 0 where
  data_read at_end broken : BodyRead

abbrev pub error_if : Bool → Error → List Error
error_if true e = e ∷ []
error_if false e = []

abbrev pub to_list : Option Error → List Error
to_list none = []
to_list (some e) = e ∷ []

module _ (decode_base64 : List ℕ → Option (List ℕ)) (unmarshal : List ℕ → Option CreditProto) where
  -- `parseRefundHeader`
  pub parse_refund_header : List ℕ → Result Error (Credit unblinded)
  parse_refund_header refund_header = elim (decode_base64 refund_header) [
    | none ↦ err not_base64
    | some credit_bytes ↦ elim (unmarshal credit_bytes) [
      | none ↦ err not_protobuf
      | some credit_proto ↦ elim (unmarshal_proto (some credit_proto)) [
        | err e ↦ err (bad_credit e)
        | ok credit ↦ ok credit
      ]
    ]
  ]

  -- The refund of a trailer: none, where the header is missing or empty.
  unfoldable pub refund_of : List ℕ → Result Error (Option (Credit unblinded))
  refund_of [] = ok none
  refund_of (c ∷ cs) = (parse_refund_header (c ∷ cs) >>= λ credit. ok (some credit))

  abbrev pub refund_amount : Option (Credit unblinded) → ℤ
  refund_amount none = pos 0
  refund_amount (some credit) = amount_or_zero credit.value

  -- The end of `doRefund`: the payment is a success, and the callback is called if that went well.
  pub settle :
      Option (Credit unblinded) → RefundReader → World → Option Error × RefundReader × World
  settle credit r world =
      let (result, payment, wallet) = success credit r.payment world.wallet in
      let r' : RefundReader = record r { payment = payment } in
      elim result [
        | err e ↦ (some (not_settled e), r', record world { wallet = wallet })
        | ok done ↦ (
          none,
          r',
          record { wallet = wallet; callbacks = refund_amount credit ∷ world.callbacks },
        )
      ]

  -- `refundReader.doRefund`
  pub do_refund : (trailer : List ℕ) → RefundReader → World → Option Error × RefundReader × World
  do_refund trailer r world =
      if r.refunded
      then (none, r, world)
      else (let r' : RefundReader = record r { refunded = true } in
          elim (refund_of trailer) [
            | err e ↦ (some e, r', world)
            | ok credit ↦ settle credit r' world
          ])

  -- `refundReader.Read`
  unfoldable pub read :
      BodyRead → (trailer : List ℕ) → RefundReader → World → List Error × RefundReader × World
  read data_read trailer r world = ([], r, world)
  read broken trailer r world = (read_failed ∷ [], r, world)
  read at_end trailer r world =
      let (refund_err, r', world') = do_refund trailer (record r { eof = true }) world in
      (end_of_file ∷ to_list refund_err, r', world')

  -- `refundReader.Close`, where discarding the rest of the body, or closing it, may fail.
  pub close :
      (discard_fails close_fails : Bool) (trailer : List ℕ)
      → RefundReader
      → World
      → List Error × RefundReader × World
  close discard_fails close_fails trailer r world =
      if r.closed
      then ([], r, world)
      else (let discard_errs = if r.eof then [] else error_if discard_fails discard_failed in
          let (refund_err, r', world') = do_refund trailer (record r { closed = true }) world in
          (
            discard_errs ++ (error_if close_fails body_not_closed ++ to_list refund_err),
            r',
            world',
          ))

  -- Reads of the body by others: what each returns, and the refund header that the trailer holds by then.
  unfoldable pub read_all : List (BodyRead × List ℕ) → RefundReader → World → RefundReader × World
  read_all [] r world = (r, world)
  read_all ((body, trailer) ∷ reads) r world =
      let (errs, r', world') = read body trailer r world in read_all reads r' world'

  -- `decapRespBody.Close`: the decapsulated body, and then the reader.
  pub close_decapsulated :
      (body_fails discard_fails close_fails : Bool) (trailer : List ℕ)
      → RefundReader
      → World
      → List Error × RefundReader × World
  close_decapsulated body_fails discard_fails close_fails trailer r world =
      let (errs, r', world') = close discard_fails close_fails trailer r world in
      (error_if body_fails decapsulated_not_closed ++ errs, r', world')
