-- ===== src/Client/Request.antt =====
-- client.go: how a request is served. `RoundTrip` checks the request, takes a payment from the wallet and
-- candidate nodes from the finder, sends the sealed request to the router, and cancels the payment
-- where anything fails. What the other parties answer, and whether the sealing of messages
-- works, are arguments; the third-party `uuid` package is a parameter.
pub mod Waiting
pub mod Paid
pub mod Closing
use openpcc.Base.{
  ℕ, Bool, true, false, not, ◌&&◌, ◌||◌, ◌==◌, ◌++◌, Option, none, some, List, [], ◌∷◌, length,
  Result, ok, err, is_ok, if◌then◌else◌,
}
use openpcc.Base.Int.{ℤ, pos}
use openpcc.Base.Dict.{list_eq, ◌===◌}
use openpcc.Credit.{CreditProto}
use openpcc.Payment.{Payment, Wallet, Outcome, Error as PaymentError, begin_payment, cancel}
use openpcc.Tags.{Str, Error as TagsError, from_slice}
use openpcc.Client.{Client, RequestParams, Error as ParamsError}
use openpcc.Client.Params.{Headers, params_for_request}
use openpcc.Client.Refund.{BodyRead, RefundReader, World, new_refund_reader, close, read_all}

pub data Error : Type 0 where
  no_scheme bad_host_port bad_host no_payment not_enough_verified_nodes : Error
  not_encapsulated no_candidate not_marshalled credit_not_encoded no_router_request : Error
  not_answered bad_node_id non_candidate not_decapsulated : Error
  bad_params : ParamsError → Error
  bad_tags : TagsError → Error
  no_badge finder_failed router_error : ℕ → Error
  not_paid : PaymentError → Error

-- `uuid.UUID`
abbrev pub NodeId : Type 0
NodeId = List ℕ

-- What `RoundTrip` reads of a request.
pub record Request : Type 0 where
  pub has_scheme : Bool
  pub host : Str
  pub url_host : Str
  pub path : Str
  pub header : Headers
  pub is_ping : Bool

-- confsec.invalid
abbrev pub unroutable_hostname : Str
unroutable_hostname =
    b'c' ∷ b'o' ∷ b'n' ∷ b'f' ∷ b's' ∷ b'e' ∷ b'c' ∷ b'.' ∷ b'i' ∷ b'n' ∷ b'v' ∷ b'a' ∷ b'l' ∷ b'i'
    ∷ b'd' ∷ []

unfoldable pub has_char : ℕ → Str → Bool
has_char c [] = false
has_char c (d ∷ ds) = (c == d) || has_char c ds

-- A string before and after its last colon.
pub split_last_colon : Str → Option (Str × Str)
split_last_colon [] = none
split_last_colon (c ∷ cs) = elim (split_last_colon cs) [
  | some parts ↦ some (c ∷ parts.0, parts.1)
  | none ↦ if c == b':' then some ([], cs) else none
]

-- The host of `host]`, where the first closing bracket is the last character.
pub before_bracket : Str → Option Str
before_bracket [] = none
before_bracket (c ∷ []) = if c == b']' then some [] else none
before_bracket (c ∷ d ∷ cs) =
    let rest = before_bracket (d ∷ cs) in
    if c == b']' then none else elim rest [ none ↦ none | some host ↦ some (c ∷ host) ]

-- `net.SplitHostPort`, less the port: the text before the last colon is the host, or the host in brackets.
pub split_host : Str → (port : Str) → Option Str
split_host [] port = if has_char b'[' port || has_char b']' port then none else some []
split_host (c ∷ cs) port =
    let bracketed = before_bracket cs in
    if c == b'['
    then (if has_char b'[' cs || has_char b'[' port || has_char b']' port then none else bracketed)
    else if has_char b':' (c ∷ cs)
        || has_char b'[' (c ∷ cs)
        || has_char b']' (c ∷ cs)
        || has_char b'[' port
        || has_char b']' port
    then none
    else some (c ∷ cs)

pub split_host_port : Str → Option Str
split_host_port hostport = elim (split_last_colon hostport) [
  | none ↦ none
  | some parts ↦ split_host parts.0 parts.1
]

-- The host without its port number.
unfoldable pub without_port : Str → Result Error Str
without_port host =
    if has_char b':' host
    then elim (split_host_port host) [ none ↦ err bad_host_port | some h ↦ ok h ]
    else ok host

abbrev pub given_host : Request → Str
given_host r = if length r.host == 0 then r.url_host else r.host

-- `validNormalizedHost`
unfoldable pub valid_normalized_host : Request → Result Error Str
valid_normalized_host r = elim (without_port (given_host r)) [
  | err e ↦ err e
  | ok host ↦ if host === unroutable_hostname then ok host else err bad_host
]

-- The two answers that `requestResources` waits for.
pub data ResourceResult : Type 0 where
  payment_result : Result PaymentError Payment → ResourceResult
  nodes_result : Result ℕ (List NodeId) → ResourceResult

-- The collected `out`, whose errors are joined.
pub record Resources : Type 0 where
  pub payment : Option Payment
  pub nodes : List NodeId
  pub errs : List Error

abbrev pub no_resources : Resources
no_resources = record { payment = none; nodes = []; errs = [] }

unfoldable pub receive : ResourceResult → Resources → Resources
receive (payment_result (ok p)) out = record out { payment = some p }
receive (payment_result (err e)) out = record out { errs = out.errs ++ (not_paid e ∷ []) }
receive (nodes_result (ok [])) out = out
receive (nodes_result (ok (n ∷ ns))) out = record out { nodes = n ∷ ns }
receive (nodes_result (err e)) out = record out { errs = out.errs ++ (finder_failed e ∷ []) }

unfoldable pub receive_all : List ResourceResult → Resources → Resources
receive_all [] out = out
receive_all (result ∷ results) out = receive_all results (receive result out)

-- The error of a cancellation, joined to the others.
abbrev pub join_cancel : List Error → Payment → Wallet → List Error × Wallet
join_cancel errs payment w =
    let (result, payment', w') = cancel payment w in
    elim result [ ok done ↦ (errs, w') | err e ↦ (errs ++ (not_paid e ∷ []), w') ]

-- The end of `requestResources`: a payment is cancelled where there are errors.
unfoldable pub finish_resources :
    Resources → Wallet → Result (List Error) (Option Payment × List NodeId) × Wallet
finish_resources out w = elim (out.errs) [
  | [] ↦ (ok (out.payment, out.nodes), w)
  | e ∷ errs ↦ elim (out.payment) [
    | none ↦ (err (e ∷ errs), w)
    | some p ↦ let (errs', w') = join_cancel (e ∷ errs) p w in (err errs', w')
  ]
]

-- `Client.requestResources`: the two answers come in either order.
unfoldable pub request_resources :
    (payment_first : Bool)
    → Outcome
    → (found : Result ℕ (List NodeId)) → RequestParams
    → Wallet
    → Result (List Error) (Option Payment × List NodeId) × Wallet
request_resources payment_first outcome found p w = elim (from_slice p.node_tags) [
  | err e ↦ (err (bad_tags e ∷ []), w)
  | ok node_tags ↦
      let (begun, w') = begin_payment p.credit_amount outcome w in
      let out =
        if payment_first
        then receive_all (payment_result begun ∷ nodes_result found ∷ []) no_resources
        else receive_all (nodes_result found ∷ payment_result begun ∷ []) no_resources in
      finish_resources out w'
]

-- What the other parties answer once the payment and the nodes are there.
pub record Answers : Type 0 where
  pub badge : Result ℕ (Unit {0})
  pub encapsulates : Bool
  pub candidate : NodeId → Bool
  pub marshals : Bool
  pub credit_encodes : Bool
  pub makes_request : Bool
  pub router_status : Option ℕ
  pub node_id_header : Str
  pub decapsulates : Bool
  pub discard_fails : Bool
  pub close_fails : Bool
  pub trailer : Str
  -- The reads of the response's body while it is decapsulated.
  pub opening : List (BodyRead × Str)

-- The loop over the nodes: each becomes a candidate, or the request fails.
unfoldable pub all_candidates : (NodeId → Bool) → List NodeId → Bool
all_candidates candidate [] = true
all_candidates candidate (n ∷ ns) = candidate n && all_candidates candidate ns

-- `sealers[nodeID]`
unfoldable pub has_sealer : NodeId → List NodeId → Bool
has_sealer id [] = false
has_sealer id (n ∷ ns) = (id === n) || has_sealer id ns

-- The steps of `doRouterRequest` up to the response, with the status of the router.
unfoldable pub send : Answers → List NodeId → Result Error ℕ
send a [] = err not_enough_verified_nodes
send a (n ∷ ns) =
    if not a.encapsulates
    then err not_encapsulated
    else if not (all_candidates a.candidate (n ∷ ns))
    then err no_candidate
    else if not a.marshals
    then err not_marshalled
    else if not a.credit_encodes
    then err credit_not_encoded
    else if not a.makes_request
    then err no_router_request
    else elim (a.router_status) [
      | none ↦ err not_answered
      | some status ↦ if status == 200 then ok status else err (router_error status)
    ]

module _ (uuid_parse : Str → Option NodeId) (version : NodeId → ℕ) where
  -- `uuidv7.Parse`
  unfoldable pub parse_uuid7 : Str → Option NodeId
  parse_uuid7 s = elim (uuid_parse s) [
    | none ↦ none
    | some uid ↦ if version uid == 7 then some uid else none
  ]

module _ (uuid_parse : Str → Option NodeId) (version : NodeId → ℕ)
    (decode_base64 : List ℕ → Option (List ℕ)) (unmarshal : List ℕ → Option CreditProto) where
  -- The deferred function of `doRouterRequest`: it closes the body of the response.
  pub close_body :
      Answers → Error → RefundReader → World → Result Error RefundReader × Payment × World
  close_body a e reader world =
      let (errs, r, world') =
        close decode_base64 unmarshal a.discard_fails a.close_fails a.trailer reader world in
      (err e, r.payment, world')

  -- `messages.DecapsulateResponse`, which reads the body of the response, to its end if need be: the payment
  -- may be settled by then. The reader goes to the caller, behind the decapsulated body.
  unfoldable pub decapsulate :
      Answers → RefundReader → World → Result Error RefundReader × Payment × World
  decapsulate a reader world =
      let (r, world') = read_all decode_base64 unmarshal a.opening reader world in
      if a.decapsulates then (ok r, r.payment, world') else close_body a not_decapsulated r world'

  -- `doRouterRequest`, from the response on. At a node that is no candidate `err` is nil, and the deferred
  -- function does nothing.
  unfoldable pub after_response :
      Answers
      → (is_ping : Bool) → List NodeId
      → Payment
      → World
      → Result Error RefundReader × Payment × World
  after_response a is_ping nodes payment world =
      if is_ping
      then (ok (new_refund_reader payment), payment, world)
      else elim (parse_uuid7 uuid_parse version a.node_id_header) [
        | none ↦ close_body a bad_node_id (new_refund_reader payment) world
        | some node_id ↦
            if not (has_sealer node_id nodes)
            then (err non_candidate, payment, world)
            else decapsulate a (new_refund_reader payment) world
      ]

  -- `Client.doRouterRequest`
  unfoldable pub do_router_request :
      Answers
      → (is_ping : Bool) → List NodeId
      → Payment
      → World
      → Result Error RefundReader × Payment × World
  do_router_request a is_ping nodes payment world = elim (send a nodes) [
    | err e ↦ (err e, payment, world)
    | ok status ↦ after_response a is_ping nodes payment world
  ]

  -- The badge, and then the router.
  unfoldable pub badge_and_router :
      Answers
      → (is_ping : Bool) → List NodeId
      → Payment
      → World
      → Result Error RefundReader × Payment × World
  badge_and_router a is_ping nodes payment world = elim (a.badge) [
    | err e ↦ (err (no_badge e), payment, world)
    | ok badge ↦ do_router_request a is_ping nodes payment world
  ]

  -- `RoundTrip` once it has a payment, with the deferred function that cancels it.
  unfoldable pub with_payment :
      Answers
      → (is_ping : Bool) → List NodeId
      → Payment
      → World
      → Result (List Error) RefundReader × World
  with_payment a is_ping nodes payment world =
      let (result, payment', world') = badge_and_router a is_ping nodes payment world in
      elim result [
        | ok r ↦ (ok r, world')
        | err e ↦ (err (e ∷ []), record world' { wallet = (cancel payment' world'.wallet).2 })
      ]

  -- `RoundTrip`, once `requestResources` returns.
  unfoldable pub resume :
      Answers
      → (is_ping : Bool) → Result (List Error) (Option Payment × List NodeId)
      → World
      → Result (List Error) RefundReader × World
  resume a is_ping (err errs) world = (err errs, world)
  resume a is_ping (ok (none, nodes)) world = (err (no_payment ∷ []), world)
  resume a is_ping (ok (some payment, nodes)) world = with_payment a is_ping nodes payment world

  -- `RoundTrip`, with the parameters of the request.
  unfoldable pub serve :
      (payment_first : Bool)
      → Outcome
      → (found : Result ℕ (List NodeId)) → Answers
      → (is_ping : Bool) → RequestParams
      → World
      → Result (List Error) RefundReader × World
  serve payment_first outcome found a is_ping p world =
      let (resources, wallet) = request_resources payment_first outcome found p world.wallet in
      resume a is_ping resources (record world { wallet = wallet })

  -- `RoundTrip`, from the host on.
  unfoldable pub checked_trip :
      (Headers → RequestParams → Result ParamsError RequestParams)
      → (payment_first : Bool) → Outcome
      → (found : Result ℕ (List NodeId)) → Answers
      → Request
      → Client
      → World
      → Result (List Error) RefundReader × World
  checked_trip request_params_func payment_first outcome found a r c world =
      elim (valid_normalized_host r) [
        | err e ↦ (err (e ∷ []), world)
        | ok host ↦ elim (params_for_request request_params_func r.path r.header c) [
          | err e ↦ (err (bad_params e ∷ []), world)
          | ok params ↦ serve payment_first outcome found a r.is_ping params world
        ]
      ]

  -- `Client.RoundTrip`
  unfoldable pub round_trip :
      (Headers → RequestParams → Result ParamsError RequestParams)
      → (payment_first : Bool) → Outcome
      → (found : Result ℕ (List NodeId)) → Answers
      → Request
      → Client
      → World
      → Result (List Error) RefundReader × World
  round_trip request_params_func payment_first outcome found a r c world =
      if r.has_scheme
      then checked_trip request_params_func payment_first outcome found a r c world
      else (err (no_scheme ∷ []), world)
