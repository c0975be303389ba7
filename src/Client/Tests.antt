-- ===== src/Client/Tests.antt =====
-- A client at concrete inputs: its settings, a request with its response, the ping, and the choice of a key.
use openpcc.Base.{
  ℕ, zero, suc, Bool, true, false, refl, Option, none, some, List, [], ◌∷◌, Result, ok, ◌≡◌,
}
use openpcc.Base.Int.{ℤ, pos, ◌+ℤ◌}
use openpcc.Base.Words.{int64_of, len64, bit_len, trailing_zeros64, zeros_loop}
use openpcc.Currency.{
  rounded, rounded_wide, create_exact_unsafe, exact, choose_bound, amount, amount_or_zero,
}
use openpcc.Tags.{Str, from_slice, from_slice_loop, get_values}
use openpcc.Credit.{CreditProto}
use openpcc.Credit.Toy.{paid}
use openpcc.Models.{
  Model, longest, max_credit_amount, max_credit_amount_per_request as max_of_models,
}
use openpcc.Client.{
  Client, Config, RequestParams, max_of_config, Error as ParamsError, new_from_config,
  with_credit_amount, make_client, check_settings, apply, apply_all, default_credit_amount,
  round_credit_amount, validate_credit_amount, check_model_tags, set_default_credit_amount,
}
use openpcc.Client.Params.{Headers, params_for_request, check_model_tag, is_among}
use openpcc.Client.Limits.{
  Change, set_amount, changes, InLimit, HasModel, params_for_request-InLimit,
}
use openpcc.Payment.{
  Payment, Wallet, Outcome, answered, responds, begin_payment, begin_sent,
  begin_payment_for_request,
}
use openpcc.Client.Refund.{read_all, read, World, refund_of, new_refund_reader, data_read, at_end}
use openpcc.Client.Refund.Settled.{
  Call, call_read, call_close, calls, SettledBy, new_refund_reader-SettledBy,
}
use openpcc.Client.Request.{
  NodeId, Answers, Request, decapsulate, unroutable_hostname, round_trip, checked_trip,
  valid_normalized_host, serve, request_resources, resume, with_payment, badge_and_router,
  do_router_request, after_response, send, all_candidates, has_sealer, receive, receive_all,
  finish_resources, has_char, without_port, parse_uuid7,
}
use openpcc.Client.Request.Paid.{Served, round_trip-Served}
use openpcc.Client.Request.Closing.{round_trip-calls}
use openpcc.Client.Ping.{Attempt, ping_router, responds as responds_with}
use openpcc.Client.Ping.Attempts.{Ends, ping_router-Ends}
use openpcc.Client.Gateway.{KeyPeriod, choose_key}
use openpcc.Client.Gateway.Choice.{Chosen, choose_key-Chosen}

-- "m"
abbrev models : List Model
models = record { name = b'm' ∷ []; context_length = pos 64 } ∷ []

abbrev config : Config
config = record {
  api_key = b'k' ∷ [];
  api_url = b'u' ∷ [];
  max_candidate_nodes = pos 3;
  default_request_params = record { credit_amount = pos 20; node_tags = [] };
  max_credit_amount_per_request = pos 0;
}

abbrev client : Client
client = record {
  params = record { credit_amount = pos 16; node_tags = [] };
  max_candidate_nodes = pos 3;
  max_credit_amount_per_request = pos 128;
}

client_made : new_from_config models config (with_credit_amount (pos 16) ∷ []) ≡ ok client
unfolding new_from_config make_client check_settings apply apply_all default_credit_amount
    round_credit_amount validate_credit_amount check_model_tags rounded rounded_wide
    create_exact_unsafe exact choose_bound amount from_slice from_slice_loop get_values
    max_of_models longest max_credit_amount len64 bit_len trailing_zeros64 zeros_loop ◌+ℤ◌ int64_of
client_made = refl

abbrev keep : Headers → RequestParams → Result ParamsError RequestParams
keep h p = ok p

-- The default amount is changed to 64, and then to 256, which is refused.
abbrev two_changes : List Change
two_changes = set_amount none (pos 64) ∷ set_amount none (pos 256) ∷ []

abbrev params : RequestParams
params = record { credit_amount = pos 64; node_tags = [] }

params_accepted : params_for_request keep [] [] (changes models two_changes client) ≡ ok params
unfolding params_for_request set_default_credit_amount validate_credit_amount check_model_tag
    from_slice from_slice_loop is_among
params_accepted = refl

params_for_request-InLimit_example :
    let c' = changes models two_changes client in
    InLimit c'.params.credit_amount c'
    × InLimit (pos 64) c'
    × (round_credit_amount (max_of_config models config) ≡ ok c'.max_credit_amount_per_request)
    × HasModel [] []
params_for_request-InLimit_example =
    params_for_request-InLimit models config (with_credit_amount (pos 16) ∷ []) client two_changes
      keep [] [] params client_made params_accepted

abbrev payment : Payment
payment = record { credit = paid; completed = false }

abbrev wallet : ℤ → Wallet
wallet open_payments = record {
  closed = false;
  payments_wg = open_payments;
  prefetch_amount = pos 64;
  results = [];
}

abbrev world : ℤ → World
world open_payments = record { wallet = wallet open_payments; callbacks = [] }

abbrev no_base64 : List ℕ → Option (List ℕ)
no_base64 s = none

abbrev no_message : List ℕ → Option CreditProto
no_message bytes = none

-- A read of data, a read of the end without a refund, and a close.
abbrev reads : List Call
reads = call_read data_read [] ∷ call_read at_end [] ∷ call_close false false [] ∷ []

new_refund_reader-SettledBy_example :
    let (r', world') =
      calls no_base64 no_message reads (new_refund_reader payment) (world (pos 3)) in
    SettledBy no_base64 no_message (some []) payment (world (pos 3)) r'.payment world'
new_refund_reader-SettledBy_example =
    new_refund_reader-SettledBy no_base64 no_message reads payment (world (pos 3)) refl

abbrev node : NodeId
node = 9 ∷ 9 ∷ []

abbrev parse_any : Str → Option NodeId
parse_any s = some s

abbrev version_seven : NodeId → ℕ
version_seven id = 7

abbrev answers : Answers
answers = record {
  badge = ok tt;
  encapsulates = true;
  candidate = λ id. true;
  marshals = true;
  credit_encodes = true;
  makes_request = true;
  router_status = some 200;
  node_id_header = node;
  decapsulates = true;
  discard_fails = false;
  close_fails = false;
  trailer = [];
  opening = (data_read, []) ∷ [];
}

abbrev request : Request
request = record {
  has_scheme = true;
  host = [];
  url_host = unroutable_hostname;
  path = [];
  header = [];
  is_ping = false;
}

abbrev outcome : Outcome
outcome = answered (responds paid)

round_trip-Served_example :
    Served parse_any version_seven no_base64 no_message keep outcome
      (ok (node ∷ []))
      answers
      request
      client
      (world (pos 2))
      (round_trip parse_any version_seven no_base64 no_message keep true outcome
        (ok (node ∷ []))
        answers
        request
        client
        (world (pos 2)))
round_trip-Served_example =
    round_trip-Served parse_any version_seven no_base64 no_message keep true outcome
      (ok (node ∷ [])) answers request client (world (pos 2))

request_answered :
    round_trip parse_any version_seven no_base64 no_message keep true outcome
      (ok (node ∷ []))
      answers
      request
      client
      (world (pos 2))
    ≡ (ok (new_refund_reader payment), world (pos 3))
unfolding round_trip checked_trip valid_normalized_host params_for_request serve request_resources
    resume with_payment badge_and_router do_router_request after_response decapsulate read_all read
    send all_candidates has_sealer receive receive_all finish_resources has_char without_port
    parse_uuid7 begin_payment begin_sent begin_payment_for_request amount_or_zero amount rounded
    rounded_wide create_exact_unsafe exact choose_bound len64 bit_len trailing_zeros64 zeros_loop
    ◌+ℤ◌ int64_of from_slice from_slice_loop is_among check_model_tag validate_credit_amount
request_answered = refl

no_refund : refund_of no_base64 no_message [] ≡ ok none
unfolding refund_of
no_refund = refl

round_trip-calls_example :
    let (reader', world') =
      calls no_base64 no_message reads (new_refund_reader payment) (world (pos 3)) in
    (reader'.payment.completed ≡ true) × (world'.wallet.payments_wg ≡ pos 2)
round_trip-calls_example =
    round_trip-calls parse_any version_seven no_base64 no_message keep true outcome (ok (node ∷ []))
      answers request client (world (pos 2)) (new_refund_reader payment) (world (pos 3)) reads []
      none request_answered refl no_refund

-- The first answer is 503, the second a pong.
abbrev events : ℕ → Attempt
events zero = record {
  draws = false;
  ticks = true;
  makes_request = true;
  answer = responds_with 503 none;
}
events (suc i) = record {
  draws = true;
  ticks = true;
  makes_request = true;
  answer = responds_with 200 (some (b'p' ∷ b'o' ∷ b'n' ∷ b'g' ∷ []));
}

abbrev never : ℕ → Bool
never status = false

ping_router-Ends_example : Ends never events 10 0 none (ping_router never events (pos 10))
ping_router-Ends_example = ping_router-Ends never events (pos 10)

abbrev periods : List KeyPeriod
periods =
    record { period = record { active_from = pos 5; active_until = pos 50 }; key_id = 1 }
    ∷ record { period = record { active_from = pos 7; active_until = pos 60 }; key_id = 2 }
    ∷ record { period = record { active_from = pos 30; active_until = pos 90 }; key_id = 3 }
    ∷ []

abbrev own_id : ℕ → ℕ
own_id id = id

choose_key-Chosen_example :
    Chosen own_id
      (pos 20)
      periods
      (1 ∷ 2 ∷ 3 ∷ [])
      (choose_key own_id (pos 20) periods (1 ∷ 2 ∷ 3 ∷ []))
choose_key-Chosen_example = choose_key-Chosen own_id (pos 20) periods (1 ∷ 2 ∷ 3 ∷ [])
