-- ===== src/Client.antt =====
-- client.go, option.go and request_params.go: the settings of a client, how it is made from a
-- configuration, how its defaults are changed, and the parameters of one request. The headers of a
-- request are a map from a name to its values, in ASCII. The locks are left out: one call is one step.
pub mod Params
pub mod Limits
pub mod Refund
pub mod Request
pub mod Ping
pub mod Gateway
mod Tests
use openpcc.Base.{
  ℕ, suc, zero, ◌+◌, ◌-◌, ◌*◌, ◌^◌, Bool, true, false, not, ◌&&◌, ◌||◌, ◌==◌, ltb, leb, Option,
  none, some, List, [], ◌∷◌, length, Result, ok, err, ◌>>=◌, ◌>>◌, fail_if, if◌then◌else◌,
}
use openpcc.Base.Int.{ℤ, pos, negsuc, ltb_ℤ, leb_ℤ}
use openpcc.Base.Dict.{Dict, lookup, list_eq, int_eq, ◌===◌}
use openpcc.Cmdline.{trim_left, trim_right}
use openpcc.Currency.{Error as CurrencyError, rounded, amount}
use openpcc.Models.{
  Model, Error as ModelError, get_model, max_credit_amount_per_request as max_of_models,
}
use openpcc.Tags.{
  Str, Tags, Error as TagsError, from_slice, get_values, remove_key, add_tag_pair, to_slice,
  contains_key,
}

pub record RequestParams : Type 0 where
  pub credit_amount : ℤ
  pub node_tags : List Str

-- `Client`, as far as its own methods change it or test it.
pub record Client : Type 0 where
  pub params : RequestParams
  pub max_candidate_nodes : ℤ
  pub max_credit_amount_per_request : ℤ

pub data Error : Type 0 where
  missing_api_url missing_api_key too_few_candidate_nodes multiple_models : Error
  credit_amount_below_one max_credit_amount_violated bad_credit_amount_header : Error
  no_model_tag : Error
  bad_tags : TagsError → Error
  bad_model : ModelError → Error
  not_rounded : CurrencyError → Error
  wallet_refuses : ℕ → Error

abbrev pub wrap : {A E : Type 0} → (E → Error) → Result E A → Result Error A
wrap f (ok a) = ok a
wrap f (err e) = err (f e)

-- "model"
abbrev pub model_key : Str
model_key = b'm' ∷ b'o' ∷ b'd' ∷ b'e' ∷ b'l' ∷ []

-- The `switch` on the model tags.
pub check_model_tags : List Model → List Str → Result Error (Unit {0})
check_model_tags models [] = ok tt
check_model_tags models (model ∷ []) = elim (get_model model models) [
  | err e ↦ err (bad_model e)
  | ok found ↦ ok tt
]
check_model_tags models (model ∷ other ∷ model_tags) = err multiple_models

-- `RoundCreditAmount`
pub round_credit_amount : ℤ → Result Error ℤ
round_credit_amount credit_amount = do
  cur ← wrap not_rounded (rounded credit_amount 1 1 1)
  wrap not_rounded (amount cur)

-- `Client.validateCreditAmount`
pub validate_credit_amount : ℤ → Client → Result Error (Unit {0})
validate_credit_amount limit c =
    if ltb_ℤ limit (pos 1)
    then err credit_amount_below_one
    else if ltb_ℤ c.max_credit_amount_per_request limit
    then err max_credit_amount_violated
    else ok tt

-- `Config`, the fields that bear on the settings.
pub record Config : Type 0 where
  pub api_key : Str
  pub api_url : Str
  pub max_candidate_nodes : ℤ
  pub default_request_params : RequestParams
  pub max_credit_amount_per_request : ℤ

-- `Option`: those of its kinds that change the settings.
pub data Setting : Type 0 where
  with_credit_amount with_max_candidate_nodes : ℤ → Setting
  with_node_tags : List Str → Setting

pub apply : Setting → Client → Client
apply (with_credit_amount limit) c = record c {
  params = record { credit_amount = limit; node_tags = c.params.node_tags };
}
apply (with_max_candidate_nodes max_candidates) c = record c {
  max_candidate_nodes = max_candidates;
}
apply (with_node_tags tags) c = record c {
  params = record { credit_amount = c.params.credit_amount; node_tags = tags };
}

-- The loop over the options, none of which fails.
pub apply_all : List Setting → Client → Client
apply_all [] c = c
apply_all (s ∷ opts) c = apply_all opts (apply s c)

-- The default credit amount per request, before it is rounded.
pub default_credit_amount : List Model → Tags → ℤ → Result Error ℤ
default_credit_amount models default_tags credit_amount =
    if credit_amount === pos 0
    then (do
      checked ← check_model_tags models (get_values model_key default_tags)
      ok (max_of_models models))
    else ok credit_amount

abbrev pub max_of_config : List Model → Config → ℤ
max_of_config models cfg =
    if cfg.max_credit_amount_per_request === pos 0
    then max_of_models models
    else cfg.max_credit_amount_per_request

-- The checks of `NewFromConfig` once the options are applied.
pub check_settings : Config → Client → Result Error Client
check_settings cfg c =
    if ltb_ℤ c.max_candidate_nodes (pos 1)
    then err too_few_candidate_nodes
    else if length cfg.api_key == 0
    then err missing_api_key
    else (validate_credit_amount c.params.credit_amount c >>= λ valid. ok c)

-- `NewFromConfig`, from the default tags up to the services that it connects.
pub make_client : List Model → Config → List Setting → Result Error Client
make_client models cfg opts =
    let node_tags = cfg.default_request_params.node_tags in
    do
      default_tags ← wrap bad_tags (from_slice node_tags)
      chosen ← default_credit_amount models default_tags cfg.default_request_params.credit_amount
      credit_amount ← round_credit_amount chosen
      max_credit_amount ← round_credit_amount (max_of_config models cfg)
      check_settings cfg (
          apply_all opts (record {
            params = record { credit_amount = credit_amount; node_tags = node_tags };
            max_candidate_nodes = cfg.max_candidate_nodes;
            max_credit_amount_per_request = max_credit_amount;
          }))

pub new_from_config : List Model → Config → List Setting → Result Error Client
new_from_config models cfg opts =
    if length cfg.api_url == 0 then err missing_api_url else make_client models cfg opts

-- `Client.setDefaultCreditAmountPerRequestUnsafe`, on what `SetDefaultCreditAmount` of the wallet returns.
pub set_default_credit_amount :
    (wallet_error : Option ℕ) → ℤ → Client → Result Error (Unit {0}) × Client
set_default_credit_amount wallet_error limit c = elim (validate_credit_amount limit c) [
  | err e ↦ (err e, c)
  | ok valid ↦ elim wallet_error [
    | some e ↦ (err (wallet_refuses e), c)
    | none ↦ (
      ok tt,
      record c { params = record { credit_amount = limit; node_tags = c.params.node_tags } },
    )
  ]
]

-- `Client.setDefaultNodeTagsUnsafe`, which stores the tags before it checks them.
pub set_default_node_tags : List Model → List Str → Client → Result Error (Unit {0}) × Client
set_default_node_tags models tagslist c = (
  do
    new_tags ← wrap bad_tags (from_slice tagslist)
    check_model_tags models (get_values model_key new_tags),
  record c { params = record { credit_amount = c.params.credit_amount; node_tags = tagslist } },
)

-- The tags that `SetDefaultModel` sets.
pub tags_with_model : Str → List Str → Result Error (List Str)
tags_with_model model node_tags = do
  req_tags ← wrap bad_tags (from_slice node_tags)
  with_model ← wrap bad_tags (add_tag_pair model_key model (remove_key model_key req_tags).1)
  ok (to_slice with_model)

-- `Client.SetDefaultModel`
pub set_default_model : List Model → Str → Client → Result Error (Unit {0}) × Client
set_default_model models model c = elim (tags_with_model model c.params.node_tags) [
  | err e ↦ (err e, c)
  | ok tags_slice ↦ set_default_node_tags models tags_slice c
]
