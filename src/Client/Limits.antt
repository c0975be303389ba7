-- ===== src/Client/Limits.antt =====
-- The limits on the credit amounts of a client, of its defaults as of its requests.
use mathlib.Core.Path.{subst, subst⁻¹}
use openpcc.Base.{
  sym, ap, ◌==◌, length, bind-ok, ℕ, true, ◌≡◌, refl, ◌∙◌, ◌&&◌, ◌||◌, not, Option, none, some,
  List, [], ◌∷◌, Result, ok, inl, inr, arith, Bool-cases, Result-cases,
}
use openpcc.Base.Int.{ℤ, pos, ◌≤ℤ◌}
use openpcc.Models.{Model}
use openpcc.Tags.{Str, Tags, from_slice, contains_key}
use openpcc.Client.{
  Client, RequestParams, Error, Config, Setting, model_key, wrap, apply_all, check_settings,
  validate_credit_amount, new_from_config, make_client, set_default_credit_amount,
  set_default_node_tags, set_default_model, tags_with_model, round_credit_amount,
  default_credit_amount, max_of_config, bad_tags, with_credit_amount, with_max_candidate_nodes,
  with_node_tags, apply,
}
use openpcc.Client.Params.{Headers, params_for_request, check_model_tag, is_among, prompt_paths}

abbrev pub InLimit : ℤ → Client → Type 0
InLimit amount c = (pos 1 ≤ℤ amount) × (amount ≤ℤ c.max_credit_amount_per_request)

-- The calls that change the defaults of a client.
pub data Change : Type 0 where
  set_amount : (wallet_error : Option ℕ) → ℤ → Change
  set_tags : List Str → Change
  set_model : Str → Change

abbrev pub change : List Model → Change → Client → Client
change models (set_amount wallet_error limit) c = (set_default_credit_amount wallet_error limit c).1
change models (set_tags tagslist) c = (set_default_node_tags models tagslist c).1
change models (set_model model) c = (set_default_model models model c).1

abbrev pub changes : List Model → List Change → Client → Client
changes models [] c = c
changes models (h ∷ hs) c = changes models hs (change models h c)

validate-InLimit :
    (limit : ℤ) (c : Client) → validate_credit_amount limit c ≡ ok tt → InLimit limit c
unfolding validate_credit_amount
validate-InLimit limit c valid = ground (arith, valid)

check_settings-ok :
    (cfg : Config) (c c' : Client)
    → check_settings cfg c ≡ ok c'
    → (validate_credit_amount c.params.credit_amount c ≡ ok tt) × (c ≡ c')
unfolding check_settings
check_settings-ok cfg c c' checked =
    elim (Result-cases (validate_credit_amount c.params.credit_amount c)) [
      | inl (u, h) ↦ (h, ground (arith, h, checked))
      | inr (e, h) ↦ absurd (ground (arith, h, checked))
    ]

apply_all-max :
    (opts : List Setting) (c : Client)
    → (apply_all opts c).max_credit_amount_per_request ≡ c.max_credit_amount_per_request
unfolding apply_all apply
apply_all-max [] c = refl
apply_all-max (with_credit_amount limit ∷ opts) c = apply_all-max opts _
apply_all-max (with_max_candidate_nodes n ∷ opts) c = apply_all-max opts _
apply_all-max (with_node_tags tags ∷ opts) c = apply_all-max opts _

make_client-InLimit :
    (models : List Model) (cfg : Config) (opts : List Setting) (c : Client)
    → make_client models cfg opts ≡ ok c
    → InLimit c.params.credit_amount c
      × (round_credit_amount (max_of_config models cfg) ≡ ok c.max_credit_amount_per_request)
unfolding make_client
make_client-InLimit models cfg opts c made =
    let given = cfg.default_request_params in
    let (t, h, made₁) = bind-ok (wrap bad_tags (from_slice given.node_tags)) _ c made in
    let (chosen, h₁, made₂) =
      bind-ok (default_credit_amount models t given.credit_amount) _ c made₁ in
    let (credit_amount, h₂, made₃) = bind-ok (round_credit_amount chosen) _ c made₂ in
    let (max_amount, h₃, made₄) =
      bind-ok (round_credit_amount (max_of_config models cfg)) _ c made₃ in
    let start : Client = record {
      params = record { credit_amount = credit_amount; node_tags = given.node_tags };
      max_candidate_nodes = cfg.max_candidate_nodes;
      max_credit_amount_per_request = max_amount;
    } in
    let (valid, same) = check_settings-ok cfg (apply_all opts start) c made₄ in
    let within = validate-InLimit _ (apply_all opts start) valid in
    (
      subst (λ c'. InLimit c'.params.credit_amount c') same within,
      h₃
          ∙ ap ok
              (sym (apply_all-max opts start) ∙ ap (λ c'. c'.max_credit_amount_per_request) same),
    )

new_from_config-InLimit :
    (models : List Model) (cfg : Config) (opts : List Setting) (c : Client)
    → new_from_config models cfg opts ≡ ok c
    → InLimit c.params.credit_amount c
      × (round_credit_amount (max_of_config models cfg) ≡ ok c.max_credit_amount_per_request)
unfolding new_from_config
new_from_config-InLimit models cfg opts c made = elim (Bool-cases (length cfg.api_url == 0)) [
  | inl h ↦ absurd (ground (arith, h, made))
  | inr h ↦ make_client-InLimit models cfg opts c (ground (arith, h, made))
]

abbrev Kept : Client → Client → Type 0
Kept c c' =
    InLimit c'.params.credit_amount c'
    × (c'.max_credit_amount_per_request ≡ c.max_credit_amount_per_request)

change-Kept :
    (models : List Model) (h : Change) (c : Client)
    → InLimit c.params.credit_amount c
    → Kept c (change models h c)
unfolding set_default_credit_amount set_default_model set_default_node_tags
change-Kept models (set_amount none limit) c within =
    elim (Result-cases (validate_credit_amount limit c)) [
      | inr (e, h) ↦ rw (change, set_default_credit_amount, h) (within, refl)
      | inl (u, h) ↦
          let set : change models (set_amount none limit) c ≡ record c {
            params = record { credit_amount = limit; node_tags = c.params.node_tags };
          } =
            rw (change, set_default_credit_amount, h) refl in
          subst⁻¹ (Kept c) set (validate-InLimit limit c h, refl)
    ]
change-Kept models (set_amount (some e) limit) c within =
    elim (Result-cases (validate_credit_amount limit c)) [
      | inr (e', h) ↦ rw (change, set_default_credit_amount, h) (within, refl)
      | inl (u, h) ↦ rw (change, set_default_credit_amount, h) (within, refl)
    ]
change-Kept models (set_tags tagslist) c within = (within, refl)
change-Kept models (set_model model) c within =
    elim (Result-cases (tags_with_model model c.params.node_tags)) [
      | inr (e, h) ↦ rw (change, set_default_model, h) (within, refl)
      | inl (ts, h) ↦ rw (change, set_default_model, h) (within, refl)
    ]

changes-Kept :
    (models : List Model) (hs : List Change) (c : Client)
    → InLimit c.params.credit_amount c
    → Kept c (changes models hs c)
changes-Kept models [] c within = (within, refl)
changes-Kept models (h ∷ hs) c within =
    let (within', same) = change-Kept models h c within in
    let (within'', same') = changes-Kept models hs (change models h c) within' in
    (within'', same' ∙ same)

-- A tag list with the model tag that a path asks for.
abbrev pub HasModel : Str → List Str → Type 0
HasModel path node_tags =
    (t : Tags) × (wrap bad_tags (from_slice node_tags) ≡ ok t)
    × (not (is_among path prompt_paths) || contains_key model_key t ≡ true)

check_model_tag-HasModel :
    (path : Str) (p p' : RequestParams)
    → check_model_tag path p ≡ ok p'
    → (p ≡ p') × HasModel path p.node_tags
unfolding check_model_tag
check_model_tag-HasModel path p p' checked =
    let (t, h, checked') = bind-ok (wrap bad_tags (from_slice p.node_tags)) _ p' checked in
    let asks = is_among path prompt_paths && not (contains_key model_key t) in
    elim (Bool-cases asks) [
      | inl missing ↦ absurd (ground (arith, missing, checked'))
      | inr fine ↦ (ground (arith, fine, checked'), (t, h, ground (arith, fine)))
    ]

-- A client that is made from a configuration, with any options and after any changes of its defaults,
-- succeeded or not, has a default credit amount of one or more and within the client's maximum, and so has
-- each request whose parameters it accepts, whatever the function reads from the headers. The
-- client's maximum is what `RoundCreditAmount` returns for the configured one, not the configured
-- one itself. Such a request has a model tag if its path is one of a prompt.
pub params_for_request-InLimit :
    (models : List Model) (cfg : Config) (opts : List Setting) (c : Client) (hs : List Change)
    (f : Headers → RequestParams → Result Error RequestParams) (path : Str) (h : Headers)
    (p : RequestParams)
    → new_from_config models cfg opts ≡ ok c
    → params_for_request f path h (changes models hs c) ≡ ok p
    → let c' = changes models hs c in
      InLimit c'.params.credit_amount c'
      × InLimit p.credit_amount c'
      × (round_credit_amount (max_of_config models cfg) ≡ ok c'.max_credit_amount_per_request)
      × HasModel path p.node_tags
unfolding params_for_request
params_for_request-InLimit models cfg opts c hs f path h p made accepted =
    let (within, max) = new_from_config-InLimit models cfg opts c made in
    let (within', same) = changes-Kept models hs c within in
    let c' = changes models hs c in
    let (new_params, h₁, accepted₁) = bind-ok (f h c'.params) _ p accepted in
    let (u, valid, accepted₂) =
      bind-ok (validate_credit_amount new_params.credit_amount c') _ p accepted₁ in
    let (eq, model) = check_model_tag-HasModel path new_params p accepted₂ in
    (
      within',
      subst (λ q. InLimit q.credit_amount c') eq (validate-InLimit _ c' valid),
      max ∙ ap ok (sym same),
      subst (λ q. HasModel path q.node_tags) eq model,
    )
