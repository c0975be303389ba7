-- ===== src/Client/Params.antt =====
-- request_params.go, and `paramsForRequest` of client.go: the parameters that the headers of a request ask
-- for, and the checks on them. Go's `strconv.ParseInt` is written out for base 10 and 64 bits.
use openpcc.Base.{
  ℕ, Bool, false, ◌+◌, ◌-◌, ◌*◌, ◌^◌, ◌&&◌, ◌||◌, not, leb, Option, none, some, List, [], ◌∷◌,
  length, Result, ok, err, ◌>>=◌, if◌then◌else◌, ◌==◌,
}
use openpcc.Base.Int.{ℤ, pos, negsuc}
use openpcc.Base.Dict.{Dict, lookup, list_eq, ◌===◌}
use openpcc.Cmdline.{trim_left, trim_right}
use openpcc.Tags.{Str, from_slice, contains_key}
use openpcc.Client.{
  Client, RequestParams, Error, no_model_tag, bad_tags, bad_credit_amount_header, model_key, wrap,
  validate_credit_amount,
}

-- X-Confsec-Credit-Amount
abbrev pub credit_amount_header : Str
credit_amount_header =
    b'X' ∷ b'-' ∷ b'C' ∷ b'o' ∷ b'n' ∷ b'f' ∷ b's' ∷ b'e' ∷ b'c' ∷ b'-' ∷ b'C' ∷ b'r' ∷ b'e' ∷ b'd'
    ∷ b'i' ∷ b't' ∷ b'-' ∷ b'A' ∷ b'm' ∷ b'o' ∷ b'u' ∷ b'n' ∷ b't' ∷ []

-- X-Confsec-Node-Tags
abbrev pub node_tags_header : Str
node_tags_header =
    b'X' ∷ b'-' ∷ b'C' ∷ b'o' ∷ b'n' ∷ b'f' ∷ b's' ∷ b'e' ∷ b'c' ∷ b'-' ∷ b'N' ∷ b'o' ∷ b'd' ∷ b'e'
    ∷ b'-' ∷ b'T' ∷ b'a' ∷ b'g' ∷ b's' ∷ []

-- X-Confident-Security-Credit-Limit
abbrev pub deprecated_credit_limit_header : Str
deprecated_credit_limit_header =
    b'X' ∷ b'-' ∷ b'C' ∷ b'o' ∷ b'n' ∷ b'f' ∷ b'i' ∷ b'd' ∷ b'e' ∷ b'n' ∷ b't' ∷ b'-' ∷ b'S' ∷ b'e'
    ∷ b'c' ∷ b'u' ∷ b'r' ∷ b'i' ∷ b't' ∷ b'y' ∷ b'-' ∷ b'C' ∷ b'r' ∷ b'e' ∷ b'd' ∷ b'i' ∷ b't'
    ∷ b'-' ∷ b'L' ∷ b'i' ∷ b'm' ∷ b'i' ∷ b't' ∷ []

-- X-Confident-Security-Node-Tags
abbrev pub deprecated_node_tags_header : Str
deprecated_node_tags_header =
    b'X' ∷ b'-' ∷ b'C' ∷ b'o' ∷ b'n' ∷ b'f' ∷ b'i' ∷ b'd' ∷ b'e' ∷ b'n' ∷ b't' ∷ b'-' ∷ b'S' ∷ b'e'
    ∷ b'c' ∷ b'u' ∷ b'r' ∷ b'i' ∷ b't' ∷ b'y' ∷ b'-' ∷ b'N' ∷ b'o' ∷ b'd' ∷ b'e' ∷ b'-' ∷ b'T'
    ∷ b'a' ∷ b'g' ∷ b's' ∷ []

-- `strings.SplitSeq(s, ",")`
pub split_commas : Str → List Str
split_commas [] = [] ∷ []
split_commas (c ∷ cs) =
    let parts = split_commas cs in
    if c == b','
    then [] ∷ parts
    else elim parts [ [] ↦ (c ∷ []) ∷ [] | part ∷ rest ↦ (c ∷ part) ∷ rest ]

-- The loop over the tags of a header.
pub trimmed_tags : List Str → List Str
trimmed_tags [] = []
trimmed_tags (raw_tag ∷ raw_tags) =
    let trimmed = trim_right (trim_left raw_tag) in
    let rest = trimmed_tags raw_tags in if length trimmed == 0 then rest else trimmed ∷ rest

abbrev pub Headers : Type 0
Headers = Dict Str (List Str)

-- `Header.Values`
pub header_values : Str → Headers → List Str
header_values key h = elim (lookup key h) [ none ↦ [] | some values ↦ values ]

-- `Header.Get`
pub header_get : Str → Headers → Str
header_get key h = elim (header_values key h) [ [] ↦ [] | value ∷ values ↦ value ]

abbrev is_digit : ℕ → Bool
is_digit c = leb b'0' c && leb c b'9'

-- The digits of a number, after those that make up `n`.
pub parse_digits : Str → ℕ → Option ℕ
parse_digits [] n = some n
parse_digits (c ∷ cs) n =
    let rest = parse_digits cs (10 * n + (c - b'0')) in if is_digit c then rest else none

-- `strconv.ParseUint(s, 10, 64)`, but for its bound, which is above the one of `ParseInt`.
pub parse_uint : Str → Option ℕ
parse_uint [] = none
parse_uint (c ∷ cs) = parse_digits (c ∷ cs) 0

abbrev pub positive : Option ℕ → Option ℤ
positive none = none
positive (some n) = if leb (2 ^ 63) n then none else some (pos n)

abbrev pub negative : Option ℕ → Option ℤ
negative none = none
negative (some n) =
    if leb n (2 ^ 63) then (if n == 0 then some (pos 0) else some (negsuc (n - 1))) else none

-- `strconv.ParseInt(s, 10, 64)`
pub parse_int : Str → Option ℤ
parse_int [] = none
parse_int (c ∷ cs) =
    if c == b'-'
    then negative (parse_uint cs)
    else if c == b'+'
    then positive (parse_uint cs)
    else positive (parse_uint (c ∷ cs))

-- `header.Get` of a name, or else of its deprecated form.
abbrev pub get_or_deprecated : (key deprecated : Str) → Headers → Str
get_or_deprecated key deprecated h =
    let limit_val = header_get key h in
    if length limit_val == 0 then header_get deprecated h else limit_val

abbrev pub values_or_deprecated : (key deprecated : Str) → Headers → List Str
values_or_deprecated key deprecated h =
    let tags_vals = header_values key h in
    if length tags_vals == 0 then header_values deprecated h else tags_vals

-- The credit amount of the headers, or else the given one.
pub amount_from_headers : Headers → ℤ → Result Error ℤ
amount_from_headers h given =
    let limit_val = get_or_deprecated credit_amount_header deprecated_credit_limit_header h in
    if length limit_val == 0
    then ok given
    else elim (parse_int limit_val) [ none ↦ err bad_credit_amount_header | some limit ↦ ok limit ]

-- The node tags of the headers: those of the first value, or else the given ones.
pub tags_from_headers : Headers → List Str → List Str
tags_from_headers h given =
    elim (values_or_deprecated node_tags_header deprecated_node_tags_header h) [
      | [] ↦ given
      | value ∷ values ↦ trimmed_tags (split_commas value)
    ]

-- `RequestParamsFromConfSecHeaders`
pub request_params_from_headers : Headers → RequestParams → Result Error RequestParams
request_params_from_headers h p = do
  limit ← amount_from_headers h p.credit_amount
  ok (record { credit_amount = limit; node_tags = tags_from_headers h p.node_tags })

-- `GetPromptPaths`
abbrev pub prompt_paths : List Str
prompt_paths =
    (b'/' ∷ b'a' ∷ b'p' ∷ b'i' ∷ b'/' ∷ b'g' ∷ b'e' ∷ b'n' ∷ b'e' ∷ b'r' ∷ b'a' ∷ b't' ∷ b'e' ∷ [])
    ∷ (b'/' ∷ b'a' ∷ b'p' ∷ b'i' ∷ b'/' ∷ b'c' ∷ b'h' ∷ b'a' ∷ b't' ∷ [])
    ∷ (b'/' ∷ b'v' ∷ b'1' ∷ b'/' ∷ b'c' ∷ b'o' ∷ b'm' ∷ b'p' ∷ b'l' ∷ b'e' ∷ b't' ∷ b'i' ∷ b'o'
        ∷ b'n' ∷ b's' ∷ [])
    ∷ (b'/' ∷ b'v' ∷ b'1' ∷ b'/' ∷ b'c' ∷ b'h' ∷ b'a' ∷ b't' ∷ b'/' ∷ b'c' ∷ b'o' ∷ b'm' ∷ b'p'
        ∷ b'l' ∷ b'e' ∷ b't' ∷ b'i' ∷ b'o' ∷ b'n' ∷ b's' ∷ [])
    ∷ []

-- `slices.Contains(GetPromptPaths(), path)`
unfoldable pub is_among : Str → List Str → Bool
is_among path [] = false
is_among path (p ∷ paths) = (path === p) || is_among path paths

-- The last check of `Client.paramsForRequest`.
unfoldable pub check_model_tag : Str → RequestParams → Result Error RequestParams
check_model_tag path params = do
  request_tags ← wrap bad_tags (from_slice params.node_tags)
  if is_among path prompt_paths && not (contains_key model_key request_tags)
      then err no_model_tag
      else ok params

-- `Client.paramsForRequest`, of a client with a function that reads the parameters of a request.
unfoldable pub params_for_request :
    (Headers → RequestParams → Result Error RequestParams)
    → Str
    → Headers
    → Client
    → Result Error RequestParams
params_for_request request_params_func path h c = do
  new_params ← request_params_func h c.params
  valid ← validate_credit_amount new_params.credit_amount c
  check_model_tag path new_params
