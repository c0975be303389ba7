-- ===== src/Badge.antt =====
-- auth/credentialing: the credentials of a user, which are written as a list of strings with their lengths, and
-- the badge that carries them with a signature. Base64 and the protobuf encoding are parameters.
pub mod Strings
pub mod Text
mod Tests
use openpcc.Base.{
  ℕ, suc, zero, ◌+◌, ◌-◌, ◌*◌, ◌/◌, ◌%◌, ◌^◌, ◌≡◌, Bool, true, false, not, ◌&&◌, ◌==◌, ltb, leb,
  Option, none, some, List, [], ◌∷◌, ◌++◌, length, take, drop, Result, ok, err, ◌>>=◌,
  if◌then◌else◌,
}
use openpcc.Base.Strings.{sort_strings, are_sorted}

abbrev pub Str : Type 0
Str = List ℕ

pub data Error : Type 0 where
  not_ascii empty_string over_max_length no_prefix zero_length too_few_bytes not_sorted : Error
  out_of_fuel not_base64 not_protobuf : Error

-- `isValidASCII`
pub is_valid_ascii : Str → Bool
is_valid_ascii [] = true
is_valid_ascii (c ∷ cs) = leb 32 c && ltb c 127 && is_valid_ascii cs

-- `binary.LittleEndian`, of a uint32
pub little_endian : ℕ → List ℕ
little_endian n =
    (n % 2 ^ 8) ∷ (n / 2 ^ 8 % 2 ^ 8) ∷ (n / 2 ^ 16 % 2 ^ 8) ∷ (n / 2 ^ 24 % 2 ^ 8) ∷ []

-- `encodeString`: what it writes.
pub encode_string : Str → Result Error (List ℕ)
encode_string str =
    if not (is_valid_ascii str)
    then err not_ascii
    else if length str == 0
    then err empty_string
    else if ltb (2 ^ 32 - 1) (length str)
    then err over_max_length
    else ok (little_endian (length str) ++ str)

-- The loop of `encodeStrings`.
pub encode_loop : List Str → Result Error (List ℕ)
encode_loop [] = ok []
encode_loop (str ∷ strs) = do
  written ← encode_string str
  rest ← encode_loop strs
  ok (written ++ rest)

-- `encodeStrings`
pub encode_strings : List Str → Result Error (List ℕ)
encode_strings strs = encode_loop (sort_strings strs)

-- A string of `str_len` bytes, and the rest of the buffer.
pub read_string : (str_len : ℕ) → List ℕ → Result Error (Str × List ℕ)
read_string str_len buf =
    if str_len == 0
    then err zero_length
    else if ltb (length buf) str_len
    then err too_few_bytes
    else if not (is_valid_ascii (take str_len buf))
    then err not_ascii
    else ok (take str_len buf, drop str_len buf)

-- `decodeString`
pub decode_string : List ℕ → Result Error (Str × List ℕ)
decode_string (a ∷ b ∷ c ∷ d ∷ buf) = read_string (a + 2 ^ 8 * b + 2 ^ 16 * c + 2 ^ 24 * d) buf
decode_string [] = err no_prefix
decode_string (a ∷ []) = err no_prefix
decode_string (a ∷ b ∷ []) = err no_prefix
decode_string (a ∷ b ∷ c ∷ []) = err no_prefix

-- The loop of `decodeStrings`, on fuel.
pub decode_loop : ℕ → List ℕ → Result Error (List Str)
decode_loop fuel [] = ok []
decode_loop zero (b ∷ bs) = err out_of_fuel
decode_loop (suc fuel) (b ∷ bs) = elim (decode_string (b ∷ bs)) [
  | err e ↦ err e
  | ok (str, rest) ↦ elim (decode_loop fuel rest) [ err e ↦ err e | ok strs ↦ ok (str ∷ strs) ]
]

pub check_sorted : List Str → Result Error (List Str)
check_sorted strs = if not (are_sorted strs) then err not_sorted else ok strs

-- `decodeStrings`: each string takes a byte of the buffer at least.
pub decode_strings : List ℕ → Result Error (List Str)
decode_strings str_list = decode_loop (length str_list) str_list >>= check_sorted

pub record Credentials : Type 0 where
  pub models : List Str

pub record Badge : Type 0 where
  pub credentials : Credentials
  pub signature : List ℕ

-- `protos.Badge`, with the bytes of its credentials
pub record BadgeProto : Type 0 where
  pub models : List ℕ
  pub signature : List ℕ

-- `Badge.MarshalProto`, with `Credentials.MarshalProto`
pub marshal_proto : Badge → Result Error BadgeProto
marshal_proto b = do
  models_bytearray ← encode_strings b.credentials.models
  ok (record { models = models_bytearray; signature = b.signature })

-- `Badge.UnmarshalProto`, with `Credentials.UnmarshalProto`
pub unmarshal_proto : BadgeProto → Result Error Badge
unmarshal_proto badge = do
  models ← decode_strings badge.models
  ok (record { credentials = record { models = models }; signature = badge.signature })

-- The encodings of the other packages, which read what they wrote.
pub record Encoding : Type 0 where
  pub to_bytes : BadgeProto → List ℕ
  pub of_bytes : List ℕ → Option BadgeProto
  pub to_base64 : List ℕ → Str
  pub of_base64 : Str → Option (List ℕ)
  pub of_bytes-to_bytes : (b : BadgeProto) → of_bytes (to_bytes b) ≡ some b
  pub of_base64-to_base64 : (bytes : List ℕ) → of_base64 (to_base64 bytes) ≡ some bytes

module _ (enc : Encoding) where
  -- `Badge.Serialize`, with `MarshalText`
  pub serialize : Badge → Result Error Str
  serialize b = do badge_proto ← marshal_proto b; ok (enc.to_base64 (enc.to_bytes badge_proto))

  -- `Badge.UnmarshalText`
  pub unmarshal_text : List ℕ → Result Error Badge
  unmarshal_text text = elim (enc.of_bytes text) [
    | none ↦ err not_protobuf
    | some badge_proto ↦ unmarshal_proto badge_proto
  ]

  -- `Badge.Deserialize`
  pub deserialize : Str → Result Error Badge
  deserialize serialized_badge = elim (enc.of_base64 serialized_badge) [
    | none ↦ err not_base64
    | some badge_bytes ↦ unmarshal_text badge_bytes
  ]
