-- ===== src/Badge/Tests.antt =====
-- A badge for two models, over toy encodings.
use openpcc.Base.{ℕ, ◌≡◌, refl, Option, none, some, List, [], ◌∷◌, ◌++◌, length, take, drop, ok}
use openpcc.Base.Strings.{sort_strings, insert_sorted, str_less}
use openpcc.Badge.{
  Badge, BadgeProto, Encoding, serialize, deserialize, marshal_proto, encode_strings, encode_loop,
  encode_string, is_valid_ascii, little_endian,
}
use openpcc.Badge.Strings.{take-append, drop-append}
use openpcc.Badge.Text.{deserialize-serialize}

abbrev to_bytes : BadgeProto → List ℕ
to_bytes b = length b.models ∷ b.models ++ b.signature

abbrev of_bytes : List ℕ → Option BadgeProto
of_bytes [] = none
of_bytes (n ∷ bytes) = some (record { models = take n bytes; signature = drop n bytes })

of_bytes-to_bytes : (b : BadgeProto) → of_bytes (to_bytes b) ≡ some b
of_bytes-to_bytes b = rw (take-append b.models b.signature, drop-append b.models b.signature) refl

abbrev toy : Encoding
toy = record {
  to_bytes = to_bytes;
  of_bytes = of_bytes;
  to_base64 = λ bytes. bytes;
  of_base64 = λ s. some s;
  of_bytes-to_bytes = of_bytes-to_bytes;
  of_base64-to_base64 = λ bytes. refl;
}

-- The models b and a.
abbrev badge : Badge
badge = record {
  credentials = record { models = (b'b' ∷ []) ∷ (b'a' ∷ []) ∷ [] };
  signature = 5 ∷ [];
}

abbrev header : List ℕ
header = 10 ∷ 1 ∷ 0 ∷ 0 ∷ 0 ∷ b'a' ∷ 1 ∷ 0 ∷ 0 ∷ 0 ∷ b'b' ∷ 5 ∷ []

serialized : serialize toy badge ≡ ok header
unfolding serialize marshal_proto encode_strings encode_loop encode_string is_valid_ascii
    little_endian sort_strings insert_sorted str_less
serialized = refl

deserialize-serialize_example :
    deserialize toy header
    ≡ ok (record {
      credentials = record { models = sort_strings badge.credentials.models };
      signature = badge.signature;
    })
deserialize-serialize_example = deserialize-serialize toy badge header serialized
