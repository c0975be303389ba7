-- ===== src/Nonce.antt =====
-- anonpay/nonce.go: timestamped nonces. A time is a count of seconds since 1970, an integer; the
-- random factor of `SafeNonceTimestamp` is a fraction `r / s` (its float64 rounding is not modelled).
pub mod Expiry
pub mod Message
mod Tests
use openpcc.Base.{
  ℕ, suc, ◌+◌, ◌-◌, ◌*◌, ◌/◌, ◌%◌, ◌^◌, ◌≡◌, Bool, true, false, Option, none, some, List, [], ◌∷◌,
  ◌++◌, ltb, ◌==◌, not, ◌||◌, if◌then◌else◌, length, Result, ok, err,
}
use openpcc.Base.Int.{ℤ, pos, negsuc, pos_part, sub_ℕ, ◌+ℤ◌, ◌-ℤ◌, ltb_ℤ}

abbrev pub time_quantization_seconds : ℕ
time_quantization_seconds = 60 * 60

abbrev pub nonce_len : ℕ
nonce_len = 16

abbrev pub minimum_safe_time_seconds : ℕ
minimum_safe_time_seconds = 30

abbrev pub lifespan_seconds : ℕ
lifespan_seconds = 60 * 60 * 24 + 2 * time_quantization_seconds

abbrev pub max_clock_skew_seconds : ℕ
max_clock_skew_seconds = 30

pub record Nonce : Type 0 where
  pub timestamp : ℤ
  pub nonce : List ℕ
  pub unsafe_increment : Bool

pub data Error : Type 0 where
  nil_protobuf incomplete_protobuf incorrect_length : Error

-- `RoundDownNonceTimestamp`: Go's division truncates towards zero.
unfoldable pub round_down_nonce_timestamp : ℤ → ℤ
round_down_nonce_timestamp (pos n) = pos (n / time_quantization_seconds * time_quantization_seconds)
round_down_nonce_timestamp (negsuc n) =
    sub_ℕ 0 (suc n / time_quantization_seconds * time_quantization_seconds)

-- `Nonce.IsExpiredAt`
unfoldable pub is_expired_at : Nonce → ℤ → Bool
is_expired_at n timestamp =
    let min_time = timestamp -ℤ pos max_clock_skew_seconds in
    let max_time = timestamp +ℤ pos (lifespan_seconds + max_clock_skew_seconds) in
    if ltb_ℤ n.timestamp (round_down_nonce_timestamp min_time)
    then true
    else ltb_ℤ (round_down_nonce_timestamp max_time) n.timestamp

-- `SafeNonceTimestamp`, with `factor < randomFactor` multiplied out.
pub safe_nonce_timestamp : ℤ → (r s : ℕ) → ℤ × Bool
safe_nonce_timestamp timestamp r s =
    let rounded = round_down_nonce_timestamp timestamp in
    let non_quantized_seconds = timestamp -ℤ rounded in
    let left = pos_part (pos time_quantization_seconds -ℤ non_quantized_seconds) in
    if ltb (left * s) (r * time_quantization_seconds)
    then (
      rounded +ℤ pos time_quantization_seconds,
      ltb_ℤ non_quantized_seconds (pos minimum_safe_time_seconds),
    )
    else (rounded, false)

-- `RandomNonce`, at the clock's time, the random factor and the random bytes.
pub random_nonce : ℤ → (r s : ℕ) → List ℕ → Nonce
random_nonce now r s random =
    let (timestamp, unsafe) = safe_nonce_timestamp now r s in
    record { timestamp = timestamp; nonce = random; unsafe_increment = unsafe }

-- The bit pattern of an int64.
pub uint64_of : ℤ → ℕ
uint64_of (pos n) = n % 2 ^ 64
uint64_of (negsuc n) = 2 ^ 64 - 1 - n % 2 ^ 64

-- `binary.Append` with `binary.BigEndian`
pub big_endian : ℕ → List ℕ
big_endian x =
    x / 2 ^ 56 % 256
    ∷ x / 2 ^ 48 % 256
    ∷ x / 2 ^ 40 % 256
    ∷ x / 2 ^ 32 % 256
    ∷ x / 2 ^ 24 % 256
    ∷ x / 2 ^ 16 % 256
    ∷ x / 2 ^ 8 % 256
    ∷ x % 256
    ∷ []

-- `Nonce.BlindBytes`
pub blind_bytes : Nonce → List ℕ
blind_bytes n = big_endian (uint64_of n.timestamp) ++ n.nonce

-- `protos.Nonce`: both fields may be missing.
pub record NonceProto : Type 0 where
  pub timestamp : Option ℤ
  pub nonce : Option (List ℕ)

-- `Nonce.UnmarshalProto`; a nil message is `none`. The receiver's `UnsafeIncrement` stays.
pub unmarshal_proto : Nonce → Option NonceProto → Result Error Nonce
unmarshal_proto n none = err nil_protobuf
unmarshal_proto n (some pbn) = elim (pbn.nonce) [
  | none ↦ err incomplete_protobuf
  | some b ↦ elim (pbn.timestamp) [
    | none ↦ err incomplete_protobuf
    | some t ↦
        if not (length b == nonce_len)
        then err incorrect_length
        else ok (record n { nonce = b; timestamp = t })
  ]
]

pub marshal_proto : Nonce → NonceProto
marshal_proto n = record { timestamp = some n.timestamp; nonce = some n.nonce }
