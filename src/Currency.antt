-- ===== src/Currency.antt =====
-- anonpay/currency/value.go: amounts of credit as nine-bit floating point values.
-- A `Value` is a shift flag and a uint16. Amounts that Go holds in an int64 or a uint64 are
-- numbers; where the source shifts left into an int64 the wrap-around is written out.
-- The argument of `Rounded`, a float64, is a fraction `num / den`, and its rounding factor a
-- fraction `r / s`: the rounding of float64 arithmetic itself is not modelled.
mod Bits
pub mod Exact
pub mod Inverse
pub mod Rounding
pub mod Wire
mod Tests
use openpcc.Base.{
  ℕ, ◌≡◌, zero, suc, ◌+◌, ◌-◌, ◌*◌, ◌/◌, ◌%◌, ◌^◌, bit_and, bit_or, Bool, true, false, Option, none,
  some, List, [], ◌∷◌, ltb, leb, ◌==◌, if◌then◌else◌, ◌||◌, not, ◌&&◌, Result, ok, err, is_ok,
}
use openpcc.Base.Int.{ℤ, pos, negsuc}
use openpcc.Base.Words.{int64_of, len64, trailing_zeros64}

pub record Value : Type 0 where
  pub shift : Bool
  pub value : ℕ

pub data Error : Type 0 where
  negative_unrepresentable overflow no_exact_representation not_an_amount : Error
  too_short too_many_bits_set negative_bits_needed missing_currency bad_encoding : Error

-- `MaxAmount`
abbrev pub max_amount : ℕ
max_amount = 31 * 2 ^ 30

abbrev pub zero_value : Value
zero_value = record { shift = false; value = 0 }

-- `createExactUnsafe`: bit lengths are ints, and no difference of them is negative where it is used.
unfoldable pub create_exact_unsafe : ℕ → Result Error Value
create_exact_unsafe amount =
    let bits_needed = len64 amount in
    let zeros = trailing_zeros64 amount in
    let mantissa = bit_and (amount / 2 ^ (bits_needed - 5)) 0xF in
    let biased_exponent = bits_needed - 4 in
    let value = bit_or (biased_exponent * 2 ^ 4) mantissa in
    if ltb amount 16
    then ok (record { shift = false; value = amount % 2 ^ 16 })
    else if ltb 5 (bits_needed - zeros)
    then err no_exact_representation
    else if ltb bits_needed 4
    then err negative_bits_needed
    else if ltb 31 biased_exponent
    then err overflow
    else ok (record { shift = false; value = value % 2 ^ 16 })

-- `Exact`
unfoldable pub exact : ℤ → Result Error Value
exact (negsuc n) = err negative_unrepresentable
exact (pos amount) = if ltb max_amount amount then err overflow else create_exact_unsafe amount

pub can_represent : ℤ → Bool
can_represent signed_amount = is_ok (exact signed_amount)

-- `MustSpecial`; `none` is its panic.
pub must_special : ℤ → Option Value
must_special signed_amount = elim (exact signed_amount) [
  | ok c ↦ some (record c { shift = true })
  | err e ↦ none
]

-- The last part of `Rounded`: `roundingFactor > lowerProbability`, multiplied out.
unfoldable pub choose_bound : (num den r s lower upper : ℕ) → Result Error Value
choose_bound num den r s lower upper =
    if ltb (s * (upper * den - num)) (r * ((upper - lower) * den))
    then create_exact_unsafe upper
    else create_exact_unsafe lower

-- The branch of `Rounded` for bounds above 32.
unfoldable pub rounded_wide : (num den r s amount : ℕ) → Bool → Result Error Value
rounded_wide num den r s amount is_integer =
    let bits_needed = len64 amount in
    let shift_to_clear = bits_needed - 5 in
    let truncated_amount = amount / 2 ^ shift_to_clear in
    let lower = truncated_amount * 2 ^ shift_to_clear in
    let upper = (truncated_amount + 1) * 2 ^ shift_to_clear in
    if ltb bits_needed 5
    then err negative_bits_needed
    else if is_integer && lower == amount
    then create_exact_unsafe amount
    else choose_bound num den r s lower upper

-- `Rounded` at `num / den`, with the rounding factor `r / s`; `den` and `s` are not zero.
unfoldable pub rounded : (num : ℤ) (den r s : ℕ) → Result Error Value
rounded (negsuc n) den r s = err negative_unrepresentable
rounded (pos num) den r s =
    let lower_bound = num / den in
    let upper_bound = (num + (den - 1)) / den in
    let is_integer = lower_bound == upper_bound in
    if ltb max_amount upper_bound
    then err overflow
    else if leb upper_bound 32
    then if is_integer
      then create_exact_unsafe upper_bound
      else choose_bound num den r s lower_bound upper_bound
    else rounded_wide num den r s lower_bound is_integer

pub non_zero : Value → Bool
non_zero c = not (c.value == 0) || c.shift

-- `ParseCurrencyFromBlindBytes`
pub parse_currency_from_blind_bytes : List ℕ → Result Error Value
parse_currency_from_blind_bytes [] = err too_short
parse_currency_from_blind_bytes (b0 ∷ []) = err too_short
parse_currency_from_blind_bytes (b0 ∷ b1 ∷ rest) =
    if ltb 3 b0
    then err too_many_bits_set
    else ok (record { shift = b0 == 1; value = if bit_and b0 2 == 2 then bit_or b1 0x100 else b1 })

-- `Value.Amount`: the shifted mantissa wraps in an int64.
unfoldable pub amount : Value → Result Error ℤ
amount c =
    let biased_exponent = c.value / 2 ^ 4 in
    let mantissa = bit_or (bit_and c.value 0xF) 0x10 in
    if c.shift
    then err not_an_amount
    else if biased_exponent == 0
    then ok (pos c.value)
    else ok (int64_of (mantissa * 2 ^ (biased_exponent - 1)))

unfoldable pub amount_or_zero : Value → ℤ
amount_or_zero c = elim (amount c) [ ok a ↦ a | err e ↦ pos 0 ]

-- `Value.BlindBytes`
pub blind_bytes : Value → List ℕ
blind_bytes c =
    let top_bit = bit_and c.value 0x100 / 2 ^ 8 % 2 ^ 8 in
    let shift_bit = if c.shift then 1 else 0 in
    bit_or (top_bit * 2 ^ 1 % 2 ^ 8) shift_bit ∷ bit_and c.value 0xFF ∷ []

-- `protos.Currency`, of gen/protos/currency.pb.go: one optional field of bytes.
pub record CurrencyProto : Type 0 where
  pub currency : Option (List ℕ)

pub marshal_proto : Value → CurrencyProto
marshal_proto c = record { currency = some (blind_bytes c) }

pub unmarshal_proto : CurrencyProto → Result Error Value
unmarshal_proto pbc = elim (pbc.currency) [
  | none ↦ err missing_currency
  | some b ↦ parse_currency_from_blind_bytes b
]

-- What the third-party encoders promise: `decode` reads back what `encode` wrote.
pub record Encoder (M : Type 0) : Type 0 where
  pub encode : M → List ℕ
  pub decode : List ℕ → Option M
  pub decode-encode : (m : M) → decode (encode m) ≡ some m

-- `proto.Marshal` on a `protos.Currency`, and base64's `StdEncoding`.
module _ (proto : Encoder CurrencyProto) (base64 : Encoder (List ℕ)) where
  pub marshal_binary : Value → List ℕ
  marshal_binary c = proto.encode (marshal_proto c)

  pub unmarshal_binary : List ℕ → Result Error Value
  unmarshal_binary b = elim (proto.decode b) [
    | none ↦ err bad_encoding
    | some pbc ↦ unmarshal_proto pbc
  ]

  pub marshal_text : Value → List ℕ
  marshal_text c = base64.encode (marshal_binary c)

  pub unmarshal_text : List ℕ → Result Error Value
  unmarshal_text p = elim (base64.decode p) [
    | none ↦ err bad_encoding
    | some b ↦ unmarshal_binary b
  ]
