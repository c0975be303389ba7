-- ===== src/Currency/Wire.antt =====
-- The two bytes of `BlindBytes` and `ParseCurrencyFromBlindBytes`, and the binary and text forms
-- that are built on them (value.go).
use openpcc.Base.{
  ℕ, ◌+◌, ◌*◌, ◌/◌, ◌%◌, ◌<◌, bit_and, bit_or, ◌≡◌, refl, ◌∙◌, true, false, ◌&&◌, inl, inr, ◌⊎◌,
  List, [], ◌∷◌, ltb, ◌==◌, if◌then◌else◌, ok, err, Bool-cases, ltb-false, arith,
}
use openpcc.Base.Bits.{table}
use openpcc.Currency.{
  Value, parse_currency_from_blind_bytes, blind_bytes, CurrencyProto, marshal_proto,
  unmarshal_proto, Encoder, marshal_binary, unmarshal_binary, marshal_text, unmarshal_text,
}
use openpcc.Currency.Error.{too_many_bits_set}
use openpcc.Currency.Bits.{agree}
use openpcc.Currency.Exact.{IsWellFormed}

top_bit : (v : ℕ) → v < 512 → bit_and v 0x100 / 256 % 256 ≡ v / 256
unfolding table
top_bit = agree (λ v. bit_and v 0x100 / 256 % 256) (λ v. v / 256) 512 refl

low_byte : (v : ℕ) → v < 512 → bit_and v 0xFF ≡ v % 256
unfolding table
low_byte = agree (λ v. bit_and v 0xFF) (λ v. v % 256) 512 refl

with_shift : (b : ℕ) → b < 2 → bit_or (b * 2 % 256) 1 ≡ b * 2 + 1
unfolding table
with_shift = agree (λ b. bit_or (b * 2 % 256) 1) (λ b. b * 2 + 1) 2 refl

without_shift : (b : ℕ) → b < 2 → bit_or (b * 2 % 256) 0 ≡ b * 2
unfolding table
without_shift = agree (λ b. bit_or (b * 2 % 256) 0) (λ b. b * 2) 2 refl

second_bit : (b : ℕ) → b < 4 → bit_and b 2 ≡ b / 2 * 2
unfolding table
second_bit = agree (λ b. bit_and b 2) (λ b. b / 2 * 2) 4 refl

ninth_bit : (b : ℕ) → b < 256 → bit_or b 0x100 ≡ b + 256
unfolding table
ninth_bit = agree (λ b. bit_or b 0x100) (λ b. b + 256) 256 refl

-- The first byte holds the ninth bit of the value and the shift bit, the second the other eight.
blind_bytes_lem :
    (c : Value)
    → IsWellFormed c
    → blind_bytes c ≡ (c.value / 256 * 2 + (if c.shift then 1 else 0)) ∷ c.value % 256 ∷ []
unfolding blind_bytes
blind_bytes_lem c wf =
    rw (top_bit c.value wf, low_byte c.value wf)
      (ground (arith, with_shift (c.value / 256), without_shift (c.value / 256)))

parse_lem :
    (b0 b1 : ℕ) (rest : List ℕ)
    → b0 < 4
    → b1 < 256
    → parse_currency_from_blind_bytes (b0 ∷ b1 ∷ rest)
      ≡ ok (record { shift = b0 == 1; value = b0 / 2 * 256 + b1 })
unfolding parse_currency_from_blind_bytes
parse_lem b0 b1 rest h0 h1 = ground (arith, second_bit b0 h0, ninth_bit b1 h1)

-- Parsing what `BlindBytes` wrote of a well-formed value gives the same value. The shift bit is
-- kept just where the value is below 256: with the ninth bit set it is lost.
pub parse-blind_bytes :
    (c : Value)
    → IsWellFormed c
    → parse_currency_from_blind_bytes (blind_bytes c)
      ≡ ok (record c { shift = c.shift && ltb c.value 256 })
parse-blind_bytes c wf =
    let first = c.value / 256 * 2 + (if c.shift then 1 else 0) in
    rw (blind_bytes_lem c wf, parse_lem first (c.value % 256) [] (ground arith) (omega arith))
      (ground arith)

pub unmarshal-marshal_value :
    (c : Value)
    → IsWellFormed c
    → unmarshal_proto (marshal_proto c) ≡ ok (record c { shift = c.shift && ltb c.value 256 })
unfolding unmarshal_proto marshal_proto
unmarshal-marshal_value c wf = parse-blind_bytes c wf

parse_high :
    (b0 b1 : ℕ) (rest : List ℕ)
    → ltb 3 b0 ≡ true
    → parse_currency_from_blind_bytes (b0 ∷ b1 ∷ rest) ≡ err too_many_bits_set
unfolding parse_currency_from_blind_bytes
parse_high b0 b1 rest h = rw h

-- Bytes that parse, give a well-formed value, whose own encoding is those two bytes, unless the
-- first is 3, which is read as 2.
pub blind_bytes-parse :
    (b0 b1 : ℕ) (rest : List ℕ) (c : Value)
    → b0 < 256
    → b1 < 256
    → parse_currency_from_blind_bytes (b0 ∷ b1 ∷ rest) ≡ ok c
    → IsWellFormed c × (blind_bytes c ≡ (if b0 == 3 then 2 else b0) ∷ b1 ∷ [])
blind_bytes-parse b0 b1 rest c h0 h1 parsed = elim (Bool-cases (ltb 3 b0)) [
  | inl high ↦ cc (parse_high b0 b1 rest high, parsed)
  | inr small ↦
      let h = ltb-false _ _ small in
      let v = b0 / 2 * 256 + b1 in
      let read : c ≡ record { shift = b0 == 1; value = v } =
        cc (parse_lem b0 b1 rest (omega arith) h1, parsed) in
      rw read (
        omega arith,
        rw (blind_bytes_lem (record { shift = b0 == 1; value = v }) (omega arith)) (ground arith),
      )
]

kept_lem :
    (c : Value)
    → IsWellFormed c
    → (c.shift ≡ false) ⊎ (c.value < 256)
    → parse_currency_from_blind_bytes (blind_bytes c) ≡ ok c
kept_lem c wf (inl plain) = rw (parse-blind_bytes c wf) (ground arith)
kept_lem c wf (inr low) = rw (parse-blind_bytes c wf) (ground arith)

module _ (proto : Encoder CurrencyProto) (base64 : Encoder (List ℕ)) where
  unmarshal_binary_lem :
      (c : Value)
      → unmarshal_binary proto base64 (marshal_binary proto base64 c)
        ≡ parse_currency_from_blind_bytes (blind_bytes c)
  unfolding unmarshal_binary marshal_binary unmarshal_proto marshal_proto
  unmarshal_binary_lem c = rw (proto.decode-encode (marshal_proto c), unmarshal_binary)

-- With faithful encoders the text form is read back, but for special values with the ninth bit set.
pub unmarshal_text-marshal_text :
    (proto : Encoder CurrencyProto) (base64 : Encoder (List ℕ)) (c : Value)
    → IsWellFormed c
    → (c.shift ≡ false) ⊎ (c.value < 256)
    → unmarshal_text proto base64 (marshal_text proto base64 c) ≡ ok c
unfolding unmarshal_text marshal_text
unmarshal_text-marshal_text proto base64 c wf kept =
    rw (base64.decode-encode (marshal_binary proto base64 c), unmarshal_text)
      (unmarshal_binary_lem proto base64 c ∙ kept_lem c wf kept)
