-- ===== src/Currency/Tests.antt =====
-- Runs of value.go on concrete amounts, and the theorems at concrete inputs.
use openpcc.Base.{ℕ, ◌*◌, ◌^◌, ◌≡◌, refl, true, List, [], ◌∷◌, Option, none, some, ok, err, arith}
use openpcc.Base.Int.{pos}
use openpcc.Base.Words.{len64, trailing_zeros64, int64_of}
use openpcc.Currency.{
  Value, CurrencyProto, Encoder, exact, amount, rounded, rounded_wide, choose_bound,
  create_exact_unsafe, blind_bytes, parse_currency_from_blind_bytes,
}
use openpcc.Currency.Error.{no_exact_representation}
use openpcc.Currency.Exact.{ExactReturns, plain}
use openpcc.Currency.Inverse.{exact_lem, exact-amount}
use openpcc.Currency.Rounding.{HoldsNeighbour, rounded_neighbour}
use openpcc.Currency.Wire.{parse-blind_bytes}

exact_62 : exact (pos 62) ≡ ok (plain 47)
unfolding exact create_exact_unsafe len64 trailing_zeros64
exact_62 = refl

exact_33 : exact (pos 33) ≡ err no_exact_representation
unfolding exact create_exact_unsafe len64 trailing_zeros64
exact_33 = refl

amount_top : amount (plain 511) ≡ ok (pos (31 * 2 ^ 30))
unfolding amount int64_of
amount_top = refl

rounded_69 : rounded (pos 69) 1 1 2 ≡ ok (plain 49)
unfolding rounded rounded_wide choose_bound create_exact_unsafe len64 trailing_zeros64
rounded_69 = refl

exact_lem_example : ExactReturns (pos 62) (exact (pos 62))
exact_lem_example = exact_lem (pos 62)

exact-amount_example : (a : ℕ) × (amount (plain 47) ≡ ok (pos a)) × (exact (pos a) ≡ ok (plain 47))
exact-amount_example = exact-amount (plain 47) (omega arith) refl

rounded_neighbour_example : HoldsNeighbour 1453 10 (rounded (pos 1453) 10 1 2)
rounded_neighbour_example = rounded_neighbour 1453 10 1 2 (omega arith) (omega arith)

abbrev special : ℕ → Value
special v = record { shift = true; value = v }

parse-blind_bytes_example :
    parse_currency_from_blind_bytes (blind_bytes (special 300)) ≡ ok (plain 300)
parse-blind_bytes_example = parse-blind_bytes (special 300) (omega arith)

parsed_3 : parse_currency_from_blind_bytes (3 ∷ 7 ∷ []) ≡ ok (plain 263)
unfolding parse_currency_from_blind_bytes
parsed_3 = refl

-- An encoder that marks the presence of the field, and one that copies bytes.
abbrev write_option : Option (List ℕ) → List ℕ
write_option none = []
write_option (some b) = 1 ∷ b

abbrev read_option : List ℕ → Option CurrencyProto
read_option [] = some (record { currency = none })
read_option (x ∷ b) = some (record { currency = some b })

read_write : (o : Option (List ℕ)) → read_option (write_option o) ≡ some (record { currency = o })
read_write none = refl
read_write (some b) = refl

abbrev proto : Encoder CurrencyProto
proto = record {
  encode = λ p. write_option p.currency;
  decode = read_option;
  decode-encode = λ p. read_write p.currency;
}

abbrev copy : Encoder (List ℕ)
copy = record { encode = λ b. b; decode = some; decode-encode = λ b. refl }
