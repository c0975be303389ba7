-- ===== src/Credit.antt =====
-- anonpay/credit.go, unblinded_credit.go, blind_signing.go, issuer.go and payee.go: credits, how they
-- are signed blindly and verified, and their protobuf form.
-- A blinded and an unblinded credit have the same fields and methods in Go; here the kind is an index.
-- The partially blind RSA scheme is a third-party package: a record of its functions and the law of
-- its protocol. What the code draws at random is an argument, `none` where the draw fails. The span
-- and context arguments and the sleep of `finalize` have no part in the results.
pub mod Protocol
pub mod Message
pub mod Toy
mod Tests
use openpcc.Base.{
  ℕ, ◌≡◌, Bool, true, false, Option, none, some, List, [], ◌∷◌, Result, ok, err, if◌then◌else◌,
  ◌>>=◌,
}
use openpcc.Base.Int.{ℤ, pos}
use openpcc.Currency.{
  Value, CurrencyProto, Error as CurrencyError, blind_bytes as value_bytes,
  marshal_proto as marshal_value, unmarshal_proto as unmarshal_value,
}
use openpcc.Nonce.{
  Nonce, NonceProto, random_nonce, Error as NonceError, blind_bytes as nonce_bytes,
  marshal_proto as marshal_nonce, unmarshal_proto as unmarshal_nonce,
}

pub data CreditKind : Type 0 where
  blinded unblinded : CreditKind

pub record Credit (kind : CreditKind) : Type 0 where
  pub value : Value
  pub nonce : Nonce
  pub signature : List ℕ

pub data Error : Type 0 where
  nil_protobuf missing_signature empty_signature no_random_factor no_random_bytes : Error
  no_blinding_factor not_blinded not_signed not_finalized already_finalized not_verified : Error
  bad_value : CurrencyError → Error
  bad_nonce : NonceError → Error

-- `protos.Credit`, of gen/protos: the three fields may be missing.
pub record CreditProto : Type 0 where
  pub value : Option CurrencyProto
  pub nonce : Option NonceProto
  pub signature : Option (List ℕ)

pub marshal_proto : {k : CreditKind} → Credit k → CreditProto
marshal_proto c = record {
  value = some (marshal_value c.value);
  nonce = some (marshal_nonce c.nonce);
  signature = some c.signature;
}

-- A missing message reads as one without its field.
abbrev pub given_value : Option CurrencyProto → CurrencyProto
given_value none = record { currency = none }
given_value (some pbv) = pbv

abbrev empty_nonce : Nonce
empty_nonce = record { timestamp = pos 0; nonce = []; unsafe_increment = false }

abbrev pub wrap : {A E : Type 0} → (E → Error) → Result E A → Result Error A
wrap f (ok a) = ok a
wrap f (err e) = err (f e)

-- `UnmarshalProto`
pub unmarshal_proto : {k : CreditKind} → Option CreditProto → Result Error (Credit k)
unmarshal_proto none = err nil_protobuf
unmarshal_proto (some credit) = elim (credit.signature) [
  | none ↦ err missing_signature
  | some [] ↦ err empty_signature
  | some (b ∷ bs) ↦ do
    value ← wrap bad_value (unmarshal_value (given_value credit.value))
    nonce ← wrap bad_nonce (unmarshal_nonce empty_nonce credit.nonce)
    ok (record { value = value; nonce = nonce; signature = b ∷ bs })
]

-- `BlindSignRequest`
pub record BlindSignRequest : Type 0 where
  pub value : Value
  pub blinded_message : List ℕ

-- The keys of the third-party scheme: signing with the private key, blinding and verifying with the
-- public one. A message that was blinded with some factor and signed under the same metadata
-- is finalized to a signature that verifies.
pub record PartiallyBlindRsa : Type 1 where
  pub State : Type 0
  pub blind_sign : (blinded metadata : List ℕ) → Option (List ℕ)
  pub fixed_blind : (message metadata : List ℕ) (factor : ℕ) → Option (List ℕ × State)
  pub finalize : State → List ℕ → Option (List ℕ)
  pub verify : (message metadata signature : List ℕ) → Bool
  pub finalize-verify :
      (message metadata blinded s : List ℕ) (factor : ℕ) (state : State)
      → fixed_blind message metadata factor ≡ some (blinded, state)
      → blind_sign blinded metadata ≡ some s
      → (signature : List ℕ) × (finalize state s ≡ some signature)
        × (verify message metadata signature ≡ true)

-- What a new credit draws: the blinding factor, with the check that it has an inverse, the clock, the
-- random factor `r / s`, and the random bytes.
pub record Draw : Type 0 where
  pub blinding_factor : Option ℕ
  pub now : ℤ
  pub random_factor : Option (ℕ × ℕ)
  pub random : Option (List ℕ)

-- `RandomNonce`, with its two errors.
pub draw_nonce : Draw → Result Error Nonce
draw_nonce d = elim (d.random_factor) [
  | none ↦ err no_random_factor
  | some (r, s) ↦ elim (d.random) [
    | none ↦ err no_random_bytes
    | some bytes ↦ ok (random_nonce d.now r s bytes)
  ]
]

module _ (rsa : PartiallyBlindRsa) where
  -- `unsignedCreditState`
  pub record UnsignedCredit : Type 0 where
    pub finalized : Bool
    pub nonce : Nonce
    pub state : rsa.State

  -- `newUnsignedCredit`
  pub new_unsigned_credit : Draw → Value → Result Error (List ℕ × UnsignedCredit)
  new_unsigned_credit d value = elim (d.blinding_factor) [
    | none ↦ err no_blinding_factor
    | some factor ↦ do
      nonce ← draw_nonce d
      elim (rsa.fixed_blind (nonce_bytes nonce) (value_bytes value) factor) [
        | none ↦ err not_blinded
        | some (blinded_message, state) ↦
            ok (blinded_message, record { finalized = false; nonce = nonce; state = state })
      ]
  ]

  -- `unsignedCreditState.finalize`
  pub finalize : UnsignedCredit → List ℕ → Result Error (Nonce × List ℕ) × UnsignedCredit
  finalize c blind_signature =
      if c.finalized
      then (err already_finalized, c)
      else elim (rsa.finalize c.state blind_signature) [
        | none ↦ (err not_finalized, c)
        | some signature ↦ (ok (c.nonce, signature), record c { finalized = true })
      ]

  -- `Issuer.BlindSign`
  unfoldable pub blind_sign : BlindSignRequest → Result Error (List ℕ)
  blind_sign request = elim (rsa.blind_sign request.blinded_message (value_bytes request.value)) [
    | none ↦ err not_signed
    | some signature ↦ ok signature
  ]

  -- `VerifyCredit`
  unfoldable pub verify_credit : {k : CreditKind} → Credit k → Result Error (Unit {0})
  verify_credit c =
      if rsa.verify (nonce_bytes c.nonce) (value_bytes c.value) c.signature
      then ok tt
      else err not_verified

  -- `Issuer.IssueUnblindedCredit`
  pub issue_unblinded_credit : Draw → Value → Result Error (Credit unblinded)
  issue_unblinded_credit d value = do
    (blinded_message, state) ← new_unsigned_credit d value
    signed ← blind_sign (record { value = value; blinded_message = blinded_message })
    (nonce, signature) ← (finalize state signed).0
    ok (record { value = value; nonce = nonce; signature = signature })

  -- `BlindSignState`
  pub record BlindSignState : Type 0 where
    pub value : Value
    pub blinded_message : List ℕ
    pub state : UnsignedCredit

  -- `Payee.BeginBlindedCredit`
  pub begin_blinded_credit : Draw → Value → Result Error BlindSignState
  begin_blinded_credit d value = do
    (blinded_message, state) ← new_unsigned_credit d value
    ok (record { value = value; blinded_message = blinded_message; state = state })

  -- `BlindSignState.Request`
  pub request : BlindSignState → BlindSignRequest
  request c = record { value = c.value; blinded_message = c.blinded_message }

  -- `BlindSignState.Finalize`
  pub finalize_blinded : BlindSignState → List ℕ → Result Error (Credit blinded) × BlindSignState
  finalize_blinded c blind_signature =
      let (result, state) = finalize c.state blind_signature in
      (
        do
          (nonce, signature) ← result
          ok (record { value = c.value; nonce = nonce; signature = signature }),
        record c { state = state },
      )
