-- ===== src/Credit/Message.antt =====
-- The protobuf form of a credit.
use openpcc.Base.{◌≡◌, ◌≢◌, refl, false, some, List, [], ◌∷◌, ok, length, ◌&&◌, ltb, inl, inr, ◌⊎◌}
use openpcc.Currency.Exact.{IsWellFormed}
use openpcc.Currency.Wire.{unmarshal-marshal_value}
use openpcc.Nonce.{nonce_len}
use openpcc.Nonce.Message.{unmarshal_proto-marshal_proto as unmarshal-marshal_nonce}
use openpcc.Credit.{CreditKind, Credit, marshal_proto, unmarshal_proto, empty_nonce}

List-cases : {A : Type 0} (xs : List A) → (xs ≡ []) ⊎ ((x : A) × (ys : List A) × (xs ≡ x ∷ ys))
List-cases [] = inl refl
List-cases (x ∷ xs) = inr (x, xs, refl)

-- A credit with a signature, a well-formed value and a nonce of 16 bytes is read back from its
-- protobuf, less the mark of an unsafe nonce, and less the shift bit of a value of 256 or more.
pub unmarshal-marshal_credit :
    {k : CreditKind} (c : Credit k)
    → IsWellFormed c.value
    → length c.nonce.nonce ≡ nonce_len
    → c.signature ≢ []
    → unmarshal_proto {k = k} (some (marshal_proto c))
      ≡ ok (record {
        value = record c.value { shift = c.value.shift && ltb c.value.value 256 };
        nonce = record c.nonce { unsafe_increment = false };
        signature = c.signature;
      })
unfolding unmarshal_proto marshal_proto
unmarshal-marshal_credit {k} c wf long filled = elim (List-cases c.signature) [
  | inl none_given ↦ absurd (filled none_given)
  | inr (b, bs, signed) ↦
      rw (
        signed,
        unmarshal-marshal_value c.value wf,
        unmarshal-marshal_nonce c.nonce empty_nonce long,
      )
]
