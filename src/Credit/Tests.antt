-- ===== src/Credit/Tests.antt =====
-- The theorems on credits at concrete inputs.
use openpcc.Base.{ℕ, ◌≡◌, refl, false, some, List, ◌∷◌, ok, err}
use openpcc.Base.Int.{pos}
use openpcc.Currency.{Value, blind_bytes as value_bytes}
use openpcc.Nonce.{Nonce, random_nonce, blind_bytes as nonce_bytes}
use openpcc.Credit.{
  Credit, blinded, unblinded, already_finalized, Draw, draw_nonce, new_unsigned_credit, finalize,
  blind_sign, verify_credit, issue_unblinded_credit, BlindSignState, begin_blinded_credit, request,
  finalize_blinded,
}
use openpcc.Credit.Toy.{toy, bytes}
use openpcc.Credit.Protocol.{finalize_blinded-blind_sign}

abbrev draw : Draw
draw = record {
  blinding_factor = some 5;
  now = pos 40000;
  random_factor = some (1, 2);
  random = some bytes;
}

abbrev twenty : Value
twenty = record { shift = false; value = 20 }

abbrev drawn : Nonce
drawn = random_nonce (pos 40000) 1 2 bytes

abbrev begun : BlindSignState toy
begun = record {
  value = twenty;
  blinded_message = nonce_bytes drawn;
  state = record { finalized = false; nonce = drawn; state = value_bytes twenty };
}

begins : begin_blinded_credit toy draw twenty ≡ ok begun
unfolding begin_blinded_credit new_unsigned_credit draw_nonce
begins = refl

signs : blind_sign toy (request toy begun) ≡ ok (7 ∷ nonce_bytes drawn)
unfolding blind_sign request
signs = refl

finalize_blinded-blind_sign_example :
    (credit : Credit blinded) × ((finalize_blinded toy begun (7 ∷ nonce_bytes drawn)).0 ≡ ok credit)
    × (credit.value ≡ twenty)
    × (verify_credit toy credit ≡ ok tt)
    × ((s' : List ℕ)
        → (finalize_blinded toy (finalize_blinded toy begun (7 ∷ nonce_bytes drawn)).1 s').0
          ≡ err already_finalized)
finalize_blinded-blind_sign_example =
    finalize_blinded-blind_sign toy draw twenty begun (7 ∷ nonce_bytes drawn) begins signs

abbrev issued : Credit unblinded
issued = record { value = twenty; nonce = drawn; signature = 7 ∷ value_bytes twenty }

issues : issue_unblinded_credit toy draw twenty ≡ ok issued
unfolding issue_unblinded_credit new_unsigned_credit draw_nonce blind_sign finalize
issues = refl
