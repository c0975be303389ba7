-- ===== src/Credit/Toy.antt =====
-- A toy signature scheme and a credit of it, for tests.
use openpcc.Base.{ℕ, refl, Bool, true, false, some, List, [], ◌∷◌, ◌==◌}
use openpcc.Base.Int.{pos}
use openpcc.Credit.{Credit, blinded, PartiallyBlindRsa}

abbrev starts_with_seven : List ℕ → Bool
starts_with_seven [] = false
starts_with_seven (b ∷ rest) = b == 7

-- Blinding keeps the message, and a signature is one that starts with 7.
abbrev pub toy : PartiallyBlindRsa
toy = record {
  State = List ℕ;
  blind_sign = λ blinded metadata. some (7 ∷ blinded);
  fixed_blind = λ message metadata factor. some (message, metadata);
  finalize = λ state s. some (7 ∷ state);
  verify = λ message metadata signature. starts_with_seven signature;
  finalize-verify = λ message metadata blinded s factor state blinds signs. (7 ∷ state, refl, refl);
}

abbrev pub bytes : List ℕ
bytes = 1 ∷ 2 ∷ 3 ∷ 4 ∷ 5 ∷ 6 ∷ 7 ∷ 8 ∷ 9 ∷ 10 ∷ 11 ∷ 12 ∷ 13 ∷ 14 ∷ 15 ∷ 255 ∷ []

abbrev pub paid : Credit blinded
paid = record {
  value = record { shift = false; value = 20 };
  nonce = record { timestamp = pos 39600; nonce = bytes; unsafe_increment = true };
  signature = 7 ∷ [];
}
