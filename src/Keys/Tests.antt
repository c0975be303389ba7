-- ===== src/Keys/Tests.antt =====
-- Key pairs at concrete inputs.
use openpcc.Base.{ℕ, ◌≡◌, [], ◌∷◌, Result, ok, err, ◌==◌, if◌then◌else◌}
use openpcc.Base.Int.{pos}
use openpcc.Keys.{Error, not_found, ExpiringKeyPair, find_secret_key}
use openpcc.Keys.Search.{find_secret_key-found}

abbrev pair : ℕ → ℕ → ℕ → ExpiringKeyPair ℕ
pair key from until = record {
  key_pair = key;
  period = record { active_from = pos from; active_until = pos until };
}

abbrev find_three : ℕ → Result Error ℕ
find_three key = if key == 3 then ok 33 else err (not_found key)

find_secret_key-found_example :
    find_secret_key find_three (pos 50) 0 (pair 2 10 90 ∷ pair 3 60 90 ∷ pair 3 10 90 ∷ []) ≡ ok 33
find_secret_key-found_example =
    find_secret_key-found find_three (pos 50) 0 (pair 2 10 90 ∷ pair 3 60 90 ∷ pair 3 10 90 ∷ [])
