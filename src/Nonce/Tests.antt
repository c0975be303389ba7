-- ===== src/Nonce/Tests.antt =====
-- The theorems about nonces at concrete inputs.
use openpcc.Base.{ℕ, ◌+◌, ◌-◌, ◌≤◌, ◌≡◌, refl, ◌↔◌, true, false, List, [], ◌∷◌}
use openpcc.Base.{arith}
use openpcc.Base.Int.{pos}
use openpcc.Base.Dict.{list_eq}
use openpcc.Nonce.{Nonce, is_expired_at}
use openpcc.Nonce.Expiry.{hour, not_expired_iff}

abbrev bytes : List ℕ
bytes = 1 ∷ 2 ∷ 3 ∷ 4 ∷ 5 ∷ 6 ∷ 7 ∷ 8 ∷ 9 ∷ 10 ∷ 11 ∷ 12 ∷ 13 ∷ 14 ∷ 15 ∷ 255 ∷ []

-- 11:00 on the first day.
abbrev eleven : Nonce
eleven = record { timestamp = pos 39600; nonce = bytes; unsafe_increment = false }

abbrev other : Nonce
other = record { timestamp = pos 39600; nonce = 7 ∷ bytes; unsafe_increment = true }

not_expired_iff_example :
    (is_expired_at eleven (pos 40000) ≡ false)
    ↔ ((hour (40000 - 30) ≤ 39600) × (39600 ≤ hour (40000 + 93630)))
not_expired_iff_example = not_expired_iff eleven 39600 40000 refl (omega arith)

abbrev unsafe_eleven : Nonce
unsafe_eleven = record eleven { unsafe_increment = true }
