-- ===== src/Locker/Tests.antt =====
-- Runs of the nonce locker, and the theorems at concrete inputs.
use openpcc.Base.{ℕ, ◌≤◌, ◌≡◌, refl, false, List, [], ◌∷◌, some, ok}
use openpcc.Base.Int.{pos, ◌+ℤ◌, ◌-ℤ◌}
use openpcc.Base.Dict.{lookup, insert, erase, list_eq}
use openpcc.Nonce.{Nonce, is_expired_at, round_down_nonce_timestamp}
use openpcc.Locker.{
  locked, consumed, NonceLocker, Call, lock, consume, release, call, calls, status_of, lock_nonce,
  consume_nonce, release_nonce, key_of, new_nonce_locker, encode_to_string,
}
use openpcc.Locker.Steps.{Step, call-Step}
use openpcc.Locker.Once.{consumed_once, times_consumed}

abbrev bytes : List ℕ
bytes = 1 ∷ 2 ∷ 3 ∷ 4 ∷ 5 ∷ 6 ∷ 7 ∷ 8 ∷ 9 ∷ 10 ∷ 11 ∷ 12 ∷ 13 ∷ 14 ∷ 15 ∷ 255 ∷ []

-- 11:00 on the first day.
abbrev eleven : Nonce
eleven = record { timestamp = pos 39600; nonce = bytes; unsafe_increment = false }

abbrev taken : NonceLocker
taken = record { nonces = (key_of eleven, record { status = locked; ticket = b'a' ∷ [] }) ∷ [] }

abbrev spent : NonceLocker
spent = record { nonces = (key_of eleven, record { status = consumed; ticket = [] }) ∷ [] }

abbrev run : List Call
run =
    lock (pos 40000) (some (1 ∷ 2 ∷ [])) eleven
    ∷ consume eleven (b'0' ∷ [])
    ∷ release eleven []
    ∷ lock (pos 40000) (some []) eleven
    ∷ consume eleven []
    ∷ []

run_spends : status_of (key_of eleven) (calls run new_nonce_locker) ≡ some consumed
unfolding calls call status_of lock_nonce consume_nonce release_nonce is_expired_at
    round_down_nonce_timestamp lookup insert erase encode_to_string new_nonce_locker ◌+ℤ◌ ◌-ℤ◌
run_spends = refl

call-Step_example :
    Step
      (status_of (key_of eleven) taken)
      (status_of (key_of eleven) (call (consume eleven []) taken))
call-Step_example = call-Step (consume eleven []) (key_of eleven) taken

consumed_once_example : times_consumed (key_of eleven) run new_nonce_locker ≤ 1
consumed_once_example = consumed_once (key_of eleven) run new_nonce_locker

spent_status : status_of (key_of eleven) spent ≡ some consumed
unfolding status_of lookup encode_to_string
spent_status = refl

lock_eleven :
    (lock_nonce (pos 40000) (some (1 ∷ [])) eleven new_nonce_locker).0 ≡ ok (b'0' ∷ b'1' ∷ [])
unfolding lock_nonce is_expired_at round_down_nonce_timestamp lookup encode_to_string
    new_nonce_locker ◌+ℤ◌ ◌-ℤ◌
lock_eleven = refl
