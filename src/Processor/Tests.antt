-- ===== src/Processor/Tests.antt =====
-- Transactions and exchanges at concrete inputs.
use openpcc.Base.{
  ℕ, ◌≡◌, refl, Bool, true, false, none, some, List, [], ◌∷◌, ok, err, if◌then◌else◌,
}
use openpcc.Base.Int.{pos, ◌+ℤ◌, ◌-ℤ◌}
use openpcc.Base.Dict.{list_eq, ◌===◌, lookup}
use openpcc.Nonce.{is_expired_at, round_down_nonce_timestamp}
use openpcc.Locker.{NonceLocker, locked, consumed, status_of, key_of, lock_nonce, encode_to_string}
use openpcc.Credit.{blinded, BlindSignRequest, verify_credit}
use openpcc.Credit.Toy.{toy, paid}
use openpcc.Processor.{
  Transaction, cause_after, cancelled, finished, caller_cancelled, commit, rollback, cancel,
  begin_transaction, check_and_lock_nonce, exchange,
}
use openpcc.Processor.Spending.{after_commit, commit-begin_transaction, cancelled_stays_locked}
use openpcc.Processor.Exchange.{Exchanged, exchange_lem}

abbrev empty : NonceLocker
empty = record { nonces = [] }

abbrev begun : Transaction
begun = record {
  context = none;
  locked_nonce = record { nonce = paid.nonce; ticket = encode_to_string (9 ∷ []) };
  credit = paid;
}

begins : (begin_transaction toy false (pos 40000) (some (9 ∷ [])) paid empty).0 ≡ ok begun
unfolding begin_transaction check_and_lock_nonce verify_credit lock_nonce is_expired_at
    round_down_nonce_timestamp lookup ◌+ℤ◌ ◌-ℤ◌
begins = refl

commit-begin_transaction_example :
    let (result, tx', l') =
      commit true begun (begin_transaction toy false (pos 40000) (some (9 ∷ [])) paid empty).1 in
    (result ≡ ok tt)
    × ((k : List ℕ)
        → status_of k l' ≡ (if k === key_of paid.nonce then some consumed else status_of k empty))
    × ((again : Bool) (m : NonceLocker)
        → (commit again tx' m ≡ (err (cancelled (cause_after true finished)), tx', m))
          × (rollback tx' m ≡ (after_commit true, m)))
commit-begin_transaction_example =
    commit-begin_transaction toy (pos 40000) (some (9 ∷ [])) paid true empty begun begins

cancelled_stays_locked_example :
    let l' = (begin_transaction toy false (pos 40000) (some (9 ∷ [])) paid empty).1 in
    (status_of (key_of paid.nonce) l' ≡ some locked)
    × (commit false (cancel begun) l' ≡ (err (cancelled caller_cancelled), cancel begun, l'))
    × (rollback (cancel begun) l' ≡ (err (cancelled caller_cancelled), l'))
cancelled_stays_locked_example =
    cancelled_stays_locked toy false (pos 40000) (some (9 ∷ [])) paid false empty begun begins

abbrev asked : BlindSignRequest
asked = record { value = paid.value; blinded_message = 1 ∷ 2 ∷ [] }

exchange_lem_example :
    Exchanged toy blinded paid asked empty
      (exchange toy (pos 40000) (some (9 ∷ [])) paid asked empty)
exchange_lem_example = exchange_lem toy blinded (pos 40000) (some (9 ∷ [])) paid asked empty
