-- ===== src/Locker.antt =====
-- anonpay/noncelocking/inmem/nonce_locker.go: the in-memory nonce locker. Every method holds the
-- mutex for its whole body, so that a method is one step on the map. The clock and what
-- `io.ReadFull` reads for the ticket (`none` where it fails) are arguments.
pub mod Steps
pub mod Once
pub mod Pairs
mod Tests
use openpcc.Base.{
  ℕ, ◌+◌, ◌/◌, ◌%◌, ◌<◌, Bool, Option, none, some, List, [], ◌∷◌, ltb, ◌==◌, not, if◌then◌else◌,
  length, Result, ok, err,
}
use openpcc.Base.Int.{ℤ}
use openpcc.Base.Dict.{Dict, lookup, insert, erase, list_eq}
use openpcc.Nonce.{Nonce, nonce_len, is_expired_at}

pub data NonceStatus : Type 0 where
  locked consumed : NonceStatus

pub record StoredNonce : Type 0 where
  pub status : NonceStatus
  pub ticket : List ℕ

pub record NonceLocker : Type 0 where
  pub nonces : Dict (List ℕ) StoredNonce

pub data Error : Type 0 where
  invalid_nonce_length expired_nonce nonce_locked nonce_consumed ticket_unread no_lock_found : Error

-- `hex.EncodeToString`, as character codes
abbrev hex_digit : ℕ → ℕ
hex_digit d = if ltb d 10 then b'0' + d else b'W' + d

pub encode_to_string : List ℕ → List ℕ
encode_to_string [] = []
encode_to_string (b ∷ bs) = hex_digit (b / 16) ∷ hex_digit (b % 16) ∷ encode_to_string bs

abbrev pub key_of : Nonce → List ℕ
key_of n = encode_to_string n.nonce

pub new_nonce_locker : NonceLocker
new_nonce_locker = record { nonces = [] }

-- `LockNonce`: the two checks of the nonce, the status of an entry that is there, the ticket.
lock_fresh : Option (List ℕ) → Nonce → NonceLocker → Result Error (List ℕ) × NonceLocker
lock_fresh none n l = (err ticket_unread, l)
lock_fresh (some ticket_b) n l =
    let ticket = encode_to_string ticket_b in
    (
      ok ticket,
      record { nonces = insert (key_of n) (record { status = locked; ticket = ticket }) l.nonces },
    )

lock_stored :
    Option StoredNonce → Option (List ℕ) → Nonce → NonceLocker → Result Error (List ℕ) × NonceLocker
unfolding lock_fresh
lock_stored none random n l = lock_fresh random n l
lock_stored (some sn) random n l = elim (sn.status) [
  | locked ↦ (err nonce_locked, l)
  | consumed ↦ (err nonce_consumed, l)
]

unfoldable pub lock_nonce :
    ℤ → Option (List ℕ) → Nonce → NonceLocker → Result Error (List ℕ) × NonceLocker
unfolding lock_stored
lock_nonce now random n l =
    if not (length n.nonce == nonce_len)
    then (err invalid_nonce_length, l)
    else if is_expired_at n now
    then (err expired_nonce, l)
    else lock_stored (lookup (key_of n) l.nonces) random n l

consume_stored :
    Option StoredNonce → Nonce → List ℕ → NonceLocker → Result Error (Unit {0}) × NonceLocker
consume_stored none n ticket l = (err no_lock_found, l)
consume_stored (some sn) n ticket l = elim (sn.status) [
  | consumed ↦ (err nonce_consumed, l)
  | locked ↦ (
    ok tt,
    record { nonces = insert (key_of n) (record { status = consumed; ticket = ticket }) l.nonces },
  )
]

pub consume_nonce : Nonce → List ℕ → NonceLocker → Result Error (Unit {0}) × NonceLocker
unfolding consume_stored
consume_nonce n ticket l =
    if not (length n.nonce == nonce_len)
    then (err invalid_nonce_length, l)
    else consume_stored (lookup (key_of n) l.nonces) n ticket l

release_stored : Option StoredNonce → Nonce → NonceLocker → Result Error (Unit {0}) × NonceLocker
release_stored none n l = (err no_lock_found, l)
release_stored (some sn) n l = elim (sn.status) [
  | consumed ↦ (err nonce_consumed, l)
  | locked ↦ (ok tt, record { nonces = erase (key_of n) l.nonces })
]

pub release_nonce : Nonce → List ℕ → NonceLocker → Result Error (Unit {0}) × NonceLocker
unfolding release_stored
release_nonce n ticket l =
    if not (length n.nonce == nonce_len)
    then (err invalid_nonce_length, l)
    else release_stored (lookup (key_of n) l.nonces) n l

-- The calls that reach the locker, in the order in which they take the mutex.
pub data Call : Type 0 where
  lock : ℤ → Option (List ℕ) → Nonce → Call
  consume release : Nonce → List ℕ → Call

pub call : Call → NonceLocker → NonceLocker
call (lock now random n) l = (lock_nonce now random n l).1
call (consume n ticket) l = (consume_nonce n ticket l).1
call (release n ticket) l = (release_nonce n ticket l).1

pub calls : List Call → NonceLocker → NonceLocker
calls [] l = l
calls (c ∷ cs) l = calls cs (call c l)

-- The status of a nonce, by its key; `none` for a nonce that is free.
abbrev pub entry_status : Option StoredNonce → Option NonceStatus
entry_status none = none
entry_status (some sn) = some sn.status

pub status_of : List ℕ → NonceLocker → Option NonceStatus
status_of k l = entry_status (lookup k l.nonces)
