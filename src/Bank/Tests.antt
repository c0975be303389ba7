-- ===== src/Bank/Tests.antt =====
-- Operations of the bank at concrete inputs.
use openpcc.Base.{ℕ, ◌≡◌, false, some, List, [], ◌∷◌, Result, ok, arith, Bool-cases, inl, inr}
use openpcc.Base.Int.{ℤ, pos}
use openpcc.Base.Dict.{lookup, list_eq, ◌===◌}
use openpcc.Currency.{Value, Error as CurrencyError}
use openpcc.Locker.{NonceLocker}
use openpcc.Credit.{BlindSignRequest, Draw}
use openpcc.Credit.Toy.{toy, paid, bytes}
use openpcc.Bank.{
  never, Bank, StoredAccount, key_for_account, withdraw_batch, withdraw_full_unblinded, deposit,
}
use openpcc.Bank.Withdraw.{IsSound, Withdrawn, withdraw_batch_lem}
use openpcc.Bank.Full.{RoundsWell, WithdrawnFull, withdraw_full_unblinded_lem}
use openpcc.Bank.Sums.{ledger}
use openpcc.Bank.Ledger.{withdrawal, operate, ledger-operate}
use openpcc.Bank.Deposit.{Deposited, deposit_lem}

abbrev digest : List ℕ
digest = 207 ∷ 131 ∷ []

abbrev secret : List ℕ
secret = 1 ∷ 2 ∷ 3 ∷ []

abbrev stored : StoredAccount
stored = record { balance = pos 100; mutations = pos 100 ∷ [] }

abbrev bank : Bank
bank = record {
  accounts = (key_for_account toy digest secret, stored) ∷ [];
  rounding_mutations = [];
}

abbrev batch : List BlindSignRequest
batch =
    record { value = record { shift = false; value = 20 }; blinded_message = 1 ∷ [] }
    ∷ record { value = record { shift = false; value = 7 }; blinded_message = 2 ∷ [] }
    ∷ []

bank-IsSound : IsSound bank
unfolding lookup
bank-IsSound key found same = elim (Bool-cases (key === key_for_account toy digest secret)) [
  | inl here ↦ ground (arith, rw here at same)
  | inr other ↦ ground (arith, rw other at same)
]

withdraw_batch_lem_example :
    Withdrawn toy digest secret batch bank (withdraw_batch toy digest secret batch bank)
withdraw_batch_lem_example =
    withdraw_batch_lem toy digest secret batch bank bank-IsSound (omega arith, (omega arith, tt))

abbrev draw : Draw
draw = record {
  blinding_factor = some 5;
  now = pos 40000;
  random_factor = some (1, 2);
  random = some bytes;
}

abbrev round : ℤ → Result CurrencyError Value
round z = ok (record { shift = false; value = 56 })

round-RoundsWell : RoundsWell round
round-RoundsWell z v rounds = ground arith

withdraw_full_unblinded_lem_example :
    WithdrawnFull toy digest round secret bank
      (withdraw_full_unblinded toy digest round draw secret bank)
withdraw_full_unblinded_lem_example =
    withdraw_full_unblinded_lem toy digest round draw secret bank round-RoundsWell

abbrev empty : NonceLocker
empty = record { nonces = [] }

deposit_lem_example :
    Deposited toy digest secret paid never bank empty
      (deposit toy digest never (pos 40000) (some (9 ∷ [])) secret paid bank empty)
deposit_lem_example =
    deposit_lem toy digest (pos 40000) (some (9 ∷ [])) secret paid bank empty never (omega arith)

ledger-operate_example :
    ledger (operate toy digest round (withdrawal secret batch) bank empty).0 ≡ ledger bank
ledger-operate_example =
    ledger-operate toy digest round (withdrawal secret batch) bank empty
      (bank-IsSound, (omega arith, (omega arith, tt)))
