-- ===== src/Account/Tests.antt =====
-- An account at concrete inputs, with a bank of one balance.
use openpcc.Base.{ℕ, refl, true, false, some, List, [], ◌∷◌, ok, map}
use openpcc.Base.Int.{ℤ, pos, ◌+ℤ◌, ◌-ℤ◌}
use openpcc.Credit.{Draw, BlindSignRequest}
use openpcc.Credit.Toy.{toy, bytes, paid}
use openpcc.Wallet.{Withdrawal}
use openpcc.Account.{Account, BlindBankContract, withdraw, deposit}
use openpcc.Account.Balance.{BankLaws, Synced, account-Synced}

abbrev signed : BlindSignRequest → List ℕ
signed req = 7 ∷ req.blinded_message

-- All credits have the value 20.
abbrev toy_bank : BlindBankContract ℤ
toy_bank = record {
  withdraw_batch = λ id account reqs s. (ok (s -ℤ pos 20, map signed reqs), s -ℤ pos 20);
  withdraw_full_unblinded = λ id account s.
      (ok (record { value = paid.value; nonce = paid.nonce; signature = paid.signature }), pos 0);
  deposit = λ id account credit s. (ok (s +ℤ pos 20), s +ℤ pos 20);
  exchange = λ id credit req s. (ok (signed req), s);
}

toy_laws : BankLaws toy_bank (λ account s. s)
toy_laws = record {
  withdraw_batch_funds = λ id account reqs s. refl;
  withdraw_full_funds = λ id account s. refl;
  deposit_funds = λ id account credit s. refl;
  exchange_funds = λ id account credit req s. refl;
}

abbrev draw : Draw
draw = record {
  blinding_factor = some 5;
  now = pos 40000;
  random_factor = some (1, 2);
  random = some bytes;
}

abbrev one : Withdrawal
one = record {
  full = false;
  credits = pos 1;
  amount = record { shift = false; value = 20 };
  optimistic = false;
}

abbrev mine : Account
mine = record { token = 1 ∷ []; balance = pos 60 }

account-Synced_example :
    Synced toy toy_bank
      (λ account s. s)
      toy_laws
      mine
      (withdraw toy toy_bank (9 ∷ []) one true draw (draw ∷ []) mine (pos 60))
    × Synced toy toy_bank
        (λ account s. s)
        toy_laws
        mine
        (deposit toy toy_bank (9 ∷ []) (paid ∷ []) mine (pos 60))
account-Synced_example =
    account-Synced toy toy_bank (λ account s. s) toy_laws (9 ∷ []) one true draw (draw ∷ [])
      (paid ∷ []) mine (pos 60)
