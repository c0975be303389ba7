-- ===== src/Wallet/Tests.antt =====
-- A stack of credits at concrete inputs.
use openpcc.Base.{ℕ, ◌≡◌, refl, false, List, [], ◌∷◌, ◌++◌}
use openpcc.Base.Int.{pos}
use openpcc.Wallet.{BlindedCredit, Withdrawal, new_credit_stack, stack_deposit}
use openpcc.Wallet.Stack.{Call, deposit, withdraw, calls, calls-stack_deposit}

abbrev credit : ℕ → BlindedCredit
credit n = record {
  value = record { shift = false; value = 0x105 };
  nonce = record { timestamp = pos 3600; nonce = n ∷ []; unsafe_increment = false };
  signature = 1 ∷ [];
}

abbrev two : Withdrawal
two = record {
  full = false;
  credits = pos 2;
  amount = record { shift = false; value = 0x105 };
  optimistic = false;
}

abbrev session : List Call
session = withdraw two ∷ deposit (2 ∷ []) (credit 9 ∷ []) ∷ withdraw two ∷ []

calls-stack_deposit_example :
    let three = credit 1 ∷ credit 2 ∷ credit 3 ∷ [] in
    let deposited = (stack_deposit (1 ∷ []) three (new_credit_stack (pos 0))).1 in
    let (withdrawn, last) = calls session deposited in
    (withdrawn ++ last.credits ≡ three)
    × (last.deposit_transfer_id ≡ 1 ∷ [])
    × (last.credit_amount ≡ deposited.credit_amount)
unfolding stack_deposit new_credit_stack
calls-stack_deposit_example =
    calls-stack_deposit 1 [] (credit 1 ∷ credit 2 ∷ credit 3 ∷ []) (new_credit_stack (pos 0))
      session refl
