-- ===== src/Transfer/Tests.antt =====
-- Transfers at concrete inputs.
use openpcc.Base.{ℕ, true, false, some, [], ◌∷◌}
use openpcc.Base.Int.{pos}
use openpcc.Wallet.{BlindedCredit, CreditStack, Withdrawal, blindbank_origin, stack_deposit}
use openpcc.Transfer.{Surroundings, process}
use openpcc.Transfer.Processing.{Processed, process-Processed}
use openpcc.Transfer.Batches.{withdraw_batch}

abbrev credit : ℕ → BlindedCredit
credit n = record {
  value = record { shift = false; value = 0x105 };
  nonce = record { timestamp = pos 3600; nonce = n ∷ []; unsafe_increment = false };
  signature = 1 ∷ [];
}

abbrev two : Withdrawal
two = record {
  full = false;
  credits = pos 2;
  amount = record { shift = false; value = 0x105 };
  optimistic = false;
}

abbrev source : CreditStack
source = record {
  deposit_transfer_id = 1 ∷ [];
  max_credits = pos 0;
  credits = credit 1 ∷ credit 2 ∷ credit 3 ∷ [];
  credit_amount = record { shift = false; value = 0x105 };
}

abbrev target : CreditStack
target = record {
  deposit_transfer_id = [];
  max_credits = pos 2;
  credits = [];
  credit_amount = record { shift = false; value = 0 };
}

abbrev calm : Surroundings
calm = record {
  id = some (7 ∷ []);
  delay_before = true;
  delay_between = true;
  log_intent = true;
  log_withdraw_ok = true;
  log_finish_error_ok = true;
  log_finish_deposit_ok = true;
}

process-Processed_example : Processed withdraw_batch stack_deposit two source target (
    process withdraw_batch stack_deposit calm blindbank_origin
      (blindbank_origin ∷ [])
      two
      source
      target)
process-Processed_example =
    process-Processed withdraw_batch stack_deposit two source target calm blindbank_origin
      (blindbank_origin ∷ [])
