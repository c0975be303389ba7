-- ===== src/Wallet.antt =====
-- anonpay/wallet/internal/transfer/local.go, transfer.go and source.go: withdrawals, stacks of credits,
-- and the transfer of credits from one place to another. An `int` is an integer without bounds.
-- A slice bound out of range, which panics in Go, is an error of its own.
pub mod Stack
mod Tests
use openpcc.Base.{
  ℕ, suc, zero, ◌+◌, Bool, true, false, not, ◌&&◌, ◌||◌, Option, none, some, List, [], ◌∷◌, ◌++◌,
  length, take, drop, map, ltb, ◌==◌, Result, ok, err, if◌then◌else◌,
}
use openpcc.Base.Int.{ℤ, pos, negsuc, ltb_ℤ, ◌+ℤ◌}
use openpcc.Base.Dict.{◌===◌, int_eq}
use openpcc.Currency.{Value, zero_value, amount_or_zero}
use openpcc.Credit.{Credit, blinded, Error as CreditError}
use openpcc.Processor.{same_value}

pub data Origin : Type 0 where
  source_origin blindbank_origin user_origin : Origin

pub record Withdrawal : Type 0 where
  pub full : Bool
  pub credits : ℤ
  pub amount : Value
  pub optimistic : Bool

-- `w == FullWithdrawal`
pub is_full : Withdrawal → Bool
is_full w = w.full && (w.credits === pos 0) && same_value w.amount zero_value && not w.optimistic

pub data Error : Type 0 where
  second_deposit empty_deposit too_many_credits out_of_range : Error
  credits_not_available : (credits : ℕ) → (amount : Value) → Error
  insufficient_balance : (balance : ℤ) → Error
  withdrawal_error : Withdrawal → Error → Error
  origin_not_allowed no_id no_delay not_logged different_values : Error
  full_from_source not_a_single_credit : Error
  service_error : ℕ → Error
  failed : Error → Error
  credit_error : CreditError → Error

abbrev pub BlindedCredit : Type 0
BlindedCredit = Credit blinded

pub record CreditStack : Type 0 where
  pub deposit_transfer_id : List ℕ
  pub max_credits : ℤ
  pub credits : List BlindedCredit
  pub credit_amount : Value

pub new_credit_stack : ℤ → CreditStack
new_credit_stack max_credits = record {
  deposit_transfer_id = [];
  max_credits = max_credits;
  credits = [];
  credit_amount = zero_value;
}

abbrev pub times : ℕ → ℤ → ℤ
times zero a = pos 0
times (suc n) a = a +ℤ times n a

-- `creditStack.Balance`
pub balance : CreditStack → ℤ
balance s = times (length s.credits) (amount_or_zero s.credit_amount)

-- `creditStack.canWithdrawNoLock`
pub can_withdraw_no_lock : CreditStack → Withdrawal → Bool
can_withdraw_no_lock s w =
    if length s.credits == 0
    then false
    else if is_full w
    then true
    else if not (same_value s.credit_amount w.amount)
    then false
    else if ltb_ℤ (pos (length s.credits)) w.credits
    then false
    else true

-- `creditStack.deposit`
pub stack_deposit :
    List ℕ → List BlindedCredit → CreditStack → Result Error (Unit {0}) × CreditStack
stack_deposit transfer_id [] s =
    if not (length s.deposit_transfer_id == 0)
    then (err second_deposit, s)
    else (err empty_deposit, s)
stack_deposit transfer_id (c ∷ cs) s =
    if not (length s.deposit_transfer_id == 0)
    then (err second_deposit, s)
    else if not (s.max_credits === pos 0) && ltb_ℤ s.max_credits (pos (length (c ∷ cs)))
    then (err too_many_credits, s)
    else (
      ok tt,
      record s { deposit_transfer_id = transfer_id; credits = c ∷ cs; credit_amount = c.value },
    )

-- `s.credits[:i]` and `s.credits[i:]`, for an index up to the length.
pub slice : ℤ → CreditStack → Result Error (List BlindedCredit) × CreditStack
slice (pos i) s = (ok (take i s.credits), record s { credits = drop i s.credits })
slice (negsuc i) s = (err out_of_range, s)

-- `creditStack.withdraw`, less the rounding gain, which is zero.
pub stack_withdraw : Withdrawal → CreditStack → Result Error (List BlindedCredit) × CreditStack
stack_withdraw w s =
    if not (can_withdraw_no_lock s w)
    then (err (withdrawal_error w (credits_not_available (length s.credits) s.credit_amount)), s)
    else slice (if is_full w then pos (length s.credits) else w.credits) s
