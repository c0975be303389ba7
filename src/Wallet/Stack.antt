-- ===== src/Wallet/Stack.antt =====
-- A stack of credits gives out what it received, each credit once and in order.
use mathlib.Core.List.{append_assoc}
use openpcc.Base.{
  ℕ, ◌≡◌, refl, ◌∙◌, ap, false, List, [], ◌∷◌, ◌++◌, length, take-append-drop, Result, ok, err, inl,
  inr, arith, Bool-cases, ◌==◌, if◌then◌else◌,
}
use openpcc.Base.Int.{ℤ, pos, negsuc}
use openpcc.Wallet.{
  BlindedCredit, CreditStack, Withdrawal, Error, can_withdraw_no_lock, slice, stack_deposit,
  stack_withdraw, is_full, second_deposit,
}

-- A call of the stack's.
pub data Call : Type 0 where
  deposit : List ℕ → List BlindedCredit → Call
  withdraw : Withdrawal → Call

abbrev pub given : Result Error (List BlindedCredit) → List BlindedCredit
given (ok credits) = credits
given (err e) = []

-- The credits that the calls withdraw, in their order, and the stack after them.
pub calls : List Call → CreditStack → List BlindedCredit × CreditStack
calls [] s = ([], s)
calls (deposit id credits ∷ rest) s = calls rest (stack_deposit id credits s).1
calls (withdraw w ∷ rest) s =
    let (withdrawn, after) = stack_withdraw w s in
    let (more, last) = calls rest after in (given withdrawn ++ more, last)

abbrev pub Splits : CreditStack → Result Error (List BlindedCredit) × CreditStack → Type 0
Splits s (withdrawn, after) =
    (given withdrawn ++ after.credits ≡ s.credits)
    × (after.deposit_transfer_id ≡ s.deposit_transfer_id)
    × (after.credit_amount ≡ s.credit_amount)

slice-Splits : (i : ℤ) (s : CreditStack) → Splits s (slice i s)
unfolding slice
slice-Splits (pos i) s = (take-append-drop i s.credits, refl, refl)
slice-Splits (negsuc i) s = (refl, refl, refl)

pub stack_withdraw-Splits : (w : Withdrawal) (s : CreditStack) → Splits s (stack_withdraw w s)
unfolding stack_withdraw
stack_withdraw-Splits w s = elim (Bool-cases (can_withdraw_no_lock s w)) [
  | inl h ↦ rw h (slice-Splits (if is_full w then pos (length s.credits) else w.credits) s)
  | inr h ↦ rw h (refl, refl, refl)
]

refused :
    (id : List ℕ) (credits : List BlindedCredit) (s : CreditStack)
    → (length s.deposit_transfer_id == 0) ≡ false
    → stack_deposit id credits s ≡ (err second_deposit, s)
unfolding stack_deposit
refused id [] s h = rw h refl
refused id (c ∷ cs) s h = rw h refl

calls-Splits :
    (cs : List Call) (s : CreditStack)
    → (length s.deposit_transfer_id == 0) ≡ false
    → let (withdrawn, last) = calls cs s in Splits s (ok withdrawn, last)
unfolding calls
calls-Splits [] s h = (refl, refl, refl)
calls-Splits (deposit id credits ∷ rest) s h =
    rw (calls, refused id credits s h) (calls-Splits rest s h)
calls-Splits (withdraw w ∷ rest) s h =
    let first = stack_withdraw-Splits w s in
    let after : CreditStack = (stack_withdraw w s).1 in
    let kept : (length after.deposit_transfer_id == 0) ≡ false = rw first.1 h in
    let last = calls-Splits rest after kept in
    let taken = given (stack_withdraw w s).0 in
    let later = (calls rest after).0 in
    let end : CreditStack = (calls rest after).1 in
    (
      append_assoc taken later end.credits ∙ ap (λ xs. taken ++ xs) last.0 ∙ first.0,
      last.1 ∙ first.1,
      last.2 ∙ first.2,
    )

pub deposited_lem :
    (id : List ℕ) (credits : List BlindedCredit) (s : CreditStack)
    → (stack_deposit id credits s).0 ≡ ok tt
    → let s' = (stack_deposit id credits s).1 in
      (s'.credits ≡ credits) × (s'.deposit_transfer_id ≡ id)
unfolding stack_deposit
deposited_lem id [] s done = ground (arith, done)
deposited_lem id (c ∷ cs) s done = ground (arith, done)

pub refused_lem :
    (id : List ℕ) (credits : List BlindedCredit) (s : CreditStack) (e : Error)
    → (stack_deposit id credits s).0 ≡ err e
    → (stack_deposit id credits s).1 ≡ s
unfolding stack_deposit
refused_lem id [] s e h = ground (arith, h)
refused_lem id (c ∷ cs) s e h = ground (arith, h)

-- Let a deposit with a non-empty id succeed on a stack. Then in all the calls that follow, deposits and
-- withdrawals in any order, every credit of the deposit is withdrawn once at most, in the order of
-- the deposit: what the withdrawals returned and what is left make up the deposit. No later
-- deposit gets in, and the stack's id and amount stay those of the deposit.
pub calls-stack_deposit :
    (b : ℕ) (id : List ℕ) (credits : List BlindedCredit) (s : CreditStack) (cs : List Call)
    → (stack_deposit (b ∷ id) credits s).0 ≡ ok tt
    → let deposited = (stack_deposit (b ∷ id) credits s).1 in
      let (withdrawn, last) = calls cs deposited in
      (withdrawn ++ last.credits ≡ credits)
      × (last.deposit_transfer_id ≡ b ∷ id)
      × (last.credit_amount ≡ deposited.credit_amount)
calls-stack_deposit b id credits s cs done =
    let s' : CreditStack = (stack_deposit (b ∷ id) credits s).1 in
    let (held, known) = deposited_lem (b ∷ id) credits s done in
    let filled : (length s'.deposit_transfer_id == 0) ≡ false = rw known (ground arith) in
    let split = calls-Splits cs s' filled in (split.0 ∙ held, split.1 ∙ known, split.2)
