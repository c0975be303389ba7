-- ===== src/Transfer/Batches.antt =====
-- A transfer from one stack of credits to another.
use openpcc.Base.{ℕ, ◌≡◌, ap, sym, ◌∙◌, List, [], ◌++◌, Result, ok, err, inl, inr, ◌⊎◌, arith}
use openpcc.Base.Int.{ℤ, pos}
use openpcc.Wallet.{
  BlindedCredit, CreditStack, Withdrawal, Error, Origin, stack_deposit, stack_withdraw,
}
use openpcc.Wallet.Stack.{stack_withdraw-Splits, deposited_lem, refused_lem, given}
use openpcc.Transfer.{Surroundings, Transfer, Entry, process}
use openpcc.Transfer.Processing.{Processed, process-Processed}

-- The withdrawal of a stack, with its rounding gain.
abbrev pub withdraw_batch :
    List ℕ → Withdrawal → CreditStack → Result Error (List BlindedCredit × ℤ) × CreditStack
withdraw_batch id w s =
    let (r, s') = stack_withdraw w s in
    (elim r [ ok credits ↦ ok (credits, pos 0) | err e ↦ err e ], s')

-- Where the credits of both stacks are after a processing.
abbrev pub Conserves :
    (from to : CreditStack)
    → Result Error Transfer × CreditStack × CreditStack × List Entry
    → Type 0
Conserves from to (ok t, from', to', log) = to'.credits ++ from'.credits ≡ from.credits
Conserves from to (err e, from', to', log) =
    (withdrawn : List BlindedCredit) × (withdrawn ++ from'.credits ≡ from.credits)
    × ((to' ≡ to) ⊎ (to'.credits ≡ withdrawn))

batch-Splits :
    (id : List ℕ) (w : Withdrawal) (from from' : CreditStack) (credits : List BlindedCredit)
    (gain : ℤ)
    → withdraw_batch id w from ≡ (ok (credits, gain), from')
    → credits ++ from'.credits ≡ from.credits
batch-Splits id w from from' credits gain taken =
    ground (arith, taken, stack_withdraw-Splits w from)

Processed→Conserves :
    (w : Withdrawal) (from to : CreditStack)
    → (r : Result Error Transfer × CreditStack × CreditStack × List Entry)
    → Processed withdraw_batch stack_deposit w from to r
    → Conserves from to r
Processed→Conserves w from to (ok t, from', to', log) (credits, taken, put, one, same, logged) =
    let split = batch-Splits t.id w from from' credits t.rounding_gain taken in
    let held : to'.credits ≡ credits = ground (arith, put, deposited_lem t.id credits to) in
    rw held split
Processed→Conserves w from to (err e, from', to', log) (inl (kept, same, logged)) =
    ([], ap (λ s. s.credits) kept, inl same)
Processed→Conserves w from to (err e, from', to', log)
      (inr (inl (id, cause, failed, same, logged))) =
    let split = stack_withdraw-Splits w from in
    (given (stack_withdraw w from).0, rw (sym (ap (λ r. r.1) failed)) split.0, inl same)
Processed→Conserves w from to (err e, from', to', log)
      (inr (inr (inl (id, gain, credits, taken, same, logged)))) =
    (credits, batch-Splits id w from from' credits gain taken, inl same)
Processed→Conserves w from to (err e, from', to', log)
      (inr (inr (inr (id, gain, credits, taken, put)))) =
    (
      credits,
      batch-Splits id w from from' credits gain taken,
      elim put [
        | inl (cause, refused, _, _) ↦
            inl (
              sym (ap (λ r. r.1) refused) ∙ refused_lem id credits to cause (ap (λ r. r.0) refused))
        | inr (done, _, _) ↦ inr (ground (arith, done, deposited_lem id credits to))
      ],
    )

-- A transfer between two stacks neither makes nor copies a credit: if it succeeds, the credits that
-- the target now holds and those that the other kept are the ones from before. If it
-- fails, what the other kept is an end of what it had, and the target is as it was, or it
-- holds just the credits that are gone there.
pub process-Conserves :
    (s : Surroundings) (origin : Origin) (allowed : List Origin) (w : Withdrawal)
    → (from to : CreditStack)
    → Conserves from to (process withdraw_batch stack_deposit s origin allowed w from to)
process-Conserves s origin allowed w from to =
    Processed→Conserves w from to (process withdraw_batch stack_deposit s origin allowed w from to)
      (process-Processed withdraw_batch stack_deposit w from to s origin allowed)
