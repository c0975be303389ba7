-- ===== src/Bank/Ledger.antt =====
-- The operations of the in-memory bank keep its ledger: the balances less the recorded mutations, with
-- the rounding mutations.
use openpcc.Base.{
  ℕ, ◌≡◌, sym, Option, List, [], ◌∷◌, ◌++◌, arith, ok, err, ◌+◌, ◌<◌, ◌≤◌, ◌^◌, suc, All, Result,
}
use openpcc.Base.Int.{ℤ, pos, ◌+ℤ◌, ◌-ℤ◌, pos_part, neg_part}
use openpcc.Base.Dict.{lookup, insert, list_eq}
use openpcc.Base.Words.{wrap64, wrap64_small}
use openpcc.Currency.{amount, max_amount, amount_or_zero, Value, Error as CurrencyError}
use openpcc.Currency.Exact.{IsWellFormed}
use openpcc.Currency.Inverse.{amount_bound}
use openpcc.Locker.{NonceLocker}
use openpcc.Credit.{Credit, blinded, unblinded, BlindSignRequest, PartiallyBlindRsa, Draw}
use openpcc.Bank.{
  Bank, StoredAccount, Error, stored_or_zero, key_for_account, withdraw_batch,
  withdraw_full_unblinded, deposit, Cancellation, not_paid, not_rolled_back,
}
use openpcc.Bank.Sums.{
  sum_ℤ, sum_ℤ-snoc, excess, excesses, ledger, excesses-insert, excesses_kept, shift_out, pays,
  gains, empties,
}
use openpcc.Bank.Requests.{IsFromWire, total}
use openpcc.Bank.Withdraw.{IsSound, Withdrawn, withdraw_batch_lem}
use openpcc.Bank.Full.{RoundsWell, WithdrawnFull, withdraw_full_unblinded_lem}
use openpcc.Processor.{cancelled, not_matching, bad_credit, bad_nonce, not_issued, not_exchanged}
use openpcc.Bank.Deposit.{Credited, Deposited, deposit_lem}

no_overflow :
    (balance : ℤ) (a : ℕ)
    → a ≤ max_amount
    → pos_part balance + max_amount < 2 ^ 63
    → neg_part balance ≤ 2 ^ 63
    → wrap64 (balance +ℤ pos a) ≡ balance +ℤ pos a
unfolding ◌+ℤ◌
no_overflow balance a most room low = wrap64_small (balance +ℤ pos a) (ground arith) (ground arith)

deposit_most :
    (v : Value) (a : ℕ) → IsWellFormed v → amount v ≡ ok (pos (suc a)) → suc a ≤ max_amount
deposit_most v a wf reads =
    let (n, same, most) = amount_bound v (pos (suc a)) wf reads in ground (arith, same)

module _ (rsa : PartiallyBlindRsa) (digest secret : List ℕ) (b : Bank) where
  abbrev key : List ℕ
  key = key_for_account rsa digest secret

  Withdrawn-ledger :
      (reqs : List BlindSignRequest) (r : Result Error (ℤ × List (List ℕ)) × Bank)
      → Withdrawn rsa digest secret reqs b r
      → ledger r.1 ≡ ledger b
  Withdrawn-ledger reqs (err e, b') same = rw same
  Withdrawn-ledger reqs (ok (balance, sigs), b')
        (stored, found, batch, covered, left, signed, long, after) =
      let paid = pos 0 -ℤ pos (total reqs) in
      let new : StoredAccount = record {
        balance = balance;
        mutations = stored.mutations ++ paid ∷ [];
      } in
      let kept : excess (stored_or_zero (lookup key b.accounts)) ≡ excess new =
        rw (found, left, sum_ℤ-snoc stored.mutations paid)
          (sym (pays stored.balance (pos (total reqs)) (sum_ℤ stored.mutations))) in
      rw after (rw (excesses_kept key new b.accounts kept))

  WithdrawnFull-ledger :
      (round : ℤ → Result CurrencyError Value) (r : Result Error (Credit unblinded) × Bank)
      → WithdrawnFull rsa digest round secret b r
      → ledger r.1 ≡ ledger b
  WithdrawnFull-ledger round (err e, b') same = rw same
  WithdrawnFull-ledger round (ok credit, b') (stored, found, least, most, rounds, verified, after) =
      let paid = amount_or_zero credit.value in
      let new : StoredAccount = record {
        balance = pos 0;
        mutations = stored.mutations ++ (pos 0 -ℤ paid) ∷ [];
      } in
      let moved : excess new +ℤ (stored.balance -ℤ paid) ≡ excess stored =
        rw (sum_ℤ-snoc stored.mutations (pos 0 -ℤ paid))
          (empties stored.balance paid (sum_ℤ stored.mutations)) in
      let written : excesses (insert key new b.accounts) +ℤ excess stored
          ≡ excesses b.accounts +ℤ excess new =
        rw found at (excesses-insert key new b.accounts) in
      rw after (
        rw (sum_ℤ-snoc b.rounding_mutations (stored.balance -ℤ paid)) (
          shift_out (excesses (insert key new b.accounts)) (excess stored) (excesses b.accounts)
            (excess new) (sum_ℤ b.rounding_mutations) (stored.balance -ℤ paid) written moved))

  -- An account that a deposit can't overflow.
  abbrev pub HasRoom : Type 0
  HasRoom =
      let balance = (stored_or_zero (lookup key b.accounts)).balance in
      (pos_part balance + max_amount < 2 ^ 63) × (neg_part balance ≤ 2 ^ 63)

  Credited-ledger :
      (credit : Credit blinded) (l : NonceLocker) (balance : ℤ) (b' : Bank) (l' : NonceLocker)
      → IsWellFormed credit.value
      → HasRoom
      → Credited rsa digest secret credit b l balance b' l'
      → ledger b' ≡ ledger b
  Credited-ledger credit l balance b' l' wf room
        (a, reads, verified, free, statuses, (sum, after)) =
      let stored = stored_or_zero (lookup key b.accounts) in
      let new : StoredAccount = record {
        balance = balance;
        mutations = stored.mutations ++ pos (suc a) ∷ [];
      } in
      let fits =
        no_overflow stored.balance (suc a) (deposit_most credit.value a wf reads) room.0 room.1 in
      let kept : excess stored ≡ excess new =
        rw (sum, fits, sum_ℤ-snoc stored.mutations (pos (suc a)))
          (sym (gains stored.balance (pos (suc a)) (sum_ℤ stored.mutations))) in
      rw after (rw (excesses_kept key new b.accounts kept))

  Deposited-ledger :
      (credit : Credit blinded) (timing : Cancellation) (l : NonceLocker)
      (r : Result Error ℤ × Bank × NonceLocker)
      → IsWellFormed credit.value
      → HasRoom
      → Deposited rsa digest secret credit timing b l r
      → ledger r.1 ≡ ledger b
  Deposited-ledger credit timing l (ok balance, b', l') wf room (live, made) =
      Credited-ledger credit l balance b' l' wf room made
  Deposited-ledger credit timing l (err (not_rolled_back e), b', l') wf room
        (late, (balance, made)) =
      Credited-ledger credit l balance b' l' wf room made
  Deposited-ledger credit timing l (err (not_paid (cancelled c)), b', l') wf room (early, left) =
      rw (left.0)
  Deposited-ledger credit timing l (err (not_paid not_matching), b', l') wf room same = rw (same.0)
  Deposited-ledger credit timing l (err (not_paid (bad_credit e)), b', l') wf room same =
      rw (same.0)
  Deposited-ledger credit timing l (err (not_paid (not_issued e)), b', l') wf room same =
      rw (same.0)
  Deposited-ledger credit timing l (err (not_paid (not_exchanged e)), b', l') wf room same =
      rw (same.0)
  Deposited-ledger credit timing l (err (not_paid (bad_nonce e)), b', l') wf room same = rw (same.0)
  Deposited-ledger credit timing l (err _, b', l') wf room same = rw (same.0)

-- The operations that change accounts.
pub data Operation : Type 0 where
  withdrawal : (secret : List ℕ) → List BlindSignRequest → Operation
  full_withdrawal : Draw → (secret : List ℕ) → Operation
  payment : Cancellation → ℤ → Option (List ℕ) → (secret : List ℕ) → Credit blinded → Operation

module _ (rsa : PartiallyBlindRsa) (digest : List ℕ) (round : ℤ → Result CurrencyError Value) where
  pub operate : Operation → Bank → NonceLocker → Bank × NonceLocker
  operate (withdrawal secret reqs) b l = ((withdraw_batch rsa digest secret reqs b).1, l)
  operate (full_withdrawal d secret) b l =
      ((withdraw_full_unblinded rsa digest round d secret b).1, l)
  operate (payment timing now random secret credit) b l =
      let (result, b', l') = deposit rsa digest timing now random secret credit b l in (b', l')

  -- What keeps the sums of an operation within an int64.
  abbrev pub IsWithin : Operation → Bank → Type 0
  IsWithin (withdrawal secret reqs) b = IsSound b × All IsFromWire reqs
  IsWithin (full_withdrawal d secret) b = RoundsWell round
  IsWithin (payment timing now random secret credit) b =
      IsWellFormed credit.value × HasRoom rsa digest secret b

  -- No operation changes the ledger: money enters and leaves the accounts only with a mutation of
  -- the same amount, or as a rounding mutation. Values must be well formed, and balances must
  -- leave room in an int64.
  pub ledger-operate :
      (op : Operation) (b : Bank) (l : NonceLocker)
      → IsWithin op b
      → ledger (operate op b l).0 ≡ ledger b
  unfolding operate
  ledger-operate (withdrawal secret reqs) b l within =
      Withdrawn-ledger rsa digest secret b reqs (withdraw_batch rsa digest secret reqs b)
        (withdraw_batch_lem rsa digest secret reqs b within.0 within.1)
  ledger-operate (full_withdrawal d secret) b l within =
      WithdrawnFull-ledger rsa digest secret b round
        (withdraw_full_unblinded rsa digest round d secret b)
        (withdraw_full_unblinded_lem rsa digest round d secret b within)
  ledger-operate (payment timing now random secret credit) b l within =
      Deposited-ledger rsa digest secret b credit timing l
        (deposit rsa digest timing now random secret credit b l) within.0 within.1
        (deposit_lem rsa digest now random secret credit b l timing within.0)
