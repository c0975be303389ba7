-- ===== src/Bank/Full.antt =====
-- Full withdrawals from the in-memory bank, on every branch.
use openpcc.Base.{
  ℕ, ◌≤◌, ◌≡◌, refl, false, some, List, [], ◌∷◌, ◌++◌, Result, ok, err, inl, inr, Bool-cases,
  Result-cases, Option-cases, arith,
}
use openpcc.Base.Int.{ℤ, pos, negsuc, leb_ℤ, ltb_ℤ, ◌≤ℤ◌, ◌-ℤ◌}
use openpcc.Base.Words.{wrap64, wrap64_small}
use openpcc.Base.Dict.{list_eq, lookup, insert}
use openpcc.Currency.{Value, amount_or_zero, max_amount, Error as CurrencyError}
use openpcc.Currency.Exact.{IsWellFormed}
use openpcc.Currency.Inverse.{amount_or_zero_bound}
use openpcc.Credit.{
  Credit, unblinded, PartiallyBlindRsa, Draw, verify_credit, issue_unblinded_credit,
}
use openpcc.Credit.Protocol.{verify_credit-issue}
use openpcc.Bank.{Bank, StoredAccount, Error, key_for_account, withdraw_full_unblinded}

-- A rounding function whose values are well formed.
abbrev pub RoundsWell : (ℤ → Result CurrencyError Value) → Type 0
RoundsWell round = (z : ℤ) (v : Value) → round z ≡ ok v → IsWellFormed v

-- A balance that is neither below 1 nor above the maximum.
in_range :
    (balance : ℤ)
    → leb_ℤ balance (pos 0) ≡ false
    → ltb_ℤ (pos max_amount) balance ≡ false
    → (n : ℕ) × (balance ≡ pos n) × (1 ≤ n) × (n ≤ max_amount)
in_range (pos n) more most = (n, refl, ground arith, ground arith)
in_range (negsuc n) more most = absurd (ground arith)

no_wrap :
    (n a : ℕ)
    → n ≤ max_amount
    → a ≤ max_amount
    → (wrap64 (pos n -ℤ pos a) ≡ pos n -ℤ pos a) × (wrap64 (pos 0 -ℤ pos a) ≡ pos 0 -ℤ pos a)
unfolding ◌-ℤ◌
no_wrap n a hn ha = (
  wrap64_small (pos n -ℤ pos a) (ground arith) (ground arith),
  wrap64_small (pos 0 -ℤ pos a) (ground arith) (ground arith),
)

module _ (rsa : PartiallyBlindRsa) (digest : List ℕ) (round : ℤ → Result CurrencyError Value) where
  -- What `WithdrawFullUnblinded` returns, and how it leaves the bank.
  abbrev pub WithdrawnFull :
      (secret : List ℕ) → Bank → Result Error (Credit unblinded) × Bank → Type 0
  WithdrawnFull secret b (ok credit, b') =
      (stored : StoredAccount) × (lookup (key_for_account rsa digest secret) b.accounts
        ≡ some stored)
      × (pos 1 ≤ℤ stored.balance)
      × (stored.balance ≤ℤ pos max_amount)
      × (round stored.balance ≡ ok credit.value)
      × (verify_credit rsa credit ≡ ok tt)
      × (let paid = amount_or_zero credit.value in
          b' ≡ record {
            accounts =
                insert (key_for_account rsa digest secret)
                  (record { balance = pos 0; mutations = stored.mutations ++ (pos 0 -ℤ paid) ∷ [] })
                  b.accounts;
            rounding_mutations = b.rounding_mutations ++ (stored.balance -ℤ paid) ∷ [];
          })
  WithdrawnFull secret b (err e, b') = b' ≡ b

  -- A full withdrawal that succeeds found a balance from 1 to `MaxAmount` and returns a credit that
  -- verifies, of the rounded balance. The account is left with 0 and a mutation of the credit's
  -- amount; the difference between the balance and that amount goes to the bank's rounding
  -- mutations. A full withdrawal that fails changes nothing. The rounding
  -- function must give well-formed values.
  pub withdraw_full_unblinded_lem :
      (d : Draw) (secret : List ℕ) (b : Bank)
      → RoundsWell round
      → WithdrawnFull secret b (withdraw_full_unblinded rsa digest round d secret b)
  unfolding withdraw_full_unblinded
  withdraw_full_unblinded_lem d secret b well =
      elim (Option-cases (lookup (key_for_account rsa digest secret) b.accounts)) [
        | inl missing ↦ rw (missing, withdraw_full_unblinded) refl
        | inr (stored, found) ↦ elim (Bool-cases (leb_ℤ stored.balance (pos 0))) [
          | inl none_left ↦ rw (found, none_left, withdraw_full_unblinded) refl
          | inr more ↦ elim (Bool-cases (ltb_ℤ (pos max_amount) stored.balance)) [
            | inl over ↦ rw (found, more, over, withdraw_full_unblinded) refl
            | inr most ↦ elim (Result-cases (round stored.balance)) [
              | inr (e, bad) ↦ rw (found, more, most, bad, withdraw_full_unblinded) refl
              | inl (v, rounds) ↦ elim (Result-cases (issue_unblinded_credit rsa d v)) [
                | inr (e, bad) ↦ rw (found, more, most, rounds, bad, withdraw_full_unblinded) refl
                | inl (credit, issued) ↦
                    let (same, verified) = verify_credit-issue rsa d v credit issued in
                    let (n, is_n, least, greatest) = in_range stored.balance more most in
                    let (a, is_a, small) = amount_or_zero_bound v (well stored.balance v rounds) in
                    let (left, paid) = no_wrap n a greatest small in
                    let kept : wrap64 (stored.balance -ℤ amount_or_zero v)
                        ≡ stored.balance -ℤ amount_or_zero v =
                      rw (is_n, is_a) left in
                    let spent : wrap64 (pos 0 -ℤ amount_or_zero v) ≡ pos 0 -ℤ amount_or_zero v =
                      rw is_a paid in
                    rw (found, more, most, rounds, issued, withdraw_full_unblinded)
                      (rw (kept, spent)
                        (
                          stored,
                          found,
                          rw is_n (omega arith),
                          rw is_n (omega arith),
                          rw same rounds,
                          verified,
                          rw same refl,
                        ))
              ]
            ]
          ]
        ]
      ]
