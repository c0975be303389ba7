-- ===== src/Bank/Withdraw.antt =====
-- Withdrawals from the in-memory bank, on every branch.
use openpcc.Base.{
  ℕ, ◌^◌, ◌≤◌, ◌<◌, ◌≡◌, refl, false, some, List, [], ◌∷◌, ◌++◌, All, length, Result, ok, err, inl,
  inr, Bool-cases, Result-cases, Option-cases, arith,
}
use openpcc.Base.Int.{ℤ, pos, pos_part, ltb_ℤ, ◌≤ℤ◌, ◌-ℤ◌}
use openpcc.Base.Words.{wrap64, wrap64_small}
use openpcc.Base.Dict.{list_eq, lookup, insert}
use openpcc.Credit.{BlindSignRequest, PartiallyBlindRsa}
use openpcc.Bank.{
  Bank, StoredAccount, Error, max_reqs, check_requests, sign_requests, check_batch, key_for_account,
  withdraw_batch,
}
use openpcc.Bank.Requests.{total, messages, Distinct, HasAmount, IsFromWire, check_requests_lem}

abbrev pub IsBatch : List BlindSignRequest → Type 0
IsBatch reqs =
    (1 ≤ length reqs)
    × (length reqs ≤ max_reqs)
    × All HasAmount reqs
    × Distinct (messages reqs)
    × (length reqs ≤ total reqs)

-- Balances that an int64 holds.
abbrev pub IsSound : Bank → Type 0
IsSound b =
    (key : List ℕ) (stored : StoredAccount)
    → lookup key b.accounts ≡ some stored
    → pos_part stored.balance < 2 ^ 63

-- A payment that the balance covers does not wrap around.
payment :
    (balance : ℤ) (t : ℕ)
    → pos_part balance < 2 ^ 63
    → t < 2 ^ 63
    → ltb_ℤ balance (pos t) ≡ false
    → (pos t ≤ℤ balance)
      × (wrap64 (balance -ℤ pos t) ≡ balance -ℤ pos t)
      × (wrap64 (pos 0 -ℤ pos t) ≡ pos 0 -ℤ pos t)
unfolding ◌-ℤ◌
payment balance t held small enough = (
  ground arith,
  wrap64_small (balance -ℤ pos t) (ground arith) (ground arith),
  wrap64_small (pos 0 -ℤ pos t) (ground arith) (ground arith),
)

module _ (rsa : PartiallyBlindRsa) (digest : List ℕ) where
  length-sign_requests :
      (reqs : List BlindSignRequest) (sigs : List (List ℕ))
      → sign_requests rsa digest reqs ≡ ok sigs
      → length sigs ≡ length reqs
  unfolding sign_requests
  length-sign_requests [] sigs signed = ground arith
  length-sign_requests (req ∷ reqs) sigs signed =
      elim (Result-cases (sign_requests rsa digest reqs)) [
        | inl (rest, made) ↦ ground (arith, made, length-sign_requests reqs rest made)
        | inr (e, bad) ↦ ground (arith, bad)
      ]

  check_batch_parts :
      (reqs : List BlindSignRequest) (sum : ℤ) (sigs : List (List ℕ))
      → check_batch rsa digest reqs ≡ ok (sum, sigs)
      → (1 ≤ length reqs)
        × (length reqs ≤ max_reqs)
        × (check_requests reqs [] (pos 0) ≡ ok sum)
        × (sign_requests rsa digest reqs ≡ ok sigs)
  unfolding check_batch
  check_batch_parts reqs sum sigs passed = ground arith

  check_batch_lem :
      (reqs : List BlindSignRequest) (sum : ℤ) (sigs : List (List ℕ))
      → All IsFromWire reqs
      → check_batch rsa digest reqs ≡ ok (sum, sigs)
      → IsBatch reqs
        × (sum ≡ pos (total reqs))
        × (total reqs < 2 ^ 63)
        × (sign_requests rsa digest reqs ≡ ok sigs)
  check_batch_lem reqs sum sigs wire passed =
      let (some_given, few, checked, signed) = check_batch_parts reqs sum sigs passed in
      let (is_sum, least, most, each, apart) =
        check_requests_lem reqs [] 0 sum wire (omega arith) checked in
      ((some_given, few, each, apart, least), ground arith, omega arith, signed)

  -- What `WithdrawBatch` returns, and how it leaves the bank.
  abbrev pub Withdrawn :
      (secret : List ℕ)
      → List BlindSignRequest
      → Bank
      → Result Error (ℤ × List (List ℕ)) × Bank
      → Type 0
  Withdrawn secret reqs b (ok (balance, sigs), b') =
      (stored : StoredAccount) × (lookup (key_for_account rsa digest secret) b.accounts
        ≡ some stored)
      × IsBatch reqs
      × (pos (total reqs) ≤ℤ stored.balance)
      × (balance ≡ stored.balance -ℤ pos (total reqs))
      × (sign_requests rsa digest reqs ≡ ok sigs)
      × (length sigs ≡ length reqs)
      × (b' ≡ record b {
        accounts =
            insert (key_for_account rsa digest secret)
              (record {
                balance = balance;
                mutations = stored.mutations ++ (pos 0 -ℤ pos (total reqs)) ∷ [];
              })
              b.accounts;
      })
  Withdrawn secret reqs b (err e, b') = b' ≡ b

  -- A batch that is withdrawn has 1 to 15 requests with distinct messages, each for an amount above
  -- zero; one signature is made for each request, and the account, whose balance was enough, pays
  -- exactly the sum of the amounts. A withdrawal that fails changes nothing. The bank's balances
  -- must be int64s, and the requests' values well formed.
  pub withdraw_batch_lem :
      (secret : List ℕ) (reqs : List BlindSignRequest) (b : Bank)
      → IsSound b
      → All IsFromWire reqs
      → Withdrawn secret reqs b (withdraw_batch rsa digest secret reqs b)
  unfolding withdraw_batch
  withdraw_batch_lem secret reqs b sound wire = elim (Result-cases (check_batch rsa digest reqs)) [
    | inr (e, bad) ↦ rw (bad, withdraw_batch) refl
    | inl ((sum, sigs), passed) ↦
        let (batch, is_sum, small, signed) = check_batch_lem reqs sum sigs wire passed in
        elim (Option-cases (lookup (key_for_account rsa digest secret) b.accounts)) [
          | inl missing ↦ rw (passed, missing, withdraw_batch) refl
          | inr (stored, found) ↦
              let held = sound (key_for_account rsa digest secret) stored found in
              elim (Bool-cases (ltb_ℤ stored.balance sum)) [
                | inl poor ↦ rw (passed, found, poor, withdraw_batch) refl
                | inr enough ↦
                    let (covered, left, paid) =
                      payment stored.balance (total reqs) held small (rw is_sum at enough) in
                    rw (rw is_sum at passed, found, rw is_sum at enough, withdraw_batch)
                      (rw (left, paid)
                        (
                          stored,
                          found,
                          batch,
                          covered,
                          refl,
                          signed,
                          length-sign_requests reqs sigs signed,
                          refl,
                        ))
              ]
        ]
  ]
