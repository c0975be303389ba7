-- ===== src/Bank/Requests.antt =====
-- The checks of a withdrawal's requests: what they let through, and the sum that they return.
use openpcc.Base.{
  ℕ, zero, suc, ◌+◌, ◌*◌, ◌^◌, ◌≤◌, ◌<◌, ◌≡◌, refl, true, false, List, [], ◌∷◌, All, length, ok,
  err, inl, inr, Bool-cases, Result-cases, arith,
}
use openpcc.Base.Int.{ℤ, pos, ◌+ℤ◌}
use openpcc.Base.Words.{wrap64_small}
use openpcc.Base.Dict.{list_eq, ◌===◌, eq_of_beq, beq_refl}
use openpcc.Currency.{Value, amount, max_amount, Error as CurrencyError}
use openpcc.Currency.Exact.{IsWellFormed}
use openpcc.Currency.Inverse.{amount_bound}
use openpcc.Credit.{BlindSignRequest}
use openpcc.Bank.{check_requests, contains}

-- What a value adds to the sum; a special value adds nothing.
abbrev pub worth : Value → ℕ
worth v = elim (amount v) [ ok (pos a) ↦ a | _ ↦ 0 ]

abbrev pub total : List BlindSignRequest → ℕ
total [] = 0
total (req ∷ reqs) = worth req.value + total reqs

abbrev pub messages : List BlindSignRequest → List (List ℕ)
messages [] = []
messages (req ∷ reqs) = req.blinded_message ∷ messages reqs

abbrev pub Distinct : List (List ℕ) → Type 0
Distinct [] = Unit
Distinct (k ∷ ks) = (contains k ks ≡ false) × Distinct ks

abbrev pub HasAmount : BlindSignRequest → Type 0
HasAmount req = (a : ℕ) × (amount req.value ≡ ok (pos (suc a))) × (suc a ≤ max_amount)

abbrev pub IsFromWire : BlindSignRequest → Type 0
IsFromWire req = IsWellFormed req.value

module _ (req : BlindSignRequest) (reqs : List BlindSignRequest) (seen : List (List ℕ))
    (n : ℕ) where
  zero_refused :
      (s : ℤ) → amount req.value ≡ ok (pos 0) → ¬ (check_requests (req ∷ reqs) seen (pos n) ≡ ok s)
  unfolding check_requests
  zero_refused s reads passed = ground (arith, reads)

  special_refused :
      (e : CurrencyError) (s : ℤ)
      → amount req.value ≡ err e
      → ¬ (check_requests (req ∷ reqs) seen (pos n) ≡ ok s)
  unfolding check_requests
  special_refused e s special passed = ground (arith, special)

  positive :
      (a : ℕ) (s : ℤ)
      → amount req.value ≡ ok (pos a)
      → a ≤ max_amount
      → check_requests (req ∷ reqs) seen (pos n) ≡ ok s
      → HasAmount req
  positive zero s reads most passed = absurd (zero_refused s reads passed)
  positive (suc a) s reads most passed = (a, reads, most)

  checked-HasAmount :
      (s : ℤ) → IsFromWire req → check_requests (req ∷ reqs) seen (pos n) ≡ ok s → HasAmount req
  checked-HasAmount s wf passed = elim (Result-cases (amount req.value)) [
    | inr (e, special) ↦ absurd (special_refused e s special passed)
    | inl (z, reads) ↦
        let (a, is_a, most) = amount_bound req.value z wf reads in
        positive a s (rw is_a at reads) most passed
  ]

  one_more :
      (a : ℕ) (s : ℤ)
      → amount req.value ≡ ok (pos (suc a))
      → n + suc a < 2 ^ 63
      → check_requests (req ∷ reqs) seen (pos n) ≡ ok s
      → (contains req.blinded_message seen ≡ false)
        × (check_requests reqs (req.blinded_message ∷ seen) (pos (n + suc a)) ≡ ok s)
  unfolding check_requests ◌+ℤ◌
  one_more a s reads small passed =
      ground (arith, reads, wrap64_small (pos (n + suc a)) small (omega arith))

  -- One round of the loop.
  check_requests_step :
      (s : ℤ)
      → IsFromWire req
      → n + max_amount < 2 ^ 63
      → check_requests (req ∷ reqs) seen (pos n) ≡ ok s
      → (contains req.blinded_message seen ≡ false)
        × HasAmount req
        × (check_requests reqs (req.blinded_message ∷ seen) (pos (n + worth req.value)) ≡ ok s)
  check_requests_step s wf small passed =
      let (a, reads, most) = checked-HasAmount s wf passed in
      let (fresh, rest) = one_more a s reads (omega arith) passed in
      (fresh, (a, reads, most), rw (reads, worth) rest)

-- No message that is seen stands among the requests that pass.
not_seen :
    (reqs : List BlindSignRequest) (seen : List (List ℕ)) (n : ℕ) (s : ℤ)
    → All IsFromWire reqs
    → n + length reqs * max_amount < 2 ^ 63
    → check_requests reqs seen (pos n) ≡ ok s
    → (k : List ℕ) → contains k seen ≡ true
    → contains k (messages reqs) ≡ false
unfolding contains
not_seen [] seen n s wf small passed k old = refl
not_seen (req ∷ reqs) seen n s wf small passed k old =
    let (fresh, (a, reads, most), rest) =
      check_requests_step req reqs seen n s wf.0 (omega arith) passed in
    let amounts : worth req.value ≡ suc a = rw (reads, worth) refl in
    let later =
      not_seen reqs (req.blinded_message ∷ seen) (n + worth req.value) s wf.1 (omega arith) rest
        k in
    elim (Bool-cases (k === req.blinded_message)) [
      | inl same ↦ absurd (cc (fresh, old, rw (eq_of_beq k req.blinded_message same) at old))
      | inr other ↦ rw other (later (rw other old))
    ]

-- Requests that pass have distinct messages, each an amount above zero, and `sum` is the sum
-- of the amounts.
pub check_requests_lem :
    (reqs : List BlindSignRequest) (seen : List (List ℕ)) (n : ℕ) (s : ℤ)
    → All IsFromWire reqs
    → n + length reqs * max_amount < 2 ^ 63
    → check_requests reqs seen (pos n) ≡ ok s
    → (s ≡ pos (n + total reqs))
      × (length reqs ≤ total reqs)
      × (total reqs ≤ length reqs * max_amount)
      × All HasAmount reqs
      × Distinct (messages reqs)
unfolding contains check_requests
check_requests_lem [] seen n s wf small passed = ground arith
check_requests_lem (req ∷ reqs) seen n s wf small passed =
    let (fresh, (a, reads, most), rest) =
      check_requests_step req reqs seen n s wf.0 (omega arith) passed in
    let amounts : worth req.value ≡ suc a = rw (reads, worth) refl in
    let (is_sum, least, greatest, each, apart) =
      check_requests_lem reqs (req.blinded_message ∷ seen) (n + worth req.value) s wf.1
        (omega arith) rest in
    (
      ground arith,
      omega arith,
      omega arith,
      ((a, reads, most), each),
      (
        not_seen reqs (req.blinded_message ∷ seen) (n + worth req.value) s wf.1 (omega arith) rest
            req.blinded_message (rw (beq_refl req.blinded_message)),
        apart,
      ),
    )
