-- ===== src/Credit/Protocol.antt =====
-- Blind signing between payee and issuer: what it ends in verifies, and ends once.
use openpcc.Base.{
  ℕ, ◌≡◌, refl, true, false, Option, none, some, List, ok, err, arith, inl, inr, Result-cases,
}
use openpcc.Currency.{Value, blind_bytes as value_bytes}
use openpcc.Nonce.{blind_bytes as nonce_bytes}
use openpcc.Credit.{
  Credit, blinded, unblinded, already_finalized, BlindSignRequest, PartiallyBlindRsa, Draw,
  UnsignedCredit, new_unsigned_credit, finalize, blind_sign, verify_credit, issue_unblinded_credit,
  BlindSignState, begin_blinded_credit, request, finalize_blinded,
}

abbrev factor_of : Option ℕ → ℕ
factor_of none = 0
factor_of (some r) = r

module _ (rsa : PartiallyBlindRsa) where
  -- An unsigned credit is what the scheme blinds, with its nonce's and its value's messages.
  new_unsigned_credit-fixed_blind :
      (d : Draw) (v : Value) (m : List ℕ) (c : UnsignedCredit rsa)
      → new_unsigned_credit rsa d v ≡ ok (m, c)
      → (c.finalized ≡ false)
        × (rsa.fixed_blind (nonce_bytes c.nonce) (value_bytes v) (factor_of d.blinding_factor)
            ≡ some (m, c.state))
  unfolding new_unsigned_credit
  new_unsigned_credit-fixed_blind d v m c made = ground arith

  blind_sign-signed :
      (r : BlindSignRequest) (s : List ℕ)
      → blind_sign rsa r ≡ ok s
      → rsa.blind_sign r.blinded_message (value_bytes r.value) ≡ some s
  unfolding blind_sign
  blind_sign-signed r s signed = ground arith

  -- A new unsigned credit whose message was signed for its value is finalized, to a signature that
  -- verifies for its nonce and the value.
  finalize_lem :
      (d : Draw) (v : Value) (m s : List ℕ) (c : UnsignedCredit rsa)
      → new_unsigned_credit rsa d v ≡ ok (m, c)
      → blind_sign rsa (record { value = v; blinded_message = m }) ≡ ok s
      → (signature : List ℕ) × (finalize rsa c s
          ≡ (ok (c.nonce, signature), record c { finalized = true }))
        × (rsa.verify (nonce_bytes c.nonce) (value_bytes v) signature ≡ true)
  unfolding finalize
  finalize_lem d v m s c made signed =
      let (fresh, blinds) = new_unsigned_credit-fixed_blind d v m c made in
      let (signature, ends, verifies) =
        rsa.finalize-verify (nonce_bytes c.nonce) (value_bytes v) m s (factor_of d.blinding_factor)
          c.state blinds (blind_sign-signed (record { value = v; blinded_message = m }) s signed) in
      (signature, rw (fresh, ends), verifies)

  begun_lem :
      (d : Draw) (v : Value) (c : BlindSignState rsa)
      → begin_blinded_credit rsa d v ≡ ok c
      → (c.value ≡ v) × (new_unsigned_credit rsa d v ≡ ok (c.blinded_message, c.state))
  unfolding begin_blinded_credit
  begun_lem d v c begun = ground arith

  spent_lem :
      (c : UnsignedCredit rsa) (s : List ℕ)
      → c.finalized ≡ true
      → (finalize rsa c s).0 ≡ err already_finalized
  unfolding finalize
  spent_lem c s done = rw done

  verified_lem :
      (c : Credit blinded)
      → rsa.verify (nonce_bytes c.nonce) (value_bytes c.value) c.signature ≡ true
      → verify_credit rsa c ≡ ok tt
  unfolding verify_credit
  verified_lem c verifies = rw verifies

  -- A payee's request that the issuer signs is finalized to a credit of the value that was asked for,
  -- which verifies; any later attempt to finalize it fails.
  pub finalize_blinded-blind_sign :
      (d : Draw) (v : Value) (c : BlindSignState rsa) (s : List ℕ)
      → begin_blinded_credit rsa d v ≡ ok c
      → blind_sign rsa (request rsa c) ≡ ok s
      → (credit : Credit blinded) × ((finalize_blinded rsa c s).0 ≡ ok credit)
        × (credit.value ≡ v)
        × (verify_credit rsa credit ≡ ok tt)
        × ((s' : List ℕ)
            → (finalize_blinded rsa (finalize_blinded rsa c s).1 s').0 ≡ err already_finalized)
  unfolding finalize_blinded request
  finalize_blinded-blind_sign d v c s begun signed =
      let (same, made) = begun_lem d v c begun in
      let (signature, ends, verifies) =
        finalize_lem d v c.blinded_message s c.state made (rw same at signed) in
      let credit : Credit blinded = record {
        value = v;
        nonce = c.state.nonce;
        signature = signature;
      } in
      (
        credit,
        rw (ends, same),
        refl,
        verified_lem credit verifies,
        λ s'. rw ends (rw (spent_lem (record c.state { finalized = true }) s' refl)),
      )

  -- A credit that the issuer makes on its own has the value asked for, and verifies.
  pub verify_credit-issue :
      (d : Draw) (v : Value) (c : Credit unblinded)
      → issue_unblinded_credit rsa d v ≡ ok c
      → (c.value ≡ v) × (verify_credit rsa c ≡ ok tt)
  unfolding issue_unblinded_credit verify_credit
  verify_credit-issue d v c issued = elim (Result-cases (new_unsigned_credit rsa d v)) [
    | inr (e, failed) ↦ absurd (cc (rw failed at issued))
    | inl ((m, u), made) ↦
        elim (Result-cases (blind_sign rsa (record { value = v; blinded_message = m }))) [
          | inr (e, failed) ↦ absurd (cc (rw (made, failed) at issued))
          | inl (s, signed) ↦
              let (signature, ends, verifies) = finalize_lem d v m s u made signed in
              let same : record { value = v; nonce = u.nonce; signature = signature } ≡ c =
                ground (arith, rw (made, signed, ends) at issued) in
              rw (← same, verifies) (refl, refl)
        ]
  ]
