-- ===== src/Api/Routing.antt =====
-- The routing header that a client writes is the one that the router reads.
use openpcc.Base.{
  ℕ, suc, ◌≡◌, refl, false, ◌==◌, List, [], ◌∷◌, length, Result, ok, err, All, arith,
}
use openpcc.Client.Request.{parse_uuid7}
use openpcc.Api.{
  ComputeCandidate, Error, Encoding, no_candidates, marshal_candidate, unmarshal_candidate,
  marshal_candidates, unmarshal_candidates, unmarshal_info, marshal_text, unmarshal_text,
}

-- What reading back a list of candidates gives.
abbrev pub read_back : List ComputeCandidate → Result Error (List ComputeCandidate)
read_back [] = err no_candidates
read_back (c ∷ cs) = ok (c ∷ cs)

module _ (enc : Encoding) where
  -- A candidate with an identifier of version 7 and a key.
  abbrev pub IsComplete : ComputeCandidate → Type 0
  IsComplete c = (enc.version c.id ≡ 7) × ((length c.encapsulated_key == 0) ≡ false)

  unmarshal-marshal_candidate :
      (c : ComputeCandidate)
      → IsComplete c
      → unmarshal_candidate enc (marshal_candidate enc c) ≡ ok c
  unfolding unmarshal_candidate marshal_candidate parse_uuid7
  unmarshal-marshal_candidate c (seven, key) =
      rw (unmarshal_candidate, parse_uuid7, enc.parse-to_string c.id, seven, key) refl

  unmarshal-marshal_candidates :
      (i : ℕ) (cs : List ComputeCandidate)
      → All IsComplete cs
      → unmarshal_candidates enc i (marshal_candidates enc cs) ≡ ok cs
  unfolding unmarshal_candidates marshal_candidates
  unmarshal-marshal_candidates i [] complete = refl
  unmarshal-marshal_candidates i (c ∷ cs) (first, complete) = rw (
    unmarshal_candidates,
    unmarshal-marshal_candidate c first,
    unmarshal-marshal_candidates (suc i) cs complete,
  )

  unmarshal_info-candidates :
      (cs : List ComputeCandidate)
      → All IsComplete cs
      → unmarshal_info enc (marshal_candidates enc cs) ≡ read_back cs
  unfolding unmarshal_info marshal_candidates
  unmarshal_info-candidates [] complete = refl
  unmarshal_info-candidates (c ∷ cs) complete =
      let some_given : (length (marshal_candidates enc (c ∷ cs)) == 0) ≡ false = ground arith in
      rw (unmarshal_info, some_given) (unmarshal-marshal_candidates 0 (c ∷ cs) complete)

  -- The routing header of complete candidates is read back as them, in order, and refused only if there
  -- are none.
  pub unmarshal_text-marshal_text :
      (cs : List ComputeCandidate)
      → All IsComplete cs
      → unmarshal_text enc (marshal_text enc cs) ≡ read_back cs
  unfolding unmarshal_text marshal_text
  unmarshal_text-marshal_text cs complete =
      let pbcs = marshal_candidates enc cs in
      rw (unmarshal_text, enc.of_base64-to_base64 (enc.to_bytes pbcs), enc.of_bytes-to_bytes pbcs)
        (unmarshal_info-candidates cs complete)
