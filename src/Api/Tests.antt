-- ===== src/Api/Tests.antt =====
-- A routing header for two candidates, over toy encodings: in its bytes each number is raised by one, and a
-- zero ends a string.
use openpcc.Base.{ℕ, zero, suc, ◌≡◌, refl, Option, none, some, List, [], ◌∷◌}
use openpcc.Api.{ComputeCandidate, CandidateProto, Encoding, marshal_text, unmarshal_text}
use openpcc.Api.Routing.{read_back, unmarshal_text-marshal_text}

abbrev write : List ℕ → List ℕ → List ℕ
write [] rest = 0 ∷ rest
write (n ∷ ns) rest = suc n ∷ write ns rest

abbrev put_first : ℕ → List (List ℕ) → List (List ℕ)
put_first n [] = []
put_first n (l ∷ ls) = (n ∷ l) ∷ ls

abbrev split : List ℕ → List (List ℕ)
split [] = []
split (zero ∷ bs) = [] ∷ split bs
split (suc n ∷ bs) = put_first n (split bs)

split-write : (l rest : List ℕ) → split (write l rest) ≡ l ∷ split rest
split-write [] rest = refl
split-write (n ∷ ns) rest = rw (split-write ns rest) refl

abbrev to_bytes : List CandidateProto → List ℕ
to_bytes [] = []
to_bytes (c ∷ cs) = write c.id (write c.encapsulated_key (to_bytes cs))

abbrev in_pairs : List (List ℕ) → Option (List CandidateProto)
in_pairs [] = some []
in_pairs (id ∷ []) = none
in_pairs (id ∷ key ∷ rest) = elim (in_pairs rest) [
  | none ↦ none
  | some cs ↦ some (record { id = id; encapsulated_key = key } ∷ cs)
]

of_bytes-to_bytes : (cs : List CandidateProto) → in_pairs (split (to_bytes cs)) ≡ some cs
of_bytes-to_bytes [] = refl
of_bytes-to_bytes (c ∷ cs) =
    rw
      (
        to_bytes,
        split-write c.id (write c.encapsulated_key (to_bytes cs)),
        split-write c.encapsulated_key (to_bytes cs),
        in_pairs,
        of_bytes-to_bytes cs,
      )
      refl

abbrev toy : Encoding
toy = record {
  to_string = λ id. id;
  parse = λ s. some s;
  version = λ id. 7;
  to_bytes = to_bytes;
  of_bytes = λ bytes. in_pairs (split bytes);
  to_base64 = λ bytes. bytes;
  of_base64 = λ s. some s;
  parse-to_string = λ id. refl;
  of_bytes-to_bytes = of_bytes-to_bytes;
  of_base64-to_base64 = λ bytes. refl;
}

abbrev candidates : List ComputeCandidate
candidates =
    record { id = 1 ∷ 2 ∷ []; encapsulated_key = 9 ∷ [] }
    ∷ record { id = 3 ∷ []; encapsulated_key = 8 ∷ 0 ∷ [] }
    ∷ []

unmarshal_text-marshal_text_example :
    unmarshal_text toy (marshal_text toy candidates) ≡ read_back candidates
unmarshal_text-marshal_text_example =
    unmarshal_text-marshal_text toy candidates ((refl, refl), ((refl, refl), tt))
