-- ===== src/Api.antt =====
-- router/api: what a client asks the router for. `ComputeRequestInfo` names the candidates of a request and
-- goes into a header, `ComputeManifestRequest` asks for nodes. The `uuid` package, base64 and the
-- protobuf encoding are parameters, with the law that they read what they wrote.
pub mod Routing
mod Tests
use openpcc.Base.{
  ℕ, ◌≡◌, Bool, true, false, not, ◌||◌, ◌==◌, Option, none, some, List, [], ◌∷◌, suc, length,
  Result, ok, err, if◌then◌else◌,
}
use openpcc.Base.Int.{ℤ, pos, ltb_ℤ}
use openpcc.Tags.{Str, Tags, Error as TagsError, from_slice}
use openpcc.Client.Request.{NodeId, parse_uuid7}

pub data Error : Type 0 where
  no_candidates bad_uuid missing_key bad_limit not_base64 not_protobuf : Error
  bad_candidate : (index : ℕ) → Error → Error
  bad_tags : TagsError → Error

pub record ComputeCandidate : Type 0 where
  pub id : NodeId
  pub encapsulated_key : List ℕ

-- `pb.ComputeCandidate`
pub record CandidateProto : Type 0 where
  pub id : Str
  pub encapsulated_key : List ℕ

abbrev pub max_compute_manifests : ℕ
max_compute_manifests = 500

-- `ComputeManifestRequest`
pub record ManifestRequest : Type 0 where
  pub tags : Tags
  pub limit : ℤ

-- `ComputeManifestRequest.UnmarshalProto`, of the tags and the limit of the message.
pub unmarshal_manifest_request : List Str → (limit : ℤ) → Result Error ManifestRequest
unmarshal_manifest_request tags limit = elim (from_slice tags) [
  | err e ↦ err (bad_tags e)
  | ok tags_list ↦
      if ltb_ℤ limit (pos 0) || ltb_ℤ (pos max_compute_manifests) limit
      then err bad_limit
      else ok (record { tags = tags_list; limit = limit })
]

pub record Encoding : Type 0 where
  pub to_string : NodeId → Str
  pub parse : Str → Option NodeId
  pub version : NodeId → ℕ
  pub to_bytes : List CandidateProto → List ℕ
  pub of_bytes : List ℕ → Option (List CandidateProto)
  pub to_base64 : List ℕ → Str
  pub of_base64 : Str → Option (List ℕ)
  pub parse-to_string : (id : NodeId) → parse (to_string id) ≡ some id
  pub of_bytes-to_bytes : (cs : List CandidateProto) → of_bytes (to_bytes cs) ≡ some cs
  pub of_base64-to_base64 : (bytes : List ℕ) → of_base64 (to_base64 bytes) ≡ some bytes

module _ (enc : Encoding) where
  -- `ComputeCandidate.MarshalProto`
  pub marshal_candidate : ComputeCandidate → CandidateProto
  marshal_candidate c = record { id = enc.to_string c.id; encapsulated_key = c.encapsulated_key }

  -- `ComputeCandidate.UnmarshalProto`
  pub unmarshal_candidate : CandidateProto → Result Error ComputeCandidate
  unmarshal_candidate pbc = elim (parse_uuid7 enc.parse enc.version pbc.id) [
    | none ↦ err bad_uuid
    | some id ↦
        if length pbc.encapsulated_key == 0
        then err missing_key
        else ok (record { id = id; encapsulated_key = pbc.encapsulated_key })
  ]

  -- The loop of `ComputeRequestInfo.MarshalProto`.
  pub marshal_candidates : List ComputeCandidate → List CandidateProto
  marshal_candidates [] = []
  marshal_candidates (c ∷ cs) = marshal_candidate c ∷ marshal_candidates cs

  -- The loop of `ComputeRequestInfo.UnmarshalProto`.
  pub unmarshal_candidates : (i : ℕ) → List CandidateProto → Result Error (List ComputeCandidate)
  unmarshal_candidates i [] = ok []
  unmarshal_candidates i (pbc ∷ pbcs) = elim (unmarshal_candidate pbc) [
    | err e ↦ err (bad_candidate i e)
    | ok c ↦ elim (unmarshal_candidates (suc i) pbcs) [ err e ↦ err e | ok cs ↦ ok (c ∷ cs) ]
  ]

  -- `ComputeRequestInfo.UnmarshalProto`
  pub unmarshal_info : List CandidateProto → Result Error (List ComputeCandidate)
  unmarshal_info pb_candidates =
      if length pb_candidates == 0 then err no_candidates else unmarshal_candidates 0 pb_candidates

  -- `ComputeRequestInfo.MarshalText`
  pub marshal_text : List ComputeCandidate → Str
  marshal_text candidates = enc.to_base64 (enc.to_bytes (marshal_candidates candidates))

  -- `ComputeRequestInfo.UnmarshalText`, with `UnmarshalBinary`
  pub unmarshal_text : Str → Result Error (List ComputeCandidate)
  unmarshal_text p = elim (enc.of_base64 p) [
    | none ↦ err not_base64
    | some b ↦ elim (enc.of_bytes b) [ none ↦ err not_protobuf | some pbc ↦ unmarshal_info pbc ]
  ]
