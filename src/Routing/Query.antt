-- ===== src/Routing/Query.antt =====
-- A query for manifests against its description as a prefix of the matching nodes.
use openpcc.Base.{
  ℕ, suc, zero, ◌-◌, ◌≤◌, ◌≡◌, refl, Bool, List, [], ◌∷◌, ◌++◌, length, length-append, take, inl,
  inr, arith, Bool-cases, if◌then◌else◌,
}
use mathlib.Core.List.{append_assoc, append-nil}
use openpcc.Base.Int.{ℤ, pos, negsuc, pos_part, leb_ℤ}
use openpcc.Base.Dict.{Dict, int_eq, ◌===◌}
use openpcc.Router.{NodeId}
use openpcc.Routing.{query_loop, query_compute_manifests}

take-nil : {A : Type 0} (n : ℕ) → take {A = A} n [] ≡ []
take-nil zero = refl
take-nil (suc n) = refl

take-room :
    {A : Type 0} (limit n : ℕ) (x : A) (xs : List A)
    → suc n ≤ limit
    → take (limit - n) (x ∷ xs) ≡ x ∷ take (limit - suc n) xs
take-room limit n x xs le =
    let more : limit - n ≡ suc (limit - suc n) = omega (arith, le) in rw more refl

module _ {RoutingInfo Manifest : Type 0} (contains_all : RoutingInfo → Bool)
    (manifest : NodeId → RoutingInfo → Manifest) where
  -- The manifests of the nodes that pass the test, in the order of the map.
  abbrev pub matching : Dict NodeId RoutingInfo → List Manifest
  matching [] = []
  matching ((id, node) ∷ nodes) =
      if contains_all node then manifest id node ∷ matching nodes else matching nodes

  query_loop-take :
      (limit : ℕ) (nodes : Dict NodeId RoutingInfo) (list : List Manifest)
      → length list ≤ limit
      → query_loop contains_all manifest (pos limit) nodes list
        ≡ list ++ take (limit - length list) (matching nodes)
  unfolding query_loop
  query_loop-take limit [] list le = rw (take-nil (limit - length list), append-nil list) refl
  query_loop-take limit ((id, node) ∷ nodes) list le =
      elim (Bool-cases (pos (length list) === pos limit)) [
        | inl full ↦
            let none_left : limit - length list ≡ 0 = ground (arith, full) in
            rw (full, none_left, append-nil list) refl
        | inr room ↦ elim (Bool-cases (contains_all node)) [
          | inl h ↦
              let x = manifest id node in
              let longer : length (list ++ x ∷ []) ≡ suc (length list) =
                omega (arith, length-append list (x ∷ [])) in
              let fits : suc (length list) ≤ limit = ground (arith, le, room) in
              let ih = query_loop-take limit nodes (list ++ x ∷ []) (omega (arith, longer, fits)) in
              rw
                (
                  query_loop,
                  room,
                  h,
                  ih,
                  longer,
                  take-room limit (length list) x (matching nodes) fits,
                )
                (append_assoc list (x ∷ []) (take (limit - suc (length list)) (matching nodes)))
          | inr h ↦ rw (query_loop, room, h) (query_loop-take limit nodes list le)
        ]
      ]

  -- A query returns the first matching nodes of the map, as many as the limit says, and none for a
  -- limit that is not positive.
  pub query_compute_manifests-take :
      (limit : ℤ) (nodes : Dict NodeId RoutingInfo)
      → query_compute_manifests contains_all manifest limit nodes
        ≡ take (pos_part limit) (matching nodes)
  unfolding query_compute_manifests
  query_compute_manifests-take (pos limit) nodes =
      let whole = query_loop-take limit nodes [] (omega arith) in
      elim (Bool-cases (leb_ℤ (pos limit) (pos 0))) [
        | inl h ↦ let empty : limit ≡ 0 = ground (arith, h) in rw (h, empty) refl
        | inr h ↦ let all : limit - 0 ≡ limit = omega arith in rw (h, whole, all) refl
      ]
  query_compute_manifests-take (negsuc n) nodes = ground arith
