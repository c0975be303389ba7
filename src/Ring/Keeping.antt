-- ===== src/Ring/Keeping.antt =====
-- What the removal of a router takes out of the maps and the list of positions of the ring.
use openpcc.Base.{
  ℕ, ◌+◌, ◌-◌, ◌≡◌, refl, ◌∙◌, Bool, true, false, not, ◌&&◌, ◌||◌, ◌==◌, ==→eq, ==_refl, Option,
  none, some, List, [], ◌∷◌, inl, inr, arith, Bool-cases, if◌then◌else◌,
}
use openpcc.Base.Dict.{Dict, lookup, erase, lookup-erase, nat_eq, list_eq, ◌===◌}
use openpcc.Ring.{Uuid, Ring, zero_uuid, or_zero, owner_of, remove_loop, remove_router}

-- Whether a position is one of a list.
abbrev pub has_position : ℕ → List ℕ → Bool
has_position p [] = false
has_position p (q ∷ qs) = (p == q) || has_position p qs

-- What the map of positions holds after the loop.
abbrev pub left_over : Uuid → List ℕ → Dict ℕ Uuid → ℕ → Option Uuid
left_over router_id positions m p =
    if has_position p positions && (owner_of p m === router_id) then none else lookup p m

owner_of-erase :
    (router_id : Uuid) (p q : ℕ) (m : Dict ℕ Uuid)
    → (zero_uuid === router_id) ≡ false
    → (owner_of q m === router_id) ≡ true
    → owner_of p (erase q m) === router_id ≡ (owner_of p m === router_id) && not (p == q)
owner_of-erase router_id p q m nonzero owned = elim (Bool-cases (p == q)) [
  | inl same ↦ rw (lookup-erase p q m, same) (ground (arith, nonzero, same))
  | inr other ↦ rw (lookup-erase p q m, other) (ground (arith, other))
]

after_erase :
    (router_id : Uuid) (qs : List ℕ) (m : Dict ℕ Uuid) (p q : ℕ)
    → (zero_uuid === router_id) ≡ false
    → (owner_of q m === router_id) ≡ true
    → left_over router_id qs (erase q m) p ≡ left_over router_id (q ∷ qs) m p
after_erase router_id qs m p q nonzero owned = elim (Bool-cases (p == q)) [
  | inl same ↦ rw (lookup-erase p q m, same, ==→eq p q same) (rw (owned, nonzero) (ground arith))
  | inr apart ↦ rw (lookup-erase p q m, apart) refl
]

remove_loop-lookup :
    (router_id : Uuid) (positions : List ℕ) (m : Dict ℕ Uuid) (p : ℕ)
    → (zero_uuid === router_id) ≡ false
    → lookup p (remove_loop router_id positions m).1 ≡ left_over router_id positions m p
unfolding remove_loop
remove_loop-lookup router_id [] m p nonzero = refl
remove_loop-lookup router_id (q ∷ qs) m p nonzero = elim (Bool-cases (owner_of q m === router_id)) [
  | inr other ↦
      rw (remove_loop, other)
        (elim (Bool-cases (p == q)) [
          | inl same ↦
              rw (==→eq p q same)
                (ground (arith, ==_refl q, other, remove_loop-lookup router_id qs m q nonzero))
          | inr apart ↦ ground (arith, apart, remove_loop-lookup router_id qs m p nonzero)
        ])
  | inl owned ↦
      let rest = remove_loop-lookup router_id qs (erase q m) p nonzero in
      rw (remove_loop, owned) (rest ∙ after_erase router_id qs m p q nonzero owned)
]

-- How often a position stands in a list.
abbrev pub count_position : ℕ → List ℕ → ℕ
count_position p [] = 0
count_position p (q ∷ qs) = (if p == q then 1 else 0) + count_position p qs

-- What a removal leaves of the occurrences of a position.
abbrev pub left_count : Uuid → List ℕ → Dict ℕ Uuid → ℕ → ℕ
left_count router_id positions m p =
    if owner_of p m === router_id
    then count_position p positions - 1
    else count_position p positions

remove_loop-count :
    (router_id : Uuid) (positions : List ℕ) (m : Dict ℕ Uuid) (p : ℕ)
    → (zero_uuid === router_id) ≡ false
    → count_position p (remove_loop router_id positions m).0 ≡ left_count router_id positions m p
unfolding remove_loop
remove_loop-count router_id [] m p nonzero = ground arith
remove_loop-count router_id (q ∷ qs) m p nonzero = elim (Bool-cases (owner_of q m === router_id)) [
  | inl owned ↦
      rw (remove_loop, owned)
        (elim (Bool-cases (p == q)) [
          | inl same ↦
              let rest = remove_loop-count router_id qs (erase q m) q nonzero in
              let gone = owner_of-erase router_id q q m nonzero owned in
              rw (==→eq p q same) (ground (arith, rest, gone, ==_refl q, owned))
          | inr apart ↦
              let rest = remove_loop-count router_id qs (erase q m) p nonzero in
              let kept = owner_of-erase router_id p q m nonzero owned in
              ground (arith, rest, kept, apart)
        ])
  | inr other ↦
      rw (remove_loop, other)
        (elim (Bool-cases (p == q)) [
          | inl same ↦
              let rest = remove_loop-count router_id qs m q nonzero in
              rw (==→eq p q same) (ground (arith, rest, ==_refl q, other))
          | inr apart ↦
              let rest = remove_loop-count router_id qs m p nonzero in ground (arith, rest, apart)
        ])
]

-- Removing a known router, whose identifier is not zero, takes it and no other out of the routers. Each
-- of its positions is taken out of the map, and out of the list of positions once; no other position is
-- taken out of either, and no position of the ring is its own afterwards.
pub remove_router_lem :
    (router_id id : Uuid) (p : ℕ) (r : Ring)
    → (zero_uuid === router_id) ≡ false
    → lookup router_id r.routers ≡ some tt
    → let r' = remove_router router_id r in
      (lookup id r'.routers ≡ (if id === router_id then none else lookup id r.routers))
      × (lookup p r'.pos_to_router ≡ left_over router_id r.positions r.pos_to_router p)
      × ((owner_of p r'.pos_to_router === router_id)
          ≡ (owner_of p r.pos_to_router === router_id) && not (has_position p r.positions))
      × (count_position p r'.positions ≡ left_count router_id r.positions r.pos_to_router p)
unfolding remove_router
remove_router_lem router_id id p r nonzero known =
    let left = remove_loop-lookup router_id r.positions r.pos_to_router p nonzero in
    rw (remove_router, known)
      (
        lookup-erase id router_id r.routers,
        left,
        rw left (owner_left router_id p r nonzero),
        remove_loop-count router_id r.positions r.pos_to_router p nonzero,
      )
  where
    owner_left :
        (router_id : Uuid) (p : ℕ) (r : Ring)
        → (zero_uuid === router_id) ≡ false
        → (or_zero (left_over router_id r.positions r.pos_to_router p) === router_id)
          ≡ (owner_of p r.pos_to_router === router_id) && not (has_position p r.positions)
    owner_left router_id p r nonzero = elim (Bool-cases (has_position p r.positions)) [
      | inr absent ↦ rw absent (ground arith)
      | inl here ↦ rw here (elim (Bool-cases (owner_of p r.pos_to_router === router_id)) [
        | inl owned ↦ rw owned nonzero
        | inr other ↦ rw (or_zero, other) (ground (arith, other))
      ])
    ]
