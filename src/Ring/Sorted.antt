-- ===== src/Ring/Sorted.antt =====
-- The positions of a ring are sorted after any additions and removals of routers.
use openpcc.Base.{
  ℕ, ◌≤◌, List, [], ◌∷◌, All, inl, inr, arith, Bool-cases, Option-cases, leb, leb→le, leb-false,
}
use openpcc.Base.Dict.{Dict, lookup, erase, nat_eq, list_eq, ◌===◌}
use openpcc.Ring.{
  Uuid, Ring, new_ring, owner_of, remove_loop, remove_router, add_router, insert_pos,
  sort_positions,
}

abbrev pub IsSorted : List ℕ → Type 0
IsSorted [] = Unit
IsSorted (p ∷ ps) = All (λ q. p ≤ q) ps × IsSorted ps

All-mono : (p q : ℕ) (ps : List ℕ) → p ≤ q → All (λ x. q ≤ x) ps → All (λ x. p ≤ x) ps
All-mono p q [] h all = tt
All-mono p q (x ∷ ps) h (here, all) = (omega (arith, h, here), All-mono p q ps h all)

insert_pos-All :
    (p q : ℕ) (ps : List ℕ) → p ≤ q → All (λ x. p ≤ x) ps → All (λ x. p ≤ x) (insert_pos q ps)
unfolding insert_pos
insert_pos-All p q [] h all = (h, tt)
insert_pos-All p q (x ∷ ps) h (here, all) = elim (Bool-cases (leb q x)) [
  | inl below ↦ rw (insert_pos, below) (h, (here, all))
  | inr above ↦ rw (insert_pos, above) (here, insert_pos-All p q ps h all)
]

insert_pos-IsSorted : (q : ℕ) (ps : List ℕ) → IsSorted ps → IsSorted (insert_pos q ps)
unfolding insert_pos
insert_pos-IsSorted q [] sorted = (tt, tt)
insert_pos-IsSorted q (x ∷ ps) (all, sorted) = elim (Bool-cases (leb q x)) [
  | inl below ↦
      let h = leb→le q x below in rw (insert_pos, below) ((h, All-mono q x ps h all), (all, sorted))
  | inr above ↦
      rw (insert_pos, above)
        (
          insert_pos-All x q ps (omega (arith, leb-false q x above)) all,
          insert_pos-IsSorted q ps sorted,
        )
]

sort_positions-IsSorted : (ps : List ℕ) → IsSorted (sort_positions ps)
unfolding sort_positions
sort_positions-IsSorted [] = tt
sort_positions-IsSorted (p ∷ ps) =
    insert_pos-IsSorted p (sort_positions ps) (sort_positions-IsSorted ps)

remove_loop-All :
    (id : Uuid) (p : ℕ) (ps : List ℕ) (m : Dict ℕ Uuid)
    → All (λ x. p ≤ x) ps
    → All (λ x. p ≤ x) (remove_loop id ps m).0
unfolding remove_loop
remove_loop-All id p [] m all = tt
remove_loop-All id p (q ∷ ps) m (here, all) = elim (Bool-cases (owner_of q m === id)) [
  | inl owned ↦ rw (remove_loop, owned) (remove_loop-All id p ps (erase q m) all)
  | inr other ↦ rw (remove_loop, other) (here, remove_loop-All id p ps m all)
]

remove_loop-IsSorted :
    (id : Uuid) (ps : List ℕ) (m : Dict ℕ Uuid) → IsSorted ps → IsSorted (remove_loop id ps m).0
unfolding remove_loop
remove_loop-IsSorted id [] m sorted = tt
remove_loop-IsSorted id (q ∷ ps) m (all, sorted) = elim (Bool-cases (owner_of q m === id)) [
  | inl owned ↦ rw (remove_loop, owned) (remove_loop-IsSorted id ps (erase q m) sorted)
  | inr other ↦
      rw (remove_loop, other) (remove_loop-All id q ps m all, remove_loop-IsSorted id ps m sorted)
]

pub data Call : Type 0 where
  call_add call_remove : Uuid → Call

module _ (checksum : List ℕ → ℕ) where
  abbrev pub call : Call → Ring → Ring
  call (call_add id) r = add_router checksum id r
  call (call_remove id) r = remove_router id r

  abbrev pub calls : List Call → Ring → Ring
  calls [] r = r
  calls (c ∷ cs) r = calls cs (call c r)

  call-IsSorted : (c : Call) (r : Ring) → IsSorted r.positions → IsSorted (call c r).positions
  unfolding add_router remove_router
  call-IsSorted (call_add id) r sorted = elim (Option-cases (lookup id r.routers)) [
    | inr (u, h) ↦ rw (call, add_router, h) sorted
    | inl h ↦ rw (call, add_router, h) (sort_positions-IsSorted _)
  ]
  call-IsSorted (call_remove id) r sorted = elim (Option-cases (lookup id r.routers)) [
    | inl h ↦ rw (call, remove_router, h) sorted
    | inr (u, h) ↦
        rw (call, remove_router, h) (remove_loop-IsSorted id r.positions r.pos_to_router sorted)
  ]

  calls-IsSorted :
      (cs : List Call) (r : Ring) → IsSorted r.positions → IsSorted (calls cs r).positions
  calls-IsSorted [] r sorted = sorted
  calls-IsSorted (c ∷ cs) r sorted = calls-IsSorted cs (call c r) (call-IsSorted c r sorted)

  -- The positions of a ring are sorted after any additions and removals of routers.
  pub new_ring-IsSorted : (cs : List Call) → IsSorted (calls cs new_ring).positions
  new_ring-IsSorted cs = calls-IsSorted cs new_ring tt
