-- ===== src/Ring.antt =====
-- router/ring.go: the ring of consistent hashing, by which the routers share the health checks of the nodes.
-- The checksum of the standard library is a parameter. A map is an association list, whose loops are in
-- the order of its entries; the lock is left out.
pub mod Keeping
pub mod Sorted
mod Tests
use openpcc.Base.{
  ℕ, suc, zero, ◌+◌, ◌/◌, ◌%◌, ◌^◌, Bool, true, false, not, ◌&&◌, ◌==◌, ltb, leb, Option, none,
  some, List, [], ◌∷◌, ◌++◌, length, get_elem?, if◌then◌else◌,
}
use openpcc.Base.Dict.{Dict, lookup, insert, erase, nat_eq, list_eq, ◌===◌}

-- `uuid.UUID`
abbrev pub Uuid : Type 0
Uuid = List ℕ

abbrev pub virtual_nodes_per_router : ℕ
virtual_nodes_per_router = 100

pub record Ring : Type 0 where
  pub routers : Dict Uuid (Unit {0})
  pub pos_to_router : Dict ℕ Uuid
  pub positions : List ℕ

-- `newRing`
abbrev pub new_ring : Ring
new_ring = record { routers = []; pos_to_router = []; positions = [] }

-- `binary.BigEndian.PutUint32`
pub big_endian : ℕ → List ℕ
big_endian i = (i / 2 ^ 24 % 256) ∷ (i / 2 ^ 16 % 256) ∷ (i / 2 ^ 8 % 256) ∷ (i % 256) ∷ []

pub insert_pos : ℕ → List ℕ → List ℕ
insert_pos p [] = p ∷ []
insert_pos p (q ∷ qs) = let rest = insert_pos p qs in if leb p q then p ∷ q ∷ qs else q ∷ rest

-- `slices.Sort`
pub sort_positions : List ℕ → List ℕ
sort_positions [] = []
sort_positions (p ∷ ps) = insert_pos p (sort_positions ps)

-- 16 zero bytes, which a map of identifiers gives for a missing key
abbrev pub zero_uuid : Uuid
zero_uuid = 0 ∷ 0 ∷ 0 ∷ 0 ∷ 0 ∷ 0 ∷ 0 ∷ 0 ∷ 0 ∷ 0 ∷ 0 ∷ 0 ∷ 0 ∷ 0 ∷ 0 ∷ 0 ∷ []

abbrev pub or_zero : Option Uuid → Uuid
or_zero none = zero_uuid
or_zero (some id) = id

-- `r.posToRouter[pos]`
abbrev pub owner_of : ℕ → Dict ℕ Uuid → Uuid
owner_of pos pos_to_router = or_zero (lookup pos pos_to_router)

-- The loop of `removeRouter`, with the new positions in order.
pub remove_loop : Uuid → List ℕ → Dict ℕ Uuid → List ℕ × Dict ℕ Uuid
remove_loop router_id [] pos_to_router = ([], pos_to_router)
remove_loop router_id (pos ∷ positions) pos_to_router =
    let (kept, kept_map) = remove_loop router_id positions pos_to_router in
    let (others, others_map) = remove_loop router_id positions (erase pos pos_to_router) in
    if owner_of pos pos_to_router === router_id
    then (others, others_map)
    else (pos ∷ kept, kept_map)

-- `ring.removeRouter`
pub remove_router : Uuid → Ring → Ring
remove_router router_id r = elim (lookup router_id r.routers) [
  | none ↦ r
  | some found ↦
      let (new_positions, pos_to_router) = remove_loop router_id r.positions r.pos_to_router in
      record {
        routers = erase router_id r.routers;
        pos_to_router = pos_to_router;
        positions = new_positions;
      }
]

module _ (checksum : List ℕ → ℕ) where
  -- The loop of `addRouter`, over the virtual nodes from `i` on.
  pub add_loop : Uuid → (rest i : ℕ) → Ring → Ring
  add_loop router_id zero i r = r
  add_loop router_id (suc rest) i r =
      let pos = checksum (big_endian i ++ router_id) in
      add_loop router_id rest (suc i) (record r {
        pos_to_router = insert pos router_id r.pos_to_router;
        positions = r.positions ++ (pos ∷ []);
      })

  -- `ring.addRouter`
  pub add_router : Uuid → Ring → Ring
  add_router router_id r = elim (lookup router_id r.routers) [
    | some found ↦ r
    | none ↦
        let added =
          add_loop router_id virtual_nodes_per_router 0
            (record r { routers = insert router_id tt r.routers }) in
        record added { positions = sort_positions added.positions }
  ]

  -- `nodePosition`
  abbrev pub NodePosition : Type 0
  NodePosition = Uuid × ℕ

  pub insert_node : NodePosition → List NodePosition → List NodePosition
  insert_node np [] = np ∷ []
  insert_node np (nq ∷ nqs) =
      let rest = insert_node np nqs in if leb np.1 nq.1 then np ∷ nq ∷ nqs else nq ∷ rest

  -- The positions of the nodes, sorted.
  pub node_positions : {Url : Type 0} → Dict Uuid Url → List NodePosition
  node_positions [] = []
  node_positions ((id, url) ∷ nodes) = insert_node (id, checksum id) (node_positions nodes)

  abbrev move_on : Option ℕ → (pos_index position : ℕ) → ℕ
  move_on none pos_index position = pos_index
  move_on (some p) pos_index position = if ltb p position then suc pos_index else pos_index

  -- The owner of the position at an index, which is in range.
  abbrev pub owner_at : Ring → Option ℕ → Uuid
  owner_at r none = zero_uuid
  owner_at r (some p) = owner_of p r.pos_to_router

  -- The index of the position that a node goes to: it moves by at most one, and wraps around.
  pub next_index : List ℕ → (pos_index position : ℕ) → ℕ
  next_index positions pos_index position =
      let moved = move_on (get_elem? positions pos_index) pos_index position in
      if moved == length positions then 0 else moved

  -- The loop of `queryHealthcheckURLs`: the nodes of a router.
  pub query_loop : Uuid → Ring → List NodePosition → (pos_index : ℕ) → List Uuid
  query_loop router_id r [] pos_index = []
  query_loop router_id r (np ∷ nps) pos_index =
      let i = next_index r.positions pos_index np.1 in
      let rest = query_loop router_id r nps i in
      if owner_at r (get_elem? r.positions i) === router_id then np.0 ∷ rest else rest

  -- `ring.queryHealthcheckURLs`, the keys of its result; without positions or nodes there are none.
  pub query_healthcheck_nodes : {Url : Type 0} → Uuid → Ring → Dict Uuid Url → List Uuid
  query_healthcheck_nodes router_id r nodes =
      if length r.positions == 0 then [] else query_loop router_id r (node_positions nodes) 0

-- `ring.Len`
pub ring_length : Ring → ℕ
ring_length r = length r.routers
