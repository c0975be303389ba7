-- ===== src/Routing/Sets.antt =====
-- What an update of the routing set leaves of each node.
use openpcc.Base.{
  ◌≡◌, refl, Bool, false, ◌||◌, none, List, [], ◌∷◌, ◌++◌, inl, inr, arith, Bool-cases,
  if◌then◌else◌,
}
use openpcc.Base.Dict.{
  Dict, lookup, insert, erase, list_eq, ◌===◌, eq_of_beq, lookup-insert, lookup-erase,
}
use openpcc.Base.Keys.{HasKeysOnce}
use openpcc.Agent.{or_else}
use openpcc.Router.{NodeId}
use openpcc.Routing.{add_nodes, delete_nodes, update}

abbrev pub listed : NodeId → List NodeId → Bool
listed k [] = false
listed k (id ∷ ids) = (k === id) || listed k ids

pub listed-append :
    (k id : NodeId) (ids : List NodeId) → listed k (ids ++ id ∷ []) ≡ listed k ids || (k === id)
listed-append k id [] = ground arith
listed-append k id (j ∷ ids) = ground (arith, listed-append k id ids)

module _ {RoutingInfo : Type 0} where
  lookup-add_nodes :
      (k : NodeId) (add nodes : Dict NodeId RoutingInfo)
      → HasKeysOnce add
      → lookup k (add_nodes add nodes) ≡ or_else (lookup k add) (lookup k nodes)
  unfolding add_nodes lookup
  lookup-add_nodes k [] nodes once = refl
  lookup-add_nodes k ((id, info) ∷ add) nodes once =
      let ih = lookup-add_nodes k add (insert id info nodes) once.1 in
      elim (Bool-cases (k === id)) [
        | inl same ↦
            let absent : lookup k add ≡ none = rw (eq_of_beq k id same) once.0 in
            ground (arith, ih, same, absent, lookup-insert k id info nodes)
        | inr other ↦ ground (arith, ih, other, lookup-insert k id info nodes)
      ]

  lookup-delete_nodes :
      (k : NodeId) (deletes : List NodeId) (nodes : Dict NodeId RoutingInfo)
      → lookup k (delete_nodes deletes nodes) ≡ (if listed k deletes then none else lookup k nodes)
  unfolding delete_nodes
  lookup-delete_nodes k [] nodes = refl
  lookup-delete_nodes k (id ∷ deletes) nodes =
      ground (arith, lookup-delete_nodes k deletes (erase id nodes), lookup-erase k id nodes)

  -- With no node twice among the additions, an update takes the deleted nodes out, and gives the other
  -- added ones their new routing information; all else stays.
  pub lookup-update :
      (k : NodeId) (add : Dict NodeId RoutingInfo) (deletes : List NodeId)
      (nodes : Dict NodeId RoutingInfo)
      → HasKeysOnce add
      → lookup k (update add deletes nodes)
        ≡ (if listed k deletes then none else or_else (lookup k add) (lookup k nodes))
  unfolding update
  lookup-update k add deletes nodes once = ground (
    arith,
    lookup-delete_nodes k deletes (add_nodes add nodes),
    lookup-add_nodes k add nodes once,
  )
