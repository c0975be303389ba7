-- ===== src/Router/Merging.antt =====
-- Merging a router's state into another, id by id.
use openpcc.Base.{
  ◌≡◌, refl, Bool, true, false, ◌||◌, Option, none, some, [], ◌∷◌, inl, inr, Bool-cases,
  Option-cases, arith, if◌then◌else◌,
}
use openpcc.Base.Dict.{Dict, lookup, insert, list_eq, ◌===◌, eq_of_beq, lookup-insert}
use openpcc.Base.Keys.{HasKeysOnce}
use openpcc.Router.{NodeId, IdSet, has, merge_entries, merge_health_state, merge_router, Router}
use openpcc.Agent.{merge_state}
use openpcc.Agent.Merging.{merge_state_lem, merge_state_self}

module _ {V : Type 0} (merge_value : V → V → Bool × V) where
  -- What becomes of an id with the values of the two maps.
  abbrev pub joined : Option V → Option V → Option V
  joined a none = a
  joined none (some b) = some b
  joined (some a) (some b) = some (merge_value a b).1

  abbrev pub is_new : Option V → Option V → Bool
  is_new none (some b) = true
  is_new _ _ = false

  abbrev pub is_updated : Option V → Option V → Bool
  is_updated (some a) (some b) = (merge_value a b).0
  is_updated _ _ = false

  abbrev pub Merges :
      (other : Dict NodeId V) (new updated : IdSet) (m : Dict NodeId V) → NodeId → Type 0
  Merges other new updated m k =
      let (new', updated', m') = merge_entries merge_value other new updated m in
      (lookup k m' ≡ joined (lookup k m) (lookup k other))
      × (has k new' ≡ has k new || is_new (lookup k m) (lookup k other))
      × (has k updated' ≡ has k updated || is_updated (lookup k m) (lookup k other))

  has-insert : (k key : NodeId) (s : IdSet) → has k (insert key tt s) ≡ (k === key) || has k s
  has-insert k key s = elim (Bool-cases (k === key)) [
    | inl same ↦ rw (same, has, lookup-insert k key tt s, same)
    | inr other ↦ rw (other, has, lookup-insert k key tt s, other)
  ]

  entry :
      (k key : NodeId) (o : V) (rest m : Dict NodeId V)
      → lookup key rest ≡ none
      → (k === key) ≡ true
      → (lookup k rest ≡ none) × (lookup k m ≡ lookup key m)
  entry k key o rest m absent same = rw (eq_of_beq k key same) (absent, refl)

  merge_entries_lem :
      (other : Dict NodeId V) (new updated : IdSet) (m : Dict NodeId V) (k : NodeId)
      → HasKeysOnce other
      → Merges other new updated m k
  unfolding merge_entries lookup
  merge_entries_lem [] new updated m k once = ground arith
  merge_entries_lem ((key, o) ∷ rest) new updated m k once = elim (Option-cases (lookup key m)) [
    | inl h ↦
        let ih = merge_entries_lem rest (insert key tt new) updated (insert key o m) k once.1 in
        let at_key = entry k key o rest m once.0 in
        elim (Bool-cases (k === key)) [
          | inl same ↦
              rw (Merges, merge_entries, h, same)
                (ground (arith, ih, at_key same, lookup-insert k key o m, has-insert k key new))
          | inr differs ↦
              rw (Merges, merge_entries, h, differs)
                (ground (arith, ih, lookup-insert k key o m, has-insert k key new))
        ]
    | inr (known, h) ↦
        let changed = (merge_value known o).0 in
        let merged = (merge_value known o).1 in
        let updated' = if changed then insert key tt updated else updated in
        let ih = merge_entries_lem rest new updated' (insert key merged m) k once.1 in
        let at_key = entry k key o rest m once.0 in
        elim (Bool-cases (k === key)) [
          | inl same ↦
              rw (Merges, merge_entries, h, same)
                (ground
                  (arith, ih, at_key same, lookup-insert k key merged m, has-insert k key updated))
          | inr differs ↦
              rw (Merges, merge_entries, h, differs)
                (ground (arith, ih, lookup-insert k key merged m, has-insert k key updated))
        ]
  ]

module _ (RoutingInfo : Type 0) where
  -- Merging another router's state, whose two maps have a node once, goes node by node: a node that
  -- just one router knows keeps its agent state and its history; what both know is merged; the new
  -- nodes are those that only the other knows, and the updated ones those whose merge reports it.
  pub merge_router_lem :
      (r other : Router RoutingInfo) (id : NodeId)
      → HasKeysOnce other.agents
      → HasKeysOnce other.health
      → let (change, merged) = merge_router RoutingInfo r other in
        let known = lookup id r.agents in
        let sent = lookup id other.agents in
        let history = lookup id r.health in
        let sent_history = lookup id other.health in
        (lookup id merged.agents ≡ joined (merge_state RoutingInfo) known sent)
        × (lookup id merged.health ≡ joined merge_health_state history sent_history)
        × (has id change.new_agents ≡ is_new (merge_state RoutingInfo) known sent)
        × (has id change.updated_agents ≡ is_updated (merge_state RoutingInfo) known sent)
        × (has id change.new_health ≡ is_new merge_health_state history sent_history)
        × (has id change.updated_health ≡ is_updated merge_health_state history sent_history)
  unfolding merge_router lookup
  merge_router_lem r other id once once_health =
      let agents =
        merge_entries_lem (merge_state RoutingInfo) other.agents [] [] r.agents id once in
      let health =
        merge_entries_lem merge_health_state other.health [] [] r.health id once_health in
      (agents.0, health.0, agents.1, agents.2, health.1, health.2)

  -- The agents' part of a merge settles: merging the same state of another router again, in which a
  -- node stands once, leaves the agent state of every node and reports none as new or updated.
  pub merge_router_settled :
      (r other : Router RoutingInfo) (id : NodeId)
      → HasKeysOnce other.agents
      → HasKeysOnce other.health
      → let merged = (merge_router RoutingInfo r other).1 in
        let (change, again) = merge_router RoutingInfo merged other in
        (lookup id again.agents ≡ lookup id merged.agents)
        × (has id change.new_agents ≡ false)
        × (has id change.updated_agents ≡ false)
  merge_router_settled r other id once once_health =
      let merged = (merge_router RoutingInfo r other).1 in
      let first = merge_router_lem r other id once once_health in
      let second = merge_router_lem merged other id once once_health in
      elim (Option-cases (lookup id r.agents)) [
        | inl h ↦ elim (Option-cases (lookup id other.agents)) [
          | inl h' ↦ ground (arith, first, second, h, h')
          | inr (o, h') ↦ ground (arith, first, second, h, h', merge_state_self RoutingInfo o)
        ]
        | inr (a, h) ↦ elim (Option-cases (lookup id other.agents)) [
          | inl h' ↦ ground (arith, first, second, h, h')
          | inr (o, h') ↦ ground (arith, first, second, h, h', merge_state_lem RoutingInfo a o)
        ]
      ]
