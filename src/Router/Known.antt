-- ===== src/Router/Known.antt =====
-- No merge loses a node that the router knows.
use openpcc.Base.{
  ◌≡◌, Bool, true, ◌||◌, List, [], ◌∷◌, inl, inr, arith, Option-cases, if◌then◌else◌,
}
use openpcc.Base.Dict.{Dict, lookup, insert, list_eq, lookup-insert}
use openpcc.Agent.{NodeEvent, is_some, merge_state, merge_node_event}
use openpcc.Health.{Check}
use openpcc.Router.{
  NodeId, IdSet, Router, merge_entries, merge_event, merge_check, merge_router, merge_health_state,
  merge_healthcheck, empty_agent,
}

merge_entries_known :
    {V : Type 0} (merge_value : V → V → Bool × V)
    → (other : Dict NodeId V) (new updated : IdSet) (m : Dict NodeId V) (k : NodeId)
    → is_some (lookup k m) ≡ true
    → is_some (lookup k (merge_entries merge_value other new updated m).2) ≡ true
unfolding merge_entries
merge_entries_known merge_value [] new updated m k known = known
merge_entries_known merge_value ((key, o) ∷ rest) new updated m k known =
    elim (Option-cases (lookup key m)) [
      | inl h ↦
          let kept : is_some (lookup k (insert key o m)) ≡ true =
            ground (arith, known, lookup-insert k key o m) in
          rw (merge_entries, h)
            (merge_entries_known merge_value rest (insert key tt new) updated (insert key o m) k
              kept)
      | inr (v, h) ↦
          let (changed, merged) = merge_value v o in
          let kept : is_some (lookup k (insert key merged m)) ≡ true =
            ground (arith, known, lookup-insert k key merged m) in
          rw (merge_entries, h)
            (merge_entries_known merge_value rest new
              (if changed then insert key tt updated else updated) (insert key merged m) k kept)
    ]

module _ (RoutingInfo : Type 0) where
  abbrev pub is_known : NodeId → Router RoutingInfo → Bool
  is_known k r = is_some (lookup k r.agents) || is_some (lookup k r.health)

  pub merge_router_known :
      (r other : Router RoutingInfo) (k : NodeId)
      → is_known k r ≡ true
      → is_known k (merge_router RoutingInfo r other).1 ≡ true
  unfolding merge_router
  merge_router_known r other k known =
      let agents = merge_entries_known (merge_state RoutingInfo) other.agents [] [] r.agents k in
      let health = merge_entries_known merge_health_state other.health [] [] r.health k in
      ground (arith, known, agents, health)

  pub merge_event_known :
      (r : Router RoutingInfo) (e : NodeEvent RoutingInfo) (k : NodeId)
      → is_known k r ≡ true
      → is_known k (merge_event RoutingInfo r e).1 ≡ true
  unfolding merge_event
  merge_event_known r e k known = elim (Option-cases (lookup e.node_id r.agents)) [
    | inl h ↦
        let a = (merge_node_event RoutingInfo (empty_agent RoutingInfo) e).1 in
        ground (arith, known, h, lookup-insert k e.node_id a r.agents)
    | inr (v, h) ↦
        let a = (merge_node_event RoutingInfo v e).1 in
        ground (arith, known, h, lookup-insert k e.node_id a r.agents)
  ]

  pub merge_check_known :
      (sort_slice : List Check → List Check) (r : Router RoutingInfo) (hc : Check) (k : NodeId)
      → is_known k r ≡ true
      → is_known k (merge_check RoutingInfo sort_slice r hc).1 ≡ true
  unfolding merge_check
  merge_check_known sort_slice r hc k known = elim (Option-cases (lookup hc.node_id r.health)) [
    | inl h ↦
        let history = (merge_healthcheck sort_slice [] hc).1 in
        ground (arith, known, h, lookup-insert k hc.node_id history r.health)
    | inr (v, h) ↦
        let history = (merge_healthcheck sort_slice v hc).1 in
        ground (arith, known, h, lookup-insert k hc.node_id history r.health)
  ]
