-- ===== src/Routing.antt =====
-- router/routing_set.go and node_evaluation.go: the set of nodes that a router routes to, and the
-- evaluation that decides on a node.
pub mod Sets
pub mod Grading
pub mod Query
mod Tests
use openpcc.Base.{
  ℕ, suc, zero, Bool, true, false, Option, none, some, List, [], ◌∷◌, ◌++◌, if◌then◌else◌, length,
}
use openpcc.Base.Int.{ℤ, pos, ◌-ℤ◌, ltb_ℤ, leb_ℤ}
use openpcc.Base.Dict.{Dict, lookup, insert, erase, list_eq, int_eq, ◌===◌}
use openpcc.Health.{
  Check, GraderConfig, grade, Status, status_ok, status_unknown, status_unavailable,
}
use openpcc.Agent.{Agent}
use openpcc.Router.{NodeId}

module _ {RoutingInfo : Type 0} where
  -- The loop of `Update` over the additions.
  pub add_nodes : Dict NodeId RoutingInfo → Dict NodeId RoutingInfo → Dict NodeId RoutingInfo
  add_nodes [] nodes = nodes
  add_nodes ((id, info) ∷ add) nodes = add_nodes add (insert id info nodes)

  -- The loop of `Update` over the deletions.
  pub delete_nodes : List NodeId → Dict NodeId RoutingInfo → Dict NodeId RoutingInfo
  delete_nodes [] nodes = nodes
  delete_nodes (id ∷ deletes) nodes = delete_nodes deletes (erase id nodes)

  -- `routingSet.Update`
  pub update :
      Dict NodeId RoutingInfo → List NodeId → Dict NodeId RoutingInfo → Dict NodeId RoutingInfo
  update add deletes nodes = delete_nodes deletes (add_nodes add nodes)

  -- `routingSet.Len`
  pub len : Dict NodeId RoutingInfo → ℕ
  len nodes = length nodes

  -- The loop of `queryComputeManifests`: `contains_all` is the test of a node's tags, `list` what is found.
  pub query_loop :
      {Manifest : Type 0}
      → (contains_all : RoutingInfo → Bool) → (NodeId → RoutingInfo → Manifest)
      → (limit : ℤ) → Dict NodeId RoutingInfo
      → List Manifest
      → List Manifest
  query_loop contains_all manifest limit [] list = list
  query_loop contains_all manifest limit ((id, node) ∷ nodes) list =
      let found = query_loop contains_all manifest limit nodes (list ++ manifest id node ∷ []) in
      let rest = query_loop contains_all manifest limit nodes list in
      if pos (length list) === limit then list else if contains_all node then found else rest

  -- `routingSet.queryComputeManifests`
  pub query_compute_manifests :
      {Manifest : Type 0}
      → (contains_all : RoutingInfo → Bool) → (NodeId → RoutingInfo → Manifest)
      → (limit : ℤ) → Dict NodeId RoutingInfo
      → List Manifest
  query_compute_manifests contains_all manifest limit nodes =
      let list = query_loop contains_all manifest limit nodes [] in
      if leb_ℤ limit (pos 0) then [] else list

  -- `routingSet.queryRoutingInfoForCandidates`
  pub query_routing_info_for_candidates :
      List NodeId → Dict NodeId RoutingInfo → List (NodeId × RoutingInfo)
  query_routing_info_for_candidates [] nodes = []
  query_routing_info_for_candidates (candidate ∷ candidates) nodes =
      let out = query_routing_info_for_candidates candidates nodes in
      elim (lookup candidate nodes) [ none ↦ out | some info ↦ (candidate, info) ∷ out ]

-- What an evaluation does: it returns, or dereferences a nil agent.
pub data Evaluation (RoutingInfo : Type 0) : Type 0 where
  returns : Option RoutingInfo → Option ℤ → Evaluation RoutingInfo
  panics : Evaluation RoutingInfo

module _ (RoutingInfo : Type 0) where
  -- The end of `GradedNodeEvaluator`, once nothing in the agent evicts the node.
  pub evaluate_graded :
      GraderConfig
      → (interval : ℤ) → (now : ℤ) → Option (Agent RoutingInfo)
      → Option (List Check)
      → Evaluation RoutingInfo
  evaluate_graded cfg interval now a nh =
      let history : List Check = elim nh [ none ↦ [] | some h ↦ h ] in
      elim (grade cfg now history) [
        | status_ok ↦ elim a [
          | none ↦ panics
          | some agent ↦ returns agent.routing_info (some interval)
        ]
        | status_unknown ↦ returns none (some interval)
        | status_unavailable ↦ returns none none
      ]

  -- `GradedNodeEvaluator`
  pub graded_node_evaluator :
      GraderConfig
      → (interval : ℤ) → (now : ℤ) → Option (Agent RoutingInfo)
      → Option (List Check)
      → Evaluation RoutingInfo
  graded_node_evaluator cfg interval now none none = returns none none
  graded_node_evaluator cfg interval now none (some h) =
      evaluate_graded cfg interval now none (some h)
  graded_node_evaluator cfg interval now (some a) nh = elim (a.shutdown_at) [
    | some t ↦ returns none none
    | none ↦
        if ltb_ℤ a.last_event_timestamp (now -ℤ pos cfg.max_age)
        then returns none none
        else evaluate_graded cfg interval now (some a) nh
  ]
