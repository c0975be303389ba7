-- ===== src/Manager.antt =====
-- router/state/manager.go: the manager of a router's state. It evaluates the nodes that change, keeps the
-- routing set by what the evaluation says, evicts nodes, counts those that it knows, and schedules
-- background evaluations. The evaluator is an argument, since it reads the clock; the pool of scheduled
-- evaluations is the list of its entries, of which any can come out next. Adding to it does
-- not fail: it does so just when the manager is closed.
pub mod Loop
pub mod Evaluation
pub mod Reach
pub mod Count
mod Tests
use openpcc.Base.{
  remove_at, ℕ, suc, zero, Bool, true, false, Option, none, some, List, [], ◌∷◌, ◌++◌, not,
  get_elem?, if◌then◌else◌,
}
use openpcc.Base.Int.{ℤ, pos, ◌+ℤ◌, ◌-ℤ◌}
use openpcc.Base.Dict.{Dict, lookup, insert, erase, list_eq}
use openpcc.Health.{Check}
use openpcc.Agent.{Agent, NodeEvent}
use openpcc.Router.{
  NodeId, IdSet, Router, RouterChange, changed_state, is_new_node, node_ids, merge_router,
  merge_event, merge_check,
}
use openpcc.Routing.{update}

module _ (RoutingInfo : Type 0) where
  -- `NodeEvaluator.Evaluate`: the routing information, and the duration until the next evaluation.
  abbrev pub Evaluator : Type 0
  Evaluator = Option (Agent RoutingInfo) → Option (List Check) → Option RoutingInfo × Option ℤ

  pub record Manager : Type 0 where
    pub state : Router RoutingInfo
    pub routing_set : Dict NodeId RoutingInfo
    pub known_node_count : ℤ
    pub bg_evaluations : List (NodeId × ℤ)

  pub new_manager : Manager
  new_manager = record {
    state = record { agents = []; health = [] };
    routing_set = [];
    known_node_count = pos 0;
    bg_evaluations = [];
  }

  -- `Manager.evaluateNode`
  pub evaluate_node :
      Evaluator → NodeId → (schedule_bg_eval : Bool) → Manager → Option RoutingInfo × Manager
  evaluate_node evaluate id schedule_bg_eval m =
      let (info, next_check) = evaluate (lookup id m.state.agents) (lookup id m.state.health) in
      (
        info,
        elim next_check [
          | some duration ↦
              if schedule_bg_eval
              then record m { bg_evaluations = m.bg_evaluations ++ (id, duration) ∷ [] }
              else m
          | none ↦ record m {
            state = record { agents = erase id m.state.agents; health = erase id m.state.health };
            known_node_count = m.known_node_count -ℤ pos 1;
          }
        ],
      )

  -- The loop of `evaluateRouterChange`: the additions and the deletions so far.
  pub evaluate_nodes :
      Evaluator
      → RouterChange
      → IdSet
      → Dict NodeId RoutingInfo
      → List NodeId
      → Manager
      → Dict NodeId RoutingInfo × List NodeId × Manager
  evaluate_nodes evaluate change [] adds dels m = (adds, dels, m)
  evaluate_nodes evaluate change ((id, found) ∷ ids) adds dels m =
      let is_new = is_new_node change id in
      let (info, evaluated) = evaluate_node evaluate id is_new m in
      let counted =
        if is_new
        then record evaluated { known_node_count = evaluated.known_node_count +ℤ pos 1 }
        else evaluated in
      elim info [
        | some i ↦ evaluate_nodes evaluate change ids (insert id i adds) dels counted
        | none ↦ evaluate_nodes evaluate change ids adds (dels ++ id ∷ []) counted
      ]

  -- `Manager.evaluateRouterChange`
  pub evaluate_router_change : Evaluator → RouterChange → Manager → Manager
  evaluate_router_change evaluate change m =
      if not (changed_state change)
      then m
      else (let (adds, dels, evaluated) =
            evaluate_nodes evaluate change (node_ids change) [] [] m in
          record evaluated { routing_set = update adds dels evaluated.routing_set })

  -- `Manager.MergeRouterState`
  pub merge_router_state : Evaluator → Router RoutingInfo → Manager → Manager
  merge_router_state evaluate s m =
      let (change, merged) = merge_router RoutingInfo m.state s in
      evaluate_router_change evaluate change (record m { state = merged })

  -- `Manager.MergeNodeEvent`
  pub merge_node_event : Evaluator → NodeEvent RoutingInfo → Manager → Manager
  merge_node_event evaluate ev m =
      let (change, merged) = merge_event RoutingInfo m.state ev in
      evaluate_router_change evaluate change (record m { state = merged })

  -- `Manager.MergeHealthcheck`
  pub merge_healthcheck :
      (sort_slice : List Check → List Check) → Evaluator → Check → Manager → Manager
  merge_healthcheck sort_slice evaluate hc m =
      let (change, merged) = merge_check RoutingInfo sort_slice m.state hc in
      evaluate_router_change evaluate change (record m { state = merged })

  -- One round of `bgEvaluationWorker`, once the pool has put out the node.
  pub bg_evaluation : Evaluator → NodeId → Manager → Manager
  bg_evaluation evaluate id m =
      let (info, evaluated) = evaluate_node evaluate id true m in
      elim info [
        | some i ↦ record evaluated { routing_set = update ((id, i) ∷ []) [] evaluated.routing_set }
        | none ↦ record evaluated { routing_set = update [] (id ∷ []) evaluated.routing_set }
      ]

  -- The entry at an index of the pool comes out, and its node is evaluated.
  pub bg_evaluation_worker : Evaluator → ℕ → Manager → Manager
  bg_evaluation_worker evaluate i m = elim (get_elem? m.bg_evaluations i) [
    | none ↦ m
    | some entry ↦
        bg_evaluation evaluate entry.0 (record m { bg_evaluations = remove_at i m.bg_evaluations })
  ]
